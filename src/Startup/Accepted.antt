-- ===== src/Startup/Accepted.antt =====
-- What holds of every configuration that the command line's parser accepts.
use epic_kfc.Base.{
  QString, text, text_eq, text_eq_iff, is_empty, Bool, true, false, not, ◌&&◌, List, [], ◌∷◌, ◌≡◌,
  ◌≢◌, refl, arith, is_positive,
}
use epic_kfc.Models.{
  ClientMode, StartupConfig, success, >>=-eq-success, success-injective, guard_passed,
}
use epic_kfc.Platform.{Qt}
use epic_kfc.Startup.{
  Progress, Paths, take_argument, parse_loop, accept, accept_real, accept_mode, initial_progress,
  parse, next_value,
}

-- A step keeps what it should not change. `--debug` decides on mock mode without an address.
abbrev pub IsProgress : Progress → Type 0
IsProgress p =
    (is_positive p.config.device_id ≡ true)
    × (p.debug_mode ≡ true
        → (p.config.mode ≡ ClientMode.mock)
          × (p.config.api_url ≡ [])
          × (p.config.show_raw_errors ≡ true))

module _ (qt : Qt) where
  take_argument-IsProgress :
      (argument value : QString) (p : Progress) (r : Progress × Bool)
      → IsProgress p
      → take_argument qt argument value p ≡ success r
      → IsProgress r.0
  unfolding take_argument
  take_argument-IsProgress argument value p r h e = ground arith

  pub parse_loop-IsProgress :
      (skip : Bool) (arguments : List QString) (p p' : Progress)
      → IsProgress p
      → parse_loop qt skip arguments p ≡ success p'
      → IsProgress p'
  unfolding parse_loop
  parse_loop-IsProgress skip [] p p' h e = ground arith
  parse_loop-IsProgress true (argument ∷ rest) p p' h e = parse_loop-IsProgress false rest p p' h e
  parse_loop-IsProgress false (argument ∷ rest) p p' h e =
      let (r, taken, looped) =
        >>=-eq-success (take_argument qt argument (next_value rest) p)
          (λ r. parse_loop qt r.1 rest r.0) e in
      parse_loop-IsProgress r.1 rest r.0 p'
        (take_argument-IsProgress argument (next_value rest) p r h taken) looped

  pub accept_inv :
      (p : Progress) (config : StartupConfig)
      → accept qt p ≡ success config
      → (p.config ≡ config)
        × (p.debug_mode && p.api_url_provided ≡ false)
        × (config.mode ≡ ClientMode.real
            → (config.api_url ≢ []) × (qt.scheme config.api_url ≡ text "https"))
  unfolding accept accept_real
  accept_inv p config e =
      let (passed, rest) = guard_passed (p.debug_mode && p.api_url_provided) _ _ e in
      let (same, secure) = by_mode p.config.mode p.config refl rest in (same, passed, secure)
    where
      by_mode :
          (mode : ClientMode) (c : StartupConfig)
          → c.mode ≡ mode
          → accept_mode qt mode c ≡ success config
          → (c ≡ config)
            × (config.mode ≡ ClientMode.real
                → (config.api_url ≢ []) × (qt.scheme config.api_url ≡ text "https"))
      by_mode ClientMode.mock c m e = let same = success-injective e in (same, λ r. ground arith)
      by_mode ClientMode.real c m e =
          let (given, rest) = guard_passed (is_empty c.api_url) _ _ e in
          let (secure, made) =
            guard_passed (not (text_eq (qt.scheme c.api_url) (text "https"))) _ _ rest in
          let same = success-injective made in
          rw (← same) (
            refl,
            λ r. (
              λ n. ground arith,
              ground (arith, text_eq_iff (qt.scheme c.api_url) (text "https")),
            ),
          )

  -- A configuration that is accepted has a positive device id, and in real mode it has an
  -- address, whose scheme is https.
  pub parse-IsAccepted :
      (paths : Paths) (arguments : List QString) (config : StartupConfig)
      → parse qt paths arguments ≡ success config
      → (is_positive config.device_id ≡ true)
        × (config.mode ≡ ClientMode.real
            → (config.api_url ≢ []) × (qt.scheme config.api_url ≡ text "https"))
  unfolding parse initial_progress
  parse-IsAccepted paths arguments config e =
      let (p, looped, accepted) =
        >>=-eq-success (parse_loop qt false arguments (initial_progress paths)) (accept qt) e in
      let (same, _, secure) = accept_inv p config accepted in
      let (positive, _) =
        parse_loop-IsProgress false arguments (initial_progress paths) p (refl, λ h. cc) looped in
      (rw (← same) positive, secure)
