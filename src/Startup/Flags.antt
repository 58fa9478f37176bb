-- ===== src/Startup/Flags.antt =====
-- What the flags of the command line do to the configuration that is read.
use epic_kfc.Base.{
  ℤ, QString, text, text_eq, is_empty, Bool, true, false, List, [], ◌∷◌, ◌≡◌, sym, ap, ◌∙◌, refl,
  arith, some, is_positive, if◌then◌else◌,
}
use epic_kfc.Models.{ClientMode, StartupConfig, success, >>=-eq-success}
use epic_kfc.Platform.{Qt}
use epic_kfc.Startup.{
  Progress, Paths, take_argument, parse_loop, accept, accept_real, initial_progress, parse,
  next_value,
}
use epic_kfc.Startup.Accepted.{parse_loop-IsProgress, accept_inv}

abbrev spelled : QString → QString → QString → Bool → List QString
spelled api_url device_id state_path raw =
    text "--mode"
    ∷ text "real"
    ∷ text "--api-url"
    ∷ api_url
    ∷ text "--device-id"
    ∷ device_id
    ∷ text "--state-path"
    ∷ state_path
    ∷ (if raw then text "--debug-errors" ∷ [] else [])

-- the command line that says everything of a configuration in real mode, with its device id as
-- it is printed
abbrev pub command_line : StartupConfig → QString → List QString
command_line config device_id =
    spelled config.api_url device_id config.state_path config.show_raw_errors

module _ (qt : Qt) where
  debug_stays :
      (argument value : QString) (p : Progress) (r : Progress × Bool)
      → p.debug_mode ≡ true
      → take_argument qt argument value p ≡ success r
      → r.0.debug_mode ≡ true
  unfolding take_argument
  debug_stays argument value p r h e = ground arith

  debug_stays_loop :
      (skip : Bool) (arguments : List QString) (p p' : Progress)
      → p.debug_mode ≡ true
      → parse_loop qt skip arguments p ≡ success p'
      → p'.debug_mode ≡ true
  unfolding parse_loop
  debug_stays_loop skip [] p p' h e = ground arith
  debug_stays_loop true (argument ∷ rest) p p' h e = debug_stays_loop false rest p p' h e
  debug_stays_loop false (argument ∷ rest) p p' h e =
      let (r, taken, looped) =
        >>=-eq-success (take_argument qt argument (next_value rest) p)
          (λ r. parse_loop qt r.1 rest r.0) e in
      debug_stays_loop r.1 rest r.0 p' (debug_stays argument (next_value rest) p r h taken) looped

  -- A command line that starts with `--debug` leads, if it is accepted, to mock mode without an
  -- address and with raw errors, whatever its other arguments are.
  pub parse_debug :
      (paths : Paths) (rest : List QString) (config : StartupConfig)
      → parse qt paths (text "--debug" ∷ rest) ≡ success config
      → (config.mode ≡ ClientMode.mock) × (config.api_url ≡ []) × (config.show_raw_errors ≡ true)
  unfolding parse initial_progress parse_loop take_argument text_eq
  parse_debug paths rest config e =
      let (p, looped, accepted) = >>=-eq-success (parse_loop qt false rest _) (accept qt) e in
      let (same, _, _) = accept_inv qt p config accepted in
      let (_, debug) =
        parse_loop-IsProgress qt false rest _ p (refl, λ h. (refl, refl, refl)) looped in
      rw (← same) (debug (debug_stays_loop false rest _ p refl looped))

  parse-spelled :
      (paths : Paths) (api_url printed state_path : QString) (device_id : ℤ) (raw : Bool)
      → qt.to_lower (text "real") ≡ text "real"
      → qt.to_int printed ≡ some device_id
      → is_positive device_id ≡ true
      → is_empty api_url ≡ false
      → qt.scheme api_url ≡ text "https"
      → parse qt paths (spelled api_url printed state_path raw)
        ≡ success (record {
          mode = ClientMode.real;
          api_url = api_url;
          device_id = device_id;
          state_path = state_path;
          state_path_explicit = true;
          show_raw_errors = raw;
        })
  unfolding parse initial_progress parse_loop take_argument text_eq accept accept_real
  parse-spelled paths api_url printed state_path device_id true lower number positive given secure =
      rw (lower, number, positive, given, secure)
  parse-spelled paths api_url printed state_path device_id false lower number positive given
        secure =
      rw (lower, number, positive, given, secure)

  -- A configuration in real mode with an https address, a positive device id and a path of its
  -- own is read back from a command line that spells it out.
  pub parse-command_line :
      (paths : Paths) (config : StartupConfig) (printed : QString)
      → qt.to_lower (text "real") ≡ text "real"
      → qt.to_int printed ≡ some config.device_id
      → is_positive config.device_id ≡ true
      → config.mode ≡ ClientMode.real
      → config.state_path_explicit ≡ true
      → is_empty config.api_url ≡ false
      → qt.scheme config.api_url ≡ text "https"
      → parse qt paths (command_line config printed) ≡ success config
  parse-command_line paths config printed lower number positive real explicit given secure =
      parse-spelled paths config.api_url printed config.state_path config.device_id
        config.show_raw_errors lower number positive given secure
      ∙ ap (λ m. success (record config { mode = m; state_path_explicit = true })) (sym real)
      ∙ ap (λ b. success (record config { state_path_explicit = b })) (sym explicit)
