-- ===== src/Parser/NonEmpty.antt =====
-- What the arguments of an accepted line look like.
use epic_kfc.Base.{ℕ, QString, List, [], ◌∷◌, ◌≡◌, ◌≢◌, arith, All, All-append}
use epic_kfc.Models.{success}
use epic_kfc.Platform.{Qt}
use epic_kfc.Parser.{
  Tokens, no_tokens, token_step, scan, finish, tokenize_arguments, end_argument, end_escape,
}

abbrev pub IsNonEmpty : QString → Type 0
IsNonEmpty s = s ≢ []

end_argument-All :
    (t : Tokens) → All IsNonEmpty t.arguments → All IsNonEmpty (end_argument t).arguments
unfolding end_argument
end_argument-All t h = go t.current
  where
    go : (c : QString) → All IsNonEmpty (end_argument (record t { current = c })).arguments
    go [] = h
    go (x ∷ xs) = All-append IsNonEmpty t.arguments ((x ∷ xs) ∷ []) h ((λ e. cc), tt)

end_escape-All : (t : Tokens) → All IsNonEmpty t.arguments → All IsNonEmpty (end_escape t).arguments
unfolding end_escape
end_escape-All t h = ground arith

module _ (qt : Qt) where
  token_step-All :
      (t : Tokens) (c : ℕ)
      → All IsNonEmpty t.arguments
      → All IsNonEmpty (token_step qt t c).arguments
  unfolding token_step
  token_step-All t c h = ground (arith, end_argument-All t h)

  scan-All :
      (t : Tokens) (s : QString)
      → All IsNonEmpty t.arguments
      → All IsNonEmpty (scan qt t s).arguments
  unfolding scan
  scan-All t [] h = h
  scan-All t (c ∷ s) h = scan-All (token_step qt t c) s (token_step-All t c h)

  finish-All :
      (t : Tokens) (args : List QString)
      → All IsNonEmpty t.arguments
      → finish qt t ≡ success args
      → All IsNonEmpty args
  unfolding finish
  finish-All t args h e =
      let same : (end_argument (end_escape t)).arguments ≡ args = ground arith in
      rw (← same) (end_argument-All (end_escape t) (end_escape-All t h))

  -- No argument of an accepted line is empty: `""` on the command line is dropped.
  pub tokenize_arguments-All_nonempty :
      (s : QString) (args : List QString)
      → tokenize_arguments qt s ≡ success args
      → All IsNonEmpty args
  unfolding tokenize_arguments
  tokenize_arguments-All_nonempty s args e =
      finish-All (scan qt no_tokens s) args (scan-All no_tokens s tt) e
