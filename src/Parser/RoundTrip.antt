-- ===== src/Parser/RoundTrip.antt =====
-- Arguments that are quoted and escaped come back from the parser as they were.
use epic_kfc.Base.{
  ℕ, QString, true, false, ◌||◌, List, [], ◌∷◌, ◌++◌, ◌≡◌, if◌then◌else◌, nat_eq, arith, refl, ap,
  ◌∙◌, All, append-nil, append_assoc, Bool-cases, inl, inr,
}
use epic_kfc.Models.{success}
use epic_kfc.Platform.{Qt, QtLaws}
use epic_kfc.Parser.{Tokens, token_step, scan, finish, tokenize_arguments, end_argument}
use epic_kfc.Parser.NonEmpty.{IsNonEmpty}

-- An argument as a user can type it: `"` and `\` behind a backslash, quotes around the whole.
unfoldable pub escape : QString → QString
escape [] = []
escape (c ∷ s) =
    let rest = escape s in if nat_eq c b'"' || nat_eq c b'\\' then b'\\' ∷ c ∷ rest else c ∷ rest

unfoldable pub quote : QString → QString
unfolding escape
quote s = b'"' ∷ (escape s ++ b'"' ∷ [])

-- Each argument behind a space.
unfoldable pub render : List QString → QString
unfolding quote
render [] = []
render (arg ∷ args) = b' ' ∷ (quote arg ++ render args)

abbrev quoting : List QString → QString → Tokens
quoting args cur = record { arguments = args; current = cur; in_quote = true; escaping = false }

abbrev pub between : List QString → QString → Tokens
between args cur = record { arguments = args; current = cur; in_quote = false; escaping = false }

abbrev pub flush : List QString → QString → List QString
flush args [] = args
flush args (c ∷ s) = args ++ (c ∷ s) ∷ []

flush_argument :
    (args : List QString) (arg : QString) (more : List QString)
    → IsNonEmpty arg
    → flush args arg ++ more ≡ args ++ arg ∷ more
flush_argument args [] more ne = absurd (ne refl)
flush_argument args (c ∷ arg) more ne = append_assoc args ((c ∷ arg) ∷ []) more

module _ {qt : Qt} (laws : QtLaws qt) where
  scan-append : (t : Tokens) (s r : QString) → scan qt t (s ++ r) ≡ scan qt (scan qt t s) r
  unfolding scan
  scan-append t [] r = refl
  scan-append t (c ∷ s) r = scan-append (token_step qt t c) s r

  step_plain :
      (args : List QString) (cur : QString) (c : ℕ)
      → (nat_eq c b'"' || nat_eq c b'\\') ≡ false
      → token_step qt (quoting args cur) c ≡ quoting args (cur ++ c ∷ [])
  unfolding token_step
  step_plain args cur c h = ground arith

  step_escaped :
      (args : List QString) (cur : QString) (c : ℕ) (r : QString)
      → scan qt (quoting args cur) (b'\\' ∷ c ∷ r) ≡ scan qt (quoting args (cur ++ c ∷ [])) r
  unfolding scan token_step
  step_escaped args cur c r = refl

  scan-escape :
      (args : List QString) (cur s : QString)
      → scan qt (quoting args cur) (escape s) ≡ quoting args (cur ++ s)
  unfolding scan escape
  scan-escape args cur [] = rw append-nil
  scan-escape args cur (c ∷ s) =
      let ih =
        scan-escape args (cur ++ c ∷ []) s ∙ ap (quoting args) (append_assoc cur (c ∷ []) s) in
      elim (Bool-cases (nat_eq c b'"' || nat_eq c b'\\')) [
        | inl special ↦ rw (special, step_escaped args cur c (escape s)) ih
        | inr plain ↦
            rw plain (ap (λ (t : Tokens). scan qt t (escape s)) (step_plain args cur c plain) ∙ ih)
      ]

  scan-quote :
      (args : List QString) (cur s : QString)
      → scan qt (between args cur) (quote s) ≡ between args (cur ++ s)
  unfolding scan quote token_step
  scan-quote args cur s =
      rw (scan-append (quoting args cur) (escape s) (b'"' ∷ []), scan-escape args cur s)

  pub scan-space :
      (args : List QString) (cur : QString)
      → token_step qt (between args cur) b' ' ≡ between (flush args cur) []
  unfolding token_step end_argument
  scan-space args [] = rw laws.is_space_blank
  scan-space args (c ∷ cur) = rw laws.is_space_blank

  scan-render_argument :
      (args : List QString) (cur arg : QString) (more : List QString)
      → scan qt (between args cur) (render (arg ∷ more))
        ≡ scan qt (between (flush args cur) arg) (render more)
  unfolding scan render
  scan-render_argument args cur arg more =
      ap (λ (t : Tokens). scan qt t (quote arg ++ render more)) (scan-space args cur)
      ∙ scan-append (between (flush args cur) []) (quote arg) (render more)
      ∙ ap (λ (t : Tokens). scan qt t (render more)) (scan-quote (flush args cur) [] arg)

  finish-between :
      (args : List QString) (cur : QString)
      → finish qt (between args cur) ≡ success (flush args cur ++ [])
  unfolding finish
  finish-between args [] = rw append-nil
  finish-between args (c ∷ cur) = rw (append-nil (args ++ (c ∷ cur) ∷ []))

  -- The loop reads the rendered arguments in order, whatever argument is under way before them.
  finish-scan-render :
      (args : List QString) (cur : QString) (more : List QString)
      → All IsNonEmpty more
      → finish qt (scan qt (between args cur) (render more)) ≡ success (flush args cur ++ more)
  finish-scan-render args cur [] h = unfold scan render in finish-between args cur
  finish-scan-render args cur (arg ∷ more) (ne, h) =
      ap (finish qt) (scan-render_argument args cur arg more)
      ∙ finish-scan-render (flush args cur) arg more h
      ∙ ap success (flush_argument (flush args cur) arg more ne)

  -- Every list of non-empty arguments, whatever characters they hold, can be typed: quoted and
  -- escaped it is read back in order, unchanged.
  pub tokenize_arguments-render :
      (args : List QString)
      → All IsNonEmpty args
      → tokenize_arguments qt (render args) ≡ success args
  unfolding tokenize_arguments
  tokenize_arguments-render args h = finish-scan-render [] [] args h
