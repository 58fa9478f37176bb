-- ===== src/Parser/Quotes.antt =====
-- When a line of arguments is refused: exactly where a quote is left open.
use epic_kfc.Base.{ℕ, QString, true, List, [], ◌∷◌, ◌≡◌, if◌then◌else◌, nat_eq, arith, refl, ◌≢◌}
use epic_kfc.Models.{success, unclosed_quote}
use epic_kfc.Platform.{Qt}
use epic_kfc.Parser.{
  Tokens, no_tokens, token_step, scan, finish, tokenize_arguments, invalid_command, end_argument,
}

-- Where a reader of the line stands: outside quotes, inside them, or inside them behind a
-- backslash.
pub data Place : Type 0 where
  outside inside escaped : Place

abbrev pub move : Place → ℕ → Place
move outside c = if nat_eq c b'"' then inside else outside
move inside c = if nat_eq c b'\\' then escaped else if nat_eq c b'"' then outside else inside
move escaped c = inside

pub place_after : Place → QString → Place
place_after p [] = p
place_after p (c ∷ s) = place_after (move p c) s

abbrev place_of : Tokens → Place
place_of t = if t.in_quote then (if t.escaping then escaped else inside) else outside

-- A backslash is pending only inside quotes.
abbrev pub IsConsistent : Tokens → Type 0
IsConsistent t = t.escaping ≡ true → t.in_quote ≡ true

module _ (qt : Qt) where
  token_step-IsConsistent : (t : Tokens) (c : ℕ) → IsConsistent t → IsConsistent (token_step qt t c)
  unfolding token_step
  token_step-IsConsistent t c h = ground arith

  place_of-token_step :
      (t : Tokens) (c : ℕ) → IsConsistent t → place_of (token_step qt t c) ≡ move (place_of t) c
  unfolding token_step
  place_of-token_step t c h = ground arith

  pub scan-IsConsistent : (t : Tokens) (s : QString) → IsConsistent t → IsConsistent (scan qt t s)
  unfolding scan
  scan-IsConsistent t [] h = h
  scan-IsConsistent t (c ∷ s) h =
      scan-IsConsistent (token_step qt t c) s (token_step-IsConsistent t c h)

  place_of-scan :
      (t : Tokens) (s : QString)
      → IsConsistent t
      → place_of (scan qt t s) ≡ place_after (place_of t) s
  unfolding scan place_after
  place_of-scan t [] h = refl
  place_of-scan t (c ∷ s) h =
      rw (← place_of-token_step t c h)
        (place_of-scan (token_step qt t c) s (token_step-IsConsistent t c h))

  finish_by_place :
      (t : Tokens)
      → IsConsistent t
      → (place_of t ≡ outside → (args : List QString) × (finish qt t ≡ success args))
        × (place_of t ≢ outside → finish qt t ≡ invalid_command unclosed_quote)
  unfolding finish
  finish_by_place t h = (λ e. ((end_argument t).arguments, ground arith), λ e. ground arith)

  -- `tokenizeArguments` answers with a list of arguments where every quote is closed, and with
  -- the one error `UnclosedQuote` where a quote stays open, as told by a reader that only
  -- follows the quotes and the backslashes inside them.
  pub tokenize_by_quotes :
      (s : QString)
      → (place_after outside s ≡ outside
          → (args : List QString) × (tokenize_arguments qt s ≡ success args))
        × (place_after outside s ≢ outside
            → tokenize_arguments qt s ≡ invalid_command unclosed_quote)
  unfolding tokenize_arguments
  tokenize_by_quotes s =
      rw (← place_of-scan no_tokens s (λ e. e))
        (finish_by_place (scan qt no_tokens s) (scan-IsConsistent no_tokens s (λ e. e)))
