-- ===== src/Examples/Gateways.antt =====
-- The mock server on a few calls.
use epic_kfc.Base.{
  ℕ, zero, suc, pos, QString, text, none, some, List, [], ◌∷◌, ◌≡◌, refl, ap, sym, ◌∙◌,
}
use epic_kfc.Gateways.Messages.{get_message, new_gateway}
use epic_kfc.Gateways.Mailbox.{
  Op, send, revoke, run, replay, empty_mailbox, answer_of, get_message-run,
}
use epic_kfc.Examples.Values.{first_message}

-- a number as so many strokes
abbrev strokes : ℕ → QString
strokes zero = []
strokes (suc n) = b'|' ∷ strokes n

abbrev count : QString → ℕ
count [] = 0
count (c ∷ s) = suc (count s)

count-strokes : (n : ℕ) → count (strokes n) ≡ n
count-strokes zero = refl
count-strokes (suc n) = ap suc (count-strokes n)

strokes-distinct : (a b : ℕ) → strokes a ≡ strokes b → a ≡ b
strokes-distinct a b h = sym (count-strokes a) ∙ ap count h ∙ count-strokes b

abbrev token : QString
token = text "mock-token-ada"

abbrev calls : List Op
calls =
    send (some 1) token first_message none
    ∷ send (some 2) [] first_message none
    ∷ send (some 3) token first_message (some (pos 4))
    ∷ revoke (text "noon") token (text "mock-message-|")
    ∷ []

get_message-run_example :
    get_message token (text "mock-message-|") (run strokes calls new_gateway)
    ≡ answer_of token ((replay strokes calls empty_mailbox).0 (text "mock-message-|"))
get_message-run_example =
    get_message-run strokes strokes-distinct calls token (text "mock-message-|")
