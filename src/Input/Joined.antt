-- ===== src/Input/Joined.antt =====
-- The loops that join lines and arguments put the separator between them.
use epic_kfc.Base.{
  ℕ, QString, false, List, [], ◌∷◌, ◌++◌, ◌≡◌, refl, ◌∙◌, sym, append-nil, append_assoc, is_empty,
}
use epic_kfc.Input.{join_loop}

abbrev separated : ℕ → List QString → QString
separated separator [] = []
separated separator (line ∷ lines) = separator ∷ (line ++ separated separator lines)

-- the texts in their order, with the separator between each two of them
abbrev pub interspersed : ℕ → List QString → QString
interspersed separator [] = []
interspersed separator (line ∷ lines) = line ++ separated separator lines

pub is_empty-append : (a b : QString) → is_empty a ≡ false → is_empty (a ++ b) ≡ false
is_empty-append [] b h = cc
is_empty-append (c ∷ a) b h = refl

join_loop-separated :
    (separator : ℕ) (result : QString) (lines : List QString)
    → is_empty result ≡ false
    → join_loop separator result lines ≡ result ++ separated separator lines
unfolding join_loop
join_loop-separated separator result [] h = sym (append-nil result)
join_loop-separated separator result (line ∷ lines) h =
    let more = (result ++ separator ∷ []) ++ line in
    rw h (
      join_loop-separated separator more lines (
        is_empty-append (result ++ separator ∷ []) line (is_empty-append result (separator ∷ []) h))
      ∙ append_assoc (result ++ separator ∷ []) line (separated separator lines)
      ∙ append_assoc result (separator ∷ []) (line ++ separated separator lines))

-- Where the first text is not empty, the loop of joinedLines and joinedArguments gives the texts
-- in their order, with exactly one separator between each two of them.
pub join_loop-interspersed :
    (separator : ℕ) (line : QString) (lines : List QString)
    → is_empty line ≡ false
    → join_loop separator [] (line ∷ lines) ≡ interspersed separator (line ∷ lines)
unfolding join_loop
join_loop-interspersed separator line lines h = join_loop-separated separator line lines h
