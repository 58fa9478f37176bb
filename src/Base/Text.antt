-- ===== src/Base/Text.antt =====
-- `QString` as the sequence of its UTF-16 code units, with the operations that do not depend on
-- Unicode's tables: those are fields of `Qt` in Platform.antt.
use Prim.Native.Nat.{ℕ, zero, suc}
use Prim.Native.Char.{code}
use Prim.Native.String.{String}
use mathlib.Core.Path.{◌≡◌, refl}
use mathlib.Core.Logic.{◌↔◌}
use mathlib.Core.Bool.{Bool, true, false, ◌&&◌}
use mathlib.Core.Option
use mathlib.Core.Option.{Option, none, some}
use mathlib.Core.List.{List, [], ◌∷◌}
use native.Mathlib.Omega.{arith}
use epic_kfc.Base.Tests.{nat_eq, nat_eq_iff, ltb, if◌then◌else◌}

abbrev pub QString : Type 0
QString = List ℕ

-- A literal of the source. The source's literals are ASCII.
abbrev pub text : String → QString
text String.[] = []
text (String.◌∷◌ c s) = code c ∷ text s

module _ {ℓ} {A : Type ℓ} where
  abbrev pub is_empty : List A → Bool
  is_empty [] = true
  is_empty (x ∷ xs) = false

-- `==` of two texts
unfoldable pub text_eq : QString → QString → Bool
text_eq [] [] = true
text_eq (a ∷ s) (b ∷ t) = nat_eq a b && text_eq s t
text_eq _ _ = false

pub text_eq_iff : (s t : QString) → (text_eq s t ≡ true) ↔ (s ≡ t)
unfolding text_eq
text_eq_iff [] [] = ground arith
text_eq_iff [] (b ∷ t) = ground arith
text_eq_iff (a ∷ s) [] = ground arith
text_eq_iff (a ∷ s) (b ∷ t) = ground (arith, nat_eq_iff a b, text_eq_iff s t)

pub text_eq_refl : (s : QString) → text_eq s s ≡ true
text_eq_refl s = (text_eq_iff s s).1 refl

-- `<` of two texts: lexicographic on the code units
unfoldable pub text_lt : QString → QString → Bool
text_lt [] [] = false
text_lt [] (b ∷ t) = true
text_lt (a ∷ s) [] = false
text_lt (a ∷ s) (b ∷ t) = let rest = text_lt s t in if nat_eq a b then rest else ltb a b

-- startsWith
unfoldable pub starts_with : QString → QString → Bool
starts_with s [] = true
starts_with [] (p ∷ ps) = false
starts_with (c ∷ s) (p ∷ ps) = nat_eq c p && starts_with s ps

-- indexOf of one code unit, with `none` for -1
unfoldable pub index_of : QString → ℕ → Option ℕ
index_of [] u = none
index_of (c ∷ s) u =
    let rest = Option.map suc (index_of s u) in if nat_eq c u then some zero else rest
