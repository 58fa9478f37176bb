-- ===== src/Keccak/Fips.antt =====
-- The permutation of FIPS 202, section 3.2, written lane by lane from the standard: the rotation
-- offsets and the round constants are computed as the standard computes them.
use Prim.Native.Nat.{bit_and, bit_xor}
use epic_kfc.Base.{
  ℕ, zero, suc, ◌+◌, ◌-◌, ◌*◌, ◌/◌, ◌%◌, ◌^◌, List, [], ◌∷◌, ◌≡◌, refl, sym, ap, ap₂, ◌∙◌,
  if◌then◌else◌, ltb, length, set_at, replicate, for_range, arith,
}
use epic_kfc.Keccak.{
  lane, rotate_left, complement, keccak_round, keccak_rounds, keccak_permutation, round_constants,
  rotation_offsets,
}

abbrev pub Lanes : Type 0
Lanes = ℕ → ℕ → ℕ

abbrev pub lanes_of : List ℕ → Lanes
lanes_of s x y = lane s (x + 5 * y)

-- the list of the lanes, from the one with a given index on
abbrev pub tabulate_from : (ℕ → ℕ) → ℕ → ℕ → List ℕ
tabulate_from f i zero = []
tabulate_from f i (suc n) = f i ∷ tabulate_from f (i + 1) n

abbrev pub state_of : Lanes → List ℕ
state_of a = tabulate_from (λ i. a (i % 5) (i / 5)) 0 25

-- 3.2.1
abbrev pub parity : Lanes → ℕ → ℕ
parity a x = bit_xor (bit_xor (bit_xor (bit_xor (a x 0) (a x 1)) (a x 2)) (a x 3)) (a x 4)

unfoldable pub theta : Lanes → Lanes
theta a x y =
    bit_xor (a x y) (bit_xor (parity a ((x + 4) % 5)) (rotate_left (parity a ((x + 1) % 5)) 1))

-- 3.2.2: the point that walks over the lanes, and the table of offsets
unfoldable pub offsets : List ℕ
offsets =
    (for_range 24 0
      (λ t (walk : ℕ × ℕ × List ℕ). (
        walk.1,
        (2 * walk.0 + 3 * walk.1) % 5,
        set_at walk.2 (walk.0 + 5 * walk.1) ((t + 1) * (t + 2) / 2 % 64),
      ))
      (1, 0, replicate 25 0)).2

unfoldable pub rho : Lanes → Lanes
unfolding offsets
rho a x y = rotate_left (a x y) (lane offsets (x + 5 * y))

-- 3.2.3
unfoldable pub pi : Lanes → Lanes
pi a x y = a ((x + 3 * y) % 5) x

-- 3.2.4
unfoldable pub chi : Lanes → Lanes
chi a x y = bit_xor (a x y) (bit_and (complement (a ((x + 1) % 5) y)) (a ((x + 2) % 5) y))

-- 3.2.5: the register of eight bits, whose lowest bit is the standard's R[0]
abbrev shift_register : ℕ → ℕ
shift_register r = if ltb (2 * r) 256 then 2 * r else bit_xor (2 * r) 0x171

unfoldable pub register_bit : ℕ → ℕ
register_bit t = for_range t 0 (λ i r. shift_register r) 1 % 2

unfoldable pub constant : ℕ → ℕ
unfolding register_bit
constant i = for_range 7 0 (λ j rc. rc + register_bit (j + 7 * i) * 2 ^ (2 ^ j - 1)) 0

unfoldable pub constants : List ℕ
unfolding constant
constants = tabulate_from constant 0 24

abbrev pub fips_round : List ℕ → ℕ → List ℕ
fips_round s c =
    let changed = state_of (chi (pi (rho (theta (lanes_of s))))) in
    set_at changed 0 (bit_xor (lane changed 0) c)

abbrev pub fips_rounds : List ℕ → List ℕ → List ℕ
fips_rounds [] s = s
fips_rounds (c ∷ cs) s = fips_rounds cs (fips_round s c)

unfoldable pub fips_permutation : List ℕ → List ℕ
unfolding constants
fips_permutation = fips_rounds constants

pub round_constants-constants : round_constants ≡ constants
unfolding constants
round_constants-constants = refl

rotation_offsets-offsets : rotation_offsets ≡ offsets
unfolding offsets
rotation_offsets-offsets = refl

-- a list is known by its entries
tabulate_from-lane :
    (xs : List ℕ) (f : ℕ → ℕ) (i : ℕ)
    → ((k : ℕ) → f (i + k) ≡ lane xs k)
    → tabulate_from f i (length xs) ≡ xs
tabulate_from-lane [] f i h = refl
tabulate_from-lane (x ∷ xs) f i h =
    ap₂ ◌∷◌ (ap f (omega arith) ∙ h 0)
      (tabulate_from-lane xs f (i + 1) (λ k. ap f (omega arith) ∙ h (suc k)))

round_on_lanes :
    (f : ℕ → ℕ) (c : ℕ)
    → keccak_round (tabulate_from f 0 25) c ≡ fips_round (tabulate_from f 0 25) c
unfolding keccak_round theta rho pi chi offsets rotate_left
round_on_lanes f c = refl

from_lanes : (s : List ℕ) → length s ≡ 25 → tabulate_from (lane s) 0 25 ≡ s
from_lanes s h =
    ap (tabulate_from (lane s) 0) (sym h)
    ∙ tabulate_from-lane s (lane s) 0 (λ k. ap (lane s) (omega arith))

keccak_round-fips_round : (s : List ℕ) (c : ℕ) → length s ≡ 25 → keccak_round s c ≡ fips_round s c
keccak_round-fips_round s c h =
    ap (λ t. keccak_round t c) (sym (from_lanes s h))
    ∙ round_on_lanes (lane s) c
    ∙ ap (λ t. fips_round t c) (from_lanes s h)

keccak_rounds-fips_rounds : (cs s : List ℕ) → length s ≡ 25 → keccak_rounds cs s ≡ fips_rounds cs s
keccak_rounds-fips_rounds [] s h = refl
keccak_rounds-fips_rounds (c ∷ cs) s h =
    keccak_rounds-fips_rounds cs (keccak_round s c) (ap length (keccak_round-fips_round s c h))
    ∙ ap (fips_rounds cs) (keccak_round-fips_round s c h)

-- On every state of 25 lanes, `keccakPermutation` with its loops and its two tables is the
-- permutation that FIPS 202 defines lane by lane, with the offsets and the constants computed
-- from the standard's recurrences.
pub keccak_permutation-fips_permutation :
    (state : List ℕ) → length state ≡ 25 → keccak_permutation state ≡ fips_permutation state
unfolding keccak_permutation fips_permutation
keccak_permutation-fips_permutation state h =
    keccak_rounds-fips_rounds round_constants state h
    ∙ ap (λ cs. fips_rounds cs state) round_constants-constants
