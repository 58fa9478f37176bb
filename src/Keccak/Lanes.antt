-- ===== src/Keccak/Lanes.antt =====
-- Every lane fits 64 bits, before the permutation and behind it.
use Prim.Native.Nat.{bit_xor}
use mathlib.Core.Path.{subst}
use epic_kfc.Base.{
  ℕ, zero, suc, ◌+◌, ◌-◌, ◌*◌, ◌/◌, ◌%◌, ◌^◌, ◌≤◌, ◌<◌, List, [], ◌∷◌, ◌≡◌, refl, ap, ◌∙◌, arith,
  length, All, set_at, nat_eq, Bool-cases, inl, inr, if_true, if_false,
}
use epic_kfc.Keccak.{lane, rotate_left, round_constants, keccak_permutation}
use epic_kfc.Keccak.Bits.{bit_and-lt, bit_or-lt, bit_xor-lt}
use epic_kfc.Keccak.Fips.{
  Lanes, state_of, theta, rho, pi, chi, fips_round, fips_permutation,
  keccak_permutation-fips_permutation, constants, fips_rounds, tabulate_from,
  round_constants-constants,
}

abbrev pub IsWord : ℕ → Type 0
IsWord w = w < 2 ^ 64

-- a state of 25 lanes that fit their words
abbrev pub IsState : List ℕ → Type 0
IsState s = (length s ≡ 25) × All IsWord s

pub lane-IsWord : (s : List ℕ) (i : ℕ) → All IsWord s → IsWord (lane s i)
lane-IsWord [] i h = omega arith
lane-IsWord (x ∷ xs) zero h = h.0
lane-IsWord (x ∷ xs) (suc i) h = lane-IsWord xs i h.1

set_at-IsWord : (s : List ℕ) (i v : ℕ) → All IsWord s → IsWord v → All IsWord (set_at s i v)
set_at-IsWord [] i v h w = tt
set_at-IsWord (x ∷ xs) zero v h w = (w, h.1)
set_at-IsWord (x ∷ xs) (suc i) v h w = (h.0, set_at-IsWord xs i v h.1 w)

length-set_at : (s : List ℕ) (i v : ℕ) → length (set_at s i v) ≡ length s
length-set_at [] i v = refl
length-set_at (x ∷ xs) zero v = refl
length-set_at (x ∷ xs) (suc i) v = ap suc (length-set_at xs i v)

pub set_at-IsState : (s : List ℕ) (i v : ℕ) → IsState s → IsWord v → IsState (set_at s i v)
set_at-IsState s i v (n, h) w = (length-set_at s i v ∙ n, set_at-IsWord s i v h w)

pub xor-IsWord : (a b : ℕ) → IsWord a → IsWord b → IsWord (bit_xor a b)
xor-IsWord = bit_xor-lt 64

-- a word moved right fits
shifted-le : (k v : ℕ) → v / 2 ^ k ≤ v
shifted-le k v = grind arith

rotate_left-IsWord : (v k : ℕ) → IsWord v → IsWord (rotate_left v k)
unfolding rotate_left
rotate_left-IsWord v k h = elim (Bool-cases (nat_eq k 0)) [
  | inl e ↦ rw (if_true _ v _ e) h
  | inr e ↦
      rw (if_false _ v _ e) (bit_or-lt 64 _ _ (omega arith) (omega (arith, shifted-le (64 - k) v)))
]

abbrev AreWords : Lanes → Type 0
AreWords a = (x y : ℕ) → IsWord (a x y)

theta-AreWords : (a : Lanes) → AreWords a → AreWords (theta a)
unfolding theta
theta-AreWords a h x y =
    xor-IsWord _ _ (h x y) (xor-IsWord _ _ (column _) (rotate_left-IsWord _ 1 (column _)))
  where
    column :
        (x : ℕ)
        → IsWord (bit_xor (bit_xor (bit_xor (bit_xor (a x 0) (a x 1)) (a x 2)) (a x 3)) (a x 4))
    column x =
        xor-IsWord _ _
          (xor-IsWord _ _ (xor-IsWord _ _ (xor-IsWord _ _ (h x 0) (h x 1)) (h x 2)) (h x 3)) (h x 4)

rho-AreWords : (a : Lanes) → AreWords a → AreWords (rho a)
unfolding rho
rho-AreWords a h x y = rotate_left-IsWord (a x y) _ (h x y)

chi-AreWords : (a : Lanes) → AreWords a → AreWords (chi a)
unfolding chi
chi-AreWords a h x y = xor-IsWord _ _ (h x y) (bit_and-lt 64 _ _ (omega arith) (h _ y))

pi-AreWords : (a : Lanes) → AreWords a → AreWords (pi a)
unfolding pi
pi-AreWords a h x y = h _ x

tabulate_from-IsWord :
    (f : ℕ → ℕ) (i n : ℕ) → ((k : ℕ) → IsWord (f k)) → All IsWord (tabulate_from f i n)
tabulate_from-IsWord f i zero h = tt
tabulate_from-IsWord f i (suc n) h = (h i, tabulate_from-IsWord f (i + 1) n h)

fips_round-IsState : (s : List ℕ) (c : ℕ) → All IsWord s → IsWord c → IsState (fips_round s c)
fips_round-IsState s c h w =
    set_at-IsState changed 0 _ (refl, fits) (xor-IsWord _ c (lane-IsWord changed 0 fits) w)
  where
    mixed : Lanes
    mixed = chi (pi (rho (theta (λ x y. lane s (x + 5 * y)))))

    changed : List ℕ
    changed = state_of mixed

    fits : All IsWord changed
    fits =
        tabulate_from-IsWord (λ i. mixed (i % 5) (i / 5)) 0 25
          (λ i.
            chi-AreWords _
              (pi-AreWords _
                (rho-AreWords _ (theta-AreWords _ (λ x y. lane-IsWord s (x + 5 * y) h))))
              (i % 5) (i / 5))

fips_rounds-IsState : (cs s : List ℕ) → All IsWord cs → IsState s → IsState (fips_rounds cs s)
fips_rounds-IsState [] s w h = h
fips_rounds-IsState (c ∷ cs) s w h =
    fips_rounds-IsState cs (fips_round s c) w.1 (fips_round-IsState s c h.1 w.0)

constants-IsWord : All IsWord round_constants
constants-IsWord = grind arith

-- The permutation takes a state of 25 lanes below 2^64 to one of 25 lanes below 2^64.
pub keccak_permutation-IsState : (s : List ℕ) → IsState s → IsState (keccak_permutation s)
unfolding fips_permutation
keccak_permutation-IsState s h = rw (keccak_permutation-fips_permutation s h.0) (
    fips_rounds-IsState constants s
      (subst (λ cs. All IsWord cs) round_constants-constants constants-IsWord) h)
