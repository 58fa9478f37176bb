-- ===== src/Keccak/Bits.antt =====
-- Bounds and fields of words that bit operations make. The operations stand for a recursion on
-- binary digits that counts down; what is shown of them goes by induction on that count.
use Prim.Native.Nat.{
  min, max, differ, digits, bit_and, bit_or, bit_xor, bit_and-bitwise, bit_or-bitwise,
  bit_xor-bitwise,
}
use native.Mathlib.Nat.{le_refl, pow-suc, one-le-pow}
use epic_kfc.Base.{ℕ, zero, suc, ◌+◌, ◌-◌, ◌*◌, ◌/◌, ◌%◌, ◌^◌, ◌≤◌, ◌<◌, ◌≡◌, refl, ap, arith}

-- an operation on digits that gives digits keeps a width
module _ (alone : ℕ → ℕ) (both : ℕ → ℕ → ℕ) (shrinks : (b : ℕ) → alone b ≤ b)
    (is_digit : (a b : ℕ) → a < 2 → b < 2 → both a b < 2) where
  digits-lt :
      (count width a b : ℕ)
      → a < 2 ^ width
      → b < 2 ^ width
      → digits alone both count a b < 2 ^ width
  digits-lt zero width a b fits fits' = omega (arith, shrinks b)
  digits-lt (suc count) width zero b fits fits' = omega (arith, shrinks b)
  digits-lt (suc count) zero (suc a) b fits fits' = absurd (omega arith)
  digits-lt (suc count) (suc width) (suc a) b fits fits' =
      let double = pow-suc 2 width in
      let digit = is_digit (suc a % 2) (b % 2) (omega arith) (omega arith) in
      let rest =
        digits-lt count width (suc a / 2) (b / 2) (omega (arith, double)) (omega (arith, double)) in
      omega (arith, double, digit, rest)

differ-lt : (a b : ℕ) → a < 2 → b < 2 → differ a b < 2
differ-lt zero b h k = k
differ-lt (suc zero) zero h k = h
differ-lt (suc zero) (suc b) h k = omega arith
differ-lt (suc (suc a)) b h k = absurd (omega arith)

pub bit_xor-lt : (width a b : ℕ) → a < 2 ^ width → b < 2 ^ width → bit_xor a b < 2 ^ width
bit_xor-lt width a b fits fits' =
    rw (bit_xor-bitwise a b) (digits-lt (λ b. b) differ le_refl differ-lt a width a b fits fits')

pub bit_or-lt : (width a b : ℕ) → a < 2 ^ width → b < 2 ^ width → bit_or a b < 2 ^ width
bit_or-lt width a b fits fits' =
    rw (bit_or-bitwise a b)
      (digits-lt (λ b. b) max le_refl (λ c d h k. omega arith) a width a b fits fits')

pub bit_and-lt : (width a b : ℕ) → a < 2 ^ width → b < 2 ^ width → bit_and a b < 2 ^ width
bit_and-lt width a b fits fits' =
    rw (bit_and-bitwise a b)
      (digits-lt (λ b. 0) min (λ b. omega arith) (λ c d h k. omega arith) a width a b fits fits')

doubled : (high width : ℕ) → high * 2 ^ suc width ≡ 2 * (high * 2 ^ width)
doubled high width = omega (arith, ap (λ (t : ℕ). high * t) (pow-suc 2 width))

-- the digits of a low part beside those of a high part that starts behind it
digits-beside :
    (count width high low shifted : ℕ)
    → low ≤ count
    → low < 2 ^ width
    → shifted ≡ high * 2 ^ width
    → digits (λ b. b) max count low shifted ≡ low + shifted
digits-beside zero width high zero shifted enough fits e = omega arith
digits-beside zero width high (suc low) shifted enough fits e = absurd (omega arith)
digits-beside (suc count) width high zero shifted enough fits e = omega arith
digits-beside (suc count) zero high (suc low) shifted enough fits e = absurd (omega arith)
digits-beside (suc count) (suc width) high (suc low) shifted enough fits e =
    let rest =
      digits-beside count width high (suc low / 2) (shifted / 2) (omega arith)
        (omega (arith, pow-suc 2 width)) (omega (arith, doubled high width)) in
    omega (arith, doubled high width, rest)

-- `low | (high << width)` is a sum where the low part fits the width
pub bit_or_fields :
    (width high low : ℕ) → low < 2 ^ width → bit_or low (high * 2 ^ width) ≡ low + high * 2 ^ width
bit_or_fields width high low fits =
    rw (bit_or-bitwise low (high * 2 ^ width))
      (digits-beside low width high low (high * 2 ^ width) (le_refl low) fits refl)

-- the digits under a mask of ones are those of the low part
digits-masked :
    (count width high low value mask : ℕ)
    → value ≤ count
    → low < 2 ^ width
    → value ≡ high * 2 ^ width + low
    → mask + 1 ≡ 2 ^ width
    → digits (λ b. 0) min count value mask ≡ low
digits-masked zero width high low value mask enough fits e ones = omega arith
digits-masked (suc count) width high low zero mask enough fits e ones = omega arith
digits-masked (suc count) zero high low (suc value) mask enough fits e ones =
    let rest =
      digits-masked count zero (suc value / 2) 0 (suc value / 2) (mask / 2) (omega arith)
        (omega arith) (omega arith) (omega arith) in
    omega (arith, rest)
digits-masked (suc count) (suc width) high low (suc value) mask enough fits e ones =
    let rest =
      digits-masked count width high (low / 2) (suc value / 2) (mask / 2) (omega arith)
        (omega (arith, pow-suc 2 width)) (omega (arith, doubled high width))
        (omega (arith, pow-suc 2 width)) in
    omega (arith, doubled high width, pow-suc 2 width, rest)

-- a mask of so many low bits is the remainder by the power of two
pub bit_and_mask : (width a : ℕ) → bit_and a (2 ^ width - 1) ≡ a % 2 ^ width
bit_and_mask width a = rw (bit_and-bitwise a (2 ^ width - 1)) (
    digits-masked a width (a / 2 ^ width) (a % 2 ^ width) a (2 ^ width - 1) (le_refl a)
      (omega (arith, one-le-pow width 2)) (omega (arith, one-le-pow width 2))
      (omega (arith, one-le-pow width 2)))
