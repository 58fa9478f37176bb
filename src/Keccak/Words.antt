-- ===== src/Keccak/Words.antt =====
-- A word is read back from the eight bytes that it was written as.
use Prim.Native.Nat.{bit_and, bit_or}
use epic_kfc.Base.{ℕ, ◌+◌, ◌*◌, ◌/◌, ◌%◌, ◌^◌, ◌<◌, [], ◌∷◌, ◌≡◌, refl, ap, ◌∙◌, arith}
use epic_kfc.Keccak.{read_little_endian_word, append_little_endian_word}
use epic_kfc.Keccak.Bits.{bit_or_fields, bit_and_mask}

abbrev pub IsByte : ℕ → Type 0
IsByte b = b < 256

-- the byte of a word at a place
abbrev pub byte_of : ℕ → ℕ → ℕ
byte_of value place = bit_and (value / 2 ^ (8 * place)) 0xff

pub byte_of_lem : (value place : ℕ) → byte_of value place ≡ value / 2 ^ (8 * place) % 256
byte_of_lem value place = bit_and_mask 8 (value / 2 ^ (8 * place))

pub byte_of-IsByte : (value place : ℕ) → IsByte (byte_of value place)
byte_of-IsByte value place = omega (arith, byte_of_lem value place)

-- the accumulator of the reading loop, as a sum
joined :
    (k high low sum : ℕ) → low ≡ sum → sum < 2 ^ k → bit_or low (high * 2 ^ k) ≡ sum + high * 2 ^ k
joined k high low sum e fits = ap (λ l. bit_or l (high * 2 ^ k)) e ∙ bit_or_fields k high sum fits

-- eight bytes read as the number that they stand for, the lowest first
pub read_bytes :
    (a b c d e f g h : ℕ)
    → IsByte a
    → IsByte b
    → IsByte c
    → IsByte d
    → IsByte e
    → IsByte f
    → IsByte g
    → IsByte h
    → read_little_endian_word (a ∷ b ∷ c ∷ d ∷ e ∷ f ∷ g ∷ h ∷ []) 0
      ≡ a + b * 2 ^ 8 + c * 2 ^ 16 + d * 2 ^ 24 + e * 2 ^ 32 + f * 2 ^ 40 + g * 2 ^ 48 + h * 2 ^ 56
unfolding read_little_endian_word
read_bytes a b c d e f g h p q r s t u v w =
    joined 56 h _ _
      (joined 48 g _ _
        (joined 40 f _ _
          (joined 32 e _ _
            (joined 24 d _ _
              (joined 16 c _ _
                (joined 8 b _ _ (joined 0 a 0 0 refl (omega arith) ∙ omega arith) (omega arith))
                (omega arith))
              (omega arith))
            (omega arith))
          (omega arith))
        (omega arith))
      (omega arith)

-- A 64-bit word that was appended byte by byte is read back as the same word.
pub read_little_endian_word-append :
    (value : ℕ)
    → value < 2 ^ 64
    → read_little_endian_word (append_little_endian_word [] value) 0 ≡ value
unfolding append_little_endian_word
read_little_endian_word-append value fits =
    read_bytes _ _ _ _ _ _ _ _ (byte_of-IsByte value 0) (byte_of-IsByte value 1)
      (byte_of-IsByte value 2) (byte_of-IsByte value 3) (byte_of-IsByte value 4)
      (byte_of-IsByte value 5) (byte_of-IsByte value 6) (byte_of-IsByte value 7)
    ∙ omega (
      arith,
      byte_of_lem value 0,
      byte_of_lem value 1,
      byte_of_lem value 2,
      byte_of_lem value 3,
      byte_of_lem value 4,
      byte_of_lem value 5,
      byte_of_lem value 6,
      byte_of_lem value 7,
    )
