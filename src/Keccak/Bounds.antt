-- ===== src/Keccak/Bounds.antt =====
-- The loops over the input and over the output end by their tests, and the output is 32 bytes.
use Prim.Native.Nat.{bit_or, bit_xor}
use mathlib.Core.Path.{subst}
use epic_kfc.Base.{
  ℕ, zero, suc, ◌+◌, ◌-◌, ◌*◌, ◌%◌, ◌^◌, ◌≤◌, ◌<◌, true, false, List, [], ◌∷◌, ◌++◌, ◌≡◌, refl, sym,
  ltb, arith, length, All, All-append, set_at, replicate, for_range, for_range_inv, while,
  while_inv,
}
use epic_kfc.Keccak.{
  lane, read_little_endian_word, append_little_endian_word, pad, Absorbing, absorb_block, has_block,
  absorb, is_unfinished, squeeze, keccak256,
}
use epic_kfc.Keccak.Bits.{bit_or-lt}
use epic_kfc.Keccak.Words.{IsByte, byte_of, byte_of-IsByte}
use epic_kfc.Keccak.Padding.{length-pad, pad_lem}
use epic_kfc.Keccak.Lanes.{
  IsWord, IsState, lane-IsWord, set_at-IsState, xor-IsWord, keccak_permutation-IsState,
}

-- the words of a block
IsByte-lane : (xs : List ℕ) (i : ℕ) → All IsByte xs → IsByte (lane xs i)
IsByte-lane [] i h = omega arith
IsByte-lane (x ∷ xs) zero h = h.0
IsByte-lane (x ∷ xs) (suc i) h = IsByte-lane xs i h.1

read-IsWord :
    (block : List ℕ) (offset : ℕ) → All IsByte block → IsWord (read_little_endian_word block offset)
unfolding read_little_endian_word
read-IsWord block offset h = join 7 56 (omega (arith, at 7)) (
    join 6 48 (omega (arith, at 6)) (
      join 5 40 (omega (arith, at 5)) (
        join 4 32 (omega (arith, at 4)) (
          join 3 24 (omega (arith, at 3)) (
            join 2 16 (omega (arith, at 2))
              (join 1 8 (omega (arith, at 1)) (join 0 0 (omega (arith, at 0)) (omega arith))))))))
  where
    at : (i : ℕ) → IsByte (lane block (offset + i))
    at i = IsByte-lane block (offset + i) h

    join :
        {word : ℕ} (i k : ℕ)
        → lane block (offset + i) * 2 ^ k < 2 ^ 64
        → IsWord word
        → IsWord (bit_or word (lane block (offset + i) * 2 ^ k))
    join i k fits w = bit_or-lt 64 _ _ w fits

xor_lanes-IsState :
    (words : ℕ → ℕ)
    → ((i : ℕ) → IsWord (words i))
    → (n : ℕ) (s : List ℕ) → IsState s
    → IsState (for_range n 0 (λ i t. set_at t i (bit_xor (lane t i) (words i))) s)
xor_lanes-IsState words w n s h =
    for_range_inv IsState (λ i t. set_at t i (bit_xor (lane t i) (words i))) n
      (λ i t below k. set_at-IsState t i _ k (xor-IsWord _ _ (lane-IsWord t i k.1) (w i))) n 0 s
      (omega arith) h

-- at the beginning of a block, and within the input
abbrev IsAbsorbing : List ℕ → Absorbing → Type 0
IsAbsorbing padded (offset, s) = (offset % 136 ≡ 0) × (offset ≤ length padded) × IsState s

absorb_block-IsAbsorbing :
    (padded : List ℕ)
    → All IsByte padded
    → length padded % 136 ≡ 0
    → (a : Absorbing) → IsAbsorbing padded a
    → has_block padded a ≡ true
    → IsAbsorbing padded (absorb_block padded a)
      × (length padded - (absorb_block padded a).0 < length padded - a.0)
unfolding absorb_block
absorb_block-IsAbsorbing padded bytes whole (offset, s) (start, within, state) more = (
  (
    omega arith,
    ground arith,
    keccak_permutation-IsState _ (
        xor_lanes-IsState (λ i. read_little_endian_word padded (offset + i * 8))
          (λ i. read-IsWord padded (offset + i * 8) bytes) 17 s state),
  ),
  ground arith,
)

at_end : (a b : ℕ) → a ≤ b → ltb a b ≡ false → a ≡ b
at_end a b h e = ground arith

-- An input of whole blocks is absorbed to its end, into a state of 25 words.
pub absorb_lem :
    (padded : List ℕ)
    → All IsByte padded
    → length padded % 136 ≡ 0
    → ((absorb padded).0 ≡ length padded) × IsState (absorb padded).1
unfolding absorb
absorb_lem padded bytes whole = (at_end _ _ ended.1.1 ended.0, ended.1.2)
  where
    absorbed : Absorbing
    absorbed =
        while (has_block padded) (absorb_block padded) (length padded + 1) (0, replicate 25 0)

    ended : (has_block padded absorbed ≡ false) × IsAbsorbing padded absorbed
    ended =
        while_inv (has_block padded) (absorb_block padded) (IsAbsorbing padded)
          (λ a. length padded - a.0) (absorb_block-IsAbsorbing padded bytes whole)
          (length padded + 1) (0, replicate 25 0) (omega arith, omega arith, (refl, grind arith))
          (omega arith)

pad-All_bytes : (input : List ℕ) → All IsByte input → All IsByte (pad input)
pad-All_bytes input h = rw (pad_lem input) (
    All-append IsByte _ _
      (All-append IsByte _ _ (All-append IsByte input _ h (omega arith, tt)) (zeros_bytes _))
      (omega arith, tt))
  where
    zeros_bytes : (n : ℕ) → All IsByte (replicate n 0)
    zeros_bytes zero = tt
    zeros_bytes (suc n) = (omega arith, zeros_bytes n)

-- Every one of the three loops of `keccak256` is left by its test, on every input of bytes: the
-- padding fills whole blocks, the absorbing reads to the end of them, and the squeezing stops at
-- an output that is full.
pub keccak256_ends :
    (input : List ℕ)
    → All IsByte input
    → (length (pad input) % 136 ≡ 0)
      × ((absorb (pad input)).0 ≡ length (pad input))
      × (is_unfinished (squeeze (absorb (pad input)).1) ≡ false)
unfolding squeeze
keccak256_ends input h =
    let whole : length (pad input) % 136 ≡ 0 = omega (arith, length-pad input) in
    (whole, (absorb_lem (pad input) (pad-All_bytes input h) whole).0, refl)

word_bytes : (w : ℕ) → All IsByte (append_little_endian_word [] w)
unfolding append_little_endian_word
word_bytes w = (b 0, (b 1, (b 2, (b 3, (b 4, (b 5, (b 6, (b 7, tt))))))))
  where
    b : (i : ℕ) → IsByte (byte_of w i)
    b = byte_of-IsByte w

squeeze_lem :
    (s : List ℕ)
    → (squeeze s).1
      ≡ append_little_endian_word [] (lane s 0)
        ++ append_little_endian_word [] (lane s 1)
        ++ append_little_endian_word [] (lane s 2)
        ++ append_little_endian_word [] (lane s 3)
unfolding squeeze append_little_endian_word
squeeze_lem s = refl

length_squeezed : (s : List ℕ) → length (squeeze s).1 ≡ 32
unfolding squeeze
length_squeezed s = refl

squeezed_bytes : (s : List ℕ) → All IsByte (squeeze s).1
squeezed_bytes s = subst (All IsByte) (sym (squeeze_lem s)) (
    All-append IsByte _ _
      (All-append IsByte _ _ (All-append IsByte _ _ (word_bytes _) (word_bytes _)) (word_bytes _))
      (word_bytes _))

-- A digest is 32 bytes, whatever the input is, and the lanes of the state that it is taken from
-- are below 2^64 where the input consists of bytes.
pub keccak256-IsDigest :
    (input : List ℕ)
    → All IsByte input
    → (length (keccak256 input) ≡ 32)
      × All IsByte (keccak256 input)
      × IsState (absorb (pad input)).1
unfolding keccak256
keccak256-IsDigest input h = (
  length_squeezed (absorb (pad input)).1,
  squeezed_bytes (absorb (pad input)).1,
  (absorb_lem (pad input) (pad-All_bytes input h) (omega (arith, length-pad input))).1,
)
