-- ===== src/Keccak.antt =====
-- client/src/support/EthereumHash.cpp: `keccak256` and what it is made of. A `quint64` is a
-- number with its wrap written out, a byte is a number below 256, a `std::array` is a list.
pub mod Fips
pub mod Bits
pub mod Lanes
pub mod Bounds
pub mod Padding
pub mod Words
use Prim.Native.Nat.{bit_and, bit_or, bit_xor}
use epic_kfc.Base.{
  ℕ, ◌+◌, ◌-◌, ◌*◌, ◌/◌, ◌%◌, ◌^◌, Bool, not, List, [], ◌∷◌, ◌++◌, if◌then◌else◌, nat_eq, ltb,
  length, take, at_or, set_at, replicate, for_range, while,
}

abbrev pub keccak_rate_bytes : ℕ
keccak_rate_bytes = 136

abbrev pub keccak_digest_bytes : ℕ
keccak_digest_bytes = 32

abbrev pub keccak_state_words : ℕ
keccak_state_words = 25

abbrev pub rotation_offsets : List ℕ
rotation_offsets =
    0 ∷ 1 ∷ 62 ∷ 28 ∷ 27 ∷ 36 ∷ 44 ∷ 6 ∷ 55 ∷ 20 ∷ 3 ∷ 10 ∷ 43 ∷ 25 ∷ 39 ∷ 41 ∷ 45 ∷ 15 ∷ 21 ∷ 8
    ∷ 18 ∷ 2 ∷ 61 ∷ 56 ∷ 14 ∷ []

abbrev pub round_constants : List ℕ
round_constants =
    0x0000000000000001 ∷ 0x0000000000008082 ∷ 0x800000000000808a ∷ 0x8000000080008000
    ∷ 0x000000000000808b ∷ 0x0000000080000001 ∷ 0x8000000080008081 ∷ 0x8000000000008009
    ∷ 0x000000000000008a ∷ 0x0000000000000088 ∷ 0x0000000080008009 ∷ 0x000000008000000a
    ∷ 0x000000008000808b ∷ 0x800000000000008b ∷ 0x8000000000008089 ∷ 0x8000000000008003
    ∷ 0x8000000000008002 ∷ 0x8000000000000080 ∷ 0x000000000000800a ∷ 0x800000008000000a
    ∷ 0x8000000080008081 ∷ 0x8000000000008080 ∷ 0x0000000080000001 ∷ 0x8000000080008008 ∷ []

-- `~value` on 64 bits
abbrev pub complement : ℕ → ℕ
complement value = 2 ^ 64 - 1 - value

abbrev pub lane : List ℕ → ℕ → ℕ
lane = at_or 0

unfoldable pub rotate_left : ℕ → ℕ → ℕ
rotate_left value shift =
    if nat_eq shift 0 then value else bit_or (value * 2 ^ shift % 2 ^ 64) (value / 2 ^ (64 - shift))

unfoldable pub read_little_endian_word : List ℕ → ℕ → ℕ
read_little_endian_word block offset =
    for_range 8 0 (λ index value. bit_or value (lane block (offset + index) * 2 ^ (8 * index))) 0

unfoldable pub append_little_endian_word : List ℕ → ℕ → List ℕ
append_little_endian_word output value =
    for_range 8 0 (λ index out. out ++ bit_and (value / 2 ^ (8 * index)) 0xff ∷ []) output

-- for (x < 5) for (y < 5)
abbrev pub for_lanes : (ℕ → ℕ → List ℕ → List ℕ) → List ℕ → List ℕ
for_lanes body = for_range 5 0 (λ x s. for_range 5 0 (λ y t. body x y t) s)

unfoldable pub column_parity : List ℕ → List ℕ
column_parity state =
    for_range 5 0
      (λ x parity. set_at parity x (
        bit_xor
          (bit_xor (bit_xor (bit_xor (lane state x) (lane state (x + 5))) (lane state (x + 10)))
            (lane state (x + 15)))
          (lane state (x + 20))))
      (replicate 5 0)

unfoldable pub theta_words : List ℕ → List ℕ
theta_words parity =
    for_range 5 0
      (λ x theta.
        set_at theta x
          (bit_xor (lane parity ((x + 4) % 5)) (rotate_left (lane parity ((x + 1) % 5)) 1)))
      (replicate 5 0)

unfoldable pub apply_theta : List ℕ → List ℕ → List ℕ
apply_theta theta =
    for_lanes (λ x y s. set_at s (x + 5 * y) (bit_xor (lane s (x + 5 * y)) (lane theta x)))

unfoldable pub rotate_lanes : List ℕ → List ℕ
rotate_lanes state =
    for_lanes
      (λ x y rotated.
        let source = x + 5 * y in
        let destination = y + 5 * ((2 * x + 3 * y) % 5) in
        set_at rotated destination (rotate_left (lane state source) (lane rotation_offsets source)))
      (replicate keccak_state_words 0)

unfoldable pub apply_chi : List ℕ → List ℕ → List ℕ
apply_chi rotated = for_lanes (λ x y s. set_at s (x + 5 * y) (
    bit_xor (lane rotated (x + 5 * y)) (
      bit_and (complement (lane rotated ((x + 1) % 5 + 5 * y)))
        (lane rotated ((x + 2) % 5 + 5 * y)))))

-- the body of keccakPermutation's loop
unfoldable pub keccak_round : List ℕ → ℕ → List ℕ
unfolding column_parity theta_words apply_theta rotate_lanes apply_chi rotate_left
keccak_round state round_constant =
    let mixed = apply_theta (theta_words (column_parity state)) state in
    let changed = apply_chi (rotate_lanes mixed) mixed in
    set_at changed 0 (bit_xor (lane changed 0) round_constant)

abbrev pub keccak_rounds : List ℕ → List ℕ → List ℕ
keccak_rounds [] state = state
keccak_rounds (c ∷ constants) state = keccak_rounds constants (keccak_round state c)

unfoldable pub keccak_permutation : List ℕ → List ℕ
unfolding keccak_round
keccak_permutation = keccak_rounds round_constants

-- the padding loop: its test, and a bound on its rounds
abbrev pub is_short : List ℕ → Bool
is_short padded = not (nat_eq (length padded % keccak_rate_bytes) (keccak_rate_bytes - 1))

unfoldable pub pad : List ℕ → List ℕ
unfolding while
pad input =
    while is_short (λ padded. padded ++ 0 ∷ []) (keccak_rate_bytes + 1) (input ++ 0x01 ∷ [])
    ++ 0x80 ∷ []

-- an offset into the padded input, and the state
abbrev pub Absorbing : Type 0
Absorbing = ℕ × List ℕ

unfoldable pub absorb_block : List ℕ → Absorbing → Absorbing
unfolding keccak_permutation read_little_endian_word
absorb_block padded (offset, state) = (
  offset + keccak_rate_bytes,
  keccak_permutation (
      for_range (keccak_rate_bytes / 8) 0
        (λ i s. set_at s i (bit_xor (lane s i) (read_little_endian_word padded (offset + i * 8))))
        state),
)

abbrev pub has_block : List ℕ → Absorbing → Bool
has_block padded (offset, state) = ltb offset (length padded)

unfoldable pub absorb : List ℕ → Absorbing
unfolding while absorb_block
absorb padded =
    while (has_block padded) (absorb_block padded) (length padded + 1)
      (0, replicate keccak_state_words 0)

-- the number of the lane that is read next, and the output
abbrev pub Squeezing : Type 0
Squeezing = ℕ × List ℕ

unfoldable pub squeeze_lane : List ℕ → Squeezing → Squeezing
unfolding append_little_endian_word
squeeze_lane state (i, output) = (
  i + 1,
  output
      ++ take (keccak_digest_bytes - length output) (append_little_endian_word [] (lane state i)),
)

abbrev pub is_unfinished : Squeezing → Bool
is_unfinished (i, output) = ltb (length output) keccak_digest_bytes

unfoldable pub squeeze : List ℕ → Squeezing
unfolding while squeeze_lane
squeeze state = while is_unfinished (squeeze_lane state) (keccak_digest_bytes + 1) (0, [])

unfoldable pub keccak256 : List ℕ → List ℕ
unfolding pad absorb squeeze
keccak256 input = (squeeze (absorb (pad input)).1).1
