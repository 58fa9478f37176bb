-- ===== src/Keccak/Padding.antt =====
-- What the padding loop appends, next to the padding rule pad10*1 of FIPS 202, section 5.1, on
-- bytes.
use epic_kfc.Base.{
  ℕ, zero, suc, ◌+◌, ◌-◌, ◌%◌, ◌<◌, ◌≤◌, true, false, List, [], ◌∷◌, ◌++◌, ◌≡◌, ◌≢◌, ◌↔◌, refl, sym,
  ap, ◌∙◌, if◌then◌else◌, nat_eq, nat_eq_iff, Bool-cases, inl, inr, arith, length, replicate, while,
  while_inv, append_assoc, append-nil, if_true, if_false,
}
use epic_kfc.Keccak.{is_short, pad}

pub length-append {ℓ} : {A : Type ℓ} (xs ys : List A) → length (xs ++ ys) ≡ length xs + length ys
length-append [] ys = omega arith
length-append (x ∷ xs) ys = omega (arith, length-append xs ys)

length-replicate : (n v : ℕ) → length (replicate n v) ≡ n
length-replicate zero v = refl
length-replicate (suc n) v = ap suc (length-replicate n v)

replicate-suc : (n v : ℕ) → replicate n v ++ v ∷ [] ≡ replicate (suc n) v
replicate-suc zero v = refl
replicate-suc (suc n) v = ap (◌∷◌ v) (replicate-suc n v)

-- the padded input after a number of zeros
abbrev zeros_after : List ℕ → ℕ → List ℕ
zeros_after input n = (input ++ 0x01 ∷ []) ++ replicate n 0

length-zeros_after : (input : List ℕ) (n : ℕ) → length (zeros_after input n) ≡ length input + 1 + n
length-zeros_after input n = omega (
  arith,
  length-append (input ++ 0x01 ∷ []) (replicate n 0),
  length-append input (0x01 ∷ []),
  length-replicate n 0,
)

abbrev IsPadding : List ℕ → List ℕ → Type 0
IsPadding input padded =
    (n : ℕ) × (padded ≡ zeros_after input n) × ((length input + 1) % 136 + n ≤ 135)

is_short_iff : (padded : List ℕ) → (is_short padded ≡ false) ↔ (length padded % 136 ≡ 135)
is_short_iff padded = ground (arith, nat_eq_iff (length padded % 136) 135)

IsPadding-round :
    (input padded : List ℕ)
    → IsPadding input padded
    → is_short padded ≡ true
    → IsPadding input (padded ++ 0 ∷ [])
      × (135 - length (padded ++ 0 ∷ []) % 136 < 135 - length padded % 136)
IsPadding-round input padded (n, e, small) more =
    let size : length padded ≡ length input + 1 + n = ap length e ∙ length-zeros_after input n in
    let open_end : length padded % 136 ≢ 135 =
      λ full. ground (arith, (is_short_iff padded).1 full) in
    (
      (
        suc n,
        ap (λ l. l ++ 0 ∷ []) e
            ∙ append_assoc (input ++ 0x01 ∷ []) (replicate n 0) (0 ∷ [])
            ∙ ap (λ l. (input ++ 0x01 ∷ []) ++ l) (replicate-suc n 0),
        ground arith,
      ),
      ground (arith, length-append padded (0 ∷ [])),
    )

-- the zeros that the loop appends: up to the last byte of a block that is not yet full
abbrev pub zeros : List ℕ → ℕ
zeros input = 135 - (length input + 1) % 136

-- the loop is left by its test, with the zeros that fill the block up to its last byte
pub pad_lem : (input : List ℕ) → pad input ≡ zeros_after input (zeros input) ++ 0x80 ∷ []
unfolding pad
pad_lem input =
    ap (λ l. l ++ 0x80 ∷ [])
      (ended.1.1
        ∙ ap (zeros_after input) (
            omega (
              arith,
              (is_short_iff _).0 ended.0,
              ap length ended.1.1,
              length-zeros_after input ended.1.0,
              ended.1.2,
            )))
  where
    padded : List ℕ
    padded = while is_short (λ l. l ++ 0 ∷ []) 137 (input ++ 0x01 ∷ [])

    ended : (is_short padded ≡ false) × IsPadding input padded
    ended =
        while_inv is_short (λ l. l ++ 0 ∷ []) (IsPadding input) (λ l. 135 - length l % 136)
          (IsPadding-round input) 137 (input ++ 0x01 ∷ [])
          (0, sym (append-nil (input ++ 0x01 ∷ [])), omega arith) (omega arith)

pub length-pad :
    (input : List ℕ) → length (pad input) ≡ length input + 2 + (135 - (length input + 1) % 136)
length-pad input = omega (
  arith,
  ap length (pad_lem input),
  length-append (zeros_after input (zeros input)) (0x80 ∷ []),
  length-zeros_after input (zeros input),
)

-- pad10*1 for a rate of 136 bytes, with the bits of a byte from the lowest on: one byte 0x81
-- where one byte is left of the block, else 0x01, zeros and 0x80
abbrev pub fips_pad : List ℕ → List ℕ
fips_pad input =
    if nat_eq (length input % 136) 135
    then input ++ 0x81 ∷ []
    else zeros_after input (134 - length input % 136) ++ 0x80 ∷ []

-- The padded input is the one of pad10*1 exactly where the last block of the input is not one
-- byte short of 136: there the standard appends the one byte 0x81, and the code appends a
-- whole further block.
pub pad-eq-fips_pad : (input : List ℕ) → (pad input ≡ fips_pad input) ↔ (length input % 136 ≢ 135)
pad-eq-fips_pad input = (
  λ e full.
      let t : nat_eq (length input % 136) 135 ≡ true = (nat_eq_iff _ _).1 full in
      omega
        (arith, length-pad input, ap length (e ∙ if_true _ _ _ t), length-append input (0x81 ∷ [])),
  λ free. elim (Bool-cases (nat_eq (length input % 136) 135)) [
    | inl t ↦ absurd (free ((nat_eq_iff _ _).0 t))
    | inr f ↦
        pad_lem input
        ∙ ap (λ n. zeros_after input n ++ 0x80 ∷ []) (omega arith)
        ∙ sym (if_false _ _ _ f)
  ],
)
