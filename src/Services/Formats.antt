-- ===== src/Services/Formats.antt =====
-- The two formats that the services check or make: the hash of a transaction, and the name of
-- the file of a downloaded message.
use epic_kfc.Base.{
  Bool-cases, ℕ, zero, suc, QString, text, Bool, true, false, [], ◌∷◌, ◌++◌, ◌≡◌, ◌≢◌, ◌↔◌, ◌⊎◌,
  inl, inr, refl, sym, ap, ◌∙◌, arith, All, length, nat_eq_iff, is_empty,
}
use epic_kfc.Services.Anchors.{is_hex_digit, matches_hex, is_valid_ethereum_transaction_hash}
use epic_kfc.Services.Sending.{
  safe_unit, is_surrogate_pair, safe_message_id, replace_unsafe, is_well_formed,
}

abbrev pub IsHex : ℕ → Type 0
IsHex c = is_hex_digit c ≡ true

-- digits of a count, and a line feed or nothing behind them
abbrev pub IsHexLine : ℕ → QString → Type 0
IsHexLine count s =
    (digits : QString) × (tail : QString) × (s ≡ digits ++ tail)
    × (length digits ≡ count)
    × All IsHex digits
    × ((tail ≡ []) ⊎ (tail ≡ b'\n' ∷ []))

matches_hex-to : (n : ℕ) (s : QString) → matches_hex n s ≡ true → IsHexLine n s
unfolding matches_hex
matches_hex-to zero [] h = ([], [], refl, refl, tt, inl refl)
matches_hex-to zero (c ∷ []) h =
    ([], c ∷ [], refl, refl, tt, inr (ap (λ d. d ∷ []) ((nat_eq_iff c b'\n').0 (ground arith))))
matches_hex-to zero (c ∷ d ∷ s) h = absurd (ground arith)
matches_hex-to (suc n) [] h = cc
matches_hex-to (suc n) (c ∷ s) h =
    let found = matches_hex-to n s (ground arith) in
    let digit : IsHex c = ground arith in
    (c ∷ found.0, found.1, ap (◌∷◌ c) found.2, ap suc found.3, (digit, found.4), found.5)

matches_hex-from :
    (digits tail : QString)
    → All IsHex digits
    → (tail ≡ []) ⊎ (tail ≡ b'\n' ∷ [])
    → matches_hex (length digits) (digits ++ tail) ≡ true
unfolding matches_hex
matches_hex-from [] tail h (inl e) = rw e refl
matches_hex-from [] tail h (inr e) = rw e refl
matches_hex-from (c ∷ digits) tail h t = rw h.0 (matches_hex-from digits tail h.1 t)

-- A text passes for the hash of a transaction exactly if it is 0x and 64 hexadecimal digits,
-- with nothing or with one line feed behind them.
pub is_valid_ethereum_transaction_hash_iff :
    (s : QString)
    → (is_valid_ethereum_transaction_hash s ≡ true)
      ↔ ((rest : QString) × (s ≡ text "0x" ++ rest) × IsHexLine 64 rest)
unfolding is_valid_ethereum_transaction_hash
is_valid_ethereum_transaction_hash_iff s = (there s, back s)
  where
    there :
        (s : QString)
        → is_valid_ethereum_transaction_hash s ≡ true
        → (rest : QString) × (s ≡ text "0x" ++ rest) × IsHexLine 64 rest
    there [] h = cc
    there (c ∷ []) h = cc
    there (c ∷ d ∷ rest) h =
        let e : c ≡ b'0' = (nat_eq_iff c b'0').0 (ground arith) in
        let f : d ≡ b'x' = (nat_eq_iff d b'x').0 (ground arith) in
        (rest, rw (e, f) refl, matches_hex-to 64 rest (ground arith))

    back :
        (s : QString)
        → (rest : QString) × (s ≡ text "0x" ++ rest) × IsHexLine 64 rest
        → is_valid_ethereum_transaction_hash s ≡ true
    back s (rest, e, (digits, tail, f, n, h, t)) =
        rw (e, f)
          (ap (λ k. matches_hex k (digits ++ tail)) (sym n) ∙ matches_hex-from digits tail h t)

-- a character that has no meaning in a path
abbrev pub IsPlain : ℕ → Type 0
IsPlain c = (c ≢ b'/') × (c ≢ b'\\') × (c ≢ b'.') × (c ≢ b':') × (c ≢ b' ') × (c ≢ 0)

safe_unit-IsPlain : (c : ℕ) → IsPlain (safe_unit c)
safe_unit-IsPlain c = ground arith

replace_unsafe-IsPlain :
    (id : QString) → All IsPlain (replace_unsafe id) × (is_empty (replace_unsafe id) ≡ is_empty id)
unfolding replace_unsafe
replace_unsafe-IsPlain [] = (tt, refl)
replace_unsafe-IsPlain (c ∷ []) = ((safe_unit-IsPlain c, tt), refl)
replace_unsafe-IsPlain (c ∷ d ∷ s) =
    either (is_surrogate_pair c d) (replace_unsafe-IsPlain s).0 (replace_unsafe-IsPlain (d ∷ s)).0
  where
    either :
        (pair : Bool)
        → All IsPlain (replace_unsafe s)
        → All IsPlain (replace_unsafe (d ∷ s))
        → let out : QString = elim pair [
          | true ↦ b'_' ∷ replace_unsafe s
          | false ↦ safe_unit c ∷ replace_unsafe (d ∷ s)
        ] in
          All IsPlain out × (is_empty out ≡ false)
    either true after_pair after_one = ((grind arith, after_pair), refl)
    either false after_pair after_one = ((safe_unit-IsPlain c, after_one), refl)

-- The name of the file that a message is downloaded to has no separator, no dot and no blank
-- from the message's id, and it is empty only where the id is, if the id is well-formed UTF-16;
-- else the id is taken as it is.
pub safe_message_id-IsPlain :
    (id : QString)
    → (is_well_formed id ≡ true)
        × All IsPlain (safe_message_id id)
        × (is_empty (safe_message_id id) ≡ is_empty id)
      ⊎ ((is_well_formed id ≡ false) × (safe_message_id id ≡ id))
unfolding safe_message_id
safe_message_id-IsPlain id = elim (Bool-cases (is_well_formed id)) [
  | inl e ↦ inl (rw e (refl, (replace_unsafe-IsPlain id).0, (replace_unsafe-IsPlain id).1))
  | inr e ↦ inr (rw e (refl, refl))
]
