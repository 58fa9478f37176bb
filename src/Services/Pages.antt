-- ===== src/Services/Pages.antt =====
-- The pages of a conversation: each is within bounds, and together they are the conversation.
use epic_kfc.Base.{
  ℕ, zero, suc, ◌+◌, ◌-◌, ◌*◌, ◌/◌, ◌≤◌, ◌<◌, ℤ, pos, negsuc, min, List, [], ◌∷◌, ◌++◌, ◌≡◌, refl,
  sym, ap, ◌∙◌, arith, length, take, drop,
}
use epic_kfc.Services.Reading.{page_count, safe_page, page_of}

-- the last page is not empty
page_count_mul : (n : ℕ) → page_count n * 10 ≤ n + 9
unfolding page_count
page_count_mul n = omega arith

module _ {ℓ} {A : Type ℓ} where
  take-nil : (n : ℕ) → take {A = A} n [] ≡ []
  take-nil zero = refl
  take-nil (suc n) = refl

  take-min : (n : ℕ) (xs : List A) → take n xs ≡ take (min n (length xs)) xs
  take-min zero xs = let e : 0 ≡ min 0 (length xs) = omega arith in ap (λ k. take k xs) e
  take-min (suc n) [] = sym (take-nil (min (suc n) 0))
  take-min (suc n) (x ∷ xs) =
      let e : suc (min n (length xs)) ≡ min (suc n) (suc (length xs)) = omega arith in
      ap (◌∷◌ x) (take-min n xs) ∙ ap (λ k. take k (x ∷ xs)) e

  length-drop : (n : ℕ) (xs : List A) → length (drop n xs) ≡ length xs - n
  length-drop zero xs = omega arith
  length-drop (suc n) [] = omega arith
  length-drop (suc n) (x ∷ xs) = omega (arith, length-drop n xs)

  length-take : (n : ℕ) (xs : List A) → length (take n xs) ≡ min n (length xs)
  length-take zero xs = omega arith
  length-take (suc n) [] = omega arith
  length-take (suc n) (x ∷ xs) = omega (arith, length-take n xs)

  take-drop : (n : ℕ) (xs : List A) → take n xs ++ drop n xs ≡ xs
  take-drop zero xs = refl
  take-drop (suc n) [] = refl
  take-drop (suc n) (x ∷ xs) = ap (◌∷◌ x) (take-drop n xs)

  drop-nil : (n : ℕ) → drop {A = A} n [] ≡ []
  drop-nil zero = refl
  drop-nil (suc n) = refl

  drop-drop : (n k : ℕ) (xs : List A) → drop k (drop n xs) ≡ drop (n + k) xs
  drop-drop zero k xs = ap (λ m. drop m xs) (omega arith)
  drop-drop (suc n) k [] = drop-nil k ∙ sym (drop-nil (suc n + k))
  drop-drop (suc n) k (x ∷ xs) =
      let e : suc (n + k) ≡ suc n + k = omega arith in
      drop-drop n k xs ∙ ap (λ m. drop m (x ∷ xs)) e

  drop_all : (n : ℕ) (xs : List A) → length xs ≤ n → drop n xs ≡ []
  drop_all zero [] h = refl
  drop_all zero (x ∷ xs) h = absurd (omega arith)
  drop_all (suc n) [] h = refl
  drop_all (suc n) (x ∷ xs) h = drop_all n xs (omega arith)

  page_of_lem : (k : ℕ) (xs : List A) → page_of (suc k) xs ≡ take 10 (drop (k * 10) xs)
  unfolding page_of
  page_of_lem k xs =
      let s : (suc k - 1) * 10 ≡ k * 10 = omega arith in
      ap (λ m. take (min (m + 10) (length xs) - m) (drop m xs)) s
      ∙ ap (λ m. take m (drop (k * 10) xs)) (omega (arith, length-drop (k * 10) xs))
      ∙ sym (take-min 10 (drop (k * 10) xs))

  -- the pages from one on
  abbrev pub pages_from : ℕ → ℕ → List A → List A
  pages_from page zero xs = []
  pages_from page (suc n) xs = page_of page xs ++ pages_from (page + 1) n xs

  pages_from-drop :
      (n k : ℕ) (xs : List A)
      → length xs ≤ (k + n) * 10
      → pages_from (suc k) n xs ≡ drop (k * 10) xs
  pages_from-drop zero k xs h = sym (drop_all (k * 10) xs (omega arith))
  pages_from-drop (suc n) k xs h =
      let next : suc k + 1 ≡ suc (suc k) = omega arith in
      let here : k * 10 + 10 ≡ suc k * 10 = omega arith in
      ap (λ p. page_of (suc k) xs ++ pages_from p n xs) next
      ∙ ap (◌++◌ (page_of (suc k) xs)) (pages_from-drop n (suc k) xs (omega arith))
      ∙ ap (λ m. page_of (suc k) xs ++ drop m xs) (sym here)
      ∙ ap (◌++◌ (page_of (suc k) xs)) (sym (drop-drop (k * 10) 10 xs))
      ∙ ap (λ l. l ++ drop 10 (drop (k * 10) xs)) (page_of_lem k xs)
      ∙ take-drop 10 (drop (k * 10) xs)

  -- The pages of a conversation, one after the other from the first to the last, are the
  -- conversation: no message is left out, and none is shown twice.
  pub pages_from_lem :
      (messages : List A) → pages_from 1 (page_count (length messages)) messages ≡ messages
  unfolding page_count
  pages_from_lem messages =
      pages_from-drop ((length messages + 10 - 1) / 10) 0 messages (omega arith)

  -- Whatever page is asked for, the page that is shown of a conversation with messages is one
  -- from the first to the last, and it has at least one message and at most ten.
  pub safe_page-bounds :
      (page : ℤ) (messages : List A)
      → 0 < length messages
      → (1 ≤ safe_page page (page_count (length messages)))
        × (safe_page page (page_count (length messages)) ≤ page_count (length messages))
        × (1 ≤ length (page_of (safe_page page (page_count (length messages))) messages))
        × (length (page_of (safe_page page (page_count (length messages))) messages) ≤ 10)
  safe_page-bounds page messages some =
      let bounds = clamped page (page_count (length messages)) (counted (length messages) some) in
      let sizes =
        sized (safe_page page (page_count (length messages))) messages bounds.0 bounds.1 some in
      (bounds.0, bounds.1, sizes.0, sizes.1)
    where
      counted : (n : ℕ) → 0 < n → 1 ≤ page_count n
      counted n h = unfold page_count in omega arith

      clamped :
          (page : ℤ) (count : ℕ)
          → 1 ≤ count
          → (1 ≤ safe_page page count) × (safe_page page count ≤ count)
      clamped (negsuc n) count h = unfold safe_page in (omega arith, h)
      clamped (pos page) count h = unfold safe_page in ground arith

      sized :
          (p : ℕ) (xs : List A)
          → 1 ≤ p
          → p ≤ page_count (length xs)
          → 0 < length xs
          → (1 ≤ length (page_of p xs)) × (length (page_of p xs) ≤ 10)
      sized zero xs lo hi some = absurd (omega arith)
      sized (suc k) xs lo hi some =
          let n = page_count_mul (length xs) in
          omega (
            arith,
            ap length (page_of_lem k xs),
            length-take 10 (drop (k * 10) xs),
            length-drop (k * 10) xs,
            n,
          )
