-- ===== src/Keyed/Laws.antt =====
-- What a table holds after an entry is saved.
use epic_kfc.Base.{
  Bool, true, false, Option, none, some, List, [], ◌∷◌, if◌then◌else◌, ◌≡◌, ◌↔◌, arith, All, refl,
  text_eq_iff, int_eq_iff, QString, ℤ, Bool-cases, inl, inr, map,
}
use mathlib.Core.Option
use epic_kfc.Keyed.{lookup, upsert, HasUniqueKeys, address_eq, device_eq}

pub address_eq_iff : (a b : QString × ℤ) → (address_eq a b ≡ true) ↔ (a ≡ b)
address_eq_iff (s, m) (t, n) = ground (arith, text_eq_iff s t, int_eq_iff m n)

pub device_eq_iff : (a b : ℤ × ℤ) → (device_eq a b ≡ true) ↔ (a ≡ b)
device_eq_iff (s, m) (t, n) = ground (arith, int_eq_iff s t, int_eq_iff m n)

abbrev pub merged {ℓ} : {A : Type ℓ} → (A → A → A) → A → Option A → A
merged merge x none = x
merged merge x (some y) = merge y x

module _ {ℓ κ} {A : Type ℓ} {K : Type κ} (key : A → K) (eq : K → K → Bool)
    (eq_iff : (a b : K) → (eq a b ≡ true) ↔ (a ≡ b)) (merge : A → A → A) (x : A)
    (same_key : (y : A) → key (merge y x) ≡ key x) where
  -- The entry of every key after `upsert`.
  pub lookup-upsert :
      (k : K) (xs : List A)
      → lookup key eq k (upsert key eq merge x xs) ≡ (
          if eq (key x) k
          then some (merged merge x (lookup key eq (key x) xs))
          else lookup key eq k xs)
  unfolding lookup upsert
  lookup-upsert k [] = refl
  lookup-upsert k (y ∷ ys) = ground (
    arith,
    lookup-upsert k ys,
    eq_iff (key y) (key x),
    same_key y,
    eq_iff (key x) k,
    eq_iff (key y) k,
  )

  upsert-All_other :
      (k : K) (xs : List A)
      → eq k (key x) ≡ false
      → All (λ z. eq k (key z) ≡ false) xs
      → All (λ z. eq k (key z) ≡ false) (upsert key eq merge x xs)
  unfolding upsert
  upsert-All_other k [] e h = (e, tt)
  upsert-All_other k (y ∷ ys) e (h, hs) = elim (Bool-cases (eq (key y) (key x))) [
    | inl same ↦ rw (same, same_key y) (e, hs)
    | inr new ↦ rw new (h, upsert-All_other k ys e hs)
  ]

  -- Saving an entry keeps the keys distinct.
  pub upsert-HasUniqueKeys :
      (xs : List A) → HasUniqueKeys key eq xs → HasUniqueKeys key eq (upsert key eq merge x xs)
  unfolding upsert
  upsert-HasUniqueKeys [] h = (tt, tt)
  upsert-HasUniqueKeys (y ∷ ys) (h, hs) = elim (Bool-cases (eq (key y) (key x))) [
    | inl same ↦ let e : key y ≡ key x = (eq_iff _ _).0 same in rw (same, same_key y, ← e) (h, hs)
    | inr new ↦ rw new (upsert-All_other (key y) ys new h, upsert-HasUniqueKeys ys hs)
  ]

module _ {ℓ κ} {A : Type ℓ} {K : Type κ} (key : A → K) (eq : K → K → Bool) (change : A → A)
    (same_key : (y : A) → key (change y) ≡ key y) where
  -- A loop that changes entries and not their keys changes what is found.
  pub lookup-map :
      (k : K) (xs : List A)
      → lookup key eq k (map change xs) ≡ Option.map change (lookup key eq k xs)
  unfolding lookup
  lookup-map k [] = refl
  lookup-map k (y ∷ ys) = elim (Bool-cases (eq (key y) k)) [
    | inl found ↦ rw (same_key y, found)
    | inr other ↦ rw (same_key y, other) (lookup-map k ys)
  ]

  map-All_other :
      (k : K) (xs : List A)
      → All (λ z. eq k (key z) ≡ false) xs
      → All (λ z. eq k (key z) ≡ false) (map change xs)
  map-All_other k [] h = tt
  map-All_other k (y ∷ ys) (h, hs) = (rw (same_key y) h, map-All_other k ys hs)

  pub map-HasUniqueKeys :
      (xs : List A) → HasUniqueKeys key eq xs → HasUniqueKeys key eq (map change xs)
  map-HasUniqueKeys [] h = tt
  map-HasUniqueKeys (y ∷ ys) (h, hs) =
      (rw (same_key y) (map-All_other (key y) ys h), map-HasUniqueKeys ys hs)
