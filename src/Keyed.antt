-- ===== src/Keyed.antt =====
-- A `std::vector` used as a table: `find_if` by a key, then an update in place or a `push_back`.
-- The methods of client/src/storage/JsonLocalStore.cpp share this shape.
pub mod Laws
use epic_kfc.Base.{
  Bool, false, QString, ℤ, text_eq, int_eq, ◌&&◌, Option, List, [], ◌∷◌, if◌then◌else◌, find_if,
  ◌≡◌, All,
}

module _ {ℓ κ} {A : Type ℓ} {K : Type κ} (key : A → K) (eq : K → K → Bool) where
  unfoldable pub lookup : K → List A → Option A
  lookup k = find_if (λ y. eq (key y) k)

  -- `merge old new` replaces the entry that is found
  unfoldable pub upsert : (A → A → A) → A → List A → List A
  upsert merge x [] = x ∷ []
  upsert merge x (y ∷ ys) =
      let rest = upsert merge x ys in if eq (key y) (key x) then merge y x ∷ ys else y ∷ rest

  -- No two entries have one key.
  abbrev pub HasUniqueKeys : List A → Type 0
  HasUniqueKeys [] = Unit
  HasUniqueKeys (y ∷ ys) = All (λ z. eq (key y) (key z) ≡ false) ys × HasUniqueKeys ys

abbrev pub replace {ℓ} : {A : Type ℓ} → A → A → A
replace old new = new

abbrev pub address_eq : QString × ℤ → QString × ℤ → Bool
address_eq a b = text_eq a.0 b.0 && int_eq a.1 b.1

abbrev pub device_eq : ℤ × ℤ → ℤ × ℤ → Bool
device_eq a b = int_eq a.0 b.0 && int_eq a.1 b.1
