-- ===== src/Files/Accounts.antt =====
-- The file of an account, and the account that was used last.
use epic_kfc.Base.{
  ℕ, QString, text, true, false, not, some, [], ◌∷◌, map, ◌≡◌, ◌⊎◌, inl, refl, arith, All, is_empty,
  text_eq_refl,
}
use epic_kfc.Models.{success, success-injective, guard_passed}
use epic_kfc.Platform.{Qt}
use epic_kfc.Host.{Host}
use epic_kfc.Json.{value}
use epic_kfc.Store.{Store}
use epic_kfc.Files.{
  Disk, write, safe_character, safe_state_name, remember_last_account_id, last_account_id,
}

module _ (qt : Qt) (host : Host) where
  -- what a name may be made of
  abbrev pub IsSafe : ℕ → Type 0
  IsSafe c = (qt.is_letter_or_number c ≡ true) ⊎ (c ≡ b'-') ⊎ (c ≡ b'_')

  safe_character-IsSafe : (c : ℕ) → IsSafe (safe_character qt host c)
  safe_character-IsSafe c = ground arith

  map-All-IsSafe : (s : QString) → All IsSafe (map (safe_character qt host) s)
  map-All-IsSafe [] = tt
  map-All-IsSafe (c ∷ s) = (safe_character-IsSafe c, map-All-IsSafe s)

  letters-All-IsSafe : (s : QString) → All (λ c. qt.is_letter_or_number c ≡ true) s → All IsSafe s
  letters-All-IsSafe [] h = tt
  letters-All-IsSafe (c ∷ s) (h, hs) = (inl h, letters-All-IsSafe s hs)

  -- The part of a file's name that comes from an account is never empty, and it has only letters,
  -- digits, `-` and `_`, whatever the account is called: no separator of a path. The seven
  -- characters of `account`, which stands for an empty name, are taken to be letters.
  pub safe_state_name-All-IsSafe :
      (s : QString)
      → All (λ c. qt.is_letter_or_number c ≡ true) (text "account")
      → All IsSafe (safe_state_name qt host s) × (is_empty (safe_state_name qt host s) ≡ false)
  unfolding safe_state_name
  safe_state_name-All-IsSafe [] h = (letters-All-IsSafe (text "account") h, refl)
  safe_state_name-All-IsSafe (c ∷ s) h = (map-All-IsSafe (c ∷ s), refl)

module _ (host : Host) where
  -- An account that was remembered without an error is the one that is read back, by every store
  -- with the same index file, if its name is not empty and the file can be read.
  pub last_account_id-remember :
      (account : QString) (s : Store) (disk disk' : Disk)
      → is_empty account ≡ false
      → host.can_read s.index_path ≡ true
      → remember_last_account_id host account s disk ≡ success disk'
      → last_account_id host s disk' ≡ success (some account)
  unfolding remember_last_account_id last_account_id write value
  last_account_id-remember account s disk disk' given readable e =
      let (_, rest) =
        guard_passed (not (host.directory_ready (host.directory s.index_path))) _ _ e in
      let (_, done) = guard_passed (not (host.can_write s.index_path)) _ _ rest in
      let same = success-injective done in
      rw (← same, text_eq_refl s.index_path, readable, given) refl
