-- ===== src/Secrets/Fields.antt =====
-- The secret fields of one object: what is encrypted under a key is decrypted under it.
use package.text.Mathlib.Text.{◌==◌}
use package.text.Mathlib.TextEquality.{eq_iff}
use epic_kfc.Base.{
  ℕ, suc, QString, text, String, true, false, Option, none, some, List, [], ◌∷◌, ◌≡◌, ◌≢◌, refl,
  sym, ap, ◌∙◌, arith, All, Option-cases, inl, inr, nat_eq, length, Bool-cases,
}
use mathlib.Core.Option.{some-injective}
use epic_kfc.Models.{success, >>=-eq-success, success-injective, could_not_decrypt}
use epic_kfc.Host.{Host, HostLaws, QByteArray}
use epic_kfc.Json.{QJsonValue, QJsonObject, string, object, value, contains, insert, to_int}
use epic_kfc.Json.Laws.{value-insert, contains-insert, insert-insert, insert-value, insert_comm}
use epic_kfc.Secrets.{
  encrypt_secret_string, decrypt_secret_string, encrypt_with, decrypt_with, sealed_blob, blob,
  protect_string, protect_strings, unprotect_string, unprotect_strings, store_blob, secret_iv_bytes,
  unprotect_value, storage_error, secret_blob_version,
}

pub ne_of_eq-false : (j k : String) → j ≢ k → (j == k) ≡ false
ne_of_eq-false j k h = ground (arith, eq_iff j k)

-- The fields are there, they are texts, and no key is listed twice.
abbrev pub HasTexts : List String → QJsonObject → Type 0
HasTexts [] o = Unit
HasTexts (k ∷ ks) o =
    (contains k o ≡ true)
    × ((s : QString) × (value k o ≡ string s))
    × All (λ j. k ≢ j) ks
    × HasTexts ks o

HasTexts-insert :
    (k : String) (w : QJsonValue) (ks : List String) (o : QJsonObject)
    → All (λ j. k ≢ j) ks
    → HasTexts ks o
    → HasTexts ks (insert k w o)
HasTexts-insert k w [] o ne h = tt
HasTexts-insert k w (j ∷ js) o (ne, nes) (there, (s, is), other, rest) = (
  contains-insert k j w o there,
  (s, rw (value-insert k j w o, ne_of_eq-false k j ne) is),
  other,
  HasTexts-insert k w js o nes rest,
)

value-insert_self : (k : String) (w : QJsonValue) (o : QJsonObject) → value k (insert k w o) ≡ w
value-insert_self k w o = rw (value-insert k k w o, (eq_iff k k).1 refl)

insert-text :
    (k : String) (s : QString) (o : QJsonObject)
    → contains k o ≡ true
    → value k o ≡ string s
    → insert k (string s) o ≡ o
insert-text k s o there is = rw (← is) (insert-value k o there)

module _ {host : Host} (laws : HostLaws host) (passphrase : QString) (salt : QByteArray) where
  decrypt-sealed :
      (key iv : QByteArray) (plaintext : QString) (name : String)
      (sealed : Option (QByteArray × QByteArray)) (b : QJsonObject)
      → host.encrypt key iv (host.to_utf8 (text name)) (host.to_utf8 plaintext) ≡ sealed
      → sealed_blob host passphrase salt iv sealed ≡ some b
      → decrypt_with host passphrase salt b name (some key) ≡ some plaintext
  decrypt-sealed key iv plaintext name none b e h = cc
  decrypt-sealed key iv plaintext name (some (c, t)) b e h =
      let made : blob (host.bytes_to_base64 iv) (host.bytes_to_base64 t) (host.bytes_to_base64 c)
          ≡ b =
        some-injective _ _ h in
      rw (← made) (
        unfold value in
        rw (
          laws.base64 iv,
          laws.base64 c,
          laws.base64 t,
          laws.decrypt_encrypt key iv (host.to_utf8 (text name)) (host.to_utf8 plaintext) c t e,
          laws.utf8 plaintext,
        ))

  decrypt-encrypt_with :
      (plaintext : QString) (name : String) (iv : QByteArray) (key : Option QByteArray)
      (b : QJsonObject)
      → encrypt_with host passphrase salt plaintext name iv key ≡ some b
      → decrypt_with host passphrase salt b name key ≡ some plaintext
  decrypt-encrypt_with plaintext name iv none b h = cc
  decrypt-encrypt_with plaintext name iv (some key) b h =
      elim (Bool-cases (nat_eq (length iv) secret_iv_bytes)) [
        | inl full ↦ decrypt-sealed key iv plaintext name _ b refl (rw full at h)
        | inr short ↦ let refused : none ≡ some b = (rw short at h) in cc
      ]

  sealed-version :
      (iv : QByteArray) (sealed : Option (QByteArray × QByteArray)) (b : QJsonObject)
      → sealed_blob host passphrase salt iv sealed ≡ some b
      → to_int (value "version" b) ≡ secret_blob_version
  sealed-version iv none b h = cc
  sealed-version iv (some (c, t)) b h =
      let made : blob (host.bytes_to_base64 iv) (host.bytes_to_base64 t) (host.bytes_to_base64 c)
          ≡ b =
        some-injective _ _ h in
      rw (← made) (unfold value in refl)

  encrypt_with-version :
      (plaintext : QString) (name : String) (iv : QByteArray) (key : Option QByteArray)
      (b : QJsonObject)
      → encrypt_with host passphrase salt plaintext name iv key ≡ some b
      → to_int (value "version" b) ≡ secret_blob_version
  encrypt_with-version plaintext name iv none b h = cc
  encrypt_with-version plaintext name iv (some key) b h =
      elim (Bool-cases (nat_eq (length iv) secret_iv_bytes)) [
        | inl full ↦ sealed-version iv _ b (rw full at h)
        | inr short ↦ let refused : none ≡ some b = (rw short at h) in cc
      ]

  decrypt-encrypt :
      (plaintext : QString) (name : String) (draw : ℕ) (b : QJsonObject)
      → encrypt_secret_string host passphrase salt plaintext name draw ≡ some b
      → decrypt_secret_string host passphrase salt b name ≡ some plaintext
  unfolding encrypt_secret_string decrypt_secret_string
  decrypt-encrypt plaintext name draw b h =
      rw
        (encrypt_with-version plaintext name (host.random draw secret_iv_bytes)
          (host.derive_storage_key passphrase salt) b h)
        (decrypt-encrypt_with plaintext name (host.random draw secret_iv_bytes)
          (host.derive_storage_key passphrase salt) b h)

  store_blob_inv :
      (o : QJsonObject) (key : String) (n : ℕ) (encrypted : Option QJsonObject)
      (r : QJsonObject × ℕ)
      → store_blob host passphrase salt o key n encrypted ≡ success r
      → (b : QJsonObject) × (encrypted ≡ some b) × (r.0 ≡ insert key (object b) o)
  store_blob_inv o key n none r h = cc
  store_blob_inv o key n (some b) r h = (b, refl, cc)

  -- a protected text becomes an object that decrypts to it
  protect_string_inv :
      (o : QJsonObject) (key : String) (n : ℕ) (s : QString) (r : QJsonObject × ℕ)
      → value key o ≡ string s
      → protect_string host passphrase salt o key n ≡ success r
      → (b : QJsonObject) × (decrypt_secret_string host passphrase salt b key ≡ some s)
        × (r.0 ≡ insert key (object b) o)
  unfolding protect_string
  protect_string_inv o key n s r is h =
      let (b, made, same) = store_blob_inv o key (suc n) _ r (rw is at h) in
      (b, decrypt-encrypt s key n b made, same)

  value-protect_strings :
      (k : String) (ks : List String) (o : QJsonObject) (n : ℕ) (r : QJsonObject × ℕ)
      → All (λ j. k ≢ j) ks
      → HasTexts ks o
      → protect_strings host passphrase salt ks o n ≡ success r
      → (value k r.0 ≡ value k o) × (contains k o ≡ true → contains k r.0 ≡ true)
  unfolding protect_strings
  value-protect_strings k [] o n r ne h e =
      let same : (o, n) ≡ r = success-injective e in rw (← same) (refl, λ c. c)
  value-protect_strings k (j ∷ js) o n r (ne, nes) (there, (s, is), other, rest) e =
      let (r1, e1, e2) = >>=-eq-success (protect_string host passphrase salt o j n) _ e in
      let (b, _, same) = protect_string_inv o j n s r1 is e1 in
      let texts : HasTexts js r1.0 = rw same (HasTexts-insert j (object b) js o other rest) in
      let (values, keys) = value-protect_strings k js r1.0 r1.1 r nes texts e2 in
      let kept : value k r1.0 ≡ value k o =
        rw (same, value-insert j k (object b) o, ne_of_eq-false j k (λ e. ne (sym e))) in
      (values ∙ kept, λ c. keys (rw same (contains-insert j k (object b) o c)))

  unprotect_value-insert :
      (k j : String) (v : QJsonValue) (o o' : QJsonObject) (w : QJsonValue)
      → k ≢ j
      → contains k o ≡ true
      → unprotect_value host passphrase salt o j w ≡ success o'
      → (unprotect_value host passphrase salt (insert k v o) j w ≡ success (insert k v o'))
        × (contains k o' ≡ true)
  unprotect_value-insert k j v o o' (object b) ne there h =
      elim (Option-cases (decrypt_secret_string host passphrase salt b j)) [
        | inl failed ↦
            let refused : storage_error (could_not_decrypt (text j)) ≡ success o' =
              (rw failed at h) in
            cc
        | inr (p, read) ↦
            let same : insert j (string p) o ≡ o' = success-injective (rw read at h) in
            (
              rw (read, ← same) (ap success (sym (insert_comm k j v (string p) o ne there))),
              rw (← same) (contains-insert j k (string p) o there),
            )
      ]
  unprotect_value-insert k j v o o' _ ne there h =
      let same : o ≡ o' = success-injective h in
      (ap (λ (x : QJsonObject). success (insert k v x)) same, rw (← same) there)

  unprotect_string-insert :
      (k j : String) (v : QJsonValue) (o o' : QJsonObject)
      → k ≢ j
      → contains k o ≡ true
      → unprotect_string host passphrase salt o j ≡ success o'
      → (unprotect_string host passphrase salt (insert k v o) j ≡ success (insert k v o'))
        × (contains k o' ≡ true)
  unfolding unprotect_string
  unprotect_string-insert k j v o o' ne there h =
      rw (value-insert k j v o, ne_of_eq-false k j ne)
        (unprotect_value-insert k j v o o' (value j o) ne there h)

  unprotect_strings-insert :
      (k : String) (v : QJsonValue) (ks : List String) (o o' : QJsonObject)
      → All (λ j. k ≢ j) ks
      → contains k o ≡ true
      → unprotect_strings host passphrase salt ks o ≡ success o'
      → unprotect_strings host passphrase salt ks (insert k v o) ≡ success (insert k v o')
  unfolding unprotect_strings
  unprotect_strings-insert k v [] o o' ne there h =
      ap (λ (x : QJsonObject). success (insert k v x)) (success-injective h)
  unprotect_strings-insert k v (j ∷ js) o o' (ne, nes) there h =
      let (o1, e1, e2) = >>=-eq-success (unprotect_string host passphrase salt o j) _ h in
      let (step, still) = unprotect_string-insert k j v o o1 ne there e1 in
      rw step (unprotect_strings-insert k v js o1 o' nes still e2)

  unprotect_string_of_blob :
      (k : String) (s : QString) (b o : QJsonObject)
      → value k o ≡ object b
      → decrypt_secret_string host passphrase salt b k ≡ some s
      → unprotect_string host passphrase salt o k ≡ success (insert k (string s) o)
  unfolding unprotect_string
  unprotect_string_of_blob k s b o sealed read = rw (sealed, read)

  -- Whatever was protected is read back: the fields that `protectStrings` encrypted are
  -- decrypted by `unprotectStrings`, and the object is the one before.
  pub unprotect-protect_strings :
      (ks : List String) (o : QJsonObject) (n : ℕ) (r : QJsonObject × ℕ)
      → HasTexts ks o
      → protect_strings host passphrase salt ks o n ≡ success r
      → unprotect_strings host passphrase salt ks r.0 ≡ success o
  unfolding protect_strings unprotect_strings
  unprotect-protect_strings [] o n r h e =
      let same : (o, n) ≡ r = success-injective e in rw (← same)
  unprotect-protect_strings (k ∷ ks) o n r (there, (s, is), other, rest) e =
      let (r1, e1, e2) = >>=-eq-success (protect_string host passphrase salt o k n) _ e in
      let (b, read, same) = protect_string_inv o k n s r1 is e1 in
      let texts : HasTexts ks r1.0 = rw same (HasTexts-insert k (object b) ks o other rest) in
      let ih = unprotect-protect_strings ks r1.0 r1.1 r texts e2 in
      let (values, keys) = value-protect_strings k ks r1.0 r1.1 r other texts e2 in
      let there1 : contains k r1.0 ≡ true = rw same (contains-insert k k (object b) o there) in
      let sealed : value k r.0 ≡ object b =
        values ∙ ap (value k) same ∙ value-insert_self k (object b) o in
      let restored : insert k (string s) r1.0 ≡ o =
        ap (insert k (string s)) same
        ∙ insert-insert k (string s) (object b) o
        ∙ insert-text k s o there is in
      let back = unprotect_strings-insert k (string s) ks r.0 r1.0 other (keys there1) ih in
      rw (unprotect_string_of_blob k s b r.0 sealed read) (back ∙ ap success restored)
