-- ===== src/Secrets/Hidden.antt =====
-- What is written of the secrets depends on them only through the cipher.
use epic_kfc.Base.{
  ℕ, suc, QString, String, Option, none, some, List, [], ◌∷◌, map, ◌≡◌, refl, sym, ap, ◌∙◌,
}
use epic_kfc.Models.{Result, success, failure, ◌>>=◌}
use epic_kfc.Host.{Host, QByteArray}
use epic_kfc.Json.{QJsonValue, QJsonObject, object, objects, string, array, value, insert, to_array}
use epic_kfc.Secrets.{
  encrypt_with, encrypt_secret_string, store_blob, protect_value, protect_string, protect_strings,
  protect_each, protect_array, protect_arrays, device_keys, pre_key_keys, trust_pin_keys,
  secret_iv_bytes,
}

-- the same system, where the cipher is given the empty text in place of every text
abbrev pub without_text : Host → Host
without_text host = record host { encrypt = λ key iv aad plaintext. host.encrypt key iv aad [] }

pub >>=-cong {ℓ κ} :
    {A : Type ℓ} {B : Type κ} (f g : A → Result B) (r : Result A)
    → ((a : A) → f a ≡ g a)
    → (r >>= f) ≡ (r >>= g)
>>=-cong f g (success a) h = h a
>>=-cong f g (failure e) h = refl

abbrev objects_of : List QJsonObject → List QJsonValue
objects_of os = to_array (array (objects os))

module _ (host : Host) (passphrase : QString) (salt : QByteArray) where
  -- no text is told from another
  encrypt_secret_string-same :
      (t t' : QString) (key : String) (n : ℕ)
      → encrypt_secret_string (without_text host) passphrase salt t key n
        ≡ encrypt_secret_string (without_text host) passphrase salt t' key n
  unfolding encrypt_secret_string
  encrypt_secret_string-same t t' key n = with_key (host.derive_storage_key passphrase salt)
    where
      iv : QByteArray
      iv = host.random n secret_iv_bytes

      with_key :
          (k : Option QByteArray)
          → encrypt_with (without_text host) passphrase salt t key iv k
            ≡ encrypt_with (without_text host) passphrase salt t' key iv k
      with_key none = refl
      with_key (some k) = refl

  -- objects that have texts under a key, and are alike once those are protected
  pub protect_strings-same :
      (key : String) (keys : List String) (o o' : QJsonObject) (n : ℕ) (t t' : QString)
      → value key o ≡ string t
      → value key o' ≡ string t'
      → ((b : QJsonObject)
          → protect_strings
              (without_text host)
              passphrase
              salt
              keys
              (insert key (object b) o)
              (suc n)
            ≡ protect_strings
                (without_text host)
                passphrase
                salt
                keys
                (insert key (object b) o')
                (suc n))
      → protect_strings (without_text host) passphrase salt (key ∷ keys) o n
        ≡ protect_strings (without_text host) passphrase salt (key ∷ keys) o' n
  unfolding protect_strings protect_string
  protect_strings-same key keys o o' n t t' here here' same =
      ap (λ v. protect_value (without_text host) passphrase salt o key n v >>= rest) here
      ∙ ap (λ b. store_blob (without_text host) passphrase salt o key (suc n) b >>= rest)
          (encrypt_secret_string-same t t' key n)
      ∙ stored (encrypt_secret_string (without_text host) passphrase salt t' key n)
      ∙ sym (ap (λ v. protect_value (without_text host) passphrase salt o' key n v >>= rest) here')
    where
      rest : QJsonObject × ℕ → Result (QJsonObject × ℕ)
      rest next = protect_strings (without_text host) passphrase salt keys next.0 next.1

      stored :
          (b : Option QJsonObject)
          → (store_blob (without_text host) passphrase salt o key (suc n) b >>= rest)
            ≡ (store_blob (without_text host) passphrase salt o' key (suc n) b >>= rest)
      stored none = refl
      stored (some b) = same b

  pub protect_each-same {ℓ} :
      {A : Type ℓ} (keys : List String) (f : A → QJsonObject) (hide : A → A)
      → ((a : A) (n : ℕ)
          → protect_strings (without_text host) passphrase salt keys (f a) n
            ≡ protect_strings (without_text host) passphrase salt keys (f (hide a)) n)
      → (xs : List A) (n : ℕ)
      → protect_each
          (without_text host)
          passphrase
          salt
          keys
          (to_array (array (objects (map f xs))))
          n
        ≡ protect_each
            (without_text host)
            passphrase
            salt
            keys
            (to_array (array (objects (map f (map hide xs)))))
            n
  unfolding protect_each
  protect_each-same keys f hide h [] n = refl
  protect_each-same keys f hide h (x ∷ xs) n =
      ap (λ r. r >>= others) (h x n)
      ∙ >>=-cong _ _ (protect_strings (without_text host) passphrase salt keys (f (hide x)) n)
          (λ first.
            ap (λ r. r >>= λ rest. success (first.0 ∷ rest.0, rest.1))
              (protect_each-same keys f hide h xs first.1))
    where
      others : QJsonObject × ℕ → Result (List QJsonObject × ℕ)
      others first = do
        rest ← protect_each (without_text host) passphrase salt keys (objects_of (map f xs)) first.1
        success (first.0 ∷ rest.0, rest.1)

  -- one array, and what is done behind it
  protect_array-same :
      (name : String) (keys : List String) (root root' : QJsonObject) (n : ℕ)
      (f : QJsonObject × ℕ → Result (QJsonObject × ℕ))
      → protect_each (without_text host) passphrase salt keys (to_array (value name root)) n
        ≡ protect_each (without_text host) passphrase salt keys (to_array (value name root')) n
      → ((v : QJsonValue) (k : ℕ) → f (insert name v root, k) ≡ f (insert name v root', k))
      → (protect_array (without_text host) passphrase salt name keys root n >>= f)
        ≡ (protect_array (without_text host) passphrase salt name keys root' n >>= f)
  unfolding protect_array
  protect_array-same name keys root root' n f each same =
      ap (λ r. (r >>= λ items. success (insert name (array (objects items.0)) root, items.1)) >>= f)
        each
      ∙ written
          (protect_each (without_text host) passphrase salt keys (to_array (value name root')) n)
    where
      written :
          (r : Result (List QJsonObject × ℕ))
          → ((r >>= λ items. success (insert name (array (objects items.0)) root, items.1)) >>= f)
            ≡ ((r >>= λ items. success (insert name (array (objects items.0)) root', items.1))
                >>= f)
      written (success items) = same _ _
      written (failure e) = refl

  protect_array-last :
      (name : String) (keys : List String) (root root' : QJsonObject) (n : ℕ)
      → protect_each (without_text host) passphrase salt keys (to_array (value name root)) n
        ≡ protect_each (without_text host) passphrase salt keys (to_array (value name root')) n
      → ((v : QJsonValue) → insert name v root ≡ insert name v root')
      → protect_array (without_text host) passphrase salt name keys root n
        ≡ protect_array (without_text host) passphrase salt name keys root' n
  unfolding protect_array
  protect_array-last name keys root root' n each same =
      ap (λ r. r >>= λ items. success (insert name (array (objects items.0)) root, items.1)) each
      ∙ >>=-cong _ _
          (protect_each (without_text host) passphrase salt keys (to_array (value name root')) n)
          (λ items. ap (λ o. success (o, items.1)) (same (array (objects items.0))))

  -- the three arrays of two roots
  pub protect_arrays-same :
      (root root' : QJsonObject) (n : ℕ)
      → ((k : ℕ)
          → protect_each
              (without_text host)
              passphrase
              salt
              device_keys
              (to_array (value "deviceKeys" root))
              k
            ≡ protect_each
                (without_text host)
                passphrase
                salt
                device_keys
                (to_array (value "deviceKeys" root'))
                k)
      → ((v : QJsonValue) (k : ℕ)
          → protect_each
              (without_text host)
              passphrase
              salt
              pre_key_keys
              (to_array (value "oneTimePreKeys" (insert "deviceKeys" v root)))
              k
            ≡ protect_each
                (without_text host)
                passphrase
                salt
                pre_key_keys
                (to_array (value "oneTimePreKeys" (insert "deviceKeys" v root')))
                k)
      → ((v w : QJsonValue) (k : ℕ)
          → protect_each
              (without_text host)
              passphrase
              salt
              trust_pin_keys
              (to_array
                (value "trustPins" (insert "oneTimePreKeys" w (insert "deviceKeys" v root))))
              k
            ≡ protect_each
                (without_text host)
                passphrase
                salt
                trust_pin_keys
                (to_array
                  (value "trustPins" (insert "oneTimePreKeys" w (insert "deviceKeys" v root'))))
                k)
      → ((v w u : QJsonValue)
          → insert "trustPins" u (insert "oneTimePreKeys" w (insert "deviceKeys" v root))
            ≡ insert "trustPins" u (insert "oneTimePreKeys" w (insert "deviceKeys" v root')))
      → protect_arrays (without_text host) passphrase salt root n
        ≡ protect_arrays (without_text host) passphrase salt root' n
  unfolding protect_arrays
  protect_arrays-same root root' n devices pre_keys pins same =
      protect_array-same "deviceKeys" device_keys root root' n _ (devices n) (λ v k.
        protect_array-same "oneTimePreKeys" pre_key_keys (insert "deviceKeys" v root)
          (insert "deviceKeys" v root') k _ (pre_keys v k)
          (λ w j. protect_array-last "trustPins" trust_pin_keys _ _ j (pins v w j) (same v w)))
