-- ===== src/Secrets.antt =====
-- client/src/storage/JsonLocalStore.cpp, as built with OpenSSL: the secret fields of the file.
-- The cipher is a parameter (Host.antt). Random bytes are drawn in order, and each function that
-- draws takes and returns the number of the next draw.
pub mod Fields
pub mod Arrays
pub mod Hidden
use epic_kfc.Base.{
  ℕ, pos, suc, ℤ, int_eq, not, QString, text, String, Bool, true, false, Option, none, some, List,
  [], ◌∷◌, if◌then◌else◌, is_empty, length, nat_eq,
}
use epic_kfc.Models.{
  Result, success, failure, ◌>>=◌, ClientError, ErrorCode, ErrorText, could_not_encrypt,
  could_not_decrypt, passphrase_required_for_save, passphrase_required_for_load, salt_not_created,
  salt_invalid,
}
use epic_kfc.Host.{Host, QByteArray}
use epic_kfc.Json.{
  QJsonValue, QJsonObject, undefined, null, bool, double, string, array, object, fields, objects,
  value, contains, insert, to_string, to_int, to_object, to_array,
}

abbrev pub storage_error {ℓ} : {A : Type ℓ} → ErrorText → Result A
storage_error message = failure (record { code = ErrorCode.storage_error; message = message })

-- The sizes and numbers at the top of the source.
abbrev pub secret_blob_version : ℤ
secret_blob_version = pos 1

abbrev pub secret_pbkdf2_iterations : ℤ
secret_pbkdf2_iterations = pos 210000

abbrev pub secret_salt_bytes : ℕ
secret_salt_bytes = 16

abbrev pub secret_iv_bytes : ℕ
secret_iv_bytes = 12

abbrev pub blob : QString → QString → QString → QJsonObject
blob iv tag ciphertext = fields (
    ("version", double secret_blob_version)
    ∷ ("kdf", string (text "PBKDF2-HMAC-SHA256"))
    ∷ ("iterations", double secret_pbkdf2_iterations)
    ∷ ("iv", string iv)
    ∷ ("authTag", string tag)
    ∷ ("ciphertext", string ciphertext)
    ∷ [])

abbrev pub session_keys : List String
session_keys = "accessToken" ∷ "refreshToken" ∷ []

abbrev pub device_keys : List String
device_keys = "identityPrivateKey" ∷ "identitySigningPrivateKey" ∷ "signedPreKeyPrivate" ∷ []

abbrev pub pre_key_keys : List String
pre_key_keys = "preKeyPrivate" ∷ []

abbrev pub trust_pin_keys : List String
trust_pin_keys = "identityKey" ∷ []

module _ (host : Host) (passphrase : QString) (salt : QByteArray) where
  -- encryptSecretString, from the text and the tag on
  abbrev sealed_blob : QByteArray → Option (QByteArray × QByteArray) → Option QJsonObject
  sealed_blob iv none = none
  sealed_blob iv (some (ciphertext, tag)) =
      some (
        blob (host.bytes_to_base64 iv) (host.bytes_to_base64 tag) (host.bytes_to_base64 ciphertext))

  abbrev encrypt_with : QString → String → QByteArray → Option QByteArray → Option QJsonObject
  encrypt_with plaintext field_name iv none = none
  encrypt_with plaintext field_name iv (some key) =
      if not (nat_eq (length iv) secret_iv_bytes)
      then none
      else sealed_blob iv
          (host.encrypt key iv (host.to_utf8 (text field_name)) (host.to_utf8 plaintext))

  unfoldable pub encrypt_secret_string : QString → String → ℕ → Option QJsonObject
  encrypt_secret_string plaintext field_name draw =
      encrypt_with plaintext field_name (host.random draw secret_iv_bytes)
        (host.derive_storage_key passphrase salt)

  abbrev decrypted : Option QByteArray → Option QString
  decrypted none = none
  decrypted (some plaintext) = some (host.from_utf8 plaintext)

  abbrev decrypt_with : QJsonObject → String → Option QByteArray → Option QString
  decrypt_with b field_name none = none
  decrypt_with b field_name (some key) = decrypted (
      host.decrypt key (host.base64_to_bytes (to_string (value "iv" b)))
        (host.to_utf8 (text field_name)) (host.base64_to_bytes (to_string (value "ciphertext" b)))
        (host.base64_to_bytes (to_string (value "authTag" b))))

  unfoldable pub decrypt_secret_string : QJsonObject → String → Option QString
  decrypt_secret_string b field_name =
      if not (int_eq (to_int (value "version" b)) secret_blob_version)
      then none
      else decrypt_with b field_name (host.derive_storage_key passphrase salt)

  abbrev store_blob : QJsonObject → String → ℕ → Option QJsonObject → Result (QJsonObject × ℕ)
  store_blob o key draw none = storage_error (could_not_encrypt (text key))
  store_blob o key draw (some encrypted) = success (insert key (object encrypted) o, draw)

  abbrev protect_value : QJsonObject → String → ℕ → QJsonValue → Result (QJsonObject × ℕ)
  protect_value o key draw undefined = success (o, draw)
  protect_value o key draw null = success (o, draw)
  protect_value o key draw (object b) = success (o, draw)
  protect_value o key draw v =
      store_blob o key (suc draw) (encrypt_secret_string (to_string v) key draw)

  -- protectString
  unfoldable pub protect_string : QJsonObject → String → ℕ → Result (QJsonObject × ℕ)
  protect_string o key draw = protect_value o key draw (value key o)

  abbrev store_text : QJsonObject → String → Option QString → Result QJsonObject
  store_text o key none = storage_error (could_not_decrypt (text key))
  store_text o key (some plaintext) = success (insert key (string plaintext) o)

  abbrev unprotect_value : QJsonObject → String → QJsonValue → Result QJsonObject
  unprotect_value o key (object b) = store_text o key (decrypt_secret_string b key)
  unprotect_value o key _ = success o

  -- unprotectString
  unfoldable pub unprotect_string : QJsonObject → String → Result QJsonObject
  unprotect_string o key = unprotect_value o key (value key o)

  -- protectStrings, unprotectStrings
  unfoldable pub protect_strings : List String → QJsonObject → ℕ → Result (QJsonObject × ℕ)
  protect_strings [] o draw = success (o, draw)
  protect_strings (key ∷ keys) o draw = do
    next ← protect_string o key draw
    protect_strings keys next.0 next.1

  unfoldable pub unprotect_strings : List String → QJsonObject → Result QJsonObject
  unprotect_strings [] o = success o
  unprotect_strings (key ∷ keys) o = do next ← unprotect_string o key; unprotect_strings keys next

  -- the loops over an array of objects
  unfoldable pub protect_each : List String → List QJsonValue → ℕ → Result (List QJsonObject × ℕ)
  protect_each keys [] draw = success ([], draw)
  protect_each keys (v ∷ vs) draw = do
    first ← protect_strings keys (to_object v) draw
    rest ← protect_each keys vs first.1
    success (first.0 ∷ rest.0, rest.1)

  unfoldable pub unprotect_each : List String → List QJsonValue → Result (List QJsonObject)
  unprotect_each keys [] = success []
  unprotect_each keys (v ∷ vs) = do
    first ← unprotect_strings keys (to_object v)
    rest ← unprotect_each keys vs
    success (first ∷ rest)

  -- one array of the root object
  unfoldable pub protect_array : String → List String → QJsonObject → ℕ → Result (QJsonObject × ℕ)
  protect_array name keys root draw = do
    items ← protect_each keys (to_array (value name root)) draw
    success (insert name (array (objects items.0)) root, items.1)

  unfoldable pub unprotect_array : String → List String → QJsonObject → Result QJsonObject
  unprotect_array name keys root = do
    items ← unprotect_each keys (to_array (value name root))
    success (insert name (array (objects items)) root)

  -- `if (root.contains("session")) ...` of both functions
  unfoldable pub protect_session : QJsonObject → ℕ → Result (QJsonObject × ℕ)
  protect_session root draw =
      if contains "session" root
      then (do
        session ← protect_strings session_keys (to_object (value "session" root)) draw
        success (insert "session" (object session.0) root, session.1))
      else success (root, draw)

  unfoldable pub unprotect_session : QJsonObject → Result QJsonObject
  unprotect_session root =
      if contains "session" root
      then (do
        session ← unprotect_strings session_keys (to_object (value "session" root))
        success (insert "session" (object session) root))
      else success root

  -- protectSecrets and unprotectSecrets behind the checks of the passphrase and the salt: the
  -- three arrays, and all of it
  unfoldable pub protect_arrays : QJsonObject → ℕ → Result (QJsonObject × ℕ)
  protect_arrays root draw = do
    r1 ← protect_array "deviceKeys" device_keys root draw
    r2 ← protect_array "oneTimePreKeys" pre_key_keys r1.0 r1.1
    protect_array "trustPins" trust_pin_keys r2.0 r2.1

  unfoldable pub unprotect_arrays : QJsonObject → Result QJsonObject
  unprotect_arrays root = do
    with_devices ← unprotect_array "deviceKeys" device_keys root
    with_pre_keys ← unprotect_array "oneTimePreKeys" pre_key_keys with_devices
    unprotect_array "trustPins" trust_pin_keys with_pre_keys

  unfoldable pub protect_parts : QJsonObject → ℕ → Result (QJsonObject × ℕ)
  protect_parts root draw = do r ← protect_session root draw; protect_arrays r.0 r.1

  unfoldable pub unprotect_parts : QJsonObject → Result QJsonObject
  unprotect_parts root = do with_session ← unprotect_session root; unprotect_arrays with_session

module _ (host : Host) where
  -- the salt of a file: the one that was read, or a fresh one
  abbrev pub salt_for : QByteArray → ℕ → QByteArray
  salt_for salt draw = if is_empty salt then host.random draw secret_salt_bytes else salt

  abbrev pub draw_after_salt : QByteArray → ℕ → ℕ
  draw_after_salt salt draw = if is_empty salt then suc draw else draw

  -- JsonLocalStore::protectSecrets
  unfoldable pub protect_secrets : QString → QByteArray → QJsonObject → ℕ → Result (QJsonObject × ℕ)
  protect_secrets passphrase secret_salt root draw =
      let salt = salt_for secret_salt draw in
      if is_empty passphrase
      then storage_error passphrase_required_for_save
      else if not (nat_eq (length salt) secret_salt_bytes)
      then storage_error salt_not_created
      else protect_parts host passphrase salt
          (insert "secretSalt" (string (host.bytes_to_base64 salt)) root)
          (draw_after_salt secret_salt draw)

  -- JsonLocalStore::unprotectSecrets
  unfoldable pub unprotect_secrets : QString → QByteArray → QJsonObject → Result QJsonObject
  unprotect_secrets passphrase secret_salt root =
      if is_empty passphrase
      then storage_error passphrase_required_for_load
      else if not (nat_eq (length secret_salt) secret_salt_bytes)
      then storage_error salt_invalid
      else unprotect_parts host passphrase secret_salt root
