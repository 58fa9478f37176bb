-- ===== src/Files/Hidden.antt =====
-- What is on the disk in real mode does not depend on the secrets, but for what the cipher makes
-- of them.
use epic_kfc.Base.{
  ℕ, pos, Bool, true, false, List, [], map, ◌≡◌, refl, ap, ◌∙◌, not, nat_eq, length, is_empty,
  if◌then◌else◌,
}
use epic_kfc.Models.{
  AuthSession, DeviceKeyMaterial, OneTimePreKey, TrustPin, Result, success, failure, ◌>>=◌,
  passphrase_required_for_save, salt_not_created, could_not_create,
}
use epic_kfc.Host.{Host, QByteArray}
use epic_kfc.Json.{
  QJsonValue, QJsonObject, field, object, double, value, insert, contains, to_array,
}
use epic_kfc.Store.{Store}
use epic_kfc.Store.Encoding.{session_to_json, device_to_json, pre_key_to_json, trust_pin_to_json}
use epic_kfc.Secrets.{
  protect_strings, protect_each, protect_session, protect_arrays, protect_parts, protect_secrets,
  session_keys, device_keys, pre_key_keys, trust_pin_keys, salt_for, storage_error,
  secret_salt_bytes,
}
use epic_kfc.Secrets.Hidden.{
  without_text, protect_strings-same, protect_each-same, protect_arrays-same,
}
use epic_kfc.Files.{Disk, tables, array_of, plain_root, write_root, save}

-- the secrets: both tokens, the three private keys of a device, the private key of a one-time
-- pre-key, and the key of a pin
abbrev pub session_without : AuthSession → AuthSession
session_without session = record session {
  tokens = record session.tokens { access_token = []; refresh_token = [] };
}

abbrev pub device_without : DeviceKeyMaterial → DeviceKeyMaterial
device_without device = record device {
  identity_private_key = [];
  identity_signing_private_key = [];
  signed_pre_key_private = [];
}

abbrev pub pre_key_without : OneTimePreKey → OneTimePreKey
pre_key_without key = record key { private_key = [] }

abbrev pub pin_without : TrustPin → TrustPin
pin_without pin = record pin { identity_key = [] }

abbrev pub without_secrets : Store → Store
without_secrets s = record s {
  session = session_without s.session;
  device_keys = map device_without s.device_keys;
  one_time_pre_keys = map pre_key_without s.one_time_pre_keys;
  trust_pins = map pin_without s.trust_pins;
}

module _ (host : Host) (passphrase : List ℕ) (salt : QByteArray) where
  session-same :
      (session : AuthSession) (n : ℕ)
      → protect_strings (without_text host) passphrase salt session_keys (session_to_json session) n
        ≡ protect_strings
            (without_text host)
            passphrase
            salt
            session_keys
            (session_to_json (session_without session))
            n
  unfolding value insert
  session-same session n =
      protect_strings-same host passphrase salt _ _ _ _ n _ _ refl refl
        (λ b. protect_strings-same host passphrase salt _ _ _ _ _ _ _ refl refl (λ c. refl))

  device-same :
      (device : DeviceKeyMaterial) (n : ℕ)
      → protect_strings (without_text host) passphrase salt device_keys (device_to_json device) n
        ≡ protect_strings
            (without_text host)
            passphrase
            salt
            device_keys
            (device_to_json (device_without device))
            n
  unfolding value insert
  device-same device n = protect_strings-same host passphrase salt _ _ _ _ n _ _ refl refl (λ b.
      protect_strings-same host passphrase salt _ _ _ _ _ _ _ refl refl
        (λ c. protect_strings-same host passphrase salt _ _ _ _ _ _ _ refl refl (λ d. refl)))

  pre_key-same :
      (key : OneTimePreKey) (n : ℕ)
      → protect_strings (without_text host) passphrase salt pre_key_keys (pre_key_to_json key) n
        ≡ protect_strings
            (without_text host)
            passphrase
            salt
            pre_key_keys
            (pre_key_to_json (pre_key_without key))
            n
  unfolding value insert
  pre_key-same key n = protect_strings-same host passphrase salt _ _ _ _ n _ _ refl refl (λ b. refl)

  pin-same :
      (pin : TrustPin) (n : ℕ)
      → protect_strings
          (without_text host)
          passphrase
          salt
          trust_pin_keys
          (trust_pin_to_json host pin)
          n
        ≡ protect_strings
            (without_text host)
            passphrase
            salt
            trust_pin_keys
            (trust_pin_to_json host (pin_without pin))
            n
  unfolding value insert
  pin-same pin n = protect_strings-same host passphrase salt _ _ _ _ n _ _ refl refl (λ b. refl)

  -- the objects of the three arrays
  devices-same :
      (devices : List DeviceKeyMaterial) (n : ℕ)
      → protect_each
          (without_text host)
          passphrase
          salt
          device_keys
          (to_array (array_of device_to_json devices))
          n
        ≡ protect_each
            (without_text host)
            passphrase
            salt
            device_keys
            (to_array (array_of device_to_json (map device_without devices)))
            n
  devices-same =
      protect_each-same host passphrase salt device_keys device_to_json device_without device-same

  pre_keys-same :
      (keys : List OneTimePreKey) (n : ℕ)
      → protect_each
          (without_text host)
          passphrase
          salt
          pre_key_keys
          (to_array (array_of pre_key_to_json keys))
          n
        ≡ protect_each
            (without_text host)
            passphrase
            salt
            pre_key_keys
            (to_array (array_of pre_key_to_json (map pre_key_without keys)))
            n
  pre_keys-same =
      protect_each-same host passphrase salt pre_key_keys pre_key_to_json pre_key_without
        pre_key-same

  pins-same :
      (pins : List TrustPin) (n : ℕ)
      → protect_each
          (without_text host)
          passphrase
          salt
          trust_pin_keys
          (to_array (array_of (trust_pin_to_json host) pins))
          n
        ≡ protect_each
            (without_text host)
            passphrase
            salt
            trust_pin_keys
            (to_array (array_of (trust_pin_to_json host) (map pin_without pins)))
            n
  pins-same =
      protect_each-same host passphrase salt trust_pin_keys (trust_pin_to_json host) pin_without
        pin-same

  -- the root of a store, behind the salt
  parts-same :
      (s : Store) (v : QJsonValue) (n : ℕ)
      → protect_parts
          (without_text host)
          passphrase
          salt
          (insert "secretSalt" v (plain_root (without_text host) s))
          n
        ≡ protect_parts
            (without_text host)
            passphrase
            salt
            (insert "secretSalt" v (plain_root (without_text host) (without_secrets s)))
            n
  unfolding protect_parts protect_session plain_root insert contains value
  parts-same s v n = by_session s.has_session
    where
      root : Bool → Store → QJsonObject
      root b t = insert "secretSalt" v (
          field "version" (double (pos 1)) (
            if b
            then field "session" (object (session_to_json t.session)) (tables (without_text host) t)
            else tables (without_text host) t))

      arrays : QJsonObject × ℕ → Result (QJsonObject × ℕ)
      arrays r = protect_arrays (without_text host) passphrase salt r.0 r.1

      put : Store → QJsonObject × ℕ → Result (QJsonObject × ℕ)
      put t session = success (insert "session" (object session.0) (root true t), session.1)

      by_session :
          (b : Bool)
          → protect_parts (without_text host) passphrase salt (root b s) n
            ≡ protect_parts (without_text host) passphrase salt (root b (without_secrets s)) n
      by_session false =
          protect_arrays-same host passphrase salt _ _ n (devices-same s.device_keys)
            (λ u. pre_keys-same s.one_time_pre_keys) (λ u w. pins-same s.trust_pins) (λ u w x. refl)
      by_session true =
          ap (λ r. (r >>= put s) >>= arrays) (session-same s.session n)
          ∙ written (
              protect_strings (without_text host) passphrase salt session_keys
                (session_to_json (session_without s.session)) n)
        where
          written :
              (r : Result (QJsonObject × ℕ))
              → ((r >>= put s) >>= arrays) ≡ ((r >>= put (without_secrets s)) >>= arrays)
          written (failure e) = refl
          written (success session) =
              protect_arrays-same host passphrase salt _ _ _ (devices-same s.device_keys)
                (λ u. pre_keys-same s.one_time_pre_keys) (λ u w. pins-same s.trust_pins)
                (λ u w x. refl)

module _ (host : Host) where
  protect_secrets-same :
      (s : Store) (n : ℕ)
      → protect_secrets
          (without_text host)
          s.secret_passphrase
          s.secret_salt
          (plain_root (without_text host) s)
          n
        ≡ protect_secrets
            (without_text host)
            s.secret_passphrase
            s.secret_salt
            (plain_root (without_text host) (without_secrets s))
            n
  unfolding protect_secrets
  protect_secrets-same s n =
      let salt = salt_for (without_text host) s.secret_salt n in
      ap
        (λ r.
          if is_empty s.secret_passphrase
          then storage_error passphrase_required_for_save
          else if not (nat_eq (length salt) secret_salt_bytes)
          then storage_error salt_not_created
          else r)
        (parts-same host s.secret_passphrase salt s _ _)

  -- Where secrets must be protected, a save does the same, with the same file and the same errors,
  -- whatever the tokens of the session, the private keys of every device and of every one-time
  -- pre-key, and the keys of the trust pins are, as soon as the cipher is not given the text: they
  -- reach the disk only as what the cipher makes of them.
  pub save-without_secrets :
      (s : Store) (disk : Disk) (n : ℕ)
      → s.secret_protection_required ≡ true
      → save (without_text host) s disk n ≡ save (without_text host) (without_secrets s) disk n
  unfolding save plain_root
  save-without_secrets s disk n required = rw required (
      ap
        (λ r.
          if not (host.directory_ready (host.directory s.path))
          then storage_error (could_not_create (host.directory s.path))
          else (r >>= λ protected. write_root (without_text host) s disk protected))
        (protect_secrets-same s n))
