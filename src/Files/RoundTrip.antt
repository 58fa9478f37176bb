-- ===== src/Files/RoundTrip.antt =====
-- What `save` writes is what `load` reads.
use epic_kfc.Base.{
  ℕ, QString, String, Bool, true, false, not, ◌&&◌, List, [], ◌∷◌, map, ◌≡◌, ◌≢◌, refl, arith, All,
  if◌then◌else◌, is_empty, pos,
}
use text.Mathlib.Text.{◌==◌}
use text.Mathlib.TextEquality.{eq_iff}
use epic_kfc.Models.{AuthSession, DeviceKeyMaterial, OneTimePreKey, TrustPin, success}
use epic_kfc.Host.{Host, HostLaws, QByteArray}
use epic_kfc.Json.{
  QJsonValue, QJsonObject, object, array, objects, field, end, double, value, contains, insert,
  to_object, to_array,
}
use epic_kfc.Secrets.{
  protect_parts, unprotect_parts, session_keys, device_keys, pre_key_keys, trust_pin_keys,
}
use epic_kfc.Secrets.Fields.{HasTexts}
use epic_kfc.Secrets.Arrays.{unprotect-protect_bare, unprotect-protect_session}
use epic_kfc.Store.{Store, no_session}
use epic_kfc.Store.Encoding.{
  session_to_json, device_to_json, device_from_json, pre_key_to_json, pre_key_from_json,
  known_user_to_json, known_user_from_json, trust_pin_to_json, trust_pin_from_json, message_to_json,
  message_from_json,
}
use epic_kfc.Store.Encoding.RoundTrip.{
  stored_session, session_round_trip, device_round_trip, pre_key_round_trip, known_user_round_trip,
  trust_pin_round_trip, message_round_trip,
}
use epic_kfc.Files.{plain_root, cleared, fill}

read_map {ℓ} :
    {A : Type ℓ} (to_json : A → QJsonObject) (from_json : QJsonObject → A)
    → ((a : A) → from_json (to_json a) ≡ a)
    → (xs : List A)
    → map (λ v. from_json (to_object v)) (to_array (array (objects (map to_json xs)))) ≡ xs
read_map to_json from_json h [] = refl
read_map to_json from_json h (x ∷ xs) = rw (h x, read_map to_json from_json h xs)

All-map {ℓ κ} :
    {A : Type ℓ} {B : Type κ} (P : B → Type 0) (f : A → B)
    → ((a : A) → P (f a))
    → (xs : List A) → All P (map f xs)
All-map P f h [] = tt
All-map P f h (x ∷ xs) = (h x, All-map P f h xs)

ne_of_test : (a b : String) → (a == b) ≡ false → a ≢ b
ne_of_test a b h e = ground (arith, eq_iff a b)

pub session-HasTexts : (s : AuthSession) → HasTexts session_keys (session_to_json s)
unfolding value contains
session-HasTexts s =
    (refl, (_, refl), (ne_of_test "accessToken" "refreshToken" refl, tt), (refl, (_, refl), tt, tt))

device-HasTexts : (m : DeviceKeyMaterial) → HasTexts device_keys (device_to_json m)
unfolding value contains
device-HasTexts m = (
  refl,
  (_, refl),
  (
    ne_of_test "identityPrivateKey" "identitySigningPrivateKey" refl,
    (ne_of_test "identityPrivateKey" "signedPreKeyPrivate" refl, tt),
  ),
  (
    refl,
    (_, refl),
    (ne_of_test "identitySigningPrivateKey" "signedPreKeyPrivate" refl, tt),
    (refl, (_, refl), tt, tt),
  ),
)

pre_key-HasTexts : (p : OneTimePreKey) → HasTexts pre_key_keys (pre_key_to_json p)
unfolding value contains
pre_key-HasTexts p = (refl, (_, refl), tt, tt)

trust_pin-HasTexts :
    (host : Host) (p : TrustPin) → HasTexts trust_pin_keys (trust_pin_to_json host p)
unfolding value contains
trust_pin-HasTexts host p = (refl, (_, refl), tt, tt)

-- `t` with the tables and the session of `s`
abbrev pub with_contents : Bool → Store → Store → Store
with_contents on s t = record t {
  session = if on then stored_session s.session else no_session;
  has_session = on && not (is_empty s.session.tokens.access_token);
  device_keys = s.device_keys;
  one_time_pre_keys = s.one_time_pre_keys;
  known_users = s.known_users;
  trust_pins = s.trust_pins;
  messages = s.messages;
}

module _ (host : Host) where
  abbrev pub devices_of : Store → List QJsonObject
  devices_of s = map device_to_json s.device_keys

  abbrev pub pre_keys_of : Store → List QJsonObject
  pre_keys_of s = map pre_key_to_json s.one_time_pre_keys

  abbrev pub pins_of : Store → List QJsonObject
  pins_of s = map (trust_pin_to_json host) s.trust_pins

  abbrev pub users_of : Store → QJsonValue
  users_of s = array (objects (map known_user_to_json s.known_users))

  abbrev pub messages_of : Store → QJsonValue
  messages_of s = array (objects (map (message_to_json host) s.messages))

  abbrev pub tables_of : Store → QJsonObject → QJsonObject
  tables_of s tail = field "deviceKeys" (array (objects (devices_of s))) (
      field "oneTimePreKeys" (array (objects (pre_keys_of s))) (
        field "knownUsers" (users_of s) (
          field "trustPins" (array (objects (pins_of s))) (field "messages" (messages_of s) tail))))

  -- the root object that is written, by whether there is a session, and with what follows
  abbrev pub root_of : Bool → Store → QJsonObject → QJsonObject
  root_of on s tail = field "version" (double (pos 1)) (
      if on
      then field "session" (object (session_to_json s.session)) (tables_of s tail)
      else tables_of s tail)

  pub plain_root-root_of : (s : Store) → plain_root host s ≡ root_of s.has_session s end
  unfolding plain_root
  plain_root-root_of s = refl

  pub salted_root :
      (on : Bool) (s : Store) (v : QJsonValue)
      → insert "secretSalt" v (root_of on s end) ≡ root_of on s (field "secretSalt" v end)
  unfolding insert
  salted_root true s v = refl
  salted_root false s v = refl

module _ {host : Host} (laws : HostLaws host) where
  pub fill_root :
      (on : Bool) (s t : Store) (tail : QJsonObject)
      → contains "session" tail ≡ false
      → fill host (root_of host on s tail) (cleared t) ≡ with_contents on s t
  unfolding fill cleared value contains
  fill_root true s t tail h = rw (
    session_round_trip s.session,
    read_map device_to_json device_from_json device_round_trip s.device_keys,
    read_map pre_key_to_json pre_key_from_json pre_key_round_trip s.one_time_pre_keys,
    read_map known_user_to_json known_user_from_json known_user_round_trip s.known_users,
    read_map (trust_pin_to_json host) (trust_pin_from_json host) (trust_pin_round_trip laws)
        s.trust_pins,
    read_map (message_to_json host) (message_from_json host) (message_round_trip laws) s.messages,
  )
  fill_root false s t tail h = rw (
    h,
    read_map device_to_json device_from_json device_round_trip s.device_keys,
    read_map pre_key_to_json pre_key_from_json pre_key_round_trip s.one_time_pre_keys,
    read_map known_user_to_json known_user_from_json known_user_round_trip s.known_users,
    read_map (trust_pin_to_json host) (trust_pin_from_json host) (trust_pin_round_trip laws)
        s.trust_pins,
    read_map (message_to_json host) (message_from_json host) (message_round_trip laws) s.messages,
  )

  -- the secrets of the root that is written can be opened again
  pub readable_root :
      (passphrase : QString) (salt : QByteArray) (on : Bool) (s : Store) (v : QJsonValue) (n : ℕ)
      (r : QJsonObject × ℕ)
      → protect_parts host passphrase salt (root_of host on s (field "secretSalt" v end)) n
        ≡ success r
      → (contains "secretSalt" r.0 ≡ true)
        × (value "secretSalt" r.0 ≡ v)
        × (unprotect_parts host passphrase salt r.0
            ≡ success (root_of host on s (field "secretSalt" v end)))
  readable_root passphrase salt on s v n r e = go on e
    where
      devices_ok : All (HasTexts device_keys) (devices_of host s)
      devices_ok = All-map (HasTexts device_keys) device_to_json device-HasTexts s.device_keys

      pre_keys_ok : All (HasTexts pre_key_keys) (pre_keys_of host s)
      pre_keys_ok =
          All-map (HasTexts pre_key_keys) pre_key_to_json pre_key-HasTexts s.one_time_pre_keys

      pins_ok : All (HasTexts trust_pin_keys) (pins_of host s)
      pins_ok =
          All-map (HasTexts trust_pin_keys) (trust_pin_to_json host) (trust_pin-HasTexts host)
            s.trust_pins

      go :
          (b : Bool)
          → protect_parts host passphrase salt (root_of host b s (field "secretSalt" v end)) n
            ≡ success r
          → (contains "secretSalt" r.0 ≡ true)
            × (value "secretSalt" r.0 ≡ v)
            × (unprotect_parts host passphrase salt r.0
                ≡ success (root_of host b s (field "secretSalt" v end)))
      go true h =
          unprotect-protect_session laws passphrase salt (devices_of host s) (pre_keys_of host s)
            (pins_of host s) devices_ok pre_keys_ok pins_ok (double (pos 1)) (users_of host s)
            (messages_of host s) v (session_to_json s.session) n r (session-HasTexts s.session) h
      go false h =
          unprotect-protect_bare laws passphrase salt (devices_of host s) (pre_keys_of host s)
            (pins_of host s) devices_ok pre_keys_ok pins_ok (double (pos 1)) (users_of host s)
            (messages_of host s) v n r h
