-- ===== src/Store/Tables.antt =====
-- client/src/storage/JsonLocalStore.cpp: the tables of keys, users and trust pins in memory.
-- The methods write the file after these changes: see Methods.antt.
use epic_kfc.Base.{
  ℤ, QString, Bool, true, false, ◌||◌, Option, List, [], ◌∷◌, if◌then◌else◌, int_eq, is_empty, keep,
}
use epic_kfc.Models.{
  AuthSession, DeviceKeyMaterial, OneTimePreKey, KnownUser, TrustPin, UserAddress,
}
use epic_kfc.Keyed.{lookup, upsert, replace, address_eq, device_eq}
use epic_kfc.Store.{Store, no_session}

abbrev pub device_key : DeviceKeyMaterial → ℤ
device_key m = m.device_id

abbrev pub pre_key_key : OneTimePreKey → ℤ × ℤ
pre_key_key p = (p.device_id, p.pre_key_id)

abbrev pub user_key : KnownUser → QString × ℤ
user_key u = (u.user_id, u.device_id)

abbrev pub pin_key : TrustPin → QString × ℤ
pin_key p = (p.user_id, p.device_id)

-- setSecretProtectionRequired, setSecretPassphrase, clearSecretPassphrase
unfoldable pub set_secret_protection_required : Bool → Store → Store
set_secret_protection_required required s = record s { secret_protection_required = required }

unfoldable pub set_secret_passphrase : QString → Store → Store
set_secret_passphrase passphrase s = record s { secret_passphrase = passphrase }

unfoldable pub clear_secret_passphrase : Store → Store
clear_secret_passphrase s = record s { secret_passphrase = [] }

-- saveSession, loadSession, clearSession
unfoldable pub put_session : AuthSession → Store → Store
put_session session s = record s { session = session; has_session = true }

unfoldable pub load_session : Store → Option AuthSession
load_session s = if s.has_session then Option.some s.session else Option.none

unfoldable pub drop_session : Store → Store
drop_session s = record s { has_session = false; session = no_session }

-- saveDeviceKeys, loadDeviceKeys
unfoldable pub put_device_keys : DeviceKeyMaterial → Store → Store
put_device_keys material s = record s {
  device_keys = upsert device_key int_eq replace material s.device_keys;
}

unfoldable pub load_device_keys : ℤ → Store → Option DeviceKeyMaterial
load_device_keys device_id s = lookup device_key int_eq device_id s.device_keys

-- the loop of saveOneTimePreKeys, and loadOneTimePreKeys
unfoldable pub put_pre_keys : List OneTimePreKey → List OneTimePreKey → List OneTimePreKey
put_pre_keys [] table = table
put_pre_keys (p ∷ ps) table = put_pre_keys ps (upsert pre_key_key device_eq replace p table)

unfoldable pub put_one_time_pre_keys : List OneTimePreKey → Store → Store
unfolding put_pre_keys
put_one_time_pre_keys pre_keys s = record s {
  one_time_pre_keys = put_pre_keys pre_keys s.one_time_pre_keys;
}

unfoldable pub load_one_time_pre_keys : ℤ → Store → List OneTimePreKey
load_one_time_pre_keys device_id s = keep (λ p. int_eq p.device_id device_id) s.one_time_pre_keys

-- saveKnownUser behind its guard, and knownUser
abbrev pub is_incomplete : UserAddress → Bool
is_incomplete address = is_empty address.user_id || is_empty address.username

unfoldable pub put_known_user : UserAddress → Store → Store
put_known_user address s = record s {
  known_users =
      upsert user_key address_eq replace
        (record {
          user_id = address.user_id;
          username = address.username;
          device_id = address.device_id;
        })
        s.known_users;
}

unfoldable pub known_user : QString → ℤ → Store → Option KnownUser
known_user user_id device_id s = lookup user_key address_eq (user_id, device_id) s.known_users

-- saveTrustPin, trustPin
unfoldable pub put_trust_pin : TrustPin → Store → Store
put_trust_pin pin s = record s { trust_pins = upsert pin_key address_eq replace pin s.trust_pins }

unfoldable pub trust_pin : QString → ℤ → Store → Option TrustPin
trust_pin user_id device_id s = lookup pin_key address_eq (user_id, device_id) s.trust_pins
