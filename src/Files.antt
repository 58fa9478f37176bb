-- ===== src/Files.antt =====
-- client/src/storage/JsonLocalStore.cpp: the file of the store. A file is the JSON object that
-- its text holds: QJsonDocument prints and parses it. Directories and files open or not as the
-- host answers.
pub mod RoundTrip
pub mod Reload
pub mod Hidden
pub mod Accounts
use epic_kfc.Base.{
  ℕ, pos, QString, text, String, Bool, true, false, not, Option, none, some, List, [], ◌∷◌, ◌++◌,
  map, if◌then◌else◌, is_empty, text_eq, ◌||◌, nat_eq,
}
use epic_kfc.Models.{
  AuthSession, Result, success, failure, ◌>>=◌, could_not_read, could_not_write, could_not_create,
}
use epic_kfc.Platform.{Qt}
use epic_kfc.Host.{Host, QByteArray}
use epic_kfc.Json.{
  QJsonValue, QJsonObject, double, string, array, object, field, fields, objects, value, contains,
  insert, to_string, to_object, to_array,
}
use epic_kfc.Secrets.{storage_error, protect_secrets, unprotect_secrets}
use epic_kfc.Store.{Store, no_session}
use epic_kfc.Store.Encoding.{
  session_to_json, session_from_json, device_to_json, device_from_json, pre_key_to_json,
  pre_key_from_json, known_user_to_json, known_user_from_json, trust_pin_to_json,
  trust_pin_from_json, message_to_json, message_from_json,
}

abbrev pub Disk : Type 0
Disk = QString → Option QJsonObject

unfoldable pub write : QString → QJsonObject → Disk → Disk
write path root disk p = if text_eq p path then some root else disk p

abbrev array_of {ℓ} : {A : Type ℓ} → (A → QJsonObject) → List A → QJsonValue
array_of to_json xs = array (objects (map to_json xs))

-- the state that `load` starts from
unfoldable pub cleared : Store → Store
cleared s = record s {
  session = no_session;
  has_session = false;
  device_keys = [];
  one_time_pre_keys = [];
  known_users = [];
  trust_pins = [];
  messages = [];
}

module _ (host : Host) where
  abbrev tables : Store → QJsonObject
  tables s = fields (
      ("deviceKeys", array_of device_to_json s.device_keys)
      ∷ ("oneTimePreKeys", array_of pre_key_to_json s.one_time_pre_keys)
      ∷ ("knownUsers", array_of known_user_to_json s.known_users)
      ∷ ("trustPins", array_of (trust_pin_to_json host) s.trust_pins)
      ∷ ("messages", array_of (message_to_json host) s.messages)
      ∷ [])

  -- the root object that `save` builds before any secret is protected
  unfoldable pub plain_root : Store → QJsonObject
  plain_root s = field "version" (double (pos 1)) (
      if s.has_session
      then field "session" (object (session_to_json s.session)) (tables s)
      else tables s)

  abbrev pub write_root : Store → Disk → QJsonObject × ℕ → Result (Disk × ℕ)
  write_root s disk (root, draw) =
      if not (host.can_write s.path)
      then storage_error (could_not_write s.path)
      else success (write s.path root disk, draw)

  -- JsonLocalStore::save. A failure leaves the disk as it is.
  unfoldable pub save : Store → Disk → ℕ → Result (Disk × ℕ)
  save s disk draw =
      if not (host.directory_ready (host.directory s.path))
      then storage_error (could_not_create (host.directory s.path))
      else if s.secret_protection_required
      then (do
        protected ← protect_secrets host s.secret_passphrase s.secret_salt (plain_root s) draw
        write_root s disk protected)
      else write_root s disk (plain_root s, draw)

  abbrev read_each {ℓ} : {A : Type ℓ} → (QJsonObject → A) → String → QJsonObject → List A
  read_each from_json name root = map (λ v. from_json (to_object v)) (to_array (value name root))

  abbrev session_of : QJsonObject → AuthSession
  session_of root = session_from_json (to_object (value "session" root))

  -- the part of `load` behind the secrets, into a state that is cleared
  unfoldable pub fill : QJsonObject → Store → Store
  fill root s = record s {
    session = if contains "session" root then session_of root else s.session;
    has_session =
        if contains "session" root
        then not (is_empty (session_of root).tokens.access_token)
        else s.has_session;
    device_keys = read_each device_from_json "deviceKeys" root;
    one_time_pre_keys = read_each pre_key_from_json "oneTimePreKeys" root;
    known_users = read_each known_user_from_json "knownUsers" root;
    trust_pins = read_each (trust_pin_from_json host) "trustPins" root;
    messages = read_each (message_from_json host) "messages" root;
  }

  abbrev fill_unprotected : Store → Result QJsonObject → Store × Result Bool
  fill_unprotected s (success root) = (fill root s, success true)
  fill_unprotected s (failure e) = (s, failure e)

  abbrev pub load_root : QJsonObject → Store → Store × Result Bool
  load_root root s =
      let salt = host.base64_to_bytes (to_string (value "secretSalt" root)) in
      let salted = record s { secret_salt = salt } in
      if not (contains "secretSalt" root)
      then (fill root s, success true)
      else if is_empty s.secret_passphrase
      then (salted, success true)
      else fill_unprotected salted (unprotect_secrets host s.secret_passphrase salt root)

  abbrev pub load_file : Option QJsonObject → Store → Store × Result Bool
  load_file none s = (s, success true)
  load_file (some root) s =
      if not (host.can_read s.path)
      then (s, storage_error (could_not_read s.path))
      else load_root root s

  -- JsonLocalStore::load, and reload
  unfoldable pub load : Store → Disk → Store × Result Bool
  unfolding cleared
  load s disk = load_file (disk s.path) (cleared s)

  -- JsonLocalStore::rememberLastAccountId
  unfoldable pub remember_last_account_id : QString → Store → Disk → Result Disk
  remember_last_account_id account_id s disk =
      if not (host.directory_ready (host.directory s.index_path))
      then storage_error (could_not_create (host.directory s.index_path))
      else if not (host.can_write s.index_path)
      then storage_error (could_not_write s.index_path)
      else success (
          write s.index_path
            (fields (("version", double (pos 1)) ∷ ("lastAccountId", string account_id) ∷ [])) disk)

  abbrev account_of : QString → Option QString
  account_of account_id = if is_empty account_id then none else some account_id

  abbrev read_account : Option QJsonObject → Store → Result (Option QString)
  read_account none s = success none
  read_account (some root) s =
      if not (host.can_read s.index_path)
      then storage_error (could_not_read s.index_path)
      else success (account_of (to_string (value "lastAccountId" root)))

  -- JsonLocalStore::lastAccountId
  unfoldable pub last_account_id : Store → Disk → Result (Option QString)
  last_account_id s disk = read_account (disk s.index_path) s

module _ (qt : Qt) (host : Host) where
  abbrev pub safe_character : ℕ → ℕ
  safe_character c = if qt.is_letter_or_number c || nat_eq c b'-' || nat_eq c b'_' then c else b'_'

  -- safeStateName
  unfoldable pub safe_state_name : QString → QString
  safe_state_name s =
      let name = map safe_character s in if is_empty name then text "account" else name

  abbrev scoped_path : QString → Store → QString
  scoped_path account_id s =
      host.sibling s.index_path (safe_state_name account_id ++ text "-" ++ text "client-state.json")

  -- JsonLocalStore::useAccountScopedPath
  unfoldable pub use_account_scoped_path :
      QString → Bool → Store → Disk → Store × Disk × Result Bool
  use_account_scoped_path account_id remember_account s disk =
      if remember_account
      then elim (remember_last_account_id host account_id s disk) [
        | success disk' ↦ (record s { path = scoped_path account_id s }, disk', success true)
        | failure e ↦ (s, disk, failure e)
      ]
      else (record s { path = scoped_path account_id s }, disk, success true)
