-- ===== src/Methods.antt =====
-- client/src/storage/JsonLocalStore.cpp: the public methods that change the store. Each changes
-- the tables in memory and then writes the file; where the writing fails, the change in memory
-- stays. `now` is the time that a method reads from the clock, as text.
pub mod Locked
pub mod Keys
pub mod Durable
use epic_kfc.Base.{ℕ, QString, Bool, true, false, [], Option, none, some, List, if◌then◌else◌}
use epic_kfc.Models.{
  AuthSession, DeviceKeyMaterial, OneTimePreKey, UserAddress, TrustPin, LocalMessage,
  MessageDirection, Result, success, failure,
}
use epic_kfc.Host.{Host}
use epic_kfc.Store.{Store, no_session}
use epic_kfc.Store.Tables.{
  put_session, drop_session, put_device_keys, put_one_time_pre_keys, is_incomplete, put_known_user,
  put_trust_pin,
}
use epic_kfc.Store.Messages.{
  put_message, find_message, mark_message_deleted_for, reconcile_visible_messages,
  mark_conversation_read,
}
use epic_kfc.Files.{Disk, save, load}

-- a store, the files, and how many random draws were made
pub record Machine : Type 0 where
  pub store : Store
  pub disk : Disk
  pub draws : ℕ

-- the members of a store as they are declared
abbrev new_store : QString → Bool → Store
new_store path required = record {
  index_path = path;
  path = path;
  secret_protection_required = required;
  secret_passphrase = [];
  secret_salt = [];
  session = no_session;
  has_session = false;
  device_keys = [];
  one_time_pre_keys = [];
  known_users = [];
  trust_pins = [];
  messages = [];
}

module _ (host : Host) where
  -- JsonLocalStore::JsonLocalStore, which loads the file and drops an error
  unfoldable pub open_store : QString → Bool → Disk → Store
  open_store path required disk = (load host (new_store path required) disk).0

  abbrev pub written : Store → Machine → Result (Disk × ℕ) → Machine × Result Bool
  written s m (success r) = (record { store = s; disk = r.0; draws = r.1 }, success true)
  written s m (failure e) = (record m { store = s }, failure e)

  -- the change in memory, then `return save();`
  unfoldable pub save_as : Store → Machine → Machine × Result Bool
  save_as s m = written s m (save host s m.disk m.draws)

  unfoldable pub save_session : AuthSession → Machine → Machine × Result Bool
  save_session session m = save_as (put_session session m.store) m

  unfoldable pub clear_session : Machine → Machine × Result Bool
  clear_session m = save_as (drop_session m.store) m

  unfoldable pub save_device_keys : DeviceKeyMaterial → Machine → Machine × Result Bool
  save_device_keys material m = save_as (put_device_keys material m.store) m

  unfoldable pub save_one_time_pre_keys : List OneTimePreKey → Machine → Machine × Result Bool
  save_one_time_pre_keys pre_keys m = save_as (put_one_time_pre_keys pre_keys m.store) m

  unfoldable pub save_known_user : UserAddress → Machine → Machine × Result Bool
  save_known_user address m =
      if is_incomplete address
      then (m, success true)
      else save_as (put_known_user address m.store) m

  unfoldable pub save_trust_pin : TrustPin → Machine → Machine × Result Bool
  save_trust_pin pin m = save_as (put_trust_pin pin m.store) m

  unfoldable pub save_message : LocalMessage → Machine → Machine × Result Bool
  save_message message m = save_as (put_message message m.store) m

  abbrev pub delete_found :
      QString → QString → QString → Option LocalMessage → Machine → Machine × Result Bool
  delete_found now user id none m = (m, success true)
  delete_found now user id (some found) m = save_as (mark_message_deleted_for now user id m.store) m

  -- markMessageDeletedFor
  unfoldable pub delete_message_for : QString → QString → QString → Machine → Machine × Result Bool
  delete_message_for now user id m = delete_found now user id (find_message id m.store) m

  -- reconcileVisibleMessages
  unfoldable pub reconcile :
      QString → QString → MessageDirection → List QString → Machine → Machine × Result Bool
  reconcile now user direction ids m =
      save_as (reconcile_visible_messages now user direction ids m.store) m

  -- markConversationRead
  unfoldable pub read_conversation : QString → QString → QString → Machine → Machine × Result Bool
  read_conversation now user peer m = save_as (mark_conversation_read now user peer m.store) m

  unfoldable pub reload : Machine → Machine × Result Bool
  reload m = let loaded = load host m.store m.disk in (record m { store = loaded.0 }, loaded.1)

-- a method with its arguments
pub data Method : Type 0 where
  save_session_method : AuthSession → Method
  clear_session_method : Method
  save_device_keys_method : DeviceKeyMaterial → Method
  save_one_time_pre_keys_method : List OneTimePreKey → Method
  save_known_user_method : UserAddress → Method
  save_trust_pin_method : TrustPin → Method
  save_message_method : LocalMessage → Method
  delete_message_for_method : QString → QString → QString → Method
  reconcile_method : QString → QString → MessageDirection → List QString → Method
  read_conversation_method : QString → QString → QString → Method

abbrev pub run_method : Host → Method → Machine → Machine × Result Bool
run_method host (save_session_method session) = save_session host session
run_method host clear_session_method = clear_session host
run_method host (save_device_keys_method material) = save_device_keys host material
run_method host (save_one_time_pre_keys_method pre_keys) = save_one_time_pre_keys host pre_keys
run_method host (save_known_user_method address) = save_known_user host address
run_method host (save_trust_pin_method pin) = save_trust_pin host pin
run_method host (save_message_method message) = save_message host message
run_method host (delete_message_for_method now user id) = delete_message_for host now user id
run_method host (reconcile_method now user direction ids) = reconcile host now user direction ids
run_method host (read_conversation_method now user peer) = read_conversation host now user peer

unfoldable pub run_methods : Host → List Method → Machine → Machine
run_methods host List.[] m = m
run_methods host (List.◌∷◌ x xs) m = run_methods host xs (run_method host x m).0
