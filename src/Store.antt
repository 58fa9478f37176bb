-- ===== src/Store.antt =====
-- client/src/storage/JsonLocalStore.h: the state of the local store.
pub mod Tables
pub mod Messages
pub mod Encoding
pub mod Reading
pub mod Conversations
pub mod Counting
pub mod Deletion
pub mod Reconcile
pub mod Tombstones
use epic_kfc.Base.{ℕ, ℤ, QString, text, Bool, false, List, [], pos}
use epic_kfc.Models.{
  AuthSession, DeviceKeyMaterial, OneTimePreKey, KnownUser, TrustPin, LocalMessage,
}

abbrev pub QByteArray : Type 0
QByteArray = List ℕ

pub record Store : Type 0 where
  pub index_path : QString
  pub path : QString
  pub secret_protection_required : Bool
  pub secret_passphrase : QString
  pub secret_salt : QByteArray
  pub session : AuthSession
  pub has_session : Bool
  pub device_keys : List DeviceKeyMaterial
  pub one_time_pre_keys : List OneTimePreKey
  pub known_users : List KnownUser
  pub trust_pins : List TrustPin
  pub messages : List LocalMessage

-- `m_session = {}`
abbrev pub no_session : AuthSession
no_session = record {
  user = record { id = []; username = []; email = [] };
  tokens = record { access_token = []; refresh_token = []; token_type = []; expires_in = pos 0 };
}
