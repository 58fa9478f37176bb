-- ===== src/Services.antt =====
-- client/src/services/Services.h: the state of the three services, the calls that they make of
-- the gateways, and what waits for the answers. A callback of the source is a constructor of
-- `Pending` with the values that it captured; its answer may come at any later time. What a
-- service does in one go is a `Step`: it changes the state, emits signals and makes calls.
pub mod Session
pub mod Keys
pub mod Lists
pub mod Secrecy
pub mod Sending
pub mod Reading
pub mod Pages
pub mod Anchors
pub mod Runs
pub mod Sync
pub mod Accounts
pub mod Formats
pub mod Sealed
pub mod Prompt
use epic_kfc.Base.{ℕ, ℤ, QString, Bool, Option, none, some, List, [], ◌∷◌, ◌++◌}
use epic_kfc.Models.{
  ClientError, ErrorCode, ErrorText, UserProfile, AuthSession, UserAddress, DeviceKeyMaterial,
  OneTimePreKey, TrustPin, QDateTime, LocalMessage, EncryptedPayload, BlockchainAnchor,
  BlockchainVerification, Result, success, failure, auth_required_text,
}
use epic_kfc.Platform.{Qt}
use epic_kfc.Host.{Host}
use epic_kfc.Store.{Store}
use epic_kfc.Methods.{Machine}
use epic_kfc.Trust.{PreKeyBundle, KeyService}
use epic_kfc.Events.{Event}

-- ICryptoProvider of client/src/gateways/Gateways.h
pub record CryptoProvider : Type 0 where
  pub load_or_create_device : DeviceKeyMaterial → ℤ → Result DeviceKeyMaterial
  pub create_one_time_pre_keys : ℤ → ℕ → Result (List OneTimePreKey)
  pub verify_signed_pre_key : PreKeyBundle → Result Bool
  pub encrypt : QString → DeviceKeyMaterial → PreKeyBundle → QString → Result EncryptedPayload
  pub decrypt : QString → DeviceKeyMaterial → LocalMessage → Option OneTimePreKey → Result QString

-- What a step is given: the parameters that the services are made with, the system, the crypto
-- provider and the clock. Two steps may be given different ones, so that a provider may draw
-- random numbers.
pub record Env : Type 0 where
  pub qt : Qt
  pub host : Host
  pub crypto : CryptoProvider
  pub device_id : ℤ
  pub account_scoped_state : Bool
  -- QDateTime::currentDateTimeUtc
  pub now : QDateTime
  -- QDir::current().filePath
  pub current_path : QString → QString
  -- the text of an error, and contains(part, Qt::CaseInsensitive), contains(part)
  pub message_text : ErrorText → QString
  pub contains_ignoring_case : QString → QString → Bool
  pub contains_text : QString → QString → Bool

-- The members of the services. They share the store; `downloads` is what was written to the
-- files of downloaded messages, by path.
pub record World : Type 0 where
  pub keys : KeyService
  pub session : Option AuthSession
  pub downloads : List (QString × QString)

-- a call of a gateway with its arguments
pub data Request : Type 0 where
  register_user : QString → QString → QString → Request
  login : QString → QString → Request
  logout : QString → Request
  upsert_device_keys : QString → DeviceKeyMaterial → Request
  upload_one_time_pre_keys : QString → ℤ → List OneTimePreKey → Request
  fetch_pre_key_bundle : QString → QString → ℤ → Request
  resolve_username : QString → QString → ℤ → Request
  send_message : QString → LocalMessage → Option ℤ → Request
  list_received : QString → Request
  list_sent : QString → Request
  forward_message : QString → QString → LocalMessage → Option ℤ → Request
  revoke_message : QString → QString → Request
  delete_message : QString → QString → Request
  fetch_message_anchor : QString → QString → Request
  verify_anchor : QString → BlockchainAnchor → Request

-- what a bundle that `trustedBundle` hands out is used for
pub data BundleUse : Type 0 where
  send_use : UserAddress → QString → DeviceKeyMaterial → BundleUse
  forward_use : QString → UserAddress → QString → DeviceKeyMaterial → BundleUse

pub data Pending : Type 0 where
  register_reply : Pending
  login_reply : QString → Pending
  logout_reply : Pending
  upsert_reply upload_reply : Pending
  trust_address : Pending
  trust_bundle : UserAddress → Pending
  received_list sent_list : Pending
  conversations_received conversations_sent : Pending
  unread_received : Pending
  send_address : QString → Pending
  forward_address : QString → Pending
  pinned_bundle : TrustPin → BundleUse → Pending
  sent_reply : QString → Pending
  forwarded_reply : QString → Pending
  read_address : QString → ℤ → Pending
  read_received : UserAddress → QString → ℤ → Pending
  read_sent : UserAddress → QString → ℤ → Pending
  revoke_reply delete_reply : QString → Pending
  anchor_reply verification_reply : QString → Pending

-- the answer that a callback takes
abbrev pub Reply : Pending → Type 0
Reply register_reply = Result UserProfile
Reply (login_reply password) = Result AuthSession
Reply trust_address = Result UserAddress
Reply (trust_bundle address) = Result PreKeyBundle
Reply received_list = Result (List LocalMessage)
Reply sent_list = Result (List LocalMessage)
Reply conversations_received = Result (List LocalMessage)
Reply conversations_sent = Result (List LocalMessage)
Reply unread_received = Result (List LocalMessage)
Reply (send_address plaintext) = Result UserAddress
Reply (forward_address id) = Result UserAddress
Reply (pinned_bundle pin purpose) = Result PreKeyBundle
Reply (sent_reply copy) = Result LocalMessage
Reply (forwarded_reply copy) = Result LocalMessage
Reply (read_address username page) = Result UserAddress
Reply (read_received address username page) = Result (List LocalMessage)
Reply (read_sent address username page) = Result (List LocalMessage)
Reply (revoke_reply id) = Result LocalMessage
Reply (anchor_reply id) = Result BlockchainAnchor
Reply (verification_reply id) = Result BlockchainVerification
Reply _ = Result Bool

pub data Output : Type 0 where
  event : Event → Output
  ask : Request → Pending → Output

abbrev pub Step : Type 0
Step = World → World × List Output

abbrev pub nothing : Step
nothing w = (w, [])

abbrev pub emit : Event → Step
emit e w = (w, event e ∷ [])

abbrev pub call : Request → Pending → Step
call r p w = (w, ask r p ∷ [])

abbrev pub fail_with : ClientError → Step
fail_with e = emit (Event.command_failed e)

abbrev pub crypto_failed : ClientError → Step
crypto_failed e = emit (Event.crypto_operation_failed e)

-- one step, and then another in the state that it leaves
abbrev pub following : World × List Output → Step → World × List Output
following (w, out) next = ((next w).0, out ++ (next w).1)

infixr 6 ◌then◌
unfoldable pub ◌then◌ : Step → Step → Step
(first then next) w = following (first w) next

abbrev pub set_machine : Machine → World → World
set_machine m w = record w { keys = record w.keys { machine = m } }

abbrev pub after_saving : Machine × Result Bool → Step → Step
after_saving (m, success ok) next w = next (set_machine m w)
after_saving (m, failure e) next w = fail_with e (set_machine m w)

-- a method of the store; an error is reported, and else the step goes on
unfoldable pub saving : (Machine → Machine × Result Bool) → Step → Step
saving method next w = after_saving (method w.keys.machine) next w

abbrev pub store_of : World → Store
store_of w = w.keys.machine.store

abbrev pub auth_required_error : ClientError
auth_required_error = record { code = ErrorCode.auth_required; message = auth_required_text }

-- SessionService::isLoggedIn, accessToken, currentUserId
abbrev pub user_id_of : Option AuthSession → QString
user_id_of none = []
user_id_of (some session) = session.user.id

abbrev pub token_of : Option AuthSession → QString
token_of none = []
token_of (some session) = session.tokens.access_token

abbrev pub current_user_id : World → QString
current_user_id w = user_id_of w.session

abbrev pub access_token : World → QString
access_token w = token_of w.session

abbrev pub requiring : Option AuthSession → Step → Step
requiring none next = fail_with auth_required_error
requiring (some session) next = next

-- the check of KeyService, and MessageService::requireSession: without a session an error is
-- reported and nothing else is done
unfoldable pub when_logged_in : Step → Step
when_logged_in next w = requiring w.session next w
