-- ===== src/Events.antt =====
-- client/src/app/EventBus.h: the signals of the event bus, each a constructor with what it
-- carries, the texts of operations and of states, and the calls of the services that
-- client/src/app/ClientController.cpp makes.
use epic_kfc.Base.{Bool, true, false, ℤ, QString, Option, List}
use epic_kfc.Models.{
  SlashCommand, ClientError, UserProfile, TrustPin, ConversationSummary, LocalMessage, AuthSession,
}

pub record ConversationLogEntry : Type 0 where
  pub message : LocalMessage
  pub plaintext : QString
  pub decrypt_error : Option ClientError

pub data OperationText : Type 0 where
  operation_in_progress registering_user logging_in logging_out : OperationText
  loading_conversations loading_unread_inbox syncing_messages loading_sent_messages : OperationText
  loading_conversation forwarding_message revoking_message deleting_message : OperationText
  exporting_message checking_trust verifying_message sending_message : OperationText
  other_operation : QString → OperationText

pub data StatusText : Type 0 where
  help_text not_logged_in no_composition returned_to_main_menu : StatusText
  enter_registration_password enter_login_password : StatusText
  logged_in_as : QString → QString → StatusText
  real_status : QString → ℤ → StatusText
  mock_status : ℤ → StatusText
  other_status : QString → StatusText

pub data Event : Type 0 where
  slash_command_received : SlashCommand → Event
  conversation_target_changed : QString → Event
  operation_started : OperationText → Event
  status_message : StatusText → Event
  command_failed : ClientError → Event
  session_started : UserProfile → Event
  session_ended : Event
  device_keys_ready : ℤ → Event
  trust_pin_created : TrustPin → Event
  trust_pin_matched : QString → ℤ → Event
  trust_pin_mismatch : QString → ℤ → Event
  conversation_list_updated : List ConversationSummary → Event
  unread_inbox_updated : List ConversationSummary → Event
  conversation_log_opened : QString → QString → List ConversationLogEntry → ℤ → ℤ → Event
  message_list_updated : List LocalMessage → Event
  message_received : LocalMessage → Event
  message_prepared : QString → ℤ → QString → Event
  message_composition_cancelled : Event
  message_sent : LocalMessage → Event
  message_opened : LocalMessage → QString → Event
  message_forwarded : LocalMessage → Event
  message_revoked : QString → Event
  message_deleted : QString → Event
  message_downloaded : QString → QString → Event
  fidelity_status_updated : QString → QString → Event
  backend_unavailable : ClientError → Event
  crypto_operation_failed : ClientError → Event
  exit_requested : Event

pub data ServiceCall : Type 0 where
  register_user : QString → QString → QString → ServiceCall
  login : QString → QString → ServiceCall
  logout list_conversations list_unread_senders list_received list_sent : ServiceCall
  read_conversation : QString → ℤ → ServiceCall
  forward : QString → QString → ServiceCall
  revoke delete_message download verify trust_username : QString → ServiceCall
  send : QString → QString → ServiceCall
  ensure_device_keys_uploaded : ServiceCall

-- the calls that start an operation of the router
abbrev pub starts_operation : ServiceCall → Bool
starts_operation ServiceCall.ensure_device_keys_uploaded = false
starts_operation _ = true

-- the signals that KeyService::ensureDeviceKeysUploaded emits
pub data KeyEvent : Type 0 where
  keys_ready : ℤ → KeyEvent
  keys_failed keys_not_created : ClientError → KeyEvent

abbrev pub key_event : KeyEvent → Event
key_event (keys_ready device_id) = device_keys_ready device_id
key_event (keys_failed e) = command_failed e
key_event (keys_not_created e) = crypto_operation_failed e

-- The services as the controller sees them: each call changes their state, and emits signals
-- before it returns. Those of an answer that arrives later are delivered on their own.
pub record Services {ℓ} (S : Type ℓ) : Type ℓ where
  pub call : ServiceCall → S → S × List Event
  pub ensure_keys : S → S × List KeyEvent
  pub current_session : S → Option AuthSession
