-- ===== src/Services/Secrecy.antt =====
-- client/src/services/Services.cpp: what MessageService asks of the crypto provider, and the
-- drafts that it sends.
use epic_kfc.Base.{
  ℤ, QString, Option, none, some, List, [], if◌then◌else◌, is_empty, text_eq, int_eq, find_if,
}
use epic_kfc.Models.{
  ErrorCode, DeviceKeyMaterial, OneTimePreKey, LocalMessage, EncryptedPayload, BlockchainAnchor,
  sent, Result, success, failure, other,
}
use epic_kfc.Texts.{sent_message_local_copy_unavailable}
use epic_kfc.Store.Tables.{load_one_time_pre_keys}
use epic_kfc.Trust.{PreKeyBundle}
use epic_kfc.Services.{Env, World, store_of, current_user_id}

abbrev pub no_anchor : BlockchainAnchor
no_anchor = record {
  id = [];
  message_id = [];
  record_id = [];
  digest = [];
  merkle_root = [];
  transaction_hash = [];
  contract_address = [];
  chain = [];
  status = [];
  anchored_at = [];
}

-- selfPreKeyBundleFor
unfoldable pub self_pre_key_bundle_for : QString → DeviceKeyMaterial → PreKeyBundle
self_pre_key_bundle_for user device = record {
  user_id = user;
  registration_id = device.registration_id;
  device_id = device.device_id;
  identity_key = device.identity_key;
  identity_signing_key = device.identity_signing_key;
  signed_pre_key_id = device.signed_pre_key_id;
  signed_pre_key = device.signed_pre_key;
  signed_pre_key_signature = device.signed_pre_key_signature;
  one_time_pre_key_id = none;
  one_time_pre_key = [];
}

-- the copy of a sent message that its sender can decrypt
abbrev pub sender_copy : LocalMessage → LocalMessage
sender_copy message = record message {
  wire_payload_json = message.local_sender_copy_wire_payload_json;
  consumed_one_time_pre_key_id = none;
}

module _ (env : Env) where
  -- draftFor
  unfoldable pub draft_for : World → QString → ℤ → QString → LocalMessage
  draft_for w recipient device payload = record {
    id = [];
    sender_user_id = current_user_id w;
    sender_device_id = env.device_id;
    recipient_user_id = recipient;
    recipient_device_id = device;
    wire_payload_json = payload;
    consumed_one_time_pre_key_id = none;
    created_at = none;
    access_revoked_at = [];
    sender_deleted_at = [];
    recipient_deleted_at = [];
    deleted_at = [];
    read_at = [];
    local_sender_copy_wire_payload_json = [];
    direction = sent;
    created_at_raw = [];
    cached_anchor = no_anchor;
  }

  abbrev payload_of : Result EncryptedPayload → Result QString
  payload_of (failure e) = failure e
  payload_of (success p) = success p.wire_payload_json

  -- createLocalSenderCopy
  unfoldable pub create_local_sender_copy : World → DeviceKeyMaterial → QString → Result QString
  unfolding self_pre_key_bundle_for
  create_local_sender_copy w device plaintext = payload_of (
      env.crypto.encrypt (current_user_id w) device
        (self_pre_key_bundle_for (current_user_id w) device) plaintext)

  abbrev pub pre_key_with : Option ℤ → List OneTimePreKey → Option OneTimePreKey
  pre_key_with none keys = none
  pre_key_with (some id) keys = find_if (λ k. int_eq k.pre_key_id id) keys

  -- oneTimePreKeyFor
  unfoldable pub one_time_pre_key_for : World → LocalMessage → Option OneTimePreKey
  one_time_pre_key_for w message =
      pre_key_with message.consumed_one_time_pre_key_id
        (load_one_time_pre_keys env.device_id (store_of w))

  -- a message of the current user's own, from its local copy
  abbrev pub decrypt_copy : World → DeviceKeyMaterial → LocalMessage → Result QString
  decrypt_copy w device message =
      env.crypto.decrypt (current_user_id w) device (sender_copy message) none

  -- a message of someone else
  abbrev pub decrypt_received : World → DeviceKeyMaterial → LocalMessage → Result QString
  decrypt_received w device message =
      env.crypto.decrypt (current_user_id w) device message (one_time_pre_key_for w message)

  unfoldable pub decrypt_for_current_user :
      World → DeviceKeyMaterial → LocalMessage → Result QString
  unfolding one_time_pre_key_for
  decrypt_for_current_user w device message =
      let sent_by_current_user = text_eq message.sender_user_id (current_user_id w) in
      if sent_by_current_user
      then (if is_empty message.local_sender_copy_wire_payload_json
          then failure (record {
            code = ErrorCode.crypto_error;
            message = other sent_message_local_copy_unavailable;
          })
          else decrypt_copy w device message)
      else decrypt_received w device message
