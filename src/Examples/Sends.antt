-- ===== src/Examples/Sends.antt =====
-- An environment of the services with a small crypto provider, and gateways that refuse all.
use epic_kfc.Base.{ℤ, pos, QString, text, true, false, none, some, [], ◌++◌, ◌≡◌, sym, ap}
use epic_kfc.Models.{
  UserAddress, EncryptedPayload, Result, success, failure, success-injective, ErrorCode, other,
}
use epic_kfc.Methods.{Machine}
use epic_kfc.Trust.{PreKeyBundle}
use epic_kfc.Services.{
  CryptoProvider, Env, Pending, Reply, register_reply, login_reply, logout_reply, upsert_reply,
  upload_reply, trust_address, trust_bundle, received_list, sent_list, conversations_received,
  conversations_sent, unread_received, send_address, forward_address, pinned_bundle, sent_reply,
  forwarded_reply, read_address, read_received, read_sent, revoke_reply, delete_reply, anchor_reply,
  verification_reply,
}
use epic_kfc.Services.Sealed.Sends.{Encrypts}
use epic_kfc.Examples.Platforms.{ascii, plain_host}
use epic_kfc.Examples.Values.{two_messages, no_files}

-- a provider whose payload is the key of the recipient and then the text
abbrev pub payload_for : PreKeyBundle → QString → EncryptedPayload
payload_for b plaintext = record {
  wire_payload_json = b.identity_key ++ plaintext;
  consumed_one_time_pre_key_id = none;
}

abbrev pub open_crypto : CryptoProvider
open_crypto = record {
  load_or_create_device = λ existing id. success existing;
  create_one_time_pre_keys = λ id n. success [];
  verify_signed_pre_key = λ b. success true;
  encrypt = λ user device b plaintext. success (payload_for b plaintext);
  decrypt = λ user device message key. success message.wire_payload_json;
}

abbrev pub env : Env
env = record {
  qt = ascii;
  host = plain_host;
  crypto = open_crypto;
  device_id = pos 1;
  account_scoped_state = false;
  now = some 9;
  current_path = λ name. name;
  message_text = λ e. [];
  contains_ignoring_case = λ s part. false;
  contains_text = λ s part. false;
}

abbrev pub machine : Machine
machine = record { store = two_messages; disk = no_files; draws = 0 }

abbrev pub key_text : QString → ℤ → QString
key_text user device = user

abbrev pub WrittenFor : PreKeyBundle → QString → Type 0
WrittenFor b payload = (plaintext : QString) × (payload ≡ b.identity_key ++ plaintext)

pub env-Encrypts : Encrypts WrittenFor env
env-Encrypts user device b plaintext payload h =
    (plaintext, ap (λ (p : EncryptedPayload). p.wire_payload_json) (sym (success-injective h)))

abbrev pub bob_address : UserAddress
bob_address = record { user_id = text "bob"; username = text "Bob"; device_id = pos 1 }

abbrev pub bob_bundle : PreKeyBundle
bob_bundle = record {
  user_id = text "bob";
  registration_id = pos 1;
  device_id = pos 1;
  identity_key = text "key";
  identity_signing_key = [];
  signed_pre_key_id = pos 1;
  signed_pre_key = [];
  signed_pre_key_signature = [];
  one_time_pre_key_id = none;
  one_time_pre_key = [];
}

-- gateways that refuse everything
abbrev pub refusal {ℓ} : {A : Type ℓ} → Result A
refusal = failure (record { code = ErrorCode.network_error; message = other [] })

abbrev pub refuse : (p : Pending) → Reply p
refuse register_reply = refusal
refuse (login_reply w) = refusal
refuse logout_reply = refusal
refuse upsert_reply = refusal
refuse upload_reply = refusal
refuse trust_address = refusal
refuse (trust_bundle a) = refusal
refuse received_list = refusal
refuse sent_list = refusal
refuse conversations_received = refusal
refuse conversations_sent = refusal
refuse unread_received = refusal
refuse (send_address t) = refusal
refuse (forward_address id) = refusal
refuse (pinned_bundle pin purpose) = refusal
refuse (sent_reply c) = refusal
refuse (forwarded_reply c) = refusal
refuse (read_address u page) = refusal
refuse (read_received a u page) = refusal
refuse (read_sent a u page) = refusal
refuse (revoke_reply id) = refusal
refuse (delete_reply id) = refusal
refuse (anchor_reply id) = refusal
refuse (verification_reply id) = refusal
