-- ===== src/Examples/Values.antt =====
-- Messages, keys and a store to apply the theorems to.
use epic_kfc.Base.{pos, text, true, false, none, some, List, [], ◌∷◌}
use epic_kfc.Models.{
  LocalMessage, BlockchainAnchor, received, TrustPin, AuthSession, DeviceKeyMaterial,
}
use epic_kfc.Store.{Store}
use epic_kfc.Files.{Disk}

abbrev pub no_anchor : BlockchainAnchor
no_anchor = record {
  id = [];
  message_id = [];
  record_id = [];
  digest = [];
  merkle_root = [];
  transaction_hash = [];
  contract_address = [];
  chain = [];
  status = [];
  anchored_at = [];
}

-- from ada to bob
abbrev pub first_message : LocalMessage
first_message = record {
  id = text "m1";
  sender_user_id = text "ada";
  sender_device_id = pos 1;
  recipient_user_id = text "bob";
  recipient_device_id = pos 1;
  wire_payload_json = text "payload";
  consumed_one_time_pre_key_id = none;
  created_at = some 20;
  access_revoked_at = [];
  sender_deleted_at = [];
  recipient_deleted_at = [];
  deleted_at = [];
  read_at = [];
  local_sender_copy_wire_payload_json = [];
  direction = received;
  created_at_raw = [];
  cached_anchor = no_anchor;
}

abbrev pub earlier_message : LocalMessage
earlier_message = record first_message { id = text "m0"; created_at = some 10 }

-- the first message after bob has read it, and after it was revoked
abbrev pub read_message : LocalMessage
read_message = record first_message {
  read_at = text "noon";
  cached_anchor = record no_anchor { digest = text "abc" };
}

abbrev pub revoked_message : LocalMessage
revoked_message = record first_message { access_revoked_at = text "noon" }

abbrev pub ada_session : AuthSession
ada_session = record {
  user = record { id = text "ada"; username = text "Ada"; email = text "ada@kfc" };
  tokens = record {
    access_token = text "access";
    refresh_token = text "refresh";
    token_type = text "bearer";
    expires_in = pos 60;
  };
}

abbrev pub ada_keys : DeviceKeyMaterial
ada_keys = record {
  device_id = pos 1;
  registration_id = pos 7;
  identity_key = text "pub";
  identity_private_key = text "priv";
  identity_signing_key = text "spub";
  identity_signing_private_key = text "spriv";
  signed_pre_key_id = pos 3;
  signed_pre_key = text "spk";
  signed_pre_key_private = text "spkpriv";
  signed_pre_key_signature = text "sig";
}

abbrev pub bob_pin : TrustPin
bob_pin = record {
  user_id = text "bob";
  device_id = pos 1;
  identity_key = text "key";
  first_seen_at = some 5;
}

abbrev pub store_with : List LocalMessage → Store
store_with messages = record {
  index_path = text "index.json";
  path = text "state.json";
  secret_protection_required = false;
  secret_passphrase = [];
  secret_salt = [];
  session = ada_session;
  has_session = true;
  device_keys = ada_keys ∷ [];
  one_time_pre_keys = [];
  known_users = record { user_id = text "bob"; username = text "Bob"; device_id = pos 1 } ∷ [];
  trust_pins = bob_pin ∷ [];
  messages = messages;
}

abbrev pub two_messages : Store
two_messages = store_with (first_message ∷ earlier_message ∷ [])

abbrev pub locked_store : Store
locked_store = record two_messages {
  secret_protection_required = true;
  secret_passphrase = text "secret";
}

abbrev pub no_files : Disk
no_files path = none
