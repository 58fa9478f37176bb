-- ===== src/Store/Encoding.antt =====
-- client/src/storage/JsonLocalStore.cpp: the entries of the store as JSON objects, and back.
pub mod RoundTrip
use epic_kfc.Base.{
  ℤ, pos, QString, text, Bool, true, false, Option, none, some, List, [], ◌∷◌, if◌then◌else◌,
  text_eq,
}
use epic_kfc.Models.{
  UserProfile, AuthSession, DeviceKeyMaterial, OneTimePreKey, KnownUser, TrustPin, LocalMessage,
  BlockchainAnchor, MessageDirection, sent, received, default_device_id,
}
use epic_kfc.Host.{Host}
use epic_kfc.Json.{
  QJsonValue, QJsonObject, null, bool, double, string, object, fields, value, to_string, to_int,
  to_int_or, to_bool, to_object,
}

abbrev pub user_to_json : UserProfile → QJsonObject
user_to_json user = fields (
    ("id", string user.id) ∷ ("username", string user.username) ∷ ("email", string user.email) ∷ [])

unfoldable pub user_from_json : QJsonObject → UserProfile
user_from_json o = record {
  id = to_string (value "id" o);
  username = to_string (value "username" o);
  email = to_string (value "email" o);
}

abbrev pub session_to_json : AuthSession → QJsonObject
session_to_json session = fields (
    ("currentUser", object (user_to_json session.user))
    ∷ ("accessToken", string session.tokens.access_token)
    ∷ ("refreshToken", string session.tokens.refresh_token)
    ∷ [])

unfoldable pub session_from_json : QJsonObject → AuthSession
unfolding user_from_json
session_from_json o = record {
  user = user_from_json (to_object (value "currentUser" o));
  tokens = record {
    access_token = to_string (value "accessToken" o);
    refresh_token = to_string (value "refreshToken" o);
    token_type = text "bearer";
    expires_in = pos 0;
  };
}

abbrev pub device_to_json : DeviceKeyMaterial → QJsonObject
device_to_json m = fields (
    ("deviceId", double m.device_id)
    ∷ ("registrationId", double m.registration_id)
    ∷ ("identityKey", string m.identity_key)
    ∷ ("identityPrivateKey", string m.identity_private_key)
    ∷ ("identitySigningKey", string m.identity_signing_key)
    ∷ ("identitySigningPrivateKey", string m.identity_signing_private_key)
    ∷ ("signedPreKeyId", double m.signed_pre_key_id)
    ∷ ("signedPreKey", string m.signed_pre_key)
    ∷ ("signedPreKeyPrivate", string m.signed_pre_key_private)
    ∷ ("signedPreKeySignature", string m.signed_pre_key_signature)
    ∷ [])

unfoldable pub device_from_json : QJsonObject → DeviceKeyMaterial
device_from_json o = record {
  device_id = to_int (value "deviceId" o);
  registration_id = to_int (value "registrationId" o);
  identity_key = to_string (value "identityKey" o);
  identity_private_key = to_string (value "identityPrivateKey" o);
  identity_signing_key = to_string (value "identitySigningKey" o);
  identity_signing_private_key = to_string (value "identitySigningPrivateKey" o);
  signed_pre_key_id = to_int (value "signedPreKeyId" o);
  signed_pre_key = to_string (value "signedPreKey" o);
  signed_pre_key_private = to_string (value "signedPreKeyPrivate" o);
  signed_pre_key_signature = to_string (value "signedPreKeySignature" o);
}

abbrev pub pre_key_to_json : OneTimePreKey → QJsonObject
pre_key_to_json p = fields (
    ("deviceId", double p.device_id)
    ∷ ("preKeyId", double p.pre_key_id)
    ∷ ("preKeyPublic", string p.public_key)
    ∷ ("preKeyPrivate", string p.private_key)
    ∷ ("uploaded", bool p.uploaded)
    ∷ [])

unfoldable pub pre_key_from_json : QJsonObject → OneTimePreKey
pre_key_from_json o = record {
  device_id = to_int (value "deviceId" o);
  pre_key_id = to_int (value "preKeyId" o);
  public_key = to_string (value "preKeyPublic" o);
  private_key = to_string (value "preKeyPrivate" o);
  uploaded = to_bool (value "uploaded" o);
}

abbrev pub known_user_to_json : KnownUser → QJsonObject
known_user_to_json u = fields (
    ("userId", string u.user_id)
    ∷ ("username", string u.username)
    ∷ ("deviceId", double u.device_id)
    ∷ [])

unfoldable pub known_user_from_json : QJsonObject → KnownUser
known_user_from_json o = record {
  user_id = to_string (value "userId" o);
  username = to_string (value "username" o);
  device_id = to_int_or default_device_id (value "deviceId" o);
}

abbrev anchor_to_json : BlockchainAnchor → QJsonObject
anchor_to_json a = fields (
    ("anchorId", string a.id)
    ∷ ("messageId", string a.message_id)
    ∷ ("recordId", string a.record_id)
    ∷ ("digest", string a.digest)
    ∷ ("merkleRoot", string a.merkle_root)
    ∷ ("transactionHash", string a.transaction_hash)
    ∷ ("contractAddress", string a.contract_address)
    ∷ ("chain", string a.chain)
    ∷ ("status", string a.status)
    ∷ ("anchoredAt", string a.anchored_at)
    ∷ [])

unfoldable pub anchor_from_json : QJsonObject → BlockchainAnchor
anchor_from_json o = record {
  id = to_string (value "anchorId" o);
  message_id = to_string (value "messageId" o);
  record_id = to_string (value "recordId" o);
  digest = to_string (value "digest" o);
  merkle_root = to_string (value "merkleRoot" o);
  transaction_hash = to_string (value "transactionHash" o);
  contract_address = to_string (value "contractAddress" o);
  chain = to_string (value "chain" o);
  status = to_string (value "status" o);
  anchored_at = to_string (value "anchoredAt" o);
}

abbrev pub optional_id : Option ℤ → QJsonValue
optional_id none = null
optional_id (some n) = double n

-- isDouble() ? toInt() : nullopt
abbrev pub read_optional_id : QJsonValue → Option ℤ
read_optional_id (double n) = some n
read_optional_id _ = none

abbrev pub direction_text : MessageDirection → QString
direction_text sent = text "sent"
direction_text received = text "received"

unfoldable pub read_direction : QString → MessageDirection
read_direction s = if text_eq s (text "sent") then sent else received

module _ (host : Host) where
  abbrev pub trust_pin_to_json : TrustPin → QJsonObject
  trust_pin_to_json p = fields (
      ("userId", string p.user_id)
      ∷ ("deviceId", double p.device_id)
      ∷ ("identityKey", string p.identity_key)
      ∷ ("firstSeenAt", string (host.print_time p.first_seen_at))
      ∷ [])

  unfoldable pub trust_pin_from_json : QJsonObject → TrustPin
  trust_pin_from_json o = record {
    user_id = to_string (value "userId" o);
    device_id = to_int (value "deviceId" o);
    identity_key = to_string (value "identityKey" o);
    first_seen_at = host.read_time (to_string (value "firstSeenAt" o));
  }

  abbrev pub message_to_json : LocalMessage → QJsonObject
  message_to_json m = fields (
      ("id", string m.id)
      ∷ ("senderUserId", string m.sender_user_id)
      ∷ ("senderDeviceId", double m.sender_device_id)
      ∷ ("recipientUserId", string m.recipient_user_id)
      ∷ ("recipientDeviceId", double m.recipient_device_id)
      ∷ ("wirePayloadJson", string m.wire_payload_json)
      ∷ ("consumedOneTimePreKeyId", optional_id m.consumed_one_time_pre_key_id)
      ∷ ("createdAt", string (host.print_time m.created_at))
      ∷ ("createdAtRaw", string m.created_at_raw)
      ∷ ("accessRevokedAt", string m.access_revoked_at)
      ∷ ("senderDeletedAt", string m.sender_deleted_at)
      ∷ ("recipientDeletedAt", string m.recipient_deleted_at)
      ∷ ("deletedAt", string m.deleted_at)
      ∷ ("readAt", string m.read_at)
      ∷ ("localSenderCopyWirePayloadJson", string m.local_sender_copy_wire_payload_json)
      ∷ ("direction", string (direction_text m.direction))
      ∷ ("cachedAnchor", object (anchor_to_json m.cached_anchor))
      ∷ [])

  unfoldable pub message_from_json : QJsonObject → LocalMessage
  unfolding anchor_from_json read_direction
  message_from_json o = record {
    id = to_string (value "id" o);
    sender_user_id = to_string (value "senderUserId" o);
    sender_device_id = to_int (value "senderDeviceId" o);
    recipient_user_id = to_string (value "recipientUserId" o);
    recipient_device_id = to_int (value "recipientDeviceId" o);
    wire_payload_json = to_string (value "wirePayloadJson" o);
    consumed_one_time_pre_key_id = read_optional_id (value "consumedOneTimePreKeyId" o);
    created_at = host.read_time (to_string (value "createdAt" o));
    access_revoked_at = to_string (value "accessRevokedAt" o);
    sender_deleted_at = to_string (value "senderDeletedAt" o);
    recipient_deleted_at = to_string (value "recipientDeletedAt" o);
    deleted_at = to_string (value "deletedAt" o);
    read_at = to_string (value "readAt" o);
    local_sender_copy_wire_payload_json = to_string (value "localSenderCopyWirePayloadJson" o);
    direction = read_direction (to_string (value "direction" o));
    created_at_raw = to_string (value "createdAtRaw" o);
    cached_anchor = anchor_from_json (to_object (value "cachedAnchor" o));
  }
