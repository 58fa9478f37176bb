-- ===== src/EthereumHash.antt =====
-- client/src/support/EthereumHash.cpp: the identifier and the digest under which a message is
-- anchored on the chain. The text forms that Qt makes are parameters: QByteArray::toHex, and
-- QJsonDocument::toJson with QJsonDocument::Compact.
pub mod Stable
pub mod Kept
use epic_kfc.Base.{
  ℕ, text, QString, Bool, not, ◌&&◌, Option, none, some, List, [], ◌∷◌, ◌++◌, if◌then◌else◌,
  is_empty, nat_eq,
}
use epic_kfc.Models.{
  QDateTime, LocalMessage, Result, success, failure, ErrorCode, other, ClientError,
}
use epic_kfc.Host.{Host, QByteArray}
use epic_kfc.Json.{QJsonObject, fields, string, null, double}
use epic_kfc.Store.Conversations.{is_valid}
use epic_kfc.Keccak.{keccak256}

abbrev plus_zero : QString
plus_zero = text "+00:00"

-- replace('Z', "+00:00")
unfoldable pub replace_zulu : QString → QString
replace_zulu [] = []
replace_zulu (c ∷ s) = if nat_eq c b'Z' then plus_zero ++ replace_zulu s else c ∷ replace_zulu s

-- where the text ends with 'Z': chop(1), then append("+00:00")
unfoldable pub change_zulu_end : QString → QString
change_zulu_end [] = []
change_zulu_end (c ∷ []) = if nat_eq c b'Z' then plus_zero else c ∷ []
change_zulu_end (c ∷ d ∷ s) = c ∷ change_zulu_end (d ∷ s)

abbrev pub incomplete_metadata : ClientError
incomplete_metadata = record {
  code = ErrorCode.operation_failed;
  message = other (text "Message metadata is incomplete for blockchain verification.");
}

-- digestForMessage: what must be there
abbrev pub has_required_metadata : LocalMessage → Bool
has_required_metadata message =
    not (is_empty message.id)
    && not (is_empty message.sender_user_id)
    && not (is_empty message.recipient_user_id)
    && not (is_empty message.wire_payload_json)
    && is_valid message.created_at

module _ (host : Host) (to_hex : QByteArray → QString) (to_compact : QJsonObject → QByteArray) where
  unfoldable pub keccak_hex : QByteArray → QString
  keccak_hex bytes = text "0x" ++ to_hex (keccak256 bytes)

  unfoldable pub canonical_time : QDateTime → QString
  canonical_time time = if not (is_valid time) then [] else replace_zulu (host.print_time time)

  unfoldable pub canonical_date_time : LocalMessage → QString
  unfolding canonical_time
  canonical_date_time message =
      if not (is_empty message.created_at_raw)
      then change_zulu_end message.created_at_raw
      else canonical_time message.created_at

  unfoldable pub canonical_message : LocalMessage → QJsonObject
  unfolding canonical_date_time
  canonical_message message = fields (
      ("created_at", string (canonical_date_time message))
      ∷ ("forwarded_from_message_id", null)
      ∷ ("id", string message.id)
      ∷ ("recipient_device_id", double message.recipient_device_id)
      ∷ ("recipient_user_id", string message.recipient_user_id)
      ∷ ("sender_device_id", double message.sender_device_id)
      ∷ ("sender_user_id", string message.sender_user_id)
      ∷ ("wire_payload_json", string message.wire_payload_json)
      ∷ [])

  unfoldable pub record_id_for_message : QString → QString
  unfolding keccak_hex
  record_id_for_message message_id = keccak_hex (host.to_utf8 (text "message:" ++ message_id))

  unfoldable pub digest_for_message : LocalMessage → Result QString
  unfolding keccak_hex canonical_message
  digest_for_message message =
      if not (has_required_metadata message)
      then failure incomplete_metadata
      else success (keccak_hex (to_compact (canonical_message message)))
