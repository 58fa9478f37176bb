-- ===== src/Store/Messages.antt =====
-- client/src/storage/JsonLocalStore.cpp: the messages in memory. `now` is the time that a method
-- reads from the clock, as text. The methods write the file after these changes: see
-- Methods.antt.
use epic_kfc.Base.{
  QString, Bool, ◌||◌, ◌&&◌, not, Option, List, [], ◌∷◌, map, if◌then◌else◌, text_eq, is_empty,
  keep, any,
}
use epic_kfc.Models.{LocalMessage, MessageDirection, sent, received, before}
use epic_kfc.Keyed.{lookup, upsert}
use epic_kfc.Store.{Store}

unfoldable pub is_message_visible_to_user : LocalMessage → QString → Bool
is_message_visible_to_user message current_user_id =
    let globally_deleted = not (is_empty message.deleted_at) in
    let revoked = not (is_empty message.access_revoked_at) in
    let sent_by_current_user = text_eq message.sender_user_id current_user_id in
    let received_by_current_user = text_eq message.recipient_user_id current_user_id in
    let deleted_by_sender = sent_by_current_user && not (is_empty message.sender_deleted_at) in
    let deleted_by_recipient =
      received_by_current_user && not (is_empty message.recipient_deleted_at) in
    not globally_deleted && not revoked && not deleted_by_sender && not deleted_by_recipient

abbrev pub first_non_empty : QString → QString → QString
first_non_empty first fallback = if is_empty first then fallback else first

-- saveMessage: what becomes of the entry that is found
unfoldable pub merge_message : LocalMessage → LocalMessage → LocalMessage
merge_message previous message = record message {
  read_at = first_non_empty message.read_at previous.read_at;
  local_sender_copy_wire_payload_json =
      first_non_empty message.local_sender_copy_wire_payload_json
        previous.local_sender_copy_wire_payload_json;
  cached_anchor =
      if is_empty message.cached_anchor.digest
      then previous.cached_anchor
      else message.cached_anchor;
  access_revoked_at = first_non_empty message.access_revoked_at previous.access_revoked_at;
  sender_deleted_at = first_non_empty message.sender_deleted_at previous.sender_deleted_at;
  recipient_deleted_at = first_non_empty message.recipient_deleted_at previous.recipient_deleted_at;
  deleted_at = first_non_empty message.deleted_at previous.deleted_at;
}

abbrev pub message_key : LocalMessage → QString
message_key m = m.id

unfoldable pub put_message : LocalMessage → Store → Store
put_message message s = record s {
  messages = upsert message_key text_eq merge_message message s.messages;
}

-- findMessage, allMessages
unfoldable pub find_message : QString → Store → Option LocalMessage
find_message message_id s = lookup message_key text_eq message_id s.messages

-- markMessageDeletedFor: the entry that is found
unfoldable pub mark_deleted_for : QString → QString → LocalMessage → LocalMessage
mark_deleted_for now current_user_id m =
    let is_sender = text_eq m.sender_user_id current_user_id in
    let is_recipient = text_eq m.recipient_user_id current_user_id in
    record m {
      sender_deleted_at =
          if is_sender then first_non_empty m.sender_deleted_at now else m.sender_deleted_at;
      recipient_deleted_at =
          if is_recipient
          then first_non_empty m.recipient_deleted_at now
          else m.recipient_deleted_at;
      deleted_at =
          if not is_sender && not is_recipient
          then first_non_empty m.deleted_at now
          else m.deleted_at;
    }

-- `find_if`, then a change in place of the entry that is found
unfoldable pub update_message :
    QString → (LocalMessage → LocalMessage) → List LocalMessage → List LocalMessage
update_message message_id change [] = []
update_message message_id change (m ∷ ms) =
    let rest = update_message message_id change ms in
    if text_eq m.id message_id then change m ∷ ms else m ∷ rest

unfoldable pub mark_message_deleted_for : QString → QString → QString → Store → Store
mark_message_deleted_for now current_user_id message_id s = record s {
  messages = update_message message_id (mark_deleted_for now current_user_id) s.messages;
}

abbrev pub contains : List QString → QString → Bool
contains ids id = any (λ i. text_eq i id) ids

abbrev pub is_relevant : QString → MessageDirection → LocalMessage → Bool
is_relevant current_user_id received m = text_eq m.recipient_user_id current_user_id
is_relevant current_user_id sent m = text_eq m.sender_user_id current_user_id

abbrev pub hide : QString → MessageDirection → LocalMessage → LocalMessage
hide now received m = record m { access_revoked_at = first_non_empty m.access_revoked_at now }
hide now sent m = record m { sender_deleted_at = first_non_empty m.sender_deleted_at now }

-- reconcileVisibleMessages: the body of the loop
unfoldable pub reconcile_message :
    QString → QString → MessageDirection → List QString → LocalMessage → LocalMessage
reconcile_message now current_user_id direction visible_message_ids m =
    if not (is_relevant current_user_id direction m)
      || contains visible_message_ids m.id
      || not (is_message_visible_to_user m current_user_id)
    then m
    else hide now direction m

unfoldable pub reconcile_visible_messages :
    QString → QString → MessageDirection → List QString → Store → Store
reconcile_visible_messages now current_user_id direction visible_message_ids s = record s {
  messages = map (reconcile_message now current_user_id direction visible_message_ids) s.messages;
}

-- messagesWithPeer
abbrev pub is_with_peer : QString → QString → LocalMessage → Bool
is_with_peer current_user_id peer_user_id m =
    let sent_to_peer =
      text_eq m.sender_user_id current_user_id && text_eq m.recipient_user_id peer_user_id in
    let received_from_peer =
      text_eq m.sender_user_id peer_user_id && text_eq m.recipient_user_id current_user_id in
    (sent_to_peer || received_from_peer) && is_message_visible_to_user m current_user_id

-- `std::sort` by the time of creation. The order of messages with equal times, which
-- `std::sort` leaves open, is here the order in which they came.
unfoldable pub insert_by_time : LocalMessage → List LocalMessage → List LocalMessage
insert_by_time m [] = m ∷ []
insert_by_time m (x ∷ xs) =
    let rest = insert_by_time m xs in
    if before x.created_at m.created_at then x ∷ rest else m ∷ x ∷ xs

unfoldable pub sort_by_time : List LocalMessage → List LocalMessage
sort_by_time [] = []
sort_by_time (m ∷ ms) = insert_by_time m (sort_by_time ms)

unfoldable pub messages_with_peer : QString → QString → Store → List LocalMessage
messages_with_peer current_user_id peer_user_id s =
    sort_by_time (keep (is_with_peer current_user_id peer_user_id) s.messages)

-- markConversationRead: the body of the loop
unfoldable pub mark_read : QString → QString → QString → LocalMessage → LocalMessage
mark_read now current_user_id peer_user_id m =
    let incoming_from_peer =
      text_eq m.sender_user_id peer_user_id && text_eq m.recipient_user_id current_user_id in
    if incoming_from_peer && is_empty m.read_at then record m { read_at = now } else m

unfoldable pub mark_conversation_read : QString → QString → QString → Store → Store
mark_conversation_read now current_user_id peer_user_id s = record s {
  messages = map (mark_read now current_user_id peer_user_id) s.messages;
}
