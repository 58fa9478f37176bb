-- ===== src/Store/Conversations.antt =====
-- client/src/storage/JsonLocalStore.cpp: `conversationsFor` and `unreadConversationsFor`.
-- The `std::map` is a list ordered by its keys. The text of a key is made by `QString::arg`,
-- which is a parameter.
use epic_kfc.Base.{
  ℤ, QString, Bool, true, false, ◌||◌, ◌&&◌, not, ◌+◌, Option, none, some, List, [], ◌∷◌, map, ltb,
  if◌then◌else◌, text_eq, text_lt, is_empty, keep,
}
use epic_kfc.Models.{LocalMessage, ConversationSummary, KnownUser, before, QDateTime}
use epic_kfc.Store.{Store}
use epic_kfc.Store.Tables.{known_user}
use epic_kfc.Store.Messages.{is_message_visible_to_user}

abbrev pub Summaries : Type 0
Summaries = List (QString × ConversationSummary)

unfoldable pub find_summary : QString → Summaries → Option ConversationSummary
find_summary k [] = none
find_summary k ((j, v) ∷ m) = let rest = find_summary k m in if text_eq j k then some v else rest

-- std::map::insert_or_assign
unfoldable pub insert_or_assign : QString → ConversationSummary → Summaries → Summaries
insert_or_assign k v [] = (k, v) ∷ []
insert_or_assign k v ((j, w) ∷ m) =
    let rest = insert_or_assign k v m in
    if text_eq j k then (k, v) ∷ m else if text_lt k j then (k, v) ∷ (j, w) ∷ m else (j, w) ∷ rest

abbrev pub is_valid : QDateTime → Bool
is_valid none = false
is_valid (some t) = true

abbrev name_of : Option KnownUser → QString
name_of none = []
name_of (some u) = u.username

abbrev pub summary_or : ConversationSummary → Option ConversationSummary → ConversationSummary
summary_or fresh none = fresh
summary_or fresh (some s) = s

module _ (key_text : QString → ℤ → QString) (store : Store) (current_user_id : QString) where
  abbrev pub is_sent : LocalMessage → Bool
  is_sent m = text_eq m.sender_user_id current_user_id

  abbrev pub peer_user_id : LocalMessage → QString
  peer_user_id m = if is_sent m then m.recipient_user_id else m.sender_user_id

  abbrev pub peer_device_id : LocalMessage → ℤ
  peer_device_id m = if is_sent m then m.recipient_device_id else m.sender_device_id

  abbrev pub conversation_key : LocalMessage → QString
  conversation_key m = key_text (peer_user_id m) (peer_device_id m)

  abbrev pub is_unread_incoming : LocalMessage → Bool
  is_unread_incoming m = not (is_sent m) && is_empty m.read_at

  abbrev peer_username : LocalMessage → QString
  peer_username m = name_of (known_user (peer_user_id m) (peer_device_id m) store)

  abbrev pub first_summary : LocalMessage → ConversationSummary
  first_summary m = record {
    peer_user_id = peer_user_id m;
    peer_username = peer_username m;
    peer_device_id = peer_device_id m;
    message_count = 0;
    unread_count = 0;
    latest_message_at = none;
  }

  -- what one message adds to its conversation's summary
  unfoldable pub add_to_summary : LocalMessage → ConversationSummary → ConversationSummary
  add_to_summary m s = record s {
    peer_username =
        if is_empty s.peer_username && not (is_empty (peer_username m))
        then peer_username m
        else s.peer_username;
    message_count = s.message_count + 1;
    unread_count = if is_unread_incoming m then s.unread_count + 1 else s.unread_count;
    latest_message_at =
        if not (is_valid s.latest_message_at) || before s.latest_message_at m.created_at
        then m.created_at
        else s.latest_message_at;
  }

  -- the body of the loop
  unfoldable pub summarise : Summaries → LocalMessage → Summaries
  summarise summaries m =
      let key = conversation_key m in
      if not (is_message_visible_to_user m current_user_id)
      then summaries
      else insert_or_assign key
          (add_to_summary m (summary_or (first_summary m) (find_summary key summaries))) summaries

  unfoldable pub summarise_all : Summaries → List LocalMessage → Summaries
  summarise_all summaries [] = summaries
  summarise_all summaries (m ∷ ms) = summarise_all (summarise summaries m) ms

  unfoldable pub conversations_for : List ConversationSummary
  unfolding summarise_all summarise insert_or_assign find_summary add_to_summary
  conversations_for = map (λ entry. entry.1) (summarise_all [] store.messages)

  unfoldable pub unread_conversations_for : List ConversationSummary
  unfolding conversations_for
  unread_conversations_for = keep (λ c. ltb 0 c.unread_count) conversations_for
