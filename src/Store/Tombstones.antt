-- ===== src/Store/Tombstones.antt =====
-- A message that a user may no longer see stays hidden, whatever is saved over it.
use epic_kfc.Base.{
  QString, false, some, [], ◌∷◌, ◌≡◌, refl, arith, is_empty, text_eq, text_eq_iff, text_eq_refl,
  if◌then◌else◌,
}
use epic_kfc.Models.{LocalMessage}
use epic_kfc.Keyed.Laws.{lookup-upsert, merged}
use epic_kfc.Store.{Store}
use epic_kfc.Store.Messages.{
  is_message_visible_to_user, merge_message, message_key, put_message, find_message,
  first_non_empty,
}

-- two messages with one sender and one recipient
abbrev pub HasSamePeople : LocalMessage → LocalMessage → Type 0
HasSamePeople a b =
    (a.sender_user_id ≡ b.sender_user_id) × (a.recipient_user_id ≡ b.recipient_user_id)

first_non_empty_keeps :
    (first fallback : QString)
    → is_empty fallback ≡ false
    → is_empty (first_non_empty first fallback) ≡ false
first_non_empty_keeps [] fallback h = h
first_non_empty_keeps (c ∷ s) fallback h = refl

merge_message_hidden :
    (old new : LocalMessage) (user : QString)
    → HasSamePeople old new
    → is_message_visible_to_user old user ≡ false
    → is_message_visible_to_user (merge_message old new) user ≡ false
unfolding is_message_visible_to_user merge_message
merge_message_hidden old new user same h = ground (
  arith,
  first_non_empty_keeps new.access_revoked_at old.access_revoked_at,
  first_non_empty_keeps new.sender_deleted_at old.sender_deleted_at,
  first_non_empty_keeps new.recipient_deleted_at old.recipient_deleted_at,
  first_non_empty_keeps new.deleted_at old.deleted_at,
)

pub find_message-put_message :
    (id : QString) (m : LocalMessage) (s : Store)
    → find_message id (put_message m s) ≡ (
        if text_eq m.id id
        then some (merged merge_message m (find_message m.id s))
        else find_message id s)
unfolding find_message put_message merge_message
find_message-put_message id m s =
    lookup-upsert message_key text_eq text_eq_iff merge_message m (λ y. refl) id s.messages

-- Saving a newer copy of a message, one that does not know that it was revoked or deleted,
-- leaves it hidden from every user from whom it was hidden, if the sender and the recipient
-- agree.
pub put_message_hidden :
    (old new : LocalMessage) (user : QString) (s : Store)
    → find_message new.id s ≡ some old
    → HasSamePeople old new
    → is_message_visible_to_user old user ≡ false
    → (m : LocalMessage) × (find_message new.id (put_message new s) ≡ some m)
      × (is_message_visible_to_user m user ≡ false)
put_message_hidden old new user s found same h = (
  merge_message old new,
  rw (find_message-put_message new.id new s, text_eq_refl new.id, found),
  merge_message_hidden old new user same h,
)

-- A copy from the server, which knows neither when the message was read, nor the sender's own
-- copy, nor a digest, is stored with what the client had of these.
pub put_message_retains :
    (old new : LocalMessage) (s : Store)
    → find_message new.id s ≡ some old
    → new.read_at ≡ []
    → new.local_sender_copy_wire_payload_json ≡ []
    → new.cached_anchor.digest ≡ []
    → (m : LocalMessage) × (find_message new.id (put_message new s) ≡ some m)
      × (m.read_at ≡ old.read_at)
      × (m.local_sender_copy_wire_payload_json ≡ old.local_sender_copy_wire_payload_json)
      × (m.cached_anchor ≡ old.cached_anchor)
      × (m.wire_payload_json ≡ new.wire_payload_json)
unfolding merge_message
put_message_retains old new s found read copy digest = (
  merge_message old new,
  rw (find_message-put_message new.id new s, text_eq_refl new.id, found),
  rw read,
  rw copy,
  rw digest,
  refl,
)
