-- ===== src/Store/Reading.antt =====
-- Reading a conversation: the messages that are shown, and those that are marked as read.
use epic_kfc.Base.{
  QString, Bool, true, false, ◌&&◌, none, some, List, [], ◌∷◌, keep, All, text_eq, ◌≡◌, arith, refl,
  is_empty, Bool-cases, inl, inr,
}
use mathlib.Core.List.{Perm}
use mathlib.Core.List.Perm
use mathlib.Core.Option
use epic_kfc.Models.{LocalMessage, before, QDateTime}
use epic_kfc.Keyed.Laws.{lookup-map}
use epic_kfc.Store.{Store}
use epic_kfc.Store.Messages.{
  find_message, message_key, is_with_peer, insert_by_time, sort_by_time, messages_with_peer,
  mark_read, mark_conversation_read, is_message_visible_to_user,
}

-- each message is at least as old as all that follow it
abbrev pub IsInOrder : List LocalMessage → Type 0
IsInOrder [] = Unit
IsInOrder (m ∷ ms) = All (λ later. before later.created_at m.created_at ≡ false) ms × IsInOrder ms

before_asym : (a b : QDateTime) → before a b ≡ true → before b a ≡ false
before_asym none (some b) h = refl
before_asym (some a) (some b) h = ground arith
before_asym none none h = refl
before_asym (some a) none h = ground arith

before_trans : (a b c : QDateTime) → before b a ≡ false → before c b ≡ false → before c a ≡ false
before_trans a b c h k = ground arith

All-before :
    (a b : QDateTime) (ms : List LocalMessage)
    → before b a ≡ false
    → All (λ later. before later.created_at b ≡ false) ms
    → All (λ later. before later.created_at a ≡ false) ms
All-before a b [] h k = tt
All-before a b (m ∷ ms) h (k, ks) = (before_trans a b m.created_at h k, All-before a b ms h ks)

insert_by_time-All :
    (t : QDateTime) (m : LocalMessage) (ms : List LocalMessage)
    → before m.created_at t ≡ false
    → All (λ later. before later.created_at t ≡ false) ms
    → All (λ later. before later.created_at t ≡ false) (insert_by_time m ms)
unfolding insert_by_time
insert_by_time-All t m [] h k = (h, tt)
insert_by_time-All t m (x ∷ xs) h (k, ks) = elim (Bool-cases (before x.created_at m.created_at)) [
  | inl older ↦ rw older (k, insert_by_time-All t m xs h ks)
  | inr newer ↦ rw newer (h, (k, ks))
]

insert_by_time-IsInOrder :
    (m : LocalMessage) (ms : List LocalMessage) → IsInOrder ms → IsInOrder (insert_by_time m ms)
unfolding insert_by_time
insert_by_time-IsInOrder m [] h = (tt, tt)
insert_by_time-IsInOrder m (x ∷ xs) (h, hs) = elim (Bool-cases (before x.created_at m.created_at)) [
  | inl older ↦ rw older (
    insert_by_time-All x.created_at m xs (before_asym x.created_at m.created_at older) h,
    insert_by_time-IsInOrder m xs hs,
  )
  | inr newer ↦ rw newer ((newer, All-before m.created_at x.created_at xs newer h), (h, hs))
]

sort_by_time-IsInOrder : (ms : List LocalMessage) → IsInOrder (sort_by_time ms)
unfolding sort_by_time
sort_by_time-IsInOrder [] = tt
sort_by_time-IsInOrder (m ∷ ms) = insert_by_time-IsInOrder m _ (sort_by_time-IsInOrder ms)

insert_by_time-perm :
    (m : LocalMessage) (ms : List LocalMessage) → Perm (insert_by_time m ms) (m ∷ ms)
unfolding insert_by_time
insert_by_time-perm m [] = Perm.refl _
insert_by_time-perm m (x ∷ xs) = elim (Bool-cases (before x.created_at m.created_at)) [
  | inl older ↦ rw older (Perm.trans (Perm.cons x (insert_by_time-perm m xs)) (Perm.swap m x xs))
  | inr newer ↦ rw newer (Perm.refl _)
]

sort_by_time-perm : (ms : List LocalMessage) → Perm (sort_by_time ms) ms
unfolding sort_by_time
sort_by_time-perm [] = Perm.refl _
sort_by_time-perm (m ∷ ms) =
    Perm.trans (insert_by_time-perm m (sort_by_time ms)) (Perm.cons m (sort_by_time-perm ms))

-- A conversation holds exactly the stored messages between the two users that are visible to
-- the current one, each as often as it is stored, in the order of their creation.
pub messages_with_peer_lem :
    (user peer : QString) (s : Store)
    → Perm (messages_with_peer user peer s) (keep (is_with_peer user peer) s.messages)
      × IsInOrder (messages_with_peer user peer s)
unfolding messages_with_peer
messages_with_peer_lem user peer s = (
  sort_by_time-perm (keep (is_with_peer user peer) s.messages),
  sort_by_time-IsInOrder (keep (is_with_peer user peer) s.messages),
)

abbrev pub is_incoming_from : QString → QString → LocalMessage → Bool
is_incoming_from user peer m = text_eq m.sender_user_id peer && text_eq m.recipient_user_id user

mark_read-id : (now user peer : QString) (m : LocalMessage) → (mark_read now user peer m).id ≡ m.id
unfolding mark_read
mark_read-id now user peer m = ground arith

pub find_message-mark_read :
    (now user peer k : QString) (s : Store)
    → find_message k (mark_conversation_read now user peer s)
      ≡ Option.map (mark_read now user peer) (find_message k s)
unfolding find_message mark_conversation_read
find_message-mark_read now user peer k s =
    lookup-map message_key text_eq (mark_read now user peer) (mark_read-id now user peer) k
      s.messages

mark_read_lem :
    (now user peer : QString) (m : LocalMessage)
    → is_empty now ≡ false
    → (is_incoming_from user peer m ≡ true → is_empty (mark_read now user peer m).read_at ≡ false)
      × ((is_incoming_from user peer m && is_empty m.read_at) ≡ false
          → mark_read now user peer m ≡ m)
      × ((viewer : QString)
          → is_message_visible_to_user (mark_read now user peer m) viewer
            ≡ is_message_visible_to_user m viewer)
unfolding mark_read is_message_visible_to_user
mark_read_lem now user peer m h = (ground arith, ground arith, λ viewer. ground arith)

-- After a conversation is read, every stored message from the peer to the user has a time of
-- reading, every other message and every message that was read before is as it was, and nobody
-- sees more or fewer messages. The clock's text is not empty.
pub mark_conversation_read_lem :
    (now user peer k : QString) (s : Store) (m : LocalMessage)
    → is_empty now ≡ false
    → find_message k s ≡ some m
    → (m' : LocalMessage) × (find_message k (mark_conversation_read now user peer s) ≡ some m')
      × (is_incoming_from user peer m ≡ true → is_empty m'.read_at ≡ false)
      × ((is_incoming_from user peer m && is_empty m.read_at) ≡ false → m' ≡ m)
      × ((viewer : QString)
          → is_message_visible_to_user m' viewer ≡ is_message_visible_to_user m viewer)
mark_conversation_read_lem now user peer k s m h found =
    let (marked, kept, seen) = mark_read_lem now user peer m h in
    (
      mark_read now user peer m,
      rw (find_message-mark_read now user peer k s, found),
      marked,
      kept,
      seen,
    )
