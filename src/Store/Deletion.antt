-- ===== src/Store/Deletion.antt =====
-- What `markMessageDeletedFor` hides, and from whom.
use epic_kfc.Base.{
  QString, false, some, List, [], ◌∷◌, ◌≡◌, ◌≢◌, ◌⊎◌, refl, arith, is_empty, text_eq, text_eq_iff,
  if◌then◌else◌,
}
use mathlib.Core.Option
use epic_kfc.Models.{LocalMessage}
use epic_kfc.Keyed.{lookup}
use epic_kfc.Store.{Store}
use epic_kfc.Store.Messages.{
  is_message_visible_to_user, find_message, first_non_empty, mark_deleted_for, update_message,
  mark_message_deleted_for,
}

pub first_non_empty_now :
    (first now : QString) → now ≢ [] → is_empty (first_non_empty first now) ≡ false
first_non_empty_now [] [] h = absurd (h refl)
first_non_empty_now [] (c ∷ now) h = refl
first_non_empty_now (c ∷ s) now h = refl

pub lookup-update_message :
    (id k : QString) (change : LocalMessage → LocalMessage) (xs : List LocalMessage)
    → ((m : LocalMessage) → (change m).id ≡ m.id)
    → lookup (λ (m : LocalMessage). m.id) text_eq k (update_message id change xs) ≡ (
        if text_eq id k
        then Option.map change (lookup (λ (m : LocalMessage). m.id) text_eq k xs)
        else lookup (λ (m : LocalMessage). m.id) text_eq k xs)
unfolding lookup update_message
lookup-update_message id k change [] same = ground arith
lookup-update_message id k change (m ∷ ms) same = ground (
  arith,
  lookup-update_message id k change ms same,
  same m,
  text_eq_iff m.id id,
  text_eq_iff m.id k,
  text_eq_iff id k,
)

pub find_message-mark_deleted :
    (now user id k : QString) (s : Store)
    → find_message k (mark_message_deleted_for now user id s) ≡ (
        if text_eq id k
        then Option.map (mark_deleted_for now user) (find_message k s)
        else find_message k s)
unfolding find_message mark_message_deleted_for mark_deleted_for
find_message-mark_deleted now user id k s =
    lookup-update_message id k (mark_deleted_for now user) s.messages (λ m. refl)

mark_deleted_for_hidden :
    (now user : QString) (m : LocalMessage)
    → now ≢ []
    → is_message_visible_to_user (mark_deleted_for now user m) user ≡ false
unfolding is_message_visible_to_user mark_deleted_for
mark_deleted_for_hidden now user m h = ground (
  arith,
  first_non_empty_now m.sender_deleted_at now h,
  first_non_empty_now m.recipient_deleted_at now h,
  first_non_empty_now m.deleted_at now h,
)

mark_deleted_for_other :
    (now user other : QString) (m : LocalMessage)
    → user ≢ other
    → (m.sender_user_id ≡ user) ⊎ (m.recipient_user_id ≡ user)
    → is_message_visible_to_user (mark_deleted_for now user m) other
      ≡ is_message_visible_to_user m other
unfolding is_message_visible_to_user mark_deleted_for
mark_deleted_for_other now user other m ne party = ground (
  arith,
  text_eq_iff m.sender_user_id user,
  text_eq_iff m.recipient_user_id user,
  text_eq_iff m.sender_user_id other,
  text_eq_iff m.recipient_user_id other,
)

mark_deleted_for_everyone :
    (now user other : QString) (m : LocalMessage)
    → now ≢ []
    → m.sender_user_id ≢ user
    → m.recipient_user_id ≢ user
    → is_message_visible_to_user (mark_deleted_for now user m) other ≡ false
unfolding is_message_visible_to_user mark_deleted_for
mark_deleted_for_everyone now user other m h s r = ground (
  arith,
  text_eq_iff m.sender_user_id user,
  text_eq_iff m.recipient_user_id user,
  first_non_empty_now m.deleted_at now h,
)

-- After a user deletes a stored message, that user no longer sees it. Where the user is the
-- sender or the recipient, everyone else sees it exactly as before; where the user is neither,
-- nobody sees it any more. The clock's text is not empty.
pub mark_message_deleted_for_lem :
    (now user id : QString) (s : Store) (m : LocalMessage)
    → now ≢ []
    → find_message id s ≡ some m
    → (m' : LocalMessage) × (find_message id (mark_message_deleted_for now user id s) ≡ some m')
      × (is_message_visible_to_user m' user ≡ false)
      × ((m.sender_user_id ≡ user) ⊎ (m.recipient_user_id ≡ user)
          → (other : QString) → user ≢ other
          → is_message_visible_to_user m' other ≡ is_message_visible_to_user m other)
      × ((m.sender_user_id ≢ user)
          → (m.recipient_user_id ≢ user)
          → (other : QString) → is_message_visible_to_user m' other ≡ false)
mark_message_deleted_for_lem now user id s m h found = (
  mark_deleted_for now user m,
  rw (find_message-mark_deleted now user id id s, (text_eq_iff id id).1 refl, found),
  mark_deleted_for_hidden now user m h,
  λ party other ne. mark_deleted_for_other now user other m ne party,
  λ s r other. mark_deleted_for_everyone now user other m h s r,
)
