-- ===== src/Store/Reconcile.antt =====
-- What a sync leaves visible: `reconcileVisibleMessages` against the list of the server.
use epic_kfc.Base.{QString, true, false, ◌&&◌, not, some, List, [], ◌≡◌, ◌≢◌, arith, text_eq}
use mathlib.Core.Option
use epic_kfc.Models.{LocalMessage, MessageDirection, sent, received}
use epic_kfc.Keyed.Laws.{lookup-map}
use epic_kfc.Store.{Store}
use epic_kfc.Store.Messages.{
  is_message_visible_to_user, find_message, reconcile_message, message_key,
  reconcile_visible_messages, is_relevant, contains, hide,
}
use epic_kfc.Store.Deletion.{first_non_empty_now}

pub hide_hidden :
    (now user : QString) (d : MessageDirection) (m : LocalMessage)
    → now ≢ []
    → is_relevant user d m ≡ true
    → is_message_visible_to_user (hide now d m) user ≡ false
unfolding is_message_visible_to_user
hide_hidden now user received m h r = ground (arith, first_non_empty_now m.access_revoked_at now h)
hide_hidden now user sent m h r = ground (arith, first_non_empty_now m.sender_deleted_at now h)

reconcile_message-id :
    (now user : QString) (d : MessageDirection) (ids : List QString) (m : LocalMessage)
    → (reconcile_message now user d ids m).id ≡ m.id
unfolding reconcile_message
reconcile_message-id now user received ids m = ground arith
reconcile_message-id now user sent ids m = ground arith

pub find_message-reconcile :
    (now user : QString) (d : MessageDirection) (ids : List QString) (k : QString) (s : Store)
    → find_message k (reconcile_visible_messages now user d ids s)
      ≡ Option.map (reconcile_message now user d ids) (find_message k s)
unfolding find_message reconcile_visible_messages
find_message-reconcile now user d ids k s =
    lookup-map message_key text_eq (reconcile_message now user d ids)
      (reconcile_message-id now user d ids) k s.messages

reconcile_message_visible :
    (now user : QString) (d : MessageDirection) (ids : List QString) (m : LocalMessage)
    → now ≢ []
    → is_relevant user d m ≡ true
    → is_message_visible_to_user (reconcile_message now user d ids m) user
      ≡ (is_message_visible_to_user m user && contains ids m.id)
unfolding reconcile_message
reconcile_message_visible now user d ids m h r = ground (arith, hide_hidden now user d m h r)

reconcile_message_other :
    (now user : QString) (d : MessageDirection) (ids : List QString) (m : LocalMessage)
    → (is_relevant user d m && not (contains ids m.id)) ≡ false
    → reconcile_message now user d ids m ≡ m
unfolding reconcile_message
reconcile_message_other now user d ids m h = ground arith

-- After a sync of one direction, a stored message of that direction is visible to the user
-- exactly if it was visible before and the server still lists it; a message that the server
-- lists, or that is not of that direction, is left as it was. The clock's text is not empty.
pub reconcile_visible_messages_lem :
    (now user : QString) (d : MessageDirection) (ids : List QString) (s : Store) (k : QString)
    (m : LocalMessage)
    → now ≢ []
    → find_message k s ≡ some m
    → (m' : LocalMessage) × (find_message k (reconcile_visible_messages now user d ids s) ≡ some m')
      × (is_relevant user d m ≡ true
          → is_message_visible_to_user m' user
            ≡ (is_message_visible_to_user m user && contains ids m.id))
      × ((is_relevant user d m && not (contains ids m.id)) ≡ false → m' ≡ m)
reconcile_visible_messages_lem now user d ids s k m h found = (
  reconcile_message now user d ids m,
  rw (find_message-reconcile now user d ids k s, found),
  reconcile_message_visible now user d ids m h,
  reconcile_message_other now user d ids m,
)
