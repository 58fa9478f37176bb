-- ===== src/Examples/Stores.antt =====
-- The store's theorems on a store of two messages.
use epic_kfc.Base.{
  ℕ, ℤ, pos, QString, text, text_eq, some, [], ◌∷◌, ◌≡◌, ◌≢◌, ◌⊎◌, refl, true, false, not, ◌&&◌,
  keep, if◌then◌else◌,
}
use mathlib.Core.List.{Perm}
use epic_kfc.Models.{value_or, LocalMessage, received, success, TrustPin}
use epic_kfc.Keyed.{lookup, upsert, replace, HasUniqueKeys, address_eq}
use epic_kfc.Keyed.Laws.{lookup-upsert, upsert-HasUniqueKeys, address_eq_iff, merged}
use epic_kfc.Store.{Store}
use epic_kfc.Store.Tables.{pin_key}
use epic_kfc.Store.Messages.{
  find_message, is_message_visible_to_user, put_message, mark_message_deleted_for,
  reconcile_visible_messages, is_relevant, contains, messages_with_peer, is_with_peer,
}
use epic_kfc.Store.Tombstones.{put_message_hidden}
use epic_kfc.Store.Deletion.{mark_message_deleted_for_lem}
use epic_kfc.Store.Reconcile.{reconcile_visible_messages_lem}
use epic_kfc.Store.Reading.{messages_with_peer_lem, IsInOrder}
use epic_kfc.Store.Conversations.{find_summary, summarise_all}
use epic_kfc.Store.Counting.{
  conversations_for_counts, count_if, message_count_of, unread_count_of, is_counted,
  is_counted_unread,
}
use epic_kfc.Json.{value, contains as has_field, insert}
use epic_kfc.Secrets.{
  salt_for, protect_secrets, protect_parts, protect_session, protect_arrays, protect_array,
  protect_each, protect_string, encrypt_secret_string, protect_strings,
}
use epic_kfc.Files.{plain_root, save, load, Disk}
use epic_kfc.Files.RoundTrip.{with_contents}
use epic_kfc.Files.Reload.{load-save_protected}
use epic_kfc.Examples.Platforms.{plain_host, plain_host_laws}
use epic_kfc.Examples.Values.{
  first_message, revoked_message, two_messages, store_with, locked_store, no_files, bob_pin,
}

abbrev ada : QString
ada = text "ada"

abbrev bob : QString
bob = text "bob"

abbrev noon : QString
noon = text "noon"

abbrev m1 : QString
m1 = text "m1"

abbrev revoked_store : Store
revoked_store = store_with (revoked_message ∷ [])

put_message_hidden_example :
    (m : LocalMessage) × (find_message m1 (put_message first_message revoked_store) ≡ some m)
    × (is_message_visible_to_user m bob ≡ false)
put_message_hidden_example =
    put_message_hidden revoked_message first_message bob revoked_store
      (unfold find_message lookup text_eq in refl) (refl, refl)
      (unfold is_message_visible_to_user text_eq in refl)

mark_message_deleted_for_example :
    (m' : LocalMessage) × (find_message m1 (mark_message_deleted_for noon bob m1 two_messages)
      ≡ some m')
    × (is_message_visible_to_user m' bob ≡ false)
    × ((first_message.sender_user_id ≡ bob) ⊎ (first_message.recipient_user_id ≡ bob)
        → (other : QString) → bob ≢ other
        → is_message_visible_to_user m' other ≡ is_message_visible_to_user first_message other)
    × (first_message.sender_user_id ≢ bob
        → first_message.recipient_user_id ≢ bob
        → (other : QString) → is_message_visible_to_user m' other ≡ false)
mark_message_deleted_for_example =
    mark_message_deleted_for_lem noon bob m1 two_messages first_message (λ e. cc)
      (unfold find_message lookup text_eq in refl)

reconcile_visible_messages_example :
    (m' : LocalMessage) × (find_message m1
        (reconcile_visible_messages noon bob received (text "m0" ∷ []) two_messages)
      ≡ some m')
    × (is_relevant bob received first_message ≡ true
        → is_message_visible_to_user m' bob
          ≡ (is_message_visible_to_user first_message bob && contains (text "m0" ∷ []) m1))
    × ((is_relevant bob received first_message && not (contains (text "m0" ∷ []) m1)) ≡ false
        → m' ≡ first_message)
reconcile_visible_messages_example =
    reconcile_visible_messages_lem noon bob received (text "m0" ∷ []) two_messages m1 first_message
      (λ e. cc) (unfold find_message lookup text_eq in refl)

-- the key of a conversation, without the number of the device
abbrev peer_key : QString → ℤ → QString
peer_key peer device = peer

conversations_for_counts_example :
    (message_count_of
        (find_summary ada (summarise_all peer_key two_messages bob [] two_messages.messages))
      ≡ count_if (is_counted peer_key two_messages bob ada) two_messages.messages)
    × (unread_count_of
          (find_summary ada (summarise_all peer_key two_messages bob [] two_messages.messages))
        ≡ count_if (is_counted_unread peer_key two_messages bob ada) two_messages.messages)
conversations_for_counts_example = conversations_for_counts peer_key two_messages bob ada

messages_with_peer_example :
    Perm
      (messages_with_peer bob ada two_messages)
      (keep (is_with_peer bob ada) two_messages.messages)
    × IsInOrder (messages_with_peer bob ada two_messages)
messages_with_peer_example = messages_with_peer_lem bob ada two_messages

abbrev new_pin : TrustPin
new_pin = record bob_pin { identity_key = text "new" }

lookup-upsert_example :
    lookup pin_key address_eq
      (bob, pos 1)
      (upsert pin_key address_eq replace new_pin (bob_pin ∷ []))
    ≡ (if address_eq (pin_key new_pin) (bob, pos 1)
        then some
            (merged replace new_pin (lookup pin_key address_eq (pin_key new_pin) (bob_pin ∷ [])))
        else lookup pin_key address_eq (bob, pos 1) (bob_pin ∷ []))
lookup-upsert_example =
    lookup-upsert pin_key address_eq address_eq_iff replace new_pin (λ y. refl) (bob, pos 1)
      (bob_pin ∷ [])

upsert-HasUniqueKeys_example :
    HasUniqueKeys pin_key address_eq (upsert pin_key address_eq replace new_pin (bob_pin ∷ []))
upsert-HasUniqueKeys_example =
    upsert-HasUniqueKeys pin_key address_eq address_eq_iff replace new_pin (λ y. refl)
      (bob_pin ∷ []) (tt, tt)

abbrev saved_locked : Disk × ℕ
saved_locked = value_or (no_files, 0) (save plain_host locked_store no_files 0)

load-save_protected_example : load plain_host locked_store saved_locked.0 ≡ (
  with_contents true locked_store (record locked_store { secret_salt = salt_for plain_host [] 0 }),
  success true,
)
load-save_protected_example =
    load-save_protected plain_host_laws locked_store no_files 0 saved_locked refl refl (
      unfold save protect_secrets protect_parts protect_session protect_arrays protect_array
        protect_each protect_strings protect_string encrypt_secret_string plain_root value has_field
        insert in
      refl)
