-- ===== src/Methods/Keys.antt =====
-- No method makes two entries of a table with one key.
use epic_kfc.Base.{
  ℕ, QString, Bool, true, false, Option, none, some, List, [], ◌∷◌, ◌≡◌, refl, All, if◌then◌else◌,
  Bool-cases, inl, inr, text_eq, text_eq_iff, int_eq, int_eq_iff,
}
use epic_kfc.Models.{
  LocalMessage, OneTimePreKey, MessageDirection, sent, received, Result, success, failure,
}
use epic_kfc.Host.{Host}
use epic_kfc.Keyed.{HasUniqueKeys, replace, address_eq, device_eq}
use epic_kfc.Keyed.Laws.{upsert-HasUniqueKeys, map-HasUniqueKeys, address_eq_iff, device_eq_iff}
use epic_kfc.Store.{Store}
use epic_kfc.Store.Tables.{
  put_session, drop_session, put_device_keys, put_one_time_pre_keys, put_pre_keys, is_incomplete,
  put_known_user, put_trust_pin, device_key, pre_key_key, user_key, pin_key,
}
use epic_kfc.Store.Messages.{
  put_message, find_message, mark_message_deleted_for, reconcile_visible_messages,
  mark_conversation_read, message_key, merge_message, update_message, mark_deleted_for,
  reconcile_message, mark_read, hide,
}
use epic_kfc.Files.{Disk}
use epic_kfc.Methods.{
  Machine, Method, save_as, save_session, clear_session, save_device_keys, save_one_time_pre_keys,
  save_known_user, save_trust_pin, save_message, delete_message_for, reconcile, read_conversation,
  run_method, run_methods, written, delete_found, save_session_method, clear_session_method,
  save_device_keys_method, save_one_time_pre_keys_method, save_known_user_method,
  save_trust_pin_method, save_message_method, delete_message_for_method, reconcile_method,
  read_conversation_method,
}

-- every table has at most one entry for a key
abbrev pub IsKeyed : Store → Type 0
IsKeyed s =
    HasUniqueKeys device_key int_eq s.device_keys
    × HasUniqueKeys pre_key_key device_eq s.one_time_pre_keys
    × HasUniqueKeys user_key address_eq s.known_users
    × HasUniqueKeys pin_key address_eq s.trust_pins
    × HasUniqueKeys message_key text_eq s.messages

put_pre_keys-HasUniqueKeys :
    (ps table : List OneTimePreKey)
    → HasUniqueKeys pre_key_key device_eq table
    → HasUniqueKeys pre_key_key device_eq (put_pre_keys ps table)
unfolding put_pre_keys
put_pre_keys-HasUniqueKeys [] table h = h
put_pre_keys-HasUniqueKeys (p ∷ ps) table h =
    put_pre_keys-HasUniqueKeys ps _
      (upsert-HasUniqueKeys pre_key_key device_eq device_eq_iff replace p (λ y. refl) table h)

update_message-All :
    (id k : QString) (change : LocalMessage → LocalMessage)
    → ((m : LocalMessage) → (change m).id ≡ m.id)
    → (ms : List LocalMessage) → All (λ (z : LocalMessage). text_eq k z.id ≡ false) ms
    → All (λ (z : LocalMessage). text_eq k z.id ≡ false) (update_message id change ms)
unfolding update_message
update_message-All id k change same [] h = tt
update_message-All id k change same (m ∷ ms) (h, hs) = elim (Bool-cases (text_eq m.id id)) [
  | inl e ↦ rw (e, same m) (h, hs)
  | inr e ↦ rw e (h, update_message-All id k change same ms hs)
]

update_message-HasUniqueKeys :
    (id : QString) (change : LocalMessage → LocalMessage)
    → ((m : LocalMessage) → (change m).id ≡ m.id)
    → (ms : List LocalMessage) → HasUniqueKeys message_key text_eq ms
    → HasUniqueKeys message_key text_eq (update_message id change ms)
unfolding update_message
update_message-HasUniqueKeys id change same [] h = tt
update_message-HasUniqueKeys id change same (m ∷ ms) (h, hs) = elim (Bool-cases (text_eq m.id id)) [
  | inl e ↦ rw (e, same m) (h, hs)
  | inr e ↦ rw e (
    update_message-All id m.id change same ms h,
    update_message-HasUniqueKeys id change same ms hs,
  )
]

hide-id : (now : QString) (d : MessageDirection) (m : LocalMessage) → (hide now d m).id ≡ m.id
hide-id now received m = refl
hide-id now sent m = refl

if-id :
    (test : Bool) (m n : LocalMessage) (id : QString)
    → m.id ≡ id
    → n.id ≡ id
    → (if test then m else n).id ≡ id
if-id true m n id h k = h
if-id false m n id h k = k

reconcile_message-id :
    (now user : QString) (d : MessageDirection) (ids : List QString) (m : LocalMessage)
    → (reconcile_message now user d ids m).id ≡ m.id
unfolding reconcile_message
reconcile_message-id now user d ids m = if-id _ m (hide now d m) m.id refl (hide-id now d m)

mark_read-id : (now user peer : QString) (m : LocalMessage) → (mark_read now user peer m).id ≡ m.id
unfolding mark_read
mark_read-id now user peer m = if-id _ _ m m.id refl refl

module _ (host : Host) where
  pub written-store :
      (s : Store) (m : Machine) (r : Result (Disk × ℕ)) → (written host s m r).0.store ≡ s
  written-store s m (success r) = refl
  written-store s m (failure e) = refl

  save_as-IsKeyed : (s : Store) (m : Machine) → IsKeyed s → IsKeyed (save_as host s m).0.store
  unfolding save_as
  save_as-IsKeyed s m h = rw (written-store s m _) h

  run_method-IsKeyed :
      (x : Method) (m : Machine) → IsKeyed m.store → IsKeyed (run_method host x m).0.store
  unfolding save_session clear_session save_device_keys save_one_time_pre_keys save_known_user
      save_trust_pin save_message delete_message_for reconcile read_conversation put_session
      drop_session put_device_keys put_one_time_pre_keys put_known_user put_trust_pin put_message
      mark_message_deleted_for reconcile_visible_messages mark_conversation_read mark_deleted_for
      merge_message
  run_method-IsKeyed (save_session_method session) m h =
      save_as-IsKeyed (put_session session m.store) m h
  run_method-IsKeyed clear_session_method m h = save_as-IsKeyed (drop_session m.store) m h
  run_method-IsKeyed (save_device_keys_method material) m (a, b, c, d, e) =
      save_as-IsKeyed (put_device_keys material m.store) m (
        upsert-HasUniqueKeys device_key int_eq int_eq_iff replace material (λ y. refl) _ a,
        b,
        c,
        d,
        e,
      )
  run_method-IsKeyed (save_one_time_pre_keys_method pre_keys) m (a, b, c, d, e) =
      save_as-IsKeyed (put_one_time_pre_keys pre_keys m.store) m
        (a, put_pre_keys-HasUniqueKeys pre_keys _ b, c, d, e)
  run_method-IsKeyed (save_known_user_method address) m (a, b, c, d, e) =
      elim (Bool-cases (is_incomplete address)) [
        | inl k ↦ rw k (a, b, c, d, e)
        | inr k ↦ rw k (
            save_as-IsKeyed (put_known_user address m.store) m (
              a,
              b,
              upsert-HasUniqueKeys user_key address_eq address_eq_iff replace _ (λ y. refl) _ c,
              d,
              e,
            ))
      ]
  run_method-IsKeyed (save_trust_pin_method pin) m (a, b, c, d, e) =
      save_as-IsKeyed (put_trust_pin pin m.store) m (
        a,
        b,
        c,
        upsert-HasUniqueKeys pin_key address_eq address_eq_iff replace pin (λ y. refl) _ d,
        e,
      )
  run_method-IsKeyed (save_message_method message) m (a, b, c, d, e) =
      save_as-IsKeyed (put_message message m.store) m (
        a,
        b,
        c,
        d,
        upsert-HasUniqueKeys message_key text_eq text_eq_iff merge_message message (λ y. refl) _ e,
      )
  run_method-IsKeyed (delete_message_for_method now user id) m (a, b, c, d, e) =
      deletion (find_message id m.store)
    where
      deletion : (o : Option LocalMessage) → IsKeyed (delete_found host now user id o m).0.store
      deletion none = (a, b, c, d, e)
      deletion (some found) =
          save_as-IsKeyed (mark_message_deleted_for now user id m.store) m (
            a,
            b,
            c,
            d,
            update_message-HasUniqueKeys id (mark_deleted_for now user) (λ m. refl) _ e,
          )
  run_method-IsKeyed (reconcile_method now user direction ids) m (a, b, c, d, e) =
      save_as-IsKeyed (reconcile_visible_messages now user direction ids m.store) m (
        a,
        b,
        c,
        d,
        map-HasUniqueKeys message_key text_eq (reconcile_message now user direction ids)
            (reconcile_message-id now user direction ids) _ e,
      )
  run_method-IsKeyed (read_conversation_method now user peer) m (a, b, c, d, e) =
      save_as-IsKeyed (mark_conversation_read now user peer m.store) m (
        a,
        b,
        c,
        d,
        map-HasUniqueKeys message_key text_eq (mark_read now user peer) (mark_read-id now user peer)
            _ e,
      )

  -- If no table has two entries with one key, none has after any sequence of the methods that save
  -- the store, whether or not the file can be written.
  pub run_methods-IsKeyed :
      (xs : List Method) (m : Machine) → IsKeyed m.store → IsKeyed (run_methods host xs m).store
  unfolding run_methods
  run_methods-IsKeyed [] m h = h
  run_methods-IsKeyed (x ∷ xs) m h =
      run_methods-IsKeyed xs (run_method host x m).0 (run_method-IsKeyed x m h)
