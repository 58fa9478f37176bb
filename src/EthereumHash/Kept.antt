-- ===== src/EthereumHash/Kept.antt =====
-- The digest of a stored message, over the methods of client/src/storage/JsonLocalStore.cpp.
use epic_kfc.Base.{
  QString, Bool, true, false, Option, none, some, List, [], ◌∷◌, ◌≡◌, ◌≢◌, ◌⊎◌, inl, inr, refl, ap,
  ◌∙◌, All, Bool-cases, if◌then◌else◌, text_eq, text_eq_iff,
}
use mathlib.Core.Option
use epic_kfc.Models.{LocalMessage, MessageDirection, sent, received, Result}
use epic_kfc.Host.{Host, QByteArray}
use epic_kfc.Json.{QJsonObject}
use epic_kfc.Keyed.Laws.{merged}
use epic_kfc.Store.{Store}
use epic_kfc.Store.Tables.{
  put_session, drop_session, put_device_keys, put_one_time_pre_keys, is_incomplete, put_known_user,
  put_trust_pin,
}
use epic_kfc.Store.Messages.{
  put_message, find_message, merge_message, mark_message_deleted_for, mark_deleted_for,
  reconcile_visible_messages, reconcile_message, mark_conversation_read, mark_read, hide,
}
use epic_kfc.Store.Tombstones.{find_message-put_message}
use epic_kfc.Store.Deletion.{find_message-mark_deleted}
use epic_kfc.Store.Reconcile.{find_message-reconcile}
use epic_kfc.Store.Reading.{find_message-mark_read}
use epic_kfc.Methods.{
  Machine, Method, save_as, save_session, clear_session, save_device_keys, save_one_time_pre_keys,
  save_known_user, save_trust_pin, save_message, delete_message_for, reconcile, read_conversation,
  run_method, run_methods, delete_found, save_session_method, clear_session_method,
  save_device_keys_method, save_one_time_pre_keys_method, save_known_user_method,
  save_trust_pin_method, save_message_method, delete_message_for_method, reconcile_method,
  read_conversation_method,
}
use epic_kfc.Methods.Keys.{written-store}
use epic_kfc.EthereumHash.{digest_for_message}

module _ (host : Host) (to_hex : QByteArray → QString) (to_compact : QJsonObject → QByteArray)
    (id : QString) (digest : Result QString) where
  -- the digest of a message is the one in question
  abbrev pub IsDigested : LocalMessage → Type 0
  IsDigested m = digest_for_message host to_hex to_compact m ≡ digest

  -- a message is stored under the id, and it has the digest
  abbrev pub IsStored : Store → Type 0
  IsStored s = (m : LocalMessage) × (find_message id s ≡ some m) × IsDigested m

  -- a copy that is saved is of another message, or it has the same digest
  abbrev pub IsHarmless : Method → Type 0
  IsHarmless (save_message_method message) = (message.id ≢ id) ⊎ IsDigested message
  IsHarmless _ = Unit

  if-IsDigested :
      (test : Bool) (m n : LocalMessage)
      → IsDigested m
      → IsDigested n
      → IsDigested (if test then m else n)
  if-IsDigested true m n h k = h
  if-IsDigested false m n h k = k

  hide-IsDigested :
      (now : QString) (d : MessageDirection) (m : LocalMessage)
      → IsDigested m
      → IsDigested (hide now d m)
  unfolding digest_for_message
  hide-IsDigested now received m h = h
  hide-IsDigested now sent m h = h

  reconcile_message-IsDigested :
      (now user : QString) (d : MessageDirection) (ids : List QString) (m : LocalMessage)
      → IsDigested m
      → IsDigested (reconcile_message now user d ids m)
  unfolding reconcile_message
  reconcile_message-IsDigested now user d ids m h =
      if-IsDigested _ m (hide now d m) h (hide-IsDigested now d m h)

  mark_read-IsDigested :
      (now user peer : QString) (m : LocalMessage)
      → IsDigested m
      → IsDigested (mark_read now user peer m)
  unfolding mark_read digest_for_message
  mark_read-IsDigested now user peer m h = if-IsDigested _ _ m h h

  mark_deleted-IsDigested :
      (now user : QString) (m : LocalMessage)
      → IsDigested m
      → IsDigested (mark_deleted_for now user m)
  unfolding mark_deleted_for digest_for_message
  mark_deleted-IsDigested now user m h = h

  merged-IsDigested :
      (m : LocalMessage) (o : Option LocalMessage)
      → IsDigested m
      → IsDigested (merged merge_message m o)
  unfolding merge_message digest_for_message
  merged-IsDigested m none h = h
  merged-IsDigested m (some previous) h = h

  -- a change of the message that is found
  changed-IsStored :
      (s s' : Store) (change : LocalMessage → LocalMessage)
      → ((m : LocalMessage) → IsDigested m → IsDigested (change m))
      → find_message id s' ≡ Option.map change (find_message id s)
      → IsStored s
      → IsStored s'
  changed-IsStored s s' change keep e (m, found, h) =
      (change m, e ∙ ap (Option.map change) found, keep m h)

  -- the same message is found
  same-IsStored : (s s' : Store) → find_message id s' ≡ find_message id s → IsStored s → IsStored s'
  same-IsStored s s' e (m, found, h) = (m, e ∙ found, h)

  put_message-IsStored :
      (message : LocalMessage) (s : Store)
      → IsHarmless (save_message_method message)
      → IsStored s
      → IsStored (put_message message s)
  put_message-IsStored message s harmless h = elim (Bool-cases (text_eq message.id id)) [
    | inl e ↦ (
      merged merge_message message (find_message message.id s),
      find_message-put_message id message s ∙ rw e refl,
      merged-IsDigested message _ (own harmless ((text_eq_iff message.id id).0 e)),
    )
    | inr e ↦ same-IsStored s _ (find_message-put_message id message s ∙ rw e refl) h
  ]
    where
      own : IsHarmless (save_message_method message) → message.id ≡ id → IsDigested message
      own (inl other) e = absurd (other e)
      own (inr same) e = same

  deleted-IsStored :
      (now user k : QString) (s : Store)
      → IsStored s
      → IsStored (mark_message_deleted_for now user k s)
  deleted-IsStored now user k s h = elim (Bool-cases (text_eq k id)) [
    | inl e ↦
        changed-IsStored s _ (mark_deleted_for now user) (mark_deleted-IsDigested now user)
          (find_message-mark_deleted now user k id s ∙ rw e refl) h
    | inr e ↦ same-IsStored s _ (find_message-mark_deleted now user k id s ∙ rw e refl) h
  ]

  save_as-IsStored : (s : Store) (m : Machine) → IsStored s → IsStored (save_as host s m).0.store
  unfolding save_as
  save_as-IsStored s m h = rw (written-store host s m _) h

  run_method-IsStored :
      (x : Method) (m : Machine)
      → IsHarmless x
      → IsStored m.store
      → IsStored (run_method host x m).0.store
  unfolding save_session clear_session save_device_keys save_one_time_pre_keys save_known_user
      save_trust_pin save_message delete_message_for reconcile read_conversation put_session
      drop_session put_device_keys put_one_time_pre_keys put_known_user put_trust_pin find_message
  run_method-IsStored (save_session_method session) m ok h =
      save_as-IsStored (put_session session m.store) m h
  run_method-IsStored clear_session_method m ok h = save_as-IsStored (drop_session m.store) m h
  run_method-IsStored (save_device_keys_method material) m ok h =
      save_as-IsStored (put_device_keys material m.store) m h
  run_method-IsStored (save_one_time_pre_keys_method pre_keys) m ok h =
      save_as-IsStored (put_one_time_pre_keys pre_keys m.store) m h
  run_method-IsStored (save_known_user_method address) m ok h =
      elim (Bool-cases (is_incomplete address)) [
        | inl k ↦ rw k h
        | inr k ↦ rw k (save_as-IsStored (put_known_user address m.store) m h)
      ]
  run_method-IsStored (save_trust_pin_method pin) m ok h =
      save_as-IsStored (put_trust_pin pin m.store) m h
  run_method-IsStored (save_message_method message) m ok h =
      save_as-IsStored (put_message message m.store) m (put_message-IsStored message m.store ok h)
  run_method-IsStored (delete_message_for_method now user k) m ok h =
      deletion (find_message k m.store)
    where
      deletion : (o : Option LocalMessage) → IsStored (delete_found host now user k o m).0.store
      deletion none = h
      deletion (some found) =
          save_as-IsStored (mark_message_deleted_for now user k m.store) m
            (deleted-IsStored now user k m.store h)
  run_method-IsStored (reconcile_method now user direction ids) m ok h =
      save_as-IsStored (reconcile_visible_messages now user direction ids m.store) m (
        changed-IsStored m.store (reconcile_visible_messages now user direction ids m.store)
          (reconcile_message now user direction ids)
          (reconcile_message-IsDigested now user direction ids)
          (find_message-reconcile now user direction ids id m.store) h)
  run_method-IsStored (read_conversation_method now user peer) m ok h =
      save_as-IsStored (mark_conversation_read now user peer m.store) m (
        changed-IsStored m.store (mark_conversation_read now user peer m.store)
          (mark_read now user peer) (mark_read-IsDigested now user peer)
          (find_message-mark_read now user peer id m.store) h)

  -- A stored message stays stored, and its digest stays the same, under any sequence of the
  -- methods that save the store, whether or not the file can be written, if each copy of the
  -- message that is saved meanwhile has that digest itself: deleting the message, reading it, hiding it
  -- after a sync and merging it with the copy that is there do not change what it is verified by.
  pub run_methods-IsStored :
      (xs : List Method) (m : Machine)
      → All IsHarmless xs
      → IsStored m.store
      → IsStored (run_methods host xs m).store
  unfolding run_methods
  run_methods-IsStored [] m ok h = h
  run_methods-IsStored (x ∷ xs) m (ok, oks) h =
      run_methods-IsStored xs (run_method host x m).0 oks (run_method-IsStored x m ok h)
