-- ===== src/Methods/Locked.antt =====
-- A store that must protect its secrets writes nothing without a passphrase.
use epic_kfc.Base.{
  ℕ, Bool, true, false, Option, none, some, List, [], ◌∷◌, ◌≡◌, refl, ◌∙◌, Bool-cases, inl, inr,
}
use epic_kfc.Models.{LocalMessage, Result, success, failure}
use epic_kfc.Host.{Host}
use epic_kfc.Secrets.{protect_secrets}
use epic_kfc.Store.{Store}
use epic_kfc.Store.Tables.{
  put_session, drop_session, put_device_keys, put_one_time_pre_keys, is_incomplete, put_known_user,
  put_trust_pin,
}
use epic_kfc.Store.Messages.{
  put_message, find_message, mark_message_deleted_for, reconcile_visible_messages,
  mark_conversation_read,
}
use epic_kfc.Files.{Disk, save}
use epic_kfc.Methods.{
  Machine, Method, save_as, save_session, clear_session, save_device_keys, save_one_time_pre_keys,
  save_known_user, save_trust_pin, save_message, delete_message_for, reconcile, read_conversation,
  run_method, run_methods, written, delete_found, save_session_method, clear_session_method,
  save_device_keys_method, save_one_time_pre_keys_method, save_known_user_method,
  save_trust_pin_method, save_message_method, delete_message_for_method, reconcile_method,
  read_conversation_method,
}

-- secrets have to be protected, and there is nothing to protect them with
abbrev pub IsLocked : Store → Type 0
IsLocked s = (s.secret_protection_required ≡ true) × (s.secret_passphrase ≡ [])

abbrev failed {ℓ} : {A : Type ℓ} → Result A → Bool
failed (success a) = false
failed (failure e) = true

module _ (host : Host) where
  save-locked : (s : Store) (disk : Disk) (n : ℕ) → IsLocked s → failed (save host s disk n) ≡ true
  unfolding save protect_secrets
  save-locked s disk n (required, locked) =
      elim (Bool-cases (host.directory_ready (host.directory s.path))) [
        | inl h ↦ rw (h, required, locked) refl
        | inr h ↦ rw h refl
      ]

  abbrev Unchanged : Machine → Machine → Type 0
  Unchanged m m' = (m'.disk ≡ m.disk) × IsLocked m'.store

  written-locked :
      (s : Store) (m : Machine) (r : Result (Disk × ℕ))
      → IsLocked s
      → failed r ≡ true
      → Unchanged m (written host s m r).0
  written-locked s m (success r) h f = cc
  written-locked s m (failure e) h f = (refl, h)

  save_as-locked : (s : Store) (m : Machine) → IsLocked s → Unchanged m (save_as host s m).0
  unfolding save_as
  save_as-locked s m h = written-locked s m _ h (save-locked s m.disk m.draws h)

  run_method-locked :
      (x : Method) (m : Machine) → IsLocked m.store → Unchanged m (run_method host x m).0
  unfolding save_session clear_session save_device_keys save_one_time_pre_keys save_known_user
      save_trust_pin save_message delete_message_for reconcile read_conversation put_session
      drop_session put_device_keys put_one_time_pre_keys put_known_user put_trust_pin put_message
      mark_message_deleted_for reconcile_visible_messages mark_conversation_read
  run_method-locked (save_session_method session) m h = save_as-locked _ m h
  run_method-locked clear_session_method m h = save_as-locked _ m h
  run_method-locked (save_device_keys_method material) m h = save_as-locked _ m h
  run_method-locked (save_one_time_pre_keys_method pre_keys) m h = save_as-locked _ m h
  run_method-locked (save_known_user_method address) m h =
      elim (Bool-cases (is_incomplete address)) [
        | inl e ↦ rw e (refl, h)
        | inr e ↦ rw e (save_as-locked (put_known_user address m.store) m h)
      ]
  run_method-locked (save_trust_pin_method pin) m h = save_as-locked _ m h
  run_method-locked (save_message_method message) m h = save_as-locked _ m h
  run_method-locked (delete_message_for_method now user id) m h = deletion (find_message id m.store)
    where
      deletion : (o : Option LocalMessage) → Unchanged m (delete_found host now user id o m).0
      deletion none = (refl, h)
      deletion (some found) = save_as-locked (mark_message_deleted_for now user id m.store) m h
  run_method-locked (reconcile_method now user direction ids) m h = save_as-locked _ m h
  run_method-locked (read_conversation_method now user peer) m h = save_as-locked _ m h

  -- Where secrets must be protected and there is no passphrase, no sequence of the methods that
  -- save the store changes any file.
  pub run_methods-locked :
      (xs : List Method) (m : Machine) → IsLocked m.store → (run_methods host xs m).disk ≡ m.disk
  unfolding run_methods
  run_methods-locked [] m h = refl
  run_methods-locked (x ∷ xs) m h =
      let (same, locked) = run_method-locked x m h in
      run_methods-locked xs (run_method host x m).0 locked ∙ same
