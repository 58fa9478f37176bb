-- ===== src/Methods/Durable.antt =====
-- What a method has saved is there after the client is started again.
use epic_kfc.Base.{
  ℕ, ℤ, QString, Bool, true, Option, none, some, ◌≡◌, refl, ◌∙◌, if◌then◌else◌, Bool-cases, inl,
  inr,
}
use epic_kfc.Models.{TrustPin, LocalMessage, Result, success, failure}
use epic_kfc.Host.{Host, HostLaws}
use epic_kfc.Keyed.{lookup, replace, address_eq}
use epic_kfc.Keyed.Laws.{lookup-upsert, address_eq_iff, merged}
use epic_kfc.Store.{Store}
use epic_kfc.Store.Tables.{put_trust_pin, trust_pin, pin_key}
use epic_kfc.Store.Messages.{put_message, find_message}
use epic_kfc.Files.{Disk, save, load}
use epic_kfc.Files.Reload.{load-save_plain, load-save_protected}
use epic_kfc.Methods.{Machine, save_as, save_trust_pin, save_message, reload, written}

pub merged-replace {ℓ} : {A : Type ℓ} (x : A) (o : Option A) → merged replace x o ≡ x
merged-replace x none = refl
merged-replace x (some y) = refl

module _ {host : Host} (laws : HostLaws host) where
  -- the five tables are those of the store that was saved
  abbrev HasTables : Store → Store → Type 0
  HasTables s t =
      (t.device_keys ≡ s.device_keys)
      × (t.one_time_pre_keys ≡ s.one_time_pre_keys)
      × (t.known_users ≡ s.known_users)
      × (t.trust_pins ≡ s.trust_pins)
      × (t.messages ≡ s.messages)

  reloaded-HasTables :
      (s : Store) (disk : Disk) (n : ℕ) (r : Disk × ℕ)
      → host.can_read s.path ≡ true
      → save host s disk n ≡ success r
      → HasTables s (load host s r.0).0
  reloaded-HasTables s disk n r readable saved = elim (Bool-cases s.secret_protection_required) [
    | inl e ↦
        rw (load-save_protected laws s disk n r e readable saved) (refl, refl, refl, refl, refl)
    | inr e ↦ rw (load-save_plain laws s disk n r e readable saved) (refl, refl, refl, refl, refl)
  ]

  written-HasTables :
      (s : Store) (m : Machine) (r : Result (Disk × ℕ)) (ok : Bool)
      → host.can_read s.path ≡ true
      → save host s m.disk m.draws ≡ r
      → (written host s m r).1 ≡ success ok
      → HasTables s (reload host (written host s m r).0).0.store
  unfolding reload
  written-HasTables s m (success r) ok readable saved done =
      reloaded-HasTables s m.disk m.draws r readable saved
  written-HasTables s m (failure e) ok readable saved done = cc

  save_as-HasTables :
      (s : Store) (m : Machine) (ok : Bool)
      → host.can_read s.path ≡ true
      → (save_as host s m).1 ≡ success ok
      → HasTables s (reload host (save_as host s m).0).0.store
  unfolding save_as
  save_as-HasTables s m ok readable done = written-HasTables s m _ ok readable refl done

  -- After a reload of a readable file, a trust pin that was saved without an error is the one that
  -- is found for its user and device, whatever pin there was before, in mock mode and in real
  -- mode. Pins of others are found as before.
  pub save_trust_pin-reload :
      (pin : TrustPin) (m : Machine) (ok : Bool) (user : QString) (device : ℤ)
      → host.can_read m.store.path ≡ true
      → (save_trust_pin host pin m).1 ≡ success ok
      → trust_pin user device (reload host (save_trust_pin host pin m).0).0.store ≡ (
          if address_eq (pin.user_id, pin.device_id) (user, device)
          then some pin
          else trust_pin user device m.store)
  unfolding save_trust_pin put_trust_pin trust_pin
  save_trust_pin-reload pin m ok user device readable done =
      let (_, _, _, pins, _) = save_as-HasTables (put_trust_pin pin m.store) m ok readable done in
      rw pins (
        lookup-upsert pin_key address_eq address_eq_iff replace pin (λ y. refl) (user, device)
          m.store.trust_pins
        ∙ rw (merged-replace pin (lookup pin_key address_eq (pin_key pin) m.store.trust_pins)) refl)

  -- After a reload of a readable file, every message is found as it was in memory when a message
  -- was saved without an error.
  pub save_message-reload :
      (message : LocalMessage) (m : Machine) (ok : Bool) (id : QString)
      → host.can_read m.store.path ≡ true
      → (save_message host message m).1 ≡ success ok
      → find_message id (reload host (save_message host message m).0).0.store
        ≡ find_message id (put_message message m.store)
  unfolding save_message put_message find_message
  save_message-reload message m ok id readable done =
      let (_, _, _, _, messages) =
        save_as-HasTables (put_message message m.store) m ok readable done in
      rw messages refl
