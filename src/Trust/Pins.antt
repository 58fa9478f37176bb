-- ===== src/Trust/Pins.antt =====
-- A pin is never replaced by a key that the server sends later.
use epic_kfc.Base.{
  ℤ, QString, text_eq, Bool, Option, none, some, List, [], ◌∷◌, ◌≡◌, refl, ap, ◌∙◌, sym, Bool-cases,
  inl, inr,
}
use epic_kfc.Models.{UserAddress, TrustPin, QDateTime, Result, success, failure}
use epic_kfc.Host.{Host}
use epic_kfc.Keyed.{lookup, replace, address_eq}
use epic_kfc.Keyed.Laws.{lookup-upsert, address_eq_iff}
use epic_kfc.Store.{Store}
use epic_kfc.Store.Tables.{trust_pin, put_trust_pin, put_known_user, pin_key, is_incomplete}
use epic_kfc.Methods.{Machine, save_known_user, save_trust_pin, save_as}
use epic_kfc.Methods.Keys.{written-store}
use epic_kfc.Trust.{
  PreKeyBundle, KeyService, user_saved, address_resolved, pin_saved, compare_pin, verified,
  bundle_fetched, pinned_verified, pinned_bundle_fetched,
}

pub data Answer : Type 0 where
  address_answer : Result UserAddress → Answer
  bundle_answer : UserAddress → QDateTime → Result PreKeyBundle → Answer
  pinned_answer : TrustPin → Result PreKeyBundle → Answer

module _ (host : Host) (verify : PreKeyBundle → Result Bool) where
  abbrev pub take_answer : Answer → KeyService → KeyService
  take_answer (address_answer r) k = (address_resolved host verify r k).0
  take_answer (bundle_answer address now r) k = (bundle_fetched host verify address now r k).0
  take_answer (pinned_answer pin r) k = (pinned_bundle_fetched host verify pin r k).0

  unfoldable pub take_answers : List Answer → KeyService → KeyService
  take_answers [] k = k
  take_answers (a ∷ rest) k = take_answers rest (take_answer a k)

  abbrev pub Found : QString → ℤ → TrustPin → Machine → Type 0
  Found user device pin m = trust_pin user device m.store ≡ some pin

  pub save_as-Found :
      (user : QString) (device : ℤ) (pin : TrustPin) (s : Store) (m : Machine)
      → trust_pin user device s ≡ some pin
      → Found user device pin (save_as host s m).0
  unfolding save_as
  save_as-Found user device pin s m h = rw (written-store host s m _) h

  pub known_user-Found :
      (user : QString) (device : ℤ) (pin : TrustPin) (address : UserAddress) (m : Machine)
      → Found user device pin m
      → Found user device pin (save_known_user host address m).0
  unfolding save_known_user put_known_user trust_pin
  known_user-Found user device pin address m h = elim (Bool-cases (is_incomplete address)) [
    | inl e ↦ rw e h
    | inr e ↦ rw e (save_as-Found user device pin (put_known_user address m.store) m h)
  ]

  -- a pin that is saved where there was none
  pub new_pin-Found :
      (user : QString) (device : ℤ) (pin new : TrustPin) (m : Machine)
      → trust_pin new.user_id new.device_id m.store ≡ none
      → Found user device pin m
      → Found user device pin (save_trust_pin host new m).0
  unfolding save_trust_pin put_trust_pin trust_pin
  new_pin-Found user device pin new m missing h =
      save_as-Found user device pin (put_trust_pin new m.store) m (
        lookup-upsert pin_key address_eq address_eq_iff replace new (λ y. refl) (user, device)
          m.store.trust_pins
        ∙ elim (Bool-cases (address_eq (new.user_id, new.device_id) (user, device))) [
          | inl e ↦
              let same : (new.user_id, new.device_id) ≡ (user, device) = (address_eq_iff _ _).0 e in
              let gone : none ≡ some pin =
                sym missing ∙ ap (λ k. lookup pin_key address_eq k m.store.trust_pins) same ∙ h in
              cc
          | inr e ↦ rw e h
        ])

  pub take_answer-Found :
      (user : QString) (device : ℤ) (pin : TrustPin) (a : Answer) (k : KeyService)
      → Found user device pin k.machine
      → Found user device pin (take_answer a k).machine
  unfolding address_resolved bundle_fetched pinned_bundle_fetched
  take_answer-Found user device pin (address_answer (failure e)) k h = h
  take_answer-Found user device pin (address_answer (success address)) k h =
      saved (save_known_user host address k.machine)
        (known_user-Found user device pin address k.machine h)
    where
      saved :
          (r : Machine × Result Bool)
          → Found user device pin r.0
          → Found user device pin (user_saved host verify address k r).0.machine
      saved (m, success ok) f = f
      saved (m, failure e) f = f
  take_answer-Found user device pin (bundle_answer address now (failure e)) k h = h
  take_answer-Found user device pin (bundle_answer address now (success bundle)) k h =
      checked (verify bundle)
    where
      saved :
          (new : TrustPin) (r : Machine × Result Bool)
          → Found user device pin r.0
          → Found user device pin (pin_saved host verify new bundle k r).0.machine
      saved new (m, success ok) f = f
      saved new (m, failure e) f = f

      compared :
          (o : Option TrustPin)
          → trust_pin address.user_id address.device_id k.machine.store ≡ o
          → Found user device pin (compare_pin host verify address bundle now o k).0.machine
      compared none missing = saved _ _ (new_pin-Found user device pin _ k.machine missing h)
      compared (some existing) there =
          elim (Bool-cases (text_eq existing.identity_key bundle.identity_key)) [
            | inl e ↦ rw e h
            | inr e ↦ rw e h
          ]

      checked :
          (r : Result Bool)
          → Found user device pin (verified host verify address bundle now r k).0.machine
      checked (failure e) = h
      checked (success ok) = compared _ refl
  take_answer-Found user device pin (pinned_answer p (failure e)) k h = h
  take_answer-Found user device pin (pinned_answer p (success bundle)) k h = checked (verify bundle)
    where
      checked :
          (r : Result Bool)
          → Found user device pin (pinned_verified host verify p bundle r k).0.machine
      checked (failure e) = h
      checked (success ok) = elim (Bool-cases (text_eq p.identity_key bundle.identity_key)) [
        | inl e ↦ rw e h
        | inr e ↦ rw e h
      ]

  -- Trust on first use: once there is a pin for a user and a device, it is found unchanged after
  -- any sequence of answers with addresses and bundles, whatever keys they bring, and whether or
  -- not the file can be written.
  pub take_answers-trust_pin :
      (user : QString) (device : ℤ) (pin : TrustPin) (answers : List Answer) (k : KeyService)
      → trust_pin user device k.machine.store ≡ some pin
      → trust_pin user device (take_answers answers k).machine.store ≡ some pin
  unfolding take_answers
  take_answers-trust_pin user device pin [] k h = h
  take_answers-trust_pin user device pin (a ∷ rest) k h =
      take_answers-trust_pin user device pin rest (take_answer a k)
        (take_answer-Found user device pin a k h)
