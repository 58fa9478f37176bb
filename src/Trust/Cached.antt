-- ===== src/Trust/Cached.antt =====
-- A bundle that is handed out to encrypt with has a key that is pinned.
use epic_kfc.Base.{
  if_true, ℤ, QString, text_eq, text_eq_iff, int_eq, ◌&&◌, Bool, Option, none, some, ◌≡◌, refl, ap,
  ◌∙◌, sym, Bool-cases, inl, inr,
}
use epic_kfc.Models.{
  UserAddress, TrustPin, QDateTime, Result, success, failure, success-injective, guard_cases,
}
use epic_kfc.Host.{Host}
use epic_kfc.Keyed.{replace, address_eq}
use epic_kfc.Keyed.Laws.{lookup-upsert, address_eq_iff}
use epic_kfc.Store.Tables.{trust_pin, put_trust_pin, pin_key}
use epic_kfc.Methods.{Machine, save_trust_pin, save_as}
use epic_kfc.Methods.Keys.{written-store}
use epic_kfc.Trust.{
  PreKeyBundle, KeyService, user_saved, address_resolved, pin_saved, compare_pin, verified,
  bundle_fetched, pinned_verified, pinned_bundle_fetched, cached, cached_bundle,
}
use epic_kfc.Trust.Pins.{
  Answer, address_answer, bundle_answer, pinned_answer, take_answer, take_answer-Found,
  new_pin-Found,
}
use epic_kfc.Methods.Durable.{merged-replace}

-- the key of a bundle is the one that is pinned for its user and device
abbrev pub IsPinned : PreKeyBundle → Machine → Type 0
IsPinned b m =
    (pin : TrustPin) × (trust_pin b.user_id b.device_id m.store ≡ some pin)
    × (pin.identity_key ≡ b.identity_key)

abbrev pub IsPinnedCache : Option PreKeyBundle → Machine → Type 0
IsPinnedCache none m = Unit
IsPinnedCache (some b) m = IsPinned b m

abbrev pub IsSound : KeyService → Type 0
IsSound k = IsPinnedCache k.last_trusted_bundle k.machine

-- An answer with a bundle is for the address that was asked for, and the pin of `trustedBundle`
-- is the one of the store.
abbrev pub IsFor : Answer → KeyService → Type 0
IsFor (address_answer r) k = Unit
IsFor (bundle_answer address now (failure e)) k = Unit
IsFor (bundle_answer address now (success b)) k =
    (b.user_id ≡ address.user_id) × (b.device_id ≡ address.device_id)
IsFor (pinned_answer pin (failure e)) k = Unit
IsFor (pinned_answer pin (success b)) k = trust_pin b.user_id b.device_id k.machine.store ≡ some pin

module _ (host : Host) (verify : PreKeyBundle → Result Bool) where
  -- an answer keeps what was pinned
  kept-IsPinnedCache :
      (a : Answer) (k : KeyService) (o : Option PreKeyBundle)
      → IsPinnedCache o k.machine
      → IsPinnedCache o (take_answer host verify a k).machine
  kept-IsPinnedCache a k none h = tt
  kept-IsPinnedCache a k (some b) (pin, found, same) =
      (pin, take_answer-Found host verify b.user_id b.device_id pin a k found, same)

  new_pin-lookup :
      (new : TrustPin) (m : Machine)
      → trust_pin new.user_id new.device_id (save_trust_pin host new m).0.store ≡ some new
  unfolding save_trust_pin save_as put_trust_pin trust_pin
  new_pin-lookup new m = rw (written-store host (put_trust_pin new m.store) m _) (
      lookup-upsert pin_key address_eq address_eq_iff replace new (λ y. refl) (pin_key new)
        m.store.trust_pins
      ∙ if_true (address_eq (pin_key new) (pin_key new)) _ _
          ((address_eq_iff (pin_key new) (pin_key new)).1 refl)
      ∙ ap some (merged-replace new _))

  same_cache :
      (a : Answer) (k : KeyService)
      → (take_answer host verify a k).last_trusted_bundle ≡ k.last_trusted_bundle
      → IsSound k
      → IsSound (take_answer host verify a k)
  same_cache a k e h = rw e (kept-IsPinnedCache a k k.last_trusted_bundle h)

  user_saved-cache :
      (address : UserAddress) (k : KeyService) (r : Machine × Result Bool)
      → (user_saved host verify address k r).0.last_trusted_bundle ≡ k.last_trusted_bundle
  user_saved-cache address k (m, success ok) = refl
  user_saved-cache address k (m, failure e) = refl

  pin_saved-IsSound :
      (pin : TrustPin) (b : PreKeyBundle) (k : KeyService) (r : Machine × Result Bool)
      → IsPinned b r.0
      → IsPinnedCache k.last_trusted_bundle r.0
      → IsSound (pin_saved host verify pin b k r).0
  pin_saved-IsSound pin b k (m, success ok) new old = new
  pin_saved-IsSound pin b k (m, failure e) new old = old

  new_pin-IsPinnedCache :
      (new : TrustPin) (m : Machine) (o : Option PreKeyBundle)
      → trust_pin new.user_id new.device_id m.store ≡ none
      → IsPinnedCache o m
      → IsPinnedCache o (save_trust_pin host new m).0
  new_pin-IsPinnedCache new m none missing h = tt
  new_pin-IsPinnedCache new m (some b) missing (pin, found, same) =
      (pin, new_pin-Found host verify b.user_id b.device_id pin new m missing found, same)

  compare_pin-IsSound :
      (address : UserAddress) (b : PreKeyBundle) (now : QDateTime) (o : Option TrustPin)
      (k : KeyService)
      → (b.user_id ≡ address.user_id) × (b.device_id ≡ address.device_id)
      → trust_pin address.user_id address.device_id k.machine.store ≡ o
      → IsSound k
      → IsSound (compare_pin host verify address b now o k).0
  compare_pin-IsSound address b now none k (u, d) missing h =
      let pin : TrustPin = record {
        user_id = address.user_id;
        device_id = address.device_id;
        identity_key = b.identity_key;
        first_seen_at = now;
      } in
      pin_saved-IsSound pin b k (save_trust_pin host pin k.machine)
        (pin, rw (u, d) (new_pin-lookup pin k.machine), refl)
        (new_pin-IsPinnedCache pin k.machine k.last_trusted_bundle missing h)
  compare_pin-IsSound address b now (some existing) k (u, d) there h =
      elim (Bool-cases (text_eq existing.identity_key b.identity_key)) [
        | inl e ↦
            rw e (existing, rw (u, d) there, (text_eq_iff existing.identity_key b.identity_key).0 e)
        | inr e ↦ rw e h
      ]

  pub take_answer-IsSound :
      (a : Answer) (k : KeyService) → IsFor a k → IsSound k → IsSound (take_answer host verify a k)
  unfolding address_resolved bundle_fetched pinned_bundle_fetched
  take_answer-IsSound (address_answer (failure e)) k f h = h
  take_answer-IsSound (address_answer (success address)) k f h =
      same_cache (address_answer (success address)) k (user_saved-cache address k _) h
  take_answer-IsSound (bundle_answer address now (failure e)) k f h = h
  take_answer-IsSound (bundle_answer address now (success b)) k f h = checked (verify b)
    where
      checked : (r : Result Bool) → IsSound (verified host verify address b now r k).0
      checked (failure e) = h
      checked (success ok) = compare_pin-IsSound address b now _ k f refl h
  take_answer-IsSound (pinned_answer pin (failure e)) k f h = h
  take_answer-IsSound (pinned_answer pin (success b)) k f h = checked (verify b)
    where
      checked : (r : Result Bool) → IsSound (pinned_verified host verify pin b r k).0
      checked (failure e) = h
      checked (success ok) = elim (Bool-cases (text_eq pin.identity_key b.identity_key)) [
        | inl e ↦ rw e (pin, f, (text_eq_iff pin.identity_key b.identity_key).0 e)
        | inr e ↦ rw e h
      ]

-- the answers that a key service takes, one after the other
pub data Exchange (host : Host) (verify : PreKeyBundle → Result Bool)
    : KeyService → KeyService → Type 0 where
  rest : (k : KeyService) → Exchange host verify k k
  answer :
      (k k' : KeyService) (a : Answer)
      → Exchange host verify (take_answer host verify a k) k'
      → Exchange host verify k k'

module _ (host : Host) (verify : PreKeyBundle → Result Bool) where
  -- each of the answers is for what was asked
  abbrev pub AreFor : {k k' : KeyService} → Exchange host verify k k' → Type 0
  AreFor (rest k) = Unit
  AreFor (answer k k' a more) = IsFor a k × AreFor more

  Exchange-IsSound :
      {k k' : KeyService} (run : Exchange host verify k k') → AreFor run → IsSound k → IsSound k'
  Exchange-IsSound (rest k) f h = h
  Exchange-IsSound (answer k k' a more) (f, fs) h =
      Exchange-IsSound more fs (take_answer-IsSound host verify a k f h)

  pub cached-IsPinned :
      (user : QString) (device : ℤ) (o : Option PreKeyBundle) (b : PreKeyBundle) (m : Machine)
      → IsPinnedCache o m
      → cached host verify user device o ≡ success b
      → (pin : TrustPin) × (trust_pin user device m.store ≡ some pin)
        × (pin.identity_key ≡ b.identity_key)
  cached-IsPinned user device none b m h e = cc
  cached-IsPinned user device (some c) b m (pin, found, key) e =
      guard_cases (text_eq c.user_id user && int_eq c.device_id device) _ _ e
        (λ here s.
          let asked : (c.user_id, c.device_id) ≡ (user, device) =
            (address_eq_iff (c.user_id, c.device_id) (user, device)).0 here in
          (
            pin,
            ap (λ (a : QString × ℤ). trust_pin a.0 a.1 m.store) (sym asked) ∙ found,
            key ∙ ap (λ (t : PreKeyBundle). t.identity_key) (success-injective s),
          ))
        (λ elsewhere s. cc)

  -- If a key service starts without a trusted bundle and takes any answers of the gateways, and
  -- if each bundle among them is for the address that was asked for, then what it hands out from
  -- its cache afterwards for a user and a device has the identity key that is pinned for them. No
  -- login is among the answers.
  pub cached_bundle-IsPinned :
      (user : QString) (device : ℤ) (b : PreKeyBundle) (k k' : KeyService)
      → k.last_trusted_bundle ≡ none
      → (run : Exchange host verify k k') → AreFor run
      → cached_bundle host verify user device k' ≡ success b
      → (pin : TrustPin) × (trust_pin user device k'.machine.store ≡ some pin)
        × (pin.identity_key ≡ b.identity_key)
  unfolding cached_bundle
  cached_bundle-IsPinned user device b k k' fresh run asked e =
      cached-IsPinned user device k'.last_trusted_bundle b k'.machine
        (Exchange-IsSound run asked (rw fresh tt)) e
