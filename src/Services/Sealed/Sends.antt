-- ===== src/Services/Sealed/Sends.antt =====
-- The steps that decide on trust, that send and that ask for anchors: what they send is sealed.
use epic_kfc.Base.{
  QString, Bool, Option, none, some, List, [], ◌∷◌, ◌≡◌, refl, ap, ◌∙◌, All, map, Bool-cases, inl,
  inr, text_eq, text_eq_iff,
}
use epic_kfc.Models.{
  UserAddress, DeviceKeyMaterial, EncryptedPayload, TrustPin, Result, success, failure,
  success-injective,
}
use epic_kfc.Events.{Event}
use epic_kfc.Store.Tables.{trust_pin}
use epic_kfc.Methods.{Machine}
use epic_kfc.Trust.{
  PreKeyBundle, KeyService, address_resolved, bundle_fetched, pinned_bundle_fetched,
  pinned_verified,
}
use epic_kfc.Trust.Cached.{IsSound, IsFor, take_answer-IsSound}
use epic_kfc.Trust.Pins.{
  Answer, address_answer, bundle_answer, pinned_answer, take_answer, take_answer-Found,
}
use epic_kfc.Services.{Env, World, Output, BundleUse, send_use, forward_use, event, current_user_id}
use epic_kfc.Services.Keys.{
  trust_address_resolved, trust_bundle_fetched, fetch_for_trust, hand_over, set_keys,
}
use epic_kfc.Services.Sending.{
  bundle_trusted, copied, encrypted, pinned_bundle_arrived, address_of, device_of, plaintext_of,
}
use epic_kfc.Services.Secrecy.{draft_for}
use epic_kfc.Services.Sealed.{Keeps, IsFine, emit-Keeps, call-Keeps}

-- the payloads that a provider makes were encrypted for the bundle that it was given
abbrev pub Encrypts : (PreKeyBundle → QString → Type 0) → Env → Type 0
Encrypts E env =
    (user : QString) (device : DeviceKeyMaterial) (b : PreKeyBundle) (plaintext : QString)
    (payload : EncryptedPayload)
    → env.crypto.encrypt user device b plaintext ≡ success payload
    → E b payload.wire_payload_json

-- the key of a bundle is the one that is pinned for an address
abbrev pub IsPinnedFor : UserAddress → PreKeyBundle → Machine → Type 0
IsPinnedFor address b m =
    (pin : TrustPin) × (trust_pin address.user_id address.device_id m.store ≡ some pin)
    × (pin.identity_key ≡ b.identity_key)

module _ (E : PreKeyBundle → QString → Type 0) (env : Env) where
  -- an answer of Trust.antt as a change of the state
  answer-Keeps :
      (a : Answer) (w : World) (out : World × List Output)
      → IsFor a w.keys
      → Keeps E
          (set_keys env (take_answer env.host env.crypto.verify_signed_pre_key a w.keys) w)
          out
      → Keeps E w out
  answer-Keeps a w out f h = record {
    pins = λ u d p found.
        h.pins u d p
          (take_answer-Found env.host env.crypto.verify_signed_pre_key u d p a w.keys found);
    sound =
        λ s. h.sound (take_answer-IsSound env.host env.crypto.verify_signed_pre_key a w.keys f s);
    fine = λ s. h.fine (take_answer-IsSound env.host env.crypto.verify_signed_pre_key a w.keys f s);
  }

  events-Keeps : {w : World} (es : List Event) → Keeps E w (w, map event es)
  events-Keeps {w} es = record { pins = λ u d p h. h; sound = λ s. s; fine = λ s. all es }
    where
      all : (es : List Event) → All (IsFine E w.keys.machine) (map event es)
      all [] = tt
      all (e ∷ es) = (tt, all es)

  pub trust_address-Keeps :
      (r : Result UserAddress) (w : World) → Keeps E w (trust_address_resolved env r w)
  unfolding trust_address_resolved
  trust_address-Keeps r w =
      answer-Keeps (address_answer r) w _ tt
        (fetched (address_resolved env.host env.crypto.verify_signed_pre_key r w.keys))
    where
      fetched :
          (out : KeyService × List Event × Option UserAddress)
          → Keeps E (set_keys env out.0 w) (fetch_for_trust env out w)
      fetched (k, es, none) = events-Keeps es
      fetched (k, es, some address) = call-Keeps E (λ s. tt) tt

  pub trust_bundle-Keeps :
      (address : UserAddress) (r : Result PreKeyBundle) (w : World)
      → IsFor (bundle_answer address env.now r) w.keys
      → Keeps E w (trust_bundle_fetched env address r w)
  unfolding trust_bundle_fetched
  trust_bundle-Keeps address r w f = answer-Keeps (bundle_answer address env.now r) w _ f (
      events-Keeps
        (bundle_fetched env.host env.crypto.verify_signed_pre_key address env.now r w.keys).1)

  -- the bundle is encrypted for, and the draft goes out to the address
  pub bundle_trusted-Keeps :
      (purpose : BundleUse) (r : Result PreKeyBundle) (w : World)
      → Encrypts E env
      → ((b : PreKeyBundle)
          → r ≡ success b
          → IsSound w.keys
          → IsPinnedFor (address_of purpose) b w.keys.machine)
      → Keeps E w (bundle_trusted env purpose r w)
  unfolding bundle_trusted
  bundle_trusted-Keeps purpose (failure e) w enc pinned = emit-Keeps E
  bundle_trusted-Keeps purpose (success b) w enc pinned = with_payload _ refl
    where
      asked :
          (purpose : BundleUse) (payload : EncryptedPayload) (copy : QString)
          → E b payload.wire_payload_json
          → (IsSound w.keys → IsPinnedFor (address_of purpose) b w.keys.machine)
          → Keeps E w (copied env purpose payload (success copy) w)
      asked (send_use address plaintext device) payload copy e pin =
          call-Keeps E (λ s. unfold draft_for in (b, e, pin s)) tt
      asked (forward_use id address plaintext device) payload copy e pin =
          call-Keeps E (λ s. unfold draft_for in (b, e, pin s)) tt

      with_copy :
          (payload : EncryptedPayload) (r : Result QString)
          → E b payload.wire_payload_json
          → Keeps E w (copied env purpose payload r w)
      with_copy payload (failure e) k = emit-Keeps E
      with_copy payload (success copy) k = asked purpose payload copy k (pinned b refl)

      with_payload :
          (r : Result EncryptedPayload)
          → env.crypto.encrypt (current_user_id w) (device_of purpose) b (plaintext_of purpose) ≡ r
          → Keeps E w (encrypted env purpose r w)
      with_payload (failure e) h = emit-Keeps E
      with_payload (success payload) h = with_copy payload _ (enc _ _ b _ payload h)

  -- The bundle that waits for its answer is for the pin that is in the store.
  pub pinned-Keeps :
      (pin : TrustPin) (purpose : BundleUse) (r : Result PreKeyBundle) (w : World)
      → Encrypts E env
      → trust_pin (address_of purpose).user_id (address_of purpose).device_id w.keys.machine.store
        ≡ some pin
      → IsFor (pinned_answer pin r) w.keys
      → Keeps E w (pinned_bundle_arrived env pin purpose r w)
  unfolding pinned_bundle_arrived pinned_bundle_fetched
  pinned-Keeps pin purpose (failure e) w enc found f =
      bundle_trusted-Keeps purpose (failure e) w enc (λ b h. cc)
  pinned-Keeps pin purpose (success b) w enc found f =
      answer-Keeps (pinned_answer pin (success b)) w _ f (checked _)
    where
      checked :
          (v : Result Bool)
          → Keeps E
              (set_keys env
                (pinned_verified env.host env.crypto.verify_signed_pre_key pin b v w.keys).0
                w)
              (hand_over env
                (bundle_trusted env)
                purpose
                (pinned_verified env.host env.crypto.verify_signed_pre_key pin b v w.keys)
                w)
      checked (failure e) = bundle_trusted-Keeps purpose (failure e) _ enc (λ c h. cc)
      checked (success ok) = elim (Bool-cases (text_eq pin.identity_key b.identity_key)) [
        | inl e ↦ rw e (
            bundle_trusted-Keeps purpose (success b) _ enc (λ c h s. (
              pin,
              found,
              (text_eq_iff pin.identity_key b.identity_key).0 e
                  ∙ ap (λ (t : PreKeyBundle). t.identity_key) (success-injective h),
            )))
        | inr e ↦ rw e (bundle_trusted-Keeps purpose (failure _) _ enc (λ c h. cc))
      ]
