-- ===== src/Services/Runs/Operations.antt =====
-- Each callback and each service advances its operation; and so every operation ends.
use epic_kfc.Base.{
  ℕ, ℤ, QString, Bool, Option, none, some, List, [], ◌∷◌, refl, Bool-cases, inl, inr, arith, All,
  text_eq,
}
use epic_kfc.Models.{
  UserAddress, DeviceKeyMaterial, EncryptedPayload, LocalMessage, TrustPin, Result, success,
  failure, MessageDirection, sent, received, AuthSession,
}
use epic_kfc.Methods.{Machine, save_known_user}
use epic_kfc.Trust.{PreKeyBundle, KeyService, user_saved, verified, compare_pin, pin_saved}
use epic_kfc.Services.{Env, World, Output, BundleUse, send_use, forward_use, event, ask}
use epic_kfc.Services.Session.{logged_in, start_session, logged_out}
use epic_kfc.Services.Keys.{
  trust_address_resolved, trust_bundle_fetched, trusted_bundle, take_cached, fetch_pinned,
  fetch_for_trust, shown, hand_over,
}
use epic_kfc.Services.Lists.{
  listed, conversations_listed_received, conversations_listed_sent, unread_listed, save_messages,
  save_and_reconcile,
}
use epic_kfc.Services.Sending.{
  send_address_resolved, forward_address_resolved, bundle_trusted, copied, encrypted, use_bundle,
  send_to_address, forward_to_address, pinned_bundle_arrived, send_from, forward_found,
  forward_from, forward_plaintext, address_of,
}
use epic_kfc.Services.Runs.Progress.{
  frees, IsBelow, Advances, Below, emit-Advances, call-Advances, saving-Advances, saving-Below,
  then-Advances, then-Below, fail-Advances, crypto-Advances, if-Advances,
}

module _ (env : Env) where
  save_messages-Below :
      {n : ℕ} (ms : List LocalMessage) (w : World) → Below n (save_messages env ms w)
  unfolding save_messages
  save_messages-Below [] w = record { below = tt }
  save_messages-Below (m ∷ ms) w = saving-Below _ _ w (save_messages-Below ms)

  pub reconcile-Below :
      {n : ℕ} (ms : List LocalMessage) (d : MessageDirection) (w : World)
      → Below n (save_and_reconcile env ms d w)
  unfolding save_and_reconcile
  reconcile-Below ms d w =
      then-Below _ _ w (save_messages-Below ms w)
        (λ v. saving-Below _ _ v (λ u. record { below = tt }))

  session_started-Advances :
      (session : AuthSession) (w : World) → Advances 0 (start_session env session w)
  unfolding start_session frees
  session_started-Advances session w = saving-Advances _ _ _ (λ v. emit-Advances refl)

  pub logged_in_reply-Advances :
      (password : QString) (r : Result AuthSession) (w : World)
      → Advances 0 (logged_in env password r w)
  unfolding logged_in
  logged_in_reply-Advances password (failure e) w = fail-Advances
  logged_in_reply-Advances password (success session) w =
      if-Advances env.account_scoped_state
        (saving-Advances _ _ _ (λ v. saving-Advances _ _ _ (session_started-Advances session)))
        (saving-Advances _ _ _ (session_started-Advances session))

  pub logged_out_reply-Advances : (r : Result Bool) (w : World) → Advances 0 (logged_out env r w)
  unfolding logged_out frees
  logged_out_reply-Advances (failure e) w = fail-Advances
  logged_out_reply-Advances (success ok) w = saving-Advances _ _ _ (λ v. emit-Advances refl)

  pub listed-Advances :
      (d : MessageDirection) (r : Result (List LocalMessage)) (w : World)
      → Advances 0 (listed env d r w)
  unfolding listed frees
  listed-Advances d (failure e) w = fail-Advances
  listed-Advances d (success ms) w =
      then-Advances _ _ w (reconcile-Below ms d w) (λ v. emit-Advances refl)

  pub conversations_received-Advances :
      (r : Result (List LocalMessage)) (w : World)
      → Advances 1 (conversations_listed_received env r w)
  unfolding conversations_listed_received
  conversations_received-Advances (failure e) w = fail-Advances
  conversations_received-Advances (success ms) w =
      then-Advances _ _ w (reconcile-Below ms received w) (λ v. call-Advances (omega arith) refl)

  module _ (key_text : QString → ℤ → QString) where
    pub conversations_sent-Advances :
        (r : Result (List LocalMessage)) (w : World)
        → Advances 0 (conversations_listed_sent env key_text r w)
    unfolding conversations_listed_sent frees
    conversations_sent-Advances (failure e) w = fail-Advances
    conversations_sent-Advances (success ms) w =
        then-Advances _ _ w (reconcile-Below ms sent w) (λ v. emit-Advances refl)

    pub unread-Advances :
        (r : Result (List LocalMessage)) (w : World) → Advances 0 (unread_listed env key_text r w)
    unfolding unread_listed frees
    unread-Advances (failure e) w = fail-Advances
    unread-Advances (success ms) w =
        then-Advances _ _ w (reconcile-Below ms received w) (λ v. emit-Advances refl)

  pub trust_address-Advances :
      (r : Result UserAddress) (w : World) → Advances 1 (trust_address_resolved env r w)
  unfolding trust_address_resolved
  trust_address-Advances (failure e) w = fail-Advances
  trust_address-Advances (success address) w =
      saved (save_known_user env.host address w.keys.machine)
    where
      saved :
          (r : Machine × Result Bool)
          → Advances 1 (
              fetch_for_trust env
                (user_saved env.host env.crypto.verify_signed_pre_key address w.keys r)
                w)
      saved (m, success ok) = call-Advances (omega arith) refl
      saved (m, failure e) = fail-Advances

  pub trust_bundle-Advances :
      (address : UserAddress) (r : Result PreKeyBundle) (w : World)
      → Advances 0 (trust_bundle_fetched env address r w)
  unfolding trust_bundle_fetched frees
  trust_bundle-Advances address (failure e) w = fail-Advances
  trust_bundle-Advances address (success b) w = checked (env.crypto.verify_signed_pre_key b)
    where
      saved :
          (pin : TrustPin) (r : Machine × Result Bool)
          → Advances 0
              (shown env (pin_saved env.host env.crypto.verify_signed_pre_key pin b w.keys r) w)
      saved pin (m, success ok) = emit-Advances refl
      saved pin (m, failure e) = fail-Advances

      compared :
          (o : Option TrustPin)
          → Advances 0 (
              shown env
                (compare_pin env.host env.crypto.verify_signed_pre_key address b env.now o w.keys)
                w)
      compared none = saved _ _
      compared (some existing) = elim (Bool-cases (text_eq existing.identity_key b.identity_key)) [
        | inl e ↦ rw e (emit-Advances refl)
        | inr e ↦ rw e (emit-Advances refl)
      ]

      checked :
          (r : Result Bool)
          → Advances 0 (
              shown env
                (verified env.host env.crypto.verify_signed_pre_key address b env.now r w.keys)
                w)
      checked (failure e) = crypto-Advances
      checked (success ok) = compared _

  bundle_trusted-Advances :
      (purpose : BundleUse) (r : Result PreKeyBundle) (w : World)
      → Advances 1 (bundle_trusted env purpose r w)
  unfolding bundle_trusted
  bundle_trusted-Advances purpose (failure e) w = fail-Advances
  bundle_trusted-Advances purpose (success b) w = with_payload _
    where
      asked :
          (purpose : BundleUse) (payload : EncryptedPayload) (copy : QString)
          → Advances 1 (copied env purpose payload (success copy) w)
      asked (send_use address plaintext device) payload copy = call-Advances (omega arith) refl
      asked (forward_use id address plaintext device) payload copy =
          call-Advances (omega arith) refl

      with_copy :
          (payload : EncryptedPayload) (r : Result QString)
          → Advances 1 (copied env purpose payload r w)
      with_copy payload (failure e) = crypto-Advances
      with_copy payload (success copy) = asked purpose payload copy

      with_payload : (r : Result EncryptedPayload) → Advances 1 (encrypted env purpose r w)
      with_payload (failure e) = crypto-Advances
      with_payload (success payload) = with_copy payload _

  pub pinned-Advances :
      (pin : TrustPin) (purpose : BundleUse) (r : Result PreKeyBundle) (w : World)
      → Advances 1 (pinned_bundle_arrived env pin purpose r w)
  unfolding pinned_bundle_arrived
  pinned-Advances pin purpose r w = handed _
    where
      handed :
          (out : KeyService × Result PreKeyBundle)
          → Advances 1 (hand_over env (bundle_trusted env) purpose out w)
      handed (k, r) = bundle_trusted-Advances purpose r _

  -- with a bundle from the cache the operation has one call less before it
  pub wider : {out : World × List Output} → Advances 1 out → Advances 2 out
  wider {out} h = record { below = all out.1 h.below; alive = h.alive }
    where
      all : (os : List Output) → All (IsBelow 1) os → All (IsBelow 2) os
      all [] t = tt
      all (event e ∷ os) t = (tt, all os t.1)
      all (ask r p ∷ os) t = ((omega (arith, t.0.0), t.0.1), all os t.1)

  use_bundle-Advances : (purpose : BundleUse) (w : World) → Advances 2 (use_bundle env purpose w)
  unfolding trusted_bundle
  use_bundle-Advances purpose w = cached_or _
    where
      pinned :
          (o : Option TrustPin)
          → Advances 2 (
              fetch_pinned env
                (bundle_trusted env)
                (address_of purpose).user_id
                (address_of purpose).device_id
                purpose
                o
                w)
      pinned none = wider (bundle_trusted-Advances purpose (failure _) w)
      pinned (some pin) = call-Advances (omega arith) refl

      cached_or :
          (r : Result PreKeyBundle)
          → Advances 2 (
              take_cached env
                (bundle_trusted env)
                (address_of purpose).user_id
                (address_of purpose).device_id
                purpose
                r
                w)
      cached_or (success b) = wider (bundle_trusted-Advances purpose (success b) w)
      cached_or (failure e) = pinned _

  pub send_address-Advances :
      (plaintext : QString) (r : Result UserAddress) (w : World)
      → Advances 2 (send_address_resolved env plaintext r w)
  unfolding send_address_resolved send_to_address
  send_address-Advances plaintext (failure e) w = fail-Advances
  send_address-Advances plaintext (success address) w = saving-Advances _ _ _ (λ v. from v _)
    where
      from :
          (v : World) (r : Result DeviceKeyMaterial)
          → Advances 2 (send_from env address plaintext r v)
      from v (failure e) = fail-Advances
      from v (success device) = use_bundle-Advances (send_use address plaintext device) v

  pub forward_address-Advances :
      (id : QString) (r : Result UserAddress) (w : World)
      → Advances 2 (forward_address_resolved env id r w)
  unfolding forward_address_resolved forward_to_address
  forward_address-Advances id (failure e) w = fail-Advances
  forward_address-Advances id (success address) w = saving-Advances _ _ _ (λ v. found v _)
    where
      decrypted :
          (v : World) (device : DeviceKeyMaterial) (r : Result QString)
          → Advances 2 (forward_plaintext env id address device r v)
      decrypted v device (failure e) = crypto-Advances
      decrypted v device (success plaintext) =
          use_bundle-Advances (forward_use id address plaintext device) v

      from :
          (v : World) (m : LocalMessage) (r : Result DeviceKeyMaterial)
          → Advances 2 (forward_from env id address m r v)
      from v m (failure e) = fail-Advances
      from v m (success device) = decrypted v device _

      found : (v : World) (o : Option LocalMessage) → Advances 2 (forward_found env id address o v)
      found v none = fail-Advances
      found v (some m) = from v m _
