-- ===== src/Services/Sealed/Uses.antt =====
-- The steps that use a bundle, the answers to what was sent, and the checks of anchors.
use epic_kfc.Base.{
  ℤ, QString, text, Bool, true, false, not, Option, none, some, List, [], ◌∷◌, ◌≡◌, refl, ◌∙◌,
  if◌then◌else◌,
}
use epic_kfc.Models.{
  UserAddress, DeviceKeyMaterial, LocalMessage, TrustPin, BlockchainAnchor, BlockchainVerification,
  Result, success, failure,
}
use epic_kfc.Events.{Event}
use epic_kfc.Texts.{
  anchor_pending, anchor_failed, anchor_mismatch, anchor_verified, anchor_verified_with_transaction,
}
use epic_kfc.Store.Tables.{trust_pin}
use epic_kfc.Trust.{PreKeyBundle, cached, cached_bundle}
use epic_kfc.Trust.Cached.{cached-IsPinned}
use epic_kfc.Services.{
  Env, World, Request, BundleUse, send_use, forward_use, event, call, store_of, verification_reply,
}
use epic_kfc.Services.Keys.{trusted_bundle, take_cached, fetch_pinned}
use epic_kfc.Services.Sending.{
  send_address_resolved, message_sent, forward_address_resolved, message_forwarded, bundle_trusted,
  use_bundle, send_to_address, forward_to_address, download, address_of, send_from, forward_found,
  forward_from, forward_plaintext, download_found, download_from, download_plaintext,
  download_path_for_message,
}
use epic_kfc.Services.Anchors.{
  anchor_fetched, anchor_verified_reply, judge_anchor, fall_back, fidelity, is_not_found,
  keep_anchor,
}
use epic_kfc.Services.Sealed.{
  Keeps, emit-Keeps, call-Keeps, if-Keeps, trans-Keeps, machine-Keeps, saving-Keeps,
}
use epic_kfc.Services.Sealed.Pins.{user-KeepsPins, message-KeepsPins}
use epic_kfc.Services.Sealed.Sends.{Encrypts, bundle_trusted-Keeps}

module _ (E : PreKeyBundle → QString → Type 0) (env : Env) where
  use_bundle-Keeps :
      (purpose : BundleUse) (w : World) → Encrypts E env → Keeps E w (use_bundle env purpose w)
  unfolding trusted_bundle cached_bundle
  use_bundle-Keeps purpose w enc = cached_or _ refl
    where
      user : QString
      user = (address_of purpose).user_id

      device : ℤ
      device = (address_of purpose).device_id

      pinned :
          (o : Option TrustPin)
          → trust_pin user device (store_of w) ≡ o
          → Keeps E w (fetch_pinned env (bundle_trusted env) user device purpose o w)
      pinned none h = bundle_trusted-Keeps E env purpose (failure _) w enc (λ b e. cc)
      pinned (some pin) h = call-Keeps E (λ s. tt) h

      cached_or :
          (r : Result PreKeyBundle)
          → cached env.host env.crypto.verify_signed_pre_key user device w.keys.last_trusted_bundle
            ≡ r
          → Keeps E w (take_cached env (bundle_trusted env) user device purpose r w)
      cached_or (success b) h = bundle_trusted-Keeps E env purpose (success b) w enc (λ c e s.
          cached-IsPinned env.host env.crypto.verify_signed_pre_key user device
            w.keys.last_trusted_bundle c w.keys.machine s (h ∙ e))
      cached_or (failure e) h = pinned _ refl

  pub send_address-Keeps :
      (plaintext : QString) (r : Result UserAddress) (w : World)
      → Encrypts E env
      → Keeps E w (send_address_resolved env plaintext r w)
  unfolding send_address_resolved send_to_address
  send_address-Keeps plaintext (failure e) w enc = emit-Keeps E
  send_address-Keeps plaintext (success address) w enc =
      saving-Keeps E _ _ w (user-KeepsPins env.host address w.keys.machine) (λ v. from v _)
    where
      from :
          (v : World) (r : Result DeviceKeyMaterial)
          → Keeps E v (send_from env address plaintext r v)
      from v (failure e) = emit-Keeps E
      from v (success device) = use_bundle-Keeps (send_use address plaintext device) v enc

  pub forward_address-Keeps :
      (id : QString) (r : Result UserAddress) (w : World)
      → Encrypts E env
      → Keeps E w (forward_address_resolved env id r w)
  unfolding forward_address_resolved forward_to_address
  forward_address-Keeps id (failure e) w enc = emit-Keeps E
  forward_address-Keeps id (success address) w enc =
      saving-Keeps E _ _ w (user-KeepsPins env.host address w.keys.machine) (λ v. found v _)
    where
      decrypted :
          (v : World) (device : DeviceKeyMaterial) (r : Result QString)
          → Keeps E v (forward_plaintext env id address device r v)
      decrypted v device (failure e) = emit-Keeps E
      decrypted v device (success plaintext) =
          use_bundle-Keeps (forward_use id address plaintext device) v enc

      from :
          (v : World) (m : LocalMessage) (r : Result DeviceKeyMaterial)
          → Keeps E v (forward_from env id address m r v)
      from v m (failure e) = emit-Keeps E
      from v m (success device) = decrypted v device _

      found : (v : World) (o : Option LocalMessage) → Keeps E v (forward_found env id address o v)
      found v none = emit-Keeps E
      found v (some m) = from v m _

  pub sent-Keeps :
      (copy : QString) (r : Result LocalMessage) (w : World) → Keeps E w (message_sent env copy r w)
  unfolding message_sent
  sent-Keeps copy (failure e) w = emit-Keeps E
  sent-Keeps copy (success m) w =
      saving-Keeps E _ _ w (message-KeepsPins env.host _ w.keys.machine) (λ v. emit-Keeps E)

  pub forwarded-Keeps :
      (copy : QString) (r : Result LocalMessage) (w : World)
      → Keeps E w (message_forwarded env copy r w)
  unfolding message_forwarded
  forwarded-Keeps copy (failure e) w = emit-Keeps E
  forwarded-Keeps copy (success m) w =
      saving-Keeps E _ _ w (message-KeepsPins env.host _ w.keys.machine) (λ v. emit-Keeps E)

  pub download-Keeps : (id : QString) (w : World) → Keeps E w (download env id w)
  unfolding download
  download-Keeps id w = found _
    where
      written :
          (d : List (QString × QString)) (e : Event)
          → Keeps E w (record w { downloads = d }, event e ∷ [])
      written d e = record { pins = λ u d p h. h; sound = λ s. s; fine = λ s. (tt, tt) }

      decrypted : (r : Result QString) → Keeps E w (download_plaintext env id r w)
      decrypted (failure e) = emit-Keeps E
      decrypted (success plaintext) =
          if-Keeps E (not (env.host.can_write (download_path_for_message env id))) (emit-Keeps E)
            (written _ _)

      from :
          (m : LocalMessage) (r : Result DeviceKeyMaterial) → Keeps E w (download_from env id m r w)
      from m (failure e) = emit-Keeps E
      from m (success device) = decrypted _

      found : (o : Option LocalMessage) → Keeps E w (download_found env id o w)
      found none = emit-Keeps E
      found (some m) = from m _

  judged-Keeps :
      (id : QString) (anchor : BlockchainAnchor) (w : World)
      → Keeps E w (judge_anchor env id anchor w)
  unfolding judge_anchor
  judged-Keeps id anchor w = judged _ _ _
    where
      judged :
          (a b c : Bool)
          → Keeps E w (
              (if a
                  then fidelity id (anchor_failed id anchor.chain)
                  else if b
                  then fidelity id (anchor_pending id anchor.status anchor.chain)
                  else if c
                  then fidelity id (anchor_pending id (text "pending") anchor.chain)
                  else call (Request.verify_anchor [] anchor) (verification_reply id))
                w)
      judged true b c = emit-Keeps E
      judged false true c = emit-Keeps E
      judged false false true = emit-Keeps E
      judged false false false = call-Keeps E (λ s. tt) tt

  pub anchor-Keeps :
      (id : QString) (r : Result BlockchainAnchor) (w : World)
      → Keeps E w (anchor_fetched env id r w)
  unfolding anchor_fetched
  anchor-Keeps id (failure e) w = if-Keeps E (is_not_found e.code) (emit-Keeps E) (fallen _)
    where
      fallen : (o : Option BlockchainAnchor) → Keeps E w (fall_back id e o w)
      fallen none = emit-Keeps E
      fallen (some anchor) = call-Keeps E (λ s. tt) tt
  anchor-Keeps id (success anchor) w = kept _
    where
      kept :
          (o : Option LocalMessage)
          → Keeps E w (judge_anchor env id anchor (keep_anchor env anchor o w))
      kept none = judged-Keeps id anchor w
      kept (some m) =
          trans-Keeps E w _ [] _ (machine-Keeps E w _ (message-KeepsPins env.host _ w.keys.machine))
            (judged-Keeps id anchor _)

  pub verification-Keeps :
      (id : QString) (r : Result BlockchainVerification) (w : World)
      → Keeps E w (anchor_verified_reply env id r w)
  unfolding anchor_verified_reply
  verification-Keeps id (failure e) w = emit-Keeps E
  verification-Keeps id (success v) w = shown_as _ _ _
    where
      shown_as :
          (a b c : Bool)
          → Keeps E w (
              (if a
                  then fidelity id (anchor_mismatch id)
                  else if b
                  then fidelity id (anchor_pending id v.status v.chain)
                  else if c
                  then fidelity id
                      (anchor_verified_with_transaction id v.chain v.status v.transaction_hash)
                  else fidelity id (anchor_verified id v.chain v.status))
                w)
      shown_as true b c = emit-Keeps E
      shown_as false true c = emit-Keeps E
      shown_as false false true = emit-Keeps E
      shown_as false false false = emit-Keeps E
