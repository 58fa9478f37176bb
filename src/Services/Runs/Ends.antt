-- ===== src/Services/Runs/Ends.antt =====
-- Every operation of the services ends, whatever the gateways answer.
use epic_kfc.Base.{
  ℤ, QString, Bool, true, false, not, text, Option, none, some, List, [], refl, arith,
  if◌then◌else◌, is_empty,
}
use epic_kfc.Models.{
  UserAddress, DeviceKeyMaterial, LocalMessage, BlockchainAnchor, BlockchainVerification, Result,
  success, failure, UserProfile, sent, received,
}
use epic_kfc.Store.Messages.{messages_with_peer}
use epic_kfc.Services.{
  Env, World, Request, call, ◌then◌, store_of, current_user_id, verification_reply,
}
use epic_kfc.Services.Session.{user_registered}
use epic_kfc.Services.Lists.{revoked, deleted}
use epic_kfc.Services.Sending.{
  message_sent, message_forwarded, download, download_path_for_message, download_found,
  download_from, download_plaintext,
}
use epic_kfc.Services.Reading.{
  read_address_resolved, read_listed_received, read_listed_sent, open_conversation_from_cache,
  open_with,
}
use epic_kfc.Services.Anchors.{
  anchor_fetched, anchor_verified_reply, judge_anchor, fall_back, fidelity, is_not_found,
}
use epic_kfc.Texts.{
  anchor_pending, anchor_failed, anchor_mismatch, anchor_verified, anchor_verified_with_transaction,
}
use epic_kfc.Services.Runs.Operations.{reconcile-Below}
use epic_kfc.Services.Runs.Progress.{
  frees, Advances, emit-Advances, call-Advances, saving-Advances, then-Advances, fail-Advances,
  crypto-Advances, if-Advances,
}

module _ (env : Env) where
  pub registered-Advances : (r : Result UserProfile) (w : World) → Advances 0 (user_registered r w)
  unfolding user_registered frees
  registered-Advances (failure e) w = fail-Advances
  registered-Advances (success user) w = emit-Advances refl

  pub sent-Advances :
      (copy : QString) (r : Result LocalMessage) (w : World)
      → Advances 0 (message_sent env copy r w)
  unfolding message_sent frees
  sent-Advances copy (failure e) w = fail-Advances
  sent-Advances copy (success m) w = saving-Advances _ _ _ (λ v. emit-Advances refl)

  pub forwarded-Advances :
      (copy : QString) (r : Result LocalMessage) (w : World)
      → Advances 0 (message_forwarded env copy r w)
  unfolding message_forwarded frees
  forwarded-Advances copy (failure e) w = fail-Advances
  forwarded-Advances copy (success m) w = saving-Advances _ _ _ (λ v. emit-Advances refl)

  pub revoked-Advances :
      (id : QString) (r : Result LocalMessage) (w : World) → Advances 0 (revoked env id r w)
  unfolding revoked frees
  revoked-Advances id (failure e) w = fail-Advances
  revoked-Advances id (success m) w = saving-Advances _ _ _ (λ v. emit-Advances refl)

  pub deleted-Advances :
      (id : QString) (r : Result Bool) (w : World) → Advances 0 (deleted env id r w)
  unfolding deleted frees
  deleted-Advances id (failure e) w = fail-Advances
  deleted-Advances id (success ok) w = saving-Advances _ _ _ (λ v. emit-Advances refl)

  pub read_address-Advances :
      (username : QString) (page : ℤ) (r : Result UserAddress) (w : World)
      → Advances 2 (read_address_resolved env username page r w)
  unfolding read_address_resolved
  read_address-Advances username page (failure e) w = fail-Advances
  read_address-Advances username page (success address) w =
      saving-Advances _ _ _ (λ v. call-Advances (omega arith) refl)

  pub read_received-Advances :
      (address : UserAddress) (username : QString) (page : ℤ) (r : Result (List LocalMessage))
      (w : World)
      → Advances 1 (read_listed_received env address username page r w)
  unfolding read_listed_received
  read_received-Advances address username page (failure e) w = fail-Advances
  read_received-Advances address username page (success ms) w =
      then-Advances _ _ w (reconcile-Below env ms received w)
        (λ v. call-Advances (omega arith) refl)

  pub opened-Advances :
      (address : UserAddress) (username : QString) (page : ℤ) (w : World)
      → Advances 0 (open_conversation_from_cache env address username page w)
  unfolding open_conversation_from_cache frees
  opened-Advances address username page w =
      if-Advances (is_empty (messages_with_peer (current_user_id w) address.user_id (store_of w)))
        fail-Advances (opened _)
    where
      opened :
          (r : Result DeviceKeyMaterial)
          → Advances 0 (
              open_with env address username page
                (messages_with_peer (current_user_id w) address.user_id (store_of w))
                r
                w)
      opened (failure e) = fail-Advances
      opened (success device) = saving-Advances _ _ _ (λ v. emit-Advances refl)

  pub read_sent-Advances :
      (address : UserAddress) (username : QString) (page : ℤ) (r : Result (List LocalMessage))
      (w : World)
      → Advances 0 (read_listed_sent env address username page r w)
  unfolding read_listed_sent
  read_sent-Advances address username page (failure e) w = fail-Advances
  read_sent-Advances address username page (success ms) w =
      then-Advances _ _ w (reconcile-Below env ms sent w) (opened-Advances address username page)

  pub judged-Advances :
      (id : QString) (anchor : BlockchainAnchor) (w : World)
      → Advances 1 (judge_anchor env id anchor w)
  unfolding judge_anchor frees
  judged-Advances id anchor w = judged _ _ _
    where
      judged :
          (a b c : Bool)
          → Advances 1 (
              (if a
                  then fidelity id (anchor_failed id anchor.chain)
                  else if b
                  then fidelity id (anchor_pending id anchor.status anchor.chain)
                  else if c
                  then fidelity id (anchor_pending id (text "pending") anchor.chain)
                  else call (Request.verify_anchor [] anchor) (verification_reply id))
                w)
      judged true b c = emit-Advances refl
      judged false true c = emit-Advances refl
      judged false false true = emit-Advances refl
      judged false false false = call-Advances (omega arith) refl

  pub anchor-Advances :
      (id : QString) (r : Result BlockchainAnchor) (w : World)
      → Advances 1 (anchor_fetched env id r w)
  unfolding anchor_fetched frees
  anchor-Advances id (failure e) w =
      if-Advances (is_not_found e.code) (emit-Advances refl) (fallen _)
    where
      fallen : (o : Option BlockchainAnchor) → Advances 1 (fall_back id e o w)
      fallen none = fail-Advances
      fallen (some anchor) = call-Advances (omega arith) refl
  anchor-Advances id (success anchor) w = judged-Advances id anchor _

  pub verification-Advances :
      (id : QString) (r : Result BlockchainVerification) (w : World)
      → Advances 0 (anchor_verified_reply env id r w)
  unfolding anchor_verified_reply frees
  verification-Advances id (failure e) w = fail-Advances
  verification-Advances id (success v) w = shown_as _ _ _
    where
      shown_as :
          (a b c : Bool)
          → Advances 0 (
              (if a
                  then fidelity id (anchor_mismatch id)
                  else if b
                  then fidelity id (anchor_pending id v.status v.chain)
                  else if c
                  then fidelity id
                      (anchor_verified_with_transaction id v.chain v.status v.transaction_hash)
                  else fidelity id (anchor_verified id v.chain v.status))
                w)
      shown_as true b c = emit-Advances refl
      shown_as false true c = emit-Advances refl
      shown_as false false true = emit-Advances refl
      shown_as false false false = emit-Advances refl

  pub download-Advances : (id : QString) (w : World) → Advances 3 (download env id w)
  unfolding download frees
  download-Advances id w = found _
    where
      decrypted : (r : Result QString) → Advances 3 (download_plaintext env id r w)
      decrypted (failure e) = crypto-Advances
      decrypted (success plaintext) =
          if-Advances (not (env.host.can_write (download_path_for_message env id))) fail-Advances
            (emit-Advances refl)

      from :
          (m : LocalMessage) (r : Result DeviceKeyMaterial)
          → Advances 3 (download_from env id m r w)
      from m (failure e) = fail-Advances
      from m (success device) = decrypted _

      found : (o : Option LocalMessage) → Advances 3 (download_found env id o w)
      found none = fail-Advances
      found (some m) = from m _
