-- ===== src/Services/Sealed/Steps.antt =====
-- The steps that send nothing keep the pins, and what was sent and is waited for.
use epic_kfc.Base.{ℤ, QString, Bool, Option, none, List, [], ◌∷◌, is_empty}
use epic_kfc.Models.{
  UserProfile, AuthSession, UserAddress, DeviceKeyMaterial, OneTimePreKey, LocalMessage,
  MessageDirection, sent, received, Result, success, failure,
}
use epic_kfc.Store.Tables.{load_one_time_pre_keys, trust_pin, clear_secret_passphrase}
use epic_kfc.Store.Messages.{messages_with_peer}
use epic_kfc.Trust.{PreKeyBundle}
use epic_kfc.Services.{Env, World, Output, store_of, current_user_id}
use epic_kfc.Services.Session.{user_registered, logged_out, set_session, session_cleared}
use epic_kfc.Services.Keys.{
  ensure_device_keys_uploaded, device_made, upload_one_time_pre_keys, pre_keys_made,
  device_keys_upserted, pre_keys_uploaded, is_already_uploaded_pre_key_error,
}
use epic_kfc.Services.Lists.{
  save_messages, save_and_reconcile, listed, conversations_listed_received,
  conversations_listed_sent, unread_listed, revoked, deleted,
}
use epic_kfc.Services.Reading.{
  read_address_resolved, read_listed_received, read_listed_sent, open_conversation_from_cache,
  open_with,
}
use epic_kfc.Services.Sealed.{
  Keeps, emit-Keeps, call-Keeps, if-Keeps, cache-KeepsPins, saving-Keeps, then-Keeps,
  logged_in-Keeps,
}
use epic_kfc.Services.Sealed.Pins.{
  clear-KeepsPins, device-KeepsPins, pre_keys-KeepsPins, user-KeepsPins, message-KeepsPins,
  reconcile-KeepsPins, read-KeepsPins, delete-KeepsPins,
}

module _ (E : PreKeyBundle → QString → Type 0) (env : Env) where
  pub registered-Keeps : (r : Result UserProfile) (w : World) → Keeps E w (user_registered r w)
  unfolding user_registered
  registered-Keeps (failure e) w = emit-Keeps E
  registered-Keeps (success user) w = emit-Keeps E

  -- the session is no part of what is kept
  session_changed-Keeps :
      (s : Option AuthSession) (w : World) (out : World × List Output)
      → Keeps E (set_session s w) out
      → Keeps E w out
  session_changed-Keeps s w out h = record { pins = h.pins; sound = h.sound; fine = h.fine }

  cleared-Keeps : (w : World) → Keeps E w (session_cleared env w)
  unfolding clear_secret_passphrase trust_pin
  cleared-Keeps w = record {
    pins = λ u d p h. h;
    sound = λ s. cache-KeepsPins w.keys.last_trusted_bundle w.keys.machine _ (λ u d p h. h) s;
    fine = λ s. (tt, tt);
  }

  pub logged_out-Keeps : (r : Result Bool) (w : World) → Keeps E w (logged_out env r w)
  unfolding logged_out
  logged_out-Keeps (failure e) w = emit-Keeps E
  logged_out-Keeps (success ok) w = session_changed-Keeps none w _ (
      saving-Keeps E _ (session_cleared env) (set_session none w)
        (clear-KeepsPins env.host w.keys.machine) cleared-Keeps)

  pub ensured-Keeps : (w : World) → Keeps E w (ensure_device_keys_uploaded env w)
  unfolding ensure_device_keys_uploaded
  ensured-Keeps w = logged_in-Keeps E _ w (λ v. made v _)
    where
      made : (v : World) (r : Result DeviceKeyMaterial) → Keeps E v (device_made env r v)
      made v (failure e) = emit-Keeps E
      made v (success device) =
          saving-Keeps E _ _ v (device-KeepsPins env.host device v.keys.machine)
            (λ u. call-Keeps E (λ s. tt) tt)

  pub upserted-Keeps : (r : Result Bool) (w : World) → Keeps E w (device_keys_upserted env r w)
  unfolding device_keys_upserted upload_one_time_pre_keys
  upserted-Keeps (failure e) w = emit-Keeps E
  upserted-Keeps (success ok) w =
      then-Keeps E _ _ w
        (if-Keeps E (is_empty (load_one_time_pre_keys env.device_id (store_of w))) (made _)
          (call-Keeps E (λ s. tt) tt))
        (λ v. emit-Keeps E)
    where
      made : (r : Result (List OneTimePreKey)) → Keeps E w (pre_keys_made env r w)
      made (failure e) = emit-Keeps E
      made (success keys) =
          saving-Keeps E _ _ w (pre_keys-KeepsPins env.host keys w.keys.machine)
            (λ v. call-Keeps E (λ s. tt) tt)

  nothing-Keeps : {w : World} → Keeps E w (w, [])
  nothing-Keeps = record { pins = λ u d p h. h; sound = λ s. s; fine = λ s. tt }

  pub uploaded-Keeps : (r : Result Bool) (w : World) → Keeps E w (pre_keys_uploaded env r w)
  unfolding pre_keys_uploaded
  uploaded-Keeps (failure e) w =
      if-Keeps E (is_already_uploaded_pre_key_error env e) nothing-Keeps (emit-Keeps E)
  uploaded-Keeps (success ok) w = nothing-Keeps

  saved-Keeps : (ms : List LocalMessage) (w : World) → Keeps E w (save_messages env ms w)
  unfolding save_messages
  saved-Keeps [] w = nothing-Keeps
  saved-Keeps (m ∷ ms) w =
      saving-Keeps E _ _ w (message-KeepsPins env.host m w.keys.machine) (saved-Keeps ms)

  synced-Keeps :
      (ms : List LocalMessage) (d : MessageDirection) (w : World)
      → Keeps E w (save_and_reconcile env ms d w)
  unfolding save_and_reconcile
  synced-Keeps ms d w = then-Keeps E _ _ w (saved-Keeps ms w) (λ v.
      saving-Keeps E _ _ v (reconcile-KeepsPins env.host _ _ d _ v.keys.machine)
        (λ u. nothing-Keeps))

  pub listed-Keeps :
      (d : MessageDirection) (r : Result (List LocalMessage)) (w : World)
      → Keeps E w (listed env d r w)
  unfolding listed
  listed-Keeps d (failure e) w = emit-Keeps E
  listed-Keeps d (success ms) w = then-Keeps E _ _ w (synced-Keeps ms d w) (λ v. emit-Keeps E)

  pub conversations_received-Keeps :
      (r : Result (List LocalMessage)) (w : World)
      → Keeps E w (conversations_listed_received env r w)
  unfolding conversations_listed_received
  conversations_received-Keeps (failure e) w = emit-Keeps E
  conversations_received-Keeps (success ms) w =
      then-Keeps E _ _ w (synced-Keeps ms received w) (λ v. call-Keeps E (λ s. tt) tt)

  module _ (key_text : QString → ℤ → QString) where
    pub conversations_sent-Keeps :
        (r : Result (List LocalMessage)) (w : World)
        → Keeps E w (conversations_listed_sent env key_text r w)
    unfolding conversations_listed_sent
    conversations_sent-Keeps (failure e) w = emit-Keeps E
    conversations_sent-Keeps (success ms) w =
        then-Keeps E _ _ w (synced-Keeps ms sent w) (λ v. emit-Keeps E)

    pub unread-Keeps :
        (r : Result (List LocalMessage)) (w : World) → Keeps E w (unread_listed env key_text r w)
    unfolding unread_listed
    unread-Keeps (failure e) w = emit-Keeps E
    unread-Keeps (success ms) w =
        then-Keeps E _ _ w (synced-Keeps ms received w) (λ v. emit-Keeps E)

  pub revoked-Keeps :
      (id : QString) (r : Result LocalMessage) (w : World) → Keeps E w (revoked env id r w)
  unfolding revoked
  revoked-Keeps id (failure e) w = emit-Keeps E
  revoked-Keeps id (success m) w =
      saving-Keeps E _ _ w (message-KeepsPins env.host m w.keys.machine) (λ v. emit-Keeps E)

  pub deleted-Keeps : (id : QString) (r : Result Bool) (w : World) → Keeps E w (deleted env id r w)
  unfolding deleted
  deleted-Keeps id (failure e) w = emit-Keeps E
  deleted-Keeps id (success ok) w =
      saving-Keeps E _ _ w (delete-KeepsPins env.host _ _ id w.keys.machine) (λ v. emit-Keeps E)

  pub read_address-Keeps :
      (username : QString) (page : ℤ) (r : Result UserAddress) (w : World)
      → Keeps E w (read_address_resolved env username page r w)
  unfolding read_address_resolved
  read_address-Keeps username page (failure e) w = emit-Keeps E
  read_address-Keeps username page (success address) w =
      saving-Keeps E _ _ w (user-KeepsPins env.host address w.keys.machine)
        (λ v. call-Keeps E (λ s. tt) tt)

  pub read_received-Keeps :
      (address : UserAddress) (username : QString) (page : ℤ) (r : Result (List LocalMessage))
      (w : World)
      → Keeps E w (read_listed_received env address username page r w)
  unfolding read_listed_received
  read_received-Keeps address username page (failure e) w = emit-Keeps E
  read_received-Keeps address username page (success ms) w =
      then-Keeps E _ _ w (synced-Keeps ms received w) (λ v. call-Keeps E (λ s. tt) tt)

  opened-Keeps :
      (address : UserAddress) (username : QString) (page : ℤ) (w : World)
      → Keeps E w (open_conversation_from_cache env address username page w)
  unfolding open_conversation_from_cache
  opened-Keeps address username page w =
      if-Keeps E (is_empty (messages_with_peer (current_user_id w) address.user_id (store_of w)))
        (emit-Keeps E) (opened _)
    where
      opened :
          (r : Result DeviceKeyMaterial)
          → Keeps E w (
              open_with env address username page
                (messages_with_peer (current_user_id w) address.user_id (store_of w))
                r
                w)
      opened (failure e) = emit-Keeps E
      opened (success device) =
          saving-Keeps E _ _ w (read-KeepsPins env.host _ _ _ w.keys.machine) (λ v. emit-Keeps E)

  pub read_sent-Keeps :
      (address : UserAddress) (username : QString) (page : ℤ) (r : Result (List LocalMessage))
      (w : World)
      → Keeps E w (read_listed_sent env address username page r w)
  unfolding read_listed_sent
  read_sent-Keeps address username page (failure e) w = emit-Keeps E
  read_sent-Keeps address username page (success ms) w =
      then-Keeps E _ _ w (synced-Keeps ms sent w) (opened-Keeps address username page)
