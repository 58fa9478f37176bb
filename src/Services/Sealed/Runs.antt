-- ===== src/Services/Sealed/Runs.antt =====
-- Whole runs of the services: calls of the controller and answers of the gateways, in any order.
use epic_kfc.Base.{ℤ, QString, true, false, List, [], ◌∷◌, ◌++◌, ◌≡◌, All, All-append}
use epic_kfc.Models.{UserAddress, Result, success, failure, sent, received}
use epic_kfc.Events.{ServiceCall}
use epic_kfc.Methods.{Machine}
use epic_kfc.Trust.{PreKeyBundle}
use epic_kfc.Trust.Cached.{IsSound}
use epic_kfc.Services.{
  Env, World, Pending, Reply, Output, event, ask, register_reply, login_reply, logout_reply,
  upsert_reply, upload_reply, trust_address, trust_bundle, received_list, sent_list,
  conversations_received, conversations_sent, unread_received, send_address, forward_address,
  pinned_bundle, sent_reply, forwarded_reply, read_address, read_received, read_sent, revoke_reply,
  delete_reply, anchor_reply, verification_reply,
}
use epic_kfc.Services.Session.{initial_world, register_user, login, logout, logged_in}
use epic_kfc.Services.Keys.{trust_username}
use epic_kfc.Services.Lists.{
  list_received, list_sent, list_conversations, list_unread_senders, revoke, delete_message,
}
use epic_kfc.Services.Sending.{send, forward, address_of}
use epic_kfc.Services.Reading.{read}
use epic_kfc.Services.Anchors.{verify}
use epic_kfc.Services.Runs.{answer, serve}
use epic_kfc.Services.Sealed.{
  Keeps, IsFine, IsSealedRequest, IsPinnedWait, KeepsPins, wait-KeepsPins, IsFine-KeepsPins,
  emit-Keeps, call-Keeps, logged_in-Keeps,
}
use epic_kfc.Services.Sealed.Steps.{
  registered-Keeps, logged_out-Keeps, ensured-Keeps, upserted-Keeps, uploaded-Keeps, listed-Keeps,
  conversations_received-Keeps, conversations_sent-Keeps, unread-Keeps, revoked-Keeps,
  deleted-Keeps, read_address-Keeps, read_received-Keeps, read_sent-Keeps,
}
use epic_kfc.Services.Sealed.Sends.{Encrypts, trust_address-Keeps, trust_bundle-Keeps, pinned-Keeps}
use epic_kfc.Services.Sealed.Uses.{
  send_address-Keeps, forward_address-Keeps, sent-Keeps, forwarded-Keeps, download-Keeps,
  anchor-Keeps, verification-Keeps,
}

-- the services, the callbacks that wait, and what was put out so far
pub record System : Type 0 where
  pub world : World
  pub waiting : List Pending
  pub trace : List Output

abbrev pub asked : List Output → List Pending
asked [] = []
asked (event e ∷ os) = asked os
asked (ask r p ∷ os) = p ∷ asked os

abbrev pub advance : World × List Output → List Pending → List Output → System
advance out waiting trace = record {
  world = out.0;
  waiting = waiting ++ asked out.1;
  trace = trace ++ out.1;
}

abbrev IsBundleFor : UserAddress → Result PreKeyBundle → Type 0
IsBundleFor address (failure e) = Unit
IsBundleFor address (success b) = (b.user_id ≡ address.user_id) × (b.device_id ≡ address.device_id)

-- a bundle that arrives is for the address that was asked for, and no login succeeds: a login
-- loads the file of another account, with its own pins
abbrev pub IsExpected : (p : Pending) → Reply p → Type 0
IsExpected (login_reply password) (failure e) = Unit
IsExpected (login_reply password) (success session) = true ≡ false
IsExpected (trust_bundle address) r = IsBundleFor address r
IsExpected (pinned_bundle pin purpose) r = IsBundleFor (address_of purpose) r
IsExpected _ r = Unit

-- what can come of services that were started with the session of a machine
pub data Runs (key_text : QString → ℤ → QString) : System → Type 0 where
  opened :
      (m : Machine) → Runs key_text (record { world = initial_world m; waiting = []; trace = [] })
  served :
      (env : Env) (c : ServiceCall) (s : System)
      → Runs key_text s
      → Runs key_text (advance (serve key_text env c s.world) s.waiting s.trace)
  answered :
      (env : Env) (before after : List Pending) (p : Pending) (r : Reply p) (w : World)
      (trace : List Output)
      → Runs key_text (record { world = w; waiting = before ++ p ∷ after; trace = trace })
      → Runs key_text (advance (answer key_text env p r w) (before ++ after) trace)

module _ (E : PreKeyBundle → QString → Type 0) (key_text : QString → ℤ → QString) where
  -- every provider of the run encrypts for the bundle that it is given, and every answer is
  -- expected
  abbrev pub IsHonest : {s : System} → Runs key_text s → Type 0
  IsHonest (opened m) = Unit
  IsHonest (served env c s run) = Encrypts E env × IsHonest run
  IsHonest (answered env before after p r w trace run) =
      Encrypts E env × IsExpected p r × IsHonest run

  answer-Keeps :
      (env : Env) (p : Pending) (r : Reply p) (w : World)
      → Encrypts E env
      → IsExpected p r
      → IsPinnedWait E p w.keys.machine
      → Keeps E w (answer key_text env p r w)
  unfolding logged_in
  answer-Keeps env register_reply r w enc x h = registered-Keeps E env r w
  answer-Keeps env (login_reply password) (failure e) w enc x h = emit-Keeps E
  answer-Keeps env (login_reply password) (success session) w enc x h = cc
  answer-Keeps env logout_reply r w enc x h = logged_out-Keeps E env r w
  answer-Keeps env upsert_reply r w enc x h = upserted-Keeps E env r w
  answer-Keeps env upload_reply r w enc x h = uploaded-Keeps E env r w
  answer-Keeps env trust_address r w enc x h = trust_address-Keeps E env r w
  answer-Keeps env (trust_bundle address) (failure e) w enc x h =
      trust_bundle-Keeps E env address (failure e) w tt
  answer-Keeps env (trust_bundle address) (success b) w enc x h =
      trust_bundle-Keeps E env address (success b) w x
  answer-Keeps env received_list r w enc x h = listed-Keeps E env received r w
  answer-Keeps env sent_list r w enc x h = listed-Keeps E env sent r w
  answer-Keeps env conversations_received r w enc x h = conversations_received-Keeps E env r w
  answer-Keeps env conversations_sent r w enc x h = conversations_sent-Keeps E env key_text r w
  answer-Keeps env unread_received r w enc x h = unread-Keeps E env key_text r w
  answer-Keeps env (send_address plaintext) r w enc x h = send_address-Keeps E env plaintext r w enc
  answer-Keeps env (forward_address id) r w enc x h = forward_address-Keeps E env id r w enc
  answer-Keeps env (pinned_bundle pin purpose) (failure e) w enc x h =
      pinned-Keeps E env pin purpose (failure e) w enc h tt
  answer-Keeps env (pinned_bundle pin purpose) (success b) w enc (u, d) h =
      pinned-Keeps E env pin purpose (success b) w enc h (rw (u, d) h)
  answer-Keeps env (sent_reply copy) r w enc x h = sent-Keeps E env copy r w
  answer-Keeps env (forwarded_reply copy) r w enc x h = forwarded-Keeps E env copy r w
  answer-Keeps env (read_address username page) r w enc x h =
      read_address-Keeps E env username page r w
  answer-Keeps env (read_received address username page) r w enc x h =
      read_received-Keeps E env address username page r w
  answer-Keeps env (read_sent address username page) r w enc x h =
      read_sent-Keeps E env address username page r w
  answer-Keeps env (revoke_reply id) r w enc x h = revoked-Keeps E env id r w
  answer-Keeps env (delete_reply id) r w enc x h = deleted-Keeps E env id r w
  answer-Keeps env (anchor_reply id) r w enc x h = anchor-Keeps E env id r w
  answer-Keeps env (verification_reply id) r w enc x h = verification-Keeps E env id r w

  serve-Keeps : (env : Env) (c : ServiceCall) (w : World) → Keeps E w (serve key_text env c w)
  unfolding register_user login logout list_conversations list_unread_senders list_received
      list_sent read forward revoke delete_message verify trust_username send
  serve-Keeps env (ServiceCall.register_user username email password) w = call-Keeps E (λ s. tt) tt
  serve-Keeps env (ServiceCall.login username password) w = call-Keeps E (λ s. tt) tt
  serve-Keeps env ServiceCall.logout w = call-Keeps E (λ s. tt) tt
  serve-Keeps env ServiceCall.list_conversations w =
      logged_in-Keeps E _ w (λ v. call-Keeps E (λ s. tt) tt)
  serve-Keeps env ServiceCall.list_unread_senders w =
      logged_in-Keeps E _ w (λ v. call-Keeps E (λ s. tt) tt)
  serve-Keeps env ServiceCall.list_received w =
      logged_in-Keeps E _ w (λ v. call-Keeps E (λ s. tt) tt)
  serve-Keeps env ServiceCall.list_sent w = logged_in-Keeps E _ w (λ v. call-Keeps E (λ s. tt) tt)
  serve-Keeps env (ServiceCall.read_conversation username page) w =
      logged_in-Keeps E _ w (λ v. call-Keeps E (λ s. tt) tt)
  serve-Keeps env (ServiceCall.forward id username) w =
      logged_in-Keeps E _ w (λ v. call-Keeps E (λ s. tt) tt)
  serve-Keeps env (ServiceCall.revoke id) w = call-Keeps E (λ s. tt) tt
  serve-Keeps env (ServiceCall.delete_message id) w = call-Keeps E (λ s. tt) tt
  serve-Keeps env (ServiceCall.download id) w = download-Keeps E env id w
  serve-Keeps env (ServiceCall.verify id) w = call-Keeps E (λ s. tt) tt
  serve-Keeps env (ServiceCall.trust_username username) w =
      logged_in-Keeps E _ w (λ v. call-Keeps E (λ s. tt) tt)
  serve-Keeps env (ServiceCall.send username plaintext) w =
      logged_in-Keeps E _ w (λ v. call-Keeps E (λ s. tt) tt)
  serve-Keeps env ServiceCall.ensure_device_keys_uploaded w = ensured-Keeps E env w

  abbrev ArePinned : Machine → List Pending → Type 0
  ArePinned m waiting = All (λ p. IsPinnedWait E p m) waiting

  -- of a state: the cached bundle, the callbacks that wait, and what was put out
  record IsTrusted (w : World) (waiting : List Pending) (trace : List Output) : Type 0 where
    sound : IsSound w.keys
    pinned : ArePinned w.keys.machine waiting
    fine : All (IsFine E w.keys.machine) trace

  waiting-KeepsPins :
      (ps : List Pending) (m m' : Machine) → KeepsPins m m' → ArePinned m ps → ArePinned m' ps
  waiting-KeepsPins [] m m' k h = tt
  waiting-KeepsPins (p ∷ ps) m m' k h =
      (wait-KeepsPins E p m m' k h.0, waiting-KeepsPins ps m m' k h.1)

  asked-ArePinned : (os : List Output) (m : Machine) → All (IsFine E m) os → ArePinned m (asked os)
  asked-ArePinned [] m h = tt
  asked-ArePinned (event e ∷ os) m h = asked-ArePinned os m h.1
  asked-ArePinned (ask r p ∷ os) m h = (h.0.1, asked-ArePinned os m h.1)

  step-IsTrusted :
      (w : World) (out : World × List Output) (waiting : List Pending) (trace : List Output)
      → Keeps E w out
      → IsTrusted w waiting trace
      → IsTrusted out.0 (waiting ++ asked out.1) (trace ++ out.1)
  step-IsTrusted w out waiting trace k h =
      let put_out = k.fine h.sound in
      record {
        sound = k.sound h.sound;
        pinned =
            All-append (λ p. IsPinnedWait E p out.0.keys.machine) waiting (asked out.1)
              (waiting-KeepsPins waiting _ _ k.pins h.pinned) (asked-ArePinned out.1 _ put_out);
        fine =
            All-append (IsFine E out.0.keys.machine) trace out.1
              (IsFine-KeepsPins E trace _ _ k.pins h.fine) put_out;
      }

  -- the callback that is answered, and those that go on waiting
  split :
      (before after : List Pending) (p : Pending) (m : Machine)
      → ArePinned m (before ++ p ∷ after)
      → IsPinnedWait E p m × ArePinned m (before ++ after)
  split [] after p m h = h
  split (q ∷ before) after p m h = let rest = split before after p m h.1 in (rest.0, (h.0, rest.1))

  Runs-IsTrusted :
      {s : System} (run : Runs key_text s) → IsHonest run → IsTrusted s.world s.waiting s.trace
  unfolding initial_world
  Runs-IsTrusted (opened m) honest = record { sound = tt; pinned = tt; fine = tt }
  Runs-IsTrusted (served env c s run) (enc, honest) =
      step-IsTrusted s.world _ s.waiting s.trace (serve-Keeps env c s.world)
        (Runs-IsTrusted run honest)
  Runs-IsTrusted (answered env before after p r w trace run) (enc, x, honest) =
      let h = Runs-IsTrusted run honest in
      let parts = split before after p w.keys.machine h.pinned in
      step-IsTrusted w _ (before ++ after) trace (answer-Keeps env p r w enc x parts.0)
        (record { sound = h.sound; pinned = parts.1; fine = h.fine })

  abbrev pub IsSealedOutput : Machine → Output → Type 0
  IsSealedOutput m (event e) = Unit
  IsSealedOutput m (ask r p) = IsSealedRequest E r m

  sealed : (os : List Output) (m : Machine) → All (IsFine E m) os → All (IsSealedOutput m) os
  sealed [] m h = tt
  sealed (event e ∷ os) m h = (tt, sealed os m h.1)
  sealed (ask r p ∷ os) m h = (h.0.0, sealed os m h.1)

  -- In every run of calls and of answers in any order that is honest, the payload of each message
  -- that was sent or forwarded was encrypted for a bundle whose identity key is the one that is
  -- still pinned for the recipient of the message. A run is honest if the providers encrypt for
  -- the bundle that they are given, if each bundle that arrives is for the address that was asked
  -- for, and if no login succeeds during the run.
  pub Runs-IsSealed :
      (s : System) (run : Runs key_text s)
      → IsHonest run
      → All (IsSealedOutput s.world.keys.machine) s.trace
  Runs-IsSealed s run honest = sealed s.trace s.world.keys.machine (Runs-IsTrusted run honest).fine
