-- ===== src/Services/Runs/Finish.antt =====
-- An operation, from the call of its service to the signal that makes the router free.
use epic_kfc.Base.{
  ℕ, zero, suc, ◌<◌, ◌≤◌, ℤ, QString, Bool, true, false, Option, none, some, List, [], ◌∷◌, ◌≡◌,
  refl, Option-cases, inl, inr, ap, arith, All,
}
use mathlib.Core.Path.{subst}
use mathlib.Core.Option
use epic_kfc.Models.{sent, received}
use epic_kfc.Events.{ServiceCall, starts_operation}
use epic_kfc.Services.{
  Env, World, Pending, Reply, Output, event, ask, register_reply, login_reply, logout_reply,
  upsert_reply, upload_reply, trust_address, trust_bundle, received_list, sent_list,
  conversations_received, conversations_sent, unread_received, send_address, forward_address,
  pinned_bundle, sent_reply, forwarded_reply, read_address, read_received, read_sent, revoke_reply,
  delete_reply, anchor_reply, verification_reply,
}
use epic_kfc.Services.Session.{register_user, login, logout}
use epic_kfc.Services.Keys.{trust_username}
use epic_kfc.Services.Lists.{
  list_received, list_sent, list_conversations, list_unread_senders, revoke, delete_message,
}
use epic_kfc.Services.Sending.{send, forward}
use epic_kfc.Services.Reading.{read}
use epic_kfc.Services.Anchors.{verify}
use epic_kfc.Services.Runs.{answer, serve}
use epic_kfc.Services.Runs.Operations.{
  listed-Advances, conversations_received-Advances, logged_in_reply-Advances,
  logged_out_reply-Advances, trust_address-Advances, trust_bundle-Advances, pinned-Advances,
  send_address-Advances, forward_address-Advances, conversations_sent-Advances, unread-Advances,
}
use epic_kfc.Services.Runs.Ends.{
  registered-Advances, sent-Advances, forwarded-Advances, revoked-Advances, deleted-Advances,
  read_address-Advances, read_received-Advances, read_sent-Advances, anchor-Advances,
  verification-Advances, download-Advances,
}
use epic_kfc.Services.Runs.Progress.{
  frees, rank, is_operation, IsBelow, goes_on, Advances, call-Advances, logged_in-Advances,
}

abbrev pub first_call : List Output → Option Pending
first_call [] = none
first_call (event e ∷ os) = first_call os
first_call (ask r p ∷ os) = some p

-- whether the last signal makes the router free
abbrev pub frees_last : List Output → Bool
frees_last [] = false
frees_last (event e ∷ []) = frees e
frees_last (event e ∷ o ∷ os) = frees_last (o ∷ os)
frees_last (ask r p ∷ os) = frees_last os

first_call-none :
    (os : List Output) → first_call os ≡ none → goes_on os ≡ true → frees_last os ≡ true
unfolding goes_on
first_call-none [] e h = cc
first_call-none (event x ∷ []) e h = h
first_call-none (event x ∷ o ∷ os) e h = first_call-none (o ∷ os) e h
first_call-none (ask r p ∷ os) e h = cc

pub first_call-some :
    (n : ℕ) (p : Pending) (os : List Output)
    → first_call os ≡ some p
    → All (IsBelow n) os
    → (rank p < n) × (is_operation p ≡ true)
first_call-some n p [] e h = cc
first_call-some n p (event x ∷ os) e h = first_call-some n p os e h.1
first_call-some n p (ask r q ∷ os) e h =
    let same : q ≡ p = ap (λ o. Option.get_or o q) e in
    subst (λ t. (rank t < n) × (is_operation t ≡ true)) same h.0

module _ (key_text : QString → ℤ → QString) where
  pub answer-Advances :
      (env : Env) (p : Pending) (r : Reply p) (w : World)
      → is_operation p ≡ true
      → Advances (rank p) (answer key_text env p r w)
  answer-Advances env register_reply r w h = registered-Advances env r w
  answer-Advances env (login_reply password) r w h = logged_in_reply-Advances env password r w
  answer-Advances env logout_reply r w h = logged_out_reply-Advances env r w
  answer-Advances env upsert_reply r w h = cc
  answer-Advances env upload_reply r w h = cc
  answer-Advances env trust_address r w h = trust_address-Advances env r w
  answer-Advances env (trust_bundle address) r w h = trust_bundle-Advances env address r w
  answer-Advances env received_list r w h = listed-Advances env received r w
  answer-Advances env sent_list r w h = listed-Advances env sent r w
  answer-Advances env conversations_received r w h = conversations_received-Advances env r w
  answer-Advances env conversations_sent r w h = conversations_sent-Advances env key_text r w
  answer-Advances env unread_received r w h = unread-Advances env key_text r w
  answer-Advances env (send_address plaintext) r w h = send_address-Advances env plaintext r w
  answer-Advances env (forward_address id) r w h = forward_address-Advances env id r w
  answer-Advances env (pinned_bundle pin purpose) r w h = pinned-Advances env pin purpose r w
  answer-Advances env (sent_reply copy) r w h = sent-Advances env copy r w
  answer-Advances env (forwarded_reply copy) r w h = forwarded-Advances env copy r w
  answer-Advances env (read_address username page) r w h =
      read_address-Advances env username page r w
  answer-Advances env (read_received address username page) r w h =
      read_received-Advances env address username page r w
  answer-Advances env (read_sent address username page) r w h =
      read_sent-Advances env address username page r w
  answer-Advances env (revoke_reply id) r w h = revoked-Advances env id r w
  answer-Advances env (delete_reply id) r w h = deleted-Advances env id r w
  answer-Advances env (anchor_reply id) r w h = anchor-Advances env id r w
  answer-Advances env (verification_reply id) r w h = verification-Advances env id r w

  pub serve-Advances :
      (env : Env) (c : ServiceCall) (w : World)
      → starts_operation c ≡ true
      → Advances 3 (serve key_text env c w)
  unfolding register_user login logout list_conversations list_unread_senders list_received
      list_sent read forward revoke delete_message verify trust_username send
  serve-Advances env (ServiceCall.register_user username email password) w h =
      call-Advances (omega arith) refl
  serve-Advances env (ServiceCall.login username password) w h = call-Advances (omega arith) refl
  serve-Advances env ServiceCall.logout w h = call-Advances (omega arith) refl
  serve-Advances env ServiceCall.list_conversations w h =
      logged_in-Advances _ w (λ v. call-Advances (omega arith) refl)
  serve-Advances env ServiceCall.list_unread_senders w h =
      logged_in-Advances _ w (λ v. call-Advances (omega arith) refl)
  serve-Advances env ServiceCall.list_received w h =
      logged_in-Advances _ w (λ v. call-Advances (omega arith) refl)
  serve-Advances env ServiceCall.list_sent w h =
      logged_in-Advances _ w (λ v. call-Advances (omega arith) refl)
  serve-Advances env (ServiceCall.read_conversation username page) w h =
      logged_in-Advances _ w (λ v. call-Advances (omega arith) refl)
  serve-Advances env (ServiceCall.forward id username) w h =
      logged_in-Advances _ w (λ v. call-Advances (omega arith) refl)
  serve-Advances env (ServiceCall.revoke id) w h = call-Advances (omega arith) refl
  serve-Advances env (ServiceCall.delete_message id) w h = call-Advances (omega arith) refl
  serve-Advances env (ServiceCall.download id) w h = download-Advances env id w
  serve-Advances env (ServiceCall.verify id) w h = call-Advances (omega arith) refl
  serve-Advances env (ServiceCall.trust_username username) w h =
      logged_in-Advances _ w (λ v. call-Advances (omega arith) refl)
  serve-Advances env (ServiceCall.send username plaintext) w h =
      logged_in-Advances _ w (λ v. call-Advances (omega arith) refl)
  serve-Advances env ServiceCall.ensure_device_keys_uploaded w h = cc

  -- The rest of an operation, with the answers that the gateways give, what the provider and the
  -- clock are when an answer arrives, and what other steps make of the state before: whether it
  -- ends with a signal that frees the router after at most so many answers.
  module _ (envs : ℕ → Env) (replies : ℕ → (p : Pending) → Reply p)
      (between : ℕ → World → World) where
    unfoldable pub ends_within : ℕ → World × List Output → Bool
    unfolding frees
    ends_within zero (w, os) = frees_last os
    ends_within (suc n) (w, os) = elim (first_call os) [
      | none ↦ frees_last os
      | some p ↦ ends_within n (answer key_text (envs n) p (replies n p) (between n w))
    ]

    Advances-ends :
        (n k : ℕ) (w : World) (os : List Output)
        → Advances k (w, os)
        → k ≤ n
        → ends_within n (w, os) ≡ true
    unfolding ends_within
    Advances-ends zero k w os h le = elim (Option-cases (first_call os)) [
      | inl e ↦ first_call-none os e h.alive
      | inr (p, e) ↦ absurd (omega (arith, (first_call-some k p os e h.below).0))
    ]
    Advances-ends (suc n) k w os h le = elim (Option-cases (first_call os)) [
      | inl e ↦ rw (ends_within, e) (first_call-none os e h.alive)
      | inr (p, e) ↦
          let below = first_call-some k p os e h.below in
          rw (ends_within, e)
            (Advances-ends n (rank p) _ _
              (answer-Advances (envs n) p (replies n p) (between n w) below.1)
              (omega (arith, below.0)))
    ]

    -- Every operation that the router starts ends: once its service is called, the operation is
    -- over after at most three answers, with a last signal that makes the router free, whatever
    -- the gateways answer, whatever the files and the crypto provider do, and whatever other steps do to the
    -- state while it waits.
    pub serve-ends_within :
        (env : Env) (c : ServiceCall) (w : World)
        → starts_operation c ≡ true
        → ends_within 3 (serve key_text env c w) ≡ true
    serve-ends_within env c w h = Advances-ends 3 3 _ _ (serve-Advances env c w h) (omega arith)
