-- ===== src/Services/Prompt.antt =====
-- The whole client in one run: the router of client/src/app/CommandRouter.cpp with the services of
-- client/src/services/Services.cpp, where the gateways have answered before the next line is read.
use epic_kfc.Base.{
  ℕ, zero, suc, ◌+◌, ◌≤◌, ℤ, QString, true, none, some, List, [], ◌∷◌, ◌++◌, ◌≡◌, refl,
  Option-cases, inl, inr, arith,
}
use epic_kfc.Models.{StartupConfig}
use epic_kfc.Platform.{Qt}
use epic_kfc.Events.{Event, KeyEvent, ServiceCall, Services}
use epic_kfc.Bus.{Client, on_event}
use epic_kfc.Router.{handle_line}
use epic_kfc.Router.Answers.{finishes, last_finishes, IsAnswering, IsFree}
use epic_kfc.Router.Free.{handle_line-IsFree}
use epic_kfc.Services.{Env, World, Pending, Reply, Output, event, ask}
use epic_kfc.Services.Runs.{answer, serve}
use epic_kfc.Services.Runs.Progress.{frees, rank, goes_on, Advances}
use epic_kfc.Services.Runs.Finish.{first_call, first_call-some, answer-Advances, serve-Advances}

abbrev pub events_of : List Output → List Event
events_of [] = []
events_of (event e ∷ os) = e ∷ events_of os
events_of (ask r p ∷ os) = events_of os

-- the signals that `ensureDeviceKeysUploaded` and its callbacks emit
abbrev pub key_events : List Event → List KeyEvent
key_events [] = []
key_events (Event.device_keys_ready device ∷ es) = KeyEvent.keys_ready device ∷ key_events es
key_events (Event.command_failed e ∷ es) = KeyEvent.keys_failed e ∷ key_events es
key_events (Event.crypto_operation_failed e ∷ es) = KeyEvent.keys_not_created e ∷ key_events es
key_events (_ ∷ es) = key_events es

-- the services, and how many steps they have made
abbrev pub Clocked : Type 0
Clocked = World × ℕ

frees-finishes : (e : Event) → frees e ≡ true → finishes e ≡ true
unfolding frees on_event
frees-finishes (Event.slash_command_received cmd) h = cc
frees-finishes (Event.conversation_target_changed who) h = cc
frees-finishes (Event.operation_started t) h = cc
frees-finishes (Event.device_keys_ready d) h = cc
frees-finishes (Event.message_received m) h = cc
frees-finishes (Event.message_prepared who d body) h = cc
frees-finishes Event.message_composition_cancelled h = cc
frees-finishes (Event.message_opened m body) h = cc
frees-finishes Event.exit_requested h = cc
frees-finishes _ h = refl

last_finishes-append :
    (es fs : List Event) → last_finishes fs ≡ true → last_finishes (es ++ fs) ≡ true
last_finishes-append [] fs h = h
last_finishes-append (e ∷ []) [] h = cc
last_finishes-append (e ∷ []) (f ∷ fs) h = h
last_finishes-append (e ∷ e' ∷ es) fs h = last_finishes-append (e' ∷ es) fs h

first_call-finishes :
    (os : List Output)
    → first_call os ≡ none
    → goes_on os ≡ true
    → last_finishes (events_of os) ≡ true
unfolding goes_on
first_call-finishes [] e h = cc
first_call-finishes (event x ∷ []) e h = frees-finishes x h
first_call-finishes (event x ∷ event y ∷ os) e h = first_call-finishes (event y ∷ os) e h
first_call-finishes (event x ∷ ask r p ∷ os) e h = cc
first_call-finishes (ask r p ∷ os) e h = cc

-- the parameters and the answers of every step, by its number
module _ (key_text : QString → ℤ → QString) (envs : ℕ → Env)
    (replies : ℕ → (p : Pending) → Reply p) where
  -- a step, and the callbacks that its calls of the gateways lead to
  unfoldable pub run_answers : ℕ → ℕ → World × List Output → Clocked × List Event
  run_answers zero now (w, os) = ((w, now), events_of os)
  run_answers (suc n) now (w, os) = elim (first_call os) [
    | none ↦ ((w, now), events_of os)
    | some p ↦
        let later = run_answers n (now + 1) (answer key_text (envs now) p (replies now p) w) in
        (later.0, events_of os ++ later.1)
  ]

  abbrev pub serve_all : ServiceCall → Clocked → Clocked × List Event
  serve_all c (w, now) = run_answers 3 (now + 1) (serve key_text (envs now) c w)

  abbrev pub own_services : Services Clocked
  own_services = record {
    call = serve_all;
    ensure_keys = λ s.
        let out = serve_all ServiceCall.ensure_device_keys_uploaded s in (out.0, key_events out.1);
    current_session = λ s. s.0.session;
  }

  run_answers-finishes :
      (n k now : ℕ) (w : World) (os : List Output)
      → Advances k (w, os)
      → k ≤ n
      → last_finishes (run_answers n now (w, os)).1 ≡ true
  unfolding run_answers
  run_answers-finishes zero k now w os h le = elim (Option-cases (first_call os)) [
    | inl e ↦ first_call-finishes os e h.alive
    | inr (p, e) ↦ absurd (omega (arith, (first_call-some k p os e h.below).0))
  ]
  run_answers-finishes (suc n) k now w os h le = elim (Option-cases (first_call os)) [
    | inl e ↦ rw (run_answers, e) (first_call-finishes os e h.alive)
    | inr (p, e) ↦
        let below = first_call-some k p os e h.below in
        rw (run_answers, e)
          (last_finishes-append (events_of os) _ (
            run_answers-finishes n (rank p) (now + 1) _ _
              (answer-Advances key_text (envs now) p (replies now p) w below.1)
              (omega (arith, below.0))))
  ]

  own_services-IsAnswering : IsAnswering own_services
  own_services-IsAnswering c (w, now) starts =
      run_answers-finishes 3 3 (now + 1) _ _ (serve-Advances key_text (envs now) c w starts)
        (omega arith)

  -- The client never hangs: with its own services, whatever the gateways answer, and whatever the
  -- provider, the clock and the file system do at each step, the router is free for the next
  -- command after every line, in any mode, once the calls that the line led to are answered.
  pub handle_line-own_services :
      (qt : Qt) (config : StartupConfig) (line : QString) (c : Client Clocked)
      → IsFree c.router
      → IsFree (handle_line qt config own_services line c).router
  handle_line-own_services qt config line c free =
      handle_line-IsFree qt config own_services own_services-IsAnswering line c free
