-- ===== src/Services/Runs/Progress.antt =====
-- Every operation ends: a callback calls a gateway again only for what comes later in its
-- operation, and else it emits a signal that makes the router free.
use epic_kfc.Base.{
  ℕ, ◌<◌, Bool, true, false, not, Option, none, some, List, [], ◌∷◌, ◌++◌, ◌≡◌, refl, All,
  All-append, if◌then◌else◌,
}
use epic_kfc.Models.{ClientError, Result, success, failure, AuthSession}
use epic_kfc.Events.{Event}
use epic_kfc.Bus.{Router, initial_router, on_event}
use epic_kfc.Methods.{Machine}
use epic_kfc.Services.{
  World, Step, Request, Pending, Output, event, ask, saving, after_saving, set_machine, ◌then◌,
  when_logged_in, requiring, upsert_reply, upload_reply, trust_address, conversations_received,
  send_address, forward_address, pinned_bundle, read_address, read_received, anchor_reply,
}

abbrev busy : Router
busy = record initial_router { operation_in_progress = true }

-- the signals that make the router free
unfoldable pub frees : Event → Bool
unfolding on_event
frees e = not (on_event e busy).operation_in_progress

-- how many more calls an operation may make after an answer
abbrev pub rank : Pending → ℕ
rank (send_address plaintext) = 2
rank (forward_address id) = 2
rank (read_address username page) = 2
rank trust_address = 1
rank conversations_received = 1
rank (pinned_bundle pin purpose) = 1
rank (read_received address username page) = 1
rank (anchor_reply id) = 1
rank upsert_reply = 1
rank _ = 0

-- the uploads of keys run beside the operations of the router
abbrev pub is_operation : Pending → Bool
is_operation upsert_reply = false
is_operation upload_reply = false
is_operation _ = true

abbrev pub IsBelow : ℕ → Output → Type 0
IsBelow n (event e) = Unit
IsBelow n (ask r p) = (rank p < n) × (is_operation p ≡ true)

-- there is a call, or the last signal makes the router free
unfoldable pub goes_on : List Output → Bool
goes_on [] = false
goes_on (event e ∷ []) = frees e
goes_on (event e ∷ o ∷ os) = goes_on (o ∷ os)
goes_on (ask r p ∷ os) = true

-- what a step leaves only calls what comes later in its operation
pub record Below (n : ℕ) (out : World × List Output) : Type 0 where
  pub below : All (IsBelow n) out.1

-- and there is such a call, or the router becomes free
pub record Advances (n : ℕ) (out : World × List Output) : Type 0 where
  pub below : All (IsBelow n) out.1
  pub alive : goes_on out.1 ≡ true

goes_on-event : (e : Event) (os : List Output) → goes_on os ≡ true → goes_on (event e ∷ os) ≡ true
unfolding goes_on
goes_on-event e [] h = cc
goes_on-event e (o ∷ os) h = h

goes_on-append : (xs ys : List Output) → goes_on ys ≡ true → goes_on (xs ++ ys) ≡ true
unfolding goes_on
goes_on-append [] ys h = h
goes_on-append (event e ∷ xs) ys h = goes_on-event e (xs ++ ys) (goes_on-append xs ys h)
goes_on-append (ask r p ∷ xs) ys h = refl

module _ {n : ℕ} where
  pub emit-Advances : {e : Event} {w : World} → frees e ≡ true → Advances n (w, event e ∷ [])
  unfolding goes_on
  emit-Advances h = record { below = (tt, tt); alive = h }

  pub fail-Advances :
      {e : ClientError} {w : World} → Advances n (w, event (Event.command_failed e) ∷ [])
  unfolding frees
  fail-Advances = emit-Advances refl

  pub crypto-Advances :
      {e : ClientError} {w : World} → Advances n (w, event (Event.crypto_operation_failed e) ∷ [])
  unfolding frees
  crypto-Advances = emit-Advances refl

  pub call-Advances :
      {r : Request} {p : Pending} {w : World}
      → rank p < n
      → is_operation p ≡ true
      → Advances n (w, ask r p ∷ [])
  unfolding goes_on
  call-Advances h k = record { below = ((h, k), tt); alive = refl }

  pub if-Advances :
      (test : Bool) {a b : World × List Output}
      → Advances n a
      → Advances n b
      → Advances n (if test then a else b)
  if-Advances true h k = h
  if-Advances false h k = k

  pub saving-Advances :
      (method : Machine → Machine × Result Bool) (next : Step) (w : World)
      → ((v : World) → Advances n (next v))
      → Advances n (saving method next w)
  unfolding saving
  saving-Advances method next w h = saved (method w.keys.machine)
    where
      saved : (r : Machine × Result Bool) → Advances n (after_saving r next w)
      saved (m, success ok) = h (set_machine m w)
      saved (m, failure e) = fail-Advances

  pub saving-Below :
      (method : Machine → Machine × Result Bool) (next : Step) (w : World)
      → ((v : World) → Below n (next v))
      → Below n (saving method next w)
  unfolding saving
  saving-Below method next w h = saved (method w.keys.machine)
    where
      saved : (r : Machine × Result Bool) → Below n (after_saving r next w)
      saved (m, success ok) = h (set_machine m w)
      saved (m, failure e) = record { below = (tt, tt) }

  pub then-Advances :
      (first next : Step) (w : World)
      → Below n (first w)
      → ((v : World) → Advances n (next v))
      → Advances n ((first then next) w)
  unfolding ◌then◌
  then-Advances first next w h k =
      let later = k (first w).0 in
      record {
        below = All-append (IsBelow n) (first w).1 (next (first w).0).1 h.below later.below;
        alive = goes_on-append (first w).1 (next (first w).0).1 later.alive;
      }

  pub then-Below :
      (first next : Step) (w : World)
      → Below n (first w)
      → ((v : World) → Below n (next v))
      → Below n ((first then next) w)
  unfolding ◌then◌
  then-Below first next w h k = record {
    below = All-append (IsBelow n) (first w).1 (next (first w).0).1 h.below (k (first w).0).below;
  }

  pub logged_in-Advances :
      (next : Step) (w : World)
      → ((v : World) → Advances n (next v))
      → Advances n (when_logged_in next w)
  unfolding when_logged_in
  logged_in-Advances next w h = required w.session
    where
      required : (s : Option AuthSession) → Advances n (requiring s next w)
      required none = fail-Advances
      required (some session) = h w
