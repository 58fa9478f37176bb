-- ===== src/Router/Traces.antt =====
-- The trace only grows, and a call of a service stands in it before what follows from the call.
use epic_kfc.Base.{
  true, List, [], ◌∷◌, ◌++◌, ◌≡◌, refl, sym, ap, ◌∙◌, append-nil, append_assoc, Bool-cases, inl,
  inr, if◌then◌else◌,
}
use epic_kfc.Models.{StartupConfig}
use epic_kfc.Platform.{Qt}
use epic_kfc.Events.{
  Event, KeyEvent, key_event, Services, ServiceCall, OperationText, starts_operation,
}
use epic_kfc.Bus.{
  Client, Action, emitted, called, emit, emit_all, emit_key_events, ensure_keys, call, on_session,
}
use epic_kfc.Controller.{start}

abbrev Grows : List Action → List Action → Type 0
Grows t t' = (more : List Action) × (t' ≡ t ++ more)

Grows-trans : (a : List Action) {b c : List Action} → Grows a b → Grows b c → Grows a c
Grows-trans a (m, e) (n, f) = (m ++ n, f ∙ rw e (append_assoc a m n))

-- the calls of the services in a trace, but for the upload of keys that follows a login
abbrev pub requests : List Action → List ServiceCall
requests [] = []
requests (emitted e ∷ actions) = requests actions
requests (called s ∷ actions) =
    let rest = requests actions in if starts_operation s then s ∷ rest else rest

requests-append :
    (actions more : List Action) → requests (actions ++ more) ≡ requests actions ++ requests more
requests-append [] more = refl
requests-append (emitted e ∷ actions) more = requests-append actions more
requests-append (called s ∷ actions) more = elim (Bool-cases (starts_operation s)) [
  | inl e ↦ rw e (ap (◌∷◌ s) (requests-append actions more))
  | inr e ↦ rw e (requests-append actions more)
]

-- nothing but signals, and the upload of keys
requests-emitted :
    (actions more : List Action)
    → requests more ≡ []
    → requests (actions ++ more) ≡ requests actions
requests-emitted actions more h =
    requests-append actions more ∙ rw h (append-nil (requests actions))

module _ {ℓ} {S : Type ℓ} where
  emit_key_events-requests :
      (es : List KeyEvent) (c : Client S) → requests (emit_key_events es c).trace ≡ requests c.trace
  unfolding emit_key_events
  emit_key_events-requests [] c = refl
  emit_key_events-requests (e ∷ es) c =
      emit_key_events-requests es _ ∙ requests-emitted c.trace (emitted (key_event e) ∷ []) refl

module _ {ℓ} {S : Type ℓ} (services : Services S) where
  on_session-requests :
      (e : Event) (c : Client S) → requests (on_session services e c).trace ≡ requests c.trace
  unfolding ensure_keys
  on_session-requests (Event.session_started u) c =
      emit_key_events-requests _ _
      ∙ requests-emitted c.trace (called ServiceCall.ensure_device_keys_uploaded ∷ []) refl
  on_session-requests _ c = refl

  -- a signal calls no service
  pub emit-requests :
      (e : Event) (c : Client S) → requests (emit services e c).trace ≡ requests c.trace
  unfolding emit
  emit-requests e c = on_session-requests e _ ∙ requests-emitted c.trace (emitted e ∷ []) refl

  pub emit_all-requests :
      (es : List Event) (c : Client S) → requests (emit_all services es c).trace ≡ requests c.trace
  unfolding emit_all
  emit_all-requests [] c = refl
  emit_all-requests (e ∷ es) c = emit_all-requests es _ ∙ emit-requests e c

  -- an operation is one call
  pub start-requests :
      (qt : Qt) (config : StartupConfig) (t : OperationText) (s : ServiceCall) (c : Client S)
      → starts_operation s ≡ true
      → requests (start qt config services t s c).trace ≡ requests c.trace ++ s ∷ []
  unfolding start call
  start-requests qt config t s c h =
      let told = emit services (Event.operation_started t) c in
      emit_all-requests _ _
      ∙ requests-append told.trace (called s ∷ [])
      ∙ rw h (ap (λ r. r ++ s ∷ []) (emit-requests (Event.operation_started t) c))

module _ {ℓ} {S : Type ℓ} where
  emit_key_events-Grows :
      (es : List KeyEvent) (c : Client S) → Grows c.trace (emit_key_events es c).trace
  unfolding emit_key_events
  emit_key_events-Grows [] c = ([], sym (append-nil c.trace))
  emit_key_events-Grows (e ∷ es) c =
      let (more, h) = emit_key_events-Grows es _ in
      (emitted (key_event e) ∷ more, h ∙ append_assoc c.trace (emitted (key_event e) ∷ []) more)

module _ {ℓ} {S : Type ℓ} (services : Services S) where
  on_session-Grows : (e : Event) (c : Client S) → Grows c.trace (on_session services e c).trace
  unfolding ensure_keys
  on_session-Grows (Event.session_started u) c =
      Grows-trans c.trace (called ServiceCall.ensure_device_keys_uploaded ∷ [], refl)
        (emit_key_events-Grows _ _)
  on_session-Grows _ c = ([], sym (append-nil c.trace))

  emit-Grows : (e : Event) (c : Client S) → Grows c.trace (emit services e c).trace
  unfolding emit
  emit-Grows e c = Grows-trans c.trace (emitted e ∷ [], refl) (on_session-Grows e _)

  emit_all-Grows : (es : List Event) (c : Client S) → Grows c.trace (emit_all services es c).trace
  unfolding emit_all
  emit_all-Grows [] c = ([], sym (append-nil c.trace))
  emit_all-Grows (e ∷ es) c = Grows-trans c.trace (emit-Grows e c) (emit_all-Grows es _)

  pub call-trace :
      (s : ServiceCall) (c : Client S)
      → (more : List Action) × ((call services s c).trace ≡ c.trace ++ called s ∷ more)
  unfolding call
  call-trace s c =
      let (more, h) = emit_all-Grows (services.call s c.services).1 _ in
      (more, h ∙ append_assoc c.trace (called s ∷ []) more)

  pub start-trace :
      (qt : Qt) (config : StartupConfig) (t : OperationText) (s : ServiceCall) (c : Client S)
      → (more : List Action) × ((start qt config services t s c).trace
          ≡ c.trace ++ emitted (Event.operation_started t) ∷ called s ∷ more)
  unfolding start emit
  start-trace qt config t s c =
      let (more, h) = call-trace s (emit services (Event.operation_started t) c) in
      (more, h ∙ append_assoc c.trace (emitted (Event.operation_started t) ∷ []) (called s ∷ more))
