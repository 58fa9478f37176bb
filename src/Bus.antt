-- ===== src/Bus.antt =====
-- client/src/app/CommandRouter.h and the constructor of CommandRouter.cpp: the state of the
-- router and what each signal of the bus does to it; and the constructor of
-- ClientController.cpp, which uploads the device keys when a session starts. Both are connected
-- directly: a signal has its effect where it is emitted, on the controller first, since main.cpp
-- makes it first.
use epic_kfc.Base.{QString, Bool, true, false, List, [], ◌∷◌, ◌++◌}
use epic_kfc.Events.{
  Event, ServiceCall, KeyEvent, key_event, Services, ensure_device_keys_uploaded, session_started,
  session_ended, conversation_target_changed, operation_started, status_message, command_failed,
  trust_pin_created, trust_pin_matched, trust_pin_mismatch, conversation_list_updated,
  unread_inbox_updated, conversation_log_opened, message_list_updated, message_sent,
  message_forwarded, message_revoked, message_deleted, message_downloaded, fidelity_status_updated,
  backend_unavailable, crypto_operation_failed,
}

pub data InputMode : Type 0 where
  command register_password login_password message_composition : InputMode

pub record Router : Type 0 where
  pub input_mode : InputMode
  pub operation_in_progress : Bool
  pub pending_username : QString
  pub pending_email : QString
  pub pending_login_identifier : QString
  pub active_conversation_username : QString
  pub composition_recipient_username : QString
  pub composition_lines : List QString

abbrev pub initial_router : Router
initial_router = record {
  input_mode = command;
  operation_in_progress = false;
  pending_username = [];
  pending_email = [];
  pending_login_identifier = [];
  active_conversation_username = [];
  composition_recipient_username = [];
  composition_lines = [];
}

abbrev finished : Router → Router
finished r = record r { operation_in_progress = false }

-- the router's slots
unfoldable pub on_event : Event → Router → Router
on_event (operation_started t) r = record r { operation_in_progress = true }
on_event (status_message t) r = finished r
on_event (command_failed e) r = finished r
on_event (session_started u) r = finished r
on_event session_ended r = record r {
  active_conversation_username = [];
  operation_in_progress = false;
}
on_event (conversation_target_changed username) r = record r {
  active_conversation_username = username;
}
on_event (trust_pin_created p) r = finished r
on_event (trust_pin_matched u d) r = finished r
on_event (trust_pin_mismatch u d) r = finished r
on_event (conversation_list_updated cs) r = finished r
on_event (unread_inbox_updated cs) r = finished r
on_event (conversation_log_opened u p es page pages) r = finished r
on_event (message_list_updated ms) r = finished r
on_event (message_sent m) r = finished r
on_event (message_forwarded m) r = finished r
on_event (message_revoked id) r = finished r
on_event (message_deleted id) r = finished r
on_event (message_downloaded id path) r = finished r
on_event (fidelity_status_updated id status) r = finished r
on_event (backend_unavailable e) r = finished r
on_event (crypto_operation_failed e) r = finished r
on_event _ r = r

-- what can be seen from outside, in the order in which it happens
pub data Action : Type 0 where
  emitted : Event → Action
  called : ServiceCall → Action

pub record Client {ℓ} (S : Type ℓ) : Type ℓ where
  pub router : Router
  pub services : S
  pub trace : List Action

module _ {ℓ} {S : Type ℓ} where
  abbrev pub note : Action → Client S → Client S
  note a c = record c { trace = c.trace ++ a ∷ [] }

  unfoldable pub emit_key_events : List KeyEvent → Client S → Client S
  emit_key_events [] c = c
  emit_key_events (e ∷ es) c =
      let noted = note (emitted (key_event e)) c in
      emit_key_events es (record noted { router = on_event (key_event e) noted.router })

module _ {ℓ} {S : Type ℓ} (services : Services S) where
  -- the controller's slot for a session that starts
  unfoldable pub ensure_keys : Client S → Client S
  ensure_keys c =
      let answer = services.ensure_keys c.services in
      emit_key_events answer.1
        (note (called ensure_device_keys_uploaded) (record c { services = answer.0 }))

  abbrev pub on_session : Event → Client S → Client S
  on_session (session_started u) c = ensure_keys c
  on_session _ c = c

  -- emit, and every signal that arrives
  unfoldable pub emit : Event → Client S → Client S
  emit e c =
      let c' = on_session e (note (emitted e) c) in record c' { router = on_event e c'.router }

  unfoldable pub emit_all : List Event → Client S → Client S
  emit_all [] c = c
  emit_all (e ∷ es) c = emit_all es (emit e c)

  -- a call of a service, with the signals that it emits
  unfoldable pub call : ServiceCall → Client S → Client S
  call s c =
      let answer = services.call s c.services in
      emit_all answer.1 (note (called s) (record c { services = answer.0 }))
