-- ===== src/Router/Kept.antt =====
-- A signal changes only whether an operation is in progress and which conversation is active:
-- what the router keeps of its input is the same behind every signal and every call of a
-- service.
use epic_kfc.Base.{
  ℤ, pos, is_empty, is_positive, inl, inr, Bool-cases, QString, Option, none, some, List, [], ◌∷◌,
  ◌≡◌, refl, ◌∙◌,
}
use epic_kfc.Models.{StartupConfig, SlashCommand, CommandType}
use epic_kfc.Platform.{Qt}
use epic_kfc.Events.{Event, KeyEvent, key_event, Services, ServiceCall, OperationText}
use epic_kfc.Bus.{
  Router, InputMode, Client, on_event, emit, emit_all, emit_key_events, ensure_keys, call,
  on_session, note, emitted,
}
use epic_kfc.Controller.{
  start, handle_command, run_command, send_message, open_conversation, register_user, login,
  begin_message_composition, cancel_composition, open_page, read_arguments, with_one, with_two,
}

-- what a router keeps of its input
pub record Kept : Type 0 where
  pub input_mode : InputMode
  pub pending_username : QString
  pub pending_email : QString
  pub pending_login_identifier : QString
  pub composition_recipient_username : QString
  pub composition_lines : List QString

abbrev pub kept : Router → Kept
kept r = record {
  input_mode = r.input_mode;
  pending_username = r.pending_username;
  pending_email = r.pending_email;
  pending_login_identifier = r.pending_login_identifier;
  composition_recipient_username = r.composition_recipient_username;
  composition_lines = r.composition_lines;
}

on_event-kept : (e : Event) (r : Router) → kept (on_event e r) ≡ kept r
unfolding on_event
on_event-kept Event.session_ended r = refl
on_event-kept _ r = refl

module _ {ℓ} {S : Type ℓ} where
  emit_key_events-kept :
      (es : List KeyEvent) (c : Client S) → kept (emit_key_events es c).router ≡ kept c.router
  unfolding emit_key_events
  emit_key_events-kept [] c = refl
  emit_key_events-kept (e ∷ es) c = emit_key_events-kept es _ ∙ on_event-kept (key_event e) c.router

module _ {ℓ} {S : Type ℓ} (services : Services S) where
  ensure_keys-kept : (c : Client S) → kept (ensure_keys services c).router ≡ kept c.router
  unfolding ensure_keys
  ensure_keys-kept c = emit_key_events-kept _ _

  on_session-kept :
      (e : Event) (c : Client S) → kept (on_session services e c).router ≡ kept c.router
  on_session-kept (Event.session_started u) c = ensure_keys-kept c
  on_session-kept _ c = refl

  pub emit-kept : (e : Event) (c : Client S) → kept (emit services e c).router ≡ kept c.router
  unfolding emit
  emit-kept e c = on_event-kept e _ ∙ on_session-kept e (note (emitted e) c)

  pub emit_all-kept :
      (es : List Event) (c : Client S) → kept (emit_all services es c).router ≡ kept c.router
  unfolding emit_all
  emit_all-kept [] c = refl
  emit_all-kept (e ∷ es) c = emit_all-kept es _ ∙ emit-kept e c

  pub call-kept : (s : ServiceCall) (c : Client S) → kept (call services s c).router ≡ kept c.router
  unfolding call
  call-kept s c = emit_all-kept _ _

module _ {ℓ} {S : Type ℓ} (qt : Qt) (config : StartupConfig) (services : Services S) where
  start-kept :
      (t : OperationText) (s : ServiceCall) (c : Client S)
      → kept (start qt config services t s c).router ≡ kept c.router
  unfolding start
  start-kept t s c = call-kept services s _ ∙ emit-kept services _ c

  pub register_user-kept :
      (u m p : QString) (c : Client S)
      → kept (register_user qt config services u m p c).router ≡ kept c.router
  unfolding register_user
  register_user-kept u m p c = start-kept _ _ c

  pub login-kept :
      (u p : QString) (c : Client S) → kept (login qt config services u p c).router ≡ kept c.router
  unfolding login
  login-kept u p c = start-kept _ _ c

  pub open_conversation-kept :
      (u : QString) (page : ℤ) (c : Client S)
      → kept (open_conversation qt config services u page c).router ≡ kept c.router
  unfolding open_conversation
  open_conversation-kept u page c = start-kept _ _ _ ∙ emit-kept services _ c

  pub send_message-kept :
      (u body : QString) (c : Client S)
      → kept (send_message qt config services u body c).router ≡ kept c.router
  unfolding send_message
  send_message-kept u body c = elim (Bool-cases (is_empty (qt.trimmed body))) [
    | inl h ↦ rw h (emit-kept services _ c)
    | inr h ↦ rw h (start-kept _ _ _ ∙ emit-kept services _ c)
  ]

  pub begin_message_composition-kept :
      (u : QString) (c : Client S)
      → kept (begin_message_composition qt config services u c).router ≡ kept c.router
  unfolding begin_message_composition
  begin_message_composition-kept u c = emit-kept services _ _ ∙ emit-kept services _ c

  pub cancel_composition-kept :
      (c : Client S) → kept (cancel_composition qt config services c).router ≡ kept c.router
  unfolding cancel_composition
  cancel_composition-kept c = emit-kept services _ c

  open_page-kept :
      (name u : QString) (page : Option ℤ) (c : Client S)
      → kept (open_page qt config services name u page c).router ≡ kept c.router
  open_page-kept name u none c = emit-kept services _ c
  open_page-kept name u (some page) c = elim (Bool-cases (is_positive page)) [
    | inl h ↦ rw h (open_conversation-kept u page c)
    | inr h ↦ rw h (emit-kept services _ c)
  ]

  read_arguments-kept :
      (name : QString) (args : List QString) (c : Client S)
      → kept (read_arguments qt config services name args c).router ≡ kept c.router
  read_arguments-kept name [] c = refl
  read_arguments-kept name (u ∷ []) c = open_page-kept name u (some (pos 1)) c
  read_arguments-kept name (u ∷ page ∷ []) c = open_page-kept name u (qt.to_int page) c
  read_arguments-kept name (u ∷ page ∷ x ∷ xs) c = refl

  with_one-kept :
      (f : QString → Client S → Client S)
      → ((a : QString) (c : Client S) → kept (f a c).router ≡ kept c.router)
      → (args : List QString) (c : Client S)
      → kept (with_one qt config services f args c).router ≡ kept c.router
  with_one-kept f h [] c = refl
  with_one-kept f h (a ∷ []) c = h a c
  with_one-kept f h (a ∷ b ∷ xs) c = refl

  with_two-kept :
      (f : QString → QString → Client S → Client S)
      → ((a b : QString) (c : Client S) → kept (f a b c).router ≡ kept c.router)
      → (args : List QString) (c : Client S)
      → kept (with_two qt config services f args c).router ≡ kept c.router
  with_two-kept f h [] c = refl
  with_two-kept f h (a ∷ []) c = refl
  with_two-kept f h (a ∷ b ∷ []) c = h a b c
  with_two-kept f h (a ∷ b ∷ x ∷ xs) c = refl

  run_command-kept :
      (type : CommandType) (name : QString) (args : List QString) (c : Client S)
      → kept (run_command qt config services type name args c).router ≡ kept c.router
  run_command-kept CommandType.help name args c = emit-kept services _ c
  run_command-kept CommandType.register name args c = refl
  run_command-kept CommandType.login name args c = refl
  run_command-kept CommandType.logout name args c = start-kept _ _ _ ∙ emit-kept services _ c
  run_command-kept CommandType.whoami name args c = emit-kept services _ c
  run_command-kept CommandType.status name args c = emit-kept services _ c
  run_command-kept CommandType.conversations name args c = start-kept _ _ c
  run_command-kept CommandType.inbox name args c = start-kept _ _ c
  run_command-kept CommandType.sent name args c = start-kept _ _ c
  run_command-kept CommandType.msg name args c = refl
  run_command-kept CommandType.send name args c = refl
  run_command-kept CommandType.read name args c = read_arguments-kept name args c
  run_command-kept CommandType.forward name args c = with_two-kept _ (λ a b. start-kept _ _) args c
  run_command-kept CommandType.revoke name args c = with_one-kept _ (λ a. start-kept _ _) args c
  run_command-kept CommandType.delete_message name args c =
      with_one-kept _ (λ a. start-kept _ _) args c
  run_command-kept CommandType.download name args c = with_one-kept _ (λ a. start-kept _ _) args c
  run_command-kept CommandType.trust name args c = with_one-kept _ (λ a. start-kept _ _) args c
  run_command-kept CommandType.verify name args c = with_one-kept _ (λ a. start-kept _ _) args c
  run_command-kept CommandType.sync name args c = start-kept _ _ c
  run_command-kept CommandType.cancel name args c = emit-kept services _ c
  run_command-kept CommandType.back name args c = emit-kept services _ _ ∙ emit-kept services _ c
  run_command-kept CommandType.exit name args c = emit-kept services _ c

  pub handle_command-kept :
      (cmd : SlashCommand) (c : Client S)
      → kept (handle_command qt config services cmd c).router ≡ kept c.router
  unfolding handle_command
  handle_command-kept cmd c = run_command-kept cmd.type cmd.name cmd.arguments c
