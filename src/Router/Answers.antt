-- ===== src/Router/Answers.antt =====
-- Input is never blocked for good: where every call of a service ends with a signal that finishes
-- the operation, the router is free after each line.
use epic_kfc.Base.{
  ℤ, pos, QString, Bool, true, false, not, Option, none, some, List, [], ◌∷◌, ◌≡◌, refl,
  if◌then◌else◌, is_empty, is_positive,
}
use epic_kfc.Models.{StartupConfig, CommandType}
use epic_kfc.Platform.{Qt}
use epic_kfc.Events.{Event, Services, ServiceCall, OperationText, starts_operation}
use epic_kfc.Bus.{Router, Client, on_event, emit, emit_all, call}
use epic_kfc.Controller.{
  start, open_conversation, send_message, run_command, open_page, read_arguments, with_one,
  with_two,
}

-- the signals behind which no operation is in progress
abbrev pub finishes : Event → Bool
finishes (Event.slash_command_received cmd) = false
finishes (Event.conversation_target_changed who) = false
finishes (Event.operation_started t) = false
finishes (Event.device_keys_ready d) = false
finishes (Event.message_received m) = false
finishes (Event.message_prepared who d body) = false
finishes Event.message_composition_cancelled = false
finishes (Event.message_opened m body) = false
finishes Event.exit_requested = false
finishes _ = true

abbrev pub last_finishes : List Event → Bool
last_finishes [] = false
last_finishes (e ∷ []) = finishes e
last_finishes (e ∷ f ∷ es) = last_finishes (f ∷ es)

-- Every call that starts an operation ends with a signal that finishes the operation, as those of the mock do.
abbrev pub IsAnswering {ℓ} : {S : Type ℓ} → Services S → Type ℓ
IsAnswering {S} services =
    (c : ServiceCall) (s : S)
    → starts_operation c ≡ true
    → last_finishes (services.call c s).1 ≡ true

abbrev pub IsFree : Router → Type 0
IsFree r = r.operation_in_progress ≡ false

on_event-IsFree : (e : Event) (r : Router) → finishes e ≡ true → IsFree (on_event e r)
unfolding on_event
on_event-IsFree (Event.slash_command_received cmd) r h = cc
on_event-IsFree (Event.conversation_target_changed who) r h = cc
on_event-IsFree (Event.operation_started t) r h = cc
on_event-IsFree (Event.device_keys_ready d) r h = cc
on_event-IsFree (Event.message_received m) r h = cc
on_event-IsFree (Event.message_prepared who d body) r h = cc
on_event-IsFree Event.message_composition_cancelled r h = cc
on_event-IsFree (Event.message_opened m body) r h = cc
on_event-IsFree Event.exit_requested r h = cc
on_event-IsFree _ r h = refl

pub if-IsFree {ℓ} :
    {S : Type ℓ} (test : Bool) (c c' : Client S)
    → IsFree c.router
    → IsFree c'.router
    → IsFree (if test then c else c').router
if-IsFree true c c' h k = h
if-IsFree false c c' h k = k

emit_all-IsFree {ℓ} :
    {S : Type ℓ} (services : Services S) (es : List Event) (c : Client S)
    → last_finishes es ≡ true
    → IsFree (emit_all services es c).router
unfolding emit_all emit
emit_all-IsFree services [] c h = cc
emit_all-IsFree services (e ∷ []) c h = on_event-IsFree e _ h
emit_all-IsFree services (e ∷ f ∷ es) c h = emit_all-IsFree services (f ∷ es) (emit services e c) h

module _ {ℓ} {S : Type ℓ} (qt : Qt) (config : StartupConfig) (services : Services S)
    (answers : IsAnswering services) where
  pub start-IsFree :
      (t : OperationText) (s : ServiceCall) (c : Client S)
      → starts_operation s ≡ true
      → IsFree (start qt config services t s c).router
  unfolding start call
  start-IsFree t s c k = emit_all-IsFree services _ _ (answers s _ k)

  pub send_message-IsFree :
      (who body : QString) (c : Client S)
      → IsFree (send_message qt config services who body c).router
  unfolding send_message emit on_event
  send_message-IsFree who body c =
      if-IsFree (is_empty (qt.trimmed body)) _ _ refl
        (start-IsFree OperationText.sending_message _ _ refl)

  pub open_page-IsFree :
      (name who : QString) (page : Option ℤ) (c : Client S)
      → IsFree (open_page qt config services name who page c).router
  unfolding emit on_event open_conversation
  open_page-IsFree name who none c = refl
  open_page-IsFree name who (some page) c =
      if-IsFree (not (is_positive page)) _ _ refl
        (start-IsFree OperationText.loading_conversation _ _ refl)

  read_arguments-IsFree :
      (name : QString) (args : List QString) (c : Client S)
      → IsFree c.router
      → IsFree (read_arguments qt config services name args c).router
  read_arguments-IsFree name [] c h = h
  read_arguments-IsFree name (who ∷ []) c h = open_page-IsFree name who (some (pos 1)) c
  read_arguments-IsFree name (who ∷ page ∷ []) c h = open_page-IsFree name who (qt.to_int page) c
  read_arguments-IsFree name (who ∷ page ∷ x ∷ xs) c h = h

  with_one-IsFree :
      (t : OperationText) (s : QString → ServiceCall) (args : List QString) (c : Client S)
      → IsFree c.router
      → ((a : QString) → starts_operation (s a) ≡ true)
      → IsFree (with_one qt config services (λ a. start qt config services t (s a)) args c).router
  with_one-IsFree t s [] c h k = h
  with_one-IsFree t s (a ∷ []) c h k = start-IsFree t (s a) c (k a)
  with_one-IsFree t s (a ∷ b ∷ xs) c h k = h

  with_two-IsFree :
      (t : OperationText) (s : QString → QString → ServiceCall) (args : List QString) (c : Client S)
      → IsFree c.router
      → ((a b : QString) → starts_operation (s a b) ≡ true)
      → IsFree
          (with_two qt config services (λ a b. start qt config services t (s a b)) args c).router
  with_two-IsFree t s [] c h k = h
  with_two-IsFree t s (a ∷ []) c h k = h
  with_two-IsFree t s (a ∷ b ∷ []) c h k = start-IsFree t (s a b) c (k a b)
  with_two-IsFree t s (a ∷ b ∷ x ∷ xs) c h k = h

  pub run_command-IsFree :
      (type : CommandType) (name : QString) (args : List QString) (c : Client S)
      → IsFree c.router
      → IsFree (run_command qt config services type name args c).router
  unfolding emit on_event
  run_command-IsFree CommandType.logout name args c h =
      start-IsFree OperationText.logging_out _ _ refl
  run_command-IsFree CommandType.conversations name args c h =
      start-IsFree OperationText.loading_conversations _ c refl
  run_command-IsFree CommandType.inbox name args c h =
      start-IsFree OperationText.loading_unread_inbox _ c refl
  run_command-IsFree CommandType.sync name args c h =
      start-IsFree OperationText.syncing_messages _ c refl
  run_command-IsFree CommandType.sent name args c h =
      start-IsFree OperationText.loading_sent_messages _ c refl
  run_command-IsFree CommandType.read name args c h = read_arguments-IsFree name args c h
  run_command-IsFree CommandType.forward name args c h =
      with_two-IsFree OperationText.forwarding_message _ args c h (λ a b. refl)
  run_command-IsFree CommandType.revoke name args c h =
      with_one-IsFree OperationText.revoking_message _ args c h (λ a. refl)
  run_command-IsFree CommandType.delete_message name args c h =
      with_one-IsFree OperationText.deleting_message _ args c h (λ a. refl)
  run_command-IsFree CommandType.download name args c h =
      with_one-IsFree OperationText.exporting_message _ args c h (λ a. refl)
  run_command-IsFree CommandType.trust name args c h =
      with_one-IsFree OperationText.checking_trust _ args c h (λ a. refl)
  run_command-IsFree CommandType.verify name args c h =
      with_one-IsFree OperationText.verifying_message _ args c h (λ a. refl)
  run_command-IsFree CommandType.register name args c h = h
  run_command-IsFree CommandType.login name args c h = h
  run_command-IsFree CommandType.msg name args c h = h
  run_command-IsFree CommandType.send name args c h = h
  run_command-IsFree CommandType.exit name args c h = h
  run_command-IsFree _ name args c h = refl
