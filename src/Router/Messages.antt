-- ===== src/Router/Messages.antt =====
-- From a line of input to the service: a message that is sent in one line.
use epic_kfc.Base.{
  QString, false, not, ◌&&◌, List, [], ◌∷◌, ◌++◌, ◌≡◌, refl, ap, ◌∙◌, append_assoc, arith,
  if◌then◌else◌, is_empty, starts_with, length, ltb, All, if_false,
}
use epic_kfc.Models.{StartupConfig, SlashCommand, CommandType}
use epic_kfc.Platform.{Qt, QtLaws}
use epic_kfc.Commands.{command_type_name}
use epic_kfc.Commands.Names.{command_type_name-is_lower_word}
use epic_kfc.Parser.NonEmpty.{IsNonEmpty}
use epic_kfc.Parser.RoundTrip.{render}
use epic_kfc.Parser.Lines.{parse-line, lower_line_IsVisibleLast}
use epic_kfc.Input.{has_argument_count, joined_arguments}
use epic_kfc.Input.Joined.{is_empty-append, interspersed, join_loop-interspersed}
use epic_kfc.Events.{Event, Services, ServiceCall, OperationText}
use epic_kfc.Bus.{Router, InputMode, Client, Action, emitted, called, emit}
use epic_kfc.Controller.{send_message}
use epic_kfc.Router.{
  when_argument_count, handle_msg_command, dispatch, handle_command_mode, handle_line, is_busy,
  handle_mode, run_parsed,
}
use epic_kfc.Router.Traces.{start-trace, requests, start-requests, emit-requests}

-- the line that names a command and its arguments, each in quotes
abbrev pub line_of : CommandType → List QString → QString
line_of type args = b'/' ∷ (command_type_name type ++ render args)

-- the command that the parser makes of it
abbrev pub command_of : CommandType → List QString → SlashCommand
command_of type args = record {
  type = type;
  name = command_type_name type;
  arguments = args;
  original_line = line_of type args;
}

pub is_empty-false : (s : QString) → IsNonEmpty s → is_empty s ≡ false
is_empty-false [] h = absurd (h refl)
is_empty-false (c ∷ s) h = refl

abbrev pub IsReady : Router → Type 0
IsReady r = (r.input_mode ≡ InputMode.command) × (r.operation_in_progress ≡ false)

-- sending a text that is not blank
pub send_message-trace {ℓ} :
    {S : Type ℓ} (qt : Qt) (config : StartupConfig) (services : Services S) (who body : QString)
    (c : Client S)
    → is_empty (qt.trimmed body) ≡ false
    → (more : List Action) × ((send_message qt config services who body c).trace
        ≡ c.trace
          ++ emitted (Event.conversation_target_changed who)
            ∷ emitted (Event.operation_started OperationText.sending_message)
            ∷ called (ServiceCall.send who body)
            ∷ more)
unfolding send_message emit
send_message-trace qt config services who body c visible =
    let (more, h) =
      start-trace services qt config OperationText.sending_message (ServiceCall.send who body)
        (emit services (Event.conversation_target_changed who) c) in
    (more, rw visible (h ∙ append_assoc c.trace (_ ∷ []) _))

-- it is one call of a service
pub send_message-requests {ℓ} :
    {S : Type ℓ} (qt : Qt) (config : StartupConfig) (services : Services S) (who body : QString)
    (c : Client S)
    → is_empty (qt.trimmed body) ≡ false
    → requests (send_message qt config services who body c).trace
      ≡ requests c.trace ++ ServiceCall.send who body ∷ []
unfolding send_message
send_message-requests qt config services who body c visible = rw visible (
    start-requests services qt config OperationText.sending_message (ServiceCall.send who body) _
      refl
    ∙ ap (λ r. r ++ ServiceCall.send who body ∷ [])
        (emit-requests services (Event.conversation_target_changed who) c))

module _ {ℓ} {S : Type ℓ} (qt : Qt) (config : StartupConfig) (services : Services S) where
  -- a line goes to the handler of the mode, unless that is busy
  pub line_in_mode :
      (line : QString) (c : Client S) (mode : InputMode)
      → c.router.input_mode ≡ mode
      → is_busy c.router mode ≡ false
      → handle_line qt config services line c ≡ handle_mode qt config services mode line c
  unfolding handle_line
  line_in_mode line c mode e free = ap in_mode e ∙ if_false _ _ _ free
    where
      in_mode : InputMode → Client S
      in_mode mode =
          if is_busy c.router mode
          then (if not (is_empty (qt.trimmed line))
              then emit services (Event.operation_started OperationText.operation_in_progress) c
              else c)
          else handle_mode qt config services mode line c

module _ {ℓ} {S : Type ℓ} {qt : Qt} (laws : QtLaws qt) (config : StartupConfig)
    (services : Services S) where
  pub handle_line-command :
      (type : CommandType) (args : List QString) (c : Client S)
      → IsReady c.router
      → All IsNonEmpty args
      → handle_line qt config services (line_of type args) c
        ≡ dispatch qt config services
            (command_of type args)
            (emit services (Event.slash_command_received (command_of type args)) c)
  unfolding handle_command_mode
  handle_line-command type args c ready h =
      let visible : qt.trimmed (line_of type args) ≡ line_of type args =
        laws.trimmed_visible b'/' (command_type_name type ++ render args) laws.is_space_slash (
          lower_line_IsVisibleLast laws (command_type_name type) args
            (command_type_name-is_lower_word type)) in
      line_in_mode qt config services (line_of type args) c InputMode.command ready.0 ready.1
      ∙ if_false (is_empty (qt.trimmed (line_of type args))) _ _ (rw visible refl)
      ∙ if_false
          (not (is_empty c.router.active_conversation_username)
            && not (starts_with (qt.trimmed (line_of type args)) (b'/' ∷ [])))
          _ _ (rw visible (unfold starts_with in ground arith))
      ∙ ap (λ r. run_parsed qt config services r c) (parse-line laws type args h)

  dispatch-msg :
      (who word : QString) (words : List QString) (c : Client S)
      → IsNonEmpty word
      → dispatch qt config services (command_of CommandType.msg (who ∷ word ∷ words)) c
        ≡ send_message qt config services who (interspersed b' ' (word ∷ words)) c
  unfolding dispatch handle_msg_command when_argument_count has_argument_count joined_arguments
  dispatch-msg who word words c h =
      let more_than_one : ltb (length (who ∷ word ∷ words)) 1 ≡ false = ground arith in
      let body = join_loop-interspersed b' ' word words (is_empty-false word h) in
      rw (more_than_one, body, is_empty-append word _ (is_empty-false word h)) refl

  -- A line `/msg` with a recipient and one word or more, on a router that is ready, hands to the
  -- service for that recipient the words with a blank between each two of them, unless they are
  -- blank. Before the call only three signals are seen: that the command was read, that the
  -- conversation is now the recipient's, and that the sending has started.
  pub msg_sends :
      (who word : QString) (words : List QString) (c : Client S)
      → IsReady c.router
      → All IsNonEmpty (who ∷ word ∷ words)
      → is_empty (qt.trimmed (interspersed b' ' (word ∷ words))) ≡ false
      → (more : List Action) × ((handle_line qt config services
            (line_of CommandType.msg (who ∷ word ∷ words))
            c).trace
          ≡ c.trace
            ++ emitted
                (Event.slash_command_received (command_of CommandType.msg (who ∷ word ∷ words)))
              ∷ emitted (Event.conversation_target_changed who)
              ∷ emitted (Event.operation_started OperationText.sending_message)
              ∷ called (ServiceCall.send who (interspersed b' ' (word ∷ words)))
              ∷ more)
  unfolding emit
  msg_sends who word words c ready h visible =
      let cmd = command_of CommandType.msg (who ∷ word ∷ words) in
      let received = emit services (Event.slash_command_received cmd) c in
      let (more, sent) =
        send_message-trace qt config services who (interspersed b' ' (word ∷ words)) received
          visible in
      let same =
        handle_line-command CommandType.msg (who ∷ word ∷ words) c ready h
        ∙ dispatch-msg who word words received h.1.0 in
      (more, ap (λ (t : Client S). t.trace) same ∙ sent ∙ append_assoc c.trace (_ ∷ []) _)
