-- ===== src/Examples/Clients.antt =====
-- The router's theorems on a client with services that answer every call.
use epic_kfc.Base.{
  ℕ, QString, text, text_eq, starts_with, List, [], ◌∷◌, ◌++◌, map, ◌≡◌, refl, if◌then◌else◌,
}
use epic_kfc.Models.{SlashCommand, CommandType}
use epic_kfc.Input.{
  newline, submit_command, without_conversation_prompt_echo, is_client_output_echo,
}
use epic_kfc.Input.Joined.{interspersed}
use epic_kfc.Events.{Event, OperationText, ServiceCall}
use epic_kfc.Bus.{InputMode, Client, Action, emitted, called, initial_router, emit_all, emit}
use epic_kfc.Controller.{handle_command}
use epic_kfc.Router.{dispatch, handle_line}
use epic_kfc.Router.Kept.{kept}
use epic_kfc.Router.Tidy.{IsTidy}
use epic_kfc.Router.Runs.{Run, Step, Run-IsTidy}
use epic_kfc.Router.Counts.{dispatch-handle_command, refuse, fits}
use epic_kfc.Router.Messages.{line_of}
use epic_kfc.Router.Traces.{requests}
use epic_kfc.Router.Composition.{composition_flow, IsBodyLine, feed, body_of, composing}
use epic_kfc.Examples.Platforms.{ascii, ascii_laws, answering, mock_config}

abbrev start : Client ℕ
start = record { router = initial_router; services = 0; trace = [] }

abbrev bob : QString
bob = text "bob"

abbrev read_line : QString → Client ℕ → Client ℕ
read_line = handle_line ascii mock_config answering

abbrev after_signal : Client ℕ
after_signal = emit answering Event.session_ended (read_line (text "/login bob") start)

Run-IsTidy_example : IsTidy after_signal.router
Run-IsTidy_example =
    Run-IsTidy ascii mock_config answering start after_signal
      (Run.step start _ after_signal (Step.line start (text "/login bob")) (
        Run.step _ after_signal after_signal (Step.signal _ Event.session_ended)
          (Run.stop after_signal)))
      (refl, refl, refl, refl)

abbrev asked_register : Client ℕ
asked_register = read_line (line_of CommandType.register (bob ∷ text "mail" ∷ [])) start

abbrev done_register : Client ℕ
done_register =
    read_line (text "/exit") (emit_all answering (Event.session_ended ∷ []) asked_register)

abbrev asked_login : Client ℕ
asked_login = read_line (line_of CommandType.login (bob ∷ [])) start

abbrev rest_of_message : List (List Event × QString)
rest_of_message = (Event.session_ended ∷ [], text "there") ∷ []

abbrev composed : Client ℕ
composed =
    feed ascii mock_config answering (([], text "hello") ∷ rest_of_message)
      (read_line (line_of CommandType.send (bob ∷ [])) start)

hello-IsBodyLine : IsBodyLine ascii bob (text "hello")
unfolding text_eq starts_with without_conversation_prompt_echo is_client_output_echo
hello-IsBodyLine = (refl, refl, refl, refl)

there-IsBodyLine : IsBodyLine ascii bob (text "there")
unfolding text_eq starts_with without_conversation_prompt_echo is_client_output_echo
there-IsBodyLine = (refl, refl, refl, refl)

composition_flow_example :
    ((more : List Action) × ((read_line submit_command composed).trace
        ≡ composed.trace
          ++ emitted (Event.conversation_target_changed bob)
            ∷ emitted (Event.operation_started OperationText.sending_message)
            ∷ called (
                ServiceCall.send bob (
                  interspersed newline (
                    body_of ascii bob (text "hello")
                    ∷ map (λ i. body_of ascii bob i.1) rest_of_message)))
            ∷ more))
    × (requests (read_line submit_command composed).trace
        ≡ ServiceCall.send bob (
            interspersed newline
              (body_of ascii bob (text "hello") ∷ map (λ i. body_of ascii bob i.1) rest_of_message))
          ∷ [])
    × (kept (read_line submit_command composed).router
        ≡ record (composing bob [] (kept initial_router)) { input_mode = InputMode.command })
composition_flow_example =
    composition_flow ascii_laws mock_config answering bob submit_command [] (text "hello")
      rest_of_message start (refl, refl) refl (λ e. cc) (hello-IsBodyLine, (there-IsBodyLine, tt))
      (unfold text_eq in refl)

-- `/forward` with one argument, and with two
abbrev forward_one : SlashCommand
forward_one = record {
  type = CommandType.forward;
  name = text "forward";
  arguments = bob ∷ [];
  original_line = [];
}

abbrev forward_two : SlashCommand
forward_two = record forward_one { arguments = bob ∷ bob ∷ [] }

dispatch-handle_command_example : dispatch ascii mock_config answering forward_two start ≡ (
    if fits forward_two
    then handle_command ascii mock_config answering forward_two start
    else refuse ascii mock_config answering forward_two start)
dispatch-handle_command_example =
    dispatch-handle_command ascii mock_config answering forward_two start refl
