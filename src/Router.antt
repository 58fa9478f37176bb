-- ===== src/Router.antt =====
-- client/src/app/CommandRouter.cpp: what happens to a line of input.
pub mod Kept
pub mod Traces
pub mod Messages
pub mod Tidy
pub mod Runs
pub mod Counts
pub mod Composition
pub mod Answers
pub mod Free
pub mod Passwords
use epic_kfc.Base.{
  ℕ, zero, suc, ◌-◌, ℤ, QString, text, text_eq, starts_with, is_empty, length, drop, Bool, true,
  false, not, ◌&&◌, ◌||◌, Option, none, some, List, [], ◌∷◌, ◌++◌, if◌then◌else◌, ltb,
}
use epic_kfc.Models.{
  StartupConfig, SlashCommand, CommandType, ErrorText, Result, success, failure,
  argument_count_exactly, argument_count_at_least, default_device_id,
}
use epic_kfc.Platform.{Qt}
use epic_kfc.Parser.{parse}
use epic_kfc.Input.{
  joined_lines, joined_arguments, submit_command, cancel_command, back_command,
  without_conversation_prompt_echo, is_ignored, is_request, is_zero_argument_command,
  is_one_argument_command, has_argument_count, expected_count,
}
use epic_kfc.Events.{
  Event, OperationText, StatusText, Services, operation_started, status_message, command_failed,
  slash_command_received, message_prepared,
}
use epic_kfc.Bus.{Router, InputMode, Client, emit, call}
use epic_kfc.Controller.{
  invalid_command, register_user, login, send_message, open_conversation, begin_message_composition,
  cancel_composition, handle_command,
}

-- arguments.at(0), behind a test that there is one
abbrev pub first_argument : List QString → QString
first_argument [] = []
first_argument (a ∷ _) = a

abbrev pub second_argument : List QString → QString
second_argument (_ ∷ b ∷ _) = b
second_argument _ = []

abbrev pub is_busy : Router → InputMode → Bool
is_busy r InputMode.command = r.operation_in_progress
is_busy r _ = false

module _ {ℓ} {S : Type ℓ} where
  abbrev pub set_router : (Router → Router) → Client S → Client S
  set_router f c = record c { router = f c.router }

  abbrev pub to_command_mode : Client S → Client S
  to_command_mode = set_router (λ r. record r { input_mode = InputMode.command })

  abbrev pub forget_lines : Client S → Client S
  forget_lines = set_router (λ r. record r { composition_lines = [] })

module _ {ℓ} {S : Type ℓ} (qt : Qt) (config : StartupConfig) (services : Services S) where
  -- `if (commandHasArgumentCount(...)) { ... }`
  unfoldable pub when_argument_count :
      SlashCommand → ℕ → Option ℕ → (Client S → Client S) → Client S → Client S
  when_argument_count cmd minimum maximum run c =
      if has_argument_count (length cmd.arguments) minimum maximum
      then run c
      else emit services (invalid_command (expected_count cmd.name minimum maximum)) c

  abbrev pub start_register : SlashCommand → Client S → Client S
  start_register cmd c = emit services (status_message StatusText.enter_registration_password) (
      set_router
        (λ r. record r {
          pending_username = first_argument cmd.arguments;
          pending_email = second_argument cmd.arguments;
          input_mode = InputMode.register_password;
        })
        c)

  abbrev pub start_login : SlashCommand → Client S → Client S
  start_login cmd c = emit services (status_message StatusText.enter_login_password) (
      set_router
        (λ r. record r {
          pending_login_identifier = first_argument cmd.arguments;
          input_mode = InputMode.login_password;
        })
        c)

  -- handleMsgCommand
  unfoldable pub handle_msg_command : SlashCommand → Client S → Client S
  handle_msg_command cmd = when_argument_count cmd 1 none (λ c.
      let username = first_argument cmd.arguments in
      let body = joined_arguments cmd.arguments 1 in
      if is_empty body
      then open_conversation qt config services username (ℤ.pos 1) c
      else send_message qt config services username body c)

  -- the three assignments and the call at the end of handleSendCommand
  unfoldable pub start_composition : QString → Client S → Client S
  start_composition recipient c = begin_message_composition qt config services recipient (
      set_router
        (λ r. record r {
          composition_recipient_username = recipient;
          composition_lines = [];
          input_mode = InputMode.message_composition;
        })
        c)

  -- handleSendCommand
  unfoldable pub handle_send_command : SlashCommand → Client S → Client S
  handle_send_command cmd c =
      let active = c.router.active_conversation_username in
      if not (is_empty active)
      then (if is_empty cmd.arguments
          then start_composition active c
          else send_message qt config services active (joined_arguments cmd.arguments 0) c)
      else when_argument_count cmd 1 none
          (λ c'.
            if ltb 1 (length cmd.arguments)
            then send_message qt config services (first_argument cmd.arguments)
                (joined_arguments cmd.arguments 1) c'
            else start_composition (first_argument cmd.arguments) c')
          c

  -- the switch behind the sets of commands
  abbrev pub dispatch_other : SlashCommand → CommandType → Client S → Client S
  dispatch_other cmd CommandType.read =
      when_argument_count cmd 1 (some 2) (handle_command qt config services cmd)
  dispatch_other cmd CommandType.forward =
      when_argument_count cmd 2 (some 2) (handle_command qt config services cmd)
  dispatch_other cmd CommandType.download =
      when_argument_count cmd 1 (some 1) (handle_command qt config services cmd)
  dispatch_other cmd _ = handle_command qt config services cmd

  abbrev pub dispatch_to_controller : SlashCommand → Client S → Client S
  dispatch_to_controller cmd =
      if is_zero_argument_command cmd.type
      then when_argument_count cmd 0 (some 0) (handle_command qt config services cmd)
      else if is_one_argument_command cmd.type
      then when_argument_count cmd 1 (some 1) (handle_command qt config services cmd)
      else dispatch_other cmd cmd.type

  abbrev pub dispatch_type : SlashCommand → CommandType → Client S → Client S
  dispatch_type cmd CommandType.register = when_argument_count cmd 2 (some 2) (start_register cmd)
  dispatch_type cmd CommandType.login = when_argument_count cmd 1 (some 1) (start_login cmd)
  dispatch_type cmd CommandType.msg = handle_msg_command cmd
  dispatch_type cmd CommandType.send = handle_send_command cmd
  dispatch_type cmd _ = dispatch_to_controller cmd

  -- the part of handleCommandMode behind the parser
  unfoldable pub dispatch : SlashCommand → Client S → Client S
  dispatch cmd = dispatch_type cmd cmd.type

  abbrev pub run_parsed : Result SlashCommand → Client S → Client S
  run_parsed (failure e) c = emit services (command_failed e) c
  run_parsed (success cmd) c = dispatch cmd (emit services (slash_command_received cmd) c)

  abbrev pub send_to_active : QString → QString → Client S → Client S
  send_to_active username body c =
      if not (is_ignored qt body) then send_message qt config services username body c else c

  -- handleCommandMode
  unfoldable pub handle_command_mode : QString → Client S → Client S
  handle_command_mode line c =
      let active = c.router.active_conversation_username in
      if is_empty (qt.trimmed line)
      then c
      else if not (is_empty active) && not (starts_with (qt.trimmed line) (b'/' ∷ []))
      then send_to_active active (without_conversation_prompt_echo qt line active) c
      else run_parsed (parse qt line) c

  -- handleRegisterPassword and handleLoginPassword
  unfoldable pub handle_register_password : QString → Client S → Client S
  handle_register_password line c =
      set_router (λ r. record r { pending_username = []; pending_email = [] })
        (register_user qt config services c.router.pending_username c.router.pending_email line
          (to_command_mode c))

  unfoldable pub handle_login_password : QString → Client S → Client S
  handle_login_password line c =
      set_router (λ r. record r { pending_login_identifier = [] })
        (login qt config services c.router.pending_login_identifier line (to_command_mode c))

  abbrev pub add_line : QString → Client S → Client S
  add_line body c =
      let lines = c.router.composition_lines ++ body ∷ [] in
      if is_ignored qt body
      then c
      else emit services
          (message_prepared c.router.composition_recipient_username default_device_id
            (joined_lines lines))
          (set_router (λ r. record r { composition_lines = lines }) c)

  -- handleMessageComposition
  unfoldable pub handle_message_composition : QString → Client S → Client S
  handle_message_composition line c =
      let recipient = c.router.composition_recipient_username in
      if is_request qt submit_command line
      then forget_lines (
          send_message qt config services recipient (joined_lines c.router.composition_lines)
            (to_command_mode c))
      else if is_request qt cancel_command line
      then cancel_composition qt config services (forget_lines (to_command_mode c))
      else if is_request qt back_command line
      then handle_command qt config services
          (record {
            type = CommandType.back;
            name = text "back";
            arguments = [];
            original_line = line;
          })
          (forget_lines (to_command_mode c))
      else add_line (without_conversation_prompt_echo qt line recipient) c

  abbrev pub handle_mode : InputMode → QString → Client S → Client S
  handle_mode InputMode.command = handle_command_mode
  handle_mode InputMode.register_password = handle_register_password
  handle_mode InputMode.login_password = handle_login_password
  handle_mode InputMode.message_composition = handle_message_composition

  -- handleLine
  unfoldable pub handle_line : QString → Client S → Client S
  handle_line line c =
      if is_busy c.router c.router.input_mode
      then (if not (is_empty (qt.trimmed line))
          then emit services (operation_started OperationText.operation_in_progress) c
          else c)
      else handle_mode c.router.input_mode line c
