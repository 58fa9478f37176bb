-- ===== src/Router/Free.antt =====
-- Input is never blocked for good: the router is free after each line.
use epic_kfc.Base.{
  ℕ, QString, not, ◌&&◌, Option, none, some, [], ◌∷◌, refl, ap, ◌∙◌, if_false, if◌then◌else◌,
  Bool-cases, inl, inr, is_empty, starts_with, length, ltb,
}
use epic_kfc.Models.{StartupConfig, SlashCommand, CommandType, Result, success, failure}
use epic_kfc.Platform.{Qt}
use epic_kfc.Parser.{parse}
use epic_kfc.Input.{
  joined_arguments, is_ignored, is_request, submit_command, cancel_command, back_command,
  has_argument_count, is_zero_argument_command, is_one_argument_command,
  without_conversation_prompt_echo,
}
use epic_kfc.Events.{Event, Services, OperationText}
use epic_kfc.Bus.{InputMode, Client, on_event, emit}
use epic_kfc.Controller.{
  register_user, login, open_conversation, begin_message_composition, cancel_composition,
  handle_command,
}
use epic_kfc.Router.{
  when_argument_count, start_register, start_login, handle_msg_command, start_composition,
  handle_send_command, dispatch_other, dispatch_to_controller, dispatch_type, dispatch, run_parsed,
  handle_command_mode, to_command_mode, handle_register_password, handle_login_password,
  forget_lines, handle_message_composition, handle_mode, is_busy, handle_line,
}
use epic_kfc.Router.Answers.{
  IsAnswering, IsFree, if-IsFree, start-IsFree, send_message-IsFree, run_command-IsFree,
}

module _ {ℓ} {S : Type ℓ} (qt : Qt) (config : StartupConfig) (services : Services S)
    (answers : IsAnswering services) where
  when_argument_count-IsFree :
      (cmd : SlashCommand) (minimum : ℕ) (maximum : Option ℕ) (run : Client S → Client S)
      (c : Client S)
      → IsFree (run c).router
      → IsFree (when_argument_count qt config services cmd minimum maximum run c).router
  unfolding when_argument_count emit on_event
  when_argument_count-IsFree cmd minimum maximum run c h =
      if-IsFree (has_argument_count (length cmd.arguments) minimum maximum) _ _ h refl

  start_composition-IsFree :
      (who : QString) (c : Client S)
      → IsFree c.router
      → IsFree (start_composition qt config services who c).router
  unfolding start_composition begin_message_composition emit on_event
  start_composition-IsFree who c h = h

  handle_msg_command-IsFree :
      (cmd : SlashCommand) (c : Client S)
      → IsFree (handle_msg_command qt config services cmd c).router
  unfolding handle_msg_command open_conversation
  handle_msg_command-IsFree cmd c = when_argument_count-IsFree cmd 1 none _ c (
      if-IsFree (is_empty (joined_arguments cmd.arguments 1)) _ _
        (start-IsFree qt config services answers OperationText.loading_conversation _ _ refl)
        (send_message-IsFree qt config services answers _ _ c))

  handle_send_command-IsFree :
      (cmd : SlashCommand) (c : Client S)
      → IsFree c.router
      → IsFree (handle_send_command qt config services cmd c).router
  unfolding handle_send_command
  handle_send_command-IsFree cmd c h =
      if-IsFree (not (is_empty c.router.active_conversation_username)) _ _
        (if-IsFree (is_empty cmd.arguments) _ _ (start_composition-IsFree _ c h)
          (send_message-IsFree qt config services answers _ _ c))
        (when_argument_count-IsFree cmd 1 none _ c (
          if-IsFree (ltb 1 (length cmd.arguments)) _ _
            (send_message-IsFree qt config services answers _ _ c)
            (start_composition-IsFree _ c h)))

  handle_command-IsFree :
      (cmd : SlashCommand) (c : Client S)
      → IsFree c.router
      → IsFree (handle_command qt config services cmd c).router
  unfolding handle_command
  handle_command-IsFree cmd c h =
      run_command-IsFree qt config services answers cmd.type cmd.name cmd.arguments c h

  dispatch-IsFree :
      (cmd : SlashCommand) (c : Client S)
      → IsFree c.router
      → IsFree (dispatch qt config services cmd c).router
  unfolding dispatch emit on_event
  dispatch-IsFree cmd c h = by_type cmd.type
    where
      counted :
          (minimum : ℕ) (maximum : Option ℕ)
          → IsFree
              (when_argument_count qt config services cmd minimum maximum
                (handle_command qt config services cmd)
                c).router
      counted minimum maximum =
          when_argument_count-IsFree cmd minimum maximum _ c (handle_command-IsFree cmd c h)

      other : (type : CommandType) → IsFree (dispatch_other qt config services cmd type c).router
      other CommandType.read = counted 1 (some 2)
      other CommandType.forward = counted 2 (some 2)
      other CommandType.download = counted 1 (some 1)
      other _ = handle_command-IsFree cmd c h

      by_sets : IsFree (dispatch_to_controller qt config services cmd c).router
      by_sets = elim (Bool-cases (is_zero_argument_command cmd.type)) [
        | inl e ↦ rw e (counted 0 (some 0))
        | inr e ↦ rw e (elim (Bool-cases (is_one_argument_command cmd.type)) [
          | inl k ↦ rw k (counted 1 (some 1))
          | inr k ↦ rw k (other cmd.type)
        ])
      ]

      by_type : (type : CommandType) → IsFree (dispatch_type qt config services cmd type c).router
      by_type CommandType.register =
          when_argument_count-IsFree cmd 2 (some 2) (start_register qt config services cmd) c refl
      by_type CommandType.login =
          when_argument_count-IsFree cmd 1 (some 1) (start_login qt config services cmd) c refl
      by_type CommandType.msg = handle_msg_command-IsFree cmd c
      by_type CommandType.send = handle_send_command-IsFree cmd c h
      by_type _ = by_sets

  run_parsed-IsFree :
      (parsed : Result SlashCommand) (c : Client S)
      → IsFree c.router
      → IsFree (run_parsed qt config services parsed c).router
  unfolding emit on_event
  run_parsed-IsFree (failure e) c h = refl
  run_parsed-IsFree (success cmd) c h = dispatch-IsFree cmd _ h

  handle_command_mode-IsFree :
      (line : QString) (c : Client S)
      → IsFree c.router
      → IsFree (handle_command_mode qt config services line c).router
  unfolding handle_command_mode
  handle_command_mode-IsFree line c h = if-IsFree (is_empty (qt.trimmed line)) _ _ h (
      if-IsFree
        (not (is_empty c.router.active_conversation_username)
          && not (starts_with (qt.trimmed line) (b'/' ∷ [])))
        _ _
        (if-IsFree
          (not (
            is_ignored qt
              (without_conversation_prompt_echo qt line c.router.active_conversation_username)))
          _ _ (send_message-IsFree qt config services answers _ _ c) h)
        (run_parsed-IsFree (parse qt line) c h))

  handle_message_composition-IsFree :
      (line : QString) (c : Client S)
      → IsFree c.router
      → IsFree (handle_message_composition qt config services line c).router
  unfolding handle_message_composition cancel_composition emit on_event
  handle_message_composition-IsFree line c h =
      if-IsFree (is_request qt submit_command line) _ _
        (send_message-IsFree qt config services answers _ _ (to_command_mode c))
        (if-IsFree (is_request qt cancel_command line) _ _ h (
          if-IsFree (is_request qt back_command line) _ _
            (handle_command-IsFree _ (forget_lines (to_command_mode c)) h)
            (if-IsFree (is_ignored qt _) _ _ h h)))

  -- If every call of a service ends with a signal that finishes the operation, then no operation
  -- is in progress after a line, in any mode, if none was before it: the next command is read.
  pub handle_line-IsFree :
      (line : QString) (c : Client S)
      → IsFree c.router
      → IsFree (handle_line qt config services line c).router
  unfolding handle_line handle_register_password handle_login_password register_user login
  handle_line-IsFree line c h = by_mode c.router.input_mode
    where
      by_mode :
          (mode : InputMode)
          → IsFree
              (if is_busy c.router mode
                then (if not (is_empty (qt.trimmed line))
                    then emit services
                        (Event.operation_started OperationText.operation_in_progress)
                        c
                    else c)
                else handle_mode qt config services mode line c).router
      by_mode InputMode.command =
          ap (λ (t : Client S). t.router.operation_in_progress)
            (if_false c.router.operation_in_progress _
              (handle_command_mode qt config services line c) h)
          ∙ handle_command_mode-IsFree line c h
      by_mode InputMode.register_password =
          start-IsFree qt config services answers OperationText.registering_user _
            (to_command_mode c) refl
      by_mode InputMode.login_password =
          start-IsFree qt config services answers OperationText.logging_in _ (to_command_mode c)
            refl
      by_mode InputMode.message_composition = handle_message_composition-IsFree line c h
