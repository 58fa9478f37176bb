-- ===== src/Controller.antt =====
-- client/src/app/ClientController.cpp: the commands of the controller.
use epic_kfc.Base.{
  ℤ, pos, QString, is_empty, not, Option, none, some, List, [], ◌∷◌, if◌then◌else◌, is_positive,
}
use epic_kfc.Models.{
  ClientMode, StartupConfig, SlashCommand, CommandType, ErrorCode, ErrorText, AuthSession,
  empty_message, positive_page,
}
use epic_kfc.Platform.{Qt}
use epic_kfc.Events.{
  Event, OperationText, StatusText, ServiceCall, Services, conversation_target_changed,
  operation_started, status_message, command_failed, message_prepared,
  message_composition_cancelled, exit_requested,
}
use epic_kfc.Bus.{Client, emit, call}

abbrev pub invalid_command : ErrorText → Event
invalid_command message =
    command_failed (record { code = ErrorCode.invalid_command; message = message })

module _ {ℓ} {S : Type ℓ} (qt : Qt) (config : StartupConfig) (services : Services S) where
  -- an operation is announced, and its service is called
  unfoldable pub start : OperationText → ServiceCall → Client S → Client S
  start operation s c = call services s (emit services (operation_started operation) c)

  abbrev whoami_text : Option AuthSession → StatusText
  whoami_text none = StatusText.not_logged_in
  whoami_text (some session) = StatusText.logged_in_as session.user.username session.user.id

  abbrev status_text : ClientMode → StatusText
  status_text ClientMode.real = StatusText.real_status config.api_url config.device_id
  status_text ClientMode.mock = StatusText.mock_status config.device_id

  -- registerUser and login
  unfoldable pub register_user : QString → QString → QString → Client S → Client S
  register_user username email password =
      start OperationText.registering_user (ServiceCall.register_user username email password)

  unfoldable pub login : QString → QString → Client S → Client S
  login username_or_email password =
      start OperationText.logging_in (ServiceCall.login username_or_email password)

  -- openConversation
  unfoldable pub open_conversation : QString → ℤ → Client S → Client S
  open_conversation username page c =
      start OperationText.loading_conversation (ServiceCall.read_conversation username page)
        (emit services (conversation_target_changed username) c)

  -- sendMessage, and submitComposedMessage
  unfoldable pub send_message : QString → QString → Client S → Client S
  send_message recipient_username body c =
      if is_empty (qt.trimmed body)
      then emit services (invalid_command empty_message) c
      else start OperationText.sending_message (ServiceCall.send recipient_username body)
          (emit services (conversation_target_changed recipient_username) c)

  -- beginMessageComposition and cancelComposition
  unfoldable pub begin_message_composition : QString → Client S → Client S
  begin_message_composition recipient_username c =
      emit services (message_prepared recipient_username config.device_id [])
        (emit services (conversation_target_changed recipient_username) c)

  unfoldable pub cancel_composition : Client S → Client S
  cancel_composition = emit services message_composition_cancelled

  abbrev pub open_page : QString → QString → Option ℤ → Client S → Client S
  open_page name username none c = emit services (invalid_command (positive_page name)) c
  open_page name username (some page) c =
      if not (is_positive page)
      then emit services (invalid_command (positive_page name)) c
      else open_conversation username page c

  abbrev pub read_arguments : QString → List QString → Client S → Client S
  read_arguments name (username ∷ []) c = open_page name username (some (pos 1)) c
  read_arguments name (username ∷ page ∷ []) c = open_page name username (qt.to_int page) c
  read_arguments name _ c = c

  abbrev pub with_one : (QString → Client S → Client S) → List QString → Client S → Client S
  with_one f (a ∷ []) c = f a c
  with_one f _ c = c

  abbrev pub with_two :
      (QString → QString → Client S → Client S) → List QString → Client S → Client S
  with_two f (a ∷ b ∷ []) c = f a b c
  with_two f _ c = c

  abbrev pub run_command : CommandType → QString → List QString → Client S → Client S
  run_command CommandType.help name args = emit services (status_message StatusText.help_text)
  run_command CommandType.logout name args = λ c.
      start OperationText.logging_out ServiceCall.logout
        (emit services (conversation_target_changed []) c)
  run_command CommandType.whoami name args =
      λ c. emit services (status_message (whoami_text (services.current_session c.services))) c
  run_command CommandType.status name args =
      emit services (status_message (status_text config.mode))
  run_command CommandType.conversations name args =
      start OperationText.loading_conversations ServiceCall.list_conversations
  run_command CommandType.inbox name args =
      start OperationText.loading_unread_inbox ServiceCall.list_unread_senders
  run_command CommandType.sync name args =
      start OperationText.syncing_messages ServiceCall.list_received
  run_command CommandType.sent name args =
      start OperationText.loading_sent_messages ServiceCall.list_sent
  run_command CommandType.read name args = read_arguments name args
  run_command CommandType.forward name args =
      with_two (λ a b. start OperationText.forwarding_message (ServiceCall.forward a b)) args
  run_command CommandType.revoke name args =
      with_one (λ a. start OperationText.revoking_message (ServiceCall.revoke a)) args
  run_command CommandType.delete_message name args =
      with_one (λ a. start OperationText.deleting_message (ServiceCall.delete_message a)) args
  run_command CommandType.download name args =
      with_one (λ a. start OperationText.exporting_message (ServiceCall.download a)) args
  run_command CommandType.trust name args =
      with_one (λ a. start OperationText.checking_trust (ServiceCall.trust_username a)) args
  run_command CommandType.verify name args =
      with_one (λ a. start OperationText.verifying_message (ServiceCall.verify a)) args
  run_command CommandType.cancel name args =
      emit services (status_message StatusText.no_composition)
  run_command CommandType.back name args = λ c.
      emit services (status_message StatusText.returned_to_main_menu)
        (emit services (conversation_target_changed []) c)
  run_command CommandType.exit name args = emit services exit_requested
  run_command _ name args = λ c. c

  -- handleCommand
  unfoldable pub handle_command : SlashCommand → Client S → Client S
  handle_command cmd = run_command cmd.type cmd.name cmd.arguments
