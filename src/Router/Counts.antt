-- ===== src/Router/Counts.antt =====
-- The number of arguments of each command, and what happens where it does not fit.
use epic_kfc.Base.{
  ℕ, QString, Bool, true, false, Option, none, some, List, [], ◌≡◌, refl, if◌then◌else◌, length,
}
use epic_kfc.Models.{StartupConfig, SlashCommand, CommandType}
use epic_kfc.Platform.{Qt}
use epic_kfc.Input.{has_argument_count, expected_count}
use epic_kfc.Events.{Services}
use epic_kfc.Bus.{Client, emit}
use epic_kfc.Controller.{handle_command, invalid_command}
use epic_kfc.Router.{when_argument_count, dispatch, handle_msg_command, handle_send_command}

-- the least and the largest number of arguments of a command, without an active conversation
abbrev pub arity : CommandType → ℕ × Option ℕ
arity CommandType.help = (0, some 0)
arity CommandType.register = (2, some 2)
arity CommandType.login = (1, some 1)
arity CommandType.logout = (0, some 0)
arity CommandType.whoami = (0, some 0)
arity CommandType.status = (0, some 0)
arity CommandType.conversations = (0, some 0)
arity CommandType.inbox = (0, some 0)
arity CommandType.sent = (0, some 0)
arity CommandType.msg = (1, none)
arity CommandType.send = (1, none)
arity CommandType.read = (1, some 2)
arity CommandType.forward = (2, some 2)
arity CommandType.revoke = (1, some 1)
arity CommandType.delete_message = (1, some 1)
arity CommandType.download = (1, some 1)
arity CommandType.trust = (1, some 1)
arity CommandType.verify = (1, some 1)
arity CommandType.sync = (0, some 0)
arity CommandType.cancel = (0, some 0)
arity CommandType.back = (0, some 0)
arity CommandType.exit = (0, some 0)

abbrev pub fits : SlashCommand → Bool
fits cmd = has_argument_count (length cmd.arguments) (arity cmd.type).0 (arity cmd.type).1

-- the commands that the router does not handle itself
abbrev pub is_for_controller : CommandType → Bool
is_for_controller CommandType.register = false
is_for_controller CommandType.login = false
is_for_controller CommandType.msg = false
is_for_controller CommandType.send = false
is_for_controller _ = true

abbrev command_of : CommandType → QString → List QString → QString → SlashCommand
command_of type name args line = record {
  type = type;
  name = name;
  arguments = args;
  original_line = line;
}

module _ {ℓ} {S : Type ℓ} (qt : Qt) (config : StartupConfig) (services : Services S) where
  abbrev pub refuse : SlashCommand → Client S → Client S
  refuse cmd =
      emit services
        (invalid_command (expected_count cmd.name (arity cmd.type).0 (arity cmd.type).1))

  -- A command that does not have the number of arguments of its kind has one effect only: the
  -- error that names the command and the number it wants. No service is called, and the mode
  -- stays. For `/send` there must be no active conversation.
  pub dispatch-refuse :
      (cmd : SlashCommand) (c : Client S)
      → c.router.active_conversation_username ≡ []
      → fits cmd ≡ false
      → dispatch qt config services cmd c ≡ refuse cmd c
  unfolding dispatch handle_msg_command handle_send_command when_argument_count
  dispatch-refuse cmd c no_one h = go cmd.type cmd.name cmd.arguments cmd.original_line h
    where
      go :
          (type : CommandType) (name : QString) (args : List QString) (line : QString)
          → has_argument_count (length args) (arity type).0 (arity type).1 ≡ false
          → dispatch qt config services (command_of type name args line) c
            ≡ refuse (command_of type name args line) c
      go CommandType.send name args line h = rw (no_one, h)
      go _ name args line h = rw h

  -- Every command that the router does not handle itself reaches the controller as it is, if
  -- and only if its arguments fit.
  pub dispatch-handle_command :
      (cmd : SlashCommand) (c : Client S)
      → is_for_controller cmd.type ≡ true
      → dispatch qt config services cmd c
        ≡ (if fits cmd then handle_command qt config services cmd c else refuse cmd c)
  unfolding dispatch when_argument_count
  dispatch-handle_command cmd c h = go cmd.type cmd.name cmd.arguments cmd.original_line h
    where
      go :
          (type : CommandType) (name : QString) (args : List QString) (line : QString)
          → is_for_controller type ≡ true
          → dispatch qt config services (command_of type name args line) c ≡ (
              if has_argument_count (length args) (arity type).0 (arity type).1
              then handle_command qt config services (command_of type name args line) c
              else refuse (command_of type name args line) c)
      go CommandType.register name args line h = cc
      go CommandType.login name args line h = cc
      go CommandType.msg name args line h = cc
      go CommandType.send name args line h = cc
      go _ name args line h = refl
