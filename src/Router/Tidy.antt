-- ===== src/Router/Tidy.antt =====
-- What a line leaves behind: the values that wait for a password, and the lines of a message,
-- are there only in the mode that needs them.
use epic_kfc.Base.{
  pos, ℕ, QString, Bool, true, false, not, ◌&&◌, Option, none, some, [], ◌∷◌, ◌≡◌, refl, ap, ◌∙◌,
  if◌then◌else◌, Bool-cases, inl, inr, is_empty, starts_with, length, ltb,
}
use epic_kfc.Models.{StartupConfig, SlashCommand, CommandType, Result, success, failure}
use epic_kfc.Platform.{Qt}
use epic_kfc.Parser.{parse}
use epic_kfc.Input.{
  joined_arguments, is_ignored, has_argument_count, is_zero_argument_command,
  is_one_argument_command, without_conversation_prompt_echo,
}
use epic_kfc.Events.{Services}
use epic_kfc.Bus.{Router, InputMode, Client}
use epic_kfc.Controller.{handle_command, send_message}
use epic_kfc.Router.{
  when_argument_count, start_register, start_login, handle_msg_command, start_composition,
  handle_send_command, dispatch_other, dispatch_to_controller, dispatch_type, dispatch, run_parsed,
  send_to_active, handle_command_mode,
}
use epic_kfc.Router.Kept.{
  Kept, kept, emit-kept, open_conversation-kept, send_message-kept, begin_message_composition-kept,
  handle_command-kept,
}

abbrev pub IsTidyIn : InputMode → Kept → Type 0
IsTidyIn InputMode.command k =
    (k.pending_username ≡ [])
    × (k.pending_email ≡ [])
    × (k.pending_login_identifier ≡ [])
    × (k.composition_lines ≡ [])
IsTidyIn InputMode.register_password k =
    (k.pending_login_identifier ≡ []) × (k.composition_lines ≡ [])
IsTidyIn InputMode.login_password k =
    (k.pending_username ≡ []) × (k.pending_email ≡ []) × (k.composition_lines ≡ [])
IsTidyIn InputMode.message_composition k =
    (k.pending_username ≡ []) × (k.pending_email ≡ []) × (k.pending_login_identifier ≡ [])

abbrev pub IsTidyKept : Kept → Type 0
IsTidyKept k = IsTidyIn k.input_mode k

-- only what the mode needs is there
abbrev pub IsTidy : Router → Type 0
IsTidy r = IsTidyKept (kept r)

abbrev idle : QString → Kept
idle recipient = record {
  input_mode = InputMode.command;
  pending_username = [];
  pending_email = [];
  pending_login_identifier = [];
  composition_recipient_username = recipient;
  composition_lines = [];
}

-- tidy, in the mode for commands
abbrev pub IsIdle : Router → Type 0
IsIdle r = (recipient : QString) × (kept r ≡ idle recipient)

pub same-IsTidy : {k k' : Kept} → k ≡ k' → IsTidyKept k' → IsTidyKept k
same-IsTidy e h = rw e h

idle-IsTidy : (r : Router) → IsIdle r → IsTidy r
idle-IsTidy r (recipient, e) = same-IsTidy e (refl, refl, refl, refl)

pub tidy-IsIdle :
    (r : Router) → r.input_mode ≡ InputMode.command → IsTidyIn InputMode.command (kept r) → IsIdle r
tidy-IsIdle r e (a, b, c, d) = (r.composition_recipient_username, rw (e, a, b, c, d))

pub in_mode-IsTidy :
    (k : Kept) (mode : InputMode) → k.input_mode ≡ mode → IsTidyIn mode k → IsTidyKept k
in_mode-IsTidy k mode e h = go k.input_mode e
  where
    go : (m : InputMode) → m ≡ mode → IsTidyIn m k
    go m e = rw e h

-- an idle client is tidy behind a step that keeps its input
pub kept-IsTidy {ℓ} :
    {S : Type ℓ} (c : Client S) {k : Kept} → IsIdle c.router → k ≡ kept c.router → IsTidyKept k
kept-IsTidy c h e = same-IsTidy e (idle-IsTidy c.router h)

pub if-IsTidy {ℓ} :
    {S : Type ℓ} (test : Bool) (c c' : Client S)
    → IsTidy c.router
    → IsTidy c'.router
    → IsTidy (if test then c else c').router
if-IsTidy true c c' h k = h
if-IsTidy false c c' h k = k

module _ {ℓ} {S : Type ℓ} (qt : Qt) (config : StartupConfig) (services : Services S) where
  when_argument_count-IsTidy :
      (cmd : SlashCommand) (minimum : ℕ) (maximum : Option ℕ) (run : Client S → Client S)
      (c : Client S)
      → IsIdle c.router
      → IsTidy (run c).router
      → IsTidy (when_argument_count qt config services cmd minimum maximum run c).router
  unfolding when_argument_count
  when_argument_count-IsTidy cmd minimum maximum run c h k =
      elim (Bool-cases (has_argument_count (length cmd.arguments) minimum maximum)) [
        | inl e ↦ rw e k
        | inr e ↦ rw e (kept-IsTidy c h (emit-kept services _ c))
      ]

  start_composition-IsTidy :
      (recipient : QString) (c : Client S)
      → IsIdle c.router
      → IsTidy (start_composition qt config services recipient c).router
  unfolding start_composition
  start_composition-IsTidy recipient c (x, e) =
      same-IsTidy (begin_message_composition-kept qt config services recipient _) (
        ap (λ (k : Kept). k.pending_username) e,
        ap (λ (k : Kept). k.pending_email) e,
        ap (λ (k : Kept). k.pending_login_identifier) e,
      )

  start_register-IsTidy :
      (cmd : SlashCommand) (c : Client S)
      → IsIdle c.router
      → IsTidy (start_register qt config services cmd c).router
  start_register-IsTidy cmd c (x, e) =
      same-IsTidy (emit-kept services _ _)
        (ap (λ (k : Kept). k.pending_login_identifier) e, ap (λ (k : Kept). k.composition_lines) e)

  start_login-IsTidy :
      (cmd : SlashCommand) (c : Client S)
      → IsIdle c.router
      → IsTidy (start_login qt config services cmd c).router
  start_login-IsTidy cmd c (x, e) = same-IsTidy (emit-kept services _ _) (
    ap (λ (k : Kept). k.pending_username) e,
    ap (λ (k : Kept). k.pending_email) e,
    ap (λ (k : Kept). k.composition_lines) e,
  )

  message-IsTidy :
      (c : Client S) (u body : QString)
      → IsIdle c.router
      → IsTidy (send_message qt config services u body c).router
  message-IsTidy c u body h = kept-IsTidy c h (send_message-kept qt config services u body c)

  handle_msg_command-IsTidy :
      (cmd : SlashCommand) (c : Client S)
      → IsIdle c.router
      → IsTidy (handle_msg_command qt config services cmd c).router
  unfolding handle_msg_command
  handle_msg_command-IsTidy cmd c h =
      when_argument_count-IsTidy cmd 1 none _ c h
        (elim (Bool-cases (is_empty (joined_arguments cmd.arguments 1))) [
          | inl e ↦ rw e (kept-IsTidy c h (open_conversation-kept qt config services _ (pos 1) c))
          | inr e ↦ rw e (message-IsTidy c _ _ h)
        ])

  handle_send_command-IsTidy :
      (cmd : SlashCommand) (c : Client S)
      → IsIdle c.router
      → IsTidy (handle_send_command qt config services cmd c).router
  unfolding handle_send_command
  handle_send_command-IsTidy cmd c h =
      elim (Bool-cases (is_empty c.router.active_conversation_username)) [
        | inl e ↦ rw e (
            when_argument_count-IsTidy cmd 1 none _ c h
              (elim (Bool-cases (ltb 1 (length cmd.arguments))) [
                | inl k ↦ rw k (message-IsTidy c _ _ h)
                | inr k ↦ rw k (start_composition-IsTidy _ c h)
              ]))
        | inr e ↦ rw e (elim (Bool-cases (is_empty cmd.arguments)) [
          | inl k ↦ rw k (start_composition-IsTidy _ c h)
          | inr k ↦ rw k (message-IsTidy c _ _ h)
        ])
      ]

  to_controller-IsTidy :
      (cmd : SlashCommand) (minimum : ℕ) (maximum : Option ℕ) (c : Client S)
      → IsIdle c.router
      → IsTidy
          (when_argument_count qt config services cmd minimum maximum
            (handle_command qt config services cmd)
            c).router
  to_controller-IsTidy cmd minimum maximum c h =
      when_argument_count-IsTidy cmd minimum maximum _ c h
        (kept-IsTidy c h (handle_command-kept qt config services cmd c))

  dispatch_to_controller-IsTidy :
      (cmd : SlashCommand) (c : Client S)
      → IsIdle c.router
      → IsTidy (dispatch_to_controller qt config services cmd c).router
  dispatch_to_controller-IsTidy cmd c h = elim (Bool-cases (is_zero_argument_command cmd.type)) [
    | inl e ↦ rw e (to_controller-IsTidy cmd 0 (some 0) c h)
    | inr e ↦ rw e (elim (Bool-cases (is_one_argument_command cmd.type)) [
      | inl k ↦ rw k (to_controller-IsTidy cmd 1 (some 1) c h)
      | inr k ↦ rw k (other cmd.type)
    ])
  ]
    where
      other : (type : CommandType) → IsTidy (dispatch_other qt config services cmd type c).router
      other CommandType.read = to_controller-IsTidy cmd 1 (some 2) c h
      other CommandType.forward = to_controller-IsTidy cmd 2 (some 2) c h
      other CommandType.download = to_controller-IsTidy cmd 1 (some 1) c h
      other _ = kept-IsTidy c h (handle_command-kept qt config services cmd c)

  dispatch-IsTidy :
      (cmd : SlashCommand) (c : Client S)
      → IsIdle c.router
      → IsTidy (dispatch qt config services cmd c).router
  unfolding dispatch
  dispatch-IsTidy cmd c h = by_type cmd.type
    where
      by_type : (type : CommandType) → IsTidy (dispatch_type qt config services cmd type c).router
      by_type CommandType.register =
          when_argument_count-IsTidy cmd 2 (some 2) _ c h (start_register-IsTidy cmd c h)
      by_type CommandType.login =
          when_argument_count-IsTidy cmd 1 (some 1) _ c h (start_login-IsTidy cmd c h)
      by_type CommandType.msg = handle_msg_command-IsTidy cmd c h
      by_type CommandType.send = handle_send_command-IsTidy cmd c h
      by_type _ = dispatch_to_controller-IsTidy cmd c h

  run_parsed-IsTidy :
      (parsed : Result SlashCommand) (c : Client S)
      → IsIdle c.router
      → IsTidy (run_parsed qt config services parsed c).router
  run_parsed-IsTidy (failure e) c h = kept-IsTidy c h (emit-kept services _ c)
  run_parsed-IsTidy (success cmd) c (recipient, e) =
      dispatch-IsTidy cmd _ (recipient, emit-kept services _ c ∙ e)

  pub handle_command_mode-IsTidy :
      (line : QString) (c : Client S)
      → IsIdle c.router
      → IsTidy (handle_command_mode qt config services line c).router
  unfolding handle_command_mode
  handle_command_mode-IsTidy line c h = elim (Bool-cases (is_empty (qt.trimmed line))) [
    | inl e ↦ rw e (kept-IsTidy c h refl)
    | inr e ↦
        rw e
          (elim (Bool-cases (
            not (is_empty c.router.active_conversation_username)
            && not (starts_with (qt.trimmed line) (b'/' ∷ [])))) [
              | inl k ↦ rw k (
                  to_active (
                    without_conversation_prompt_echo qt line c.router.active_conversation_username))
              | inr k ↦ rw k (run_parsed-IsTidy (parse qt line) c h)
            ])
  ]
    where
      to_active :
          (body : QString)
          → IsTidy
              (send_to_active qt config services c.router.active_conversation_username body
                c).router
      to_active body = elim (Bool-cases (is_ignored qt body)) [
        | inl e ↦ rw e (kept-IsTidy c h refl)
        | inr e ↦ rw e (message-IsTidy c _ _ h)
      ]
