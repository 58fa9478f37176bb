-- ===== src/Router/Runs.antt =====
-- The runs of the client: every sequence of lines and of signals, in any order, and what holds at
-- every point of each.
use epic_kfc.Base.{QString, not, [], ◌≡◌, refl, ap, if◌then◌else◌, Bool-cases, inl, inr, is_empty}
use epic_kfc.Models.{StartupConfig}
use epic_kfc.Platform.{Qt}
use epic_kfc.Input.{submit_command, cancel_command, back_command, is_request, is_ignored}
use epic_kfc.Events.{Event, OperationText, Services}
use epic_kfc.Bus.{InputMode, Client, emit}
use epic_kfc.Router.{
  to_command_mode, handle_register_password, handle_login_password, add_line,
  handle_message_composition, handle_mode, is_busy, handle_line,
}
use epic_kfc.Router.Kept.{
  Kept, kept, emit-kept, register_user-kept, login-kept, send_message-kept, cancel_composition-kept,
  handle_command-kept,
}
use epic_kfc.Router.Tidy.{
  IsTidyIn, IsTidy, same-IsTidy, tidy-IsIdle, in_mode-IsTidy, kept-IsTidy, if-IsTidy,
  handle_command_mode-IsTidy,
}

module _ {ℓ} {S : Type ℓ} (qt : Qt) (config : StartupConfig) (services : Services S) where
  -- the mode is left, with what was tidy in it
  register_password-IsTidy :
      (line : QString) (c : Client S)
      → IsTidyIn InputMode.register_password (kept c.router)
      → IsTidy (handle_register_password qt config services line c).router
  unfolding handle_register_password
  register_password-IsTidy line c (a, b) =
      let e =
        register_user-kept qt config services c.router.pending_username c.router.pending_email line
          (to_command_mode c) in
      same-IsTidy (ap (λ (k : Kept). record k { pending_username = []; pending_email = [] }) e)
        (refl, refl, a, b)

  login_password-IsTidy :
      (line : QString) (c : Client S)
      → IsTidyIn InputMode.login_password (kept c.router)
      → IsTidy (handle_login_password qt config services line c).router
  unfolding handle_login_password
  login_password-IsTidy line c (a, b, d) =
      let e =
        login-kept qt config services c.router.pending_login_identifier line (to_command_mode c) in
      same-IsTidy (ap (λ (k : Kept). record k { pending_login_identifier = [] }) e) (a, b, refl, d)

  add_line-IsTidy :
      (body : QString) (c : Client S)
      → c.router.input_mode ≡ InputMode.message_composition
      → IsTidyIn InputMode.message_composition (kept c.router)
      → IsTidy (add_line qt config services body c).router
  add_line-IsTidy body c m h = elim (Bool-cases (is_ignored qt body)) [
    | inl e ↦ rw e (in_mode-IsTidy (kept c.router) _ m h)
    | inr e ↦
        rw e (
          same-IsTidy (emit-kept services _ _) (in_mode-IsTidy _ InputMode.message_composition m h))
  ]

  message_composition-IsTidy :
      (line : QString) (c : Client S)
      → c.router.input_mode ≡ InputMode.message_composition
      → IsTidyIn InputMode.message_composition (kept c.router)
      → IsTidy (handle_message_composition qt config services line c).router
  unfolding handle_message_composition
  message_composition-IsTidy line c m (a, b, d) =
      elim (Bool-cases (is_request qt submit_command line)) [
        | inl e ↦ rw e (
            same-IsTidy
              (ap (λ (k : Kept). record k { composition_lines = [] })
                (send_message-kept qt config services _ _ (to_command_mode c)))
              (a, b, d, refl))
        | inr e ↦ rw e (elim (Bool-cases (is_request qt cancel_command line)) [
          | inl k ↦
              rw k (same-IsTidy (cancel_composition-kept qt config services _) (a, b, d, refl))
          | inr k ↦ rw k (elim (Bool-cases (is_request qt back_command line)) [
            | inl l ↦
                rw l (same-IsTidy (handle_command-kept qt config services _ _) (a, b, d, refl))
            | inr l ↦ rw l (add_line-IsTidy _ c m (a, b, d))
          ])
        ])
      ]

  handle_line-IsTidy :
      (line : QString) (c : Client S)
      → IsTidy c.router
      → IsTidy (handle_line qt config services line c).router
  unfolding handle_line
  handle_line-IsTidy line c h = by_mode c.router.input_mode refl h
    where
      result : InputMode → Client S
      result mode =
          if is_busy c.router mode
          then (if not (is_empty (qt.trimmed line))
              then emit services (Event.operation_started OperationText.operation_in_progress) c
              else c)
          else handle_mode qt config services mode line c

      by_mode :
          (mode : InputMode)
          → c.router.input_mode ≡ mode
          → IsTidyIn mode (kept c.router)
          → IsTidy (result mode).router
      by_mode InputMode.command m h =
          let at_rest = tidy-IsIdle c.router m h in
          if-IsTidy c.router.operation_in_progress _ _
            (if-IsTidy (not (is_empty (qt.trimmed line))) _ _
              (kept-IsTidy c at_rest (emit-kept services _ c)) (kept-IsTidy c at_rest refl))
            (handle_command_mode-IsTidy qt config services line c at_rest)
      by_mode InputMode.register_password m h = register_password-IsTidy line c h
      by_mode InputMode.login_password m h = login_password-IsTidy line c h
      by_mode InputMode.message_composition m h = message_composition-IsTidy line c m h

-- one step: a line of input, or a signal of an answer that arrives
pub data Step {ℓ} {S : Type ℓ} (qt : Qt) (config : StartupConfig) (services : Services S)
    : Client S → Client S → Type ℓ where
  line :
      (c : Client S) (l : QString) → Step qt config services c (handle_line qt config services l c)
  signal : (c : Client S) (e : Event) → Step qt config services c (emit services e c)

pub data Run {ℓ} {S : Type ℓ} (qt : Qt) (config : StartupConfig) (services : Services S)
    : Client S → Client S → Type ℓ where
  stop : (c : Client S) → Run qt config services c c
  step :
      (c c' c'' : Client S)
      → Step qt config services c c'
      → Run qt config services c' c''
      → Run qt config services c c''

module _ {ℓ} {S : Type ℓ} (qt : Qt) (config : StartupConfig) (services : Services S) where
  Step-IsTidy :
      (c c' : Client S) → Step qt config services c c' → IsTidy c.router → IsTidy c'.router
  Step-IsTidy _ _ (line c l) h = handle_line-IsTidy qt config services l c h
  Step-IsTidy _ _ (signal c e) h = same-IsTidy (emit-kept services e c) h

  -- At the end of every run from a tidy client, for any services and any interleaving of lines and
  -- signals, the username and the address of a registration are there only while its password is
  -- awaited, the name of a login only while its password is awaited, and the lines of a message
  -- only while it is composed. The recipient of the last composition is not among these: it stays.
  pub Run-IsTidy :
      (c c' : Client S) → Run qt config services c c' → IsTidy c.router → IsTidy c'.router
  Run-IsTidy _ _ (stop c) h = h
  Run-IsTidy _ _ (step c c' c'' s r) h = Run-IsTidy c' c'' r (Step-IsTidy c c' s h)
