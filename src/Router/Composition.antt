-- ===== src/Router/Composition.antt =====
-- A message that is composed over several lines.
use epic_kfc.Base.{
  QString, true, false, not, List, [], ◌∷◌, ◌++◌, map, ◌≡◌, refl, ap, ◌∙◌, append_assoc, append-nil,
  All, if_true, if_false, is_empty, arith,
}
use epic_kfc.Models.{StartupConfig, CommandType}
use epic_kfc.Platform.{Qt, QtLaws}
use epic_kfc.Parser.NonEmpty.{IsNonEmpty}
use epic_kfc.Input.{
  has_argument_count, joined_lines, newline, is_request, is_ignored, submit_command, cancel_command,
  back_command, without_conversation_prompt_echo,
}
use epic_kfc.Input.Joined.{interspersed, join_loop-interspersed}
use epic_kfc.Events.{Event, Services, ServiceCall, OperationText}
use epic_kfc.Bus.{InputMode, Client, Action, emitted, called, emit, emit_all, on_event}
use epic_kfc.Router.{
  when_argument_count, dispatch, handle_line, handle_send_command, start_composition,
  handle_message_composition, to_command_mode,
}
use epic_kfc.Controller.{begin_message_composition}
use epic_kfc.Router.Kept.{
  Kept, kept, emit_all-kept, emit-kept, send_message-kept, begin_message_composition-kept,
}
use epic_kfc.Router.Messages.{
  line_of, command_of, IsReady, handle_line-command, send_message-trace, send_message-requests,
  line_in_mode,
}
use epic_kfc.Router.Traces.{requests, emit-requests, emit_all-requests}

module _ (qt : Qt) (who : QString) where
  -- what is kept of a line
  abbrev pub body_of : QString → QString
  body_of line = without_conversation_prompt_echo qt line who

  -- a line of text: no command of the composition, and not blank
  abbrev pub IsBodyLine : QString → Type 0
  IsBodyLine line =
      (is_request qt submit_command line ≡ false)
      × (is_request qt cancel_command line ≡ false)
      × (is_request qt back_command line ≡ false)
      × (is_ignored qt (body_of line) ≡ false)

abbrev pub composing : QString → List QString → Kept → Kept
composing who lines k = record k {
  input_mode = InputMode.message_composition;
  composition_recipient_username = who;
  composition_lines = lines;
}

module _ {ℓ} {S : Type ℓ} (qt : Qt) (config : StartupConfig) (services : Services S) where
  -- lines of input, each behind signals that arrive before it
  unfoldable pub feed : List (List Event × QString) → Client S → Client S
  feed [] c = c
  feed ((meanwhile, line) ∷ rest) c =
      feed rest (handle_line qt config services line (emit_all services meanwhile c))

  composition_line :
      (who line : QString) (lines : List QString) (k : Kept) (c : Client S)
      → IsBodyLine qt who line
      → kept c.router ≡ composing who lines k
      → kept (handle_line qt config services line c).router
        ≡ composing who (lines ++ body_of qt who line ∷ []) k
  unfolding handle_message_composition
  composition_line who line lines k c (a, b, d, visible) e =
      let recipient : c.router.composition_recipient_username ≡ who =
        ap (λ (k : Kept). k.composition_recipient_username) e in
      let heard : is_ignored qt (body_of qt c.router.composition_recipient_username line) ≡ false =
        rw recipient visible in
      ap (λ (t : Client S). kept t.router)
        (line_in_mode qt config services line c InputMode.message_composition
            (ap (λ (k : Kept). k.input_mode) e) refl
          ∙ if_false _ _ _ a
          ∙ if_false _ _ _ b
          ∙ if_false _ _ _ d
          ∙ if_false _ _ _ heard)
      ∙ emit-kept services _ _
      ∙ ap
          (λ (k' : Kept). record k' {
            composition_lines =
                k'.composition_lines ++ body_of qt k'.composition_recipient_username line ∷ [];
          })
          e

  composition_line-requests :
      (who line : QString) (lines : List QString) (k : Kept) (c : Client S)
      → IsBodyLine qt who line
      → kept c.router ≡ composing who lines k
      → requests (handle_line qt config services line c).trace ≡ requests c.trace
  unfolding handle_message_composition
  composition_line-requests who line lines k c (a, b, d, visible) e =
      let recipient : c.router.composition_recipient_username ≡ who =
        ap (λ (k : Kept). k.composition_recipient_username) e in
      let heard : is_ignored qt (body_of qt c.router.composition_recipient_username line) ≡ false =
        rw recipient visible in
      ap (λ (t : Client S). requests t.trace)
        (line_in_mode qt config services line c InputMode.message_composition
            (ap (λ (k : Kept). k.input_mode) e) refl
          ∙ if_false _ _ _ a
          ∙ if_false _ _ _ b
          ∙ if_false _ _ _ d
          ∙ if_false _ _ _ heard)
      ∙ emit-requests services _ _

  feed-requests :
      (who : QString) (input : List (List Event × QString)) (lines : List QString) (k : Kept)
      (c : Client S)
      → All (λ (i : List Event × QString). IsBodyLine qt who i.1) input
      → kept c.router ≡ composing who lines k
      → requests (feed input c).trace ≡ requests c.trace
  unfolding feed
  feed-requests who [] lines k c h e = refl
  feed-requests who ((meanwhile, line) ∷ input) lines k c (h, hs) e =
      let told = emit_all-kept services meanwhile c ∙ e in
      feed-requests who input (lines ++ body_of qt who line ∷ []) k _ hs
        (composition_line who line lines k _ h told)
      ∙ composition_line-requests who line lines k _ h told
      ∙ emit_all-requests services meanwhile c

  feed-kept :
      (who : QString) (input : List (List Event × QString)) (lines : List QString) (k : Kept)
      (c : Client S)
      → All (λ (i : List Event × QString). IsBodyLine qt who i.1) input
      → kept c.router ≡ composing who lines k
      → kept (feed input c).router ≡ composing who (lines ++ map (λ i. body_of qt who i.1) input) k
  unfolding feed
  feed-kept who [] lines k c h e = e ∙ rw (append-nil lines)
  feed-kept who ((meanwhile, line) ∷ input) lines k c (h, hs) e =
      feed-kept who input (lines ++ body_of qt who line ∷ []) k _ hs
        (composition_line who line lines k _ h (emit_all-kept services meanwhile c ∙ e))
      ∙ ap (λ ls. composing who ls k)
          (append_assoc lines (body_of qt who line ∷ [])
            (map (λ (i : List Event × QString). body_of qt who i.1) input))

  start_composition-requests :
      (who : QString) (c : Client S)
      → requests (start_composition qt config services who c).trace ≡ requests c.trace
  unfolding start_composition begin_message_composition
  start_composition-requests who c = emit-requests services _ _ ∙ emit-requests services _ _

  submit_lem :
      (who submit body : QString) (lines : List QString) (k : Kept) (c : Client S)
      → joined_lines lines ≡ body
      → is_request qt submit_command submit ≡ true
      → kept c.router ≡ composing who lines k
      → is_empty (qt.trimmed body) ≡ false
      → ((more : List Action) × ((handle_line qt config services submit c).trace
            ≡ c.trace
              ++ emitted (Event.conversation_target_changed who)
                ∷ emitted (Event.operation_started OperationText.sending_message)
                ∷ called (ServiceCall.send who body)
                ∷ more))
        × (requests (handle_line qt config services submit c).trace
            ≡ requests c.trace ++ ServiceCall.send who body ∷ [])
        × (kept (handle_line qt config services submit c).router
            ≡ record (composing who [] k) { input_mode = InputMode.command })
  unfolding handle_message_composition
  submit_lem who submit body lines k c joined asked e visible =
      let recipient : c.router.composition_recipient_username ≡ who =
        ap (λ (k : Kept). k.composition_recipient_username) e in
      let before : c.router.composition_lines ≡ lines = ap (λ (k : Kept). k.composition_lines) e in
      let submitted =
        line_in_mode qt config services submit c InputMode.message_composition
          (ap (λ (k : Kept). k.input_mode) e) refl
        ∙ if_true _ _ _ asked in
      let (more, sent) =
        send_message-trace qt config services c.router.composition_recipient_username
          (joined_lines c.router.composition_lines) (to_command_mode c)
          (rw (before, joined) visible) in
      let once =
        send_message-requests qt config services c.router.composition_recipient_username
          (joined_lines c.router.composition_lines) (to_command_mode c)
          (rw (before, joined) visible) in
      (
        (
          more,
          ap (λ (t : Client S). t.trace) submitted ∙ sent ∙ rw (recipient, before, joined) refl,
        ),
        ap (λ (t : Client S). requests t.trace) submitted
            ∙ once
            ∙ rw (recipient, before, joined) refl,
        ap (λ (t : Client S). kept t.router) submitted
            ∙ ap (λ (k : Kept). record k { composition_lines = [] })
                (send_message-kept qt config services _ _ (to_command_mode c))
            ∙ ap (λ (k : Kept). record k { input_mode = InputMode.command; composition_lines = [] })
                e,
      )

module _ {qt : Qt} (laws : QtLaws qt) where
  not_ignored : (body : QString) → is_ignored qt body ≡ false → is_empty (qt.trimmed body) ≡ false
  not_ignored body h = ground arith

  visible_not_empty : (body : QString) → is_empty (qt.trimmed body) ≡ false → is_empty body ≡ false
  visible_not_empty [] h = cc
  visible_not_empty (c ∷ s) h = refl

module _ {ℓ} {S : Type ℓ} {qt : Qt} (laws : QtLaws qt) (config : StartupConfig)
    (services : Services S) where
  asked_send :
      (who : QString) (c : Client S)
      → IsReady c.router
      → c.router.active_conversation_username ≡ []
      → IsNonEmpty who
      → kept (handle_line qt config services (line_of CommandType.send (who ∷ [])) c).router
        ≡ composing who [] (kept c.router)
  unfolding dispatch handle_send_command when_argument_count has_argument_count start_composition
      emit on_event
  asked_send who c ready no_one h =
      let cmd = command_of CommandType.send (who ∷ []) in
      ap (λ (t : Client S). kept t.router)
        (handle_line-command laws config services CommandType.send (who ∷ []) c ready (h, tt)
          ∙ if_false (not (is_empty c.router.active_conversation_username)) _ _ (rw no_one refl))
      ∙ begin_message_composition-kept qt config services who _

  asked_send-requests :
      (who : QString) (c : Client S)
      → IsReady c.router
      → c.router.active_conversation_username ≡ []
      → IsNonEmpty who
      → requests (handle_line qt config services (line_of CommandType.send (who ∷ [])) c).trace
        ≡ requests c.trace
  unfolding dispatch handle_send_command when_argument_count has_argument_count emit on_event
  asked_send-requests who c ready no_one h =
      let cmd = command_of CommandType.send (who ∷ []) in
      ap (λ (t : Client S). requests t.trace)
        (handle_line-command laws config services CommandType.send (who ∷ []) c ready (h, tt)
          ∙ if_false (not (is_empty c.router.active_conversation_username)) _ _ (rw no_one refl))
      ∙ start_composition-requests qt config services who _
      ∙ emit-requests services (Event.slash_command_received cmd) c

  -- Behind `/send` with a recipient, from a router that is ready and has no active conversation,
  -- one line or more of text, each behind any signals, and a line that submits: the next that is
  -- seen are the signals for the conversation and for the start, and the call of the service for
  -- that recipient, with the lines in their order and a line feed between each two of them. From
  -- the command to behind the line that submits this is the only call of a service, but for the
  -- upload of keys where a session starts, so the message is sent once and nothing of it before.
  -- The router is back in the mode for commands, without the lines.
  pub composition_flow :
      (who submit : QString) (meanwhile : List Event) (first : QString)
      (rest : List (List Event × QString)) (c : Client S)
      → IsReady c.router
      → c.router.active_conversation_username ≡ []
      → IsNonEmpty who
      → All (λ (i : List Event × QString). IsBodyLine qt who i.1) ((meanwhile, first) ∷ rest)
      → is_request qt submit_command submit ≡ true
      → let asked = handle_line qt config services (line_of CommandType.send (who ∷ [])) c in
        let waiting = feed qt config services ((meanwhile, first) ∷ rest) asked in
        let done = handle_line qt config services submit waiting in
        ((more : List Action) × (done.trace
            ≡ waiting.trace
              ++ emitted (Event.conversation_target_changed who)
                ∷ emitted (Event.operation_started OperationText.sending_message)
                ∷ called (
                    ServiceCall.send who (
                      interspersed newline
                        (body_of qt who first ∷ map (λ i. body_of qt who i.1) rest)))
                ∷ more))
        × (requests done.trace
            ≡ requests c.trace
              ++ ServiceCall.send who
                  (interspersed newline (body_of qt who first ∷ map (λ i. body_of qt who i.1) rest))
                ∷ [])
        × (kept done.router
            ≡ record (composing who [] (kept c.router)) { input_mode = InputMode.command })
  unfolding joined_lines
  composition_flow who submit meanwhile first rest c ready no_one h hs asked =
      let ((_, _, _, seen), _) = hs in
      let e =
        feed-kept qt config services who ((meanwhile, first) ∷ rest) [] (kept c.router) _ hs
          (asked_send who c ready no_one h) in
      let visible = not_ignored laws (body_of qt who first) seen in
      let joined =
        join_loop-interspersed newline (body_of qt who first)
          (map (λ (i : List Event × QString). body_of qt who i.1) rest)
          (visible_not_empty laws (body_of qt who first) visible) in
      let whole = laws.trimmed_part [] (body_of qt who first) _ visible in
      let before = asked_send who c ready no_one h in
      let message =
        interspersed newline (body_of qt who first ∷ map (λ i. body_of qt who i.1) rest) in
      let (call, once, left) =
        submit_lem qt config services who submit _ _ (kept c.router) _ joined asked e whole in
      (
        call,
        once
            ∙ ap (λ r. r ++ ServiceCall.send who message ∷ [])
                (feed-requests qt config services who ((meanwhile, first) ∷ rest) [] (kept c.router)
                    _ hs before
                  ∙ asked_send-requests who c ready no_one h),
        left,
      )
