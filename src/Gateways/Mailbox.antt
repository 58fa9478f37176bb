-- ===== src/Gateways/Mailbox.antt =====
-- The mock message gateway as a function from ids to messages: what its clients can observe.
use mathlib.Core.Path.{fun_ext, subst}
use mathlib.Core.Option
use epic_kfc.Base.{
  ℕ, ◌+◌, ◌≤◌, ℤ, QString, Bool, true, false, Option, none, some, List, [], ◌∷◌, ◌++◌, ◌≡◌, refl,
  sym, ap, ◌∙◌, arith, if◌then◌else◌, if_true, if_false, is_empty, text_eq, text_eq_iff, Bool-cases,
  inl, inr, drop,
}
use epic_kfc.Models.{LocalMessage, QDateTime, Result, success}
use epic_kfc.Keyed.{lookup}
use epic_kfc.Store.Messages.{message_key, update_message}
use epic_kfc.Store.Deletion.{lookup-update_message}
use epic_kfc.Gateways.{auth_required}
use epic_kfc.Gateways.Messages.{
  MessageGateway, new_gateway, look, saved_message, message_id, send_message, revoke_message,
  delete_message, revoke_at, delete_at, get_message, found_or, changed,
}

-- a call that changes the gateway, with its access token
pub data Op : Type 0 where
  send : QDateTime → QString → LocalMessage → Option ℤ → Op
  revoke : QString → QString → QString → Op
  delete : QString → QString → QString → Op

-- the messages by their ids, and the number of the next one
abbrev pub Mailbox : Type 0
Mailbox = (QString → Option LocalMessage) × ℕ

abbrev pub change_at :
    QString
    → (LocalMessage → LocalMessage)
    → (QString → Option LocalMessage)
    → QString
    → Option LocalMessage
change_at id change entries k = if text_eq id k then Option.map change (entries k) else entries k

abbrev pub put_at :
    QString → LocalMessage → (QString → Option LocalMessage) → QString → Option LocalMessage
put_at id m entries k = if text_eq id k then some m else entries k

abbrev pub empty_mailbox : Mailbox
empty_mailbox = ((λ k. none), 1)

abbrev pub answer_of : QString → Option LocalMessage → Result LocalMessage
answer_of token o = if is_empty token then auth_required else found_or o

module _ (number_text : ℕ → QString) where
  abbrev pub run_op : Op → MessageGateway → MessageGateway
  run_op (send now token draft consumed) g = (send_message number_text now token draft consumed g).0
  run_op (revoke now token id) g = (revoke_message now token id g).0
  run_op (delete now token id) g = (delete_message now token id g).0

  unfoldable pub run : List Op → MessageGateway → MessageGateway
  run [] g = g
  run (op ∷ ops) g = run ops (run_op op g)

  -- the same calls on the function
  abbrev pub replay_op : Op → Mailbox → Mailbox
  replay_op (send now token draft consumed) (entries, n) =
      if is_empty token then (entries, n) else (
        put_at (message_id number_text n) (saved_message number_text now n draft consumed) entries,
        n + 1,
      )
  replay_op (revoke now token id) (entries, n) =
      if is_empty token then (entries, n) else (change_at id (revoke_at now) entries, n)
  replay_op (delete now token id) (entries, n) =
      if is_empty token then (entries, n) else (change_at id (delete_at now) entries, n)

  unfoldable pub replay : List Op → Mailbox → Mailbox
  replay [] v = v
  replay (op ∷ ops) v = replay ops (replay_op op v)

  abbrev pub view : MessageGateway → Mailbox
  view g = ((λ k. look k g), g.next_message_number)

  -- no message has a number that is still to come
  abbrev pub IsNumbered : MessageGateway → Type 0
  IsNumbered g = (n : ℕ) → g.next_message_number ≤ n → look (message_id number_text n) g ≡ none

  lookup-append :
      (k : QString) (ms : List LocalMessage) (m : LocalMessage)
      → lookup message_key text_eq m.id ms ≡ none
      → lookup message_key text_eq k (ms ++ m ∷ [])
        ≡ (if text_eq m.id k then some m else lookup message_key text_eq k ms)
  unfolding lookup
  lookup-append k [] m h = refl
  lookup-append k (x ∷ ms) m h =
      ground
        (arith, lookup-append k ms m, text_eq_iff m.id k, text_eq_iff x.id k, text_eq_iff x.id m.id)

  change-look :
      (id : QString) (change : LocalMessage → LocalMessage) (g : MessageGateway)
      → ((m : LocalMessage) → (change m).id ≡ m.id)
      → (λ k. look k (record g { messages = update_message id change g.messages }))
        ≡ change_at id change (λ k. look k g)
  unfolding look
  change-look id change g same = fun_ext (λ k. lookup-update_message id k change g.messages same)

  -- nothing changes at an id that has no message
  change_at-missing :
      (id : QString) (change : LocalMessage → LocalMessage)
      (entries : QString → Option LocalMessage)
      → entries id ≡ none
      → entries ≡ change_at id change entries
  change_at-missing id change entries h = fun_ext (λ k. elim (Bool-cases (text_eq id k)) [
    | inl e ↦
        let here : entries k ≡ none = ap entries (sym ((text_eq_iff id k).0 e)) ∙ h in
        here ∙ sym (if_true _ _ _ e ∙ ap (Option.map change) here)
    | inr e ↦ sym (if_false _ _ _ e)
  ])

  changed-view :
      {A : Type 0} (id : QString) (change : LocalMessage → LocalMessage) (answer : LocalMessage → A)
      (g : MessageGateway) (o : Option LocalMessage)
      → ((m : LocalMessage) → (change m).id ≡ m.id)
      → look id g ≡ o
      → view (changed id change answer o g).0
        ≡ (change_at id change (λ k. look k g), g.next_message_number)
  changed-view id change answer g none same h =
      ap (λ f. (f, g.next_message_number)) (change_at-missing id change (λ k. look k g) h)
  changed-view id change answer g (some m) same h =
      ap (λ f. (f, g.next_message_number)) (change-look id change g same)

  sent-view :
      (now : QDateTime) (draft : LocalMessage) (consumed : Option ℤ) (g : MessageGateway)
      → IsNumbered g
      → view (record {
        messages =
            g.messages ++ saved_message number_text now g.next_message_number draft consumed ∷ [];
        next_message_number = g.next_message_number + 1;
      })
        ≡ (
          put_at
              (message_id number_text g.next_message_number)
              (saved_message number_text now g.next_message_number draft consumed)
              (λ k. look k g),
          g.next_message_number + 1,
        )
  unfolding look
  sent-view now draft consumed g fresh =
      ap (λ f. (f, g.next_message_number + 1))
        (fun_ext (λ k.
          lookup-append k g.messages
            (saved_message number_text now g.next_message_number draft consumed)
            (fresh g.next_message_number (omega arith))))

  if-view :
      {A : Type 0} (b : Bool) (x y : MessageGateway × Result A) {v w : Mailbox}
      → view x.0 ≡ v
      → view y.0 ≡ w
      → view (if b then x else y).0 ≡ (if b then v else w)
  if-view true x y h k = h
  if-view false x y h k = k

  -- one call, on the gateway and on the function
  run_op-view :
      (op : Op) (g : MessageGateway) → IsNumbered g → view (run_op op g) ≡ replay_op op (view g)
  unfolding send_message revoke_message delete_message
  run_op-view (send now token draft consumed) g fresh =
      if-view {A = LocalMessage} (is_empty token) (g, auth_required) (_, success _) refl
        (sent-view now draft consumed g fresh)
  run_op-view (revoke now token id) g fresh =
      if-view (is_empty token) (g, auth_required)
        (changed id (revoke_at now) (λ m. m) (look id g) g) refl
        (changed-view id (revoke_at now) (λ m. m) g (look id g) (λ m. refl) refl)
  run_op-view (delete now token id) g fresh =
      if-view (is_empty token) (g, auth_required)
        (changed id (delete_at now) (λ m. true) (look id g) g) refl
        (changed-view id (delete_at now) (λ m. true) g (look id g) (λ m. refl) refl)

  -- on the function: no message has a number that is still to come
  abbrev IsFresh : Mailbox → Type 0
  IsFresh v = (n : ℕ) → v.1 ≤ n → v.0 (message_id number_text n) ≡ none

  if-IsFresh : (b : Bool) (v w : Mailbox) → IsFresh v → IsFresh w → IsFresh (if b then v else w)
  if-IsFresh true v w h k = h
  if-IsFresh false v w h k = k

  change-IsFresh :
      (id : QString) (change : LocalMessage → LocalMessage) (v : Mailbox)
      → IsFresh v
      → IsFresh (change_at id change v.0, v.1)
  change-IsFresh id change v h n le = elim (Bool-cases (text_eq id (message_id number_text n))) [
    | inl e ↦ if_true _ _ _ e ∙ ap (Option.map change) (h n le)
    | inr e ↦ if_false _ _ _ e ∙ h n le
  ]

  module _ (distinct : (a b : ℕ) → number_text a ≡ number_text b → a ≡ b) where
    put-IsFresh :
        (m : LocalMessage) (v : Mailbox)
        → IsFresh v
        → IsFresh (put_at (message_id number_text v.1) m v.0, v.1 + 1)
    put-IsFresh m v h n le =
        elim (Bool-cases (text_eq (message_id number_text v.1) (message_id number_text n))) [
          | inl e ↦
              let same : v.1 ≡ n = distinct v.1 n (
                ap (drop 13)
                  ((text_eq_iff (message_id number_text v.1) (message_id number_text n)).0 e)) in
              absurd (omega arith)
          | inr e ↦ if_false _ _ _ e ∙ h n (omega arith)
        ]

    replay_op-IsFresh : (op : Op) (v : Mailbox) → IsFresh v → IsFresh (replay_op op v)
    replay_op-IsFresh (send now token draft consumed) v h =
        if-IsFresh (is_empty token) v _ h
          (put-IsFresh (saved_message number_text now v.1 draft consumed) v h)
    replay_op-IsFresh (revoke now token id) v h =
        if-IsFresh (is_empty token) v _ h (change-IsFresh id (revoke_at now) v h)
    replay_op-IsFresh (delete now token id) v h =
        if-IsFresh (is_empty token) v _ h (change-IsFresh id (delete_at now) v h)

    run-view :
        (ops : List Op) (g : MessageGateway) → IsNumbered g → view (run ops g) ≡ replay ops (view g)
    unfolding run replay
    run-view [] g fresh = refl
    run-view (op ∷ ops) g fresh =
        let here = run_op-view op g fresh in
        run-view ops (run_op op g) (subst IsFresh (sym here) (replay_op-IsFresh op (view g) fresh))
        ∙ ap (replay ops) here

    -- The mock server is a function from ids to messages: after any calls from a new gateway,
    -- with any access tokens, what it answers for an id is what the function holds on which the
    -- calls put a message at a fresh id, or change the one at an id. Numbers have different
    -- texts.
    pub get_message-run :
        (ops : List Op) (token id : QString)
        → get_message token id (run ops new_gateway)
          ≡ answer_of token ((replay ops empty_mailbox).0 id)
    unfolding get_message lookup
    get_message-run ops token id =
        ap (λ (v : Mailbox). answer_of token (v.0 id))
          (run-view ops new_gateway (λ n le. unfold look in refl))
