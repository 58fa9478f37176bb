-- ===== src/Services/Lists.antt =====
-- client/src/services/Services.cpp: the parts of MessageService that sync the store with the
-- lists of the server, and revoking and deleting.
use epic_kfc.Base.{QString, ℤ, Bool, List, [], ◌∷◌, map}
use epic_kfc.Models.{LocalMessage, MessageDirection, sent, received, Result, success, failure}
use epic_kfc.Events.{Event}
use epic_kfc.Store.Conversations.{conversations_for, unread_conversations_for}
use epic_kfc.Methods.{save_message, delete_message_for, reconcile}
use epic_kfc.Services.{
  Env, Step, Request, call, emit, fail_with, saving, nothing, ◌then◌, store_of, access_token,
  current_user_id, when_logged_in, received_list, sent_list, conversations_received,
  conversations_sent, unread_received, revoke_reply, delete_reply,
}

abbrev pub ids : List LocalMessage → List QString
ids messages = map (λ (m : LocalMessage). m.id) messages

module _ (env : Env) where
  -- the loop that is left at the first message that cannot be saved
  unfoldable pub save_messages : List LocalMessage → Step
  save_messages [] = nothing
  save_messages (m ∷ ms) = saving (save_message env.host m) (save_messages ms)

  unfoldable pub save_and_reconcile : List LocalMessage → MessageDirection → Step
  unfolding save_messages
  save_and_reconcile messages direction = save_messages messages then (λ w.
      saving
        (reconcile env.host (env.host.print_time env.now) (current_user_id w) direction
          (ids messages))
        nothing w)

  unfoldable pub list_received : Step
  list_received =
      when_logged_in (λ w. call (Request.list_received (access_token w)) received_list w)

  unfoldable pub list_sent : Step
  list_sent = when_logged_in (λ w. call (Request.list_sent (access_token w)) sent_list w)

  unfoldable pub list_conversations : Step
  list_conversations =
      when_logged_in (λ w. call (Request.list_received (access_token w)) conversations_received w)

  unfoldable pub list_unread_senders : Step
  list_unread_senders =
      when_logged_in (λ w. call (Request.list_received (access_token w)) unread_received w)

  -- listReceived and listSent: the answer
  unfoldable pub listed : MessageDirection → Result (List LocalMessage) → Step
  unfolding save_and_reconcile
  listed direction (failure e) = fail_with e
  listed direction (success messages) =
      save_and_reconcile messages direction then emit (Event.message_list_updated messages)

  unfoldable pub conversations_listed_received : Result (List LocalMessage) → Step
  unfolding save_and_reconcile
  conversations_listed_received (failure e) = fail_with e
  conversations_listed_received (success messages) =
      save_and_reconcile messages received
      then (λ w. call (Request.list_sent (access_token w)) conversations_sent w)

  module _ (key_text : QString → ℤ → QString) where
    unfoldable pub conversations_listed_sent : Result (List LocalMessage) → Step
    unfolding save_and_reconcile
    conversations_listed_sent (failure e) = fail_with e
    conversations_listed_sent (success messages) = save_and_reconcile messages sent then (λ w.
        emit
          (Event.conversation_list_updated
            (conversations_for key_text (store_of w) (current_user_id w)))
          w)

    unfoldable pub unread_listed : Result (List LocalMessage) → Step
    unfolding save_and_reconcile
    unread_listed (failure e) = fail_with e
    unread_listed (success messages) = save_and_reconcile messages received then (λ w.
        emit
          (Event.unread_inbox_updated
            (unread_conversations_for key_text (store_of w) (current_user_id w)))
          w)

  unfoldable pub revoke : QString → Step
  revoke id w = call (Request.revoke_message (access_token w) id) (revoke_reply id) w

  unfoldable pub revoked : QString → Result LocalMessage → Step
  revoked id (failure e) = fail_with e
  revoked id (success message) =
      saving (save_message env.host message) (emit (Event.message_revoked id))

  unfoldable pub delete_message : QString → Step
  delete_message id w = call (Request.delete_message (access_token w) id) (delete_reply id) w

  unfoldable pub deleted : QString → Result Bool → Step
  deleted id (failure e) w = fail_with e w
  deleted id (success ok) w =
      saving (delete_message_for env.host (env.host.print_time env.now) (current_user_id w) id)
        (emit (Event.message_deleted id)) w
