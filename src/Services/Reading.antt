-- ===== src/Services/Reading.antt =====
-- client/src/services/Services.cpp: reading a conversation, page by page.
use epic_kfc.Base.{
  ℕ, ◌+◌, ◌-◌, ◌*◌, ◌/◌, ℤ, pos, negsuc, min, QString, text, none, some, List, [], ◌++◌, map,
  if◌then◌else◌, is_empty, text_eq, ltb, length, take, drop,
}
use epic_kfc.Models.{
  ErrorCode, ClientError, DeviceKeyMaterial, UserAddress, LocalMessage, sent, received, Result,
  success, failure, other,
}
use epic_kfc.Events.{Event, ConversationLogEntry}
use epic_kfc.Texts.{sent_message_ciphertext_only}
use epic_kfc.Store.Messages.{messages_with_peer}
use epic_kfc.Methods.{save_known_user, read_conversation}
use epic_kfc.Services.{
  Env, World, Step, Request, call, emit, fail_with, saving, ◌then◌, store_of, access_token,
  current_user_id, when_logged_in, read_address, read_received, read_sent,
}
use epic_kfc.Services.Keys.{current_device}
use epic_kfc.Services.Lists.{save_and_reconcile}
use epic_kfc.Services.Secrecy.{decrypt_copy, decrypt_received, one_time_pre_key_for}

abbrev pub conversation_page_size : ℕ
conversation_page_size = 10

unfoldable pub page_count : ℕ → ℕ
page_count size = (size + conversation_page_size - 1) / conversation_page_size

-- std::clamp(page, 1, count), where the count is at least 1
unfoldable pub safe_page : ℤ → ℕ → ℕ
safe_page (negsuc n) count = 1
safe_page (pos page) count = if ltb page 1 then 1 else if ltb count page then count else page

abbrev pub start_of : ℕ → ℕ
start_of page = (page - 1) * conversation_page_size

abbrev pub end_of : ℕ → ℕ → ℕ
end_of page size = min (start_of page + conversation_page_size) size

-- the messages at the indices from `start` to before `end`
abbrev pub slice {ℓ} : {A : Type ℓ} → ℕ → ℕ → List A → List A
slice start end messages = take (end - start) (drop start messages)

unfoldable pub page_of {ℓ} : {A : Type ℓ} → ℕ → List A → List A
page_of page messages = slice (start_of page) (end_of page (length messages)) messages

module _ (env : Env) where
  abbrev decrypted : LocalMessage → Result QString → ConversationLogEntry
  decrypted message (success plaintext) = record {
    message = message;
    plaintext = plaintext;
    decrypt_error = none;
  }
  decrypted message (failure e) = record {
    message = message;
    plaintext = [];
    decrypt_error = some e;
  }

  -- the body of the loop
  unfoldable pub log_entry : World → DeviceKeyMaterial → LocalMessage → ConversationLogEntry
  unfolding one_time_pre_key_for
  log_entry w device message =
      let sent_by_current_user = text_eq message.sender_user_id (current_user_id w) in
      if sent_by_current_user
      then (if is_empty message.local_sender_copy_wire_payload_json
          then decrypted message (success sent_message_ciphertext_only)
          else decrypted message (decrypt_copy env w device message))
      else decrypted message (decrypt_received env w device message)

  abbrev pub show_page : UserAddress → QString → ℤ → List LocalMessage → DeviceKeyMaterial → Step
  show_page address username page messages device w =
      let count = page_count (length messages) in
      let shown = safe_page page count in
      let entries = map (log_entry w device) (page_of shown messages) in
      saving
        (read_conversation env.host (env.host.print_time env.now) (current_user_id w)
          address.user_id)
        (emit
          (Event.conversation_log_opened username address.user_id entries (pos shown) (pos count)))
        w

  abbrev pub open_with :
      UserAddress → QString → ℤ → List LocalMessage → Result DeviceKeyMaterial → Step
  open_with address username page messages (failure e) w = fail_with e w
  open_with address username page messages (success device) w =
      show_page address username page messages device w

  abbrev pub no_conversation : QString → ClientError
  no_conversation username = record {
    code = ErrorCode.not_found;
    message = other (text "No cached conversation with " ++ username ++ text ".");
  }

  -- openConversationFromCache
  unfoldable pub open_conversation_from_cache : UserAddress → QString → ℤ → Step
  unfolding current_device page_count safe_page page_of log_entry
  open_conversation_from_cache address username page w =
      let messages = messages_with_peer (current_user_id w) address.user_id (store_of w) in
      if is_empty messages
      then fail_with (no_conversation username) w
      else open_with address username page messages (current_device env w) w

  -- readConversation
  unfoldable pub read : QString → ℤ → Step
  read username page = when_logged_in (λ w.
      call (Request.resolve_username (access_token w) username env.device_id)
        (read_address username page) w)

  unfoldable pub read_address_resolved : QString → ℤ → Result UserAddress → Step
  read_address_resolved username page (failure e) w = fail_with e w
  read_address_resolved username page (success address) w =
      saving (save_known_user env.host address)
        (λ v. call (Request.list_received (access_token v)) (read_received address username page) v)
        w

  unfoldable pub read_listed_received :
      UserAddress → QString → ℤ → Result (List LocalMessage) → Step
  unfolding save_and_reconcile
  read_listed_received address username page (failure e) = fail_with e
  read_listed_received address username page (success messages) =
      save_and_reconcile env messages received
      then (λ w. call (Request.list_sent (access_token w)) (read_sent address username page) w)

  unfoldable pub read_listed_sent : UserAddress → QString → ℤ → Result (List LocalMessage) → Step
  unfolding save_and_reconcile open_conversation_from_cache
  read_listed_sent address username page (failure e) = fail_with e
  read_listed_sent address username page (success messages) =
      save_and_reconcile env messages sent then open_conversation_from_cache address username page
