-- ===== src/Gateways/Messages.antt =====
-- client/src/gateways/Gateways.cpp: MockMessageGateway, which keeps the messages of mock mode.
use epic_kfc.Base.{
  ℕ, ◌+◌, ℤ, QString, text, Bool, true, false, Option, none, some, List, [], ◌∷◌, ◌++◌,
  if◌then◌else◌, is_empty, text_eq, keep,
}
use epic_kfc.Models.{
  ErrorCode, LocalMessage, MessageDirection, sent, received, BlockchainAnchor,
  BlockchainVerification, QDateTime, Result, success,
}
use epic_kfc.Keyed.{lookup}
use epic_kfc.Store.Messages.{message_key, update_message}
use epic_kfc.Gateways.{refused, auth_required}

-- MockMessageGateway
pub record MessageGateway : Type 0 where
  pub messages : List LocalMessage
  pub next_message_number : ℕ

abbrev pub new_gateway : MessageGateway
new_gateway = record { messages = []; next_message_number = 1 }

abbrev pub has_direction : MessageDirection → LocalMessage → Bool
has_direction d m = same d m.direction
  where
    same : MessageDirection → MessageDirection → Bool
    same sent sent = true
    same received received = true
    same _ _ = false

-- find_if by the id
unfoldable pub look : QString → MessageGateway → Option LocalMessage
look id g = lookup message_key text_eq id g.messages

abbrev pub revoke_at : QString → LocalMessage → LocalMessage
revoke_at now m = record m { access_revoked_at = now }

abbrev pub delete_at : QString → LocalMessage → LocalMessage
delete_at now m = record m { deleted_at = now }

module _ (number_text : ℕ → QString) where
  abbrev pub message_id : ℕ → QString
  message_id n = text "mock-message-" ++ number_text n

  -- withServerFields, and what sendMessage sets
  abbrev pub saved_message : QDateTime → ℕ → LocalMessage → Option ℤ → LocalMessage
  saved_message now n draft consumed = record draft {
    id = message_id n;
    created_at = now;
    consumed_one_time_pre_key_id = consumed;
    direction = sent;
  }

  unfoldable pub send_message :
      QDateTime
      → QString
      → LocalMessage
      → Option ℤ
      → MessageGateway
      → MessageGateway × Result LocalMessage
  send_message now access_token draft consumed g =
      let saved = saved_message now g.next_message_number draft consumed in
      if is_empty access_token then (g, auth_required) else (
        record {
          messages = g.messages ++ saved ∷ [];
          next_message_number = g.next_message_number + 1;
        },
        success saved,
      )

  unfoldable pub forward_message :
      QDateTime
      → QString
      → QString
      → LocalMessage
      → Option ℤ
      → MessageGateway
      → MessageGateway × Result LocalMessage
  unfolding send_message
  forward_message now access_token original_id draft consumed =
      send_message now access_token draft consumed

-- listReceived and listSent
unfoldable pub list_messages :
    MessageDirection → QString → MessageGateway → Result (List LocalMessage)
list_messages direction access_token g =
    if is_empty access_token
    then auth_required
    else success (keep (has_direction direction) g.messages)

abbrev pub message_not_found {ℓ} : {A : Type ℓ} → Result A
message_not_found = refused ErrorCode.not_found (text "Message not found.")

abbrev pub found_or : Option LocalMessage → Result LocalMessage
found_or none = message_not_found
found_or (some m) = success m

unfoldable pub get_message : QString → QString → MessageGateway → Result LocalMessage
unfolding look
get_message access_token id g =
    if is_empty access_token then auth_required else found_or (look id g)

abbrev pub changed {ℓ} :
    {A : Type ℓ}
    → QString
    → (LocalMessage → LocalMessage)
    → (LocalMessage → A)
    → Option LocalMessage
    → MessageGateway
    → MessageGateway × Result A
changed id change answer none g = (g, message_not_found)
changed id change answer (some m) g =
    (record g { messages = update_message id change g.messages }, success (answer (change m)))

-- `now` is the time as text
unfoldable pub revoke_message :
    QString → QString → QString → MessageGateway → MessageGateway × Result LocalMessage
unfolding look update_message
revoke_message now access_token id g =
    if is_empty access_token
    then (g, auth_required)
    else changed id (revoke_at now) (λ m. m) (look id g) g

unfoldable pub delete_message :
    QString → QString → QString → MessageGateway → MessageGateway × Result Bool
unfolding look update_message
delete_message now access_token id g =
    if is_empty access_token
    then (g, auth_required)
    else changed id (delete_at now) (λ m. true) (look id g) g

unfoldable pub fetch_message_anchor : QString → QString → Result BlockchainAnchor
fetch_message_anchor access_token id = success (record {
  id = text "mock-anchor-" ++ id;
  message_id = id;
  record_id = text "mock-record-" ++ id;
  digest = text "0xmockdigest";
  merkle_root = [];
  transaction_hash = [];
  contract_address = [];
  chain = text "mock-chain";
  status = text "pending";
  anchored_at = [];
})

unfoldable pub verify_anchor : QString → QString → BlockchainAnchor → Result BlockchainVerification
verify_anchor now access_token anchor = success (record {
  valid = text_eq anchor.status (text "confirmed");
  chain = anchor.chain;
  status = anchor.status;
  anchor_id = anchor.id;
  message_id = anchor.message_id;
  record_id = anchor.record_id;
  digest = anchor.digest;
  transaction_hash = anchor.transaction_hash;
  contract_address = anchor.contract_address;
  verified_at = now;
})
