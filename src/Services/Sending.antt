-- ===== src/Services/Sending.antt =====
-- client/src/services/Services.cpp: sending, forwarding and downloading messages.
use epic_kfc.Base.{
  ℕ, ℤ, QString, text, Bool, true, false, ◌&&◌, ◌||◌, not, Option, none, some, [], ◌∷◌, ◌++◌,
  if◌then◌else◌, leb, nat_eq,
}
use epic_kfc.Models.{
  ErrorCode, ClientError, DeviceKeyMaterial, UserAddress, TrustPin, LocalMessage, EncryptedPayload,
  Result, success, failure, other, could_not_write,
}
use epic_kfc.Events.{Event}
use epic_kfc.Store.Messages.{find_message}
use epic_kfc.Methods.{save_known_user, save_message}
use epic_kfc.Trust.{PreKeyBundle}
use epic_kfc.Services.{
  Env, Step, Request, Pending, BundleUse, send_use, forward_use, call, emit, fail_with,
  crypto_failed, saving, store_of, access_token, current_user_id, when_logged_in, send_address,
  forward_address, sent_reply, forwarded_reply,
}
use epic_kfc.Services.Keys.{current_device, trusted_bundle, trusted_bundle_fetched}
use epic_kfc.Services.Secrecy.{draft_for, create_local_sender_copy, decrypt_for_current_user}

abbrev not_found : QString → ClientError
not_found message = record { code = ErrorCode.not_found; message = other message }

abbrev is_safe_unit : ℕ → Bool
is_safe_unit c =
    leb b'A' c && leb c b'Z'
    || leb b'a' c && leb c b'z'
    || leb b'0' c && leb c b'9'
    || nat_eq c b'_'
    || nat_eq c b'-'

abbrev pub safe_unit : ℕ → ℕ
safe_unit c = if is_safe_unit c then c else b'_'

abbrev pub is_surrogate_pair : ℕ → ℕ → Bool
is_surrogate_pair c d = leb 0xd800 c && leb c 0xdbff && leb 0xdc00 d && leb d 0xdfff

abbrev pub is_surrogate : ℕ → Bool
is_surrogate c = leb 0xd800 c && leb c 0xdfff

-- every surrogate is in a pair
unfoldable pub is_well_formed : QString → Bool
is_well_formed [] = true
is_well_formed (c ∷ []) = not (is_surrogate c)
is_well_formed (c ∷ d ∷ s) = elim (is_surrogate_pair c d) [
  | true ↦ is_well_formed s
  | false ↦ not (is_surrogate c) && is_well_formed (d ∷ s)
]

-- every match of [^A-Za-z0-9_-], where a pair of surrogates is one character
unfoldable pub replace_unsafe : QString → QString
replace_unsafe [] = []
replace_unsafe (c ∷ []) = safe_unit c ∷ []
replace_unsafe (c ∷ d ∷ s) = elim (is_surrogate_pair c d) [
  | true ↦ b'_' ∷ replace_unsafe s
  | false ↦ safe_unit c ∷ replace_unsafe (d ∷ s)
]

-- replace(QRegularExpression("[^A-Za-z0-9_-]"), "_"): a text that is not well-formed UTF-16 has no
-- match, and stays as it is
unfoldable pub safe_message_id : QString → QString
unfolding is_well_formed replace_unsafe
safe_message_id id = if is_well_formed id then replace_unsafe id else id

abbrev pub with_local_copy : QString → LocalMessage → LocalMessage
with_local_copy copy message = record message { local_sender_copy_wire_payload_json = copy }

-- the request that is made with an encrypted payload, for each use
abbrev pub request_for : BundleUse → QString → LocalMessage → Option ℤ → Request
request_for (send_use address plaintext device) token draft consumed =
    Request.send_message token draft consumed
request_for (forward_use id address plaintext device) token draft consumed =
    Request.forward_message token id draft consumed

abbrev pub reply_for : BundleUse → QString → Pending
reply_for (send_use address plaintext device) copy = sent_reply copy
reply_for (forward_use id address plaintext device) copy = forwarded_reply copy

abbrev pub address_of : BundleUse → UserAddress
address_of (send_use address plaintext device) = address
address_of (forward_use id address plaintext device) = address

abbrev pub plaintext_of : BundleUse → QString
plaintext_of (send_use address plaintext device) = plaintext
plaintext_of (forward_use id address plaintext device) = plaintext

abbrev pub device_of : BundleUse → DeviceKeyMaterial
device_of (send_use address plaintext device) = device
device_of (forward_use id address plaintext device) = device

module _ (env : Env) where
  abbrev pub copied : BundleUse → EncryptedPayload → Result QString → Step
  copied purpose payload (failure e) w = crypto_failed e w
  copied purpose payload (success copy) w =
      let address = address_of purpose in
      call
        (request_for purpose (access_token w)
          (draft_for env w address.user_id address.device_id payload.wire_payload_json)
          payload.consumed_one_time_pre_key_id)
        (reply_for purpose copy) w

  abbrev pub encrypted : BundleUse → Result EncryptedPayload → Step
  encrypted purpose (failure e) w = crypto_failed e w
  encrypted purpose (success payload) w =
      copied purpose payload
        (create_local_sender_copy env w (device_of purpose) (plaintext_of purpose)) w

  -- sendToAddress and forwardToAddress: the two callbacks of trustedBundle
  unfoldable pub bundle_trusted : BundleUse → Result PreKeyBundle → Step
  unfolding draft_for create_local_sender_copy
  bundle_trusted purpose (failure e) w = fail_with e w
  bundle_trusted purpose (success bundle) w =
      encrypted purpose
        (env.crypto.encrypt (current_user_id w) (device_of purpose) bundle (plaintext_of purpose)) w

  abbrev pub use_bundle : BundleUse → Step
  use_bundle purpose w =
      let address = address_of purpose in
      trusted_bundle env bundle_trusted address.user_id address.device_id purpose w

  unfoldable pub pinned_bundle_arrived : TrustPin → BundleUse → Result PreKeyBundle → Step
  unfolding trusted_bundle_fetched
  pinned_bundle_arrived = trusted_bundle_fetched env bundle_trusted

  abbrev pub send_from : UserAddress → QString → Result DeviceKeyMaterial → Step
  send_from address plaintext (failure e) w = fail_with e w
  send_from address plaintext (success device) w = use_bundle (send_use address plaintext device) w

  unfoldable pub send_to_address : UserAddress → QString → Step
  unfolding current_device trusted_bundle
  send_to_address address plaintext w = send_from address plaintext (current_device env w) w

  unfoldable pub send : QString → QString → Step
  send username plaintext = when_logged_in (λ w.
      call (Request.resolve_username (access_token w) username env.device_id)
        (send_address plaintext) w)

  unfoldable pub send_address_resolved : QString → Result UserAddress → Step
  unfolding send_to_address
  send_address_resolved plaintext (failure e) w = fail_with e w
  send_address_resolved plaintext (success address) w =
      saving (save_known_user env.host address) (send_to_address address plaintext) w

  unfoldable pub message_sent : QString → Result LocalMessage → Step
  message_sent copy (failure e) w = fail_with e w
  message_sent copy (success message) w =
      let saved = with_local_copy copy message in
      saving (save_message env.host saved) (emit (Event.message_sent saved)) w

  unfoldable pub forward : QString → QString → Step
  forward id username = when_logged_in (λ w.
      call (Request.resolve_username (access_token w) username env.device_id) (forward_address id)
        w)

  abbrev pub forward_plaintext : QString → UserAddress → DeviceKeyMaterial → Result QString → Step
  forward_plaintext id address device (failure e) w = crypto_failed e w
  forward_plaintext id address device (success plaintext) w =
      use_bundle (forward_use id address plaintext device) w

  abbrev pub forward_from : QString → UserAddress → LocalMessage → Result DeviceKeyMaterial → Step
  forward_from id address message (failure e) w = fail_with e w
  forward_from id address message (success device) w =
      forward_plaintext id address device (decrypt_for_current_user env w device message) w

  abbrev pub forward_found : QString → UserAddress → Option LocalMessage → Step
  forward_found id address none w =
      fail_with (not_found (text "Message must be cached before forwarding. Use /read first.")) w
  forward_found id address (some message) w =
      forward_from id address message (current_device env w) w

  unfoldable pub forward_to_address : QString → UserAddress → Step
  unfolding current_device decrypt_for_current_user trusted_bundle
  forward_to_address id address w = forward_found id address (find_message id (store_of w)) w

  unfoldable pub forward_address_resolved : QString → Result UserAddress → Step
  unfolding forward_to_address
  forward_address_resolved id (failure e) w = fail_with e w
  forward_address_resolved id (success address) w =
      saving (save_known_user env.host address) (forward_to_address id address) w

  unfoldable pub message_forwarded : QString → Result LocalMessage → Step
  message_forwarded copy (failure e) w = fail_with e w
  message_forwarded copy (success message) w =
      let saved = with_local_copy copy message in
      saving (save_message env.host saved) (emit (Event.message_forwarded saved)) w

  -- downloadPathForMessage
  unfoldable pub download_path_for_message : QString → QString
  unfolding safe_message_id
  download_path_for_message id =
      env.current_path (text "message-" ++ safe_message_id id ++ text ".txt")

  abbrev pub write_download : QString → QString → Step
  write_download id plaintext w =
      let path = download_path_for_message id in
      if not (env.host.can_write path)
      then fail_with (record { code = ErrorCode.storage_error; message = could_not_write path }) w
      else emit (Event.message_downloaded id path)
          (record w { downloads = (path, plaintext ++ b'\n' ∷ []) ∷ w.downloads })

  abbrev pub download_plaintext : QString → Result QString → Step
  download_plaintext id (failure e) w = crypto_failed e w
  download_plaintext id (success plaintext) w = write_download id plaintext w

  abbrev pub download_from : QString → LocalMessage → Result DeviceKeyMaterial → Step
  download_from id message (failure e) w = fail_with e w
  download_from id message (success device) w =
      download_plaintext id (decrypt_for_current_user env w device message) w

  abbrev pub download_found : QString → Option LocalMessage → Step
  download_found id none w =
      fail_with (not_found (text "Message must be cached before download. Use /read first.")) w
  download_found id (some message) w = download_from id message (current_device env w) w

  unfoldable pub download : QString → Step
  unfolding current_device decrypt_for_current_user download_path_for_message
  download id w = download_found id (find_message id (store_of w)) w
