-- ===== src/Gateways.antt =====
-- client/src/gateways/Gateways.cpp: the gateways of mock mode, which answer from memory. Each
-- answers after a timer: its answer is what the call gives here, with the state at that time.
-- A number in a text is printed by `QString::arg`, a parameter; a user id is taken to hold no place marker of `arg`.
pub mod Messages
pub mod Mailbox
pub mod Mock
use epic_kfc.Base.{
  ℕ, ◌+◌, ℤ, pos, QString, text, Bool, true, false, ◌||◌, Option, none, some, List, [], ◌∷◌, ◌++◌,
  if◌then◌else◌, is_empty, text_eq, keep,
}
use epic_kfc.Models.{
  ErrorCode, ErrorText, ClientError, UserProfile, TokenSet, AuthSession, UserAddress,
  DeviceKeyMaterial, OneTimePreKey, LocalMessage, MessageDirection, sent, received,
  BlockchainAnchor, BlockchainVerification, QDateTime, Result, success, failure, other,
  auth_required_text,
}
use epic_kfc.Texts.{empty_username}
use epic_kfc.Keyed.{lookup}
use epic_kfc.Store.Messages.{message_key, update_message}
use epic_kfc.Trust.{PreKeyBundle}

abbrev pub refused {ℓ} : {A : Type ℓ} → ErrorCode → QString → Result A
refused code message = failure (record { code = code; message = other message })

abbrev pub auth_required {ℓ} : {A : Type ℓ} → Result A
auth_required = failure (record { code = ErrorCode.auth_required; message = auth_required_text })

-- MockAuthGateway
module _ (trimmed : QString → QString) where
  -- `uuid` is what QUuid::createUuid makes
  unfoldable pub register_user : QString → QString → QString → QString → Result UserProfile
  register_user uuid username email password =
      if is_empty (trimmed username) || is_empty (trimmed email) || is_empty password
      then refused ErrorCode.invalid_command (text "Username, email, and password are required.")
      else success (record { id = uuid; username = trimmed username; email = trimmed email })

  abbrev pub mock_user : QString → UserProfile
  mock_user name = record {
    id = text "mock-user-" ++ trimmed name;
    username = trimmed name;
    email = trimmed name ++ text "@example.test";
  }

  -- mockTokenFor is in the access token
  abbrev pub mock_tokens : QString → TokenSet
  mock_tokens name = record {
    access_token = text "mock-token-" ++ name;
    refresh_token = text "mock-refresh-" ++ name;
    token_type = text "bearer";
    expires_in = pos 3600;
  }

  unfoldable pub login : QString → QString → Result AuthSession
  login name password =
      if is_empty (trimmed name) || is_empty password
      then refused ErrorCode.invalid_command (text "Login identifier and password are required.")
      else success (record { user = mock_user name; tokens = mock_tokens name })

  -- MockUserDirectoryGateway
  unfoldable pub resolve_username : QString → QString → ℤ → Result UserAddress
  resolve_username access_token username default_device_id =
      if is_empty access_token
      then auth_required
      else if is_empty (trimmed username)
      then refused ErrorCode.invalid_command empty_username
      else success (record {
        user_id = text "mock-user-" ++ trimmed username;
        username = trimmed username;
        device_id = default_device_id;
      })

unfoldable pub current_user : QString → Result UserProfile
current_user access_token =
    if is_empty access_token
    then auth_required
    else success (record {
      id = text "mock-user";
      username = text "mock-user";
      email = text "mock@example.test";
    })

unfoldable pub logout : QString → Result Bool
logout refresh_token = success true

-- MockKeyGateway: the bundles by the text of user and device
abbrev pub Bundles : Type 0
Bundles = QString → Option PreKeyBundle

unfoldable pub assign : QString → PreKeyBundle → Bundles → Bundles
assign key bundle bundles k = if text_eq key k then some bundle else bundles k

module _ (int_text : ℤ → QString) (to_base64 : QString → QString) where
  abbrev pub bundle_key : QString → ℤ → QString
  bundle_key user device = user ++ text ":" ++ int_text device

  abbrev pub uploaded_bundle : DeviceKeyMaterial → PreKeyBundle
  uploaded_bundle material = record {
    user_id = text "mock-user";
    registration_id = material.registration_id;
    device_id = material.device_id;
    identity_key = material.identity_key;
    identity_signing_key = material.identity_signing_key;
    signed_pre_key_id = material.signed_pre_key_id;
    signed_pre_key = material.signed_pre_key;
    signed_pre_key_signature = material.signed_pre_key_signature;
    one_time_pre_key_id = none;
    one_time_pre_key = [];
  }

  unfoldable pub upsert_device_keys : QString → DeviceKeyMaterial → Bundles → Bundles × Result Bool
  unfolding assign
  upsert_device_keys access_token material bundles =
      if is_empty access_token then (bundles, auth_required) else (
        assign (bundle_key (text "mock-user") material.device_id) (uploaded_bundle material)
            bundles,
        success true,
      )

  unfoldable pub upload_one_time_pre_keys : QString → ℤ → List OneTimePreKey → Result Bool
  upload_one_time_pre_keys access_token device_id pre_keys =
      if is_empty access_token then auth_required else success true

  abbrev pub mock_bundle : QString → ℤ → PreKeyBundle
  mock_bundle user device = record {
    user_id = user;
    registration_id = pos 12345;
    device_id = device;
    identity_key = to_base64 (text "mock-identity-key-000000000000");
    identity_signing_key = to_base64 (text "mock-signing-key-0000000000000");
    signed_pre_key_id = pos 1;
    signed_pre_key = to_base64 (text "mock-signed-pre-key-00000000");
    signed_pre_key_signature = to_base64 (text "mock-signature");
    one_time_pre_key_id = some (pos 1);
    one_time_pre_key = to_base64 (text "mock-one-time-pre-key-00000");
  }

  abbrev bundle_or : PreKeyBundle → Option PreKeyBundle → PreKeyBundle
  bundle_or default none = default
  bundle_or default (some bundle) = bundle

  unfoldable pub fetch_pre_key_bundle : QString → QString → ℤ → Bundles → Result PreKeyBundle
  fetch_pre_key_bundle access_token user device bundles =
      if is_empty access_token
      then auth_required
      else success (bundle_or (mock_bundle user device) (bundles (bundle_key user device)))
