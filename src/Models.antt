-- ===== src/Models.antt =====
-- client/src/domain/Models.h: the values that the parts of the client exchange.
-- An `int` is a ℤ. A `QDateTime` is `none` where it is invalid, and otherwise the milliseconds
-- since the epoch. An error's message is a constructor for each text of
-- client/src/support/ClientConstants.h and of the sources, with the values put into the text.
use epic_kfc.Base.{
  ℕ, ℤ, pos, QString, Bool, Option, none, List, ◌≡◌, refl, ap, ltb, true, false, if◌then◌else◌,
}

pub data ErrorCode : Type 0 where
  invalid_command : ErrorCode
  invalid_configuration : ErrorCode
  auth_required : ErrorCode
  network_error : ErrorCode
  tls_error : ErrorCode
  http_error : ErrorCode
  crypto_error : ErrorCode
  trust_error : ErrorCode
  storage_error : ErrorCode
  not_found : ErrorCode
  operation_failed : ErrorCode

pub data CommandType : Type 0 where
  help register login logout whoami status conversations inbox sent msg send : CommandType
  read forward revoke delete_message download trust verify sync cancel back exit : CommandType

pub data ClientMode : Type 0 where
  mock real : ClientMode

pub data MessageDirection : Type 0 where
  sent received : MessageDirection

abbrev pub default_device_id : ℤ
default_device_id = pos 1

-- The texts of the errors that the modelled code makes, and those that come from elsewhere.
pub data ErrorText : Type 0 where
  empty_ignored : ErrorText
  missing_slash : ErrorText
  missing_name : ErrorText
  unknown_command : QString → ErrorText
  unclosed_quote : ErrorText
  argument_count_exactly : QString → ℕ → ErrorText
  argument_count_at_least : QString → ℕ → ErrorText
  positive_page : QString → ErrorText
  startup_usage : ErrorText
  debug_real_mode_conflict : ErrorText
  debug_api_url_conflict : ErrorText
  invalid_mode : ErrorText
  invalid_device_id : ErrorText
  missing_real_api_url : ErrorText
  tls_required : ErrorText
  auth_required_text : ErrorText
  empty_message : ErrorText
  could_not_read : QString → ErrorText
  could_not_write : QString → ErrorText
  could_not_create : QString → ErrorText
  could_not_encrypt : QString → ErrorText
  could_not_decrypt : QString → ErrorText
  passphrase_required_for_save : ErrorText
  passphrase_required_for_load : ErrorText
  salt_not_created : ErrorText
  salt_invalid : ErrorText
  other : QString → ErrorText

pub record ClientError : Type 0 where
  pub code : ErrorCode
  pub message : ErrorText

-- client/src/support/Result.h
pub data Result {ℓ} (A : Type ℓ) : Type ℓ where
  success : A → Result A
  failure : ClientError → Result A

infixl 5 ◌>>=◌
abbrev pub ◌>>=◌ {ℓ κ} : {A : Type ℓ} {B : Type κ} → Result A → (A → Result B) → Result B
success a >>= f = f a
failure e >>= f = failure e

abbrev pub value_or {ℓ} : {A : Type ℓ} → A → Result A → A
value_or d (success a) = a
value_or d (failure e) = d

pub success-injective {ℓ} : {A : Type ℓ} {a b : A} → success a ≡ success b → a ≡ b
success-injective {a} h = ap (value_or a) h

pub >>=-eq-success {ℓ κ} :
    {A : Type ℓ} {B : Type κ} (m : Result A) (f : A → Result B) {b : B}
    → (m >>= f) ≡ success b
    → (a : A) × (m ≡ success a) × (f a ≡ success b)
>>=-eq-success (success a) f h = (a, refl, h)
>>=-eq-success (failure e) f h = cc

-- a test that leads to an error was passed, where the result is no error
pub guard_passed {ℓ} :
    {A : Type ℓ} (test : Bool) (e : ClientError) (rest : Result A) {a : A}
    → (if test then failure e else rest) ≡ success a
    → (test ≡ false) × (rest ≡ success a)
guard_passed true e rest h = cc
guard_passed false e rest h = (refl, h)

-- a test between two results, each with what it leads to
pub guard_cases {ℓ κ} :
    {A : Type ℓ} {P : Type κ} (test : Bool) (x y : Result A) {a : A}
    → (if test then x else y) ≡ success a
    → (test ≡ true → x ≡ success a → P)
    → (test ≡ false → y ≡ success a → P)
    → P
guard_cases true x y h on_true on_false = on_true refl h
guard_cases false x y h on_true on_false = on_false refl h

pub record StartupConfig : Type 0 where
  pub mode : ClientMode
  pub api_url : QString
  pub device_id : ℤ
  pub state_path : QString
  pub state_path_explicit : Bool
  pub show_raw_errors : Bool

pub record SlashCommand : Type 0 where
  pub type : CommandType
  pub name : QString
  pub arguments : List QString
  pub original_line : QString

pub record UserProfile : Type 0 where
  pub id : QString
  pub username : QString
  pub email : QString

pub record TokenSet : Type 0 where
  pub access_token : QString
  pub refresh_token : QString
  pub token_type : QString
  pub expires_in : ℤ

pub record AuthSession : Type 0 where
  pub user : UserProfile
  pub tokens : TokenSet

pub record UserAddress : Type 0 where
  pub user_id : QString
  pub username : QString
  pub device_id : ℤ

pub record KnownUser : Type 0 where
  pub user_id : QString
  pub username : QString
  pub device_id : ℤ

pub record DeviceKeyMaterial : Type 0 where
  pub device_id : ℤ
  pub registration_id : ℤ
  pub identity_key : QString
  pub identity_private_key : QString
  pub identity_signing_key : QString
  pub identity_signing_private_key : QString
  pub signed_pre_key_id : ℤ
  pub signed_pre_key : QString
  pub signed_pre_key_private : QString
  pub signed_pre_key_signature : QString

pub record OneTimePreKey : Type 0 where
  pub device_id : ℤ
  pub pre_key_id : ℤ
  pub public_key : QString
  pub private_key : QString
  pub uploaded : Bool

abbrev pub QDateTime : Type 0
QDateTime = Option ℕ

-- `<` of QDateTime: an invalid value is less than every valid one
abbrev pub before : QDateTime → QDateTime → Bool
before none none = false
before none (Option.some b) = true
before (Option.some a) none = false
before (Option.some a) (Option.some b) = ltb a b

pub record TrustPin : Type 0 where
  pub user_id : QString
  pub device_id : ℤ
  pub identity_key : QString
  pub first_seen_at : QDateTime

pub record BlockchainAnchor : Type 0 where
  pub id : QString
  pub message_id : QString
  pub record_id : QString
  pub digest : QString
  pub merkle_root : QString
  pub transaction_hash : QString
  pub contract_address : QString
  pub chain : QString
  pub status : QString
  pub anchored_at : QString

pub record LocalMessage : Type 0 where
  pub id : QString
  pub sender_user_id : QString
  pub sender_device_id : ℤ
  pub recipient_user_id : QString
  pub recipient_device_id : ℤ
  pub wire_payload_json : QString
  pub consumed_one_time_pre_key_id : Option ℤ
  pub created_at : QDateTime
  pub access_revoked_at : QString
  pub sender_deleted_at : QString
  pub recipient_deleted_at : QString
  pub deleted_at : QString
  pub read_at : QString
  pub local_sender_copy_wire_payload_json : QString
  pub direction : MessageDirection
  pub created_at_raw : QString
  pub cached_anchor : BlockchainAnchor

pub record ConversationSummary : Type 0 where
  pub peer_user_id : QString
  pub peer_username : QString
  pub peer_device_id : ℤ
  pub message_count : ℕ
  pub unread_count : ℕ
  pub latest_message_at : QDateTime

pub record EncryptedPayload : Type 0 where
  pub wire_payload_json : QString
  pub consumed_one_time_pre_key_id : Option ℤ

pub record BlockchainVerification : Type 0 where
  pub valid : Bool
  pub chain : QString
  pub status : QString
  pub anchor_id : QString
  pub message_id : QString
  pub record_id : QString
  pub digest : QString
  pub transaction_hash : QString
  pub contract_address : QString
  pub verified_at : QString
