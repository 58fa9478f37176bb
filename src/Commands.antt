-- ===== src/Commands.antt =====
-- client/src/domain/Models.cpp: the names of the slash commands and of the error codes.
pub mod Names
use Prim.Native.Nat.{ℕ}
use epic_kfc.Base.{QString, text, text_eq, if◌then◌else◌, Option, none, some, List, [], ◌∷◌, nat_eq}
use epic_kfc.Models.{CommandType, ErrorCode, ClientMode}
use epic_kfc.Platform.{Qt}

abbrev pub command_lookup : List (QString × CommandType)
command_lookup =
    (text "help", CommandType.help)
    ∷ (text "register", CommandType.register)
    ∷ (text "login", CommandType.login)
    ∷ (text "logout", CommandType.logout)
    ∷ (text "whoami", CommandType.whoami)
    ∷ (text "status", CommandType.status)
    ∷ (text "conversations", CommandType.conversations)
    ∷ (text "inbox", CommandType.inbox)
    ∷ (text "sent", CommandType.sent)
    ∷ (text "msg", CommandType.msg)
    ∷ (text "send", CommandType.send)
    ∷ (text "read", CommandType.read)
    ∷ (text "forward", CommandType.forward)
    ∷ (text "revoke", CommandType.revoke)
    ∷ (text "delete", CommandType.delete_message)
    ∷ (text "download", CommandType.download)
    ∷ (text "trust", CommandType.trust)
    ∷ (text "verify", CommandType.verify)
    ∷ (text "sync", CommandType.sync)
    ∷ (text "cancel", CommandType.cancel)
    ∷ (text "back", CommandType.back)
    ∷ (text "exit", CommandType.exit)
    ∷ []

-- the position of a command in the enumeration, by which two commands are compared
abbrev pub command_index : CommandType → ℕ
command_index CommandType.help = 0
command_index CommandType.register = 1
command_index CommandType.login = 2
command_index CommandType.logout = 3
command_index CommandType.whoami = 4
command_index CommandType.status = 5
command_index CommandType.conversations = 6
command_index CommandType.inbox = 7
command_index CommandType.sent = 8
command_index CommandType.msg = 9
command_index CommandType.send = 10
command_index CommandType.read = 11
command_index CommandType.forward = 12
command_index CommandType.revoke = 13
command_index CommandType.delete_message = 14
command_index CommandType.download = 15
command_index CommandType.trust = 16
command_index CommandType.verify = 17
command_index CommandType.sync = 18
command_index CommandType.cancel = 19
command_index CommandType.back = 20
command_index CommandType.exit = 21

unfoldable pub find_name : CommandType → List (QString × CommandType) → QString
find_name type [] = text "unknown"
find_name type ((name, t) ∷ rest) =
    let later = find_name type rest in
    if nat_eq (command_index t) (command_index type) then name else later

unfoldable pub find_type : QString → List (QString × CommandType) → Option CommandType
find_type key [] = none
find_type key ((name, t) ∷ rest) =
    let later = find_type key rest in if text_eq name key then some t else later

-- commandTypeName
unfoldable pub command_type_name : CommandType → QString
unfolding find_name
command_type_name type = find_name type command_lookup

-- errorCodeToString
unfoldable pub error_code_to_string : ErrorCode → QString
error_code_to_string ErrorCode.invalid_command = text "invalid-command"
error_code_to_string ErrorCode.invalid_configuration = text "invalid-configuration"
error_code_to_string ErrorCode.auth_required = text "auth-required"
error_code_to_string ErrorCode.network_error = text "network-error"
error_code_to_string ErrorCode.tls_error = text "tls-error"
error_code_to_string ErrorCode.http_error = text "http-error"
error_code_to_string ErrorCode.crypto_error = text "crypto-error"
error_code_to_string ErrorCode.trust_error = text "trust-error"
error_code_to_string ErrorCode.storage_error = text "storage-error"
error_code_to_string ErrorCode.not_found = text "not-found"
error_code_to_string ErrorCode.operation_failed = text "operation-failed"

-- clientModeToString
unfoldable pub client_mode_to_string : ClientMode → QString
client_mode_to_string ClientMode.real = text "real"
client_mode_to_string ClientMode.mock = text "mock"

module _ (qt : Qt) where
  -- commandKey
  pub command_key : QString → QString
  command_key name = qt.to_lower (qt.trimmed name)

  -- commandTypeFromName
  unfoldable pub command_type_from_name : QString → Option CommandType
  unfolding find_type command_key
  command_type_from_name name = find_type (command_key name) command_lookup
