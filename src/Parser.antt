-- ===== src/Parser.antt =====
-- client/src/app/SlashCommandParser.cpp: a line of input to a command and its arguments.
pub mod Quotes
pub mod Lines
pub mod RoundTrip
pub mod NonEmpty
use epic_kfc.Base.{
  ℕ, zero, suc, ◌+◌, ◌-◌, QString, Bool, true, false, ◌&&◌, not, Option, none, some, List, [], ◌∷◌,
  ◌++◌, if◌then◌else◌, nat_eq, is_empty, starts_with, index_of, take, drop,
}
use epic_kfc.Models.{
  ErrorText, ClientError, ErrorCode, Result, success, failure, ◌>>=◌, CommandType, SlashCommand,
  empty_ignored, missing_slash, missing_name, unknown_command, unclosed_quote,
}
use epic_kfc.Platform.{Qt}
use epic_kfc.Commands.{command_type_from_name}

abbrev pub invalid_command {ℓ} : {A : Type ℓ} → ErrorText → Result A
invalid_command message = failure (record { code = ErrorCode.invalid_command; message = message })

-- The variables of the loop of `tokenizeArguments`.
pub record Tokens : Type 0 where
  pub arguments : List QString
  pub current : QString
  pub in_quote : Bool
  pub escaping : Bool

abbrev pub no_tokens : Tokens
no_tokens = record { arguments = []; current = []; in_quote = false; escaping = false }

abbrev pub append_character : Tokens → ℕ → Tokens
append_character t character = record t { current = t.current ++ character ∷ [] }

-- `if (!current.isEmpty()) { arguments.push_back(current); current.clear(); }`
pub end_argument : Tokens → Tokens
end_argument t =
    if is_empty t.current
    then t
    else record t { arguments = t.arguments ++ t.current ∷ []; current = [] }

-- `if (escaping) { current.append(Escape); }`
pub end_escape : Tokens → Tokens
end_escape t = if t.escaping then append_character t b'\\' else t

-- QString::mid, with `none` for the length -1
unfoldable pub mid : QString → ℕ → Option ℕ → QString
mid s position none = drop position s
mid s position (some n) = take n (drop position s)

module _ (qt : Qt) where
  -- one round of the loop
  pub token_step : Tokens → ℕ → Tokens
  unfolding end_argument
  token_step t character =
      if t.escaping
      then record t { current = t.current ++ character ∷ []; escaping = false }
      else if t.in_quote && nat_eq character b'\\'
      then record t { escaping = true }
      else if nat_eq character b'"'
      then record t { in_quote = not t.in_quote }
      else if qt.is_space character && not t.in_quote
      then end_argument t
      else append_character t character

  pub scan : Tokens → QString → Tokens
  scan t [] = t
  scan t (character ∷ rest) = scan (token_step t character) rest

  -- what follows the loop
  pub finish : Tokens → Result (List QString)
  unfolding end_argument end_escape
  finish t =
      let ended = end_escape t in
      if ended.in_quote
      then invalid_command unclosed_quote
      else success (end_argument ended).arguments

  -- SlashCommandParser::tokenizeArguments
  unfoldable pub tokenize_arguments : QString → Result (List QString)
  unfolding scan finish token_step
  tokenize_arguments s = finish (scan no_tokens s)

  abbrev arguments_after : QString → Option ℕ → Result (List QString)
  arguments_after trimmed none = success []
  arguments_after trimmed (some first_space) =
      tokenize_arguments (mid trimmed (first_space + 1) none)

  abbrev command_name_length : Option ℕ → Option ℕ
  command_name_length none = none
  command_name_length (some first_space) = some (first_space - 1)

  -- from the lookup of the command's name on
  pub parse_named :
      QString → QString → Option ℕ → QString → Option CommandType → Result SlashCommand
  parse_named input trimmed first_space command_name none =
      invalid_command (unknown_command command_name)
  parse_named input trimmed first_space command_name (some command_type) = do
    arguments ← arguments_after trimmed first_space
    success (record {
      type = command_type;
      name = command_name;
      arguments = arguments;
      original_line = input;
    })

  -- SlashCommandParser::parse
  unfoldable pub parse : QString → Result SlashCommand
  unfolding parse_named mid
  parse input =
      let trimmed = qt.trimmed input in
      let first_space = index_of trimmed b' ' in
      let command_name = qt.to_lower (mid trimmed 1 (command_name_length first_space)) in
      if is_empty trimmed
      then invalid_command empty_ignored
      else if not (starts_with trimmed (b'/' ∷ []))
      then invalid_command missing_slash
      else if is_empty command_name
      then invalid_command missing_name
      else parse_named input trimmed first_space command_name
          (command_type_from_name qt command_name)
