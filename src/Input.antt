-- ===== src/Input.antt =====
-- client/src/app/CommandRouter.cpp: the functions that look at a line or at the arguments of a
-- command, without the state of the router.
pub mod Joined
use epic_kfc.Base.{
  ℕ, QString, text, text_eq, starts_with, is_empty, length, drop, Bool, true, false, not, ◌&&◌,
  ◌||◌, Option, none, some, List, [], ◌∷◌, ◌++◌, if◌then◌else◌, ltb,
}
use epic_kfc.Models.{CommandType, ErrorText, argument_count_exactly, argument_count_at_least}
use epic_kfc.Platform.{Qt}

-- the loop of joinedLines and joinedArguments, with the result so far
unfoldable pub join_loop : ℕ → QString → List QString → QString
join_loop separator result [] = result
join_loop separator result (line ∷ lines) =
    join_loop separator
      ((if not (is_empty result) then result ++ separator ∷ [] else result) ++ line) lines

-- '\n'
abbrev pub newline : ℕ
newline = 10

unfoldable pub joined_lines : List QString → QString
joined_lines = join_loop newline []

-- joinedArguments, from an index on
unfoldable pub joined_arguments : List QString → ℕ → QString
joined_arguments arguments first_index = join_loop b' ' [] (drop first_index arguments)

-- CommandText's /send, /cancel and /back
abbrev pub submit_command : QString
submit_command = text "/send"

abbrev pub cancel_command : QString
cancel_command = text "/cancel"

abbrev pub back_command : QString
back_command = text "/back"

abbrev pub right_arrow : ℕ
right_arrow = 8594

module _ (qt : Qt) where
  abbrev without_arrow : QString → QString
  without_arrow stripped =
      if starts_with stripped (right_arrow ∷ []) then drop 1 stripped else stripped

  -- withoutConversationPromptEcho
  unfoldable pub without_conversation_prompt_echo : QString → QString → QString
  without_conversation_prompt_echo line username =
      let prompt = text "[" ++ username ++ text "] > " in
      let compact_prompt = text "[" ++ username ++ text "] >" in
      if is_empty username
      then line
      else if starts_with line prompt
      then qt.trimmed (drop (length prompt) line)
      else if not (starts_with line compact_prompt)
      then line
      else qt.trimmed (without_arrow (qt.trimmed (drop (length compact_prompt) line)))

  -- isClientOutputEcho
  unfoldable pub is_client_output_echo : QString → Bool
  is_client_output_echo line = text_eq (qt.trimmed line) (text "Sending message...")

  -- a line that does not count as text of a message
  abbrev pub is_ignored : QString → Bool
  is_ignored body = is_empty (qt.trimmed body) || is_client_output_echo body

  -- trimmed.compare(command, Qt::CaseInsensitive) == 0
  abbrev pub is_request : QString → QString → Bool
  is_request wanted line = qt.equals_ignoring_case (qt.trimmed line) wanted

-- zeroArgumentCommands and oneArgumentCommands
abbrev pub is_zero_argument_command : CommandType → Bool
is_zero_argument_command CommandType.help = true
is_zero_argument_command CommandType.logout = true
is_zero_argument_command CommandType.whoami = true
is_zero_argument_command CommandType.status = true
is_zero_argument_command CommandType.conversations = true
is_zero_argument_command CommandType.inbox = true
is_zero_argument_command CommandType.sent = true
is_zero_argument_command CommandType.sync = true
is_zero_argument_command CommandType.cancel = true
is_zero_argument_command CommandType.back = true
is_zero_argument_command CommandType.exit = true
is_zero_argument_command _ = false

abbrev pub is_one_argument_command : CommandType → Bool
is_one_argument_command CommandType.revoke = true
is_one_argument_command CommandType.delete_message = true
is_one_argument_command CommandType.verify = true
is_one_argument_command CommandType.trust = true
is_one_argument_command _ = false

-- the tests and the text of commandHasArgumentCount; no maximum is -1 in the source
unfoldable pub has_argument_count : ℕ → ℕ → Option ℕ → Bool
has_argument_count count minimum none = not (ltb count minimum)
has_argument_count count minimum (some maximum) = not (ltb count minimum) && not (ltb maximum count)

abbrev pub expected_count : QString → ℕ → Option ℕ → ErrorText
expected_count name minimum none = argument_count_at_least name minimum
expected_count name minimum (some maximum) =
    if not (ltb minimum maximum) && not (ltb maximum minimum)
    then argument_count_exactly name minimum
    else argument_count_at_least name minimum
