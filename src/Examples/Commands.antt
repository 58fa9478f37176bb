-- ===== src/Examples/Commands.antt =====
-- The names, the parser and the command line, on small inputs.
use epic_kfc.Base.{
  pos, QString, text, text_eq, List, [], ◌∷◌, ◌++◌, ◌≡◌, ◌≢◌, refl, All, is_positive, true, false,
}
use epic_kfc.Models.{ClientMode, CommandType, success, StartupConfig, unclosed_quote}
use epic_kfc.Commands.{command_type_name}
use epic_kfc.Parser.{parse, tokenize_arguments, invalid_command, tokenize_arguments}
use epic_kfc.Parser.Quotes.{tokenize_by_quotes, place_after, outside}
use epic_kfc.Parser.NonEmpty.{IsNonEmpty}
use epic_kfc.Parser.RoundTrip.{render}
use epic_kfc.Parser.Lines.{parse-line}
use epic_kfc.Startup.{
  Paths, parse as parse_startup, default_state_path, parse_loop, take_argument, accept,
  initial_progress,
}
use epic_kfc.Startup.Accepted.{parse-IsAccepted}
use epic_kfc.Startup.Flags.{parse-command_line, command_line}
use epic_kfc.Examples.Platforms.{ascii, ascii_laws}

-- a name and a text with a quote and a backslash
abbrev two_arguments : List QString
two_arguments = text "bob" ∷ text "a \"b\\" ∷ []

two_arguments-All : All IsNonEmpty two_arguments
two_arguments-All = (λ e. cc, (λ e. cc, tt))

parse-line_example :
    parse ascii (b'/' ∷ (command_type_name CommandType.msg ++ render two_arguments))
    ≡ success (record {
      type = CommandType.msg;
      name = command_type_name CommandType.msg;
      arguments = two_arguments;
      original_line = b'/' ∷ (command_type_name CommandType.msg ++ render two_arguments);
    })
parse-line_example = parse-line ascii_laws CommandType.msg two_arguments two_arguments-All

tokenize_by_quotes_example :
    (place_after outside (text "a \"b") ≡ outside
      → (args : List QString) × (tokenize_arguments ascii (text "a \"b") ≡ success args))
    × (place_after outside (text "a \"b") ≢ outside
        → tokenize_arguments ascii (text "a \"b") ≡ invalid_command unclosed_quote)
tokenize_by_quotes_example = tokenize_by_quotes ascii (text "a \"b")

abbrev paths : Paths
paths = record {
  app_data_location = [];
  current_path = text "/tmp";
  file_path = λ base name. base ++ name;
}

abbrev real_config : StartupConfig
real_config = record {
  mode = ClientMode.real;
  api_url = text "https://kfc";
  device_id = pos 2;
  state_path = text "s.json";
  state_path_explicit = true;
  show_raw_errors = true;
}

parse-command_line_example :
    parse_startup ascii paths (command_line real_config (text "2")) ≡ success real_config
parse-command_line_example =
    parse-command_line ascii paths real_config (text "2") refl refl refl refl refl refl refl

parse-IsAccepted_example :
    (is_positive real_config.device_id ≡ true)
    × (real_config.mode ≡ ClientMode.real
        → (real_config.api_url ≢ []) × (ascii.scheme real_config.api_url ≡ text "https"))
parse-IsAccepted_example =
    parse-IsAccepted ascii paths (command_line real_config (text "2")) real_config
      (parse-command_line ascii paths real_config (text "2") refl refl refl refl refl refl refl)

abbrev debug_config : StartupConfig
debug_config = record {
  mode = ClientMode.mock;
  api_url = [];
  device_id = pos 3;
  state_path = default_state_path paths;
  state_path_explicit = false;
  show_raw_errors = true;
}

debug_run :
    parse_startup ascii paths (text "--debug" ∷ text "--device-id" ∷ text "3" ∷ [])
    ≡ success debug_config
unfolding parse_startup parse_loop take_argument text_eq accept initial_progress
debug_run = refl
