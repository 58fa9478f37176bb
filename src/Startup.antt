-- ===== src/Startup.antt =====
-- client/src/app/StartupConfig.cpp: the command line of the client. The loop over the arguments
-- is a recursion on the list of those that are left, where a flag that takes the next argument
-- as its value lets the loop skip it.
pub mod Accepted
pub mod Flags
use epic_kfc.Base.{
  ℤ, QString, text, text_eq, is_empty, Bool, true, false, not, ◌||◌, ◌&&◌, Option, none, some, List,
  [], ◌∷◌, if◌then◌else◌, is_positive,
}
use epic_kfc.Models.{
  ClientMode, StartupConfig, ErrorCode, ErrorText, ClientError, Result, success, failure, ◌>>=◌,
  startup_usage, debug_real_mode_conflict, debug_api_url_conflict, invalid_mode, invalid_device_id,
  missing_real_api_url, tls_required, unknown_command, default_device_id,
}
use epic_kfc.Platform.{Qt}

abbrev pub configuration_error {ℓ} : {A : Type ℓ} → ErrorText → Result A
configuration_error message =
    failure (record { code = ErrorCode.invalid_configuration; message = message })

abbrev pub default_api_url : QString
default_api_url = text "https://kfc.theburkenator.com/api/v1"

-- the variables of the loop of `parse`
pub record Progress : Type 0 where
  pub config : StartupConfig
  pub debug_mode : Bool
  pub real_mode_provided : Bool
  pub api_url_provided : Bool

-- nextValue, for the arguments behind the flag
abbrev pub next_value : List QString → QString
next_value [] = []
next_value (v ∷ rest) = v

-- QStandardPaths::writableLocation, QDir::currentPath, and QDir(base).filePath(name)
pub record Paths : Type 0 where
  pub app_data_location : QString
  pub current_path : QString
  pub file_path : QString → QString → QString

-- defaultStatePath
unfoldable pub default_state_path : Paths → QString
default_state_path paths =
    let base =
      if is_empty paths.app_data_location then paths.current_path else paths.app_data_location in
    paths.file_path base (text "client-state.json")

unfoldable pub initial_progress : Paths → Progress
initial_progress paths = record {
  config = record {
    mode = ClientMode.real;
    api_url = default_api_url;
    device_id = default_device_id;
    state_path = default_state_path paths;
    state_path_explicit = false;
    show_raw_errors = false;
  };
  debug_mode = false;
  real_mode_provided = false;
  api_url_provided = false;
}

module _ (qt : Qt) where
  abbrev start_debug : Progress → Result (Progress × Bool)
  start_debug p =
      if p.real_mode_provided
      then configuration_error debug_real_mode_conflict
      else success (
        record p {
          debug_mode = true;
          config = record p.config { mode = ClientMode.mock; show_raw_errors = true; api_url = [] };
        },
        false,
      )

  abbrev show_raw_errors : Progress → Result (Progress × Bool)
  show_raw_errors p =
      success (record p { config = record p.config { show_raw_errors = true } }, false)

  abbrev use_mock : Progress → Progress
  use_mock p = record p { config = record p.config { mode = ClientMode.mock; api_url = [] } }

  abbrev use_real : Progress → Progress
  use_real p = record p {
    real_mode_provided = true;
    config = record p.config {
      mode = ClientMode.real;
      api_url = if not p.api_url_provided then default_api_url else p.config.api_url;
    };
  }

  abbrev set_mode : QString → Progress → Result (Progress × Bool)
  set_mode mode p =
      if text_eq mode (text "mock")
      then success (use_mock p, true)
      else if text_eq mode (text "real")
      then (if p.debug_mode
          then configuration_error debug_real_mode_conflict
          else success (use_real p, true))
      else configuration_error invalid_mode

  abbrev set_api_url : QString → Progress → Result (Progress × Bool)
  set_api_url api_url p =
      if p.debug_mode
      then configuration_error debug_api_url_conflict
      else success (
        record p { api_url_provided = true; config = record p.config { api_url = api_url } },
        true,
      )

  abbrev set_device_id : Option ℤ → Progress → Result (Progress × Bool)
  set_device_id none p = configuration_error invalid_device_id
  set_device_id (some device_id) p =
      if not (is_positive device_id)
      then configuration_error invalid_device_id
      else success (record p { config = record p.config { device_id = device_id } }, true)

  abbrev set_state_path : QString → Progress → Result (Progress × Bool)
  set_state_path path p = success (
    record p { config = record p.config { state_path = path; state_path_explicit = true } },
    true,
  )

  -- the body of the loop, with whether the value was taken
  unfoldable pub take_argument : QString → QString → Progress → Result (Progress × Bool)
  take_argument argument value p =
      if text_eq argument (text "--help")
      then configuration_error startup_usage
      else if text_eq argument (text "--debug")
      then start_debug p
      else if text_eq argument (text "--debug-errors")
      then show_raw_errors p
      else if text_eq argument (text "--mode")
      then set_mode (qt.to_lower value) p
      else if text_eq argument (text "--api-url")
      then set_api_url value p
      else if text_eq argument (text "--device-id")
      then set_device_id (qt.to_int value) p
      else if text_eq argument (text "--state-path")
      then set_state_path value p
      else configuration_error (unknown_command argument)

  -- the loop, with whether the first argument is a value that was taken
  unfoldable pub parse_loop : Bool → List QString → Progress → Result Progress
  parse_loop skip [] p = success p
  parse_loop true (argument ∷ rest) p = parse_loop false rest p
  parse_loop false (argument ∷ rest) p = do
    taken ← take_argument argument (next_value rest) p
    parse_loop taken.1 rest taken.0

  -- the checks behind the loop
  unfoldable pub accept_real : StartupConfig → Result StartupConfig
  accept_real config =
      if is_empty config.api_url
      then configuration_error missing_real_api_url
      else if not (text_eq (qt.scheme config.api_url) (text "https"))
      then configuration_error tls_required
      else success config

  abbrev pub accept_mode : ClientMode → StartupConfig → Result StartupConfig
  accept_mode ClientMode.real config = accept_real config
  accept_mode ClientMode.mock config = success config

  unfoldable pub accept : Progress → Result StartupConfig
  accept p =
      if p.debug_mode && p.api_url_provided
      then configuration_error debug_api_url_conflict
      else accept_mode p.config.mode p.config

  -- StartupConfigParser::parse, for the arguments behind the program's name
  unfoldable pub parse : Paths → List QString → Result StartupConfig
  parse paths arguments = do p ← parse_loop false arguments (initial_progress paths); accept p
