-- ===== src/Services/Session.antt =====
-- client/src/services/Services.cpp: SessionService.
use epic_kfc.Base.{Bool, Option, none, some, if◌then◌else◌, QString, true, []}
use epic_kfc.Models.{UserProfile, AuthSession, TokenSet, Result, success, failure}
use epic_kfc.Events.{Event, StatusText}
use epic_kfc.Texts.{registered_user}
use epic_kfc.Files.{Disk, use_account_scoped_path}
use epic_kfc.Store.{Store}
use epic_kfc.Store.Tables.{load_session, set_secret_passphrase, clear_secret_passphrase}
use epic_kfc.Methods.{Machine, save_session, clear_session, reload}
use epic_kfc.Services.{
  Env, World, Step, Request, call, emit, fail_with, saving, set_machine, nothing, register_reply,
  login_reply, logout_reply,
}

-- SessionService::SessionService: the session of the store that was opened
unfoldable pub initial_world : Machine → World
initial_world m = record {
  keys = record { machine = m; last_trusted_bundle = none };
  session = load_session m.store;
  downloads = [];
}

unfoldable pub register_user : QString → QString → QString → Step
register_user username email password =
    call (Request.register_user username email password) register_reply

unfoldable pub user_registered : Result UserProfile → Step
user_registered (failure e) = fail_with e
user_registered (success user) =
    emit (Event.status_message (StatusText.other_status (registered_user user.username)))

unfoldable pub login : QString → QString → Step
login username_or_email password =
    call (Request.login username_or_email password) (login_reply password)

abbrev pub set_session : Option AuthSession → World → World
set_session session w = record w { session = session }

abbrev pub change_store : (Store → Store) → World → World
change_store f w = let m = w.keys.machine in set_machine (record m { store = f m.store }) w

module _ (env : Env) where
  -- the session is set and saved; it stays set where it cannot be saved
  unfoldable pub start_session : AuthSession → Step
  start_session session w =
      saving (save_session env.host session) (emit (Event.session_started session.user))
        (set_session (some session) w)

  abbrev scoped : Store × Disk × Result Bool → Machine → Machine × Result Bool
  scoped (s, disk, r) m = (record m { store = s; disk = disk }, r)

  -- useAccountScopedPath, as a method
  abbrev pub use_account : QString → Machine → Machine × Result Bool
  use_account user_id m =
      scoped (use_account_scoped_path env.qt env.host user_id true m.store m.disk) m

  abbrev pub reload_account : AuthSession → Step
  reload_account session = saving (reload env.host) (start_session session)

  unfoldable pub logged_in : QString → Result AuthSession → Step
  unfolding start_session
  logged_in password (failure e) w = fail_with e w
  logged_in password (success session) w =
      let opened = change_store (set_secret_passphrase password) w in
      if env.account_scoped_state
      then saving (use_account session.user.id) (reload_account session) opened
      else reload_account session opened

  abbrev refresh_token : Option AuthSession → QString
  refresh_token none = []
  refresh_token (some session) = session.tokens.refresh_token

  unfoldable pub logout : Step
  logout w = call (Request.logout (refresh_token w.session)) logout_reply w

  abbrev pub session_cleared : Step
  session_cleared w = emit Event.session_ended (change_store clear_secret_passphrase w)

  unfoldable pub logged_out : Result Bool → Step
  logged_out (failure e) w = fail_with e w
  logged_out (success ok) w = saving (clear_session env.host) session_cleared (set_session none w)

  -- updateTokens
  abbrev with_tokens : TokenSet → Option AuthSession → Step
  with_tokens tokens none w = nothing w
  with_tokens tokens (some session) w =
      let changed : AuthSession = record session { tokens = tokens } in
      saving (save_session env.host changed) nothing (set_session (some changed) w)

  unfoldable pub update_tokens : TokenSet → Step
  update_tokens tokens w = with_tokens tokens w.session w
