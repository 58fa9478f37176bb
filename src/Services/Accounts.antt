-- ===== src/Services/Accounts.antt =====
-- What a login and a logout leave of the session, the passphrase and the trusted bundle.
use epic_kfc.Base.{
  QString, Bool, true, false, Option, none, some, List, [], ◌∷◌, ◌≡◌, ◌⊎◌, refl, ap, if◌then◌else◌,
  ℤ,
}
use epic_kfc.Models.{ClientError, AuthSession, Result, success, failure}
use epic_kfc.Events.{Event}
use epic_kfc.Store.Tables.{load_session, set_secret_passphrase}
use epic_kfc.Methods.{Machine, save_session}
use epic_kfc.Trust.{PreKeyBundle, cached, cached_bundle}
use epic_kfc.Services.{Env, World, Step, Output, event, saving, after_saving, store_of, set_machine}
use epic_kfc.Services.Session.{logged_in, start_session, reload_account, use_account, change_store}

-- only an error was reported
abbrev pub IsRefused : List Output → Type 0
IsRefused os = (e : ClientError) × (os ≡ event (Event.command_failed e) ∷ [])

module _ (env : Env) where
  -- A step that logs in has either reported an error, or set the session in the services and in
  -- the store and announced it.
  abbrev pub IsStarted : AuthSession → World × List Output → Type 0
  IsStarted session out =
      (out.1 ≡ event (Event.session_started session.user) ∷ [])
      × (out.0.session ≡ some session)
      × (load_session (store_of out.0) ≡ some session)

  -- the session is set, but could not be saved, which is the error that is reported
  abbrev pub IsUnsaved : AuthSession → World × List Output → Type 0
  IsUnsaved session out =
      (m : Machine) × (e : ClientError) × ((save_session env.host session m).1 ≡ failure e)
      × (out.1 ≡ event (Event.command_failed e) ∷ [])
      × (out.0.session ≡ some session)
      × (load_session (store_of out.0) ≡ some session)

  -- what comes of a login where the session was `before`
  abbrev pub IsOutcome : Option AuthSession → AuthSession → World × List Output → Type 0
  IsOutcome before session out =
      (IsRefused out.1 × (out.0.session ≡ before)) ⊎ (IsUnsaved session out ⊎ IsStarted session out)

  abbrev pub IsLoggedIn : World → Result AuthSession → World × List Output → Type 0
  IsLoggedIn w (failure e) out = out ≡ (w, event (Event.command_failed e) ∷ [])
  IsLoggedIn w (success session) out = IsOutcome w.session session out

  -- what comes of the answer to a logout
  abbrev pub IsLoggedOut : World → Result Bool → World × List Output → Type 0
  IsLoggedOut w (failure e) out = out ≡ (w, event (Event.command_failed e) ∷ [])
  IsLoggedOut w (success ok) out =
      (out.0.session ≡ none)
      × (load_session (store_of out.0) ≡ none)
      × (IsRefused out.1
          ⊎ ((out.1 ≡ event Event.session_ended ∷ []) × ((store_of out.0).secret_passphrase ≡ [])))

  saving-cache :
      (method : Machine → Machine × Result Bool) (next : Step) (w : World)
      → ((v : World) → (next v).0.keys.last_trusted_bundle ≡ v.keys.last_trusted_bundle)
      → (saving method next w).0.keys.last_trusted_bundle ≡ w.keys.last_trusted_bundle
  unfolding saving
  saving-cache method next w h = saved (method w.keys.machine)
    where
      saved :
          (r : Machine × Result Bool)
          → (after_saving r next w).0.keys.last_trusted_bundle ≡ w.keys.last_trusted_bundle
      saved (m, failure e) = refl
      saved (m, success ok) = h (set_machine m w)

  logged_in-cache :
      (password : QString) (session : AuthSession) (w : World)
      → (logged_in env password (success session) w).0.keys.last_trusted_bundle
        ≡ w.keys.last_trusted_bundle
  unfolding logged_in start_session
  logged_in-cache password session w = scoped env.account_scoped_state
    where
      opened : World
      opened = change_store (set_secret_passphrase password) w

      reloaded :
          (v : World)
          → (reload_account env session v).0.keys.last_trusted_bundle ≡ v.keys.last_trusted_bundle
      reloaded v = saving-cache _ _ v (λ u. saving-cache _ _ _ (λ t. refl))

      scoped :
          (b : Bool)
          → (if b
              then saving (use_account env session.user.id) (reload_account env session) opened
              else reload_account env session opened).0.keys.last_trusted_bundle
            ≡ w.keys.last_trusted_bundle
      scoped true = saving-cache _ _ opened reloaded
      scoped false = reloaded opened

  -- A login leaves the bundle that was trusted last in place, whatever pins the file of the new
  -- account has: what the cache hands out for a user and a device is the same before and after.
  pub cached_bundle-logged_in :
      (verify : PreKeyBundle → Result Bool) (password : QString) (session : AuthSession) (w : World)
      (user : QString) (device : ℤ)
      → cached_bundle env.host verify user device
          (logged_in env password (success session) w).0.keys
        ≡ cached_bundle env.host verify user device w.keys
  unfolding cached_bundle
  cached_bundle-logged_in verify password session w user device =
      ap (cached env.host verify user device) (logged_in-cache password session w)
