-- ===== src/Services/Keys.antt =====
-- client/src/services/Services.cpp: KeyService. Its decisions on trust are in Trust.antt.
use epic_kfc.Base.{
  ℤ, pos, ℕ, QString, text, Bool, true, false, Option, none, some, List, [], ◌&&◌, ◌||◌,
  if◌then◌else◌, is_empty, map,
}
use epic_kfc.Models.{
  ClientError, ErrorCode, DeviceKeyMaterial, OneTimePreKey, UserAddress, TrustPin, Result, success,
  failure, other,
}
use epic_kfc.Events.{Event}
use epic_kfc.Store.Tables.{load_device_keys, load_one_time_pre_keys, trust_pin}
use epic_kfc.Methods.{save_device_keys, save_one_time_pre_keys}
use epic_kfc.Trust.{
  PreKeyBundle, KeyService, address_resolved, bundle_fetched, cached_bundle, pinned_bundle_fetched,
  trust_error,
}
use epic_kfc.Services.{
  Env, World, Step, Request, Output, event, call, emit, fail_with, crypto_failed, saving, nothing,
  ◌then◌, store_of, access_token, when_logged_in, upsert_reply, upload_reply, trust_address,
  trust_bundle, pinned_bundle, BundleUse,
}

-- DeviceKeyMaterial{}
abbrev pub no_device : DeviceKeyMaterial
no_device = record {
  device_id = pos 1;
  registration_id = pos 0;
  identity_key = [];
  identity_private_key = [];
  identity_signing_key = [];
  identity_signing_private_key = [];
  signed_pre_key_id = pos 1;
  signed_pre_key = [];
  signed_pre_key_private = [];
  signed_pre_key_signature = [];
}

abbrev is_http_error : ErrorCode → Bool
is_http_error ErrorCode.http_error = true
is_http_error _ = false

abbrev pub default_pre_key_count : ℕ
default_pre_key_count = 8

module _ (env : Env) where
  unfoldable pub is_already_uploaded_pre_key_error : ClientError → Bool
  is_already_uploaded_pre_key_error error =
      let message = env.message_text error.message in
      let is_conflict = env.contains_text message (text "409") in
      let mentions_pre_key =
        env.contains_ignoring_case message (text "prekey")
        || env.contains_ignoring_case message (text "pre-key") in
      let mentions_existing =
        env.contains_ignoring_case message (text "already")
        || env.contains_ignoring_case message (text "exists") in
      is_http_error error.code && is_conflict && mentions_pre_key && mentions_existing

  abbrev pub device_or : Option DeviceKeyMaterial → DeviceKeyMaterial
  device_or none = no_device
  device_or (some device) = device

  abbrev pub device_made : Result DeviceKeyMaterial → Step
  device_made (failure e) w = crypto_failed e w
  device_made (success device) w =
      saving (save_device_keys env.host device)
        (λ v. call (Request.upsert_device_keys (access_token v) device) upsert_reply v) w

  unfoldable pub ensure_device_keys_uploaded : Step
  ensure_device_keys_uploaded = when_logged_in (λ w.
      device_made
        (env.crypto.load_or_create_device (device_or (load_device_keys env.device_id (store_of w)))
          env.device_id)
        w)

  abbrev pub upload : List OneTimePreKey → Step
  upload keys w =
      call (Request.upload_one_time_pre_keys (access_token w) env.device_id keys) upload_reply w

  abbrev pub pre_keys_made : Result (List OneTimePreKey) → Step
  pre_keys_made (failure e) w = crypto_failed e w
  pre_keys_made (success keys) w = saving (save_one_time_pre_keys env.host keys) (upload keys) w

  -- new keys are made only where there are none
  unfoldable pub upload_one_time_pre_keys : Step
  upload_one_time_pre_keys w =
      let existing = load_one_time_pre_keys env.device_id (store_of w) in
      if is_empty existing
      then pre_keys_made (env.crypto.create_one_time_pre_keys env.device_id default_pre_key_count) w
      else upload existing w

  unfoldable pub device_keys_upserted : Result Bool → Step
  unfolding upload_one_time_pre_keys
  device_keys_upserted (failure e) = fail_with e
  device_keys_upserted (success ok) =
      upload_one_time_pre_keys then emit (Event.device_keys_ready env.device_id)

  unfoldable pub pre_keys_uploaded : Result Bool → Step
  pre_keys_uploaded (failure e) w =
      if is_already_uploaded_pre_key_error e then nothing w else fail_with e w
  pre_keys_uploaded (success ok) w = nothing w

  unfoldable pub trust_username : QString → Step
  trust_username username =
      when_logged_in (λ w.
        call (Request.resolve_username (access_token w) username env.device_id) trust_address w)

  abbrev events : List Event → List Output
  events es = map event es

  abbrev pub set_keys : KeyService → World → World
  set_keys k w = record w { keys = k }

  abbrev pub fetch_for_trust : KeyService × List Event × Option UserAddress → Step
  fetch_for_trust (k, es, none) w = (set_keys k w, events es)
  fetch_for_trust (k, es, some address) w =
      call (Request.fetch_pre_key_bundle (access_token w) address.user_id address.device_id)
        (trust_bundle address) (set_keys k w)

  unfoldable pub trust_address_resolved : Result UserAddress → Step
  unfolding address_resolved
  trust_address_resolved r w =
      fetch_for_trust (address_resolved env.host env.crypto.verify_signed_pre_key r w.keys) w

  abbrev pub shown : KeyService × List Event → Step
  shown (k, es) w = (set_keys k w, events es)

  unfoldable pub trust_bundle_fetched : UserAddress → Result PreKeyBundle → Step
  unfolding bundle_fetched
  trust_bundle_fetched address r w =
      shown (bundle_fetched env.host env.crypto.verify_signed_pre_key address env.now r w.keys) w

  abbrev device_found : Option DeviceKeyMaterial → Result DeviceKeyMaterial
  device_found none = failure (record {
    code = ErrorCode.crypto_error;
    message = other (text "Device keys are not available. Login first.");
  })
  device_found (some device) = success device

  unfoldable pub current_device : World → Result DeviceKeyMaterial
  current_device w = device_found (load_device_keys env.device_id (store_of w))

  -- `trustedBundle` with the callback that takes its result
  module _ (callback : BundleUse → Result PreKeyBundle → Step) where
    abbrev pub fetch_pinned : QString → ℤ → BundleUse → Option TrustPin → Step
    fetch_pinned user device purpose none w =
        callback purpose
          (failure (trust_error (text "Run /trust for this username before sending."))) w
    fetch_pinned user device purpose (some pin) w =
        call (Request.fetch_pre_key_bundle (access_token w) user device) (pinned_bundle pin purpose)
          w

    abbrev pub take_cached : QString → ℤ → BundleUse → Result PreKeyBundle → Step
    take_cached user device purpose (success bundle) w = callback purpose (success bundle) w
    take_cached user device purpose (failure e) w =
        fetch_pinned user device purpose (trust_pin user device (store_of w)) w

    unfoldable pub trusted_bundle : QString → ℤ → BundleUse → Step
    unfolding cached_bundle
    trusted_bundle user device purpose w =
        take_cached user device purpose
          (cached_bundle env.host env.crypto.verify_signed_pre_key user device w.keys) w

    abbrev pub hand_over : BundleUse → KeyService × Result PreKeyBundle → Step
    hand_over purpose (k, r) w = callback purpose r (set_keys k w)

    unfoldable pub trusted_bundle_fetched : TrustPin → BundleUse → Result PreKeyBundle → Step
    unfolding pinned_bundle_fetched
    trusted_bundle_fetched pin purpose r w =
        hand_over purpose
          (pinned_bundle_fetched env.host env.crypto.verify_signed_pre_key pin r w.keys) w
