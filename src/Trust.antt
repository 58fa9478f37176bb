-- ===== src/Trust.antt =====
-- client/src/services/Services.cpp: the part of KeyService that decides which keys are trusted.
-- An answer of a gateway is the argument of the step that handles it, so that any other step may
-- come between a call and its answer. The check of a signature is a parameter.
pub mod Pins
pub mod Cached
use epic_kfc.Base.{
  text, ℤ, QString, text_eq, int_eq, not, ◌&&◌, Bool, true, false, Option, none, some, List, [],
  ◌∷◌, if◌then◌else◌,
}
use epic_kfc.Models.{
  ClientError, ErrorCode, ErrorText, UserAddress, TrustPin, QDateTime, Result, success, failure,
  other, auth_required_text,
}
use epic_kfc.Host.{Host}
use epic_kfc.Store.Tables.{trust_pin}
use epic_kfc.Methods.{Machine, save_known_user, save_trust_pin}
use epic_kfc.Events.{Event}

pub record PreKeyBundle : Type 0 where
  pub user_id : QString
  pub registration_id : ℤ
  pub device_id : ℤ
  pub identity_key : QString
  pub identity_signing_key : QString
  pub signed_pre_key_id : ℤ
  pub signed_pre_key : QString
  pub signed_pre_key_signature : QString
  pub one_time_pre_key_id : Option ℤ
  pub one_time_pre_key : QString

-- the members of KeyService that the trust in keys rests on
pub record KeyService : Type 0 where
  pub machine : Machine
  pub last_trusted_bundle : Option PreKeyBundle

abbrev pub trust_error : QString → ClientError
trust_error message = record { code = ErrorCode.trust_error; message = other message }

module _ (host : Host) (verify_signed_pre_key : PreKeyBundle → Result Bool) where
  abbrev pub user_saved :
      UserAddress
      → KeyService
      → Machine × Result Bool
      → KeyService × List Event × Option UserAddress
  user_saved address k (m, success ok) = (record k { machine = m }, [], some address)
  user_saved address k (m, failure e) =
      (record k { machine = m }, Event.command_failed e ∷ [], none)

  -- trustUsername: the answer with the address, and the address whose bundle is fetched next
  unfoldable pub address_resolved :
      Result UserAddress → KeyService → KeyService × List Event × Option UserAddress
  address_resolved (failure e) k = (k, Event.command_failed e ∷ [], none)
  address_resolved (success address) k =
      user_saved address k (save_known_user host address k.machine)

  abbrev pub pin_saved :
      TrustPin → PreKeyBundle → KeyService → Machine × Result Bool → KeyService × List Event
  pin_saved pin bundle k (m, failure e) = (record k { machine = m }, Event.command_failed e ∷ [])
  pin_saved pin bundle k (m, success ok) =
      (record { machine = m; last_trusted_bundle = some bundle }, Event.trust_pin_created pin ∷ [])

  abbrev pub compare_pin :
      UserAddress
      → PreKeyBundle
      → QDateTime
      → Option TrustPin
      → KeyService
      → KeyService × List Event
  compare_pin address bundle now none k =
      let pin : TrustPin = record {
        user_id = address.user_id;
        device_id = address.device_id;
        identity_key = bundle.identity_key;
        first_seen_at = now;
      } in
      pin_saved pin bundle k (save_trust_pin host pin k.machine)
  compare_pin address bundle now (some existing) k =
      if not (text_eq existing.identity_key bundle.identity_key)
      then (k, Event.trust_pin_mismatch address.user_id address.device_id ∷ [])
      else (
        record k { last_trusted_bundle = some bundle },
        Event.trust_pin_matched address.user_id address.device_id ∷ [],
      )

  abbrev pub verified :
      UserAddress → PreKeyBundle → QDateTime → Result Bool → KeyService → KeyService × List Event
  verified address bundle now (failure e) k = (k, Event.crypto_operation_failed e ∷ [])
  verified address bundle now (success ok) k =
      compare_pin address bundle now (trust_pin address.user_id address.device_id k.machine.store) k

  -- trustUsername: the answer with the bundle
  unfoldable pub bundle_fetched :
      UserAddress → QDateTime → Result PreKeyBundle → KeyService → KeyService × List Event
  bundle_fetched address now (failure e) k = (k, Event.command_failed e ∷ [])
  bundle_fetched address now (success bundle) k =
      verified address bundle now (verify_signed_pre_key bundle) k

  abbrev not_trusted : Result PreKeyBundle
  not_trusted = failure (trust_error (text "Run /trust for this username before sending."))

  abbrev pub cached : QString → ℤ → Option PreKeyBundle → Result PreKeyBundle
  cached user device none = not_trusted
  cached user device (some bundle) =
      if text_eq bundle.user_id user && int_eq bundle.device_id device
      then success bundle
      else not_trusted

  -- cachedBundle
  unfoldable pub cached_bundle : QString → ℤ → KeyService → Result PreKeyBundle
  cached_bundle user device k = cached user device k.last_trusted_bundle

  abbrev pub pinned_verified :
      TrustPin → PreKeyBundle → Result Bool → KeyService → KeyService × Result PreKeyBundle
  pinned_verified pin bundle (failure e) k = (k, failure e)
  pinned_verified pin bundle (success ok) k =
      if not (text_eq pin.identity_key bundle.identity_key)
      then (k, failure (trust_error (text "Trust mismatch. Sending is blocked.")))
      else (record k { last_trusted_bundle = some bundle }, success bundle)

  -- trustedBundle: the answer with the bundle, for the pin that was there
  unfoldable pub pinned_bundle_fetched :
      TrustPin → Result PreKeyBundle → KeyService → KeyService × Result PreKeyBundle
  pinned_bundle_fetched pin (failure e) k = (k, failure e)
  pinned_bundle_fetched pin (success bundle) k =
      pinned_verified pin bundle (verify_signed_pre_key bundle) k
