-- ===== src/Store/Encoding/RoundTrip.antt =====
-- Each entry of the store is read back from its JSON object.
use epic_kfc.Base.{◌≡◌, refl, Option, none, some, ℤ, pos, text, text_eq}
use epic_kfc.Models.{
  AuthSession, DeviceKeyMaterial, OneTimePreKey, KnownUser, TrustPin, LocalMessage,
  MessageDirection, sent, received,
}
use epic_kfc.Host.{Host, HostLaws}
use epic_kfc.Json.{value}
use epic_kfc.Store.Encoding.{
  session_to_json, session_from_json, device_to_json, device_from_json, pre_key_to_json,
  pre_key_from_json, known_user_to_json, known_user_from_json, trust_pin_to_json,
  trust_pin_from_json, message_to_json, message_from_json, optional_id, read_optional_id,
  direction_text, read_direction,
}

-- the tokens as the store reads them back
abbrev pub stored_session : AuthSession → AuthSession
stored_session s = record {
  user = s.user;
  tokens = record {
    access_token = s.tokens.access_token;
    refresh_token = s.tokens.refresh_token;
    token_type = text "bearer";
    expires_in = pos 0;
  };
}

-- A session comes back with its user and both tokens; the kind and the lifetime of the tokens
-- are reset to `bearer` and 0.
pub session_round_trip :
    (s : AuthSession) → session_from_json (session_to_json s) ≡ stored_session s
unfolding session_from_json value
session_round_trip s = refl

pub device_round_trip : (m : DeviceKeyMaterial) → device_from_json (device_to_json m) ≡ m
unfolding device_from_json value
device_round_trip m = refl

pub pre_key_round_trip : (p : OneTimePreKey) → pre_key_from_json (pre_key_to_json p) ≡ p
unfolding pre_key_from_json value
pre_key_round_trip p = refl

pub known_user_round_trip : (u : KnownUser) → known_user_from_json (known_user_to_json u) ≡ u
unfolding known_user_from_json value
known_user_round_trip u = refl

read-optional_id : (o : Option ℤ) → read_optional_id (optional_id o) ≡ o
read-optional_id none = refl
read-optional_id (some n) = refl

read_direction-text : (d : MessageDirection) → read_direction (direction_text d) ≡ d
unfolding read_direction text_eq
read_direction-text sent = refl
read_direction-text received = refl

module _ {host : Host} (laws : HostLaws host) where
  pub trust_pin_round_trip :
      (p : TrustPin) → trust_pin_from_json host (trust_pin_to_json host p) ≡ p
  unfolding trust_pin_from_json value
  trust_pin_round_trip p = rw (laws.read_print p.first_seen_at)

  -- A message comes back from its JSON object with every field, its direction, its optional
  -- pre-key and its anchor, if times are printed to the millisecond.
  pub message_round_trip : (m : LocalMessage) → message_from_json host (message_to_json host m) ≡ m
  unfolding message_from_json value
  message_round_trip m = rw (
    laws.read_print m.created_at,
    read-optional_id m.consumed_one_time_pre_key_id,
    read_direction-text m.direction,
  )
