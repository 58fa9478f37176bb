-- ===== src/Examples/Platforms.antt =====
-- A small Qt and a host for ASCII, with the laws that the theorems ask for.
use epic_kfc.Base.{
  ℕ, ℤ, pos, ◌-◌, QString, text, text_eq, Bool, true, false, not, Option, none, some, [], ◌∷◌, ◌++◌,
  ◌≡◌, refl, arith, if◌then◌else◌, is_empty, nat_eq, ◌&&◌,
}
use epic_kfc.Models.{QDateTime, ClientMode, StartupConfig}
use epic_kfc.Platform.{Qt, QtLaws}
use epic_kfc.Host.{Host, HostLaws, QByteArray}
use epic_kfc.Events.{Services, Event, KeyEvent, StatusText}

abbrev is_blank : QString → Bool
is_blank [] = true
is_blank (c ∷ s) = nat_eq c b' ' && is_blank s

-- a text of blanks only is trimmed to nothing
abbrev trimmed : QString → QString
trimmed s = if is_blank s then [] else s

abbrev until_colon : QString → QString
until_colon [] = []
until_colon (c ∷ s) = let rest = until_colon s in if nat_eq c b':' then [] else c ∷ rest

abbrev digit : QString → Option ℤ
digit (c ∷ []) = some (pos (c - b'0'))
digit _ = none

abbrev pub ascii : Qt
ascii = record {
  is_space = λ c. nat_eq c b' ';
  is_letter_or_number = λ c. not (nat_eq c b'/');
  trimmed = trimmed;
  to_lower = λ s. s;
  to_int = digit;
  equals_ignoring_case = text_eq;
  scheme = until_colon;
}

is_blank-append : (a b : QString) → is_blank b ≡ false → is_blank (a ++ b) ≡ false
is_blank-append [] b h = h
is_blank-append (c ∷ a) b h = ground (arith, is_blank-append a b)

is_blank-front : (a b : QString) → is_blank a ≡ false → is_blank (a ++ b) ≡ false
is_blank-front [] b h = cc
is_blank-front (c ∷ a) b h = ground (arith, is_blank-front a b)

visible_part : (s : QString) → is_empty (trimmed s) ≡ false → is_blank s ≡ false
visible_part s h = ground arith

visible_whole : (s : QString) → is_blank s ≡ false → is_empty (trimmed s) ≡ false
visible_whole [] h = cc
visible_whole (c ∷ s) h = rw h refl

pub ascii_laws : QtLaws ascii
ascii_laws = record {
  trimmed_visible = λ c s h k. rw h refl;
  trimmed_empty = refl;
  trimmed_part = λ a s b h.
      visible_whole (a ++ s ++ b)
        (is_blank-front (a ++ s) b (is_blank-append a s (visible_part s h)));
  to_lower_ascii = λ s h. refl;
  is_space_blank = refl;
  is_space_lower = λ c h. ground arith;
  is_space_slash = refl;
  is_space_quote = refl;
}

abbrev print_time : QDateTime → QString
print_time none = []
print_time (some t) = t ∷ []

abbrev read_time : QString → QDateTime
read_time [] = none
read_time (t ∷ _) = some t

abbrev zeros : ℕ → QByteArray
zeros ℕ.zero = []
zeros (ℕ.suc n) = 0 ∷ zeros n

-- a host whose cipher leaves the text as it is
abbrev pub plain_host : Host
plain_host = record {
  print_time = print_time;
  read_time = read_time;
  to_utf8 = λ s. s;
  from_utf8 = λ s. s;
  bytes_to_base64 = λ b. b;
  base64_to_bytes = λ b. b;
  random = λ n size. zeros size;
  derive_storage_key = λ passphrase salt. some passphrase;
  encrypt = λ key iv aad plaintext. some (plaintext, []);
  decrypt = λ key iv aad ciphertext tag. some ciphertext;
  can_read = λ path. true;
  can_write = λ path. true;
  directory_ready = λ path. true;
  directory = λ path. [];
  sibling = λ path name. name;
}

pub plain_host_laws : HostLaws plain_host
plain_host_laws = record {
  read_print = λ t. elim t as (λ t. read_time (print_time t) ≡ t) [ none ↦ refl | some n ↦ refl ];
  utf8 = λ s. refl;
  base64 = λ b. refl;
  decrypt_encrypt = λ key iv aad plaintext ciphertext tag h. cc;
}

-- services that answer every call with a status
abbrev pub answering : Services ℕ
answering = record {
  call = λ c n. (n, Event.status_message (StatusText.other_status (text "done")) ∷ []);
  ensure_keys = λ n. (n, KeyEvent.keys_ready (pos 1) ∷ []);
  current_session = λ n. none;
}

abbrev pub mock_config : StartupConfig
mock_config = record {
  mode = ClientMode.mock;
  api_url = [];
  device_id = pos 1;
  state_path = text "state.json";
  state_path_explicit = false;
  show_raw_errors = false;
}
