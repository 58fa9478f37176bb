-- ===== src/Commands/Names.antt =====
-- The names of commands and of error codes identify them.
use epic_kfc.Base.{
  ℕ, QString, text_eq, if◌then◌else◌, Option, none, some, List, [], ◌∷◌, ◌≡◌, refl, sym, ap, ◌∙◌,
  arith, All, Bool, true, false, leb, ◌&&◌,
}
use epic_kfc.Models.{CommandType, ErrorCode}
use epic_kfc.Platform.{Qt, QtLaws, IsLowerAscii, IsVisibleLast}
use epic_kfc.Commands.{
  command_type_name, error_code_to_string, command_key, command_type_from_name, find_type,
  command_lookup,
}
use mathlib.Core.Bool.{false≢true}
use mathlib.Core.Option.{some-injective}

abbrev all_codes : List ErrorCode
all_codes =
    ErrorCode.invalid_command ∷ ErrorCode.invalid_configuration ∷ ErrorCode.auth_required
    ∷ ErrorCode.network_error ∷ ErrorCode.tls_error ∷ ErrorCode.http_error ∷ ErrorCode.crypto_error
    ∷ ErrorCode.trust_error ∷ ErrorCode.storage_error ∷ ErrorCode.not_found
    ∷ ErrorCode.operation_failed ∷ []

read_code : List ErrorCode → QString → Option ErrorCode
read_code [] s = none
read_code (c ∷ cs) s =
    let later = read_code cs s in if text_eq (error_code_to_string c) s then some c else later

read_code-print : (c : ErrorCode) → read_code all_codes (error_code_to_string c) ≡ some c
unfolding read_code error_code_to_string text_eq
read_code-print ErrorCode.invalid_command = refl
read_code-print _ = refl

-- Error codes with one printed form are one code.
pub error_code_to_string_injective :
    (a b : ErrorCode) → error_code_to_string a ≡ error_code_to_string b → a ≡ b
error_code_to_string_injective a b h =
    some-injective a b (sym (read_code-print a) ∙ ap (read_code all_codes) h ∙ read_code-print b)

abbrev pub all_lower : QString → Bool
all_lower [] = true
all_lower (c ∷ s) = leb b'a' c && leb c b'z' && all_lower s

abbrev pub is_lower_word : QString → Bool
is_lower_word [] = false
is_lower_word (c ∷ s) = all_lower (c ∷ s)

pub all_lower-All : (s : QString) → all_lower s ≡ true → All IsLowerAscii s
all_lower-All [] h = tt
all_lower-All (c ∷ s) h = (ground arith, all_lower-All s (ground arith))

module _ {qt : Qt} (laws : QtLaws qt) where
  pub lower_IsVisibleLast :
      (c : ℕ) (s : QString) → All IsLowerAscii (c ∷ s) → IsVisibleLast qt (c ∷ s)
  lower_IsVisibleLast c [] (h, _) = ([], c, refl, laws.is_space_lower c h)
  lower_IsVisibleLast c (d ∷ s) (h, hs) =
      let (front, last, e, visible) = lower_IsVisibleLast d s hs in
      (c ∷ front, last, ap (λ (t : QString). c ∷ t) e, visible)

  pub command_key_lower :
      (c : ℕ) (s : QString) → All IsLowerAscii (c ∷ s) → command_key qt (c ∷ s) ≡ c ∷ s
  unfolding command_key
  command_key_lower c s h =
      ap qt.to_lower
        (laws.trimmed_visible c s (laws.is_space_lower c h.0) (lower_IsVisibleLast c s h))
      ∙ laws.to_lower_ascii (c ∷ s) h

  from_lower :
      (s : QString)
      → is_lower_word s ≡ true
      → command_type_from_name qt s ≡ find_type s command_lookup
  unfolding command_type_from_name
  from_lower [] h = absurd (false≢true h)
  from_lower (c ∷ s) h = rw (command_key_lower c s (all_lower-All (c ∷ s) h))

  -- Each command is read back from its own name: no two commands share a name, and no name is
  -- lost.
  pub command_type_from_name-name :
      (type : CommandType) → command_type_from_name qt (command_type_name type) ≡ some type
  unfolding command_type_name find_type text_eq
  command_type_from_name-name CommandType.help =
      from_lower (command_type_name CommandType.help) refl
  command_type_from_name-name type = from_lower (command_type_name type) refl

-- every name is a word of ASCII lower-case letters
pub command_type_name-is_lower_word :
    (type : CommandType) → is_lower_word (command_type_name type) ≡ true
unfolding command_type_name
command_type_name-is_lower_word CommandType.help = refl
command_type_name-is_lower_word _ = refl
