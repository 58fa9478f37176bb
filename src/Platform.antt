-- ===== src/Platform.antt =====
-- The functions of Qt that the client calls and that rest on Unicode's tables or on the system.
-- The code of Qt is not part of the repository: these are parameters of the model. The laws
-- below state what Qt's documentation says of them, and stand as hypotheses where a theorem
-- needs them.
use epic_kfc.Base.{is_empty, ℕ, ℤ, QString, Bool, true, false, Option, [], ◌∷◌, ◌++◌, ◌≡◌, ◌≤◌, All}

pub record Qt : Type 0 where
  -- QChar::isSpace, QChar::isLetterOrNumber
  pub is_space : ℕ → Bool
  pub is_letter_or_number : ℕ → Bool
  -- QString::trimmed, QString::toLower, QString::toInt
  pub trimmed : QString → QString
  pub to_lower : QString → QString
  pub to_int : QString → Option ℤ
  -- compare(other, Qt::CaseInsensitive) == 0
  pub equals_ignoring_case : QString → QString → Bool
  -- QString(QUrl(text).scheme())
  pub scheme : QString → QString

-- QString::trimmed removes white space at the two ends only.
abbrev pub IsVisibleLast : Qt → QString → Type 0
IsVisibleLast qt s = (front : QString) × (c : ℕ) × (s ≡ front ++ c ∷ []) × (qt.is_space c ≡ false)

abbrev pub IsLowerAscii : ℕ → Type 0
IsLowerAscii c = (b'a' ≤ c) × (c ≤ b'z')

pub record QtLaws (qt : Qt) : Type 0 where
  -- a text that begins and ends with a visible character is left as it is
  pub trimmed_visible :
      (c : ℕ) (s : QString)
      → qt.is_space c ≡ false
      → IsVisibleLast qt (c ∷ s)
      → qt.trimmed (c ∷ s) ≡ c ∷ s
  -- nothing comes from nothing, and a text with a part that is not blank is not blank
  pub trimmed_empty : qt.trimmed [] ≡ []
  pub trimmed_part :
      (a s b : QString)
      → is_empty (qt.trimmed s) ≡ false
      → is_empty (qt.trimmed (a ++ s ++ b)) ≡ false
  -- ASCII lower-case letters are left as they are
  pub to_lower_ascii : (s : QString) → All IsLowerAscii s → qt.to_lower s ≡ s
  -- letters, and the separators of the command line
  pub is_space_blank : qt.is_space b' ' ≡ true
  pub is_space_lower : (c : ℕ) → IsLowerAscii c → qt.is_space c ≡ false
  pub is_space_slash : qt.is_space b'/' ≡ false
  pub is_space_quote : qt.is_space b'"' ≡ false
