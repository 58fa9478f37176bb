-- ===== src/Examples/Hashes.antt =====
-- The hash on known inputs, and its theorems applied.
use epic_kfc.Base.{
  text_eq, ℕ, QString, text, List, [], ◌∷◌, ◌++◌, ◌≡◌, ◌≢◌, ◌↔◌, ◌⊎◌, refl, inr, arith, All, length,
  replicate, ◌%◌, false,
}
use epic_kfc.Models.{success, failure}
use epic_kfc.Json.{QJsonObject}
use epic_kfc.Keccak.{
  keccak256, keccak_permutation, pad, absorb, squeeze, is_unfinished, read_little_endian_word,
  append_little_endian_word,
}
use epic_kfc.Keccak.Fips.{fips_permutation, keccak_permutation-fips_permutation}
use epic_kfc.Keccak.Words.{IsByte, read_little_endian_word-append}
use epic_kfc.Keccak.Lanes.{IsState}
use epic_kfc.Keccak.Bounds.{keccak256_ends, keccak256-IsDigest}
use epic_kfc.Keccak.Padding.{fips_pad, pad-eq-fips_pad}
use epic_kfc.EthereumHash.{digest_for_message, incomplete_metadata, canonical_message}
use epic_kfc.Keyed.{lookup}
use epic_kfc.Store.Messages.{find_message}
use epic_kfc.Methods.{Machine, Method, run_methods}
use epic_kfc.EthereumHash.Kept.{IsStored, run_methods-IsStored}
use epic_kfc.EthereumHash.Stable.{digest_for_message_lem, IsIncomplete, IsComplete}
use epic_kfc.Examples.Platforms.{plain_host}
use epic_kfc.Examples.Values.{first_message, two_messages, no_files}

-- the digest of no bytes, and of "abc"
keccak256_nothing :
    keccak256 []
    ≡ 0xc5 ∷ 0xd2 ∷ 0x46 ∷ 0x01 ∷ 0x86 ∷ 0xf7 ∷ 0x23 ∷ 0x3c ∷ 0x92 ∷ 0x7e ∷ 0x7d ∷ 0xb2 ∷ 0xdc
      ∷ 0xc7 ∷ 0x03 ∷ 0xc0 ∷ 0xe5 ∷ 0x00 ∷ 0xb6 ∷ 0x53 ∷ 0xca ∷ 0x82 ∷ 0x27 ∷ 0x3b ∷ 0x7b ∷ 0xfa
      ∷ 0xd8 ∷ 0x04 ∷ 0x5d ∷ 0x85 ∷ 0xa4 ∷ 0x70 ∷ []
unfolding keccak256
keccak256_nothing = refl

keccak256_abc :
    keccak256 (text "abc")
    ≡ 0x4e ∷ 0x03 ∷ 0x65 ∷ 0x7a ∷ 0xea ∷ 0x45 ∷ 0xa9 ∷ 0x4f ∷ 0xc7 ∷ 0xd4 ∷ 0x7b ∷ 0xa8 ∷ 0x26
      ∷ 0xc8 ∷ 0xd6 ∷ 0x67 ∷ 0xc0 ∷ 0xd1 ∷ 0xe6 ∷ 0xe3 ∷ 0x3a ∷ 0x64 ∷ 0xa0 ∷ 0x36 ∷ 0xec ∷ 0x44
      ∷ 0xf5 ∷ 0x8f ∷ 0xa1 ∷ 0x2d ∷ 0x6c ∷ 0x45 ∷ []
unfolding keccak256
keccak256_abc = refl

abbrev one_lane : List ℕ
one_lane = 5 ∷ replicate 24 0

keccak_permutation-fips_permutation_example :
    keccak_permutation one_lane ≡ fips_permutation one_lane
keccak_permutation-fips_permutation_example = keccak_permutation-fips_permutation one_lane refl

abbrev three_bytes : List ℕ
three_bytes = 1 ∷ 2 ∷ 255 ∷ []

three_bytes-All : All IsByte three_bytes
three_bytes-All = grind arith

keccak256_ends_example :
    (length (pad three_bytes) % 136 ≡ 0)
    × ((absorb (pad three_bytes)).0 ≡ length (pad three_bytes))
    × (is_unfinished (squeeze (absorb (pad three_bytes)).1) ≡ false)
keccak256_ends_example = keccak256_ends three_bytes three_bytes-All

keccak256-IsDigest_example :
    (length (keccak256 three_bytes) ≡ 32)
    × All IsByte (keccak256 three_bytes)
    × IsState (absorb (pad three_bytes)).1
keccak256-IsDigest_example = keccak256-IsDigest three_bytes three_bytes-All

abbrev sevens : List ℕ
sevens = replicate 135 7

pad-eq-fips_pad_example : (pad sevens ≡ fips_pad sevens) ↔ (length sevens % 136 ≢ 135)
pad-eq-fips_pad_example = pad-eq-fips_pad sevens

read_little_endian_word-append_example :
    read_little_endian_word (append_little_endian_word [] 0x0123456789abcdef) 0 ≡ 0x0123456789abcdef
read_little_endian_word-append_example =
    read_little_endian_word-append 0x0123456789abcdef (omega arith)

abbrev hex : List ℕ → QString
hex bytes = bytes

abbrev compact : QJsonObject → List ℕ
compact o = []

abbrev digest_machine : Machine
digest_machine = record { store = two_messages; disk = no_files; draws = 0 }

-- bob deletes the message, and the server's copy comes once more
abbrev two_methods : List Method
two_methods =
    Method.delete_message_for_method (text "noon") (text "bob") (text "m1")
    ∷ Method.save_message_method first_message
    ∷ []

run_methods-IsStored_example :
    IsStored plain_host hex compact
      (text "m1")
      (digest_for_message plain_host hex compact first_message)
      (run_methods plain_host two_methods digest_machine).store
run_methods-IsStored_example =
    run_methods-IsStored plain_host hex compact (text "m1") _ two_methods digest_machine
      (tt, (inr refl, tt)) (first_message, unfold find_message lookup text_eq in refl, refl)

digest_for_message_example :
    (digest_for_message plain_host hex compact first_message ≡ failure incomplete_metadata)
      × IsIncomplete first_message
    ⊎ ((digest_for_message plain_host hex compact first_message
          ≡ success (
              text "0x"
              ++ hex
                  (keccak256 (compact (canonical_message plain_host hex compact first_message)))))
        × IsComplete first_message)
digest_for_message_example = digest_for_message_lem plain_host hex compact first_message
