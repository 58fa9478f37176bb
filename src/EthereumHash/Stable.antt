-- ===== src/EthereumHash/Stable.antt =====
-- The cases of the digest of a message, by what goes into it.
use epic_kfc.Base.{
  QString, text, List, ◌≡◌, ◌≢◌, ◌⊎◌, refl, ◌++◌, inl, inr, true, false, is_empty, [], ◌∷◌, some,
  none,
}
use epic_kfc.Models.{LocalMessage, QDateTime, success, failure}
use epic_kfc.Host.{Host, QByteArray}
use epic_kfc.Json.{QJsonObject}
use epic_kfc.Keccak.{keccak256}
use epic_kfc.Store.Conversations.{is_valid}
use epic_kfc.EthereumHash.{
  digest_for_message, has_required_metadata, incomplete_metadata, canonical_message,
}

-- what a digest needs is missing, or there
abbrev pub IsIncomplete : LocalMessage → Type 0
IsIncomplete m =
    (m.id ≡ [])
    ⊎ (m.sender_user_id ≡ [])
    ⊎ (m.recipient_user_id ≡ [])
    ⊎ (m.wire_payload_json ≡ [])
    ⊎ (m.created_at ≡ none)

abbrev pub IsComplete : LocalMessage → Type 0
IsComplete m =
    (m.id ≢ [])
    × (m.sender_user_id ≢ [])
    × (m.recipient_user_id ≢ [])
    × (m.wire_payload_json ≢ [])
    × (m.created_at ≢ none)

is_empty_cases :
    {A : Type 0} (xs : List A)
    → (is_empty xs ≡ true) × (xs ≡ []) ⊎ ((is_empty xs ≡ false) × (xs ≢ []))
is_empty_cases [] = inl (refl, refl)
is_empty_cases (x ∷ xs) = inr (refl, λ e. cc)

is_valid_cases :
    (t : QDateTime) → (is_valid t ≡ false) × (t ≡ none) ⊎ ((is_valid t ≡ true) × (t ≢ none))
is_valid_cases none = inl (refl, refl)
is_valid_cases (some t) = inr (refl, λ e. cc)

metadata_cases :
    (m : LocalMessage)
    → (has_required_metadata m ≡ false) × IsIncomplete m
      ⊎ ((has_required_metadata m ≡ true) × IsComplete m)
metadata_cases m = elim (is_empty_cases m.id) [
  | inl (e, h) ↦ inl (rw e refl, inl h)
  | inr (a, a') ↦ elim (is_empty_cases m.sender_user_id) [
    | inl (e, h) ↦ inl (rw (a, e) refl, inr (inl h))
    | inr (b, b') ↦ elim (is_empty_cases m.recipient_user_id) [
      | inl (e, h) ↦ inl (rw (a, b, e) refl, inr (inr (inl h)))
      | inr (c, c') ↦ elim (is_empty_cases m.wire_payload_json) [
        | inl (e, h) ↦ inl (rw (a, b, c, e) refl, inr (inr (inr (inl h))))
        | inr (d, d') ↦ elim (is_valid_cases m.created_at) [
          | inl (e, h) ↦ inl (rw (a, b, c, d, e) refl, inr (inr (inr (inr h))))
          | inr (f, f') ↦ inr (rw (a, b, c, d, f) refl, (a', b', c', d', f'))
        ]
      ]
    ]
  ]
]

module _ (host : Host) (to_hex : QByteArray → QString) (to_compact : QJsonObject → QByteArray) where
  -- A digest is refused exactly where the id, the sender, the recipient, the payload or the time
  -- of a message is missing; else it is the hash of the canonical record behind 0x.
  pub digest_for_message_lem :
      (message : LocalMessage)
      → (digest_for_message host to_hex to_compact message ≡ failure incomplete_metadata)
          × IsIncomplete message
        ⊎ ((digest_for_message host to_hex to_compact message
              ≡ success (
                  text "0x"
                  ++ to_hex
                      (keccak256 (to_compact (canonical_message host to_hex to_compact message)))))
            × IsComplete message)
  unfolding digest_for_message
  digest_for_message_lem message = elim (metadata_cases message) [
    | inl (e, h) ↦ inl (rw e refl, h)
    | inr (e, h) ↦ inr (rw e refl, h)
  ]
