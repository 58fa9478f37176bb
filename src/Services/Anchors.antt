-- ===== src/Services/Anchors.antt =====
-- client/src/services/Services.cpp: the check of a message against its anchor on the chain.
use epic_kfc.Base.{
  ℕ, zero, suc, QString, text, Bool, true, false, ◌&&◌, ◌||◌, not, Option, none, some, [], ◌∷◌,
  if◌then◌else◌, is_empty, leb, nat_eq, text_eq,
}
use epic_kfc.Models.{
  ErrorCode, ClientError, LocalMessage, BlockchainAnchor, BlockchainVerification, Result, success,
  failure,
}
use epic_kfc.Events.{Event}
use epic_kfc.Texts.{
  anchor_unavailable, anchor_pending, anchor_failed, anchor_mismatch, anchor_verified,
  anchor_verified_with_transaction,
}
use epic_kfc.Store.Messages.{find_message}
use epic_kfc.Methods.{save_message}
use epic_kfc.Services.{
  Env, World, Step, Request, call, emit, fail_with, store_of, access_token, set_machine,
  anchor_reply, verification_reply,
}

abbrev pub is_hex_digit : ℕ → Bool
is_hex_digit c = leb b'0' c && leb c b'9' || leb b'a' c && leb c b'f' || leb b'A' c && leb c b'F'

-- [0-9a-fA-F]{count}$, where `$` also stands before a line feed at the end
unfoldable pub matches_hex : ℕ → QString → Bool
matches_hex zero [] = true
matches_hex zero (c ∷ s) = nat_eq c b'\n' && is_empty s
matches_hex (suc n) [] = false
matches_hex (suc n) (c ∷ s) = is_hex_digit c && matches_hex n s

unfoldable pub is_valid_ethereum_transaction_hash : QString → Bool
unfolding matches_hex
is_valid_ethereum_transaction_hash (c ∷ d ∷ s) = nat_eq c b'0' && nat_eq d b'x' && matches_hex 64 s
is_valid_ethereum_transaction_hash _ = false

abbrev pub fidelity : QString → QString → Step
fidelity id status = emit (Event.fidelity_status_updated id status)

abbrev pub is_not_found : ErrorCode → Bool
is_not_found ErrorCode.not_found = true
is_not_found _ = false

unfoldable pub verify : QString → Step
verify id w = call (Request.fetch_message_anchor (access_token w) id) (anchor_reply id) w

-- verifyPublicAnchor
unfoldable pub verify_public_anchor : QString → BlockchainAnchor → Step
verify_public_anchor id anchor = call (Request.verify_anchor [] anchor) (verification_reply id)

abbrev pub cached_anchor_of : Option LocalMessage → Option BlockchainAnchor
cached_anchor_of none = none
cached_anchor_of (some message) =
    if is_empty message.cached_anchor.digest then none else some message.cached_anchor

abbrev pub fall_back : QString → ClientError → Option BlockchainAnchor → Step
fall_back id e none = fail_with e
fall_back id e (some anchor) = call (Request.verify_anchor [] anchor) (verification_reply id)

module _ (env : Env) where
  -- the anchor is kept with the message; an error of the store is ignored
  abbrev pub keep_anchor : BlockchainAnchor → Option LocalMessage → World → World
  keep_anchor anchor none w = w
  keep_anchor anchor (some message) w =
      set_machine
        (save_message env.host (record message { cached_anchor = anchor }) w.keys.machine).0 w

  -- what the status of an anchor leads to
  unfoldable pub judge_anchor : QString → BlockchainAnchor → Step
  unfolding is_valid_ethereum_transaction_hash
  judge_anchor id anchor =
      let status = env.qt.to_lower anchor.status in
      if text_eq status (text "failed")
      then fidelity id (anchor_failed id anchor.chain)
      else if not (text_eq status (text "confirmed"))
      then fidelity id (anchor_pending id anchor.status anchor.chain)
      else if not (is_valid_ethereum_transaction_hash anchor.transaction_hash)
      then fidelity id (anchor_pending id (text "pending") anchor.chain)
      else call (Request.verify_anchor [] anchor) (verification_reply id)

  unfoldable pub anchor_fetched : QString → Result BlockchainAnchor → Step
  unfolding judge_anchor
  anchor_fetched id (failure e) w =
      if is_not_found e.code
      then fidelity id (anchor_unavailable id) w
      else fall_back id e (cached_anchor_of (find_message id (store_of w))) w
  anchor_fetched id (success anchor) w =
      judge_anchor id anchor (keep_anchor anchor (find_message id (store_of w)) w)

  unfoldable pub anchor_verified_reply : QString → Result BlockchainVerification → Step
  anchor_verified_reply id (failure e) = fail_with e
  anchor_verified_reply id (success v) =
      if not v.valid
      then fidelity id (anchor_mismatch id)
      else if not (env.qt.equals_ignoring_case v.status (text "confirmed"))
      then fidelity id (anchor_pending id v.status v.chain)
      else if not (is_empty v.transaction_hash)
      then fidelity id (anchor_verified_with_transaction id v.chain v.status v.transaction_hash)
      else fidelity id (anchor_verified id v.chain v.status)
