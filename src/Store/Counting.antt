-- ===== src/Store/Counting.antt =====
-- The counts of a conversation's summary are those of its visible messages.
use epic_kfc.Base.{
  ℕ, ℤ, QString, Bool, ◌&&◌, ◌+◌, Option, none, some, List, [], ◌∷◌, if◌then◌else◌, text_eq,
  text_eq_iff, ◌≡◌, arith, Bool-cases, inl, inr, ap,
}
use epic_kfc.Models.{LocalMessage, ConversationSummary}
use epic_kfc.Store.{Store}
use epic_kfc.Store.Messages.{is_message_visible_to_user}
use epic_kfc.Store.Conversations.{
  Summaries, find_summary, insert_or_assign, summary_or, conversation_key, is_unread_incoming,
  first_summary, add_to_summary, summarise, summarise_all,
}

-- how many members pass a test
abbrev pub count_if {ℓ} : {A : Type ℓ} → (A → Bool) → List A → ℕ
count_if p [] = 0
count_if p (x ∷ xs) = let rest = count_if p xs in if p x then rest + 1 else rest

count_if-cons {ℓ} :
    {A : Type ℓ} (p : A → Bool) (x : A) (xs : List A)
    → count_if p (x ∷ xs) ≡ (if p x then 1 else 0) + count_if p xs
count_if-cons p x xs = elim (Bool-cases (p x)) [
  | inl e ↦ rw e (omega arith)
  | inr e ↦ rw e (omega arith)
]

abbrev pub message_count_of : Option ConversationSummary → ℕ
message_count_of none = 0
message_count_of (some s) = s.message_count

abbrev pub unread_count_of : Option ConversationSummary → ℕ
unread_count_of none = 0
unread_count_of (some s) = s.unread_count

find-insert :
    (k j : QString) (v : ConversationSummary) (m : Summaries)
    → find_summary j (insert_or_assign k v m) ≡ (if text_eq k j then some v else find_summary j m)
unfolding find_summary insert_or_assign
find-insert k j v [] = ground arith
find-insert k j v ((i, w) ∷ m) =
    ground (arith, find-insert k j v m, text_eq_iff k j, text_eq_iff i k, text_eq_iff i j)

find-update :
    (k j : QString) (f : Option ConversationSummary → ConversationSummary) (m : Summaries)
    → find_summary j (insert_or_assign k (f (find_summary k m)) m)
      ≡ (if text_eq k j then some (f (find_summary j m)) else find_summary j m)
find-update k j f m = elim (Bool-cases (text_eq k j)) [
  | inl same ↦
      let e : k ≡ j = (text_eq_iff k j).0 same in
      rw (find-insert k j (f (find_summary k m)) m, same) (ap (λ i. some (f (find_summary i m))) e)
  | inr other ↦ rw (find-insert k j (f (find_summary k m)) m, other)
]

module _ (key_text : QString → ℤ → QString) (store : Store) (user : QString) where
  abbrev pub is_counted : QString → LocalMessage → Bool
  is_counted k m =
      is_message_visible_to_user m user && text_eq (conversation_key key_text store user m) k

  abbrev pub is_counted_unread : QString → LocalMessage → Bool
  is_counted_unread k m = is_counted k m && is_unread_incoming key_text store user m

  find-summarise :
      (k : QString) (acc : Summaries) (m : LocalMessage)
      → find_summary k (summarise key_text store user acc m) ≡ (
          if is_counted k m
          then some (
              add_to_summary key_text store user m
                (summary_or (first_summary key_text store user m) (find_summary k acc)))
          else find_summary k acc)
  unfolding summarise
  find-summarise k acc m = elim (Bool-cases (is_message_visible_to_user m user)) [
    | inl visible ↦ rw visible (
        find-update (conversation_key key_text store user m) k
          (λ o.
            add_to_summary key_text store user m
              (summary_or (first_summary key_text store user m) o))
          acc)
    | inr hidden ↦ rw hidden
  ]

  count-summarise :
      (k : QString) (acc : Summaries) (m : LocalMessage)
      → (message_count_of (find_summary k (summarise key_text store user acc m))
          ≡ message_count_of (find_summary k acc) + (if is_counted k m then 1 else 0))
        × (unread_count_of (find_summary k (summarise key_text store user acc m))
            ≡ unread_count_of (find_summary k acc) + (if is_counted_unread k m then 1 else 0))
  count-summarise k acc m = rw find-summarise (unfold add_to_summary in ground arith)

  count-summarise_all :
      (k : QString) (acc : Summaries) (ms : List LocalMessage)
      → (message_count_of (find_summary k (summarise_all key_text store user acc ms))
          ≡ message_count_of (find_summary k acc) + count_if (is_counted k) ms)
        × (unread_count_of (find_summary k (summarise_all key_text store user acc ms))
            ≡ unread_count_of (find_summary k acc) + count_if (is_counted_unread k) ms)
  unfolding summarise_all
  count-summarise_all k acc [] = (omega arith, omega arith)
  count-summarise_all k acc (m ∷ ms) =
      let one = count-summarise k acc m in
      let ih = count-summarise_all k (summarise key_text store user acc m) ms in
      let here = count_if-cons (is_counted k) m ms in
      let unread = count_if-cons (is_counted_unread k) m ms in
      (omega (arith, one.0, ih.0, here), omega (arith, one.1, ih.1, unread))

  -- For every key, the summary that `conversationsFor` builds counts the stored messages that
  -- are visible to the user and belong to the key's conversation, and its unread count counts
  -- those of them that came in and have no time of reading. Where no message counts, both are 0.
  pub conversations_for_counts :
      (k : QString)
      → (message_count_of (find_summary k (summarise_all key_text store user [] store.messages))
          ≡ count_if (is_counted k) store.messages)
        × (unread_count_of (find_summary k (summarise_all key_text store user [] store.messages))
            ≡ count_if (is_counted_unread k) store.messages)
  unfolding find_summary
  conversations_for_counts k =
      let (all, unread) = count-summarise_all k [] store.messages in
      (omega (arith, all), omega (arith, unread))
