-- ===== src/Examples/Sessions.antt =====
-- The theorems on the services, on a small crypto provider.
use epic_kfc.Base.{
  ℕ, pos, QString, text, true, false, some, List, [], ◌∷◌, ◌++◌, ◌≡◌, ◌↔◌, ◌⊎◌, ◌≤◌, refl, arith,
  All, length, text_eq, is_empty,
}
use epic_kfc.Models.{success, received}
use epic_kfc.Events.{Event, ServiceCall}
use epic_kfc.Keyed.{lookup, upsert}
use epic_kfc.Store.Tables.{trust_pin, load_session, load_device_keys, put_known_user}
use epic_kfc.Files.{save}
use epic_kfc.Methods.{save_known_user, save_as}
use epic_kfc.Trust.{cached_bundle}
use epic_kfc.Services.{
  World, Pending, Output, send_address, pinned_bundle, send_use, saving, when_logged_in, store_of,
  current_user_id, event,
}
use epic_kfc.Services.Session.{initial_world, logged_in}
use epic_kfc.Services.Keys.{current_device, trusted_bundle}
use epic_kfc.Services.Lists.{listed, ids}
use epic_kfc.Services.Sending.{
  send, send_address_resolved, send_to_address, safe_message_id, is_well_formed,
}
use epic_kfc.Services.Reading.{page_count, safe_page, page_of}
use epic_kfc.Services.Pages.{pages_from, pages_from_lem, safe_page-bounds}
use epic_kfc.Services.Anchors.{is_valid_ethereum_transaction_hash}
use epic_kfc.Services.Formats.{
  IsHexLine, IsPlain, is_valid_ethereum_transaction_hash_iff, safe_message_id-IsPlain,
}
use epic_kfc.Services.Sync.{is_stale, listed-fresh}
use epic_kfc.Services.Accounts.{cached_bundle-logged_in}
use epic_kfc.Services.Runs.{serve, answer}
use epic_kfc.Services.Runs.Finish.{ends_within, serve-ends_within}
use epic_kfc.Services.Sealed.Runs.{System, Runs, advance, IsSealedOutput, Runs-IsSealed}
use epic_kfc.Examples.Platforms.{plain_host}
use epic_kfc.Examples.Values.{bob_pin, ada_keys, ada_session, first_message}
use epic_kfc.Examples.Sends.{
  env, machine, key_text, WrittenFor, bob_address, bob_bundle, refuse, env-Encrypts,
}

-- ada sends a message to bob, whose key is pinned: the call, and two answers
abbrev at_start : System
at_start = record { world = initial_world machine; waiting = []; trace = [] }

abbrev asked_address : System
asked_address =
    advance (serve key_text env (ServiceCall.send (text "Bob") (text "hi")) at_start.world) [] []

abbrev asked_bundle : System
asked_bundle =
    advance
      (answer key_text env (send_address (text "hi")) (success bob_address) asked_address.world) []
      asked_address.trace

abbrev bob_use : Pending
bob_use = pinned_bundle bob_pin (send_use bob_address (text "hi") ada_keys)

abbrev was_sent : System
was_sent =
    advance (answer key_text env bob_use (success bob_bundle) asked_bundle.world) []
      asked_bundle.trace

unfoldable asked_address_run : Runs key_text asked_address
asked_address_run =
    Runs.served env (ServiceCall.send (text "Bob") (text "hi")) at_start (Runs.opened machine)

unfoldable asked_bundle_run : Runs key_text asked_bundle
unfolding initial_world load_session send when_logged_in
asked_bundle_run =
    Runs.answered env [] [] (send_address (text "hi")) (success bob_address) asked_address.world
      asked_address.trace asked_address_run

unfoldable was_sent_run : Runs key_text was_sent
unfolding initial_world load_session send when_logged_in send_address_resolved send_to_address
    saving save_known_user put_known_user save_as current_device load_device_keys trusted_bundle
    cached_bundle trust_pin lookup text_eq upsert save
was_sent_run =
    Runs.answered env [] [] bob_use (success bob_bundle) asked_bundle.world asked_bundle.trace
      asked_bundle_run

Runs-IsSealed_example :
    All (IsSealedOutput WrittenFor key_text was_sent.world.keys.machine) was_sent.trace
unfolding was_sent_run asked_bundle_run asked_address_run
Runs-IsSealed_example =
    Runs-IsSealed WrittenFor key_text was_sent was_sent_run
      (env-Encrypts, (refl, refl), (env-Encrypts, tt, (env-Encrypts, tt)))

serve-ends_within_example :
    ends_within key_text
      (λ n. env)
      (λ n. refuse)
      (λ n w. w)
      3
      (serve key_text env (ServiceCall.send (text "Bob") (text "hi")) at_start.world)
    ≡ true
serve-ends_within_example =
    serve-ends_within key_text (λ n. env) (λ n. refuse) (λ n w. w) env
      (ServiceCall.send (text "Bob") (text "hi")) at_start.world refl

abbrev twelve : List ℕ
twelve = 1 ∷ 2 ∷ 3 ∷ 4 ∷ 5 ∷ 6 ∷ 7 ∷ 8 ∷ 9 ∷ 10 ∷ 11 ∷ 12 ∷ []

second_page : page_of (safe_page (pos 7) (page_count (length twelve))) twelve ≡ 11 ∷ 12 ∷ []
unfolding page_of safe_page page_count
second_page = refl

pages_from_example : pages_from 1 (page_count (length twelve)) twelve ≡ twelve
pages_from_example = pages_from_lem twelve

safe_page-bounds_example :
    (1 ≤ safe_page (pos 7) (page_count (length twelve)))
    × (safe_page (pos 7) (page_count (length twelve)) ≤ page_count (length twelve))
    × (1 ≤ length (page_of (safe_page (pos 7) (page_count (length twelve))) twelve))
    × (length (page_of (safe_page (pos 7) (page_count (length twelve))) twelve) ≤ 10)
safe_page-bounds_example = safe_page-bounds (pos 7) twelve (omega arith)

is_valid_ethereum_transaction_hash_iff_example :
    (is_valid_ethereum_transaction_hash (text "0xabc") ≡ true)
    ↔ ((rest : QString) × (text "0xabc" ≡ text "0x" ++ rest) × IsHexLine 64 rest)
is_valid_ethereum_transaction_hash_iff_example =
    is_valid_ethereum_transaction_hash_iff (text "0xabc")

safe_message_id-IsPlain_example :
    (is_well_formed (text "../m1") ≡ true)
      × All IsPlain (safe_message_id (text "../m1"))
      × (is_empty (safe_message_id (text "../m1")) ≡ is_empty (text "../m1"))
    ⊎ ((is_well_formed (text "../m1") ≡ false) × (safe_message_id (text "../m1") ≡ text "../m1"))
safe_message_id-IsPlain_example = safe_message_id-IsPlain (text "../m1")

abbrev pub world : World
world = at_start.world

-- the server lists one of the two messages of the store
listed-fresh_example :
    All
      (λ m. is_stale (current_user_id world) received (ids (first_message ∷ [])) m ≡ false)
      (store_of (listed env received (success (first_message ∷ [])) world).0).messages
    × ((before : List Output) × ((listed env received (success (first_message ∷ [])) world).1
          ≡ before ++ event (Event.message_list_updated (first_message ∷ [])) ∷ []))
listed-fresh_example = listed-fresh env received (first_message ∷ []) world (λ e. cc)

abbrev trusting : World
trusting = record world {
  keys = record { machine = machine; last_trusted_bundle = some bob_bundle };
}

cached_bundle-logged_in_example :
    cached_bundle plain_host
      (λ b. success true)
      (text "bob")
      (pos 1)
      (logged_in env (text "secret") (success ada_session) trusting).0.keys
    ≡ cached_bundle plain_host (λ b. success true) (text "bob") (pos 1) trusting.keys
cached_bundle-logged_in_example =
    cached_bundle-logged_in env (λ b. success true) (text "secret") ada_session trusting
      (text "bob") (pos 1)
