-- ===== src/Examples/Whole.antt =====
-- The whole client with gateways that know bob and refuse all else.
use epic_kfc.Base.{QString, text, false, [], ◌≡◌, refl}
use epic_kfc.Models.{success}
use epic_kfc.Bus.{Client, initial_router}
use epic_kfc.Router.{handle_line}
use epic_kfc.Services.{Pending, Reply, send_address, pinned_bundle}
use epic_kfc.Services.Prompt.{Clocked, own_services, handle_line-own_services}
use epic_kfc.Examples.Platforms.{ascii, mock_config}
use epic_kfc.Examples.Sends.{env, key_text, refuse, bob_address, bob_bundle}
use epic_kfc.Examples.Sessions.{world}

abbrev know_bob : (p : Pending) → Reply p
know_bob (send_address plaintext) = success bob_address
know_bob (pinned_bundle pin purpose) = success bob_bundle
know_bob p = refuse p

abbrev start : Client Clocked
start = record { router = initial_router; services = (world, 0); trace = [] }

abbrev read_line : QString → Client Clocked
read_line line =
    handle_line ascii mock_config (own_services key_text (λ n. env) (λ n. know_bob)) line start

handle_line-own_services_example :
    (read_line (text "/msg Bob hi")).router.operation_in_progress ≡ false
handle_line-own_services_example =
    handle_line-own_services key_text (λ n. env) (λ n. know_bob) ascii mock_config
      (text "/msg Bob hi") start refl
