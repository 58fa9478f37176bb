-- ===== src/Examples/Machines.antt =====
-- The methods of the store on a machine whose files can be written.
use epic_kfc.Base.{
  none, text_eq, ℕ, pos, QString, text, text_eq, true, some, List, [], ◌∷◌, ◌≡◌, refl,
  if◌then◌else◌,
}
use epic_kfc.Models.{value_or, success, TrustPin}
use epic_kfc.Keyed.{address_eq}
use epic_kfc.Store.Tables.{trust_pin, put_trust_pin}
use epic_kfc.Files.{Disk, save}
use epic_kfc.Secrets.Hidden.{without_text}
use epic_kfc.Files.Hidden.{without_secrets, save-without_secrets}
use epic_kfc.Methods.{
  Machine, Method, save_trust_pin, reload, run_methods, save_as, save_message_method,
  save_trust_pin_method, delete_message_for_method,
}
use epic_kfc.Methods.Locked.{run_methods-locked}
use epic_kfc.Methods.Keys.{IsKeyed, run_methods-IsKeyed}
use epic_kfc.Methods.Durable.{save_trust_pin-reload}
use epic_kfc.Keyed.{lookup}
use epic_kfc.Models.{UserAddress}
use epic_kfc.Trust.{PreKeyBundle, KeyService}
use epic_kfc.Trust.{cached_bundle, bundle_fetched}
use epic_kfc.Trust.Cached.{Exchange, cached_bundle-IsPinned}
use epic_kfc.Trust.Pins.{
  take_answer, Answer, address_answer, bundle_answer, take_answers, take_answers-trust_pin,
}
use epic_kfc.Examples.Platforms.{plain_host, plain_host_laws}
use epic_kfc.Examples.Values.{two_messages, locked_store, no_files, bob_pin, first_message}

abbrev bob : QString
bob = text "bob"

abbrev machine : Machine
machine = record { store = two_messages; disk = no_files; draws = 0 }

-- a machine in real mode whose passphrase was not given
abbrev closed_machine : Machine
closed_machine = record machine { store = record locked_store { secret_passphrase = [] } }

abbrev three_methods : List Method
three_methods =
    save_message_method first_message
    ∷ save_trust_pin_method bob_pin
    ∷ delete_message_for_method (text "noon") bob (text "m1")
    ∷ []

abbrev new_pin : TrustPin
new_pin = record bob_pin { identity_key = text "new" }

run_methods-locked_example : (run_methods plain_host three_methods closed_machine).disk ≡ no_files
run_methods-locked_example = run_methods-locked plain_host three_methods closed_machine (refl, refl)

run_methods-IsKeyed_example : IsKeyed (run_methods plain_host three_methods machine).store
run_methods-IsKeyed_example =
    run_methods-IsKeyed plain_host three_methods machine
      ((tt, tt), tt, (tt, tt), (tt, tt), ((unfold text_eq in refl, tt), (tt, tt)))

save_trust_pin-reload_example :
    trust_pin bob (pos 1) (reload plain_host (save_trust_pin plain_host new_pin machine).0).0.store
    ≡ (if address_eq (bob, pos 1) (bob, pos 1)
        then some new_pin
        else trust_pin bob (pos 1) two_messages)
save_trust_pin-reload_example =
    save_trust_pin-reload plain_host_laws new_pin machine true bob (pos 1) refl
      (unfold save_trust_pin put_trust_pin save_as save in refl)

abbrev saved_locked : Disk × ℕ
saved_locked = value_or (no_files, 0) (save plain_host locked_store no_files 0)

save-without_secrets_example :
    save (without_text plain_host) locked_store no_files 0
    ≡ save (without_text plain_host) (without_secrets locked_store) no_files 0
save-without_secrets_example = save-without_secrets plain_host locked_store no_files 0 refl

-- a bundle with another key for a user who has a pin
abbrev other_bundle : PreKeyBundle
other_bundle = record {
  user_id = bob;
  registration_id = pos 1;
  device_id = pos 1;
  identity_key = text "other";
  identity_signing_key = [];
  signed_pre_key_id = pos 1;
  signed_pre_key = [];
  signed_pre_key_signature = [];
  one_time_pre_key_id = none;
  one_time_pre_key = [];
}

abbrev bob_address : UserAddress
bob_address = record { user_id = bob; username = text "Bob"; device_id = pos 1 }

abbrev key_service : KeyService
key_service = record { machine = machine; last_trusted_bundle = none }

abbrev two_answers : List Answer
two_answers =
    address_answer (success bob_address)
    ∷ bundle_answer bob_address (some 9) (success other_bundle)
    ∷ []

take_answers-trust_pin_example :
    trust_pin bob
      (pos 1)
      (take_answers plain_host (λ b. success true) two_answers key_service).machine.store
    ≡ some bob_pin
take_answers-trust_pin_example =
    take_answers-trust_pin plain_host (λ b. success true) bob (pos 1) bob_pin two_answers
      key_service (unfold trust_pin lookup text_eq in refl)

-- the bundle that bob's pin is for
abbrev bob_bundle : PreKeyBundle
bob_bundle = record other_bundle { identity_key = text "key" }

abbrev bob_answer : Answer
bob_answer = bundle_answer bob_address (some 9) (success bob_bundle)

abbrev trusting : KeyService
trusting = take_answer plain_host (λ b. success true) bob_answer key_service

trusting_run :
    cached_bundle plain_host (λ b. success true) bob (pos 1) trusting ≡ success bob_bundle
unfolding cached_bundle bundle_fetched trust_pin lookup text_eq
trusting_run = refl

cached_bundle-IsPinned_example :
    (pin : TrustPin) × (trust_pin bob (pos 1) trusting.machine.store ≡ some pin)
    × (pin.identity_key ≡ bob_bundle.identity_key)
cached_bundle-IsPinned_example =
    cached_bundle-IsPinned plain_host (λ b. success true) bob (pos 1) bob_bundle key_service
      trusting refl (Exchange.answer key_service trusting bob_answer (Exchange.rest trusting))
      ((refl, refl), tt) trusting_run
