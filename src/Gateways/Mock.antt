-- ===== src/Gateways/Mock.antt =====
-- Where the mock server differs from a server with several users: whose keys it serves, and what
-- it lists.
use epic_kfc.Base.{
  ℕ, ℤ, QString, text, Bool, true, false, Option, none, some, List, [], ◌∷◌, ◌++◌, ◌≡◌, refl, ap,
  ◌∙◌, All, All-append, if◌then◌else◌, is_empty, text_eq, keep, Bool-cases, inl, inr,
}
use epic_kfc.Models.{DeviceKeyMaterial, LocalMessage, sent, received, Result, success}
use epic_kfc.Store.Messages.{update_message}
use epic_kfc.Gateways.{Bundles, upsert_device_keys, fetch_pre_key_bundle, auth_required}
use epic_kfc.Gateways.Messages.{
  MessageGateway, new_gateway, send_message, revoke_message, delete_message, list_messages,
  has_direction, changed, look, revoke_at, delete_at,
}
use epic_kfc.Gateways.Mailbox.{Op, send, revoke, delete, run, run_op}

module _ (int_text : ℤ → QString) (to_base64 : QString → QString) where
  -- Keys that were uploaded to the mock server are served to nobody: what it answers for a user
  -- that it resolves or logs in, whose id begins with mock-user-, is the same before and after
  -- any upload.
  pub fetch_pre_key_bundle-upsert :
      (token upload_token name : QString) (device : ℤ) (material : DeviceKeyMaterial)
      (bundles : Bundles)
      → fetch_pre_key_bundle int_text to_base64 token
          (text "mock-user-" ++ name)
          device
          (upsert_device_keys int_text to_base64 upload_token material bundles).0
        ≡ fetch_pre_key_bundle int_text to_base64 token (text "mock-user-" ++ name) device bundles
  unfolding fetch_pre_key_bundle upsert_device_keys text_eq
  fetch_pre_key_bundle-upsert token upload_token name device material bundles =
      elim (Bool-cases (is_empty upload_token)) [ inl e ↦ rw e refl | inr e ↦ rw e refl ]

abbrev IsSent : LocalMessage → Type 0
IsSent m = m.direction ≡ sent

update-IsSent :
    (id : QString) (change : LocalMessage → LocalMessage) (ms : List LocalMessage)
    → ((m : LocalMessage) → (change m).direction ≡ m.direction)
    → All IsSent ms
    → All IsSent (update_message id change ms)
unfolding update_message
update-IsSent id change [] same h = tt
update-IsSent id change (m ∷ ms) same h = elim (Bool-cases (text_eq m.id id)) [
  | inl e ↦ rw e (same m ∙ h.0, h.1)
  | inr e ↦ rw e (h.0, update-IsSent id change ms same h.1)
]

keep-IsSent : (ms : List LocalMessage) → All IsSent ms → keep (has_direction sent) ms ≡ ms
keep-IsSent [] h = refl
keep-IsSent (m ∷ ms) h = simp h.0 (ap (◌∷◌ m) (keep-IsSent ms h.1))

keep_received-IsSent :
    (ms : List LocalMessage) → All IsSent ms → keep (has_direction received) ms ≡ []
keep_received-IsSent [] h = refl
keep_received-IsSent (m ∷ ms) h = rw h.0 (keep_received-IsSent ms h.1)

module _ (number_text : ℕ → QString) where
  changed-IsSent :
      {A : Type 0} (id : QString) (change : LocalMessage → LocalMessage) (answer : LocalMessage → A)
      (o : Option LocalMessage) (g : MessageGateway)
      → ((m : LocalMessage) → (change m).direction ≡ m.direction)
      → All IsSent g.messages
      → All IsSent (changed id change answer o g).0.messages
  changed-IsSent id change answer none g same h = h
  changed-IsSent id change answer (some m) g same h = update-IsSent id change g.messages same h

  if-IsSent :
      {A : Type 0} (b : Bool) (x y : MessageGateway × Result A)
      → All IsSent x.0.messages
      → All IsSent y.0.messages
      → All IsSent (if b then x else y).0.messages
  if-IsSent true x y h k = h
  if-IsSent false x y h k = k

  run_op-IsSent :
      (op : Op) (g : MessageGateway)
      → All IsSent g.messages
      → All IsSent (run_op number_text op g).messages
  unfolding send_message revoke_message delete_message
  run_op-IsSent (send now token draft consumed) g h =
      if-IsSent {A = LocalMessage} (is_empty token) (g, auth_required) (_, success _) h
        (All-append IsSent g.messages _ h (refl, tt))
  run_op-IsSent (revoke now token id) g h =
      if-IsSent (is_empty token) (g, auth_required)
        (changed id (revoke_at now) (λ m. m) (look id g) g) h
        (changed-IsSent id (revoke_at now) (λ m. m) (look id g) g (λ m. refl) h)
  run_op-IsSent (delete now token id) g h =
      if-IsSent (is_empty token) (g, auth_required)
        (changed id (delete_at now) (λ m. true) (look id g) g) h
        (changed-IsSent id (delete_at now) (λ m. true) (look id g) g (λ m. refl) h)

  run-IsSent :
      (ops : List Op) (g : MessageGateway)
      → All IsSent g.messages
      → All IsSent (run number_text ops g).messages
  unfolding run
  run-IsSent [] g h = h
  run-IsSent (op ∷ ops) g h = run-IsSent ops (run_op number_text op g) (run_op-IsSent op g h)

  -- To whoever is logged in the mock server lists every message that was sent as sent, and none
  -- as received, after any calls.
  pub list_messages-run :
      (ops : List Op) (token : QString)
      → is_empty token ≡ false
      → (list_messages sent token (run number_text ops new_gateway)
          ≡ success (run number_text ops new_gateway).messages)
        × (list_messages received token (run number_text ops new_gateway) ≡ success [])
  unfolding list_messages
  list_messages-run ops token e =
      let all = run-IsSent ops new_gateway tt in
      (rw e (ap success (keep-IsSent _ all)), rw e (ap success (keep_received-IsSent _ all)))
