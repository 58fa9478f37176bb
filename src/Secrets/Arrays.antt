-- ===== src/Secrets/Arrays.antt =====
-- The secret fields of every object of an array, and of the parts of the root object.
use epic_kfc.Base.{ℕ, QString, String, true, List, [], ◌∷◌, ◌≡◌, refl, sym, ap, ◌∙◌, All}
use mathlib.Core.Path.{subst}
use epic_kfc.Models.{success, >>=-eq-success, success-injective}
use epic_kfc.Host.{Host, HostLaws, QByteArray}
use epic_kfc.Json.{
  QJsonValue, QJsonObject, object, objects, array, field, end, value, insert, contains, to_array,
}
use epic_kfc.Secrets.{
  protect_strings, unprotect_strings, protect_each, unprotect_each, protect_array, unprotect_array,
  protect_session, unprotect_session, protect_parts, unprotect_parts, protect_arrays,
  unprotect_arrays, session_keys, device_keys, pre_key_keys, trust_pin_keys,
}
use epic_kfc.Secrets.Fields.{HasTexts, unprotect-protect_strings}
use epic_kfc.Json.Laws.{value-insert}

module _ {host : Host} (laws : HostLaws host) (passphrase : QString) (salt : QByteArray) where
  unprotect-protect_each :
      (ks : List String) (os : List QJsonObject) (n : ℕ) (r : List QJsonObject × ℕ)
      → All (HasTexts ks) os
      → protect_each host passphrase salt ks (to_array (array (objects os))) n ≡ success r
      → unprotect_each host passphrase salt ks (to_array (array (objects r.0))) ≡ success os
  unfolding protect_each unprotect_each
  unprotect-protect_each ks [] n r h e = let same : ([], n) ≡ r = success-injective e in rw (← same)
  unprotect-protect_each ks (o ∷ os) n r (h, hs) e =
      let (first, e1, e2) = >>=-eq-success (protect_strings host passphrase salt ks o n) _ e in
      let (rest, e3, e4) =
        >>=-eq-success
          (protect_each host passphrase salt ks (to_array (array (objects os))) first.1) _ e2 in
      let same : (first.0 ∷ rest.0, rest.1) ≡ r = success-injective e4 in
      let here = unprotect-protect_strings laws passphrase salt ks o n first h e1 in
      let later = unprotect-protect_each ks os first.1 rest hs e3 in rw (← same) (rw (here, later))

  protect_array_inv :
      (name : String) (ks : List String) (root : QJsonObject) (os : List QJsonObject) (n : ℕ)
      (r : QJsonObject × ℕ)
      → value name root ≡ array (objects os)
      → All (HasTexts ks) os
      → protect_array host passphrase salt name ks root n ≡ success r
      → (sealed : List QJsonObject) × (r.0 ≡ insert name (array (objects sealed)) root)
        × (unprotect_each host passphrase salt ks (to_array (array (objects sealed))) ≡ success os)
  unfolding protect_array
  protect_array_inv name ks root os n r is h e =
      let (items, e1, e2) =
        >>=-eq-success (protect_each host passphrase salt ks (to_array (array (objects os))) n)
          (λ items. success (insert name (array (objects items.0)) root, items.1)) (rw is at e) in
      let same : (insert name (array (objects items.0)) root, items.1) ≡ r = success-injective e2 in
      (
        items.0,
        sym (ap (λ (t : QJsonObject × ℕ). t.0) same),
        unprotect-protect_each ks os n items h e1,
      )

  protect_session_inv :
      (root o : QJsonObject) (n : ℕ) (r : QJsonObject × ℕ)
      → contains "session" root ≡ true
      → value "session" root ≡ object o
      → HasTexts session_keys o
      → protect_session host passphrase salt root n ≡ success r
      → (sealed : QJsonObject) × (r.0 ≡ insert "session" (object sealed) root)
        × (unprotect_strings host passphrase salt session_keys sealed ≡ success o)
  unfolding protect_session
  protect_session_inv root o n r there is h e =
      let (item, e1, e2) =
        >>=-eq-success (protect_strings host passphrase salt session_keys o n)
          (λ session. success (insert "session" (object session.0) root, session.1))
          (rw (there, is) at e) in
      let same : (insert "session" (object item.0) root, item.1) ≡ r = success-injective e2 in
      (
        item.0,
        sym (ap (λ (t : QJsonObject × ℕ). t.0) same),
        unprotect-protect_strings laws passphrase salt session_keys o n item h e1,
      )

-- The root object of a file, behind its version and its session.
abbrev pub tables_root :
    QJsonValue → QJsonValue → QJsonValue → QJsonValue → QJsonValue → QJsonValue → QJsonObject
tables_root devices pre_keys users pins messages salt = field "deviceKeys" devices (
    field "oneTimePreKeys" pre_keys (
      field "knownUsers" users
        (field "trustPins" pins (field "messages" messages (field "secretSalt" salt end)))))

module _ {host : Host} (laws : HostLaws host) (passphrase : QString) (salt : QByteArray) where
  module _ (devices pre_keys pins : List QJsonObject)
      (devices_ok : All (HasTexts device_keys) devices)
      (pre_keys_ok : All (HasTexts pre_key_keys) pre_keys)
      (pins_ok : All (HasTexts trust_pin_keys) pins) where
    -- what is left of `protect_arrays`: three sealed arrays that open to the ones before
    pub record Sealing (root result : QJsonObject) : Type 0 where
      pub devices' : List QJsonObject
      pub pre_keys' : List QJsonObject
      pub pins' : List QJsonObject
      pub result_eq :
          result
          ≡ insert "trustPins" (array (objects pins')) (
              insert "oneTimePreKeys"
                (array (objects pre_keys'))
                (insert "deviceKeys" (array (objects devices')) root))
      pub devices_open :
          unprotect_each host passphrase salt device_keys (to_array (array (objects devices')))
          ≡ success devices
      pub pre_keys_open :
          unprotect_each host passphrase salt pre_key_keys (to_array (array (objects pre_keys')))
          ≡ success pre_keys
      pub pins_open :
          unprotect_each host passphrase salt trust_pin_keys (to_array (array (objects pins')))
          ≡ success pins

    protect_arrays-Sealing :
        (root : QJsonObject) (n : ℕ) (r : QJsonObject × ℕ)
        → value "deviceKeys" root ≡ array (objects devices)
        → value "oneTimePreKeys" root ≡ array (objects pre_keys)
        → value "trustPins" root ≡ array (objects pins)
        → protect_arrays host passphrase salt root n ≡ success r
        → Sealing root r.0
    unfolding protect_arrays
    protect_arrays-Sealing root n r is_d is_k is_p e =
        let (r1, e1, k1) =
          >>=-eq-success (protect_array host passphrase salt "deviceKeys" device_keys root n) _ e in
        let (r2, e2, k2) =
          >>=-eq-success
            (protect_array host passphrase salt "oneTimePreKeys" pre_key_keys r1.0 r1.1) _ k1 in
        let (ds, same1, open1) =
          protect_array_inv laws passphrase salt "deviceKeys" device_keys root devices n r1 is_d
            devices_ok e1 in
        let is_k' : value "oneTimePreKeys" r1.0 ≡ array (objects pre_keys) =
          rw (same1, value-insert "deviceKeys" "oneTimePreKeys") is_k in
        let (ks, same2, open2) =
          protect_array_inv laws passphrase salt "oneTimePreKeys" pre_key_keys r1.0 pre_keys r1.1 r2
            is_k' pre_keys_ok e2 in
        let is_p' : value "trustPins" r2.0 ≡ array (objects pins) =
          rw
            (
              same2,
              value-insert "oneTimePreKeys" "trustPins",
              same1,
              value-insert "deviceKeys" "trustPins",
            )
            is_p in
        let (ps, same3, open3) =
          protect_array_inv laws passphrase salt "trustPins" trust_pin_keys r2.0 pins r2.1 r is_p'
            pins_ok k2 in
        record {
          devices' = ds;
          pre_keys' = ks;
          pins' = ps;
          result_eq =
              same3
              ∙ ap (insert "trustPins" (array (objects ps))) same2
              ∙ ap
                  (λ (o : QJsonObject).
                    insert "trustPins" (array (objects ps))
                      (insert "oneTimePreKeys" (array (objects ks)) o))
                  same1;
          devices_open = open1;
          pre_keys_open = open2;
          pins_open = open3;
        }

    module _ (version users messages salt_value : QJsonValue) where
      abbrev tables : QJsonObject
      tables =
          tables_root (array (objects devices)) (array (objects pre_keys)) users
            (array (objects pins)) messages salt_value

      -- the salt is still there, and the secrets can be opened
      abbrev pub IsReadable : QJsonObject → QJsonObject → Type 0
      IsReadable root result =
          (contains "secretSalt" result ≡ true)
          × (value "secretSalt" result ≡ salt_value)
          × (unprotect_parts host passphrase salt result ≡ success root)

      -- a root without a session
      pub unprotect-protect_bare :
          (n : ℕ) (r : QJsonObject × ℕ)
          → protect_parts host passphrase salt (field "version" version tables) n ≡ success r
          → IsReadable (field "version" version tables) r.0
      unfolding protect_parts protect_session contains
      unprotect-protect_bare n r e =
          let sealing =
            protect_arrays-Sealing (field "version" version tables) n r (unfold value in refl)
              (unfold value in refl) (unfold value in refl) e in
          rw sealing.result_eq (
            unfold insert unprotect_parts unprotect_session unprotect_arrays unprotect_array
              value in
            (refl, refl, rw (sealing.devices_open, sealing.pre_keys_open, sealing.pins_open)))

      IsReadable-session :
          (session sealed result : QJsonObject)
          → unprotect_strings host passphrase salt session_keys sealed ≡ success session
          → Sealing
              (insert "session"
                (object sealed)
                (field "version" version (field "session" (object session) tables)))
              result
          → IsReadable (field "version" version (field "session" (object session) tables)) result
      IsReadable-session session sealed result open_session sealing = rw sealing.result_eq (
          unfold insert unprotect_parts unprotect_session unprotect_arrays unprotect_array value
            contains in
          (
            refl,
            refl,
            rw (open_session, sealing.devices_open, sealing.pre_keys_open, sealing.pins_open),
          ))

      -- a root with a session
      pub unprotect-protect_session :
          (session : QJsonObject) (n : ℕ) (r : QJsonObject × ℕ)
          → HasTexts session_keys session
          → protect_parts host passphrase salt
              (field "version" version (field "session" (object session) tables))
              n
            ≡ success r
          → IsReadable (field "version" version (field "session" (object session) tables)) r.0
      unfolding protect_parts
      unprotect-protect_session session n r texts e =
          let root = field "version" version (field "session" (object session) tables) in
          let (r1, e1, k1) = >>=-eq-success (protect_session host passphrase salt root n) _ e in
          let (sealed, same, open_session) =
            protect_session_inv laws passphrase salt root session n r1 (unfold contains in refl)
              (unfold value in refl) texts e1 in
          let sealing =
            protect_arrays-Sealing r1.0 r1.1 r (rw same (unfold value insert in refl))
              (rw same (unfold value insert in refl)) (rw same (unfold value insert in refl)) k1 in
          IsReadable-session session sealed r.0 open_session
            (subst (λ (o : QJsonObject). Sealing o r.0) same sealing)
