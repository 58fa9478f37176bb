-- ===== src/Files/Reload.antt =====
-- A store that was saved is there after `reload`, in mock and in real mode.
use epic_kfc.Base.{
  if_true, if_false, ℕ, QString, Bool, true, false, not, some, ◌≡◌, refl, sym, ap, ◌∙◌, is_empty,
  text_eq_refl, length, nat_eq,
}
use epic_kfc.Models.{success, >>=-eq-success, success-injective, guard_passed}
use epic_kfc.Host.{Host, HostLaws, QByteArray}
use epic_kfc.Json.{QJsonObject, string, field, end, value, contains, insert}
use epic_kfc.Secrets.{
  protect_secrets, unprotect_secrets, protect_parts, unprotect_parts, salt_for, secret_salt_bytes,
  draw_after_salt,
}
use epic_kfc.Store.{Store}
use epic_kfc.Files.{Disk, write, plain_root, write_root, save, cleared, fill, load, load_root}
use epic_kfc.Files.RoundTrip.{
  root_of, plain_root-root_of, salted_root, with_contents, fill_root, readable_root,
}

module _ (host : Host) where
  write_root_inv :
      (s : Store) (disk : Disk) (root : QJsonObject) (n : ℕ) (r : Disk × ℕ)
      → write_root host s disk (root, n) ≡ success r
      → r.0 s.path ≡ some root
  write_root_inv s disk root n r h =
      let (_, written) = guard_passed (not (host.can_write s.path)) _ _ h in
      let same : (write s.path root disk, n) ≡ r = success-injective written in
      rw (← ap (λ (t : Disk × ℕ). t.0) same) (unfold write in rw (text_eq_refl s.path))

  save_plain_inv :
      (s : Store) (disk : Disk) (n : ℕ) (r : Disk × ℕ)
      → s.secret_protection_required ≡ false
      → save host s disk n ≡ success r
      → r.0 s.path ≡ some (plain_root host s)
  unfolding save
  save_plain_inv s disk n r plain h =
      let (_, saved) = guard_passed (not (host.directory_ready (host.directory s.path))) _ _ h in
      write_root_inv s disk (plain_root host s) n r (sym (if_false _ _ _ plain) ∙ saved)

  pub save_protected_inv :
      (s : Store) (disk : Disk) (n : ℕ) (r : Disk × ℕ)
      → s.secret_protection_required ≡ true
      → save host s disk n ≡ success r
      → (p : QJsonObject × ℕ) × (protect_secrets host s.secret_passphrase s.secret_salt
            (plain_root host s)
            n
          ≡ success p)
        × (r.0 s.path ≡ some p.0)
  unfolding save
  save_protected_inv s disk n r secret h =
      let (_, saved) = guard_passed (not (host.directory_ready (host.directory s.path))) _ _ h in
      let (p, e1, e2) =
        >>=-eq-success
          (protect_secrets host s.secret_passphrase s.secret_salt (plain_root host s) n)
          (write_root host s disk) (sym (if_true _ _ _ secret) ∙ saved) in
      (p, e1, write_root_inv s disk p.0 p.1 r e2)

  protect_secrets_inv :
      (passphrase : QString) (secret_salt : QByteArray) (root : QJsonObject) (n : ℕ)
      (p : QJsonObject × ℕ)
      → protect_secrets host passphrase secret_salt root n ≡ success p
      → (is_empty passphrase ≡ false)
        × (not (nat_eq (length (salt_for host secret_salt n)) secret_salt_bytes) ≡ false)
        × (protect_parts host passphrase
              (salt_for host secret_salt n)
              (insert "secretSalt"
                (string (host.bytes_to_base64 (salt_for host secret_salt n)))
                root)
              (draw_after_salt host secret_salt n)
            ≡ success p)
  unfolding protect_secrets
  protect_secrets_inv passphrase secret_salt root n p h =
      let (given, rest) = guard_passed (is_empty passphrase) _ _ h in
      let (sized, made) = guard_passed _ _ _ rest in (given, sized, made)

  load_of_file :
      (s : Store) (disk : Disk) (root : QJsonObject)
      → disk s.path ≡ some root
      → host.can_read s.path ≡ true
      → load host s disk ≡ load_root host root (cleared s)
  unfolding load
  load_of_file s disk root there readable = rw (there, readable)

  plain_has_no_salt :
      (on : Bool) (s : Store) → contains "secretSalt" (root_of host on s end) ≡ false
  unfolding contains
  plain_has_no_salt true s = refl
  plain_has_no_salt false s = refl

module _ {host : Host} (laws : HostLaws host) where
  load_salted :
      (s : Store) (salt : QByteArray) (root opened_root : QJsonObject)
      → is_empty s.secret_passphrase ≡ false
      → not (nat_eq (length salt) secret_salt_bytes) ≡ false
      → contains "secretSalt" root ≡ true
      → value "secretSalt" root ≡ string (host.bytes_to_base64 salt)
      → unprotect_parts host s.secret_passphrase salt root ≡ success opened_root
      → load_root host root (cleared s)
        ≡ (fill host opened_root (cleared (record s { secret_salt = salt })), success true)
  unfolding cleared unprotect_secrets
  load_salted s salt root opened_root given sized salted kept opened =
      rw (salted, kept, laws.base64 salt, given, sized, opened)

  -- In mock mode, where secrets are written as they are, a store that was saved without an error
  -- is restored by a reload of the readable file: every table is the same, in the same order, and
  -- the session is there with its tokens, whose kind and lifetime are reset.
  pub load-save_plain :
      (s : Store) (disk : Disk) (n : ℕ) (r : Disk × ℕ)
      → s.secret_protection_required ≡ false
      → host.can_read s.path ≡ true
      → save host s disk n ≡ success r
      → load host s r.0 ≡ (with_contents s.has_session s s, success true)
  load-save_plain s disk n r plain readable h =
      load_of_file host s r.0 (plain_root host s) (save_plain_inv host s disk n r plain h) readable
      ∙ rw (plain_root-root_of host s, plain_has_no_salt host s.has_session s)
          (ap (λ (t : Store). (t, success true))
            (fill_root laws s.has_session s s end (unfold contains in refl)))

  -- In real mode, where secrets are encrypted with the salt that was there or a fresh one, a store
  -- that was saved without an error is restored by a reload of the readable file with the same
  -- passphrase: every table is the same, in the same order, and the session is there with its
  -- tokens, whose kind and lifetime are reset. The store then holds the salt.
  pub load-save_protected :
      (s : Store) (disk : Disk) (n : ℕ) (r : Disk × ℕ)
      → s.secret_protection_required ≡ true
      → host.can_read s.path ≡ true
      → save host s disk n ≡ success r
      → load host s r.0 ≡ (
        with_contents s.has_session s (record s { secret_salt = salt_for host s.secret_salt n }),
        success true,
      )
  load-save_protected s disk n r secret readable h =
      let (p, protected, written) = save_protected_inv host s disk n r secret h in
      let (given, sized, made) =
        protect_secrets_inv host s.secret_passphrase s.secret_salt (plain_root host s) n p
          protected in
      let salt = salt_for host s.secret_salt n in
      let (salted, kept, opened) =
        readable_root laws s.secret_passphrase salt s.has_session s
          (string (host.bytes_to_base64 salt)) (draw_after_salt host s.secret_salt n) p
          (rw (plain_root-root_of host s, salted_root host s.has_session s) at made) in
      load_of_file host s r.0 p.0 written readable
      ∙ load_salted s salt p.0 _ given sized salted kept opened
      ∙ ap (λ (t : Store). (t, success true))
          (fill_root laws s.has_session s (record s { secret_salt = salt })
            (field "secretSalt" (string (host.bytes_to_base64 salt)) end) (unfold contains in refl))
