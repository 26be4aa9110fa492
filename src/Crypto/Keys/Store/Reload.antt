-- ===== src/Crypto/Keys/Store/Reload.antt =====
-- internal/crypto/keys.go: what was saved under a passphrase is loaded with it.
use road.Base.{
  not, sym, ap, Result-cases, ◌≡◌, refl, ◌∙◌, some, Bytes, bytes_key, ok, Bool-cases, Option-cases,
  inl, inr, IsBytes, length, Option,
}
use road.Crypto.Keys.Disk.{default_config_path, Env, Disk, Json, DiskConfig, read_disk_config}
use road.Crypto.Keys.Store.{
  save_private_key_encrypted, load_key_pair_from_disk_encrypted, check_first_run, save_at,
  seen_manual_of, salt_size, store_config, Aead, Outcome, unlock, encrypted, nonce_size,
}
use road.Crypto.Keys.{Curve, Random, pair_of}
use road.Crypto.Keys.Store.Stored.{
  IsReadable, GivesBytes, encrypted-IsAsciiConfig, unlock-encrypted, derive_disk_key-length,
  read_disk_config-store_config,
}

-- Saving at a path that is known.
module _ (x : Curve) (c : Aead) (j : Json) (env : Env) (r : Random) (disk : Disk) (s : r.Source)
    (raw passphrase : Bytes) (o : Outcome) (path : Bytes) where
  salt_read : Option Bytes × r.Source
  salt_read = r.read_full s salt_size

  nonce_read : Option Bytes × r.Source
  nonce_read = r.read_full salt_read.1 nonce_size

  -- What a save that succeeds has done: both reads gave bytes, and the configuration was stored.
  save_at-ok :
      (p : Bytes)
      → (save_at x c j env r disk s (pair_of x raw) passphrase o path).0 ≡ ok p
      → (salt : Bytes) × (nonce : Bytes) × (salt_read.0 ≡ some salt)
        × (nonce_read.0 ≡ some nonce)
        × (let cfg =
              encrypted x c j env
                (pair_of x raw)
                passphrase
                salt
                nonce
                (seen_manual_of (read_disk_config j disk path)) in
            let stored = store_config x c j env disk path cfg o in
            (stored.0 ≡ ok p)
            × ((save_at x c j env r disk s (pair_of x raw) passphrase o path).1 ≡ stored.1))
  unfolding save_at salt_read nonce_read
  save_at-ok p e = elim (Option-cases (r.read_full s salt_size).0) [
    | inl f ↦ absurd (let g = rw (save_at, f) at e in cc)
    | inr (salt, f) ↦
        let size = derive_disk_key-length x passphrase salt in
        elim (Option-cases (r.read_full (r.read_full s salt_size).1 nonce_size).0) [
          | inl g ↦ absurd (let h = rw (save_at, f, size, g) at e in cc)
          | inr (nonce, g) ↦
              (salt, nonce, f, g, (rw (save_at, f, size, g) at e, rw (save_at, f, size, g) refl))
        ]
  ]

module _ (x : Curve) (c : Aead) (j : Json) (env : Env) (r : Random) (disk : Disk) (s : r.Source)
    (raw passphrase : Bytes) (o : Outcome) (b : GivesBytes x c r) (size : length raw ≡ 32)
    (bytes : IsBytes raw) where
  -- Both loading and the test for a first run, after a save at the path.
  save_at-read :
      (path p : Bytes)
      → IsReadable disk path
      → (save_at x c j env r disk s (pair_of x raw) passphrase o path).0 ≡ ok p
      → (cfg : DiskConfig) × (read_disk_config j
            (save_at x c j env r disk s (pair_of x raw) passphrase o path).1
            path
          ≡ ok cfg)
        × (unlock x c j env passphrase cfg ≡ ok (pair_of x raw))
        × (cfg.seen_manual ≡ seen_manual_of (read_disk_config j disk path))
  unfolding salt_read nonce_read
  save_at-read path p h e =
      let (salt, nonce, f, g, (stored, same)) =
        save_at-ok x c j env r disk s raw passphrase o path p e in
      let seen = seen_manual_of (read_disk_config j disk path) in
      let cfg = encrypted x c j env (pair_of x raw) passphrase salt nonce seen in
      let salt_bytes = b.random s salt_size salt f in
      let nonce_bytes = b.random (r.read_full s salt_size).1 nonce_size nonce g in
      let kept = j.parse-print cfg (
        encrypted-IsAsciiConfig x c r j env raw passphrase salt nonce seen b bytes salt_bytes
          nonce_bytes) in
      (
        cfg,
        rw same (read_disk_config-store_config j env x c disk path p cfg o h kept stored).1,
        unlock-encrypted x c r j env raw passphrase salt nonce seen b size bytes salt_bytes
            nonce_bytes (r.length-read_full (r.read_full s salt_size).1 nonce_size nonce g),
        unfold encrypted in refl,
      )

  save_private_key_encrypted-ok :
      (p : Bytes)
      → (save_private_key_encrypted x c j env r disk s (pair_of x raw) passphrase o).0 ≡ ok p
      → (path : Bytes) × (default_config_path env ≡ ok path)
        × (save_private_key_encrypted x c j env r disk s (pair_of x raw) passphrase o
            ≡ save_at x c j env r disk s (pair_of x raw) passphrase o path)
  unfolding save_private_key_encrypted
  save_private_key_encrypted-ok p e = elim (Result-cases (default_config_path env)) [
    | inr (no_path, f) ↦ absurd (let g = rw (save_private_key_encrypted, f) at e in cc)
    | inl (path, f) ↦ elim (Bool-cases o.mkdir_ok) [
      | inr g ↦ absurd (let k = rw (save_private_key_encrypted, f, g) at e in cc)
      | inl g ↦ (path, f, rw (save_private_key_encrypted, f) (simp g refl))
    ]
  ]

  -- A key pair that was saved under a passphrase without an error is what loading with this
  -- passphrase gives, and whether the guide counts as read is as it was before. The configuration
  -- file, if there is one already, can be read; the private key has 32 bytes; what is encoded in
  -- hexadecimal are byte strings.
  pub load_key_pair_from_disk_encrypted-save_private_key_encrypted :
      (p : Bytes)
      → ((path : Bytes) → default_config_path env ≡ ok path → IsReadable disk path)
      → let saved = save_private_key_encrypted x c j env r disk s (pair_of x raw) passphrase o in
        saved.0 ≡ ok p
        → (load_key_pair_from_disk_encrypted x c j env saved.1 passphrase ≡ ok (pair_of x raw))
          × (check_first_run j env saved.1 ≡ check_first_run j env disk)
  unfolding load_key_pair_from_disk_encrypted check_first_run
  load_key_pair_from_disk_encrypted-save_private_key_encrypted p h e =
      let (path, f, saved) = save_private_key_encrypted-ok p e in
      let (cfg, found, opened, seen) =
        save_at-read path p (h path f) (sym (ap (λ out. out.0) saved) ∙ e) in
      (
        rw (saved, load_key_pair_from_disk_encrypted, f, found) opened,
        rw (saved, check_first_run, f, found) (ap not seen),
      )
