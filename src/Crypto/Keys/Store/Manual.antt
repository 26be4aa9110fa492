-- ===== src/Crypto/Keys/Store/Manual.antt =====
-- internal/crypto/keys.go: noting that the guide was read keeps the keys.
use road.Base.{
  some, ap, ◌∙◌, Option-cases, ◌≡◌, refl, true, false, Bytes, ok, Bool-cases, Result-cases, inl,
  inr,
}
use road.Crypto.Cipher.{Aead}
use road.Crypto.Keys.{Curve, no_keychain}
use road.Crypto.Keys.Disk.{
  Env, Disk, Write, DiskConfig, Json, put_file, write_file, read_file, default_config_path,
  read_disk_config,
}
use road.Crypto.Keys.Store.{
  check_first_run, mark_manual_as_seen, unlock, load_key_pair_from_disk_encrypted, seen_manual_of,
}
use road.Crypto.Keys.Store.Stored.{IsReadable, write_file-written, read_disk_config-put_file}

module _ (j : Json) (env : Env) (disk : Disk) (w : Write) where
  abbrev seen_config : DiskConfig → DiskConfig
  seen_config cfg = record cfg { seen_manual = true }

  parse-seen_config :
      (path : Bytes) (cfg : DiskConfig)
      → read_disk_config j disk path ≡ ok cfg
      → j.parse (j.print (seen_config cfg)) ≡ some (seen_config cfg)
  unfolding read_disk_config
  parse-seen_config path cfg e = elim (Result-cases (read_file disk path no_keychain)) [
    | inr (x, f) ↦ absurd (let g = rw (read_disk_config, f) at e in cc)
    | inl (text, f) ↦ elim (Option-cases (j.parse text)) [
      | inl g ↦ absurd (let h = rw (read_disk_config, f, g) at e in cc)
      | inr (cfg1, g) ↦
          let h : ok cfg1 ≡ ok cfg = rw (read_disk_config, f, g) at e in
          let k : cfg1 ≡ cfg = cc in j.parse-print_again text cfg true (g ∙ ap some k)
    ]
  ]

  -- A mark that succeeds has written the configuration that was there, with the flag set.
  mark_manual_as_seen-ok :
      (mark_manual_as_seen j env disk w).0 ≡ ok tt
      → (path : Bytes) × (cfg : DiskConfig) × (default_config_path env ≡ ok path)
        × (read_disk_config j disk path ≡ ok cfg)
        × ((mark_manual_as_seen j env disk w).1 ≡ put_file disk path (j.print (seen_config cfg)))
  unfolding mark_manual_as_seen
  mark_manual_as_seen-ok e = elim (Result-cases (default_config_path env)) [
    | inr (x, f) ↦ absurd (let g = rw (mark_manual_as_seen, f) at e in cc)
    | inl (path, f) ↦ elim (Result-cases (read_disk_config j disk path)) [
      | inr (x, g) ↦ absurd (let h = rw (mark_manual_as_seen, f, g) at e in cc)
      | inl (cfg, g) ↦
          let text = j.print (seen_config cfg) in
          elim (Bool-cases (write_file disk path text w).0) [
            | inr k ↦ absurd (let h = rw (mark_manual_as_seen, f, g, k) at e in cc)
            | inl k ↦ (
              path,
              cfg,
              f,
              g,
              rw (mark_manual_as_seen, f, g) (write_file-written disk path text w k),
            )
          ]
    ]
  ]

  -- When noting that the guide was read succeeds, over a configuration file that can be read, the
  -- next start is not a first run, and loading with any passphrase ends as it did before.
  pub check_first_run-mark_manual_as_seen :
      (x : Curve) (c : Aead)
      → ((path : Bytes) → default_config_path env ≡ ok path → IsReadable disk path)
      → let (result, disk1) = mark_manual_as_seen j env disk w in
        result ≡ ok tt
        → (check_first_run j env disk1 ≡ false)
          × ((passphrase : Bytes)
              → load_key_pair_from_disk_encrypted x c j env disk1 passphrase
                ≡ load_key_pair_from_disk_encrypted x c j env disk passphrase)
  unfolding check_first_run load_key_pair_from_disk_encrypted seen_manual_of unlock
  check_first_run-mark_manual_as_seen x c h e =
      let (path, cfg, f, g, same) = mark_manual_as_seen-ok e in
      let found =
        read_disk_config-put_file j env disk path (seen_config cfg) (h path f)
          (parse-seen_config path cfg g) in
      (
        rw (same, f, found) refl,
        λ passphrase. rw (same, load_key_pair_from_disk_encrypted, f, found, g) refl,
      )
