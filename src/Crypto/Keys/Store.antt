-- ===== src/Crypto/Keys/Store.antt =====
-- internal/crypto/keys.go: the encrypted key file.
pub mod Stored
pub mod Reload
pub mod Manual
use road.Base.{
  ℕ, ◌≡◌, Option, none, some, Bool, true, false, not, ◌==◌, if◌then◌else◌, Bytes, length, lookup,
  insert, bytes_key, Result, ok, err, ◌>>=◌, ◌>>◌, fail_if,
}
use road.Crypto.Hex.{encode_hex, decode_hex}
use road.Crypto.Cipher.{Aead, Random, key_size, nonce_size}
use road.Crypto.Keys.{
  Curve, Error, KeyPair, or_error, derive_disk_key, key_pair_from_raw_bytes, create_config_dir,
  generate_salt, generate_nonce, init_aead, write_config, wrong_passphrase, nonce_panic,
}
use road.Crypto.Keys.Disk.{
  Env, Disk, FileEntry, Write, write_file, DiskConfig, Json, default_config_path, read_disk_config,
  key_file_permission,
}

-- How the calls of the file system end.
pub record Outcome : Type 0 where
  pub mkdir_ok : Bool
  pub write : Write
  pub chmod_ok : Bool

abbrev pub salt_size : ℕ
salt_size = 16

-- A configuration that cannot be read counts as one whose guide was not read.
unfoldable pub seen_manual_of : Result Error DiskConfig → Bool
seen_manual_of (ok cfg) = cfg.seen_manual
seen_manual_of (err e) = false

-- `os.Chmod`, whose failure is ignored.
unfoldable pub chmod : Env → Disk → Bytes → Bool → Disk
chmod env disk path works =
    if env.windows
    then disk
    else if works
    then elim (lookup path disk) [
      | none ↦ disk
      | some f ↦ insert path (record f { mode = key_file_permission }) disk
    ]
    else disk

module _ (x : Curve) (c : Aead) (j : Json) (env : Env) where
  -- The configuration that is written for a key pair.
  unfoldable pub encrypted : KeyPair → Bytes → Bytes → Bytes → Bool → DiskConfig
  encrypted kp passphrase salt nonce seen = record {
    salt = encode_hex salt;
    nonce = encode_hex nonce;
    ciphertext = encode_hex (c.seal (derive_disk_key x passphrase salt) nonce kp.private_key);
    seen_manual = seen;
  }

  -- The end of `SavePrivateKeyEncrypted`.
  unfoldable pub store_config : Disk → Bytes → DiskConfig → Outcome → Result Error Bytes × Disk
  store_config disk path cfg o =
      let (done, disk1) = write_file disk path (j.print cfg) o.write in
      if done then (ok path, chmod env disk1 path o.chmod_ok) else (err write_config, disk1)

  module _ (r : Random) where
    -- With the path at hand: the random values, the encryption, and the file.
    unfoldable pub save_at :
        Disk → r.Source → KeyPair → Bytes → Outcome → Bytes → Result Error Bytes × Disk × r.Source
    save_at disk s kp passphrase o path =
        let (salt, s1) = r.read_full s salt_size in
        elim salt [
          | none ↦ (err generate_salt, disk, s1)
          | some salt ↦
              if not (length (derive_disk_key x passphrase salt) == key_size)
              then (err init_aead, disk, s1)
              else let (nonce, s2) = r.read_full s1 nonce_size in
                elim nonce [
                  | none ↦ (err generate_nonce, disk, s2)
                  | some nonce ↦
                      let seen = seen_manual_of (read_disk_config j disk path) in
                      let cfg = encrypted kp passphrase salt nonce seen in
                      let (result, disk1) = store_config disk path cfg o in (result, disk1, s2)
                ]
        ]

    unfoldable pub save_private_key_encrypted :
        Disk → r.Source → KeyPair → Bytes → Outcome → Result Error Bytes × Disk × r.Source
    save_private_key_encrypted disk s kp passphrase o = elim (default_config_path env) [
      | err e ↦ (err e, disk, s)
      | ok path ↦
          if o.mkdir_ok
          then save_at disk s kp passphrase o path
          else (err create_config_dir, disk, s)
    ]

  -- Decrypting a configuration.
  unfoldable pub unlock : Bytes → DiskConfig → Result Error KeyPair
  unlock passphrase cfg = do
    let key = derive_disk_key x passphrase (decode_hex cfg.salt)
    fail_if (not (length key == key_size)) init_aead
    fail_if (not (length (decode_hex cfg.nonce) == nonce_size)) nonce_panic
    raw ←
        or_error (c.open_sealed key (decode_hex cfg.nonce) (decode_hex cfg.ciphertext))
          wrong_passphrase
    key_pair_from_raw_bytes x raw

  unfoldable pub load_key_pair_from_disk_encrypted : Disk → Bytes → Result Error KeyPair
  load_key_pair_from_disk_encrypted disk passphrase = do
    path ← default_config_path env
    cfg ← read_disk_config j disk path
    unlock passphrase cfg

module _ (j : Json) (env : Env) where
  unfoldable pub check_first_run : Disk → Bool
  unfolding seen_manual_of
  check_first_run disk =
      not (seen_manual_of (default_config_path env >>= λ path. read_disk_config j disk path))

  unfoldable pub mark_manual_as_seen : Disk → Write → Result Error (Unit {0}) × Disk
  mark_manual_as_seen disk w = elim (default_config_path env) [
    | err e ↦ (err e, disk)
    | ok path ↦ elim (read_disk_config j disk path) [
      | err e ↦ (err e, disk)
      | ok cfg ↦
          let (done, disk1) =
            write_file disk path (j.print (record cfg { seen_manual = true })) w in
          (if done then ok tt else err write_config, disk1)
    ]
  ]
