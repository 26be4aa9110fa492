-- ===== src/Crypto/Keys/Store/Stored.antt =====
-- internal/crypto/keys.go: what a stored configuration is when it is read back and decrypted.
use road.Base.{
  ◌≡◌, refl, ◌∙◌, some, Bool, true, Bytes, lookup, insert, bytes_key, ok, lookup-insert,
  bytes_eq_refl, Bool-cases, Option-cases, inl, inr, arith, IsBytes, length, ℕ,
}
use road.Crypto.Keys.Disk.{
  IsAsciiConfig, key_file_permission, Env, Disk, FileEntry, put_file, read_file, Json, write_file,
  DiskConfig, Write, read_disk_config,
}
use road.Crypto.Keys.Store.{chmod, store_config, Aead, Outcome, unlock, encrypted, nonce_size}
use road.Crypto.Keys.{
  key_pair_from_raw_bytes, no_keychain, Error, Curve, Random, derive_disk_key, pair_of,
}
use road.Crypto.Hex.{decode_hex-encode_hex, encode_hex-IsAscii}

-- A file at the path, where there is one, can be read.
abbrev pub IsReadable : Disk → Bytes → Type 0
IsReadable disk path = (f : FileEntry) → lookup path disk ≡ some f → f.readable ≡ true

pub read_file-some :
    (disk : Disk) (path : Bytes) (e : Error) (f : FileEntry)
    → lookup path disk ≡ some f
    → f.readable ≡ true
    → read_file disk path e ≡ ok f.contents
unfolding read_file
read_file-some disk path e f h k = ground arith

lookup_self :
    (path : Bytes) (f : FileEntry) (disk : Disk) → lookup path (insert path f disk) ≡ some f
lookup_self path f disk = lookup-insert path path f disk ∙ rw (bytes_eq_refl path) refl

put_file-some :
    (disk : Disk) (path text : Bytes)
    → IsReadable disk path
    → (f : FileEntry) × (lookup path (put_file disk path text) ≡ some f)
      × (f.contents ≡ text)
      × (f.readable ≡ true)
unfolding put_file
put_file-some disk path text h = elim (Option-cases (lookup path disk)) [
  | inl e ↦
      let f : FileEntry = record { contents = text; mode = key_file_permission; readable = true } in
      (f, rw (put_file, e) (lookup_self path f disk), refl, refl)
  | inr (old, e) ↦
      let f : FileEntry = record old { contents = text } in
      (f, rw (put_file, e) (lookup_self path f disk), refl, h old e)
]

chmod-some :
    (env : Env) (disk : Disk) (path : Bytes) (works : Bool) (f : FileEntry)
    → lookup path disk ≡ some f
    → (g : FileEntry) × (lookup path (chmod env disk path works) ≡ some g)
      × (g.contents ≡ f.contents)
      × (g.readable ≡ f.readable)
unfolding chmod
chmod-some env disk path works f h = elim (Bool-cases env.windows) [
  | inl w ↦ (f, rw (chmod, w) h, refl, refl)
  | inr w ↦ elim (Bool-cases works) [
    | inl k ↦
        let g : FileEntry = record f { mode = key_file_permission } in
        (g, rw (chmod, w, k, h) (lookup_self path g disk), refl, refl)
    | inr k ↦ (f, rw (chmod, w, k) h, refl, refl)
  ]
]

pub write_file-written :
    (disk : Disk) (path text : Bytes) (w : Write)
    → (write_file disk path text w).0 ≡ true
    → (write_file disk path text w).1 ≡ put_file disk path text
unfolding write_file
write_file-written disk path text Write.not_opened e = cc
write_file-written disk path text (Write.written_part n) e = cc
write_file-written disk path text Write.written e = refl

module _ (j : Json) (env : Env) where
  read_disk_config-some :
      (disk : Disk) (path : Bytes) (f : FileEntry) (cfg : DiskConfig)
      → lookup path disk ≡ some f
      → f.contents ≡ j.print cfg
      → f.readable ≡ true
      → j.parse (j.print cfg) ≡ some cfg
      → read_disk_config j disk path ≡ ok cfg
  unfolding read_disk_config
  read_disk_config-some disk path f cfg h text k kept =
      rw (read_disk_config, read_file-some disk path no_keychain f h k, text, kept) refl

  pub read_disk_config-put_file :
      (disk : Disk) (path : Bytes) (cfg : DiskConfig)
      → IsReadable disk path
      → j.parse (j.print cfg) ≡ some cfg
      → read_disk_config j (put_file disk path (j.print cfg)) path ≡ ok cfg
  read_disk_config-put_file disk path cfg h kept =
      let (f, at, text, readable) = put_file-some disk path (j.print cfg) h in
      read_disk_config-some (put_file disk path (j.print cfg)) path f cfg at text readable kept

  -- A configuration that was stored is read back.
  pub read_disk_config-store_config :
      (x : Curve) (c : Aead) (disk : Disk) (path p : Bytes) (cfg : DiskConfig) (o : Outcome)
      → IsReadable disk path
      → j.parse (j.print cfg) ≡ some cfg
      → (store_config x c j env disk path cfg o).0 ≡ ok p
      → (p ≡ path) × (read_disk_config j (store_config x c j env disk path cfg o).1 path ≡ ok cfg)
  unfolding store_config
  read_disk_config-store_config x c disk path p cfg o h kept e =
      elim (Bool-cases (write_file disk path (j.print cfg) o.write).0) [
        | inr failed ↦ absurd (let f = rw (store_config, failed) at e in cc)
        | inl done ↦
            let disk1 = put_file disk path (j.print cfg) in
            let whole = write_file-written disk path (j.print cfg) o.write done in
            let (f, at, text, readable) = put_file-some disk path (j.print cfg) h in
            let (g, at1, text1, readable1) = chmod-some env disk1 path o.chmod_ok f at in
            let same : ok path ≡ ok p = rw (store_config, done) at e in
            (
              cc,
              rw (store_config, done, whole)
                  (read_disk_config-some (chmod env disk1 path o.chmod_ok) path g cfg at1
                    (text1 ∙ text) (readable1 ∙ readable) kept),
            )
      ]

-- What hexadecimal text relies on: keys, random values and ciphertexts are byte strings.
pub record GivesBytes (x : Curve) (c : Aead) (r : Random) : Type 0 where
  pub key : (passphrase salt : Bytes) → IsBytes (derive_disk_key x passphrase salt)
  pub sealed : (k n t : Bytes) → IsBytes k → IsBytes t → IsBytes (c.seal k n t)
  pub random : (s : r.Source) (n : ℕ) (bs : Bytes) → (r.read_full s n).0 ≡ some bs → IsBytes bs

pub derive_disk_key-length :
    (x : Curve) (passphrase salt : Bytes) → length (derive_disk_key x passphrase salt) ≡ 32
unfolding derive_disk_key
derive_disk_key-length x passphrase salt =
    x.length-argon2 passphrase salt 1 65536 4 32 (omega arith) (omega arith)

pub encrypted-IsAsciiConfig :
    (x : Curve) (c : Aead) (r : Random) (j : Json) (env : Env) (raw passphrase salt nonce : Bytes)
    (seen : Bool)
    → GivesBytes x c r
    → IsBytes raw
    → IsBytes salt
    → IsBytes nonce
    → IsAsciiConfig (encrypted x c j env (pair_of x raw) passphrase salt nonce seen)
unfolding encrypted pair_of IsAsciiConfig
encrypted-IsAsciiConfig x c r j env raw passphrase salt nonce seen b hr hs hn =
    let key = derive_disk_key x passphrase salt in
    (
      encode_hex-IsAscii salt hs,
      encode_hex-IsAscii nonce hn,
      encode_hex-IsAscii (c.seal key nonce raw) (b.sealed key nonce raw (b.key passphrase salt) hr),
    )

-- Decrypting what was encrypted.
pub unlock-encrypted :
    (x : Curve) (c : Aead) (r : Random) (j : Json) (env : Env) (raw passphrase salt nonce : Bytes)
    (seen : Bool)
    → GivesBytes x c r
    → length raw ≡ 32
    → IsBytes raw
    → IsBytes salt
    → IsBytes nonce
    → length nonce ≡ nonce_size
    → unlock x c j env passphrase (encrypted x c j env (pair_of x raw) passphrase salt nonce seen)
      ≡ ok (pair_of x raw)
unfolding unlock encrypted pair_of key_pair_from_raw_bytes
unlock-encrypted x c r j env raw passphrase salt nonce seen b size hr hs hn l =
    let key = derive_disk_key x passphrase salt in
    rw
      (
        decode_hex-encode_hex salt hs,
        decode_hex-encode_hex nonce hn,
        decode_hex-encode_hex (c.seal key nonce raw)
            (b.sealed key nonce raw (b.key passphrase salt) hr),
        derive_disk_key-length x passphrase salt,
        l,
        c.open-seal key nonce raw,
        size,
      )
      refl
