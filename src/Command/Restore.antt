-- ===== src/Command/Restore.antt =====
-- cmd/road-1337/main.go: restore-key gives back the key pair of the private key that is typed.
use road.Base.{
  ◌≡◌, ap, ◌∙◌, List, [], ◌∷◌, ◌++◌, Result-cases, Bool-cases, inl, inr, ok, Bytes, IsBytes, length,
  bytes_eq,
}
use road.Crypto.Base58.{encode_base58, decode_base58}
use road.Crypto.Base58.RoundTrip.{decode_base58-encode_base58}
use road.Crypto.Keys.{pair_of, key_pair_from_raw_bytes, public_key_base58}
use road.Crypto.Keys.Disk.{default_config_path}
use road.Crypto.Keys.Store.{Outcome}
use road.Crypto.Keys.Store.Stored.{IsReadable, GivesBytes}
use road.Crypto.Keys.Store.Reload.{load_key_pair_from_disk_encrypted-save_private_key_encrypted}
use road.Command.{
  Host, World, Line, finished, public_key, keychain_restored, typing, read_hidden_input, store_keys,
  cmd_restore_key,
}
use road.Command.Keychain.{load, store_keys-ok}

module _ (h : Host) where
  -- The Base58 form of a private key of 32 bytes, with or without what trimming takes away, and a
  -- passphrase typed twice: when restore-key succeeds, the key file opens with the passphrase to the
  -- key pair of that very private key, and the last line shows its public key. A key file that was
  -- there before can be read, and what the host computes are byte strings.
  pub cmd_restore_key-loads :
      (w : World h) (o : Outcome) (input raw p1 p2 : Bytes)
      → GivesBytes h.curve h.aead h.random
      → ((path : Bytes) → default_config_path h.env ≡ ok path → IsReadable w.disk path)
      → h.trim input ≡ encode_base58 raw
      → length raw ≡ 32
      → IsBytes raw
      → let out = cmd_restore_key h (typing h w (input ∷ p1 ∷ p2 ∷ [])) o in
        out.0 ≡ ok finished
        → (load h out.1.disk (h.trim p1) ≡ ok (pair_of h.curve raw))
          × ((before : List Line) × (out.1.shown
                ≡ before ++ (public_key (public_key_base58 (pair_of h.curve raw)) ∷ [])))
  unfolding cmd_restore_key read_hidden_input key_pair_from_raw_bytes
  cmd_restore_key-loads w o input raw p1 p2 gives readable typed size bytes e =
      let kp = pair_of h.curve raw in
      let decoded : decode_base58 (h.trim input) ≡ ok raw =
        ap decode_base58 typed ∙ decode_base58-encode_base58 raw bytes in
      let w1 = typing h w (p1 ∷ p2 ∷ []) in
      let out = store_keys h w1 kp o keychain_restored in
      elim (Bool-cases (bytes_eq (h.trim input) [])) [
        | inl f ↦ absurd (let g = rw (cmd_restore_key, f) at e in cc)
        | inr f ↦ elim (Result-cases out.0) [
          | inr (x, g) ↦ absurd (let k = rw (cmd_restore_key, f, decoded, size, g) at e in cc)
          | inl (path, g) ↦
              let had = store_keys-ok h w kp o keychain_restored p1 p2 path g in
              let reload =
                load_key_pair_from_disk_encrypted-save_private_key_encrypted h.curve h.aead h.json
                  h.env h.random w.disk w.source raw (h.trim p1) o gives size bytes path readable
                  had.saved in
              rw (cmd_restore_key, f, decoded, size, g)
                (
                  ap (λ d. load h d (h.trim p1)) had.on_disk ∙ reload.0,
                  (w.shown ++ (keychain_restored path ∷ []), had.said),
                )
        ]
      ]
