-- ===== src/Crypto/Keys.antt =====
-- internal/crypto/keys.go: key pairs, and the encrypted key file. X25519, HKDF, Argon2id, JSON and
-- the file system are parameters with their documented behaviour.
pub mod Agreement
pub mod Disk
pub mod Store
pub mod Standins
mod Runs
use road.Base.{
  ℕ, ◌*◌, ◌≤◌, ◌≡◌, List, [], ◌∷◌, ◌++◌, Option, none, some, Bool, true, false, not, ◌==◌,
  if◌then◌else◌, Bytes, IsBytes, codes, length, make, copy_at, Result, ok, err, ◌>>=◌, ◌>>◌,
  fail_if, map_err,
}
use road.Crypto.Base58.{encode_base58, decode_base58}
use road.Crypto.Base58
use road.Crypto.Cipher.{Random}

abbrev pub private_key_size : ℕ
private_key_size = 32

abbrev pub public_key_size : ℕ
public_key_size = 32

-- crypto/ecdh's X25519 and golang.org/x/crypto's key derivations: the shared secret is the same from
-- both sides, and what is derived has the length that was asked for.
pub record Curve : Type 0 where
  pub public_key : Bytes → Bytes
  -- `none` where the shared secret is all zeros.
  pub shared : Bytes → Bytes → Option Bytes
  pub hkdf : Bytes → Bytes → ℕ → Bytes
  pub argon2 : Bytes → Bytes → ℕ → ℕ → ℕ → ℕ → Bytes
  pub length-public_key : (raw : Bytes) → length (public_key raw) ≡ 32
  pub shared_comm :
      (a b : Bytes)
      → length a ≡ 32
      → length b ≡ 32
      → shared a (public_key b) ≡ shared b (public_key a)
  -- HKDF-SHA256 gives at most 255 blocks of 32 bytes.
  pub length-hkdf : (secret info : Bytes) (n : ℕ) → n ≤ 255 * 32 → length (hkdf secret info n) ≡ n
  pub length-argon2 :
      (pass salt : Bytes) (time memory threads n : ℕ)
      → 1 ≤ time
      → 1 ≤ threads
      → length (argon2 pass salt time memory threads n) ≡ n

pub data Error : Type 0 where
  generate_key : Error
  invalid_private_key : ℕ → Error
  parse_peer_key : Error
  ecdh_computation : Error
  decode_public_key : Base58.Error → Error
  invalid_public_key : ℕ → Error
  no_home : Error
  create_config_dir : Error
  generate_salt : Error
  generate_nonce : Error
  init_aead : Error
  write_config : Error
  no_keychain : Error
  read_config : Error
  parse_config : Error
  wrong_passphrase : Error
  -- No error of the source: the AEAD panics at a nonce of the wrong length.
  nonce_panic : Error
  key_file_not_found : Error
  insecure_permissions : Error

pub record KeyPair : Type 0 where
  pub private_key : Bytes
  pub public_key : Bytes

-- What reading a file or a random source gives, with the error for its failure.
abbrev pub or_error {ℓ} : {A : Type ℓ} → Option A → Error → Result Error A
or_error none e = err e
or_error (some a) e = ok a

module _ (x : Curve) where
  unfoldable pub pair_of : Bytes → KeyPair
  pair_of raw = record { private_key = raw; public_key = x.public_key raw }

  unfoldable pub generate_key_pair : (r : Random) → r.Source → Result Error KeyPair × r.Source
  unfolding pair_of
  generate_key_pair r s =
      let (raw, s1) = r.read_full s private_key_size in
      (or_error raw generate_key >>= (λ k. ok (pair_of k)), s1)

  unfoldable pub key_pair_from_raw_bytes : Bytes → Result Error KeyPair
  unfolding pair_of
  key_pair_from_raw_bytes raw =
      if not (length raw == private_key_size)
      then err (invalid_private_key (length raw))
      else ok (pair_of raw)

  unfoldable pub derive_session_key : Bytes → Bytes
  derive_session_key secret = x.hkdf secret (codes "road-1337-chacha20-session-key-v1") 32

  unfoldable pub derive_disk_key : Bytes → Bytes → Bytes
  derive_disk_key passphrase salt = x.argon2 passphrase salt 1 (64 * 1024) 4 32

  unfoldable pub ecdh : KeyPair → Bytes → Result Error Bytes
  unfolding derive_session_key
  ecdh kp their_public_key = do
    fail_if (not (length their_public_key == public_key_size)) parse_peer_key
    secret ← or_error (x.shared kp.private_key their_public_key) ecdh_computation
    ok (derive_session_key secret)

unfoldable pub public_key_base58 : KeyPair → Bytes
public_key_base58 kp = encode_base58 kp.public_key

unfoldable pub public_key_hash : (Bytes → Bytes) → KeyPair → Bytes
public_key_hash sha256 kp = sha256 kp.public_key

unfoldable pub public_key_bytes : KeyPair → Bytes
public_key_bytes kp = copy_at (make public_key_size) 0 kp.public_key

unfoldable pub public_key_from_base58 : Bytes → Result Error Bytes
public_key_from_base58 s = do
  raw ← map_err decode_public_key (decode_base58 s)
  fail_if (not (length raw == public_key_size)) (invalid_public_key (length raw))
  ok raw

-- A pair of nil pointers is `none`. What is cleared is the array that `privateKey.Bytes()` returns,
-- which crypto/ecdh documents as a copy; the key object itself is only let go.
unfoldable pub zeroize : Option KeyPair → Option Bytes × Option KeyPair
zeroize none = (none, none)
zeroize (some kp) = (some (make (length kp.private_key)), none)
