-- ===== src/Crypto/Cipher.antt =====
-- internal/crypto/cipher.go: packets of one size. ChaCha20-Poly1305 and the random source are
-- parameters; what the code relies on of them is their interface.
pub mod RoundTrip
pub mod Opening
mod Runs
use road.Base.{
  ℕ, ◌+◌, ◌-◌, ◌%◌, ◌^◌, ◌≡◌, List, [], ◌∷◌, Option, none, some, ltb, ◌==◌, not, if◌then◌else◌,
  Result, ok, err, ◌>>=◌, ◌>>◌, fail_if, Bytes, length, drop, take, slice, make, copy_at, be16,
  uint16_at,
}

abbrev pub packet_size : ℕ
packet_size = 4096

abbrev pub nonce_size : ℕ
nonce_size = 12

abbrev pub tag_size : ℕ
tag_size = 16

abbrev pub inner_size : ℕ
inner_size = packet_size - nonce_size - tag_size

abbrev pub max_plaintext_size : ℕ
max_plaintext_size = inner_size - 2

abbrev pub key_size : ℕ
key_size = 32

-- golang.org/x/crypto/chacha20poly1305, without additional data: the ciphertext carries a tag of
-- sixteen bytes, and opening what was sealed under the same key and nonce gives it back.
pub record Aead : Type 0 where
  pub seal : Bytes → Bytes → Bytes → Bytes
  pub open_sealed : Bytes → Bytes → Bytes → Option Bytes
  pub length-seal : (key nonce text : Bytes) → length (seal key nonce text) ≡ length text + tag_size
  pub open-seal : (key nonce text : Bytes) → open_sealed key nonce (seal key nonce text) ≡ some text

-- `io.ReadFull(rand.Reader, buf)`: as many bytes as were asked for, or an error.
pub record Random : Type 1 where
  pub Source : Type 0
  pub read_full : Source → ℕ → Option Bytes × Source
  pub length-read_full :
      (s : Source) (n : ℕ) (bs : Bytes) → (read_full s n).0 ≡ some bs → length bs ≡ n

pub data Error : Type 0 where
  invalid_key_size : ℕ → Error
  plaintext_too_large : ℕ → Error
  generate_padding : Error
  generate_nonce : Error
  invalid_packet_size : ℕ → Error
  authentication_failed : Error
  inner_too_short : Error
  corrupted_length : ℕ → ℕ → Error

-- The AEAD instance is determined by its key; both are gone after `zeroize`.
pub record Session : Type 0 where
  pub aead : Option Bytes
  pub key : Option Bytes

unfoldable pub new_session : Bytes → Result Error Session
new_session key =
    if not (length key == key_size)
    then err (invalid_key_size (length key))
    else ok (record { aead = some key; key = some (copy_at (make (length key)) 0 key) })

-- The key array as `clear` leaves it, and the session without it.
unfoldable pub zeroize : Session → Option Bytes × Session
zeroize s = (
  elim s.key [ none ↦ none | some key ↦ some (make (length key)) ],
  record { aead = none; key = none },
)

-- The block that is encrypted: length, plaintext, and padding up to the end.
unfoldable pub inner_block : Bytes → Bytes → Bytes
inner_block plaintext padding =
    let inner = copy_at (make inner_size) 0 (be16 (length plaintext % 2 ^ 16)) in
    let filled = copy_at inner 2 plaintext in copy_at filled (2 + length plaintext) padding

unfoldable pub wire_packet : Bytes → Bytes → Bytes
wire_packet nonce ciphertext = copy_at (copy_at (make packet_size) 0 nonce) nonce_size ciphertext

abbrev or_fail : Option Bytes → Error → Result Error Bytes
or_fail none e = err e
or_fail (some bs) e = ok bs

module _ (c : Aead) (r : Random) where
  -- Encryption under the key of the session's AEAD instance.
  unfoldable pub seal : Bytes → Bytes → r.Source → Result Error Bytes × r.Source
  unfolding inner_block wire_packet
  seal key plaintext s =
      if ltb max_plaintext_size (length plaintext)
      then (err (plaintext_too_large (length plaintext)), s)
      else let (padding, s1) = r.read_full s (inner_size - (2 + length plaintext)) in
        elim padding [
          | none ↦ (err generate_padding, s1)
          | some pad ↦
              let (nonce, s2) = r.read_full s1 nonce_size in
              elim nonce [
                | none ↦ (err generate_nonce, s2)
                | some n ↦ (ok (wire_packet n (c.seal key n (inner_block plaintext pad))), s2)
              ]
        ]

-- The checks on the decrypted block, and the plaintext in it.
unfoldable pub unpad : Bytes → Result Error Bytes
unpad inner =
    let orig_len = uint16_at inner 0 in
    if ltb (length inner) 2
    then err inner_too_short
    else if ltb (length inner - 2) orig_len
    then err (corrupted_length orig_len (length inner - 2))
    else ok (copy_at (make orig_len) 0 (slice inner 2 (2 + orig_len)))

unfoldable pub open_packet : Aead → Bytes → Bytes → Result Error Bytes
unfolding unpad
open_packet c key packet = do
  fail_if (not (length packet == packet_size)) (invalid_packet_size (length packet))
  inner ←
      or_fail (c.open_sealed key (take nonce_size packet) (drop nonce_size packet))
        authentication_failed
  unpad inner
