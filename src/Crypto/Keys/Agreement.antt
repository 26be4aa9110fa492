-- ===== src/Crypto/Keys/Agreement.antt =====
-- internal/crypto/keys.go: the session key that two peers derive.
use road.Base.{◌≡◌, refl, Bool-cases, Option-cases, inl, inr, ok, Bytes, length, arith, ◌==◌}
use road.Crypto.Keys.{Curve, KeyPair, pair_of, ecdh, derive_session_key, public_key_size}

-- A session key has 32 bytes.
pub ecdh-length :
    (x : Curve) (kp : KeyPair) (theirs key : Bytes) → ecdh x kp theirs ≡ ok key → length key ≡ 32
unfolding ecdh derive_session_key
ecdh-length x kp theirs key e = elim (Bool-cases (length theirs == public_key_size)) [
  | inr h ↦ absurd (let f = rw (ecdh, h) at e in cc)
  | inl h ↦ elim (Option-cases (x.shared kp.private_key theirs)) [
    | inl f ↦ absurd (let g = rw (ecdh, h, f) at e in cc)
    | inr (secret, f) ↦
        let g : ok (derive_session_key x secret) ≡ ok key = rw (ecdh, h, f) at e in
        let k : derive_session_key x secret ≡ key = cc in
        rw (← k) (x.length-hkdf secret _ 32 (omega arith))
  ]
]

-- Two key pairs, each from a private key of 32 bytes, derive the same session key from each other's
-- public key, or fail for the same reason.
pub ecdh_comm :
    (x : Curve) (a b : Bytes)
    → length a ≡ 32
    → length b ≡ 32
    → ecdh x (pair_of x a) (pair_of x b).public_key ≡ ecdh x (pair_of x b) (pair_of x a).public_key
unfolding ecdh pair_of
ecdh_comm x a b ha hb =
    rw (x.length-public_key a, x.length-public_key b, x.shared_comm a b ha hb) refl
