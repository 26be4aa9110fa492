-- ===== src/Protocol/Handshake.antt =====
-- internal/protocol/protocol.go: the 65 unencrypted bytes that open a session.
use road.Base.{
  Bool-cases, ltb, ltb→lt, ltb→le, take_two, ℕ, ◌≤◌, ◌<◌, ◌≡◌, refl, ap, ◌∙◌, arith, [], ◌∷◌, ◌++◌,
  ok, err, Bytes, length, drop, take, replicate, length-append, copy_at_full, ◌⊎◌, inl, inr,
  take_append, drop_append, length-take, length-drop, copy_at_two,
}
use mathlib.Core.List.{append_assoc}
use road.Protocol.{
  HandshakePayload, handshake_too_short, encode_handshake, decode_handshake, handshake_payload_size,
}

-- The two arrays are [32]byte in the source.
pub record IsSized (h : HandshakePayload) : Type 0 where
  pub key_32 : length h.sender_pub_key ≡ 32
  pub hash_32 : length h.recipient_key_hash ≡ 32

pub encode_handshake_lem :
    (h : HandshakePayload)
    → IsSized h
    → encode_handshake h ≡ h.version ∷ h.sender_pub_key ++ h.recipient_key_hash
unfolding encode_handshake
encode_handshake_lem h s =
    ap (◌∷◌ h.version)
      (copy_at_two (replicate 64 0) h.sender_pub_key h.recipient_key_hash s.key_32 (omega arith))

decode_handshake_long :
    (v : ℕ) (rest : Bytes)
    → 64 ≤ length rest
    → decode_handshake (v ∷ rest)
      ≡ ok (record {
        version = v;
        sender_pub_key = take 32 rest;
        recipient_key_hash = take 32 (drop 32 rest);
      })
unfolding decode_handshake
decode_handshake_long v rest h = ground (
  arith,
  copy_at_full (replicate 32 0) (take 32 rest) (omega (arith, length-take 32 rest)),
  copy_at_full (replicate 32 0) (take 32 (drop 32 rest))
      (omega (arith, length-take 32 (drop 32 rest), length-drop 32 rest)),
)

-- A handshake takes 65 bytes, and is read back, whatever follows it.
pub decode_handshake-encode_handshake :
    (h : HandshakePayload) (rest : Bytes)
    → IsSized h
    → (length (encode_handshake h) ≡ handshake_payload_size)
      × (decode_handshake (encode_handshake h ++ rest) ≡ ok h)
decode_handshake-encode_handshake h rest s =
    let key = h.sender_pub_key in
    let hash = h.recipient_key_hash in
    rw (encode_handshake_lem h s, append_assoc)
      (
        omega (arith, length-append {0} key hash),
        decode_handshake_long h.version (key ++ (hash ++ rest)) (
              omega (
                arith,
                length-append {0} key (hash ++ rest),
                length-append {0} hash rest,
                s.key_32,
                s.hash_32,
              ))
            ∙ rw (
              take_append key (hash ++ rest) 32 s.key_32,
              drop_append key (hash ++ rest) 32 s.key_32,
              take_append hash rest 32 s.hash_32,
            ),
      )

-- Fewer than 65 bytes are refused; otherwise the decoded handshake has arrays of 32 bytes, and
-- encoding it gives the first 65 bytes back.
pub decode_handshake_cases :
    (bytes : Bytes)
    → ((length bytes < 65) × (decode_handshake bytes ≡ err (handshake_too_short (length bytes) 65)))
      ⊎ ((h : HandshakePayload) × (decode_handshake bytes ≡ ok h)
          × IsSized h
          × (encode_handshake h ≡ take 65 bytes))
decode_handshake_cases [] = inl (omega arith, unfold decode_handshake in refl)
decode_handshake_cases (v ∷ rest) = elim (Bool-cases (ltb (length (v ∷ rest)) 65)) [
  | inl short ↦ inl (ltb→lt _ _ short, unfold decode_handshake in rw short)
  | inr long ↦
      let l : 64 ≤ length rest = omega (arith, ltb→le _ _ long) in
      let k : length (take 32 rest) ≡ 32 = omega (arith, length-take 32 rest) in
      let m : length (take 32 (drop 32 rest)) ≡ 32 =
        omega (arith, length-take 32 (drop 32 rest), length-drop 32 rest) in
      let h : HandshakePayload = record {
        version = v;
        sender_pub_key = take 32 rest;
        recipient_key_hash = take 32 (drop 32 rest);
      } in
      let s : IsSized h = record { key_32 = k; hash_32 = m } in
      inr (
        h,
        decode_handshake_long v rest l,
        s,
        encode_handshake_lem h s ∙ ap (◌∷◌ v) (take_two 32 32 rest),
      )
]
