-- ===== src/Crypto/Cipher/Opening.antt =====
-- internal/crypto/cipher.go: what a packet that opens looks like.
use road.Base.{
  ◌≢◌, true, false, ◌+◌, ◌-◌, ◌≤◌, ◌≡◌, sym, ap, ◌∙◌, ok, err, arith, length, Bytes, inl, inr, some,
  none, uint16_at, take, drop, length-take, length-drop, ltb, ltb→le, Bool-cases, Option-cases,
  ◌==◌, ==_iff,
}
use road.Crypto.Cipher.{
  inner_too_short, corrupted_length, Aead, nonce_size, packet_size, unpad, open_packet,
}
use road.Crypto.Cipher.RoundTrip.{open_packet_step, unpad_ok}

unpad_short : (inner : Bytes) → ltb (length inner) 2 ≡ true → unpad inner ≡ err inner_too_short
unfolding unpad
unpad_short inner h = rw h

unpad_corrupt :
    (inner : Bytes)
    → ltb (length inner) 2 ≡ false
    → ltb (length inner - 2) (uint16_at inner 0) ≡ true
    → unpad inner ≡ err (corrupted_length (uint16_at inner 0) (length inner - 2))
unfolding unpad
unpad_corrupt inner h k = rw (h, k)

unpad_sound :
    (inner plaintext : Bytes)
    → unpad inner ≡ ok plaintext
    → (2 + length plaintext ≤ length inner)
      × (length plaintext ≡ uint16_at inner 0)
      × (plaintext ≡ take (length plaintext) (drop 2 inner))
unpad_sound inner plaintext e = elim (Bool-cases (ltb (length inner) 2)) [
  | inl short ↦ let f : ok plaintext ≡ err inner_too_short = sym e ∙ unpad_short inner short in cc
  | inr h ↦ elim (Bool-cases (ltb (length inner - 2) (uint16_at inner 0))) [
    | inl corrupt ↦ let f = sym e ∙ unpad_corrupt inner h corrupt in cc
    | inr fits ↦
        let n = uint16_at inner 0 in
        let t = take n (drop 2 inner) in
        let b : 2 + n ≤ length inner = omega (arith, ltb→le _ _ h, ltb→le _ _ fits) in
        let f : ok plaintext ≡ ok t = sym e ∙ unpad_ok inner b in
        let g : plaintext ≡ t = cc in
        let l : length plaintext ≡ n =
          ap length g ∙ omega (arith, length-take n (drop 2 inner), length-drop 2 inner) in
        (omega arith, l, g ∙ ap (λ k. take k (drop 2 inner)) (sym l))
  ]
]

open_packet_refused :
    (c : Aead) (key packet plaintext : Bytes)
    → (length packet == 4096) ≡ false
    → open_packet c key packet ≢ ok plaintext
unfolding open_packet
open_packet_refused c key packet plaintext h e = ground arith

open_packet_forged :
    (c : Aead) (key packet plaintext : Bytes)
    → c.open_sealed key (take 12 packet) (drop 12 packet) ≡ none
    → open_packet c key packet ≢ ok plaintext
unfolding open_packet
open_packet_forged c key packet plaintext h e = ground arith

-- What opens is a packet of 4096 bytes whose block the AEAD accepts, and the result is the part of
-- the block that its length prefix names.
pub open_packet_sound :
    (c : Aead) (key packet plaintext : Bytes)
    → open_packet c key packet ≡ ok plaintext
    → (length packet ≡ packet_size)
      × ((inner : Bytes) × (c.open_sealed key (take nonce_size packet) (drop nonce_size packet)
            ≡ some inner)
          × (2 + length plaintext ≤ length inner)
          × (length plaintext ≡ uint16_at inner 0)
          × (plaintext ≡ take (length plaintext) (drop 2 inner)))
open_packet_sound c key packet plaintext e = elim (Bool-cases (length packet == 4096)) [
  | inr wrong ↦ absurd (open_packet_refused c key packet plaintext wrong e)
  | inl size ↦
      let l : length packet ≡ 4096 = (==_iff _ _).0 size in
      elim (Option-cases (c.open_sealed key (take 12 packet) (drop 12 packet))) [
        | inl forged ↦ absurd (open_packet_forged c key packet plaintext forged e)
        | inr (inner, opened) ↦
            let (fits, n, t) =
              unpad_sound inner plaintext
                (sym (open_packet_step c key packet inner l opened) ∙ e) in
            (l, (inner, opened, fits, n, t))
      ]
]
