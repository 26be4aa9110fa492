-- ===== src/Crypto/Cipher/RoundTrip.antt =====
-- internal/crypto/cipher.go, packets: their size, and that opening inverts sealing.
use road.Base.{
  Option, true, false, ◌+◌, ◌-◌, ◌%◌, ◌^◌, ◌≤◌, ◌<◌, ◌≡◌, refl, ap, ◌∙◌, ok, err, arith, length,
  Bytes, ◌++◌, inl, inr, ◌⊎◌, some, none, make, length-make, copy_at, copy_at_two, copy_at_three,
  copy_at_full, be16, uint16_at, take, drop, length-append, length-take, length-drop, take_append,
  drop_append, ltb, ltb-false, ltb→lt, ltb→le, Bool-cases, Option-cases,
}
use road.Crypto.Cipher.{
  Aead, Random, plaintext_too_large, generate_padding, generate_nonce, inner_size, nonce_size,
  packet_size, max_plaintext_size, inner_block, wire_packet, seal, unpad, open_packet,
}

-- Length, plaintext, padding: with padding of the length that is asked for, 4068 bytes.
inner_block_lem :
    (plaintext padding : Bytes)
    → length plaintext ≤ 4066
    → length padding ≡ 4068 - (2 + length plaintext)
    → inner_block plaintext padding ≡ be16 (length plaintext) ++ (plaintext ++ padding)
unfolding inner_block
inner_block_lem plaintext padding h k =
    let n = length plaintext in
    let e : n % 2 ^ 16 ≡ n = omega arith in
    ap (λ m. copy_at (copy_at (copy_at (make inner_size) 0 (be16 m)) 2 plaintext) (2 + n) padding) e
    ∙ copy_at_three (make inner_size) (be16 n) plaintext padding 2 n refl refl
        (omega (arith, length-make 4068))

length-inner_block :
    (plaintext padding : Bytes)
    → length plaintext ≤ 4066
    → length padding ≡ 4068 - (2 + length plaintext)
    → length (inner_block plaintext padding) ≡ inner_size
length-inner_block plaintext padding h k =
    rw (inner_block_lem plaintext padding h k) (omega (arith, length-append {0} plaintext padding))

pub unpad_ok :
    (inner : Bytes)
    → 2 + uint16_at inner 0 ≤ length inner
    → unpad inner ≡ ok (take (uint16_at inner 0) (drop 2 inner))
unfolding unpad
unpad_ok inner h =
    let n = uint16_at inner 0 in
    let e : 2 + n - 2 ≡ n = omega arith in
    let t = take n (drop 2 inner) in
    rw (ltb-false (length inner) 2 (omega arith), ltb-false (length inner - 2) n (omega arith), e)
      (ap ok (
        copy_at_full (make n) t
          (omega (arith, length-make n, length-take n (drop 2 inner), length-drop 2 inner))))

-- The checks and the copy of `open_packet` undo the padding.
unpad-inner_block :
    (plaintext padding : Bytes)
    → length plaintext ≤ 4066
    → length padding ≡ 4068 - (2 + length plaintext)
    → unpad (inner_block plaintext padding) ≡ ok plaintext
unpad-inner_block plaintext padding h k =
    let n = length plaintext in
    let inner : Bytes = be16 n ++ (plaintext ++ padding) in
    let e : uint16_at inner 0 ≡ n = omega arith in
    ap unpad (inner_block_lem plaintext padding h k)
    ∙ unpad_ok inner (omega (arith, e, length-append plaintext padding))
    ∙ ap (λ m. ok (take m (plaintext ++ padding))) e
    ∙ ap ok (take_append plaintext padding n refl)

wire_packet_lem :
    (nonce ciphertext : Bytes)
    → length nonce ≡ 12
    → length ciphertext ≡ 4084
    → wire_packet nonce ciphertext ≡ nonce ++ ciphertext
unfolding wire_packet
wire_packet_lem nonce ciphertext h k =
    copy_at_two (make packet_size) nonce ciphertext h (omega (arith, length-make 4096))

pub open_packet_step :
    (c : Aead) (key packet inner : Bytes)
    → length packet ≡ 4096
    → c.open_sealed key (take 12 packet) (drop 12 packet) ≡ some inner
    → open_packet c key packet ≡ unpad inner
unfolding open_packet
open_packet_step c key packet inner h e = ground arith

open_packet-wire_packet :
    (c : Aead) (key nonce plaintext padding : Bytes)
    → length plaintext ≤ 4066
    → length padding ≡ 4068 - (2 + length plaintext)
    → length nonce ≡ 12
    → let packet = wire_packet nonce (c.seal key nonce (inner_block plaintext padding)) in
      (length packet ≡ packet_size) × (open_packet c key packet ≡ ok plaintext)
open_packet-wire_packet c key nonce plaintext padding h k m =
    let inner = inner_block plaintext padding in
    let sealed = c.seal key nonce inner in
    let l : length sealed ≡ 4084 =
      omega (arith, c.length-seal key nonce inner, length-inner_block plaintext padding h k) in
    let total : length (nonce ++ sealed) ≡ 4096 = omega (arith, length-append nonce sealed) in
    rw (wire_packet_lem nonce sealed m l) (
      total,
      open_packet_step c key (nonce ++ sealed) inner total (
            rw (take_append nonce sealed 12 m, drop_append nonce sealed 12 m)
              (c.open-seal key nonce inner))
          ∙ unpad-inner_block plaintext padding h k,
    )

-- The branches of `seal`, by its reads of the random source.
module _ (c : Aead) (r : Random) (key plaintext : Bytes) (s : r.Source) where
  pad_read : Option Bytes × r.Source
  pad_read = r.read_full s (inner_size - (2 + length plaintext))

  nonce_read : Option Bytes × r.Source
  unfolding pad_read
  nonce_read = r.read_full pad_read.1 nonce_size

  seal_long :
      ltb 4066 (length plaintext) ≡ true
      → (seal c r key plaintext s).0 ≡ err (plaintext_too_large (length plaintext))
  unfolding seal
  seal_long h = rw h

  seal_no_padding :
      ltb 4066 (length plaintext) ≡ false
      → pad_read.0 ≡ none
      → (seal c r key plaintext s).0 ≡ err generate_padding
  unfolding seal pad_read
  seal_no_padding h e = rw (h, e)

  seal_no_nonce :
      (pad : Bytes)
      → ltb 4066 (length plaintext) ≡ false
      → pad_read.0 ≡ some pad
      → nonce_read.0 ≡ none
      → (seal c r key plaintext s).0 ≡ err generate_nonce
  unfolding seal nonce_read
  seal_no_nonce pad h e f = rw (h, e, f)

  seal_done :
      (pad nonce : Bytes)
      → ltb 4066 (length plaintext) ≡ false
      → pad_read.0 ≡ some pad
      → nonce_read.0 ≡ some nonce
      → (seal c r key plaintext s).0
        ≡ ok (wire_packet nonce (c.seal key nonce (inner_block plaintext pad)))
  unfolding nonce_read
  seal_done pad nonce h e f = unfold seal in rw (h, e, f)

  pad_read-length :
      (pad : Bytes) → pad_read.0 ≡ some pad → length pad ≡ 4068 - (2 + length plaintext)
  unfolding pad_read
  pad_read-length pad e = r.length-read_full s _ pad e

  nonce_read-length : (nonce : Bytes) → nonce_read.0 ≡ some nonce → length nonce ≡ 12
  unfolding nonce_read
  nonce_read-length nonce e = r.length-read_full _ _ nonce e

-- Sealing refuses a plaintext of more than 4066 bytes. Any other plaintext it pads with as many bytes
-- as bring the block to 4068: if reading these fails, or reading the nonce of twelve bytes after
-- them, it fails with this error; and if both reads succeed it makes a packet of exactly 4096 bytes,
-- and opening that under the same key gives the plaintext back.
pub seal_cases :
    (c : Aead) (r : Random) (key plaintext : Bytes) (s : r.Source)
    → let result = (seal c r key plaintext s).0 in
      let (padding, s1) = r.read_full s (inner_size - (2 + length plaintext)) in
      let nonce = (r.read_full s1 nonce_size).0 in
      ((max_plaintext_size < length plaintext)
        × (result ≡ err (plaintext_too_large (length plaintext))))
      ⊎ ((length plaintext ≤ max_plaintext_size)
          × (((padding ≡ none) × (result ≡ err generate_padding))
              ⊎ ((pad : Bytes) × (padding ≡ some pad)
                  × (((nonce ≡ none) × (result ≡ err generate_nonce))
                      ⊎ ((n : Bytes) × (nonce ≡ some n)
                          × ((packet : Bytes) × (result ≡ ok packet)
                              × (length packet ≡ packet_size)
                              × (open_packet c key packet ≡ ok plaintext)))))))
unfolding pad_read nonce_read
seal_cases c r key plaintext s = elim (Bool-cases (ltb 4066 (length plaintext))) [
  | inl long ↦ inl (ltb→lt _ _ long, seal_long c r key plaintext s long)
  | inr short ↦
      let fits = ltb→le _ _ short in
      inr (
        fits,
        elim (Option-cases (pad_read c r key plaintext s).0) [
          | inl e ↦ inl (e, seal_no_padding c r key plaintext s short e)
          | inr (pad, e) ↦ inr (
            pad,
            e,
            elim (Option-cases (nonce_read c r key plaintext s).0) [
              | inl f ↦ inl (f, seal_no_nonce c r key plaintext s pad short e f)
              | inr (nonce, f) ↦
                  let (size, opened) =
                    open_packet-wire_packet c key nonce plaintext pad fits
                      (pad_read-length c r key plaintext s pad e)
                      (nonce_read-length c r key plaintext s nonce f) in
                  inr
                    (nonce, f, (_, seal_done c r key plaintext s pad nonce short e f, size, opened))
            ],
          )
        ],
      )
]
