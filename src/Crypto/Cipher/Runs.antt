-- ===== src/Crypto/Cipher/Runs.antt =====
-- The cipher over the stand-in parameters.
use road.Base.{
  some, none, make, ◌≡◌, ◌<◌, ◌≤◌, refl, [], ◌∷◌, ◌++◌, ok, err, length, codes, Bytes, replicate,
  some, ◌⊎◌,
}
use road.Crypto.Standins.{clear_aead, counted, clear_seal, clear_open, counted_read}
use road.Crypto.Cipher.{
  plaintext_too_large, generate_padding, generate_nonce, invalid_packet_size, invalid_key_size,
  seal, open_packet, new_session, max_plaintext_size, packet_size,
}
use road.Crypto.Cipher.RoundTrip.{seal_cases}

abbrev key : Bytes
key = replicate 32 7

new_session_run : new_session key ≡ ok (record { aead = some key; key = some key })
unfolding new_session make
new_session_run = refl

new_session_short : new_session (1 ∷ 2 ∷ []) ≡ err (invalid_key_size 2)
unfolding new_session
new_session_short = refl

no_nonce : (seal clear_aead counted key (codes "hi") 1).0 ≡ err generate_nonce
unfolding seal counted_read clear_seal
no_nonce = refl

open_short : open_packet clear_aead key (codes "hi") ≡ err (invalid_packet_size 2)
unfolding open_packet
open_short = refl

seal_cases_example :
    let result = (seal clear_aead counted key (codes "hi") 9).0 in
    let (padding, s1) = counted.read_full 9 4064 in
    let nonce = (counted.read_full s1 12).0 in
    ((max_plaintext_size < 2) × (result ≡ err (plaintext_too_large 2)))
    ⊎ ((2 ≤ max_plaintext_size)
        × (((padding ≡ none) × (result ≡ err generate_padding))
            ⊎ ((pad : Bytes) × (padding ≡ some pad)
                × (((nonce ≡ none) × (result ≡ err generate_nonce))
                    ⊎ ((n : Bytes) × (nonce ≡ some n)
                        × ((packet : Bytes) × (result ≡ ok packet)
                            × (length packet ≡ packet_size)
                            × (open_packet clear_aead key packet ≡ ok (codes "hi"))))))))
seal_cases_example = seal_cases clear_aead counted key (codes "hi") 9

abbrev small_packet : Bytes
small_packet = replicate 12 1 ++ (0 ∷ 2 ∷ (codes "hi" ++ (replicate 4064 0 ++ replicate 16 7)))

small_packet_opens : open_packet clear_aead key small_packet ≡ ok (codes "hi")
unfolding open_packet clear_open make
small_packet_opens = refl
