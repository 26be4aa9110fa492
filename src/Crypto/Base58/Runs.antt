-- ===== src/Crypto/Base58/Runs.antt =====
-- Base58 at concrete inputs.
use road.Base.{ℕ, ◌≡◌, refl, [], ◌∷◌, Bytes, codes, ok, err, arith, IsBytes, All, ◌⊎◌, ◌++◌, length}
use road.Crypto.Base58.{invalid_character, encode_base58, decode_base58}
use road.Crypto.Base58.Alphabet.{InAlphabet}
use road.Crypto.Base58.RoundTrip.{
  decode_base58-encode_base58, encode_base58-decode_base58, decode_base58_cases,
}

encode_run : encode_base58 (0 ∷ 0 ∷ 1 ∷ 0 ∷ []) ≡ codes "115R"
unfolding encode_base58
encode_run = refl

decode_run : decode_base58 (codes "115R") ≡ ok (0 ∷ 0 ∷ 1 ∷ 0 ∷ [])
unfolding decode_base58
decode_run = refl

-- Zero, capital O, capital I and small l are no letters.
decode_refused : decode_base58 (codes "1aO2") ≡ err (invalid_character b'O' 2)
unfolding decode_base58
decode_refused = refl

decode_base58-encode_base58_example :
    decode_base58 (encode_base58 (0 ∷ 255 ∷ 7 ∷ [])) ≡ ok (0 ∷ 255 ∷ 7 ∷ [])
decode_base58-encode_base58_example = decode_base58-encode_base58 (0 ∷ 255 ∷ 7 ∷ []) (omega arith)

encode_base58-decode_base58_example :
    (encode_base58 (0 ∷ 0 ∷ 1 ∷ 0 ∷ []) ≡ codes "115R") × IsBytes (0 ∷ 0 ∷ 1 ∷ 0 ∷ [])
encode_base58-decode_base58_example =
    encode_base58-decode_base58 (codes "115R") (0 ∷ 0 ∷ 1 ∷ 0 ∷ []) decode_run

abbrev mistyped : Bytes
mistyped = codes "1aO2"

decode_base58_cases_example :
    (All InAlphabet mistyped × ((bs : Bytes) × (decode_base58 mistyped ≡ ok bs)))
    ⊎ ((front : Bytes) × (ch : ℕ) × (back : Bytes) × (mistyped ≡ front ++ (ch ∷ back))
        × All InAlphabet front
        × ¬ InAlphabet ch
        × (decode_base58 mistyped ≡ err (invalid_character ch (length front))))
decode_base58_cases_example = decode_base58_cases mistyped
