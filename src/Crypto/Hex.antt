-- ===== src/Crypto/Hex.antt =====
-- encoding/hex as internal/crypto/keys.go uses it: two lower-case digits for each byte.
use road.Base.{
  ℕ, All, ◌+◌, ◌-◌, ◌*◌, ◌/◌, ◌%◌, ◌<◌, ◌≡◌, refl, [], ◌∷◌, Option, none, some, ◌&&◌, ltb, leb,
  if◌then◌else◌, Bytes, IsBytes, arith,
}

unfoldable pub hex_digit : ℕ → ℕ
hex_digit n = if ltb n 10 then 48 + n else 87 + n

unfoldable pub hex_value : ℕ → Option ℕ
hex_value c =
    if leb 48 c && leb c 57
    then some (c - 48)
    else if leb 97 c && leb c 102
    then some (c - 87)
    else if leb 65 c && leb c 70
    then some (c - 55)
    else none

-- `hex.EncodeToString`.
unfoldable pub encode_hex : Bytes → Bytes
encode_hex [] = []
encode_hex (b ∷ bs) = hex_digit (b / 16) ∷ hex_digit (b % 16) ∷ encode_hex bs

-- `hex.DecodeString` with its error ignored: the bytes before the first fault.
unfoldable pub decode_hex : Bytes → Bytes
decode_hex [] = []
decode_hex (a ∷ []) = []
decode_hex (a ∷ b ∷ s) = elim (hex_value a) [
  | none ↦ []
  | some hi ↦ elim (hex_value b) [ none ↦ [] | some lo ↦ (hi * 16 + lo) ∷ decode_hex s ]
]

hex_value-hex_digit : (n : ℕ) → n < 16 → hex_value (hex_digit n) ≡ some n
unfolding hex_value hex_digit
hex_value-hex_digit n h = ground arith

pub IsAscii : Bytes → Type 0
IsAscii = All (λ b. b < 128)

hex_digit-bound : (n : ℕ) → n < 16 → hex_digit n < 128
unfolding hex_digit
hex_digit-bound n h = ground arith

pub encode_hex-IsAscii : (bs : Bytes) → IsBytes bs → IsAscii (encode_hex bs)
unfolding encode_hex IsAscii
encode_hex-IsAscii [] h = tt
encode_hex-IsAscii (b ∷ bs) h = (
  hex_digit-bound (b / 16) (omega arith),
  (hex_digit-bound (b % 16) (omega arith), encode_hex-IsAscii bs h.1),
)

-- Decoding gives back what was encoded.
pub decode_hex-encode_hex : (bs : Bytes) → IsBytes bs → decode_hex (encode_hex bs) ≡ bs
unfolding decode_hex encode_hex
decode_hex-encode_hex [] h = refl
decode_hex-encode_hex (b ∷ bs) h =
    ground
      (arith, hex_value-hex_digit (b / 16), hex_value-hex_digit (b % 16), decode_hex-encode_hex bs)
