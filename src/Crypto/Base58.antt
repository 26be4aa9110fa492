-- ===== src/Crypto/Base58.antt =====
-- internal/crypto/base58.go. Strings and byte slices are lists of bytes; math/big works on ℕ.
pub mod Digits
pub mod Alphabet
pub mod RoundTrip
mod Runs
use road.Base.{
  ℕ, zero, suc, ◌+◌, ◌*◌, ◌/◌, ◌%◌, List, [], ◌∷◌, ◌++◌, Option, none, some, true, false, ◌==◌,
  if◌then◌else◌, Bytes, codes, get_or, length, drop, replicate, copy_at, reverse, Result, ok, err,
  ◌>>=◌,
}

abbrev pub alphabet : Bytes
alphabet = codes "123456789ABCDEFGHJKLMNPQRSTUVWXYZabcdefghijkmnopqrstuvwxyz"

pub data Error : Type 0 where
  invalid_character : ℕ → ℕ → Error

-- How many elements at the front are `c`: the loops that count `leadingZeros`.
unfoldable pub leading : ℕ → Bytes → ℕ
leading c [] = 0
leading c (b ∷ bs) = if b == c then suc (leading c bs) else 0

-- `SetBytes` at radix 256, and the multiply-and-add loop of the decoder at radix 58.
unfoldable pub be_value : ℕ → ℕ → List ℕ → ℕ
be_value radix n [] = n
be_value radix n (d ∷ ds) = be_value radix (n * radix + d) ds

-- The digits of `n`, lowest first, none for 0. Each round divides, so `n` rounds are enough.
unfoldable pub le_digits : ℕ → ℕ → ℕ → List ℕ
le_digits radix zero n = []
le_digits radix (suc fuel) n = elim (n == 0) [
  | true ↦ []
  | false ↦ n % radix ∷ le_digits radix fuel (n / radix)
]

-- `big.Int.Bytes`: big-endian, with no leading zero.
unfoldable pub big_bytes : ℕ → Bytes
unfolding le_digits
big_bytes n = reverse (le_digits 256 n n)

-- `for n > 0 { n, mod = n / 58, n % 58; digits = append(digits, alphabet[mod]) }`
unfoldable pub alphabet_digits : ℕ → ℕ → Bytes
alphabet_digits zero n = []
alphabet_digits (suc fuel) n = elim (n == 0) [
  | true ↦ []
  | false ↦ get_or alphabet (n % 58) 0 ∷ alphabet_digits fuel (n / 58)
]

unfoldable pub encode_base58 : Bytes → Bytes
unfolding leading be_value alphabet_digits
encode_base58 [] = []
encode_base58 (b ∷ bs) =
    let input = b ∷ bs in
    let n = be_value 256 0 input in
    replicate (leading 0 input) (get_or alphabet 0 0) ++ reverse (alphabet_digits n n)

-- The linear scan for a character, from index `idx` on.
unfoldable pub index_from : ℕ → ℕ → Bytes → Option ℕ
index_from ch idx [] = none
index_from ch idx (c ∷ cs) = if c == ch then some idx else index_from ch (suc idx) cs

-- The decoder's loop, at position `i` of the text.
unfoldable pub decode_loop : Bytes → ℕ → ℕ → Result Error ℕ
unfolding index_from
decode_loop [] i n = ok n
decode_loop (ch ∷ s) i n = elim (index_from ch 0 alphabet) [
  | none ↦ err (invalid_character ch i)
  | some val ↦ decode_loop s (suc i) (n * 58 + val)
]

unfoldable pub decode_base58 : Bytes → Result Error Bytes
unfolding leading decode_loop big_bytes
decode_base58 [] = ok []
decode_base58 (c ∷ cs) =
    let s = c ∷ cs in
    let zeros = leading (get_or alphabet 0 0) s in
    do
      n ← decode_loop (drop zeros s) zeros 0
      let decoded = big_bytes n
      ok (copy_at (replicate (zeros + length decoded) 0) zeros decoded)
