-- ===== src/Crypto/Base58/RoundTrip.antt =====
-- internal/crypto/base58.go: encoding and decoding are inverse to one another.
use road.Base.{
  length-append, ◌⊎◌, ℕ, ◌+◌, ◌<◌, ◌≡◌, refl, ap, sym, ◌∙◌, arith, List, [], ◌∷◌, ◌++◌, inl, inr,
  All, Bytes, IsBytes, length, map, ok, err, replicate, drop, reverse, copy_at, copy_at-append,
  copy_at_full, length-replicate, replicate-add, ◌>>=◌, Result-cases, All-drop, drop_append, some,
  All-replicate, All-append, IsByte,
}
use mathlib.Core.Path.{subst}
use mathlib.Core.List.{append_assoc, map-append, reverse-cons}
use road.Crypto.Base58.{
  invalid_character, leading, decode_base58, encode_base58, le_digits, decode_loop, be_value,
  big_bytes,
}
use road.Crypto.Base58.Digits.{
  Stripped, leading_split, leading-replicate, le_digits-be_value, le_digits_shape, Radix-58,
  Radix-256, be_value-zeros,
}
use road.Crypto.Base58.Alphabet.{
  letter, digit, InAlphabet, decode_loop-map, decode_loop_sound, decode_loop_error,
  alphabet_digits-map, digit-letter,
}

map-reverse : (f : ℕ → ℕ) (xs : List ℕ) → reverse (map f xs) ≡ map f (reverse xs)
map-reverse f [] = refl
map-reverse f (x ∷ xs) =
    reverse-cons (f x) (map f xs)
    ∙ ap (λ ys. ys ++ f x ∷ []) (map-reverse f xs)
    ∙ sym (map-append f (reverse xs) (x ∷ []))
    ∙ ap (map f) (sym (reverse-cons x xs))

-- The encoder on every input, the empty one too.
encode_base58_lem :
    (bs : Bytes)
    → let n = be_value 256 0 bs in
      encode_base58 bs ≡ replicate (leading 0 bs) b'1' ++ map letter (reverse (le_digits 58 n n))
encode_base58_lem [] = unfold encode_base58 be_value le_digits leading in refl
encode_base58_lem (b ∷ bs) =
    let n = be_value 256 0 (b ∷ bs) in
    unfold encode_base58 in
    ap (λ ds. replicate (leading 0 (b ∷ bs)) b'1' ++ ds)
      (ap reverse (alphabet_digits-map n n) ∙ map-reverse letter (le_digits 58 n n))

fill_zeros : (z : ℕ) (bs : Bytes) → copy_at (replicate (z + length bs) 0) z bs ≡ replicate z 0 ++ bs
fill_zeros z bs =
    ap (λ b. copy_at b z bs) (replicate-add z (length bs) 0)
    ∙ copy_at-append (replicate z 0) (replicate (length bs) 0) bs z (length-replicate z 0)
    ∙ ap (◌++◌ (replicate z 0))
        (copy_at_full (replicate (length bs) 0) bs (sym (length-replicate (length bs) 0)))

-- The decoder on every input, the empty one too.
decode_base58_lem :
    (s : Bytes)
    → let z = leading b'1' s in
      decode_base58 s ≡ (decode_loop (drop z s) z 0 >>= λ n. ok (replicate z 0 ++ big_bytes n))
unfolding decode_base58
decode_base58_lem [] = refl
decode_base58_lem (c ∷ cs) =
    let z = leading b'1' (c ∷ cs) in
    λ i. decode_loop (drop z (c ∷ cs)) z 0 >>= λ n. ok (fill_zeros z (big_bytes n) i)

letter-Stripped :
    (ds : List ℕ) → All (λ d. d < 58) ds → Stripped 0 ds → Stripped b'1' (map letter ds)
letter-Stripped [] h s = tt
letter-Stripped (d ∷ ds) h s = λ e.
    let f : some d ≡ some 0 =
      sym (digit-letter d h.0) ∙ ap digit e ∙ digit-letter 0 (omega arith) in
    s (cc)

Stripped-letter : (ds : List ℕ) → Stripped b'1' (map letter ds) → Stripped 0 ds
Stripped-letter [] s = tt
Stripped-letter (d ∷ ds) s = λ e. s (ap letter e)

-- Decoding ones followed by letters, and encoding zeros followed by other bytes.
decode_text :
    (z : ℕ) (ds : List ℕ)
    → All (λ d. d < 58) ds
    → Stripped 0 ds
    → decode_base58 (replicate z b'1' ++ map letter ds)
      ≡ ok (replicate z 0 ++ big_bytes (be_value 58 0 ds))
decode_text z ds small top =
    decode_base58_lem (replicate z b'1' ++ map letter ds)
    ∙ rw (
      leading-replicate b'1' z (map letter ds) (letter-Stripped ds small top),
      drop_append (replicate z b'1') (map letter ds) z (length-replicate z b'1'),
      decode_loop-map ds z 0 small,
    )

encode_bytes :
    (z : ℕ) (body : Bytes)
    → Stripped 0 body
    → let n = be_value 256 0 body in
      encode_base58 (replicate z 0 ++ body)
      ≡ replicate z b'1' ++ map letter (reverse (le_digits 58 n n))
encode_bytes z body top =
    encode_base58_lem (replicate z 0 ++ body)
    ∙ rw (leading-replicate 0 z body top, be_value-zeros 256 Radix-256 z body)

big_bytes-be_value :
    (body : Bytes) → IsBytes body → Stripped 0 body → big_bytes (be_value 256 0 body) ≡ body
unfolding big_bytes
big_bytes-be_value body h top = le_digits-be_value 256 Radix-256 body h top

-- Decoding the encoding of a byte string gives it back, leading zeros included.
pub decode_base58-encode_base58 :
    (bs : Bytes) → IsBytes bs → decode_base58 (encode_base58 bs) ≡ ok bs
decode_base58-encode_base58 bs h =
    let (split, head) = leading_split 0 bs in
    let z = leading 0 bs in
    let body = drop z bs in
    let n = be_value 256 0 body in
    let (small, top, total) = le_digits_shape 58 Radix-58 n in
    ap (λ t. decode_base58 (encode_base58 t)) (sym split)
    ∙ ap decode_base58 (encode_bytes z body head)
    ∙ decode_text z (reverse (le_digits 58 n n)) small top
    ∙ ap (λ m. ok (replicate z 0 ++ big_bytes m)) total
    ∙ ap (λ t. ok (replicate z 0 ++ t)) (big_bytes-be_value body (All-drop _ z bs h) head)
    ∙ ap ok split

big_bytes_shape :
    (n : ℕ) → IsBytes (big_bytes n) × Stripped 0 (big_bytes n) × (be_value 256 0 (big_bytes n) ≡ n)
unfolding big_bytes
big_bytes_shape n = le_digits_shape 256 Radix-256 n

-- A text that decodes is the encoding of what it decodes to, which is a byte string.
pub encode_base58-decode_base58 :
    (s bs : Bytes) → decode_base58 s ≡ ok bs → (encode_base58 bs ≡ s) × IsBytes bs
encode_base58-decode_base58 s bs e =
    elim (Result-cases (decode_loop (drop (leading b'1' s) s) (leading b'1' s) 0)) [
      | inl (m, loop) ↦
          let z = leading b'1' s in
          let (split, head) = leading_split b'1' s in
          let (ds, letters, small, total) = decode_loop_sound (drop z s) z 0 m loop in
          let (bytes, top, back) = big_bytes_shape m in
          let body = big_bytes m in
          let ones : Bytes = replicate z b'1' in
          let f : ok bs ≡ ok (replicate z 0 ++ body) = sym e ∙ decode_base58_lem s ∙ rw loop in
          let g : bs ≡ replicate z 0 ++ body = cc in
          let head_digit : Stripped 0 ds = Stripped-letter ds (rw letters at head) in
          (
            ap encode_base58 g
                ∙ encode_bytes z body top
                ∙ ap (λ k. ones ++ map letter (reverse (le_digits 58 k k))) (back ∙ total)
                ∙ ap (λ t. ones ++ map letter t)
                    (le_digits-be_value 58 Radix-58 ds small head_digit)
                ∙ ap (◌++◌ ones) (sym letters)
                ∙ split,
            rw g (
                All-append IsByte (replicate z 0) body (All-replicate IsByte z 0 (omega arith))
                  bytes),
          )
      | inr (x, loop) ↦ let f : ok bs ≡ err x = sym e ∙ decode_base58_lem s ∙ rw loop in cc
    ]

letters-InAlphabet : (ds : List ℕ) → All (λ d. d < 58) ds → All InAlphabet (map letter ds)
letters-InAlphabet [] h = tt
letters-InAlphabet (d ∷ ds) h = ((λ e. cc (e, digit-letter d h.0)), letters-InAlphabet ds h.1)

-- Decoding accepts every text of letters. Any other text it refuses, naming the first character that
-- is no letter with its position.
pub decode_base58_cases :
    (s : Bytes)
    → (All InAlphabet s × ((bs : Bytes) × (decode_base58 s ≡ ok bs)))
      ⊎ ((front : Bytes) × (ch : ℕ) × (back : Bytes) × (s ≡ front ++ (ch ∷ back))
          × All InAlphabet front
          × ¬ InAlphabet ch
          × (decode_base58 s ≡ err (invalid_character ch (length front))))
decode_base58_cases s =
    let z = leading b'1' s in
    let ones : Bytes = replicate z b'1' in
    let (split, head) = leading_split b'1' s in
    let ones_letters : All InAlphabet ones =
      All-replicate InAlphabet z b'1' (λ e. cc (e, digit-letter 0 (omega arith))) in
    elim (Result-cases (decode_loop (drop z s) z 0)) [
      | inl (m, loop) ↦
          let (ds, letters, small, total) = decode_loop_sound (drop z s) z 0 m loop in
          inl (
            subst (All InAlphabet) split (
                All-append InAlphabet ones (drop z s) ones_letters
                  (rw letters (letters-InAlphabet ds small))),
            (replicate z 0 ++ big_bytes m, decode_base58_lem s ∙ rw loop),
          )
      | inr (x, loop) ↦
          let (front, ch, back, a, letters, missing, b) = decode_loop_error (drop z s) z 0 x loop in
          let n : z + length front ≡ length (ones ++ front) =
            omega (arith, length-append {0} ones front, length-replicate {A = ℕ} z b'1') in
          inr (
            ones ++ front,
            ch,
            back,
            sym split ∙ ap (◌++◌ ones) a ∙ sym (append_assoc ones front (ch ∷ back)),
            All-append InAlphabet ones front ones_letters letters,
            (λ f. f missing),
            decode_base58_lem s ∙ rw (loop, b, n),
          )
    ]
