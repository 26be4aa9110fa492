-- ===== src/Crypto/Base58/Alphabet.antt =====
-- The 58 characters: looking a character up inverts taking it by its index.
use road.Base.{
  Bool-cases, inl, inr, ==_refl, ==_iff, ==-false, ◌%◌, ◌++◌, ◌*◌, ◌/◌, ℕ, zero, suc, ◌+◌, ◌<◌, ◌≡◌,
  ◌≢◌, refl, ap, sym, ◌∙◌, arith, List, [], ◌∷◌, Option, none, some, inl, inr, Bool, true, false,
  ◌==◌, ==_iff, Bool-cases, Option-cases, get_or, All, Bytes, length, map, ok, err, ◌&&◌,
}
use road.Crypto.Base58.{
  alphabet, Error, invalid_character, index_from, alphabet_digits, le_digits, decode_loop, be_value,
}

-- The character of a digit, and the digit of a character.
abbrev pub letter : ℕ → ℕ
letter d = get_or alphabet d 0

abbrev pub digit : ℕ → Option ℕ
digit ch = index_from ch 0 alphabet

abbrev pub InAlphabet : ℕ → Type 0
InAlphabet ch = digit ch ≢ none

same : Option ℕ → ℕ → Bool
same none d = false
same (some e) d = e == d

-- The test of the first `count` letters, for one run over the whole alphabet.
own_digits : ℕ → Bool
own_digits zero = true
own_digits (suc d) = same (digit (letter d)) d && own_digits d

own_digits_whole : own_digits 58 ≡ true
unfolding own_digits same index_from
own_digits_whole = refl

same-some : (o : Option ℕ) (d : ℕ) → same o d ≡ true → o ≡ some d
unfolding same
same-some none d h = cc
same-some (some e) d h = ap some ((==_iff e d).0 h)

and_true : (a b : Bool) → (a && b) ≡ true → (a ≡ true) × (b ≡ true)
and_true a b h = ground arith

digit-letter_below :
    (count : ℕ) → own_digits count ≡ true → (d : ℕ) → d < count → digit (letter d) ≡ some d
unfolding own_digits
digit-letter_below zero tested d h = absurd (omega arith)
digit-letter_below (suc count) tested d h =
    let (last, before) = and_true (same (digit (letter count)) count) (own_digits count) tested in
    elim (Bool-cases (count == d)) [
      | inl e ↦
          let c : count ≡ d = (==_iff count d).0 e in
          rw (← c) (same-some (digit (letter count)) count last)
      | inr e ↦ digit-letter_below count before d (ground (arith, ==_refl d))
    ]

-- Each of the 58 letters has its own digit.
pub digit-letter : (d : ℕ) → d < 58 → digit (letter d) ≡ some d
digit-letter d h = digit-letter_below 58 own_digits_whole d h

-- What the scan finds stands at the index that it returns.
index_from_found :
    (ch idx v : ℕ) (cs : Bytes)
    → index_from ch idx cs ≡ some v
    → (k : ℕ) × (v ≡ idx + k) × (k < length cs) × (get_or cs k 0 ≡ ch)
unfolding index_from
index_from_found ch idx v [] e = cc
index_from_found ch idx v (c ∷ cs) e = elim (Bool-cases (c == ch)) [
  | inl hit ↦
      let f : some idx ≡ some v = rw hit at e in
      let g : idx ≡ v = cc in (0, omega arith, omega arith, (==_iff c ch).0 hit)
  | inr miss ↦
      let (k, a, lt, g) = index_from_found ch (suc idx) v cs (rw miss at e) in
      (suc k, omega (arith, a), omega (arith, lt), g)
]

pub letter-digit : (ch v : ℕ) → digit ch ≡ some v → (letter v ≡ ch) × (v < 58)
letter-digit ch v e =
    let (k, a, lt, g) = index_from_found ch 0 v alphabet e in
    let f : v ≡ k = omega (arith, a) in (ap letter f ∙ g, omega (arith, lt, f))

pub alphabet_digits-map : (fuel n : ℕ) → alphabet_digits fuel n ≡ map letter (le_digits 58 fuel n)
unfolding alphabet_digits le_digits
alphabet_digits-map zero n = refl
alphabet_digits-map (suc fuel) zero = refl
alphabet_digits-map (suc fuel) (suc n) =
    rw (==-false (suc n) 0 (omega arith), alphabet_digits, le_digits)
      (ap (◌∷◌ (letter (suc n % 58))) (alphabet_digits-map fuel (suc n / 58)))

-- The decoder's loop on letters computes the number of their digits.
pub decode_loop-map :
    (ds : List ℕ) (i n : ℕ)
    → All (λ d. d < 58) ds
    → decode_loop (map letter ds) i n ≡ ok (be_value 58 n ds)
unfolding decode_loop be_value
decode_loop-map [] i n h = refl
decode_loop-map (d ∷ ds) i n h =
    rw (digit-letter d h.0, decode_loop) (decode_loop-map ds (suc i) (n * 58 + d) h.1)

-- A text that the loop accepts is made of letters.
pub decode_loop_sound :
    (s : Bytes) (i n m : ℕ)
    → decode_loop s i n ≡ ok m
    → (ds : List ℕ) × (s ≡ map letter ds) × All (λ d. d < 58) ds × (m ≡ be_value 58 n ds)
unfolding decode_loop be_value
decode_loop_sound [] i n m e = ([], refl, tt, ground arith)
decode_loop_sound (ch ∷ s) i n m e = elim (Option-cases (digit ch)) [
  | inl missing ↦ let f = rw (missing, decode_loop) at e in cc
  | inr (v, found) ↦
      let (ds, a, small, b) =
        decode_loop_sound s (suc i) (n * 58 + v) m (rw (found, decode_loop) at e) in
      let (l, lt) = letter-digit ch v found in (v ∷ ds, (λ j. sym l j ∷ a j), (lt, small), b)
]

-- The loop fails at the first character that is no letter, and names it with its position.
pub decode_loop_error :
    (s : Bytes) (i n : ℕ) (e : Error)
    → decode_loop s i n ≡ err e
    → (front : Bytes) × (ch : ℕ) × (back : Bytes) × (s ≡ front ++ (ch ∷ back))
      × All InAlphabet front
      × (digit ch ≡ none)
      × (e ≡ invalid_character ch (i + length front))
unfolding decode_loop
decode_loop_error [] i n e h = cc
decode_loop_error (ch ∷ s) i n e h = elim (Option-cases (digit ch)) [
  | inl missing ↦
      let f = rw (missing, decode_loop) at h in
      let g : i + 0 ≡ i = omega arith in ([], ch, s, refl, tt, missing, rw g (cc))
  | inr (v, found) ↦
      let (front, c, back, a, letters, missing, b) =
        decode_loop_error s (suc i) (n * 58 + v) e (rw (found, decode_loop) at h) in
      let g : suc i + length front ≡ i + suc (length front) = omega arith in
      (
        ch ∷ front,
        c,
        back,
        ap (◌∷◌ ch) a,
        ((λ m. cc (found, m)), letters),
        missing,
        b ∙ ap (invalid_character c) g,
      )
]
