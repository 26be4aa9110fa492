-- ===== src/Crypto/Base58/Digits.antt =====
-- Positional notation: the digits of a number in a radix, and the number of a list of digits.
use road.Base.{
  length-reverse, ℕ, zero, suc, ◌+◌, ◌*◌, ◌/◌, ◌%◌, ◌<◌, ◌≤◌, ◌≡◌, ◌≢◌, refl, sym, ap, ◌∙◌, arith,
  List, [], ◌∷◌, ◌++◌, inl, inr, Bool-cases, ◌==◌, ◌==◌, ==_iff, ==-false, All, All-reverse,
  reverse, length, replicate, Bytes, drop, ==_refl,
}
use road.Crypto.Base58.{leading, be_value, le_digits}
use mathlib.Core.List.{reverse-cons, reverse-reverse}

-- What the two radices, 58 and 256, share.
pub record Radix (b : ℕ) : Type 0 where
  pub mod_lt : (n : ℕ) → n % b < b
  pub join : (n : ℕ) → n % b + b * (n / b) ≡ n
  pub mod_join : (d v : ℕ) → d < b → (d + b * v) % b ≡ d
  pub div_join : (d v : ℕ) → d < b → (d + b * v) / b ≡ v
  pub grows : (d v : ℕ) → 0 < d + b * v → v < d + b * v
  pub div_lt : (n : ℕ) → 0 < n → n / b < n

pub Radix-58 : Radix 58
Radix-58 = record {
  mod_lt = λ n. omega arith;
  join = λ n. omega arith;
  mod_join = λ d v h. omega arith;
  div_join = λ d v h. omega arith;
  grows = λ d v h. omega arith;
  div_lt = λ n h. omega arith;
}

pub Radix-256 : Radix 256
Radix-256 = record {
  mod_lt = λ n. omega arith;
  join = λ n. omega arith;
  mod_join = λ d v h. omega arith;
  div_join = λ d v h. omega arith;
  grows = λ d v h. omega arith;
  div_lt = λ n h. omega arith;
}

-- The number of a list of digits, lowest first.
abbrev pub value : ℕ → List ℕ → ℕ
value b [] = 0
value b (d ∷ ds) = d + b * value b ds

-- Not headed by `c`.
abbrev pub Stripped : ℕ → List ℕ → Type 0
Stripped c [] = Unit {0}
Stripped c (x ∷ xs) = x ≢ c

-- Digits below the radix, lowest first, the highest not zero.
abbrev pub IsCanonical : ℕ → List ℕ → Type 0
IsCanonical b [] = Unit {0}
IsCanonical b (d ∷ []) = (d < b) × (0 < d)
IsCanonical b (d ∷ e ∷ ds) = (d < b) × IsCanonical b (e ∷ ds)

module _ (b : ℕ) (r : Radix b) where
  value_pos : (d : ℕ) (ds : List ℕ) → IsCanonical b (d ∷ ds) → 0 < value b (d ∷ ds)
  value_pos d [] c = omega (arith, c.1)
  value_pos d (e ∷ ds) c =
      let v = value b (e ∷ ds) in omega (arith, value_pos e ds c.1, r.div_join d v c.0)

  IsCanonical-tail : (d : ℕ) (ds : List ℕ) → IsCanonical b (d ∷ ds) → (d < b) × IsCanonical b ds
  IsCanonical-tail d [] c = (c.0, tt)
  IsCanonical-tail d (e ∷ ds) c = c

  le_digits_step :
      (fuel n : ℕ) → 0 < n → le_digits b (suc fuel) n ≡ n % b ∷ le_digits b fuel (n / b)
  unfolding le_digits
  le_digits_step fuel n h = rw (==-false n 0 (omega arith), le_digits)

  le_digits_zero : (fuel : ℕ) → le_digits b fuel 0 ≡ []
  unfolding le_digits
  le_digits_zero zero = refl
  le_digits_zero (suc fuel) = refl

  -- Canonical digits are the digits of their number.
  pub le_digits-value :
      (ds : List ℕ) (fuel : ℕ)
      → IsCanonical b ds
      → value b ds ≤ fuel
      → le_digits b fuel (value b ds) ≡ ds
  le_digits-value [] fuel c h = le_digits_zero fuel
  le_digits-value (d ∷ ds) zero c h = absurd (omega (arith, value_pos d ds c))
  le_digits-value (d ∷ ds) (suc fuel) c h =
      let (lt, rest) = IsCanonical-tail d ds c in
      let v = value b ds in
      let pos = value_pos d ds c in
      le_digits_step fuel (d + b * v) pos
      ∙ (λ i. r.mod_join d v lt i ∷ le_digits b fuel (r.div_join d v lt i))
      ∙ ap (◌∷◌ d) (le_digits-value ds fuel rest (omega (arith, r.grows d v pos)))

  IsCanonical-cons :
      (d : ℕ) (ds : List ℕ)
      → d < b
      → IsCanonical b ds
      → 0 < d + b * value b ds
      → IsCanonical b (d ∷ ds)
  IsCanonical-cons d [] lt c h = (lt, omega arith)
  IsCanonical-cons d (e ∷ ds) lt c h = (lt, c)

  -- With enough fuel the digits of a number are canonical, and make up the number.
  pub le_digits-IsCanonical :
      (fuel n : ℕ)
      → n ≤ fuel
      → IsCanonical b (le_digits b fuel n) × (value b (le_digits b fuel n) ≡ n)
  le_digits-IsCanonical zero n h = (unfold le_digits in tt, unfold le_digits in omega arith)
  le_digits-IsCanonical (suc fuel) zero h = (unfold le_digits in tt, unfold le_digits in refl)
  le_digits-IsCanonical (suc fuel) (suc k) h =
      let n = suc k in
      let rest = le_digits b fuel (n / b) in
      let (c, e) = le_digits-IsCanonical fuel (n / b) (omega (arith, r.div_lt n (omega arith))) in
      let total : n % b + b * value b rest ≡ n = ap (λ v. n % b + b * v) e ∙ r.join n in
      rw (le_digits_step fuel n (omega arith))
        (IsCanonical-cons (n % b) rest (r.mod_lt n) c (omega (arith, total)), total)

  -- Read from the highest digit down, as both loops of the source do, the number is the same.
  pub be_value-append :
      (n : ℕ) (xs ys : List ℕ) → be_value b n (xs ++ ys) ≡ be_value b (be_value b n xs) ys
  unfolding be_value
  be_value-append n [] ys = refl
  be_value-append n (x ∷ xs) ys = be_value-append (n * b + x) xs ys

  pub be_value-reverse : (ds : List ℕ) → be_value b 0 (reverse ds) ≡ value b ds
  be_value-reverse [] = unfold be_value in refl
  be_value-reverse (d ∷ ds) =
      rw (reverse-cons d ds, be_value-append 0 (reverse ds) (d ∷ []), be_value-reverse ds)
        (unfold be_value in omega arith)

  be_value_zero : (xs : List ℕ) → be_value b 0 (0 ∷ xs) ≡ be_value b 0 xs
  unfolding be_value
  be_value_zero xs = let e : 0 * b + 0 ≡ 0 = omega arith in ap (λ n. be_value b n xs) e

  pub be_value-zeros : (z : ℕ) (xs : List ℕ) → be_value b 0 (replicate z 0 ++ xs) ≡ be_value b 0 xs
  be_value-zeros zero xs = refl
  be_value-zeros (suc z) xs = be_value_zero (replicate z 0 ++ xs) ∙ be_value-zeros z xs

  IsCanonical-All : (ds : List ℕ) → IsCanonical b ds → All (λ d. d < b) ds
  IsCanonical-All [] c = tt
  IsCanonical-All (d ∷ ds) c =
      let (lt, rest) = IsCanonical-tail d ds c in (lt, IsCanonical-All ds rest)

Stripped-append : (c : ℕ) (xs ys : List ℕ) → 0 < length xs → Stripped c xs → Stripped c (xs ++ ys)
Stripped-append c [] ys h s = absurd (omega arith)
Stripped-append c (x ∷ xs) ys h s = s

Stripped-front : (c : ℕ) (xs ys : List ℕ) → Stripped c (xs ++ ys) → Stripped c xs
Stripped-front c [] ys s = tt
Stripped-front c (x ∷ xs) ys s = s

-- Canonical digits read from the top are headed by no zero, and the other way round.
pub IsCanonical-Stripped : (b : ℕ) (ds : List ℕ) → IsCanonical b ds → Stripped 0 (reverse ds)
IsCanonical-Stripped b [] c = tt
IsCanonical-Stripped b (d ∷ []) c = omega arith
IsCanonical-Stripped b (d ∷ e ∷ ds) c = rw (reverse-cons d (e ∷ ds)) (
    Stripped-append 0 (reverse (e ∷ ds)) (d ∷ []) (omega (arith, length-reverse {0} (e ∷ ds)))
      (IsCanonical-Stripped b (e ∷ ds) c.1))

Stripped-IsCanonical :
    (b : ℕ) (ds : List ℕ) → All (λ d. d < b) ds → Stripped 0 (reverse ds) → IsCanonical b ds
Stripped-IsCanonical b [] h s = tt
Stripped-IsCanonical b (d ∷ []) h s = (h.0, omega arith)
Stripped-IsCanonical b (d ∷ e ∷ ds) h s = (
  h.0,
  Stripped-IsCanonical b (e ∷ ds) h.1
      (Stripped-front 0 (reverse (e ∷ ds)) (d ∷ []) (rw (reverse-cons d (e ∷ ds)) at s)),
)

module _ (b : ℕ) (r : Radix b) where
  -- Digits from the top down, headed by no zero, are the digits of their number.
  pub le_digits-be_value :
      (xs : List ℕ)
      → All (λ d. d < b) xs
      → Stripped 0 xs
      → let n = be_value b 0 xs in reverse (le_digits b n n) ≡ xs
  le_digits-be_value xs h s =
      let ds = reverse xs in
      let e : be_value b 0 xs ≡ value b ds =
        ap (be_value b 0) (sym (reverse-reverse xs)) ∙ be_value-reverse b r ds in
      let c : IsCanonical b ds =
        Stripped-IsCanonical b ds (All-reverse _ xs h) (rw (← reverse-reverse xs) at s) in
      rw (e, le_digits-value b r ds (value b ds) c (omega arith), reverse-reverse)

  -- The digits of `n` from the top down: digits headed by no zero, that make up `n`.
  pub le_digits_shape :
      (n : ℕ)
      → let xs = reverse (le_digits b n n) in
        All (λ d. d < b) xs × Stripped 0 xs × (be_value b 0 xs ≡ n)
  le_digits_shape n =
      let (c, e) = le_digits-IsCanonical b r n n (omega arith) in
      (
        All-reverse _ _ (IsCanonical-All b r _ c),
        IsCanonical-Stripped b _ c,
        be_value-reverse b r _ ∙ e,
      )

-- A text is its leading `c`s and a rest that no `c` heads.
pub leading_split :
    (c : ℕ) (xs : Bytes)
    → (replicate (leading c xs) c ++ drop (leading c xs) xs ≡ xs)
      × Stripped c (drop (leading c xs) xs)
unfolding leading
leading_split c [] = (refl, tt)
leading_split c (x ∷ xs) = elim (Bool-cases (x == c)) [
  | inl e ↦
      let (split, rest) = leading_split c xs in
      rw e ((λ i. sym ((==_iff x c).0 e) i ∷ split i), rest)
  | inr e ↦ rw e (refl, λ h. cc (e, (==_iff x c).1 h))
]

pub leading-replicate : (c z : ℕ) (xs : Bytes) → Stripped c xs → leading c (replicate z c ++ xs) ≡ z
unfolding leading
leading-replicate c zero [] s = refl
leading-replicate c zero (x ∷ xs) s = rw (==-false x c s)
leading-replicate c (suc z) xs s = rw (==_refl c) (ap suc (leading-replicate c z xs s))
