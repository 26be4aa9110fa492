-- ===== src/Base/Lists.antt =====
-- Lists measured and indexed by native numbers; `copy_at` is Go's built-in `copy` into a slice.
use Prim.Native.Nat.{ℕ, zero, suc, ◌+◌, ◌-◌, ◌≤◌, min}
use mathlib.Core.Path.{◌≡◌, refl, ap, sym, ◌∙◌}
use mathlib.Core.List.{List, [], ◌∷◌, ◌++◌, reverse, reverse-cons}
use native.Mathlib.Omega.{arith}

module _ {ℓ} {A : Type ℓ} where
  abbrev pub length : List A → ℕ
  length [] = 0
  length (x ∷ xs) = suc (length xs)

  abbrev pub get_or : List A → ℕ → A → A
  get_or [] i d = d
  get_or (x ∷ xs) zero d = x
  get_or (x ∷ xs) (suc i) d = get_or xs i d

  abbrev pub take : ℕ → List A → List A
  take zero xs = []
  take (suc n) [] = []
  take (suc n) (x ∷ xs) = x ∷ take n xs

  abbrev pub drop : ℕ → List A → List A
  drop zero xs = xs
  drop (suc n) [] = []
  drop (suc n) (x ∷ xs) = drop n xs

  -- `xs[lo:hi]`, which the source takes only within bounds.
  abbrev pub slice : List A → ℕ → ℕ → List A
  slice xs lo hi = take (hi - lo) (drop lo xs)

  abbrev pub replicate : ℕ → A → List A
  replicate zero a = []
  replicate (suc n) a = a ∷ replicate n a

  -- `copy(dst[off:], src)`: writes what fits, and leaves the rest of `dst`.
  abbrev pub copy_at : List A → ℕ → List A → List A
  copy_at [] off src = []
  copy_at (d ∷ dst) (suc off) src = d ∷ copy_at dst off src
  copy_at (d ∷ dst) zero [] = d ∷ dst
  copy_at (d ∷ dst) zero (s ∷ src) = s ∷ copy_at dst zero src

  abbrev pub All {κ} : (A → Type κ) → List A → Type κ
  All P [] = Unit {κ}
  All P (x ∷ xs) = P x × All P xs

module _ {ℓ} {A : Type ℓ} where
  pub length-append : (xs ys : List A) → length (xs ++ ys) ≡ length xs + length ys
  length-append [] ys = omega arith
  length-append (x ∷ xs) ys = omega (arith, length-append xs ys)

  pub length-replicate : (n : ℕ) (a : A) → length (replicate n a) ≡ n
  length-replicate zero a = refl
  length-replicate (suc n) a = ap suc (length-replicate n a)

  pub length-take : (n : ℕ) (xs : List A) → length (take n xs) ≡ min n (length xs)
  length-take zero xs = omega arith
  length-take (suc n) [] = omega arith
  length-take (suc n) (x ∷ xs) = omega (arith, length-take n xs)

  pub length-drop : (n : ℕ) (xs : List A) → length (drop n xs) ≡ length xs - n
  length-drop zero xs = omega arith
  length-drop (suc n) [] = omega arith
  length-drop (suc n) (x ∷ xs) = omega (arith, length-drop n xs)

  pub take-append-drop : (n : ℕ) (xs : List A) → take n xs ++ drop n xs ≡ xs
  take-append-drop zero xs = refl
  take-append-drop (suc n) [] = refl
  take-append-drop (suc n) (x ∷ xs) = ap (◌∷◌ x) (take-append-drop n xs)

  pub take_nil : (n : ℕ) → ◌≡◌ {A = List A} (take n []) []
  take_nil zero = refl
  take_nil (suc n) = refl

  pub take_two : (m n : ℕ) (xs : List A) → take m xs ++ take n (drop m xs) ≡ take (m + n) xs
  take_two zero n xs = let e : 0 + n ≡ n = omega arith in ap (λ k. take k xs) (sym e)
  take_two (suc m) n [] = let e : suc m + n ≡ suc (m + n) = omega arith in rw (e, take_nil n)
  take_two (suc m) n (x ∷ xs) =
      let e : suc m + n ≡ suc (m + n) = omega arith in rw e (ap (◌∷◌ x) (take_two m n xs))

  pub drop_nil : (n : ℕ) → ◌≡◌ {A = List A} (drop n []) []
  drop_nil zero = refl
  drop_nil (suc n) = refl

  pub drop-drop : (m n : ℕ) (xs : List A) → drop (m + n) xs ≡ drop n (drop m xs)
  drop-drop zero n xs = let e : 0 + n ≡ n = omega arith in ap (λ k. drop k xs) e
  drop-drop (suc m) n [] = let e : suc m + n ≡ suc (m + n) = omega arith in rw (e, drop_nil n)
  drop-drop (suc m) n (x ∷ xs) =
      let e : suc m + n ≡ suc (m + n) = omega arith in rw e (drop-drop m n xs)

  pub take_append : (xs ys : List A) (n : ℕ) → length xs ≡ n → take n (xs ++ ys) ≡ xs
  take_append [] ys zero h = refl
  take_append [] ys (suc n) h = absurd (omega arith)
  take_append (x ∷ xs) ys zero h = absurd (omega arith)
  take_append (x ∷ xs) ys (suc n) h = ap (◌∷◌ x) (take_append xs ys n (omega arith))

  pub drop_append : (xs ys : List A) (n : ℕ) → length xs ≡ n → drop n (xs ++ ys) ≡ ys
  drop_append [] ys zero h = refl
  drop_append [] ys (suc n) h = absurd (omega arith)
  drop_append (x ∷ xs) ys zero h = absurd (omega arith)
  drop_append (x ∷ xs) ys (suc n) h = drop_append xs ys n (omega arith)

  pub take_all : (n : ℕ) (xs : List A) → length xs ≤ n → take n xs ≡ xs
  take_all zero [] h = refl
  take_all zero (x ∷ xs) h = absurd (omega arith)
  take_all (suc n) [] h = refl
  take_all (suc n) (x ∷ xs) h = ap (◌∷◌ x) (take_all n xs (omega arith))

  pub replicate-add : (m n : ℕ) (a : A) → replicate (m + n) a ≡ replicate m a ++ replicate n a
  replicate-add zero n a = let e : 0 + n ≡ n = omega arith in ap (λ k. replicate k a) e
  replicate-add (suc m) n a =
      let e : suc m + n ≡ suc (m + n) = omega arith in
      ap (λ k. replicate k a) e ∙ ap (◌∷◌ a) (replicate-add m n a)

  pub copy_at_none : (dst : List A) → copy_at dst 0 [] ≡ dst
  copy_at_none [] = refl
  copy_at_none (d ∷ dst) = refl

  pub copy_at-append :
      (xs ys src : List A) (n : ℕ)
      → length xs ≡ n
      → copy_at (xs ++ ys) n src ≡ xs ++ copy_at ys 0 src
  copy_at-append [] ys src zero h = refl
  copy_at-append [] ys src (suc n) h = absurd (omega arith)
  copy_at-append (x ∷ xs) ys src zero h = absurd (omega arith)
  copy_at-append (x ∷ xs) ys src (suc n) h = ap (◌∷◌ x) (copy_at-append xs ys src n (omega arith))

  pub copy_at_zero :
      (dst src : List A)
      → length src ≤ length dst
      → copy_at dst 0 src ≡ src ++ drop (length src) dst
  copy_at_zero [] [] h = refl
  copy_at_zero [] (s ∷ src) h = absurd (omega arith)
  copy_at_zero (d ∷ dst) [] h = refl
  copy_at_zero (d ∷ dst) (s ∷ src) h = ap (◌∷◌ s) (copy_at_zero dst src (omega arith))

  -- A copy that fills the whole destination.
  pub copy_at_full : (dst src : List A) → length src ≡ length dst → copy_at dst 0 src ≡ src
  copy_at_full [] [] h = refl
  copy_at_full [] (s ∷ src) h = absurd (omega arith)
  copy_at_full (d ∷ dst) [] h = absurd (omega arith)
  copy_at_full (d ∷ dst) (s ∷ src) h = ap (◌∷◌ s) (copy_at_full dst src (omega arith))

  -- Two copies, one behind the other, that fill the destination together.
  pub copy_at_two :
      (dst xs ys : List A) {n : ℕ}
      → length xs ≡ n
      → length dst ≡ n + length ys
      → copy_at (copy_at dst 0 xs) n ys ≡ xs ++ ys
  copy_at_two dst xs ys {n} hx h =
      ap (λ b. copy_at b n ys) (copy_at_zero dst xs (omega arith))
      ∙ copy_at-append xs (drop (length xs) dst) ys n hx
      ∙ ap (◌++◌ xs)
          (copy_at_full (drop (length xs) dst) ys (omega (arith, length-drop (length xs) dst)))

  pub copy_at-append_add :
      (xs ys src : List A) (n k : ℕ)
      → length xs ≡ n
      → copy_at (xs ++ ys) (n + k) src ≡ xs ++ copy_at ys k src
  copy_at-append_add [] ys src zero k h =
      let e : 0 + k ≡ k = omega arith in ap (λ i. copy_at ys i src) e
  copy_at-append_add [] ys src (suc n) k h = absurd (omega arith)
  copy_at-append_add (x ∷ xs) ys src zero k h = absurd (omega arith)
  copy_at-append_add (x ∷ xs) ys src (suc n) k h =
      let e : suc n + k ≡ suc (n + k) = omega arith in
      ap (λ i. copy_at (x ∷ xs ++ ys) i src) e
      ∙ ap (◌∷◌ x) (copy_at-append_add xs ys src n k (omega arith))

  -- Three copies in a row that fill the destination together.
  pub copy_at_three :
      (dst xs ys zs : List A) (m n : ℕ)
      → length xs ≡ m
      → length ys ≡ n
      → length dst ≡ m + n + length zs
      → copy_at (copy_at (copy_at dst 0 xs) m ys) (m + n) zs ≡ xs ++ (ys ++ zs)
  copy_at_three dst xs ys zs m n hx hy h =
      let rest = drop (length xs) dst in
      ap (λ b. copy_at (copy_at b m ys) (m + n) zs) (copy_at_zero dst xs (omega arith))
      ∙ ap (λ b. copy_at b (m + n) zs) (copy_at-append xs rest ys m hx)
      ∙ copy_at-append_add xs (copy_at rest 0 ys) zs m n hx
      ∙ ap (◌++◌ xs) (copy_at_two rest ys zs hy (omega (arith, length-drop (length xs) dst)))

  pub length-copy_at :
      (dst : List A) (off : ℕ) (src : List A) → length (copy_at dst off src) ≡ length dst
  length-copy_at [] off src = refl
  length-copy_at (d ∷ dst) (suc off) src = ap suc (length-copy_at dst off src)
  length-copy_at (d ∷ dst) zero [] = refl
  length-copy_at (d ∷ dst) zero (s ∷ src) = ap suc (length-copy_at dst zero src)

  pub length-reverse : (list : List A) → length (reverse list) ≡ length list
  length-reverse [] = refl
  length-reverse (a ∷ rest) =
      ap length (reverse-cons a rest)
      ∙ length-append (reverse rest) (a ∷ [])
      ∙ omega (arith, length-reverse rest)

  pub All-append {κ} :
      (Q : A → Type κ) (front back : List A) → All Q front → All Q back → All Q (front ++ back)
  All-append Q [] back p q = q
  All-append Q (a ∷ front) back (p, ps) q = (p, All-append Q front back ps q)

  pub All-take {κ} : (P : A → Type κ) (n : ℕ) (xs : List A) → All P xs → All P (take n xs)
  All-take P zero xs h = tt
  All-take P (suc n) [] h = tt
  All-take P (suc n) (x ∷ xs) h = (h.0, All-take P n xs h.1)

  pub All-drop {κ} : (P : A → Type κ) (n : ℕ) (xs : List A) → All P xs → All P (drop n xs)
  All-drop P zero xs h = h
  All-drop P (suc n) [] h = tt
  All-drop P (suc n) (x ∷ xs) h = All-drop P n xs h.1

  pub All-replicate {κ} : (P : A → Type κ) (n : ℕ) (a : A) → P a → All P (replicate n a)
  All-replicate P zero a h = tt
  All-replicate P (suc n) a h = (h, All-replicate P n a h)

  pub All-reverse {κ} : (P : A → Type κ) (xs : List A) → All P xs → All P (reverse xs)
  All-reverse P [] h = h
  All-reverse P (x ∷ xs) h =
      rw (reverse-cons x xs) (All-append P (reverse xs) (x ∷ []) (All-reverse P xs h.1) (h.0, tt))

-- `make([]byte, n)`. Shut, so that a large buffer stays one term.
unfoldable pub make : ℕ → List ℕ
make n = replicate n 0

pub length-make : (n : ℕ) → length (make n) ≡ n
unfolding make
length-make n = length-replicate n 0
