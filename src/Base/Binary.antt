-- ===== src/Base/Binary.antt =====
-- Byte strings, and the big-endian integers of encoding/binary.
use Prim.Native.Nat.{ℕ, suc, ◌+◌, ◌*◌, ◌/◌, ◌%◌, ◌^◌, ◌<◌}
use Prim.Native.Char.{code}
use Prim.Native.String.{String}
use mathlib.Core.Path.{◌≡◌, refl}
use mathlib.Core.List.{List, [], ◌∷◌, ◌++◌}
use mathlib.Core.Bool.{Bool, true, false, ◌&&◌}
use mathlib.Core.Logic.{◌↔◌}
use road.Base.Tests.{◌==◌, ==_refl, ==_iff, Bool-cases}
use mathlib.Core.Path.{subst}
use mathlib.Core.Logic.{inl, inr}
use road.Base.Lists.{get_or, All}

abbrev pub Bytes : Type 0
Bytes = List ℕ

abbrev pub IsByte : ℕ → Type 0
IsByte b = b < 256

abbrev pub IsBytes : Bytes → Type 0
IsBytes = All IsByte

-- The code points of a text: its bytes, if it is ASCII.
abbrev pub codes : String → Bytes
codes String.[] = []
codes (String.◌∷◌ c s) = code c ∷ codes s

-- Equality of byte strings, and of the keys of a Go map.
abbrev pub bytes_eq : Bytes → Bytes → Bool
bytes_eq [] [] = true
bytes_eq [] (y ∷ ys) = false
bytes_eq (x ∷ xs) [] = false
bytes_eq (x ∷ xs) (y ∷ ys) = x == y && bytes_eq xs ys

-- `PutUint16`, `PutUint32` and `PutUint64` write these bytes.
abbrev pub be16 : ℕ → Bytes
be16 v = v / 2 ^ 8 % 256 ∷ v % 256 ∷ []

abbrev pub be32 : ℕ → Bytes
be32 v = v / 2 ^ 24 % 256 ∷ v / 2 ^ 16 % 256 ∷ v / 2 ^ 8 % 256 ∷ v % 256 ∷ []

abbrev pub be64 : ℕ → Bytes
be64 v = be32 (v / 2 ^ 32) ++ be32 v

-- `Uint16`, `Uint32` and `Uint64` of the bytes from `i` on.
abbrev pub uint16_at : Bytes → ℕ → ℕ
uint16_at b i = get_or b i 0 * 2 ^ 8 + get_or b (suc i) 0

abbrev pub uint32_at : Bytes → ℕ → ℕ
uint32_at b i = uint16_at b i * 2 ^ 16 + uint16_at b (suc (suc i))

abbrev pub uint64_at : Bytes → ℕ → ℕ
uint64_at b i = uint32_at b i * 2 ^ 32 + uint32_at b (suc (suc (suc (suc i))))

pub bytes_eq_refl : (xs : Bytes) → bytes_eq xs xs ≡ true
bytes_eq_refl [] = refl
bytes_eq_refl (x ∷ xs) = rw (==_refl x) (bytes_eq_refl xs)

pub bytes_eq_iff : (xs ys : Bytes) → (bytes_eq xs ys ≡ true) ↔ (xs ≡ ys)
bytes_eq_iff [] [] = ((λ h. refl), (λ h. refl))
bytes_eq_iff [] (y ∷ ys) = ((λ h. cc), (λ h. cc))
bytes_eq_iff (x ∷ xs) [] = ((λ h. cc), (λ h. cc))
bytes_eq_iff (x ∷ xs) (y ∷ ys) = (
  (λ h. elim (Bool-cases (x == y)) [
    | inl e ↦ λ i. (==_iff x y).0 e i ∷ (bytes_eq_iff xs ys).0 (rw e at h) i
    | inr e ↦ let f = rw e at h in cc
  ]),
  (λ h. subst (λ zs. bytes_eq (x ∷ xs) zs ≡ true) h (bytes_eq_refl (x ∷ xs))),
)
