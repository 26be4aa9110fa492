-- ===== src/Crypto/Standins.antt =====
-- Small values of the cipher's and the random source's interfaces, for concrete runs.
use road.Base.{
  ℕ, ◌+◌, ◌-◌, ◌≡◌, refl, none, some, Option, if◌then◌else◌, bytes_eq, bytes_eq_refl, Bytes, length,
  take, drop, replicate, ◌++◌, ◌==◌, take_append, drop_append, length-append, length-replicate,
  get_or, arith, Bool-cases, inl, inr,
}
use road.Crypto.Cipher.{Aead, Random}

unfoldable pub tag : Bytes → Bytes
tag key = replicate 16 (get_or key 0 0)

-- The text in the clear, and sixteen times the first byte of the key.
unfoldable pub clear_seal : Bytes → Bytes → Bytes → Bytes
unfolding tag
clear_seal key nonce text = text ++ tag key

unfoldable pub clear_open : Bytes → Bytes → Bytes → Option Bytes
unfolding tag
clear_open key nonce sealed =
    let n = length sealed - 16 in
    if bytes_eq (drop n sealed) (tag key) then some (take n sealed) else none

pub clear_seal-length :
    (key nonce text : Bytes) → length (clear_seal key nonce text) ≡ length text + 16
unfolding clear_seal
clear_seal-length key nonce text = length-append text (tag key)

pub clear_open-clear_seal :
    (key nonce text : Bytes) → clear_open key nonce (clear_seal key nonce text) ≡ some text
unfolding clear_open clear_seal
clear_open-clear_seal key nonce text =
    let e : length (text ++ tag key) - 16 ≡ length text =
      omega (arith, length-append text (tag key)) in
    rw (
      e,
      drop_append text (tag key) (length text) refl,
      bytes_eq_refl,
      take_append text (tag key) (length text) refl,
    )

abbrev pub clear_aead : Aead
clear_aead = record {
  seal = clear_seal;
  open_sealed = clear_open;
  length-seal = clear_seal-length;
  open-seal = clear_open-clear_seal;
}

-- Succeeds a given number of times; the bytes count the reads that are left.
unfoldable pub counted_read : ℕ → ℕ → Option Bytes × ℕ
counted_read s n = (if s == 0 then none else some (replicate n s), s - 1)

pub counted_read-length : (s n : ℕ) (bs : Bytes) → (counted_read s n).0 ≡ some bs → length bs ≡ n
unfolding counted_read
counted_read-length s n bs e = elim (Bool-cases (s == 0)) [
  | inl h ↦ let f = rw h at e in cc
  | inr h ↦
      let f : some (replicate n s) ≡ some bs = rw h at e in
      let g : replicate n s ≡ bs = cc in rw (← g) (length-replicate n s)
]

abbrev pub counted : Random
counted = record { Source = ℕ; read_full = counted_read; length-read_full = counted_read-length }
