-- ===== src/Client/Outgoing/Header.antt =====
-- internal/client/client.go: the header of a file fits its fields.
use road.Base.{
  ℕ, zero, suc, ◌^◌, ◌%◌, ◌<◌, ◌≡◌, refl, [], ◌∷◌, Option, none, some, Bytes, IsBytes, get_or,
  if_both, ltb, arith,
}
use road.Protocol.{FileHeaderFits}
use road.Client.Outgoing.{file_id_of, header_for, total_chunks_of}

get_or-IsByte : (bs : Bytes) (i : ℕ) → IsBytes bs → get_or bs i 0 < 256
get_or-IsByte [] i h = omega arith
get_or-IsByte (b ∷ bs) zero h = h.0
get_or-IsByte (b ∷ bs) (suc i) h = get_or-IsByte bs i h.1

pub file_id_of-bound :
    (o : Option Bytes) (now : ℕ)
    → ((bs : Bytes) → o ≡ some bs → IsBytes bs)
    → file_id_of o now < 2 ^ 32
unfolding file_id_of
file_id_of-bound none now h = omega arith
file_id_of-bound (some bs) now h =
    let p = get_or-IsByte bs 0 (h bs refl) in
    let q = get_or-IsByte bs 1 (h bs refl) in
    let u = get_or-IsByte bs 2 (h bs refl) in
    let v = get_or-IsByte bs 3 (h bs refl) in omega (arith, p, q, u, v)

total_chunks_of-bound : (n : ℕ) → total_chunks_of n < 2 ^ 32
unfolding total_chunks_of
total_chunks_of-bound n = if_both (λ k. k < 2 ^ 32) (ltb 0 n) _ _ (omega arith) (omega arith)

pub header_for-Fits :
    (path : Bytes) (size id : ℕ) → id < 2 ^ 32 → FileHeaderFits (header_for path size id)
unfolding header_for
header_for-Fits path size id h = record {
  size_64 = omega arith;
  chunks_32 = total_chunks_of-bound (size % 2 ^ 64);
  id_32 = h;
}
