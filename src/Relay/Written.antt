-- ===== src/Relay/Written.antt =====
-- internal/relay/relay.go: what was written to one connection, of all that a relay has written.
use road.Base.{
  ℕ, ◌≡◌, ◌≢◌, refl, ap, List, [], ◌∷◌, ◌++◌, Bytes, if◌then◌else◌, ◌==◌, ==-false, Bool-cases, inl,
  inr,
}

unfoldable pub packets_to : ℕ → List (ℕ × Bytes) → List Bytes
packets_to to [] = []
packets_to to ((q, packet) ∷ written) =
    let rest = packets_to to written in if q == to then packet ∷ rest else rest

-- A write to another connection.
pub packets_to-other :
    (c q : ℕ) (packet : Bytes) (written : List (ℕ × Bytes))
    → q ≢ c
    → packets_to c (written ++ ((q, packet) ∷ [])) ≡ packets_to c written
unfolding packets_to
packets_to-other c q packet [] ne = rw (==-false q c ne) refl
packets_to-other c q packet ((d, p) ∷ written) ne = elim (Bool-cases (d == c)) [
  | inl e ↦ rw e (ap (◌∷◌ p) (packets_to-other c q packet written ne))
  | inr e ↦ rw e (packets_to-other c q packet written ne)
]
