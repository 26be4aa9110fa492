-- ===== src/Client/Incoming/Loop.antt =====
-- internal/client/client.go: `recvLoop`, over what its reads give one after the other.
use mathlib.Core.Path.{subst, ap₂}
use road.Base.{
  sym, ◌≢◌, ℕ, ◌≡◌, refl, ap, ◌∙◌, List, [], ◌∷◌, Option, none, some, Bool, true, false,
  if◌then◌else◌, Bytes, nat_key, ◌⊎◌, inl, inr, All,
}
use road.Crypto.Cipher.{Aead, Random, open_packet}
use road.Crypto.Cipher
use road.Client.{Session, zeroize, emit, peer_disconnected}
use road.Client.Incoming.Torn.{Keeps, IsTorn, zeroize-IsTorn, recv_packet-Goes}
use road.Client.Incoming.{CreateOutcome, DiskOutcome, recv_packet, read_failed}

-- A packet that was read in full, with what the disk will do for it.
pub record Read : Type 0 where
  pub packet : Bytes
  pub create : CreateOutcome
  pub disk : DiskOutcome

-- `conn == nil || cs == nil`, negated.
abbrev are_set : Option ℕ → Option Cipher.Session → Bool
are_set (some i) (some cs) = true
are_set (some i) none = false
are_set none cs = false

unfoldable pub is_connected : Session → Bool
is_connected s = are_set s.conn s.cipher_sess

module _ (c : Aead) (r : Random) (percent : ℕ → ℕ → ℕ) where
  -- The flag says whether the loop has returned; `none` is a read that fails.
  unfoldable pub recv_loop : Session → r.Source → List (Option Read) → Session × r.Source × Bool
  unfolding is_connected
  recv_loop s rand [] = (s, rand, s.done)
  recv_loop s rand (none ∷ reads) =
      if s.done
      then (s, rand, true)
      else if is_connected s
      then (read_failed s, rand, true)
      else (s, rand, true)
  recv_loop s rand (some read ∷ reads) =
      let (s1, rand1) = recv_packet c r percent s rand read.packet read.create read.disk in
      let rest = recv_loop s1 rand1 reads in
      if s.done then (s, rand, true) else if is_connected s then rest else (s, rand, true)

module _ (c : Aead) (r : Random) (percent : ℕ → ℕ → ℕ) where
  recv_loop-done :
      (s : Session) (rand : r.Source) (reads : List (Option Read))
      → s.done ≡ true
      → recv_loop c r percent s rand reads ≡ (s, rand, true)
  unfolding recv_loop
  recv_loop-done s rand [] e = ap (λ d. (s, rand, d)) e
  recv_loop-done s rand (none ∷ reads) e = simp e refl
  recv_loop-done s rand (some read ∷ reads) e = simp e refl

  -- How the loop stands after some reads.
  abbrev pub Stands : List (Option Read) → Session × r.Source × Bool → Type 0
  Stands reads out =
      ((out.2 ≡ true) × IsTorn out.0)
      ⊎ ((out.2 ≡ false) × (out.0.done ≡ false) × All (λ read. read ≢ none) reads)

  is_connected-Keeps : (s s1 : Session) → Keeps s s1 → is_connected s1 ≡ is_connected s
  unfolding is_connected
  is_connected-Keeps s s1 (done, cipher, conn) = ap₂ are_set conn cipher

  recv_loop-next :
      (s : Session) (rand : r.Source) (read : Read) (reads : List (Option Read))
      → s.done ≡ false
      → is_connected s ≡ true
      → let (s1, rand1) = recv_packet c r percent s rand read.packet read.create read.disk in
        recv_loop c r percent s rand (some read ∷ reads) ≡ recv_loop c r percent s1 rand1 reads
  unfolding recv_loop
  recv_loop-next s rand read reads live connected = simp (live, connected) refl

  recv_loop-failed :
      (s : Session) (rand : r.Source) (reads : List (Option Read))
      → s.done ≡ false
      → is_connected s ≡ true
      → recv_loop c r percent s rand (none ∷ reads) ≡ (read_failed s, rand, true)
  unfolding recv_loop
  recv_loop-failed s rand reads live connected = simp (live, connected) refl

  read_failed-IsTorn : (s : Session) → s.done ≡ false → IsTorn (read_failed s)
  unfolding read_failed
  read_failed-IsTorn s live =
      let torn = zeroize (emit s peer_disconnected) in
      subst (λ d. IsTorn (if d then s else torn)) (sym live)
        (zeroize-IsTorn (emit s peer_disconnected) live)

  -- The receive loop of a session that is open and connected, over any reads: it has returned, and
  -- then the session is done, with no key and no connection left; or it goes on, and then the session
  -- is open and no read has failed. So a read that fails always ends both, and the loop never goes on
  -- with a session that was torn down.
  pub recv_loop_lem :
      (s : Session) (rand : r.Source) (reads : List (Option Read))
      → s.done ≡ false
      → is_connected s ≡ true
      → Stands reads (recv_loop c r percent s rand reads)
  unfolding recv_loop
  recv_loop_lem s rand [] live connected = inr (live, live, tt)
  recv_loop_lem s rand (none ∷ reads) live connected =
      subst (Stands (none ∷ reads)) (sym (recv_loop-failed s rand reads live connected))
        (inl (refl, read_failed-IsTorn s live))
  recv_loop_lem s rand (some read ∷ reads) live connected =
      let (s1, rand1) = recv_packet c r percent s rand read.packet read.create read.disk in
      subst (Stands (some read ∷ reads)) (sym (recv_loop-next s rand read reads live connected))
        (elim (recv_packet-Goes c r percent s rand read.packet read.create read.disk live) [
          | inl torn ↦
              subst (Stands (some read ∷ reads)) (sym (recv_loop-done s1 rand1 reads torn.0))
                (inl (refl, torn))
          | inr keeps ↦
              elim (recv_loop_lem s1 rand1 reads (keeps.0 ∙ live)
                (is_connected-Keeps s s1 keeps ∙ connected)) [
                  | inl out ↦ inl out
                  | inr (going, still, all) ↦ inr (going, still, ((λ e. cc), all))
                ]
        ])
