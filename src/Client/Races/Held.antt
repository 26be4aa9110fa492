-- ===== src/Client/Races/Held.antt =====
-- internal/client/client.go: the connection that a call of `sendPacket` holds between two of its pieces.
use road.Base.{
  ap, if_both, drop, List, [], ◌∷◌, ℕ, ◌≡◌, refl, sym, Option, none, some, Bool, true, false,
  Result, ok, err, Bytes, ◌⊎◌, inl, inr, Bool-cases,
}
use mathlib.Core.Path.{subst}
use road.Crypto.Cipher.{Aead, Random}
use road.Crypto.Cipher
use road.Relay.{WriteOutcome, deadline_failed, write_failed, write_done}
use road.Client.{Session, zeroize}
use road.Client.Teardown.{close_conn_self, close_conn_keeps, zeroize_done}
use road.Client.Outgoing.Lines.{OnlySends, nothing-OnlySends, write_frame-OnlySends}
use road.Client.Races.{
  Call, entered, captured, checked, sealed, returned, panicked, piece, nil_checked, after_seal,
  write_piece, conn_of, timed, deadline_piece, after_deadline,
}

-- A connection that a call holds is the session's, or closed.
abbrev pub Held : Session → Call → Type 0
Held s call = (i : ℕ) → conn_of call ≡ some i → (s.conn ≡ some i) ⊎ (s.conn_closed i ≡ true)

nil_checked-conn :
    (conn : Option ℕ) (cs : Bool) (i : ℕ) → conn_of (nil_checked conn cs) ≡ some i → conn ≡ some i
unfolding nil_checked
nil_checked-conn none cs i e = cc
nil_checked-conn (some j) false i e = cc
nil_checked-conn (some j) true i e = e

pub after_seal-conn :
    (aead : Option Bytes) (j : ℕ) (hash : Bytes) (enc : Result Cipher.Error Bytes) (i : ℕ)
    → conn_of (after_seal aead j hash enc) ≡ some i
    → some j ≡ some i
unfolding after_seal
after_seal-conn aead j hash (err x) i e = cc
after_seal-conn none j hash (ok enc) i e = cc
after_seal-conn (some key) j hash (ok enc) i e = e

deadline_piece-OnlySends :
    (s : Session) (i : ℕ) (frame : Bytes) → OnlySends s (deadline_piece s i frame).0
unfolding deadline_piece
deadline_piece-OnlySends s i frame =
    if_both (λ (out : Session × Call). OnlySends s out.0) (s.conn_closed i) _ _
      (nothing-OnlySends s) (record { sent = s.sent; network = drop 1 s.network; same = refl })

write_piece-OnlySends :
    (s : Session) (i : ℕ) (frame : Bytes) (outcome : List WriteOutcome)
    → OnlySends s (write_piece s i frame outcome).0
unfolding write_piece
write_piece-OnlySends s i frame outcome =
    let x = write_frame-OnlySends s frame outcome in
    if_both (λ (out : Session × Call). OnlySends s out.0) (s.conn_closed i) _ _
      (nothing-OnlySends s)
      (record {
        sent = x.sent;
        network = s.network;
        same = ap (λ (t : Session). record t { network = s.network }) x.same;
      })

after_deadline-conn :
    (j : ℕ) (frame : Bytes) (os : List WriteOutcome) (i : ℕ)
    → conn_of (after_deadline j frame os) ≡ some i
    → some j ≡ some i
unfolding after_deadline
after_deadline-conn j frame [] i e = e
after_deadline-conn j frame (deadline_failed ∷ os) i e = cc
after_deadline-conn j frame (write_failed n ∷ os) i e = e
after_deadline-conn j frame (write_done ∷ os) i e = e

deadline_piece-conn :
    (s : Session) (j : ℕ) (frame : Bytes) (i : ℕ)
    → conn_of (deadline_piece s j frame).1 ≡ some i
    → some j ≡ some i
unfolding deadline_piece
deadline_piece-conn s j frame i = elim (Bool-cases (s.conn_closed j)) [
  | inl e ↦ rw e (λ f. absurd (cc (f)))
  | inr e ↦ rw e (after_deadline-conn j frame s.network i)
]

write_piece-conn :
    (s : Session) (j : ℕ) (frame : Bytes) (outcome : List WriteOutcome)
    → conn_of (write_piece s j frame outcome).1 ≡ none
unfolding write_piece
write_piece-conn s j frame outcome =
    if_both (λ (out : Session × Call). conn_of out.1 ≡ none) (s.conn_closed j) _ _ refl refl

module _ (c : Aead) (r : Random) (payload : Bytes) (s : Session) (rand : r.Source) where
  pub piece-OnlySends : (call : Call) → OnlySends s (piece c r payload s rand call).0
  unfolding piece
  piece-OnlySends entered = nothing-OnlySends s
  piece-OnlySends (captured conn cs) = nothing-OnlySends s
  piece-OnlySends (checked i) = nothing-OnlySends s
  piece-OnlySends (sealed i frame) = deadline_piece-OnlySends s i frame
  piece-OnlySends (timed i frame outcome) = write_piece-OnlySends s i frame outcome
  piece-OnlySends (returned result) = nothing-OnlySends s
  piece-OnlySends panicked = nothing-OnlySends s

  -- A piece brings in no connection but the session's.
  pub piece-conn :
      (call : Call) (i : ℕ)
      → conn_of (piece c r payload s rand call).2 ≡ some i
      → (conn_of call ≡ some i) ⊎ (s.conn ≡ some i)
  unfolding piece
  piece-conn entered i e = inr e
  piece-conn (captured conn cs) i e = elim (Bool-cases s.done) [
    | inl f ↦ absurd (let g = rw f at e in cc)
    | inr f ↦ inl (nil_checked-conn conn cs i (rw f at e))
  ]
  piece-conn (checked j) i e = inl (after_seal-conn _ j s.peer_key_hash _ i e)
  piece-conn (sealed j frame) i e = inl (deadline_piece-conn s j frame i e)
  piece-conn (timed j frame outcome) i e = absurd (cc (e, write_piece-conn s j frame outcome))
  piece-conn (returned result) i e = inl e
  piece-conn panicked i e = inl e

pub piece-Held :
    (c : Aead) (r : Random) (payload : Bytes) (s : Session) (rand : r.Source) (call : Call)
    → Held s call
    → Held s (piece c r payload s rand call).2
piece-Held c r payload s rand call h i e = elim (piece-conn c r payload s rand call i e) [
  | inl f ↦ h i f
  | inr f ↦ inl f
]

pub OnlySends-Held : (s s1 : Session) (call : Call) → OnlySends s s1 → Held s call → Held s1 call
OnlySends-Held s s1 call x h i e =
    subst (λ t. (t.conn ≡ some i) ⊎ (t.conn_closed i ≡ true)) (sym x.same) (h i e)

-- The teardown closes the connection, for the calls that hold it too.
pub zeroize-closes :
    (s : Session) (i : ℕ)
    → s.done ≡ false
    → (s.conn ≡ some i) ⊎ (s.conn_closed i ≡ true)
    → (zeroize s).conn_closed i ≡ true
unfolding zeroize
zeroize-closes s i live (inl e) = simp live (close_conn_self s.conn s.conn_closed i e)
zeroize-closes s i live (inr e) = simp live (close_conn_keeps s.conn s.conn_closed i e)

pub zeroize-Held : (s : Session) (call : Call) → Held s call → Held (zeroize s) call
zeroize-Held s call h i e = elim (Bool-cases s.done) [
  | inl f ↦
      subst (λ t. (t.conn ≡ some i) ⊎ (t.conn_closed i ≡ true)) (sym (zeroize_done s f)) (h i e)
  | inr f ↦ inr (zeroize-closes s i f (h i e))
]
