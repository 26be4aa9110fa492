-- ===== src/Client/Races/Silent.antt =====
-- internal/client/client.go: many calls of `sendPacket` at once, in pieces, and `Zeroize`: what is still
-- written after the teardown.
use road.Base.{
  ℕ, ◌≡◌, refl, sym, ap, ◌∙◌, List, Option, none, some, true, false, if◌then◌else◌, Result, ok, err,
  Bytes, inl, inr, ◌==◌, ==_iff, Bool-cases, if_both,
}
use mathlib.Core.Path.{subst}
use road.Crypto.Cipher.{Aead, Random}
use road.Crypto.Cipher
use road.Client.{Session, zeroize}
use road.Client.Teardown.{zeroize_done}
use road.Client.Races.Held.{
  Held, piece-conn, piece-OnlySends, piece-Held, OnlySends-Held, zeroize-closes, zeroize-Held,
}
use road.Client.Races.{
  Call, entered, captured, checked, sealed, timed, deadline_piece, returned, panicked, piece,
  after_seal, write_piece, conn_of, Race, go, Pieces, goes, tears, begins, then_piece,
}

-- Torn down, with what was sent until then, and calls that hold closed connections only.
record IsStill (r : Random) (sent : List Bytes) (x : Race r) : Type 0 where
  done : x.session.done ≡ true
  no_conn : x.session.conn ≡ none
  same_sent : x.session.sent ≡ sent
  closed : (n i : ℕ) → conn_of (x.calls n) ≡ some i → x.session.conn_closed i ≡ true

module _ (c : Aead) (r : Random) (payload : Bytes) (s : Session) (rand : r.Source)
    (done : s.done ≡ true) where
  piece-still :
      (call : Call)
      → ((i : ℕ) → conn_of call ≡ some i → s.conn_closed i ≡ true)
      → ((piece c r payload s rand call).0 ≡ s)
        × ((piece c r payload s rand call).2 ≡ returned (ok tt) → call ≡ returned (ok tt))
  unfolding piece after_seal deadline_piece write_piece
  piece-still entered h = (refl, λ e. cc)
  piece-still (captured conn cs) h = (refl, λ e. absurd (let g = rw done at e in cc))
  piece-still (checked i) h = (refl, λ e. absurd (after_seal-ok _ i s.peer_key_hash _ e))
    where
      after_seal-ok :
          (aead : Option Bytes) (j : ℕ) (hash : Bytes) (enc : Result Cipher.Error Bytes)
          → after_seal aead j hash enc ≡ returned (ok tt)
          → ⊥
      after_seal-ok aead j hash (err x) e = cc
      after_seal-ok none j hash (ok enc) e = cc
      after_seal-ok (some key) j hash (ok enc) e = cc
  piece-still (sealed i frame) h =
      (simp (h i refl) refl, λ e. absurd (let g = rw (h i refl) at e in cc))
  piece-still (timed i frame outcome) h =
      (simp (h i refl) refl, λ e. absurd (let g = rw (h i refl) at e in cc))
  piece-still (returned result) h = (refl, λ e. e)
  piece-still panicked h = (refl, λ e. cc)

module _ (c : Aead) (r : Random) (payloads : ℕ → Bytes) where
  abbrev AllHeld : Race r → Type 0
  AllHeld x = (n : ℕ) → Held x.session (x.calls n)

  go-AllHeld : (x : Race r) (n : ℕ) → AllHeld x → AllHeld (go c r payloads x n)
  unfolding go
  go-AllHeld x n h m =
      let call = (piece c r (payloads n) x.session x.source (x.calls n)).2 in
      let only = piece-OnlySends c r (payloads n) x.session x.source (x.calls n) in
      OnlySends-Held x.session _ (if n == m then call else x.calls m) only (
        if_both (Held x.session) (n == m) call (x.calls m)
          (piece-Held c r (payloads n) x.session x.source (x.calls n) (h n)) (h m))

  Pieces-AllHeld : {x y : Race r} → AllHeld x → Pieces c r payloads x y → AllHeld y
  Pieces-AllHeld h begins = h
  Pieces-AllHeld h (then_piece {y} ps (goes n)) = go-AllHeld y n (Pieces-AllHeld h ps)
  Pieces-AllHeld h (then_piece {y} ps tears) =
      λ m. zeroize-Held y.session (y.calls m) (Pieces-AllHeld h ps m)

  -- A call that is under way after the teardown does not end well.
  abbrev EndedBefore : Race r → Race r → Type 0
  EndedBefore x y = (n : ℕ) → y.calls n ≡ returned (ok tt) → x.calls n ≡ returned (ok tt)

  module _ (sent : List Bytes) (x : Race r) (v : IsStill r sent x) (n : ℕ) where
    moved : Session × r.Source × Call
    moved = piece c r (payloads n) x.session x.source (x.calls n)

    stays : moved.0 ≡ x.session
    unfolding moved
    stays = (piece-still c r (payloads n) x.session x.source v.done (x.calls n) (v.closed n)).0

    moved-closed : (i : ℕ) → conn_of moved.2 ≡ some i → x.session.conn_closed i ≡ true
    unfolding moved
    moved-closed i e = elim (piece-conn c r (payloads n) x.session x.source (x.calls n) i e) [
      | inl f ↦ v.closed n i f
      | inr f ↦ absurd (cc (v.no_conn))
    ]

    go-IsStill : IsStill r sent (go c r payloads x n)
    unfolding go moved
    go-IsStill = record {
      done = ap (λ s. s.done) stays ∙ v.done;
      no_conn = ap (λ s. s.conn) stays ∙ v.no_conn;
      same_sent = ap (λ s. s.sent) stays ∙ v.same_sent;
      closed = λ m i.
          subst
            (λ s. conn_of (if n == m then moved.2 else x.calls m) ≡ some i → s.conn_closed i ≡ true)
            (sym stays)
            (if_both (λ call. conn_of call ≡ some i → x.session.conn_closed i ≡ true) (n == m)
              moved.2 (x.calls m) (moved-closed i) (v.closed m i));
    }

    go-EndedBefore : EndedBefore x (go c r payloads x n)
    unfolding go moved
    go-EndedBefore m = elim (Bool-cases (n == m)) [
      | inl e ↦ rw e (
          rw (← (==_iff n m).0 e)
            (piece-still c r (payloads n) x.session x.source v.done (x.calls n) (v.closed n)).1)
      | inr e ↦ rw e (λ f. f)
    ]

  Pieces-IsStill :
      (sent : List Bytes) {x y : Race r}
      → IsStill r sent x
      → Pieces c r payloads x y
      → IsStill r sent y × EndedBefore x y
  Pieces-IsStill sent v begins = (v, λ n e. e)
  Pieces-IsStill sent v (then_piece {y} ps (goes n)) =
      let (w, ended) = Pieces-IsStill sent v ps in
      (go-IsStill sent y w n, λ m e. ended m (go-EndedBefore sent y w n m e))
  Pieces-IsStill sent v (then_piece {y} ps tears) =
      let (w, ended) = Pieces-IsStill sent v ps in
      (
        subst (λ s. IsStill r sent (record y { session = s })) (sym (zeroize_done y.session w.done))
            w,
        ended,
      )

  -- Any number of calls of `sendPacket` on any session, in pieces that interleave in any way, and
  -- `Zeroize` when the session is still open: after it, no frame and no part of one is written, by a
  -- call that was under way or by a later one, however the pieces go on; and no call reports success
  -- that had not done so before.
  pub Pieces-zeroize :
      (s : Session) (rand : r.Source) {x y : Race r}
      → Pieces c r payloads (record { session = s; source = rand; calls = λ n. entered }) x
      → x.session.done ≡ false
      → Pieces c r payloads (record x { session = zeroize x.session }) y
      → (y.session.sent ≡ x.session.sent) × EndedBefore x y
  unfolding zeroize
  Pieces-zeroize s rand {x} before live after =
      let held = Pieces-AllHeld (λ n i e. cc) before in
      let (v, ended) =
        Pieces-IsStill x.session.sent
          (record {
            done = simp live refl;
            no_conn = simp live refl;
            same_sent = simp live refl;
            closed = λ n i e. zeroize-closes x.session i live (held n i e);
          })
          after in
      (v.same_sent, ended)
