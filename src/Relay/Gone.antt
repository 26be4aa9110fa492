-- ===== src/Relay/Gone.antt =====
-- internal/relay/relay.go: what each operation of the relay does to a connection whose peer was evicted.
use road.Base.{
  Bool, ℕ, ◌≡◌, ◌≢◌, refl, sym, ap, ◌∙◌, List, [], ◌∷◌, Option, none, some, true, false, ◌==◌,
  Bytes, bytes_key, lookup, update, take, drop, length, Option-cases, Bool-cases, Result-cases,
  ==_iff, inl, inr, if_both,
}
use road.Relay.{
  Server, Peer, evict, evict_once, evict_all, handle_conn, do_handshake, register, close,
  relay_round, touch, forward, WriteOutcome, deadline_failed, write_failed, write_done,
  outer_frame_size, recipient_hash_size,
}
use road.Relay.Steps.{IsValid}
use road.Relay.Table.{evict_cases}
use road.Relay.Invariant.{update_self}
use road.Relay.Routing.{touch-same, round_none, round_some}
use road.Relay.Written.{packets_to, packets_to-other}

-- The eviction of a connection's peer has run.
pub record IsGone (c : ℕ) (s : Server) : Type 0 where
  pub peer : Peer
  pub in_heap : s.heap c ≡ some peer
  pub evicted : peer.evicted ≡ true
  pub closed : s.closed c ≡ true

pub update-true : (f : ℕ → Bool) (d c : ℕ) → f c ≡ true → update f d true c ≡ true
update-true f d c e = if_both (λ b. b ≡ true) (d == c) _ _ refl e

pub keeps :
    (c : ℕ) (s t : Server) → t.heap c ≡ s.heap c → t.closed c ≡ true → IsGone c s → IsGone c t
keeps c s t e closed g = record {
  peer = g.peer;
  in_heap = e ∙ g.in_heap;
  evicted = g.evicted;
  closed = closed;
}

pub evict_self-IsGone :
    (s : Server) (c : ℕ) (p : Peer) → s.heap c ≡ some p → p.evicted ≡ false → IsGone c (evict s c)
unfolding evict_once
evict_self-IsGone s c p at first = elim (evict_cases s c) [
  | inl (h, e) ↦ absurd (cc (at))
  | inr (inl (q, h, f, e)) ↦
      absurd
        (let g : some q ≡ some p = sym h ∙ at in let k : q ≡ p = cc in cc (ap (λ z. z.evicted) k))
  | inr (inr (q, h, f, e)) ↦
      rw (e, evict_once)
        (record {
          peer = record q { evicted = true };
          in_heap = update_self s.heap c _;
          evicted = refl;
          closed = update_self s.closed c true;
        })
]

pub evict-IsGone : (s : Server) (d c : ℕ) → IsGone c s → IsGone c (evict s d)
unfolding evict_once
evict-IsGone s d c g = elim (evict_cases s d) [
  | inl (h, e) ↦ rw e g
  | inr (inl (p, h, f, e)) ↦ rw e g
  | inr (inr (p, h, f, e)) ↦ elim (Bool-cases (d == c)) [
    | inl q ↦
        let same = (==_iff d c).0 q in
        absurd (
          let x : some p ≡ some g.peer = sym h ∙ ap s.heap same ∙ g.in_heap in
          let y : p ≡ g.peer = cc in cc (ap (λ z. z.evicted) y, g.evicted))
    | inr q ↦ rw (e, evict_once) (keeps c s _ (rw q) (update-true s.closed d c g.closed) g)
  ]
]

pub evict_all-IsGone : (cs : List ℕ) (s : Server) (c : ℕ) → IsGone c s → IsGone c (evict_all s cs)
unfolding evict_all
evict_all-IsGone [] s c g = g
evict_all-IsGone (d ∷ cs) s c g = evict_all-IsGone cs (evict s d) c (evict-IsGone s d c g)

close-closed : (s : Server) (o : Option ℕ) (c : ℕ) → s.closed c ≡ true → (close s o).closed c ≡ true
unfolding close
close-closed s none c e = e
close-closed s (some d) c e = update-true s.closed d c e

pub handle_conn-closed :
    (sha256 : Bytes → Bytes) (s : Server) (d c : ℕ) (input : Option Bytes) (now : ℕ)
    → s.closed c ≡ true
    → (handle_conn sha256 s d input now).closed c ≡ true
unfolding handle_conn register
handle_conn-closed sha256 s d c input now e = elim (Result-cases (do_handshake sha256 input now)) [
  | inr (x, f) ↦ rw (handle_conn, f) (update-true s.closed d c e)
  | inl (p, f) ↦
      rw (handle_conn, f)
        (close-closed (record s { pending = update s.pending d false }) (lookup p.key_hash s.peers)
          c e)
]

-- A sign of life does not bring an evicted peer back.
touch-IsGone : (s : Server) (d c now : ℕ) → IsGone c s → IsGone c (touch s d now)
unfolding touch
touch-IsGone s d c now g = elim (Option-cases (s.heap d)) [
  | inl e ↦ rw (e, touch) g
  | inr (p, e) ↦ elim (Bool-cases (d == c)) [
    | inl q ↦
        let x : some p ≡ some g.peer = sym e ∙ ap s.heap ((==_iff d c).0 q) ∙ g.in_heap in
        let y : p ≡ g.peer = cc in
        rw (e, touch)
          (record {
            peer = record p { last_alive = now };
            in_heap = rw q;
            evicted = ap (λ z. z.evicted) y ∙ g.evicted;
            closed = g.closed;
          })
    | inr q ↦ rw (e, touch) (keeps c s _ (rw q) g.closed g)
  ]
]

forward-IsGone :
    (s : Server) (q c : ℕ) (packet : Bytes) (o : WriteOutcome)
    → IsGone c s
    → IsGone c (forward s q packet o).0
unfolding forward
forward-IsGone s q c packet deadline_failed g = g
forward-IsGone s q c packet (write_failed n) g = keeps c s _ refl g.closed g
forward-IsGone s q c packet write_done g = keeps c s _ refl g.closed g

forward-packets_to :
    (s : Server) (q c : ℕ) (packet : Bytes) (o : WriteOutcome)
    → q ≢ c
    → packets_to c (forward s q packet o).0.written ≡ packets_to c s.written
unfolding forward
forward-packets_to s q c packet deadline_failed ne = refl
forward-packets_to s q c packet (write_failed n) ne =
    packets_to-other c q (take n packet) s.written ne
forward-packets_to s q c packet write_done ne = packets_to-other c q packet s.written ne

-- A connection that is gone has no route.
pub no_route : (s : Server) (c : ℕ) (k : Bytes) → IsValid s → IsGone c s → lookup k s.peers ≢ some c
no_route s c k v g e =
    let x = v.entry k c e in
    let y : some x.peer ≡ some g.peer = sym x.in_heap ∙ g.in_heap in
    let z : x.peer ≡ g.peer = cc in cc (ap (λ p. p.evicted) z, x.not_evicted, g.evicted)

-- What a step leaves of a connection that is gone, and writes to it.
abbrev pub Silent : ℕ → Server → Server → Type 0
Silent c s t = IsGone c t × (packets_to c t.written ≡ packets_to c s.written)

pub relay_round-Silent :
    (s : Server) (d c : ℕ) (buf : Bytes) (now : ℕ) (o : WriteOutcome)
    → length buf ≡ outer_frame_size
    → IsValid s
    → IsGone c s
    → Silent c s (relay_round s d buf now o).server
relay_round-Silent s d c buf now o size v g =
    let (peers, written, closed) = touch-same s d now in
    let same = ap (packets_to c) written in
    elim (Option-cases (lookup (take recipient_hash_size buf) s.peers)) [
      | inl e ↦ rw (round_none s d buf now o size e) (touch-IsGone s d c now g, same)
      | inr (q, e) ↦
          let packet = drop recipient_hash_size buf in
          let ne : q ≢ c = λ f. no_route s c _ v g (e ∙ ap some f) in
          rw (round_some s d buf now o size q e) (
            forward-IsGone (touch s d now) q c packet o (touch-IsGone s d c now g),
            forward-packets_to (touch s d now) q c packet o ne ∙ same,
          )
    ]
