-- ===== src/Relay/Invariant.antt =====
-- internal/relay/relay.go: the routing table leads only to registered peers, on connections that are open unless
-- the server was stopped or an eviction has hung up, after any steps.
use road.Base.{
  Distinct, insert-Distinct, delete-Distinct, ℕ, ◌≡◌, ◌≢◌, refl, sym, ap, ◌∙◌, Option, none, some,
  Bool, true, false, ◌==◌, Bytes, bytes_key, lookup, insert, update, lookup-insert, Bool-cases,
  Option-cases, ==_iff, ==_refl, ==-false, bytes_eq, bytes_eq_iff, inl, inr, arith, List, [], ◌∷◌,
  Result-cases, ok,
}
use road.Relay.{
  is_current, Server, Peer, new, accept, is_full, register, close, evict, evict_once, evict_all,
  handle_conn, do_handshake,
}
use road.Relay.Steps.{IsValid, Entry}
use road.Relay.Table.{drop_entry-some, evict_cases, lookup-evict}

pub update_self {ℓ} : {A : Type ℓ} (f : ℕ → A) (i : ℕ) (a : A) → update f i a i ≡ a
update_self f i a = rw (==_refl i)

pub update_ne {ℓ} : {A : Type ℓ} (f : ℕ → A) (i j : ℕ) (a : A) → i ≢ j → update f i a j ≡ f j
update_ne f i j a h = rw (==-false i j h)

pub new-IsValid : IsValid new
unfolding new lookup
new-IsValid = record { distinct = tt; entry = λ k c e. cc; fresh = λ c e. cc }

-- An entry stays one where its peer, its connection, the hang-up and the shutdown stay as they were.
pub Entry-keep :
    (s t : Server) {k : Bytes} {c : ℕ}
    → t.heap c ≡ s.heap c
    → t.closed c ≡ s.closed c
    → t.stopped ≡ s.stopped
    → t.hung_up ≡ s.hung_up
    → Entry s k c
    → Entry t k c
Entry-keep s t {c} h k r u x = record {
  peer = x.peer;
  in_heap = h ∙ x.in_heap;
  own_key = x.own_key;
  not_evicted = x.not_evicted;
  open_conn = λ q w. k ∙ x.open_conn (sym r ∙ q) (ap (λ f. f c) (sym u) ∙ w);
}

pub accept-IsValid :
    (s : Server) (c : ℕ)
    → s.heap c ≡ none
    → s.closed c ≡ false
    → s.pending c ≡ false
    → IsValid s
    → IsValid (accept s c)
unfolding accept
accept-IsValid s c h k new_conn v = elim (Bool-cases (is_full s)) [
  | inl full ↦
      rw (full, accept)
        (record {
          entry = λ j d e.
              let x = v.entry j d e in
              Entry-keep s _ refl
                (update_ne s.closed c d true (λ q. cc (ap s.heap q, h, x.in_heap))) refl refl x;
          distinct = v.distinct;
          fresh = λ d e.
              let (a, b) = v.fresh d e in
              (a, update_ne s.closed c d true (λ q. cc (new_conn, e)) ∙ b);
        })
  | inr room ↦
      rw (room, accept)
        (record {
          entry = λ j d e. Entry-keep s _ refl refl refl refl (v.entry j d e);
          distinct = v.distinct;
          fresh = λ d e. elim (Bool-cases (c == d)) [
            | inl q ↦ let f = (==_iff c d).0 q in (ap s.heap (sym f) ∙ h, ap s.closed (sym f) ∙ k)
            | inr q ↦ v.fresh d (rw q at e)
          ];
        })
]

evict-Distinct : (s : Server) (c : ℕ) → Distinct s.peers → Distinct (evict s c).peers
unfolding evict_once
evict-Distinct s c u = elim (evict_cases s c) [
  | inl (h, e) ↦ rw e u
  | inr (inl (p, h, f, e)) ↦ rw e u
  | inr (inr (p, h, f, e)) ↦ elim (Bool-cases (is_current (lookup p.key_hash s.peers) c)) [
    | inl cur ↦ rw (e, evict_once, cur) (delete-Distinct p.key_hash s.peers u)
    | inr other ↦ rw (e, evict_once, other) u
  ]
]

-- An eviction closes the connection of the peer that it takes out of the table.
pub evict-IsValid : (s : Server) (c : ℕ) → IsValid s → IsValid (evict s c)
unfolding evict_once
evict-IsValid s c v = elim (evict_cases s c) [
  | inl (h, e) ↦ rw e v
  | inr (inl (p, h, f, e)) ↦ rw e v
  | inr (inr (p, h, f, e)) ↦ record {
    entry = λ j d g.
        let (was, other) =
          drop_entry-some c d (lookup j s.peers) (sym (lookup-evict s v j c) ∙ g) in
        rw e (
          unfold evict_once in
          Entry-keep s (evict_once s c p) (update_ne s.heap c d _ other)
            (update_ne s.closed c d true other) refl refl (v.entry j d was));
    distinct = evict-Distinct s c v.distinct;
    fresh =
        rw (e, evict_once)
          (λ d g.
            let (a, b) = v.fresh d g in
            let other : c ≢ d = λ q. cc (ap s.heap q, h, a) in
            (update_ne s.heap c d _ other ∙ a, update_ne s.closed c d true other ∙ b));
  }
]

pub evict_all-IsValid : (cs : List ℕ) (s : Server) → IsValid s → IsValid (evict_all s cs)
unfolding evict_all
evict_all-IsValid [] s v = v
evict_all-IsValid (c ∷ cs) s v = evict_all-IsValid cs (evict s c) (evict-IsValid s c v)

-- The table with a new peer, over connections of which the replaced one may be closed.
with_peer : Server → ℕ → Peer → (ℕ → Bool) → Server
with_peer s c p closed = record s {
  heap = update s.heap c (some p);
  peers = insert p.key_hash c s.peers;
  closed = closed;
}

module _ (s : Server) (v : IsValid s) (c : ℕ) (p : Peer) (closed : ℕ → Bool)
    (new_conn : s.heap c ≡ none) (handled : s.pending c ≡ false) (not_evicted : p.evicted ≡ false)
    (stays_open : closed c ≡ false)
    (others : (j : Bytes) (d : ℕ)
      → lookup j s.peers ≡ some d
      → p.key_hash ≢ j
      → closed d ≡ s.closed d)
    (waiting : (d : ℕ) → s.pending d ≡ true → closed d ≡ s.closed d) where
  with_peer-Entry :
      (j : Bytes) (d : ℕ)
      → lookup j (insert p.key_hash c s.peers) ≡ some d
      → Entry (with_peer s c p closed) j d
  unfolding with_peer
  with_peer-Entry j d e = elim (Bool-cases (bytes_eq p.key_hash j)) [
    | inl same ↦
        let f : some c ≡ some d = rw (lookup-insert p.key_hash j c s.peers, same) at e in
        let g : c ≡ d = cc in
        record {
          peer = p;
          in_heap = ap (update s.heap c (some p)) (sym g) ∙ update_self s.heap c (some p);
          own_key = (bytes_eq_iff _ _).0 same;
          not_evicted = not_evicted;
          open_conn = λ r w. ap closed (sym g) ∙ stays_open;
        }
    | inr diff ↦
        let f : lookup j s.peers ≡ some d = rw (lookup-insert p.key_hash j c s.peers, diff) at e in
        let x = v.entry j d f in
        Entry-keep s (with_peer s c p closed)
          (update_ne s.heap c d (some p) (λ q. cc (ap s.heap q, new_conn, x.in_heap)))
          (others j d f (λ q. cc (diff, (bytes_eq_iff p.key_hash j).1 q))) refl refl x
  ]

  with_peer-IsValid : IsValid (with_peer s c p closed)
  with_peer-IsValid = record {
    entry = unfold with_peer in with_peer-Entry;
    distinct = unfold with_peer in insert-Distinct p.key_hash c s.peers v.distinct;
    fresh =
        unfold with_peer in
        λ d e.
          let (a, b) = v.fresh d e in
          (update_ne s.heap c d (some p) (λ q. cc (handled, e)) ∙ a, waiting d e ∙ b);
  }

-- A registration closes the connection that it replaces, whose entry it takes over.
pub register-IsValid :
    (s : Server) (c : ℕ) (p : Peer)
    → s.heap c ≡ none
    → s.closed c ≡ false
    → s.pending c ≡ false
    → p.evicted ≡ false
    → IsValid s
    → IsValid (register s c p)
unfolding register with_peer
register-IsValid s c p h k g f v = elim (Option-cases (lookup p.key_hash s.peers)) [
  | inl e ↦
      rw (e, close) (with_peer-IsValid s v c p s.closed h g f k (λ j d q r. refl) (λ d q. refl))
  | inr (old, e) ↦
      let x = v.entry p.key_hash old e in
      rw (e, close)
        (with_peer-IsValid s v c p (update s.closed old true) h g f
          (update_ne s.closed old c true (λ q. cc (ap s.heap q, h, x.in_heap)) ∙ k)
          (λ j d q r. update_ne s.closed old d true (λ o.
            let y = v.entry j d q in
            let same : some x.peer ≡ some y.peer = sym x.in_heap ∙ ap s.heap o ∙ y.in_heap in
            let peer : x.peer ≡ y.peer = cc in
            r (sym x.own_key ∙ ap (λ z. z.key_hash) peer ∙ y.own_key)))
          (λ d q.
            update_ne s.closed old d true
              (λ o. let (a, b) = v.fresh d q in cc (ap s.heap o, a, x.in_heap))))
]

do_handshake-not_evicted :
    (sha256 : Bytes → Bytes) (input : Option Bytes) (now : ℕ) (p : Peer)
    → do_handshake sha256 input now ≡ ok p
    → p.evicted ≡ false
unfolding do_handshake
do_handshake-not_evicted sha256 none now p e = cc
do_handshake-not_evicted sha256 (some buf) now p e = ground arith

pub handle_conn-IsValid :
    (sha256 : Bytes → Bytes) (s : Server) (c : ℕ) (input : Option Bytes) (now : ℕ)
    → s.pending c ≡ true
    → IsValid s
    → IsValid (handle_conn sha256 s c input now)
unfolding handle_conn
handle_conn-IsValid sha256 s c input now waits v =
    let (a, b) = v.fresh c waits in
    let s1 : Server = record s { pending = update s.pending c false } in
    let v1 : IsValid s1 = record {
      entry = λ j d e. Entry-keep s s1 refl refl refl refl (v.entry j d e);
      distinct = v.distinct;
      fresh = λ d e. elim (Bool-cases (c == d)) [
        | inl q ↦ let f = rw q at e in cc
        | inr q ↦ v.fresh d (rw q at e)
      ];
    } in
    elim (Result-cases (do_handshake sha256 input now)) [
      | inl (p, e) ↦
          rw (e, handle_conn)
            (register-IsValid s1 c p a b (update_self s.pending c false)
              (do_handshake-not_evicted sha256 input now p e) v1)
      | inr (x, e) ↦
          rw (e, handle_conn)
            (record {
              entry = λ j d g.
                  let y = v.entry j d g in
                  Entry-keep s _ refl
                    (update_ne s.closed c d true (λ q. cc (ap s.heap q, a, y.in_heap))) refl refl y;
              distinct = v.distinct;
              fresh = λ d g.
                  let (i, j) = v1.fresh d g in
                  (
                    i,
                    update_ne s.closed c d true (λ q.
                          let f =
                            rw (update_self s.pending c false) at
                              (ap (update s.pending c false) q) in
                          cc (f, g))
                        ∙ j,
                  );
            })
    ]
