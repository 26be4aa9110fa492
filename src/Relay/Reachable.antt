-- ===== src/Relay/Reachable.antt =====
-- internal/relay/relay.go: every step of the relay keeps the invariant, so it holds after any interleaving.
use road.Base.{
  ℕ, ◌≡◌, ◌≢◌, refl, sym, ap, ◌∙◌, some, Bool, true, false, ◌==◌, Bytes, bytes_key, lookup, update,
  Bool-cases, Option-cases, ==_iff, inl, inr, List, [], ◌∷◌, Distinct, copy_at, lookup_tail, make,
  lookup_head, take, drop,
}
use road.Relay.{
  Server, Peer, hang_up, sweep_stale, stale_of, relay_round, touch, forward, WriteOutcome,
  deadline_failed, write_failed, write_done, stop, close_all, recipient_hash_size,
}
use road.Relay.Steps.{
  IsValid, Step, accepts, handles, relays, hangs_up, evicts, sweeps, stops, Reach, start, next,
}
use road.Relay.Invariant.{
  update_ne, Entry-keep, new-IsValid, accept-IsValid, evict-IsValid, evict_all-IsValid,
  handle_conn-IsValid,
}

touch-IsValid : (s : Server) (c now : ℕ) → IsValid s → IsValid (touch s c now)
unfolding touch
touch-IsValid s c now v = elim (Option-cases (s.heap c)) [
  | inl e ↦ rw (e, touch) v
  | inr (p, e) ↦
      rw (e, touch)
        (record {
          entry = λ j d g. elim (Bool-cases (c == d)) [
            | inl q ↦
                let x = v.entry j d g in
                let f = (==_iff c d).0 q in
                let peers : some x.peer ≡ some p = sym x.in_heap ∙ ap s.heap (sym f) ∙ e in
                let peer : x.peer ≡ p = cc in
                record {
                  peer = record p { last_alive = now };
                  in_heap = rw q;
                  own_key = ap (λ z. z.key_hash) (sym peer) ∙ x.own_key;
                  not_evicted = ap (λ z. z.evicted) (sym peer) ∙ x.not_evicted;
                  open_conn = x.open_conn;
                }
            | inr q ↦ Entry-keep s _ (rw q) refl refl refl (v.entry j d g)
          ];
          distinct = v.distinct;
          fresh = λ d g.
              let (a, b) = v.fresh d g in
              (update_ne s.heap c d _ (λ q. cc (ap s.heap q, e, a)) ∙ a, b);
        })
]

forward-IsValid :
    (s : Server) (q : ℕ) (packet : Bytes) (o : WriteOutcome)
    → IsValid s
    → IsValid (forward s q packet o).0
unfolding forward
forward-IsValid s q packet deadline_failed v = v
forward-IsValid s q packet (write_failed n) v = record {
  entry = λ j d e. Entry-keep s _ refl refl refl refl (v.entry j d e);
  distinct = v.distinct;
  fresh = v.fresh;
}
forward-IsValid s q packet write_done v = record {
  entry = λ j d e. Entry-keep s _ refl refl refl refl (v.entry j d e);
  distinct = v.distinct;
  fresh = v.fresh;
}

pub relay_round-IsValid :
    (s : Server) (c : ℕ) (buf : Bytes) (now : ℕ) (o : WriteOutcome)
    → IsValid s
    → IsValid (relay_round s c buf now o).server
unfolding relay_round
relay_round-IsValid s c buf now o v =
    let hash = copy_at (make recipient_hash_size) 0 (take recipient_hash_size buf) in
    elim (Option-cases (lookup hash (touch s c now).peers)) [
      | inl e ↦ rw (e, relay_round) (touch-IsValid s c now v)
      | inr (q, e) ↦
          rw (e, relay_round)
            (forward-IsValid (touch s c now) q (drop recipient_hash_size buf) o
              (touch-IsValid s c now v))
    ]

close_all-other :
    (m : List (Bytes × ℕ)) (closed : ℕ → Bool) (d : ℕ)
    → Distinct m
    → ((j : Bytes) → lookup j m ≢ some d)
    → close_all closed m d ≡ closed d
unfolding close_all
close_all-other [] closed d u h = refl
close_all-other ((k, c) ∷ m) closed d u h =
    close_all-other m (update closed c true) d u.1 (λ j e. h j (lookup_tail k j c d m u e))
    ∙ update_ne closed c d true (λ q. h k (lookup_head k c m ∙ ap some q))

stop_twice : (s : Server) → s.stopped ≡ true → stop s ≡ s
unfolding stop
stop_twice s e = rw e

stop_first :
    (s : Server)
    → s.stopped ≡ false
    → stop s ≡ record s { stopped = true; closed = close_all s.closed s.peers }
unfolding stop
stop_first s e = simp e

stop-IsValid : (s : Server) → IsValid s → IsValid (stop s)
stop-IsValid s v = elim (Bool-cases s.stopped) [
  | inl e ↦ rw (stop_twice s e) v
  | inr e ↦ rw (stop_first s e) (record {
    entry = λ j d g.
        let x = v.entry j d g in
        record {
          peer = x.peer;
          in_heap = x.in_heap;
          own_key = x.own_key;
          not_evicted = x.not_evicted;
          open_conn = λ r w. cc;
        };
    distinct = v.distinct;
    fresh = λ d g.
        let (a, b) = v.fresh d g in
        (
          a,
          close_all-other s.peers s.closed d v.distinct
                (λ j e. let x = v.entry j d e in cc (a, x.in_heap))
              ∙ b,
        );
  })
]

hang_up-IsValid :
    (s : Server) (c : ℕ) (p : Peer) → s.heap c ≡ some p → IsValid s → IsValid (hang_up s c)
unfolding hang_up
hang_up-IsValid s c p h v = record {
  entry = λ j d g.
      let x = v.entry j d g in
      record {
        peer = x.peer;
        in_heap = x.in_heap;
        own_key = x.own_key;
        not_evicted = x.not_evicted;
        open_conn = λ r w. elim (Bool-cases (c == d)) [
          | inl q ↦ absurd (let y = rw q at w in cc)
          | inr q ↦ rw q (x.open_conn r (rw q at w))
        ];
      };
  distinct = v.distinct;
  fresh = λ d g.
      let (a, b) = v.fresh d g in
      (a, update_ne s.closed c d true (λ q. cc (ap s.heap q, h, a)) ∙ b);
}

module _ (sha256 : Bytes → Bytes) where
  Step-IsValid : {s t : Server} → Step sha256 s t → IsValid s → IsValid t
  Step-IsValid (accepts s c h k g) v = accept-IsValid s c h k g v
  Step-IsValid (handles s c input now h) v = handle_conn-IsValid sha256 s c input now h v
  Step-IsValid (relays s c buf now o h) v = relay_round-IsValid s c buf now o v
  Step-IsValid (hangs_up s c p h g) v = hang_up-IsValid s c p h v
  Step-IsValid (evicts s c) v = evict-IsValid s c v
  Step-IsValid (sweeps s now) v =
      unfold sweep_stale in evict_all-IsValid (stale_of s now s.peers) s v
  Step-IsValid (stops s) v = stop-IsValid s v

  -- After any interleaving of the relay's goroutines, each entry of the routing table leads to a
  -- connection whose peer shook hands under that very key hash and whose eviction has not taken it
  -- out, and which is open, unless the server was stopped or an eviction has hung up on it and not
  -- taken the lock yet; no key hash has two entries; and a connection whose handshake is under way
  -- has no peer yet and is open.
  pub Reach-IsValid : {s : Server} → Reach sha256 s → IsValid s
  Reach-IsValid start = new-IsValid
  Reach-IsValid (next r st) = Step-IsValid st (Reach-IsValid r)
