-- ===== src/Relay/Silence.antt =====
-- internal/relay/relay.go: a peer that sends nothing for the heartbeat timeout is gone after the
-- next sweep, whatever the others do in the meantime.
use road.Base.{
  ◌⊎◌, copy_at, make, take, drop, ℕ, ◌+◌, ◌≡◌, ◌≢◌, ◌<◌, refl, sym, ap, ◌∙◌, List, [], ◌∷◌, Option,
  none, some, true, false, ◌==◌, Bytes, bytes_key, lookup, update, Option-cases, Bool-cases,
  Result-cases, ==_iff, inl, inr, arith, if_both,
}
use road.Relay.{
  hang_up, Server, Peer, evict, evict_once, evict_all, sweep_stale, stale_of, handle_conn,
  do_handshake, register, close, relay_round, touch, forward, accept, is_full, stop, WriteOutcome,
  deadline_failed, write_failed, write_done, heartbeat_timeout, recipient_hash_size,
}
use road.Relay.Steps.{
  IsValid, Step, Reach, accepts, handles, relays, hangs_up, evicts, sweeps, stops, next,
}
use road.Relay.Table.{evict_cases}
use road.Relay.Invariant.{update_ne}
use road.Relay.Reachable.{Reach-IsValid}
use road.Relay.Sweep.{sweep_stale-entry, sweep_stale-none}

module _ (sha256 : Bytes → Bytes) where
  -- The connection on which a step has read a frame.
  abbrev pub sender : {s t : Server} → Step sha256 s t → Option ℕ
  sender (accepts s c h k g) = none
  sender (handles s c input now h) = none
  sender (relays s c buf now o h) = some c
  sender (hangs_up s c p h g) = none
  sender (evicts s c) = none
  sender (sweeps s now) = none
  sender (stops s) = none

  -- Steps in which nothing is read on connection `c`.
  pub data Quiet (c : ℕ) (s : Server) : Server → Type 0 where
    begins : Quiet c s s
    goes_on :
        {t u : Server} → Quiet c s t → (st : Step sha256 t u) → sender st ≢ some c → Quiet c s u

-- A connection has a peer that was last alive at `time`.
pub record WasAlive (s : Server) (c time : ℕ) : Type 0 where
  pub peer : Peer
  pub in_heap : s.heap c ≡ some peer
  pub at : peer.last_alive ≡ time

heap-WasAlive :
    (s t : Server) (c time : ℕ) → t.heap c ≡ s.heap c → WasAlive s c time → WasAlive t c time
heap-WasAlive s t c time e a = record { peer = a.peer; in_heap = e ∙ a.in_heap; at = a.at }

evict-WasAlive : (s : Server) (d c time : ℕ) → WasAlive s c time → WasAlive (evict s d) c time
unfolding evict_once
evict-WasAlive s d c time a = elim (evict_cases s d) [
  | inl (h, e) ↦ rw e a
  | inr (inl (p, h, f, e)) ↦ rw e a
  | inr (inr (p, h, f, e)) ↦ elim (Bool-cases (d == c)) [
    | inl q ↦
        rw (e, evict_once)
          (record {
            peer = record p { evicted = true };
            in_heap = rw q;
            at =
                let same : some p ≡ some a.peer =
                  sym h ∙ ap s.heap ((==_iff d c).0 q) ∙ a.in_heap in
                let g : p ≡ a.peer = cc in ap (λ z. z.last_alive) g ∙ a.at;
          })
    | inr q ↦ rw (e, evict_once) (heap-WasAlive s _ c time (rw q) a)
  ]
]

evict_all-WasAlive :
    (cs : List ℕ) (s : Server) (c time : ℕ) → WasAlive s c time → WasAlive (evict_all s cs) c time
unfolding evict_all
evict_all-WasAlive [] s c time a = a
evict_all-WasAlive (d ∷ cs) s c time a =
    evict_all-WasAlive cs (evict s d) c time (evict-WasAlive s d c time a)

touch-heap : (s : Server) (d c now : ℕ) → d ≢ c → (touch s d now).heap c ≡ s.heap c
unfolding touch
touch-heap s d c now ne = elim (Option-cases (s.heap d)) [
  | inl e ↦ rw (e, touch) refl
  | inr (p, e) ↦ rw (e, touch) (update_ne s.heap d c _ ne)
]

forward-heap :
    (s : Server) (q : ℕ) (packet : Bytes) (o : WriteOutcome)
    → (forward s q packet o).0.heap ≡ s.heap
unfolding forward
forward-heap s q packet deadline_failed = refl
forward-heap s q packet (write_failed n) = refl
forward-heap s q packet write_done = refl

relay_round-heap :
    (s : Server) (d c : ℕ) (buf : Bytes) (now : ℕ) (o : WriteOutcome)
    → d ≢ c
    → (relay_round s d buf now o).server.heap c ≡ s.heap c
unfolding relay_round
relay_round-heap s d c buf now o ne =
    let hash = copy_at (make recipient_hash_size) 0 (take recipient_hash_size buf) in
    elim (Option-cases (lookup hash (touch s d now).peers)) [
      | inl e ↦ rw (e, relay_round) (touch-heap s d c now ne)
      | inr (q, e) ↦
          rw (e, relay_round)
            (ap (λ h. h c) (forward-heap (touch s d now) q (drop recipient_hash_size buf) o)
              ∙ touch-heap s d c now ne)
    ]

close-heap : (s : Server) (o : Option ℕ) → (close s o).heap ≡ s.heap
unfolding close
close-heap s none = refl
close-heap s (some d) = refl

pub handle_conn-heap :
    (sha256 : Bytes → Bytes) (s : Server) (d c : ℕ) (input : Option Bytes) (now : ℕ)
    → d ≢ c
    → (handle_conn sha256 s d input now).heap c ≡ s.heap c
unfolding handle_conn register
handle_conn-heap sha256 s d c input now ne = elim (Result-cases (do_handshake sha256 input now)) [
  | inr (x, f) ↦ rw (handle_conn, f) refl
  | inl (p, f) ↦
      let s1 : Server = record s { pending = update s.pending d false } in
      rw (handle_conn, f)
        (update_ne (close s1 (lookup p.key_hash s1.peers)).heap d c (some p) ne
          ∙ ap (λ h. h c) (close-heap s1 (lookup p.key_hash s1.peers)))
]

module _ (sha256 : Bytes → Bytes) where
  Step-WasAlive :
      {s t : Server} {c time : ℕ}
      → IsValid s
      → (st : Step sha256 s t) → sender sha256 st ≢ some c
      → WasAlive s c time
      → WasAlive t c time
  unfolding accept stop sweep_stale hang_up
  Step-WasAlive {c} {time} v (accepts s d h k g) ne a =
      if_both {A = Server} (λ t. WasAlive t c time) (is_full s) _ _
        (heap-WasAlive s _ c time refl a) (heap-WasAlive s _ c time refl a)
  Step-WasAlive {c} {time} v (handles s d input now h) ne a =
      heap-WasAlive s _ c time
        (handle_conn-heap sha256 s d c input now
          (λ e. cc (ap s.heap e, (v.fresh d h).0, a.in_heap)))
        a
  Step-WasAlive {c} {time} v (relays s d buf now o h) ne a =
      heap-WasAlive s _ c time (relay_round-heap s d c buf now o (λ e. ne (ap some e))) a
  Step-WasAlive {c} {time} v (hangs_up s d p h g) ne a = heap-WasAlive s _ c time refl a
  Step-WasAlive {c} {time} v (evicts s d) ne a = evict-WasAlive s d c time a
  Step-WasAlive {c} {time} v (sweeps s now) ne a =
      evict_all-WasAlive (stale_of s now s.peers) s c time a
  Step-WasAlive {c} {time} v (stops s) ne a =
      if_both {A = Server} (λ t. WasAlive t c time) s.stopped _ _ a
        (heap-WasAlive s _ c time refl a)

  Quiet-Reach : {c : ℕ} {s t : Server} → Reach sha256 s → Quiet sha256 c s t → Reach sha256 t
  Quiet-Reach r begins = r
  Quiet-Reach r (goes_on q st ne) = next (Quiet-Reach r q) st

  Quiet-WasAlive :
      {c time : ℕ} {s t : Server}
      → Reach sha256 s
      → Quiet sha256 c s t
      → WasAlive s c time
      → WasAlive t c time
  Quiet-WasAlive r begins a = a
  Quiet-WasAlive r (goes_on q st ne) a =
      Step-WasAlive (Reach-IsValid sha256 (Quiet-Reach r q)) st ne (Quiet-WasAlive r q a)

  -- What a sweep does to a hash's route, for a connection that is stale.
  stale_leaves :
      (t : Server) (c time now : ℕ) (k : Bytes)
      → IsValid t
      → WasAlive t c time
      → time + heartbeat_timeout < now
      → ((lookup k t.peers ≡ some c)
          × (lookup k (sweep_stale t now).peers ≡ none)
          × ((sweep_stale t now).closed c ≡ true))
        ⊎ ((lookup k t.peers ≢ some c) × (lookup k (sweep_stale t now).peers ≢ some c))
  stale_leaves t c time now k v a late = elim (Option-cases (lookup k t.peers)) [
    | inl e ↦ inr ((λ f. cc (e, f)), (λ f. cc (sweep_stale-none t now k v e, f)))
    | inr (d, e) ↦ elim (Bool-cases (d == c)) [
      | inl q ↦
          let f : lookup k t.peers ≡ some c = e ∙ ap some ((==_iff d c).0 q) in
          elim (sweep_stale-entry t now k c a.peer v f a.in_heap) [
            | inl (young, g) ↦ absurd (omega (arith, late, young, a.at))
            | inr (old, gone, closed) ↦ inl (f, gone, closed)
          ]
      | inr q ↦
          let x = v.entry k d e in
          inr (
            (λ f. other d q (sym e ∙ f)),
            elim (sweep_stale-entry t now k d x.peer v e x.in_heap) [
              | inl (young, g) ↦ λ f. other d q (sym g ∙ f)
              | inr (old, gone, closed) ↦ λ f. cc (gone, f)
            ],
          )
    ]
  ]
    where
      other : (d : ℕ) → (d == c) ≡ false → some d ≢ some c
      other d q f = let g : d ≡ c = cc in cc (q, (==_iff d c).1 g)

  -- From any reachable state in which a connection has a peer, after any steps of the relay in which
  -- nothing is read on that connection: a sweep at a time that is later than the peer's last sign of
  -- life by more than the heartbeat timeout takes out each hash that leads to the connection and
  -- closes the connection then, and after it no hash leads there.
  pub silent_leaves :
      {s t : Server} {c : ℕ} (p : Peer) (now : ℕ) (k : Bytes)
      → Reach sha256 s
      → s.heap c ≡ some p
      → Quiet sha256 c s t
      → p.last_alive + heartbeat_timeout < now
      → ((lookup k t.peers ≡ some c)
          × (lookup k (sweep_stale t now).peers ≡ none)
          × ((sweep_stale t now).closed c ≡ true))
        ⊎ ((lookup k t.peers ≢ some c) × (lookup k (sweep_stale t now).peers ≢ some c))
  silent_leaves {s} {t} {c} p now k r e q late =
      stale_leaves t c p.last_alive now k (Reach-IsValid sha256 (Quiet-Reach r q))
        (Quiet-WasAlive r q (record { peer = p; in_heap = e; at = refl })) late
