-- ===== src/Relay/Evicted.antt =====
-- internal/relay/relay.go: an evicted connection, in all that the relay does afterwards.
use road.Base.{ℕ, ◌≡◌, ◌≢◌, refl, ap, ◌∙◌, some, true, false, Bytes, bytes_key, lookup, if_both}
use road.Relay.{Server, Peer, evict, hang_up, sweep_stale, stale_of, accept, is_full, stop}
use road.Relay.Steps.{
  IsValid, Step, Reach, accepts, handles, relays, hangs_up, evicts, sweeps, stops, next,
}
use road.Relay.Reachable.{Reach-IsValid}
use road.Relay.Shutdown.{close_all-closed}
use road.Relay.Silence.{handle_conn-heap}
use road.Relay.Directory.{written-evict, written-evict_all, written-handle_conn}
use road.Relay.Written.{packets_to}
use road.Relay.Gone.{
  IsGone, Silent, keeps, evict_self-IsGone, evict-IsGone, evict_all-IsGone, handle_conn-closed,
  relay_round-Silent, no_route, update-true,
}

module _ (sha256 : Bytes → Bytes) where
  -- What the relay may go on to do.
  pub data Steps (s : Server) : Server → Type 0 where
    done : Steps s s
    more : {t u : Server} → Steps s t → Step sha256 t u → Steps s u

  Steps-Reach : {s t : Server} → Reach sha256 s → Steps s t → Reach sha256 t
  Steps-Reach r done = r
  Steps-Reach r (more steps st) = next (Steps-Reach r steps) st

  Step-Silent : {s t : Server} (c : ℕ) → IsValid s → IsGone c s → Step sha256 s t → Silent c s t
  unfolding accept stop sweep_stale hang_up
  Step-Silent c v g (accepts s d h k e) =
      if_both {A = Server} (Silent c s) (is_full s) _ _
        (keeps c s _ refl (update-true s.closed d c g.closed) g, refl)
        (keeps c s _ refl g.closed g, refl)
  Step-Silent c v g (handles s d input now h) = (
    keeps c s _
        (handle_conn-heap sha256 s d c input now
          (λ e. cc (ap s.heap e, (v.fresh d h).0, g.in_heap)))
        (handle_conn-closed sha256 s d c input now g.closed) g,
    ap (packets_to c) (written-handle_conn sha256 s d input now),
  )
  Step-Silent c v g (relays s d buf now o h) = relay_round-Silent s d c buf now o h v g
  Step-Silent c v g (hangs_up s d p h e) =
      (keeps c s _ refl (update-true s.closed d c g.closed) g, refl)
  Step-Silent c v g (evicts s d) = (evict-IsGone s d c g, ap (packets_to c) (written-evict s d))
  Step-Silent c v g (sweeps s now) =
      let stale = stale_of s now s.peers in
      (evict_all-IsGone stale s c g, ap (packets_to c) (written-evict_all stale s))
  Step-Silent c v g (stops s) =
      if_both {A = Server} (Silent c s) s.stopped _ _ (g, refl)
        (keeps c s _ refl (close_all-closed s.peers s.closed c g.closed) g, refl)

  Steps-Silent : {s t : Server} (c : ℕ) → Reach sha256 s → IsGone c s → Steps s t → Silent c s t
  Steps-Silent c r g done = (g, refl)
  Steps-Silent c r g (more steps st) =
      let (h, same) = Steps-Silent c r g steps in
      let (k, kept) = Step-Silent c (Reach-IsValid sha256 (Steps-Reach r steps)) h st in
      (k, kept ∙ same)

  -- Evicting a connection of a reachable relay, which is closed by that for good: whatever the relay
  -- does afterwards, with new handshakes under the same key hash, frames that the connection's own
  -- loop still had read, sweeps and further evictions, the connection stays closed, no key hash ever
  -- leads to it again, and no packet is written to it any more. It has a peer that was not evicted
  -- before.
  pub Steps-evict :
      {s t : Server} (c : ℕ) (p : Peer)
      → Reach sha256 s
      → s.heap c ≡ some p
      → p.evicted ≡ false
      → Steps (evict s c) t
      → (t.closed c ≡ true)
        × ((k : Bytes) → lookup k t.peers ≢ some c)
        × (packets_to c t.written ≡ packets_to c s.written)
  Steps-evict {s} {t} c p r at first steps =
      let r1 = next r (evicts s c) in
      let (g, same) = Steps-Silent c r1 (evict_self-IsGone s c p at first) steps in
      (
        g.closed,
        λ k. no_route t c k (Reach-IsValid sha256 (Steps-Reach r1 steps)) g,
        same ∙ ap (packets_to c) (written-evict s c),
      )
