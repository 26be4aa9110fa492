-- ===== src/Relay/Steps.antt =====
-- internal/relay/relay.go: the goroutines of the relay as a step relation: any of them may take the next step.
use road.Base.{ℕ, ◌≡◌, Option, none, some, true, false, Bytes, bytes_key, length, lookup, Distinct}
use road.Relay.{
  Server, Peer, WriteOutcome, accept, handle_conn, relay_round, evict, hang_up, sweep_stale, stop,
  new, outer_frame_size,
}

module _ (sha256 : Bytes → Bytes) where
  pub data Step : Server → Server → Type 0 where
    -- The accept loop gets a new connection.
    accepts :
        (s : Server) (c : ℕ)
        → s.heap c ≡ none
        → s.closed c ≡ false
        → s.pending c ≡ false
        → Step s (accept s c)
    -- The handshake of an accepted connection ends.
    handles :
        (s : Server) (c : ℕ) (input : Option Bytes) (now : ℕ)
        → s.pending c ≡ true
        → Step s (handle_conn sha256 s c input now)
    -- A relay loop has read a frame.
    relays :
        (s : Server) (c : ℕ) (buf : Bytes) (now : ℕ) (outcome : WriteOutcome)
        → length buf ≡ outer_frame_size
        → Step s (relay_round s c buf now outcome).server
    -- An eviction closes the connection and has not taken the lock yet.
    hangs_up :
        (s : Server) (c : ℕ) (p : Peer)
        → s.heap c ≡ some p
        → p.evicted ≡ false
        → Step s (hang_up s c)
    -- An eviction runs, to its end, when a relay loop ends or a write failed.
    evicts : (s : Server) (c : ℕ) → Step s (evict s c)
    sweeps : (s : Server) (now : ℕ) → Step s (sweep_stale s now)
    stops : (s : Server) → Step s (stop s)

  pub data Reach : Server → Type 0 where
    start : Reach new
    next : {s t : Server} → Reach s → Step s t → Reach t

-- What the table and the heap agree on, between any two steps.
pub record Entry (s : Server) (k : Bytes) (c : ℕ) : Type 0 where
  pub peer : Peer
  pub in_heap : s.heap c ≡ some peer
  pub own_key : peer.key_hash ≡ k
  pub not_evicted : peer.evicted ≡ false
  pub open_conn : s.stopped ≡ false → s.hung_up c ≡ false → s.closed c ≡ false

pub record IsValid (s : Server) : Type 0 where
  pub entry : (k : Bytes) (c : ℕ) → lookup k s.peers ≡ some c → Entry s k c
  pub distinct : Distinct s.peers
  pub fresh : (c : ℕ) → s.pending c ≡ true → (s.heap c ≡ none) × (s.closed c ≡ false)
