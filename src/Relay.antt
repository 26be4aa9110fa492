-- ===== src/Relay.antt =====
-- internal/relay/relay.go: the Blind Relay. The peers live in a heap, since the routing table, the
-- connection's own goroutine and the sweeper share them. Each accepted connection has at most one
-- peer, so a connection's number is also the pointer to its peer. Every function of the source
-- takes its lock once for what is one step here, and an eviction may close the connection in a step
-- before; SHA-256 is a parameter.
pub mod Steps
pub mod Table
pub mod Sweep
pub mod Silence
pub mod Shutdown
pub mod Listener
pub mod Snapshot
pub mod Invariant
pub mod Reachable
pub mod Directory
pub mod Capacity
pub mod Routing
pub mod Written
pub mod Gone
pub mod Evicted
mod Runs
use road.Base.{
  ℕ, suc, ◌+◌, ◌-◌, ◌*◌, ◌^◌, ◌≡◌, List, [], ◌∷◌, ◌++◌, Option, none, some, Bool, true, false, not,
  ◌&&◌, ltb, ◌==◌, if◌then◌else◌, Result, ok, err, map_err, ◌>>=◌, ◌>>◌, fail_if, Bytes, bytes_key,
  length, take, drop, make, copy_at, update, lookup, insert, delete,
}
use road.Protocol.{decode_handshake}
use road.Protocol
use road.Crypto.Cipher.{packet_size}

abbrev pub recipient_hash_size : ℕ
recipient_hash_size = 32

abbrev pub outer_frame_size : ℕ
outer_frame_size = recipient_hash_size + packet_size

abbrev pub max_peers : ℕ
max_peers = 2048

-- Times and durations are in nanoseconds.
abbrev pub heartbeat_timeout : ℕ
heartbeat_timeout = 45 * 10 ^ 9

pub record Peer : Type 0 where
  pub key_hash : Bytes
  pub last_alive : ℕ
  -- Whether `once` has run.
  pub evicted : Bool

pub record Server : Type 0 where
  -- The peer of a connection, once its handshake is done.
  pub heap : ℕ → Option Peer
  -- The routing table: the connection of a key hash.
  pub peers : List (Bytes × ℕ)
  -- The connections that the server has closed.
  pub closed : ℕ → Bool
  -- Those of them that an eviction closed, before it took the lock.
  pub hung_up : ℕ → Bool
  -- The accepted connections whose handshake is under way.
  pub pending : ℕ → Bool
  -- What has been written, and to which connection, the latest last.
  pub written : List (ℕ × Bytes)
  pub stopped : Bool

unfoldable pub new : Server
new = record {
  heap = λ c. none;
  peers = [];
  closed = λ c. false;
  hung_up = λ c. false;
  pending = λ c. false;
  written = [];
  stopped = false;
}

unfoldable pub peer_count : Server → ℕ
peer_count s = length s.peers

unfoldable pub is_full : Server → Bool
is_full s = not (ltb (length s.peers) max_peers)

-- One round of the accept loop.
unfoldable pub accept : Server → ℕ → Server
unfolding is_full
accept s c =
    if is_full s
    then record s { closed = update s.closed c true }
    else record s { pending = update s.pending c true }

pub data HandshakeError : Type 0 where
  handshake_read : HandshakeError
  handshake_decode : Protocol.Error → HandshakeError
  version_mismatch : ℕ → HandshakeError

or_fail : Option Bytes → Result HandshakeError Bytes
or_fail none = err handshake_read
or_fail (some buf) = ok buf

-- `none` is a read that fails, by the deadline or because the connection ends early.
unfoldable pub do_handshake : (Bytes → Bytes) → Option Bytes → ℕ → Result HandshakeError Peer
unfolding or_fail
do_handshake sha256 input now = do
  buf ← or_fail input
  hs ← map_err handshake_decode (decode_handshake buf)
  fail_if (not (hs.version == Protocol.version)) (version_mismatch hs.version)
  ok (record { key_hash = sha256 hs.sender_pub_key; last_alive = now; evicted = false })

close : Server → Option ℕ → Server
close s none = s
close s (some c) = record s { closed = update s.closed c true }

-- A peer that is registered already under the key hash loses its connection.
unfoldable pub register : Server → ℕ → Peer → Server
unfolding close
register s c p =
    let s1 = close s (lookup p.key_hash s.peers) in
    record s1 { heap = update s1.heap c (some p); peers = insert p.key_hash c s1.peers }

-- Whether the table's entry is the peer itself.
abbrev pub is_current : Option ℕ → ℕ → Bool
is_current none c = false
is_current (some cur) c = cur == c

-- The start of the body of `p.once.Do`, which takes no lock: others may run before the rest of it.
unfoldable pub hang_up : Server → ℕ → Server
hang_up s c = record s { closed = update s.closed c true; hung_up = update s.hung_up c true }

-- The body of `p.once.Do`, when it runs in one go, or what follows on `hang_up`: closing a connection
-- again changes nothing.
pub evict_once : Server → ℕ → Peer → Server
evict_once s c p = record s {
  heap = update s.heap c (some (record p { evicted = true }));
  closed = update s.closed c true;
  peers = if is_current (lookup p.key_hash s.peers) c then delete p.key_hash s.peers else s.peers;
}

unfoldable pub evict : Server → ℕ → Server
unfolding evict_once
evict s c = elim (s.heap c) [ none ↦ s | some p ↦ if p.evicted then s else evict_once s c p ]

-- `handleConn` up to its relay loop.
unfoldable pub handle_conn : (Bytes → Bytes) → Server → ℕ → Option Bytes → ℕ → Server
handle_conn sha256 s c input now =
    let s1 = record s { pending = update s.pending c false } in
    elim (do_handshake sha256 input now) [
      | err e ↦ record s1 { closed = update s1.closed c true }
      | ok p ↦ register s1 c p
    ]

-- What the network does with a forwarded packet. A write that fails may have sent a part.
pub data WriteOutcome : Type 0 where
  deadline_failed : WriteOutcome
  write_failed : ℕ → WriteOutcome
  write_done : WriteOutcome

-- What a round of the relay loop leaves: the server, the buffer, and the peer that a new goroutine
-- is to evict.
pub record Round : Type 0 where
  pub server : Server
  pub buffer : Bytes
  pub to_evict : Option ℕ

pub touch : Server → ℕ → ℕ → Server
touch s c now = elim (s.heap c) [
  | none ↦ s
  | some p ↦ record s { heap = update s.heap c (some (record p { last_alive = now })) }
]

pub forward : Server → ℕ → Bytes → WriteOutcome → Server × Option ℕ
forward s q packet deadline_failed = (s, some q)
forward s q packet (write_failed n) =
    (record s { written = s.written ++ ((q, take n packet) ∷ []) }, some q)
forward s q packet write_done = (record s { written = s.written ++ ((q, packet) ∷ []) }, none)

-- The loop's body, for a frame that was read in full on connection `c`.
unfoldable pub relay_round : Server → ℕ → Bytes → ℕ → WriteOutcome → Round
unfolding touch forward
relay_round s c buf now outcome =
    let s1 = touch s c now in
    let recipient_hash = copy_at (make recipient_hash_size) 0 (take recipient_hash_size buf) in
    elim (lookup recipient_hash s1.peers) [
      | none ↦ record { server = s1; buffer = make (length buf); to_evict = none }
      | some q ↦
          let (s2, evicted) = forward s1 q (drop recipient_hash_size buf) outcome in
          record { server = s2; buffer = make (length buf); to_evict = evicted }
    ]

unfoldable pub is_stale : Server → ℕ → ℕ → Bool
is_stale s now c = elim (s.heap c) [
  | none ↦ false
  | some p ↦ ltb heartbeat_timeout (now - p.last_alive)
]

-- The stale peers of a table, in the order in which it is ranged over.
unfoldable pub stale_of : Server → ℕ → List (Bytes × ℕ) → List ℕ
unfolding is_stale
stale_of s now [] = []
stale_of s now ((k, c) ∷ m) =
    let rest = stale_of s now m in if is_stale s now c then c ∷ rest else rest

unfoldable pub evict_all : Server → List ℕ → Server
unfolding evict
evict_all s [] = s
evict_all s (c ∷ cs) = evict_all (evict s c) cs

unfoldable pub sweep_stale : Server → ℕ → Server
sweep_stale s now = evict_all s (stale_of s now s.peers)

pub close_all : (ℕ → Bool) → List (Bytes × ℕ) → ℕ → Bool
close_all closed [] = closed
close_all closed ((k, c) ∷ m) = close_all (update closed c true) m

-- `stopOnce` runs the body once; the wait for the goroutines is not a change of state.
unfoldable pub stop : Server → Server
unfolding close_all
stop s = if s.stopped then s else record s { stopped = true; closed = close_all s.closed s.peers }
