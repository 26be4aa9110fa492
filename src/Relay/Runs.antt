-- ===== src/Relay/Runs.antt =====
-- The relay at concrete inputs: two clients, with a key hash that is the key itself.
use road.Relay.Listener
use road.Relay.Evicted.{Steps-evict, done, more}
use road.Relay.Written.{packets_to}
use road.Relay.Listener.Early
use road.Relay.Listener.Early.{Moves-listen}
use road.Relay.Listener.{
  Round, connection, not_called, loops, gets, listen, stop_all, accept_round, accept_error,
  fresh_relay, listens, fails, Round_cases, accepting, returned,
}
use road.Relay.Shutdown.{stop-closed, handle_conn-stop, is_routed}
use road.Relay.Silence.{silent_leaves, goes_on, begins}
use road.Relay.Capacity.{Reach-peer_count}
use road.Relay.{peer_count}
use road.Base.{
  ◌||◌, ok, get_or, arith, ◌/◌, ◌%◌, ◌≢◌, ap, insert, ℕ, ◌+◌, ◌*◌, ◌^◌, ◌≤◌, ◌<◌, ◌≡◌, refl, none,
  some, true, false, Bytes, bytes_key, length, take, drop, make, replicate, lookup, ◌⊎◌, ◌∷◌, ◌++◌,
  err,
}
use road.Protocol.{decode_handshake}
use road.Crypto.Cipher.{packet_size}
use road.Relay.{
  stop, Server, Peer, version_mismatch, write_done, new, accept, handle_conn, do_handshake,
  register, evict, relay_round, sweep_stale, heartbeat_timeout, outer_frame_size,
  recipient_hash_size,
}
use road.Relay.Steps.{IsValid, Entry, Reach, start, next, accepts, handles, stops}
use road.Relay.Reachable.{Reach-IsValid}
use road.Relay.Directory.{greeting, Move, view, Step-Move}
use road.Relay.Routing.{Delivery, relay_round_lem}

abbrev same_bytes : Bytes → Bytes
same_bytes key = key

abbrev alice : Bytes
alice = replicate 32 5

abbrev bob : Bytes
bob = replicate 32 6

abbrev hello : ℕ → Bytes
hello v = v ∷ (alice ++ bob)

handshake_old_version : do_handshake same_bytes (some (hello 2)) 100 ≡ err (version_mismatch 2)
unfolding do_handshake decode_handshake
handshake_old_version = refl

with_alice : Server
with_alice = handle_conn same_bytes (accept new 1) 1 (some (hello 1)) 100

with_alice-Reach : Reach same_bytes with_alice
unfolding with_alice accept new
with_alice-Reach =
    next (next start (accepts new 1 refl refl refl))
      (handles (accept new 1) 1 (some (hello 1)) 100 refl)

alice_found : lookup alice with_alice.peers ≡ some 1
unfolding with_alice handle_conn do_handshake decode_handshake register accept new lookup insert
alice_found = refl

abbrev alice_peer : Peer
alice_peer = record { key_hash = alice; last_alive = 100; evicted = false }

alice_in_heap : with_alice.heap 1 ≡ some alice_peer
unfolding with_alice handle_conn do_handshake decode_handshake register accept new lookup insert
alice_in_heap = refl

Reach-IsValid_example : IsValid with_alice
Reach-IsValid_example = Reach-IsValid same_bytes with_alice-Reach

abbrev frame : Bytes
frame = alice ++ replicate 4096 9

relay_round_lem_example :
    let r = relay_round with_alice 1 frame 200 write_done in
    let hash = take recipient_hash_size frame in
    let packet = drop recipient_hash_size frame in
    (r.server.peers ≡ with_alice.peers)
    × (r.server.closed ≡ with_alice.closed)
    × (r.buffer ≡ make outer_frame_size)
    × (length packet ≡ packet_size)
    × (((lookup hash with_alice.peers ≡ none)
          × (r.server.written ≡ with_alice.written)
          × (r.to_evict ≡ none))
        ⊎ ((q : ℕ) × (lookup hash with_alice.peers ≡ some q)
            × Entry with_alice hash q
            × Delivery write_done q packet with_alice.written r))
relay_round_lem_example =
    relay_round_lem with_alice 1 frame 200 write_done (Reach-IsValid same_bytes with_alice-Reach)
      refl

abbrev late : ℕ
late = 46 * 10 ^ 9

bob_missing : lookup bob with_alice.peers ≡ none
unfolding with_alice handle_conn do_handshake decode_handshake register accept new lookup insert
bob_missing = refl

conn_2_new :
    (with_alice.heap 2 ≡ none) × (with_alice.closed 2 ≡ false) × (with_alice.pending 2 ≡ false)
unfolding with_alice handle_conn do_handshake decode_handshake register accept new lookup insert
conn_2_new = (refl, refl, refl)

Step-Move_example :
    Move same_bytes (greeting 1 (some (hello 1))) (view (accept new 1)) (view with_alice)
unfolding with_alice new accept
Step-Move_example =
    Step-Move same_bytes (next start (accepts new 1 refl refl refl))
      (handles (accept new 1) 1 (some (hello 1)) 100 refl)

-- Keys that differ in their first two bytes.
abbrev key_of : ℕ → Bytes
key_of i = i / 256 ∷ i % 256 ∷ replicate 30 0

key_of-distinct : (i j : ℕ) → i < 2049 → j < 2049 → i ≢ j → key_of i ≢ key_of j
key_of-distinct i j a b ne e =
    let high : i / 256 ≡ j / 256 = ap (λ k. get_or k 0 0) e in
    let low : i % 256 ≡ j % 256 = ap (λ k. get_or k 1 0) e in ne (omega (arith, high, low))

Reach-peer_count_example : (s : Server) × Reach same_bytes s × (peer_count s ≡ 2049)
Reach-peer_count_example = Reach-peer_count same_bytes 2049 key_of (λ i. refl) key_of-distinct

-- Alice sends nothing, and the relay stops in the meantime.
silent_leaves_example :
    ((lookup alice (stop with_alice).peers ≡ some 1)
      × (lookup alice (sweep_stale (stop with_alice) late).peers ≡ none)
      × ((sweep_stale (stop with_alice) late).closed 1 ≡ true))
    ⊎ ((lookup alice (stop with_alice).peers ≢ some 1)
        × (lookup alice (sweep_stale (stop with_alice) late).peers ≢ some 1))
silent_leaves_example =
    silent_leaves same_bytes alice_peer late alice with_alice-Reach alice_in_heap
      (goes_on begins (stops with_alice) (λ e. cc)) (omega arith)

abbrev waiting : Server
waiting = accept with_alice 2

abbrev bob_hello : Bytes
bob_hello = 1 ∷ (bob ++ alice)

abbrev bob_peer : Peer
bob_peer = record { key_hash = bob; last_alive = 300; evicted = false }

waiting-Reach : Reach same_bytes waiting
waiting-Reach =
    let (heap, closed, pending) = conn_2_new in
    next with_alice-Reach (accepts with_alice 2 heap closed pending)

waiting_state :
    (waiting.stopped ≡ false) × (lookup alice waiting.peers ≡ some 1) × (waiting.pending 2 ≡ true)
unfolding with_alice handle_conn do_handshake decode_handshake register accept new lookup insert
waiting_state = (refl, refl, refl)

bob_greets : do_handshake same_bytes (some bob_hello) 300 ≡ ok bob_peer
unfolding do_handshake decode_handshake
bob_greets = refl

stop-closed_example :
    ((stop waiting).closed 1 ≡ (waiting.closed 1 || is_routed 1 waiting.peers))
    × ((stop waiting).peers ≡ waiting.peers)
    × ((stop waiting).pending 1 ≡ waiting.pending 1)
stop-closed_example = stop-closed waiting 1 waiting_state.0

handle_conn-stop_example :
    let late_conn = handle_conn same_bytes (stop waiting) 2 (some bob_hello) 300 in
    (lookup bob late_conn.peers ≡ some 2) × (late_conn.closed 2 ≡ false)
handle_conn-stop_example =
    let (live, at, waits) = waiting_state in
    handle_conn-stop same_bytes 2 300 (some bob_hello) bob_peer waiting-Reach waits bob_greets

-- A relay that was started and stopped.
abbrev stopped_relay : Listener.Relay
stopped_relay = stop_all (listen fresh_relay true)

stopped_relay-Reach : Listener.Reach same_bytes stopped_relay
stopped_relay-Reach =
    Listener.next (Listener.next Listener.start (listens true refl)) Listener.stops

stopped_relay_run : stopped_relay.run ≡ accepting
unfolding listen stop_all new
stopped_relay_run = refl

Round_cases_example :
    (((accept_round stopped_relay accept_error).run ≡ returned)
      × (stopped_relay.server.stopped ≡ true))
    ⊎ (((accept_round stopped_relay accept_error).run ≡ accepting)
        × (stopped_relay.listener ≡ some false))
Round_cases_example = Round_cases same_bytes stopped_relay-Reach (fails stopped_relay_run)

-- Alice is evicted and comes back on another connection.
abbrev back : Server
back = handle_conn same_bytes (accept (evict with_alice 1) 2) 2 (some (hello 1)) 200

evicted_conn_2 :
    ((evict with_alice 1).heap 2 ≡ none)
    × ((evict with_alice 1).closed 2 ≡ false)
    × ((evict with_alice 1).pending 2 ≡ false)
    × ((accept (evict with_alice 1) 2).pending 2 ≡ true)
unfolding with_alice handle_conn do_handshake decode_handshake register accept new lookup insert
    evict road.Relay.evict_once road.Base.delete
evicted_conn_2 = (refl, refl, refl, refl)

Steps-evict_example :
    (back.closed 1 ≡ true)
    × ((k : Bytes) → lookup k back.peers ≢ some 1)
    × (packets_to 1 back.written ≡ packets_to 1 with_alice.written)
Steps-evict_example =
    let (heap, closed, pending, waits) = evicted_conn_2 in
    Steps-evict same_bytes 1 alice_peer with_alice-Reach alice_in_heap refl (
      more (more done (accepts (evict with_alice 1) 2 heap closed pending))
        (handles (accept (evict with_alice 1) 2) 2 (some (hello 1)) 200 waits))

-- A relay that is stopped before it listens, and gets a connection then.
abbrev early : Listener.Relay
early = stop_all fresh_relay

early_state : (early.run ≡ not_called) × (early.server.stopped ≡ true)
unfolding stop_all new stop
early_state = (refl, refl)

Moves-listen_example :
    let q = accept_round (listen early true) (connection 5) in
    (stop_all q ≡ q)
    × (q.listener ≡ some false)
    × (q.run ≡ accepting → (c : ℕ) → Round q (accept_round q (connection c)))
unfolding listen
Moves-listen_example =
    let (before, stopped) = early_state in
    Moves-listen same_bytes early before stopped
      (Early.goes_on Early.stays (loops (gets 5 refl refl)))
