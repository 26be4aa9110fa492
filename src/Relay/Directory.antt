-- ===== src/Relay/Directory.antt =====
-- internal/relay/relay.go, seen from outside: a directory of key hashes, and the packets that were
-- written. The heap, the handshakes under way and the closed connections are forgotten.
use road.Base.{
  err, ◌⊎◌, ◌≢◌, if_both, insert, update, ==_iff, false, ℕ, ◌≡◌, refl, ap, ◌∙◌, sym, List, [], ◌∷◌,
  ◌++◌, Option, none, some, Bool, false, if◌then◌else◌, Bytes, bytes_key, bytes_eq, take, drop,
  length, lookup, lookup-insert, Option-cases, Result-cases, Bool-cases, ok, inl, inr, ◌==◌,
}
use road.Protocol.{HandshakePayload, decode_handshake}
use road.Protocol
use road.Relay.{
  HandshakeError, hang_up, is_full, Server, Peer, evict_all, evict, evict_once, register, close,
  handle_conn, do_handshake, relay_round, forward, touch, WriteOutcome, deadline_failed,
  write_failed, write_done, accept, stop, sweep_stale, stale_of, outer_frame_size,
  recipient_hash_size,
}
use road.Relay.Steps.{
  IsValid, Step, Reach, accepts, handles, relays, hangs_up, evicts, sweeps, stops,
}
use road.Relay.Table.{evict_cases}
use road.Relay.Sweep.{member, drop_entries, drop_entries-none, drop_entries-some, lookup-evict_all}
use road.Relay.Routing.{touch-same, round_none, round_some}
use road.Relay.Reachable.{Reach-IsValid}

pub record Directory : Type 0 where
  pub routes : Bytes → Option ℕ
  pub delivered : List (ℕ × Bytes)

abbrev pub view : Server → Directory
view s = record { routes = λ k. lookup k s.peers; delivered = s.written }

-- A route, unless its connection is gone.
abbrev pub without : (ℕ → Bool) → Option ℕ → Option ℕ
without gone none = none
without gone (some c) = if gone c then none else some c

-- What of a packet is written, if anything.
abbrev pub carried : WriteOutcome → Bytes → Option Bytes
carried deadline_failed packet = none
carried (write_failed n) packet = some (take n packet)
carried write_done packet = some packet

-- What a step of the relay is about: a handshake that ends on a connection, with what was read if the
-- read did not fail; a frame that was read, with how its write ends; evictions; or none of these.
pub data Cause : Type 0 where
  greeting : ℕ → Option Bytes → Cause
  frame : Bytes → WriteOutcome → Cause
  evictions : List ℕ → Cause
  other : Cause

-- Nothing that was read is a handshake of the right version.
abbrev pub IsRefused : Option Bytes → Type 0
IsRefused input =
    (hello : Bytes) (hs : HandshakePayload)
    → input ≡ some hello
    → decode_handshake hello ≡ ok hs
    → hs.version ≢ Protocol.version

pub record Same (d e : Directory) : Type 0 where
  pub routes : (k : Bytes) → e.routes k ≡ d.routes k
  pub delivered : e.delivered ≡ d.delivered

module _ (sha256 : Bytes → Bytes) where
  -- What the relay promises to do to its directory on each cause, and nothing else.
  pub data Move : Cause → Directory → Directory → Type 0 where
    stays : (d e : Directory) → Same d e → Move other d e
    refuses :
        (d e : Directory) (c : ℕ) (input : Option Bytes)
        → IsRefused input
        → Same d e
        → Move (greeting c input) d e
    -- The connection of the handshake takes the hash of its public key over.
    joins :
        (d e : Directory) (c : ℕ) (hello : Bytes) (hs : HandshakePayload)
        → decode_handshake hello ≡ ok hs
        → hs.version ≡ Protocol.version
        → ((k : Bytes)
            → e.routes k ≡ (if bytes_eq (sha256 hs.sender_pub_key) k then some c else d.routes k))
        → e.delivered ≡ d.delivered
        → Move (greeting c (some hello)) d e
    -- The connections that are evicted have no route any more.
    leaves :
        (d e : Directory) (cs : List ℕ)
        → ((k : Bytes) → e.routes k ≡ without (λ c. member c cs) (d.routes k))
        → e.delivered ≡ d.delivered
        → Move (evictions cs) d e
    -- No route, or nothing was written.
    drops :
        (d e : Directory) (buf : Bytes) (outcome : WriteOutcome)
        → (d.routes (take recipient_hash_size buf) ≡ none)
          ⊎ (carried outcome (drop recipient_hash_size buf) ≡ none)
        → Same d e
        → Move (frame buf outcome) d e
    -- What is written of the frame's packet goes along the frame's route.
    carries :
        (d e : Directory) (buf part : Bytes) (outcome : WriteOutcome) (to : ℕ)
        → d.routes (take recipient_hash_size buf) ≡ some to
        → carried outcome (drop recipient_hash_size buf) ≡ some part
        → ((k : Bytes) → e.routes k ≡ d.routes k)
        → e.delivered ≡ d.delivered ++ ((to, part) ∷ [])
        → Move (frame buf outcome) d e

  abbrev pub cause : {s t : Server} → Step sha256 s t → Cause
  cause (accepts s c h k g) = other
  cause (handles s c input now h) = greeting c input
  cause (relays s c buf now o h) = frame buf o
  cause (hangs_up s c p h g) = other
  cause (evicts s c) = evictions (c ∷ [])
  cause (sweeps s now) = evictions (stale_of s now s.peers)
  cause (stops s) = other

pub written-evict : (s : Server) (c : ℕ) → (evict s c).written ≡ s.written
unfolding evict_once
written-evict s c = elim (evict_cases s c) [
  | inl (h, e) ↦ rw e refl
  | inr (inl (p, h, f, e)) ↦ rw e refl
  | inr (inr (p, h, f, e)) ↦ rw (e, evict_once) refl
]

pub written-evict_all : (cs : List ℕ) (s : Server) → (evict_all s cs).written ≡ s.written
unfolding evict_all
written-evict_all [] s = refl
written-evict_all (c ∷ cs) s = written-evict_all cs (evict s c) ∙ written-evict s c

drop_entries-without :
    (cs : List ℕ) (o : Option ℕ) → drop_entries cs o ≡ without (λ c. member c cs) o
drop_entries-without cs none = drop_entries-none cs
drop_entries-without cs (some c) = drop_entries-some cs c

module _ (sha256 : Bytes → Bytes) where
  evict_all-Move :
      (s : Server) (cs : List ℕ)
      → IsValid s
      → Move sha256 (evictions cs) (view s) (view (evict_all s cs))
  evict_all-Move s cs v =
      leaves (view s) (view (evict_all s cs)) cs
        (λ k. lookup-evict_all cs s k v ∙ drop_entries-without cs (lookup k s.peers))
        (written-evict_all cs s)

  -- A step that leaves the table and what was written.
  stays-Move :
      (s t : Server)
      → t.peers ≡ s.peers
      → t.written ≡ s.written
      → Move sha256 other (view s) (view t)
  stays-Move s t p w =
      stays (view s) (view t) (record { routes = λ k. ap (λ m. lookup k m) p; delivered = w })

  accept-Move : (s : Server) (c : ℕ) → Move sha256 other (view s) (view (accept s c))
  unfolding accept
  accept-Move s c =
      stays-Move s (accept s c)
        (if_both {A = Server} (λ t. t.peers ≡ s.peers) (is_full s) _ _ refl refl)
        (if_both {A = Server} (λ t. t.written ≡ s.written) (is_full s) _ _ refl refl)

  stop-Move : (s : Server) → Move sha256 other (view s) (view (stop s))
  unfolding stop
  stop-Move s =
      stays-Move s (stop s) (if_both {A = Server} (λ t. t.peers ≡ s.peers) s.stopped _ _ refl refl)
        (if_both {A = Server} (λ t. t.written ≡ s.written) s.stopped _ _ refl refl)

  close-same :
      (s : Server) (o : Option ℕ)
      → ((close s o).peers ≡ s.peers) × ((close s o).written ≡ s.written)
  unfolding close
  close-same s none = (refl, refl)
  close-same s (some c) = (refl, refl)

  register-Move :
      (s s1 : Server) (c : ℕ) (hello : Bytes) (hs : HandshakePayload) (p : Peer)
      → s1.peers ≡ s.peers
      → s1.written ≡ s.written
      → decode_handshake hello ≡ ok hs
      → hs.version ≡ Protocol.version
      → p.key_hash ≡ sha256 hs.sender_pub_key
      → Move sha256 (greeting c (some hello)) (view s) (view (register s1 c p))
  unfolding register
  register-Move s s1 c hello hs p same w d v e =
      let (peers, written) = close-same s1 (lookup p.key_hash s1.peers) in
      joins (view s) (view (register s1 c p)) c hello hs d v
        (λ k.
          ap (λ m. lookup k (insert p.key_hash c m)) (peers ∙ same)
          ∙ (lookup-insert p.key_hash k c s.peers
              ∙ ap (λ h. if bytes_eq h k then some c else lookup k s.peers) e))
        (written ∙ w)

  do_handshake-ok :
      (input : Option Bytes) (now : ℕ) (p : Peer)
      → do_handshake sha256 input now ≡ ok p
      → (hello : Bytes) × (hs : HandshakePayload) × (input ≡ some hello)
        × (decode_handshake hello ≡ ok hs)
        × (hs.version ≡ Protocol.version)
        × (p.key_hash ≡ sha256 hs.sender_pub_key)
  unfolding do_handshake
  do_handshake-ok none now p e = cc
  do_handshake-ok (some buf) now p e = elim (Result-cases (decode_handshake buf)) [
    | inr (x, f) ↦ absurd (let g = rw (do_handshake, f) at e in cc)
    | inl (hs, f) ↦ elim (Bool-cases (hs.version == Protocol.version)) [
      | inr h ↦ absurd (let g = rw (do_handshake, f, h) at e in cc)
      | inl h ↦
          let peer : Peer = record {
            key_hash = sha256 hs.sender_pub_key;
            last_alive = now;
            evicted = false;
          } in
          let g : ok peer ≡ ok p = rw (do_handshake, f, h) at e in
          let same : peer ≡ p = cc in
          (
            buf,
            hs,
            refl,
            f,
            (==_iff hs.version Protocol.version).0 h,
            ap (λ q. q.key_hash) (sym same),
          )
    ]
  ]

  do_handshake-IsRefused :
      (input : Option Bytes) (now : ℕ) (x : HandshakeError)
      → do_handshake sha256 input now ≡ err x
      → IsRefused input
  unfolding do_handshake
  do_handshake-IsRefused input now x e hello hs f d v =
      absurd (let g = rw (f, do_handshake, d, (==_iff hs.version Protocol.version).1 v) at e in cc)

  handle_conn-Move :
      (s : Server) (c : ℕ) (input : Option Bytes) (now : ℕ)
      → Move sha256 (greeting c input) (view s) (view (handle_conn sha256 s c input now))
  unfolding handle_conn
  handle_conn-Move s c input now = elim (Result-cases (do_handshake sha256 input now)) [
    | inr (e, f) ↦
        rw (handle_conn, f)
          (refuses (view s) (view s) c input (do_handshake-IsRefused input now e f)
            (record { routes = λ k. refl; delivered = refl }))
    | inl (p, f) ↦
        let (hello, hs, i, d, v, e) = do_handshake-ok input now p f in
        let s1 = record s { pending = update s.pending c false } in
        let moved = register-Move s s1 c hello hs p refl refl d v e in
        rw (handle_conn, f) (rw (← i) at moved)
  ]

  forward-Move :
      (s s1 : Server) (buf : Bytes) (to : ℕ) (o : WriteOutcome)
      → s1.peers ≡ s.peers
      → s1.written ≡ s.written
      → lookup (take recipient_hash_size buf) s.peers ≡ some to
      → Move sha256 (frame buf o) (view s) (view (forward s1 to (drop recipient_hash_size buf) o).0)
  unfolding forward
  forward-Move s s1 buf to deadline_failed p w at =
      drops (view s) (view s1) buf deadline_failed (inr refl)
        (record { routes = λ k. ap (λ m. lookup k m) p; delivered = w })
  forward-Move s s1 buf to (write_failed n) p w at =
      carries (view s) _ buf (take n (drop 32 buf)) (write_failed n) to at refl
        (λ k. ap (λ m. lookup k m) p) (ap (λ l. l ++ ((to, take n (drop 32 buf)) ∷ [])) w)
  forward-Move s s1 buf to write_done p w at =
      carries (view s) _ buf (drop 32 buf) write_done to at refl (λ k. ap (λ m. lookup k m) p)
        (ap (λ l. l ++ ((to, drop 32 buf) ∷ [])) w)

  relay_round-Move :
      (s : Server) (c : ℕ) (buf : Bytes) (now : ℕ) (o : WriteOutcome)
      → length buf ≡ outer_frame_size
      → Move sha256 (frame buf o) (view s) (view (relay_round s c buf now o).server)
  relay_round-Move s c buf now o h =
      let (peers, written, closed) = touch-same s c now in
      elim (Option-cases (lookup (take recipient_hash_size buf) s.peers)) [
        | inl e ↦ rw (round_none s c buf now o h e) (
            drops (view s) (view (touch s c now)) buf o (inl e)
              (record { routes = λ k. ap (λ m. lookup k m) peers; delivered = written }))
        | inr (q, e) ↦
            rw (round_some s c buf now o h q e)
              (forward-Move s (touch s c now) buf q o peers written e)
      ]

  pub written-handle_conn :
      (s : Server) (c : ℕ) (input : Option Bytes) (now : ℕ)
      → (handle_conn sha256 s c input now).written ≡ s.written
  unfolding handle_conn register
  written-handle_conn s c input now = elim (Result-cases (do_handshake sha256 input now)) [
    | inr (e, f) ↦ rw (handle_conn, f) refl
    | inl (p, f) ↦
        let s1 = record s { pending = update s.pending c false } in
        rw (handle_conn, f) (close-same s1 (lookup p.key_hash s1.peers)).1
  ]

  -- Each step that the relay can take from a reachable state does to its directory what a blind relay
  -- may do on the step's cause, and no more. When the handshake of a connection ends, the hash of the
  -- public key that was read leads to this connection, if what was read is a handshake of the right
  -- version, and otherwise nothing changes. When a frame was read, what the network takes of its
  -- packet goes to the connection that the directory has for the frame's first 32 bytes, and nothing
  -- changes where there is no such connection or nothing was written. Evictions take out the routes
  -- to the connections they are about, and no other. All else changes nothing.
  pub Step-Move :
      {s t : Server}
      → Reach sha256 s
      → (st : Step sha256 s t) → Move sha256 (cause sha256 st) (view s) (view t)
  unfolding evict_all sweep_stale hang_up
  Step-Move r (accepts s c h k g) = accept-Move s c
  Step-Move r (handles s c input now h) = handle_conn-Move s c input now
  Step-Move r (relays s c buf now o h) = relay_round-Move s c buf now o h
  Step-Move r (hangs_up s c p h g) = stays-Move s (hang_up s c) refl refl
  Step-Move r (evicts s c) = evict_all-Move s (c ∷ []) (Reach-IsValid sha256 r)
  Step-Move r (sweeps s now) = evict_all-Move s (stale_of s now s.peers) (Reach-IsValid sha256 r)
  Step-Move r (stops s) = stop-Move s
