-- ===== src/Relay/Routing.antt =====
-- internal/relay/relay.go, forwarding: where a frame goes, and that a reconnecting client takes its key hash over.
use road.Base.{
  ℕ, ◌≡◌, refl, ap, ◌∙◌, Option, none, some, true, false, ==-false, Bytes, bytes_key, bytes_eq_refl,
  length, take, drop, make, length-make, length-take, length-drop, copy_at, copy_at_full, lookup,
  lookup-insert, Option-cases, inl, inr, ◌⊎◌, List, [], ◌∷◌, ◌++◌, arith,
}
use mathlib.Core.Path.{ap₂}
use road.Relay.{
  Server, Peer, WriteOutcome, deadline_failed, write_failed, write_done, Round, relay_round,
  forward, touch, register, close, evict, outer_frame_size, recipient_hash_size,
}
use road.Relay.Steps.{IsValid, Entry}
use road.Relay.Table.{lookup-evict}
use road.Relay.Invariant.{register-IsValid, update_self}
use road.Crypto.Cipher.{packet_size}

-- What is written to `q` for each outcome, and whether `q` is to be evicted.
abbrev pub Delivery : WriteOutcome → ℕ → Bytes → List (ℕ × Bytes) → Round → Type 0
Delivery deadline_failed q packet before r = (r.server.written ≡ before) × (r.to_evict ≡ some q)
Delivery (write_failed n) q packet before r =
    (r.server.written ≡ before ++ (q, take n packet) ∷ []) × (r.to_evict ≡ some q)
Delivery write_done q packet before r =
    (r.server.written ≡ before ++ (q, packet) ∷ []) × (r.to_evict ≡ none)

pub touch-same :
    (s : Server) (c now : ℕ)
    → ((touch s c now).peers ≡ s.peers)
      × ((touch s c now).written ≡ s.written)
      × ((touch s c now).closed ≡ s.closed)
unfolding touch
touch-same s c now = elim (Option-cases (s.heap c)) [
  | inl e ↦ rw (e, touch) (refl, refl, refl)
  | inr (p, e) ↦ rw (e, touch) (refl, refl, refl)
]

module _ (s : Server) (c : ℕ) (buf : Bytes) (now : ℕ) (outcome : WriteOutcome)
    (size : length buf ≡ outer_frame_size) where
  pub found_recipient :
      (o : Option ℕ)
      → lookup (take recipient_hash_size buf) s.peers ≡ o
      → lookup
          (copy_at (make recipient_hash_size) 0 (take recipient_hash_size buf))
          (touch s c now).peers
        ≡ o
  found_recipient o e =
      let (peers, written, closed) = touch-same s c now in
      ap₂ (λ k m. lookup k m)
        (copy_at_full (make 32) (take 32 buf) (omega (arith, length-make 32, length-take 32 buf)))
        peers
      ∙ e

  pub round_none :
      lookup (take recipient_hash_size buf) s.peers ≡ none
      → relay_round s c buf now outcome
        ≡ record { server = touch s c now; buffer = make (length buf); to_evict = none }
  unfolding relay_round
  round_none e = rw (found_recipient none e, relay_round)

  pub round_some :
      (q : ℕ)
      → lookup (take recipient_hash_size buf) s.peers ≡ some q
      → let f = forward (touch s c now) q (drop recipient_hash_size buf) outcome in
        relay_round s c buf now outcome
        ≡ record { server = f.0; buffer = make (length buf); to_evict = f.1 }
  unfolding relay_round
  round_some q e = rw (found_recipient (some q) e, relay_round)

pub forward-same :
    (s : Server) (q : ℕ) (packet : Bytes) (o : WriteOutcome)
    → ((forward s q packet o).0.peers ≡ s.peers) × ((forward s q packet o).0.closed ≡ s.closed)
unfolding forward
forward-same s q packet deadline_failed = (refl, refl)
forward-same s q packet (write_failed n) = (refl, refl)
forward-same s q packet write_done = (refl, refl)

forward-Delivery :
    (s : Server) (q : ℕ) (packet : Bytes) (o : WriteOutcome) (before : List (ℕ × Bytes))
    (buffer : Bytes)
    → s.written ≡ before
    → let f = forward s q packet o in
      Delivery o q packet before (record { server = f.0; buffer = buffer; to_evict = f.1 })
unfolding forward
forward-Delivery s q packet deadline_failed before buffer e = (e, refl)
forward-Delivery s q packet (write_failed n) before buffer e =
    (ap (λ w. w ++ (q, take n packet) ∷ []) e, refl)
forward-Delivery s q packet write_done before buffer e = (ap (λ w. w ++ (q, packet) ∷ []) e, refl)

-- A frame of 4128 bytes that a relay loop has read goes, as far as the network lets it, to the peer
-- that shook hands under the frame's first 32 bytes, and is the frame's other 4096 bytes unchanged;
-- where no such peer is in the table, nothing is written. Nothing else is written to anybody, the
-- table and the open connections stay, and the buffer is left with zeros only.
pub relay_round_lem :
    (s : Server) (c : ℕ) (buf : Bytes) (now : ℕ) (outcome : WriteOutcome)
    → IsValid s
    → length buf ≡ outer_frame_size
    → let r = relay_round s c buf now outcome in
      let hash = take recipient_hash_size buf in
      let packet = drop recipient_hash_size buf in
      (r.server.peers ≡ s.peers)
      × (r.server.closed ≡ s.closed)
      × (r.buffer ≡ make outer_frame_size)
      × (length packet ≡ packet_size)
      × (((lookup hash s.peers ≡ none) × (r.server.written ≡ s.written) × (r.to_evict ≡ none))
          ⊎ ((q : ℕ) × (lookup hash s.peers ≡ some q)
              × Entry s hash q
              × Delivery outcome q packet s.written r))
relay_round_lem s c buf now outcome v h =
    let hash = take 32 buf in
    let (peers, written, closed) = touch-same s c now in
    let size : length (drop 32 buf) ≡ 4096 = omega (arith, length-drop 32 buf) in
    elim (Option-cases (lookup hash s.peers)) [
      | inl e ↦
          rw (round_none s c buf now outcome h e)
            (peers, closed, ap make h, size, inl (e, written, refl))
      | inr (q, e) ↦
          let (same, open_conns) = forward-same (touch s c now) q (drop 32 buf) outcome in
          rw (round_some s c buf now outcome h q e) (
            same ∙ peers,
            open_conns ∙ closed,
            ap make h,
            size,
            inr (
              q,
              e,
              v.entry hash q e,
              forward-Delivery (touch s c now) q (drop 32 buf) outcome s.written (make (length buf))
                  written,
            ),
          )
    ]

-- A frame that is written in full reaches the connection of its recipient, and nobody else.
pub relay_round-written :
    (s : Server) (c q : ℕ) (buf : Bytes) (now : ℕ)
    → length buf ≡ outer_frame_size
    → lookup (take recipient_hash_size buf) s.peers ≡ some q
    → (relay_round s c buf now write_done).server.written
      ≡ s.written ++ (q, drop recipient_hash_size buf) ∷ []
relay_round-written s c q buf now size e =
    let (peers, written, closed) = touch-same s c now in
    rw (round_some s c buf now write_done size q e)
      (forward-Delivery (touch s c now) q (drop 32 buf) write_done s.written (make (length buf))
        written).0

pub register-lookup :
    (s : Server) (c : ℕ) (p : Peer) → lookup p.key_hash (register s c p).peers ≡ some c
unfolding register
register-lookup s c p = elim (Option-cases (lookup p.key_hash s.peers)) [
  | inl e ↦ rw (e, close, lookup-insert p.key_hash p.key_hash c s.peers, bytes_eq_refl p.key_hash)
  | inr (old, e) ↦
      rw (e, close, lookup-insert p.key_hash p.key_hash c s.peers, bytes_eq_refl p.key_hash)
]

register-closed :
    (s : Server) (c old : ℕ) (p : Peer)
    → lookup p.key_hash s.peers ≡ some old
    → (register s c p).closed old ≡ true
unfolding register
register-closed s c old p e = rw (e, close) (update_self s.closed old true)

-- A client that registers again under its key hash replaces its old connection, which is closed;
-- and the eviction of the old one, which comes later, leaves the new one in the table.
pub evict-register :
    (s : Server) (c old : ℕ) (p : Peer)
    → IsValid s
    → lookup p.key_hash s.peers ≡ some old
    → s.heap c ≡ none
    → s.closed c ≡ false
    → s.pending c ≡ false
    → p.evicted ≡ false
    → ((register s c p).closed old ≡ true)
      × (lookup p.key_hash (evict (register s c p) old).peers ≡ some c)
evict-register s c old p v h a b d f =
    let x = v.entry p.key_hash old h in
    let w = register-IsValid s c p a b d f v in
    let new : lookup p.key_hash (register s c p).peers ≡ some c = register-lookup s c p in
    (
      register-closed s c old p h,
      lookup-evict (register s c p) w p.key_hash old
          ∙ rw (new, ==-false old c (λ q. cc (ap s.heap q, a, x.in_heap))),
    )
