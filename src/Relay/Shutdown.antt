-- ===== src/Relay/Shutdown.antt =====
-- internal/relay/relay.go, `Stop`: which connections it closes, and which it does not reach.
use road.Base.{
  ◌||◌, if◌then◌else◌, ℕ, ◌≡◌, refl, sym, ap, ◌∙◌, List, [], ◌∷◌, Option, none, some, Bool, true,
  false, ◌==◌, ok, Bytes, bytes_key, bytes_eq, lookup, update, Option-cases, Bool-cases, inl, inr,
  if_both,
}
use road.Relay.{Server, Peer, stop, close_all, close, register, handle_conn, do_handshake}
use road.Relay.Steps.{IsValid, Reach, next, stops}
use road.Relay.Invariant.{update_self, update_ne}
use road.Relay.Reachable.{Reach-IsValid}
use road.Relay.Routing.{register-lookup}

pub close_all-closed :
    (m : List (Bytes × ℕ)) (closed : ℕ → Bool) (c : ℕ)
    → closed c ≡ true
    → close_all closed m c ≡ true
unfolding close_all
close_all-closed [] closed c h = h
close_all-closed ((k, d) ∷ m) closed c h =
    close_all-closed m (update closed d true) c (if_both (λ b. b ≡ true) (d == c) _ _ refl h)

close_all-lookup :
    (m : List (Bytes × ℕ)) (closed : ℕ → Bool) (k : Bytes) (c : ℕ)
    → lookup k m ≡ some c
    → close_all closed m c ≡ true
unfolding close_all lookup
close_all-lookup [] closed k c h = cc
close_all-lookup ((j, d) ∷ m) closed k c h = elim (Bool-cases (bytes_eq j k)) [
  | inl e ↦
      let f : some d ≡ some c = rw e at h in
      let g : d ≡ c = cc in
      close_all-closed m (update closed d true) c
        (ap (update closed d true) (sym g) ∙ update_self closed d true)
  | inr e ↦ close_all-lookup m (update closed d true) k c (rw e at h)
]

-- Whether a connection is in the table.
unfoldable pub is_routed : ℕ → List (Bytes × ℕ) → Bool
is_routed c [] = false
is_routed c ((k, d) ∷ m) = (d == c) || is_routed c m

close_all_lem :
    (m : List (Bytes × ℕ)) (closed : ℕ → Bool) (c : ℕ)
    → close_all closed m c ≡ (closed c || is_routed c m)
unfolding close_all is_routed
close_all_lem [] closed c = elim (Bool-cases (closed c)) [ inl e ↦ rw e refl | inr e ↦ rw e refl ]
close_all_lem ((k, d) ∷ m) closed c =
    close_all_lem m (update closed d true) c ∙ either (d == c) (closed c) (is_routed c m)
  where
    either : (b x y : Bool) → ((if b then true else x) || y) ≡ (x || (b || y))
    either true true y = refl
    either true false y = refl
    either false x y = refl

-- Stopping a relay that was not stopped closes exactly the connections in its table: a connection is
-- closed after it if it was closed before or the table has it under some key hash, and is open
-- otherwise; and the table, and the connections whose handshake is under way, stay as they are.
pub stop-closed :
    (s : Server) (c : ℕ)
    → s.stopped ≡ false
    → ((stop s).closed c ≡ (s.closed c || is_routed c s.peers))
      × ((stop s).peers ≡ s.peers)
      × ((stop s).pending c ≡ s.pending c)
unfolding stop
stop-closed s c live = rw live (close_all_lem s.peers s.closed c, refl, refl)

stop-pending : (s : Server) → (stop s).pending ≡ s.pending
unfolding stop
stop-pending s = if_both {A = Server} (λ t. t.pending ≡ s.pending) s.stopped _ _ refl refl

register-open :
    (s : Server) (pending : ℕ → Bool) (c : ℕ) (p : Peer)
    → IsValid s
    → s.heap c ≡ none
    → s.closed c ≡ false
    → (register (record s { pending = pending }) c p).closed c ≡ false
unfolding register close
register-open s pending c p v fresh closed = elim (Option-cases (lookup p.key_hash s.peers)) [
  | inl f ↦ rw (f, close) closed
  | inr (old, f) ↦
      let x = v.entry p.key_hash old f in
      rw (f, close)
        (update_ne s.closed old c true (λ q. cc (ap s.heap q, fresh, x.in_heap)) ∙ closed)
]

-- A handshake that succeeds leaves its connection open and in the table.
module _ (sha256 : Bytes → Bytes) where
  handle_conn-open :
      (s : Server) (c now : ℕ) (input : Option Bytes) (p : Peer)
      → IsValid s
      → s.pending c ≡ true
      → do_handshake sha256 input now ≡ ok p
      → let t = handle_conn sha256 s c input now in
        (lookup p.key_hash t.peers ≡ some c) × (t.closed c ≡ false)
  unfolding handle_conn register
  handle_conn-open s c now input p v waits e =
      let (fresh, closed) = v.fresh c waits in
      rw (handle_conn, e)
        (
          register-lookup (record s { pending = update s.pending c false }) c p,
          register-open s (update s.pending c false) c p v fresh closed,
        )

  -- A connection whose handshake is under way when a relay is stopped, in a reachable state: if the
  -- handshake succeeds after the stop, the connection is entered into the table, under its key hash,
  -- and is open.
  pub handle_conn-stop :
      {s : Server} (d now : ℕ) (input : Option Bytes) (p : Peer)
      → Reach sha256 s
      → s.pending d ≡ true
      → do_handshake sha256 input now ≡ ok p
      → let late = handle_conn sha256 (stop s) d input now in
        (lookup p.key_hash late.peers ≡ some d) × (late.closed d ≡ false)
  handle_conn-stop {s} d now input p r waits e =
      handle_conn-open (stop s) d now input p (Reach-IsValid sha256 (next r (stops s)))
        (ap (λ f. f d) (stop-pending s) ∙ waits) e
