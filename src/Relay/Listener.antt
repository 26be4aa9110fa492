-- ===== src/Relay/Listener.antt =====
-- internal/relay/relay.go: `Run`, `Stop` and `sweepLoop` around the server: the listener, the accept
-- loop, and the background sweeper.
pub mod Early
use road.Base.{
  if_both, List, [], ◌∷◌, ℕ, ◌≡◌, refl, ap, ◌∙◌, Option, none, some, Bool, true, false,
  if◌then◌else◌, Bool-cases, Bytes, ◌⊎◌, inl, inr,
}
use road.Relay.Table.{evict_cases}
use road.Relay.{
  is_full, evict, evict_once, evict_all, stale_of, Server, new, accept, stop, sweep_stale,
}
use road.Relay.Steps.{Step}

-- Where `Run` stands.
pub data RunState : Type 0 where
  not_called : RunState
  accepting : RunState
  listen_failed : RunState
  returned : RunState

pub record Relay : Type 0 where
  pub server : Server
  -- The field `listener`: nil, or whether it was closed.
  pub listener : Option Bool
  pub run : RunState
  pub sweeping : Bool

abbrev pub fresh_relay : Relay
fresh_relay = record { server = new; listener = none; run = not_called; sweeping = false }

-- `Run` up to its loop. The flag says whether the address could be bound.
unfoldable pub listen : Relay → Bool → Relay
listen r bound =
    if bound
    then record r { listener = some false; run = accepting; sweeping = true }
    else record r { run = listen_failed }

-- What a call of `Accept` gives.
pub data Accepted : Type 0 where
  connection : ℕ → Accepted
  accept_error : Accepted

-- A round of the accept loop.
unfoldable pub accept_round : Relay → Accepted → Relay
accept_round r (connection c) = record r { server = accept r.server c }
accept_round r accept_error = if r.server.stopped then record r { run = returned } else r

close_listener : Option Bool → Option Bool
close_listener none = none
close_listener (some closed) = some true

-- The body of `Stop`, which runs once.
unfoldable pub stop_all : Relay → Relay
unfolding close_listener
stop_all r =
    if r.server.stopped
    then r
    else record r { server = stop r.server; listener = close_listener r.listener }

-- What the sweeper's `select` sees: `done` is closed, or a tick.
pub data Wakeup : Type 0 where
  done_closed : Wakeup
  tick : ℕ → Wakeup

unfoldable pub sweep_round : Relay → Wakeup → Relay
sweep_round r done_closed = record r { sweeping = false }
sweep_round r (tick now) = record r { server = sweep_stale r.server now }

-- A round that the accept loop can take: an open listener gives connections or errors, and a closed
-- one only errors.
pub data Round (r : Relay) : Relay → Type 0 where
  gets :
      (c : ℕ)
      → r.run ≡ accepting
      → r.listener ≡ some false
      → Round r (accept_round r (connection c))
  fails : r.run ≡ accepting → Round r (accept_round r accept_error)

module _ (sha256 : Bytes → Bytes) where
  pub data Move (r : Relay) : Relay → Type 0 where
    listens : (bound : Bool) → r.run ≡ not_called → Move r (listen r bound)
    loops : {q : Relay} → Round r q → Move r q
    stops : Move r (stop_all r)
    wakes : (w : Wakeup) → r.sweeping ≡ true → Move r (sweep_round r w)
    -- The goroutines of the connections.
    serves :
        {t : Server}
        → Step sha256 r.server t
        → t.stopped ≡ r.server.stopped
        → Move r (record r { server = t })

  pub data Reach : Relay → Type 0 where
    start : Reach fresh_relay
    next : {r q : Relay} → Reach r → Move r q → Reach q

-- A loop that runs has a listener, and only `Stop` closes it.
pub record IsSound (r : Relay) : Type 0 where
  pub listening : r.run ≡ accepting → (closed : Bool) × (r.listener ≡ some closed)
  pub by_stop : r.listener ≡ some true → r.server.stopped ≡ true

stopped-evict : (s : Server) (c : ℕ) → (evict s c).stopped ≡ s.stopped
unfolding evict_once
stopped-evict s c = elim (evict_cases s c) [
  | inl (h, e) ↦ rw e refl
  | inr (inl (p, h, f, e)) ↦ rw e refl
  | inr (inr (p, h, f, e)) ↦ rw (e, evict_once) refl
]

pub stopped-evict_all : (cs : List ℕ) (s : Server) → (evict_all s cs).stopped ≡ s.stopped
unfolding evict_all
stopped-evict_all [] s = refl
stopped-evict_all (c ∷ cs) s = stopped-evict_all cs (evict s c) ∙ stopped-evict s c

pub stopped-accept : (s : Server) (c : ℕ) → (accept s c).stopped ≡ s.stopped
unfolding accept
stopped-accept s c = if_both {A = Server} (λ t. t.stopped ≡ s.stopped) (is_full s) _ _ refl refl

stopped-stop : (s : Server) → (stop s).stopped ≡ true
unfolding stop
stopped-stop s = elim (Bool-cases s.stopped) [ inl e ↦ rw e refl | inr e ↦ rw e refl ]

-- A server that has not become unstopped keeps a relay sound.
server-IsSound :
    (r : Relay) (t : Server)
    → t.stopped ≡ r.server.stopped
    → IsSound r
    → IsSound (record r { server = t })
server-IsSound r t e v = record { listening = v.listening; by_stop = λ h. e ∙ v.by_stop h }

Round-IsSound : {r q : Relay} → Round r q → IsSound r → IsSound q
unfolding accept_round
Round-IsSound {r} (gets c e h) v =
    server-IsSound r (accept r.server c) (stopped-accept r.server c) v
Round-IsSound {r} (fails e) v =
    if_both IsSound r.server.stopped _ _
      (record { listening = λ h. v.listening e; by_stop = v.by_stop }) v

stop_all-IsSound : (r : Relay) → IsSound r → IsSound (stop_all r)
unfolding stop_all close_listener
stop_all-IsSound r v = if_both IsSound r.server.stopped _ _ v (record {
  listening = λ h. let (closed, e) = v.listening h in (true, ap close_listener e);
  by_stop = λ h. stopped-stop r.server;
})

module _ (sha256 : Bytes → Bytes) where
  Move-IsSound : {r q : Relay} → Move sha256 r q → IsSound r → IsSound q
  unfolding listen sweep_round sweep_stale
  Move-IsSound {r} (listens bound e) v =
      if_both IsSound bound _ _ (record { listening = λ h. (false, refl); by_stop = λ h. cc })
        (record { listening = λ h. cc; by_stop = v.by_stop })
  Move-IsSound (loops round) v = Round-IsSound round v
  Move-IsSound {r} stops v = stop_all-IsSound r v
  Move-IsSound {r} (wakes done_closed e) v = record { listening = v.listening; by_stop = v.by_stop }
  Move-IsSound {r} (wakes (tick now) e) v =
      server-IsSound r (sweep_stale r.server now)
        (stopped-evict_all (stale_of r.server now r.server.peers) r.server) v
  Move-IsSound {r} (serves {t} st e) v = server-IsSound r t e v

  Reach-IsSound : {r : Relay} → Reach sha256 r → IsSound r
  Reach-IsSound start = record { listening = λ h. cc; by_stop = λ h. cc }
  Reach-IsSound (next r m) = Move-IsSound m (Reach-IsSound r)

  -- A round of the accept loop, in any state that the relay can get into, makes `Run` return, and
  -- the server was stopped then; or the loop goes on, and the listener was not closed. So `Run` does
  -- not return before `Stop`, and once `Stop` has closed the listener the next round is the last.
  pub Round_cases :
      {r q : Relay}
      → Reach sha256 r
      → Round r q
      → ((q.run ≡ returned) × (r.server.stopped ≡ true))
        ⊎ ((q.run ≡ accepting) × (r.listener ≡ some false))
  unfolding accept_round
  Round_cases {r} reach (gets c e unclosed) = inr (e, unclosed)
  Round_cases {r} reach (fails e) = elim (Bool-cases r.server.stopped) [
    | inl f ↦ inl (rw f refl, f)
    | inr f ↦
        let v = Reach-IsSound reach in
        let (closed, g) = v.listening e in
        elim (Bool-cases closed) [
          | inl h ↦ absurd (let i = v.by_stop (g ∙ ap some h) in cc)
          | inr h ↦ inr (rw f e, g ∙ ap some h)
        ]
  ]
