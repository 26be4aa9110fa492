-- ===== src/Relay/Listener/Early.antt =====
-- internal/relay/relay.go: `Stop` before `Run` has stored its listener, as a signal can bring it about that
-- arrives while cmd/road-1337/main.go is about to call `Run`.
use road.Base.{ℕ, ◌≡◌, ◌≢◌, refl, sym, ◌∙◌, some, true, false, Bytes, if_both}
use mathlib.Core.Path.{subst}
use road.Relay.{sweep_stale, stale_of}
use road.Relay.Listener.{
  Relay, not_called, accepting, listen, accept_round, connection, stop_all, sweep_round,
  done_closed, tick, Round, gets, fails, Move, listens, loops, stops, wakes, serves, stopped-accept,
  stopped-evict_all,
}

-- Stopped, with a listener that `Stop` has not seen.
pub record IsLeft (r : Relay) : Type 0 where
  pub stopped : r.server.stopped ≡ true
  pub unclosed : r.listener ≡ some false
  pub called : r.run ≢ not_called

stop_all-left : (r : Relay) → r.server.stopped ≡ true → stop_all r ≡ r
unfolding stop_all
stop_all-left r e = simp e refl

Round-IsLeft : {r q : Relay} → Round r q → IsLeft r → IsLeft q
unfolding accept_round
Round-IsLeft {r} (gets c e h) v = record {
  stopped = stopped-accept r.server c ∙ v.stopped;
  unclosed = v.unclosed;
  called = v.called;
}
Round-IsLeft {r} (fails e) v =
    if_both IsLeft r.server.stopped _ _
      (record { stopped = v.stopped; unclosed = v.unclosed; called = λ f. cc }) v

module _ (sha256 : Bytes → Bytes) where
  pub data Moves (r : Relay) : Relay → Type 0 where
    stays : Moves r r
    goes_on : {p q : Relay} → Moves r p → Move sha256 p q → Moves r q

  Move-IsLeft : {r q : Relay} → Move sha256 r q → IsLeft r → IsLeft q
  unfolding sweep_round sweep_stale
  Move-IsLeft (listens bound e) v = absurd (v.called e)
  Move-IsLeft (loops round) v = Round-IsLeft round v
  Move-IsLeft {r} stops v = subst IsLeft (sym (stop_all-left r v.stopped)) v
  Move-IsLeft (wakes done_closed e) v = record {
    stopped = v.stopped;
    unclosed = v.unclosed;
    called = v.called;
  }
  Move-IsLeft {r} (wakes (tick now) e) v = record {
    stopped = stopped-evict_all (stale_of r.server now r.server.peers) r.server ∙ v.stopped;
    unclosed = v.unclosed;
    called = v.called;
  }
  Move-IsLeft (serves st e) v = record {
    stopped = e ∙ v.stopped;
    unclosed = v.unclosed;
    called = v.called;
  }

  Moves-IsLeft : {r q : Relay} → IsLeft r → Moves r q → IsLeft q
  Moves-IsLeft v stays = v
  Moves-IsLeft v (goes_on moves m) = Move-IsLeft m (Moves-IsLeft v moves)

  -- When `Stop` ran before `Run` bound the address and stored the listener, `Stop` never closes that
  -- listener: whatever the relay does afterwards, a second call of `Stop` changes nothing, the
  -- listener is not closed, and as long as the accept loop runs it accepts any connection.
  pub Moves-listen :
      (r : Relay) {q : Relay}
      → r.run ≡ not_called
      → r.server.stopped ≡ true
      → Moves (listen r true) q
      → (stop_all q ≡ q)
        × (q.listener ≡ some false)
        × (q.run ≡ accepting → (c : ℕ) → Round q (accept_round q (connection c)))
  unfolding listen
  Moves-listen r {q} before stopped moves =
      let v =
        Moves-IsLeft (record { stopped = stopped; unclosed = refl; called = λ e. cc }) moves in
      (stop_all-left q v.stopped, v.unclosed, λ running c. gets c running v.unclosed)
