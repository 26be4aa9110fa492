-- ===== src/Relay/Sweep.antt =====
-- internal/relay/relay.go, the sweeper: which entries of the routing table it removes.
use road.Base.{
  ◌-◌, ◌+◌, ℕ, ◌≡◌, refl, sym, ap, ◌∙◌, Option, none, some, Bool, true, false, ◌==◌, if◌then◌else◌,
  Bytes, bytes_key, bytes_eq, lookup, Bool-cases, ==_iff, ==_refl, inl, inr, List, [], ◌∷◌, arith,
  ◌≤◌, ◌⊎◌, ◌<◌, ltb, ltb→lt, ltb→le,
}
use road.Relay.{
  Server, evict, evict_all, stale_of, is_stale, evict_once, sweep_stale, Peer, heartbeat_timeout,
}
use road.Relay.Steps.{IsValid}
use road.Relay.Table.{drop_entry, lookup-evict, evict_cases}
use road.Relay.Invariant.{evict-IsValid, update_self}

pub member : ℕ → List ℕ → Bool
member d [] = false
member d (c ∷ cs) = if c == d then true else member d cs

pub drop_entries : List ℕ → Option ℕ → Option ℕ
drop_entries [] o = o
drop_entries (c ∷ cs) o = drop_entries cs (drop_entry c o)

pub drop_entries-none : (cs : List ℕ) → drop_entries cs none ≡ none
unfolding drop_entries
drop_entries-none [] = refl
drop_entries-none (c ∷ cs) = drop_entries-none cs

pub drop_entries-some :
    (cs : List ℕ) (d : ℕ) → drop_entries cs (some d) ≡ (if member d cs then none else some d)
unfolding drop_entries member
drop_entries-some [] d = refl
drop_entries-some (c ∷ cs) d = ground (arith, drop_entries-none cs, drop_entries-some cs d)

pub lookup-evict_all :
    (cs : List ℕ) (s : Server) (k : Bytes)
    → IsValid s
    → lookup k (evict_all s cs).peers ≡ drop_entries cs (lookup k s.peers)
unfolding evict_all drop_entries
lookup-evict_all [] s k v = refl
lookup-evict_all (c ∷ cs) s k v =
    lookup-evict_all cs (evict s c) k (evict-IsValid s c v)
    ∙ ap (drop_entries cs) (lookup-evict s v k c)

member-stale_of :
    (s : Server) (now d : ℕ) (m : List (Bytes × ℕ))
    → member d (stale_of s now m) ≡ true
    → is_stale s now d ≡ true
unfolding stale_of member
member-stale_of s now d [] h = cc
member-stale_of s now d ((k, c) ∷ m) h = elim (Bool-cases (is_stale s now c)) [
  | inl e ↦ elim (Bool-cases (c == d)) [
    | inl q ↦ ap (is_stale s now) (sym ((==_iff c d).0 q)) ∙ e
    | inr q ↦ member-stale_of s now d m (rw q at (rw (e, stale_of, member) at h))
  ]
  | inr e ↦ member-stale_of s now d m (rw (e, stale_of) at h)
]

stale_of-member :
    (s : Server) (now d : ℕ) (k : Bytes) (m : List (Bytes × ℕ))
    → lookup k m ≡ some d
    → is_stale s now d ≡ true
    → member d (stale_of s now m) ≡ true
unfolding lookup stale_of member
stale_of-member s now d k [] h t = cc
stale_of-member s now d k ((j, c) ∷ m) h t = elim (Bool-cases (bytes_eq j k)) [
  | inl e ↦ let f : some c ≡ some d = rw e at h in let g : c ≡ d = cc in rw (g, t, ==_refl d)
  | inr e ↦ let r = stale_of-member s now d k m (rw e at h) t in ground (arith, r)
]

closed-evict : (s : Server) (c d : ℕ) → s.closed d ≡ true → (evict s c).closed d ≡ true
unfolding evict_once
closed-evict s c d h = elim (evict_cases s c) [
  | inl (a, e) ↦ rw e h
  | inr (inl (p, a, f, e)) ↦ rw e h
  | inr (inr (p, a, f, e)) ↦ rw (e, evict_once) (ground arith)
]

closed-evict_all :
    (cs : List ℕ) (s : Server) (d : ℕ) → s.closed d ≡ true → (evict_all s cs).closed d ≡ true
unfolding evict_all
closed-evict_all [] s d h = h
closed-evict_all (c ∷ cs) s d h = closed-evict_all cs (evict s c) d (closed-evict s c d h)

-- The eviction of a peer that the table leads to closes its connection.
closed-evict_entry :
    (s : Server) (k : Bytes) (c : ℕ)
    → IsValid s
    → lookup k s.peers ≡ some c
    → (evict s c).closed c ≡ true
unfolding evict_once
closed-evict_entry s k c v h =
    let x = v.entry k c h in
    elim (evict_cases s c) [
      | inl (a, e) ↦ cc (a, x.in_heap)
      | inr (inl (p, a, f, e)) ↦
          let g : some p ≡ some x.peer = sym a ∙ x.in_heap in
          let i : p ≡ x.peer = cc in cc (ap (λ z. z.evicted) i, f, x.not_evicted)
      | inr (inr (p, a, f, e)) ↦ rw (e, evict_once) (update_self s.closed c true)
    ]

closed-member :
    (cs : List ℕ) (s : Server) (k : Bytes) (c : ℕ)
    → IsValid s
    → lookup k s.peers ≡ some c
    → member c cs ≡ true
    → (evict_all s cs).closed c ≡ true
unfolding evict_all member
closed-member [] s k c v h m = cc
closed-member (d ∷ cs) s k c v h m = elim (Bool-cases (d == c)) [
  | inl q ↦
      let e : d ≡ c = (==_iff d c).0 q in
      closed-evict_all cs (evict s d) c
        (ap (λ i. (evict s i).closed c) e ∙ closed-evict_entry s k c v h)
  | inr q ↦
      let kept : lookup k (evict s d).peers ≡ some c = lookup-evict s v k d ∙ rw (h, q) in
      closed-member cs (evict s d) k c (evict-IsValid s d v) kept (rw q at m)
]

-- One entry of a valid table under a sweep: an entry whose peer was alive within the heartbeat
-- timeout stays, and any other is taken out and its connection closed.
pub sweep_stale-entry :
    (s : Server) (now : ℕ) (k : Bytes) (c : ℕ) (p : Peer)
    → IsValid s
    → lookup k s.peers ≡ some c
    → s.heap c ≡ some p
    → ((now ≤ p.last_alive + heartbeat_timeout) × (lookup k (sweep_stale s now).peers ≡ some c))
      ⊎ ((p.last_alive + heartbeat_timeout < now)
          × (lookup k (sweep_stale s now).peers ≡ none)
          × ((sweep_stale s now).closed c ≡ true))
unfolding sweep_stale is_stale
sweep_stale-entry s now k c p v h e =
    let cs = stale_of s now s.peers in
    let stale : is_stale s now c ≡ ltb heartbeat_timeout (now - p.last_alive) = rw (e, is_stale) in
    let found : lookup k (evict_all s cs).peers ≡ (if member c cs then none else some c) =
      lookup-evict_all cs s k v ∙ ap (drop_entries cs) h ∙ drop_entries-some cs c in
    elim (Bool-cases (ltb heartbeat_timeout (now - p.last_alive))) [
      | inl old ↦
          let m = stale_of-member s now c k s.peers h (stale ∙ old) in
          inr (omega (arith, ltb→lt _ _ old), rw m at found, closed-member cs s k c v h m)
      | inr young ↦ inl (
        omega (arith, ltb→le _ _ young),
        elim (Bool-cases (member c cs)) [
          | inl m ↦ cc (member-stale_of s now c s.peers m, stale, young)
          | inr m ↦ rw m at found
        ],
      )
    ]

-- A sweep adds no entry.
pub sweep_stale-none :
    (s : Server) (now : ℕ) (k : Bytes)
    → IsValid s
    → lookup k s.peers ≡ none
    → lookup k (sweep_stale s now).peers ≡ none
unfolding sweep_stale
sweep_stale-none s now k v h =
    let cs = stale_of s now s.peers in
    lookup-evict_all cs s k v ∙ ap (drop_entries cs) h ∙ drop_entries-none cs
