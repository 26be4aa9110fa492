-- ===== src/Relay/Table.antt =====
-- internal/relay/relay.go: what an eviction does to the routing table and to the rest of the server.
use road.Base.{
  ℕ, ◌≡◌, ◌≢◌, refl, sym, ap, ◌∙◌, Option, none, some, true, false, ◌==◌, if◌then◌else◌, Bytes,
  bytes_key, lookup, lookup-delete, Bool-cases, Option-cases, ==_iff, ==_refl, ==-false, bytes_eq,
  bytes_eq_iff, inl, inr, ◌⊎◌,
}
use road.Relay.{Server, Peer, evict, evict_once, is_current}
use road.Relay.Steps.{IsValid}

-- A table's answer without the connection `c`.
abbrev pub drop_entry : ℕ → Option ℕ → Option ℕ
drop_entry c none = none
drop_entry c (some d) = if c == d then none else some d

drop_entry_ne : (c : ℕ) (o : Option ℕ) → o ≢ some c → drop_entry c o ≡ o
drop_entry_ne c none h = refl
drop_entry_ne c (some d) h = rw (==-false c d (λ e. h (ap some (sym e))))

drop_entry_eq : (c : ℕ) (o : Option ℕ) → o ≡ some c → drop_entry c o ≡ none
drop_entry_eq c o h = rw (h, ==_refl c)

-- What is left of a table's answer was there before, and is another connection.
pub drop_entry-some : (c d : ℕ) (o : Option ℕ) → drop_entry c o ≡ some d → (o ≡ some d) × (c ≢ d)
drop_entry-some c d none e = cc
drop_entry-some c d (some x) e = elim (Bool-cases (c == x)) [
  | inl h ↦ let f = rw h at e in cc
  | inr h ↦
      let f : some x ≡ some d = rw h at e in
      let g : x ≡ d = cc in (f, λ k. cc (h, (==_iff c x).1 (k ∙ sym g)))
]

is_current-true : (o : Option ℕ) (c : ℕ) → is_current o c ≡ true → o ≡ some c
is_current-true none c e = cc
is_current-true (some d) c e = ap some ((==_iff d c).0 e)

is_current-some : (o : Option ℕ) (c : ℕ) → o ≡ some c → is_current o c ≡ true
is_current-some o c e = rw (e, ==_refl c)

-- `evict` runs once for each peer.
pub evict_cases :
    (s : Server) (c : ℕ)
    → ((s.heap c ≡ none) × (evict s c ≡ s))
      ⊎ ((p : Peer) × (s.heap c ≡ some p) × (p.evicted ≡ true) × (evict s c ≡ s))
      ⊎ ((p : Peer) × (s.heap c ≡ some p) × (p.evicted ≡ false) × (evict s c ≡ evict_once s c p))
unfolding evict
evict_cases s c = elim (Option-cases (s.heap c)) [
  | inl e ↦ inl (e, rw (e, evict))
  | inr (p, e) ↦ elim (Bool-cases p.evicted) [
    | inl f ↦ inr (inl (p, e, f, rw (e, evict, f)))
    | inr f ↦ inr (inr (p, e, f, rw (e, evict, f)))
  ]
]

module _ (s : Server) (v : IsValid s) (k : Bytes) (c : ℕ) where
  entry-ne_none : s.heap c ≡ none → lookup k s.peers ≢ some c
  entry-ne_none h e = let x = v.entry k c e in cc (x.in_heap)

  entry_peer :
      (p : Peer)
      → s.heap c ≡ some p
      → lookup k s.peers ≡ some c
      → (p.key_hash ≡ k) × (p.evicted ≡ false)
  entry_peer p h e =
      let x = v.entry k c e in
      let f : some x.peer ≡ some p = sym x.in_heap ∙ h in
      let g : x.peer ≡ p = cc in
      (ap (λ q. q.key_hash) (sym g) ∙ x.own_key, ap (λ q. q.evicted) (sym g) ∙ x.not_evicted)

  lookup-evict_once :
      (p : Peer)
      → s.heap c ≡ some p
      → p.evicted ≡ false
      → lookup k (evict_once s c p).peers ≡ drop_entry c (lookup k s.peers)
  unfolding evict_once
  lookup-evict_once p h f = elim (Bool-cases (is_current (lookup p.key_hash s.peers) c)) [
    | inl cur ↦ elim (Bool-cases (bytes_eq p.key_hash k)) [
      | inl same ↦
          let e : lookup k s.peers ≡ some c =
            ap (λ j. lookup j s.peers) (sym ((bytes_eq_iff _ _).0 same))
            ∙ is_current-true _ c cur in
          rw (cur, lookup-delete p.key_hash k s.peers, same) (sym (drop_entry_eq c _ e))
      | inr diff ↦
          rw (cur, lookup-delete p.key_hash k s.peers, diff)
            (sym (
              drop_entry_ne c _
                (λ g. cc (diff, (bytes_eq_iff p.key_hash k).1 (entry_peer p h g).0))))
    ]
    | inr other ↦ rw other (
        sym (
          drop_entry_ne c _ (λ g.
            let e : lookup p.key_hash s.peers ≡ some c =
              ap (λ j. lookup j s.peers) (entry_peer p h g).0 ∙ g in
            cc (other, is_current-some _ c e))))
  ]

  -- Evicting `c` takes the entry of `c` out of the table, and nothing else.
  pub lookup-evict : lookup k (evict s c).peers ≡ drop_entry c (lookup k s.peers)
  lookup-evict = elim (evict_cases s c) [
    | inl (h, e) ↦ rw e (sym (drop_entry_ne c _ (entry-ne_none h)))
    | inr (inl (p, h, f, e)) ↦ rw e (sym (drop_entry_ne c _ (λ g. cc (f, (entry_peer p h g).1))))
    | inr (inr (p, h, f, e)) ↦ rw e (lookup-evict_once p h f)
  ]
