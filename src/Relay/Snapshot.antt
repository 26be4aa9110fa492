-- ===== src/Relay/Snapshot.antt =====
-- internal/relay/relay.go: `Snapshot`. The address of a connection is a parameter; the range over the
-- map is in the order of the table.
use road.Base.{
  ℕ, suc, ◌≡◌, refl, ap, List, [], ◌∷◌, none, some, Bytes, bytes_key, length, take, lookup,
  lookup_head, lookup_tail, Distinct,
}
use road.Crypto.Hex.{encode_hex}
use road.Relay.{Server, Peer, peer_count}
use road.Relay.Steps.{Reach}
use road.Relay.Reachable.{Reach-IsValid}

pub record PeerInfo : Type 0 where
  pub key_hash_hex : Bytes
  pub remote_addr : Bytes
  pub last_alive : ℕ

-- A peer of the table is in the heap; an entry without one gives nothing.
unfoldable pub infos_of : (ℕ → Bytes) → Server → List (Bytes × ℕ) → List PeerInfo
infos_of remote s [] = []
infos_of remote s ((hash, c) ∷ m) =
    let rest = infos_of remote s m in
    elim (s.heap c) [
      | none ↦ rest
      | some p ↦
          record {
            key_hash_hex = encode_hex (take 6 hash);
            remote_addr = remote c;
            last_alive = p.last_alive;
          }
          ∷ rest
    ]

unfoldable pub snapshot : (ℕ → Bytes) → Server → List PeerInfo
unfolding infos_of
snapshot remote s = infos_of remote s s.peers

length-infos_of :
    (remote : ℕ → Bytes) (s : Server) (m : List (Bytes × ℕ))
    → Distinct m
    → ((k : Bytes) (c : ℕ) → lookup k m ≡ some c → (p : Peer) × (s.heap c ≡ some p))
    → length (infos_of remote s m) ≡ length m
unfolding infos_of
length-infos_of remote s [] u h = refl
length-infos_of remote s ((k, c) ∷ m) u h =
    let (p, e) = h k c (lookup_head k c m) in
    rw (e, infos_of)
      (ap suc (length-infos_of remote s m u.1 (λ j d f. h j d (lookup_tail k j c d m u f))))

-- After any steps of the relay the snapshot has an entry for each peer of the table.
pub length-snapshot :
    (sha256 : Bytes → Bytes) (remote : ℕ → Bytes) {s : Server}
    → Reach sha256 s
    → length (snapshot remote s) ≡ peer_count s
unfolding snapshot peer_count
length-snapshot sha256 remote {s} r =
    let v = Reach-IsValid sha256 r in
    length-infos_of remote s s.peers v.distinct
      (λ k c e. let x = v.entry k c e in (x.peer, x.in_heap))
