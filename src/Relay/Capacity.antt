-- ===== src/Relay/Capacity.antt =====
-- internal/relay/relay.go: how many peers the table can hold.
use road.Base.{
  ℕ, zero, suc, ◌≤◌, ◌<◌, ◌≡◌, ◌≢◌, refl, sym, ap, ◌∙◌, List, [], ◌∷◌, none, some, true, false, ok,
  Bytes, bytes_key, bytes_eq, bytes_eq_iff, length, lookup, insert, lookup-insert, Bool-cases, inl,
  inr, ◌==◌, ==-false, arith,
}
use mathlib.Core.List.{append-nil}
use road.Protocol.{HandshakePayload, encode_handshake, decode_handshake}
use road.Protocol.Handshake.{IsSized, decode_handshake-encode_handshake}
use road.Relay.{
  Server, Peer, new, accept, is_full, peer_count, handle_conn, do_handshake, register, close,
}
use road.Relay.Steps.{Reach, start, next, accepts, handles}

-- The owner of the public key asks for a route to itself.
abbrev greeting : Bytes → HandshakePayload
greeting key = record { version = 1; sender_pub_key = key; recipient_key_hash = key }

-- Connections 0 to n - 1 are accepted, while the table is empty.
accept_all : ℕ → Server
accept_all zero = new
accept_all (suc n) = accept (accept_all n) n

record IsWaiting (n : ℕ) (s : Server) : Type 0 where
  no_peers : s.peers ≡ []
  no_heap : (c : ℕ) → s.heap c ≡ none
  open_conns : (c : ℕ) → s.closed c ≡ false
  waits : (c : ℕ) → c < n → s.pending c ≡ true
  unknown : (c : ℕ) → n ≤ c → s.pending c ≡ false

accept-IsWaiting : (n : ℕ) (s : Server) → IsWaiting n s → IsWaiting (suc n) (accept s n)
unfolding accept is_full
accept-IsWaiting n s h =
    let room : length s.peers ≡ 0 = ap length h.no_peers in
    rw (accept, room)
      (record {
        no_peers = h.no_peers;
        no_heap = h.no_heap;
        open_conns = h.open_conns;
        waits = λ c l. elim (Bool-cases (n == c)) [
          | inl e ↦ rw e refl
          | inr e ↦ rw e (h.waits c (ground arith))
        ];
        unknown =
            λ c l. rw (==-false n c (λ e. omega (arith, e, l))) (h.unknown c (omega (arith, l)));
      })

length-insert :
    (k : Bytes) (v : ℕ) (m : List (Bytes × ℕ))
    → lookup k m ≡ none
    → length (insert k v m) ≡ suc (length m)
unfolding lookup insert
length-insert k v [] h = refl
length-insert k v ((i, w) ∷ m) h = elim (Bool-cases (bytes_eq i k)) [
  | inl e ↦ absurd (let f = rw e at h in cc)
  | inr e ↦ rw e (ap suc (length-insert k v m (rw e at h)))
]

module _ (sha256 : Bytes → Bytes) (n : ℕ) (key : ℕ → Bytes) (sizes : (i : ℕ) → length (key i) ≡ 32)
    (distinct : (i j : ℕ) → i < n → j < n → i ≢ j → sha256 (key i) ≢ sha256 (key j)) where
  accept_all-Reach : (k : ℕ) → Reach sha256 (accept_all k) × IsWaiting k (accept_all k)
  unfolding accept_all new
  accept_all-Reach zero = (
    start,
    record {
      no_peers = refl;
      no_heap = λ c. refl;
      open_conns = λ c. refl;
      waits = λ c l. absurd (omega (arith, l));
      unknown = λ c l. refl;
    },
  )
  accept_all-Reach (suc k) =
      let (r, h) = accept_all-Reach k in
      (
        next r
            (accepts (accept_all k) k (h.no_heap k) (h.open_conns k) (h.unknown k (omega arith))),
        accept-IsWaiting k (accept_all k) h,
      )

  peer_of : ℕ → Peer
  peer_of i = record { key_hash = sha256 (key i); last_alive = 0; evicted = false }

  do_handshake-greeting :
      (i : ℕ) → do_handshake sha256 (some (encode_handshake (greeting (key i)))) 0 ≡ ok (peer_of i)
  unfolding do_handshake peer_of
  do_handshake-greeting i =
      let hs = greeting (key i) in
      let sized : IsSized hs = record { key_32 = sizes i; hash_32 = sizes i } in
      let d : decode_handshake (encode_handshake hs) ≡ ok hs =
        ap decode_handshake (sym (append-nil (encode_handshake hs)))
        ∙ (decode_handshake-encode_handshake hs [] sized).1 in
      rw (do_handshake, d) refl

  -- The handshakes of the connections below k are done, the others wait.
  record IsJoining (k : ℕ) (s : Server) : Type 0 where
    reached : Reach sha256 s
    waits : (c : ℕ) → k ≤ c → c < n → s.pending c ≡ true
    count : length s.peers ≡ k
    absent : (c : ℕ) → k ≤ c → c < n → lookup (sha256 (key c)) s.peers ≡ none

  join : Server → ℕ → Server
  join s k = handle_conn sha256 s k (some (encode_handshake (greeting (key k)))) 0

  join-IsJoining : (k : ℕ) (s : Server) → k < n → IsJoining k s → IsJoining (suc k) (join s k)
  unfolding join handle_conn register close peer_of
  join-IsJoining k s l h =
      let input = some (encode_handshake (greeting (key k))) in
      let e = h.absent k (omega arith) l in
      let shaken = do_handshake-greeting k in
      record {
        reached = next h.reached (handles s k input 0 (h.waits k (omega arith) l));
        waits = λ c a b.
            rw (handle_conn, shaken, e, ==-false k c (λ q. omega (arith, q, a)))
              (h.waits c (omega (arith, a)) b);
        count =
            rw (handle_conn, shaken, e)
              (length-insert (sha256 (key k)) k s.peers e ∙ ap suc h.count);
        absent = λ c a b.
            let ne = distinct k c l b (λ q. omega (arith, q, a)) in
            let diff : bytes_eq (sha256 (key k)) (sha256 (key c)) ≡ false =
              elim (Bool-cases (bytes_eq (sha256 (key k)) (sha256 (key c)))) [
                | inl q ↦ absurd (ne ((bytes_eq_iff (sha256 (key k)) (sha256 (key c))).0 q))
                | inr q ↦ q
              ] in
            rw (handle_conn, shaken, e)
              (lookup-insert (sha256 (key k)) (sha256 (key c)) k s.peers
                ∙ rw diff (h.absent c (omega (arith, a)) b));
      }

  all_joined : (k : ℕ) → k ≤ n → (s : Server) × IsJoining k s
  all_joined zero l =
      let (r, h) = accept_all-Reach n in
      (
        accept_all n,
        record {
          reached = r;
          waits = λ c a b. h.waits c b;
          count = ap length h.no_peers;
          absent = λ c a b. ap (lookup (sha256 (key c))) h.no_peers ∙ unfold lookup in refl;
        },
      )
  all_joined (suc k) l =
      let (s, h) = all_joined k (omega (arith, l)) in
      (join s k, join-IsJoining k s (omega (arith, l)) h)

  -- For any number n of clients whose public keys have different hashes, the relay can reach a state
  -- with n peers in its table, so also one with more than maxPeers: the table is tested when a
  -- connection is accepted, and the handshakes come later.
  pub Reach-peer_count : (s : Server) × Reach sha256 s × (peer_count s ≡ n)
  unfolding peer_count
  Reach-peer_count = let (s, h) = all_joined n (omega arith) in (s, h.reached, h.count)
