-- ===== src/Conversation/Spoken.antt =====
-- internal/client over internal/relay: two sessions that were connected with each other's keys, and
-- what of a list of texts the one sends the other shows.
use road.Base.{
  ℕ, ◌≤◌, ◌≡◌, ◌∙◌, List, [], ◌++◌, map, none, some, false, ok, Bytes, bytes_key, length, lookup,
  ◌⊎◌, All,
}
use road.Crypto.Cipher.{Aead, Random}
use road.Crypto.Keys.{Curve, pair_of, ecdh}
use road.Crypto.Keys.Agreement.{ecdh_comm}
use road.Relay.{Server, WriteOutcome}
use road.Client.{SendError, max_body}
use road.Client.Send.{own_fault}
use road.Client.Incoming.{CreateOutcome, DiskOutcome}
use road.Conversation.{session_with, session_with-state}
use road.Conversation.Messages.{say_all-Ends, Talk, IsJoined, say_all, say_all-Ends, shown}

-- Two sessions, each connected with the public key of the other's private key, and a relay.
abbrev pub talk_of :
    Curve
    → (Bytes → Bytes)
    → (r : Random) → Bytes
    → Bytes
    → List WriteOutcome
    → List WriteOutcome
    → ℕ
    → ℕ
    → Server
    → r.Source
    → r.Source
    → Talk r
talk_of x sha256 r mine theirs network network1 conn conn1 relay rand rand1 = record {
  sender = session_with x sha256 mine theirs network conn;
  sender_source = rand;
  relay = relay;
  recipient = session_with x sha256 theirs mine network1 conn1;
  recipient_source = rand1;
}

pub talk_of-IsJoined :
    (x : Curve) (sha256 : Bytes → Bytes) (mine theirs key : Bytes) (r : Random)
    (network network1 : List WriteOutcome) (conn conn1 to : ℕ) (relay : Server)
    (rand rand1 : r.Source)
    → length mine ≡ 32
    → length theirs ≡ 32
    → ecdh x (pair_of x mine) (pair_of x theirs).public_key ≡ ok key
    → lookup (sha256 (pair_of x theirs).public_key) relay.peers ≡ some to
    → IsJoined r to key
        (sha256 (pair_of x theirs).public_key)
        (talk_of x sha256 r mine theirs network network1 conn conn1 relay rand rand1)
talk_of-IsJoined x sha256 mine theirs key r network network1 conn conn1 to relay rand rand1 hm ht
      agreed at =
    let (live, sender_key, hash) =
      session_with-state x sha256 mine theirs key network conn agreed in
    let (live1, recipient_key, hash1) =
      session_with-state x sha256 theirs mine key network1 conn1
        (ecdh_comm x theirs mine ht hm ∙ agreed) in
    record {
      live = live;
      sender_key = sender_key;
      same_hash = hash;
      route = at;
      recipient_key = recipient_key;
    }

module _ (x : Curve) (sha256 : Bytes → Bytes) (hashes : (t : Bytes) → length (sha256 t) ≡ 32)
    (mine theirs key : Bytes) (c : Aead) (r : Random) where
  -- Texts of at most 4057 bytes each that one connected session sends to the other, one after the
  -- other until sending fails, over a relay whose table has the recipient: what the recipient shows
  -- in addition are exactly the texts up to the failure, unchanged, each once and in their order; and
  -- if no sending fails these are all the texts, while a failure has a reason outside the texts. The
  -- two private keys have 32 bytes and agree on a session key, hashes have 32 bytes, the relay's
  -- writes are done in full, and nothing else is assumed on the sessions, the relay or the network.
  pub say_all_lem :
      (percent : ℕ → ℕ → ℕ) (from to now : ℕ) (create : CreateOutcome) (disk : DiskOutcome)
      (network network1 : List WriteOutcome) (conn conn1 : ℕ) (relay : Server)
      (rand rand1 : r.Source) (texts : List Bytes)
      → length mine ≡ 32
      → length theirs ≡ 32
      → ecdh x (pair_of x mine) (pair_of x theirs).public_key ≡ ok key
      → lookup (sha256 (pair_of x theirs).public_key) relay.peers ≡ some to
      → All (λ words. length words ≤ max_body) texts
      → let t = talk_of x sha256 r mine theirs network network1 conn conn1 relay rand rand1 in
        let (after, error, unsent) = say_all c r percent from to now create disk t texts in
        (said : List Bytes) × (texts ≡ said ++ unsent)
        × (after.recipient.incoming ≡ t.recipient.incoming ++ map shown said)
        × (((error ≡ none) × (unsent ≡ []))
            ⊎ ((e : SendError) × (error ≡ some e) × (own_fault e ≡ false)))
  say_all_lem percent from to now create disk network network1 conn conn1 relay rand rand1 texts hm
        ht agreed at short =
      say_all-Ends c r percent from to now create disk key (sha256 (pair_of x theirs).public_key)
        (talk_of x sha256 r mine theirs network network1 conn conn1 relay rand rand1) texts
        (hashes (pair_of x theirs).public_key)
        (talk_of-IsJoined x sha256 mine theirs key r network network1 conn conn1 to relay rand rand1
          hm ht agreed at)
        short
