-- ===== src/Conversation.antt =====
-- internal/client over internal/relay: two clients that hold the public keys of each other.
pub mod Messages
pub mod Spoken
pub mod Files
pub mod Lines
pub mod Screens
mod Runs
use road.Base.{
  length-drop, ℕ, ◌≤◌, ◌≡◌, refl, ◌∙◌, sym, ap, List, [], ◌∷◌, ◌++◌, Option, none, some, false, ok,
  err, Bytes, bytes_key, length, drop, make, lookup, ◌⊎◌, inl, inr, arith, length-make,
  copy_at_full,
}
use mathlib.Core.List.{append-nil}
use road.Protocol.{build_message, type_message, encode_handshake}
use road.Protocol.Header.{decode_header-build_message, length-build_message}
use road.Protocol.Handshake.{IsSized, decode_handshake-encode_handshake}
use road.Protocol.{decode_handshake}
use road.Crypto.Cipher.{Aead, Random}
use road.Crypto.Keys.{Curve, pair_of, ecdh, public_key_bytes}
use road.Crypto.Keys.Agreement.{ecdh_comm}
use road.Relay.{Server, WriteOutcome, write_done, handle_conn, do_handshake, relay_round}
use road.Relay.Routing.{relay_round-written, register-lookup}
use road.Client.{Session, SendError, aead_key, send_packet, emit, incoming_text, text, max_body}
use road.Client.Send.{own_fault, Carries, send_packet_cases}
use road.Client.Connect.{new, connect, dialled, all_written, handshake_of}
use road.Client.Connect.Outcomes.{IsReady, connect-IsReady}
use road.Client.Incoming.{recv_packet, dispatch, CreateOutcome, DiskOutcome}
use road.Client.Incoming

abbrev pub first : List Bytes → Option Bytes
first [] = none
first (b ∷ bs) = some b

-- The bytes that a session sends first.
abbrev pub first_sent : Session → Option Bytes
first_sent s = first s.sent

-- A packet with a message puts the message's text before the terminal.
pub recv_packet-message :
    (c : Aead) (r : Random) (percent : ℕ → ℕ → ℕ) (s : Session) (rand : r.Source)
    (create : CreateOutcome) (disk : DiskOutcome) (key hash frame words : Bytes)
    → aead_key s ≡ some key
    → Carries c key hash frame (build_message type_message words)
    → recv_packet c r percent s rand (drop 32 frame) create disk
      ≡ (emit s (incoming_text (text words)), rand)
unfolding recv_packet dispatch
recv_packet-message c r percent s rand create disk key hash frame words ready x =
    rw (recv_packet, ready, x.opened, decode_header-build_message type_message words (omega arith))
      refl

module _ (x : Curve) (sha256 : Bytes → Bytes) where
  -- The session of the owner of the one private key with the owner of the other.
  unfoldable pub session_with : Bytes → Bytes → List WriteOutcome → ℕ → Session
  session_with mine theirs network conn =
      (connect x (new sha256 (pair_of x theirs).public_key network) (pair_of x mine) (dialled conn)
        all_written).session

  new_peer :
      (key : Bytes) (network : List WriteOutcome)
      → ((new sha256 key network).peer_pub_key ≡ key)
        × ((new sha256 key network).peer_key_hash ≡ sha256 key)
  unfolding new
  new_peer key network =
      let e = copy_at_full (make (length key)) key (sym (length-make (length key))) in
      (e, ap sha256 e)

  module _ (mine theirs key : Bytes) (network : List WriteOutcome) (conn : ℕ)
      (agreed : ecdh x (pair_of x mine) (pair_of x theirs).public_key ≡ ok key) where
    session_with-IsReady :
        IsReady (new sha256 (pair_of x theirs).public_key network) (pair_of x mine) key conn (
          connect x
            (new sha256 (pair_of x theirs).public_key network)
            (pair_of x mine)
            (dialled conn)
            all_written)
    unfolding new
    session_with-IsReady =
        let e = (new_peer (pair_of x theirs).public_key network).0 in
        connect-IsReady x (new sha256 (pair_of x theirs).public_key network) (pair_of x mine) key
          conn refl refl (rw e agreed)

    -- The same of the session alone: it is open, holds the key, and writes to the peer's hash.
    pub session_with-state :
        ((session_with mine theirs network conn).done ≡ false)
        × (aead_key (session_with mine theirs network conn) ≡ some key)
        × ((session_with mine theirs network conn).peer_key_hash
            ≡ sha256 (pair_of x theirs).public_key)
    unfolding session_with
    session_with-state =
        let ready = session_with-IsReady in
        (
          ready.live,
          ready.key_stored,
          ready.hash ∙ (new_peer (pair_of x theirs).public_key network).1,
        )

    pub session_with-network : (session_with mine theirs network conn).network ≡ network
    unfolding session_with new
    session_with-network = session_with-IsReady.network

  -- The relay's table after the handshake that the session sends first.
  module _ (hashes : (t : Bytes) → length (sha256 t) ≡ 32) (mine theirs key : Bytes)
      (network : List WriteOutcome) (conn : ℕ)
      (agreed : ecdh x (pair_of x mine) (pair_of x theirs).public_key ≡ ok key) where
    own_key : public_key_bytes (pair_of x mine) ≡ (pair_of x mine).public_key
    unfolding public_key_bytes pair_of
    own_key =
        copy_at_full (make 32) (x.public_key mine) (x.length-public_key mine ∙ sym (length-make 32))

    first_sent-session_with :
        first_sent (session_with mine theirs network conn)
        ≡ some (
            encode_handshake (handshake_of (pair_of x mine) (sha256 (pair_of x theirs).public_key)))
    unfolding new session_with
    first_sent-session_with =
        ap first (session_with-IsReady mine theirs key network conn agreed).handshake
        ∙ ap (λ h. some (encode_handshake (handshake_of (pair_of x mine) h)))
            (new_peer (pair_of x theirs).public_key network).1

    greeting_key :
        (handshake_of (pair_of x mine) (sha256 (pair_of x theirs).public_key)).sender_pub_key
        ≡ (pair_of x mine).public_key
    unfolding handshake_of pair_of
    greeting_key = rw own_key (
        copy_at_full (make 32) (x.public_key mine)
          (x.length-public_key mine ∙ sym (length-make 32)))

    greeting-IsSized :
        IsSized (handshake_of (pair_of x mine) (sha256 (pair_of x theirs).public_key))
    unfolding handshake_of pair_of
    greeting-IsSized = record {
      key_32 = ap length greeting_key ∙ x.length-public_key mine;
      hash_32 = hashes (pair_of x theirs).public_key;
    }

    do_handshake-session_with :
        (now : ℕ)
        → do_handshake sha256 (first_sent (session_with mine theirs network conn)) now
          ≡ ok (record {
            key_hash = sha256 (pair_of x mine).public_key;
            last_alive = now;
            evicted = false;
          })
    unfolding do_handshake handshake_of
    do_handshake-session_with now =
        let hs = handshake_of (pair_of x mine) (sha256 (pair_of x theirs).public_key) in
        let d : decode_handshake (encode_handshake hs) ≡ ok hs =
          ap decode_handshake (sym (append-nil (encode_handshake hs)))
          ∙ (decode_handshake-encode_handshake hs [] greeting-IsSized).1 in
        rw (first_sent-session_with, do_handshake, d, greeting_key) refl

    -- The relay enters a connected session under the hash of its owner's public key.
    pub handle_conn-session_with :
        (s : Server) (c now : ℕ)
        → lookup
            (sha256 (pair_of x mine).public_key)
            (handle_conn sha256 s c (first_sent (session_with mine theirs network conn)) now).peers
          ≡ some c
    unfolding handle_conn
    handle_conn-session_with s c now =
        rw (handle_conn, do_handshake-session_with now) (register-lookup _ c _)

    -- Two sessions that were connected with each other's public keys: once the relay has read what the
    -- one sends first, in any state and on any connection, its table leads from the hash that the
    -- other one puts before its frames to that connection. The two private keys have 32 bytes and
    -- agree on a session key, and hashes have 32 bytes.
    pub handle_conn-peer_key_hash :
        (s : Server) (c now : ℕ) (network1 : List WriteOutcome) (conn1 : ℕ)
        → length mine ≡ 32
        → length theirs ≡ 32
        → let other = session_with theirs mine network1 conn1 in
          let greeted =
            handle_conn sha256 s c (first_sent (session_with mine theirs network conn)) now in
          lookup other.peer_key_hash greeted.peers ≡ some c
    handle_conn-peer_key_hash s c now network1 conn1 hm ht =
        let (live, key1, hash) =
          session_with-state theirs mine key network1 conn1
            (ecdh_comm x theirs mine ht hm ∙ agreed) in
        let greeted =
          handle_conn sha256 s c (first_sent (session_with mine theirs network conn)) now in
        ap (λ h. lookup h greeted.peers) hash ∙ handle_conn-session_with s c now

    -- A text of at most 4057 bytes from one connected session to the other, over a relay whose table
    -- has the recipient: sending fails for a reason outside the text, or it writes one more frame;
    -- that frame makes the relay write its packet to the recipient's connection, if the relay's
    -- write is done in full; and on reading this packet the recipient shows exactly the text. The two
    -- private keys have 32 bytes and agree on a session key, hashes have 32 bytes, and nothing is
    -- assumed on the sessions but that each was connected with the other's public key.
    pub message_lem :
        (c : Aead) (r : Random) (percent : ℕ → ℕ → ℕ) (rand rand1 : r.Source)
        (network1 : List WriteOutcome) (conn1 : ℕ) (relay : Server) (from to now : ℕ)
        (create : CreateOutcome) (disk : DiskOutcome) (words : Bytes)
        → length mine ≡ 32
        → length theirs ≡ 32
        → length words ≤ max_body
        → lookup (sha256 (pair_of x theirs).public_key) relay.peers ≡ some to
        → let sender = session_with mine theirs network conn in
          let recipient = session_with theirs mine network1 conn1 in
          let out = send_packet c r sender rand (build_message type_message words) in
          ((e : SendError) × (out.0 ≡ err e) × (own_fault e ≡ false))
          ⊎ ((out.0 ≡ ok tt)
              × ((frame : Bytes) × (out.1.sent ≡ sender.sent ++ (frame ∷ []))
                  × ((relay_round relay from frame now write_done).server.written
                      ≡ relay.written ++ ((to, drop 32 frame) ∷ []))
                  × (recv_packet c r percent recipient rand1 (drop 32 frame) create disk
                      ≡ (emit recipient (incoming_text (text words)), rand1))))
    message_lem c r percent rand rand1 network1 conn1 relay from to now create disk words hm ht
          short at =
        let (live, sender_key, hash) = session_with-state mine theirs key network conn agreed in
        let (live1, recipient_key, hash1) =
          session_with-state theirs mine key network1 conn1
            (ecdh_comm x theirs mine ht hm ∙ agreed) in
        let size = ap length hash ∙ hashes (pair_of x theirs).public_key in
        elim (send_packet_cases c r (session_with mine theirs network conn) key live sender_key rand
          (build_message type_message words) size
          (omega (arith, length-build_message type_message words, short))) [
            | inl failed ↦ inl failed
            | inr (e, (frame, sent, carries)) ↦ inr (
              e,
              (
                frame,
                sent,
                relay_round-written relay from to frame now
                    (omega (arith, carries.size, length-drop 32 frame))
                    (rw (carries.recipient, hash) at),
                recv_packet-message c r percent (session_with theirs mine network1 conn1) rand1
                    create disk key _ frame words recipient_key carries,
              ),
            )
          ]
