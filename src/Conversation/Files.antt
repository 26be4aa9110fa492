-- ===== src/Conversation/Files.antt =====
-- internal/client over internal/relay: a file from one client's disk to the other's. The relay reads the
-- frames in the order in which they were written, and the recipient the packets that the relay writes
-- to its connection.
use road.Base.{
  ℕ, ◌+◌, ◌<◌, ◌≤◌, ◌^◌, ◌≡◌, refl, sym, ap, ◌∙◌, List, [], ◌∷◌, ◌++◌, none, some, true, Bytes,
  IsBytes, bytes_key, nat_key, lookup, length, drop, ==_refl, ◌⊎◌, inl, inr, arith, All,
  drop_append, length-drop, ok,
}
use mathlib.Core.List.{flatten, append-nil, append_assoc}
use road.Protocol.{chunk_size}
use road.Crypto.Cipher.{Aead, Random}
use road.Crypto.Keys.{Curve, pair_of, ecdh}
use road.Crypto.Keys.Agreement.{ecdh_comm}
use road.Relay.{Server, WriteOutcome, write_done, relay_round, outer_frame_size}
use road.Relay.Routing.{relay_round-written}
use road.Relay.Written.{packets_to}
use road.Client.{Session}
use road.Client.Send.{Addressed}
use road.Client.Incoming.{recv_packet, created, all_written}
use road.Client.Incoming.Delivery.{packets_of, recv_packets}
use road.Client.Outgoing.{ReadEnd, opened, send_file, base}
use road.Client.Outgoing.SendFile.{IsTold}
use road.Client.Outgoing.WholeFile.{received_file, received_file-send_file}
use road.Conversation.{session_with, session_with-state}
use road.Conversation.Messages.{relay_round-peers}

-- The relay loop of connection `from` over frames, with every write done in full.
unfoldable pub relay_frames : Server → ℕ → ℕ → List Bytes → Server
relay_frames s from now [] = s
relay_frames s from now (frame ∷ frames) =
    relay_frames (relay_round s from frame now write_done).server from now frames

-- The receive loop over packets, of which the first creates a file at `path`; each write to the disk
-- is done in full.
unfoldable pub read_file :
    (c : Aead) (r : Random) → (ℕ → ℕ → ℕ) → Session → r.Source → Bytes → List Bytes → Session
unfolding recv_packets
read_file c r percent t rand path [] = t
read_file c r percent t rand path (packet ∷ packets) =
    let (t1, rand1) = recv_packet c r percent t rand packet (created path) all_written in
    (recv_packets c r percent t1 rand1 packets).0

-- The frames' packets, each with the connection that it is written to.
for_conn : ℕ → List Bytes → List (ℕ × Bytes)
for_conn to [] = []
for_conn to (frame ∷ frames) = (to, drop 32 frame) ∷ for_conn to frames

packets_to-for_conn :
    (to : ℕ) (frames : List Bytes) → packets_to to (for_conn to frames) ≡ packets_of frames
unfolding packets_to for_conn packets_of
packets_to-for_conn to [] = refl
packets_to-for_conn to (frame ∷ frames) =
    rw (==_refl to) (ap (◌∷◌ (drop 32 frame)) (packets_to-for_conn to frames))

relay_frames-written :
    (s : Server) (from to now : ℕ) (hash : Bytes) (frames : List Bytes)
    → lookup hash s.peers ≡ some to
    → All (Addressed hash) frames
    → (relay_frames s from now frames).written ≡ s.written ++ for_conn to frames
unfolding relay_frames for_conn
relay_frames-written s from to now hash [] at all = sym (append-nil s.written)
relay_frames-written s from to now hash (frame ∷ frames) at ((recipient, packet), all) =
    let size : length frame ≡ outer_frame_size = omega (arith, packet, length-drop 32 frame) in
    let route = ap (λ h. lookup h s.peers) recipient ∙ at in
    relay_frames-written (relay_round s from frame now write_done).server from to now hash frames
      (ap (λ m. lookup hash m) (relay_round-peers s from to frame now size route) ∙ at) all
    ∙ ap (λ w. w ++ for_conn to frames) (relay_round-written s from to frame now size route)
    ∙ append_assoc s.written ((to, drop 32 frame) ∷ []) (for_conn to frames)

-- What comes out of the relay for the recipient.
abbrev pub through : Server → Server → ℕ → List Bytes
through before after to = packets_to to (drop (length before.written) after.written)

through-relay_frames :
    (s : Server) (from to now : ℕ) (hash : Bytes) (frames : List Bytes)
    → lookup hash s.peers ≡ some to
    → All (Addressed hash) frames
    → through s (relay_frames s from now frames) to ≡ packets_of frames
through-relay_frames s from to now hash frames at all =
    ap (λ w. packets_to to (drop (length s.written) w))
      (relay_frames-written s from to now hash frames at all)
    ∙ ap (packets_to to) (drop_append s.written (for_conn to frames) (length s.written) refl)
    ∙ packets_to-for_conn to frames

module _ (x : Curve) (sha256 : Bytes → Bytes) (hashes : (t : Bytes) → length (sha256 t) ≡ 32)
    (mine theirs key : Bytes) (c : Aead) (r : Random) where
  -- A file of at least a byte and at most 2^63 - 128 KB, whose name has at most 255 bytes, and that is
  -- read to its end in pieces, sent by one connected session to the other over a relay whose table
  -- has the recipient: `sendFile` ends with a notice whose reason is outside the file, or the
  -- recipient, on reading the packets that the relay writes to its connection, ends with a closed
  -- file that holds exactly the pieces, and forgets the transfer. The two private keys have 32 bytes
  -- and agree on a session key, hashes have 32 bytes, the random source gives bytes, the relay's
  -- writes and the recipient's writes to its disk are done in full, and nothing else is assumed on
  -- the sessions, the relay or the sender's network.
  pub file_lem :
      (percent : ℕ → ℕ → ℕ) (from to now : ℕ) (network network1 : List WriteOutcome)
      (conn conn1 : ℕ) (relay : Server) (rand rand1 : r.Source) (path out_path : Bytes) (size : ℕ)
      (pieces : List Bytes) (end : ReadEnd) (clock : ℕ)
      → ((bs : Bytes) → (r.read_full rand 4).0 ≡ some bs → IsBytes bs)
      → length mine ≡ 32
      → length theirs ≡ 32
      → ecdh x (pair_of x mine) (pair_of x theirs).public_key ≡ ok key
      → lookup (sha256 (pair_of x theirs).public_key) relay.peers ≡ some to
      → length (base path) ≤ 255
      → size ≡ length (flatten pieces)
      → 0 < size
      → size + chunk_size ≤ 2 ^ 63
      → let sender = session_with x sha256 mine theirs network conn in
        let recipient = session_with x sha256 theirs mine network1 conn1 in
        let out = send_file c r percent sender rand path (opened size pieces end) clock in
        let frames = drop (length sender.sent) out.0.sent in
        let packets = through relay (relay_frames relay from now frames) to in
        let t1 = read_file c r percent recipient rand1 out_path packets in
        IsTold end out.0
        ⊎ ((id : ℕ) × (lookup id t1.transfers ≡ none)
            × ((t1.files recipient.next_file).contents ≡ flatten pieces)
            × ((t1.files recipient.next_file).closed ≡ true))
  unfolding read_file packets_of received_file
  file_lem percent from to now network network1 conn conn1 relay rand rand1 path out_path size
        pieces end clock bytes hm ht agreed at short whole pos small =
      let (live, sender_key, hash) =
        session_with-state x sha256 mine theirs key network conn agreed in
      let (live1, recipient_key, hash1) =
        session_with-state x sha256 theirs mine key network1 conn1
          (ecdh_comm x theirs mine ht hm ∙ agreed) in
      let sender = session_with x sha256 mine theirs network conn in
      let recipient = session_with x sha256 theirs mine network1 conn1 in
      elim (received_file-send_file c r percent key sender recipient rand rand1 path out_path size
        pieces end clock bytes live sender_key
        (ap length hash ∙ hashes (pair_of x theirs).public_key) recipient_key short whole pos
        small) [
          | inl told ↦ inl told
          | inr (id, header, frames, sent, addressed, (gone, whole_file, closed)) ↦
              let grown : drop (length sender.sent)
                    (send_file c r percent sender rand path (opened size pieces end) clock).0.sent
                  ≡ header ∷ frames =
                ap (drop (length sender.sent)) sent
                ∙ drop_append sender.sent (header ∷ frames) (length sender.sent) refl in
              rw
                (
                  grown,
                  through-relay_frames relay from to now sender.peer_key_hash (header ∷ frames)
                      (ap (λ h. lookup h relay.peers) hash ∙ at) addressed,
                )
                (inr (id, gone, whole_file, closed))
        ]
