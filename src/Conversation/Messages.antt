-- ===== src/Conversation/Messages.antt =====
-- internal/client over internal/relay: many messages from one client to the other. The sender's frames
-- go to the relay in the order in which they were written, and the recipient reads the packets that
-- the relay writes to its connection in theirs.
use road.Base.{
  ℕ, ◌≤◌, ◌≡◌, refl, sym, ap, ◌∙◌, List, [], ◌∷◌, ◌++◌, map, Option, none, some, false, ok, err,
  Bytes, bytes_key, length, drop, take, lookup, if◌then◌else◌, ◌==◌, ==_refl, ◌⊎◌, inl, inr, arith,
  All, drop_append, length-drop,
}
use mathlib.Core.List.{append-nil, append_assoc}
use road.Protocol.{build_message, type_message}
use road.Protocol.Header.{length-build_message}
use road.Crypto.Cipher.{Aead, Random}
use road.Relay.{Server, write_done, relay_round, touch, recipient_hash_size, outer_frame_size}
use road.Relay.Routing.{relay_round-written, round_some, touch-same, forward-same}
use road.Client.{
  Session, Event, SendError, aead_key, send_packet, emit, incoming_text, text, max_body,
}
use road.Client.Send.{aead_key-emit, own_fault, Carries, send_packet_cases, send_packet-Same}
use road.Client.Incoming.{recv_packet, CreateOutcome, DiskOutcome}
use road.Conversation.{recv_packet-message}

-- A sender on the relay's connection `from`, and a recipient on `to`.
pub record Talk (r : Random) : Type 0 where
  pub sender : Session
  pub sender_source : r.Source
  pub relay : Server
  pub recipient : Session
  pub recipient_source : r.Source

module _ (c : Aead) (r : Random) where
  module _ (percent : ℕ → ℕ → ℕ) (from to now : ℕ) (create : CreateOutcome)
      (disk : DiskOutcome) where
    -- The recipient reads what was written to its connection, and nothing else.
    unfoldable pub read_all : Talk r → List (ℕ × Bytes) → Talk r
    read_all t [] = t
    read_all t ((q, packet) ∷ packets) =
        let (s, rand) = recv_packet c r percent t.recipient t.recipient_source packet create disk in
        let read = record t { recipient = s; recipient_source = rand } in
        read_all (if q == to then read else t) packets

    -- The relay reads the frames, and the recipient what the relay writes for each.
    unfoldable pub pass_frames : Talk r → List Bytes → Talk r
    unfolding read_all
    pass_frames t [] = t
    pass_frames t (frame ∷ frames) =
        let relay = (relay_round t.relay from frame now write_done).server in
        pass_frames
          (read_all (record t { relay = relay }) (drop (length t.relay.written) relay.written))
          frames

    -- The texts are sent one after the other, until one fails; its error and the texts that are left
    -- come back.
    unfoldable pub say_all : Talk r → List Bytes → Talk r × Option SendError × List Bytes
    unfolding pass_frames
    say_all t [] = (t, none, [])
    say_all t (words ∷ rest) =
        let (result, s, rand) =
          send_packet c r t.sender t.sender_source (build_message type_message words) in
        elim result [
          | err e ↦ (record t { sender = s; sender_source = rand }, some e, words ∷ rest)
          | ok u ↦
              say_all
                (pass_frames (record t { sender = s; sender_source = rand })
                  (drop (length t.sender.sent) s.sent))
                rest
        ]

abbrev pub shown : Bytes → Event
shown words = incoming_text (text words)

-- Both are ready for the same key, and the relay has the recipient.
pub record IsJoined (r : Random) (to : ℕ) (key hash : Bytes) (t : Talk r) : Type 0 where
  pub live : t.sender.done ≡ false
  pub sender_key : aead_key t.sender ≡ some key
  pub same_hash : t.sender.peer_key_hash ≡ hash
  pub route : lookup hash t.relay.peers ≡ some to
  pub recipient_key : aead_key t.recipient ≡ some key

pub relay_round-peers :
    (s : Server) (from to : ℕ) (frame : Bytes) (now : ℕ)
    → length frame ≡ outer_frame_size
    → lookup (take recipient_hash_size frame) s.peers ≡ some to
    → (relay_round s from frame now write_done).server.peers ≡ s.peers
relay_round-peers s from to frame now size e =
    rw (round_some s from frame now write_done size to e) (
      (forward-same (touch s from now) to (drop recipient_hash_size frame) write_done).0
      ∙ (touch-same s from now).0)

module _ (c : Aead) (r : Random) (percent : ℕ → ℕ → ℕ) (from to now : ℕ) (create : CreateOutcome)
    (disk : DiskOutcome) (key hash : Bytes) where
  -- One frame goes through, and its message is shown.
  pub pass_frames-one :
      (t : Talk r) (frame words : Bytes)
      → length frame ≡ outer_frame_size
      → lookup (take recipient_hash_size frame) t.relay.peers ≡ some to
      → aead_key t.recipient ≡ some key
      → Carries c key hash frame (build_message type_message words)
      → pass_frames c r percent from to now create disk t (frame ∷ []) ≡ record t {
        relay = (relay_round t.relay from frame now write_done).server;
        recipient = emit t.recipient (shown words);
      }
  unfolding pass_frames read_all
  pass_frames-one t frame words size at ready x =
      let written : drop (length t.relay.written)
            (relay_round t.relay from frame now write_done).server.written
          ≡ (to, drop 32 frame) ∷ [] =
        ap (drop (length t.relay.written)) (relay_round-written t.relay from to frame now size at)
        ∙ drop_append t.relay.written ((to, drop 32 frame) ∷ []) (length t.relay.written) refl in
      rw
        (
          written,
          ==_refl to,
          recv_packet-message c r percent t.recipient t.recipient_source create disk key hash frame
              words ready x,
        )
        refl

  -- The talk after a message went through in `frame`.
  abbrev pub next_talk : Talk r → Bytes → Bytes → Talk r
  next_talk t words frame =
      let (result, s, rand) =
        send_packet c r t.sender t.sender_source (build_message type_message words) in
      record {
        sender = s;
        sender_source = rand;
        relay = (relay_round t.relay from frame now write_done).server;
        recipient = emit t.recipient (shown words);
        recipient_source = t.recipient_source;
      }

  module _ (t : Talk r) (words frame : Bytes) (size : length hash ≡ 32)
      (j : IsJoined r to key hash t)
      (sent : (send_packet c r t.sender t.sender_source (build_message type_message words)).1.sent
        ≡ t.sender.sent ++ (frame ∷ []))
      (x : Carries c key hash frame (build_message type_message words)) where
    pub frame_size : length frame ≡ outer_frame_size
    frame_size = omega (arith, x.size, length-drop 32 frame)

    pub next_talk-IsJoined : IsJoined r to key hash (next_talk t words frame)
    next_talk-IsJoined =
        let same =
          send_packet-Same c r t.sender key j.live j.sender_key t.sender_source
            (build_message type_message words) in
        record {
          live = same.done ∙ j.live;
          sender_key = same.key ∙ j.sender_key;
          same_hash = same.hash ∙ j.same_hash;
          route =
              ap (λ m. lookup hash m)
                (relay_round-peers t.relay from to frame now frame_size
                  (ap (λ h. lookup h t.relay.peers) x.recipient ∙ j.route))
              ∙ j.route;
          recipient_key = aead_key-emit t.recipient (shown words) ∙ j.recipient_key;
        }

    say_all-ok :
        (rest : List Bytes)
        → (send_packet c r t.sender t.sender_source (build_message type_message words)).0 ≡ ok tt
        → say_all c r percent from to now create disk t (words ∷ rest)
          ≡ say_all c r percent from to now create disk (next_talk t words frame) rest
    unfolding say_all
    say_all-ok rest f =
        let (result, s, rand) =
          send_packet c r t.sender t.sender_source (build_message type_message words) in
        let grown : drop (length t.sender.sent) s.sent ≡ frame ∷ [] =
          ap (drop (length t.sender.sent)) sent
          ∙ drop_append t.sender.sent (frame ∷ []) (length t.sender.sent) refl in
        rw (say_all, f, grown)
          (ap (λ u. say_all c r percent from to now create disk u rest)
            (pass_frames-one (record t { sender = s; sender_source = rand }) frame words frame_size
              (ap (λ h. lookup h t.relay.peers) x.recipient ∙ j.route) j.recipient_key x))

  -- What is left of a talk: a part of the texts was said and shown, and the rest failed.
  abbrev pub Ends : Talk r → List Bytes → Talk r × Option SendError × List Bytes → Type 0
  Ends t texts out =
      (said : List Bytes) × (texts ≡ said ++ out.2)
      × (out.0.recipient.incoming ≡ t.recipient.incoming ++ map shown said)
      × (((out.1 ≡ none) × (out.2 ≡ []))
          ⊎ ((e : SendError) × (out.1 ≡ some e) × (own_fault e ≡ false)))

  pub say_all-Ends :
      (t : Talk r) (texts : List Bytes)
      → length hash ≡ 32
      → IsJoined r to key hash t
      → All (λ words. length words ≤ max_body) texts
      → Ends t texts (say_all c r percent from to now create disk t texts)
  unfolding say_all
  say_all-Ends t [] size j h = ([], refl, sym (append-nil t.recipient.incoming), inl (refl, refl))
  say_all-Ends t (words ∷ rest) size j (short, h) =
      let payload = build_message type_message words in
      elim (send_packet_cases c r t.sender key j.live j.sender_key t.sender_source payload
        (ap length j.same_hash ∙ size)
        (omega (arith, length-build_message type_message words, short))) [
          | inl (e, f, g) ↦
              rw (f, say_all) ([], refl, sym (append-nil t.recipient.incoming), inr (e, refl, g))
          | inr (f, (frame, sent, y)) ↦
              let x : Carries c key hash frame payload = record {
                recipient = y.recipient ∙ j.same_hash;
                size = y.size;
                opened = y.opened;
              } in
              let (said, split, seen, end) =
                say_all-Ends (next_talk t words frame) rest size
                  (next_talk-IsJoined t words frame size j sent x) h in
              rw (say_all-ok t words frame size j sent x rest f) (
                words ∷ said,
                ap (◌∷◌ words) split,
                seen ∙ append_assoc t.recipient.incoming (shown words ∷ []) (map shown said),
                end,
              )
        ]
