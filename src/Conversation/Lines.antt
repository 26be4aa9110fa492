-- ===== src/Conversation/Lines.antt =====
-- internal/client over internal/relay: the lines that the send loop of one client takes, on their way to
-- the other client. The loop reports a line that cannot be sent, and goes on with the next one.
use road.Base.{
  ℕ, ◌≤◌, ◌≡◌, refl, sym, ap, ◌∙◌, List, [], ◌∷◌, ◌++◌, map, none, some, Bool, true, false, ok, err,
  Bytes, codes, bytes_key, bytes_eq, length, drop, lookup, inl, inr, arith, All, drop_append,
  Result-cases, has_prefix, Result,
}
use mathlib.Core.List.{append-nil, append_assoc}
use road.Protocol.{build_message, type_message}
use road.Protocol.Header.{length-build_message}
use road.Crypto.Cipher.{Aead, Random, seal}
use road.Relay.{WriteOutcome, deadline_failed, write_failed, write_done}
use road.Client.{
  Session, Event, SendError, aead_key, send_packet, emit, incoming_text, send_error, max_body,
  write_frame, frame_of,
}
use road.Client.Send.{aead_key-emit, own_fault, Carries, send_packet_cases, send_packet-Same}
use road.Client.Incoming.{CreateOutcome, DiskOutcome}
use road.Client.Outgoing.{send_line, send_text}
use road.Client.Outgoing.Lines.{send_packet-OnlySends}
use road.Conversation.Messages.{
  Talk, IsJoined, pass_frames, pass_frames-one, next_talk, next_talk-IsJoined, frame_size, shown,
}

-- A write that is done in full, or fails before anything is written.
abbrev pub is_whole : WriteOutcome → Bool
is_whole deadline_failed = true
is_whole (write_failed n) = false
is_whole write_done = true

abbrev pub AllWhole : List WriteOutcome → Type 0
AllWhole = All (λ o. is_whole o ≡ true)

-- A line that the loop takes for a message.
abbrev pub IsMessage : Bytes → Type 0
IsMessage line =
    (bytes_eq line (codes "/exit") ≡ false)
    × (has_prefix (codes "/file ") line ≡ false)
    × (length line ≤ max_body)

-- What becomes of texts: each one arrives, or its error is reported, in their order.
pub data Told : List Bytes → List Bytes → List SendError → Type 0 where
  all_told : Told [] [] []
  arrives :
      {texts said : List Bytes} {errors : List SendError} (text : Bytes)
      → Told texts said errors
      → Told (text ∷ texts) (text ∷ said) errors
  is_reported :
      {texts said : List Bytes} {errors : List SendError} (text : Bytes) (e : SendError)
      → own_fault e ≡ false
      → Told texts said errors
      → Told (text ∷ texts) said (e ∷ errors)

abbrev pub reported : SendError → Event
reported e = incoming_text (send_error e)

-- What a write leaves of the network, and of what was sent when it fails.
abbrev Leaves : Session → Result SendError (Unit {0}) × Session → Type 0
Leaves s (result, s1) = AllWhole s1.network × ((e : SendError) → result ≡ err e → s1.sent ≡ s.sent)

write_frame-Leaves :
    (s : Session) (frame : Bytes) (os : List WriteOutcome)
    → AllWhole s.network
    → AllWhole os
    → Leaves s (write_frame s frame os)
unfolding write_frame
write_frame-Leaves s frame [] h w = (h, λ e f. refl)
write_frame-Leaves s frame (deadline_failed ∷ os) h w = (w.1, λ e f. refl)
write_frame-Leaves s frame (write_failed n ∷ os) h w = absurd (cc (w.0))
write_frame-Leaves s frame (write_done ∷ os) h w = (w.1, λ e f. cc)

module _ (c : Aead) (r : Random) where
  send_packet-Leaves :
      (s : Session) (rand : r.Source) (key payload : Bytes)
      → s.done ≡ false
      → aead_key s ≡ some key
      → AllWhole s.network
      → let (result, s1, rand1) = send_packet c r s rand payload in Leaves s (result, s1)
  unfolding send_packet
  send_packet-Leaves s rand key payload live ready h =
      elim (Result-cases (seal c r key payload rand).0) [
        | inr (x, g) ↦ simp (live, ready, g) (h, λ e f. refl)
        | inl (enc, g) ↦
            simp (live, ready, g)
              (write_frame-Leaves s (frame_of s.peer_key_hash enc) s.network h h)
      ]

  send_line-text :
      (percent : ℕ → ℕ → ℕ) (trim : Bytes → Bytes) (s : Session) (rand : r.Source) (line : Bytes)
      → IsMessage line
      → send_line c r percent trim s rand line ≡ (none, send_text c r percent s rand line)
  unfolding send_line has_prefix
  send_line-text percent trim s rand line (no_exit, no_file, short) = rw (no_exit, no_file) refl

  module _ (percent : ℕ → ℕ → ℕ) (trim : Bytes → Bytes) (from to now : ℕ) (create : CreateOutcome)
      (disk : DiskOutcome) where
    -- A line is taken by the sender's loop, the relay reads the frames that this writes, and the
    -- recipient what the relay writes for each.
    unfoldable pub take_line : Talk r → Bytes → Talk r
    take_line t line =
        let (path, (s, rand)) = send_line c r percent trim t.sender t.sender_source line in
        pass_frames c r percent from to now create disk
          (record t { sender = s; sender_source = rand }) (drop (length t.sender.sent) s.sent)

    unfoldable pub take_lines : Talk r → List Bytes → Talk r
    unfolding take_line
    take_lines t [] = t
    take_lines t (line ∷ lines) = take_lines (take_line t line) lines

    module _ (key hash : Bytes) (size : length hash ≡ 32) where
      -- Both are ready, and the network writes whole frames only.
      pub record IsLive (t : Talk r) : Type 0 where
        pub joined : IsJoined r to key hash t
        pub network : AllWhole t.sender.network

      -- The talk after a line that could not be sent.
      abbrev failed_talk : Talk r → Bytes → SendError → Talk r
      failed_talk t line e =
          let (result, s, rand) =
            send_packet c r t.sender t.sender_source (build_message type_message line) in
          record t { sender = emit s (reported e); sender_source = rand }

      take_line-failed :
          (t : Talk r) (line : Bytes) (e : SendError)
          → IsMessage line
          → IsLive t
          → (send_packet c r t.sender t.sender_source (build_message type_message line)).0 ≡ err e
          → take_line t line ≡ failed_talk t line e
      unfolding take_line send_text pass_frames
      take_line-failed t line e msg live f =
          let s = t.sender in
          let out = send_packet c r s t.sender_source (build_message type_message line) in
          let left =
            send_packet-Leaves s t.sender_source key (build_message type_message line)
              live.joined.live live.joined.sender_key live.network in
          let none_sent : drop (length s.sent) out.1.sent ≡ [] =
            ap (drop (length s.sent)) (left.1 e f ∙ sym (append-nil s.sent))
            ∙ drop_append s.sent [] (length s.sent) refl in
          rw
            (
              take_line,
              send_line-text percent trim s t.sender_source line msg,
              send_text,
              f,
              none_sent,
            )
            refl

      failed_talk-IsLive :
          (t : Talk r) (line : Bytes) (e : SendError) → IsLive t → IsLive (failed_talk t line e)
      failed_talk-IsLive t line e live =
          let j = live.joined in
          let payload = build_message type_message line in
          let out = send_packet c r t.sender t.sender_source payload in
          let same =
            send_packet-Same c r t.sender key j.live j.sender_key t.sender_source payload in
          let left =
            send_packet-Leaves t.sender t.sender_source key payload j.live j.sender_key
              live.network in
          record {
            joined = record {
              live = same.done ∙ j.live;
              sender_key = aead_key-emit out.1 (reported e) ∙ same.key ∙ j.sender_key;
              same_hash = same.hash ∙ j.same_hash;
              route = j.route;
              recipient_key = j.recipient_key;
            };
            network = left.0;
          }

      module _ (t : Talk r) (line frame : Bytes) (live : IsLive t)
          (sent : (send_packet c r t.sender t.sender_source
              (build_message type_message line)).1.sent
            ≡ t.sender.sent ++ (frame ∷ []))
          (x : Carries c key hash frame (build_message type_message line)) where
        abbrev after : Talk r
        after = next_talk c r percent from to now create disk key hash t line frame

        after-IsLive : IsLive after
        after-IsLive = record {
          joined =
              next_talk-IsJoined c r percent from to now create disk key hash t line frame size
                live.joined sent x;
          network =
              (send_packet-Leaves t.sender t.sender_source key (build_message type_message line)
                live.joined.live live.joined.sender_key live.network).0;
        }

        after-incoming : after.sender.incoming ≡ t.sender.incoming
        after-incoming =
            ap (λ (s : Session). s.incoming)
              (send_packet-OnlySends c r t.sender t.sender_source
                (build_message type_message line)).same

        take_line-sent :
            IsMessage line
            → (send_packet c r t.sender t.sender_source (build_message type_message line)).0 ≡ ok tt
            → take_line t line ≡ after
        unfolding take_line send_text
        take_line-sent msg f =
            let (result, s, rand) =
              send_packet c r t.sender t.sender_source (build_message type_message line) in
            let j = live.joined in
            let grown : drop (length t.sender.sent) s.sent ≡ frame ∷ [] =
              ap (drop (length t.sender.sent)) sent
              ∙ drop_append t.sender.sent (frame ∷ []) (length t.sender.sent) refl in
            rw
              (
                take_line,
                send_line-text percent trim t.sender t.sender_source line msg,
                send_text,
                f,
                grown,
              )
              (pass_frames-one c r percent from to now create disk key hash
                (record t { sender = s; sender_source = rand }) frame line
                (frame_size c r percent from to now create disk key hash t line frame size j sent x)
                (ap (λ h. lookup h t.relay.peers) x.recipient ∙ j.route) j.recipient_key x)

      -- Each line arrives or is reported, in their order, and nothing else comes of them.
      pub take_lines-Told :
          (t : Talk r) (lines : List Bytes)
          → IsLive t
          → All IsMessage lines
          → let end = take_lines t lines in
            (said : List Bytes) × (errors : List SendError) × Told lines said errors
            × (end.recipient.incoming ≡ t.recipient.incoming ++ map shown said)
            × (end.sender.incoming ≡ t.sender.incoming ++ map reported errors)
      unfolding take_lines
      take_lines-Told t [] live msgs = (
        [],
        [],
        all_told,
        sym (append-nil t.recipient.incoming),
        sym (append-nil t.sender.incoming),
      )
      take_lines-Told t (line ∷ lines) live (msg, msgs) =
          let j = live.joined in
          let payload = build_message type_message line in
          elim (send_packet_cases c r t.sender key j.live j.sender_key t.sender_source payload
            (ap length j.same_hash ∙ size)
            (omega (arith, length-build_message type_message line, msg.2))) [
              | inl (e, f, g) ↦
                  let (said, errors, told, seen, heard) =
                    take_lines-Told (failed_talk t line e) lines (failed_talk-IsLive t line e live)
                      msgs in
                  let kept =
                    ap (λ (s : Session). s.incoming)
                      (send_packet-OnlySends c r t.sender t.sender_source payload).same in
                  rw (take_lines, take_line-failed t line e msg live f)
                    (
                      said,
                      e ∷ errors,
                      is_reported line e g told,
                      seen,
                      heard
                          ∙ ap (λ l. (l ++ (reported e ∷ [])) ++ map reported errors) kept
                          ∙ append_assoc t.sender.incoming (reported e ∷ []) (map reported errors),
                    )
              | inr (f, (frame, sent, y)) ↦
                  let x : Carries c key hash frame payload = record {
                    recipient = y.recipient ∙ j.same_hash;
                    size = y.size;
                    opened = y.opened;
                  } in
                  let (said, errors, told, seen, heard) =
                    take_lines-Told (after t line frame live sent x) lines
                      (after-IsLive t line frame live sent x) msgs in
                  rw (take_lines, take_line-sent t line frame live sent x msg f)
                    (
                      line ∷ said,
                      errors,
                      arrives line told,
                      seen ∙ append_assoc t.recipient.incoming (shown line ∷ []) (map shown said),
                      heard
                          ∙ ap (λ l. l ++ map reported errors)
                              (after-incoming t line frame live sent x),
                    )
            ]
