-- ===== src/Client/Outgoing/Lines.antt =====
-- internal/client/client.go: what a line that the user enters does to the session.
use road.Base.{
  if_both, false, ℕ, ◌≤◌, ◌≡◌, refl, ap, List, [], ◌∷◌, ◌++◌, none, some, true, false, Bool-cases,
  Option-cases, Result-cases, Bytes, codes, bytes_eq, length, take, make, ◌⊎◌, inl, inr, arith,
}
use road.Protocol.{build_message, type_message, type_disconnect}
use road.Protocol.Header.{length-build_message}
use road.Crypto.Cipher.{Aead, Random, seal}
use road.Relay.{WriteOutcome, write_done, write_failed, deadline_failed}
use road.Client.{
  Session, SendError, emit, incoming_text, send_error, peer_disconnected, aead_key, zeroize,
  send_packet, write_frame, frame_of, max_body,
}
use road.Client.Send.{own_fault, Carries, send_packet_cases}
use road.Client.Teardown.{zeroize_lem}
use road.Client.Outgoing.{send_line, send_exit, send_text}

-- Sending touches only what was sent and what the network will do.
pub record OnlySends (s s1 : Session) : Type 0 where
  pub sent : List Bytes
  pub network : List WriteOutcome
  pub same : s1 ≡ record s { sent = sent; network = network }

pub nothing-OnlySends : (s : Session) → OnlySends s s
nothing-OnlySends s = record { sent = s.sent; network = s.network; same = refl }

pub write_frame-OnlySends :
    (s : Session) (frame : Bytes) (os : List WriteOutcome) → OnlySends s (write_frame s frame os).1
unfolding write_frame
write_frame-OnlySends s frame [] = nothing-OnlySends s
write_frame-OnlySends s frame (deadline_failed ∷ os) = record {
  sent = s.sent;
  network = os;
  same = refl;
}
write_frame-OnlySends s frame (write_failed n ∷ os) = record {
  sent = s.sent ++ (take n frame ∷ []);
  network = os;
  same = refl;
}
write_frame-OnlySends s frame (write_done ∷ os) = record {
  sent = s.sent ++ (frame ∷ []);
  network = os;
  same = refl;
}

module _ (c : Aead) (r : Random) where
  pub send_packet-OnlySends :
      (s : Session) (rand : r.Source) (payload : Bytes)
      → OnlySends s (send_packet c r s rand payload).1
  unfolding send_packet
  send_packet-OnlySends s rand payload = elim (Bool-cases s.done) [
    | inl e ↦ simp e (nothing-OnlySends s)
    | inr e ↦ elim (Option-cases (aead_key s)) [
      | inl f ↦ simp (e, f) (nothing-OnlySends s)
      | inr (key, f) ↦ elim (Result-cases (seal c r key payload rand).0) [
        | inr (x, g) ↦ simp (e, f, g) (nothing-OnlySends s)
        | inl (enc, g) ↦
            simp (e, f, g) (write_frame-OnlySends s (frame_of s.peer_key_hash enc) s.network)
      ]
    ]
  ]

  zeroize-incoming : (s : Session) → (zeroize s).incoming ≡ s.incoming
  unfolding zeroize
  zeroize-incoming s = if_both {A = Session} (λ t. t.incoming ≡ s.incoming) s.done _ _ refl refl

  -- The line /exit, on a session that is open, tells the terminal and tears the session down, whatever
  -- becomes of the disconnect packet: no key, no connection and no transfer is left, the peer's key is
  -- zeros, and the connection is closed.
  pub send_line-exit :
      (percent : ℕ → ℕ → ℕ) (trim : Bytes → Bytes) (s : Session) (rand : r.Source)
      → s.done ≡ false
      → let (path, out) = send_line c r percent trim s rand (codes "/exit") in
        let s1 = out.0 in
        (path ≡ none)
        × (s1.incoming ≡ s.incoming ++ (peer_disconnected ∷ []))
        × (s1.done ≡ true)
        × (s1.cipher_sess ≡ none)
        × (s1.conn ≡ none)
        × (s1.peer_pub_key ≡ make (length s.peer_pub_key))
        × (s1.transfers ≡ [])
        × ((i : ℕ) → s.conn ≡ some i → s1.conn_closed i ≡ true)
  unfolding send_line send_exit
  send_line-exit percent trim s rand live =
      let x = send_packet-OnlySends s rand (build_message type_disconnect []) in
      let s1 : Session = emit (record s { sent = x.sent; network = x.network }) peer_disconnected in
      let (done, wiped, cipher, conn, key, transfers, files, closed, again) = zeroize_lem s1 live in
      rw x.same (refl, zeroize-incoming s1, done, cipher, conn, key, transfers, closed)

  -- Any other line that is no file command and has at most 4057 bytes, on a session that is open and
  -- ready with a 32-byte hash of the peer: either one more frame is written, which opens to a message
  -- with exactly the line, and the terminal is told nothing; or the terminal is told that sending
  -- failed, for a reason outside the line.
  pub send_line-message :
      (percent : ℕ → ℕ → ℕ) (trim : Bytes → Bytes) (s : Session) (rand : r.Source)
      (key line : Bytes)
      → s.done ≡ false
      → aead_key s ≡ some key
      → length s.peer_key_hash ≡ 32
      → bytes_eq line (codes "/exit") ≡ false
      → bytes_eq (take 6 line) (codes "/file ") ≡ false
      → length line ≤ max_body
      → let (path, out) = send_line c r percent trim s rand line in
        let s1 = out.0 in
        (path ≡ none)
        × (((e : SendError) × (own_fault e ≡ false)
              × (s1.incoming ≡ s.incoming ++ (incoming_text (send_error e) ∷ [])))
            ⊎ ((frame : Bytes) × (s1.sent ≡ s.sent ++ (frame ∷ []))
                × Carries c key s.peer_key_hash frame (build_message type_message line)
                × (s1.incoming ≡ s.incoming)))
  unfolding send_line send_text
  send_line-message percent trim s rand key line live ready hash no_exit no_file short =
      let payload = build_message type_message line in
      let x = send_packet-OnlySends s rand payload in
      let kept = ap (λ t. t.incoming) x.same in
      elim (send_packet_cases c r s key live ready rand payload hash
        (omega (arith, length-build_message type_message line, short))) [
          | inl (e, f, g) ↦
              rw (no_exit, no_file, send_text, f)
                (refl, inl (e, g, ap (λ l. l ++ (incoming_text (send_error e) ∷ [])) kept))
          | inr (f, (frame, grown, carries)) ↦
              rw (no_exit, no_file, send_text, f) (refl, inr (frame, grown, carries, kept))
        ]
