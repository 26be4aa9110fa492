-- ===== src/Client/Outgoing/Sent.antt =====
-- internal/client/client.go: the frames of a file that `sendFile` sends, from its header on.
use road.Base.{
  ℕ, ◌<◌, ◌≤◌, ◌≡◌, refl, ap, ◌∙◌, List, [], ◌∷◌, ◌++◌, some, false, not, Bytes, length, nat_key,
  ◌⊎◌, inl, inr, Bool-cases, arith, ◌==◌, ==_iff,
}
use mathlib.Core.List.{flatten, append_assoc}
use mathlib.Core.Path.{subst}
use road.Protocol.{FileHeaderPayload, FileHeaderFits, build_message, type_file_header}
use road.Protocol.Header.{length-build_message}
use road.Protocol.File.{layout, length-layout, encode_file_header_cases}
use road.Crypto.Cipher.{Aead, Random, max_plaintext_size}
use road.Client.{Session, emit, aead_key, send_packet, incoming_file, send_header, sending}
use road.Client.Send.{Carries, send_packet_cases, send_packet-Same}
use road.Client.Outgoing.{ReadEnd, send_pieces, send_whole, send_body, send_header_of}
use road.Client.Outgoing.Pieces.{AreChunks}
use road.Client.Outgoing.SendFile.{IsTold, HasSent, send_pieces_cases}

module _ (c : Aead) (r : Random) (percent : ℕ → ℕ → ℕ) (key : Bytes) (fh : FileHeaderPayload)
    (fits : FileHeaderFits fh) (short : length fh.filename ≤ 255) where
  module _ (s : Session) (rand : r.Source) (pieces : List Bytes) (end : ReadEnd)
      (live : s.done ≡ false) (ready : aead_key s ≡ some key) (hash : length s.peer_key_hash ≡ 32)
      (some_bytes : 0 < fh.total_size) where
    send_body_cases :
        let out = send_body c r percent s rand fh pieces end in
        IsTold end out.0 ⊎ HasSent c r percent key fh.file_id s out.0 pieces
    unfolding send_body send_whole
    send_body_cases =
        let s0 = emit s (incoming_file fh.filename sending) in
        let out = send_pieces c r percent s0 rand fh 0 pieces end in
        elim (Bool-cases (fh.total_size == 0)) [
          | inl empty ↦ absurd (omega (arith, (==_iff fh.total_size 0).0 empty, some_bytes))
          | inr e ↦
              elim (send_pieces_cases c r percent key fh end fits.id_32 pieces s0 rand 0 live
                (unfold aead_key in ready) hash (omega arith)) [
                  | inl (f, told) ↦ inl (rw (send_body, e, send_whole, f) told)
                  | inr (f, h) ↦ inr (
                      rw (send_body, e, send_whole, f)
                        (record {
                          frames = h.frames;
                          bodies = h.bodies;
                          sent = h.sent;
                          chunks = h.chunks;
                          joined = h.joined;
                        }))
                ]
        ]

-- The frame of the header, then those of the body.
pub record HasSentFile (c : Aead) (r : Random) (percent : ℕ → ℕ → ℕ) (key : Bytes)
    (fh : FileHeaderPayload) (s s1 : Session) (pieces : List Bytes) : Type 0 where
  pub header : Bytes
  pub carries : Carries c key s.peer_key_hash header (build_message type_file_header (layout fh))
  pub frames : List Bytes
  pub bodies : List Bytes
  pub sent : s1.sent ≡ s.sent ++ (header ∷ frames)
  pub chunks : AreChunks c r percent key s.peer_key_hash fh.file_id frames bodies
  pub joined : flatten bodies ≡ flatten pieces

module _ (c : Aead) (r : Random) (percent : ℕ → ℕ → ℕ) (key : Bytes) (fh : FileHeaderPayload)
    (fits : FileHeaderFits fh) (short : length fh.filename ≤ 255) (s : Session) (rand : r.Source)
    (pieces : List Bytes) (end : ReadEnd) (live : s.done ≡ false) (ready : aead_key s ≡ some key)
    (hash : length s.peer_key_hash ≡ 32) (some_bytes : 0 < fh.total_size) where
  pub send_header_of_cases :
      let out = send_header_of c r percent s rand fh pieces end in
      IsTold end out.0 ⊎ HasSentFile c r percent key fh s out.0 pieces
  unfolding send_header_of
  send_header_of_cases =
      let payload = build_message type_file_header (layout fh) in
      let small : length payload ≤ max_plaintext_size =
        omega (arith, length-build_message type_file_header (layout fh), length-layout fh, short) in
      let same = send_packet-Same c r s key live ready rand payload in
      let (result, s1, rand1) = send_packet c r s rand payload in
      elim (encode_file_header_cases fh) [
        | inr (long, e) ↦ absurd (omega (arith, long, short))
        | inl (_, e) ↦ elim (send_packet_cases c r s key live ready rand payload hash small) [
          | inl (x, f, g) ↦ inl (
              rw (send_header_of, e, f)
                (record {
                  earlier = s1.incoming;
                  notice = send_header x;
                  told = refl;
                  excused = ap not g;
                }))
          | inr (f, (header, grown, carries)) ↦
              elim (send_body_cases c r percent key fh fits short s1 rand1 pieces end
                (same.done ∙ live) (same.key ∙ ready) (ap length same.hash ∙ hash) some_bytes) [
                  | inl told ↦ inl (rw (send_header_of, e, f) told)
                  | inr h ↦ inr (
                      rw (send_header_of, e, f)
                        (record {
                          header = header;
                          carries = carries;
                          frames = h.frames;
                          bodies = h.bodies;
                          sent =
                              h.sent
                              ∙ ap (λ l. l ++ h.frames) grown
                              ∙ append_assoc s.sent (header ∷ []) h.frames;
                          chunks =
                              subst
                                (λ hash.
                                  AreChunks c r percent key hash fh.file_id h.frames h.bodies)
                                same.hash h.chunks;
                          joined = h.joined;
                        }))
                ]
        ]
      ]
