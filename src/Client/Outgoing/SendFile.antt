-- ===== src/Client/Outgoing/SendFile.antt =====
-- internal/client/client.go: a whole file, from `sendFile` to the receiver's disk.
use road.Base.{
  some, ℕ, ◌+◌, ◌%◌, ◌^◌, ◌<◌, ◌≡◌, refl, sym, ap, ◌∙◌, List, [], ◌∷◌, ◌++◌, Bool, true, false, not,
  ok, err, Bytes, length, ◌⊎◌, inl, inr, arith,
}
use mathlib.Core.List.{flatten, append_assoc, append-nil}
use road.Protocol.{FileHeaderPayload}
use road.Crypto.Cipher.{Aead, Random}
use road.Client.{
  SendError, Session, Event, Notice, emit, aead_key, send_chunk_fragmented, incoming_text,
  file_progress, chunk_aborted, send_header, read_file,
}
use road.Client.Send.{own_fault}
use road.Client.Chunks.{send_chunk_fragmented_cases}
use road.Client.Outgoing.{ReadEnd, at_eof, read_error, send_pieces}
use mathlib.Core.Path.{ap₂, subst}
use road.Client.Outgoing.Pieces.{
  flatten-append, AreChunks, no_AreChunks, AllCarry-AreChunks, append-AreChunks,
  send_chunk_fragmented-Same, emit-Same,
}

-- Notices whose reason is outside the file: the connection, the random source, or the sender's disk.
abbrev pub excuse : ReadEnd → Notice → Bool
excuse end (chunk_aborted i e) = not (own_fault e)
excuse end (send_header e) = not (own_fault e)
excuse read_error read_file = true
excuse end n = false

-- Sending ended with such a notice on the terminal.
pub record IsTold (end : ReadEnd) (s : Session) : Type 0 where
  pub earlier : List Event
  pub notice : Notice
  pub told : s.incoming ≡ earlier ++ (incoming_text notice ∷ [])
  pub excused : excuse end notice ≡ true

module _ (c : Aead) (r : Random) (percent : ℕ → ℕ → ℕ) (key : Bytes) where
  -- The frames that were sent carry the pieces.
  pub record HasSent (id : ℕ) (s s1 : Session) (pieces : List Bytes) : Type 0 where
    pub frames : List Bytes
    pub bodies : List Bytes
    pub sent : s1.sent ≡ s.sent ++ frames
    pub chunks : AreChunks c r percent key s.peer_key_hash id frames bodies
    pub joined : flatten bodies ≡ flatten pieces

  abbrev pub SendsPieces : ReadEnd → ℕ → Session → Bool → Session → List Bytes → Type 0
  SendsPieces end id s done s1 pieces =
      ((done ≡ false) × IsTold end s1) ⊎ ((done ≡ true) × HasSent id s s1 pieces)

  send_pieces_end :
      (fh : FileHeaderPayload) (end : ReadEnd) (s : Session) (rand : r.Source) (index : ℕ)
      → let out = send_pieces c r percent s rand fh index [] end in
        SendsPieces end fh.file_id s out.0 out.1 []
  unfolding send_pieces flatten
  send_pieces_end fh at_eof s rand index = inr (
    refl,
    record {
      frames = [];
      bodies = [];
      sent = sym (append-nil s.sent);
      chunks = no_AreChunks c r percent key s.peer_key_hash fh.file_id;
      joined = refl;
    },
  )
  send_pieces_end fh read_error s rand index =
      inl (refl, record { earlier = s.incoming; notice = read_file; told = refl; excused = refl })

  module _ (fh : FileHeaderPayload) (end : ReadEnd) (id_32 : fh.file_id < 2 ^ 32) where
    pieces_failed :
        (s : Session) (rand : r.Source) (index b : ℕ) (bs : Bytes) (pieces : List Bytes)
        (e : SendError)
        → let out = send_chunk_fragmented c r s rand fh.file_id index (b ∷ bs) in
          out.0 ≡ err e
          → send_pieces c r percent s rand fh index ((b ∷ bs) ∷ pieces) end
            ≡ (false, emit out.1 (incoming_text (chunk_aborted index e)), out.2)
    unfolding send_pieces
    pieces_failed s rand index b bs pieces e f = rw (send_pieces, f) refl

    pieces_step :
        (s : Session) (rand : r.Source) (index b : ℕ) (bs : Bytes) (pieces : List Bytes)
        → let out = send_chunk_fragmented c r s rand fh.file_id index (b ∷ bs) in
          let next = (index + 1) % 2 ^ 32 in
          out.0 ≡ ok tt
          → send_pieces c r percent s rand fh index ((b ∷ bs) ∷ pieces) end
            ≡ send_pieces c r percent
                (emit out.1 (file_progress fh.filename (percent next fh.total_chunks)))
                out.2
                fh
                next
                pieces
                end
    unfolding send_pieces
    pieces_step s rand index b bs pieces f = rw (send_pieces, f) refl

    SendsPieces-first :
        (s s1 s2 : Session) (now : Bytes) (pieces frames bodies : List Bytes) (done : Bool)
        → s1.peer_key_hash ≡ s.peer_key_hash
        → s1.sent ≡ s.sent ++ frames
        → AreChunks c r percent key s.peer_key_hash fh.file_id frames bodies
        → flatten bodies ≡ now
        → SendsPieces end fh.file_id s1 done s2 pieces
        → SendsPieces end fh.file_id s done s2 (now ∷ pieces)
    unfolding flatten
    SendsPieces-first s s1 s2 now pieces frames bodies done same grown x whole (inl failed) =
        inl failed
    SendsPieces-first s s1 s2 now pieces frames bodies done same grown x whole (inr (e, h)) = inr (
      e,
      record {
        frames = frames ++ h.frames;
        bodies = bodies ++ h.bodies;
        sent = h.sent ∙ ap (λ l. l ++ h.frames) grown ∙ append_assoc s.sent frames h.frames;
        chunks =
            append-AreChunks c r percent key s.peer_key_hash fh.file_id frames h.frames bodies
              h.bodies x
              (subst (λ hash. AreChunks c r percent key hash fh.file_id h.frames h.bodies) same
                h.chunks);
        joined = flatten-append bodies h.bodies ∙ ap₂ (λ a b. a ++ b) whole h.joined;
      },
    )

    pub send_pieces_cases :
        (pieces : List Bytes) (s : Session) (rand : r.Source) (index : ℕ)
        → s.done ≡ false
        → aead_key s ≡ some key
        → length s.peer_key_hash ≡ 32
        → index < 2 ^ 32
        → let out = send_pieces c r percent s rand fh index pieces end in
          SendsPieces end fh.file_id s out.0 out.1 pieces
    unfolding send_pieces flatten
    send_pieces_cases [] s rand index live ready h k = send_pieces_end fh end s rand index
    send_pieces_cases ([] ∷ pieces) s rand index live ready h k =
        SendsPieces-first s s _ [] pieces [] [] _ refl (sym (append-nil s.sent))
          (no_AreChunks c r percent key s.peer_key_hash fh.file_id) refl
          (send_pieces_cases pieces s rand index live ready h k)
    send_pieces_cases ((b ∷ bs) ∷ pieces) s rand index live ready h k =
        let next = (index + 1) % 2 ^ 32 in
        let event = file_progress fh.filename (percent next fh.total_chunks) in
        let (result, s1, rand1) = send_chunk_fragmented c r s rand fh.file_id index (b ∷ bs) in
        let same =
          emit-Same s s1 event
            (send_chunk_fragmented-Same c r key fh.file_id index s rand (b ∷ bs) live ready) in
        elim (send_chunk_fragmented_cases c r key s rand fh.file_id index (b ∷ bs) live ready h) [
          | inl (e, f, g) ↦ rw (pieces_failed s rand index b bs pieces e f) (
              inl (
                refl,
                record {
                  earlier = s1.incoming;
                  notice = chunk_aborted index e;
                  told = refl;
                  excused = ap not g;
                },
              ))
          | inr (f, (frames, bodies, sent, all, joined)) ↦
              rw (pieces_step s rand index b bs pieces f) (
                SendsPieces-first s (emit s1 event) _ (b ∷ bs) pieces frames bodies _ same.hash sent
                  (AllCarry-AreChunks c r percent key s.peer_key_hash fh.file_id index frames bodies
                    id_32 k all)
                  joined
                  (send_pieces_cases pieces (emit s1 event) rand1 next (same.done ∙ live)
                    (same.key ∙ ready) (ap length same.hash ∙ h) (omega arith)))
        ]
