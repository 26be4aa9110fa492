-- ===== src/Client/Outgoing/WholeFile.antt =====
-- internal/client/client.go: a file from `sendFile` to the disk of the receiver.
use road.Protocol.{chunk_size}
use road.Base.{
  ◌+◌, ◌≤◌, All, ℕ, ◌^◌, ◌<◌, ◌≤◌, ◌≡◌, refl, sym, ap, ◌∙◌, List, [], ◌∷◌, ◌++◌, some, none, true,
  false, ok, Bytes, IsBytes, length, drop, lookup, nat_key, ◌⊎◌, inl, inr, arith,
}
use mathlib.Core.List.{flatten, append-nil}
use road.Protocol.{
  FileHeaderPayload, FileHeaderFits, build_message, type_file_header, decode_file_header,
}
use road.Protocol.Header.{decode_header-build_message}
use road.Protocol.File.{layout, decode_file_header-layout}
use road.Crypto.Cipher.{Aead, Random}
use road.Client.{Session, aead_key}
use road.Client.Send.{Addressed, Carries}
use road.Client.Incoming.{recv_file, recv_packet, dispatch, created, all_written}
use road.Client.Incoming.Transfer.{append_chunks, append_chunks-recv_file, IsBody}
use road.Client.Incoming.Delivery.{packets_of, recv_packets}
use road.Client.Outgoing.{ReadEnd, opened, send_file, base, header_for, file_id_of}
use road.Client.Outgoing.Header.{header_for-Fits, file_id_of-bound}
use road.Client.Outgoing.Sent.{HasSentFile, send_header_of_cases}
use road.Client.Outgoing.SendFile.{IsTold}

module _ (c : Aead) (r : Random) (percent : ℕ → ℕ → ℕ) (key : Bytes) (fh : FileHeaderPayload)
    (fits : FileHeaderFits fh) (short : length fh.filename ≤ 255) where
  recv_packet-header :
      (t : Session) (rand : r.Source) (hash frame path : Bytes)
      → aead_key t ≡ some key
      → Carries c key hash frame (build_message type_file_header (layout fh))
      → recv_packet c r percent t rand (drop 32 frame) (created path) all_written
        ≡ (recv_file t fh (created path), rand)
  unfolding recv_packet dispatch
  recv_packet-header t rand hash frame path ready x =
      let d : decode_file_header (layout fh) ≡ ok fh =
        ap decode_file_header (sym (append-nil (layout fh)))
        ∙ decode_file_header-layout fh [] fits short in
      rw
        (
          recv_packet,
          ready,
          x.opened,
          decode_header-build_message type_file_header (layout fh) (omega arith),
          d,
        )
        refl

-- What a receiver makes of the packet of a file's header, which creates the file, and then of the
-- packets of the other frames, each chunk written in full.
unfoldable pub received_file :
    (c : Aead) (r : Random)
    → (ℕ → ℕ → ℕ)
    → Session
    → r.Source
    → Bytes
    → Bytes
    → List Bytes
    → Session
received_file c r percent t rand path header frames =
    let (t1, rand1) = recv_packet c r percent t rand (drop 32 header) (created path) all_written in
    (recv_packets c r percent t1 rand1 (packets_of frames)).0

module _ (c : Aead) (r : Random) (percent : ℕ → ℕ → ℕ) (key : Bytes) (fh : FileHeaderPayload)
    (fits : FileHeaderFits fh) (short : length fh.filename ≤ 255) (s s1 t : Session)
    (rand : r.Source) (path : Bytes) (pieces : List Bytes) where
  received_file-chunks :
      (h : HasSentFile c r percent key fh s s1 pieces)
      → aead_key t ≡ some key
      → received_file c r percent t rand path h.header h.frames
        ≡ append_chunks percent (recv_file t fh (created path)) fh.file_id h.bodies
  unfolding received_file
  received_file-chunks h ready =
      let still : aead_key (recv_file t fh (created path)) ≡ some key =
        unfold recv_file aead_key in ready in
      ap (λ out. (recv_packets c r percent out.0 out.1 (packets_of h.frames)).0)
        (recv_packet-header c r percent key fh fits short t rand s.peer_key_hash h.header path ready
          h.carries)
      ∙ ap (λ out. out.0) (h.chunks.read (recv_file t fh (created path)) rand still)

  nonempty_append_chunks :
      (bodies : List Bytes)
      → All IsBody bodies
      → flatten bodies ≡ flatten pieces
      → 0 < fh.total_size
      → fh.total_size ≡ length (flatten pieces)
      → let t1 = append_chunks percent (recv_file t fh (created path)) fh.file_id bodies in
        (lookup fh.file_id t1.transfers ≡ none)
        × ((t1.files t.next_file).contents ≡ flatten pieces)
        × ((t1.files t.next_file).closed ≡ true)
  nonempty_append_chunks [] sizes joined pos size =
      absurd (let e = ap length joined in unfold flatten in omega (arith, e, pos, size))
  nonempty_append_chunks (b ∷ bodies) sizes joined pos size =
      let (gone, whole, closed) =
        append_chunks-recv_file percent t fh path b bodies sizes (size ∙ ap length (sym joined))
          fits.size_64 in
      (gone, whole ∙ joined, closed)

  received_file-whole :
      (h : HasSentFile c r percent key fh s s1 pieces)
      → aead_key t ≡ some key
      → 0 < fh.total_size
      → fh.total_size ≡ length (flatten pieces)
      → let t1 = received_file c r percent t rand path h.header h.frames in
        (lookup fh.file_id t1.transfers ≡ none)
        × ((t1.files t.next_file).contents ≡ flatten pieces)
        × ((t1.files t.next_file).closed ≡ true)
  received_file-whole h ready pos size =
      rw (received_file-chunks h ready)
        (nonempty_append_chunks h.bodies h.chunks.sizes h.joined pos size)

-- A file of at least a byte and at most 2^63 - 128 KB, whose name has at most 255 bytes, and that is read
-- to its end in pieces: `sendFile` on a session that is open and ready either ends with a notice
-- before the terminal that is not the file's fault (the connection, the random source or reading
-- failed), or it sends a header and frames, each for the peer and of the size that the relay reads, such that a receiver that holds the same key, reading
-- their packets in order with every write to its disk done in full, ends with a closed file that
-- holds exactly the pieces, and forgets the transfer. The random source gives bytes.
pub received_file-send_file :
    (c : Aead) (r : Random) (percent : ℕ → ℕ → ℕ) (key : Bytes) (s t : Session)
    (rand rand1 : r.Source) (path out_path : Bytes) (size : ℕ) (pieces : List Bytes) (end : ReadEnd)
    (now : ℕ)
    → ((bs : Bytes) → (r.read_full rand 4).0 ≡ some bs → IsBytes bs)
    → s.done ≡ false
    → aead_key s ≡ some key
    → length s.peer_key_hash ≡ 32
    → aead_key t ≡ some key
    → length (base path) ≤ 255
    → size ≡ length (flatten pieces)
    → 0 < size
    → size + chunk_size ≤ 2 ^ 63
    → let out = send_file c r percent s rand path (opened size pieces end) now in
      IsTold end out.0
      ⊎ ((id : ℕ) × (header : Bytes) × (frames : List Bytes) × (out.0.sent
            ≡ s.sent ++ (header ∷ frames))
          × All (Addressed s.peer_key_hash) (header ∷ frames)
          × (let t1 = received_file c r percent t rand1 out_path header frames in
              (lookup id t1.transfers ≡ none)
              × ((t1.files t.next_file).contents ≡ flatten pieces)
              × ((t1.files t.next_file).closed ≡ true)))
unfolding send_file
received_file-send_file c r percent key s t rand rand1 path out_path size pieces end now bytes live
      ready hash same short whole pos small =
    let id = file_id_of (r.read_full rand 4).0 now in
    let fh = header_for path size id in
    let fits = header_for-Fits path size id (file_id_of-bound (r.read_full rand 4).0 now bytes) in
    let total : fh.total_size ≡ size = unfold header_for in omega (arith, small) in
    let pos1 : 0 < fh.total_size = omega (arith, total, pos) in
    let name : length fh.filename ≤ 255 = unfold header_for in short in
    let same_id : fh.file_id ≡ id = unfold header_for in refl in
    elim (send_header_of_cases c r percent key fh fits name s (r.read_full rand 4).1 pieces end live
      ready hash pos1) [
        | inl told ↦ inl told
        | inr h ↦ inr (
          fh.file_id,
          h.header,
          h.frames,
          h.sent,
          ((h.carries.recipient, h.carries.size), h.chunks.addressed),
          received_file-whole c r percent key fh fits name s _ t rand1 out_path pieces h same pos1
              (total ∙ whole),
        )
      ]
