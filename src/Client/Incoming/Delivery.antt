-- ===== src/Client/Incoming/Delivery.antt =====
-- internal/client/client.go: a file on its way, from the sender's chunk to the receiver's file.
use road.Client.{send_chunk_fragmented, SendError, Session, FileTransfer, aead_key}
use road.Client.Chunks.{AllCarry, no_parts, part, send_chunk_fragmented_cases}
use road.Client.Send.{own_fault, Carries}
use road.Base.{
  sym, ok, err, ◌⊎◌, inl, inr, none, ◌++◌, false, ap, lookup, nat_key, true, List, [], ◌∷◌, ◌+◌,
  ◌∙◌, All, arith, if◌then◌else◌, ◌%◌, ℕ, ◌^◌, ◌<◌, ◌≡◌, refl, some, Bytes, length, drop, if_both,
  ltb, leb, Option-cases,
}
use mathlib.Core.List.{flatten}
use road.Protocol.{FileHeaderPayload, build_file_chunk, chunk_size}
use road.Client.Incoming.{
  recv_file, created, append_file, recv_packet, dispatch, append_chunk, add_chunk, write_chunk,
  finish_chunk, abort_transfer, no_path, all_written,
}
use road.Client.Incoming.Transfer.{append_chunks-recv_file, append_chunks, IsBody}
use road.Protocol.Header.{decode_header-build_file_chunk}
use road.Crypto.Cipher.{Aead, Random}

-- What the relay forwards of each frame.
unfoldable pub packets_of : List Bytes → List Bytes
packets_of [] = []
packets_of (frame ∷ frames) = drop 32 frame ∷ packets_of frames

-- A chunk leaves the cipher session and the connection as they are.
module _ (percent : ℕ → ℕ → ℕ) where
  finish_chunk-aead_key :
      (s : Session) (id : ℕ) (ft : FileTransfer)
      → aead_key (finish_chunk percent s id ft) ≡ aead_key s
  unfolding finish_chunk aead_key
  finish_chunk-aead_key s id ft =
      if_both (λ s1. aead_key s1 ≡ aead_key s) (leb ft.fh.total_size ft.received_bytes) _ _ refl
        refl

  write_chunk-aead_key :
      (s : Session) (id : ℕ) (ft : FileTransfer) (body : Bytes)
      → aead_key (write_chunk percent s id ft body all_written) ≡ aead_key s
  unfolding write_chunk aead_key
  write_chunk-aead_key s id ft body =
      finish_chunk-aead_key (record s { files = append_file s.files ft.file body }) id
        (record ft { received_bytes = (ft.received_bytes + length body) % 2 ^ 64 })

  abort_transfer-aead_key :
      (s : Session) (id : ℕ) (ft : FileTransfer) (size : ℕ)
      → aead_key (abort_transfer s id ft size) ≡ aead_key s
  unfolding abort_transfer aead_key
  abort_transfer-aead_key s id ft size = refl

  add_chunk-aead_key :
      (s : Session) (id : ℕ) (ft : FileTransfer) (body : Bytes)
      → aead_key (add_chunk percent s id ft body all_written) ≡ aead_key s
  unfolding add_chunk
  add_chunk-aead_key s id ft body =
      let P : Session → Type 0 = λ s1. aead_key s1 ≡ aead_key s in
      let aborted = abort_transfer s id ft (length body) in
      let written = write_chunk percent s id ft body all_written in
      let finished = finish_chunk percent s id ft in
      let late = if ltb 0 (length body) then written else finished in
      if_both P ft.done s (if ltb chunk_size (length body) then aborted else late) refl (
        if_both P (ltb chunk_size (length body)) aborted late
          (abort_transfer-aead_key s id ft (length body))
          (if_both P (ltb 0 (length body)) written finished (write_chunk-aead_key s id ft body)
            (finish_chunk-aead_key s id ft)))

  pub append_chunk-aead_key :
      (s : Session) (id : ℕ) (body : Bytes)
      → aead_key (append_chunk percent s id body all_written) ≡ aead_key s
  unfolding append_chunk
  append_chunk-aead_key s id body = elim (Option-cases (lookup id s.transfers)) [
    | inl e ↦ rw (append_chunk, e) refl
    | inr (ft, e) ↦ rw (append_chunk, e) (add_chunk-aead_key s id ft body)
  ]

module _ (c : Aead) (r : Random) (percent : ℕ → ℕ → ℕ) where
  recv_packet-chunk :
      (s : Session) (rand : r.Source) (key hash frame body : Bytes) (id index : ℕ)
      → aead_key s ≡ some key
      → id < 2 ^ 32
      → index < 2 ^ 32
      → Carries c key hash frame (build_file_chunk id index body)
      → recv_packet c r percent s rand (drop 32 frame) no_path all_written
        ≡ (append_chunk percent s id body all_written, rand)
  unfolding recv_packet dispatch
  recv_packet-chunk s rand key hash frame body id index ready h k x =
      rw (recv_packet, ready, x.opened, decode_header-build_file_chunk id index body h k) refl

  -- Packets that the receive loop reads one after the other, each chunk written in full.
  unfoldable pub recv_packets : Session → r.Source → List Bytes → Session × r.Source
  recv_packets s rand [] = (s, rand)
  recv_packets s rand (packet ∷ packets) =
      let (s1, rand1) = recv_packet c r percent s rand packet no_path all_written in
      recv_packets s1 rand1 packets

  pub recv_packets-chunks :
      (key hash : Bytes) (id index : ℕ) (s : Session) (rand : r.Source) {frames bodies : List Bytes}
      → aead_key s ≡ some key
      → id < 2 ^ 32
      → index < 2 ^ 32
      → AllCarry c key hash id index frames bodies
      → recv_packets s rand (packets_of frames) ≡ (append_chunks percent s id bodies, rand)
  unfolding recv_packets append_chunks packets_of
  recv_packets-chunks key hash id index s rand ready h k no_parts = refl
  recv_packets-chunks key hash id index s rand ready h k
        (part {frame} {body} {frames} x pos fits rest) =
      ap (λ out. recv_packets out.0 out.1 (packets_of frames))
        (recv_packet-chunk s rand key hash frame body id index ready h k x)
      ∙ recv_packets-chunks key hash id index (append_chunk percent s id body all_written) rand
          (append_chunk-aead_key percent s id body ∙ ready) h k rest

pub AllCarry-IsBody :
    {c : Aead} {key hash : Bytes} {id index : ℕ} {frames bodies : List Bytes}
    → AllCarry c key hash id index frames bodies
    → All IsBody bodies
AllCarry-IsBody no_parts = tt
AllCarry-IsBody (part x pos fits rest) = ((pos, omega (arith, fits)), AllCarry-IsBody rest)

-- The receiver after the header of a file and the packets of the frames.
pub received :
    (c : Aead) (r : Random)
    → (ℕ → ℕ → ℕ)
    → Session
    → r.Source
    → FileHeaderPayload
    → Bytes
    → List Bytes
    → Session
received c r percent t rand fh path frames =
    (recv_packets c r percent (recv_file t fh (created path)) rand (packets_of frames)).0

module _ (c : Aead) (r : Random) (percent : ℕ → ℕ → ℕ) (t : Session) (rand : r.Source)
    (key hash : Bytes) (index : ℕ) (fh : FileHeaderPayload) (path : Bytes) where
  received-AllCarry :
      (frames bodies : List Bytes)
      → aead_key t ≡ some key
      → fh.file_id < 2 ^ 32
      → index < 2 ^ 32
      → AllCarry c key hash fh.file_id index frames bodies
      → received c r percent t rand fh path frames
        ≡ append_chunks percent (recv_file t fh (created path)) fh.file_id bodies
  unfolding received
  received-AllCarry frames bodies ready h k all =
      let still : aead_key (recv_file t fh (created path)) ≡ some key =
        unfold recv_file aead_key in ready in
      ap (λ out. out.0)
        (recv_packets-chunks c r percent key hash fh.file_id index (recv_file t fh (created path))
          rand still h k all)

  received-whole :
      (frames bodies : List Bytes)
      → aead_key t ≡ some key
      → fh.file_id < 2 ^ 32
      → index < 2 ^ 32
      → 0 < fh.total_size
      → fh.total_size < 2 ^ 64
      → fh.total_size ≡ length (flatten bodies)
      → AllCarry c key hash fh.file_id index frames bodies
      → let t1 = received c r percent t rand fh path frames in
        (lookup fh.file_id t1.transfers ≡ none)
        × ((t1.files t.next_file).contents ≡ flatten bodies)
        × ((t1.files t.next_file).closed ≡ true)
  received-whole frames [] ready h k pos small size all =
      absurd (unfold flatten in omega (arith, pos, size))
  received-whole frames (b ∷ bodies) ready h k pos small size all =
      rw (received-AllCarry frames (b ∷ bodies) ready h k all)
        (append_chunks-recv_file percent t fh path b bodies (AllCarry-IsBody all) size small)

-- From one client to the other: the sender is open and ready, the receiver holds the same key and has
-- the header, which announces the length of the data, at least a byte and fewer than 2^64. Sending
-- the data as one chunk then either fails for a reason outside the data, or it puts frames on the
-- connection such that the receiver, on reading their packets in order with every write to the disk
-- done in full, ends with a closed file that holds exactly the data, and forgets the transfer.
pub received-send_chunk_fragmented :
    (c : Aead) (r : Random) (percent : ℕ → ℕ → ℕ) (s t : Session) (rand rand1 : r.Source)
    (key : Bytes) (index : ℕ) (fh : FileHeaderPayload) (path body : Bytes)
    → s.done ≡ false
    → aead_key s ≡ some key
    → length s.peer_key_hash ≡ 32
    → aead_key t ≡ some key
    → fh.file_id < 2 ^ 32
    → index < 2 ^ 32
    → 0 < length body
    → length body < 2 ^ 64
    → fh.total_size ≡ length body
    → let out = send_chunk_fragmented c r s rand fh.file_id index body in
      ((e : SendError) × (out.0 ≡ err e) × (own_fault e ≡ false))
      ⊎ ((out.0 ≡ ok tt)
          × ((frames : List Bytes) × (out.1.sent ≡ s.sent ++ frames)
              × (let t1 = received c r percent t rand1 fh path frames in
                  (lookup fh.file_id t1.transfers ≡ none)
                  × ((t1.files t.next_file).contents ≡ body)
                  × ((t1.files t.next_file).closed ≡ true))))
received-send_chunk_fragmented c r percent s t rand rand1 key index fh path body live ready h same k
      l pos small size =
    elim (send_chunk_fragmented_cases c r key s rand fh.file_id index body live ready h) [
      | inl failed ↦ inl failed
      | inr (e, (frames, bodies, sent, all, joined)) ↦
          let n : fh.total_size ≡ length (flatten bodies) = size ∙ ap length (sym joined) in
          let (gone, whole, closed) =
            received-whole c r percent t rand1 key s.peer_key_hash index fh path frames bodies same
              k l (omega (arith, pos, size)) (omega (arith, small, size)) n all in
          inr (e, (frames, sent, (gone, whole ∙ joined, closed)))
    ]
