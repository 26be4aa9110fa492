-- ===== src/Client/Incoming.antt =====
-- internal/client/client.go: what the session does with the packets it reads: messages, and the files
-- that a peer sends.
pub mod Transfer
pub mod Delivery
pub mod Torn
mod Runs
pub mod Loop
use road.Base.{
  ℕ, ◌+◌, ◌%◌, ◌^◌, [], ◌∷◌, ◌++◌, none, some, false, ltb, leb, ◌==◌, if◌then◌else◌, ok, err, Bytes,
  nat_key, length, take, update, lookup, insert, delete,
}
use road.Protocol.{
  WireHeader, FileHeaderPayload, decode_file_header, decode_header, build_message, chunk_size,
  type_message, type_file_header, type_file_chunk, type_ping, type_pong, type_disconnect,
}
use road.Crypto.Cipher.{Aead, Random, open_packet}
use road.Client.{
  Session, FileTransfer, File, incoming_text, incoming_file, file_progress, progress_cleared,
  peer_disconnected, text, invalid_file_header, resolve_save_path, create_file, oversized_chunk,
  disk_write, decryption_failed, receiving, saved, emit, zeroize, send_packet, aead_key, close_file,
}

-- How finding a path for a new file, and creating the file, ends.
pub data CreateOutcome : Type 0 where
  no_path : CreateOutcome
  not_created : CreateOutcome
  created : Bytes → CreateOutcome

-- How a write to a file ends: `failed n` after `n` bytes.
pub data DiskOutcome : Type 0 where
  all_written : DiskOutcome
  failed : ℕ → DiskOutcome

unfoldable pub recv_file : Session → FileHeaderPayload → CreateOutcome → Session
recv_file s fh no_path = emit s (incoming_text resolve_save_path)
recv_file s fh not_created = emit s (incoming_text create_file)
recv_file s fh (created path) =
    let ft : FileTransfer = record {
      fh = fh;
      file = s.next_file;
      out_path = path;
      received_bytes = 0;
      done = false;
    } in
    emit
      (record s {
        files = update s.files s.next_file (record { path = path; contents = []; closed = false });
        next_file = s.next_file + 1;
        transfers = insert fh.file_id ft s.transfers;
      })
      (incoming_file fh.filename receiving)

-- `ft.file.Write` on a file: nothing goes to a file that was closed.
append_file : (ℕ → File) → ℕ → Bytes → ℕ → File
append_file files i body =
    if (files i).closed
    then files
    else update files i (record (files i) { contents = (files i).contents ++ body })

-- The oversized chunk ends the transfer.
abort_transfer : Session → ℕ → FileTransfer → ℕ → Session
abort_transfer s id ft size = record s {
  incoming = s.incoming ++ (incoming_text (oversized_chunk size) ∷ []);
  files = close_file s.files ft.file;
  transfers = delete id s.transfers;
}

-- The end of `appendChunk`, over the transfer as it stands after the write.
finish_chunk : (ℕ → ℕ → ℕ) → Session → ℕ → FileTransfer → Session
finish_chunk percent s id ft =
    let pct = if ltb 0 ft.fh.total_size then percent ft.received_bytes ft.fh.total_size else 0 in
    let s1 = emit s (file_progress ft.fh.filename pct) in
    if leb ft.fh.total_size ft.received_bytes
    then record s1 {
      files = close_file s1.files ft.file;
      transfers = delete id s1.transfers;
      incoming =
          s1.incoming ++ (progress_cleared ∷ incoming_file ft.fh.filename (saved ft.out_path) ∷ []);
    }
    else record s1 { transfers = insert id ft s1.transfers }

write_chunk : (ℕ → ℕ → ℕ) → Session → ℕ → FileTransfer → Bytes → DiskOutcome → Session
unfolding append_file finish_chunk
write_chunk percent s id ft body (failed n) =
    emit (record s { files = append_file s.files ft.file (take n body) }) (incoming_text disk_write)
write_chunk percent s id ft body all_written =
    finish_chunk percent (record s { files = append_file s.files ft.file body }) id
      (record ft { received_bytes = (ft.received_bytes + length body) % 2 ^ 64 })

-- A transfer that the table names. A transfer that is done is in the table no more, but a call
-- that took it out before could still see it.
add_chunk : (ℕ → ℕ → ℕ) → Session → ℕ → FileTransfer → Bytes → DiskOutcome → Session
unfolding abort_transfer write_chunk
add_chunk percent s id ft body disk =
    if ft.done
    then s
    else if ltb chunk_size (length body)
    then abort_transfer s id ft (length body)
    else if ltb 0 (length body)
    then write_chunk percent s id ft body disk
    else finish_chunk percent s id ft

-- `percent` is the progress that the source computes in floating point.
unfoldable pub append_chunk : (ℕ → ℕ → ℕ) → Session → ℕ → Bytes → DiskOutcome → Session
unfolding add_chunk
append_chunk percent s id body disk = elim (lookup id s.transfers) [
  | none ↦ s
  | some ft ↦ add_chunk percent s id ft body disk
]

module _ (c : Aead) (r : Random) (percent : ℕ → ℕ → ℕ) where
  -- The switch on the packet type. A failing answer to a ping is ignored, and so are the types that
  -- have no case.
  unfoldable pub dispatch :
      Session → r.Source → WireHeader → Bytes → CreateOutcome → DiskOutcome → Session × r.Source
  dispatch s rand hdr body create disk =
      if hdr.packet_type == type_message
      then (emit s (incoming_text (text body)), rand)
      else if hdr.packet_type == type_file_header
      then (
        elim (decode_file_header body) [
          | err e ↦ emit s (incoming_text invalid_file_header)
          | ok fh ↦ recv_file s fh create
        ],
        rand,
      )
      else if hdr.packet_type == type_file_chunk
      then (append_chunk percent s hdr.file_id body disk, rand)
      else if hdr.packet_type == type_ping
      then (let (result, s1, rand1) = send_packet c r s rand (build_message type_pong []) in
          (s1, rand1))
      else if hdr.packet_type == type_disconnect
      then (zeroize (emit s peer_disconnected), rand)
      else (s, rand)

  -- One packet that `recvLoop` has read in full.
  unfoldable pub recv_packet :
      Session → r.Source → Bytes → CreateOutcome → DiskOutcome → Session × r.Source
  unfolding dispatch
  recv_packet s rand packet create disk = elim (aead_key s) [
    | none ↦ (s, rand)
    | some key ↦ elim (open_packet c key packet) [
      | err e ↦ (emit s (incoming_text decryption_failed), rand)
      | ok plain ↦ elim (decode_header plain) [
        | err e ↦ (s, rand)
        | ok (hdr, body) ↦ dispatch s rand hdr body create disk
      ]
    ]
  ]

-- `recvLoop` when reading fails: unless the session is done, the terminal is told and all is torn down.
unfoldable pub read_failed : Session → Session
read_failed s = if s.done then s else zeroize (emit s peer_disconnected)
