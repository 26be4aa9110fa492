-- ===== src/Client/Incoming/Torn.antt =====
-- internal/client/client.go: what a packet does to the session that reads it: it stays connected, or is torn down.
use road.Base.{
  Result, ℕ, ◌≡◌, refl, ap, [], none, true, false, if_both, Option-cases, Result-cases, ok, err,
  Bytes, nat_key, ◌⊎◌, inl, inr, lookup, ltb, leb, length, ◌==◌,
}
use road.Protocol.{
  WireHeader, FileHeaderPayload, decode_header, decode_file_header, build_message, chunk_size,
  type_message, type_file_header, type_file_chunk, type_ping, type_pong, type_disconnect,
}
use road.Crypto.Cipher.{Aead, Random, open_packet}
use road.Protocol
use road.Client.{
  incoming_text, invalid_file_header, Session, FileTransfer, zeroize, emit, peer_disconnected,
  aead_key, send_packet,
}
use road.Client.Outgoing.Lines.{send_packet-OnlySends}
use road.Client.Incoming.{
  CreateOutcome, DiskOutcome, no_path, not_created, created, all_written, failed, recv_file,
  append_chunk, add_chunk, write_chunk, finish_chunk, abort_transfer, dispatch, recv_packet,
}

-- The session was torn down: it is done, and has no key and no connection.
abbrev pub IsTorn : Session → Type 0
IsTorn s = (s.done ≡ true) × (s.cipher_sess ≡ none) × (s.conn ≡ none)

-- The session is as open and as connected as before.
abbrev pub Keeps : Session → Session → Type 0
Keeps s s1 = (s1.done ≡ s.done) × (s1.cipher_sess ≡ s.cipher_sess) × (s1.conn ≡ s.conn)

abbrev pub Goes : Session → Session → Type 0
Goes s s1 = IsTorn s1 ⊎ Keeps s s1

pub zeroize-IsTorn : (s : Session) → s.done ≡ false → IsTorn (zeroize s)
unfolding zeroize
zeroize-IsTorn s e = simp e (refl, refl, refl)

recv_file-Keeps :
    (s : Session) (fh : FileHeaderPayload) (create : CreateOutcome)
    → Keeps s (recv_file s fh create)
unfolding recv_file
recv_file-Keeps s fh no_path = (refl, refl, refl)
recv_file-Keeps s fh not_created = (refl, refl, refl)
recv_file-Keeps s fh (created path) = (refl, refl, refl)

module _ (percent : ℕ → ℕ → ℕ) (id : ℕ) where
  finish_chunk-Keeps : (s : Session) (ft : FileTransfer) → Keeps s (finish_chunk percent s id ft)
  unfolding finish_chunk
  finish_chunk-Keeps s ft =
      if_both (Keeps s) (leb ft.fh.total_size ft.received_bytes) _ _ (refl, refl, refl)
        (refl, refl, refl)

  write_chunk-Keeps :
      (s : Session) (ft : FileTransfer) (body : Bytes) (disk : DiskOutcome)
      → Keeps s (write_chunk percent s id ft body disk)
  unfolding write_chunk
  write_chunk-Keeps s ft body (failed n) = (refl, refl, refl)
  write_chunk-Keeps s ft body all_written = finish_chunk-Keeps _ _

  add_chunk-Keeps :
      (s : Session) (ft : FileTransfer) (body : Bytes) (disk : DiskOutcome)
      → Keeps s (add_chunk percent s id ft body disk)
  unfolding add_chunk abort_transfer
  add_chunk-Keeps s ft body disk =
      if_both (Keeps s) ft.done _ _ (refl, refl, refl)
        (if_both (Keeps s) (ltb chunk_size (length body)) _ _ (refl, refl, refl)
          (if_both (Keeps s) (ltb 0 (length body)) _ _ (write_chunk-Keeps s ft body disk)
            (finish_chunk-Keeps s ft)))

  append_chunk-Keeps :
      (s : Session) (body : Bytes) (disk : DiskOutcome)
      → Keeps s (append_chunk percent s id body disk)
  unfolding append_chunk
  append_chunk-Keeps s body disk = elim (Option-cases (lookup id s.transfers)) [
    | inl e ↦ rw (e, append_chunk) (refl, refl, refl)
    | inr (ft, e) ↦ rw (e, append_chunk) (add_chunk-Keeps s ft body disk)
  ]

header-Keeps :
    (s : Session) (create : CreateOutcome) (decoded : Result Protocol.Error FileHeaderPayload)
    → Keeps s (elim decoded [
      | err e ↦ emit s (incoming_text invalid_file_header)
      | ok fh ↦ recv_file s fh create
    ])
header-Keeps s create (err e) = (refl, refl, refl)
header-Keeps s create (ok fh) = recv_file-Keeps s fh create

module _ (c : Aead) (r : Random) (percent : ℕ → ℕ → ℕ) where
  send_packet-Keeps :
      (s : Session) (rand : r.Source) (payload : Bytes) → Keeps s (send_packet c r s rand payload).1
  send_packet-Keeps s rand payload =
      let x = send_packet-OnlySends c r s rand payload in
      (ap (λ t. t.done) x.same, ap (λ t. t.cipher_sess) x.same, ap (λ t. t.conn) x.same)

  dispatch-Goes :
      (s : Session) (rand : r.Source) (hdr : WireHeader) (body : Bytes) (create : CreateOutcome)
      (disk : DiskOutcome)
      → s.done ≡ false
      → Goes s (dispatch c r percent s rand hdr body create disk).0
  unfolding dispatch
  dispatch-Goes s rand hdr body create disk live =
      let P : Session × r.Source → Type 0 = λ out. Goes s out.0 in
      if_both P (hdr.packet_type == type_message) _ _ (inr (refl, refl, refl)) (
        if_both P (hdr.packet_type == type_file_header) _ _
          (inr (header-Keeps s create (decode_file_header body)))
          (if_both P (hdr.packet_type == type_file_chunk) _ _
            (inr (append_chunk-Keeps percent hdr.file_id s body disk))
            (if_both P (hdr.packet_type == type_ping) _ _
              (inr (send_packet-Keeps s rand (build_message type_pong [])))
              (if_both P (hdr.packet_type == type_disconnect) _ _
                (inl (zeroize-IsTorn (emit s peer_disconnected) live)) (inr (refl, refl, refl))))))

  pub recv_packet-Goes :
      (s : Session) (rand : r.Source) (packet : Bytes) (create : CreateOutcome) (disk : DiskOutcome)
      → s.done ≡ false
      → Goes s (recv_packet c r percent s rand packet create disk).0
  unfolding recv_packet
  recv_packet-Goes s rand packet create disk live = elim (Option-cases (aead_key s)) [
    | inl e ↦ rw (e, recv_packet) (inr (refl, refl, refl))
    | inr (key, e) ↦ elim (Result-cases (open_packet c key packet)) [
      | inr (x, f) ↦ rw (e, recv_packet, f) (inr (refl, refl, refl))
      | inl (plain, f) ↦ elim (Result-cases (decode_header plain)) [
        | inr (x, g) ↦ rw (e, recv_packet, f, g) (inr (refl, refl, refl))
        | inl ((hdr, body), g) ↦
            rw (e, recv_packet, f, g) (dispatch-Goes s rand hdr body create disk live)
      ]
    ]
  ]
