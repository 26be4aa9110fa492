-- ===== src/Client/Goroutines.antt =====
-- internal/client/client.go: the goroutines of a session once `connect` is through, as steps that any of
-- them may take next: the receive, send and ping loops, the sending of files, and `Zeroize`, which
-- `Run` defers and the signal handler calls.
use mathlib.Core.Path.{subst}
use road.Base.{
  sym, ℕ, ◌≡◌, refl, List, [], Option, none, true, false, if◌then◌else◌, if_both, Result-cases, err,
  Bytes, codes, bytes_eq, take, inl, inr,
}
use road.Protocol.{
  FileHeaderPayload, build_message, encode_file_header, type_file_header, type_message,
  type_disconnect, type_ping,
}
use road.Crypto.Cipher.{Aead, Random}
use road.Client.{
  Event, encode_header, open_file, stat_file, Session, session_closed, emit, zeroize, aead_key,
  send_packet, send_header, peer_disconnected, incoming_text, send_error,
}
use road.Client.Teardown.{zeroize_done}
use road.Client.Incoming.{CreateOutcome, DiskOutcome, recv_packet, read_failed}
use road.Client.Incoming.Torn.{IsTorn, zeroize-IsTorn}
use road.Client.Outgoing.{
  OpenFile, not_opened, no_stat, opened, ReadEnd, send_line, send_exit, send_text, send_file,
  send_header_of, ping,
}

module _ (c : Aead) (r : Random) (percent : ℕ → ℕ → ℕ) (trim : Bytes → Bytes) where
  pub data Act (s : Session) : Session → Type 0 where
    reads :
        (rand : r.Source) (packet : Bytes) (create : CreateOutcome) (disk : DiskOutcome)
        → Act s (recv_packet c r percent s rand packet create disk).0
    read_fails : Act s (read_failed s)
    sends_line :
        (rand : r.Source) (line : Bytes) → Act s (send_line c r percent trim s rand line).1.0
    sends_file :
        (rand : r.Source) (path : Bytes) (file : OpenFile) (now : ℕ)
        → Act s (send_file c r percent s rand path file now).0
    pings : (rand : r.Source) → Act s (ping c r percent s rand).1
    zeroizes : Act s (zeroize s)

  pub data Acts (s : Session) : Session → Type 0 where
    begins : Acts s s
    goes_on : {t u : Session} → Acts s t → Act t u → Acts s u

zeroize-sent : (s : Session) → (zeroize s).sent ≡ s.sent
unfolding zeroize
zeroize-sent s = if_both {A = Session} (λ t. t.sent ≡ s.sent) s.done _ _ refl refl

-- Torn down, with what was sent until then.
pub record IsOver (sent : List Bytes) (s : Session) : Type 0 where
  pub torn : IsTorn s
  pub same_sent : s.sent ≡ sent

emit-IsOver : (sent : List Bytes) (s : Session) (e : Event) → IsOver sent s → IsOver sent (emit s e)
emit-IsOver sent s e v = record { torn = v.torn; same_sent = v.same_sent }

module _ (sent : List Bytes) (s : Session) (v : IsOver sent s) where
  over_key : aead_key s ≡ none
  unfolding aead_key
  over_key = rw (v.torn.2, aead_key) refl

  zeroize-IsOver : IsOver sent (zeroize s)
  zeroize-IsOver = subst (IsOver sent) (sym (zeroize_done s (v.torn.0))) v

  read_failed-IsOver : IsOver sent (read_failed s)
  unfolding read_failed
  read_failed-IsOver =
      subst (λ d. IsOver sent (if d then s else zeroize (emit s peer_disconnected)))
        (sym (v.torn.0)) v

module _ (c : Aead) (r : Random) (percent : ℕ → ℕ → ℕ) (sent : List Bytes) (s : Session)
    (v : IsOver sent s) where
  send_packet_over :
      (rand : r.Source) (payload : Bytes)
      → send_packet c r s rand payload ≡ (err session_closed, s, rand)
  unfolding send_packet
  send_packet_over rand payload = simp (v.torn.0) refl

  recv_packet-IsOver :
      (rand : r.Source) (packet : Bytes) (create : CreateOutcome) (disk : DiskOutcome)
      → IsOver sent (recv_packet c r percent s rand packet create disk).0
  unfolding recv_packet
  recv_packet-IsOver rand packet create disk = rw (over_key sent s v, recv_packet) v

  send_exit-IsOver : (rand : r.Source) → IsOver sent (send_exit c r percent s rand).0
  unfolding send_exit
  send_exit-IsOver rand =
      rw (send_packet_over rand (build_message type_disconnect []))
        (zeroize-IsOver sent (emit s peer_disconnected) (emit-IsOver sent s peer_disconnected v))

  send_text-IsOver :
      (rand : r.Source) (line : Bytes) → IsOver sent (send_text c r percent s rand line).0
  unfolding send_text
  send_text-IsOver rand line =
      let shut = send_packet_over rand (build_message type_message line) in
      rw (shut, send_text, shut) (emit-IsOver sent s (incoming_text (send_error session_closed)) v)

  send_line-IsOver :
      (trim : Bytes → Bytes) (rand : r.Source) (line : Bytes)
      → IsOver sent (send_line c r percent trim s rand line).1.0
  unfolding send_line
  send_line-IsOver trim rand line =
      let P : Option Bytes × (Session × r.Source) → Type 0 = λ out. IsOver sent out.1.0 in
      if_both P (bytes_eq line (codes "/exit")) _ _ (send_exit-IsOver rand)
        (if_both P (bytes_eq (take 6 line) (codes "/file ")) _ _ v (send_text-IsOver rand line))

  ping-IsOver : (rand : r.Source) → IsOver sent (ping c r percent s rand).1
  unfolding ping
  ping-IsOver rand =
      let shut = send_packet_over rand (build_message type_ping []) in rw (shut, ping, shut) v

  send_header_of-IsOver :
      (rand : r.Source) (fh : FileHeaderPayload) (pieces : List Bytes) (end : ReadEnd)
      → IsOver sent (send_header_of c r percent s rand fh pieces end).0
  unfolding send_header_of
  send_header_of-IsOver rand fh pieces end = elim (Result-cases (encode_file_header fh)) [
    | inr (e, f) ↦ rw (f, send_header_of) (emit-IsOver sent s (incoming_text (encode_header e)) v)
    | inl (header, f) ↦
        let shut = send_packet_over rand (build_message type_file_header header) in
        rw (f, send_header_of, shut, shut)
          (emit-IsOver sent s (incoming_text (send_header session_closed)) v)
  ]

  send_file-IsOver :
      (rand : r.Source) (path : Bytes) (file : OpenFile) (now : ℕ)
      → IsOver sent (send_file c r percent s rand path file now).0
  unfolding send_file
  send_file-IsOver rand path not_opened now = emit-IsOver sent s (incoming_text open_file) v
  send_file-IsOver rand path no_stat now = emit-IsOver sent s (incoming_text stat_file) v
  send_file-IsOver rand path (opened size pieces end) now =
      send_header_of-IsOver (r.read_full rand 4).1 _ pieces end

module _ (c : Aead) (r : Random) (percent : ℕ → ℕ → ℕ) (trim : Bytes → Bytes) where
  Act-IsOver :
      {s t : Session} (sent : List Bytes) → Act c r percent trim s t → IsOver sent s → IsOver sent t
  Act-IsOver {s} sent (reads rand packet create disk) v =
      recv_packet-IsOver c r percent sent s v rand packet create disk
  Act-IsOver {s} sent read_fails v = read_failed-IsOver sent s v
  Act-IsOver {s} sent (sends_line rand line) v =
      send_line-IsOver c r percent sent s v trim rand line
  Act-IsOver {s} sent (sends_file rand path file now) v =
      send_file-IsOver c r percent sent s v rand path file now
  Act-IsOver {s} sent (pings rand) v = ping-IsOver c r percent sent s v rand
  Act-IsOver {s} sent zeroizes v = zeroize-IsOver sent s v

  Acts-IsOver :
      {s t : Session} (sent : List Bytes)
      → Acts c r percent trim s t
      → IsOver sent s
      → IsOver sent t
  Acts-IsOver sent begins v = v
  Acts-IsOver sent (goes_on acts act) v = Act-IsOver sent act (Acts-IsOver sent acts v)

  -- Once an open session is torn down by `Zeroize`, and `connect` is not under way any more, no
  -- interleaving of the session's goroutines writes a frame or a part of one, or brings a key or a
  -- connection back. A round of a loop and the sending of a file are one step each.
  pub Acts-zeroize :
      {t : Session} (s : Session)
      → s.done ≡ false
      → Acts c r percent trim (zeroize s) t
      → (t.sent ≡ s.sent) × (t.done ≡ true) × (t.cipher_sess ≡ none) × (t.conn ≡ none)
  Acts-zeroize s live acts =
      let v =
        Acts-IsOver s.sent acts
          (record { torn = zeroize-IsTorn s live; same_sent = zeroize-sent s }) in
      (v.same_sent, v.torn.0, v.torn.1, v.torn.2)
