-- ===== src/Client/Outgoing.antt =====
-- internal/client/client.go: `sendLoop`, `pingLoop` and `sendFile`, round by round, and where a
-- received file is put. Paths are those of systems other than Windows.
pub mod Pieces
pub mod Header
pub mod SendFile
pub mod Sent
pub mod WholeFile
pub mod Paths
pub mod Lines
use road.Base.{
  ℕ, ◌+◌, ◌-◌, ◌/◌, ◌%◌, ◌^◌, List, [], ◌∷◌, ◌++◌, Option, none, some, Bool, true, false, not, ◌==◌,
  ◌||◌, ltb, if◌then◌else◌, Result, ok, err, Bytes, codes, bytes_eq, length, drop, take, uint32_at,
  reverse, map,
}
use road.Protocol.{
  FileHeaderPayload, build_message, build_file_chunk, encode_file_header, chunk_size, type_message,
  type_file_header, type_ping, type_disconnect,
}
use road.Crypto.Cipher.{Aead, Random}
use road.Client.{
  Session, SendError, emit, incoming_text, incoming_file, file_progress, progress_cleared,
  peer_disconnected, open_file, stat_file, encode_header, send_header, chunk_aborted, read_file,
  send_error, sending, file_sent, kilobytes_sent, send_packet, send_chunk_fragmented, zeroize,
}

-- How reading a file comes to its end.
pub data ReadEnd : Type 0 where
  at_eof : ReadEnd
  read_error : ReadEnd

-- The file that `os.Open` and `f.Stat` find: its size, what each `Read` gives, and how that ends.
pub data OpenFile : Type 0 where
  not_opened : OpenFile
  no_stat : OpenFile
  opened : ℕ → List Bytes → ReadEnd → OpenFile

abbrev pub is_slash : ℕ → Bool
is_slash c = c == 47

unfoldable pub drop_slashes : Bytes → Bytes
drop_slashes [] = []
drop_slashes (c ∷ cs) = let rest = drop_slashes cs in if is_slash c then rest else c ∷ cs

unfoldable pub to_slash : Bytes → Bytes
to_slash [] = []
to_slash (c ∷ cs) = let rest = to_slash cs in if is_slash c then [] else c ∷ rest

-- `filepath.Base`: the last element, without slashes at the end.
unfoldable pub base : Bytes → Bytes
unfolding drop_slashes to_slash
base [] = codes "."
base (c ∷ cs) =
    let last = reverse (to_slash (drop_slashes (reverse (c ∷ cs)))) in
    if bytes_eq last [] then codes "/" else last

-- The source computes this in int64, which the sum would leave for a size near 2^63.
unfoldable pub total_chunks_of : ℕ → ℕ
total_chunks_of size = if ltb 0 size then (size + chunk_size - 1) / chunk_size % 2 ^ 32 else 1

-- The random identifier, or the clock's when the random source fails.
unfoldable pub file_id_of : Option Bytes → ℕ → ℕ
file_id_of none now = now % 2 ^ 32
file_id_of (some bs) now = uint32_at bs 0

unfoldable pub header_for : Bytes → ℕ → ℕ → FileHeaderPayload
header_for path size id = record {
  filename = base path;
  total_size = size % 2 ^ 64;
  total_chunks = total_chunks_of (size % 2 ^ 64);
  file_id = id;
}

module _ (c : Aead) (r : Random) (percent : ℕ → ℕ → ℕ) where
  -- The loop over what is read. The flag says that the end of the file was reached.
  unfoldable pub send_pieces :
      Session → r.Source → FileHeaderPayload → ℕ → List Bytes → ReadEnd → Bool × Session × r.Source
  send_pieces s rand fh index [] at_eof = (true, s, rand)
  send_pieces s rand fh index [] read_error = (false, emit s (incoming_text read_file), rand)
  send_pieces s rand fh index ([] ∷ pieces) end = send_pieces s rand fh index pieces end
  send_pieces s rand fh index ((b ∷ bs) ∷ pieces) end =
      let (result, s1, rand1) = send_chunk_fragmented c r s rand fh.file_id index (b ∷ bs) in
      elim result [
        | err e ↦ (false, emit s1 (incoming_text (chunk_aborted index e)), rand1)
        | ok u ↦
            let next = (index + 1) % 2 ^ 32 in
            let pct = percent next fh.total_chunks in
            send_pieces (emit s1 (file_progress fh.filename pct)) rand1 fh next pieces end
      ]

  -- A file of no bytes is one empty chunk.
  unfoldable pub send_empty : Session → r.Source → FileHeaderPayload → Session × r.Source
  send_empty s rand fh =
      let (result, s1, rand1) = send_packet c r s rand (build_file_chunk fh.file_id 0 []) in
      (emit s1 (incoming_file fh.filename file_sent), rand1)

  unfoldable pub send_whole :
      Session → r.Source → FileHeaderPayload → List Bytes → ReadEnd → Session × r.Source
  unfolding send_pieces
  send_whole s rand fh pieces end =
      let (done, s1, rand1) = send_pieces s rand fh 0 pieces end in
      let told =
        emit (emit s1 progress_cleared)
          (incoming_file fh.filename (kilobytes_sent (fh.total_size / 1024))) in
      (if done then told else s1, rand1)

  -- After the header was sent.
  unfoldable pub send_body :
      Session → r.Source → FileHeaderPayload → List Bytes → ReadEnd → Session × r.Source
  unfolding send_empty send_whole
  send_body s0 rand fh pieces end =
      let s = emit s0 (incoming_file fh.filename sending) in
      if fh.total_size == 0 then send_empty s rand fh else send_whole s rand fh pieces end

  unfoldable pub send_header_of :
      Session → r.Source → FileHeaderPayload → List Bytes → ReadEnd → Session × r.Source
  unfolding send_body
  send_header_of s rand fh pieces end = elim (encode_file_header fh) [
    | err e ↦ (emit s (incoming_text (encode_header e)), rand)
    | ok header ↦
        let (result, s1, rand1) = send_packet c r s rand (build_message type_file_header header) in
        elim result [
          | err e ↦ (emit s1 (incoming_text (send_header e)), rand1)
          | ok u ↦ send_body s1 rand1 fh pieces end
        ]
  ]

  -- `now` is the clock.
  unfoldable pub send_file : Session → r.Source → Bytes → OpenFile → ℕ → Session × r.Source
  unfolding send_header_of
  send_file s rand path not_opened now = (emit s (incoming_text open_file), rand)
  send_file s rand path no_stat now = (emit s (incoming_text stat_file), rand)
  send_file s rand path (opened size pieces end) now =
      let (id, rand1) = r.read_full rand 4 in
      send_header_of s rand1 (header_for path size (file_id_of id now)) pieces end

  unfoldable pub send_exit : Session → r.Source → Session × r.Source
  send_exit s rand =
      let (result, s1, rand1) = send_packet c r s rand (build_message type_disconnect []) in
      (zeroize (emit s1 peer_disconnected), rand1)

  unfoldable pub send_text : Session → r.Source → Bytes → Session × r.Source
  send_text s rand line =
      let (result, s1, rand1) = send_packet c r s rand (build_message type_message line) in
      elim result [ err e ↦ (emit s1 (incoming_text (send_error e)), rand1) | ok u ↦ (s1, rand1) ]

  -- What a round of `sendLoop` does with a line. The path is one of a file that a new goroutine is to
  -- send; `trim` is `strings.TrimSpace`.
  unfoldable pub send_line :
      (Bytes → Bytes) → Session → r.Source → Bytes → Option Bytes × (Session × r.Source)
  unfolding send_exit send_text
  send_line trim s rand line =
      if bytes_eq line (codes "/exit")
      then (none, send_exit s rand)
      else if bytes_eq (take 6 line) (codes "/file ")
      then (some (trim (drop 6 line)), (s, rand))
      else (none, send_text s rand line)

  -- A tick of `pingLoop`, and whether the loop goes on.
  unfoldable pub ping : Session → r.Source → Bool × Session × r.Source
  ping s rand =
      let (result, s1, rand1) = send_packet c r s rand (build_message type_ping []) in
      elim result [ err e ↦ (false, s1, rand1) | ok u ↦ (true, s1, rand1) ]

unfoldable pub is_unusable : Bytes → Bool
is_unusable name =
    bytes_eq name (codes ".")
    || (bytes_eq name (codes "/") || (bytes_eq name (codes "\\") || bytes_eq name []))

unfoldable pub safe_name : Bytes → Bytes
safe_name name = if is_unusable name then codes "unnamed_file" else name

-- `none` where the home or the directory is not there. `filepath.Join` resolves "..".
-- The home is a clean path other than the root, as `filepath.Join` would make it.
unfoldable pub get_save_path : Option Bytes → Bool → Bytes → Option Bytes
get_save_path none made filename = none
get_save_path (some home) made filename =
    if not made
    then none
    else if bytes_eq (safe_name (base filename)) (codes "..")
    then some (home ++ codes "/Downloads")
    else some (home ++ (codes "/Downloads/road-1337/" ++ safe_name (base filename)))
