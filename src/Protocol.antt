-- ===== src/Protocol.antt =====
-- internal/protocol/protocol.go: the binary frames. A byte slice and a string are lists of bytes,
-- and the fixed-size integers are numbers below a power of two.
pub mod Header
pub mod File
pub mod Handshake
mod Runs
use road.Base.{
  ℕ, ◌+◌, ◌*◌, ◌%◌, ◌^◌, ◌<◌, List, [], ◌∷◌, ltb, if◌then◌else◌, Result, ok, err, Bytes, length,
  IsByte, get_or, drop, slice, replicate, copy_at, be16, be32, be64, uint16_at, uint32_at,
  uint64_at,
}

abbrev pub version : ℕ
version = 1

-- The values of PacketType; the type itself is a byte, so any other value can arrive.
abbrev pub type_handshake : ℕ
type_handshake = 0x01

abbrev pub type_message : ℕ
type_message = 0x02

abbrev pub type_file_header : ℕ
type_file_header = 0x03

abbrev pub type_file_chunk : ℕ
type_file_chunk = 0x04

abbrev pub type_ping : ℕ
type_ping = 0x05

abbrev pub type_pong : ℕ
type_pong = 0x06

abbrev pub type_disconnect : ℕ
type_disconnect = 0x07

abbrev pub type_file_eof : ℕ
type_file_eof = 0x08

abbrev pub handshake_payload_size : ℕ
handshake_payload_size = 1 + 32 + 32

abbrev pub chunk_size : ℕ
chunk_size = 128 * 1024

abbrev pub header_size : ℕ
header_size = 1 + 4 + 4

pub data Error : Type 0 where
  header_too_short : ℕ → ℕ → Error
  filename_too_long : ℕ → Error
  file_header_too_short : ℕ → Error
  truncated_filename : Error
  handshake_too_short : ℕ → ℕ → Error

pub record WireHeader : Type 0 where
  pub packet_type : ℕ
  pub chunk_index : ℕ
  pub file_id : ℕ

unfoldable pub encode : WireHeader → Bytes
encode h =
    let buf = replicate header_size 0 in
    let buf1 = copy_at buf 0 (h.packet_type ∷ []) in
    let buf2 = copy_at buf1 1 (be32 h.chunk_index) in copy_at buf2 5 (be32 h.file_id)

unfoldable pub decode_header : Bytes → Result Error (WireHeader × Bytes)
decode_header payload =
    if ltb (length payload) header_size
    then err (header_too_short (length payload) header_size)
    else ok (
      record {
        packet_type = get_or payload 0 0;
        chunk_index = uint32_at payload 1;
        file_id = uint32_at payload 5;
      },
      drop header_size payload,
    )

-- `out := make([]byte, len(hdr)+len(data))` and the two copies into it.
join_header : WireHeader → Bytes → Bytes
join_header h body =
    let hdr = encode h in
    let out = replicate (length hdr + length body) 0 in
    copy_at (copy_at out 0 hdr) (length hdr) body

unfoldable pub build_message : ℕ → Bytes → Bytes
unfolding join_header
build_message ptype body =
    join_header (record { packet_type = ptype; chunk_index = 0; file_id = 0 }) body

unfoldable pub build_file_chunk : ℕ → ℕ → Bytes → Bytes
unfolding join_header
build_file_chunk id index body =
    join_header (record { packet_type = type_file_chunk; chunk_index = index; file_id = id }) body

unfoldable pub build_file_eof : ℕ → Bytes
build_file_eof id = encode (record { packet_type = type_file_eof; chunk_index = 0; file_id = id })

pub record FileHeaderPayload : Type 0 where
  pub filename : Bytes
  pub total_size : ℕ
  pub total_chunks : ℕ
  pub file_id : ℕ

unfoldable pub encode_file_header : FileHeaderPayload → Result Error Bytes
encode_file_header fh =
    let name = fh.filename in
    if ltb 255 (length name)
    then err (filename_too_long (length name))
    else let buf = replicate (18 + length name) 0 in
      let buf1 = copy_at buf 0 (be64 fh.total_size) in
      let buf2 = copy_at buf1 8 (be32 fh.total_chunks) in
      let buf3 = copy_at buf2 12 (be32 fh.file_id) in
      let buf4 = copy_at buf3 16 (be16 (length name % 2 ^ 16)) in ok (copy_at buf4 18 name)

unfoldable pub decode_file_header : Bytes → Result Error FileHeaderPayload
decode_file_header bytes =
    let name_len = uint16_at bytes 16 in
    if ltb (length bytes) 18
    then err (file_header_too_short (length bytes))
    else if ltb (length bytes) (18 + name_len)
    then err truncated_filename
    else ok (record {
      total_size = uint64_at bytes 0;
      total_chunks = uint32_at bytes 8;
      file_id = uint32_at bytes 12;
      filename = slice bytes 18 (18 + name_len);
    })

pub record HandshakePayload : Type 0 where
  pub version : ℕ
  pub sender_pub_key : Bytes
  pub recipient_key_hash : Bytes

unfoldable pub encode_handshake : HandshakePayload → Bytes
encode_handshake h =
    let buf = copy_at (replicate handshake_payload_size 0) 0 (h.version ∷ []) in
    copy_at (copy_at buf 1 h.sender_pub_key) 33 h.recipient_key_hash

unfoldable pub decode_handshake : Bytes → Result Error HandshakePayload
decode_handshake bytes =
    if ltb (length bytes) handshake_payload_size
    then err (handshake_too_short (length bytes) handshake_payload_size)
    else ok (record {
      version = get_or bytes 0 0;
      sender_pub_key = copy_at (replicate 32 0) 0 (slice bytes 1 33);
      recipient_key_hash = copy_at (replicate 32 0) 0 (slice bytes 33 65);
    })

-- The fields within the widths of their Go types.
pub record HeaderFits (h : WireHeader) : Type 0 where
  pub type_byte : IsByte h.packet_type
  pub index_32 : h.chunk_index < 2 ^ 32
  pub id_32 : h.file_id < 2 ^ 32

pub record FileHeaderFits (fh : FileHeaderPayload) : Type 0 where
  pub size_64 : fh.total_size < 2 ^ 64
  pub chunks_32 : fh.total_chunks < 2 ^ 32
  pub id_32 : fh.file_id < 2 ^ 32
