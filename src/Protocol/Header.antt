-- ===== src/Protocol/Header.antt =====
-- internal/protocol/protocol.go: the nine-byte header of every encrypted payload.
use road.Base.{
  ℕ, ◌+◌, ◌*◌, ◌^◌, ◌<◌, ◌≡◌, refl, ap, sym, ◌∙◌, arith, [], ◌∷◌, ◌++◌, ok, err, Bytes, IsBytes,
  length, replicate, length-append, length-replicate, copy_at_two, ◌⊎◌, inl, inr, be32, uint32_at,
}
use mathlib.Core.List.{append-nil}
use road.Protocol.{
  WireHeader, HeaderFits, header_too_short, encode, decode_header, join_header, build_message,
  build_file_chunk, build_file_eof, type_file_chunk, type_file_eof,
}

pub length-encode : (h : WireHeader) → length (encode h) ≡ 9
unfolding encode
length-encode h = refl

-- Decoding what `encode` wrote gives the header back, and leaves the bytes that follow.
pub decode_header-encode :
    (h : WireHeader) (body : Bytes) → HeaderFits h → decode_header (encode h ++ body) ≡ ok (h, body)
unfolding encode decode_header
decode_header-encode h body fits = ground arith

be32-uint32 :
    (a b c d : ℕ)
    → IsBytes (a ∷ b ∷ c ∷ d ∷ [])
    → be32 ((a * 2 ^ 8 + b) * 2 ^ 16 + (c * 2 ^ 8 + d)) ≡ a ∷ b ∷ c ∷ d ∷ []
be32-uint32 a b c d h = ground arith

-- A payload shorter than the header is refused; any other payload of bytes is split into a header
-- in the range of its fields and the rest, and encoding that header gives the payload back.
pub decode_header_cases :
    (payload : Bytes)
    → IsBytes payload
    → ((length payload < 9) × (decode_header payload ≡ err (header_too_short (length payload) 9)))
      ⊎ ((h : WireHeader) × (body : Bytes) × (decode_header payload ≡ ok (h, body))
          × HeaderFits h
          × (encode h ++ body ≡ payload))
unfolding decode_header encode
decode_header_cases (t ∷ a ∷ b ∷ c ∷ d ∷ e ∷ f ∷ g ∷ k ∷ rest) h = inr (
  record {
    packet_type = t;
    chunk_index = uint32_at (a ∷ b ∷ c ∷ d ∷ []) 0;
    file_id = uint32_at (e ∷ f ∷ g ∷ k ∷ []) 0;
  },
  rest,
  ground arith,
  omega arith,
  λ i. t ∷ (be32-uint32 a b c d (omega arith) i ++ (be32-uint32 e f g k (omega arith) i ++ rest)),
)
decode_header_cases p h = inl (omega arith, ground arith)

join_header_lem : (h : WireHeader) (body : Bytes) → join_header h body ≡ encode h ++ body
unfolding join_header
join_header_lem h body =
    copy_at_two (replicate (length (encode h) + length body) 0) (encode h) body refl
      (length-replicate (length (encode h) + length body) 0)

-- What the three builders write: the header, then the data unchanged.
pub build_message_lem :
    (ptype : ℕ) (body : Bytes)
    → build_message ptype body
      ≡ encode (record { packet_type = ptype; chunk_index = 0; file_id = 0 }) ++ body
unfolding build_message
build_message_lem ptype body = join_header_lem _ body

pub build_file_chunk_lem :
    (id index : ℕ) (body : Bytes)
    → build_file_chunk id index body
      ≡ encode (record { packet_type = type_file_chunk; chunk_index = index; file_id = id }) ++ body
unfolding build_file_chunk
build_file_chunk_lem id index body = join_header_lem _ body

pub length-build_message :
    (ptype : ℕ) (body : Bytes) → length (build_message ptype body) ≡ 9 + length body
length-build_message ptype body =
    rw (build_message_lem, length-append) (omega (arith, length-encode _))

pub length-build_file_chunk :
    (id index : ℕ) (body : Bytes) → length (build_file_chunk id index body) ≡ 9 + length body
length-build_file_chunk id index body =
    rw (build_file_chunk_lem, length-append) (omega (arith, length-encode _))

-- A message is read back with its type and its whole data, and with no file context.
pub decode_header-build_message :
    (ptype : ℕ) (body : Bytes)
    → ptype < 256
    → decode_header (build_message ptype body)
      ≡ ok (record { packet_type = ptype; chunk_index = 0; file_id = 0 }, body)
decode_header-build_message ptype body h =
    rw build_message_lem (decode_header-encode _ body (omega arith))

-- A chunk is read back as a chunk, with its transfer, its number and its data; so it is for every
-- data, the empty one too: no call of `build_file_chunk` makes an end-of-file packet.
pub decode_header-build_file_chunk :
    (id index : ℕ) (body : Bytes)
    → id < 2 ^ 32
    → index < 2 ^ 32
    → decode_header (build_file_chunk id index body)
      ≡ ok (record { packet_type = type_file_chunk; chunk_index = index; file_id = id }, body)
decode_header-build_file_chunk id index body h k =
    rw build_file_chunk_lem (decode_header-encode _ body (omega arith))

-- An end-of-file packet is read back with its transfer and no data.
pub decode_header-build_file_eof :
    (id : ℕ)
    → id < 2 ^ 32
    → decode_header (build_file_eof id)
      ≡ ok (record { packet_type = type_file_eof; chunk_index = 0; file_id = id }, [])
unfolding build_file_eof
decode_header-build_file_eof id h =
    ap decode_header (sym (append-nil _)) ∙ decode_header-encode _ [] (omega arith)
