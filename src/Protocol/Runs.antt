-- ===== src/Protocol/Runs.antt =====
-- The frames at concrete inputs.
use road.Base.{
  ◌≡◌, refl, arith, [], ◌∷◌, ◌++◌, ok, err, codes, replicate, length, ◌<◌, ◌≤◌, ◌⊎◌, drop, take,
  uint16_at, ◌+◌, Bytes,
}
use road.Protocol.{
  WireHeader, FileHeaderPayload, HandshakePayload, FileHeaderFits, file_header_too_short,
  truncated_filename, handshake_too_short, filename_too_long, encode, encode_file_header,
  decode_file_header, encode_handshake, decode_handshake,
}
use road.Protocol.File.{layout, decode_file_header-encode_file_header, decode_file_header_cases}
use road.Protocol.Handshake.{IsSized, decode_handshake_cases}

abbrev chunk_header : WireHeader
chunk_header = record { packet_type = 4; chunk_index = 258; file_id = 0xdead_beef }

encode_run : encode chunk_header ≡ 4 ∷ 0 ∷ 0 ∷ 1 ∷ 2 ∷ 0xde ∷ 0xad ∷ 0xbe ∷ 0xef ∷ []
unfolding encode
encode_run = refl

abbrev photo : FileHeaderPayload
photo = record { filename = codes "a.jpg"; total_size = 70_000; total_chunks = 1; file_id = 7 }

encode_file_header_run :
    encode_file_header photo
    ≡ ok (0 ∷ 0 ∷ 0 ∷ 0 ∷ 0 ∷ 1 ∷ 17 ∷ 112 ∷ 0 ∷ 0 ∷ 0 ∷ 1 ∷ 0 ∷ 0 ∷ 0 ∷ 7 ∷ 0 ∷ 5 ∷ codes "a.jpg")
unfolding encode_file_header
encode_file_header_run = refl

decode_file_header_run :
    decode_file_header (replicate 17 0 ++ (9 ∷ 65 ∷ [])) ≡ err truncated_filename
unfolding decode_file_header
decode_file_header_run = refl

abbrev hello : HandshakePayload
hello = record { version = 1; sender_pub_key = replicate 32 5; recipient_key_hash = replicate 32 6 }

abbrev short_payload : Bytes
short_payload = 2 ∷ 0 ∷ 0 ∷ []

decode_file_header-encode_file_header_example :
    ((255 < length photo.filename)
      × (encode_file_header photo ≡ err (filename_too_long (length photo.filename))))
    ⊎ ((bytes : Bytes) × (encode_file_header photo ≡ ok bytes)
        × (length bytes ≡ 18 + length photo.filename)
        × (decode_file_header (bytes ++ (1 ∷ [])) ≡ ok photo))
decode_file_header-encode_file_header_example =
    decode_file_header-encode_file_header photo (1 ∷ []) (omega arith)

abbrev cut_header : Bytes
cut_header = replicate 17 0 ++ (9 ∷ 65 ∷ [])

decode_file_header_cases_example :
    ((length cut_header < 18)
      × (decode_file_header cut_header ≡ err (file_header_too_short (length cut_header))))
    ⊎ ((18 ≤ length cut_header)
        × (length cut_header < 18 + uint16_at cut_header 16)
        × (decode_file_header cut_header ≡ err truncated_filename))
    ⊎ ((fh : FileHeaderPayload) × (decode_file_header cut_header ≡ ok fh)
        × FileHeaderFits fh
        × (layout fh ++ drop (18 + length fh.filename) cut_header ≡ cut_header))
decode_file_header_cases_example = decode_file_header_cases cut_header (omega arith)

decode_handshake_cases_example :
    ((length short_payload < 65)
      × (decode_handshake short_payload ≡ err (handshake_too_short (length short_payload) 65)))
    ⊎ ((h : HandshakePayload) × (decode_handshake short_payload ≡ ok h)
        × IsSized h
        × (encode_handshake h ≡ take 65 short_payload))
decode_handshake_cases_example = decode_handshake_cases short_payload
