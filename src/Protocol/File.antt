-- ===== src/Protocol/File.antt =====
-- internal/protocol/protocol.go, the metadata that opens a file transfer: TotalSize(8) TotalChunks(4) FileID(4) nameLen(2) name.
use road.Base.{
  copy_at_none, drop-drop, length-drop, false, Bool-cases, ltb, ltb→lt, ltb→le, ltb-false, ℕ, ◌+◌,
  ◌-◌, ◌%◌, ◌^◌, ◌≤◌, ◌<◌, ◌≡◌, refl, ap, sym, ◌∙◌, arith, ◌∷◌, ◌++◌, ok, err, Bytes, IsBytes,
  length, drop, take, replicate, copy_at, length-append, length-replicate, replicate-add,
  copy_at_full, ◌⊎◌, inl, inr, be16, be32, be64, uint16_at, uint32_at, uint64_at, take_append,
  take-append-drop, length-take,
}
use road.Protocol.{
  FileHeaderPayload, FileHeaderFits, filename_too_long, file_header_too_short, truncated_filename,
  encode_file_header, decode_file_header,
}

-- The bytes of a file header, written as one concatenation.
pub layout : FileHeaderPayload → Bytes
layout fh =
    be64 fh.total_size
    ++ (be32 fh.total_chunks ++ (be32 fh.file_id ++ (be16 (length fh.filename) ++ fh.filename)))

pub length-layout : (fh : FileHeaderPayload) → length (layout fh) ≡ 18 + length fh.filename
unfolding layout
length-layout fh = omega arith

-- The five writes of `encode_file_header` into its buffer.
write_fields : FileHeaderPayload → Bytes → Bytes
write_fields fh buf =
    copy_at
      (copy_at
        (copy_at (copy_at (copy_at buf 0 (be64 fh.total_size)) 8 (be32 fh.total_chunks)) 12
          (be32 fh.file_id))
        16 (be16 (length fh.filename % 2 ^ 16)))
      18 fh.filename

written : FileHeaderPayload → Bytes
unfolding write_fields
written fh = write_fields fh (replicate (18 + length fh.filename) 0)

written-layout : (fh : FileHeaderPayload) → length fh.filename ≤ 255 → written fh ≡ layout fh
unfolding written layout
written-layout fh h =
    let n = length fh.filename in
    let e : n % 2 ^ 16 ≡ n = omega arith in
    let front = λ (k : ℕ) (name : Bytes).
      be64 fh.total_size ++ (be32 fh.total_chunks ++ (be32 fh.file_id ++ (be16 k ++ name))) in
    ap (write_fields fh) (replicate-add 18 n 0)
    ∙ ap (λ b. front (n % 2 ^ 16) (copy_at b 0 fh.filename)) (copy_at_none (replicate n 0))
    ∙ ap (front (n % 2 ^ 16))
        (copy_at_full (replicate n 0) fh.filename (sym (length-replicate n 0)))
    ∙ ap (λ k. front k fh.filename) e

encode_file_header_short :
    (fh : FileHeaderPayload)
    → ltb 255 (length fh.filename) ≡ false
    → encode_file_header fh ≡ ok (written fh)
unfolding encode_file_header written
encode_file_header_short fh short = rw short

-- A name of at most 255 bytes is written in the documented layout; a longer one is refused.
pub encode_file_header_cases :
    (fh : FileHeaderPayload)
    → ((length fh.filename ≤ 255) × (encode_file_header fh ≡ ok (layout fh)))
      ⊎ ((255 < length fh.filename)
          × (encode_file_header fh ≡ err (filename_too_long (length fh.filename))))
encode_file_header_cases fh = elim (Bool-cases (ltb 255 (length fh.filename))) [
  | inl long ↦ inr (ltb→lt _ _ long, unfold encode_file_header in rw long)
  | inr short ↦ inl (
    ltb→le _ _ short,
    rw (encode_file_header_short fh short, written-layout fh (ltb→le _ _ short)),
  )
]

decode_file_header_long :
    (bytes : Bytes)
    → 18 + uint16_at bytes 16 ≤ length bytes
    → decode_file_header bytes
      ≡ ok (record {
        filename = take (uint16_at bytes 16) (drop 18 bytes);
        total_size = uint64_at bytes 0;
        total_chunks = uint32_at bytes 8;
        file_id = uint32_at bytes 12;
      })
unfolding decode_file_header
decode_file_header_long bytes h =
    let n = uint16_at bytes 16 in
    let e : 18 + n - 18 ≡ n = omega arith in
    rw (ltb-false (length bytes) 18 (omega arith), ltb-false (length bytes) (18 + n) h, e)

-- The header of a name of at most 255 bytes is read back, whatever follows it.
pub decode_file_header-layout :
    (fh : FileHeaderPayload) (rest : Bytes)
    → FileHeaderFits fh
    → length fh.filename ≤ 255
    → decode_file_header (layout fh ++ rest) ≡ ok fh
unfolding layout
decode_file_header-layout fh rest fits h =
    let e : uint16_at (layout fh ++ rest) 16 ≡ length fh.filename = omega arith in
    let es : uint64_at (layout fh ++ rest) 0 ≡ fh.total_size = omega arith in
    let ec : uint32_at (layout fh ++ rest) 8 ≡ fh.total_chunks = omega arith in
    let ei : uint32_at (layout fh ++ rest) 12 ≡ fh.file_id = omega arith in
    decode_file_header_long (layout fh ++ rest)
      (omega (arith, e, length-append {0} fh.filename rest))
    ∙ (λ i. ok (record {
      filename = (ap (λ n. take n (fh.filename ++ rest)) e ∙ take_append fh.filename rest _ refl) i;
      total_size = es i;
      total_chunks = ec i;
      file_id = ei i;
    }))

-- A header whose name has more than 255 bytes is refused, and any other within the ranges of its fields
-- is written in 18 bytes and those of the name, and is read back, whatever follows it.
pub decode_file_header-encode_file_header :
    (fh : FileHeaderPayload) (rest : Bytes)
    → FileHeaderFits fh
    → ((255 < length fh.filename)
        × (encode_file_header fh ≡ err (filename_too_long (length fh.filename))))
      ⊎ ((bytes : Bytes) × (encode_file_header fh ≡ ok bytes)
          × (length bytes ≡ 18 + length fh.filename)
          × (decode_file_header (bytes ++ rest) ≡ ok fh))
decode_file_header-encode_file_header fh rest fits = elim (encode_file_header_cases fh) [
  | inr refused ↦ inl refused
  | inl (short, e) ↦
      inr (layout fh, e, length-layout fh, decode_file_header-layout fh rest fits short)
]

fixed_part :
    (bytes : Bytes)
    → 18 ≤ length bytes
    → IsBytes bytes
    → be64 (uint64_at bytes 0)
        ++ (be32 (uint32_at bytes 8)
            ++ (be32 (uint32_at bytes 12) ++ (be16 (uint16_at bytes 16) ++ drop 18 bytes)))
      ≡ bytes
fixed_part (a ∷ b ∷ c ∷ d ∷ e ∷ f ∷ g ∷ h ∷ i ∷ j ∷ k ∷ l ∷ m ∷ n ∷ o ∷ p ∷ q ∷ r ∷ rest) long hb =
    ground arith
fixed_part bs long hb = absurd (omega arith)

fixed_part-Fits :
    (bytes name : Bytes)
    → 18 ≤ length bytes
    → IsBytes bytes
    → FileHeaderFits (record {
      filename = name;
      total_size = uint64_at bytes 0;
      total_chunks = uint32_at bytes 8;
      file_id = uint32_at bytes 12;
    })
fixed_part-Fits (a ∷ b ∷ c ∷ d ∷ e ∷ f ∷ g ∷ h ∷ i ∷ j ∷ k ∷ l ∷ m ∷ n ∷ o ∷ p ∷ q ∷ r ∷ rest) name
      long hb =
    omega arith
fixed_part-Fits bs name long hb = absurd (omega arith)

-- Decoding refuses what is shorter than the fixed part, and what is shorter than its own length field
-- asks for. Anything else it reads into a header within the ranges of its fields, whose layout is
-- the front of the input.
pub decode_file_header_cases :
    (bytes : Bytes)
    → IsBytes bytes
    → ((length bytes < 18)
        × (decode_file_header bytes ≡ err (file_header_too_short (length bytes))))
      ⊎ ((18 ≤ length bytes)
          × (length bytes < 18 + uint16_at bytes 16)
          × (decode_file_header bytes ≡ err truncated_filename))
      ⊎ ((fh : FileHeaderPayload) × (decode_file_header bytes ≡ ok fh)
          × FileHeaderFits fh
          × (layout fh ++ drop (18 + length fh.filename) bytes ≡ bytes))
decode_file_header_cases bytes hb = elim (Bool-cases (ltb (length bytes) 18)) [
  | inl short ↦ inl (ltb→lt _ _ short, unfold decode_file_header in rw short)
  | inr long ↦ elim (Bool-cases (ltb (length bytes) (18 + uint16_at bytes 16))) [
    | inl cut ↦
        inr (inl (ltb→le _ _ long, ltb→lt _ _ cut, unfold decode_file_header in rw (long, cut)))
    | inr whole ↦
        let b18 : 18 ≤ length bytes = ltb→le _ _ long in
        let t = drop 18 bytes in
        let n = uint16_at bytes 16 in
        let k : length (take n t) ≡ n =
          omega (arith, ltb→le _ _ whole, length-take n t, length-drop 18 bytes) in
        let front = λ (l : ℕ) (rest : Bytes).
          be64 (uint64_at bytes 0)
          ++ (be32 (uint32_at bytes 8) ++ (be32 (uint32_at bytes 12) ++ (be16 l ++ rest))) in
        inr (
          inr (
            _,
            decode_file_header_long bytes (ltb→le _ _ whole),
            fixed_part-Fits bytes (take n t) b18 hb,
            unfold layout in
                ((λ i. front (k i) (take n t ++ drop (18 + k i) bytes))
                  ∙ ap (λ d. front n (take n t ++ d)) (drop-drop 18 n bytes)
                  ∙ ap (front n) (take-append-drop n t)
                  ∙ fixed_part bytes b18 hb),
          ))
  ]
]
