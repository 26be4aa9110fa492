-- ===== src/Client/Incoming/Transfer.antt =====
-- internal/client/client.go: a file on the receiving side, from its header to the last chunk.
use road.Base.{
  ℕ, ◌+◌, ◌%◌, ◌^◌, ◌≤◌, ◌<◌, ◌≡◌, refl, ap, ◌∙◌, List, [], ◌∷◌, ◌++◌, none, some, true, false,
  leb-true, leb-false, ==_refl, Bytes, nat_key, length, length-append, update, lookup,
  lookup-insert, lookup-delete, ltb-false, ltb-true, All, arith,
}
use mathlib.Core.List.{append_assoc, append-nil, flatten}
use road.Protocol.{FileHeaderPayload, chunk_size}
use road.Client.{Session, FileTransfer, File, close_file}
use road.Client.Incoming.{
  recv_file, created, append_chunk, add_chunk, all_written, write_chunk, append_file, finish_chunk,
}

-- The transfer `id` is open, and `got` is what its file holds so far.
pub record Receiving (s : Session) (id : ℕ) (total : ℕ) (file : ℕ) (got : Bytes) : Type 0 where
  pub transfer : FileTransfer
  pub found : lookup id s.transfers ≡ some transfer
  pub not_done : transfer.done ≡ false
  pub size : transfer.fh.total_size ≡ total
  pub handle : transfer.file ≡ file
  pub counted : transfer.received_bytes ≡ length got
  pub contents : (s.files file).contents ≡ got
  pub still_open : (s.files file).closed ≡ false

-- The transfer `id` is over: its file holds `got` and is closed.
pub record Complete (s : Session) (id : ℕ) (file : ℕ) (got : Bytes) : Type 0 where
  pub forgotten : lookup id s.transfers ≡ none
  pub contents : (s.files file).contents ≡ got
  pub is_closed : (s.files file).closed ≡ true

update_self {ℓ} : {A : Type ℓ} (f : ℕ → A) (i : ℕ) (a : A) → update f i a i ≡ a
update_self f i a = rw (==_refl i)

recv_file-Receiving :
    (s : Session) (fh : FileHeaderPayload) (path : Bytes)
    → Receiving (recv_file s fh (created path)) fh.file_id fh.total_size s.next_file []
unfolding recv_file
recv_file-Receiving s fh path = record {
  transfer = record {
    fh = fh;
    file = s.next_file;
    out_path = path;
    received_bytes = 0;
    done = false;
  };
  found = lookup-insert fh.file_id fh.file_id _ s.transfers ∙ rw (==_refl fh.file_id);
  not_done = refl;
  size = refl;
  handle = refl;
  counted = refl;
  contents = ap (λ f. f.contents) (update_self s.files s.next_file _);
  still_open = ap (λ f. f.closed) (update_self s.files s.next_file _);
}

append_file_self :
    (files : ℕ → File) (i : ℕ) (body : Bytes)
    → (files i).closed ≡ false
    → append_file files i body i ≡ record (files i) { contents = (files i).contents ++ body }
unfolding append_file
append_file_self files i body h = rw (h, ==_refl i)

-- `finish_chunk` on a transfer that is short of its size, and on one that has it.
module _ (percent : ℕ → ℕ → ℕ) (s : Session) (id file : ℕ) (ft : FileTransfer) (got : Bytes)
    (handle : ft.file ≡ file) (counted : ft.received_bytes ≡ length got)
    (contents : (s.files file).contents ≡ got) where
  finish_chunk-short :
      ft.done ≡ false
      → (s.files file).closed ≡ false
      → (total : ℕ) → ft.fh.total_size ≡ total
      → length got < total
      → Receiving (finish_chunk percent s id ft) id total file got
  unfolding finish_chunk
  finish_chunk-short nd op total e h =
      rw (counted, leb-false ft.fh.total_size (length got) (rw e h))
        (record {
          transfer = record ft { received_bytes = length got };
          found = lookup-insert id id _ s.transfers ∙ rw (==_refl id);
          not_done = nd;
          size = e;
          handle = handle;
          counted = refl;
          contents = contents;
          still_open = op;
        })

  finish_chunk-whole :
      ft.fh.total_size ≤ length got → Complete (finish_chunk percent s id ft) id file got
  unfolding finish_chunk close_file
  finish_chunk-whole h =
      rw (counted, leb-true ft.fh.total_size (length got) h)
        (record {
          forgotten = lookup-delete id id s.transfers ∙ rw (==_refl id);
          contents = rw (handle, ==_refl file) contents;
          is_closed = rw (handle, ==_refl file);
        })

module _ (percent : ℕ → ℕ → ℕ) (s : Session) (id total file : ℕ) (got body : Bytes)
    (x : Receiving s id total file got) (fits : length body ≤ chunk_size)
    (below : length got + length body < 2 ^ 64) where
  -- The session and the transfer after the write, before the test for completion.
  after_write : Session
  after_write = record s { files = append_file s.files x.transfer.file body }

  grown : FileTransfer
  grown = record x.transfer { received_bytes = (x.transfer.received_bytes + length body) % 2 ^ 64 }

  append_chunk-nonempty :
      0 < length body
      → append_chunk percent s id body all_written ≡ finish_chunk percent after_write id grown
  unfolding append_chunk add_chunk write_chunk after_write grown
  append_chunk-nonempty h = rw (
    x.found,
    append_chunk,
    x.not_done,
    ltb-false chunk_size (length body) fits,
    ltb-true 0 (length body) h,
  )

  -- The write and the count leave the transfer with its new contents.
  wrote : (after_write.files file).contents ≡ got ++ body
  unfolding after_write
  wrote = rw (x.handle, append_file_self s.files file body x.still_open, x.contents)

  wrote_open : (after_write.files file).closed ≡ false
  unfolding after_write
  wrote_open = rw (x.handle, append_file_self s.files file body x.still_open, x.still_open)

  grown_count : grown.received_bytes ≡ length (got ++ body)
  unfolding grown
  grown_count =
      let e : (length got + length body) % 2 ^ 64 ≡ length got + length body =
        omega (arith, below) in
      rw (x.counted, length-append got body) e

  append_chunk-Receiving :
      0 < length body
      → length got + length body < total
      → Receiving (append_chunk percent s id body all_written) id total file (got ++ body)
  append_chunk-Receiving nonempty h = rw (append_chunk-nonempty nonempty) (
      finish_chunk-short percent after_write id file grown (got ++ body) (unfold grown in x.handle)
        grown_count wrote (unfold grown in x.not_done) wrote_open total (unfold grown in x.size)
        (rw (length-append got body) h))

  append_chunk-Complete :
      0 < length body
      → total ≤ length got + length body
      → Complete (append_chunk percent s id body all_written) id file (got ++ body)
  append_chunk-Complete nonempty h =
      let q : grown.fh.total_size ≤ length (got ++ body) =
        unfold grown in rw (length-append got body, x.size) h in
      rw (append_chunk-nonempty nonempty) (
        finish_chunk-whole percent after_write id file grown (got ++ body)
          (unfold grown in x.handle) grown_count wrote q)

-- The chunks of one transfer, in the order they arrive, each written in full.
unfoldable pub append_chunks : (ℕ → ℕ → ℕ) → Session → ℕ → List Bytes → Session
append_chunks percent s id [] = s
append_chunks percent s id (body ∷ bodies) =
    append_chunks percent (append_chunk percent s id body all_written) id bodies

-- A chunk that carries something, and no more than the receiver takes.
abbrev pub IsBody : Bytes → Type 0
IsBody body = (0 < length body) × (length body ≤ chunk_size)

append_chunks-Complete :
    (percent : ℕ → ℕ → ℕ) (s : Session) (id total file : ℕ) (got b : Bytes) (bodies : List Bytes)
    → Receiving s id total file got
    → All IsBody (b ∷ bodies)
    → total ≡ length got + length (flatten (b ∷ bodies))
    → total < 2 ^ 64
    → Complete (append_chunks percent s id (b ∷ bodies)) id file (got ++ flatten (b ∷ bodies))
unfolding append_chunks flatten
append_chunks-Complete percent s id total file got b [] x ((pos, fits), _) whole small =
    let n : total ≡ length got + length b =
      whole ∙ ap (λ l. length got + l) (ap length (append-nil b)) in
    rw (append-nil b) (
      append_chunk-Complete percent s id total file got b x fits (omega (arith, n, small)) pos
        (omega (arith, n)))
append_chunks-Complete percent s id total file got b (c ∷ bodies) x ((pos, fits), rest) whole
      small =
    let more = flatten (c ∷ bodies) in
    let n = length-append b more in
    let m = length-append c (flatten bodies) in
    let p = rest.0.0 in
    rw (← append_assoc got b more) (
      append_chunks-Complete percent (append_chunk percent s id b all_written) id total file
        (got ++ b) c bodies
        (append_chunk-Receiving percent s id total file got b x fits
          (omega (arith, whole, n, small)) pos (omega (arith, whole, n, m, p)))
        rest (omega (arith, whole, n, length-append got b)) small)

-- A file arrives: the header creates the file, and chunks of at least a byte and at most 128 KB,
-- each written in full, bring as many bytes as the header announces (fewer than 2^64). Then the
-- file holds exactly the bytes of the chunks in order, it is closed, and the transfer is out of
-- the table.
pub append_chunks-recv_file :
    (percent : ℕ → ℕ → ℕ) (s : Session) (fh : FileHeaderPayload) (path b : Bytes)
    (bodies : List Bytes)
    → All IsBody (b ∷ bodies)
    → fh.total_size ≡ length (flatten (b ∷ bodies))
    → fh.total_size < 2 ^ 64
    → let s1 = append_chunks percent (recv_file s fh (created path)) fh.file_id (b ∷ bodies) in
      (lookup fh.file_id s1.transfers ≡ none)
      × ((s1.files s.next_file).contents ≡ flatten (b ∷ bodies))
      × ((s1.files s.next_file).closed ≡ true)
append_chunks-recv_file percent s fh path b bodies sizes whole small =
    let x =
      append_chunks-Complete percent (recv_file s fh (created path)) fh.file_id fh.total_size
        s.next_file [] b bodies (recv_file-Receiving s fh path) sizes (omega (arith, whole))
        small in
    (x.forgotten, x.contents, x.is_closed)
