-- ===== src/Client/Runs.antt =====
-- Runs of the client on small inputs.
use road.Client.{
  SendError, session_closed, store_connection, Session, FileTransfer, File, aead_key, zeroize,
  send_packet, send_chunk_fragmented,
}
use road.Client.Chunks.{SendsChunk, send_chunk_fragmented_cases}
use road.Client.Send.{own_fault}
use road.Client.Outgoing.{send_file, opened, at_eof, base, get_save_path}
use road.Client.Outgoing.SendFile.{IsTold}
use road.Client.Outgoing.WholeFile.{received_file, received_file-send_file}
use road.Client.Outgoing.Paths.{IsName, get_save_path_cases}
use road.Client.Outgoing.{send_line}
use road.Client.Outgoing.Lines.{send_line-message}
use road.Client.Send.{Addressed, Carries}
use road.Protocol.{build_message, type_message}
use road.Client
use road.Base.{
  length, All, IsBytes, ◌≢◌, Option, some, ◌⊎◌, ◌++◌, List, ℕ, ◌∷◌, [], ◌≡◌, refl, none, some,
  false, true, Bytes, codes, replicate, lookup, nat_key, make, arith,
}
use road.Protocol.{FileHeaderPayload}
use road.Crypto.Cipher
use road.Crypto.Standins.{clear_aead, counted, counted_read}
use road.Relay.{write_done, write_failed}
use road.Client.Incoming.{recv_file, created}
use road.Client.Incoming.Transfer.{append_chunks, append_chunks-recv_file}
use road.Client.Teardown.{zeroize_lem, zeroize-store_connection}

abbrev key : Bytes
key = replicate 32 7

abbrev no_files : ℕ → File
no_files i = record { path = []; contents = []; closed = true }

abbrev cipher : Cipher.Session
cipher = record { aead = some key; key = some key }

abbrev ready : Session
ready = record {
  peer_pub_key = replicate 32 9;
  peer_key_hash = replicate 32 5;
  conn = some 1;
  conn_closed = λ i. false;
  cipher_sess = some cipher;
  cleared_key = none;
  incoming = [];
  transfers = [];
  files = no_files;
  next_file = 3;
  sent = [];
  network = write_done ∷ write_done ∷ write_failed 7 ∷ [];
  done = false;
}

abbrev header : FileHeaderPayload
header = record { filename = codes "a.txt"; total_size = 5; total_chunks = 1; file_id = 77 }

append_chunks-recv_file_example :
    let s1 =
      append_chunks
        (λ a b. 0)
        (recv_file ready header (created (codes "/d/a.txt")))
        77
        ((1 ∷ 2 ∷ []) ∷ (3 ∷ 4 ∷ 5 ∷ []) ∷ []) in
    (lookup 77 s1.transfers ≡ none)
    × ((s1.files 3).contents ≡ 1 ∷ 2 ∷ 3 ∷ 4 ∷ 5 ∷ [])
    × ((s1.files 3).closed ≡ true)
unfolding mathlib.Core.List.flatten
append_chunks-recv_file_example =
    append_chunks-recv_file (λ a b. 0) ready header (codes "/d/a.txt") (1 ∷ 2 ∷ [])
      ((3 ∷ 4 ∷ 5 ∷ []) ∷ []) ((ground arith, ground arith), ((ground arith, ground arith), tt))
      refl (omega arith)

ready_key : aead_key ready ≡ some key
unfolding aead_key
ready_key = refl

send_chunk_fragmented_cases_example :
    let out = send_chunk_fragmented clear_aead counted ready 9 77 0 (replicate 5000 1) in
    SendsChunk clear_aead key ready 77 0 out.0 out.1 (replicate 5000 1)
send_chunk_fragmented_cases_example =
    send_chunk_fragmented_cases clear_aead counted key ready 9 77 0 (replicate 5000 1) refl
      ready_key refl

zeroize_lem_example :
    let s1 = zeroize ready in
    (s1.done ≡ true)
    × ((cs : Cipher.Session) (k : Bytes)
        → ready.cipher_sess ≡ some cs
        → cs.key ≡ some k
        → s1.cleared_key ≡ some (make (length k)))
    × (s1.cipher_sess ≡ none)
    × (s1.conn ≡ none)
    × (s1.peer_pub_key ≡ make 32)
    × (s1.transfers ≡ [])
    × ((id : ℕ) (ft : FileTransfer)
        → lookup id ready.transfers ≡ some ft
        → (s1.files ft.file).closed ≡ true)
    × ((i : ℕ) → ready.conn ≡ some i → s1.conn_closed i ≡ true)
    × (zeroize s1 ≡ s1)
zeroize_lem_example = zeroize_lem ready refl

zeroize-store_connection_example :
    let late = zeroize (store_connection (zeroize ready) 2 cipher) in
    (late.done ≡ true)
    × (late.cipher_sess ≡ some cipher)
    × (late.conn ≡ some 2)
    × (late.conn_closed 2 ≡ false)
zeroize-store_connection_example = zeroize-store_connection ready 2 cipher refl (λ e. ground arith)

abbrev five : Bytes
five = 1 ∷ 2 ∷ 3 ∷ 4 ∷ 5 ∷ []

counted-IsBytes : (bs : Bytes) → ◌≡◌ {A = Option Bytes} (counted_read 9 4).0 (some bs) → IsBytes bs
unfolding counted_read
counted-IsBytes bs e =
    let f : some (9 ∷ 9 ∷ 9 ∷ 9 ∷ []) ≡ some bs = e in
    let g : 9 ∷ 9 ∷ 9 ∷ 9 ∷ [] ≡ bs = cc in
    rw (← g) (omega arith, (omega arith, (omega arith, (omega arith, tt))))

received_file-send_file_example :
    let out =
      send_file clear_aead counted
        (λ a b. 0)
        ready
        9
        (codes "/tmp/a.txt")
        (opened 3 ((1 ∷ 2 ∷ []) ∷ (3 ∷ []) ∷ []) at_eof)
        0 in
    IsTold at_eof out.0
    ⊎ ((id : ℕ) × (header : Bytes) × (frames : List Bytes) × (out.0.sent
          ≡ ready.sent ++ (header ∷ frames))
        × All (Addressed (replicate 32 5)) (header ∷ frames)
        × (let t1 =
              received_file clear_aead counted
                (λ a b. 0)
                ready
                7
                (codes "/d/a.txt")
                header
                frames in
            (lookup id t1.transfers ≡ none)
            × ((t1.files 3).contents ≡ 1 ∷ 2 ∷ 3 ∷ [])
            × ((t1.files 3).closed ≡ true)))
unfolding mathlib.Core.List.flatten base
received_file-send_file_example =
    received_file-send_file clear_aead counted (λ a b. 0) key ready ready 9 7 (codes "/tmp/a.txt")
      (codes "/d/a.txt") 3 ((1 ∷ 2 ∷ []) ∷ (3 ∷ []) ∷ []) at_eof 0 counted-IsBytes refl ready_key
      refl ready_key (omega arith) refl (omega arith) (omega arith)

get_save_path_cases_example :
    ((base (codes "../a.txt") ≡ codes "..")
      × (get_save_path (some (codes "/home/a")) true (codes "../a.txt")
          ≡ some (codes "/home/a" ++ codes "/Downloads")))
    ⊎ ((name : Bytes) × (get_save_path (some (codes "/home/a")) true (codes "../a.txt")
          ≡ some (codes "/home/a" ++ (codes "/Downloads/road-1337/" ++ name)))
        × IsName name
        × (name ≢ codes "..")
        × (name ≢ codes ".")
        × (name ≢ []))
get_save_path_cases_example = get_save_path_cases (codes "/home/a") (codes "../a.txt")

send_line-message_example :
    let (path, out) = send_line clear_aead counted (λ a b. 0) (λ t. t) ready 4 (codes "hi") in
    let s1 = out.0 in
    (path ≡ none)
    × (((e : SendError) × (own_fault e ≡ false)
          × (s1.incoming ≡ ready.incoming ++ (Client.incoming_text (Client.send_error e) ∷ [])))
        ⊎ ((frame : Bytes) × (s1.sent ≡ ready.sent ++ (frame ∷ []))
            × Carries clear_aead key ready.peer_key_hash frame
                (build_message type_message (codes "hi"))
            × (s1.incoming ≡ ready.incoming)))
send_line-message_example =
    send_line-message clear_aead counted (λ a b. 0) (λ t. t) ready 4 key (codes "hi") refl ready_key
      refl refl refl (omega arith)
