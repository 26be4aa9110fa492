-- ===== src/Client.antt =====
-- internal/client/client.go: the session's state, its teardown, and what it sends. The network, the
-- random source and the disk enter as outcomes; the events for the terminal are a list, latest last.
pub mod Incoming
pub mod Send
pub mod Chunks
pub mod Teardown
pub mod Connect
pub mod Terminal
pub mod Events
pub mod Goroutines
pub mod Races
pub mod Outgoing
mod Runs
use road.Base.{
  codes, ℕ, zero, suc, ◌+◌, ◌-◌, List, [], ◌∷◌, ◌++◌, Option, none, some, Bool, true, false, ltb,
  if◌then◌else◌, Result, ok, err, Bytes, nat_key, length, take, drop, make, copy_at, update, lookup,
  delete, min,
}
use road.Protocol
use road.Protocol.{
  FileHeaderPayload, build_message, build_file_chunk, type_disconnect, type_ping, header_size,
}
use road.Crypto.Cipher.{Aead, Random, seal, packet_size, max_plaintext_size}
use road.Crypto.Cipher
use road.Crypto.Keys
use road.Relay.{WriteOutcome, deadline_failed, write_failed, write_done}

abbrev pub outer_frame_size : ℕ
outer_frame_size = 32 + packet_size

-- Why `connect` gives up.
pub data AbortReason : Type 0 where
  ecdh_failed : Keys.Error → AbortReason
  cipher_init_failed : Cipher.Error → AbortReason
  dial_failed : AbortReason
  handshake_failed : AbortReason

pub data SendError : Type 0 where
  session_closed : SendError
  session_not_ready : SendError
  seal_failed : Cipher.Error → SendError
  set_write_deadline : SendError
  write_error : SendError
  -- No error of the source: a loop ran out of fuel.
  stuck : SendError

-- Texts that the source formats are constructors with what is put into them.
pub data Notice : Type 0 where
  text : Bytes → Notice
  abort : AbortReason → Notice
  invalid_file_header : Notice
  resolve_save_path : Notice
  create_file : Notice
  oversized_chunk : ℕ → Notice
  disk_write : Notice
  decryption_failed : Notice
  open_file : Notice
  stat_file : Notice
  encode_header : Protocol.Error → Notice
  send_header : SendError → Notice
  chunk_aborted : ℕ → SendError → Notice
  read_file : Notice
  send_error : SendError → Notice

pub data Meta : Type 0 where
  receiving : Meta
  saved : Bytes → Meta
  sending : Meta
  file_sent : Meta
  kilobytes_sent : ℕ → Meta

-- tea.Msg values that the session puts into `incoming`.
pub data Event : Type 0 where
  incoming_text : Notice → Event
  incoming_file : Bytes → Meta → Event
  file_progress : Bytes → ℕ → Event
  progress_cleared : Event
  peer_disconnected : Event
  status : Bytes → Event

pub record FileTransfer : Type 0 where
  pub fh : FileHeaderPayload
  -- The number of the open file.
  pub file : ℕ
  pub out_path : Bytes
  pub received_bytes : ℕ
  pub done : Bool

-- A file that was opened for writing.
pub record File : Type 0 where
  pub path : Bytes
  pub contents : Bytes
  pub closed : Bool

pub record Session : Type 0 where
  pub peer_pub_key : Bytes
  pub peer_key_hash : Bytes
  -- The number of the connection and the cipher session, or nil.
  pub conn : Option ℕ
  pub conn_closed : ℕ → Bool
  pub cipher_sess : Option Cipher.Session
  -- The key array of a cipher session that `Zeroize` found, as it left it.
  pub cleared_key : Option Bytes
  pub incoming : List Event
  pub transfers : List (ℕ × FileTransfer)
  pub files : ℕ → File
  -- The number of the next file that is opened.
  pub next_file : ℕ
  -- The frames that were written, and what the network does with the next ones.
  pub sent : List Bytes
  pub network : List WriteOutcome
  -- `doneOnce` has run, and `done` is closed.
  pub done : Bool

abbrev pub emit : Session → Event → Session
emit s e = record s { incoming = s.incoming ++ (e ∷ []) }

pub close_file : (ℕ → File) → ℕ → ℕ → File
close_file files i = update files i (record (files i) { closed = true })

pub close_files : (ℕ → File) → List (ℕ × FileTransfer) → ℕ → File
unfolding close_file
close_files files [] = files
close_files files ((id, ft) ∷ m) = close_files (close_file files ft.file) m

pub close_conn : Option ℕ → (ℕ → Bool) → ℕ → Bool
close_conn none closed = closed
close_conn (some i) closed = update closed i true

-- `s.cipherSess.Zeroize()`, where there is a cipher session.
pub clear_key : Option Cipher.Session → Option Bytes → Option Bytes
clear_key none before = before
clear_key (some cs) before = (Cipher.zeroize cs).0

-- Idempotent: the body runs once. The session keeps no pointer to the key array, which `cleared_key`
-- shows.
unfoldable pub zeroize : Session → Session
unfolding close_files close_conn clear_key
zeroize s = if s.done then s else record s {
  done = true;
  cleared_key = clear_key s.cipher_sess s.cleared_key;
  cipher_sess = none;
  conn = none;
  conn_closed = close_conn s.conn s.conn_closed;
  peer_pub_key = make (length s.peer_pub_key);
  files = close_files s.files s.transfers;
  transfers = [];
}

-- The end of `connect`: the connection state is stored, whatever happened in the meantime.
unfoldable pub store_connection : Session → ℕ → Cipher.Session → Session
store_connection s conn cs =
    emit (record s { conn = some conn; cipher_sess = some cs }) (status (codes "SECURE"))

unfoldable pub abort_with_msg : Session → AbortReason → Session
unfolding zeroize
abort_with_msg s why = zeroize (emit (emit s (incoming_text (abort why))) peer_disconnected)

-- A write on the connection. With no outcome left the network is gone.
unfoldable pub write_frame :
    Session → Bytes → List WriteOutcome → Result SendError (Unit {0}) × Session
write_frame s frame [] = (err write_error, s)
write_frame s frame (deadline_failed ∷ os) = (err set_write_deadline, record s { network = os })
write_frame s frame (write_failed n ∷ os) =
    (err write_error, record s { network = os; sent = s.sent ++ (take n frame ∷ []) })
write_frame s frame (write_done ∷ os) =
    (ok tt, record s { network = os; sent = s.sent ++ (frame ∷ []) })

unfoldable pub frame_of : Bytes → Bytes → Bytes
frame_of hash enc = copy_at (copy_at (make outer_frame_size) 0 hash) 32 enc

-- The key of a cipher session's AEAD instance, for a session that is ready to send.
pub aead_key : Session → Option Bytes
aead_key s = elim s.conn [
  | none ↦ none
  | some conn ↦ elim s.cipher_sess [ none ↦ none | some cs ↦ cs.aead ]
]

abbrev pub max_body : ℕ
max_body = max_plaintext_size - header_size

module _ (c : Aead) (r : Random) where
  unfoldable pub send_packet :
      Session → r.Source → Bytes → Result SendError (Unit {0}) × Session × r.Source
  unfolding write_frame frame_of aead_key
  send_packet s rand payload = if s.done then (err session_closed, s, rand) else elim (aead_key s) [
    | none ↦ (err session_not_ready, s, rand)
    | some key ↦
        let (sealed, rand1) = seal c r key payload rand in
        elim sealed [
          | err e ↦ (err (seal_failed e), s, rand1)
          | ok enc ↦
              let (result, s1) = write_frame s (frame_of s.peer_key_hash enc) s.network in
              (result, s1, rand1)
        ]
  ]

  -- `for len(data) > 0`: every round takes a byte at least, so `length body` rounds are enough.
  unfoldable pub send_fragments :
      ℕ → Session → r.Source → ℕ → ℕ → Bytes → Result SendError (Unit {0}) × Session × r.Source
  unfolding send_packet
  send_fragments fuel s rand id index [] = (ok tt, s, rand)
  send_fragments zero s rand id index (b ∷ bs) = (err stuck, s, rand)
  send_fragments (suc fuel) s rand id index (b ∷ bs) =
      let body = b ∷ bs in
      let end = min max_body (length body) in
      let (result, s1, rand1) = send_packet s rand (build_file_chunk id index (take end body)) in
      elim result [
        | err e ↦ (err e, s1, rand1)
        | ok u ↦ send_fragments fuel s1 rand1 id index (drop end body)
      ]

  unfoldable pub send_chunk_fragmented :
      Session → r.Source → ℕ → ℕ → Bytes → Result SendError (Unit {0}) × Session × r.Source
  unfolding send_fragments
  send_chunk_fragmented s rand id index body = send_fragments (length body) s rand id index body
