-- ===== src/Client/Events.antt =====
-- internal/client/client.go: the messages for the terminal interface that the session's events are. The
-- text of an error, and what counts the characters of a text, are parameters.
use road.Base.{ℕ, ◌++◌, [], Bytes, codes, utf8, decimal}
use road.Client.{
  Notice, AbortReason, Meta, Event, text, abort, invalid_file_header, resolve_save_path,
  create_file, oversized_chunk, disk_write, decryption_failed, open_file, stat_file, encode_header,
  send_header, chunk_aborted, read_file, send_error, ecdh_failed, cipher_init_failed, dial_failed,
  handshake_failed, receiving, saved, sending, file_sent, kilobytes_sent, incoming_text,
  incoming_file, file_progress, progress_cleared, peer_disconnected, status,
}
use road.Tui
use road.Tui.{Msg}
use road.Tui.Progress.{render_progress, pos}

module _ (error : Notice → Bytes) where
  abort_text : AbortReason → Bytes
  abort_text (ecdh_failed e) = codes "ECDH failed: " ++ error (abort (ecdh_failed e))
  abort_text (cipher_init_failed e) =
      codes "cipher init failed: " ++ error (abort (cipher_init_failed e))
  abort_text dial_failed = codes "dial failed: " ++ error (abort dial_failed)
  abort_text handshake_failed = codes "handshake failed: " ++ error (abort handshake_failed)

  unfoldable pub notice_text : Notice → Bytes
  unfolding abort_text
  notice_text (text words) = words
  notice_text (abort why) = utf8 "⚠  " ++ abort_text why
  notice_text invalid_file_header = utf8 "⚠  invalid file header"
  notice_text resolve_save_path = utf8 "⚠  resolve save path: " ++ error resolve_save_path
  notice_text create_file = utf8 "⚠  create file: " ++ error create_file
  notice_text (oversized_chunk size) =
      utf8 "⚠  oversized chunk (" ++ (decimal size ++ utf8 " B) — transfer aborted")
  notice_text disk_write = utf8 "⚠  disk write: " ++ error disk_write
  notice_text decryption_failed = utf8 "⚠  decryption failed — packet discarded"
  notice_text open_file = utf8 "⚠  open: " ++ error open_file
  notice_text stat_file = utf8 "⚠  stat: " ++ error stat_file
  notice_text (encode_header e) = utf8 "⚠  encode header: " ++ error (encode_header e)
  notice_text (send_header e) = utf8 "⚠  send header: " ++ error (send_header e)
  notice_text (chunk_aborted index e) =
      utf8 "⚠  chunk " ++ (decimal index ++ (codes " aborted: " ++ error (chunk_aborted index e)))
  notice_text read_file = utf8 "⚠  read file: " ++ error read_file
  notice_text (send_error e) = utf8 "⚠  send error: " ++ error (send_error e)

  meta_text : Meta → Bytes
  meta_text receiving = codes "Receiving..."
  meta_text (saved path) = utf8 "saved → " ++ (path ++ utf8 " ✓")
  meta_text sending = codes "Sending..."
  meta_text file_sent = utf8 "Sent ✓"
  meta_text (kilobytes_sent kilobytes) = decimal kilobytes ++ utf8 " KB sent ✓"

  unfoldable pub msg_of : (Bytes → ℕ) → Event → Msg
  unfolding notice_text meta_text
  msg_of rune_count (incoming_text notice) = Tui.incoming_text (notice_text notice)
  msg_of rune_count (incoming_file name meta) = Tui.incoming_file name (meta_text meta)
  msg_of rune_count (file_progress name percent) =
      Tui.file_progress (render_progress rune_count name (pos percent))
  msg_of rune_count progress_cleared = Tui.file_progress []
  msg_of rune_count peer_disconnected = Tui.peer_disconnected
  msg_of rune_count (status words) = Tui.status_msg words
