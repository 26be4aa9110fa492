-- ===== src/Client/Terminal.antt =====
-- internal/client/client.go: the model that `Run` starts the terminal interface with, and the key that it
-- shows for the peer.
use road.Base.{
  ℕ, [], ◌++◌, some, true, ltb, if◌then◌else◌, Bytes, codes, utf8, bytes_eq, length, take,
}
use road.Crypto.Base58.{encode_base58}
use road.Client.{Session}
use road.Tui.{Ui, Model}
use road.Tui.Update

unfoldable pub peer_display_key : Bytes → Bytes
peer_display_key pub_key =
    let enc = encode_base58 pub_key in
    if bytes_eq pub_key []
    then codes "unknown"
    else if ltb 24 (length enc)
    then take 24 enc ++ utf8 "…"
    else enc

-- The model that `Run` gives to Bubble Tea, over the session's two channels.
unfoldable pub first_model : (ui : Ui) → Session → ui.Textarea → ui.Viewport → ℕ → Model ui
unfolding peer_display_key
first_model ui s textarea viewport now =
    Update.new ui (peer_display_key s.peer_pub_key) (some []) true textarea viewport now
