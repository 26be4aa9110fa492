-- ===== src/Tui/Lock.antt =====
-- internal/tui/tui.go: what the user can still send, and what `Update` asks of the network.
use road.Base.{ℕ, ◌≡◌, refl, List, [], ◌∷◌, Option, true, Bytes}
use road.Tui.{
  Ui, Model, Msg, window_size, key_msg, status_msg, incoming_text, incoming_file, file_progress,
  peer_disconnected, other_msg, ctrl_c, enter, page_up, page_down, other_key, quit,
}
use road.Tui.Update.{update, updates, press, press_enter, finish, show, resized, push}

module _ (ui : Ui) where
  -- The peer is gone, and nothing was sent since `queue`.
  pub record IsLocked (queue : Option (List Bytes)) (m : Model ui) : Type 0 where
    pub gone : m.disconnected ≡ true
    pub outgoing : m.outgoing ≡ queue

  press_enter-IsLocked :
      (queue : Option (List Bytes)) (m : Model ui) (now : ℕ)
      → IsLocked queue m
      → IsLocked queue (press_enter ui m now).0
  unfolding press_enter finish
  press_enter-IsLocked queue m now h = simp h.gone (record { gone = refl; outgoing = h.outgoing })

  update-IsLocked :
      (queue : Option (List Bytes)) (m : Model ui) (msg : Msg) (now : ℕ)
      → IsLocked queue m
      → IsLocked queue (update ui m msg now).0
  unfolding update finish show resized push press
  update-IsLocked queue m (window_size w k) now h = record { gone = h.gone; outgoing = h.outgoing }
  update-IsLocked queue m (key_msg ctrl_c) now h = simp h.gone h
  update-IsLocked queue m (key_msg enter) now h = press_enter-IsLocked queue m now h
  update-IsLocked queue m (key_msg page_up) now h = record { gone = h.gone; outgoing = h.outgoing }
  update-IsLocked queue m (key_msg page_down) now h = record {
    gone = h.gone;
    outgoing = h.outgoing;
  }
  update-IsLocked queue m (key_msg other_key) now h = record {
    gone = h.gone;
    outgoing = h.outgoing;
  }
  update-IsLocked queue m (status_msg text) now h = record { gone = h.gone; outgoing = h.outgoing }
  update-IsLocked queue m (incoming_text text) now h = record {
    gone = h.gone;
    outgoing = h.outgoing;
  }
  update-IsLocked queue m (incoming_file text meta) now h = record {
    gone = h.gone;
    outgoing = h.outgoing;
  }
  update-IsLocked queue m (file_progress status) now h = record {
    gone = h.gone;
    outgoing = h.outgoing;
  }
  update-IsLocked queue m peer_disconnected now h = record { gone = refl; outgoing = h.outgoing }
  update-IsLocked queue m other_msg now h = record { gone = h.gone; outgoing = h.outgoing }

  updates-IsLocked :
      (queue : Option (List Bytes)) (m : Model ui) (msgs : List (Msg × ℕ))
      → IsLocked queue m
      → IsLocked queue (updates ui m msgs)
  unfolding updates
  updates-IsLocked queue m [] h = h
  updates-IsLocked queue m ((msg, now) ∷ rest) h =
      updates-IsLocked queue (update ui m msg now).0 rest (update-IsLocked queue m msg now h)

  -- When the peer has disconnected, the program is told to quit and the input is locked: whatever
  -- else comes before it ends, keys included, adds nothing to what the network is to send, and the
  -- interface stays disconnected.
  pub updates-peer_disconnected :
      (m : Model ui) (now : ℕ) (msgs : List (Msg × ℕ))
      → let (gone, cmd) = update ui m peer_disconnected now in
        (cmd ≡ quit)
        × ((updates ui gone msgs).outgoing ≡ m.outgoing)
        × ((updates ui gone msgs).disconnected ≡ true)
  unfolding update show push
  updates-peer_disconnected m now msgs =
      let locked =
        updates-IsLocked m.outgoing (update ui m peer_disconnected now).0 msgs
          (record { gone = refl; outgoing = refl }) in
      (refl, locked.outgoing, locked.gone)
