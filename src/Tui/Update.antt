-- ===== src/Tui/Update.antt =====
-- internal/tui/tui.go: `New` and `Update`. Sending on a full channel waits in the source; here it is
-- the send that follows the wait.
use road.Base.{
  utf8, has_prefix, ℕ, ◌-◌, List, [], ◌∷◌, ◌++◌, Option, none, some, Bool, true, false, ltb,
  if◌then◌else◌, Bytes, codes, bytes_eq, length, drop,
}
use road.Tui.{
  Ui, Model, Msg, Key, Cmd, ChatMessage, window_size, key_msg, status_msg, incoming_text,
  incoming_file, file_progress, peer_disconnected, other_msg, ctrl_c, enter, page_up, page_down,
  other_key, quit, no_cmd, batch, kind_sent, kind_received, kind_system, kind_file, push_message,
  render_history, outgoing_capacity,
}

abbrev pub exit : Bytes
exit = codes "/exit"

abbrev pub at_least : ℕ → ℕ → ℕ
at_least bound n = if ltb n bound then bound else n

-- A `select` that sends, or takes its default.
unfoldable pub try_send : Option (List Bytes) → Bytes → Option (List Bytes) × Bool
try_send none text = (none, true)
try_send (some queue) text =
    if ltb (length queue) outgoing_capacity
    then (some (queue ++ (text ∷ [])), true)
    else (some queue, false)

unfoldable pub send : Option (List Bytes) → Bytes → Option (List Bytes)
send none text = none
send (some queue) text = some (queue ++ (text ∷ []))

unfoldable pub queue_full : ℕ → ChatMessage
queue_full now = record {
  kind = kind_system;
  text = utf8 "⚠ send queue full — try again";
  meta = [];
  timestamp = now;
}

unfoldable pub own_message : Bytes → ℕ → ChatMessage
unfolding has_prefix
own_message text now =
    if has_prefix (codes "/file ") text
    then record { kind = kind_file; text = drop 6 text; meta = codes "Sending..."; timestamp = now }
    else record { kind = kind_sent; text = text; meta = []; timestamp = now }

module _ (ui : Ui) where
  -- `m.viewport.SetContent(m.renderHistory())` and `GotoBottom`.
  unfoldable pub show : Model ui → Model ui
  show m = record m { viewport = ui.goto_bottom (ui.set_content m.viewport (render_history ui m)) }

  unfoldable pub push : Model ui → ChatMessage → Model ui
  unfolding push_message
  push m msg = record m { history = push_message m.history msg }

  unfoldable pub resized : Model ui → ℕ → ℕ → Model ui
  unfolding show
  resized m w h =
      let vp_w = at_least 20 (w - 4) in
      let vp_h = at_least 3 (h - 8) in
      show (record m {
        width = w;
        height = h;
        viewport = if m.ready then ui.resize m.viewport vp_w vp_h else ui.new_viewport vp_w vp_h;
        ready = true;
        textarea = ui.set_width m.textarea (vp_w - 2);
      })

  -- The end of `Update`: the widgets see the message too.
  unfoldable pub finish : Model ui → Msg → Bool → Model ui × Cmd
  finish m msg listen = (
    record m {
      textarea = ui.update_textarea m.textarea msg;
      viewport = ui.update_viewport m.viewport msg;
    },
    batch listen,
  )

  -- The text goes to the network, or a full channel is reported.
  unfoldable pub relay_text : Model ui → Bytes → ℕ → Model ui
  unfolding try_send push
  relay_text m text now =
      let (outgoing, sent) = try_send m.outgoing text in
      let m1 = record m { outgoing = outgoing } in if sent then m1 else push m1 (queue_full now)

  -- A text that is neither empty nor a command of the interface.
  unfoldable pub submit : Model ui → Bytes → ℕ → Model ui
  unfolding relay_text own_message show
  submit m text now = show (push (relay_text m text now) (own_message text now))

  unfoldable pub press_enter : Model ui → ℕ → Model ui × Cmd
  unfolding finish submit send
  press_enter m now =
      let msg = key_msg enter in
      let text = ui.trim_space (ui.value m.textarea) in
      if m.disconnected
      then finish m msg false
      else if bytes_eq text []
      then finish m msg false
      else (let m1 = record m { textarea = ui.reset m.textarea } in
          if bytes_eq text exit
          then (record m1 { outgoing = send m.outgoing exit }, quit)
          else if bytes_eq text (codes "/clear")
          then (record m1 { history = []; viewport = ui.set_content m1.viewport [] }, no_cmd)
          else finish (submit m1 text now) msg false)

  unfoldable pub press : Model ui → Key → ℕ → Model ui × Cmd
  unfolding press_enter
  press m ctrl_c now =
      (if m.disconnected then m else record m { outgoing = (try_send m.outgoing exit).0 }, quit)
  press m enter now = press_enter m now
  press m page_up now =
      finish (record m { viewport = ui.half_page_up m.viewport }) (key_msg page_up) false
  press m page_down now =
      finish (record m { viewport = ui.half_page_down m.viewport }) (key_msg page_down) false
  press m other_key now = finish m (key_msg other_key) false

  unfoldable pub update : Model ui → Msg → ℕ → Model ui × Cmd
  unfolding resized press
  update m (window_size w h) now = finish (resized m w h) (window_size w h) false
  update m (key_msg key) now = press m key now
  update m (status_msg text) now =
      finish
        (record m {
          status = text;
          connected = if bytes_eq text (codes "SECURE") then true else m.connected;
        })
        (status_msg text) m.incoming
  update m (incoming_text text) now =
      finish
        (show (push m (record { kind = kind_received; text = text; meta = []; timestamp = now })))
        (incoming_text text) m.incoming
  update m (incoming_file text meta) now =
      finish
        (show (push m (record { kind = kind_file; text = text; meta = meta; timestamp = now })))
        (incoming_file text meta) m.incoming
  update m (file_progress status) now =
      finish (record m { file_status = status }) (file_progress status) m.incoming
  update m peer_disconnected now = (
    show (
        push
          (record m {
            disconnected = true;
            connected = false;
            status = utf8 "DISCONNECTED — keys zeroized";
          })
          (record {
            kind = kind_system;
            text = utf8 "⚠ peer disconnected · session keys zeroized · re-run to connect again";
            meta = [];
            timestamp = now;
          })),
    quit,
  )
  update m other_msg now = finish m other_msg false

  -- The messages that the program receives, each with its time.
  unfoldable pub updates : Model ui → List (Msg × ℕ) → Model ui
  unfolding update
  updates m [] = m
  updates m ((msg, now) ∷ rest) = updates (update m msg now).0 rest

  -- A model wired to the given channels. `viewport` is the widget's zero value.
  unfoldable pub new : Bytes → Option (List Bytes) → Bool → ui.Textarea → ui.Viewport → ℕ → Model ui
  new peer_key outgoing incoming textarea viewport now = record {
    viewport = viewport;
    textarea = textarea;
    history =
        record {
          kind = kind_system;
          text = utf8 "Welcome to road-1337 · E2EE session · all traffic is encrypted noise";
          meta = [];
          timestamp = now;
        }
        ∷ record {
          kind = kind_system;
          text = codes "Commands: /file <path> | /clear | /exit | PgUp/PgDn to scroll";
          meta = [];
          timestamp = now;
        }
        ∷ [];
    peer_key = peer_key;
    connected = true;
    disconnected = false;
    status = codes "Connecting...";
    file_status = [];
    outgoing = outgoing;
    incoming = incoming;
    width = 0;
    height = 0;
    ready = false;
  }
