-- ===== src/Tui.antt =====
-- internal/tui/tui.go: the state of the terminal interface, its history and how it is rendered. The
-- widgets, the rendering of a style and `strings.TrimSpace` are parameters; the channel to the
-- network is the list of what waits in it. Texts are UTF-8 bytes.
pub mod Styles
pub mod Progress
pub mod View
pub mod Program
pub mod Update
pub mod History
pub mod Lock
pub mod Typing
pub mod Standins
mod Runs
use road.Tui.Styles.{
  Style, Side, left, center, right, set_width, max_width, align, padding_left, foreground, bold,
  with, sent_bubble_style, received_bubble_style, system_msg_style, timestamp_style,
  peer_label_style, color_yellow, color_text_muted,
}
use road.Base.{
  utf8, ℕ, zero, suc, ◌+◌, ◌-◌, ◌*◌, ◌/◌, List, [], ◌∷◌, ◌++◌, Option, none, some, Bool, true,
  false, not, ◌&&◌, ltb, ◌==◌, if◌then◌else◌, Bytes, codes, bytes_eq, length, take, drop,
}

abbrev pub max_message_history : ℕ
max_message_history = 100

-- The capacity that client.NewSession gives to `outgoing`.
abbrev pub outgoing_capacity : ℕ
outgoing_capacity = 32

pub data MsgKind : Type 0 where
  kind_sent : MsgKind
  kind_received : MsgKind
  kind_system : MsgKind
  kind_file : MsgKind

pub record ChatMessage : Type 0 where
  pub kind : MsgKind
  pub text : Bytes
  pub meta : Bytes
  pub timestamp : ℕ

-- The key presses that `Update` tells apart.
pub data Key : Type 0 where
  ctrl_c : Key
  enter : Key
  page_up : Key
  page_down : Key
  other_key : Key

pub data Msg : Type 0 where
  window_size : ℕ → ℕ → Msg
  key_msg : Key → Msg
  status_msg : Bytes → Msg
  incoming_text : Bytes → Msg
  incoming_file : Bytes → Bytes → Msg
  file_progress : Bytes → Msg
  peer_disconnected : Msg
  other_msg : Msg

-- What the interface uses of the widgets, of the styles, and of `strings`.
pub record Ui : Type 1 where
  pub Textarea : Type 0
  pub value : Textarea → Bytes
  pub reset : Textarea → Textarea
  pub set_width : Textarea → ℕ → Textarea
  pub update_textarea : Textarea → Msg → Textarea
  pub Viewport : Type 0
  pub new_viewport : ℕ → ℕ → Viewport
  pub resize : Viewport → ℕ → ℕ → Viewport
  pub width : Viewport → ℕ
  pub set_content : Viewport → Bytes → Viewport
  pub goto_bottom : Viewport → Viewport
  pub half_page_up : Viewport → Viewport
  pub half_page_down : Viewport → Viewport
  pub update_viewport : Viewport → Msg → Viewport
  pub trim_space : Bytes → Bytes
  pub view_textarea : Textarea → Bytes
  pub view_viewport : Viewport → Bytes
  -- lipgloss: a text in a style, texts below each other, and the columns that a text takes.
  pub render : Style → Bytes → Bytes
  pub join_vertical : Side → List Bytes → Bytes
  pub text_width : Bytes → ℕ
  -- A time as hours and minutes.
  pub format_time : ℕ → Bytes

-- What `Update` asks Bubble Tea for: to quit, nothing, or the widgets' commands, with the next
-- network event where the flag is set.
pub data Cmd : Type 0 where
  quit : Cmd
  no_cmd : Cmd
  batch : Bool → Cmd

unfoldable pub push_message : List ChatMessage → ChatMessage → List ChatMessage
push_message history msg =
    let longer = history ++ (msg ∷ []) in
    if ltb max_message_history (length longer)
    then take max_message_history (drop 1 longer)
    else longer

module _ (ui : Ui) where
  pub record Model : Type 0 where
    pub viewport : ui.Viewport
    pub textarea : ui.Textarea
    pub history : List ChatMessage
    pub peer_key : Bytes
    pub connected : Bool
    pub disconnected : Bool
    pub status : Bytes
    pub file_status : Bytes
    -- What waits for the send loop, where the channel is not nil.
    pub outgoing : Option (List Bytes)
    -- Whether `incoming` is not nil.
    pub incoming : Bool
    pub width : ℕ
    pub height : ℕ
    pub ready : Bool

  unfoldable pub render_sent : ui.Viewport → ChatMessage → ℕ → Bytes
  render_sent vp msg max_bubble =
      let bubble = ui.render (with sent_bubble_style (max_width max_bubble)) msg.text in
      let ts = ui.render timestamp_style (ui.format_time msg.timestamp) in
      let block = ui.join_vertical right (bubble ∷ ts ∷ []) in
      ui.render (set_width (ui.width vp) ∷ align right ∷ []) block ++ codes "\n"

  unfoldable pub render_received : ui.Viewport → ChatMessage → ℕ → Bytes
  render_received vp msg max_bubble =
      let label = ui.render (with peer_label_style (padding_left 1)) (codes "peer") in
      let bubble = ui.render (with received_bubble_style (max_width max_bubble)) msg.text in
      let ts = ui.render (with timestamp_style (padding_left 1)) (ui.format_time msg.timestamp) in
      let block = ui.join_vertical left (label ∷ bubble ∷ ts ∷ []) in
      ui.render (set_width (ui.width vp) ∷ align left ∷ []) block ++ codes "\n"

  unfoldable pub render_system : ui.Viewport → ChatMessage → Bytes
  render_system vp msg =
      let line = utf8 "── " ++ (msg.text ++ utf8 " ──") in
      ui.render (with (with system_msg_style (set_width (ui.width vp))) (align center)) line
      ++ codes "\n"

  unfoldable pub render_file : ChatMessage → Bytes
  render_file msg =
      let icon = ui.render (foreground color_yellow ∷ []) (utf8 "📎") in
      let name = ui.render (foreground color_yellow ∷ bold ∷ []) msg.text in
      let meta =
        if bytes_eq msg.meta []
        then []
        else ui.render (foreground color_text_muted ∷ []) (codes " (" ++ (msg.meta ++ codes ")")) in
      let ts = ui.render timestamp_style (codes " " ++ ui.format_time msg.timestamp) in
      icon ++ (codes " " ++ (name ++ (meta ++ (ts ++ codes "\n"))))

  unfoldable pub render_message : ui.Viewport → ℕ → ChatMessage → Bytes
  unfolding render_sent
  render_message vp max_bubble msg = elim msg.kind [
    | kind_sent ↦ render_sent vp msg max_bubble
    | kind_received ↦ render_received vp msg max_bubble
    | kind_system ↦ render_system vp msg
    | kind_file ↦ render_file msg
  ]

  unfoldable pub render_messages : ui.Viewport → ℕ → List ChatMessage → Bytes
  unfolding render_message
  render_messages vp max_bubble [] = []
  render_messages vp max_bubble (msg ∷ history) =
      render_message vp max_bubble msg ++ (codes "\n" ++ render_messages vp max_bubble history)

  unfoldable pub render_history : Model → Bytes
  unfolding render_messages
  render_history m =
      let bubble = ui.width m.viewport * 65 / 100 in
      render_messages m.viewport (if ltb bubble 20 then 20 else bubble) m.history
