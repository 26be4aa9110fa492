-- ===== src/Tui/Styles.antt =====
-- internal/tui/tui.go: the palette and the styles. A lipgloss style is the list of its settings.
use road.Base.{ℕ, List, [], ◌∷◌, ◌++◌, Bytes, codes}

pub data Side : Type 0 where
  left : Side
  center : Side
  right : Side

pub data Setting : Type 0 where
  foreground : Bytes → Setting
  background : Bytes → Setting
  bold : Setting
  italic : Setting
  -- Rows above and below, columns on both sides.
  padding : ℕ → ℕ → Setting
  padding_left : ℕ → Setting
  rounded_border : Setting
  border_foreground : Bytes → Setting
  set_width : ℕ → Setting
  max_width : ℕ → Setting
  align : Side → Setting

abbrev pub Style : Type 0
Style = List Setting

-- A style with one more setting.
abbrev pub with : Style → Setting → Style
with style setting = style ++ (setting ∷ [])

abbrev pub color_purple : Bytes
color_purple = codes "#A855F7"

abbrev color_purple_dark : Bytes
color_purple_dark = codes "#6D28D9"

abbrev color_purple_deep : Bytes
color_purple_deep = codes "#3B0764"

abbrev color_slate_dark : Bytes
color_slate_dark = codes "#334155"

abbrev color_slate_mid : Bytes
color_slate_mid = codes "#4B4880"

abbrev color_text_primary : Bytes
color_text_primary = codes "#F1F0FF"

abbrev pub color_text_muted : Bytes
color_text_muted = codes "#94A3B8"

abbrev pub color_text_accent : Bytes
color_text_accent = codes "#C4B5FD"

abbrev pub color_green : Bytes
color_green = codes "#4ADE80"

abbrev pub color_red : Bytes
color_red = codes "#F87171"

abbrev pub color_yellow : Bytes
color_yellow = codes "#FCD34D"

abbrev pub status_bar_style : Style
status_bar_style =
    background color_purple_deep ∷ foreground color_text_primary ∷ bold ∷ padding 0 2 ∷ []

abbrev pub disconnected_bar_style : Style
disconnected_bar_style =
    background color_red ∷ foreground color_text_primary ∷ bold ∷ padding 0 2 ∷ []

abbrev pub divider_style : Style
divider_style = foreground color_slate_mid ∷ []

abbrev pub sent_bubble_style : Style
sent_bubble_style =
    background color_purple_dark
    ∷ foreground color_text_primary
    ∷ padding 0 2
    ∷ rounded_border
    ∷ border_foreground color_purple
    ∷ []

abbrev pub received_bubble_style : Style
received_bubble_style =
    background color_slate_dark
    ∷ foreground color_text_primary
    ∷ padding 0 2
    ∷ rounded_border
    ∷ border_foreground color_slate_mid
    ∷ []

abbrev pub system_msg_style : Style
system_msg_style = foreground color_yellow ∷ italic ∷ []

abbrev pub timestamp_style : Style
timestamp_style = foreground color_text_muted ∷ italic ∷ []

abbrev pub peer_label_style : Style
peer_label_style = foreground color_text_accent ∷ bold ∷ []

abbrev pub progress_style : Style
progress_style = foreground color_purple ∷ padding_left 3 ∷ []

abbrev pub input_border_style : Style
input_border_style = rounded_border ∷ border_foreground color_purple ∷ padding 0 1 ∷ []

abbrev pub input_disconnected_style : Style
input_disconnected_style = rounded_border ∷ border_foreground color_red ∷ padding 0 1 ∷ []
