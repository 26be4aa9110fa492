-- ===== src/Tui/View.antt =====
-- internal/tui/tui.go: `View`, which draws a frame. Widths are those of a window, so not negative;
-- lipgloss takes a negative width for 0, as the subtraction here gives it.
use road.Base.{
  All-append, ltb→lt, ltb→le, Bool-cases, inl, inr, ◌⊎◌, ◌<◌, zero, suc, All, ◌≢◌, ℕ, ◌+◌, ◌-◌, ◌/◌,
  ◌≤◌, ◌≡◌, ◌∙◌, [], ◌∷◌, ◌++◌, ltb, if◌then◌else◌, Bytes, codes, utf8, bytes_eq, repeat, length,
  take, arith,
}
use road.Tui.{Ui, Model}
use road.Tui.Styles.{
  left, foreground, bold, padding, set_width, with, color_purple, color_green, color_red,
  color_text_accent, color_text_muted, status_bar_style, disconnected_bar_style, divider_style,
  progress_style, input_border_style, input_disconnected_style,
}

module _ (ui : Ui) where
  unfoldable pub short_key : Bytes → Bytes
  short_key key = if ltb 20 (length key) then take 20 key ++ utf8 "…" else key

  -- The three parts of the status bar.
  unfoldable pub bar_left : Bytes
  bar_left = ui.render (foreground color_purple ∷ bold ∷ []) (codes " road-1337")

  unfoldable pub bar_mid : Model ui → Bytes
  unfolding short_key
  bar_mid m = ui.render (foreground color_text_accent ∷ []) (codes "peer: " ++ short_key m.peer_key)

  unfoldable pub bar_right : Model ui → Bytes
  bar_right m =
      let dot =
        ui.render (foreground (if m.disconnected then color_red else color_green) ∷ [])
          (utf8 "●") in
      let status_text = if bytes_eq m.status [] then codes "SECURE" else m.status in
      dot ++ ui.render (foreground color_text_muted ∷ []) (codes " " ++ (status_text ++ codes " "))

  unfoldable pub bar_pad : Model ui → ℕ
  bar_pad m =
      let pad =
        m.width
        - ui.text_width bar_left
        - ui.text_width (bar_mid m)
        - ui.text_width (bar_right m) in
      if ltb pad 2 then 2 else pad

  unfoldable pub bar_row : Model ui → Bytes
  unfolding bar_pad
  bar_row m =
      let pad = bar_pad m in
      bar_left
      ++ (repeat (codes " ") (pad / 2)
          ++ (bar_mid m ++ (repeat (codes " ") (pad - pad / 2) ++ bar_right m)))

  unfoldable pub view_status_bar : Model ui → Bytes
  unfolding bar_row
  view_status_bar m =
      let style = if m.disconnected then disconnected_bar_style else status_bar_style in
      ui.render (with style (set_width m.width)) (bar_row m)

  unfoldable pub view_divider : Model ui → Bytes
  view_divider m = ui.render divider_style (repeat (utf8 "─") m.width)

  unfoldable pub view_chat : Model ui → Bytes
  view_chat m = ui.render (padding 0 2 ∷ []) (ui.view_viewport m.viewport)

  unfoldable pub view_progress_line : Model ui → Bytes
  view_progress_line m =
      if bytes_eq m.file_status []
      then repeat (codes " ") m.width
      else ui.render (with progress_style (set_width m.width)) m.file_status

  unfoldable pub view_input : Model ui → Bytes
  view_input m =
      let style = if m.disconnected then input_disconnected_style else input_border_style in
      ui.render (with style (set_width (m.width - 2))) (ui.view_textarea m.textarea)

  unfoldable pub view : Model ui → Bytes
  unfolding view_status_bar view_divider view_chat view_progress_line view_input
  view m =
      if m.ready
      then ui.join_vertical left (
          view_status_bar m
          ∷ view_divider m
          ∷ view_chat m
          ∷ view_progress_line m
          ∷ view_input m
          ∷ [])
      else ui.render (foreground color_purple ∷ padding 1 2 ∷ [])
          (utf8 "◌ initializing road-1337...")

-- A text without a line break.
abbrev pub IsLine : Bytes → Type 0
IsLine = All (λ b. b ≢ 10)

spaces-IsLine : (n : ℕ) (text : Bytes) → IsLine text → IsLine (repeat (codes " ") n ++ text)
unfolding repeat
spaces-IsLine zero text h = h
spaces-IsLine (suc n) text h = (omega arith, spaces-IsLine n text h)

module _ (ui : Ui) (empty : ui.text_width [] ≡ 0)
    (spaced : (a b : Bytes)
      → IsLine a
      → IsLine b
      → ui.text_width (a ++ (codes " " ++ b)) ≡ ui.text_width a + (1 + ui.text_width b)) where
  text_width-spaces :
      (n : ℕ) (a b : Bytes)
      → IsLine a
      → IsLine b
      → ui.text_width (a ++ (repeat (codes " ") (suc n) ++ b))
        ≡ ui.text_width a + (suc n + ui.text_width b)
  unfolding repeat
  text_width-spaces zero a b p q = spaced a b p q
  text_width-spaces (suc n) a b p q =
      spaced a (repeat (codes " ") (suc n) ++ b) p (spaces-IsLine (suc n) b q)
      ∙ omega (arith, text_width-spaces n [] b tt q, empty)

  -- Two runs of spaces that are a pad of at least 2 together, between three parts.
  text_width-row :
      (pad : ℕ) (a b c : Bytes)
      → 2 ≤ pad
      → IsLine a
      → IsLine b
      → IsLine c
      → ui.text_width
          (a ++ (repeat (codes " ") (pad / 2) ++ (b ++ (repeat (codes " ") (pad - pad / 2) ++ c))))
        ≡ pad + (ui.text_width a + (ui.text_width b + ui.text_width c))
  text_width-row pad a b c h p q r =
      let k : pad / 2 ≡ suc (pad / 2 - 1) = omega arith in
      let j : pad - suc (pad / 2 - 1) ≡ suc (pad - suc (pad / 2 - 1) - 1) = omega arith in
      rw (k, j)
        (text_width-spaces (pad / 2 - 1) a
            (b ++ (repeat (codes " ") (suc (pad - suc (pad / 2 - 1) - 1)) ++ c)) p
            (All-append (λ i. i ≢ 10) b _ q (spaces-IsLine _ c r))
          ∙ omega (arith, text_width-spaces (pad - suc (pad / 2 - 1) - 1) b c q r))

  -- The status bar's row before its style is put on. Where the window has room for the three parts
  -- and two spaces, the row takes exactly the window's width; else it is the parts and two spaces.
  -- The three parts have no line break; an empty text takes no column, and two texts without line
  -- breaks and a space between them take one column more than they do.
  pub bar_row-width :
      (m : Model ui)
      → IsLine (bar_left ui)
      → IsLine (bar_mid ui m)
      → IsLine (bar_right ui m)
      → let parts =
          ui.text_width (bar_left ui)
          + (ui.text_width (bar_mid ui m) + ui.text_width (bar_right ui m)) in
        ((parts + 2 ≤ m.width) × (ui.text_width (bar_row ui m) ≡ m.width))
        ⊎ ((m.width < parts + 2) × (ui.text_width (bar_row ui m) ≡ parts + 2))
  unfolding bar_row bar_pad
  bar_row-width m p q r =
      let pad =
        m.width
        - ui.text_width (bar_left ui)
        - ui.text_width (bar_mid ui m)
        - ui.text_width (bar_right ui m) in
      elim (Bool-cases (ltb pad 2)) [
        | inl e ↦ rw e (
            inr (
              omega (arith, ltb→lt _ _ e),
              text_width-row 2 (bar_left ui) (bar_mid ui m) (bar_right ui m) (omega arith) p q r
                  ∙ omega arith,
            ))
        | inr e ↦ rw e (
            inl (
              omega (arith, ltb→le _ _ e),
              text_width-row pad (bar_left ui) (bar_mid ui m) (bar_right ui m) (ltb→le _ _ e) p q r
                  ∙ omega (arith, ltb→le _ _ e),
            ))
      ]
