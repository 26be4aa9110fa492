-- ===== src/Tui/Standins.antt =====
-- Stand-ins for the widgets, for tests.
use road.Base.{codes, length, [], Bytes}
use road.Tui.{Ui}

-- A text area is its value and a viewport its content.
abbrev pub plain : Ui
plain = record {
  Textarea = Bytes;
  value = λ t. t;
  reset = λ t. [];
  set_width = λ t w. t;
  update_textarea = λ t m. t;
  Viewport = Bytes;
  new_viewport = λ w h. [];
  resize = λ v w h. v;
  width = λ v. 80;
  set_content = λ v s. s;
  goto_bottom = λ v. v;
  half_page_up = λ v. v;
  half_page_down = λ v. v;
  update_viewport = λ v m. v;
  trim_space = λ t. t;
  view_textarea = λ t. t;
  view_viewport = λ v. v;
  render = λ style text. text;
  join_vertical = λ side texts. [];
  text_width = λ text. length text;
  format_time = λ t. codes "15:04";
}
