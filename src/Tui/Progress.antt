-- ===== src/Tui/Progress.antt =====
-- internal/tui/tui.go: `RenderProgress`. The percentage is a signed integer, and the file's name is
-- its bytes, which the source cuts between any two; what counts the characters of a text for the
-- padding of `%-20s` is a parameter.
use mathlib.Core.List.{append-nil}
use road.Base.{
  ◌∙◌, ap, ltb→le, ◌⊎◌, All, All-append, All-take, if_both, Bool-cases, inl, inr, ltb→lt, min, ℕ,
  zero, suc, ◌+◌, ◌-◌, ◌*◌, ◌/◌, ◌≤◌, ◌<◌, ◌≡◌, refl, ◌++◌, ltb, if◌then◌else◌, Bytes, codes, utf8,
  repeat, decimal, length, take, arith, length-append, length-take,
}

pub data ℤ : Type 0 where
  pos : ℕ → ℤ
  negsuc : ℕ → ℤ

-- The percentage, brought into 0 to 100.
unfoldable pub clamped : ℤ → ℕ
clamped (negsuc n) = 0
clamped (pos n) = if ltb 100 n then 100 else n

abbrev pub bar_width : ℕ
bar_width = 20

unfoldable pub filled_cells : ℤ → ℕ
unfolding clamped
filled_cells pct = bar_width * clamped pct / 100

unfoldable pub progress_bar : ℤ → Bytes
unfolding filled_cells
progress_bar pct =
    repeat (utf8 "█") (filled_cells pct) ++ repeat (utf8 "░") (bar_width - filled_cells pct)

unfoldable pub short_name : Bytes → Bytes
short_name filename = if ltb 20 (length filename) then take 17 filename ++ codes "..." else filename

-- `%-20s`
unfoldable pub padded : (Bytes → ℕ) → Bytes → Bytes
padded rune_count text = text ++ repeat (codes " ") (20 - rune_count text)

unfoldable pub render_progress : (Bytes → ℕ) → Bytes → ℤ → Bytes
unfolding progress_bar short_name padded
render_progress rune_count filename pct =
    padded rune_count (short_name filename)
    ++ (codes " [" ++ (progress_bar pct ++ (codes "] " ++ (decimal (clamped pct) ++ codes "%"))))

pub length-repeat : (text : Bytes) (n : ℕ) → length text ≡ 1 → length (repeat text n) ≡ n
unfolding repeat
length-repeat text zero h = refl
length-repeat text (suc n) h =
    length-append text (repeat text n) ∙ omega (arith, length-repeat text n h)

abbrev pub IsAscii : Bytes → Type 0
IsAscii = All (λ b. b < 128)

short_name-IsAscii : (name : Bytes) → IsAscii name → IsAscii (short_name name)
unfolding short_name
short_name-IsAscii name h =
    if_both IsAscii (ltb 20 (length name)) _ _
      (All-append (λ b. b < 128) (take 17 name) _ (All-take (λ b. b < 128) 17 name h)
        (omega arith, (omega arith, (omega arith, tt))))
      h

-- The percentage that is shown for one that is passed.
abbrev pub Shows : ℤ → ℕ → Type 0
Shows (pos n) shown = shown ≡ min n 100
Shows (negsuc n) shown = shown ≡ 0

clamped-Shows : (pct : ℤ) → Shows pct (clamped pct) × (clamped pct ≤ 100)
unfolding clamped
clamped-Shows (pos n) = ground arith
clamped-Shows (negsuc n) = (refl, omega arith)

-- A name of at most 20 bytes is filled up with spaces, and of a longer one the first 17 bytes stay.
abbrev pub IsField : Bytes → Bytes → Type 0
IsField name field =
    ((length name ≤ 20) × (field ≡ name ++ repeat (codes " ") (20 - length name)))
    ⊎ ((20 < length name) × (field ≡ take 17 name ++ codes "..."))

padded-short_name :
    (rune_count : Bytes → ℕ) (name : Bytes)
    → rune_count (short_name name) ≡ length (short_name name)
    → IsField name (padded rune_count (short_name name))
unfolding padded short_name
padded-short_name rune_count name e = elim (Bool-cases (ltb 20 (length name))) [
  | inl long ↦
      let size : length (take 17 name ++ codes "...") ≡ 20 =
        length-append (take 17 name) (codes "...")
        ∙ omega (arith, length-take 17 name, ltb→lt _ _ long) in
      let count : rune_count (take 17 name ++ codes "...") ≡ 20 = rw long at e ∙ size in
      inr (ltb→lt _ _ long, rw (long, count) (unfold repeat in append-nil _))
  | inr short ↦
      let count : rune_count name ≡ length name = rw short at e in
      inl (ltb→le _ _ short, rw (short, count) refl)
]

length-IsField : (name field : Bytes) → IsField name field → length field ≡ 20
length-IsField name field (inl (h, e)) =
    ap length e
    ∙ length-append name (repeat (codes " ") (20 - length name))
    ∙ omega (arith, length-repeat (codes " ") (20 - length name) refl)
length-IsField name field (inr (h, e)) =
    ap length e ∙ length-append (take 17 name) (codes "...") ∙ omega (arith, length-take 17 name)

-- The parts of a progress line.
pub record IsLine (name : Bytes) (pct : ℤ) (line : Bytes) : Type 0 where
  pub field : Bytes
  pub full : ℕ
  pub shown : ℕ
  pub parts :
      line
      ≡ field
        ++ (codes " ["
            ++ ((repeat (utf8 "█") full ++ repeat (utf8 "░") (20 - full))
                ++ (codes "] " ++ (decimal shown ++ codes "%"))))
  pub field_width : length field ≡ 20
  pub field_name : IsField name field
  pub shows : Shows pct shown
  pub share : (full * 5 ≤ shown) × (shown < full * 5 + 5)
  pub fits : full ≤ 20

-- The progress line of a file whose name is ASCII, for any percentage: a field of 20 bytes with the
-- name, filled up with spaces or cut to 17 bytes and three dots; a bar of 20 cells, of which one is
-- full for every five points of the percentage shown; and that percentage, which is the one passed,
-- or 0 or 100 where that is below or above. What counts characters counts the bytes of ASCII.
pub render_progress_lem :
    (rune_count : Bytes → ℕ)
    → ((text : Bytes) → IsAscii text → rune_count text ≡ length text)
    → (name : Bytes) (pct : ℤ) → IsAscii name
    → IsLine name pct (render_progress rune_count name pct)
unfolding render_progress progress_bar filled_cells
render_progress_lem rune_count ascii name pct h =
    let field =
      padded-short_name rune_count name (ascii (short_name name) (short_name-IsAscii name h)) in
    let (shows, most) = clamped-Shows pct in
    record {
      field = padded rune_count (short_name name);
      full = filled_cells pct;
      shown = clamped pct;
      parts = refl;
      field_width = length-IsField name _ field;
      field_name = field;
      shows = shows;
      share = omega (arith, most);
      fits = omega (arith, most);
    }
