-- ===== src/Menu/Window.antt =====
-- What of the log is on the screen after `menu_render`.
use aura_os.Base.{
  ℕ, zero, suc, ◌+◌, ◌-◌, ◌*◌, ◌≤◌, ◌<◌, ◌≡◌, ◌≢◌, refl, ap, ◌∙◌, true, arith, ltb, drop,
  if◌then◌else◌, Option, none, some, List, [], ◌∷◌, length, codes,
}
use aura_os.Varargs.{text}
use aura_os.Sysmon.{SysmonStats}
use aura_os.Vga.{width, height, entry}
use aura_os.Tui.{
  Screen, color_border, color_success, color_warn, color_text, color_dim, putc_at, puts_at, format,
  printf_at, draw_box, draw_header,
}
use aura_os.Tui.Cells.{cell, length-row_loop, cell-row_loop, length-putc_at}
use aura_os.Tui.Puts.{glyph, length-puts_at, cell-puts_at}
use aura_os.Tui.Rows.{
  length-draw_box, putc_at_row, row_loop_row, puts_at_row, draw_box_row, length-printf_at,
  length-draw_header, draw_footer_row,
}
use aura_os.Dashboard.{Process}
use aura_os.Menu.{Menu, menu, log_lines}
use aura_os.Menu.Line.{Short, Short-drop}
use aura_os.Menu.Draw.{log_row, log_loop, draw_status, draw_prompt, draw_menu, render}

-- The line in a row of the window.
pub line_at : List (List ℕ) → ℕ → Option (List ℕ)
line_at [] i = none
line_at (line ∷ lines) zero = some line
line_at (line ∷ lines) (suc i) = line_at lines i

-- The cell in column `a` of a row with a line, or without one.
abbrev pub window_cell : Option (List ℕ) → ℕ → ℕ
window_cell none a = entry b' ' color_dim
window_cell (some line) a =
    if ltb a (2 + length line) then entry (glyph line 2 a) color_text else entry b' ' color_dim

pub ShortLine : Option (List ℕ) → Type 0
ShortLine none = Unit
ShortLine (some line) = length line ≤ 78

length-log_row : (y : ℕ) (l : Option (List ℕ)) (m : Screen) → length (log_row y l m) ≡ length m
unfolding log_row
length-log_row y none m = length-row_loop (78 - 2) 0 m 2 y b' ' color_dim
length-log_row y (some line) m =
    length-row_loop (78 - (2 + length line)) 0 (puts_at m 2 y line color_text) (2 + length line) y
      b' ' color_dim
    ∙ length-puts_at m 2 y line color_text

log_row_other :
    (y : ℕ) (l : Option (List ℕ)) (m : Screen) (a b : ℕ)
    → length m ≡ height * width
    → a < width
    → b < height
    → b ≢ y
    → cell (log_row y l m) a b ≡ cell m a b
unfolding log_row
log_row_other y none m a b size ha hb below =
    row_loop_row y a b ha hb below (78 - 2) 0 m 2 b' ' color_dim size
log_row_other y (some line) m a b size ha hb below =
    row_loop_row y a b ha hb below (78 - (2 + length line)) 0 (puts_at m 2 y line color_text)
      (2 + length line) b' ' color_dim (length-puts_at m 2 y line color_text ∙ size)
    ∙ puts_at_row y a b ha hb below line m 2 color_text size

cell-log_row :
    (l : Option (List ℕ)) (m : Screen) (a b : ℕ)
    → length m ≡ height * width
    → 2 ≤ a
    → a < 78
    → b < height
    → ShortLine l
    → cell (log_row b l m) a b ≡ window_cell l a
unfolding log_row ShortLine
cell-log_row none m a b size low ha hb short =
    cell-row_loop (78 - 2) 0 m 2 b b' ' color_dim a b size (omega arith) hb (omega arith)
    ∙ ground arith
cell-log_row (some line) m a b size low ha hb short =
    cell-row_loop (78 - (2 + length line)) 0 (puts_at m 2 b line color_text) (2 + length line) b
      b' ' color_dim a b (length-puts_at m 2 b line color_text ∙ size) (omega arith) hb
      (omega arith)
    ∙ ground (arith, cell-puts_at line m 2 b color_text a b size (omega arith) hb (omega arith))

-- A round of the loop over the rows.
log_loop_step :
    (left i : ℕ) (lines : List (List ℕ)) (m : Screen)
    → log_loop (suc left) i lines m
      ≡ log_loop left (i + 1) (drop 1 lines) (log_row (8 + i) (line_at lines 0) m)
unfolding log_loop line_at
log_loop_step left i [] m = refl
log_loop_step left i (line ∷ lines) m = refl

line_at-drop : (lines : List (List ℕ)) (k : ℕ) → line_at (drop 1 lines) k ≡ line_at lines (suc k)
unfolding line_at
line_at-drop [] k = refl
line_at-drop (line ∷ lines) k = refl

Short-line_at : (lines : List (List ℕ)) (k : ℕ) → Short lines → ShortLine (line_at lines k)
unfolding line_at ShortLine
Short-line_at [] k short = tt
Short-line_at (line ∷ lines) zero short = short.0
Short-line_at (line ∷ lines) (suc k) short = Short-line_at lines k short.1

length-log_loop :
    (left i : ℕ) (lines : List (List ℕ)) (m : Screen) → length (log_loop left i lines m) ≡ length m
unfolding log_loop
length-log_loop zero i lines m = refl
length-log_loop (suc left) i lines m =
    ap length (log_loop_step left i lines m)
    ∙ length-log_loop left (i + 1) (drop 1 lines) (log_row (8 + i) (line_at lines 0) m)
    ∙ length-log_row (8 + i) (line_at lines 0) m

log_loop_above :
    (left i : ℕ) (lines : List (List ℕ)) (m : Screen) (a b : ℕ)
    → length m ≡ height * width
    → a < width
    → b < height
    → b < 8 + i
    → cell (log_loop left i lines m) a b ≡ cell m a b
unfolding log_loop
log_loop_above zero i lines m a b size ha hb above = refl
log_loop_above (suc left) i lines m a b size ha hb above =
    let m' = log_row (8 + i) (line_at lines 0) m in
    ap (λ t. cell t a b) (log_loop_step left i lines m)
    ∙ log_loop_above left (i + 1) (drop 1 lines) m' a b
        (length-log_row (8 + i) (line_at lines 0) m ∙ size) ha hb (omega arith)
    ∙ log_row_other (8 + i) (line_at lines 0) m a b size ha hb (λ e. omega arith)

cell-log_loop :
    (left i : ℕ) (lines : List (List ℕ)) (m : Screen) (a k : ℕ)
    → length m ≡ height * width
    → Short lines
    → 2 ≤ a
    → a < 78
    → k < left
    → 8 + i + left ≤ height
    → cell (log_loop left i lines m) a (8 + i + k) ≡ window_cell (line_at lines k) a
unfolding log_loop
cell-log_loop zero i lines m a k size short low ha hk fits = absurd (omega arith)
cell-log_loop (suc left) i lines m a zero size short low ha hk fits =
    let m' = log_row (8 + i) (line_at lines 0) m in
    ap (λ t. cell t a (8 + i + 0)) (log_loop_step left i lines m)
    ∙ ap (cell (log_loop left (i + 1) (drop 1 lines) m') a) {y = 8 + i} (omega arith)
    ∙ log_loop_above left (i + 1) (drop 1 lines) m' a (8 + i)
        (length-log_row (8 + i) (line_at lines 0) m ∙ size) (omega arith) (omega arith)
        (omega arith)
    ∙ cell-log_row (line_at lines 0) m a (8 + i) size low ha (omega arith)
        (Short-line_at lines 0 short)
cell-log_loop (suc left) i lines m a (suc k) size short low ha hk fits =
    let m' = log_row (8 + i) (line_at lines 0) m in
    ap (λ t. cell t a (8 + i + suc k)) (log_loop_step left i lines m)
    ∙ ap (cell (log_loop left (i + 1) (drop 1 lines) m') a) {y = 8 + (i + 1) + k} (omega arith)
    ∙ cell-log_loop left (i + 1) (drop 1 lines) m' a k
        (length-log_row (8 + i) (line_at lines 0) m ∙ size) (Short-drop 1 lines short) low ha
        (omega arith) (omega arith)
    ∙ ap (λ l. window_cell l a) (line_at-drop lines k)

length-draw_status :
    (stats : SysmonStats) (ticks heap_used : ℕ) (m : Screen)
    → length (draw_status stats ticks heap_used m) ≡ length m
unfolding draw_status
length-draw_status stats ticks heap_used m = simp (length-printf_at, length-draw_box) refl

length-draw_prompt : (cmd : List ℕ) (m : Screen) → length (draw_prompt cmd m) ≡ length m
unfolding draw_prompt
length-draw_prompt cmd m =
    simp (length-row_loop, length-putc_at, length-printf_at, length-draw_box) refl

draw_prompt_above :
    (cmd : List ℕ) (m : Screen) (a b : ℕ)
    → length m ≡ height * width
    → a < width
    → b < 20
    → cell (draw_prompt cmd m) a b ≡ cell m a b
unfolding draw_prompt printf_at
draw_prompt_above cmd m a b size ha hb =
    let len = length cmd in
    let m1 = draw_box m 0 20 80 3 color_success color_text (some (codes " Command ")) true in
    let size1 : length m1 ≡ height * width =
      length-draw_box m 0 20 80 3 color_success color_text (some (codes " Command ")) true ∙ size in
    let text2 = (format (codes "aura> %s") (text (some cmd) ∷ []) []).0 in
    let m2 = puts_at m1 2 21 text2 color_success in
    let size2 : length m2 ≡ height * width = length-puts_at m1 2 21 text2 color_success ∙ size1 in
    let m3 = putc_at m2 (8 + len) 21 b'_' color_warn in
    let size3 : length m3 ≡ height * width =
      length-putc_at m2 (8 + len) 21 b'_' color_warn ∙ size2 in
    let row : b < height = omega arith in
    let below : b ≢ 21 = λ e. omega arith in
    row_loop_row 21 a b ha row below (78 - (9 + len)) 0 m3 (9 + len) b' ' color_dim size3
    ∙ putc_at_row 21 a b ha row below m2 (8 + len) b'_' color_warn size2
    ∙ puts_at_row 21 a b ha row below text2 m1 2 color_success size1
    ∙ draw_box_row m 0 20 80 3 color_success color_text (some (codes " Command ")) true a b size ha
        row (omega arith) (omega arith) (omega arith) (omega arith) hb

-- After `menu_render` in the menu's view, whatever was on the screen of 25 rows of 80 cells and
-- whatever the snapshot, row 8 + k of the log window shows, in the columns 2 to 77, line k of the log
-- and blanks behind it, or blanks if there are not so many lines; the lines have 78 characters at
-- most, and k is below 8.
pub render-log :
    (stats : SysmonStats) (ticks heap_used : ℕ) (ps : List Process) (s : Menu) (m : Screen)
    (a k : ℕ)
    → s.active_view ≡ menu
    → Short s.log
    → length m ≡ height * width
    → 2 ≤ a
    → a < 78
    → k < log_lines
    → cell (render stats ticks heap_used ps s m).0 a (8 + k) ≡ window_cell (line_at s.log k) a
unfolding render draw_menu
render-log stats ticks heap_used ps s m a k view short size low ha hk =
    let m1 =
      draw_status stats ticks heap_used
        (draw_header m (codes " AuraOS Boot Menu & Shell ") (some (codes "v0.3.1"))) in
    let m2 = draw_box m1 0 6 80 14 color_border color_text (some (codes " Console Output ")) true in
    let size2 : length m2 ≡ height * width =
      simp (length-draw_box, length-draw_status, length-draw_header) size in
    let m3 = log_loop log_lines 0 s.log m2 in
    let size3 : length m3 ≡ height * width = length-log_loop log_lines 0 s.log m2 ∙ size2 in
    let m4 = draw_prompt s.cmd m3 in
    let size4 : length m4 ≡ height * width = length-draw_prompt s.cmd m3 ∙ size3 in
    rw (view, render)
      (draw_footer_row m4 (codes " Type 'help' | Commands: info, mem, dashboard, panic, halt ") a
          (8 + k) size4 (omega arith) (omega arith)
        ∙ draw_prompt_above s.cmd m3 a (8 + k) size3 (omega arith) (omega arith)
        ∙ cell-log_loop log_lines 0 s.log m2 a k size2 short low ha hk (omega arith))
