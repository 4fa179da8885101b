-- ===== src/Tui/Rows.antt =====
-- What is drawn in some rows leaves the others alone, and the screen keeps its size.
use aura_os.Base.{
  ℕ, zero, suc, ◌+◌, ◌-◌, ◌*◌, ◌^◌, ◌≤◌, ◌<◌, ◌≡◌, ◌≢◌, refl, ◌∙◌, Bool, ◌||◌, arith, if_elim, u32,
  List, [], ◌∷◌, length, Option, some, ==_false,
}
use aura_os.Varargs.{Arg}
use aura_os.Vga.{width, height}
use aura_os.Tui.{
  Screen, slt, putc_at, puts_at, format, printf_at, row_loop, draw_box, edge, middle_loop,
  draw_title, border, draw_header, draw_footer, on_border, color_text, color_primary, color_success,
  color_warn,
}
use aura_os.Tui.Cells.{cell, length-putc_at, cell-putc_at, length-row_loop}
use aura_os.Tui.Edges.{length-edge, length-middle_loop}
use aura_os.Tui.Title.{length-draw_title}
use aura_os.Tui.Box.{cell-draw_box}
use aura_os.Tui.Puts.{length-puts_at}

pub length-draw_box :
    (m : Screen) (x y w h bk tk : ℕ) (title : Option (List ℕ)) (double : Bool)
    → length (draw_box m x y w h bk tk title double) ≡ length m
unfolding draw_box
length-draw_box m x y w h bk tk title double =
    let s = border double in
    let top = edge m x y w s.tl s.h_line s.tr bk bk in
    let titled = draw_title top x y w bk tk title in
    let mid = middle_loop (h - 2) 1 titled x y w s.v_line bk in
    if_elim (λ (t : Screen). length t ≡ length m) (slt w 2 || slt h 2) (λ _. refl)
      (λ _.
        length-edge mid x (u32 (y + h + 2 ^ 32 - 1)) w s.bl s.h_line s.br bk bk
        ∙ length-middle_loop (h - 2) 1 titled x y w s.v_line bk
        ∙ length-draw_title top x y w bk tk title
        ∙ length-edge m x y w s.tl s.h_line s.tr bk bk)

module _ (y a b : ℕ) (ha : a < width) (hb : b < height) (below : b ≢ y) where
  pub putc_at_row :
      (m : Screen) (x c k : ℕ)
      → length m ≡ height * width
      → cell (putc_at m x y c k) a b ≡ cell m a b
  putc_at_row m x c k size =
      cell-putc_at m x y c k a b size ha hb ∙ rw (==_false b y below) (ground arith)

  pub row_loop_row :
      (left i : ℕ) (m : Screen) (x c k : ℕ)
      → length m ≡ height * width
      → cell (row_loop left i m x y c k) a b ≡ cell m a b
  unfolding row_loop
  row_loop_row zero i m x c k size = refl
  row_loop_row (suc left) i m x c k size =
      row_loop_row left (i + 1) (putc_at m (u32 (x + i)) y c k) x c k
        (length-putc_at m (u32 (x + i)) y c k ∙ size)
      ∙ putc_at_row m (u32 (x + i)) c k size

  pub puts_at_row :
      (s : List ℕ) (m : Screen) (x k : ℕ)
      → length m ≡ height * width
      → cell (puts_at m x y s k) a b ≡ cell m a b
  unfolding puts_at
  puts_at_row [] m x k size = refl
  puts_at_row (c ∷ cs) m x k size =
      if_elim (λ (t : Screen). cell t a b ≡ cell m a b) (slt x width)
        (λ _.
          puts_at_row cs (putc_at m x y c k) (u32 (x + 1)) k (length-putc_at m x y c k ∙ size)
          ∙ putc_at_row m x c k size)
        (λ _. refl)

-- A box leaves the rows above it alone.
pub draw_box_row :
    (m : Screen) (x y w h bk tk : ℕ) (title : Option (List ℕ)) (double : Bool) (a b : ℕ)
    → length m ≡ height * width
    → a < width
    → b < height
    → 2 ≤ w
    → 2 ≤ h
    → x + w + 2 ≤ 2 ^ 31
    → y + h < 2 ^ 31
    → b < y
    → cell (draw_box m x y w h bk tk title double) a b ≡ cell m a b
draw_box_row m x y w h bk tk title double a b size ha hb two two' fits rows above =
    cell-draw_box m x y w h bk tk title double a b size ha hb two two' fits rows
    ∙ rw (==_false b y (λ e. omega arith)) (ground arith)

pub length-printf_at :
    (m : Screen) (x y k : ℕ) (fmt : List ℕ) (args : List Arg)
    → length (printf_at m x y k fmt args) ≡ length m
unfolding printf_at
length-printf_at m x y k fmt args = length-puts_at m x y (format fmt args []).0 k

pub length-draw_header :
    (m : Screen) (title s : List ℕ) → length (draw_header m title (some s)) ≡ length m
unfolding draw_header
length-draw_header m title s =
    let bar = row_loop width 0 m 0 0 b' ' (on_border color_text) in
    length-puts_at (puts_at bar 1 0 title (on_border color_primary))
      (u32 (width + 2 ^ 32 - length s + 2 ^ 32 - 2)) 0 s (on_border color_success)
    ∙ length-puts_at bar 1 0 title (on_border color_primary)
    ∙ length-row_loop width 0 m 0 0 b' ' (on_border color_text)

pub draw_footer_row :
    (m : Screen) (hints : List ℕ) (a b : ℕ)
    → length m ≡ height * width
    → a < width
    → b < height - 1
    → cell (draw_footer m hints) a b ≡ cell m a b
unfolding draw_footer
draw_footer_row m hints a b size ha hb =
    let below : b ≢ height - 1 = λ e. omega arith in
    puts_at_row (height - 1) a b ha (omega arith) below hints
      (row_loop width 0 m 0 (height - 1) b' ' (on_border color_text)) 2 (on_border color_warn)
      (length-row_loop width 0 m 0 (height - 1) b' ' (on_border color_text) ∙ size)
    ∙ row_loop_row (height - 1) a b ha (omega arith) below width 0 m 0 b' ' (on_border color_text)
        size
