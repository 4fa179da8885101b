-- ===== src/Tui/Bar.antt =====
-- What a bar is on the screen, and how much of it is filled.
use aura_os.Base.{
  ℕ, zero, suc, ◌+◌, ◌-◌, ◌*◌, ◌/◌, ◌^◌, ◌≤◌, ◌<◌, ◌≡◌, refl, ap, ◌∙◌, Bool, true, false, ◌&&◌,
  ◌||◌, arith, ◌==◌, ltb, leb, if◌then◌else◌, u32, length,
}
use aura_os.Vga.{width, height, entry}
use aura_os.Tui.{Screen, slt, putc_at, filled_cells, bar_loop, draw_bar}
use aura_os.Tui.Cells.{cell, length-putc_at, cell-putc_at}
use aura_os.Tui.Edges.{covers}

one_putc :
    (t : Bool) (m : Screen) (x y ff fe : ℕ)
    → (if t then putc_at m x y 219 ff else putc_at m x y 176 fe)
      ≡ putc_at m x y (if t then 219 else 176) (if t then ff else fe)
one_putc true m x y ff fe = refl
one_putc false m x y ff fe = refl

one_entry :
    (t : Bool) (ff fe : ℕ)
    → entry (if t then 219 else 176) (if t then ff else fe)
      ≡ (if t then entry 219 ff else entry 176 fe)
one_entry true ff fe = refl
one_entry false ff fe = refl

cell-bar_loop :
    (left i : ℕ) (m : Screen) (x y filled ff fe a b : ℕ)
    → length m ≡ height * width
    → a < width
    → b < height
    → x + i + left ≤ 2 ^ 31
    → cell (bar_loop left i m x y filled ff fe) a b ≡ (
        if (b == y) && (leb (x + i) a && ltb a (x + i + left))
        then if ltb (a - x) filled then entry 219 ff else entry 176 fe
        else cell m a b)
unfolding bar_loop
cell-bar_loop zero i m x y filled ff fe a b size ha hb fits = ground arith
cell-bar_loop (suc left) i m x y filled ff fe a b size ha hb fits =
    let c = if ltb i filled then 219 else 176 in
    let k = if ltb i filled then ff else fe in
    let col = u32 (x + i) in
    let m' = putc_at m col y c k in
    let whole : u32 (x + i) ≡ x + i = omega arith in
    let same : (if ltb i filled then putc_at m col y 219 ff else putc_at m col y 176 fe) ≡ m' =
      one_putc (ltb i filled) m col y ff fe in
    ap (λ t. cell (bar_loop left (i + 1) t x y filled ff fe) a b) same
    ∙ cell-bar_loop left (i + 1) m' x y filled ff fe a b (length-putc_at m col y c k ∙ size) ha hb
        (omega arith)
    ∙ ap
        (λ t.
          if (b == y) && (leb (x + (i + 1)) a && ltb a (x + (i + 1) + left))
          then if ltb (a - x) filled then entry 219 ff else entry 176 fe
          else t)
        (cell-putc_at m col y c k a b size ha hb
          ∙ ap (λ q. if (a == q) && (b == y) then entry c k else cell m a b) whole)
    ∙ ground (arith, one_entry (ltb i filled) ff fe)

div_full : (val w max : ℕ) → 0 < max → max ≤ val → w ≤ val * w / max
div_full val w max h k = grind arith

div_part : (val w max : ℕ) → 0 < max → val < max → val * w / max ≤ w
div_part val w max h k = grind arith

-- Where the product fits a word the filled part is the value's share of the width, rounded down, and
-- the whole width from the maximum on.
filled_cells_lem :
    (val max w : ℕ)
    → 0 < max
    → val * w < 2 ^ 32
    → filled_cells val max w ≡ (if ltb val max then val * w / max else w)
unfolding filled_cells
filled_cells_lem val max w some_max word =
    let whole : u32 (val * w) ≡ val * w = omega arith in
    rw whole (ground (arith, div_full val w max some_max, div_part val w max some_max))

-- Let the maximum not be 0 and the value times the width fit a word. A bar of one cell at least, which
-- may reach beyond the screen, has full blocks in the value's share of its cells, rounded down, or in
-- all if the value is the maximum or more, and light ones behind; other cells are left alone.
pub cell-draw_bar :
    (m : Screen) (x y w val max ff fe a b : ℕ)
    → length m ≡ height * width
    → a < width
    → b < height
    → 1 ≤ w
    → x + w < 2 ^ 31
    → 0 < max
    → val * w < 2 ^ 32
    → cell (draw_bar m x y w val max ff fe) a b ≡ (
        if (b == y) && covers x w a
        then if ltb (a - x) (if ltb val max then val * w / max else w)
          then entry 219 ff
          else entry 176 fe
        else cell m a b)
unfolding draw_bar
cell-draw_bar m x y w val max ff fe a b size ha hb one fits some_max word =
    let big : (slt w 1 || (max == 0)) ≡ false = ground arith in
    ap (λ t. cell (if t then m else bar_loop w 0 m x y (filled_cells val max w) ff fe) a b) big
    ∙ ap (λ n. cell (bar_loop w 0 m x y n ff fe) a b) (filled_cells_lem val max w some_max word)
    ∙ cell-bar_loop w 0 m x y (if ltb val max then val * w / max else w) ff fe a b size ha hb
        (omega arith)
    ∙ ap
        (λ q.
          if (b == y) && (leb q a && ltb a (q + w))
          then if ltb (a - x) (if ltb val max then val * w / max else w)
            then entry 219 ff
            else entry 176 fe
          else cell m a b)
        {x = x + 0} (omega arith)
