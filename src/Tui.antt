-- ===== src/Tui.antt =====
-- The text windows, kernel/drivers/tui.c: what is drawn into the 2000 cells of the screen. An `int` is its
-- 32-bit pattern, so that a negative coordinate is a large number.
pub mod Cells
pub mod Box
pub mod Edges
pub mod Title
pub mod Bar
pub mod Puts
pub mod Rows
pub mod Format
mod Examples
use mathlib.Core.List.{reverse}
use aura_os.Base.{
  ℕ, zero, suc, ◌+◌, ◌-◌, ◌*◌, ◌/◌, ◌^◌, Bool, true, false, ◌||◌, Option, none, some, List, [], ◌∷◌,
  ◌++◌, ◌==◌, ltb, leb, if◌then◌else◌, u8, u32, set, length, take, codes,
}
use aura_os.Varargs.{Arg, as_number, as_text, next_arg}
use aura_os.Digits.{dec_char, do_digits}
use aura_os.Vga.{width, height, entry}

-- The roles of kernel/include/aura/theme.h.
abbrev pub color_bg : ℕ
color_bg = 0

abbrev pub color_border : ℕ
color_border = 8

abbrev pub color_primary : ℕ
color_primary = 11

abbrev pub color_success : ℕ
color_success = 10

abbrev pub color_warn : ℕ
color_warn = 14

abbrev pub color_text : ℕ
color_text = 15

abbrev pub color_dim : ℕ
color_dim = 7

abbrev pub color_magenta : ℕ
color_magenta = 13

-- `a < b` for two `int`.
abbrev pub slt : ℕ → ℕ → Bool
slt a b = ltb (u32 (a + 2 ^ 31)) (u32 (b + 2 ^ 31))

-- The text memory.
abbrev pub Screen : Type 0
Screen = List ℕ

pub putc_at : Screen → ℕ → ℕ → ℕ → ℕ → Screen
putc_at m x y c color =
    if leb width x || leb height y then m else set m (y * width + x) (entry c color)

unfoldable pub puts_at : Screen → ℕ → ℕ → List ℕ → ℕ → Screen
unfolding putc_at
puts_at m x y [] color = m
puts_at m x y (c ∷ cs) color =
    let rest = puts_at (putc_at m x y c color) (u32 (x + 1)) y cs color in
    if slt x width then rest else m

-- The digits of `%u`; `tmp` has room for those of any 32-bit number.
unfoldable pub print_unsigned : ℕ → List ℕ
print_unsigned v = reverse (do_digits dec_char 10 11 v)

-- The characters for the remainders of an `int` that is negative still, which are negative too.
pub print_negative : ℕ → List ℕ
print_negative magnitude = reverse (do_digits (λ d. b'0' - d) 10 11 magnitude)

-- What is still put behind `out` in the buffer, while it has fewer than 80 characters.
abbrev pub fit : List ℕ → List ℕ → List ℕ
fit out s = out ++ take (80 - length out) s

-- The `switch` on the character behind `%`. The least `int` has no negative, and `-val` is taken to wrap.
unfoldable pub directive : ℕ → List Arg → List ℕ → List ℕ × List Arg
unfolding print_unsigned print_negative
directive c args out =
    let (a, rest) = next_arg args in
    let v = u32 (as_number a) in
    if c == b's'
    then (elim (as_text a) [ none ↦ out | some s ↦ fit out s ], rest)
    else if c == b'd'
    then (
      (if leb (2 ^ 31) v
          then fit (out ++ b'-' ∷ [])
              (if v == 2 ^ 31 then print_negative v else print_unsigned (u32 (2 ^ 32 - v)))
          else fit out (print_unsigned v)),
      rest,
    )
    else if c == b'u'
    then (fit out (print_unsigned v), rest)
    else if c == b'%'
    then (out ++ b'%' ∷ [], args)
    else (out ++ b'%' ∷ c ∷ [], args)

-- The text in the buffer when the loop of `tui_printf_at` ends, and whether the format ends in a lone `%`:
-- then the NUL behind it is put into the buffer, where it ends the text, and the loop goes on behind it.
unfoldable pub format : List ℕ → List Arg → List ℕ → List ℕ × Bool
unfolding directive
format [] args out = (out, false)
format (c ∷ []) args out =
    if leb 80 (length out)
    then (out, false)
    else if c == b'%'
    then (out ++ b'%' ∷ [], true)
    else (out ++ c ∷ [], false)
format (c ∷ d ∷ fmt) args out =
    let (out', args') = directive d args out in
    let skip = format fmt args' out' in
    let plain = format (d ∷ fmt) args (out ++ c ∷ []) in
    if leb 80 (length out) then (out, false) else if c == b'%' then skip else plain

unfoldable pub printf_at : Screen → ℕ → ℕ → ℕ → List ℕ → List Arg → Screen
unfolding puts_at format
printf_at m x y color fmt args = puts_at m x y (format fmt args []).0 color

-- `left` cells of a row from column `x + i` on.
pub row_loop : ℕ → ℕ → Screen → ℕ → ℕ → ℕ → ℕ → Screen
unfolding putc_at
row_loop zero i m x y c color = m
row_loop (suc left) i m x y c color =
    row_loop left (i + 1) (putc_at m (u32 (x + i)) y c color) x y c color

-- The characters of a border: the corners, top and bottom, and the two lines.
pub record Border : Type 0 where
  pub tl : ℕ
  pub tr : ℕ
  pub bl : ℕ
  pub br : ℕ
  pub h_line : ℕ
  pub v_line : ℕ

abbrev pub border : Bool → Border
border true = record { tl = 0xc9; tr = 0xbb; bl = 0xc8; br = 0xbc; h_line = 0xcd; v_line = 0xba }
border false = record { tl = 0xda; tr = 0xbf; bl = 0xc0; br = 0xd9; h_line = 0xc4; v_line = 0xb3 }

-- The title's characters from column `title_x` on, before column `stop`; where they end too.
pub title_loop : Screen → ℕ → ℕ → ℕ → List ℕ → ℕ → Screen × ℕ
unfolding putc_at
title_loop m title_x stop y [] color = (m, title_x)
title_loop m title_x stop y (c ∷ cs) color =
    let rest = title_loop (putc_at m title_x y c color) (u32 (title_x + 1)) stop y cs color in
    if slt title_x stop then rest else (m, title_x)

pub draw_title : Screen → ℕ → ℕ → ℕ → ℕ → ℕ → Option (List ℕ) → Screen
unfolding title_loop
draw_title m x y w border_color title_color none = m
draw_title m x y w border_color title_color (some title) =
    let (m', title_x) =
      title_loop (putc_at m (u32 (x + 2)) y b' ' border_color) (u32 (x + 3))
        (u32 (x + w + 2 ^ 32 - 2)) y title title_color in
    putc_at m' title_x y b' ' border_color

-- A row with a character at each end and one between.
pub edge : Screen → ℕ → ℕ → ℕ → ℕ → ℕ → ℕ → ℕ → ℕ → Screen
unfolding row_loop
edge m x y w left_c mid_c right_c border_color mid_color =
    putc_at (row_loop (w - 2) 1 (putc_at m x y left_c border_color) x y mid_c mid_color)
      (u32 (x + w + 2 ^ 32 - 1)) y right_c border_color

-- `left` rows between the borders, from row `y + j` on.
pub middle_loop : ℕ → ℕ → Screen → ℕ → ℕ → ℕ → ℕ → ℕ → Screen
unfolding edge
middle_loop zero j m x y w v_line border_color = m
middle_loop (suc left) j m x y w v_line border_color =
    middle_loop left (j + 1) (edge m x (u32 (y + j)) w v_line b' ' v_line border_color 7) x y w
      v_line border_color

unfoldable pub draw_box : Screen → ℕ → ℕ → ℕ → ℕ → ℕ → ℕ → Option (List ℕ) → Bool → Screen
unfolding edge draw_title middle_loop
draw_box m x y w h border_color title_color title double_border =
    let b = border double_border in
    if slt w 2 || slt h 2
    then m
    else edge
        (middle_loop (h - 2) 1
          (draw_title (edge m x y w b.tl b.h_line b.tr border_color border_color) x y w border_color
            title_color title)
          x y w b.v_line border_color)
        x (u32 (y + h + 2 ^ 32 - 1)) w b.bl b.h_line b.br border_color border_color

pub filled_cells : ℕ → ℕ → ℕ → ℕ
filled_cells val max width =
    let filled = u32 (val * width) / max in if ltb width filled then width else filled

pub bar_loop : ℕ → ℕ → Screen → ℕ → ℕ → ℕ → ℕ → ℕ → Screen
unfolding putc_at
bar_loop zero i m x y filled fg_fill fg_empty = m
bar_loop (suc left) i m x y filled fg_fill fg_empty =
    bar_loop left (i + 1)
      (if ltb i filled
        then putc_at m (u32 (x + i)) y 219 fg_fill
        else putc_at m (u32 (x + i)) y 176 fg_empty)
      x y filled fg_fill fg_empty

unfoldable pub draw_bar : Screen → ℕ → ℕ → ℕ → ℕ → ℕ → ℕ → ℕ → Screen
unfolding filled_cells bar_loop
draw_bar m x y width val max fg_fill fg_empty =
    if slt width 1 || (max == 0)
    then m
    else bar_loop width 0 m x y (filled_cells val max width) fg_fill fg_empty

-- `(COLOR_BORDER << 4) | color`
abbrev pub on_border : ℕ → ℕ
on_border color = u8 (color_border * 2 ^ 4 + color)

unfoldable pub draw_header : Screen → List ℕ → Option (List ℕ) → Screen
unfolding row_loop puts_at
draw_header m title subtitle =
    let bar = row_loop width 0 m 0 0 b' ' (on_border color_text) in
    let titled = puts_at bar 1 0 title (on_border color_primary) in
    elim subtitle [
      | none ↦ titled
      | some s ↦
          puts_at titled (u32 (width + 2 ^ 32 - length s + 2 ^ 32 - 2)) 0 s
            (on_border color_success)
    ]

unfoldable pub draw_footer : Screen → List ℕ → Screen
unfolding row_loop puts_at
draw_footer m hints =
    puts_at (row_loop width 0 m 0 (height - 1) b' ' (on_border color_text)) 2 (height - 1) hints
      (on_border color_warn)
