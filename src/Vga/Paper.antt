-- ===== src/Vga/Paper.antt =====
-- The console against an endless sheet of paper: the screen is always 25 lines of the paper.
use aura_os.Base.{
  ℕ, ◌+◌, ◌-◌, ◌*◌, ◌/◌, ◌≤◌, ◌<◌, ◌≡◌, refl, ◌∙◌, List, [], ◌∷◌, arith, length, get_or, leb, ◌==◌,
  if◌then◌else◌,
}
use aura_os.Vga.{Vga, entry, clear}
use aura_os.Vga.Scroll.{length-fill, clear_cell}

-- The paper: a cell for each position, line by line, and the position that is written next. A line
-- has 80 cells, and what does not fit goes on in the next line by itself.
pub record Paper : Type 0 where
  pub cell : ℕ → ℕ
  pub pos : ℕ

abbrev pub type_char : ℕ → Paper → ℕ → Paper
type_char color p c =
    if c == 10
    then record p { pos = (p.pos / 80 + 1) * 80 }
    else record { cell = λ i. if i == p.pos then entry c color else p.cell i; pos = p.pos + 1 }

pub type_text : ℕ → Paper → List ℕ → Paper
type_text color p [] = p
type_text color p (c ∷ str) = type_text color (type_char color p c) str

-- The screen shows the 25 lines from line `top` on; the cursor stands at the position; below the screen
-- the paper is blank.
pub record Shows (color : ℕ) (cell : ℕ → ℕ) (pos top : ℕ) (v : Vga) : Type 0 where
  pub same_color : v.color ≡ color
  pub size : length v.memory ≡ 2000
  pub row_inside : v.row < 25
  pub col_inside : v.col < 80
  pub cursor : pos ≡ (top + v.row) * 80 + v.col
  pub cells : (i : ℕ) → i < 2000 → get_or v.memory i 0 ≡ cell (top * 80 + i)
  pub blank : (i : ℕ) → (top + 25) * 80 ≤ i → cell i ≡ entry b' ' color

-- The first line on the screen once the cursor has gone to the position: the screen has moved down only
-- if the position's line was below it, and then so that this line is the last one on it.
abbrev pub scrolled_to : ℕ → ℕ → ℕ
scrolled_to top pos = if leb (top + 25) (pos / 80) then pos / 80 - 24 else top

-- A new line, wherever the column is.
module _ (color : ℕ) (cell : ℕ → ℕ) (v : Vga) (top : ℕ) (same_color : v.color ≡ color)
    (size : length v.memory ≡ 2000) (row_inside : v.row < 25)
    (cells : (i : ℕ) → i < 2000 → get_or v.memory i 0 ≡ cell (top * 80 + i))
    (blank : (i : ℕ) → (top + 25) * 80 ≤ i → cell i ≡ entry b' ' color) where
  abbrev down : Vga
  down = record v { col = 0; row = v.row + 1 }

  abbrev line_pos : ℕ
  line_pos = (top + v.row + 1) * 80

abbrev ShowsPaper : ℕ → Paper → ℕ → Vga → Type 0
ShowsPaper color p top v = Shows color p.cell p.pos top v

-- A screen that was just cleared shows the top of a blank paper.
pub clear-Shows :
    (v : Vga) → length v.memory ≡ 2000 → Shows v.color (λ _. entry b' ' v.color) 0 0 (clear v)
unfolding clear
clear-Shows v size = record {
  same_color = refl;
  size = length-fill 2000 0 (entry b' ' v.color) v.memory ∙ size;
  row_inside = omega arith;
  col_inside = omega arith;
  cursor = omega arith;
  cells = λ i h. clear_cell v i size h;
  blank = λ i h. refl;
}
