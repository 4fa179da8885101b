-- ===== src/Vga.antt =====
-- The text console, kernel/drivers/vga.c: the cursor, scrolling and printing. The 2000 cells of the screen
-- are a list, row by row; a character is a byte.
pub mod Scroll
pub mod Paper
pub mod Format
mod Examples
use mathlib.Core.List.{reverse}
use aura_os.Base.{
  ℕ, zero, suc, ◌+◌, ◌-◌, ◌*◌, ◌/◌, ◌%◌, ◌^◌, Bool, true, false, Option, none, some, List, [], ◌∷◌,
  ◌++◌, ◌==◌, leb, if◌then◌else◌, u8, u32, set, get_or, codes, replicate,
}
use aura_os.Varargs.{Arg, as_number, as_text, next_arg}
use aura_os.Digits.{dec_char, hex_char, do_digits}

-- VGA_WIDTH, VGA_HEIGHT
abbrev pub width : ℕ
width = 80

abbrev pub height : ℕ
height = 25

-- The static variables of the module, and the text memory.
pub record Vga : Type 0 where
  pub memory : List ℕ
  pub row : ℕ
  pub col : ℕ
  pub color : ℕ

-- `(bg << 4) | (fg & 0x0F)` and `uc | (color << 8)`: the parts do not overlap.
abbrev pub entry_color : ℕ → ℕ → ℕ
entry_color fg bg = u8 (bg * 2 ^ 4 + fg % 2 ^ 4)

abbrev pub entry : ℕ → ℕ → ℕ
entry uc color = uc + color * 2 ^ 8

pub set_color : Vga → ℕ → ℕ → Vga
set_color v fg bg = record v { color = entry_color fg bg }

-- The loops that fill `left` cells from cell `i` on, and that move them up by a line.
pub fill : ℕ → ℕ → ℕ → List ℕ → List ℕ
fill zero i cell memory = memory
fill (suc left) i cell memory = fill left (i + 1) cell (set memory i cell)

pub move_up : ℕ → ℕ → List ℕ → List ℕ
move_up zero i memory = memory
move_up (suc left) i memory = move_up left (i + 1) (set memory i (get_or memory (i + width) 0))

pub clear : Vga → Vga
unfolding fill
clear v = record v {
  memory = fill (height * width) 0 (entry b' ' v.color) v.memory;
  row = 0;
  col = 0;
}

-- Light grey on black.
pub init : Vga → Vga
unfolding clear set_color
init v = clear (set_color v 7 0)

pub scroll : Vga → Vga
unfolding fill move_up
scroll v = record v {
  memory =
      fill width ((height - 1) * width) (entry b' ' v.color)
        (move_up ((height - 1) * width) 0 v.memory);
  row = height - 1;
}

pub newline : Vga → Vga
newline v =
    let v' = record v { col = 0; row = v.row + 1 } in
    if leb height v'.row then record (scroll v') { row = height - 1 } else v'

-- The cursor behind the cell just written.
pub advance : Vga → Vga
unfolding newline
advance v = let v' = record v { col = v.col + 1 } in if leb width v'.col then newline v' else v'

pub putc : Vga → ℕ → Vga
unfolding newline advance
putc v c =
    if c == 10
    then newline v
    else advance (record v { memory = set v.memory (v.row * width + v.col) (entry c v.color) })

unfoldable pub puts : Vga → List ℕ → Vga
unfolding putc
puts v [] = v
puts v (c ∷ str) = puts (putc v c) str

-- The digits that `vga_printf` collects and writes backwards.
pub print_dec : ℕ → List ℕ
print_dec v = reverse (do_digits dec_char 10 32 v)

pub print_hex : ℕ → List ℕ
print_hex v = reverse (do_digits hex_char 16 32 v)

-- The characters for the remainders of an `int` that is negative still, which are negative too.
pub print_negative : ℕ → List ℕ
print_negative magnitude = reverse (do_digits (λ d. b'0' - d) 10 32 magnitude)

-- An `int` is its 32-bit pattern; the least one has no negative, and `-val` is taken to wrap.
pub print_int : ℕ → List ℕ
unfolding print_dec print_negative
print_int v =
    if leb (2 ^ 31) v
    then b'-' ∷ (if v == 2 ^ 31 then print_negative v else print_dec (u32 (2 ^ 32 - v)))
    else print_dec v

pub print_string : Option (List ℕ) → List ℕ
print_string none = codes "(null)"
print_string (some s) = s

-- The `switch` on the character behind `%`: what is written, and the arguments left.
pub directive : ℕ → List Arg → List ℕ × List Arg
unfolding print_string print_int print_dec print_hex
directive c args =
    let (a, rest) = next_arg args in
    if c == b's'
    then (print_string (as_text a), rest)
    else if c == b'c'
    then (u8 (as_number a) ∷ [], rest)
    else if c == b'd'
    then (print_int (u32 (as_number a)), rest)
    else if c == b'u'
    then (print_dec (u32 (as_number a)), rest)
    else if c == b'x'
    then (print_hex (u32 (as_number a)), rest)
    else if c == b'%'
    then (b'%' ∷ [], args)
    else (b'%' ∷ c ∷ [], args)

-- The characters that `vga_printf` writes. A `%` at the end is written with the NUL behind it, and the
-- loop then reads on behind the NUL: this is what the test says, and the text ends there.
unfoldable pub format : List ℕ → List Arg → List ℕ × Bool
unfolding directive
format [] args = ([], false)
format (c ∷ []) args = if c == b'%' then (b'%' ∷ 0 ∷ [], true) else (c ∷ [], false)
format (c ∷ d ∷ fmt) args = elim (c == b'%') [
  | true ↦ let rest = format fmt (directive d args).1 in ((directive d args).0 ++ rest.0, rest.1)
  | false ↦ let rest = format (d ∷ fmt) args in (c ∷ rest.0, rest.1)
]

pub printf : Vga → List ℕ → List Arg → Vga
unfolding puts format
printf v fmt args = puts v (format fmt args).0
