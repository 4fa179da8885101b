-- ===== src/Tui/Edges.antt =====
-- A row of a box on the screen, with its two ends, and the rows between its top and its bottom.
use aura_os.Base.{
  ℕ, zero, suc, ◌+◌, ◌-◌, ◌*◌, ◌^◌, ◌≤◌, ◌<◌, ◌≡◌, refl, ap, ◌∙◌, Bool, ◌&&◌, arith, ◌==◌, ltb, leb,
  if◌then◌else◌, u32, length,
}
use aura_os.Vga.{width, height, entry}
use aura_os.Tui.{Screen, putc_at, row_loop, edge, middle_loop}
use aura_os.Tui.Cells.{cell, length-putc_at, cell-putc_at, length-row_loop, cell-row_loop}

abbrev pub Sized : Screen → Type 0
Sized m = length m ≡ height * width

pub length-edge :
    (m : Screen) (x y w lc mc rc bk mk : ℕ) → length (edge m x y w lc mc rc bk mk) ≡ length m
unfolding edge
length-edge m x y w lc mc rc bk mk =
    let one = putc_at m x y lc bk in
    length-putc_at (row_loop (w - 2) 1 one x y mc mk) (u32 (x + w + 2 ^ 32 - 1)) y rc bk
    ∙ length-row_loop (w - 2) 1 one x y mc mk
    ∙ length-putc_at m x y lc bk

-- The cell of a row of `w` cells from column `x` on.
abbrev pub in_row : ℕ → ℕ → ℕ → ℕ → ℕ → ℕ → ℕ → ℕ → ℕ
in_row x w lc mc rc bk mk a =
    if a == x then entry lc bk else if a + 1 == x + w then entry rc bk else entry mc mk

abbrev pub covers : ℕ → ℕ → ℕ → Bool
covers x w a = leb x a && ltb a (x + w)

pub cell-edge :
    (m : Screen) (x y w lc mc rc bk mk a b : ℕ)
    → Sized m
    → a < width
    → b < height
    → 2 ≤ w
    → x + w ≤ 2 ^ 31
    → cell (edge m x y w lc mc rc bk mk) a b
      ≡ (if (b == y) && covers x w a then in_row x w lc mc rc bk mk a else cell m a b)
unfolding edge
cell-edge m x y w lc mc rc bk mk a b size ha hb two fits =
    let one = putc_at m x y lc bk in
    let size1 = length-putc_at m x y lc bk ∙ size in
    let mid = row_loop (w - 2) 1 one x y mc mk in
    let size2 = length-row_loop (w - 2) 1 one x y mc mk ∙ size1 in
    let last : u32 (x + w + 2 ^ 32 - 1) ≡ x + w - 1 = omega arith in
    cell-putc_at mid (u32 (x + w + 2 ^ 32 - 1)) y rc bk a b size2 ha hb
    ∙ ap (λ q. if (a == q) && (b == y) then entry rc bk else cell mid a b) last
    ∙ ap (λ t. if (a == x + w - 1) && (b == y) then entry rc bk else t)
        (cell-row_loop (w - 2) 1 one x y mc mk a b size1 ha hb (omega arith)
          ∙ ap
              (λ t.
                if (b == y) && (leb (x + 1) a && ltb a (x + 1 + (w - 2))) then entry mc mk else t)
              (cell-putc_at m x y lc bk a b size ha hb))
    ∙ ground arith

pub length-middle_loop :
    (left j : ℕ) (m : Screen) (x y w vc bk : ℕ)
    → length (middle_loop left j m x y w vc bk) ≡ length m
unfolding middle_loop
length-middle_loop zero j m x y w vc bk = refl
length-middle_loop (suc left) j m x y w vc bk =
    let m' = edge m x (u32 (y + j)) w vc b' ' vc bk 7 in
    length-middle_loop left (j + 1) m' x y w vc bk ∙ length-edge m x (u32 (y + j)) w vc b' ' vc bk 7

pub cell-middle_loop :
    (left j : ℕ) (m : Screen) (x y w vc bk a b : ℕ)
    → Sized m
    → a < width
    → b < height
    → 2 ≤ w
    → x + w ≤ 2 ^ 31
    → y + j + left ≤ 2 ^ 31
    → cell (middle_loop left j m x y w vc bk) a b ≡ (
        if (leb (y + j) b && ltb b (y + j + left)) && covers x w a
        then in_row x w vc b' ' vc bk 7 a
        else cell m a b)
unfolding middle_loop
cell-middle_loop zero j m x y w vc bk a b size ha hb two fits rows = ground arith
cell-middle_loop (suc left) j m x y w vc bk a b size ha hb two fits rows =
    let m' = edge m x (u32 (y + j)) w vc b' ' vc bk 7 in
    let inner = in_row x w vc b' ' vc bk 7 a in
    let whole : u32 (y + j) ≡ y + j = omega arith in
    cell-middle_loop left (j + 1) m' x y w vc bk a b
      (length-edge m x (u32 (y + j)) w vc b' ' vc bk 7 ∙ size) ha hb two fits (omega arith)
    ∙ ap
        (λ t.
          if (leb (y + (j + 1)) b && ltb b (y + (j + 1) + left)) && covers x w a then inner else t)
        (cell-edge m x (u32 (y + j)) w vc b' ' vc bk 7 a b size ha hb two fits
          ∙ ap (λ q. if (b == q) && covers x w a then inner else cell m a b) whole)
    ∙ ground arith
