-- ===== src/Tui/Cells.antt =====
-- The screen as a grid: what a character and a row of characters change.
use native.Mathlib.Decide.{dec_lt, ℕ_discrete}
use aura_os.Base.{
  ℕ, zero, suc, ◌+◌, ◌*◌, ◌^◌, ◌≤◌, ◌<◌, ◌≡◌, refl, sym, ap, ◌∙◌, ◌&&◌, ◌||◌, arith, ◌==◌, ltb, leb,
  if◌then◌else◌, if_elim, u32, length, get_or, get_or-set_self, get_or-set_ne, length-set, lt→leb,
  ==_iff,
}
use aura_os.Vga.{width, height, entry}
use aura_os.Tui.{Screen, putc_at, row_loop}

abbrev pub cell : Screen → ℕ → ℕ → ℕ
cell m a b = get_or m (b * width + a) 0

pub length-putc_at : (m : Screen) (x y c k : ℕ) → length (putc_at m x y c k) ≡ length m
unfolding putc_at
length-putc_at m x y c k =
    if_elim (λ (t : Screen). length t ≡ length m) (leb width x || leb height y) (λ _. refl)
      (λ _. length-set m (y * width + x) (entry c k))

-- A character changes its cell, and none if it is off the screen.
pub cell-putc_at :
    (m : Screen) (x y c k a b : ℕ)
    → length m ≡ height * width
    → a < width
    → b < height
    → cell (putc_at m x y c k) a b ≡ (if (a == x) && (b == y) then entry c k else cell m a b)
unfolding putc_at
cell-putc_at m x y c k a b size ha hb = elim (dec_lt x width) [
  | yes hx ↦ elim (dec_lt y height) [
    | yes hy ↦ elim (ℕ_discrete (y * width + x) (b * width + a)) [
      | yes same ↦
          let ex : x ≡ a = omega arith in
          let ey : y ≡ b = omega arith in
          rw (lt→leb width x hx, lt→leb height y hy)
            (rw (same, (==_iff a x).1 (sym ex), (==_iff b y).1 (sym ey))
              (get_or-set_self m (b * width + a) (entry c k) 0 (omega arith)))
      | no differ ↦
          ground (arith, get_or-set_ne m (y * width + x) (b * width + a) (entry c k) 0 differ)
    ]
    | no hy ↦ ground arith
  ]
  | no hx ↦ ground arith
]

pub length-row_loop :
    (left i : ℕ) (m : Screen) (x y c k : ℕ) → length (row_loop left i m x y c k) ≡ length m
unfolding row_loop
length-row_loop zero i m x y c k = refl
length-row_loop (suc left) i m x y c k =
    length-row_loop left (i + 1) (putc_at m (u32 (x + i)) y c k) x y c k
    ∙ length-putc_at m (u32 (x + i)) y c k

pub cell-row_loop :
    (left i : ℕ) (m : Screen) (x y c k a b : ℕ)
    → length m ≡ height * width
    → a < width
    → b < height
    → x + i + left ≤ 2 ^ 31
    → cell (row_loop left i m x y c k) a b
      ≡ (if (b == y) && (leb (x + i) a && ltb a (x + i + left)) then entry c k else cell m a b)
unfolding row_loop
cell-row_loop zero i m x y c k a b size ha hb fits = ground arith
cell-row_loop (suc left) i m x y c k a b size ha hb fits =
    let whole : u32 (x + i) ≡ x + i = omega arith in
    let m' = putc_at m (u32 (x + i)) y c k in
    cell-row_loop left (i + 1) m' x y c k a b (length-putc_at m (u32 (x + i)) y c k ∙ size) ha hb
      (omega arith)
    ∙ ap
        (λ t.
          if (b == y) && (leb (x + (i + 1)) a && ltb a (x + (i + 1) + left)) then entry c k else t)
        (cell-putc_at m (u32 (x + i)) y c k a b size ha hb
          ∙ ap (λ q. if (a == q) && (b == y) then entry c k else cell m a b) whole)
    ∙ ground arith
