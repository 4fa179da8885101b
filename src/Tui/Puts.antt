-- ===== src/Tui/Puts.antt =====
-- What a text is on the screen.
use native.Mathlib.Decide.{dec_lt, ℕ_discrete}
use aura_os.Base.{
  ℕ, suc, ◌+◌, ◌-◌, ◌*◌, ◌^◌, ◌<◌, ◌≡◌, refl, ap, ◌∙◌, ◌&&◌, arith, ◌==◌, if◌then◌else◌, if_elim,
  u32, List, [], ◌∷◌, length, get_or,
}
use aura_os.Vga.{width, height, entry}
use aura_os.Tui.{Screen, putc_at, puts_at, slt}
use aura_os.Tui.Cells.{cell, length-putc_at, cell-putc_at}
use aura_os.Tui.Edges.{covers}

pub length-puts_at :
    (m : Screen) (x y : ℕ) (s : List ℕ) (k : ℕ) → length (puts_at m x y s k) ≡ length m
unfolding puts_at
length-puts_at m x y [] k = refl
length-puts_at m x y (c ∷ cs) k =
    if_elim (λ (t : Screen). length t ≡ length m) (slt x width)
      (λ _. length-puts_at (putc_at m x y c k) (u32 (x + 1)) y cs k ∙ length-putc_at m x y c k)
      (λ _. refl)

-- The character at a column.
abbrev pub glyph : List ℕ → ℕ → ℕ → ℕ
glyph s x a = get_or s (a - x) 0

glyph_next : (c : ℕ) (cs : List ℕ) (x a : ℕ) → x < a → glyph (c ∷ cs) x a ≡ glyph cs (x + 1) a
glyph_next c cs x a h = ap (λ i. get_or (c ∷ cs) i 0) {y = suc (a - (x + 1))} (omega arith)

glyph_first : (c : ℕ) (cs : List ℕ) (x a : ℕ) → a ≡ x → glyph (c ∷ cs) x a ≡ c
glyph_first c cs x a e = ap (λ i. get_or (c ∷ cs) i 0) {y = 0} (omega arith)

-- The first character and the others behind it.
join :
    (c : ℕ) (cs : List ℕ) (x y k a b old : ℕ)
    → (if (b == y) && covers (x + 1) (length cs) a
        then entry (glyph cs (x + 1) a) k
        else if (a == x) && (b == y)
        then entry c k
        else old)
      ≡ (if (b == y) && covers x (suc (length cs)) a then entry (glyph (c ∷ cs) x a) k else old)
join c cs x y k a b old = elim (dec_lt x a) [
  | yes behind ↦ ground (arith, ap (λ g. entry g k) (glyph_next c cs x a behind))
  | no h ↦ elim (ℕ_discrete a x) [
    | yes first ↦ ground (arith, ap (λ g. entry g k) (glyph_first c cs x a first))
    | no before ↦ ground arith
  ]
]

-- A text, which may reach beyond the screen, has its characters in the cells of its row that it
-- covers, and leaves the other cells alone.
pub cell-puts_at :
    (s : List ℕ) (m : Screen) (x y k a b : ℕ)
    → length m ≡ height * width
    → a < width
    → b < height
    → x + length s < 2 ^ 31
    → cell (puts_at m x y s k) a b
      ≡ (if (b == y) && covers x (length s) a then entry (glyph s x a) k else cell m a b)
unfolding puts_at
cell-puts_at [] m x y k a b size ha hb fits = ground arith
cell-puts_at (c ∷ cs) m x y k a b size ha hb fits =
    let m' = putc_at m x y c k in
    let next : u32 (x + 1) ≡ x + 1 = omega arith in
    if_elim
      (λ (t : Screen). cell t a b ≡ (
        if (b == y) && covers x (suc (length cs)) a
        then entry (glyph (c ∷ cs) x a) k
        else cell m a b))
      (slt x width)
      (λ inside.
        ap (λ q. cell (puts_at m' q y cs k) a b) next
        ∙ cell-puts_at cs m' (x + 1) y k a b (length-putc_at m x y c k ∙ size) ha hb (omega arith)
        ∙ ap
            (λ t.
              if (b == y) && covers (x + 1) (length cs) a then entry (glyph cs (x + 1) a) k else t)
            (cell-putc_at m x y c k a b size ha hb)
        ∙ join c cs x y k a b (cell m a b))
      (λ outside. ground arith)
