-- ===== src/Tui/Title.antt =====
-- What the title of a box is on the screen.
use aura_os.Base.{
  ℕ, suc, ◌+◌, ◌-◌, ◌^◌, ◌≤◌, ◌<◌, ◌≡◌, inl, inr, refl, ap, ◌∙◌, ◌&&◌, ◌||◌, arith, ◌==◌, ltb, leb,
  get_or, if◌then◌else◌, if_elim, u32, List, [], ◌∷◌, length, Option, none, some, Bool-cases,
}
use native.Mathlib.Decide.{dec_lt, ℕ_discrete}
use aura_os.Vga.{width, height, entry}
use aura_os.Tui.{Screen, slt, putc_at, title_loop, draw_title}
use aura_os.Tui.Cells.{cell, length-putc_at, cell-putc_at}
use aura_os.Tui.Edges.{Sized}

length-title_loop :
    (m : Screen) (tx stop y : ℕ) (title : List ℕ) (k : ℕ)
    → length (title_loop m tx stop y title k).0 ≡ length m
unfolding title_loop
length-title_loop m tx stop y [] k = refl
length-title_loop m tx stop y (c ∷ cs) k =
    if_elim (λ (r : Screen × ℕ). length r.0 ≡ length m) (slt tx stop)
      (λ _.
        length-title_loop (putc_at m tx y c k) (u32 (tx + 1)) stop y cs k
        ∙ length-putc_at m tx y c k)
      (λ _. refl)

pub length-draw_title :
    (m : Screen) (x y w bk tk : ℕ) (title : Option (List ℕ))
    → length (draw_title m x y w bk tk title) ≡ length m
unfolding draw_title
length-draw_title m x y w bk tk none = refl
length-draw_title m x y w bk tk (some title) =
    let first = putc_at m (u32 (x + 2)) y b' ' bk in
    let r = title_loop first (u32 (x + 3)) (u32 (x + w + 2 ^ 32 - 2)) y title tk in
    length-putc_at r.0 r.1 y b' ' bk
    ∙ length-title_loop first (u32 (x + 3)) (u32 (x + w + 2 ^ 32 - 2)) y title tk
    ∙ length-putc_at m (u32 (x + 2)) y b' ' bk

-- How many characters of a title are shown in a box of `w` columns: they end before the last but one.
abbrev pub shown : ℕ → List ℕ → ℕ
shown w title = if leb (length title) (w - 5) then length title else w - 5

-- The cells of a title over what was in its row: a blank, the characters, and a blank.
abbrev pub titled : Option (List ℕ) → ℕ → ℕ → ℕ → ℕ → ℕ → ℕ → ℕ
titled none x w bk tk a old = old
titled (some title) x w bk tk a old =
    if (a == x + 2) || (a == x + 3 + shown w title)
    then entry b' ' bk
    else if leb (x + 3) a && ltb a (x + 3 + shown w title)
    then entry (get_or title (a - (x + 3)) 0) tk
    else old

-- How many of the characters the loop writes from column `tx` on.
abbrev written : ℕ → ℕ → List ℕ → ℕ
written tx stop title = if leb (length title) (stop - tx) then length title else stop - tx

module _ (y a b k : ℕ) (ha : a < width) (hb : b < height) where
  end-title_loop :
      (title : List ℕ) (m : Screen) (tx stop : ℕ)
      → tx < 2 ^ 31
      → stop < 2 ^ 31
      → (title_loop m tx stop y title k).1 ≡ tx + written tx stop title
  unfolding title_loop
  end-title_loop [] m tx stop ht hs = ground arith
  end-title_loop (c ∷ cs) m tx stop ht hs =
      if_elim (λ (r : Screen × ℕ). r.1 ≡ tx + written tx stop (c ∷ cs)) (slt tx stop)
        (λ e.
          let more : tx < stop = ground arith in
          let next : u32 (tx + 1) ≡ tx + 1 = omega arith in
          end-title_loop cs (putc_at m tx y c k) (u32 (tx + 1)) stop (omega arith) hs
          ∙ ap (λ q. q + written q stop cs) next
          ∙ ground arith)
        (λ e. ground arith)

  step_cell :
      (c : ℕ) (cs : List ℕ) (tx n old : ℕ)
      → (if (b == y) && (leb (tx + 1) a && ltb a (tx + 1 + n))
          then entry (get_or cs (a - (tx + 1)) 0) k
          else if (a == tx) && (b == y)
          then entry c k
          else old)
        ≡ (if (b == y) && (leb tx a && ltb a (tx + (n + 1)))
            then entry (get_or (c ∷ cs) (a - tx) 0) k
            else old)
  step_cell c cs tx n old = elim (dec_lt tx a) [
    | yes behind ↦ let at : a - tx ≡ suc (a - (tx + 1)) = omega arith in rw at (ground arith)
    | no before ↦ elim (ℕ_discrete a tx) [
      | yes here ↦ let at : a - tx ≡ 0 = omega arith in rw at (ground arith)
      | no off ↦ ground arith
    ]
  ]

  cell-title_loop :
      (title : List ℕ) (m : Screen) (tx stop : ℕ)
      → Sized m
      → tx < 2 ^ 31
      → stop < 2 ^ 31
      → cell (title_loop m tx stop y title k).0 a b ≡ (
          if (b == y) && (leb tx a && ltb a (tx + written tx stop title))
          then entry (get_or title (a - tx) 0) k
          else cell m a b)
  unfolding title_loop
  cell-title_loop [] m tx stop size ht hs = ground arith
  cell-title_loop (c ∷ cs) m tx stop size ht hs =
      let goal = λ (v : ℕ).
        if (b == y) && (leb tx a && ltb a (tx + v))
        then entry (get_or (c ∷ cs) (a - tx) 0) k
        else cell m a b in
      if_elim (λ (r : Screen × ℕ). cell r.0 a b ≡ goal (written tx stop (c ∷ cs))) (slt tx stop)
        (λ e.
          let more : tx < stop = ground arith in
          let next : u32 (tx + 1) ≡ tx + 1 = omega arith in
          let one : written (tx + 1) stop cs + 1 ≡ written tx stop (c ∷ cs) = ground arith in
          cell-title_loop cs (putc_at m tx y c k) (u32 (tx + 1)) stop
            (length-putc_at m tx y c k ∙ size) (omega arith) hs
          ∙ ap
              (λ q.
                if (b == y) && (leb q a && ltb a (q + written q stop cs))
                then entry (get_or cs (a - q) 0) k
                else cell (putc_at m tx y c k) a b)
              next
          ∙ ap
              (λ t.
                if (b == y) && (leb (tx + 1) a && ltb a (tx + 1 + written (tx + 1) stop cs))
                then entry (get_or cs (a - (tx + 1)) 0) k
                else t)
              (cell-putc_at m tx y c k a b size ha hb)
          ∙ step_cell c cs tx (written (tx + 1) stop cs) (cell m a b)
          ∙ ap goal one)
        (λ e. let stopped : written tx stop (c ∷ cs) ≡ 0 = ground arith in ground arith)

title_over :
    (y a b x n bl ch old : ℕ)
    → (if (a == x + 3 + n) && (b == y)
        then bl
        else if (b == y) && (leb (x + 3) a && ltb a (x + 3 + n))
        then ch
        else if (a == x + 2) && (b == y)
        then bl
        else old)
      ≡ (if b == y
          then (if (a == x + 2) || (a == x + 3 + n)
              then bl
              else if leb (x + 3) a && ltb a (x + 3 + n)
              then ch
              else old)
          else old)
title_over y a b x n bl ch old = elim (Bool-cases (b == y)) [
  | inl e ↦ rw e (ground arith)
  | inr e ↦ rw e (ground arith)
]

-- A title is in its row only.
pub cell-draw_title :
    (m : Screen) (x y w bk tk : ℕ) (title : Option (List ℕ)) (a b : ℕ)
    → Sized m
    → a < width
    → b < height
    → 2 ≤ w
    → x + w + 2 ≤ 2 ^ 31
    → cell (draw_title m x y w bk tk title) a b
      ≡ (if b == y then titled title x w bk tk a (cell m a b) else cell m a b)
unfolding draw_title
cell-draw_title m x y w bk tk none a b size ha hb two fits = ground arith
cell-draw_title m x y w bk tk (some title) a b size ha hb two fits =
    let first = putc_at m (u32 (x + 2)) y b' ' bk in
    let size1 = length-putc_at m (u32 (x + 2)) y b' ' bk ∙ size in
    let stop = u32 (x + w + 2 ^ 32 - 2) in
    let r = title_loop first (u32 (x + 3)) stop y title tk in
    let size2 = length-title_loop first (u32 (x + 3)) stop y title tk ∙ size1 in
    let blank : u32 (x + 2) ≡ x + 2 = omega arith in
    let from : u32 (x + 3) ≡ x + 3 = omega arith in
    let n : written (x + 3) stop title ≡ shown w title = ground arith in
    let ends : r.1 ≡ x + 3 + shown w title =
      end-title_loop y a b tk ha hb title first (u32 (x + 3)) stop (omega arith) (omega arith)
      ∙ ap (λ q. q + written q stop title) from
      ∙ ap (λ v. x + 3 + v) n in
    let under =
      cell-putc_at m (u32 (x + 2)) y b' ' bk a b size ha hb
      ∙ ap (λ q. if (a == q) && (b == y) then entry b' ' bk else cell m a b) blank in
    let chars =
      cell-title_loop y a b tk ha hb title first (u32 (x + 3)) stop size1 (omega arith)
        (omega arith)
      ∙ ap
          (λ q.
            if (b == y) && (leb q a && ltb a (q + written q stop title))
            then entry (get_or title (a - q) 0) tk
            else cell first a b)
          from
      ∙ ap
          (λ v.
            if (b == y) && (leb (x + 3) a && ltb a (x + 3 + v))
            then entry (get_or title (a - (x + 3)) 0) tk
            else cell first a b)
          n
      ∙ ap
          (λ t.
            if (b == y) && (leb (x + 3) a && ltb a (x + 3 + shown w title))
            then entry (get_or title (a - (x + 3)) 0) tk
            else t)
          under in
    cell-putc_at r.0 r.1 y b' ' bk a b size2 ha hb
    ∙ ap (λ q. if (a == q) && (b == y) then entry b' ' bk else cell r.0 a b) ends
    ∙ ap (λ t. if (a == x + 3 + shown w title) && (b == y) then entry b' ' bk else t) chars
    ∙ title_over y a b x (shown w title) (entry b' ' bk) (entry (get_or title (a - (x + 3)) 0) tk)
        (cell m a b)
