-- ===== src/Tui/Box.antt =====
-- What a box is on the screen: corners, edges and a blank inside.
use aura_os.Base.{
  ℕ, ◌+◌, ◌-◌, ◌*◌, ◌^◌, ◌≤◌, ◌<◌, ◌≡◌, inl, inr, ap, ◌∙◌, Bool, false, ◌&&◌, ◌||◌, arith, ◌==◌,
  ltb, leb, if◌then◌else◌, u32, List, length, Option, Bool-cases,
}
use aura_os.Vga.{width, height}
use aura_os.Tui.{Screen, Border, border, slt, edge, draw_title, middle_loop, draw_box}
use aura_os.Tui.Cells.{cell}
use aura_os.Tui.Edges.{length-edge, in_row, covers, cell-edge, length-middle_loop, cell-middle_loop}
use aura_os.Tui.Title.{length-draw_title, titled, cell-draw_title}

-- The cell of a box without a title.
abbrev pub in_box : Border → ℕ → ℕ → ℕ → ℕ → ℕ → ℕ → ℕ → ℕ
in_box s x y w h bk a b =
    if b == y
    then in_row x w s.tl s.h_line s.tr bk bk a
    else if b + 1 == y + h
    then in_row x w s.bl s.h_line s.br bk bk a
    else in_row x w s.v_line b' ' s.v_line bk 7 a

-- The bottom is drawn over the middle, and that over the top.
layers :
    (b x y w h a : ℕ)
    → 2 ≤ h
    → (top bottom inner old : ℕ)
    → (if (b == y + h - 1) && covers x w a
        then bottom
        else if (leb (y + 1) b && ltb b (y + 1 + (h - 2))) && covers x w a
        then inner
        else if (b == y) && covers x w a
        then top
        else old)
      ≡ (if covers y h b && covers x w a
          then if b == y then top else if b + 1 == y + h then bottom else inner
          else old)
layers b x y w h a two top bottom inner old = elim (Bool-cases (covers x w a)) [
  | inl e ↦ rw e (ground arith)
  | inr e ↦ rw e (ground arith)
]

-- The same with a title, `f`, over the top.
titled_layers :
    (f : ℕ → ℕ) (b x y w h a : ℕ)
    → 2 ≤ h
    → (top bottom inner old : ℕ)
    → (if (b == y + h - 1) && covers x w a
        then bottom
        else if (leb (y + 1) b && ltb b (y + 1 + (h - 2))) && covers x w a
        then inner
        else if b == y
        then f (if (b == y) && covers x w a then top else old)
        else if (b == y) && covers x w a
        then top
        else old)
      ≡ (let box =
            if covers y h b && covers x w a
            then if b == y then top else if b + 1 == y + h then bottom else inner
            else old in
          if b == y then f box else box)
titled_layers f b x y w h a two top bottom inner old = elim (Bool-cases (b == y)) [
  | inl at ↦ elim (Bool-cases (covers x w a)) [
    | inl e ↦ rw at (rw e (ground arith))
    | inr e ↦ rw at (rw e (ground arith))
  ]
  | inr off ↦ elim (Bool-cases (covers x w a)) [
    | inl e ↦ rw off (rw e (ground arith))
    | inr e ↦ rw off (rw e (ground arith))
  ]
]

pub cell-draw_box :
    (m : Screen) (x y w h bk tk : ℕ) (title : Option (List ℕ)) (double : Bool) (a b : ℕ)
    → length m ≡ height * width
    → a < width
    → b < height
    → 2 ≤ w
    → 2 ≤ h
    → x + w + 2 ≤ 2 ^ 31
    → y + h < 2 ^ 31
    → cell (draw_box m x y w h bk tk title double) a b ≡ (
        let box =
          if covers y h b && covers x w a
          then in_box (border double) x y w h bk a b
          else cell m a b in
        if b == y then titled title x w bk tk a box else box)
unfolding draw_box
cell-draw_box m x y w h bk tk title double a b size ha hb two two' fits rows =
    let s = border double in
    let top = edge m x y w s.tl s.h_line s.tr bk bk in
    let size1 = length-edge m x y w s.tl s.h_line s.tr bk bk ∙ size in
    let named = draw_title top x y w bk tk title in
    let size2 = length-draw_title top x y w bk tk title ∙ size1 in
    let mid = middle_loop (h - 2) 1 named x y w s.v_line bk in
    let size3 = length-middle_loop (h - 2) 1 named x y w s.v_line bk ∙ size2 in
    let last : u32 (y + h + 2 ^ 32 - 1) ≡ y + h - 1 = omega arith in
    let big : (slt w 2 || slt h 2) ≡ false = ground arith in
    let upper = in_row x w s.tl s.h_line s.tr bk bk a in
    let inner = in_row x w s.v_line b' ' s.v_line bk 7 a in
    let bottom = in_row x w s.bl s.h_line s.br bk bk a in
    let over = titled title x w bk tk a in
    ap
      (λ t.
        cell (if t then m else edge mid x (u32 (y + h + 2 ^ 32 - 1)) w s.bl s.h_line s.br bk bk) a
          b)
      big
    ∙ cell-edge mid x (u32 (y + h + 2 ^ 32 - 1)) w s.bl s.h_line s.br bk bk a b size3 ha hb two
        (omega arith)
    ∙ ap (λ q. if (b == q) && covers x w a then bottom else cell mid a b) last
    ∙ ap (λ t. if (b == y + h - 1) && covers x w a then bottom else t)
        (cell-middle_loop (h - 2) 1 named x y w s.v_line bk a b size2 ha hb two (omega arith)
            (omega arith)
          ∙ ap
              (λ t. if (leb (y + 1) b && ltb b (y + 1 + (h - 2))) && covers x w a then inner else t)
              (cell-draw_title top x y w bk tk title a b size1 ha hb two fits
                ∙ ap (λ t. if b == y then over t else t)
                    (cell-edge m x y w s.tl s.h_line s.tr bk bk a b size ha hb two (omega arith))))
    ∙ titled_layers over b x y w h a two' upper bottom inner (cell m a b)
