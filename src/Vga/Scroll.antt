-- ===== src/Vga/Scroll.antt =====
-- The screen after scrolling, cell by cell.
use native.Mathlib.Decide.{ℕ_discrete}
use aura_os.Base.{
  ℕ, zero, suc, ◌+◌, ◌≤◌, ◌<◌, ◌≡◌, ◌≢◌, ◌⊎◌, inl, inr, refl, sym, ap, ◌∙◌, List, arith, length,
  set, get_or, length-set, get_or-set_self, get_or-set_ne,
}
use aura_os.Vga.{Vga, width, entry, fill, move_up, scroll, clear}

pub length-fill : (n i cell : ℕ) (m : List ℕ) → length (fill n i cell m) ≡ length m
unfolding fill
length-fill zero i cell m = refl
length-fill (suc n) i cell m = length-fill n (i + 1) cell (set m i cell) ∙ length-set m i cell

-- Cells before `i` and from `i + n` on are kept.
fill_outside :
    (n i cell j : ℕ) (m : List ℕ)
    → (j < i) ⊎ (i + n ≤ j)
    → get_or (fill n i cell m) j 0 ≡ get_or m j 0
unfolding fill
fill_outside zero i cell j m h = refl
fill_outside (suc n) i cell j m (inl h) =
    fill_outside n (i + 1) cell j (set m i cell) (inl (omega arith))
    ∙ get_or-set_ne m i j cell 0 (λ e. omega arith)
fill_outside (suc n) i cell j m (inr h) =
    fill_outside n (i + 1) cell j (set m i cell) (inr (omega arith))
    ∙ get_or-set_ne m i j cell 0 (λ e. omega arith)

ne_le : (i j : ℕ) → i ≤ j → i ≢ j → i + 1 ≤ j
ne_le i j h ne = omega arith

fill_inside :
    (n i cell j : ℕ) (m : List ℕ)
    → i ≤ j
    → j < i + n
    → i + n ≤ length m
    → get_or (fill n i cell m) j 0 ≡ cell
unfolding fill
fill_inside zero i cell j m h k l = absurd (omega arith)
fill_inside (suc n) i cell j m h k l = elim (ℕ_discrete i j) [
  | yes e ↦
      fill_outside n (i + 1) cell j (set m i cell) (inl (omega arith))
      ∙ ap (λ z. get_or (set m i cell) z 0) (sym e)
      ∙ get_or-set_self m i cell 0 (omega arith)
  | no ne ↦
      fill_inside n (i + 1) cell j (set m i cell) (ne_le i j h ne) (omega arith)
        (omega (arith, length-set m i cell))
]

length-move_up : (n i : ℕ) (m : List ℕ) → length (move_up n i m) ≡ length m
unfolding move_up
length-move_up zero i m = refl
length-move_up (suc n) i m =
    length-move_up n (i + 1) (set m i (get_or m (i + width) 0))
    ∙ length-set m i (get_or m (i + width) 0)

move_up_before : (n i j : ℕ) (m : List ℕ) → j < i → get_or (move_up n i m) j 0 ≡ get_or m j 0
unfolding move_up
move_up_before zero i j m h = refl
move_up_before (suc n) i j m h =
    move_up_before n (i + 1) j (set m i (get_or m (i + width) 0)) (omega arith)
    ∙ get_or-set_ne m i j (get_or m (i + width) 0) 0 (λ e. omega arith)

-- The cells are moved in the order in which none is overwritten before it is read.
move_up_inside :
    (n i j : ℕ) (m : List ℕ)
    → i ≤ j
    → j < i + n
    → i + n ≤ length m
    → get_or (move_up n i m) j 0 ≡ get_or m (j + width) 0
unfolding move_up
move_up_inside zero i j m h k l = absurd (omega arith)
move_up_inside (suc n) i j m h k l =
    let x = get_or m (i + width) 0 in
    elim (ℕ_discrete i j) [
      | yes e ↦
          move_up_before n (i + 1) j (set m i x) (omega arith)
          ∙ ap (λ z. get_or (set m i x) z 0) (sym e)
          ∙ get_or-set_self m i x 0 (omega arith)
          ∙ ap (λ z. get_or m (z + width) 0) e
      | no ne ↦
          move_up_inside n (i + 1) j (set m i x) (ne_le i j h ne) (omega arith)
            (omega (arith, length-set m i x))
          ∙ get_or-set_ne m i (j + width) x 0 (λ e. omega arith)
    ]

module _ (v : Vga) (size : length v.memory ≡ 2000) where
  pub length-scroll : length (scroll v).memory ≡ 2000
  unfolding scroll
  length-scroll =
      length-fill width 1920 (entry b' ' v.color) (move_up 1920 0 v.memory)
      ∙ length-move_up 1920 0 v.memory
      ∙ size

  pub scroll_up : (j : ℕ) → j < 1920 → get_or (scroll v).memory j 0 ≡ get_or v.memory (j + 80) 0
  unfolding scroll
  scroll_up j h =
      fill_outside width 1920 (entry b' ' v.color) j (move_up 1920 0 v.memory) (inl h)
      ∙ move_up_inside 1920 0 j v.memory (omega arith) (omega arith) (omega arith)

  pub scroll_blank :
      (j : ℕ) → 1920 ≤ j → j < 2000 → get_or (scroll v).memory j 0 ≡ entry b' ' v.color
  unfolding scroll
  scroll_blank j h k =
      fill_inside width 1920 (entry b' ' v.color) j (move_up 1920 0 v.memory) h (omega arith)
        (omega (arith, length-move_up 1920 0 v.memory))

pub clear_cell :
    (v : Vga) (j : ℕ)
    → length v.memory ≡ 2000
    → j < 2000
    → get_or (clear v).memory j 0 ≡ entry b' ' v.color
unfolding clear
clear_cell v j size h =
    fill_inside 2000 0 (entry b' ' v.color) j v.memory (omega arith) h (omega arith)
