-- ===== src/Heap/Invariant.antt =====
-- The invariant of the heap: the layout of its blocks, and the list of those that are free.
use native.Mathlib.Decide.{ℕ_discrete}
use aura_os.Base.{
  ℕ, ◌≡◌, refl, sym, ap, ◌∙◌, Bool, true, false, ◌&&◌, ◌||◌, not, arith, ◌==◌, if◌then◌else◌,
  ==_refl, ==_false, List, [], ◌∷◌, ◌++◌,
}
use aura_os.Pmm.{is_used}
use aura_os.Pmm.Invariant
use aura_os.Heap.{Heap}
use aura_os.Heap.FreeList.{Without, Distinct, IsFreeList}
use aura_os.Heap.Unlink.{Without-blk}
use aura_os.Heap.Layout.{Layout}
use aura_os.Heap.Fields.{size_of, next_of, prev_of, used_of}

-- Whether an address is in a list.
abbrev pub has : ℕ → List ℕ → Bool
has a [] = false
has a (x ∷ xs) = (a == x) || has a xs

pub Without-has : (a : ℕ) (l : List ℕ) → has a l ≡ false → Without a l
Without-has a [] h = tt
Without-has a (x ∷ xs) h = (λ e. ground arith, Without-has a xs (ground arith))

pub has-Without : (a : ℕ) (l : List ℕ) → Without a l → has a l ≡ false
has-Without a [] out = refl
has-Without a (x ∷ xs) out = rw (==_false a x out.0) (has-Without a xs out.1)

-- A list with the address at its place.
pub record Parts (a : ℕ) (l : List ℕ) : Type 0 where
  pub before : List ℕ
  pub after : List ℕ
  pub whole : l ≡ before ++ a ∷ after

pub has-Parts : (a : ℕ) (l : List ℕ) → has a l ≡ true → Parts a l
has-Parts a [] h = cc
has-Parts a (x ∷ xs) h = elim (ℕ_discrete a x) [
  | yes e ↦ record { before = []; after = xs; whole = ap (λ q. q ∷ xs) (sym e) }
  | no ne ↦
      let r = has-Parts a xs (sym (rw (==_false a x ne) refl) ∙ h) in
      record { before = x ∷ r.before; after = r.after; whole = ap (λ q. x ∷ q) r.whole }
]

pub has_without :
    (a b : ℕ) (before after : List ℕ)
    → Distinct (before ++ a ∷ after)
    → has b (before ++ after) ≡ (if b == a then false else has b (before ++ a ∷ after))
has_without a b [] after d = elim (ℕ_discrete b a) [
  | yes e ↦ rw (e, ==_refl a) (has-Without a after d.1)
  | no ne ↦ rw (==_false b a ne) refl
]
has_without a b (x ∷ xs) after d = elim (ℕ_discrete b a) [
  | yes e ↦
      let rest = has_without a b xs after d.2 in
      let other = Without-blk x xs a after d.1 in ground arith
  | no ne ↦ let rest = has_without a b xs after d.2 in ground arith
]

-- A valid heap of the blocks `blocks`; the block `off` alone, if it is not 0, is free without being in
-- the free list.
pub record Inv (h : Heap) (blocks : ℕ → Bool) (off : ℕ) : Type 0 where
  pub list : List ℕ
  pub layout :
      Layout (size_of h.nodes) (next_of h.nodes) (prev_of h.nodes) (is_used h.frames.bitmap) blocks
  pub free : IsFreeList h list
  pub listed : (b : ℕ) → has b list ≡ (blocks b && (not (used_of h.nodes b) && not (b == off)))
  pub frames : Invariant.IsValid h.frames
  pub first : is_used h.frames.bitmap 0 ≡ true
  pub identity : h.phys_offset ≡ 0
