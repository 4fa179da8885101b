-- ===== src/Heap/Obtain.antt =====
-- `kmalloc` and the invariant.
use native.Mathlib.Decide.{ℕ_discrete}
use aura_os.Base.{
  ℕ, zero, suc, ◌+◌, ◌^◌, ◌≤◌, ◌<◌, ◌≡◌, ◌≢◌, refl, sym, ap, ◌∙◌, Bool, true, false, ◌&&◌, not, inl,
  inr, arith, ◌==◌, if◌then◌else◌, ==_false, some, Option-cases, subst,
}
use aura_os.Pmm.{alloc_contiguous}
use aura_os.Pmm.Contiguous.{alloc_contiguous_lem, alloc_contiguous-zero}
use aura_os.Heap.{Block, Heap, align_up, free_list_add, first_fit, grow_heap, take_block, kmalloc}
use aura_os.Heap.Grow.{
  pages_for, grown_at, new_block, grown, found_or_grown, search_with, kmalloc-search_with,
}
use aura_os.Heap.Layout.{at_point}
use aura_os.Heap.Fields.{
  size_of, used_of, put_field, free_list_add_kept, size-Unlinked, used-Unlinked,
}
use aura_os.Heap.Invariant.{Inv}
use aura_os.Heap.Growth.{added-Inv, not_block_before, grow_heap-added}
use aura_os.Heap.Take.{align_up_lem, true_ne_false, Kept, Kept-trans, Granted, Done, first_fit-has}
use aura_os.Heap.TakeBlock.{take_block-Done}

Done-none : (h : Heap) (blocks : ℕ → Bool) (size : ℕ) → Inv h blocks 0 → Done h blocks size (0, h)
Done-none h blocks size v = record {
  blocks' = blocks;
  inv = v;
  kept = λ b mine used other. (mine, used, refl);
  answer = inl refl;
}

Granted-le :
    (h : Heap) (blocks : ℕ → Bool) (n size p : ℕ) (h' : Heap) (blocks' : ℕ → Bool)
    → size ≤ n
    → Granted h blocks n p h' blocks'
    → Granted h blocks size p h' blocks'
Granted-le h blocks n size p h' blocks' less g = record {
  block = g.block;
  payload = g.payload;
  mine = g.mine;
  used = g.used;
  enough = omega (arith, less, g.enough);
  new = g.new;
}

Done-le :
    (h : Heap) (blocks : ℕ → Bool) (n size : ℕ) (r : ℕ × Heap)
    → size ≤ n
    → Done h blocks n r
    → Done h blocks size r
Done-le h blocks n size r less d = record {
  blocks' = d.blocks';
  inv = d.inv;
  kept = d.kept;
  answer = elim d.answer [
    | inl e ↦ inl e
    | inr g ↦ inr (Granted-le h blocks n size r.0 r.1 d.blocks' less g)
  ];
}

pub listed_parts : (t u z : Bool) → (t && (not u && not z)) ≡ true → (t ≡ true) × (u ≡ false)
listed_parts true false z e = (refl, refl)
listed_parts true true z e = absurd (true_ne_false (sym e))
listed_parts false u z e = absurd (true_ne_false (sym e))

-- A block of the free list is taken.
found-Done :
    (fuel : ℕ) (h : Heap) (blocks : ℕ → Bool) (need cur : ℕ)
    → Inv h blocks 0
    → need ≢ 0
    → first_fit fuel h.nodes h.free_head need ≡ some cur
    → Done h blocks need (take_block h cur need)
found-Done fuel h blocks need cur v bytes e =
    let (within, fits) =
      first_fit-has fuel need h.nodes 0 h.free_head v.list cur v.free.0 v.free.1 e in
    let (mine, unused) =
      listed_parts (blocks cur) (used_of h.nodes cur) (cur == 0) (sym (v.listed cur) ∙ within) in
    take_block-Done h blocks cur need v mine unused fits bytes

grow_heap-fails :
    (h : Heap) (need : ℕ)
    → alloc_contiguous h.frames (pages_for need) ≡ (0, h.frames)
    → grow_heap h need ≡ (h, false)
unfolding grow_heap
grow_heap-fails h need e = rw e refl

-- A growth keeps what is in use, and what is allocated after it is new for the heap before it.
module _ (h : Heap) (need : ℕ) (blocks : ℕ → Bool)
    (not_before : blocks (grown_at h need) ≡ false) where
  abbrev pub added : Heap
  added = free_list_add (grown h need) (grown_at h need)

  abbrev pub more : ℕ → Bool
  more = at_point blocks (grown_at h need) true

  old : (b : ℕ) → blocks b ≡ true → b ≢ grown_at h need
  old b mine e = true_ne_false (sym mine ∙ ap blocks e ∙ not_before)

  same_used : (b : ℕ) → b ≢ grown_at h need → used_of added.nodes b ≡ used_of h.nodes b
  same_used b ne =
      free_list_add_kept (λ (q : Block). q.used) used-Unlinked (grown h need) (grown_at h need) b
      ∙ put_field (λ (q : Block). q.used) h.nodes (grown_at h need) (new_block h need) b
      ∙ rw (==_false b (grown_at h need) ne) refl

  same_size : (b : ℕ) → b ≢ grown_at h need → size_of added.nodes b ≡ size_of h.nodes b
  same_size b ne =
      free_list_add_kept (λ (q : Block). q.size) size-Unlinked (grown h need) (grown_at h need) b
      ∙ put_field (λ (q : Block). q.size) h.nodes (grown_at h need) (new_block h need) b
      ∙ rw (==_false b (grown_at h need) ne) refl

  added-Kept : Kept h blocks added more 0
  added-Kept = λ b mine used other.
      let ne = old b mine in
      (rw (==_false b (grown_at h need) ne) mine, same_used b ne ∙ used, same_size b ne)

  added-Granted :
      (n p : ℕ) (h' : Heap) (blocks' : ℕ → Bool)
      → Granted added more n p h' blocks'
      → Granted h blocks n p h' blocks'
  added-Granted n p h' blocks' g = record {
    block = g.block;
    payload = g.payload;
    mine = g.mine;
    used = g.used;
    enough = g.enough;
    new = λ mine.
        let ne = old g.block mine in
        sym (same_used g.block ne) ∙ g.new (rw (==_false g.block (grown_at h need) ne) mine);
  }

  added-Done : (n : ℕ) (r : ℕ × Heap) → Done added more n r → Done h blocks n r
  added-Done n r d = record {
    blocks' = d.blocks';
    inv = d.inv;
    kept = Kept-trans h blocks added more r.1 d.blocks' 0 added-Kept d.kept;
    answer = elim d.answer [ inl e ↦ inl e | inr g ↦ inr (added-Granted n r.0 r.1 d.blocks' g) ];
  }

kmalloc-empty :
    (fuel rounds : ℕ) (h : Heap) (size : ℕ) → size ≡ 0 → kmalloc fuel (suc rounds) h size ≡ (0, h)
unfolding kmalloc
kmalloc-empty fuel rounds h size z = rw z refl

kmalloc-out : (fuel : ℕ) (h : Heap) (size : ℕ) → kmalloc fuel 0 h size ≡ (0, h)
unfolding kmalloc
kmalloc-out fuel h size = refl

module _ (fuel rounds : ℕ)
    (again : (h : Heap) (blocks : ℕ → Bool) (size : ℕ)
      → Inv h blocks 0
      → size + 7 < 2 ^ 64
      → Done h blocks size (kmalloc fuel rounds h size))
    (h : Heap) (blocks : ℕ → Bool) (v : Inv h blocks 0) where
  after_growth : ℕ → Heap × Bool → ℕ × Heap
  after_growth need r = if r.1 then kmalloc fuel rounds r.0 need else (0, r.0)

  fails-Done :
      (need : ℕ)
      → grow_heap h need ≡ (h, false)
      → Done h blocks need (after_growth need (grow_heap h need))
  unfolding after_growth
  fails-Done need e =
      subst (Done h blocks need) (ap (after_growth need) (sym e)) (Done-none h blocks need v)

  grown-Done :
      (need : ℕ) → need + 7 < 2 ^ 64 → Done h blocks need (after_growth need (grow_heap h need))
  unfolding after_growth
  grown-Done need room = elim (ℕ_discrete (pages_for need) 0) [
    | yes z ↦
        fails-Done need (grow_heap-fails h need (alloc_contiguous-zero h.frames (pages_for need) z))
    | no some_pages ↦ elim (alloc_contiguous_lem h.frames (pages_for need) v.frames some_pages) [
      | inl (start, at, taken) ↦
          let not_before = not_block_before h need blocks v start at some_pages taken in
          let inv = added-Inv h need blocks v start at some_pages taken in
          subst (Done h blocks need)
            (ap (after_growth need)
              (sym (grow_heap-added h need blocks v start at some_pages taken)))
            (added-Done h need blocks not_before need
              (kmalloc fuel rounds (added h need blocks not_before) need)
              (again (added h need blocks not_before) (more h need blocks not_before) need inv
                room))
      | inr (e, _) ↦ fails-Done need (grow_heap-fails h need e)
    ]
  ]

  search-Done :
      (size need : ℕ)
      → need ≢ 0
      → need + 7 < 2 ^ 64
      → Done h blocks need (search_with h size fuel rounds need)
  unfolding after_growth
  search-Done size need bytes room = elim (Option-cases (first_fit fuel h.nodes h.free_head need)) [
    | inl e ↦
        subst (Done h blocks need) (ap (found_or_grown h size fuel rounds need) (sym e))
          (grown-Done need room)
    | inr (cur, e) ↦
        subst (Done h blocks need) (ap (found_or_grown h size fuel rounds need) (sym e))
          (found-Done fuel h blocks need cur v bytes e)
  ]

  step-Done : (size : ℕ) → size + 7 < 2 ^ 64 → Done h blocks size (kmalloc fuel (suc rounds) h size)
  step-Done size room = elim (ℕ_discrete size 0) [
    | yes z ↦
        subst (Done h blocks size) (sym (kmalloc-empty fuel rounds h size z))
          (Done-none h blocks size v)
    | no bytes ↦
        let need = align_up size 8 in
        let rounded = align_up_lem size room in
        subst (Done h blocks size) (sym (kmalloc-search_with h size fuel rounds bytes)) (
          Done-le h blocks need size (search_with h size fuel rounds need) (omega (arith, rounded))
            (search-Done size need (omega (arith, rounded)) (omega (arith, rounded))))
  ]

-- Let the invariant hold, and let the size with 7 more be less than 2 ^ 64. Then it holds after
-- `kmalloc`, every block in use keeps its mark and its size, and the result is NULL or the payload of
-- a block of at least that size that is in use and was not before.
pub kmalloc-Done :
    (fuel rounds : ℕ) (h : Heap) (blocks : ℕ → Bool) (size : ℕ)
    → Inv h blocks 0
    → size + 7 < 2 ^ 64
    → Done h blocks size (kmalloc fuel rounds h size)
kmalloc-Done fuel zero h blocks size v room =
    subst (Done h blocks size) (sym (kmalloc-out fuel h size)) (Done-none h blocks size v)
kmalloc-Done fuel (suc rounds) h blocks size v room =
    step-Done fuel rounds (λ h blocks size. kmalloc-Done fuel rounds h blocks size) h blocks v size
      room
