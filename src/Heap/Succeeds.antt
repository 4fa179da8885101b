-- ===== src/Heap/Succeeds.antt =====
-- When `kmalloc` does not return NULL.
use aura_os.Base.{
  ℕ, suc, ◌+◌, ◌^◌, ◌≤◌, ◌<◌, ◌≡◌, ◌≢◌, refl, sym, ap, ◌∙◌, Bool, true, inl, inr, arith, ◌==◌,
  if◌then◌else◌, ==_refl, ==_false, some, Option-cases, le→leb, List, subst, u64,
}
use aura_os.Allocator.Calls.{Call}
use aura_os.Pmm.{is_used}
use aura_os.Pmm.Invariant
use aura_os.Pmm.Range.{AreFree}
use aura_os.Pmm.Contiguous.{alloc_contiguous_lem}
use aura_os.Heap.{
  Heap, align_up, free_list_add, first_fit, grow_heap, take_block, kmalloc, header_size,
}
use aura_os.Heap.Grow.{
  pages_for, grown_at, grown, grown_fits, found_or_grown, search_with, kmalloc-search_with,
}
use aura_os.Heap.Fields.{size_of, used_of}
use aura_os.Heap.Invariant.{Inv}
use aura_os.Heap.Growth.{added-Inv, not_block_before, grow_heap-added}
use aura_os.Heap.Take.{align_up_lem, first_fit-has}
use aura_os.Heap.Obtain.{listed_parts, added, more}
use aura_os.Heap.Runs.{run, Sizes, run-IsValid}
use aura_os.Heap.Separate.{start, start-IsValid}

take_block-address : (h : Heap) (cur n : ℕ) → (take_block h cur n).0 ≡ u64 (cur + header_size)
unfolding take_block
take_block-address h cur n = refl

-- A block that a search finds has an address that is not NULL.
found-address :
    (fuel : ℕ) (h : Heap) (blocks : ℕ → Bool) (need cur : ℕ)
    → Inv h blocks 0
    → need ≢ 0
    → first_fit fuel h.nodes h.free_head need ≡ some cur
    → (take_block h cur need).0 ≢ 0
found-address fuel h blocks need cur v bytes e =
    let (within, fits) =
      first_fit-has fuel need h.nodes 0 h.free_head v.list cur v.free.0 v.free.1 e in
    let (mine, unused) =
      listed_parts (blocks cur) (used_of h.nodes cur) (cur == 0) (sym (v.listed cur) ∙ within) in
    let (away, inside) = v.layout.bound cur mine in
    let address = take_block-address h cur need in
    λ z. omega (arith, z, address, inside, fits, bytes)

first_fit-front :
    (fuel : ℕ) (h : Heap) (cur need : ℕ)
    → h.free_head ≡ cur
    → cur ≢ 0
    → need ≤ size_of h.nodes cur
    → first_fit (suc fuel) h.nodes h.free_head need ≡ some cur
unfolding first_fit
first_fit-front fuel h cur need front away fits =
    rw (front, ==_false cur 0 away, le→leb need (size_of h.nodes cur) fits) refl

free_list_add-front : (h : Heap) (c : ℕ) → (free_list_add h c).free_head ≡ c
unfolding free_list_add
free_list_add-front h c = refl

-- The first of the free blocks is large enough for a size that is rounded up.
front-address :
    (fuel rounds : ℕ) (h : Heap) (blocks : ℕ → Bool) (cur need : ℕ)
    → Inv h blocks 0
    → h.free_head ≡ cur
    → cur ≢ 0
    → need ≢ 0
    → align_up need 8 ≡ need
    → need ≤ size_of h.nodes cur
    → (kmalloc (suc fuel) (suc rounds) h need).0 ≢ 0
front-address fuel rounds h blocks cur need v front away bytes whole fits =
    let found = first_fit-front fuel h cur need front away fits in
    let search : kmalloc (suc fuel) (suc rounds) h need ≡ take_block h cur need =
      kmalloc-search_with h need (suc fuel) rounds bytes
      ∙ ap (search_with h need (suc fuel) rounds) whole
      ∙ ap (found_or_grown h need (suc fuel) rounds need) found in
    subst (λ (r : ℕ × Heap). r.0 ≢ 0) (sym search)
      (found-address (suc fuel) h blocks need cur v bytes found)

module _ (fuel rounds : ℕ) (h : Heap) (blocks : ℕ → Bool) (v : Inv h blocks 0) (need : ℕ)
    (bytes : need ≢ 0) (whole : align_up need 8 ≡ need) (room : need + 2 ^ 13 < 2 ^ 64) (a : ℕ)
    (inside : a + pages_for need ≤ h.frames.total_frames)
    (free : AreFree h.frames.bitmap a (pages_for need)) where
  some_pages : pages_for need ≢ 0
  some_pages z = omega (arith, z)

  abbrev tried : Heap × Bool → ℕ × Heap
  tried r = if r.1 then kmalloc (suc fuel) (suc rounds) r.0 need else (0, r.0)

  grown-address : (tried (grow_heap h need)).0 ≢ 0
  grown-address = elim (alloc_contiguous_lem h.frames (pages_for need) v.frames some_pages) [
    | inl (start, at, taken) ↦
        let not_before = not_block_before h need blocks v start at some_pages taken in
        let inv = added-Inv h need blocks v start at some_pages taken in
        let g = added h need blocks not_before in
        let away = (inv.layout.bound (grown_at h need) (rw (==_refl (grown_at h need)) refl)).0 in
        subst (λ (r : ℕ × Heap). r.0 ≢ 0)
          (ap tried (sym (grow_heap-added h need blocks v start at some_pages taken)))
          (front-address fuel rounds g (more h need blocks not_before) (grown_at h need) need inv
            (free_list_add-front (grown h need) (grown_at h need)) away bytes whole
            (grown_fits h need room))
    | inr (_, full) ↦ absurd (full a inside free)
  ]

kmalloc-address :
    (fuel rounds : ℕ) (h : Heap) (blocks : ℕ → Bool) (size a : ℕ)
    → Inv h blocks 0
    → size ≢ 0
    → size + 2 ^ 14 < 2 ^ 64
    → a + pages_for (align_up size 8) ≤ h.frames.total_frames
    → AreFree h.frames.bitmap a (pages_for (align_up size 8))
    → (kmalloc (suc fuel) (suc (suc rounds)) h size).0 ≢ 0
kmalloc-address fuel rounds h blocks size a v bytes room inside free =
    let need = align_up size 8 in
    let rounded = align_up_lem size (omega (arith, room)) in
    let some_bytes : need ≢ 0 = λ z. omega (arith, z, rounded, bytes) in
    let again = align_up_lem need (omega (arith, rounded, room)) in
    let whole : align_up need 8 ≡ need = omega (arith, again, rounded) in
    let enough : need + 2 ^ 13 < 2 ^ 64 = omega (arith, rounded, room) in
    subst (λ (r : ℕ × Heap). r.0 ≢ 0)
      (sym (kmalloc-search_with h size (suc fuel) (suc rounds) bytes))
      (elim (Option-cases (first_fit (suc fuel) h.nodes h.free_head need)) [
        | inl e ↦
            subst (λ (r : ℕ × Heap). r.0 ≢ 0)
              (ap (found_or_grown h size (suc fuel) (suc rounds) need) (sym e))
              (grown-address fuel rounds h blocks v need some_bytes whole enough a inside free)
        | inr (cur, e) ↦
            subst (λ (r : ℕ × Heap). r.0 ≢ 0)
              (ap (found_or_grown h size (suc fuel) (suc rounds) need) (sym e))
              (found-address (suc fuel) h blocks need cur v some_bytes e)
      ])

-- Let the heap be initialised without an offset over a valid frame allocator with frame 0 in use.
-- After any calls of `kmalloc`, for sizes that do not wrap when they are rounded up, and of `kfree`
-- for what is allocated, an allocation does not return NULL if its size is other than 0 and more
-- than 2 ^ 14 below 2 ^ 64 and as many frames as it needs are free in a row, even if its search of
-- the free list is of one step, and with one call of `kmalloc` by itself.
pub kmalloc-run :
    (h : Heap)
    → Invariant.IsValid h.frames
    → is_used h.frames.bitmap 0 ≡ true
    → (fuel rounds : ℕ) (cs : List Call) → Sizes cs
    → (size a : ℕ) → size ≢ 0
    → size + 2 ^ 14 < 2 ^ 64
    → a + pages_for (align_up size 8)
      ≤ (run (suc fuel) (suc (suc rounds)) (start h) cs).heap.frames.total_frames
    → AreFree
        (run (suc fuel) (suc (suc rounds)) (start h) cs).heap.frames.bitmap
        a
        (pages_for (align_up size 8))
    → (kmalloc
        (suc fuel)
        (suc (suc rounds))
        (run (suc fuel) (suc (suc rounds)) (start h) cs).heap
        size).0
      ≢ 0
kmalloc-run h valid first fuel rounds cs fits size a bytes room inside free =
    let (blocks, v, all) =
      run-IsValid (suc fuel) (suc (suc rounds)) (start h) cs fits (start-IsValid h valid first) in
    kmalloc-address fuel rounds (run (suc fuel) (suc (suc rounds)) (start h) cs).heap blocks size a
      v bytes room inside free
