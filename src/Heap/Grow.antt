-- ===== src/Heap/Grow.antt =====
-- An allocation that no free block is large enough for: the heap grows and the new block is taken.
use aura_os.Base.{
  ℕ, zero, suc, ◌+◌, ◌-◌, ◌*◌, ◌/◌, ◌^◌, ◌≤◌, ◌<◌, ◌≡◌, ◌≢◌, refl, sym, ap, ◌∙◌, Bool, true, false,
  List, [], ◌∷◌, arith, ◌==◌, ==_false, ==_refl, ==_iff, Bool-cases, inl, inr, if_elim,
  if◌then◌else◌, subst, length, Option, none, some, lt→leb, u64,
}
use aura_os.Pmm.{page_size, alloc_contiguous}
use aura_os.Heap.{
  Block, Nodes, Heap, put, set_next_free, set_prev_free, align_up, free_list_add, first_fit,
  take_block, split_at, can_split, grow_heap, kmalloc, header_size,
}
use aura_os.Heap.FreeList.{
  Without, Distinct, Links, IsFreeList, Agree, Links-Agree, put_next, put_prev, if_other,
  free_list_add-IsFreeList,
}
use aura_os.Heap.Fit.{AllSmall, after_split, kmalloc-IsFreeList}

first_fit-none :
    (nodes : Nodes) (size : ℕ) (l : List ℕ) (fuel before p : ℕ)
    → length l < fuel
    → Distinct l
    → Links nodes before p l
    → AllSmall nodes size l
    → first_fit fuel nodes p size ≡ none
unfolding first_fit
first_fit-none nodes size l zero before p room d k small = absurd (omega arith)
first_fit-none nodes size [] (suc fuel) before p room d k small = rw k refl
first_fit-none nodes size (y ∷ ys) (suc fuel) before p room d k small =
    let small_p = subst (λ q. (nodes q).size < size) (sym k.0) small.0 in
    rw (==_false p 0 (λ e. d.0 (sym k.0 ∙ e)), lt→leb size (nodes p).size small_p)
      (first_fit-none nodes size ys fuel y (nodes p).next_free (omega arith) d.2
        (subst (λ q. Links nodes y (nodes q).next_free ys) (sym k.0) k.2) small.1)

pub put-Agree :
    (nodes : Nodes) (a : ℕ) (b : Block) (l : List ℕ) → Without a l → Agree nodes (put nodes a b) l
put-Agree nodes a b [] out = tt
put-Agree nodes a b (x ∷ xs) out = (
  sym (put_prev nodes a x b ∙ if_other a x b.prev_free (nodes x).prev_free out.0),
  sym (put_next nodes a x b ∙ if_other a x b.next_free (nodes x).next_free out.0),
  put-Agree nodes a b xs out.1,
)

-- The pages of a block of `size` bytes with its header.
abbrev pub pages_for : ℕ → ℕ
pages_for size = u64 (u64 (size + header_size) + (page_size - 1)) / page_size

put_size :
    (nodes : Nodes) (a p : ℕ) (b : Block)
    → b.size ≡ (nodes a).size
    → (put nodes a b p).size ≡ (nodes p).size
put_size nodes a p b same = elim (Bool-cases (p == a)) [
  | inl e ↦ rw e (same ∙ ap (λ q. (nodes q).size) (sym ((==_iff p a).0 e)))
  | inr e ↦ rw e refl
]

-- Linking a block changes no block's size.
free_list_add_size :
    (h : Heap) (blk p : ℕ) → ((free_list_add h blk).nodes p).size ≡ (h.nodes p).size
unfolding free_list_add
free_list_add_size h blk p =
    let one = set_next_free h.nodes blk h.free_head in
    let two = set_prev_free one blk 0 in
    let sizes : (two p).size ≡ (h.nodes p).size =
      put_size one blk p (record (one blk) { prev_free = 0 }) refl
      ∙ put_size h.nodes blk p (record (h.nodes blk) { next_free = h.free_head }) refl in
    if_elim (λ (t : Nodes). (t p).size ≡ (h.nodes p).size) (h.free_head == 0) (λ _. sizes)
      (λ _. put_size two h.free_head p (record (two h.free_head) { prev_free = blk }) refl ∙ sizes)

module _ (h : Heap) (size : ℕ) where
  -- The address of the new block, and the heap before it is linked.
  abbrev pub grown_at : ℕ
  grown_at = u64 ((alloc_contiguous h.frames (pages_for size)).0 + h.phys_offset)

  abbrev pub new_block : Block
  new_block = record {
    size = pages_for size * page_size - header_size;
    used = false;
    next = 0;
    prev = 0;
    next_free = 0;
    prev_free = 0;
  }

  abbrev pub grown : Heap
  grown = record h {
    nodes = put h.nodes grown_at new_block;
    frames = (alloc_contiguous h.frames (pages_for size)).1;
  }

  pub grow_heap-grown :
      (alloc_contiguous h.frames (pages_for size)).0 ≢ 0
      → grow_heap h size ≡ (free_list_add grown grown_at, true)
  unfolding grow_heap
  grow_heap-grown got = rw (==_false (alloc_contiguous h.frames (pages_for size)).0 0 got) refl

  grown-IsFreeList :
      (l : List ℕ)
      → IsFreeList h l
      → grown_at ≢ 0
      → Without grown_at l
      → IsFreeList (free_list_add grown grown_at) (grown_at ∷ l)
  grown-IsFreeList l free away out =
      free_list_add-IsFreeList grown l grown_at
        (
          free.0,
          Links-Agree h.nodes grown.nodes 0 h.free_head l
              (put-Agree h.nodes grown_at new_block l out) free.1,
        )
        away out

  pub grown_fits :
      size + 2 ^ 13 < 2 ^ 64 → size ≤ ((free_list_add grown grown_at).nodes grown_at).size
  grown_fits room =
      let same : ((free_list_add grown grown_at).nodes grown_at).size
          ≡ pages_for size * page_size - header_size =
        free_list_add_size grown grown_at grown_at
        ∙ ap (λ t. (if t then new_block else h.nodes grown_at).size) (==_refl grown_at) in
      omega (arith, same)

  -- What `kmalloc` does with a rounded size.
  abbrev pub found_or_grown : ℕ → ℕ → ℕ → Option ℕ → ℕ × Heap
  found_or_grown fuel rounds need found = elim found [
    | some cur ↦ take_block h cur need
    | none ↦
        if (grow_heap h need).1
        then kmalloc fuel rounds (grow_heap h need).0 need
        else (0, (grow_heap h need).0)
  ]

  abbrev pub search_with : ℕ → ℕ → ℕ → ℕ × Heap
  search_with fuel rounds need =
      found_or_grown fuel rounds need (first_fit fuel h.nodes h.free_head need)

  pub kmalloc-search_with :
      (fuel rounds : ℕ)
      → size ≢ 0
      → kmalloc fuel (suc rounds) h size ≡ search_with fuel rounds (align_up size 8)
  unfolding kmalloc
  kmalloc-search_with fuel rounds some_bytes = rw (==_false size 0 some_bytes) refl

  kmalloc_again :
      (fuel rounds : ℕ) (l : List ℕ)
      → IsFreeList h l
      → size ≢ 0
      → align_up size 8 ≡ size
      → AllSmall h.nodes size l
      → length l < fuel
      → (alloc_contiguous h.frames (pages_for size)).0 ≢ 0
      → kmalloc fuel (suc rounds) h size ≡ kmalloc fuel rounds (free_list_add grown grown_at) size
  kmalloc_again fuel rounds l free some_bytes whole small steps got =
      let none_fits = first_fit-none h.nodes size l fuel 0 h.free_head steps free.0 free.1 small in
      kmalloc-search_with fuel rounds some_bytes
      ∙ ap (search_with fuel rounds) whole
      ∙ ap (found_or_grown fuel rounds size) none_fits
      ∙ ap (λ (r : Heap × Bool). if r.1 then kmalloc fuel rounds r.0 size else (0, r.0))
          (grow_heap-grown got)

  -- Let a size other than 0 and a multiple of 8, more than 2 ^ 13 below 2 ^ 64, be more than every free
  -- block, let there be a run of free frames for it, and let neither the new block nor the address
  -- behind the cut be NULL or that of a free block. Then an allocation of that size returns the
  -- payload of the new block, in two calls and with a search of more steps than there are free
  -- blocks, and the free list is as before, with what is left of the new block at the front if that
  -- is enough for a block.
  pub kmalloc-grow_heap :
      (fuel rounds : ℕ) (l : List ℕ)
      → IsFreeList h l
      → size ≢ 0
      → align_up size 8 ≡ size
      → size + 2 ^ 13 < 2 ^ 64
      → AllSmall h.nodes size l
      → length l < fuel
      → (alloc_contiguous h.frames (pages_for size)).0 ≢ 0
      → grown_at ≢ 0
      → Without grown_at l
      → split_at grown_at size ≢ 0
      → Without (split_at grown_at size) (grown_at ∷ l)
      → ((kmalloc fuel (suc (suc rounds)) h size).0 ≡ u64 (grown_at + header_size))
        × IsFreeList (kmalloc fuel (suc (suc rounds)) h size).1 (
            after_split
              (can_split ((free_list_add grown grown_at).nodes grown_at) size)
              (split_at grown_at size)
              l)
  kmalloc-grow_heap fuel rounds l free some_bytes whole room small steps got away out apart beyond =
      let g = free_list_add grown grown_at in
      let back : size ≡ align_up size 8 = sym whole in
      let taken =
        kmalloc-IsFreeList fuel rounds g size [] grown_at l (grown-IsFreeList l free away out)
          some_bytes tt (subst (λ n. n ≤ (g.nodes grown_at).size) back (grown_fits room))
          (subst (λ n. split_at grown_at n ≢ 0) back apart)
          (subst (λ n. Without (split_at grown_at n) (grown_at ∷ l)) back beyond) (omega arith) in
      let again = kmalloc_again fuel (suc rounds) l free some_bytes whole small steps got in
      (
        ap (λ r. r.0) again ∙ taken.0,
        rw again (
            subst
              (λ n.
                IsFreeList (kmalloc fuel (suc rounds) g size).1
                  (after_split (can_split (g.nodes grown_at) n) (split_at grown_at n) l))
              whole taken.1),
      )
