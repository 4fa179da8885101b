-- ===== src/Heap/TakeBlock.antt =====
-- `take_block` of a free block, with and without a split, and the invariant.
use aura_os.Base.{
  ℕ, ◌+◌, ◌≤◌, ◌≡◌, ◌≢◌, refl, sym, ap, ◌∙◌, Bool, true, false, inl, inr, arith, ◌==◌,
  if◌then◌else◌, ==_refl, ==_false, leb→le, Bool-cases, subst, u64,
}
use aura_os.Heap.{
  Block, Heap, put, free_list_add, free_list_remove, split_at, can_split, split_block, take_block,
  header_size, min_split,
}
use aura_os.Pmm.{is_used}
use aura_os.Heap.Layout.{at_point}
use aura_os.Heap.Split.{split_new}
use aura_os.Heap.Fields.{
  size_of, next_of, prev_of, used_of, free_list_add_kept, size-Unlinked, used-Unlinked, shrink_size,
  shrink_used,
}
use aura_os.Heap.Invariant.{Inv}
use aura_os.Heap.Steps.{free_list_add-Inv}
use aura_os.Heap.Changes.{cut, cut_at, cut-Inv}
use aura_os.Heap.Take.{true_ne_false, Kept, Done, take-Done}

module _ (h : Heap) (blocks : ℕ → Bool) (cur n : ℕ) (v : Inv h blocks 0) (mine : blocks cur ≡ true)
    (unused : used_of h.nodes cur ≡ false) (fits : n ≤ size_of h.nodes cur) (bytes : n ≢ 0) where
  room : can_split (h.nodes cur) n ≡ true → n + 80 ≤ size_of h.nodes cur
  unfolding can_split
  room e =
      let (away, inside) = v.layout.bound cur mine in
      let up = v.layout.above cur mine in
      let enough = leb→le (u64 (n + header_size + min_split)) (h.nodes cur).size e in
      omega (arith, inside, up, enough, fits)

  place : n + 80 ≤ size_of h.nodes cur → split_at cur n ≡ cur + 48 + n
  place more = let (away, inside) = v.layout.bound cur mine in omega (arith, inside, more)

  -- `take_block` after the split.
  took : Heap → ℕ × Heap
  took s = (
    u64 (cur + header_size),
    record (free_list_remove s cur) {
      nodes =
          put (free_list_remove s cur).nodes cur
            (record ((free_list_remove s cur).nodes cur) { used = true });
      heap_used =
          u64 ((free_list_remove s cur).heap_used + ((free_list_remove s cur).nodes cur).size);
    },
  )

  take_block-took : take_block h cur n ≡ took (split_block h cur n)
  unfolding take_block took
  take_block-took = refl

  whole : can_split (h.nodes cur) n ≡ false → split_block h cur n ≡ h
  unfolding split_block
  whole e = rw e refl

  take_whole : can_split (h.nodes cur) n ≡ false → Done h blocks n (take_block h cur n)
  unfolding took
  take_whole e = subst (Done h blocks n) (sym (take_block-took ∙ ap took (whole e))) (
      take-Done h h blocks blocks cur n
        (u64 ((free_list_remove h cur).heap_used + ((free_list_remove h cur).nodes cur).size)) v
        mine unused fits bytes (λ b m u other. (m, u, refl)) (λ _. unused))

  module _ (more : n + 80 ≤ size_of h.nodes cur) where
    enough : n + 48 ≤ size_of h.nodes cur
    enough = omega (arith, more)

    abbrev at : ℕ
    at = cut_at h blocks cur n mine enough

    abbrev two : Heap
    two = cut h blocks cur n mine enough

    abbrev both : ℕ → Bool
    both = at_point blocks at true

    apart : cur ≢ at
    apart e = omega (arith, e)

    fresh : (b : ℕ) → blocks b ≡ true → b ≢ at
    fresh b m e =
        split_new (size_of h.nodes) (next_of h.nodes) (prev_of h.nodes) (is_used h.frames.bitmap)
          blocks v.layout cur n mine enough (sym (ap blocks e) ∙ m)

    size_two :
        (b : ℕ)
        → b ≢ at
        → size_of (free_list_add two at).nodes b ≡ (if b == cur then n else size_of h.nodes b)
    size_two b ne =
        free_list_add_kept (λ (q : Block). q.size) size-Unlinked two at b
        ∙ shrink_size h.nodes cur n at b
        ∙ rw (==_false b at ne) refl

    used_two :
        (b : ℕ)
        → used_of (free_list_add two at).nodes b ≡ (if b == at then false else used_of h.nodes b)
    used_two b =
        free_list_add_kept (λ (q : Block). q.used) used-Unlinked two at b
        ∙ shrink_used h.nodes cur n at b

    two-Inv : Inv (free_list_add two at) both 0
    two-Inv =
        free_list_add-Inv two both at (rw (==_refl at) refl)
          (shrink_used h.nodes cur n at at ∙ rw (==_refl at) refl)
          (cut-Inv h blocks cur n mine enough v)

    two-Kept : Kept h blocks (free_list_add two at) both 0
    two-Kept = λ b m u other.
        let ne = fresh b m in
        let idle : b ≢ cur = λ e. true_ne_false (sym u ∙ ap (used_of h.nodes) e ∙ unused) in
        (
          rw (==_false b at ne) m,
          used_two b ∙ rw (==_false b at ne) u,
          size_two b ne ∙ rw (==_false b cur idle) refl,
        )

    two-Done : Done h blocks n (took (free_list_add two at))
    unfolding took
    two-Done =
        let s = free_list_add two at in
        let cut_size : size_of s.nodes cur ≡ n = size_two cur apart ∙ rw (==_refl cur) refl in
        take-Done h s blocks both cur n
          (u64 ((free_list_remove s cur).heap_used + ((free_list_remove s cur).nodes cur).size))
          two-Inv (rw (==_false cur at apart) mine)
          (used_two cur ∙ rw (==_false cur at apart) unused) (omega (arith, cut_size)) bytes
          two-Kept (λ _. unused)

    split_two : can_split (h.nodes cur) n ≡ true → split_block h cur n ≡ free_list_add two at
    unfolding split_block
    split_two e = rw (e, place more) refl

  pub take_block-Done : Done h blocks n (take_block h cur n)
  take_block-Done = elim (Bool-cases (can_split (h.nodes cur) n)) [
    | inl e ↦
        subst (Done h blocks n) (sym (take_block-took ∙ ap took (split_two (room e) e)))
          (two-Done (room e))
    | inr e ↦ take_whole e
  ]
