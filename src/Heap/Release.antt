-- ===== src/Heap/Release.antt =====
-- `kfree` and the invariant.
use aura_os.Base.{
  ℕ, ◌+◌, ◌-◌, ◌^◌, ◌≡◌, ◌≢◌, refl, sym, ap, ◌∙◌, Bool, true, false, ◌&&◌, not, arith, ◌==◌,
  if_elim, ==_refl, ==_false, ==_iff, u64,
}
use aura_os.Heap.{
  Block, Heap, free_list_add, free_list_remove, coalesce_right, coalesce_left, kfree, header_size,
}
use aura_os.Heap.Layout.{at_point}
use aura_os.Heap.Fields.{
  size_of, next_of, prev_of, used_of, put_field, put_kept, free_list_add_kept,
  free_list_remove_kept, size-Unlinked, next-Unlinked, used-Unlinked,
}
use aura_os.Heap.MergeFields.{merge, merge_size, merge_used}
use aura_os.Heap.Invariant.{Inv}
use aura_os.Heap.Steps.{free_list_add-Inv, free_list_remove-Inv}
use aura_os.Heap.Changes.{marked, unmark-Inv, joined, join-Inv}
use aura_os.Heap.Take.{true_ne_false, Kept, Kept-trans}

-- What a call leaves: the invariant, and the blocks in use but for one.
pub record Keeps (h : Heap) (blocks : ℕ → Bool) (except : ℕ) (h' : Heap) : Type 0 where
  pub blocks' : ℕ → Bool
  pub inv : Inv h' blocks' 0
  pub kept : Kept h blocks h' blocks' except

-- Two free blocks, one behind the other, become one.
module _ (h : Heap) (blocks : ℕ → Bool) (b n : ℕ) (v : Inv h blocks 0) (mine : blocks b ≡ true)
    (behind : next_of h.nodes b ≡ n) (away : n ≢ 0) (unused : used_of h.nodes b ≡ false)
    (unused_n : used_of h.nodes n ≡ false) where
  follows : (blocks n ≡ true) × (n ≡ b + 48 + size_of h.nodes b)
  follows =
      let l = v.layout.followed b mine (λ z. away (sym behind ∙ z)) in
      (ap blocks (sym behind) ∙ l.0, sym behind ∙ l.1)

  other : n ≢ b
  other e = omega (arith, e, follows.1)

  behind' : next_of (free_list_remove h n).nodes b ≡ n
  behind' = free_list_remove_kept (λ (q : Block). q.next) next-Unlinked h n b ∙ behind

  abbrev both : Heap
  both = joined (free_list_remove h n) blocks b n mine behind' away

  both-Inv : Inv both (at_point blocks n false) 0
  both-Inv =
      join-Inv (free_list_remove h n) blocks b n mine behind' away
        (free_list_remove-Inv h blocks n follows.0 unused_n v)

  both_used : (q : ℕ) → used_of both.nodes q ≡ used_of h.nodes q
  both_used q =
      merge_used (free_list_remove h n).nodes b n other q
      ∙ free_list_remove_kept (λ (q : Block). q.used) used-Unlinked h n q

  both_size : (q : ℕ) → q ≢ b → size_of both.nodes q ≡ size_of h.nodes q
  both_size q ne =
      merge_size (free_list_remove h n).nodes b n other q
      ∙ rw (==_false q b ne) refl
      ∙ free_list_remove_kept (λ (q : Block). q.size) size-Unlinked h n q

  both-Keeps : (except : ℕ) → Keeps h blocks except both
  both-Keeps except = record {
    blocks' = at_point blocks n false;
    inv = both-Inv;
    kept = λ q here used ne.
        let not_n : q ≢ n = λ e. true_ne_false (sym used ∙ ap (used_of h.nodes) e ∙ unused_n) in
        let not_b : q ≢ b = λ e. true_ne_false (sym used ∙ ap (used_of h.nodes) e ∙ unused) in
        (rw (==_false q n not_n) here, both_used q ∙ used, both_size q not_b);
  }

joinable : (z u : Bool) → (not z && not u) ≡ true → (z ≡ false) × (u ≡ false)
joinable false false e = (refl, refl)
joinable false true e = absurd (true_ne_false (sym e))
joinable true u e = absurd (true_ne_false (sym e))

same-Keeps : (h : Heap) (blocks : ℕ → Bool) (except : ℕ) → Inv h blocks 0 → Keeps h blocks except h
same-Keeps h blocks except v = record {
  blocks' = blocks;
  inv = v;
  kept = λ q here used ne. (here, used, refl);
}

Keeps-trans :
    (h : Heap) (blocks : ℕ → Bool) (h' : Heap) (h2 : Heap) (except : ℕ)
    (one : Keeps h blocks except h')
    → Keeps h' one.blocks' except h2
    → Keeps h blocks except h2
Keeps-trans h blocks h' h2 except one two = record {
  blocks' = two.blocks';
  inv = two.inv;
  kept = Kept-trans h blocks h' one.blocks' h2 two.blocks' except one.kept two.kept;
}

ne_of : (p : ℕ) → (p == 0) ≡ false → p ≢ 0
ne_of p e z = true_ne_false (sym ((==_iff p 0).1 z) ∙ e)

module _ (h : Heap) (blocks : ℕ → Bool) (blk except : ℕ) (v : Inv h blocks 0)
    (mine : blocks blk ≡ true) (unused : used_of h.nodes blk ≡ false) where
  coalesce_left-Keeps : Keeps h blocks except (coalesce_left h blk)
  unfolding coalesce_left merge
  coalesce_left-Keeps =
      let prv = prev_of h.nodes blk in
      if_elim (λ (t : Heap). Keeps h blocks except t) (not (prv == 0) && not (used_of h.nodes prv))
        (λ e.
          let (some_block, unused') = joinable (prv == 0) (used_of h.nodes prv) e in
          let (mine', behind) = v.layout.preceded blk mine (ne_of prv some_block) in
          both-Keeps h blocks prv blk v mine' behind (v.layout.bound blk mine).0 unused' unused
            except)
        (λ _. same-Keeps h blocks except v)

  -- A join to the right keeps the block itself.
  right-Result : Heap → Type 0
  right-Result t =
      (r : Keeps h blocks except t) × (r.blocks' blk ≡ true) × (used_of t.nodes blk ≡ false)

  coalesce_right-Result : right-Result (coalesce_right h blk)
  unfolding coalesce_right merge right-Result both-Keeps same-Keeps
  coalesce_right-Result =
      let nxt = next_of h.nodes blk in
      if_elim (λ (t : Heap). right-Result t) (not (nxt == 0) && not (used_of h.nodes nxt))
        (λ e.
          let (some_block, unused') = joinable (nxt == 0) (used_of h.nodes nxt) e in
          let away = ne_of nxt some_block in
          let ne : blk ≢ nxt =
            λ q. other h blocks blk nxt v mine refl away unused unused' (sym q) in
          (
            both-Keeps h blocks blk nxt v mine refl away unused unused' except,
            rw (==_false blk nxt ne) mine,
            both_used h blocks blk nxt v mine refl away unused unused' blk ∙ unused,
          ))
        (λ _. (same-Keeps h blocks except v, mine, unused))

coalesce-Keeps :
    (h : Heap) (blocks : ℕ → Bool) (blk except : ℕ)
    → Inv h blocks 0
    → blocks blk ≡ true
    → used_of h.nodes blk ≡ false
    → Keeps h blocks except (coalesce_left (coalesce_right h blk) blk)
unfolding right-Result
coalesce-Keeps h blocks blk except v mine unused =
    let (r, mine', unused') = coalesce_right-Result h blocks blk except v mine unused in
    Keeps-trans h blocks (coalesce_right h blk) (coalesce_left (coalesce_right h blk) blk) except r
      (coalesce_left-Keeps (coalesce_right h blk) r.blocks' blk except r.inv mine' unused')

module _ (h : Heap) (blocks : ℕ → Bool) (blk w : ℕ) (v : Inv h blocks 0) (mine : blocks blk ≡ true)
    (taken : used_of h.nodes blk ≡ true) where
  abbrev freed : Heap
  freed = marked h blocks blk false w

  freed_used : used_of freed.nodes blk ≡ false
  freed_used =
      put_field (λ (b : Block). b.used) h.nodes blk (record (h.nodes blk) { used = false }) blk
      ∙ rw (==_refl blk) refl

  freed-Keeps : Keeps h blocks blk (free_list_add freed blk)
  freed-Keeps = record {
    blocks' = blocks;
    inv = free_list_add-Inv freed blocks blk mine freed_used (unmark-Inv h blocks blk w taken v);
    kept = λ q here used ne.
        let new = record (h.nodes blk) { used = false } in
        (
          here,
          free_list_add_kept (λ (b : Block). b.used) used-Unlinked freed blk q
              ∙ put_field (λ (b : Block). b.used) h.nodes blk new q
              ∙ rw (==_false q blk ne) used,
          free_list_add_kept (λ (b : Block). b.size) size-Unlinked freed blk q
              ∙ put_kept (λ (b : Block). b.size) h.nodes blk new q refl,
        );
  }

  release-Keeps :
      Keeps h blocks blk (coalesce_left (coalesce_right (free_list_add freed blk) blk) blk)
  unfolding freed-Keeps
  release-Keeps =
      Keeps-trans h blocks (free_list_add freed blk)
        (coalesce_left (coalesce_right (free_list_add freed blk) blk) blk) blk freed-Keeps
        (coalesce-Keeps (free_list_add freed blk) blocks blk blk freed-Keeps.inv mine
          (free_list_add_kept (λ (b : Block). b.used) used-Unlinked freed blk blk ∙ freed_used))

-- Let the invariant hold, and let the header before the address be that of a block in use. Then it
-- holds after `kfree` of the address, and every other block in use keeps its mark and its size.
pub kfree-Keeps :
    (h : Heap) (blocks : ℕ → Bool) (ptr : ℕ)
    → Inv h blocks 0
    → ptr ≢ 0
    → blocks (ptr - header_size) ≡ true
    → used_of h.nodes (ptr - header_size) ≡ true
    → Keeps h blocks (ptr - header_size) (kfree h ptr)
unfolding kfree
kfree-Keeps h blocks ptr v away mine taken =
    let blk = ptr - header_size in
    if_elim (λ (t : Heap). Keeps h blocks blk t) (ptr == 0)
      (λ z. absurd (away ((==_iff ptr 0).0 z)))
      (λ _.
        if_elim (λ (t : Heap). Keeps h blocks blk t) (used_of h.nodes blk)
          (λ _.
            release-Keeps h blocks blk (u64 (h.heap_used + 2 ^ 64 - size_of h.nodes blk)) v mine
              taken)
          (λ e. absurd (true_ne_false (sym taken ∙ e))))
