-- ===== src/Heap/Growth.antt =====
-- The growth of the heap and the invariant.
use native.Mathlib.Decide.{dec_lt}
use aura_os.Base.{
  ℕ, ◌+◌, ◌-◌, ◌*◌, ◌^◌, ◌≤◌, ◌≡◌, ◌≢◌, refl, sym, ap, ◌∙◌, Bool, true, false, ◌&&◌, not, inl, inr,
  arith, ◌==◌, ==_refl, ==_iff, u64,
}
use aura_os.Pmm.{Pmm, is_used, alloc_contiguous}
use aura_os.Pmm.Contiguous.{HasTaken, alloc_contiguous-IsValid}
use aura_os.Heap.{Block, Heap, put, free_list_add, grow_heap}
use aura_os.Heap.FreeList.{Links-Agree}
use aura_os.Heap.Grow.{pages_for, grown_at, new_block, grown, grow_heap-grown, put-Agree}
use aura_os.Heap.Layout.{Layout, Layout-SameAt, at_point}
use aura_os.Heap.Extend.{old_ne, extend-Layout}
use aura_os.Heap.Fields.{size_of, next_of, prev_of, used_of, put_field}
use aura_os.Heap.Invariant.{has, Without-has, Inv}
use aura_os.Heap.Steps.{no_zero, free_list_add-Inv}
use aura_os.Heap.Changes.{not_true, flags_cut}

module _ (h : Heap) (size : ℕ) (blocks : ℕ → Bool) (v : Inv h blocks 0) (start : ℕ)
    (at : (alloc_contiguous h.frames (pages_for size)).0 ≡ start * 4096)
    (some_pages : pages_for size ≢ 0)
    (taken : HasTaken h.frames start
      (pages_for size)
      (alloc_contiguous h.frames (pages_for size)).1) where
  abbrev frames' : Pmm
  frames' = (alloc_contiguous h.frames (pages_for size)).1

  start_ne : start ≢ 0
  start_ne z =
      let free_first = taken.were_free 0 (omega arith) (omega arith) in let first = v.first in cc

  still_used : (f : ℕ) → is_used h.frames.bitmap f ≡ true → is_used frames'.bitmap f ≡ true
  still_used f u = elim (dec_lt f start) [
    | yes below ↦ taken.others f (inl below) ∙ u
    | no above ↦ elim (dec_lt f (start + pages_for size)) [
      | yes inside ↦ taken.now_used f (omega arith) inside
      | no beyond ↦ taken.others f (inr (omega arith)) ∙ u
    ]
  ]

  addressable : (start + pages_for size) * 4096 ≤ 2 ^ 64
  addressable = omega (arith, taken.within, v.frames.addressable)

  place : grown_at h size ≡ start * 4096
  place =
      ap (λ o. u64 ((alloc_contiguous h.frames (pages_for size)).0 + o)) v.identity
      ∙ omega (arith, at, addressable)

  got : (alloc_contiguous h.frames (pages_for size)).0 ≢ 0
  got z = start_ne (omega (arith, at))

  fresh : (c : ℕ) → blocks c ≡ true → c ≢ start * 4096
  fresh c mine =
      old_ne (size_of h.nodes) (next_of h.nodes) (prev_of h.nodes) (is_used h.frames.bitmap)
        (is_used frames'.bitmap) blocks v.layout start (pages_for size) start_ne (omega arith)
        addressable taken.were_free taken.now_used still_used c mine

  not_block : blocks (grown_at h size) ≡ false
  not_block = not_true (blocks (grown_at h size)) (λ e. fresh (grown_at h size) e place)

  grown-Layout :
      Layout
        (size_of (grown h size).nodes)
        (next_of (grown h size).nodes)
        (prev_of (grown h size).nodes)
        (is_used frames'.bitmap)
        (at_point blocks (grown_at h size) true)
  grown-Layout =
      let s = size_of h.nodes in
      let n = next_of h.nodes in
      let p = prev_of h.nodes in
      rw place (
        Layout-SameAt (at_point s (start * 4096) (pages_for size * 4096 - 48))
          (at_point n (start * 4096) 0) (at_point p (start * 4096) 0)
          (size_of (put h.nodes (start * 4096) (new_block h size)))
          (next_of (put h.nodes (start * 4096) (new_block h size)))
          (prev_of (put h.nodes (start * 4096) (new_block h size))) (is_used frames'.bitmap)
          (at_point blocks (start * 4096) true)
          (λ q. sym (put_field (λ (b : Block). b.size) h.nodes (start * 4096) (new_block h size) q))
          (λ q. sym (put_field (λ (b : Block). b.next) h.nodes (start * 4096) (new_block h size) q))
          (λ q. sym (put_field (λ (b : Block). b.prev) h.nodes (start * 4096) (new_block h size) q))
          (extend-Layout s n p (is_used h.frames.bitmap) (is_used frames'.bitmap) blocks v.layout
            start (pages_for size) start_ne (omega arith) addressable taken.were_free taken.now_used
            still_used))

  out : has (grown_at h size) v.list ≡ false
  out = v.listed (grown_at h size) ∙ rw not_block refl

  grown-Inv : Inv (grown h size) (at_point blocks (grown_at h size) true) (grown_at h size)
  grown-Inv = record {
    list = v.list;
    layout = grown-Layout;
    free = (
      v.free.0,
      Links-Agree h.nodes (grown h size).nodes 0 h.free_head v.list
          (put-Agree h.nodes (grown_at h size) (new_block h size) v.list
            (Without-has (grown_at h size) v.list out))
          v.free.1,
    );
    listed = λ b.
        v.listed b
        ∙ flags_cut (blocks b) (used_of h.nodes b) (b == grown_at h size) (b == 0)
            (λ e. ap blocks ((==_iff b (grown_at h size)).0 e) ∙ not_block) (no_zero h blocks 0 v b)
        ∙ ap
            (λ t. at_point blocks (grown_at h size) true b && (not t && not (b == grown_at h size)))
            (sym
              (put_field (λ (b : Block). b.used) h.nodes (grown_at h size) (new_block h size) b));
    frames = alloc_contiguous-IsValid h.frames (pages_for size) v.frames;
    first = still_used 0 v.first;
    identity = v.identity;
  }

  -- The heap with the new block on its list.
  pub added-Inv :
      Inv
        (free_list_add (grown h size) (grown_at h size))
        (at_point blocks (grown_at h size) true)
        0
  added-Inv =
      free_list_add-Inv (grown h size) (at_point blocks (grown_at h size) true) (grown_at h size)
        (rw (==_refl (grown_at h size)) refl)
        (put_field (λ (b : Block). b.used) h.nodes (grown_at h size) (new_block h size)
            (grown_at h size)
          ∙ rw (==_refl (grown_at h size)) refl)
        grown-Inv

  pub not_block_before : blocks (grown_at h size) ≡ false
  not_block_before = not_block

  pub grow_heap-added : grow_heap h size ≡ (free_list_add (grown h size) (grown_at h size), true)
  grow_heap-added = grow_heap-grown h size got
