-- ===== src/Heap/Examples.antt =====
-- Runs of the heap, and its theorems at a concrete heap.
use aura_os.Allocator.Calls.{pick, Call, allocate, release, AllApart}
use aura_os.Heap.Runs.{run}
use aura_os.Heap.Succeeds.{kmalloc-run}
use aura_os.Heap.Separate.{start, AllApart-run}
use aura_os.Pmm.Range.{AreFree}
use aura_os.Heap.Bare.{bare, memory-IsValid}
use aura_os.Heap.Accounts.{without}
use aura_os.Base.{
  sym, ◌≤◌, zero, suc, subst, ◌≢◌, List, ◌≡◌, ◌+◌, ◌-◌, ◌^◌, refl, ap, ℕ, [], ◌∷◌, replicate, arith,
  true, false, u64,
}
use aura_os.Heap.{
  Heap, Block, Nodes, init, align_up, header_size, split_at, can_split, kmalloc, kfree, get_used,
  get_free, put,
}
use aura_os.Heap.FreeList.{IsFreeList}
use aura_os.Pmm.{alloc_contiguous, find_range, mark_range}
use aura_os.Heap.Grow.{pages_for}
use aura_os.Heap.Fit.{after_split, kmalloc-IsFreeList}

abbrev block : ℕ → ℕ → ℕ → Block
block size next_free prev_free = record {
  size = size;
  used = false;
  next = 0;
  prev = 0;
  next_free = next_free;
  prev_free = prev_free;
}

-- A small block at 8192, and behind it in the list a page at 4096.
abbrev blocks : Nodes
blocks = put (put (λ _. block 0 0 0) 4096 (block 4048 0 8192)) 8192 (block 64 4096 0)

abbrev heap : Heap
heap = record {
  nodes = blocks;
  free_head = 8192;
  heap_used = 0;
  phys_offset = 0;
  frames = record { bitmap = []; total_frames = 0; used_frames = 0; alloc_hint = 0 };
}

free_before : get_free 5 heap ≡ 4112
unfolding get_free
free_before = refl

address : (kmalloc 5 1 heap 100).0 ≡ 4144
unfolding kmalloc
address = refl

used_after : get_used (kmalloc 5 1 heap 100).1 ≡ 104
unfolding get_used kmalloc
used_after = refl

-- What is freed is joined with what was split off.
free_again : get_free 5 (kfree (kmalloc 5 1 heap 100).1 4144) ≡ 4112
unfolding get_free kmalloc kfree
free_again = refl

heap-IsFreeList : IsFreeList heap (8192 ∷ 4096 ∷ [])
heap-IsFreeList =
    ((omega arith, (omega arith, tt), (omega arith, tt, tt)), (refl, refl, (refl, refl, refl)))

kmalloc-IsFreeList_example :
    ((kmalloc 5 1 heap 100).0 ≡ u64 (4096 + header_size))
    × IsFreeList (kmalloc 5 1 heap 100).1 (
        after_split
          (can_split (heap.nodes 4096) (align_up 100 8))
          (split_at 4096 (align_up 100 8))
          (8192 ∷ []))
kmalloc-IsFreeList_example =
    kmalloc-IsFreeList 5 0 heap 100 (8192 ∷ []) 4096 [] heap-IsFreeList (omega arith)
      (omega arith, tt) (omega arith) (omega arith) (omega arith, (omega arith, tt)) (omega arith)

-- A size just below 2^64 is rounded to 0.
wraps : align_up (2 ^ 64 - 1) 8 ≡ 0
wraps = refl

-- The same heap over 64 frames, the first four of them in use: 5000 bytes need two more.
abbrev roomy : Heap
roomy = record heap {
  frames = record {
    bitmap = true ∷ true ∷ true ∷ true ∷ replicate 60 false;
    total_frames = 64;
    used_frames = 4;
    alloc_hint = 0;
  };
}

two_frames : (alloc_contiguous roomy.frames 2).0 ≡ 16384
unfolding alloc_contiguous find_range
two_frames = refl

-- The heap grows twice; the block that is freed between two others is taken again.
abbrev calls : List Call
calls = allocate 100 ∷ allocate 200 ∷ allocate 5000 ∷ release 1 ∷ allocate 150 ∷ []

live_after : (run 5 2 (start bare) calls).live ≡ (150, 4296) ∷ (5000, 8240) ∷ (100, 4144) ∷ []
unfolding run kmalloc kfree init alloc_contiguous find_range mark_range pick without
live_after = refl

AllApart-run_example : AllApart (run 5 2 (start bare) calls).live
AllApart-run_example =
    AllApart-run bare memory-IsValid refl 5 2 calls
      (omega arith, (omega arith, (omega arith, (omega arith, tt))))

-- 5000 bytes and a header are two frames, and all but frame 0 are free at first.
two_pages : pages_for (align_up 5000 8) ≡ 2
two_pages = refl

same_frames : (run 1 2 (start bare) []).heap.frames ≡ bare.frames
unfolding run init
same_frames = refl

inside : 1 + pages_for (align_up 5000 8) ≤ (run 1 2 (start bare) []).heap.frames.total_frames
inside = omega (arith, ap (λ f. f.total_frames) same_frames)

free_frames : AreFree bare.frames.bitmap 1 2
free_frames zero lo hi = absurd (omega arith)
free_frames (suc zero) lo hi = refl
free_frames (suc (suc zero)) lo hi = refl
free_frames (suc (suc (suc i))) lo hi = absurd (omega arith)

free_after : AreFree (run 1 2 (start bare) []).heap.frames.bitmap 1 (pages_for (align_up 5000 8))
free_after = subst (λ f. AreFree f.bitmap 1 2) (sym same_frames) free_frames

kmalloc-run_example : (kmalloc 1 2 (run 1 2 (start bare) []).heap 5000).0 ≢ 0
kmalloc-run_example =
    kmalloc-run bare memory-IsValid refl 0 0 [] tt 5000 1 (omega arith) (omega arith) inside
      free_after
