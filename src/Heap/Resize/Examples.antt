-- ===== src/Heap/Resize/Examples.antt =====
-- The theorems on `krealloc` and `kmalloc_aligned` at a concrete heap.
use aura_os.Base.{◌≡◌, ◌^◌, refl, [], ◌∷◌, arith, subst}
use aura_os.Allocator.Calls.{allocate, AllOf}
use aura_os.Pmm.{alloc_contiguous, find_range, mark_range}
use aura_os.Heap.{init, kmalloc}
use aura_os.Heap.Bare.{bare, memory-IsValid}
use aura_os.Heap.Accounts.{IsLive, Client, IsValid}
use aura_os.Heap.Runs.{run, run-IsValid}
use aura_os.Heap.Separate.{start, start-IsValid}
use aura_os.Heap.Resize.{krealloc, kmalloc_aligned}
use aura_os.Heap.Resize.Realloc
use aura_os.Heap.Resize.Realloc.{krealloc-Resized}
use aura_os.Heap.Resize.Aligned
use aura_os.Heap.Resize.Aligned.{kmalloc_aligned-Allocated}

-- 100 bytes are allocated.
abbrev one : Client
one = run 5 2 (start bare) (allocate 100 ∷ [])

one-IsValid : IsValid one
one-IsValid =
    run-IsValid 5 2 (start bare) (allocate 100 ∷ []) (omega arith, tt)
      (start-IsValid bare memory-IsValid refl)

one_live : one.live ≡ (100, 4144) ∷ []
unfolding run kmalloc init alloc_contiguous find_range mark_range
one_live = refl

live : IsLive one.heap one-IsValid.0 100 4144
live = (subst (AllOf (IsLive one.heap one-IsValid.0)) one_live one-IsValid.2).0

-- To 300 bytes, which do not fit the block.
krealloc-Resized_example :
    Realloc.Resized one.heap one-IsValid.0
      (λ a. a)
      4144
      100
      300
      (krealloc 5 2 one.heap (λ a. a) 4144 300)
krealloc-Resized_example =
    krealloc-Resized 5 2 one.heap one-IsValid.0 (λ a. a) 4144 100 300 one-IsValid.1 live
      (omega arith) (omega arith)

moved_to : (krealloc 5 2 one.heap (λ a. a) 4144 300).0 ≡ 4296
unfolding krealloc run kmalloc init alloc_contiguous find_range mark_range
moved_to = refl

-- 100 bytes at a multiple of 64.
kmalloc_aligned-Allocated_example :
    Aligned.Allocated one.heap one-IsValid.0 100
      (2 ^ 6)
      (kmalloc_aligned 5 2 one.heap (λ a. 0) 100 (2 ^ 6))
kmalloc_aligned-Allocated_example =
    kmalloc_aligned-Allocated 5 2 one.heap one-IsValid.0 (λ a. 0) 100 6 58 one-IsValid.1
      (omega arith) (omega arith) (omega arith)

aligned_at : (kmalloc_aligned 5 2 one.heap (λ a. 0) 100 64).0 ≡ 4352
unfolding kmalloc_aligned run kmalloc init alloc_contiguous find_range mark_range
aligned_at = refl
