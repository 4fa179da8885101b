-- ===== src/Zram/Pool/Examples.antt =====
-- Runs of the pool over a heap that never reuses memory, and its theorems at concrete calls.
use aura_os.Pmm.{alloc_contiguous, find_range, mark_range}
use aura_os.Heap
use aura_os.Heap.{kmalloc}
use aura_os.Heap.Bare.{bare, memory-IsValid}
use aura_os.Heap.Accounts.{Client}
use aura_os.Heap.Separate.{start}
use aura_os.Heap.Provided.{provided}
use aura_os.Zram.Pool.OnHeap.{load-store-provided}
use aura_os.Base.{
  ℕ, ◌+◌, ◌≤◌, ◌<◌, ◌≡◌, ◌≢◌, inr, refl, arith, true, some, List, [], ◌∷◌, replicate,
}
use aura_os.Allocator.{Allocator}
use aura_os.Zram.Codec.{page_size, compress_page}
use aura_os.Zram.Codec.RoundTrip.{AllReadable, HasNoShortLiteral}
use aura_os.Zram.Pool.{Pool, stored, init, store, load, get_stats}
use aura_os.Zram.Pool.Slots.{IsValid}
use aura_os.Zram.Pool.Calls.{
  Call, store_page, load_handle, free_handle, run, init-IsValid, run-init-IsValid,
}

-- The state is the first address that is free.
abbrev bump : Allocator
bump = record {
  State = ℕ;
  IsValid = λ s. 0 < s;
  Live = λ s p n. (p ≢ 0) × (p + n ≤ s);
  kmalloc = λ s n. (s, s + n);
  kfree = λ s p. s;
  kmalloc-IsValid = λ s n v small. omega arith;
  kfree-IsValid = λ s p n v l. v;
  kmalloc-Live = λ s n v pos small nn. (nn, omega arith);
  kmalloc_other = λ s n q m v small l. (l.0, omega arith);
  kmalloc-Apart = λ s n q m v pos small nn l. inr l.1;
  kfree_other = λ s p n q m v l k ne. k;
}

abbrev zero_page : List ℕ
zero_page = replicate 4096 0

abbrev blank : Pool ℕ
blank = record {
  slots = [];
  stats = record {
    pages_stored = 0;
    original_bytes = 0;
    compressed_bytes = 0;
    compression_ratio_x100 = 0;
    total_compressions = 0;
    total_decompressions = 0;
  };
  memory = λ _. 0;
  heap = 0x1000;
}

blank-IsValid : IsValid bump (init bump blank)
blank-IsValid = init-IsValid bump blank (omega arith)

zero_page_readable : HasNoShortLiteral zero_page page_size
unfolding AllReadable compress_page
zero_page_readable = omega arith

stored_first : (store bump (init bump blank) (some zero_page) true).0 ≡ stored 0
unfolding store init compress_page
stored_first = refl

ratio_after :
    (get_stats bump (store bump (init bump blank) (some zero_page) true).1).compression_ratio_x100
    ≡ 12047
unfolding get_stats store init compress_page
ratio_after = refl

-- A second page is stored and freed, and the first one is loaded, in between.
abbrev calls : List Call
calls = store_page zero_page ∷ load_handle 0 ∷ free_handle 1 ∷ []

run-init-IsValid_example : IsValid bump (run bump (init bump blank) calls)
run-init-IsValid_example = run-init-IsValid bump blank calls (omega arith)

-- The pool on a kernel heap.
abbrev on_heap : Pool Client
on_heap = record { slots = []; stats = blank.stats; memory = λ _. 0; heap = start bare }

-- The second page of the pool, with the first one freed after it was stored.
stored_second :
    (store
      (provided 5 2)
      (run (provided 5 2) (init (provided 5 2) on_heap) (store_page zero_page ∷ []))
      (some zero_page)
      true).0
    ≡ stored 1
unfolding store run init compress_page kmalloc alloc_contiguous find_range mark_range Heap.init
stored_second = refl

load-store-provided_example :
    (load
      (provided 5 2)
      (run
        (provided 5 2)
        (store
          (provided 5 2)
          (run (provided 5 2) (init (provided 5 2) on_heap) (store_page zero_page ∷ []))
          (some zero_page)
          true).1
        (free_handle 0 ∷ []))
      1
      true).0
    ≡ some zero_page
load-store-provided_example =
    load-store-provided bare memory-IsValid refl 5 2 on_heap refl (store_page zero_page ∷ [])
      (free_handle 0 ∷ []) zero_page 1 refl zero_page_readable stored_second
      ((λ e. omega arith), tt)
