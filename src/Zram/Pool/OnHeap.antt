-- ===== src/Zram/Pool/OnHeap.antt =====
-- The pool of compressed pages on the kernel heap, from `heap_init` and `zram_init` on.
use aura_os.Base.{ℕ, ◌≡◌, sym, true, some, List, subst, length}
use aura_os.Pmm.{is_used}
use aura_os.Pmm.Invariant
use aura_os.Heap.{Heap}
use aura_os.Heap.Accounts.{Client}
use aura_os.Heap.Accounts
use aura_os.Heap.Separate.{start, start-IsValid}
use aura_os.Heap.Provided.{provided}
use aura_os.Zram.Codec.{page_size}
use aura_os.Zram.Codec.RoundTrip.{HasNoShortLiteral}
use aura_os.Zram.Pool.{Pool, stored, init, store, load}
use aura_os.Zram.Pool.Calls.{Call, AllSpare, run, load-run-store, run-init-IsValid}

-- Let the kernel heap be initialised without an offset over a valid frame allocator with frame 0 in
-- use, and then the pool on it, and let any pages be stored, loaded and freed. A page of 4096 bytes
-- without literal chunks of one or two bytes that is stored then is what a load of its handle gives,
-- whatever pages are stored, loaded and freed in between, as long as that handle is not freed.
pub load-store-provided :
    (h : Heap)
    → Invariant.IsValid h.frames
    → is_used h.frames.bitmap 0 ≡ true
    → (fuel rounds : ℕ) (z : Pool Client) → z.heap ≡ start h
    → (before after : List Call) (page : List ℕ) (i : ℕ) → length page ≡ page_size
    → HasNoShortLiteral page page_size
    → (store
        (provided fuel rounds)
        (run (provided fuel rounds) (init (provided fuel rounds) z) before)
        (some page)
        true).0
      ≡ stored i
    → AllSpare i after
    → (load
        (provided fuel rounds)
        (run
          (provided fuel rounds)
          (store
            (provided fuel rounds)
            (run (provided fuel rounds) (init (provided fuel rounds) z) before)
            (some page)
            true).1
          after)
        i
        true).0
      ≡ some page
load-store-provided h valid first fuel rounds z at before after page i size readable e spares =
    let p = provided fuel rounds in
    let ready = subst Accounts.IsValid (sym at) (start-IsValid h valid first) in
    load-run-store p (run p (init p z) before) page i after (run-init-IsValid p z before ready) size
      readable e spares
