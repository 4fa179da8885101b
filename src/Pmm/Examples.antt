-- ===== src/Pmm/Examples.antt =====
-- Runs of the frame allocator, and its theorems at concrete states.
use aura_os.Base.{
  ℕ, ◌+◌, ◌*◌, ◌/◌, ◌≤◌, ◌<◌, ◌≡◌, refl, ◌⊎◌, true, false, List, [], ◌∷◌, arith, replicate,
}
use aura_os.Pmm.{
  Pmm, page_size, is_used, init, alloc_frame, alloc_contiguous, find_free, find_range,
  get_used_memory, get_free_memory, get_total_memory,
}
use aura_os.Pmm.Count.{count_used}
use aura_os.Pmm.Invariant.{IsValid}
use aura_os.Pmm.Alloc.{taken, alloc_frame_succeeds}
use aura_os.Pmm.Range.{AreFree}
use aura_os.Pmm.Contiguous.{HasTaken, alloc_contiguous_lem}
use aura_os.Pmm.Calls.{Call, reserve, release, allocate, allocate_range, run, run-init_accounts}

-- Five frames of a machine with 20 KiB and a byte of bitmap; frames 0 and 2 are in use.
abbrev small : Pmm
small = record {
  bitmap = true ∷ false ∷ true ∷ false ∷ false ∷ false ∷ false ∷ false ∷ [];
  total_frames = 5;
  used_frames = 2;
  alloc_hint = 3;
}

small-IsValid : IsValid small
unfolding count_used
small-IsValid = record {
  covered = omega arith;
  addressable = omega arith;
  counted = refl;
  hinted = omega arith;
}

-- Phase 3 ignores the hint: the first free frame is taken.
alloc_small : alloc_frame small ≡ (4096, taken small 1)
unfolding alloc_frame find_free
alloc_small = refl

alloc_range_small : (alloc_contiguous small 2).0 ≡ 3 * 4096
unfolding alloc_contiguous find_range
alloc_range_small = refl

-- With frame 0 free its address is handed out, and it is 0, which reads as a failure.
alloc_first : alloc_frame (init 20480) ≡ (0, taken (init 20480) 0)
unfolding alloc_frame find_free init
alloc_first = refl

alloc_frame_succeeds_example :
    (frame : ℕ) × (frame < 5)
    × (is_used small.bitmap frame ≡ false)
    × (alloc_frame small ≡ (frame * page_size, taken small frame))
alloc_frame_succeeds_example = alloc_frame_succeeds small small-IsValid (omega arith)

abbrev full : Pmm
full = record { bitmap = replicate 8 true; total_frames = 8; used_frames = 8; alloc_hint = 0 }

full-IsValid : IsValid full
unfolding count_used
full-IsValid = record {
  covered = omega arith;
  addressable = omega arith;
  counted = refl;
  hinted = omega arith;
}

alloc_full : (alloc_frame full).0 ≡ 0
unfolding alloc_frame
alloc_full = refl

alloc_contiguous_lem_example :
    ((start : ℕ) × ((alloc_contiguous small 2).0 ≡ start * page_size)
      × HasTaken small start 2 (alloc_contiguous small 2).1)
    ⊎ ((alloc_contiguous small 2 ≡ (0, small))
        × ((a : ℕ) → a + 2 ≤ 5 → ¬ (AreFree small.bitmap a 2)))
alloc_contiguous_lem_example = alloc_contiguous_lem small 2 small-IsValid (λ e. omega arith)

abbrev script : List Call
script = allocate ∷ allocate_range 2 ∷ release 4096 ∷ reserve 8192 ∷ []

run-init_accounts_example :
    IsValid (run (init 20480) script)
    × (get_used_memory (run (init 20480) script) + get_free_memory (run (init 20480) script)
        ≡ get_total_memory (run (init 20480) script))
    × (get_total_memory (run (init 20480) script) ≡ 20480 / page_size * page_size)
run-init_accounts_example = run-init_accounts 20480 script (omega arith)

abbrev fill : List Call
fill = allocate ∷ allocate ∷ allocate ∷ []

full_again : (alloc_frame (run small fill)).0 ≡ 0 * page_size
unfolding run alloc_frame find_free
full_again = refl
