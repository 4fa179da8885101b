-- ===== src/Slab/Examples.antt =====
-- Runs of the zones, and their theorems at concrete calls.
use aura_os.Base.{◌≡◌, ◌≢◌, ◌<◌, refl, List, [], ◌∷◌, arith}
use aura_os.Heap.Bare.{memory, memory-IsValid}
use aura_os.Pmm.{alloc_frame, find_free}
use aura_os.Slab.{Slab, zalloc, zfree, init}
use aura_os.Allocator.Calls.{Call, allocate, release, AllApart}
use aura_os.Slab.Runs.{run, start}
use aura_os.Slab.Separate.{run-AllApart, zalloc-run}

abbrev boot : Slab
boot = record {
  zones = λ _. record { free_list = 0; chunk_size = 0; alloc_count = 0 };
  phys_offset = 0;
  next = λ _. 0;
  frames = memory;
}

abbrev calls : List Call
calls = allocate 100 ∷ allocate 2000 ∷ release 1 ∷ allocate 120 ∷ []

-- The last chunk of the frame is first, and a chunk that is freed is the next one.
live_after : (run (start boot) calls).live ≡ (120, 8064) ∷ (2000, 10240) ∷ []
unfolding run zalloc zfree init alloc_frame find_free
live_after = refl

too_large : (zalloc (init boot) 2049).0 ≡ 0
unfolding zalloc
too_large = refl

run-AllApart_example : AllApart (run (start boot) calls).live
run-AllApart_example = run-AllApart boot memory-IsValid refl refl calls

room :
    (run (start boot) []).slab.frames.used_frames < (run (start boot) []).slab.frames.total_frames
unfolding run init
room = omega arith

zalloc-run_example : (zalloc (run (start boot) []).slab 48).0 ≢ 0
zalloc-run_example = zalloc-run boot memory-IsValid refl refl [] 48 (omega arith) (omega arith) room
