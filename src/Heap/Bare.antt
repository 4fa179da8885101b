-- ===== src/Heap/Bare.antt =====
-- A heap without blocks over a small memory, for the runs.
use aura_os.Base.{◌≡◌, refl, sym, ◌∷◌, replicate, arith, true, false}
use aura_os.Pmm.{Pmm}
use aura_os.Pmm.Invariant
use aura_os.Pmm.Count.{count_used}
use aura_os.Heap.{Heap}

-- 64 frames, of which the first is in use.
abbrev pub memory : Pmm
memory = record {
  bitmap = true ∷ replicate 63 false;
  total_frames = 64;
  used_frames = 1;
  alloc_hint = 0;
}

abbrev pub bare : Heap
bare = record {
  nodes = λ _. record { size = 0; used = false; next = 0; prev = 0; next_free = 0; prev_free = 0 };
  free_head = 0;
  heap_used = 0;
  phys_offset = 0;
  frames = memory;
}

one_used : count_used 64 memory.bitmap ≡ 1
unfolding count_used
one_used = refl

pub memory-IsValid : Invariant.IsValid memory
memory-IsValid = record {
  covered = omega arith;
  addressable = omega arith;
  counted = sym one_used;
  hinted = omega arith;
}
