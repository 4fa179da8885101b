-- ===== src/Pmm/Invariant.antt =====
-- The representation invariant of the frame allocator, kept by every operation.
use aura_os.Base.{
  ℕ, ◌+◌, ◌*◌, ◌/◌, ◌^◌, ◌≤◌, ◌<◌, ◌≡◌, sym, inl, inr, true, false, arith, leb, length, length-set,
  length-replicate, if_elim, Option-cases,
}
use aura_os.Pmm.{
  Pmm, page_size, is_used, init, mark_used, mark_free, find_free, take_frame, alloc_frame,
}
use aura_os.Pmm.Count.{count_used, count_used-le, count_used-set, count_used-replicate}
use aura_os.Pmm.Scan.{find_free-some}

-- The bitmap has a bit for each frame, every frame's address is a 64-bit number, the counter counts
-- the used frames, and the hint is within the frames.
pub record IsValid (s : Pmm) : Type 0 where
  pub covered : s.total_frames ≤ length s.bitmap
  pub addressable : s.total_frames * page_size < 2 ^ 64
  pub counted : s.used_frames ≡ count_used s.total_frames s.bitmap
  pub hinted : s.alloc_hint ≤ s.total_frames

pub used-le-total : (s : Pmm) → IsValid s → s.used_frames ≤ s.total_frames
used-le-total s v = omega (arith, count_used-le s.total_frames s.bitmap)

pub init-IsValid : (mem_size : ℕ) → mem_size < 2 ^ 64 → IsValid (init mem_size)
unfolding init
init-IsValid mem_size h = record {
  covered = omega (arith, length-replicate ((mem_size / page_size + 7) / 8 * 8) false);
  addressable = omega arith;
  counted = sym (count_used-replicate (mem_size / page_size) ((mem_size / page_size + 7) / 8 * 8));
  hinted = omega arith;
}

pub mark_used-IsValid : (s : Pmm) (paddr : ℕ) → IsValid s → IsValid (mark_used s paddr)
unfolding mark_used
mark_used-IsValid s paddr v = ground (
  arith,
  length-set s.bitmap (paddr / page_size) true,
  count_used-set s.total_frames (paddr / page_size) s.bitmap true,
  count_used-le s.total_frames s.bitmap,
)

pub mark_free-IsValid : (s : Pmm) (paddr : ℕ) → IsValid s → IsValid (mark_free s paddr)
unfolding mark_free
mark_free-IsValid s paddr v = ground (
  arith,
  length-set s.bitmap (paddr / page_size) false,
  count_used-set s.total_frames (paddr / page_size) s.bitmap false,
  count_used-le s.total_frames s.bitmap,
)

-- Taking a free frame below the limit keeps the invariant.
pub take_frame-IsValid :
    (s : Pmm) (frame : ℕ)
    → IsValid s
    → frame < s.total_frames
    → is_used s.bitmap frame ≡ false
    → IsValid (take_frame s frame).1
take_frame-IsValid s frame v h free = ground (
  arith,
  length-set s.bitmap frame true,
  count_used-set s.total_frames frame s.bitmap true,
  count_used-le s.total_frames s.bitmap,
)

pub alloc_frame-IsValid : (s : Pmm) → IsValid s → IsValid (alloc_frame s).1
unfolding alloc_frame
alloc_frame-IsValid s v =
    if_elim (λ (r : ℕ × Pmm). IsValid r.1) (leb s.total_frames s.used_frames) (λ _. v)
      λ _. elim (Option-cases (find_free s)) [
        | inl e ↦ rw (e, alloc_frame) v
        | inr (frame, e) ↦
            let (below, free) = find_free-some s e in
            rw (e, alloc_frame) (take_frame-IsValid s frame v below free)
      ]
