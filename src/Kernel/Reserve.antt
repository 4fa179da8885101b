-- ===== src/Kernel/Reserve.antt =====
-- The frames that the kernel keeps: those up to the end of its bitmap, and no others.
use aura_os.Base.{
  ℕ, zero, suc, ◌+◌, ◌*◌, ◌/◌, ◌^◌, ◌<◌, ◌≤◌, ◌⊎◌, ◌≡◌, ◌≢◌, refl, ap, ◌∙◌, true, List, arith, ltb,
  leb, ◌&&◌, if◌then◌else◌, lt→ltb,
}
use aura_os.Pmm
use aura_os.Pmm.{Pmm, page_size, is_used, mark_used, alloc_frame, alloc_contiguous}
use aura_os.Pmm.Invariant.{IsValid, init-IsValid, mark_used-IsValid}
use aura_os.Pmm.Calls.{Call, run, AllKeep, alloc_frame-run, alloc_contiguous-run}
use aura_os.Pmm.Mark.{total-mark_used, is_used-mark_used, is_used-init, total-init}
use aura_os.Kernel.{ram_size, reserved_frames, reserve, boot_frames}

reserve-IsValid : (left f : ℕ) (s : Pmm) → IsValid s → IsValid (reserve left f s)
unfolding reserve
reserve-IsValid zero f s v = v
reserve-IsValid (suc left) f s v =
    reserve-IsValid left (f + 1) (mark_used s (f * page_size))
      (mark_used-IsValid s (f * page_size) v)

total-reserve : (left f : ℕ) (s : Pmm) → (reserve left f s).total_frames ≡ s.total_frames
unfolding reserve
total-reserve zero f s = refl
total-reserve (suc left) f s =
    total-reserve left (f + 1) (mark_used s (f * page_size)) ∙ total-mark_used s (f * page_size)

-- A frame is in use after the loop if it was before, or is one of the `left` frames from `f` on.
is_used-reserve :
    (left f g : ℕ) (s : Pmm)
    → IsValid s
    → g < s.total_frames
    → is_used (reserve left f s).bitmap g
      ≡ (if leb f g && ltb g (f + left) then true else is_used s.bitmap g)
unfolding reserve
is_used-reserve zero f g s v h = ground arith
is_used-reserve (suc left) f g s v h =
    let s' = mark_used s (f * page_size) in
    let v' = mark_used-IsValid s (f * page_size) v in
    let h' : g < s'.total_frames = omega (arith, total-mark_used s (f * page_size)) in
    let rest = is_used-reserve left (f + 1) g s' v' h' in
    let here = is_used-mark_used s f g v h in
    rest ∙ ap (λ b. if leb (f + 1) g && ltb g (f + 1 + left) then true else b) here ∙ ground arith

-- The memory of a machine: what the boot loader tells of it is a 64-bit number.
module _ (total_memory_bytes bitmap : ℕ) (word : total_memory_bytes < 2 ^ 64) where
  pub ram_word : ram_size total_memory_bytes < 2 ^ 64
  unfolding ram_size
  ram_word = ground arith

  -- When the kernel has reserved its frames, the frame allocator is valid and manages the memory the
  -- boot loader reports, or 64 MB, and the frames in use are just those reserved.
  pub boot_frames_lem :
      (f : ℕ)
      → f < ram_size total_memory_bytes / page_size
      → IsValid (boot_frames total_memory_bytes bitmap)
        × ((boot_frames total_memory_bytes bitmap).total_frames
            ≡ ram_size total_memory_bytes / page_size)
        × (is_used (boot_frames total_memory_bytes bitmap).bitmap f
            ≡ ltb f (reserved_frames (ram_size total_memory_bytes) bitmap))
  unfolding boot_frames
  boot_frames_lem f h =
      let ram = ram_size total_memory_bytes in
      let n = reserved_frames ram bitmap in
      let v = init-IsValid ram ram_word in
      (
        reserve-IsValid n 0 (Pmm.init ram) v,
        total-reserve n 0 (Pmm.init ram) ∙ total-init ram,
        is_used-reserve n 0 f (Pmm.init ram) v (omega (arith, total-init ram))
            ∙ ap (λ b. if leb 0 f && ltb f (0 + n) then true else b) (is_used-init ram f h)
            ∙ ground arith,
      )

  -- Let the bitmap's end not wrap. An address before it, of the image or of the bitmap, that is
  -- managed and not in the first frame, is in a frame that the allocator does not hand out after any
  -- calls that do not free the frame: `pmm_alloc_frame` returns another one, and the `n` frames from the
  -- address on that `pmm_alloc_contiguous` returns, unless it returns 0, are all above or all below it.
  pub boot_frames_kept :
      (p n : ℕ) (cs : List Call)
      → bitmap + (ram_size total_memory_bytes / page_size + 7) / 8 + 4095 < 2 ^ 64
      → p < bitmap + (ram_size total_memory_bytes / page_size + 7) / 8
      → p / page_size < ram_size total_memory_bytes / page_size
      → p / page_size ≢ 0
      → AllKeep (p / page_size) cs
      → ((alloc_frame (run (boot_frames total_memory_bytes bitmap) cs)).0
          ≢ p / page_size * page_size)
        × (((alloc_contiguous (run (boot_frames total_memory_bytes bitmap) cs) n).0 ≡ 0)
            ⊎ ((p / page_size * page_size + page_size
                  ≤ (alloc_contiguous (run (boot_frames total_memory_bytes bitmap) cs) n).0)
                ⊎ ((alloc_contiguous (run (boot_frames total_memory_bytes bitmap) cs) n).0
                      + n * page_size
                    ≤ p / page_size * page_size)))
  unfolding reserved_frames
  boot_frames_kept p n cs fits before inside away keep =
      let (v, total, used) = boot_frames_lem (p / page_size) inside in
      let s = boot_frames total_memory_bytes bitmap in
      let kept : is_used s.bitmap (p / page_size) ≡ true =
        used
        ∙ lt→ltb (p / page_size) (reserved_frames (ram_size total_memory_bytes) bitmap)
            (omega arith) in
      (
        λ same. away (alloc_frame-run s (p / page_size) cs v kept keep same),
        alloc_contiguous-run s (p / page_size) n cs v kept keep,
      )
