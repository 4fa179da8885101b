-- ===== src/Kernel/Memory.antt =====
-- The kernel heap on the frames that `kernel_main` leaves.
use aura_os.Base.{ℕ, ◌^◌, ◌≤◌, ◌<◌, ◌∙◌, List, [], arith, lt→ltb}
use aura_os.Allocator.Calls.{Call, AllApart}
use aura_os.Heap.{Heap}
use aura_os.Heap.Runs.{run, Sizes}
use aura_os.Heap.Separate.{AllApart-run}
use aura_os.Kernel.{ram_size, reserved_frames, boot_frames, boot_heap}
use aura_os.Kernel.Reserve.{ram_word, boot_frames_lem}

-- Let the memory that the boot loader reports be a 64-bit number, and with 64 MB if that is 0 be a page
-- at least, and let the bitmap be placed below 2 ^ 63. After any calls of `kmalloc`, for sizes that do
-- not wrap when they are rounded up, and of `kfree` for what is allocated, on the heap that
-- `kernel_main` has initialised, no allocation is NULL, and no two have a byte in common.
pub AllApart-boot_heap :
    (h : Heap) (total_memory_bytes bitmap fuel rounds : ℕ) (cs : List Call)
    → total_memory_bytes < 2 ^ 64
    → 4096 ≤ ram_size total_memory_bytes
    → bitmap < 2 ^ 63
    → Sizes cs
    → AllApart
        (run fuel rounds
          (record { heap = boot_heap h total_memory_bytes bitmap; live = [] })
          cs).live
unfolding boot_heap reserved_frames
AllApart-boot_heap h total bitmap fuel rounds cs word some_page low fits =
    let (v, managed, used) = boot_frames_lem total bitmap word 0 (omega (arith, some_page)) in
    AllApart-run (record h { frames = boot_frames total bitmap }) v
      (used
        ∙ lt→ltb 0 (reserved_frames (ram_size total) bitmap)
            (omega (arith, some_page, low, ram_word total bitmap word)))
      fuel rounds cs fits
