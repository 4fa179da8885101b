-- ===== src/Kernel/Examples.antt =====
-- Runs of the kernel's entry, and its theorems at concrete inputs.
use aura_os.Base.{◌⊎◌, ◌+◌, ◌≤◌, ◌≡◌, ◌≢◌, ◌*◌, ◌/◌, refl, [], ◌∷◌, arith, replicate, codes, ◌++◌}
use aura_os.Pmm.{page_size, alloc_frame, alloc_contiguous}
use aura_os.Pmm.Calls.{allocate, run}
use aura_os.Allocator.Calls
use aura_os.Allocator.Calls.{AllApart}
use aura_os.Heap.Bare.{bare}
use aura_os.Heap.Runs
use aura_os.Kernel.Memory.{AllApart-boot_heap}
use aura_os.Keyboard.{Keyboard, has_key, getchar}
use aura_os.Keyboard.Ring
use aura_os.Keyboard.Ring.{waiting}
use aura_os.Menu.{Menu, menu, halted, handle_key}
use aura_os.Sysmon.{SysmonStats}
use aura_os.Zram.Pool.{ZramStats}
use aura_os.Kernel.{bitmap_address, ram_size, reserved_frames, boot_frames, boot_heap, drain}
use aura_os.Kernel.Reserve.{boot_frames_kept}
use aura_os.Kernel.Keys.{feed_all, seen, drain-feed_all}

abbrev stats : SysmonStats
stats = record {
  uptime_ms = 0;
  cpu_load_pct = 0;
  ram_used_kb = 0;
  ram_total_kb = 0;
  zram_saved_kb = 0;
  zram_ratio_x100 = 100;
}

abbrev zstats : ZramStats
zstats = record {
  pages_stored = 0;
  original_bytes = 0;
  compressed_bytes = 0;
  compression_ratio_x100 = 100;
  total_compressions = 0;
  total_decompressions = 0;
}

rounded_up : bitmap_address 0x123456 ≡ 0x124000
unfolding bitmap_address
rounded_up = refl

-- 1 MB and a bitmap at 64 KB: the frames of the first 64 KB and one for the bitmap, and as the end is
-- rounded up, no more.
reserved : reserved_frames 0x100000 0x10000 ≡ 17
unfolding reserved_frames
reserved = refl

ram : ram_size 0x100000 ≡ 0x100000
unfolding ram_size
ram = refl

-- The bitmap itself, and an allocator that hands out the frame behind it.
boot_frames_kept_example :
    ((alloc_frame (run (boot_frames 0x100000 0x10000) (allocate ∷ []))).0
      ≢ 0x10010 / page_size * page_size)
    × (((alloc_contiguous (run (boot_frames 0x100000 0x10000) (allocate ∷ [])) 3).0 ≡ 0)
        ⊎ ((0x10010 / page_size * page_size + page_size
              ≤ (alloc_contiguous (run (boot_frames 0x100000 0x10000) (allocate ∷ [])) 3).0)
            ⊎ ((alloc_contiguous (run (boot_frames 0x100000 0x10000) (allocate ∷ [])) 3).0
                  + 3 * page_size
                ≤ 0x10010 / page_size * page_size)))
boot_frames_kept_example =
    boot_frames_kept 0x100000 0x10000 (omega arith) 0x10010 3 (allocate ∷ []) (omega (arith, ram))
      (omega (arith, ram)) (omega (arith, ram)) (omega arith) (tt, tt)

-- "halt", Enter and a key that comes too late.
abbrev ring : Keyboard
ring = record { buf = codes "halt" ++ (10 ∷ b'x' ∷ replicate 26 0); head = 6; tail = 0 }

abbrev shell : Menu
shell = record { cmd = []; log = []; active_view = menu }

stopped : (drain stats zstats 32 ring shell).2 ≡ halted
unfolding drain handle_key has_key getchar
stopped = refl

ring-IsValid : Ring.IsValid ring
ring-IsValid = record { size = refl; head_in = omega arith; tail_in = omega arith }

waits : waiting ring ≡ codes "halt" ++ (10 ∷ b'x' ∷ [])
unfolding waiting
waits = refl

drain-feed_all_example :
    seen stats zstats (drain stats zstats 32 ring shell)
    ≡ feed_all stats zstats shell (waiting ring)
drain-feed_all_example =
    drain-feed_all stats zstats 32 ring shell ring-IsValid (omega (arith, Ring.length-waiting ring))

-- Two allocations, the first of which is freed before a third.
AllApart-boot_heap_example :
    AllApart
      (Runs.run 5 2
        (record { heap = boot_heap bare 0x100000 0x10000; live = [] })
        (Calls.allocate 100 ∷ Calls.allocate 5000 ∷ Calls.release 1 ∷ Calls.allocate 20 ∷ [])).live
AllApart-boot_heap_example =
    AllApart-boot_heap bare 0x100000 0x10000 5 2
      (Calls.allocate 100 ∷ Calls.allocate 5000 ∷ Calls.release 1 ∷ Calls.allocate 20 ∷ [])
      (omega arith) (omega (arith, ram)) (omega arith)
      (omega arith, (omega arith, (omega arith, tt)))
