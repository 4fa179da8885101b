-- ===== src/Sysmon/Examples.antt =====
-- Runs of the telemetry sampler, and its theorems at concrete traces.
use aura_os.Base.{
  ◌-◌, ◌*◌, ◌/◌, ◌^◌, ◌<◌, ◌≡◌, refl, Bool, true, false, List, [], ◌∷◌, ◌++◌, arith, none, u64,
  length, replicate,
}
use aura_os.Pit.{Pit, init_writes}
use aura_os.Pmm.{Pmm, get_total_memory}
use aura_os.Pmm.Count.{count_used}
use aura_os.Pmm.Invariant.{IsValid}
use aura_os.Zram.Pool.{ZramStats}
use aura_os.Sysmon.{Sysmon, get_stats, init, cpu_load}
use aura_os.Sysmon.Window.{idle_count}
use aura_os.Sysmon.Load.{snapshot, snapshot_lem}

abbrev timer : Pit Sysmon
timer = record { ticks = 5; callback = none }

abbrev memory : Pmm
memory = record {
  bitmap = true ∷ false ∷ true ∷ false ∷ false ∷ false ∷ false ∷ false ∷ [];
  total_frames = 5;
  used_frames = 2;
  alloc_hint = 3;
}

abbrev pool : ZramStats
pool = record {
  pages_stored = 2;
  original_bytes = 8192;
  compressed_bytes = 2048;
  compression_ratio_x100 = 400;
  total_compressions = 2;
  total_decompressions = 0;
}

-- A second of which 250 interrupts find the CPU idle.
abbrev quarter_idle : List Bool
quarter_idle = replicate 250 true ++ replicate 750 false

abbrev second_busy : List Bool
second_busy = replicate 1000 false

abbrev trace : List Bool
trace = second_busy ++ (quarter_idle ++ (true ∷ []))

memory-IsValid : IsValid memory
unfolding count_used
memory-IsValid = record {
  covered = omega arith;
  addressable = omega arith;
  counted = refl;
  hinted = omega arith;
}

memory_small : get_total_memory memory < 2 ^ 42
unfolding get_total_memory
memory_small = omega arith

-- The timer is set to mode 3 and to the divisor 1193, the low byte first.
pit_setup : init_writes ≡ (0x43, 0x36) ∷ (0x40, 169) ∷ (0x40, 4) ∷ []
unfolding init_writes
pit_setup = refl

-- Before the first second ends the load is 100 per cent.
busy_at_first : cpu_load (init timer).1 ≡ 100
unfolding cpu_load init
busy_at_first = refl

saved_by_pool : (get_stats (init timer).1 timer memory pool).zram_saved_kb ≡ 6
unfolding get_stats
saved_by_pool = refl

snapshot_lem_example :
    ((snapshot timer trace memory pool).cpu_load_pct ≡ 100 - idle_count quarter_idle * 100 / 1000)
    × ((snapshot timer trace memory pool).uptime_ms ≡ u64 (length trace))
snapshot_lem_example =
    snapshot_lem timer second_busy quarter_idle (true ∷ []) memory pool (omega arith) refl refl
      (omega arith)
