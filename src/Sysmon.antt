-- ===== src/Sysmon.antt =====
-- The telemetry sampler, kernel/core/sysmon.c: a window of 1000 timer ticks, and the snapshot of it.
-- The frame allocator's state and the statistics of the compressed pool are arguments of the snapshot.
pub mod Window
pub mod Load
mod Examples
use aura_os.Base.{
  ℕ, some, ◌+◌, ◌-◌, ◌*◌, ◌/◌, ◌^◌, Bool, true, false, List, [], ◌∷◌, leb, ltb, if◌then◌else◌, u8,
  u32, u64,
}
use aura_os.Pit.{Pit, irq_handler, set_callback, get_ticks}
use aura_os.Zram.Pool.{ZramStats}
use aura_os.Pmm.{Pmm, get_total_memory, get_free_memory}

-- SYSMON_WINDOW
abbrev pub window : ℕ
window = 1000

-- The static variables of the module.
pub record Sysmon : Type 0 where
  pub idle_ticks : ℕ
  pub current_idle : Bool
  pub window_idle : ℕ
  pub window_count : ℕ
  pub prev_window_idle : ℕ
  pub prev_window_total : ℕ
  pub init_tick : ℕ

-- The first half of `sysmon_tick`: the tick just finished is counted.
pub count_tick : Sysmon → Sysmon
count_tick s = record s {
  window_idle = if s.current_idle then u64 (s.window_idle + 1) else s.window_idle;
  idle_ticks = if s.current_idle then u64 (s.idle_ticks + 1) else s.idle_ticks;
  current_idle = false;
  window_count = u32 (s.window_count + 1);
}

-- The second half: at the end of the window its counts are kept and reset.
pub latch : Sysmon → Sysmon
latch s =
    if leb window s.window_count
    then record s {
      prev_window_idle = u32 s.window_idle;
      prev_window_total = s.window_count;
      window_idle = 0;
      window_count = 0;
    }
    else s

pub tick : Sysmon → Sysmon
unfolding count_tick latch
tick s = latch (count_tick s)

pub set_idle : Sysmon → Sysmon
set_idle s = record s { current_idle = true }

-- `sysmon_init`: the state it leaves, and the timer with its callback.
unfoldable pub init : Pit Sysmon → Pit Sysmon × Sysmon
unfolding get_ticks set_callback tick
init p = (
  set_callback p (some tick),
  record {
    idle_ticks = 0;
    current_idle = false;
    window_idle = 0;
    window_count = 0;
    prev_window_idle = 0;
    prev_window_total = window;
    init_tick = get_ticks p;
  },
)

-- `struct sysmon_stats`
pub record SysmonStats : Type 0 where
  pub uptime_ms : ℕ
  pub cpu_load_pct : ℕ
  pub ram_used_kb : ℕ
  pub ram_total_kb : ℕ
  pub zram_saved_kb : ℕ
  pub zram_ratio_x100 : ℕ

unfoldable pub cpu_load : Sysmon → ℕ
cpu_load s =
    if ltb 0 s.prev_window_total
    then (let idle_pct = u32 (s.prev_window_idle * 100) / s.prev_window_total in
        u8 (100 - (if ltb 100 idle_pct then 100 else idle_pct)))
    else 0

unfoldable pub get_stats : Sysmon → Pit Sysmon → Pmm → ZramStats → SysmonStats
unfolding cpu_load get_ticks
get_stats s p pmm z =
    let total = get_total_memory pmm in
    let free = get_free_memory pmm in
    record {
      uptime_ms = u64 (get_ticks p + 2 ^ 64 - s.init_tick);
      cpu_load_pct = cpu_load s;
      ram_total_kb = u32 (total / 1024);
      ram_used_kb = u32 ((total - free) / 1024);
      zram_saved_kb =
          if leb z.compressed_bytes z.original_bytes
          then (z.original_bytes - z.compressed_bytes) / 1024
          else 0;
      zram_ratio_x100 = z.compression_ratio_x100;
    }
