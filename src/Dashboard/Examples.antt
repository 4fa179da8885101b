-- ===== src/Dashboard/Examples.antt =====
-- Runs of the dashboard's texts, and its theorems at concrete values.
use aura_os.Base.{◌≡◌, refl, [], codes, get_or}
use aura_os.Sysmon.{SysmonStats}
use aura_os.Dashboard.{process, processes, format_uptime, live_processes}

an_hour : format_uptime 3_725_000 ≡ codes "01:02:05"
unfolding format_uptime
an_hour = refl

abbrev busy : SysmonStats
busy = record {
  uptime_ms = 0;
  cpu_load_pct = 60;
  ram_used_kb = 0;
  ram_total_kb = 0;
  zram_saved_kb = 0;
  zram_ratio_x100 = 100;
}

shares : (get_or (live_processes busy processes) 0 (process 9 [] 0 0)).cpu_pct ≡ 40
unfolding live_processes
shares = refl
