-- ===== src/Dashboard.antt =====
-- The dashboard, kernel/core/dashboard.c: the text of the uptime, the table of tasks, and what is drawn.
-- The snapshots that it takes, the ticks and the heap's use are arguments.
pub mod Text
mod Examples
use aura_os.Base.{
  true, ℕ, zero, suc, ◌+◌, ◌-◌, ◌*◌, ◌/◌, ◌%◌, ◌^◌, Option, none, some, List, [], ◌∷◌, ◌++◌, ◌==◌,
  ltb, if◌then◌else◌, u8, u32, codes, get_or, set, false,
}
use aura_os.Varargs.{Arg, text, number}
use aura_os.Sysmon.{SysmonStats}
use aura_os.Tui.{
  Screen, color_bg, color_border, color_primary, color_success, color_warn, color_text,
  color_magenta, putc_at, printf_at, draw_box, draw_bar, draw_header, draw_footer, row_loop,
}

pub record Process : Type 0 where
  pub pid : ℕ
  pub name : List ℕ
  pub state : List ℕ
  pub cpu_pct : ℕ
  pub mem_kb : ℕ
  pub priority : ℕ

abbrev pub process : ℕ → List ℕ → ℕ → ℕ → Process
process pid name mem_kb priority = record {
  pid = pid;
  name = name;
  state = codes "RUN";
  cpu_pct = 0;
  mem_kb = mem_kb;
  priority = priority;
}

-- The first value of `processes`.
abbrev pub processes : List Process
processes =
    process 0 (codes "kernel_idle") 0 0
    ∷ process 1 (codes "sysmon_sampler") 4 10
    ∷ process 2 (codes "pit_timer") 2 5
    ∷ process 3 (codes "vga_dashboard") 64 8
    ∷ []

-- `'0' + (char)d`
abbrev pub char_digit : ℕ → ℕ
char_digit d = u8 (b'0' + d)

pub format_uptime : ℕ → List ℕ
format_uptime ms =
    let total_s = ms / 1000 in
    let h = total_s / 3600 in
    let m = total_s % 3600 / 60 in
    let s = total_s % 60 in
    char_digit (h / 10)
    ∷ char_digit (h % 10)
    ∷ b':'
    ∷ char_digit (m / 10)
    ∷ char_digit (m % 10)
    ∷ b':'
    ∷ char_digit (s / 10)
    ∷ char_digit (s % 10)
    ∷ []

-- Drawing steps, one after the other.
infixl 5 ◌▷◌
abbrev pub ◌▷◌ : Screen → (Screen → Screen) → Screen
m ▷ draw = draw m

abbrev pub at : ℕ → ℕ → ℕ → List ℕ → List Arg → Screen → Screen
at x y color fmt args m = printf_at m x y color fmt args

module _ (stats : SysmonStats) where
  pub draw_cpu_box : ℕ → Screen → Screen
  draw_cpu_box ticks m =
      draw_box m 0 1 40 8 color_primary color_text (some (codes " cpu ")) true
      ▷ at 2 3 color_text (codes "Load") []
      ▷ at 8 3 color_success (codes "%u%%") (number stats.cpu_load_pct ∷ [])
      ▷ at 20 3 color_text (codes "Ticks") []
      ▷ at 27 3 color_primary (codes "%u") (number (u32 ticks) ∷ [])
      ▷ (λ m. draw_bar m 2 5 36 stats.cpu_load_pct 100 color_success color_border)
      ▷ at 17 6 color_success (codes "%u%%") (number stats.cpu_load_pct ∷ [])

  pub draw_memory_box : ℕ → Screen → Screen
  draw_memory_box heap_used m =
      let total_mb = u32 (stats.ram_total_kb / 1024) in
      let used_mb = u32 (stats.ram_used_kb / 1024) in
      let ratio = stats.zram_ratio_x100 in
      draw_box m 40 1 40 8 color_magenta color_text (some (codes " mem ")) true
      ▷ at 42 3 color_text (codes "RAM") []
      ▷ at 47 3 color_magenta (codes "%u/%u MB") (number used_mb ∷ number total_mb ∷ [])
      ▷ at 42 4 color_text (codes "Heap") []
      ▷ at 48 4 color_magenta (codes "%u KB used") (number (u32 (heap_used / 1024)) ∷ [])
      ▷ at 42 5 color_text (codes "zRAM") []
      ▷ at 48 5 color_success (codes "%uKB saved (%u.%ux)")
          (number stats.zram_saved_kb ∷ number (ratio / 100) ∷ number (ratio % 100 / 10) ∷ [])
      ▷ (λ m.
          draw_bar m 42 7 36 (u32 stats.ram_used_kb) (u32 stats.ram_total_kb) color_magenta
            color_border)

  -- The two tasks with live values.
  pub live_processes : List Process → List Process
  live_processes ps =
      let load = stats.cpu_load_pct in
      let idle = get_or ps 0 (process 0 [] 0 0) in
      let shown = get_or ps 3 (process 0 [] 0 0) in
      set (set ps 0 (record idle { cpu_pct = u8 (100 + 2 ^ 32 - load) })) 3
        (record shown { cpu_pct = if ltb 5 load then load / 3 else 1 })

abbrev pub row_format : List ℕ
row_format = codes "%-4d %-16s %-6s %-6u %-7u %-3d"

abbrev pub row_args : Process → List Arg
row_args p =
    number p.pid
    ∷ text (some p.name)
    ∷ text (some p.state)
    ∷ number p.cpu_pct
    ∷ number p.mem_kb
    ∷ number p.priority
    ∷ []

-- The rows from number `i` on, ten at most, in turn in two colours.
pub rows_loop : List Process → ℕ → Screen → Screen
rows_loop [] i m = m
rows_loop (p ∷ ps) i m =
    let row_color = if i % 2 == 0 then color_text else color_primary in
    let rest =
      rows_loop ps (i + 1) (printf_at m 2 (u32 (12 + i)) row_color row_format (row_args p)) in
    if ltb i 10 then rest else m

pub draw_process_table : List Process → Screen → Screen
unfolding rows_loop
draw_process_table ps m =
    let th_color = u8 (color_primary * 2 ^ 4 + color_bg) in
    draw_box m 0 9 80 14 color_warn color_text (some (codes " tasks ")) true
    ▷ at 2 11 th_color (codes "PID  NAME             STATE  CPU%   MEM(KB) PRI") []
    ▷ (λ m. row_loop 28 0 m 50 11 b' ' th_color)
    ▷ rows_loop ps 0

-- The screen and the table of tasks after `dashboard_render`.
pub render : SysmonStats → ℕ → ℕ → List Process → Screen → Screen × List Process
unfolding format_uptime draw_cpu_box draw_memory_box live_processes draw_process_table
render stats ticks heap_used ps m =
    let live = live_processes stats ps in
    (
      draw_header m (codes " AuraOS v0.3.1 ") (some (format_uptime stats.uptime_ms))
          ▷ draw_cpu_box stats ticks
          ▷ draw_memory_box stats heap_used
          ▷ draw_process_table live
          ▷ (λ m. draw_footer m (codes " [Q] menu   [R] redraw")),
      live,
    )
