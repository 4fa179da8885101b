-- ===== src/Menu/Draw.antt =====
-- What `menu_render` and `menu_update` of kernel/core/menu.c draw. The snapshot, the ticks and the use of the
-- heap are arguments.
use aura_os.Base.{
  ℕ, zero, suc, ◌+◌, ◌-◌, ◌/◌, true, Option, none, some, List, [], ◌∷◌, u32, codes, length,
}
use aura_os.Varargs.{text, number}
use aura_os.Sysmon.{SysmonStats}
use aura_os.Tui.{
  Screen, color_border, color_primary, color_success, color_warn, color_text, color_dim,
  color_magenta, putc_at, puts_at, draw_box, draw_header, draw_footer, row_loop,
}
use aura_os.Dashboard
use aura_os.Dashboard.{Process, ◌▷◌, at}
use aura_os.Menu.{Menu, menu, dashboard, log_lines}

-- A row of the log window: blanks behind its line, or in the whole row.
unfoldable pub log_row : ℕ → Option (List ℕ) → Screen → Screen
log_row y none m = row_loop (78 - 2) 0 m 2 y b' ' color_dim
log_row y (some line) m =
    let len = length line in
    row_loop (78 - (2 + len)) 0 (puts_at m 2 y line color_text) (2 + len) y b' ' color_dim

-- `left` rows from number `i` on; the lines left for them.
unfoldable pub log_loop : ℕ → ℕ → List (List ℕ) → Screen → Screen
unfolding log_row
log_loop zero i lines m = m
log_loop (suc left) i [] m = log_loop left (i + 1) [] (log_row (8 + i) none m)
log_loop (suc left) i (line ∷ lines) m = log_loop left (i + 1) lines (log_row (8 + i) (some line) m)

-- The command line with its cursor.
unfoldable pub draw_prompt : List ℕ → Screen → Screen
draw_prompt cmd m =
    let len = length cmd in
    draw_box m 0 20 80 3 color_success color_text (some (codes " Command ")) true
    ▷ at 2 21 color_success (codes "aura> %s") (text (some cmd) ∷ [])
    ▷ (λ m. putc_at m (8 + len) 21 b'_' color_warn)
    ▷ (λ m. row_loop (78 - (9 + len)) 0 m (9 + len) 21 b' ' color_dim)

module _ (stats : SysmonStats) (ticks heap_used : ℕ) where
  -- The telemetry bar.
  unfoldable pub draw_status : Screen → Screen
  draw_status m =
      draw_box m 0 1 80 5 color_primary color_text (some (codes " System Status ")) true
      ▷ at 2 2 color_text (codes "CPU Load: ") []
      ▷ at 12 2 color_success (codes "%u%%") (number stats.cpu_load_pct ∷ [])
      ▷ at 20 2 color_text (codes "Uptime: ") []
      ▷ at 28 2 color_primary (codes "%u s") (number (u32 (stats.uptime_ms / 1000)) ∷ [])
      ▷ at 40 2 color_text (codes "Ticks: ") []
      ▷ at 47 2 color_primary (codes "%u") (number (u32 ticks) ∷ [])
      ▷ at 60 2 color_text (codes "PIT: ") []
      ▷ at 65 2 color_warn (codes "1000 Hz") []
      ▷ at 2 3 color_text (codes "RAM Free: ") []
      ▷ at 12 3 color_magenta (codes "%u/%u MB")
          (number (u32 (stats.ram_used_kb / 1024)) ∷ number (u32 (stats.ram_total_kb / 1024)) ∷ [])
      ▷ at 30 3 color_text (codes "Heap: ") []
      ▷ at 36 3 color_magenta (codes "%u KB") (number (u32 (heap_used / 1024)) ∷ [])
      ▷ at 50 3 color_text (codes "zRAM: ") []
      ▷ at 56 3 color_magenta (codes "Active (RLE)") []

  unfoldable pub draw_menu : Menu → Screen → Screen
  unfolding draw_status log_loop draw_prompt
  draw_menu s m =
      draw_header m (codes " AuraOS Boot Menu & Shell ") (some (codes "v0.3.1"))
      ▷ draw_status
      ▷ (λ m. draw_box m 0 6 80 14 color_border color_text (some (codes " Console Output ")) true)
      ▷ log_loop log_lines 0 s.log
      ▷ draw_prompt s.cmd
      ▷ (λ m. draw_footer m (codes " Type 'help' | Commands: info, mem, dashboard, panic, halt "))

  -- The screen and the table of tasks after `menu_render`.
  unfoldable pub render : List Process → Menu → Screen → Screen × List Process
  unfolding draw_menu
  render ps s m = elim s.active_view [
    | menu ↦ (draw_menu s m, ps)
    | dashboard ↦ Dashboard.render stats ticks heap_used ps m
  ]

  -- `menu_update`: of the menu the live numbers only.
  pub update : List Process → Menu → Screen → Screen × List Process
  update ps s m = elim s.active_view [
    | menu ↦ (
      m
          ▷ at 12 2 color_success (codes "%u%% ") (number stats.cpu_load_pct ∷ [])
          ▷ at 28 2 color_primary (codes "%u s  ") (number (u32 (stats.uptime_ms / 1000)) ∷ [])
          ▷ at 47 2 color_primary (codes "%u   ") (number (u32 ticks) ∷ []),
      ps,
    )
    | dashboard ↦ Dashboard.render stats ticks heap_used ps m
  ]
