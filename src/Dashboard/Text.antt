-- ===== src/Dashboard/Text.antt =====
-- The texts of the dashboard: the uptime, and what becomes of the rows of the table.
use aura_os.Base.{ℕ, ◌+◌, ◌-◌, ◌*◌, ◌/◌, ◌<◌, ◌≡◌, refl, List, [], arith, get_or, false}
use aura_os.Tui.{format}
use aura_os.Dashboard.{Process, format_uptime, row_format, row_args}

-- The number that two digits of a text stand for.
abbrev pub two_digits : List ℕ → ℕ → ℕ
two_digits t i = 10 * (get_or t i 0 - b'0') + (get_or t (i + 1) 0 - b'0')

-- Below 100 hours the uptime's text reads as hours, minutes and seconds that make up its seconds,
-- with minutes and seconds below 60.
pub format_uptime_lem :
    (ms : ℕ)
    → ms < 360_000_000
    → (3600 * two_digits (format_uptime ms) 0
          + (60 * two_digits (format_uptime ms) 3 + two_digits (format_uptime ms) 6)
        ≡ ms / 1000)
      × (two_digits (format_uptime ms) 3 < 60)
      × (two_digits (format_uptime ms) 6 < 60)
unfolding format_uptime
format_uptime_lem ms h = (omega arith, omega arith, omega arith)

-- The switch of `tui_printf_at` knows no widths: whatever the task is, its row shows the format.
pub row_text : (p : Process) → format row_format (row_args p) [] ≡ (row_format, false)
unfolding format
row_text p = refl
