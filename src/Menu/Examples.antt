-- ===== src/Menu/Examples.antt =====
-- Runs of the shell, and its theorems at concrete keys.
use mathlib.Core.List.{map}
use aura_os.Base.{
  ◌≡◌, refl, ℕ, List, [], ◌∷◌, ◌++◌, arith, take, codes, replicate, length-replicate,
}
use aura_os.Sysmon.{SysmonStats}
use aura_os.Zram.Pool.{ZramStats}
use aura_os.Menu.{Menu, menu, halted, print_all, init, handle_key, ram_line, zram_line, number_text}
use aura_os.Digits.{do_digits}
use aura_os.Tui.Cells.{cell}
use aura_os.Dashboard.{processes}
use aura_os.Menu.Draw.{render}
use aura_os.Menu.Window.{line_at, window_cell, render-log}
use aura_os.Menu.Log.{latest, print_all-latest}
use aura_os.Menu.Line.{Fits, started, pressed, Reached-Fits}
use aura_os.Menu.Keys.{Printable}

abbrev stats : SysmonStats
stats = record {
  uptime_ms = 5000;
  cpu_load_pct = 3;
  ram_used_kb = 7168;
  ram_total_kb = 131072;
  zram_saved_kb = 4;
  zram_ratio_x100 = 257;
}

abbrev zstats : ZramStats
zstats = record {
  pages_stored = 1;
  original_bytes = 4096;
  compressed_bytes = 1590;
  compression_ratio_x100 = 257;
  total_compressions = 1;
  total_decompressions = 0;
}

memory_line : ram_line stats ≡ codes "  PMM RAM: 7/128 MB"
unfolding ram_line number_text do_digits
memory_line = refl

ratio_line : zram_line zstats ≡ codes "  zRAM: 2.5x ratio"
unfolding zram_line number_text do_digits
ratio_line = refl

abbrev prompt : List (List ℕ) → List ℕ → Menu
prompt log cmd = record { cmd = cmd; log = log; active_view = menu }

stops : (handle_key stats zstats (prompt [] (codes "halt")) 10).1 ≡ halted
unfolding handle_key
stops = refl

print_all-latest_example :
    ((print_all (prompt (codes "one" ∷ []) []) (codes "two" ∷ codes "three" ∷ [])).log
      ≡ latest ((codes "one" ∷ []) ++ map (take 78) (codes "two" ∷ codes "three" ∷ [])))
    × ((print_all (prompt (codes "one" ∷ []) []) (codes "two" ∷ codes "three" ∷ [])).cmd ≡ [])
    × ((print_all (prompt (codes "one" ∷ []) []) (codes "two" ∷ codes "three" ∷ [])).active_view
        ≡ menu)
print_all-latest_example =
    print_all-latest (codes "two" ∷ codes "three" ∷ []) (prompt (codes "one" ∷ []) []) (omega arith)

Reached-Fits_example : Fits (handle_key stats zstats (init (prompt [] [])) b'h').0
Reached-Fits_example =
    Reached-Fits stats zstats (pressed (init (prompt [] [])) b'h' (started (prompt [] [])))

help_Printable : Printable (codes "help")
help_Printable = (
  omega arith,
  omega arith,
  (omega arith, omega arith, (omega arith, omega arith, (omega arith, omega arith, tt))),
)

-- A log of two lines.
abbrev two_lines : Menu
two_lines = record { cmd = []; log = codes "Ready." ∷ codes "Type help." ∷ []; active_view = menu }

render-log_example :
    cell (render stats 5000 0 processes two_lines (replicate 2000 0)).0 7 9
    ≡ window_cell (line_at two_lines.log 1) 7
render-log_example =
    render-log stats 5000 0 processes two_lines (replicate 2000 0) 7 1 refl
      (omega arith, (omega arith, tt)) (length-replicate {A = ℕ} 2000 0) (omega arith) (omega arith)
      (omega arith)
