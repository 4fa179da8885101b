-- ===== src/Menu.antt =====
-- The shell, kernel/core/menu.c: the command line, the log window and the switch between the two views. The
-- drawing is in Draw. Where `menu_handle_key` draws, it is left out here: it changes no variable of the
-- module. The snapshots that the command `mem` prints are arguments.
pub mod Log
pub mod Line
pub mod Commands
pub mod Keys
pub mod Draw
pub mod Window
mod Examples
use mathlib.Core.List.{reverse}
use aura_os.Base.{
  ℕ, zero, suc, ◌+◌, ◌-◌, ◌/◌, ◌%◌, ◌^◌, Bool, true, false, ◌&&◌, ◌||◌, List, [], ◌∷◌, ◌++◌, ◌==◌,
  ltb, leb, if◌then◌else◌, take, drop, length, codes,
}
use aura_os.Digits.{dec_char, do_digits}
use aura_os.Sysmon.{SysmonStats}
use aura_os.Zram.Pool.{ZramStats}

-- CMD_MAX, LOG_LINES
abbrev pub cmd_max : ℕ
cmd_max = 64

abbrev pub log_lines : ℕ
log_lines = 8

pub data View : Type 0 where
  menu dashboard : View

-- The static variables: the text in `cmd_buf`, whose length is `cmd_len`, the `log_count` lines of
-- `log_history`, and the active view.
pub record Menu : Type 0 where
  pub cmd : List ℕ
  pub log : List (List ℕ)
  pub active_view : View

-- How a command ends: it returns, or the CPU stops, meets `ud2`, or writes to 0xdead0000.
pub data Outcome : Type 0 where
  returned halted invalid_opcode page_fault : Outcome

pub log_print : Menu → List ℕ → Menu
log_print m msg =
    if ltb (length m.log) log_lines
    then record m { log = m.log ++ take 78 msg ∷ [] }
    else record m { log = drop 1 m.log ++ take 78 msg ∷ [] }

pub print_all : Menu → List (List ℕ) → Menu
unfolding log_print
print_all m [] = m
print_all m (msg ∷ msgs) = print_all (log_print m msg) msgs

pub str_eq : List ℕ → List ℕ → Bool
str_eq [] [] = true
str_eq [] (b ∷ bs) = false
str_eq (a ∷ as_) [] = false
str_eq (a ∷ as_) (b ∷ bs) = if a == b then str_eq as_ bs else false

pub init : Menu → Menu
unfolding print_all
init m =
    print_all (record { cmd = []; log = []; active_view = menu })
      (codes "AuraOS Command Shell ready."
        ∷ codes "Type 'help' for commands, or 'dashboard' for btop view."
        ∷ [])

-- The digits that `mem` collects in `num` and copies backwards.
pub number_text : ℕ → List ℕ
number_text v = reverse (do_digits dec_char 10 32 v)

pub ram_line : SysmonStats → List ℕ
unfolding number_text
ram_line s =
    codes "  PMM RAM: "
    ++ (number_text (s.ram_used_kb / 1024 % 2 ^ 32)
        ++ (b'/' ∷ (number_text (s.ram_total_kb / 1024 % 2 ^ 32) ++ codes " MB")))

pub zram_line : ZramStats → List ℕ
unfolding number_text
zram_line z =
    let r = z.compression_ratio_x100 in
    codes "  zRAM: " ++ (number_text (r / 100) ++ (b'.' ∷ (b'0' + r % 100 / 10) ∷ codes "x ratio"))

abbrev pub help_lines : List (List ℕ)
help_lines =
    codes "Commands:"
    ∷ codes "  info      - system & hardware status"
    ∷ codes "  mem       - physical memory, heap & zram stats"
    ∷ codes "  clear     - clear output log"
    ∷ codes "  dashboard - switch to full btop TUI dashboard"
    ∷ codes "  panic     - test kernel panic handler"
    ∷ codes "  pf        - test page fault handler (write to 0xdead0000)"
    ∷ codes "  halt      - halt CPU safely"
    ∷ []

-- The command line is emptied if the command returns.
pub end_line : Outcome → Menu → Menu
end_line returned m = record m { cmd = [] }
end_line halted m = m
end_line invalid_opcode m = m
end_line page_fault m = m

module _ (stats : SysmonStats) (zstats : ZramStats) where
  pub execute_command : Menu → List ℕ → Menu × Outcome
  unfolding str_eq print_all ram_line zram_line
  execute_command m [] = (m, returned)
  execute_command m (c ∷ cs) =
      let cmd = c ∷ cs in
      if str_eq cmd (codes "help")
      then (print_all m help_lines, returned)
      else if str_eq cmd (codes "info")
      then (
        print_all m (
            codes "[AuraOS v0.2.3] x86_64 freestanding C kernel"
            ∷ codes "Console: VGA 80x25 @ 0xB8000 + COM1 UART 115200"
            ∷ []),
        returned,
      )
      else if str_eq cmd (codes "mem")
      then (
        print_all m (
            ram_line stats
            ∷ codes "  Kernel Heap: 4 MB pool (free-list allocator)"
            ∷ zram_line zstats
            ∷ []),
        returned,
      )
      else if str_eq cmd (codes "clear")
      then (record m { log = [] }, returned)
      else if str_eq cmd (codes "dashboard")
      then (record m { active_view = dashboard }, returned)
      else if str_eq cmd (codes "halt")
      then (print_all m (codes "System halted." ∷ []), halted)
      else if str_eq cmd (codes "panic")
      then (m, invalid_opcode)
      else if str_eq cmd (codes "pf")
      then (print_all m (codes "Triggering page fault (write to 0xdead0000)..." ∷ []), page_fault)
      else (print_all m (codes "Unknown command. Type 'help' for list." ∷ []), returned)

  -- A key in the dashboard: q, Q and Escape lead back.
  pub dashboard_key : Menu → ℕ → Menu
  dashboard_key m c =
      if (c == b'q') || ((c == b'Q') || (c == 27)) then record m { active_view = menu } else m

  pub enter : Menu → Menu × Outcome
  unfolding end_line execute_command log_print
  enter m =
      let (m', outcome) = execute_command (log_print m (codes "> " ++ take 70 m.cmd)) m.cmd in
      (end_line outcome m', outcome)

  pub edit_key : Menu → ℕ → Menu
  edit_key m c =
      if c == 8
      then record m { cmd = take (length m.cmd - 1) m.cmd }
      else if leb b' ' c && leb c b'~'
      then (if ltb (length m.cmd) (cmd_max - 1) then record m { cmd = m.cmd ++ c ∷ [] } else m)
      else m

  pub menu_key : Menu → ℕ → Menu × Outcome
  unfolding enter edit_key
  menu_key m c = if (c == 10) || (c == 13) then enter m else (edit_key m c, returned)

  pub key_in : View → Menu → ℕ → Menu × Outcome
  unfolding dashboard_key menu_key
  key_in dashboard m c = (dashboard_key m c, returned)
  key_in menu m c = menu_key m c

  unfoldable pub handle_key : Menu → ℕ → Menu × Outcome
  unfolding key_in
  handle_key m c = key_in m.active_view m c
