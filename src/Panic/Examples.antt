-- ===== src/Panic/Examples.antt =====
-- Runs of the panic screen's keys, and its theorems at concrete inputs.
use aura_os.Base.{◌≡◌, ◌≢◌, refl, arith, true, List, [], ◌∷◌, ◌++◌, none, some, replicate, codes}
use aura_os.Vga.{Vga}
use aura_os.Sysmon.{SysmonStats}
use aura_os.Dashboard.{processes}
use aura_os.Menu.{Menu, menu}
use aura_os.Panic.{
  RecoveryPoint, Read, Registers, reboot, nothing, action, key_of, poll_key, set_recovery_point,
  draw_panic, key_loop,
}
use aura_os.Panic.Keys.{AllIdle, finish, key_loop-first}
use aura_os.Panic.Dump.{draw_panic_blind}

abbrev stats : SysmonStats
stats = record {
  uptime_ms = 0;
  cpu_load_pct = 0;
  ram_used_kb = 0;
  ram_total_kb = 0;
  zram_saved_kb = 0;
  zram_ratio_x100 = 100;
}

abbrev shell : Menu
shell = record { cmd = []; log = []; active_view = menu }

abbrev console : Vga
console = record { memory = replicate 2000 0; row = 0; col = 0; color = 7 }

abbrev point : RecoveryPoint
point = record { rsp = 0x8000; rbp = 0x8100; rip = 0x10_0000; valid = true }

point_run : set_recovery_point 0x8000 0x8100 0x10_0000 ≡ point
unfolding set_recovery_point
point_run = refl

-- The keyboard has nothing, x is pressed, and x is released.
abbrev idle_reads : List Read
idle_reads =
    (record { status = 0; scancode = 0x13 })
    ∷ (record { status = 1; scancode = 0x2d })
    ∷ (record { status = 1; scancode = 0xad })
    ∷ []

abbrev b_pressed : Read
b_pressed = record { status = 1; scancode = 0x30 }

x_key :
    poll_key (idle_reads ++ b_pressed ∷ [])
    ≡ some (b'x', (record { status = 1; scancode = 0xad }) ∷ b_pressed ∷ [])
unfolding poll_key
x_key = refl

b_key : action (key_of b_pressed) ≡ reboot
unfolding action key_of
b_key = refl

b_acts : action (key_of b_pressed) ≢ nothing
unfolding action key_of
b_acts e = ground (arith, e)

idle_reads-AllIdle : AllIdle idle_reads
unfolding AllIdle action key_of
idle_reads-AllIdle = (refl, (refl, (refl, tt)))

key_loop-first_example :
    key_loop stats 0 0 processes 4 point shell console (idle_reads ++ b_pressed ∷ [])
    ≡ finish stats 0 0 processes point shell console (action (key_of b_pressed))
key_loop-first_example =
    key_loop-first stats 0 0 processes point shell console idle_reads [] 4 b_pressed refl
      idle_reads-AllIdle b_acts (omega arith)

abbrev zero_registers : Registers
zero_registers = record {
  rip = 0;
  cs = 0;
  rflags = 0;
  rax = 0;
  rbx = 0;
  rcx = 0;
  rdx = 0;
  rsp = 0;
  rbp = 0;
  int_no = 0;
  err_code = 0;
}

draw_panic_blind_example :
    draw_panic (some (codes "Page fault")) none 0 (some zero_registers) console.memory
    ≡ draw_panic
        (some (codes "Page fault"))
        none
        0
        (some (record zero_registers { rip = 0x10_0000; int_no = 14 }))
        console.memory
draw_panic_blind_example =
    draw_panic_blind (some (codes "Page fault")) none 0 zero_registers
      (record zero_registers { rip = 0x10_0000; int_no = 14 }) console.memory
