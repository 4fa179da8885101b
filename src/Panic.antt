-- ===== src/Panic.antt =====
-- The panic screen, kernel/core/panic.c: what is drawn, and the loop over the keys. What is read from the
-- keyboard's two ports is a list. What is sent on the serial port, and the writes to the ports that reset
-- or switch off, are in Report.
pub mod Dump
pub mod Keys
pub mod Report
mod Examples
use aura_os.Base.{
  ℕ, zero, suc, ◌+◌, ◌-◌, ◌%◌, ◌^◌, Bool, true, false, ◌&&◌, ◌||◌, Option, none, some, List, [],
  ◌∷◌, ◌==◌, ltb, leb, if◌then◌else◌, u32, codes, get_or,
}
use aura_os.Varargs.{Arg, text, number}
use aura_os.Vga
use aura_os.Vga.{Vga}
use aura_os.Tui.{Screen, puts_at, printf_at, draw_box, row_loop}
use aura_os.Dashboard.{Process, ◌▷◌, at}
use aura_os.Sysmon.{SysmonStats}
use aura_os.Menu.{Menu, log_print}
use aura_os.Menu.Draw.{render}

-- recovery_point
pub record RecoveryPoint : Type 0 where
  pub rsp : ℕ
  pub rbp : ℕ
  pub rip : ℕ
  pub valid : Bool

abbrev pub no_recovery_point : RecoveryPoint
no_recovery_point = record { rsp = 0; rbp = 0; rip = 0; valid = false }

-- `panic_set_recovery_point`, given the two registers and its return address.
pub set_recovery_point : ℕ → ℕ → ℕ → RecoveryPoint
set_recovery_point rsp rbp rip = record { rsp = rsp; rbp = rbp; rip = rip; valid = true }

-- `scancode_ascii`, up to the last entry that is given; the others are 0.
abbrev pub scancode_ascii : List ℕ
scancode_ascii =
    0 ∷ 27 ∷ b'1' ∷ b'2' ∷ b'3' ∷ b'4' ∷ b'5' ∷ b'6' ∷ b'7' ∷ b'8' ∷ b'9' ∷ b'0' ∷ b'-' ∷ b'=' ∷ 8
    ∷ 9 ∷ b'q' ∷ b'w' ∷ b'e' ∷ b'r' ∷ b't' ∷ b'y' ∷ b'u' ∷ b'i' ∷ b'o' ∷ b'p' ∷ b'[' ∷ b']' ∷ 10 ∷ 0
    ∷ b'a' ∷ b's' ∷ b'd' ∷ b'f' ∷ b'g' ∷ b'h' ∷ b'j' ∷ b'k' ∷ b'l' ∷ b';' ∷ 39 ∷ b'`' ∷ 0 ∷ 92
    ∷ b'z' ∷ b'x' ∷ b'c' ∷ b'v' ∷ b'b' ∷ b'n' ∷ b'm' ∷ b',' ∷ b'.' ∷ b'/' ∷ 0 ∷ b'*' ∷ 0 ∷ b' ' ∷ 0
    ∷ []

-- What a round of `panic_poll_key` reads: the status, and the scancode behind it.
pub record Read : Type 0 where
  pub status : ℕ
  pub scancode : ℕ

-- The key of a round; 0 if the loop goes on.
unfoldable pub key_of : Read → ℕ
key_of r =
    if r.status % 2 == 1
    then (if ltb r.scancode 128 then get_or scancode_ascii r.scancode 0 else 0)
    else 0

-- `panic_poll_key`: the key and the reads that are left; `none` if the loop has not ended with them.
unfoldable pub poll_key : List Read → Option (ℕ × List Read)
unfolding key_of
poll_key [] = none
poll_key (r ∷ reads) = elim (key_of r == 0) [
  | true ↦ poll_key reads
  | false ↦ some (key_of r, reads)
]

-- Of `registers_t`, what is drawn.
pub record Registers : Type 0 where
  pub rip : ℕ
  pub cs : ℕ
  pub rflags : ℕ
  pub rax : ℕ
  pub rbx : ℕ
  pub rcx : ℕ
  pub rdx : ℕ
  pub rsp : ℕ
  pub rbp : ℕ
  pub int_no : ℕ
  pub err_code : ℕ

-- `left` rows of blanks from row `y` on.
pub blank_rows : ℕ → ℕ → Screen → Screen
blank_rows zero y m = m
blank_rows (suc left) y m = blank_rows left (y + 1) (row_loop 80 0 m 0 y b' ' 0x4f)

unfoldable pub draw_registers : Option Registers → Screen → Screen
draw_registers none m =
    m
    ▷ at 4 13 0x4f (codes "Manual AURA_PANIC assertion triggered from kernel subsystem.") []
    ▷ at 4 14 0x4f (codes "Pre-panic register snapshot saved in recovery checkpoint.") []
draw_registers (some r) m =
    m
    ▷ at 4 12 0x4f (codes "RIP: 0x%-16x  CS:     0x%-8x  RFLAGS: 0x%-8x")
        (number r.rip ∷ number (u32 r.cs) ∷ number (u32 r.rflags) ∷ [])
    ▷ at 4 13 0x4f (codes "RAX: 0x%-16x  RBX:    0x%-16x") (number r.rax ∷ number r.rbx ∷ [])
    ▷ at 4 14 0x4f (codes "RCX: 0x%-16x  RDX:    0x%-16x") (number r.rcx ∷ number r.rdx ∷ [])
    ▷ at 4 15 0x4f (codes "RSP: 0x%-16x  RBP:    0x%-16x") (number r.rsp ∷ number r.rbp ∷ [])
    ▷ at 4 16 0x4f (codes "TRAP: %-2u (code: 0x%x)")
        (number (u32 r.int_no) ∷ number (u32 r.err_code) ∷ [])

unfoldable pub draw_source : Option (List ℕ) → ℕ → Screen → Screen
draw_source none line m = m
draw_source (some file) line m =
    m
    ▷ at 4 5 0x4e (codes "Source:   ") []
    ▷ at 14 5 0x4f (codes "%s:%u") (text (some file) ∷ number line ∷ [])

unfoldable pub draw_actions : Screen → Screen
draw_actions m =
    draw_box m 2 19 76 4 0x4a 0x4e (some (codes " Available Recovery Actions ")) false
    ▷ at 4 20 0x4a (codes "[R] Restore") []
    ▷ at 16 20 0x4f (codes "- Roll back execution to shell & clear fault") []
    ▷ at 4 21 0x4e (codes "[B] Reboot") []
    ▷ at 16 21 0x4f (codes "- Reset processor and restart system") []
    ▷ at 40 21 0x4c (codes "[O] Power Off") []
    ▷ at 54 21 0x4f (codes "- ACPI shut down") []

-- The drawing of `aura_panic_interactive`.
unfoldable pub draw_panic :
    Option (List ℕ) → Option (List ℕ) → ℕ → Option Registers → Screen → Screen
unfolding blank_rows draw_registers draw_source draw_actions
draw_panic msg file line regs m =
    row_loop 80 0 m 0 0 b' ' 0x4e
    ▷ (λ m. puts_at m 2 0 (codes "*** KERNEL PANIC - RECOVERY CONSOLE ***") 0x4e)
    ▷ (λ m. puts_at m 62 0 (codes "AuraOS v0.2.3") 0x4f)
    ▷ blank_rows 23 1
    ▷ (λ m. draw_box m 2 2 76 7 0x4f 0x4e (some (codes " Diagnostic Information ")) true)
    ▷ at 4 4 0x4e (codes "Reason:   ") []
    ▷ at 14 4 0x4f (codes "%s") (
        text (elim msg [ none ↦ some (codes "General Kernel Protection Fault") | some s ↦ some s ])
        ∷ [])
    ▷ draw_source file line
    ▷ at 4 6 0x4e (codes "Status:   ") []
    ▷ at 14 6 0x4a (codes "Kernel halted. Hardware state frozen.") []
    ▷ (λ m. draw_box m 2 10 76 8 0x4f 0x4e (some (codes " CPU Hardware Register State ")) false)
    ▷ draw_registers regs
    ▷ draw_actions
    ▷ (λ m. row_loop 80 0 m 0 24 b' ' 0x1f)
    ▷ (λ m. puts_at m 2 24 (codes "Select action: [R] Restore   [B] Reboot   [O] Power Off") 0x1e)

-- What a key of the loop asks for.
pub data Action : Type 0 where
  restore reboot poweroff nothing : Action

unfoldable pub action : ℕ → Action
action key =
    if (key == b'r') || (key == b'R')
    then restore
    else if (key == b'b') || (key == b'B')
    then reboot
    else if (key == b'o') || ((key == b'O') || ((key == b'p') || (key == b'P')))
    then poweroff
    else nothing

-- How the loop ends: execution goes on at the recovery point, with the console and the shell as they
-- are then; the machine is reset; it is switched off, or stops at the notice; or a key is awaited.
pub data End : Type 0 where
  resumed : RecoveryPoint → Vga → Menu → End
  rebooting : End
  powering_off : Screen → End
  awaiting : Screen → End

module _ (stats : SysmonStats) (ticks heap_used : ℕ) (ps : List Process) where
  -- `panic_do_restore` with a valid recovery point.
  unfoldable pub do_restore : RecoveryPoint → Menu → Vga → End
  do_restore point s v =
      let cleared = Vga.init v in
      let s' = log_print s (codes "[RECOVERED] System state successfully restored after panic") in
      resumed point
        (record cleared { memory = (render stats ticks heap_used ps s' cleared.memory).0 }) s'

  -- The loop over the keys, in `fuel` rounds at most.
  unfoldable pub key_loop : ℕ → RecoveryPoint → Menu → Vga → List Read → End
  unfolding poll_key action do_restore
  key_loop zero point s v reads = awaiting v.memory
  key_loop (suc fuel) point s v reads = elim (poll_key reads) [
    | none ↦ awaiting v.memory
    | some (key, rest) ↦ elim (action key) [
      | restore ↦ elim point.valid [
        | true ↦ do_restore point s v
        | false ↦
            key_loop fuel point s
              (record v {
                memory =
                    printf_at v.memory 2 23 0x4e
                      (codes "No valid restore point available! Use Reboot or Poweroff. ") [];
              })
              rest
      ]
      | reboot ↦ rebooting
      | poweroff ↦ powering_off (
          printf_at v.memory 2 23 0x4f
            (codes "Power off not supported by hardware. You may close the VM.") [])
      | nothing ↦ key_loop fuel point s v rest
    ]
  ]

  -- What `aura_panic_interactive` comes to, in `fuel` rounds of its loop.
  unfoldable pub aura_panic_interactive :
      ℕ
      → RecoveryPoint
      → Menu
      → Vga
      → Option (List ℕ)
      → Option (List ℕ)
      → ℕ
      → Option Registers
      → List Read
      → End
  unfolding draw_panic key_loop
  aura_panic_interactive fuel point s v msg file line regs reads =
      key_loop fuel point s (record v { memory = draw_panic msg file line regs v.memory }) reads

  pub aura_panic :
      ℕ → RecoveryPoint → Menu → Vga → Option (List ℕ) → Option (List ℕ) → ℕ → List Read → End
  unfolding aura_panic_interactive
  aura_panic fuel point s v msg file line reads =
      aura_panic_interactive fuel point s v msg file line none reads
