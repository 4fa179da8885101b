-- ===== src/Panic/Report.antt =====
-- What a panic sends on the serial port, kernel/core/panic.c, and what it tells of the registers.
use aura_os.Base.{
  ℕ, ◌%◌, ◌/◌, ◌≡◌, refl, sym, ap, ◌∙◌, true, false, Option, none, some, List, [], ◌∷◌, ◌++◌, ◌==◌,
  if◌then◌else◌, codes, u32, arith,
}
use aura_os.Varargs.{number}
use aura_os.Serial.{printf, printf_loop, directive, print_number}
use aura_os.Panic.{Registers}

abbrev crlf : List ℕ
crlf = 13 ∷ 10 ∷ []

abbrev banner : List ℕ
banner = codes "========================================" ++ crlf

-- The argument is NULL, or a text as `serial_puts` sends it.
abbrev or_else_text : Option (List ℕ) → List ℕ → List ℕ
or_else_text none other = other
or_else_text (some msg) other = msg

pub report_location : Option (List ℕ) → ℕ → List ℕ
report_location none line = []
report_location (some file) line =
    codes "Location: " ++ (file ++ (b':' ∷ (printf (some (codes "%u")) (number line ∷ []) ++ crlf)))

pub report_registers : Option Registers → List ℕ
report_registers none = []
report_registers (some r) =
    printf (some (codes "Trap: %u  Err: 0x%x  RIP: 0x%x  CS: 0x%x" ++ crlf))
      (number (u32 r.int_no) ∷ number (u32 r.err_code) ∷ number r.rip ∷ number r.cs ∷ [])
    ++ (printf (some (codes "RAX: 0x%x  RBX: 0x%x  RCX: 0x%x  RDX: 0x%x" ++ crlf))
          (number r.rax ∷ number r.rbx ∷ number r.rcx ∷ number r.rdx ∷ [])
        ++ printf (some (codes "RSP: 0x%x  RBP: 0x%x  RFLAGS: 0x%x" ++ crlf))
            (number r.rsp ∷ number r.rbp ∷ number r.rflags ∷ []))

pub report : Option (List ℕ) → Option (List ℕ) → ℕ → Option Registers → List ℕ
unfolding report_location report_registers
report msg file line regs =
    crlf
    ++ (banner
        ++ (codes "           *** KERNEL PANIC ***         "
            ++ (crlf
                ++ (banner
                    ++ (codes "Reason: "
                        ++ (or_else_text msg (codes "Unknown fatal error")
                            ++ (crlf
                                ++ (report_location file line
                                    ++ (report_registers regs
                                        ++ (codes "Interactive panic screen displayed on VGA."
                                            ++ crlf))))))))))

-- The keyboard controller's status is read until it takes a command: the reads that are left.
pub wait_ready : List ℕ → Option (List ℕ)
wait_ready [] = none
wait_ready (status ∷ reads) = if status / 2 % 2 == 1 then wait_ready reads else some reads

-- What `panic_do_reboot` sends on the serial port, and then writes to a port.
pub do_reboot : List ℕ → List ℕ × List (ℕ × ℕ)
unfolding wait_ready
do_reboot reads = (
  codes "[PANIC] Rebooting system..." ++ crlf,
  elim (wait_ready reads) [ none ↦ [] | some rest ↦ (0x64, 0xfe) ∷ [] ],
)

-- What `panic_do_poweroff` sends on the serial port, and then writes to ports.
pub do_poweroff : List ℕ × List (ℕ × ℕ)
do_poweroff = (
  codes "[PANIC] Powering off system..." ++ crlf,
  (0x604, 0x2000)
      ∷ (0x501, 0)
      ∷ (0xf4, 0)
      ∷ (0xb004, 0x2000)
      ∷ (0x4004, 0x3400)
      ∷ (0x4004, 0x2000)
      ∷ [],
)

-- What is kept of each register.
pub low_half : Registers → Registers
low_half r = record {
  rip = u32 r.rip;
  cs = u32 r.cs;
  rflags = u32 r.rflags;
  rax = u32 r.rax;
  rbx = u32 r.rbx;
  rcx = u32 r.rcx;
  rdx = u32 r.rdx;
  rsp = u32 r.rsp;
  rbp = u32 r.rbp;
  int_no = u32 r.int_no;
  err_code = u32 r.err_code;
}

u32-u32 : (n : ℕ) → u32 (u32 n) ≡ u32 n
u32-u32 n = omega arith

-- The lines on the registers, of numbers of 32 bits, in the order of the report.
pub lines : (trap err rip cs rax rbx rcx rdx rsp rbp rflags : ℕ) → List ℕ
lines trap err rip cs rax rbx rcx rdx rsp rbp rflags =
    (codes "Trap: "
      ++ (print_number trap false
          ++ (codes "  Err: 0x"
              ++ (print_number err true
                  ++ (codes "  RIP: 0x"
                      ++ (print_number rip true
                          ++ (codes "  CS: 0x" ++ (print_number cs true ++ crlf))))))))
    ++ ((codes "RAX: 0x"
          ++ (print_number rax true
              ++ (codes "  RBX: 0x"
                  ++ (print_number rbx true
                      ++ (codes "  RCX: 0x"
                          ++ (print_number rcx true
                              ++ (codes "  RDX: 0x" ++ (print_number rdx true ++ crlf))))))))
        ++ (codes "RSP: 0x"
            ++ (print_number rsp true
                ++ (codes "  RBP: 0x"
                    ++ (print_number rbp true
                        ++ (codes "  RFLAGS: 0x" ++ (print_number rflags true ++ crlf)))))))

report_registers_doubled :
    (r : Registers)
    → report_registers (some r)
      ≡ lines
          (u32 (u32 r.int_no))
          (u32 (u32 r.err_code))
          (u32 r.rip)
          (u32 r.cs)
          (u32 r.rax)
          (u32 r.rbx)
          (u32 r.rcx)
          (u32 r.rdx)
          (u32 r.rsp)
          (u32 r.rbp)
          (u32 r.rflags)
unfolding report_registers lines printf printf_loop directive
report_registers_doubled r = refl

-- Each register is shown by its low 32 bits, two in base 10 and the others in base 16.
report_registers-lines :
    (r : Registers)
    → report_registers (some r)
      ≡ lines
          (u32 r.int_no)
          (u32 r.err_code)
          (u32 r.rip)
          (u32 r.cs)
          (u32 r.rax)
          (u32 r.rbx)
          (u32 r.rcx)
          (u32 r.rdx)
          (u32 r.rsp)
          (u32 r.rbp)
          (u32 r.rflags)
report_registers-lines r =
    report_registers_doubled r ∙ simp (u32-u32 r.int_no, u32-u32 r.err_code) refl

low_half-lines : (r : Registers) → report_registers (some (low_half r)) ≡ report_registers (some r)
unfolding low_half
low_half-lines r =
    report_registers-lines (low_half r)
    ∙ simp
        (
          u32-u32 r.rip,
          u32-u32 r.cs,
          u32-u32 r.rflags,
          u32-u32 r.rax,
          u32-u32 r.rbx,
          u32-u32 r.rcx,
          u32-u32 r.rdx,
          u32-u32 r.rsp,
          u32-u32 r.rbp,
          u32-u32 r.int_no,
          u32-u32 r.err_code,
        )
        (sym (report_registers-lines r))

-- The report tells of each register its low 32 bits only: it is the same for two sets of values
-- that agree in these.
pub report-low_half :
    (msg file : Option (List ℕ)) (line : ℕ) (r s : Registers)
    → low_half r ≡ low_half s
    → report msg file line (some r) ≡ report msg file line (some s)
unfolding report
report-low_half msg file line r s e =
    simp (sym (low_half-lines r) ∙ ap (λ t. report_registers (some t)) e ∙ low_half-lines s) refl
