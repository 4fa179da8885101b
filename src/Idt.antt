-- ===== src/Idt.antt =====
-- Interrupt gates and dispatch, kernel/arch/x86_shared/idt.c (the 64-bit build). What a handler and the
-- panic screen change is a type parameter; the addresses of the assembly stubs and of the table are
-- arguments; port writes are a list of port and byte. Loading the table register is left out.
pub mod Gates
pub mod Dispatch
mod Examples
use aura_os.Base.{
  ℕ, zero, suc, ◌+◌, ◌-◌, ◌*◌, ◌/◌, ◌^◌, Option, none, some, List, [], ◌∷◌, ◌++◌, ltb, leb,
  if◌then◌else◌, u8, u16, u32, u64, set, get_or, replicate, codes,
}

-- `struct idt_entry`
pub record IdtEntry : Type 0 where
  pub base_low : ℕ
  pub selector : ℕ
  pub ist : ℕ
  pub flags : ℕ
  pub base_mid : ℕ
  pub base_high : ℕ
  pub reserved : ℕ

-- The two registers that the dispatch reads.
pub record Registers : Type 0 where
  pub int_no : ℕ
  pub err_code : ℕ

-- `isr_handler_t`
abbrev pub IsrHandler : Type 0 → Type 0
IsrHandler S = Registers → S → S

-- The static variables of the module.
pub record Idt (S : Type 0) : Type 0 where
  pub idt : List IdtEntry
  pub idtp_limit : ℕ
  pub idtp_base : ℕ
  pub interrupt_handlers : List (Option (IsrHandler S))

abbrev pub zero_entry : IdtEntry
zero_entry = record {
  base_low = 0;
  selector = 0;
  ist = 0;
  flags = 0;
  base_mid = 0;
  base_high = 0;
  reserved = 0;
}

pub make_gate : ℕ → ℕ → ℕ → IdtEntry
make_gate handler selector flags = record {
  base_low = u16 handler;
  selector = selector;
  ist = 0;
  flags = flags;
  base_mid = u16 (handler / 2 ^ 16);
  base_high = u32 (handler / 2 ^ 32);
  reserved = 0;
}

-- A byte goes to a port; `io_wait` is a write to port 0x80.
abbrev pub PortWrites : Type 0
PortWrites = List (ℕ × ℕ)

abbrev pub outb_wait : ℕ → ℕ → PortWrites
outb_wait port val = (port, val) ∷ (0x80, 0) ∷ []

pub pic_remap : ℕ → ℕ → PortWrites
pic_remap offset1 offset2 =
    outb_wait 0x20 0x11
    ++ (outb_wait 0xa0 0x11
        ++ (outb_wait 0x21 (u8 offset1)
            ++ (outb_wait 0xa1 (u8 offset2)
                ++ (outb_wait 0x21 4
                    ++ (outb_wait 0xa1 2
                        ++ (outb_wait 0x21 1
                            ++ (outb_wait 0xa1 1 ++ ((0x21, 0xf8) ∷ (0xa1, 0xff) ∷ []))))))))

pub pic_send_eoi : ℕ → PortWrites
pic_send_eoi irq = (if leb 8 irq then (0xa0, 0x20) ∷ [] else []) ++ ((0x20, 0x20) ∷ [])

abbrev pub exception_messages : List (List ℕ)
exception_messages =
    codes "Division By Zero"
    ∷ codes "Debug"
    ∷ codes "Non Maskable Interrupt"
    ∷ codes "Breakpoint"
    ∷ codes "Into Detected Overflow"
    ∷ codes "Out of Bounds"
    ∷ codes "Invalid Opcode"
    ∷ codes "No Coprocessor"
    ∷ codes "Double Fault"
    ∷ codes "Coprocessor Segment Overrun"
    ∷ codes "Bad TSS"
    ∷ codes "Segment Not Present"
    ∷ codes "Stack Fault"
    ∷ codes "General Protection Fault"
    ∷ codes "Page Fault"
    ∷ codes "Unknown Interrupt"
    ∷ codes "Coprocessor Fault"
    ∷ codes "Alignment Check"
    ∷ codes "Machine Check"
    ∷ codes "SIMD Floating-Point Exception"
    ∷ codes "Virtualization Exception"
    ∷ codes "Control Protection Exception"
    ∷ codes "Reserved"
    ∷ codes "Reserved"
    ∷ codes "Reserved"
    ∷ codes "Reserved"
    ∷ codes "Reserved"
    ∷ codes "Reserved"
    ∷ codes "Hypervisor Injection Exception"
    ∷ codes "VMM Communication Exception"
    ∷ codes "Security Exception"
    ∷ codes "Reserved"
    ∷ []

module _ {S : Type 0} where
  pub set_gate : Idt S → ℕ → ℕ → ℕ → ℕ → Idt S
  unfolding make_gate
  set_gate t num handler selector flags = record t {
    idt = set t.idt num (make_gate handler selector flags);
  }

  unfoldable pub register_handler : Idt S → ℕ → Option (IsrHandler S) → Idt S
  register_handler t num handler = record t {
    interrupt_handlers = set t.interrupt_handlers num handler;
  }

  -- `aura_panic_interactive(reason, NULL, 0, regs)` is the argument `panic`.
  unfoldable pub isr_handler : (List ℕ → Registers → S → S) → Idt S → Registers → S → S
  isr_handler panic t regs s =
      if ltb regs.int_no 32
      then elim (get_or t.interrupt_handlers regs.int_no none) [
        | some handler ↦ handler regs s
        | none ↦ panic (get_or exception_messages regs.int_no []) regs s
      ]
      else elim (get_or t.interrupt_handlers regs.int_no none) [
        | some handler ↦ handler regs s
        | none ↦ s
      ]

  -- The state that the handler leaves, and the acknowledgement that follows it.
  unfoldable pub irq_handler : Idt S → Registers → S → S × PortWrites
  unfolding pic_send_eoi
  irq_handler t regs s = (
    elim (get_or t.interrupt_handlers regs.int_no none) [
      | some handler ↦ handler regs s
      | none ↦ s
    ],
    pic_send_eoi (u8 (regs.int_no + 2 ^ 64 - 32)),
  )

  -- The calls of `idt_set_gate` for the vectors below `n`; `stub` gives isr0 to isr31 and irq0 to irq15.
  pub install_gates : (ℕ → ℕ) → ℕ → Idt S → Idt S
  unfolding set_gate
  install_gates stub zero t = t
  install_gates stub (suc n) t = set_gate (install_gates stub n t) n (stub n) 0x08 0x8e

  unfoldable pub install : (ℕ → ℕ) → ℕ → Idt S × PortWrites
  unfolding install_gates pic_remap
  install stub idt_addr = (
    install_gates stub 48 (record {
      idt = replicate 256 zero_entry;
      idtp_limit = u16 (256 * 16 - 1);
      idtp_base = u64 idt_addr;
      interrupt_handlers = replicate 256 none;
    }),
    pic_remap 0x20 0x28,
  )
