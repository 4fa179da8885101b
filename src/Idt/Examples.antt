-- ===== src/Idt/Examples.antt =====
-- Runs of the interrupt dispatch, and its theorems at a concrete table.
use aura_os.Base.{ℕ, ◌+◌, ◌*◌, ◌≡◌, refl, arith, some, List, [], ◌∷◌, codes, length}
use aura_os.Idt.{Idt, Registers, register_handler, isr_handler, irq_handler, install, pic_remap}
use aura_os.Idt.Dispatch.{register_handler_lem}

-- Stubs of 16 bytes from 1 MiB on, and a log of what ran.
abbrev stub : ℕ → ℕ
stub n = 0x10_0000 + 16 * n

abbrev started : Idt (List ℕ)
started = (install stub 0x20_0000).0

abbrev panic : List ℕ → Registers → List ℕ → List ℕ
panic reason regs log = reason

abbrev tick : Registers → List ℕ → List ℕ
tick regs log = regs.int_no ∷ log

abbrev irq : ℕ → Registers
irq n = record { int_no = n; err_code = 0 }

divide_panics : isr_handler panic started (irq 0) [] ≡ codes "Division By Zero"
unfolding isr_handler install
divide_panics = refl

timer_first :
    irq_handler (register_handler started 32 (some tick)) (irq 32) [] ≡ (32 ∷ [], (0x20, 0x20) ∷ [])
unfolding irq_handler register_handler install
timer_first = refl

masks_last : (install {S = List ℕ} stub 0).1 ≡ pic_remap 32 40
unfolding install
masks_last = refl

handlers_256 : length started.interrupt_handlers ≡ 256
unfolding install
handlers_256 = refl

register_handler_lem_example :
    (isr_handler panic (register_handler started 14 (some tick)) (irq 14) [] ≡ 14 ∷ [])
    × ((irq_handler (register_handler started 14 (some tick)) (irq 14) []).0 ≡ 14 ∷ [])
    × ((irq_handler (register_handler started 14 (some tick)) (irq 14) []).1
        ≡ (irq_handler started (irq 14) []).1)
register_handler_lem_example =
    register_handler_lem panic started 14 tick (irq 14) [] (omega (arith, handlers_256))
