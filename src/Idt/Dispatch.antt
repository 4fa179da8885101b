-- ===== src/Idt/Dispatch.antt =====
-- Which handler an interrupt reaches, and its acknowledgement.
use native.Mathlib.Decide.{ℕ_discrete}
use aura_os.Base.{
  ℕ, ◌+◌, ◌<◌, ◌≡◌, refl, Option, none, some, inl, inr, Bool-cases, List, [], ◌∷◌, arith, ltb, ◌&&◌,
  ◌==◌, if◌then◌else◌, length, set, get_or, get_or-set_self, get_or-set_ne, ==_refl, ==_false,
}
use aura_os.Idt.{Idt, Registers, IsrHandler, PortWrites, register_handler, isr_handler, irq_handler}

module _ {S : Type 0} where
  registered :
      (t : Idt S) (num : ℕ) (handler : Option (IsrHandler S)) (n : ℕ)
      → num < length t.interrupt_handlers
      → get_or (set t.interrupt_handlers num handler) n none
        ≡ (if num == n then handler else get_or t.interrupt_handlers n none)
  registered t num handler n h = elim (ℕ_discrete num n) [
    | yes e ↦
        rw e (rw (==_refl n) (get_or-set_self t.interrupt_handlers n handler none (omega arith)))
    | no ne ↦ rw (==_false num n ne) (get_or-set_ne t.interrupt_handlers num n handler none ne)
  ]

  -- Once a handler is registered for a vector of the table, an exception or interrupt of that vector
  -- runs it and nothing else, an exception too; every other vector is served as before, and each
  -- hardware interrupt is acknowledged as before.
  pub register_handler_lem :
      (panic : List ℕ → Registers → S → S) (t : Idt S) (num : ℕ) (handler : IsrHandler S)
      (regs : Registers) (s : S)
      → num < length t.interrupt_handlers
      → (isr_handler panic (register_handler t num (some handler)) regs s
          ≡ (if num == regs.int_no then handler regs s else isr_handler panic t regs s))
        × ((irq_handler (register_handler t num (some handler)) regs s).0
            ≡ (if num == regs.int_no then handler regs s else (irq_handler t regs s).0))
        × ((irq_handler (register_handler t num (some handler)) regs s).1
            ≡ (irq_handler t regs s).1)
  unfolding register_handler isr_handler irq_handler
  register_handler_lem panic t num handler regs s h =
      let e = registered t num (some handler) regs.int_no h in
      elim (Bool-cases (num == regs.int_no)) [
        | inl p ↦ (
          elim (Bool-cases (ltb regs.int_no 32)) [
            | inl low ↦ rw (e, p) (rw low refl)
            | inr high ↦ rw (e, p) (rw high refl)
          ],
          rw (e, irq_handler) (rw p refl),
          refl,
        )
        | inr p ↦ (rw (e, p) refl, rw (e, irq_handler) (rw p refl), refl)
      ]

-- How often a byte is written to a port.
abbrev pub count_writes : ℕ → ℕ → PortWrites → ℕ
count_writes port byte [] = 0
count_writes port byte ((p, v) ∷ writes) =
    (if (p == port) && (v == byte) then 1 else 0) + count_writes port byte writes
