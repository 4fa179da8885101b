-- ===== src/Idt/Gates.antt =====
-- What the processor reads from the gates.
use native.Mathlib.Decide.{ℕ_discrete}
use aura_os.Base.{
  ℕ, Bool, true, false, u64, zero, suc, ◌+◌, ◌*◌, ◌^◌, ◌≤◌, ◌<◌, ◌≡◌, refl, ap, ◌∙◌, arith, ltb,
  if◌then◌else◌, none, length, get_or, replicate, length-set, length-replicate, get_or-set_self,
  get_or-set_ne, get_or-replicate, lt→ltb, le→ltb,
}
use aura_os.Idt.{Idt, IdtEntry, zero_entry, make_gate, install_gates, install}

-- The address that an interrupt goes to, put together from the three fields.
abbrev pub gate_offset : IdtEntry → ℕ
gate_offset e = e.base_low + e.base_mid * 2 ^ 16 + e.base_high * 2 ^ 32

gate_fields :
    (e : IdtEntry) (b : Bool) (handler : ℕ)
    → e ≡ (if b then make_gate handler 0x08 0x8e else zero_entry)
    → handler < 2 ^ 64
    → (gate_offset e ≡ (if b then handler else 0))
      × (e.flags ≡ (if b then 0x8e else 0))
      × (e.selector ≡ (if b then 0x08 else 0))
unfolding make_gate
gate_fields e true handler p h =
    (ap gate_offset p ∙ omega arith, ap (λ e. e.flags) p, ap (λ e. e.selector) p)
gate_fields e false handler p h = (ap gate_offset p, ap (λ e. e.flags) p, ap (λ e. e.selector) p)

module _ {S : Type 0} where
  length-install_gates :
      (stub : ℕ → ℕ) (n : ℕ) (t : Idt S) → length (install_gates stub n t).idt ≡ length t.idt
  unfolding install_gates
  length-install_gates stub zero t = refl
  length-install_gates stub (suc n) t =
      length-set (install_gates stub n t).idt n (make_gate (stub n) 0x08 0x8e)
      ∙ length-install_gates stub n t

  -- Below `n` the gates are the stubs', above as before.
  install_gates_lem :
      (stub : ℕ → ℕ) (n num : ℕ) (t : Idt S)
      → n ≤ length t.idt
      → get_or (install_gates stub n t).idt num zero_entry
        ≡ (if ltb num n then make_gate (stub num) 0x08 0x8e else get_or t.idt num zero_entry)
  unfolding install_gates
  install_gates_lem stub zero num t h = rw (le→ltb num 0 (omega arith)) refl
  install_gates_lem stub (suc n) num t h = elim (ℕ_discrete n num) [
    | yes e ↦ rw (lt→ltb num (suc n) (omega arith)) (
        rw e (
          get_or-set_self (install_gates stub num t).idt num (make_gate (stub num) 0x08 0x8e)
            zero_entry (omega (arith, length-install_gates stub num t))))
    | no ne ↦
        get_or-set_ne (install_gates stub n t).idt n num (make_gate (stub n) 0x08 0x8e) zero_entry
          ne
        ∙ install_gates_lem stub n num t (omega arith)
        ∙ ap (λ b. if b then make_gate (stub num) 0x08 0x8e else get_or t.idt num zero_entry)
            (ground arith)
  ]

  interrupt_handlers-install_gates :
      (stub : ℕ → ℕ) (n : ℕ) (t : Idt S)
      → (install_gates stub n t).interrupt_handlers ≡ t.interrupt_handlers
  unfolding install_gates
  interrupt_handlers-install_gates stub zero t = refl
  interrupt_handlers-install_gates stub (suc n) t = interrupt_handlers-install_gates stub n t

  -- The table before the gates are set.
  abbrev cleared : ℕ → Idt S
  cleared idt_addr = record {
    idt = replicate 256 zero_entry;
    idtp_limit = 4095;
    idtp_base = u64 idt_addr;
    interrupt_handlers = replicate 256 none;
  }

  -- After `isr_install` with 64-bit addresses of the stubs, each of the 48 vectors has a present ring 0
  -- interrupt gate of the kernel's code segment to its own stub, whose address is whole; every later
  -- vector has a gate that is not present; and no handler is registered.
  pub install_lem :
      (stub : ℕ → ℕ) (idt_addr num : ℕ)
      → num < 256
      → stub num < 2 ^ 64
      → (gate_offset (get_or (install {S = S} stub idt_addr).0.idt num zero_entry)
          ≡ (if ltb num 48 then stub num else 0))
        × ((get_or (install {S = S} stub idt_addr).0.idt num zero_entry).flags
            ≡ (if ltb num 48 then 0x8e else 0))
        × ((get_or (install {S = S} stub idt_addr).0.idt num zero_entry).selector
            ≡ (if ltb num 48 then 0x08 else 0))
        × (get_or (install {S = S} stub idt_addr).0.interrupt_handlers num none ≡ none)
  unfolding install
  install_lem stub idt_addr num h hs =
      let t = cleared idt_addr in
      let zeroed = get_or-replicate 256 num zero_entry zero_entry h in
      let gates =
        install_gates_lem stub 48 num t (omega (arith, length-replicate 256 zero_entry)) in
      let e = gates ∙ ap (λ z. if ltb num 48 then make_gate (stub num) 0x08 0x8e else z) zeroed in
      let (offset, flags, selector) =
        gate_fields (get_or (install_gates stub 48 t).idt num zero_entry) (ltb num 48) (stub num) e
          hs in
      (
        offset,
        flags,
        selector,
        ap (λ hs. get_or hs num none) (interrupt_handlers-install_gates stub 48 t)
            ∙ get_or-replicate 256 num none none h,
      )
