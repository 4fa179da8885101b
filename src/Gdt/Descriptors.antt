-- ===== src/Gdt/Descriptors.antt =====
-- What the processor reads from the descriptors: base, limit, flags and privilege.
use aura_os.Base.{
  ℕ, zero, suc, ◌+◌, ◌-◌, ◌*◌, ◌/◌, ◌%◌, ◌^◌, ◌<◌, ◌≡◌, ◌≢◌, refl, ap, ◌∙◌, List, [], ◌∷◌, arith,
  leb, if◌then◌else◌, length, get_or, get_or-set_self, get_or-set_ne,
}
use aura_os.Gdt.{Gdt, GdtEntry, TssEntry, tss_size, table_size, make_entry, set_gate, init}

-- The fields of a descriptor, put together as the processor reads them.
abbrev pub entry_base : GdtEntry → ℕ
entry_base e = e.base_low + e.base_middle * 2 ^ 16 + e.base_high * 2 ^ 24

abbrev pub entry_limit : GdtEntry → ℕ
entry_limit e = e.limit_low + e.granularity % 2 ^ 4 * 2 ^ 16

abbrev pub entry_flags : GdtEntry → ℕ
entry_flags e = e.granularity / 2 ^ 4

abbrev pub tss_base : TssEntry → ℕ
tss_base t = t.base_low + t.base_mid * 2 ^ 16 + t.base_high * 2 ^ 24 + t.base_upper32 * 2 ^ 32

abbrev pub tss_limit : TssEntry → ℕ
tss_limit t = t.length + t.flags2 % 2 ^ 4 * 2 ^ 16

-- Descriptor `num` after `set_gate`, for a number of the table, a 32-bit base and a byte of flags: the
-- base and the access byte are those given, the limit is its low 20 bits, the flags are the high half
-- of the byte, and any other descriptor is as before.
pub set_gate_lem :
    (g : Gdt) (num base limit access gran other : ℕ) (d : GdtEntry)
    → num < length g.entries
    → base < 2 ^ 32
    → gran < 2 ^ 8
    → num ≢ other
    → (entry_base (get_or (set_gate g num base limit access gran).entries num d) ≡ base)
      × (entry_limit (get_or (set_gate g num base limit access gran).entries num d)
          ≡ limit % 2 ^ 20)
      × (entry_flags (get_or (set_gate g num base limit access gran).entries num d) ≡ gran / 2 ^ 4)
      × ((get_or (set_gate g num base limit access gran).entries num d).access ≡ access)
      × (get_or (set_gate g num base limit access gran).entries other d ≡ get_or g.entries other d)
unfolding set_gate
set_gate_lem g num base limit access gran other d hn hb hg ne =
    let e = make_entry base limit access gran in
    let same : get_or (set_gate g num base limit access gran).entries num d ≡ e =
      get_or-set_self g.entries num e d hn in
    (
      ap entry_base same ∙ omega arith,
      ap entry_limit same ∙ omega arith,
      ap entry_flags same ∙ omega arith,
      ap (λ e. e.access) same,
      get_or-set_ne g.entries num other e d ne,
    )

-- The privilege level of a descriptor, and that of each one of the kernel's.
abbrev pub entry_ring : GdtEntry → ℕ
entry_ring e = e.access / 2 ^ 5 % 2 ^ 2

abbrev pub ring : ℕ → ℕ
ring num = if leb 3 num then 3 else 0

-- A segment of all the memory, for a ring.
pub IsFlat : GdtEntry → ℕ → Type 0
IsFlat e r = (entry_base e ≡ 0) × (entry_limit e ≡ 2 ^ 20 - 1) × (entry_ring e ≡ r)

init_segments :
    (entries : List GdtEntry) (tss : TssEntry) (iomap limit base gdt_addr tss_addr num : ℕ)
    (d : GdtEntry)
    → length entries ≡ 5
    → num < 5
    → num ≢ 0
    → IsFlat
        (get_or
          (init
            (record {
              entries = entries;
              tss = tss;
              iomap_base = iomap;
              pointer_limit = limit;
              pointer_base = base;
            })
            gdt_addr
            tss_addr).entries
          num
          d)
        (ring num)
unfolding init set_gate IsFlat
init_segments [] t i l b ga ta num d h hn nz = absurd (omega arith)
init_segments (e ∷ []) t i l b ga ta num d h hn nz = absurd (omega arith)
init_segments (e ∷ f ∷ []) t i l b ga ta num d h hn nz = absurd (omega arith)
init_segments (e ∷ f ∷ m ∷ []) t i l b ga ta num d h hn nz = absurd (omega arith)
init_segments (e ∷ f ∷ m ∷ n ∷ []) t i l b ga ta num d h hn nz = absurd (omega arith)
init_segments (e ∷ f ∷ m ∷ n ∷ o ∷ q ∷ es) t i l b ga ta num d h hn nz = absurd (omega arith)
init_segments (e ∷ f ∷ m ∷ n ∷ o ∷ []) t i l b ga ta zero d h hn nz = absurd (nz refl)
init_segments (e ∷ f ∷ m ∷ n ∷ o ∷ []) t i l b ga ta (suc zero) d h hn nz = (refl, refl, refl)
init_segments (e ∷ f ∷ m ∷ n ∷ o ∷ []) t i l b ga ta (suc (suc zero)) d h hn nz = (refl, refl, refl)
init_segments (e ∷ f ∷ m ∷ n ∷ o ∷ []) t i l b ga ta (suc (suc (suc zero))) d h hn nz =
    (refl, refl, refl)
init_segments (e ∷ f ∷ m ∷ n ∷ o ∷ []) t i l b ga ta (suc (suc (suc (suc zero)))) d h hn nz =
    (refl, refl, refl)
init_segments (e ∷ f ∷ m ∷ n ∷ o ∷ []) t i l b ga ta (suc (suc (suc (suc (suc k))))) d h hn nz =
    absurd (omega arith)

-- After `gdt_init` on a table of five entries, at 64-bit addresses: the task state's descriptor, split
-- over four fields, gives its address and its last byte, the pointer gives the table's address and its
-- last byte, and each segment descriptor has
-- base 0 and the greatest limit, and is for ring 0 if it is the first or second, else for ring 3.
pub init_lem :
    (g : Gdt) (gdt_addr tss_addr num : ℕ) (d : GdtEntry)
    → length g.entries ≡ 5
    → gdt_addr < 2 ^ 64
    → tss_addr < 2 ^ 64
    → num < 5
    → num ≢ 0
    → (tss_base (init g gdt_addr tss_addr).tss ≡ tss_addr)
      × (tss_limit (init g gdt_addr tss_addr).tss + 1 ≡ tss_size)
      × ((init g gdt_addr tss_addr).pointer_base ≡ gdt_addr)
      × ((init g gdt_addr tss_addr).pointer_limit + 1 ≡ table_size)
      × IsFlat (get_or (init g gdt_addr tss_addr).entries num d) (ring num)
unfolding init
init_lem g gdt_addr tss_addr num d h hg ht hn nz = (
  omega arith,
  omega arith,
  omega arith,
  omega arith,
  init_segments g.entries g.tss g.iomap_base g.pointer_limit g.pointer_base gdt_addr tss_addr num d
      h hn nz,
)
