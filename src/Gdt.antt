-- ===== src/Gdt.antt =====
-- The descriptor table of the 64-bit kernel, kernel/arch/x86_shared/gdt.c: the packing of segment
-- descriptors and of the task state's, and the table that is loaded. Where the linker places the table
-- and the task state are arguments. Loading the registers is assembly.
pub mod Descriptors
mod Examples
use aura_os.Base.{ℕ, ◌+◌, ◌-◌, ◌*◌, ◌/◌, ◌%◌, ◌^◌, List, [], ◌∷◌, u8, u16, u32, u64, set, length}

-- `struct gdt_entry`, `struct tss_entry_64`
pub record GdtEntry : Type 0 where
  pub limit_low : ℕ
  pub base_low : ℕ
  pub base_middle : ℕ
  pub access : ℕ
  pub granularity : ℕ
  pub base_high : ℕ

pub record TssEntry : Type 0 where
  pub length : ℕ
  pub base_low : ℕ
  pub base_mid : ℕ
  pub flags1 : ℕ
  pub flags2 : ℕ
  pub base_high : ℕ
  pub base_upper32 : ℕ
  pub reserved : ℕ

-- The static variables: the table, the pointer to it, and the one field of the task state that is
-- not cleared.
pub record Gdt : Type 0 where
  pub entries : List GdtEntry
  pub tss : TssEntry
  pub iomap_base : ℕ
  pub pointer_limit : ℕ
  pub pointer_base : ℕ

-- sizeof(struct tss_struct), sizeof(struct gdt_table)
abbrev pub tss_size : ℕ
tss_size = 4 + 3 * 8 + 8 + 7 * 8 + 8 + 2 + 2

abbrev pub table_size : ℕ
table_size = 5 * 8 + 16

-- The halves of the granularity byte do not overlap, so their `|` is the sum.
pub make_entry : ℕ → ℕ → ℕ → ℕ → GdtEntry
make_entry base limit access gran = record {
  base_low = u16 base;
  base_middle = u8 (base / 2 ^ 16);
  base_high = u8 (base / 2 ^ 24);
  limit_low = u16 limit;
  granularity = limit / 2 ^ 16 % 2 ^ 4 + gran / 2 ^ 4 % 2 ^ 4 * 2 ^ 4;
  access = access;
}

pub set_gate : Gdt → ℕ → ℕ → ℕ → ℕ → ℕ → Gdt
unfolding make_entry
set_gate g num base limit access gran = record g {
  entries = set g.entries num (make_entry base limit access gran);
}

pub write_tss : ℕ → ℕ → TssEntry
write_tss base limit = record {
  length = u16 limit;
  base_low = u16 base;
  base_mid = u8 (base / 2 ^ 16);
  flags1 = 0x89;
  flags2 = limit / 2 ^ 16 % 2 ^ 4;
  base_high = u8 (base / 2 ^ 24);
  base_upper32 = u32 (base / 2 ^ 32);
  reserved = 0;
}

-- `gdt_init` with the addresses of the table and of the task state.
unfoldable pub init : Gdt → ℕ → ℕ → Gdt
unfolding set_gate write_tss
init g gdt_addr tss_addr =
    let g0 = record g { pointer_limit = u16 (table_size - 1); pointer_base = u64 gdt_addr } in
    let g1 = set_gate g0 0 0 0 0 0 in
    let g2 = set_gate g1 1 0 0xffff_ffff 0x9a 0x20 in
    let g3 = set_gate g2 2 0 0xffff_ffff 0x92 0 in
    let g4 = set_gate g3 3 0 0xffff_ffff 0xfa 0x20 in
    let g5 = set_gate g4 4 0 0xffff_ffff 0xf2 0 in
    record g5 { iomap_base = tss_size; tss = write_tss tss_addr (tss_size - 1) }
