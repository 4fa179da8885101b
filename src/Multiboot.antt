-- ===== src/Multiboot.antt =====
-- The boot information, kernel/core/multiboot2.c: the tags that the boot loader leaves in memory, and what
-- `multiboot2_parse` gathers from them. Memory is a function from addresses to bytes.
pub mod Tags
pub mod Parse
mod Examples
use Prim.Native.Nat.{bit_and}
use aura_os.Base.{
  ℕ, zero, suc, ◌+◌, ◌-◌, ◌*◌, ◌/◌, ◌^◌, Bool, true, false, Option, none, some, ◌==◌, if◌then◌else◌,
  u32, u64,
}

-- MULTIBOOT2_BOOTLOADER_MAGIC
abbrev pub magic_number : ℕ
magic_number = 0x36d76289

abbrev pub Memory : Type 0
Memory = ℕ → ℕ

-- Little-endian reads.
abbrev pub read32 : Memory → ℕ → ℕ
read32 m p = m p + m (u64 (p + 1)) * 2 ^ 8 + m (u64 (p + 2)) * 2 ^ 16 + m (u64 (p + 3)) * 2 ^ 24

abbrev pub read64 : Memory → ℕ → ℕ
read64 m p = read32 m p + read32 m (u64 (p + 4)) * 2 ^ 32

pub record BootInfo : Type 0 where
  pub total_memory_bytes : ℕ
  pub available_memory_bytes : ℕ
  pub fb_addr : ℕ
  pub fb_width : ℕ
  pub fb_height : ℕ
  pub fb_pitch : ℕ
  pub fb_bpp : ℕ
  pub has_framebuffer : Bool

abbrev pub no_info : BootInfo
no_info = record {
  total_memory_bytes = 0;
  available_memory_bytes = 0;
  fb_addr = 0;
  fb_width = 0;
  fb_height = 0;
  fb_pitch = 0;
  fb_bpp = 0;
  has_framebuffer = false;
}

-- `left` entries of the memory map from number `i` on.
unfoldable pub entries_loop : ℕ → ℕ → Memory → ℕ → ℕ → ℕ → ℕ
entries_loop zero i m entry_ptr entry_size available = available
entries_loop (suc left) i m entry_ptr entry_size available =
    let entry = u64 (entry_ptr + u32 (i * entry_size)) in
    entries_loop left (i + 1) m entry_ptr entry_size (
      if read32 m (u64 (entry + 16)) == 1
      then u64 (available + read64 m (u64 (entry + 8)))
      else available)

-- A tag's part in the information. The division by an entry size of 0 traps in the source; here its result is 0.
unfoldable pub tag_info : Memory → ℕ → BootInfo → BootInfo
unfolding entries_loop
tag_info m tag info =
    let type = read32 m tag in
    if type == 4
    then record info { total_memory_bytes = u64 (u32 (read32 m (u64 (tag + 12)) + 1024) * 1024) }
    else if type == 6
    then (let entry_size = read32 m (u64 (tag + 8)) in
        let entries = u32 (u64 (read32 m (u64 (tag + 4)) + 2 ^ 64 - 16) / entry_size) in
        record info {
          available_memory_bytes =
              entries_loop entries 0 m (u64 (tag + 16)) entry_size info.available_memory_bytes;
        })
    else if type == 8
    then record info {
      fb_addr = read64 m (u64 (tag + 8));
      fb_pitch = read32 m (u64 (tag + 16));
      fb_width = read32 m (u64 (tag + 20));
      fb_height = read32 m (u64 (tag + 24));
      fb_bpp = m (u64 (tag + 28));
      has_framebuffer = true;
    }
    else info

-- The address of the tag behind one.
unfoldable pub next_tag : Memory → ℕ → ℕ
next_tag m tag = u64 (tag + bit_and (u32 (read32 m (u64 (tag + 4)) + 7)) (2 ^ 64 - 8))

-- The loop over the tags, in `fuel` rounds at most; `none` when they do not do.
unfoldable pub tags_loop : ℕ → Memory → ℕ → BootInfo → Option BootInfo
unfolding tag_info next_tag
tags_loop zero m tag info = none
tags_loop (suc fuel) m tag info = elim (read32 m tag == 0) [
  | true ↦ some info
  | false ↦ tags_loop fuel m (next_tag m tag) (tag_info m tag info)
]

-- What `multiboot2_parse` returns and leaves in `out_info`, which is not NULL.
pub data Result : Type 0 where
  parsed : BootInfo → Result
  refused : Result
  runs_on : Result

unfoldable pub parse : ℕ → Memory → ℕ → ℕ → Result
unfolding tags_loop
parse fuel m magic mbi_addr =
    if magic == magic_number
    then (elim (tags_loop fuel m (u64 (mbi_addr + 8)) no_info) [
      | none ↦ runs_on
      | some info ↦ parsed info
    ])
    else refused
