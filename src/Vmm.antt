-- ===== src/Vmm.antt =====
-- The page tables, kernel/arch/x86_64/vmm.c: the walk through four levels of tables of 512 words. The
-- memory is a function from the address of an aligned 64-bit word to the word, read and written at the
-- physical address, as the kernel does; tables are frames of the physical memory manager. The
-- instructions that load the root register and flush the translation cache are left out.
pub mod Tables
pub mod Descend
pub mod Translate
mod Examples
use aura_os.Base.{ℕ, ◌+◌, ◌-◌, ◌*◌, ◌/◌, ◌%◌, ◌^◌, Bool, ◌&&◌, ◌==◌, leb, ltb, if◌then◌else◌, u64}
use aura_os.Pmm.{Pmm, alloc_frame}

pub record Vmm : Type 0 where
  pub memory : ℕ → ℕ
  pub pmm : Pmm

abbrev pub pml4_index : ℕ → ℕ
pml4_index virt = virt / 2 ^ 39 % 512

abbrev pub pdpt_index : ℕ → ℕ
pdpt_index virt = virt / 2 ^ 30 % 512

abbrev pub pd_index : ℕ → ℕ
pd_index virt = virt / 2 ^ 21 % 512

abbrev pub pt_index : ℕ → ℕ
pt_index virt = virt / 2 ^ 12 % 512

-- `word & PTE_PRESENT` and `word & PTE_ADDR_MASK` (bits 12 to 51)
abbrev pub is_present : ℕ → Bool
is_present word = word % 2 == 1

abbrev pub address : ℕ → ℕ
address word = word / 2 ^ 12 % 2 ^ 40 * 2 ^ 12

-- `table[index]`
abbrev pub slot : ℕ → ℕ → ℕ
slot table index = table + 8 * index

pub write : (ℕ → ℕ) → ℕ → ℕ → ℕ → ℕ
write memory a word b = if a == b then word else memory b

-- The loop that clears the 512 words of a new table.
pub clear_table : (ℕ → ℕ) → ℕ → ℕ → ℕ
clear_table memory table b = if leb table b && ltb b (table + 4096) then 0 else memory b

-- One level of `vmm_map_page`: the table that the entry names, made first if there is none. The new
-- table is a whole frame, so `|` with the three flags is the sum.
pub descend : Vmm → ℕ → ℕ → Vmm × ℕ
unfolding write clear_table
descend s table index =
    if is_present (s.memory (slot table index))
    then (s, address (s.memory (slot table index)))
    else let (next, pmm) = alloc_frame s.pmm in
      (
        record {
          memory = write (clear_table s.memory next) (slot table index) (next + 7);
          pmm = pmm;
        },
        next,
      )

-- `(phys & PTE_ADDR_MASK) | (flags & ~PTE_ADDR_MASK) | PTE_PRESENT`: the fields do not overlap.
pub page_entry : ℕ → ℕ → ℕ
page_entry phys flags = address phys + (flags % 2 ^ 12 / 2 * 2 + 1) + flags / 2 ^ 52 * 2 ^ 52

unfoldable pub map_page : Vmm → ℕ → ℕ → ℕ → ℕ → Vmm
unfolding descend page_entry write
map_page s pml4 virt phys flags =
    let (s1, pdpt) = descend s pml4 (pml4_index virt) in
    let (s2, pd) = descend s1 pdpt (pdpt_index virt) in
    let (s3, pt) = descend s2 pd (pd_index virt) in
    record s3 { memory = write s3.memory (slot pt (pt_index virt)) (page_entry phys flags) }

unfoldable pub unmap_page : Vmm → ℕ → ℕ → Vmm
unfolding write
unmap_page s pml4 virt =
    let e4 = s.memory (slot pml4 (pml4_index virt)) in
    let e3 = s.memory (slot (address e4) (pdpt_index virt)) in
    let e2 = s.memory (slot (address e3) (pd_index virt)) in
    let e1 = slot (address e2) (pt_index virt) in
    if is_present e4
    then if is_present e3
      then if is_present e2
        then if is_present (s.memory e1) then record s { memory = write s.memory e1 0 } else s
        else s
      else s
    else s

-- The offset in the page and the address bits do not overlap.
unfoldable pub virt_to_phys : (ℕ → ℕ) → ℕ → ℕ → ℕ
virt_to_phys memory pml4 virt =
    let e4 = memory (slot pml4 (pml4_index virt)) in
    let e3 = memory (slot (address e4) (pdpt_index virt)) in
    let e2 = memory (slot (address e3) (pd_index virt)) in
    let e1 = memory (slot (address e2) (pt_index virt)) in
    if is_present e4
    then if is_present e3
      then if is_present e2 then if is_present e1 then address e1 + virt % 2 ^ 12 else 0 else 0
      else 0
    else 0
