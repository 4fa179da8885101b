-- ===== src/Slab.antt =====
-- The slab zones, kernel/core/slab.c: chunks of eight sizes, carved from frames and linked by their
-- first words into a free list for each zone. NULL is 0, and so is the address that no frame has.
pub mod Place
pub mod Chain
pub mod Refill
pub mod Invariant
pub mod Steps
pub mod Calls
pub mod Runs
pub mod Separate
mod Examples
use aura_os.Base.{
  ℕ, zero, suc, ◌+◌, ◌*◌, ◌/◌, Option, none, some, List, [], ◌∷◌, ◌==◌, leb, if◌then◌else◌, get_or,
  u64,
}
use aura_os.Pmm.{Pmm, alloc_frame}

-- SLAB_NUM_ZONES
abbrev pub num_zones : ℕ
num_zones = 8

-- SLAB_PAGE_SIZE
abbrev pub slab_page_size : ℕ
slab_page_size = 4096

abbrev pub zone_chunk_size : ℕ → ℕ
zone_chunk_size i = get_or (16 ∷ 32 ∷ 64 ∷ 128 ∷ 256 ∷ 512 ∷ 1024 ∷ 2048 ∷ []) i 0

pub record Zone : Type 0 where
  pub free_list : ℕ
  pub chunk_size : ℕ
  pub alloc_count : ℕ

-- The static variables: the table of zones by index, and `slab_phys_offset`; with the words at the
-- chunks' addresses, and the frame allocator.
pub record Slab : Type 0 where
  pub zones : ℕ → Zone
  pub phys_offset : ℕ
  pub next : ℕ → ℕ
  pub frames : Pmm

-- A write at an index or an address.
abbrev pub put {ℓ} : {A : Type ℓ} → (ℕ → A) → ℕ → A → ℕ → A
put f a v p = if p == a then v else f p

-- The loop of `zone_refill`: `left` chunks from number `i` on, onto the list at `head`.
pub carve : ℕ → ℕ → ℕ → ℕ → (ℕ → ℕ) → ℕ → (ℕ → ℕ) × ℕ
carve zero i base size next head = (next, head)
carve (suc left) i base size next head =
    let c = u64 (base + i * size) in carve left (i + 1) base size (put next c head) c

pub zone_refill : Slab → ℕ → Slab
unfolding carve
zone_refill s i =
    let z = s.zones i in
    let (pa, frames) = alloc_frame s.frames in
    if pa == 0
    then record s { frames = frames }
    else (let base = u64 (pa + s.phys_offset) in
        let (next, head) =
          carve (slab_page_size / z.chunk_size) 0 base z.chunk_size s.next z.free_list in
        record s {
          zones =
              put s.zones i (record z { free_list = head; alloc_count = u64 (z.alloc_count + 1) });
          next = next;
          frames = frames;
        })

pub init_zones : ℕ → ℕ → (ℕ → Zone) → ℕ → Zone
init_zones zero i zones = zones
init_zones (suc left) i zones =
    init_zones left (i + 1)
      (put zones i (record { free_list = 0; chunk_size = zone_chunk_size i; alloc_count = 0 }))

pub init : Slab → Slab
unfolding init_zones
init s = record s { zones = init_zones num_zones 0 s.zones }

pub set_phys_offset : Slab → ℕ → Slab
set_phys_offset s offset = record s { phys_offset = offset }

-- `none` stands for -1.
pub zone_from : ℕ → ℕ → ℕ → Option ℕ
zone_from zero i size = none
zone_from (suc left) i size =
    let rest = zone_from left (i + 1) size in if leb size (zone_chunk_size i) then some i else rest

pub size_to_zone_index : ℕ → Option ℕ
unfolding zone_from
size_to_zone_index size = zone_from num_zones 0 size

pub pop : Slab → ℕ → ℕ × Slab
pop s i =
    let z = s.zones i in
    if z.free_list == 0 then (0, s) else (
      z.free_list,
      record s { zones = put s.zones i (record z { free_list = s.next z.free_list }) },
    )

-- `zalloc` for a zone.
pub alloc_from : Slab → ℕ → ℕ × Slab
unfolding zone_refill pop
alloc_from s i = pop (if (s.zones i).free_list == 0 then zone_refill s i else s) i

pub zalloc : Slab → ℕ → ℕ × Slab
unfolding size_to_zone_index alloc_from
zalloc s size =
    if size == 0
    then (0, s)
    else elim (size_to_zone_index size) [ none ↦ (0, s) | some i ↦ alloc_from s i ]

pub push : Slab → ℕ → ℕ → Slab
push s i ptr =
    let z = s.zones i in
    record s {
      zones = put s.zones i (record z { free_list = ptr });
      next = put s.next ptr z.free_list;
    }

pub zfree : Slab → ℕ → ℕ → Slab
unfolding size_to_zone_index push
zfree s ptr size =
    if ptr == 0
    then s
    else if size == 0
    then s
    else elim (size_to_zone_index size) [ none ↦ s | some i ↦ push s i ptr ]
