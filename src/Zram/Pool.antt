-- ===== src/Zram/Pool.antt =====
-- The pool of compressed pages, kernel/core/zram.c above the codec: `zram_init`, `zram_store`,
-- `zram_load`, `zram_free` and `zram_get_stats`. The heap is an `Allocator`; the bytes that callers of
-- the heap write are a memory of their own, by address.
pub mod Bytes
pub mod Slots
pub mod Fill
pub mod Store
pub mod Free
pub mod Calls
pub mod OnHeap
mod Examples
use aura_os.Base.{
  ℕ, zero, suc, ◌+◌, ◌-◌, ◌*◌, ◌/◌, ◌^◌, Bool, true, false, not, ◌||◌, Option, none, some, List, [],
  ◌∷◌, ltb, leb, ◌==◌, if◌then◌else◌, u16, u32, set, get_or, length, replicate,
}
use aura_os.Allocator.{Allocator}
use aura_os.Zram.Codec.{
  page_size, Result, done, failed, out_of_fuel, compress_page, decompress_page,
}

-- ZRAM_MAX_PAGES
abbrev pub max_pages : ℕ
max_pages = 1024

-- `struct zram_slot`; a `data` of 0 is NULL.
pub record Slot : Type 0 where
  pub data_at : ℕ
  pub compressed_len : ℕ
  pub used : Bool

abbrev pub no_slot : Slot
no_slot = record { data_at = 0; compressed_len = 0; used = false }

-- `struct zram_stats`
pub record ZramStats : Type 0 where
  pub pages_stored : ℕ
  pub original_bytes : ℕ
  pub compressed_bytes : ℕ
  pub compression_ratio_x100 : ℕ
  pub total_compressions : ℕ
  pub total_decompressions : ℕ

-- The static variables of the module, with the memory and the heap that it uses.
pub record Pool (S : Type 0) : Type 0 where
  pub slots : List Slot
  pub stats : ZramStats
  pub memory : ℕ → ℕ
  pub heap : S

-- What `zram_store` returns: 0 with the handle, or -1, -2, -3, -4.
pub data StoreResult : Type 0 where
  stored : ℕ → StoreResult
  invalid : StoreResult
  pool_full : StoreResult
  incompressible : StoreResult
  no_memory : StoreResult

pub find_slot : List Slot → ℕ → Option ℕ
find_slot [] i = none
find_slot (s ∷ slots) i = elim s.used [ true ↦ find_slot slots (i + 1) | false ↦ some i ]

-- The loop that copies the compressed bytes to the heap buffer.
pub write_bytes : (ℕ → ℕ) → ℕ → List ℕ → ℕ → ℕ
write_bytes memory p [] = memory
write_bytes memory p (b ∷ bs) = write_bytes (λ a. if a == p then b else memory a) (p + 1) bs

-- The `n` bytes from `p` on.
pub read_bytes : (ℕ → ℕ) → ℕ → ℕ → List ℕ
read_bytes memory p zero = []
read_bytes memory p (suc n) = memory p ∷ read_bytes memory (p + 1) n

abbrev pub ratio : ℕ → ℕ → ℕ
ratio original compressed = u32 (original * 100 / compressed)

pub count_store : ZramStats → ℕ → ZramStats
count_store st len =
    let original = u32 (st.original_bytes + page_size) in
    let compressed = u32 (st.compressed_bytes + len) in
    record st {
      pages_stored = u32 (st.pages_stored + 1);
      original_bytes = original;
      compressed_bytes = compressed;
      total_compressions = u32 (st.total_compressions + 1);
      compression_ratio_x100 =
          if ltb 0 compressed then ratio original compressed else st.compression_ratio_x100;
    }

pub count_free : ZramStats → ℕ → ZramStats
count_free st len =
    let original = u32 (st.original_bytes + 2 ^ 32 - page_size) in
    let compressed = u32 (st.compressed_bytes + 2 ^ 32 - len) in
    record st {
      pages_stored = u32 (st.pages_stored + 2 ^ 32 - 1);
      original_bytes = original;
      compressed_bytes = compressed;
      compression_ratio_x100 = if ltb 0 compressed then ratio original compressed else 100;
    }

module _ (h : Allocator) where
  open h use {State, kmalloc, kfree}

  unfoldable pub init : Pool State → Pool State
  init z = record z {
    slots = replicate max_pages no_slot;
    stats = record {
      pages_stored = 0;
      original_bytes = 0;
      compressed_bytes = 0;
      compression_ratio_x100 = 100;
      total_compressions = 0;
      total_decompressions = 0;
    };
  }

  -- The end of `zram_store`, with a slot, the compressed bytes and what `kmalloc` returned.
  pub fill_slot : Pool State → ℕ → List ℕ → ℕ → State → Pool State
  unfolding write_bytes count_store
  fill_slot z slot out p heap = record {
    slots =
        set z.slots slot (record { data_at = p; compressed_len = u16 (length out); used = true });
    stats = count_store z.stats (length out);
    memory = write_bytes z.memory p out;
    heap = heap;
  }

  pub store_in : Pool State → ℕ → List ℕ → StoreResult × Pool State
  unfolding fill_slot
  store_in z slot out =
      if (length out == 0) || leb (page_size - 64) (length out)
      then (incompressible, z)
      else let (p, heap) = kmalloc z.heap (length out) in
        (if p == 0
          then (no_memory, record z { heap = heap })
          else (stored slot, fill_slot z slot out p heap))

  -- The page is an option, and a test stands for `out_handle`, which may be NULL too.
  unfoldable pub store : Pool State → Option (List ℕ) → Bool → StoreResult × Pool State
  unfolding store_in find_slot
  store z none handle_given = (invalid, z)
  store z (some page) false = (invalid, z)
  store z (some page) true = elim (find_slot z.slots 0) [
    | none ↦ (pool_full, z)
    | some slot ↦ elim (compress_page page page_size) [
      | done out ↦ store_in z slot out
      | _ ↦ (incompressible, z)
    ]
  ]

  abbrev pub slot_at : Pool State → ℕ → Slot
  slot_at z handle = get_or z.slots handle no_slot

  -- What `zram_load` returns of the decompression: the page, or `none` for a negative result.
  abbrev pub loaded : Pool State → Result → Option (List ℕ) × Pool State
  loaded z (done page) = (
    some page,
    record z {
      stats = record z.stats { total_decompressions = u32 (z.stats.total_decompressions + 1) };
    },
  )
  loaded z failed = (none, z)
  loaded z out_of_fuel = (none, z)

  pub load : Pool State → ℕ → Bool → Option (List ℕ) × Pool State
  unfolding read_bytes
  load z handle dst_given =
      if leb max_pages handle || (not (slot_at z handle).used || not dst_given)
      then (none, z)
      else loaded z (
          decompress_page
            (read_bytes z.memory (slot_at z handle).data_at (slot_at z handle).compressed_len))

  -- True for the result 0.
  pub free : Pool State → ℕ → Bool × Pool State
  unfolding count_free
  free z handle = if leb max_pages handle || not (slot_at z handle).used then (false, z) else (
    true,
    record z {
      slots = set z.slots handle no_slot;
      stats = count_free z.stats (slot_at z handle).compressed_len;
      heap = kfree z.heap (slot_at z handle).data_at;
    },
  )

  unfoldable pub get_stats : Pool State → ZramStats
  get_stats z = z.stats
