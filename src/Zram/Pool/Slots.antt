-- ===== src/Zram/Pool/Slots.antt =====
-- The invariant of the pool, and what a slot holds.
use aura_os.Base.{
  ℕ, zero, suc, ◌+◌, ◌*◌, ◌≤◌, ◌<◌, ◌≡◌, ◌≢◌, refl, true, false, Option, some, List, [], ◌∷◌, arith,
  length, get_or, set, inl, inr, Bool-cases, replicate, if◌then◌else◌,
}
use aura_os.Allocator.{Allocator, Apart}
use aura_os.Zram.Pool.{Slot, no_slot, Pool, max_pages, find_slot, read_bytes, slot_at}

pub find_slot-some :
    (slots : List Slot) (i k : ℕ)
    → find_slot slots i ≡ some k
    → (j : ℕ) × (k ≡ i + j) × (j < length slots) × ((get_or slots j no_slot).used ≡ false)
unfolding find_slot
find_slot-some [] i k e = cc
find_slot-some (s ∷ slots) i k e = elim (Bool-cases s.used) [
  | inl u ↦
      let (j, p, h, f) = find_slot-some slots (i + 1) k (rw u at e) in
      (suc j, omega arith, omega arith, f)
  | inr u ↦
      let same : ◌≡◌ {A = Option ℕ} (some i) (some k) = rw u at e in
      let eq : i ≡ k = cc in (0, omega arith, omega arith, u)
]

-- Sums over the slots.
pub total : (Slot → ℕ) → List Slot → ℕ
total f [] = 0
total f (s ∷ slots) = f s + total f slots

pub total-set :
    (f : Slot → ℕ) (slots : List Slot) (i : ℕ) (v : Slot)
    → i < length slots
    → total f (set slots i v) + f (get_or slots i no_slot) ≡ total f slots + f v
unfolding total
total-set f [] i v h = absurd (omega arith)
total-set f (s ∷ slots) zero v h = omega arith
total-set f (s ∷ slots) (suc i) v h = omega (arith, total-set f slots i v (omega arith))

pub total_le :
    (f : Slot → ℕ) (slots : List Slot)
    → ((i : ℕ) → f (get_or slots i no_slot) ≤ 4096)
    → total f slots ≤ 4096 * length slots
unfolding total
total_le f [] h = omega arith
total_le f (s ∷ slots) h = omega (arith, h 0, total_le f slots (λ i. h (suc i)))

pub total-replicate : (f : Slot → ℕ) (n : ℕ) → f no_slot ≡ 0 → total f (replicate n no_slot) ≡ 0
unfolding total
total-replicate f zero h = refl
total-replicate f (suc n) h = omega (arith, h, total-replicate f n h)

abbrev pub pages : Slot → ℕ
pages s = if s.used then 1 else 0

abbrev pub bytes : Slot → ℕ
bytes s = if s.used then s.compressed_len else 0

total-pages-le : (slots : List Slot) → total pages slots ≤ length slots
unfolding total
total-pages-le [] = omega arith
total-pages-le (s ∷ slots) = ground (arith, total-pages-le slots)

module _ (h : Allocator) where
  -- Used slots hold live buffers of the heap, apart from one another; the statistics count them.
  pub record IsValid (z : Pool h.State) : Type 0 where
    pub heap_valid : h.IsValid z.heap
    pub size : length z.slots ≡ max_pages
    pub live :
        (i : ℕ)
        → (slot_at h z i).used ≡ true
        → h.Live z.heap (slot_at h z i).data_at (slot_at h z i).compressed_len
    pub filled : (i : ℕ) → (slot_at h z i).used ≡ true → 0 < (slot_at h z i).compressed_len
    pub fits : (i : ℕ) → (slot_at h z i).compressed_len ≤ 4096
    pub apart :
        (i j : ℕ)
        → (slot_at h z i).used ≡ true
        → (slot_at h z j).used ≡ true
        → i ≢ j
        → Apart
            (slot_at h z i).data_at
            (slot_at h z i).compressed_len
            (slot_at h z j).data_at
            (slot_at h z j).compressed_len
    pub pages_counted : z.stats.pages_stored ≡ total pages z.slots
    pub original_counted : z.stats.original_bytes ≡ total pages z.slots * 4096
    pub bytes_counted : z.stats.compressed_bytes ≡ total bytes z.slots

  -- Slot `i` holds the compressed bytes `bs`.
  pub record Holds (z : Pool h.State) (i : ℕ) (bs : List ℕ) : Type 0 where
    pub used : (slot_at h z i).used ≡ true
    pub len : (slot_at h z i).compressed_len ≡ length bs
    pub contents : read_bytes z.memory (slot_at h z i).data_at (length bs) ≡ bs

  pub IsValid-total :
      (z : Pool h.State)
      → IsValid z
      → (total pages z.slots ≤ 1024) × (total bytes z.slots ≤ 4096 * 1024)
  IsValid-total z v = (
    omega (arith, total-pages-le z.slots, v.size),
    omega (arith, total_le bytes z.slots (λ i. ground (arith, v.fits i)), v.size),
  )
