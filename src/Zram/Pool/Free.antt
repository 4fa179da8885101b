-- ===== src/Zram/Pool/Free.antt =====
-- `zram_free`: the slot is given back, and the other pages stay.
use aura_os.Base.{
  ℕ, ◌+◌, ◌≤◌, ◌<◌, ◌≡◌, ◌≢◌, inl, inr, refl, ap, ◌∙◌, Bool, true, false, not, ◌||◌, List, arith,
  length, set, get_or-set_ne, length-set, leb, if_elim,
}
use aura_os.Allocator.{Allocator, Apart}
use aura_os.Zram.Pool.{no_slot, Pool, max_pages, read_bytes, count_free, slot_at, free}
use aura_os.Zram.Pool.Slots.{total, total-set, pages, bytes, IsValid, Holds, IsValid-total}
use aura_os.Zram.Pool.Fill.{slot_cases}

Apart-ne : (p n q m : ℕ) → Apart p n q m → 0 < n → 0 < m → p ≢ q
Apart-ne p n q m (inl d) hn hm e = omega arith
Apart-ne p n q m (inr d) hn hm e = omega arith

module _ (h : Allocator) (z : Pool h.State) (k : ℕ) where
  abbrev freed : Pool h.State
  freed = record z {
    slots = set z.slots k no_slot;
    stats = count_free z.stats (slot_at h z k).compressed_len;
    heap = h.kfree z.heap (slot_at h z k).data_at;
  }

  module _ (v : IsValid h z) (inside : k < length z.slots)
      (used : (slot_at h z k).used ≡ true) where
    pages-set : total pages (set z.slots k no_slot) + 1 ≡ total pages z.slots
    pages-set =
        let one_here : pages (slot_at h z k) ≡ 1 = rw used refl in
        omega (arith, total-set pages z.slots k no_slot inside, one_here)

    bytes-set :
        total bytes (set z.slots k no_slot) + (slot_at h z k).compressed_len ≡ total bytes z.slots
    bytes-set =
        let all_here : bytes (slot_at h z k) ≡ (slot_at h z k).compressed_len = rw used refl in
        omega (arith, total-set bytes z.slots k no_slot inside, all_here)

    still_live :
        (i : ℕ)
        → k ≢ i
        → (slot_at h z i).used ≡ true
        → h.Live
            (h.kfree z.heap (slot_at h z k).data_at)
            (slot_at h z i).data_at
            (slot_at h z i).compressed_len
    still_live i ne u =
        h.kfree_other z.heap (slot_at h z k).data_at (slot_at h z k).compressed_len
          (slot_at h z i).data_at (slot_at h z i).compressed_len v.heap_valid (v.live k used)
          (v.live i u)
          (λ e.
            Apart-ne (slot_at h z k).data_at (slot_at h z k).compressed_len (slot_at h z i).data_at
              (slot_at h z i).compressed_len (v.apart k i used u ne) (v.filled k used)
              (v.filled i u) e)

    freed-IsValid : IsValid h freed
    unfolding count_free
    freed-IsValid = record {
      heap_valid =
          h.kfree-IsValid z.heap (slot_at h z k).data_at (slot_at h z k).compressed_len v.heap_valid
            (v.live k used);
      size = length-set z.slots k no_slot ∙ v.size;
      live =
          slot_cases z.slots k no_slot
            (λ i s.
              s.used ≡ true
              → h.Live (h.kfree z.heap (slot_at h z k).data_at) s.data_at s.compressed_len)
            inside (λ u. absurd (cc)) still_live;
      filled =
          slot_cases z.slots k no_slot (λ i s. s.used ≡ true → 0 < s.compressed_len) inside
            (λ u. absurd (cc)) (λ i _ u. v.filled i u);
      fits =
          slot_cases z.slots k no_slot (λ i s. s.compressed_len ≤ 4096) inside (omega arith)
            (λ i _. v.fits i);
      apart =
          slot_cases z.slots k no_slot
            (λ i s.
              (j : ℕ)
              → s.used ≡ true
              → (slot_at h freed j).used ≡ true
              → i ≢ j
              → Apart s.data_at s.compressed_len (slot_at h freed j).data_at
                  (slot_at h freed j).compressed_len)
            inside (λ j u. absurd (cc))
            (λ i _ j u.
              slot_cases z.slots k no_slot
                (λ j s.
                  s.used ≡ true
                  → i ≢ j
                  → Apart (slot_at h z i).data_at (slot_at h z i).compressed_len s.data_at
                      s.compressed_len)
                inside (λ w. absurd (cc)) (λ j _ w ne. v.apart i j u w ne) j);
      pages_counted = omega (arith, pages-set, v.pages_counted, IsValid-total h z v);
      original_counted = omega (arith, pages-set, v.original_counted, IsValid-total h z v);
      bytes_counted = omega (arith, bytes-set, v.bytes_counted, IsValid-total h z v, v.fits k);
    }

  freed_other : (i : ℕ) (bs : List ℕ) → k ≢ i → Holds h z i bs → Holds h freed i bs
  freed_other i bs ne held =
      let here = get_or-set_ne z.slots k i no_slot no_slot ne in
      record {
        used = ap (λ s. s.used) here ∙ held.used;
        len = ap (λ s. s.compressed_len) here ∙ held.len;
        contents = ap (λ s. read_bytes z.memory s.data_at (length bs)) here ∙ held.contents;
      }

in_use :
    (k : ℕ) (used : Bool) → (leb max_pages k || not used) ≡ false → (k < max_pages) × (used ≡ true)
in_use k used e = ground arith

module _ (h : Allocator) (z : Pool h.State) (k : ℕ) where
  pub free-IsValid : IsValid h z → IsValid h (free h z k).1
  unfolding free
  free-IsValid v =
      if_elim (λ (r : Bool × Pool h.State). IsValid h r.1)
        (leb max_pages k || not (slot_at h z k).used) (λ _. v)
        λ e.
          let (below, used) = in_use k (slot_at h z k).used e in
          freed-IsValid h z k v (omega (arith, v.size)) used

  pub free_other : (i : ℕ) (bs : List ℕ) → k ≢ i → Holds h z i bs → Holds h (free h z k).1 i bs
  unfolding free
  free_other i bs ne held =
      if_elim (λ (r : Bool × Pool h.State). Holds h r.1 i bs)
        (leb max_pages k || not (slot_at h z k).used) (λ _. held)
        (λ _. freed_other h z k i bs ne held)
