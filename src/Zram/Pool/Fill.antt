-- ===== src/Zram/Pool/Fill.antt =====
-- A slot that `zram_store` fills: it holds the bytes, and the others hold what they held.
use native.Mathlib.Decide.{ℕ_discrete}
use aura_os.Base.{
  ℕ, ◌+◌, ◌≤◌, ◌<◌, ◌≡◌, ◌≢◌, inl, inr, refl, sym, ap, subst, ◌∙◌, true, false, List, arith, u16,
  length, get_or, set, get_or-set_self, get_or-set_ne, length-set,
}
use aura_os.Allocator.{Allocator, Apart}
use aura_os.Zram.Pool.{
  Slot, no_slot, Pool, read_bytes, write_bytes, count_store, slot_at, fill_slot,
}
use aura_os.Zram.Pool.Bytes.{read_bytes-write_bytes, read_bytes-write_bytes_outside}
use aura_os.Zram.Pool.Slots.{total, total-set, pages, bytes, IsValid, Holds, IsValid-total}

Apart-sym : (p n q m : ℕ) → Apart p n q m → Apart q m p n
Apart-sym p n q m (inl d) = inr d
Apart-sym p n q m (inr d) = inl d

-- What holds of the slot written and of the others holds of all.
pub slot_cases :
    (slots : List Slot) (k : ℕ) (s : Slot) (P : ℕ → Slot → Type 0)
    → k < length slots
    → P k s
    → ((i : ℕ) → k ≢ i → P i (get_or slots i no_slot))
    → (i : ℕ) → P i (get_or (set slots k s) i no_slot)
slot_cases slots k s P h new old i = elim (ℕ_discrete k i) [
  | yes e ↦
      subst (λ j. P j (get_or (set slots k s) j no_slot)) e
        (subst (P k) (sym (get_or-set_self slots k s no_slot h)) new)
  | no ne ↦ subst (P i) (sym (get_or-set_ne slots k i s no_slot ne)) (old i ne)
]

module _ (h : Allocator) (z : Pool h.State) (k : ℕ) (out : List ℕ) (p : ℕ) (heap : h.State) where
  abbrev new_slot : Slot
  new_slot = record { data_at = p; compressed_len = u16 (length out); used = true }

  module _ (v : IsValid h z) (inside : k < length z.slots) (unused : (slot_at h z k).used ≡ false)
      (some_bytes : 0 < length out) (few_bytes : length out < 4032) (heap_valid : h.IsValid heap)
      (live : h.Live heap p (length out)) (older : (q m : ℕ) → h.Live z.heap q m → h.Live heap q m)
      (apart : (q m : ℕ) → h.Live z.heap q m → Apart p (length out) q m) where
    whole : u16 (length out) ≡ length out
    whole = omega arith

    new-Apart :
        (j : ℕ)
        → (slot_at h z j).used ≡ true
        → Apart p (u16 (length out)) (slot_at h z j).data_at (slot_at h z j).compressed_len
    new-Apart j u =
        subst (λ n. Apart p n (slot_at h z j).data_at (slot_at h z j).compressed_len) (sym whole)
          (apart (slot_at h z j).data_at (slot_at h z j).compressed_len (v.live j u))

    pages-set : total pages (set z.slots k new_slot) ≡ total pages z.slots + 1
    pages-set =
        let none_here : pages (slot_at h z k) ≡ 0 = rw unused refl in
        omega (arith, total-set pages z.slots k new_slot inside, none_here)

    bytes-set : total bytes (set z.slots k new_slot) ≡ total bytes z.slots + length out
    bytes-set =
        let none_here : bytes (slot_at h z k) ≡ 0 = rw unused refl in
        omega (arith, total-set bytes z.slots k new_slot inside, none_here, whole)

    pub fill_slot-IsValid : IsValid h (fill_slot h z k out p heap)
    unfolding fill_slot count_store
    fill_slot-IsValid = record {
      heap_valid = heap_valid;
      size = length-set z.slots k new_slot ∙ v.size;
      live =
          slot_cases z.slots k new_slot
            (λ i s. s.used ≡ true → h.Live heap s.data_at s.compressed_len) inside
            (λ _. subst (h.Live heap p) (sym whole) live)
            (λ i _ u. older (slot_at h z i).data_at (slot_at h z i).compressed_len (v.live i u));
      filled =
          slot_cases z.slots k new_slot (λ i s. s.used ≡ true → 0 < s.compressed_len) inside
            (λ _. omega (arith, whole)) (λ i _ u. v.filled i u);
      fits =
          slot_cases z.slots k new_slot (λ i s. s.compressed_len ≤ 4096) inside (omega arith)
            (λ i _. v.fits i);
      apart =
          slot_cases z.slots k new_slot
            (λ i s.
              (j : ℕ)
              → s.used ≡ true
              → (slot_at h (fill_slot h z k out p heap) j).used ≡ true
              → i ≢ j
              → Apart s.data_at s.compressed_len (slot_at h (fill_slot h z k out p heap) j).data_at
                  (slot_at h (fill_slot h z k out p heap) j).compressed_len)
            inside
            (λ j _.
              slot_cases z.slots k new_slot
                (λ j s.
                  s.used ≡ true → k ≢ j → Apart p (u16 (length out)) s.data_at s.compressed_len)
                inside (λ _ ne. absurd (ne refl)) (λ j _ u _. new-Apart j u) j)
            (λ i _ j u.
              slot_cases z.slots k new_slot
                (λ j s.
                  s.used ≡ true
                  → i ≢ j
                  → Apart (slot_at h z i).data_at (slot_at h z i).compressed_len s.data_at
                      s.compressed_len)
                inside
                (λ _ _.
                  Apart-sym p (u16 (length out)) (slot_at h z i).data_at
                    (slot_at h z i).compressed_len (new-Apart i u))
                (λ j _ w ne. v.apart i j u w ne) j);
      pages_counted = omega (arith, pages-set, v.pages_counted, IsValid-total h z v);
      original_counted = omega (arith, pages-set, v.original_counted, IsValid-total h z v);
      bytes_counted = omega (arith, bytes-set, v.bytes_counted, IsValid-total h z v);
    }

    pub fill_slot-Holds : Holds h (fill_slot h z k out p heap) k out
    unfolding fill_slot
    fill_slot-Holds =
        let here = get_or-set_self z.slots k new_slot no_slot inside in
        record {
          used = ap (λ s. s.used) here;
          len = ap (λ s. s.compressed_len) here ∙ whole;
          contents =
              ap (λ s. read_bytes (write_bytes z.memory p out) s.data_at (length out)) here
              ∙ read_bytes-write_bytes z.memory p out;
        }

    pub fill_slot_other :
        (i : ℕ) (bs : List ℕ) → Holds h z i bs → Holds h (fill_slot h z k out p heap) i bs
    unfolding fill_slot
    fill_slot_other i bs holds =
        let ne : k ≢ i = λ e. cc (ap (λ n. (slot_at h z n).used) e, holds.used, unused) in
        let here = get_or-set_ne z.slots k i new_slot no_slot ne in
        record {
          used = ap (λ s. s.used) here ∙ holds.used;
          len = ap (λ s. s.compressed_len) here ∙ holds.len;
          contents =
              ap (λ s. read_bytes (write_bytes z.memory p out) s.data_at (length bs)) here
              ∙ read_bytes-write_bytes_outside z.memory p out (slot_at h z i).data_at (length bs) (
                  subst (Apart p (length out) (slot_at h z i).data_at) holds.len (
                    apart (slot_at h z i).data_at (slot_at h z i).compressed_len
                      (v.live i holds.used)))
              ∙ holds.contents;
        }
