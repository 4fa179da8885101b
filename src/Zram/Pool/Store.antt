-- ===== src/Zram/Pool/Store.antt =====
-- `zram_store` on all its branches.
use aura_os.Base.{
  ℕ, ◌-◌, ◌<◌, ◌≡◌, ◌≢◌, inl, inr, refl, subst, true, false, ◌||◌, some, List, arith, length, leb,
  ◌==◌, Option-cases, if_elim,
}
use aura_os.Allocator.{Allocator}
use aura_os.Zram.Codec.{page_size, Result, done, failed, out_of_fuel, compress_page}
use aura_os.Zram.Pool.{
  Pool, StoreResult, stored, pool_full, incompressible, no_memory, find_slot, slot_at, fill_slot,
  store_in, store,
}
use aura_os.Zram.Pool.Slots.{find_slot-some, IsValid, Holds}
use aura_os.Zram.Pool.Fill.{fill_slot-IsValid, fill_slot-Holds, fill_slot_other}

module _ (h : Allocator) where
  -- What a call of `zram_store` leaves, for any result.
  pub record Stores (z : Pool h.State) (page : List ℕ) (r : StoreResult) (z' : Pool h.State)
      : Type 0 where
    pub valid : IsValid h z'
    pub others : (i : ℕ) (bs : List ℕ) → Holds h z i bs → Holds h z' i bs
    pub holds :
        (i : ℕ)
        → r ≡ stored i
        → ((slot_at h z i).used ≡ false)
          × ((out : List ℕ) × (compress_page page page_size ≡ done out) × Holds h z' i out)

  abbrev StoresPair : Pool h.State → List ℕ → StoreResult × Pool h.State → Type 0
  StoresPair z page r = Stores z page r.0 r.1

  unchanged :
      (z : Pool h.State) (page : List ℕ) (r : StoreResult)
      → IsValid h z
      → ((i : ℕ) → r ≢ stored i)
      → Stores z page r z
  unchanged z page r v error = record {
    valid = v;
    others = λ i bs holds. holds;
    holds = λ i e. absurd (error i e);
  }

  -- The heap may have grown before `kmalloc` fails.
  out_of_memory :
      (z : Pool h.State) (page out : List ℕ)
      → IsValid h z
      → length out < 4032
      → Stores z page no_memory (record z { heap = (h.kmalloc z.heap (length out)).1 })
  out_of_memory z page out v small = record {
    valid = record {
      heap_valid = h.kmalloc-IsValid z.heap (length out) v.heap_valid (omega arith);
      size = v.size;
      live = λ i u.
          h.kmalloc_other z.heap (length out) (slot_at h z i).data_at (slot_at h z i).compressed_len
            v.heap_valid (omega arith) (v.live i u);
      filled = v.filled;
      fits = v.fits;
      apart = v.apart;
      pages_counted = v.pages_counted;
      original_counted = v.original_counted;
      bytes_counted = v.bytes_counted;
    };
    others = λ i bs held. record { used = held.used; len = held.len; contents = held.contents };
    holds = λ i e. absurd (cc);
  }

  -- The bounds that `zram_store` tests.
  right_size :
      (out : List ℕ)
      → ((length out == 0) || leb (page_size - 64) (length out)) ≡ false
      → (0 < length out) × (length out < 4032)
  right_size out e = ground arith

  non_null : (p : ℕ) → (p == 0) ≡ false → p ≢ 0
  non_null p e = ground arith

  filled_slot :
      (z : Pool h.State) (page : List ℕ) (k : ℕ) (out : List ℕ)
      → IsValid h z
      → k < length z.slots
      → (slot_at h z k).used ≡ false
      → compress_page page page_size ≡ done out
      → 0 < length out
      → length out < 4032
      → (h.kmalloc z.heap (length out)).0 ≢ 0
      → Stores z page
          (stored k)
          (fill_slot h z k out (h.kmalloc z.heap (length out)).0 (h.kmalloc z.heap (length out)).1)
  filled_slot z page k out v inside unused e pos small nn =
      let (p, heap) = h.kmalloc z.heap (length out) in
      let n = length out in
      let hv = h.kmalloc-IsValid z.heap n v.heap_valid (omega arith) in
      let lv = h.kmalloc-Live z.heap n v.heap_valid pos (omega arith) nn in
      let old = λ (q m : ℕ) (l : h.Live z.heap q m).
        h.kmalloc_other z.heap n q m v.heap_valid (omega arith) l in
      let ap' = λ (q m : ℕ) (l : h.Live z.heap q m).
        h.kmalloc-Apart z.heap n q m v.heap_valid pos (omega arith) nn l in
      record {
        valid = fill_slot-IsValid h z k out p heap v inside unused pos small hv lv old ap';
        others = fill_slot_other h z k out p heap v inside unused pos small hv lv old ap';
        holds = λ i same.
            let bytes_in = out in
            let eq : k ≡ i = cc in
            subst
              (λ j.
                ((slot_at h z j).used ≡ false)
                × ((out : List ℕ) × (compress_page page page_size ≡ done out)
                    × Holds h (fill_slot h z k bytes_in p heap) j out))
              eq
              (
                unused,
                (out, e, fill_slot-Holds h z k out p heap v inside unused pos small hv lv old ap'),
              );
      }

  store_in-Stores :
      (z : Pool h.State) (page : List ℕ) (k : ℕ) (out : List ℕ)
      → IsValid h z
      → k < length z.slots
      → (slot_at h z k).used ≡ false
      → compress_page page page_size ≡ done out
      → StoresPair z page (store_in h z k out)
  unfolding store_in
  store_in-Stores z page k out v inside unused e =
      let n = length out in
      if_elim (StoresPair z page) ((n == 0) || leb (page_size - 64) n)
        (λ _. unchanged z page incompressible v (λ i e. cc))
        λ fits.
          if_elim (StoresPair z page) ((h.kmalloc z.heap n).0 == 0)
            (λ _. out_of_memory z page out v (right_size out fits).1)
            λ nn.
              filled_slot z page k out v inside unused e (right_size out fits).0
                (right_size out fits).1 (non_null (h.kmalloc z.heap n).0 nn)

  store_result :
      (z : Pool h.State) (page : List ℕ) (k : ℕ) (r : Result)
      → IsValid h z
      → k < length z.slots
      → (slot_at h z k).used ≡ false
      → compress_page page page_size ≡ r
      → StoresPair z page (elim r [ done out ↦ store_in h z k out | _ ↦ (incompressible, z) ])
  store_result z page k (done out) v inside unused e =
      store_in-Stores z page k out v inside unused e
  store_result z page k failed v inside unused e = unchanged z page incompressible v (λ i e. cc)
  store_result z page k out_of_fuel v inside unused e =
      unchanged z page incompressible v (λ i e. cc)

  pub store-Stores :
      (z : Pool h.State) (page : List ℕ)
      → IsValid h z
      → StoresPair z page (store h z (some page) true)
  unfolding store
  store-Stores z page v = elim (Option-cases (find_slot z.slots 0)) [
    | inl e ↦ rw (e, store) (unchanged z page pool_full v (λ i e. cc))
    | inr (k, e) ↦
        let (j, eq, below, unused) = find_slot-some z.slots 0 k e in
        let here : j ≡ k = omega arith in
        rw (e, store)
          (store_result z page k (compress_page page page_size) v
            (subst (λ n. n < length z.slots) here below)
            (subst (λ n. (slot_at h z n).used ≡ false) here unused) refl)
  ]
