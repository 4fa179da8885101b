-- ===== src/Zram/Pool/Calls.antt =====
-- Sequences of calls: a stored page is loaded back until it is freed, and the statistics count.
use native.Mathlib.Decide.{dec_lt}
use aura_os.Base.{
  ℕ, ◌+◌, ◌<◌, ◌≡◌, ◌≢◌, refl, sym, ap, ◌∙◌, Bool, true, not, ◌||◌, Option, some, List, [], ◌∷◌,
  arith, length, get_or, replicate, length-replicate, get_or-replicate, get_or_out, leb, lt→leb,
  u32, if_elim,
}
use aura_os.Allocator.{Allocator}
use aura_os.Zram.Codec.{page_size, Result, done, failed, out_of_fuel, decompress_page}
use aura_os.Zram.Codec.RoundTrip.{HasNoShortLiteral, decompress-compress}
use aura_os.Zram.Pool.{
  no_slot, Pool, stored, max_pages, read_bytes, slot_at, init, loaded, store, load, free,
}
use aura_os.Zram.Pool.Slots.{total-replicate, pages, bytes, IsValid, Holds}
use aura_os.Zram.Pool.Store.{store-Stores}
use aura_os.Zram.Pool.Free.{free-IsValid, free_other}

pub data Call : Type 0 where
  store_page : List ℕ → Call
  load_handle : ℕ → Call
  free_handle : ℕ → Call

-- The call does not free handle `i`.
abbrev pub Spares : ℕ → Call → Type 0
Spares i (store_page page) = Unit
Spares i (load_handle k) = Unit
Spares i (free_handle k) = k ≢ i

abbrev pub AllSpare : ℕ → List Call → Type 0
AllSpare i [] = Unit
AllSpare i (c ∷ cs) = Spares i c × AllSpare i cs

empty : (i : ℕ) → get_or (replicate max_pages no_slot) i no_slot ≡ no_slot
empty i = elim (dec_lt i max_pages) [
  | yes below ↦ get_or-replicate max_pages i no_slot no_slot below
  | no out ↦
      get_or_out (replicate max_pages no_slot) i no_slot
        (omega (arith, length-replicate max_pages no_slot))
]

module _ (h : Allocator) where
  abbrev pub step : Pool h.State → Call → Pool h.State
  step z (store_page page) = (store h z (some page) true).1
  step z (load_handle k) = (load h z k true).1
  step z (free_handle k) = (free h z k).1

  unfoldable pub run : Pool h.State → List Call → Pool h.State
  run z [] = z
  run z (c ∷ cs) = run (step z c) cs

  -- `zram_load` changes one counter at most.
  loads :
      (z : Pool h.State) (k : ℕ) (dst_given : Bool) (P : Pool h.State → Type 0)
      → P z
      → P (record z {
        stats = record z.stats { total_decompressions = u32 (z.stats.total_decompressions + 1) };
      })
      → P (load h z k dst_given).1
  unfolding load
  loads z k dst_given P same counted =
      if_elim (λ (r : Option (List ℕ) × Pool h.State). P r.1)
        (leb max_pages k || (not (slot_at h z k).used || not dst_given)) (λ _. same)
        (λ _. from_result (
          decompress_page
            (read_bytes z.memory (slot_at h z k).data_at (slot_at h z k).compressed_len)))
    where
      from_result : (r : Result) → P (loaded h z r).1
      from_result (done page) = counted
      from_result failed = same
      from_result out_of_fuel = same

  step-IsValid : (z : Pool h.State) (c : Call) → IsValid h z → IsValid h (step z c)
  step-IsValid z (store_page page) v = (store-Stores h z page v).valid
  step-IsValid z (load_handle k) v = loads z k true (IsValid h) v (record {
    heap_valid = v.heap_valid;
    size = v.size;
    live = v.live;
    filled = v.filled;
    fits = v.fits;
    apart = v.apart;
    pages_counted = v.pages_counted;
    original_counted = v.original_counted;
    bytes_counted = v.bytes_counted;
  })
  step-IsValid z (free_handle k) v = free-IsValid h z k v

  step-Holds :
      (z : Pool h.State) (c : Call) (i : ℕ) (bs : List ℕ)
      → IsValid h z
      → Spares i c
      → Holds h z i bs
      → Holds h (step z c) i bs
  step-Holds z (store_page page) i bs v _ held = (store-Stores h z page v).others i bs held
  step-Holds z (load_handle k) i bs v _ held =
      loads z k true (λ t. Holds h t i bs) held
        (record { used = held.used; len = held.len; contents = held.contents })
  step-Holds z (free_handle k) i bs v ne held = free_other h z k i bs ne held

  pub run-IsValid : (z : Pool h.State) (cs : List Call) → IsValid h z → IsValid h (run z cs)
  unfolding run
  run-IsValid z [] v = v
  run-IsValid z (c ∷ cs) v = run-IsValid (step z c) cs (step-IsValid z c v)

  run-Holds :
      (z : Pool h.State) (cs : List Call) (i : ℕ) (bs : List ℕ)
      → IsValid h z
      → AllSpare i cs
      → Holds h z i bs
      → Holds h (run z cs) i bs
  unfolding run
  run-Holds z [] i bs v _ held = held
  run-Holds z (c ∷ cs) i bs v (spares, all) held =
      run-Holds (step z c) cs i bs (step-IsValid z c v) all (step-Holds z c i bs v spares held)

  handle_inside :
      (z : Pool h.State) (i : ℕ) → IsValid h z → (slot_at h z i).used ≡ true → i < max_pages
  handle_inside z i v u = elim (dec_lt i max_pages) [
    | yes below ↦ below
    | no out ↦
        let e = ap (λ s. s.used) (get_or_out z.slots i no_slot (omega (arith, v.size))) in
        absurd (cc)
  ]

  load-Holds :
      (z : Pool h.State) (i : ℕ) (bs page : List ℕ)
      → IsValid h z
      → Holds h z i bs
      → decompress_page bs ≡ done page
      → (load h z i true).0 ≡ some page
  unfolding load
  load-Holds z i bs page v held e =
      let below = lt→leb max_pages i (handle_inside z i v held.used) in
      let same = ap (λ n. read_bytes z.memory (slot_at h z i).data_at n) held.len ∙ held.contents in
      rw (below, held.used) (rw same (rw e refl))

  -- A page stored in a valid pool is what a load of its handle gives, whatever pages are stored,
  -- loaded and freed in between, as long as that handle is not freed; the page has no literal chunk
  -- of one or two bytes.
  pub load-run-store :
      (z : Pool h.State) (page : List ℕ) (i : ℕ) (cs : List Call)
      → IsValid h z
      → length page ≡ page_size
      → HasNoShortLiteral page page_size
      → (store h z (some page) true).0 ≡ stored i
      → AllSpare i cs
      → (load h (run (store h z (some page) true).1 cs) i true).0 ≡ some page
  load-run-store z page i cs v size readable e spares =
      let after = store-Stores h z page v in
      let (unused, (out, c, held)) = after.holds i e in
      load-Holds (run (store h z (some page) true).1 cs) i out page
        (run-IsValid (store h z (some page) true).1 cs after.valid)
        (run-Holds (store h z (some page) true).1 cs i out after.valid spares held)
        (decompress-compress page out page_size size readable c)

  pub init-IsValid : (z : Pool h.State) → h.IsValid z.heap → IsValid h (init h z)
  unfolding init
  init-IsValid z hv =
      let unused = λ (i : ℕ). ap (λ s. s.used) (empty i) in
      record {
        heap_valid = hv;
        size = length-replicate max_pages no_slot;
        live = λ i u. absurd (cc (unused i));
        filled = λ i u. absurd (cc (unused i));
        fits = λ i. omega (arith, ap (λ s. s.compressed_len) (empty i));
        apart = λ i j u. absurd (cc (unused i));
        pages_counted = sym (total-replicate pages max_pages refl);
        original_counted = omega (arith, total-replicate pages max_pages refl);
        bytes_counted = sym (total-replicate bytes max_pages refl);
      }

  -- After `zram_init` and any calls the invariant holds: the statistics count the pages in use, 4096
  -- bytes for each, and their compressed bytes, without wrapping, and no two pages in use share a byte.
  pub run-init-IsValid :
      (z : Pool h.State) (cs : List Call) → h.IsValid z.heap → IsValid h (run (init h z) cs)
  run-init-IsValid z cs hv = run-IsValid (init h z) cs (init-IsValid z hv)
