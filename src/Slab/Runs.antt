-- ===== src/Slab/Runs.antt =====
-- Any calls of `zalloc`, and of `zfree` for what it returned, from the initialisation on.
use aura_os.Base.{
  ℕ, zero, suc, ◌+◌, ◌<◌, ◌≡◌, inl, inr, sym, ap, none, some, List, [], ◌∷◌, arith, ==_false,
  ==_iff, true, Option-cases,
}
use native.Mathlib.Decide.{ℕ_discrete}
use aura_os.Allocator.Calls.{Call, allocate, release, note, pick, AllOf-pick}
use aura_os.Pmm.{is_used}
use aura_os.Pmm.Invariant
use aura_os.Slab.{Slab, Zone, num_zones, zone_chunk_size, put, zalloc, zfree, init, init_zones}
use aura_os.Slab.Invariant.{Lives}
use aura_os.Slab.Calls.{Accounts, zalloc-Accounts, zfree-Accounts}

-- The zones, and the size and the address of each allocation, the latest first.
pub record Client : Type 0 where
  pub slab : Slab
  pub live : List (ℕ × ℕ)

-- `release k` frees the allocation number `k`, if there is one.
unfoldable pub step : Client → Call → Client
unfolding pick
step t (allocate size) =
    let (p, s) = zalloc t.slab size in record { slab = s; live = note size p t.live }
step t (release k) = elim (pick k t.live) [
  | none ↦ t
  | some ((size, p), rest) ↦ record { slab = zfree t.slab p size; live = rest }
]

unfoldable pub run : Client → List Call → Client
unfolding step
run t [] = t
run t (c ∷ cs) = run (step t c) cs

step-Accounts :
    (t : Client) (c : Call) → Accounts t.slab t.live → Accounts (step t c).slab (step t c).live
unfolding step
step-Accounts t (allocate size) v = zalloc-Accounts t.slab t.live size v
step-Accounts t (release k) (owner, free, v) = elim (Option-cases (pick k t.live)) [
  | inl e ↦ rw (e, step) (owner, free, v)
  | inr (((size, p), rest), e) ↦
      rw (e, step)
        (zfree-Accounts t.slab rest size p (
          owner,
          free,
          record {
            frames_valid = v.frames_valid;
            first = v.first;
            identity = v.identity;
            sizes = v.sizes;
            owned = v.owned;
            chains = v.chains;
            placed = v.placed;
            lives = AllOf-pick (Lives owner free) k t.live (size, p) rest e v.lives;
          },
        ))
]

run-Accounts :
    (t : Client) (cs : List Call)
    → Accounts t.slab t.live
    → Accounts (run t cs).slab (run t cs).live
unfolding run
run-Accounts t [] v = v
run-Accounts t (c ∷ cs) v = run-Accounts (step t c) cs (step-Accounts t c v)

abbrev new_zone : ℕ → Zone
new_zone i = record { free_list = 0; chunk_size = zone_chunk_size i; alloc_count = 0 }

init_zones_lem :
    (left i : ℕ) (zones : ℕ → Zone) (j : ℕ)
    → j < i + left
    → (j < i → zones j ≡ new_zone j)
    → init_zones left i zones j ≡ new_zone j
unfolding init_zones
init_zones_lem zero i zones j h before = before (omega arith)
init_zones_lem (suc left) i zones j h before =
    init_zones_lem left (i + 1) (put zones i (new_zone i)) j (omega arith) (λ k.
      elim (ℕ_discrete j i) [
        | yes e ↦ rw ((==_iff j i).1 e) (ap new_zone (sym e))
        | no ne ↦ rw (==_false j i ne) (before (omega arith))
      ])

abbrev pub start : Slab → Client
start s = record { slab = init s; live = [] }

module _ (s : Slab) (valid : Invariant.IsValid s.frames) (first : is_used s.frames.bitmap 0 ≡ true)
    (identity : s.phys_offset ≡ 0) (cs : List Call) where
  init-Accounts : Accounts (init s) []
  unfolding init
  init-Accounts =
      let new = λ (i : ℕ) (h : i < num_zones).
        init_zones_lem num_zones 0 s.zones i h (λ k. absurd (omega arith)) in
      (
        λ _. none,
        λ _. [],
        record {
          frames_valid = valid;
          first = first;
          identity = identity;
          sizes = λ i h. ap (λ (z : Zone). z.chunk_size) (new i h);
          owned = λ f i e. (cc);
          chains = λ i h. ap (λ (z : Zone). z.free_list) (new i h);
          placed = λ i h. tt;
          lives = tt;
        },
      )

  pub reached : Accounts (run (start s) cs).slab (run (start s) cs).live
  reached = run-Accounts (start s) cs init-Accounts
