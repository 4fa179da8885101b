-- ===== src/Slab/Separate.antt =====
-- What holds after any calls: allocations are apart, and one fails only when memory is exhausted.
use aura_os.Base.{
  ℕ, zero, suc, ◌+◌, ◌≤◌, ◌<◌, ◌≡◌, ◌≢◌, inl, inr, sym, ap, ◌∙◌, none, some, List, [], ◌∷◌, arith,
  subst, ◌==◌, ==_false, ==_iff, true, false, Option-cases, le→leb, lt→leb, if_elim, Bool,
}
use native.Mathlib.Decide.{dec_lt, ℕ_discrete}
use aura_os.Allocator.Calls.{Call, NotAmong, Apart-le, ApartFrom, AllApart}
use aura_os.Pmm.{is_used}
use aura_os.Pmm.Invariant
use aura_os.Slab.{
  Slab, num_zones, zone_chunk_size, zone_from, size_to_zone_index, pop, alloc_from, zalloc,
}
use aura_os.Slab.Place.{Owner, InPlace-Apart, InPlace-ne-zero}
use aura_os.Slab.Invariant.{Lives, AllLive}
use aura_os.Slab.Steps.{pop_some}
use aura_os.Slab.Refill.{zone_refill-Inv}
use aura_os.Slab.Calls.{size_to_zone_index-le, Accounts, ready}
use aura_os.Slab.Runs.{run, start, reached}

AllLive-ApartFrom :
    (owner : Owner) (free : ℕ → List ℕ) (n c : ℕ) (live : List (ℕ × ℕ))
    → Lives owner free n c
    → NotAmong c live
    → AllLive owner free live
    → ApartFrom n c live
AllLive-ApartFrom owner free n c [] l apart all = tt
AllLive-ApartFrom owner free n c ((m, d) ∷ live) l apart all =
    let k = all.0 in
    (
      Apart-le c (zone_chunk_size l.zone) d (zone_chunk_size k.zone) n m
          (size_to_zone_index-le n l.zone l.index).1 (size_to_zone_index-le m k.zone k.index).1
          (InPlace-Apart owner l.zone k.zone c d l.below k.below l.place k.place
            (λ e. apart.0 (sym e))),
      AllLive-ApartFrom owner free n c live l apart.1 all.2,
    )

AllLive-AllApart :
    (owner : Owner) (free : ℕ → List ℕ) (live : List (ℕ × ℕ))
    → AllLive owner free live
    → AllApart live
AllLive-AllApart owner free [] all = tt
AllLive-AllApart owner free ((n, c) ∷ live) all = (
  InPlace-ne-zero owner all.0.zone c all.0.place,
  AllLive-ApartFrom owner free n c live all.0 all.1 all.2,
  AllLive-AllApart owner free live all.2,
)

zone_from-none :
    (left i size k : ℕ)
    → zone_from left i size ≡ none
    → i ≤ k
    → k < i + left
    → zone_chunk_size k < size
unfolding zone_from
zone_from-none zero i size k e lo hi = absurd (omega arith)
zone_from-none (suc left) i size k e lo hi = elim (dec_lt (zone_chunk_size i) size) [
  | yes small ↦ elim (ℕ_discrete i k) [
    | yes same ↦ subst (λ j. zone_chunk_size j < size) same small
    | no ne ↦
        zone_from-none left (i + 1) size k
          (rw (lt→leb size (zone_chunk_size i) small, zone_from) at e) (omega arith) (omega arith)
  ]
  | no fits ↦
      let s : some i ≡ none = rw (le→leb size (zone_chunk_size i) (omega arith), zone_from) at e in
      cc
]

size_to_zone_index-ne-none : (size : ℕ) → size ≤ 2048 → size_to_zone_index size ≢ none
unfolding size_to_zone_index
size_to_zone_index-ne-none size h e =
    omega (arith, zone_from-none num_zones 0 size 7 e (omega arith) (omega arith))

true_ne_false : {b : Bool} → b ≡ false → b ≢ true
true_ne_false e h = cc

alloc_from_some :
    (s : Slab) (live : List (ℕ × ℕ)) (i : ℕ)
    → i < num_zones
    → Accounts s live
    → s.frames.used_frames < s.frames.total_frames
    → (pop (ready s i) i).0 ≢ 0
alloc_from_some s live i hi (owner, free, v) room =
    let given =
      if_elim (λ (t : Slab). (t.zones i).free_list ≢ 0) ((s.zones i).free_list == 0)
        (λ _. (zone_refill-Inv s owner free live v i hi).3 room)
        (λ e z. absurd (true_ne_false e ((==_iff (s.zones i).free_list 0).1 z))) in
    λ z. given (sym (ap (λ r. r.0) (pop_some (ready s i) i given)) ∙ z)

module _ (s : Slab) (valid : Invariant.IsValid s.frames) (first : is_used s.frames.bitmap 0 ≡ true)
    (identity : s.phys_offset ≡ 0) (cs : List Call) where
  -- Let the zones be initialised over a valid frame allocator with frame 0 in use and without an
  -- offset. After any calls of `zalloc`, and of `zfree` for chunks that are allocated, no allocation
  -- is NULL, and no two of them, for whatever sizes, have a byte of what was asked in common.
  pub run-AllApart : AllApart (run (start s) cs).live
  run-AllApart =
      let (owner, free, v) = reached s valid first identity cs in
      AllLive-AllApart owner free (run (start s) cs).live v.lives

  -- Let the zones be initialised over a valid frame allocator with frame 0 in use and without an
  -- offset. After any calls of `zalloc`, and of `zfree` for chunks that are allocated, an allocation
  -- of 1 to 2048 bytes succeeds as long as a frame is free.
  pub zalloc-run :
      (size : ℕ)
      → size ≢ 0
      → size ≤ 2048
      → (run (start s) cs).slab.frames.used_frames < (run (start s) cs).slab.frames.total_frames
      → (zalloc (run (start s) cs).slab size).0 ≢ 0
  unfolding zalloc alloc_from
  zalloc-run size bytes small room =
      let t = run (start s) cs in
      elim (Option-cases (size_to_zone_index size)) [
        | inl e ↦ absurd (size_to_zone_index-ne-none size small e)
        | inr (i, e) ↦
            rw (==_false size 0 bytes, e, zalloc)
              (alloc_from_some t.slab t.live i (size_to_zone_index-le size i e).0
                (reached s valid first identity cs) room)
      ]
