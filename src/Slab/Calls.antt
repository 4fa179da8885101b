-- ===== src/Slab/Calls.antt =====
-- Any calls of `zalloc`, and of `zfree` for what they returned.
use aura_os.Base.{
  ℕ, zero, suc, ◌+◌, ◌≤◌, ◌<◌, ◌≡◌, ◌≢◌, inl, inr, sym, ap, ◌∙◌, some, List, ◌∷◌, arith, subst,
  ◌==◌, ==_false, ==_iff, if◌then◌else◌, if_elim, Bool-cases, Option-cases, leb, leb→le,
}
use native.Mathlib.Decide.{ℕ_discrete}
use aura_os.Allocator.Calls.{note, note_some}
use aura_os.Slab.{
  Slab, num_zones, zone_chunk_size, put, zone_from, size_to_zone_index, zone_refill, pop,
  alloc_from, zalloc, zfree,
}
use aura_os.Slab.Place.{Owner, InPlace-ne-zero}
use aura_os.Slab.Invariant.{Inv}
use aura_os.Slab.Steps.{pop_none, pop_some, pop-Inv, push-Inv}
use aura_os.Slab.Refill.{zone_refill-Inv}

zone_from_lem :
    (left i size j : ℕ)
    → zone_from left i size ≡ some j
    → (j < i + left) × (size ≤ zone_chunk_size j)
unfolding zone_from
zone_from_lem zero i size j e = cc
zone_from_lem (suc left) i size j e = elim (Bool-cases (leb size (zone_chunk_size i))) [
  | inl fits ↦
      let s : some i ≡ some j = rw (fits, zone_from) at e in
      let same : i ≡ j = cc in
      (
        omega arith,
        subst (λ n. size ≤ zone_chunk_size n) same (leb→le size (zone_chunk_size i) fits),
      )
  | inr small ↦
      let r = zone_from_lem left (i + 1) size j (rw (small, zone_from) at e) in (omega arith, r.1)
]

-- The zone that is chosen has chunks of the size asked at least.
pub size_to_zone_index-le :
    (size j : ℕ) → size_to_zone_index size ≡ some j → (j < num_zones) × (size ≤ zone_chunk_size j)
unfolding size_to_zone_index
size_to_zone_index-le size j e = zone_from_lem num_zones 0 size j e

-- The zones with what was allocated from them.
abbrev pub Accounts : Slab → List (ℕ × ℕ) → Type 0
Accounts s live = (owner : Owner) × (free : ℕ → List ℕ) × Inv s owner free live

pop-Accounts :
    (s : Slab) (live : List (ℕ × ℕ)) (i size : ℕ)
    → i < num_zones
    → size ≢ 0
    → size_to_zone_index size ≡ some i
    → Accounts s live
    → Accounts (pop s i).1 (note size (pop s i).0 live)
pop-Accounts s live i size hi bytes index (owner, free, v) =
    let head = (s.zones i).free_list in
    elim (ℕ_discrete head 0) [
      | yes e ↦
          subst (λ r. Accounts r.1 (note size r.0 live)) (sym (pop_none s i e)) (owner, free, v)
      | no h ↦
          let (free', w) = pop-Inv s owner free live v i size hi h bytes index in
          let given : (pop s i).0 ≢ 0 = λ z. h (sym (ap (λ r. r.0) (pop_some s i h)) ∙ z) in
          (
            owner,
            free',
            subst (Inv (pop s i).1 owner free') (note_some size (pop s i).0 live given) w,
          )
    ]

abbrev pub ready : Slab → ℕ → Slab
ready s i = if (s.zones i).free_list == 0 then zone_refill s i else s

pub ready-Accounts :
    (s : Slab) (live : List (ℕ × ℕ)) (i : ℕ)
    → i < num_zones
    → Accounts s live
    → Accounts (ready s i) live
ready-Accounts s live i hi (owner, free, v) =
    let r = zone_refill-Inv s owner free live v i hi in
    if_elim (λ t. Accounts t live) ((s.zones i).free_list == 0) (λ _. (r.0, r.1, r.2))
      (λ _. (owner, free, v))

pub zalloc-Accounts :
    (s : Slab) (live : List (ℕ × ℕ)) (size : ℕ)
    → Accounts s live
    → Accounts (zalloc s size).1 (note size (zalloc s size).0 live)
unfolding zalloc alloc_from
zalloc-Accounts s live size v = elim (ℕ_discrete size 0) [
  | yes e ↦ rw ((==_iff size 0).1 e, zalloc) v
  | no bytes ↦ elim (Option-cases (size_to_zone_index size)) [
    | inl e ↦ rw (==_false size 0 bytes, e, zalloc) v
    | inr (i, e) ↦
        let hi = (size_to_zone_index-le size i e).0 in
        rw (==_false size 0 bytes, e, zalloc)
          (pop-Accounts (ready s i) live i size hi bytes e (ready-Accounts s live i hi v))
  ]
]

pub zfree-Accounts :
    (s : Slab) (live : List (ℕ × ℕ)) (size c : ℕ)
    → Accounts s ((size, c) ∷ live)
    → Accounts (zfree s c size) live
unfolding zfree
zfree-Accounts s live size c (owner, free, v) =
    let l = v.lives.0 in
    let away = InPlace-ne-zero owner l.zone c l.place in
    rw (==_false c 0 away, ==_false size 0 l.some_bytes, l.index, zfree)
      (owner, put free l.zone (c ∷ free l.zone), push-Inv s owner free size c live v)
