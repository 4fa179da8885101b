-- ===== src/Slab/Invariant.antt =====
-- The invariant of the zones: which chunks are free, and which are allocated.
use aura_os.Allocator.Calls.{NotAmong, AllOf}
use aura_os.Base.{
  ℕ, ◌<◌, ◌≡◌, ◌≢◌, inl, inr, sym, ap, ◌∙◌, some, List, [], ◌∷◌, subst, ◌==◌, ==_iff, Bool-cases,
  true,
}
use aura_os.Pmm.{is_used}
use aura_os.Pmm.Invariant
use aura_os.Slab.{Slab, num_zones, zone_chunk_size, put, size_to_zone_index}
use aura_os.Slab.Place.{Owner, InPlace, InPlace-zone}
use aura_os.Slab.Chain.{Without, Chain}

module _ {ℓ κ} {A : Type ℓ} (P : ℕ → A → Type κ) (f : ℕ → A) (i : ℕ) (v : A) where
  pub put_elim : P i v → ((j : ℕ) → j ≢ i → P j (f j)) → (j : ℕ) → P j (put f i v j)
  put_elim at_i other j = elim (Bool-cases (j == i)) [
    | inl e ↦ rw e (subst (λ k. P k v) (sym ((==_iff j i).0 e)) at_i)
    | inr e ↦ rw e (other j (λ q. absurd (let t = (==_iff j i).1 q in cc)))
  ]

module _ {ℓ κ μ} {A : Type ℓ} {B : Type κ} (P : ℕ → A → B → Type μ) (f : ℕ → A) (g : ℕ → B) (i : ℕ)
    (v : A) (w : B) where
  pub put_elim2 :
      P i v w → ((j : ℕ) → j ≢ i → P j (f j) (g j)) → (j : ℕ) → P j (put f i v j) (put g i w j)
  put_elim2 at_i other j = elim (Bool-cases (j == i)) [
    | inl e ↦ rw e (subst (λ k. P k v w) (sym ((==_iff j i).0 e)) at_i)
    | inr e ↦ rw e (other j (λ q. absurd (let t = (==_iff j i).1 q in cc)))
  ]

abbrev pub AllInPlace : Owner → ℕ → List ℕ → Type 0
AllInPlace owner i [] = Unit
AllInPlace owner i (c ∷ cs) = InPlace owner i c × AllInPlace owner i cs

-- The chunk at `c` is allocated, for a request of `size` bytes.
pub record Lives (owner : Owner) (free : ℕ → List ℕ) (size c : ℕ) : Type 0 where
  pub zone : ℕ
  pub some_bytes : size ≢ 0
  pub index : size_to_zone_index size ≡ some zone
  pub below : zone < num_zones
  pub place : InPlace owner zone c
  pub out : Without c (free zone)

abbrev pub AllLive : Owner → (ℕ → List ℕ) → List (ℕ × ℕ) → Type 0
AllLive owner free = AllOf (Lives owner free)

-- `owner` is the zone that a frame was carved for, `free` the free chunks of each zone, and `live` the
-- allocations with the sizes asked.
pub record Inv (s : Slab) (owner : Owner) (free : ℕ → List ℕ) (live : List (ℕ × ℕ)) : Type 0 where
  pub frames_valid : Invariant.IsValid s.frames
  pub first : is_used s.frames.bitmap 0 ≡ true
  pub identity : s.phys_offset ≡ 0
  pub sizes : (i : ℕ) → i < num_zones → (s.zones i).chunk_size ≡ zone_chunk_size i
  pub owned : (f i : ℕ) → owner f ≡ some i → is_used s.frames.bitmap f ≡ true
  pub chains : (i : ℕ) → i < num_zones → Chain s.next (s.zones i).free_list (free i)
  pub placed : (i : ℕ) → i < num_zones → AllInPlace owner i (free i)
  pub lives : AllLive owner free live

-- A chunk of one zone is not among those of another.
pub AllInPlace-Without :
    (owner : Owner) (i j c : ℕ) (l : List ℕ)
    → i < num_zones
    → j < num_zones
    → i ≢ j
    → InPlace owner i c
    → AllInPlace owner j l
    → Without c l
AllInPlace-Without owner i j c [] hi hj ne p all = tt
AllInPlace-Without owner i j c (d ∷ ds) hi hj ne p all = (
  λ e. ne (InPlace-zone owner i j c p (subst (InPlace owner j) e all.0) hi hj),
  AllInPlace-Without owner i j c ds hi hj ne p all.1,
)

-- Other lists of free chunks, which leave out what the first ones do.
pub AllLive-free :
    (owner : Owner) (free free' : ℕ → List ℕ) (live : List (ℕ × ℕ)) (c : ℕ)
    → ((d i : ℕ)
        → d ≢ c
        → i < num_zones
        → InPlace owner i d
        → Without d (free i)
        → Without d (free' i))
    → NotAmong c live
    → AllLive owner free live
    → AllLive owner free' live
AllLive-free owner free free' [] c keep apart all = tt
AllLive-free owner free free' ((size, d) ∷ live) c keep apart all =
    let l = all.0 in
    (
      record {
        zone = l.zone;
        some_bytes = l.some_bytes;
        index = l.index;
        below = l.below;
        place = l.place;
        out = keep d l.zone apart.0 l.below l.place l.out;
      },
      all.1,
      AllLive-free owner free free' live c keep apart.1 all.2,
    )

-- A free chunk is not an allocated one.
pub free-NotAmong :
    (owner : Owner) (free : ℕ → List ℕ) (live : List (ℕ × ℕ)) (i c : ℕ) (rest : List ℕ)
    → i < num_zones
    → free i ≡ c ∷ rest
    → InPlace owner i c
    → AllLive owner free live
    → NotAmong c live
free-NotAmong owner free [] i c rest hi e p all = tt
free-NotAmong owner free ((size, d) ∷ live) i c rest hi e p all =
    let l = all.0 in
    (
      λ q.
          let zone =
            InPlace-zone owner l.zone i c (subst (InPlace owner l.zone) q l.place) p l.below hi in
          let out : Without d (c ∷ rest) = subst (Without d) (ap free zone ∙ e) l.out in
          out.0 (sym q),
      free-NotAmong owner free live i c rest hi e p all.2,
    )

pub Chain-head :
    (next : ℕ → ℕ) (p : ℕ) (l : List ℕ) → p ≢ 0 → Chain next p l → (rest : List ℕ) × (l ≡ p ∷ rest)
Chain-head next p [] h k = absurd (h k)
Chain-head next p (x ∷ xs) h k = (xs, ap (λ y. y ∷ xs) (sym k.0))
