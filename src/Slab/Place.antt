-- ===== src/Slab/Place.antt =====
-- Where chunks are: each frame belongs to one zone at most, and its chunks are the multiples of their
-- size in it. Chunks that are not the same have no byte in common.
use aura_os.Base.{
  ℕ, zero, suc, ◌+◌, ◌*◌, ◌/◌, ◌≤◌, ◌<◌, ◌≡◌, ◌≢◌, inl, inr, refl, sym, ap, ◌∙◌, Option, some,
  arith,
}
use native.Mathlib.Decide.{dec_lt}
use aura_os.Allocator.{Apart}
use aura_os.Slab.{num_zones, slab_page_size, zone_chunk_size}

abbrev pub Owner : Type 0
Owner = ℕ → Option ℕ

-- The chunk at `c` is number `number` of the frame `frame`, which belongs to zone `i`.
pub record InPlace (owner : Owner) (i c : ℕ) : Type 0 where
  pub frame : ℕ
  pub number : ℕ
  pub at : c ≡ frame * slab_page_size + number * zone_chunk_size i
  pub inside : number * zone_chunk_size i + zone_chunk_size i ≤ slab_page_size
  pub mine : owner frame ≡ some i
  pub away : frame ≢ 0

pub chunk_size_pos : (i : ℕ) → i < num_zones → 0 < zone_chunk_size i
chunk_size_pos zero h = omega arith
chunk_size_pos (suc zero) h = omega arith
chunk_size_pos (suc (suc zero)) h = omega arith
chunk_size_pos (suc (suc (suc zero))) h = omega arith
chunk_size_pos (suc (suc (suc (suc zero)))) h = omega arith
chunk_size_pos (suc (suc (suc (suc (suc zero))))) h = omega arith
chunk_size_pos (suc (suc (suc (suc (suc (suc zero)))))) h = omega arith
chunk_size_pos (suc (suc (suc (suc (suc (suc (suc zero))))))) h = omega arith
chunk_size_pos (suc (suc (suc (suc (suc (suc (suc (suc n)))))))) h = absurd (omega arith)

pub chunks_fit :
    (i : ℕ)
    → i < num_zones
    → slab_page_size / zone_chunk_size i * zone_chunk_size i ≡ slab_page_size
chunks_fit zero h = refl
chunks_fit (suc zero) h = refl
chunks_fit (suc (suc zero)) h = refl
chunks_fit (suc (suc (suc zero))) h = refl
chunks_fit (suc (suc (suc (suc zero)))) h = refl
chunks_fit (suc (suc (suc (suc (suc zero))))) h = refl
chunks_fit (suc (suc (suc (suc (suc (suc zero)))))) h = refl
chunks_fit (suc (suc (suc (suc (suc (suc (suc zero))))))) h = refl
chunks_fit (suc (suc (suc (suc (suc (suc (suc (suc n)))))))) h = absurd (omega arith)

pub mul_step : (k l size : ℕ) → k < l → k * size + size ≤ l * size
mul_step k l size h = grind arith

pub InPlace-ne-zero : (owner : Owner) (i c : ℕ) → InPlace owner i c → c ≢ 0
InPlace-ne-zero owner i c p e = p.away (omega (arith, p.at))

pub same_frame :
    (owner : Owner) (i j c : ℕ) (p : InPlace owner i c) (q : InPlace owner j c)
    → i < num_zones
    → j < num_zones
    → p.frame ≡ q.frame
same_frame owner i j c p q hi hj =
    let one = chunk_size_pos i hi in
    let two = chunk_size_pos j hj in omega (arith, p.at, q.at, p.inside, q.inside)

pub InPlace-zone :
    (owner : Owner) (i j c : ℕ)
    → InPlace owner i c
    → InPlace owner j c
    → i < num_zones
    → j < num_zones
    → i ≡ j
InPlace-zone owner i j c p q hi hj =
    let e = same_frame owner i j c p q hi hj in
    let s : some i ≡ some j = sym p.mine ∙ ap owner e ∙ q.mine in cc

same_zone-Apart :
    (owner : Owner) (i j c d : ℕ) (p : InPlace owner i c) (q : InPlace owner j d)
    → j ≡ i
    → p.frame ≡ q.frame
    → c ≢ d
    → Apart c (zone_chunk_size i) d (zone_chunk_size j)
same_zone-Apart owner i j c d p q zone e h =
    let size = ap zone_chunk_size zone in
    let at' = q.at ∙ ap (λ t. q.frame * slab_page_size + q.number * t) size in
    elim (dec_lt p.number q.number) [
      | yes k ↦ inl (omega (arith, p.at, at', mul_step p.number q.number (zone_chunk_size i) k))
      | no k ↦ elim (dec_lt q.number p.number) [
        | yes k' ↦
            inr (omega (arith, p.at, at', size, mul_step q.number p.number (zone_chunk_size i) k'))
        | no k' ↦
            let same : p.number ≡ q.number = omega arith in
            absurd (h (omega (arith, p.at, at', ap (λ n. n * zone_chunk_size i) same)))
      ]
    ]

-- Two chunks, of the same zone or of two, have no byte in common.
pub InPlace-Apart :
    (owner : Owner) (i j c d : ℕ)
    → i < num_zones
    → j < num_zones
    → InPlace owner i c
    → InPlace owner j d
    → c ≢ d
    → Apart c (zone_chunk_size i) d (zone_chunk_size j)
InPlace-Apart owner i j c d hi hj p q h = elim (dec_lt p.frame q.frame) [
  | yes k ↦ inl (omega (arith, p.at, q.at, p.inside))
  | no k ↦ elim (dec_lt q.frame p.frame) [
    | yes k' ↦ inr (omega (arith, p.at, q.at, q.inside))
    | no k' ↦
        let e : p.frame ≡ q.frame = omega arith in
        let s : some j ≡ some i = sym q.mine ∙ ap owner (sym e) ∙ p.mine in
        let zone : j ≡ i = cc in same_zone-Apart owner i j c d p q zone e h
  ]
]
