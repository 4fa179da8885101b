-- ===== src/Slab/Refill.antt =====
-- A zone that is refilled from a frame that no zone had.
use native.Mathlib.Decide.{dec_lt}
use aura_os.Base.{
  ℕ, zero, suc, ◌+◌, ◌*◌, ◌/◌, ◌^◌, ◌≤◌, ◌<◌, ◌≡◌, ◌≢◌, refl, sym, ap, ◌∙◌, some, List, [], ◌∷◌,
  arith, subst, ◌==◌, ==_false, if◌then◌else◌, true, false, get_or-set_self, set, length, u64,
}
use aura_os.Pmm.{Pmm, is_used, alloc_frame, page_size}
use aura_os.Pmm.Invariant
use aura_os.Pmm.Calls.{is_used-set}
use aura_os.Pmm.Alloc.{taken, alloc_frame_succeeds, alloc_frame_exhausted}
use aura_os.Slab.{Slab, num_zones, slab_page_size, zone_chunk_size, put, carve, zone_refill}
use aura_os.Slab.Place.{Owner, InPlace, chunk_size_pos, chunks_fit, mul_step}
use aura_os.Slab.Chain.{
  Without, Chain, Fresh, carved, carved-Without, carve-Chain, carve_other, put_same, put_other,
}
use aura_os.Slab.Invariant.{put_elim, put_elim2, AllInPlace, AllLive, Inv}

module _ (owner : Owner) (f i : ℕ) (none_yet : (j : ℕ) → owner f ≢ some j) where
  InPlace-new : (j c : ℕ) → InPlace owner j c → InPlace (put owner f (some i)) j c
  InPlace-new j c p = record {
    frame = p.frame;
    number = p.number;
    at = p.at;
    inside = p.inside;
    mine =
        put_other owner f p.frame (some i) (λ e. none_yet j (sym (ap owner e) ∙ p.mine)) ∙ p.mine;
    away = p.away;
  }

  AllInPlace-new :
      (j : ℕ) (l : List ℕ) → AllInPlace owner j l → AllInPlace (put owner f (some i)) j l
  AllInPlace-new j [] all = tt
  AllInPlace-new j (c ∷ cs) all = (InPlace-new j c all.0, AllInPlace-new j cs all.1)

  -- A chunk that was in its place is none of the new ones.
  old_ne :
      (j c m : ℕ)
      → j < num_zones
      → i < num_zones
      → InPlace owner j c
      → m * zone_chunk_size i + zone_chunk_size i ≤ slab_page_size
      → c ≢ f * page_size + m * zone_chunk_size i
  old_ne j c m hj hi p inside e =
      let pos = chunk_size_pos j hj in
      let pos' = chunk_size_pos i hi in
      let same : p.frame ≡ f = omega (arith, p.at, p.inside) in
      none_yet j (sym (ap owner same) ∙ p.mine)

abbrev per_frame : ℕ → ℕ
per_frame i = slab_page_size / zone_chunk_size i

number_inside :
    (i m : ℕ)
    → i < num_zones
    → m < per_frame i
    → m * zone_chunk_size i + zone_chunk_size i ≤ slab_page_size
number_inside i m hi h =
    omega (arith, mul_step m (per_frame i) (zone_chunk_size i) h, chunks_fit i hi)

module _ (owner : Owner) (f i : ℕ) (hi : i < num_zones)
    (none_yet : (j : ℕ) → owner f ≢ some j) where
  AllInPlace-Fresh :
      (j : ℕ) (l : List ℕ)
      → j < num_zones
      → AllInPlace owner j l
      → Fresh (f * page_size) (zone_chunk_size i) (per_frame i) 0 l
  AllInPlace-Fresh j [] hj all = tt
  AllInPlace-Fresh j (c ∷ cs) hj all = (
    λ m h b. old_ne owner f i none_yet j c m hj hi all.0 (number_inside i m hi b),
    AllInPlace-Fresh j cs hj all.1,
  )

  AllInPlace-carved :
      (left k : ℕ) (l : List ℕ)
      → k + left ≡ per_frame i
      → f ≢ 0
      → AllInPlace (put owner f (some i)) i l
      → AllInPlace (put owner f (some i)) i (carved left k (f * page_size) (zone_chunk_size i) l)
  unfolding carved
  AllInPlace-carved zero k l e away all = all
  AllInPlace-carved (suc left) k l e away all =
      let c = f * page_size + k * zone_chunk_size i in
      AllInPlace-carved left (k + 1) (c ∷ l) (omega arith) away (
        record {
          frame = f;
          number = k;
          at = refl;
          inside = number_inside i k hi (omega arith);
          mine = put_same owner f (some i);
          away = away;
        },
        all,
      )

  AllLive-carved :
      (free : ℕ → List ℕ) (live : List (ℕ × ℕ))
      → f ≢ 0
      → f * page_size + per_frame i * zone_chunk_size i ≤ 2 ^ 64
      → AllLive owner free live
      → AllLive
          (put owner f (some i))
          (put free i (carved (per_frame i) 0 (f * page_size) (zone_chunk_size i) (free i)))
          live
  AllLive-carved free [] away bound all = tt
  AllLive-carved free ((n, d) ∷ live) away bound all =
      let l = all.0 in
      let size = zone_chunk_size i in
      let new = carved (per_frame i) 0 (f * page_size) size (free i) in
      (
        record {
          zone = l.zone;
          some_bytes = l.some_bytes;
          index = l.index;
          below = l.below;
          place = InPlace-new owner f i none_yet l.zone d l.place;
          out =
              put_elim (λ j ls. Without d (free j) → Without d ls) free i new
                (λ o.
                  carved-Without (f * page_size) size (per_frame i) (chunk_size_pos i hi)
                    (λ z. away (omega arith)) bound (per_frame i) 0 d (free i) (omega arith)
                    (λ m b.
                      old_ne owner f i none_yet l.zone d m l.below hi l.place
                        (number_inside i m hi b))
                    o)
                (λ j ne o. o) l.zone l.out;
        },
        all.1,
        AllLive-carved free live away bound all.2,
      )

per_frame_pos : (i : ℕ) → i < num_zones → 0 < per_frame i
per_frame_pos i hi = elim (dec_lt 0 (per_frame i)) [
  | yes h ↦ h
  | no h ↦
      let zero_chunks : per_frame i ≡ 0 = omega arith in
      absurd (omega (arith, chunks_fit i hi, ap (λ n. n * zone_chunk_size i) zero_chunks))
]

length-carved :
    (left i base size : ℕ) (l : List ℕ) → length (carved left i base size l) ≡ length l + left
unfolding carved
length-carved zero i base size l = omega arith
length-carved (suc left) i base size l =
    omega (arith, length-carved left (i + 1) base size ((base + i * size) ∷ l))

Chain-some : (next : ℕ → ℕ) (p : ℕ) (l : List ℕ) → 0 < length l → Chain next p l → p ≢ 0
Chain-some next p [] h k = absurd (omega arith)
Chain-some next p (x ∷ xs) h k = λ e. k.1 (sym k.0 ∙ e)

-- `zone_refill` with what the frame allocator returns, the size of the chunks and the base as arguments.
abbrev refill_from : Slab → ℕ → ℕ × Pmm → ℕ → ℕ → Slab
refill_from s i (pa, frames) size base =
    if pa == 0
    then record s { frames = frames }
    else (let r = carve (slab_page_size / size) 0 base size s.next (s.zones i).free_list in
        record s {
          zones = put s.zones i (record (s.zones i) {
            free_list = r.1;
            alloc_count = u64 ((s.zones i).alloc_count + 1);
          });
          next = r.0;
          frames = frames;
        })

-- The zone `i` with the chunks of the frame `f`.
abbrev refilled : Slab → ℕ → ℕ → Slab
refilled s i f =
    let z = s.zones i in
    let r = carve (per_frame i) 0 (f * page_size) (zone_chunk_size i) s.next z.free_list in
    record s {
      zones = put s.zones i (record z { free_list = r.1; alloc_count = u64 (z.alloc_count + 1) });
      next = r.0;
      frames = taken s.frames f;
    }

module _ (s : Slab) (owner : Owner) (free : ℕ → List ℕ) (live : List (ℕ × ℕ))
    (v : Inv s owner free live) (i : ℕ) (hi : i < num_zones) where
  zone_refill-eq :
      (f : ℕ)
      → f < s.frames.total_frames
      → f ≢ 0
      → alloc_frame s.frames ≡ (f * page_size, taken s.frames f)
      → zone_refill s i ≡ refilled s i f
  unfolding zone_refill
  zone_refill-eq f below away e =
      let base : u64 (f * page_size + s.phys_offset) ≡ f * page_size =
        omega (arith, v.identity, v.frames_valid.addressable) in
      let size = (s.zones i).chunk_size in
      let r : ℕ × Pmm = (f * page_size, taken s.frames f) in
      ap (λ q. refill_from s i q size (u64 (q.0 + s.phys_offset))) e
      ∙ ap (λ b. refill_from s i r size b) base
      ∙ ap (λ n. refill_from s i r n (f * page_size)) (v.sizes i hi)
      ∙ ap (λ t. if t then record s { frames = taken s.frames f } else refilled s i f)
          (==_false (f * page_size) 0 (λ q. away (omega arith)))

  refilled-Inv :
      (f : ℕ)
      → f < s.frames.total_frames
      → f ≢ 0
      → is_used s.frames.bitmap f ≡ false
      → alloc_frame s.frames ≡ (f * page_size, taken s.frames f)
      → Inv
          (refilled s i f)
          (put owner f (some i))
          (put free i (carved (per_frame i) 0 (f * page_size) (zone_chunk_size i) (free i)))
          live
  refilled-Inv f below away unused e =
      let none_yet : (j : ℕ) → owner f ≢ some j = λ j e. (let u = v.owned f j e in cc) in
      let z = s.zones i in
      let base = f * page_size in
      let size = zone_chunk_size i in
      let n = per_frame i in
      let pos = chunk_size_pos i hi in
      let start : base ≢ 0 = λ q. away (omega arith) in
      let bound : base + n * size ≤ 2 ^ 64 =
        omega (arith, chunks_fit i hi, v.frames_valid.addressable) in
      let r = carve n 0 base size s.next z.free_list in
      let new = carved n 0 base size (free i) in
      record {
        frames_valid =
            subst (λ q. Invariant.IsValid q.1) e
              (Invariant.alloc_frame-IsValid s.frames v.frames_valid);
        first = is_used-set s.frames.bitmap f 0 v.first;
        identity = v.identity;
        sizes =
            put_elim (λ j w. j < num_zones → w.chunk_size ≡ zone_chunk_size j) s.zones i
              (record z { free_list = r.1; alloc_count = u64 (z.alloc_count + 1) })
              (λ h. v.sizes i h) (λ j ne h. v.sizes j h);
        owned = λ g j e.
            (put_elim (λ k w. w ≡ some j → is_used (set s.frames.bitmap f true) k ≡ true) owner f
              (some i)
              (λ _.
                get_or-set_self s.frames.bitmap f true true (omega (arith, v.frames_valid.covered)))
              (λ k ne q. is_used-set s.frames.bitmap f k (v.owned k j q)) g e);
        chains =
            put_elim2 (λ j w l. j < num_zones → Chain r.0 w.free_list l) s.zones free i
              (record z { free_list = r.1; alloc_count = u64 (z.alloc_count + 1) }) new
              (λ h.
                carve-Chain base size n pos start bound n 0 s.next z.free_list (free i)
                  (omega arith) (AllInPlace-Fresh owner f i hi none_yet i (free i) h (v.placed i h))
                  (v.chains i h))
              (λ j ne h.
                carve_other base size n pos start bound n 0 s.next z.free_list (s.zones j).free_list
                  (free j) (omega arith)
                  (AllInPlace-Fresh owner f i hi none_yet j (free j) h (v.placed j h))
                  (v.chains j h));
        placed =
            put_elim (λ j l. j < num_zones → AllInPlace (put owner f (some i)) j l) free i new
              (λ h.
                AllInPlace-carved owner f i hi none_yet n 0 (free i) (omega arith) away
                  (AllInPlace-new owner f i none_yet i (free i) (v.placed i h)))
              (λ j ne h. AllInPlace-new owner f i none_yet j (free j) (v.placed j h));
        lives = AllLive-carved owner f i hi none_yet free live away bound v.lives;
      }

  refilled_some :
      (f : ℕ)
      → f < s.frames.total_frames
      → f ≢ 0
      → is_used s.frames.bitmap f ≡ false
      → alloc_frame s.frames ≡ (f * page_size, taken s.frames f)
      → ((refilled s i f).zones i).free_list ≢ 0
  refilled_some f below away unused e =
      let size = zone_chunk_size i in
      let new = carved (per_frame i) 0 (f * page_size) size (free i) in
      let t = refilled s i f in
      Chain-some t.next (t.zones i).free_list new
        (omega
          (arith, length-carved (per_frame i) 0 (f * page_size) size (free i), per_frame_pos i hi))
        (subst (Chain t.next (t.zones i).free_list) (put_same free i new)
          ((refilled-Inv f below away unused e).chains i hi))

  -- A refill leaves the allocations as they are.
  pub zone_refill-Inv :
      (owner' : Owner) × (free' : ℕ → List ℕ) × Inv (zone_refill s i) owner' free' live
      × (s.frames.used_frames < s.frames.total_frames → ((zone_refill s i).zones i).free_list ≢ 0)
  unfolding zone_refill
  zone_refill-Inv = elim (dec_lt s.frames.used_frames s.frames.total_frames) [
    | yes room ↦
        let (f, below, unused, e) = alloc_frame_succeeds s.frames v.frames_valid room in
        let away : f ≢ 0 = λ z.
          (let u = subst (λ g. is_used s.frames.bitmap g ≡ false) z unused in
            let w = v.first in cc) in
        (
          put owner f (some i),
          put free i (carved (per_frame i) 0 (f * page_size) (zone_chunk_size i) (free i)),
          subst
              (λ t.
                Inv t (put owner f (some i))
                  (put free i (carved (per_frame i) 0 (f * page_size) (zone_chunk_size i) (free i)))
                  live)
              (sym (zone_refill-eq f below away e)) (refilled-Inv f below away unused e),
          λ _.
              subst (λ t. (t.zones i).free_list ≢ 0) (sym (zone_refill-eq f below away e))
                (refilled_some f below away unused e),
        )
    | no full ↦
        let e = alloc_frame_exhausted s.frames (omega arith) in
        (
          owner,
          free,
          subst (λ t. Inv t owner free live)
              (sym
                (ap (λ q. refill_from s i q (s.zones i).chunk_size (u64 (q.0 + s.phys_offset))) e))
              v,
          λ room. absurd (full room),
        )
  ]
