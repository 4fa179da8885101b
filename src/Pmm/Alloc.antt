-- ===== src/Pmm/Alloc.antt =====
-- `pmm_alloc_frame`: what it returns and changes, and that it fails only when no frame is free.
use native.Mathlib.Decide.{dec_lt}
use aura_os.Base.{
  ℕ, zero, suc, ◌+◌, ◌*◌, ◌/◌, ◌≤◌, ◌<◌, ◌≡◌, refl, ◌∙◌, sym, ap, subst, length, ◌≢◌, inl, inr,
  true, false, none, arith, set, get_or-set_self, set-set, set_same, Option-cases, le→leb, lt→leb,
}
use aura_os.Pmm.{Pmm, page_size, is_used, mark_free, find_free, take_frame, alloc_frame, free_frame}
use aura_os.Pmm.Count.{count_used_all}
use aura_os.Pmm.Scan.{find_free-some, find_free-none}
use aura_os.Pmm.Invariant.{IsValid, used-le-total}

-- The bitmap with one frame more in use, and the hint behind it.
abbrev pub taken : Pmm → ℕ → Pmm
taken s frame = record s {
  bitmap = set s.bitmap frame true;
  used_frames = s.used_frames + 1;
  alloc_hint = frame + 1;
}

find_free-ne-none : (s : Pmm) → IsValid s → s.used_frames < s.total_frames → find_free s ≢ none
find_free-ne-none s v h e =
    omega (arith, count_used_all s.total_frames s.bitmap v.covered (λ i k. find_free-none s i e k))

take_frame-eq :
    (s : Pmm) (frame : ℕ)
    → IsValid s
    → frame < s.total_frames
    → s.used_frames < s.total_frames
    → take_frame s frame ≡ (frame * page_size, taken s frame)
take_frame-eq s frame v h k = ground arith

-- On a valid state with a free frame, `pmm_alloc_frame` finds a frame below the limit that was free,
-- returns its address without wrapping, marks it, counts it and moves the hint behind it, and changes
-- nothing else.
pub alloc_frame_succeeds :
    (s : Pmm)
    → IsValid s
    → s.used_frames < s.total_frames
    → (frame : ℕ) × (frame < s.total_frames)
      × (is_used s.bitmap frame ≡ false)
      × (alloc_frame s ≡ (frame * page_size, taken s frame))
unfolding alloc_frame
alloc_frame_succeeds s v h = elim (Option-cases (find_free s)) [
  | inl e ↦ absurd (find_free-ne-none s v h e)
  | inr (frame, e) ↦
      let (below, free) = find_free-some s e in
      (
        frame,
        below,
        free,
        rw (lt→leb s.total_frames s.used_frames h)
            (rw (e, alloc_frame) (take_frame-eq s frame v below h)),
      )
]

-- With every frame in use it returns 0 and changes nothing.
pub alloc_frame_exhausted : (s : Pmm) → s.total_frames ≤ s.used_frames → alloc_frame s ≡ (0, s)
unfolding alloc_frame
alloc_frame_exhausted s h = rw (le→leb s.total_frames s.used_frames h) refl

not_first :
    (s : Pmm) (frame : ℕ)
    → is_used s.bitmap 0 ≡ true
    → is_used s.bitmap frame ≡ false
    → frame * page_size ≢ 0
not_first s zero first free e = cc
not_first s (suc frame) first free e = omega arith

-- A return of 0 means that memory is exhausted, provided frame 0 is in use (as `kernel_main` sees to).
pub alloc_frame_zero :
    (s : Pmm)
    → IsValid s
    → is_used s.bitmap 0 ≡ true
    → (alloc_frame s).0 ≡ 0
    → (s.used_frames ≡ s.total_frames) × ((alloc_frame s).1 ≡ s)
alloc_frame_zero s v first z = elim (dec_lt s.used_frames s.total_frames) [
  | yes h ↦
      let (frame, below, free, e) = alloc_frame_succeeds s v h in
      absurd (not_first s frame first free (sym (ap (λ r. r.0) e) ∙ z))
  | no h ↦ (omega (arith, used-le-total s v), ap (λ r. r.1) (alloc_frame_exhausted s (omega arith)))
]

freed :
    (s : Pmm) (frame : ℕ)
    → IsValid s
    → frame < s.total_frames
    → is_used s.bitmap frame ≡ false
    → s.used_frames < s.total_frames
    → free_frame (taken s frame) (frame * page_size) ≡ record s { alloc_hint = frame }
unfolding free_frame mark_free
freed s frame v below free h =
    let page : frame * page_size / page_size ≡ frame = omega arith in
    let inside : frame < length s.bitmap = omega arith in
    let same : set s.bitmap frame false ≡ s.bitmap =
      subst (λ b. set s.bitmap frame b ≡ s.bitmap) free (set_same s.bitmap frame true inside) in
    rw page (
      ground (
        arith,
        get_or-set_self s.bitmap frame true true inside,
        set-set s.bitmap frame true false,
        same,
      ))

-- Freeing the frame just allocated restores the bitmap and the counter, and sets the hint to it.
pub free_frame-alloc_frame :
    (s : Pmm)
    → IsValid s
    → s.used_frames < s.total_frames
    → (frame : ℕ) × ((alloc_frame s).0 ≡ frame * page_size)
      × (free_frame (alloc_frame s).1 (alloc_frame s).0 ≡ record s { alloc_hint = frame })
unfolding free_frame mark_free
free_frame-alloc_frame s v h =
    let (frame, below, free, e) = alloc_frame_succeeds s v h in
    (frame, ap (λ r. r.0) e, rw e (freed s frame v below free h))
