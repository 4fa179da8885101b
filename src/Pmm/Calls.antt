-- ===== src/Pmm/Calls.antt =====
-- Sequences of calls to the frame allocator: what holds after any of them.
use native.Mathlib.Decide.{dec_lt, ℕ_discrete}
use aura_os.Base.{
  ℕ, zero, suc, ◌+◌, ◌*◌, ◌/◌, ◌^◌, ◌<◌, ◌≤◌, ◌⊎◌, ◌≡◌, refl, ◌∙◌, sym, ap, ◌≢◌, inl, inr, Bool,
  true, false, List, [], ◌∷◌, arith, set, get_or-set_ne, Option-cases,
}
use aura_os.Pmm.{
  Pmm, page_size, is_used, init, mark_used, mark_free, find_free, alloc_frame, free_frame,
  find_range, mark_range, alloc_contiguous, get_free_memory, get_used_memory, get_total_memory,
}
use aura_os.Pmm.Invariant.{
  IsValid, used-le-total, init-IsValid, mark_used-IsValid, mark_free-IsValid, alloc_frame-IsValid,
}
use aura_os.Pmm.Alloc.{alloc_frame_succeeds, alloc_frame_exhausted}
use aura_os.Pmm.Contiguous.{alloc_contiguous-IsValid, alloc_contiguous-zero, alloc_contiguous_lem}

pub data Call : Type 0 where
  reserve : ℕ → Call
  release : ℕ → Call
  allocate : Call
  allocate_range : ℕ → Call

unfoldable pub step : Pmm → Call → Pmm
step s (reserve paddr) = mark_used s paddr
step s (release paddr) = free_frame s paddr
step s allocate = (alloc_frame s).1
step s (allocate_range n) = (alloc_contiguous s n).1

unfoldable pub run : Pmm → List Call → Pmm
unfolding step
run s [] = s
run s (c ∷ cs) = run (step s c) cs

pub step-IsValid : (s : Pmm) (c : Call) → IsValid s → IsValid (step s c)
unfolding step free_frame
step-IsValid s (reserve paddr) v = mark_used-IsValid s paddr v
step-IsValid s (release paddr) v = mark_free-IsValid s paddr v
step-IsValid s allocate v = alloc_frame-IsValid s v
step-IsValid s (allocate_range n) v = alloc_contiguous-IsValid s n v

pub run-IsValid : (s : Pmm) (cs : List Call) → IsValid s → IsValid (run s cs)
unfolding run
run-IsValid s [] v = v
run-IsValid s (c ∷ cs) v = run-IsValid (step s c) cs (step-IsValid s c v)

total-step : (s : Pmm) (c : Call) → (step s c).total_frames ≡ s.total_frames
unfolding step mark_used free_frame mark_free alloc_frame alloc_contiguous
total-step s (reserve paddr) = ground arith
total-step s (release paddr) = ground arith
total-step s allocate = ground arith
total-step s (allocate_range n) = ground arith

total-run : (s : Pmm) (cs : List Call) → (run s cs).total_frames ≡ s.total_frames
unfolding run
total-run s [] = refl
total-run s (c ∷ cs) = total-run (step s c) cs ∙ total-step s c

-- After `pmm_init` and any calls the invariant holds, and the free and the used memory make up the
-- total, which is the memory size rounded down to whole frames.
pub run-init_accounts :
    (mem_size : ℕ) (cs : List Call)
    → mem_size < 2 ^ 64
    → IsValid (run (init mem_size) cs)
      × (get_used_memory (run (init mem_size) cs) + get_free_memory (run (init mem_size) cs)
          ≡ get_total_memory (run (init mem_size) cs))
      × (get_total_memory (run (init mem_size) cs) ≡ mem_size / page_size * page_size)
unfolding get_used_memory get_free_memory get_total_memory init
run-init_accounts mem_size cs h =
    let s = run (init mem_size) cs in
    let v : IsValid s = run-IsValid (init mem_size) cs (init-IsValid mem_size h) in
    (v, omega (arith, used-le-total s v), ap (λ n. n * page_size) (total-run (init mem_size) cs))

-- The call does not free the frame.
abbrev pub Keeps : ℕ → Call → Type 0
Keeps frame (reserve paddr) = Unit
Keeps frame (release paddr) = paddr / page_size ≢ frame
Keeps frame allocate = Unit
Keeps frame (allocate_range n) = Unit

abbrev pub AllKeep : ℕ → List Call → Type 0
AllKeep frame [] = Unit
AllKeep frame (c ∷ cs) = Keeps frame c × AllKeep frame cs

-- A write of true keeps the bits that are true.
pub is_used-set :
    (bitmap : List Bool) (i j : ℕ) → is_used bitmap j ≡ true → is_used (set bitmap i true) j ≡ true
is_used-set [] i j h = h
is_used-set (b ∷ bs) zero zero h = refl
is_used-set (b ∷ bs) zero (suc j) h = h
is_used-set (b ∷ bs) (suc i) zero h = h
is_used-set (b ∷ bs) (suc i) (suc j) h = is_used-set bs i j h

is_used-mark_range :
    (left i j : ℕ) (bitmap : List Bool)
    → is_used bitmap j ≡ true
    → is_used (mark_range left i bitmap) j ≡ true
unfolding mark_range
is_used-mark_range zero i j bitmap h = h
is_used-mark_range (suc left) i j bitmap h =
    is_used-mark_range left (i + 1) j (set bitmap i true) (is_used-set bitmap i j h)

step-is_used :
    (s : Pmm) (frame : ℕ) (c : Call)
    → Keeps frame c
    → is_used s.bitmap frame ≡ true
    → is_used (step s c).bitmap frame ≡ true
unfolding step mark_used free_frame mark_free alloc_frame alloc_contiguous
step-is_used s frame (reserve paddr) k h =
    ground (arith, is_used-set s.bitmap (paddr / page_size) frame h)
step-is_used s frame (release paddr) k h =
    ground (arith, get_or-set_ne s.bitmap (paddr / page_size) frame false true k)
step-is_used s frame allocate k h = elim (Option-cases (find_free s)) [
  | inl e ↦ ground arith
  | inr (free, e) ↦ ground (arith, is_used-set s.bitmap free frame h)
]
step-is_used s frame (allocate_range n) k h =
    elim (Option-cases (find_range s.bitmap n s.total_frames 0 0 0)) [
      | inl e ↦ ground arith
      | inr (start, e) ↦ ground (arith, is_used-mark_range n start frame s.bitmap h)
    ]

run-is_used :
    (s : Pmm) (frame : ℕ) (cs : List Call)
    → AllKeep frame cs
    → is_used s.bitmap frame ≡ true
    → is_used (run s cs).bitmap frame ≡ true
unfolding run
run-is_used s frame [] k h = h
run-is_used s frame (c ∷ cs) k h =
    run-is_used (step s c) frame cs k.1 (step-is_used s frame c k.0 h)

-- A frame in use that no call frees is never handed out: after any such calls `pmm_alloc_frame` does
-- not return its address, unless that is the 0 of a failure.
pub alloc_frame-run :
    (s : Pmm) (frame : ℕ) (cs : List Call)
    → IsValid s
    → is_used s.bitmap frame ≡ true
    → AllKeep frame cs
    → (alloc_frame (run s cs)).0 ≡ frame * page_size
    → frame ≡ 0
alloc_frame-run s frame cs v h k same =
    let s' = run s cs in
    let v' : IsValid s' = run-IsValid s cs v in
    elim (dec_lt s'.used_frames s'.total_frames) [
      | yes room ↦
          let (other, below, free, e) = alloc_frame_succeeds s' v' room in
          let equal : other ≡ frame = omega (arith, sym (ap (λ r. r.0) e) ∙ same) in
          absurd (cc (run-is_used s frame cs k h, free, equal))
      | no full ↦ omega (arith, sym same ∙ ap (λ r. r.0) (alloc_frame_exhausted s' (omega arith)))
    ]

-- Nor is it in a range that `pmm_alloc_contiguous` returns then.
pub alloc_contiguous-run :
    (s : Pmm) (frame n : ℕ) (cs : List Call)
    → IsValid s
    → is_used s.bitmap frame ≡ true
    → AllKeep frame cs
    → ((alloc_contiguous (run s cs) n).0 ≡ 0)
      ⊎ ((frame * page_size + page_size ≤ (alloc_contiguous (run s cs) n).0)
          ⊎ ((alloc_contiguous (run s cs) n).0 + n * page_size ≤ frame * page_size))
alloc_contiguous-run s frame n cs v h k =
    let s' = run s cs in
    let v' : IsValid s' = run-IsValid s cs v in
    elim (ℕ_discrete n 0) [
      | yes z ↦ inl (ap (λ r. r.0) (alloc_contiguous-zero s' n z))
      | no some ↦ elim (alloc_contiguous_lem s' n v' some) [
        | inr (e, _) ↦ inl (ap (λ r. r.0) e)
        | inl (start, at, taken) ↦ elim (dec_lt frame start) [
          | yes below ↦ inr (inl (omega (arith, at)))
          | no above ↦ elim (dec_lt frame (start + n)) [
            | yes inside ↦
                let free = taken.were_free frame (omega arith) inside in
                absurd (cc (run-is_used s frame cs k h, free))
            | no beyond ↦ inr (inr (omega (arith, at)))
          ]
        ]
      ]
    ]
