-- ===== src/Pmm/Contiguous.antt =====
-- `pmm_alloc_contiguous`: what it takes, and that it fails only when there is no such range.
use native.Mathlib.Decide.{ℕ_discrete}
use aura_os.Base.{
  ℕ, zero, suc, ◌+◌, ◌*◌, ◌≤◌, ◌<◌, ◌≡◌, refl, ◌∙◌, ap, ◌≢◌, ◌⊎◌, inl, inr, Bool, true, some, none,
  List, arith, ◌==◌, u64, length, set, length-set, get_or-set_self, get_or-set_ne, Option-cases,
  ==_false, subst, if_elim,
}
use aura_os.Pmm.{Pmm, page_size, is_used, find_range, mark_range, alloc_contiguous}
use aura_os.Pmm.Count.{count_used, count_used-le, count_used-set}
use aura_os.Pmm.Range.{AreFree, IsRun, FoundRange, find_range-FoundRange, find_range-none}
use aura_os.Pmm.Invariant.{IsValid}

length-mark_range :
    (left j : ℕ) (bitmap : List Bool) → length (mark_range left j bitmap) ≡ length bitmap
unfolding mark_range
length-mark_range zero j bitmap = refl
length-mark_range (suc left) j bitmap =
    length-mark_range left (j + 1) (set bitmap j true) ∙ length-set bitmap j true

mark_range-outside :
    (left j k : ℕ) (bitmap : List Bool)
    → (k < j) ⊎ (j + left ≤ k)
    → is_used (mark_range left j bitmap) k ≡ is_used bitmap k
unfolding mark_range
mark_range-outside zero j k bitmap h = refl
mark_range-outside (suc left) j k bitmap h =
    mark_range-outside left (j + 1) k (set bitmap j true) (omega arith)
    ∙ get_or-set_ne bitmap j k true true (omega arith)

mark_range-inside :
    (left j k : ℕ) (bitmap : List Bool)
    → j ≤ k
    → k < j + left
    → j + left ≤ length bitmap
    → is_used (mark_range left j bitmap) k ≡ true
unfolding mark_range
mark_range-inside zero j k bitmap lo hi h = absurd (omega arith)
mark_range-inside (suc left) j k bitmap lo hi h = elim (ℕ_discrete j k) [
  | yes same ↦
      mark_range-outside left (j + 1) k (set bitmap j true) (inl (omega arith))
      ∙ rw same (get_or-set_self bitmap k true true (omega arith))
  | no other ↦
      mark_range-inside left (j + 1) k (set bitmap j true) (omega arith) (omega arith)
        (omega (arith, length-set bitmap j true))
]

count_used-mark_range :
    (n left j : ℕ) (bitmap : List Bool)
    → AreFree bitmap j left
    → j + left ≤ n
    → n ≤ length bitmap
    → count_used n (mark_range left j bitmap) ≡ count_used n bitmap + left
unfolding mark_range
count_used-mark_range n zero j bitmap free h k = omega arith
count_used-mark_range n (suc left) j bitmap free h k =
    let one_more : count_used n (set bitmap j true) ≡ count_used n bitmap + 1 = ground (
      arith,
      count_used-set n j bitmap true (omega arith) (omega arith),
      free j (omega arith) (omega arith),
    ) in
    omega (
      arith,
      one_more,
      count_used-mark_range n left (j + 1) (set bitmap j true)
          (λ i lo hi.
            get_or-set_ne bitmap j i true true (omega arith) ∙ free i (omega arith) (omega arith))
          (omega arith) (omega (arith, length-set bitmap j true)),
    )

-- Between two states `n` frames from `start` on have gone into use, and nothing else has changed.
pub record HasTaken (s : Pmm) (start n : ℕ) (s' : Pmm) : Type 0 where
  pub within : start + n ≤ s.total_frames
  pub were_free : AreFree s.bitmap start n
  pub now_used : (i : ℕ) → start ≤ i → i < start + n → is_used s'.bitmap i ≡ true
  pub others : (i : ℕ) → (i < start) ⊎ (start + n ≤ i) → is_used s'.bitmap i ≡ is_used s.bitmap i
  pub same_total : s'.total_frames ≡ s.total_frames
  pub same_hint : s'.alloc_hint ≡ s.alloc_hint
  pub counted : s'.used_frames ≡ s.used_frames + n

-- A valid state, and a range that the search can return.
module _ (s : Pmm) (start n : ℕ) (v : IsValid s) (within : start + n ≤ s.total_frames)
    (free : AreFree s.bitmap start n) where
  abbrev range_taken : Pmm
  range_taken = record s {
    bitmap = mark_range n start s.bitmap;
    used_frames = u64 (s.used_frames + n);
  }

  counts : s.used_frames + n ≤ s.total_frames
  counts = omega (
    arith,
    count_used-mark_range s.total_frames n start s.bitmap free within v.covered,
    count_used-le s.total_frames (mark_range n start s.bitmap),
  )

  range_taken-HasTaken : HasTaken s start n range_taken
  range_taken-HasTaken = record {
    within = within;
    were_free = free;
    now_used = λ i lo hi. mark_range-inside n start i s.bitmap lo hi (omega arith);
    others = λ i h. mark_range-outside n start i s.bitmap h;
    same_total = refl;
    same_hint = refl;
    counted = omega (arith, counts);
  }

  range_taken-IsValid : IsValid range_taken
  range_taken-IsValid = record {
    covered = omega (arith, length-mark_range n start s.bitmap);
    addressable = omega arith;
    counted = omega (
      arith,
      counts,
      count_used-mark_range s.total_frames n start s.bitmap free within v.covered,
    );
    hinted = v.hinted;
  }

alloc_contiguous-none :
    (s : Pmm) (n : ℕ)
    → find_range s.bitmap n s.total_frames 0 0 0 ≡ none
    → alloc_contiguous s n ≡ (0, s)
unfolding alloc_contiguous
alloc_contiguous-none s n e =
    if_elim (λ r. r ≡ (0, s)) (n == 0) (λ _. refl) (λ _. rw (e, alloc_contiguous) refl)

alloc_contiguous-some :
    (s : Pmm) (start n : ℕ) (v : IsValid s) (within : start + n ≤ s.total_frames)
    (free : AreFree s.bitmap start n)
    → n ≢ 0
    → find_range s.bitmap n s.total_frames 0 0 0 ≡ some start
    → alloc_contiguous s n ≡ (start * page_size, range_taken s start n v within free)
unfolding alloc_contiguous
alloc_contiguous-some s start n v within free pos e =
    let whole : u64 (start * page_size) ≡ start * page_size = omega arith in
    rw ((==_false n 0 pos), alloc_contiguous)
      (rw (e, alloc_contiguous) (ap (λ a. (a, range_taken s start n v within free)) whole))

pub alloc_contiguous-zero : (s : Pmm) (n : ℕ) → n ≡ 0 → alloc_contiguous s n ≡ (0, s)
unfolding alloc_contiguous
alloc_contiguous-zero s n z = rw z refl

-- The search starts with an empty run.
IsRun-start : (s : Pmm) (n : ℕ) → n ≢ 0 → IsRun s.bitmap n 0 0 0
IsRun-start s n pos = record {
  short = omega arith;
  ends = λ h. absurd (h refl);
  free = λ j lo hi. absurd (omega arith);
}

found :
    (s : Pmm) (n start : ℕ)
    → n ≢ 0
    → find_range s.bitmap n s.total_frames 0 0 0 ≡ some start
    → (start + n ≤ s.total_frames) × AreFree s.bitmap start n
found s n start pos e = subst (FoundRange s.bitmap n s.total_frames) e (
    find_range-FoundRange s.bitmap n s.total_frames 0 0 0 s.total_frames (IsRun-start s n pos)
      (omega arith))

-- On a valid state and for a positive count, `pmm_alloc_contiguous` either takes a range of so many
-- free frames below the limit, returns the address of its first frame and changes nothing else, or
-- returns 0, changes nothing, and there is no such range.
pub alloc_contiguous_lem :
    (s : Pmm) (n : ℕ)
    → IsValid s
    → n ≢ 0
    → ((start : ℕ) × ((alloc_contiguous s n).0 ≡ start * page_size)
        × HasTaken s start n (alloc_contiguous s n).1)
      ⊎ ((alloc_contiguous s n ≡ (0, s))
          × ((a : ℕ) → a + n ≤ s.total_frames → ¬ (AreFree s.bitmap a n)))
alloc_contiguous_lem s n v pos = elim (Option-cases (find_range s.bitmap n s.total_frames 0 0 0)) [
  | inl e ↦ inr (
    alloc_contiguous-none s n e,
    λ a h.
        find_range-none s.bitmap n s.total_frames 0 0 0 a (IsRun-start s n pos) e (omega arith)
          (omega arith),
  )
  | inr (start, e) ↦
      let (within, free) = found s n start pos e in
      let done = alloc_contiguous-some s start n v within free pos e in
      inl (start, ap (λ r. r.0) done, rw done (range_taken-HasTaken s start n v within free))
]

pub alloc_contiguous-IsValid : (s : Pmm) (n : ℕ) → IsValid s → IsValid (alloc_contiguous s n).1
alloc_contiguous-IsValid s n v = elim (Option-cases (find_range s.bitmap n s.total_frames 0 0 0)) [
  | inl e ↦ rw (alloc_contiguous-none s n e) v
  | inr (start, e) ↦ elim (ℕ_discrete n 0) [
    | yes z ↦ rw (alloc_contiguous-zero s n z) v
    | no pos ↦
        let (within, free) = found s n start pos e in
        rw (alloc_contiguous-some s start n v within free pos e)
          (range_taken-IsValid s start n v within free)
  ]
]
