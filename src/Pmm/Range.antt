-- ===== src/Pmm/Range.antt =====
-- The search of `pmm_alloc_contiguous` finds the first run of free frames that is long enough, and
-- misses none.
use native.Mathlib.Decide.{ℕ_discrete, dec_lt}
use aura_os.Base.{
  ℕ, zero, suc, ◌+◌, ◌≤◌, ◌<◌, ◌≡◌, refl, ◌∙◌, sym, ◌≢◌, inl, inr, Bool, true, false, Option, some,
  none, List, arith, ◌==◌, Bool-cases, if◌then◌else◌, ==_iff,
}
use aura_os.Pmm.{is_used, find_range}

-- The frames of a range are free.
abbrev pub AreFree : List Bool → ℕ → ℕ → Type 0
AreFree bitmap from n = (i : ℕ) → from ≤ i → i < from + n → is_used bitmap i ≡ false

module _ (bitmap : List Bool) (n : ℕ) where
  -- What the loop knows at bit `i`: the `count` bits before it are free, and start at `start`.
  pub record IsRun (i count start : ℕ) : Type 0 where
    pub short : count < n
    pub ends : count ≢ 0 → start + count ≡ i
    pub free : (j : ℕ) → i ≤ j + count → j < i → is_used bitmap j ≡ false

  IsRun-restart : (i count start : ℕ) → IsRun i count start → IsRun (i + 1) 0 start
  IsRun-restart i count start r = record {
    short = omega arith;
    ends = λ h. absurd (h refl);
    free = λ j lo hi. absurd (omega arith);
  }

  -- Where a run starts that a free bit `i` extends.
  abbrev run_start : ℕ → ℕ → ℕ → ℕ
  run_start i count start = if count == 0 then i else start

  run_start-eq : (i count start : ℕ) → IsRun i count start → run_start i count start + count ≡ i
  run_start-eq i count start r = ground (arith, r.ends)

  extended :
      (i count start : ℕ)
      → IsRun i count start
      → is_used bitmap i ≡ false
      → (j : ℕ) → i ≤ j + count
      → j < i + 1
      → is_used bitmap j ≡ false
  extended i count start r f j lo hi = elim (ℕ_discrete i j) [
    | yes same ↦ rw (← same) f
    | no other ↦ r.free j lo (omega arith)
  ]

  IsRun-extend :
      (i count start : ℕ)
      → IsRun i count start
      → is_used bitmap i ≡ false
      → count + 1 ≢ n
      → IsRun (i + 1) (count + 1) (run_start i count start)
  IsRun-extend i count start r f more = record {
    short = omega (arith, r.short);
    ends = λ h. omega (arith, run_start-eq i count start r);
    free = λ j lo hi. extended i count start r f j (omega arith) (omega arith);
  }

  -- A range that is found lies before the end and is free.
  abbrev pub FoundRange : ℕ → Option ℕ → Type 0
  FoundRange end none = Unit
  FoundRange end (some start) = (start + n ≤ end) × AreFree bitmap start n

  pub find_range-FoundRange :
      (left i count start end : ℕ)
      → IsRun i count start
      → i + left ≡ end
      → FoundRange end (find_range bitmap n left i count start)
  unfolding find_range
  find_range-FoundRange zero i count start end r e = tt
  find_range-FoundRange (suc left) i count start end r e = elim (Bool-cases (is_used bitmap i)) [
    | inl t ↦
        rw (t, find_range)
          (find_range-FoundRange left (i + 1) 0 start end (IsRun-restart i count start r)
            (omega arith))
    | inr f ↦ elim (Bool-cases (count + 1 == n)) [
      | inl t ↦
          rw (f, find_range)
            (rw (t, find_range)
              (
                omega (arith, run_start-eq i count start r, (==_iff (count + 1) n).0 t),
                λ j lo hi.
                    extended i count start r f j (omega (arith, run_start-eq i count start r))
                      (omega (arith, run_start-eq i count start r, (==_iff (count + 1) n).0 t)),
              ))
      | inr g ↦
          rw (f, find_range)
            (rw (g, find_range)
              (find_range-FoundRange left (i + 1) (count + 1) (run_start i count start) end
                (IsRun-extend i count start r f (ground arith)) (omega arith)))
    ]
  ]

  -- If none is found, no range that begins in the run or later, and ends before the end, is free.
  pub find_range-none :
      (left i count start a : ℕ)
      → IsRun i count start
      → find_range bitmap n left i count start ≡ none
      → i ≤ a + count
      → a + n ≤ i + left
      → ¬ (AreFree bitmap a n)
  unfolding find_range
  find_range-none zero i count start a r e lo hi free = omega (arith, r.short)
  find_range-none (suc left) i count start a r e lo hi free = elim (Bool-cases (is_used bitmap i)) [
    | inl t ↦ elim (dec_lt i a) [
      | yes later ↦
          find_range-none left (i + 1) 0 start a (IsRun-restart i count start r)
            (rw (t, find_range) at e) (omega arith) (omega arith) free
      | no within ↦ used_is_free (sym t ∙ free i (omega arith) (omega (arith, r.short)))
    ]
    | inr f ↦ elim (Bool-cases (count + 1 == n)) [
      | inl t ↦ some_is_none (rw (t, find_range) at (rw (f, find_range) at e))
      | inr g ↦
          find_range-none left (i + 1) (count + 1) (run_start i count start) a
            (IsRun-extend i count start r f (ground arith))
            (rw (g, find_range) at (rw (f, find_range) at e)) (omega arith) (omega arith) free
    ]
  ]
    where
      used_is_free : ¬ (true ≡ false)
      used_is_free p = cc

      some_is_none : {x : ℕ} → ¬ (some x ≡ none)
      some_is_none p = cc
