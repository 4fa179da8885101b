-- ===== src/Sched/Fairness.antt =====
-- Round robin: in a row of yields every created task has its turn.
use native.Mathlib.Decide.{dec_lt}
use native.Mathlib.Nat.{mod-add-mod, mod-eq_of_lt, add-mod_right}
use aura_os.Base.{ℕ, zero, suc, ◌+◌, ◌-◌, ◌%◌, ◌<◌, ◌≡◌, refl, sym, ap, ◌∙◌, arith}
use aura_os.Sched.{Sched, yield_task}
use aura_os.Sched.Table.{IsValid}
use aura_os.Sched.Yield.{yield_task_lem}

-- The table after `n` yields, one by each task whose turn it is.
pub yields : ℕ → Sched → Sched
yields zero s = s
yields (suc n) s = yield_task (yields n s)

yields_lem :
    (n : ℕ) (s : Sched)
    → IsValid s
    → IsValid (yields n s)
      × ((yields n s).task_count ≡ s.task_count)
      × ((yields n s).cur_task ≡ (s.cur_task + n) % s.task_count)
unfolding yields
yields_lem zero s v =
    let turn : s.cur_task ≡ (s.cur_task + 0) % s.task_count =
      sym (mod-eq_of_lt (omega (arith, v.created))) ∙ ap (λ k. k % s.task_count) (omega arith) in
    (v, refl, turn)
yields_lem (suc n) s v =
    let (v', same, turn) = yields_lem n s v in
    let (v'', same', turn', ticks) = yield_task_lem (yields n s) v' in
    (
      v'',
      same' ∙ same,
      turn'
          ∙ rw (same, turn, mod-add-mod (s.cur_task + n) s.task_count 1)
              (ap (λ k. k % s.task_count) (omega arith)),
    )

-- Between two turns of a task every created task has one: whichever task is created, at most one
-- yield fewer than there are tasks makes it the current one.
pub yields-reach :
    (s : Sched) (i : ℕ)
    → IsValid s
    → i < s.task_count
    → (n : ℕ) × (n < s.task_count) × ((yields n s).cur_task ≡ i)
yields-reach s i v h = elim (dec_lt i s.cur_task) [
  | no later ↦ (
    i - s.cur_task,
    omega (arith, v.created),
    (yields_lem (i - s.cur_task) s v).2 ∙ ap (λ k. k % s.task_count) (omega arith) ∙ mod-eq_of_lt h,
  )
  | yes before ↦
      let n : ℕ = i + s.task_count - s.cur_task in
      (
        n,
        omega (arith, v.created),
        (yields_lem n s v).2
            ∙ ap (λ k. k % s.task_count) (omega arith)
            ∙ add-mod_right i s.task_count
            ∙ mod-eq_of_lt h,
      )
]
