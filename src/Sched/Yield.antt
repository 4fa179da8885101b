-- ===== src/Sched/Yield.antt =====
-- `sched_yield` switches to the next created task, round the table.
use native.Mathlib.Decide.{ℕ_discrete}
use native.Mathlib.Nat.{mod-one, mod_self, mod-eq_of_lt}
use aura_os.Base.{
  ℕ, zero, suc, ◌+◌, ◌-◌, ◌%◌, ◌≤◌, ◌<◌, ◌≡◌, refl, sym, ap, ◌∙◌, ◌≢◌, true, false, none, some,
  List, arith, ◌==◌, if◌then◌else◌, ==_refl, ==_false, u64, length, length-set,
}
use aura_os.Sched.{
  Task, is_ready, Sched, task_max, task_at, update, find_next, suspend, resume, count_tick,
  switch_states, yield_task,
}
use aura_os.Sched.Table.{IsValid, expected, update_self, update_other}

-- The task behind the current one.
abbrev pub following : Sched → ℕ
following s = if s.cur_task + 1 == s.task_count then 0 else s.cur_task + 1

-- A search passes over the tasks that are not ready.
find_next_skip :
    (tasks : List Task) (prev d left i : ℕ)
    → ((k : ℕ) → i ≤ k → k < i + d → is_ready (task_at tasks ((prev + k) % task_max)).state ≡ false)
    → find_next tasks prev (d + left) i ≡ find_next tasks prev left (i + d)
unfolding find_next
find_next_skip tasks prev zero left i busy =
    let a : 0 + left ≡ left = omega arith in let b : i + 0 ≡ i = omega arith in rw (a, b) refl
find_next_skip tasks prev (suc d) left i busy =
    let a : suc d + left ≡ suc (d + left) = omega arith in
    let b : i + suc d ≡ i + 1 + d = omega arith in
    rw (a, b, busy i (omega arith) (omega arith), find_next)
      (find_next_skip tasks prev d left (i + 1) (λ k lo hi. busy k (omega arith) (omega arith)))

find_next_here :
    (tasks : List Task) (prev left i : ℕ)
    → is_ready (task_at tasks ((prev + i) % task_max)).state ≡ true
    → find_next tasks prev (suc left) i ≡ some ((prev + i) % task_max)
unfolding find_next
find_next_here tasks prev left i h = rw (h, find_next) refl

is_ready-state :
    (s : Sched) (i : ℕ)
    → IsValid s
    → is_ready (task_at s.tasks (i % task_max)).state
      ≡ is_ready (expected s.cur_task s.task_count (i % task_max))
is_ready-state s i v = ap is_ready (v.states (i % task_max) (omega arith))

-- No other task was created: the search finds none.
find_next_alone :
    (s : Sched) → IsValid s → s.task_count ≡ 1 → find_next s.tasks s.cur_task task_max 1 ≡ none
unfolding find_next
find_next_alone s v one =
    find_next_skip s.tasks s.cur_task 8 0 1
      λ k lo hi. is_ready-state s (s.cur_task + k) v ∙ ground arith

-- With more than one task the search finds the following one.
find_next-following :
    (s : Sched)
    → IsValid s
    → 2 ≤ s.task_count
    → find_next s.tasks s.cur_task task_max 1 ≡ some (following s)
find_next-following s v more = elim (ℕ_discrete (s.cur_task + 1) s.task_count) [
  | no inside ↦
      find_next_here s.tasks s.cur_task 7 1 (is_ready-state s (s.cur_task + 1) v ∙ ground arith)
      ∙ ground arith
  | yes last ↦
      let d : ℕ = 8 - s.task_count in
      let rounds : task_max ≡ d + suc (s.task_count - 1) = omega arith in
      ap (λ n. find_next s.tasks s.cur_task n 1) rounds
      ∙ find_next_skip s.tasks s.cur_task d (suc (s.task_count - 1)) 1
          (λ k lo hi. is_ready-state s (s.cur_task + k) v ∙ ground arith)
      ∙ find_next_here s.tasks s.cur_task (s.task_count - 1) (1 + d)
          (is_ready-state s (s.cur_task + (1 + d)) v ∙ ground arith)
      ∙ ground arith
]

pub yield_task-alone : (s : Sched) → IsValid s → s.task_count ≡ 1 → yield_task s ≡ s
unfolding yield_task
yield_task-alone s v one = rw (find_next_alone s v one, yield_task) refl

pub yield_task-following :
    (s : Sched) → IsValid s → 2 ≤ s.task_count → yield_task s ≡ switch_states s (following s)
unfolding yield_task
yield_task-following s v more = rw (find_next-following s v more, yield_task) refl

module _ (s : Sched) (next : ℕ) (v : IsValid s) (below : next < s.task_count)
    (other : next ≢ s.cur_task) where
  suspended : List Task
  suspended = update s.tasks s.cur_task suspend

  resumed : List Task
  unfolding suspended
  resumed = update suspended next resume

  length-suspended : length suspended ≡ length s.tasks
  unfolding suspended
  length-suspended = length-set s.tasks s.cur_task _

  length-resumed : length resumed ≡ length s.tasks
  unfolding resumed
  length-resumed = length-set suspended next _ ∙ length-suspended

  tasks-switched : (switch_states s next).tasks ≡ update resumed s.cur_task count_tick
  unfolding switch_states resumed
  tasks-switched = refl

  -- Each entry after the three writes.
  at_cur :
      task_at (switch_states s next).tasks s.cur_task
      ≡ count_tick (suspend (task_at s.tasks s.cur_task))
  unfolding resumed
  at_cur =
      ap (λ ts. task_at ts s.cur_task) tasks-switched
      ∙ update_self resumed s.cur_task count_tick (omega (arith, length-resumed, v.size))
      ∙ ap count_tick (
          update_other suspended next resume s.cur_task (λ e. other (sym e))
          ∙ update_self s.tasks s.cur_task suspend (omega (arith, v.size)))

  at_next : task_at (switch_states s next).tasks next ≡ resume (task_at s.tasks next)
  unfolding resumed
  at_next =
      ap (λ ts. task_at ts next) tasks-switched
      ∙ update_other resumed s.cur_task count_tick next other
      ∙ update_self suspended next resume (omega (arith, length-suspended, v.size))
      ∙ ap resume (update_other s.tasks s.cur_task suspend next other)

  at_rest :
      (i : ℕ)
      → i ≢ s.cur_task
      → i ≢ next
      → task_at (switch_states s next).tasks i ≡ task_at s.tasks i
  unfolding resumed
  at_rest i h k =
      ap (λ ts. task_at ts i) tasks-switched
      ∙ update_other resumed s.cur_task count_tick i h
      ∙ update_other suspended next resume i k
      ∙ update_other s.tasks s.cur_task suspend i h

  -- The states and ids of the table after a switch.
  switched-at :
      (i : ℕ)
      → i < task_max
      → ((task_at (switch_states s next).tasks i).state ≡ expected next s.task_count i)
        × ((task_at (switch_states s next).tasks i).pid ≡ i)
  switched-at i h = elim (ℕ_discrete i s.cur_task) [
    | yes same ↦
        rw same (
          ground
            (arith, at_cur, v.states s.cur_task (omega arith), v.pids s.cur_task (omega arith)))
    | no differs ↦ elim (ℕ_discrete i next) [
      | yes same ↦ rw same (ground (arith, at_next, v.pids next (omega arith)))
      | no third ↦ ground (arith, at_rest i differs third, v.states i h, v.pids i h)
    ]
  ]

  pub switch_states-IsValid : IsValid (switch_states s next)
  switch_states-IsValid = record {
    size = rw tasks-switched (length-set resumed s.cur_task _ ∙ length-resumed ∙ v.size);
    created = unfold switch_states in below;
    fits = unfold switch_states in v.fits;
    states = λ i h. unfold switch_states in (switched-at i h).0;
    pids = λ i h. (switched-at i h).1;
  }

step_mod :
    (cur count : ℕ) → cur < count → (if cur + 1 == count then 0 else cur + 1) ≡ (cur + 1) % count
step_mod cur count h = elim (ℕ_discrete (cur + 1) count) [
  | yes e ↦ rw (e, ==_refl count) (sym (mod_self count))
  | no ne ↦ rw (==_false (cur + 1) count ne) (sym (mod-eq_of_lt (omega arith)))
]

-- On a valid table `sched_yield` keeps the invariant and the task count, and makes the next
-- created task, round the table, the current one. It counts a tick for the task that it leaves,
-- modulo 2 ^ 64, unless that is the only one.
pub yield_task_lem :
    (s : Sched)
    → IsValid s
    → IsValid (yield_task s)
      × ((yield_task s).task_count ≡ s.task_count)
      × ((yield_task s).cur_task ≡ (s.cur_task + 1) % s.task_count)
      × ((task_at (yield_task s).tasks s.cur_task).ticks ≡ (
          if s.task_count == 1
          then (task_at s.tasks s.cur_task).ticks
          else u64 ((task_at s.tasks s.cur_task).ticks + 1)))
yield_task_lem s v = elim (ℕ_discrete s.task_count 1) [
  | yes one ↦
      let alone : s.cur_task ≡ (s.cur_task + 1) % s.task_count =
        rw (one, mod-one (s.cur_task + 1)) (omega (arith, v.created)) in
      rw (yield_task-alone s v one) (v, refl, alone, rw one refl)
  | no more ↦
      let next = following s in
      let below : next < s.task_count = ground arith in
      let other : next ≢ s.cur_task = ground arith in
      rw (yield_task-following s v (omega arith)) (
        switch_states-IsValid s next v below other,
        unfold switch_states in refl,
        unfold switch_states in step_mod s.cur_task s.task_count v.created,
        ground (arith, at_cur s next v below other),
      )
]
