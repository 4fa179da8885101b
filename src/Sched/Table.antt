-- ===== src/Sched/Table.antt =====
-- The invariant of the task table.
use aura_os.Base.{
  ℕ, zero, suc, ◌+◌, ◌≤◌, ◌<◌, ◌≡◌, refl, sym, ap, ◌≢◌, List, [], ◌∷◌, arith, ltb, ◌==◌,
  if◌then◌else◌, length, get_or-set_self, get_or-set_ne,
}
use aura_os.Sched.{
  Task, TaskState, ready, running, blocked, blank, Sched, task_max, task_at, update, reset_tasks,
  init,
}

-- The current task runs, every other created task is ready, the rest of the table is blocked.
abbrev pub expected : ℕ → ℕ → ℕ → TaskState
expected cur count i = if i == cur then running else if ltb i count then ready else blocked

pub record IsValid (s : Sched) : Type 0 where
  pub size : length s.tasks ≡ task_max
  pub created : s.cur_task < s.task_count
  pub fits : s.task_count ≤ task_max
  pub states :
      (i : ℕ) → i < task_max → (task_at s.tasks i).state ≡ expected s.cur_task s.task_count i
  pub pids : (i : ℕ) → i < task_max → (task_at s.tasks i).pid ≡ i

length-reset_tasks : (i : ℕ) (ts : List Task) → length (reset_tasks i ts) ≡ length ts
unfolding reset_tasks
length-reset_tasks i [] = refl
length-reset_tasks i (t ∷ ts) = ap suc (length-reset_tasks (i + 1) ts)

reset_tasks-at :
    (i k : ℕ) (ts : List Task)
    → k < length ts
    → i + length ts ≤ task_max
    → ((task_at (reset_tasks i ts) k).state ≡ blocked)
      × ((task_at (reset_tasks i ts) k).pid ≡ i + k)
unfolding reset_tasks
reset_tasks-at i k [] h fits = absurd (omega arith)
reset_tasks-at i zero (t ∷ ts) h fits = (refl, omega arith)
reset_tasks-at i (suc k) (t ∷ ts) h fits =
    let ih = reset_tasks-at (i + 1) k ts (omega arith) (omega arith) in (ih.0, omega (arith, ih.1))

-- A write to one entry changes that one.
pub update_self :
    (ts : List Task) (j : ℕ) (f : Task → Task)
    → j < length ts
    → task_at (update ts j f) j ≡ f (task_at ts j)
update_self ts j f h = get_or-set_self ts j (f (task_at ts j)) blank h

pub update_other :
    (ts : List Task) (j : ℕ) (f : Task → Task) (i : ℕ)
    → i ≢ j
    → task_at (update ts j f) i ≡ task_at ts i
update_other ts j f i other = get_or-set_ne ts j i (f (task_at ts j)) blank (λ e. other (sym e))

-- `sched_init` leaves a valid table, whatever it held.
pub init-IsValid : (tasks : List Task) → length tasks ≡ task_max → IsValid (init tasks)
unfolding init reset_tasks
init-IsValid [] h = absurd (omega arith)
init-IsValid (t ∷ ts) h = record {
  size = omega (arith, length-reset_tasks 1 ts);
  created = omega arith;
  fits = omega arith;
  states = elim [
    | zero ↦ λ k. refl
    | suc i ↦ λ k. ground (arith, reset_tasks-at 1 i ts (omega arith) (omega arith))
  ];
  pids = elim [
    | zero ↦ λ k. refl
    | suc i ↦ λ k. omega (arith, (reset_tasks-at 1 i ts (omega arith) (omega arith)).1)
  ];
}
