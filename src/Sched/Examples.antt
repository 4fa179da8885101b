-- ===== src/Sched/Examples.antt =====
-- Runs of the scheduler, and its theorems at concrete tables.
use aura_os.Base.{
  ℕ, ◌+◌, ◌*◌, ◌%◌, ◌<◌, ◌≡◌, refl, ◌≢◌, some, List, [], ◌∷◌, arith, ◌==◌, if◌then◌else◌, u64,
  replicate,
}
use aura_os.Sched.{Sched, blank, task_at, init, create_task, yield_task, current}
use aura_os.Sched.Table.{IsValid, init-IsValid}
use aura_os.Sched.Yield.{yield_task_lem}
use aura_os.Sched.Fairness.{yields, yields-reach}
use aura_os.Sched.Create.{HasFirstFrame, create_task_lem}

abbrev booted : Sched
booted = init (replicate 8 blank)

booted-IsValid : IsValid booted
booted-IsValid = init-IsValid (replicate 8 blank) refl

-- The stacks lie one behind another, as the array of tasks puts them.
abbrev stack_base : ℕ → ℕ
stack_base i = 0x200000 + i * 4176

abbrev worker_name : List ℕ
worker_name = b'w' ∷ []

abbrev with_worker : Sched
with_worker = (create_task stack_base 0x1000 booted (some worker_name) 0x2000).1

worker_created : (create_task stack_base 0x1000 booted (some worker_name) 0x2000).0 ≡ some 1
unfolding create_task init
worker_created = refl

boot_task_name : (current booted).name ≡ b'i' ∷ b'd' ∷ b'l' ∷ b'e' ∷ replicate 28 0
unfolding current init
boot_task_name = refl

create_task_lem_example :
    let (result, s') = create_task stack_base 0x1000 booted (some worker_name) 0x2000 in
    (result ≡ some booted.task_count)
    × IsValid s'
    × (s'.task_count ≡ booted.task_count + 1)
    × (s'.cur_task ≡ booted.cur_task)
    × HasFirstFrame
        (stack_base booted.task_count)
        0x2000
        0x1000
        (task_at s'.tasks booted.task_count)
    × ((i : ℕ) → i ≢ booted.task_count → task_at s'.tasks i ≡ task_at booted.tasks i)
unfolding init
create_task_lem_example =
    create_task_lem stack_base 0x1000 booted worker_name 0x2000 booted-IsValid (omega arith)
      (λ e. omega arith) refl (omega arith) refl

with_worker-IsValid : IsValid with_worker
unfolding init
with_worker-IsValid =
    (create_task_lem stack_base 0x1000 booted worker_name 0x2000 booted-IsValid (omega arith)
      (λ e. omega arith) refl (omega arith) refl).1

worker_runs : (yield_task with_worker).cur_task ≡ 1
unfolding yield_task create_task init
worker_runs = refl

yield_task_lem_example :
    IsValid (yield_task with_worker)
    × ((yield_task with_worker).task_count ≡ with_worker.task_count)
    × ((yield_task with_worker).cur_task ≡ (with_worker.cur_task + 1) % with_worker.task_count)
    × ((task_at (yield_task with_worker).tasks with_worker.cur_task).ticks ≡ (
        if with_worker.task_count == 1
        then (task_at with_worker.tasks with_worker.cur_task).ticks
        else u64 ((task_at with_worker.tasks with_worker.cur_task).ticks + 1)))
yield_task_lem_example = yield_task_lem with_worker with_worker-IsValid

worker_created_below : 1 < with_worker.task_count
unfolding create_task init
worker_created_below = omega arith

yields-reach_example :
    (n : ℕ) × (n < with_worker.task_count) × ((yields n with_worker).cur_task ≡ 1)
yields-reach_example = yields-reach with_worker 1 with_worker-IsValid worker_created_below
