-- ===== src/Sched.antt =====
-- The cooperative scheduler, kernel/core/sched.c: the task table and its three operations.
-- The console messages are left out. `switch_to` (kernel/arch/x86_shared/switch.S) changes registers
-- only; what it finds on a new task's stack is part of the model.
pub mod Table
pub mod Yield
pub mod Fairness
pub mod Create
mod Examples
use aura_os.Base.{
  ℕ, zero, suc, ◌+◌, ◌-◌, ◌*◌, ◌/◌, ◌%◌, Bool, true, false, Option, none, some, List, [], ◌∷◌, leb,
  ◌==◌, if◌then◌else◌, u32, u64, get_or, set, replicate, ◌||◌,
}

-- TASK_MAX
abbrev pub task_max : ℕ
task_max = 8

-- KSTACK_SIZE
abbrev pub kstack_size : ℕ
kstack_size = 4096

-- TASK_READY, TASK_RUNNING, TASK_BLOCKED
pub data TaskState : Type 0 where
  ready running blocked : TaskState

abbrev pub is_ready : TaskState → Bool
is_ready ready = true
is_ready running = false
is_ready blocked = false

abbrev pub is_running : TaskState → Bool
is_running ready = false
is_running running = true
is_running blocked = false

-- `struct task_struct`; the stack is its 512 words of 8 bytes.
pub record Task : Type 0 where
  pub rsp : ℕ
  pub pid : ℕ
  pub name : List ℕ
  pub state : TaskState
  pub ticks : ℕ
  pub kstack : List ℕ

-- A task as it lies in zeroed memory.
abbrev pub blank : Task
blank = record {
  rsp = 0;
  pid = 0;
  name = replicate 32 0;
  state = ready;
  ticks = 0;
  kstack = replicate 512 0;
}

-- The static variables of the module.
pub record Sched : Type 0 where
  pub tasks : List Task
  pub cur_task : ℕ
  pub task_count : ℕ

abbrev pub task_at : List Task → ℕ → Task
task_at tasks i = get_or tasks i blank

abbrev pub update : List Task → ℕ → (Task → Task) → List Task
update tasks i f = set tasks i (f (task_at tasks i))

-- The loop of `sched_init` from task `i` on.
pub reset_tasks : ℕ → List Task → List Task
reset_tasks i [] = []
reset_tasks i (t ∷ ts) =
    record t { rsp = 0; pid = u32 i; name = set t.name 0 0; state = blocked; ticks = 0 }
    ∷ reset_tasks (i + 1) ts

-- The copy of a C string, given by the characters before its NUL, behind which the NUL is written
-- again and again; at most `left` characters.
pub copy_name : ℕ → ℕ → List ℕ → List ℕ → List ℕ
copy_name zero j src dst = dst
copy_name (suc left) j [] dst = dst
copy_name (suc left) j (c ∷ cs) dst = copy_name left (j + 1) cs (set (set dst j c) (j + 1) 0)

abbrev pub boot_name : List ℕ
boot_name = b'i' ∷ b'd' ∷ b'l' ∷ b'e' ∷ []

pub init : List Task → Sched
unfolding reset_tasks copy_name
init tasks = record {
  tasks = update (reset_tasks 0 tasks) 0 (λ t. record t {
    state = running;
    pid = 0;
    ticks = 0;
    name = copy_name 4 0 boot_name t.name;
  });
  cur_task = 0;
  task_count = 1;
}

-- `*(--sp) = v` for each value in turn, on the stack that begins at `base`.
pub push_all : ℕ → List ℕ → ℕ → List ℕ → ℕ × List ℕ
push_all base [] sp kstack = (sp, kstack)
push_all base (v ∷ vs) sp kstack = push_all base vs (sp - 8) (set kstack ((sp - 8 - base) / 8) v)

-- The first frame: the entry, the trampoline behind it, and six registers.
abbrev pub first_frame : ℕ → ℕ → List ℕ
first_frame entry trampoline = entry ∷ trampoline ∷ 0 ∷ 0 ∷ 0 ∷ 0 ∷ 0 ∷ 0 ∷ []

-- Where the linker puts each task's stack, and `task_trampoline`.
module _ (kstack_base : ℕ → ℕ) (trampoline : ℕ) where
  abbrev pub new_task : ℕ → List ℕ → ℕ → Task → Task
  new_task idx name entry t =
      let top = u64 (kstack_base idx + kstack_size) / 16 * 16 in
      let (sp, kstack) = push_all (kstack_base idx) (first_frame entry trampoline) top t.kstack in
      record t {
        pid = u32 idx;
        state = ready;
        ticks = 0;
        name = copy_name 31 0 name t.name;
        kstack = kstack;
        rsp = sp;
      }

  -- A NULL name is `none`, a NULL entry 0; the result -1 is `none`.
  pub create_task : Sched → Option (List ℕ) → ℕ → Option ℕ × Sched
  unfolding push_all copy_name
  create_task s none entry = (none, s)
  create_task s (some name) entry = if entry == 0 || leb task_max s.task_count then (none, s) else (
    some s.task_count,
    record s {
      tasks = update s.tasks s.task_count (new_task s.task_count name entry);
      task_count = s.task_count + 1;
    },
  )

-- The search of `sched_yield`: `left` candidates from `prev + i` on, round the table.
pub find_next : List Task → ℕ → ℕ → ℕ → Option ℕ
find_next tasks prev zero i = none
find_next tasks prev (suc left) i = elim (is_ready (task_at tasks ((prev + i) % task_max)).state) [
  | true ↦ some ((prev + i) % task_max)
  | false ↦ find_next tasks prev left (i + 1)
]

abbrev pub suspend : Task → Task
suspend t = if is_running t.state then record t { state = ready } else t

abbrev pub resume : Task → Task
resume t = record t { state = running }

abbrev pub count_tick : Task → Task
count_tick t = record t { ticks = u64 (t.ticks + 1) }

-- The four assignments before `switch_to`, in their order.
pub switch_states : Sched → ℕ → Sched
switch_states s next = record s {
  tasks = update (update (update s.tasks s.cur_task suspend) next resume) s.cur_task count_tick;
  cur_task = next;
}

pub yield_task : Sched → Sched
unfolding find_next switch_states
yield_task s = elim (find_next s.tasks s.cur_task task_max 1) [
  | none ↦ s
  | some next ↦ switch_states s next
]

pub current : Sched → Task
current s = task_at s.tasks s.cur_task
