-- ===== src/Sched/Create.antt =====
-- `sched_create_task`: it appends a ready task, and builds the stack that `switch_to` will pop.
use native.Mathlib.Decide.{ℕ_discrete}
use aura_os.Base.{
  ℕ, zero, suc, ◌+◌, ◌-◌, ◌*◌, ◌/◌, ◌%◌, ◌^◌, ◌≤◌, ◌<◌, ◌≡◌, refl, ap, ◌∙◌, ◌≢◌, ◌⊎◌, Option, none,
  some, List, [], ◌∷◌, arith, u64, length, replicate, ==_false, lt→leb, get_or, set, length-set,
  get_or-set_self, get_or-set_ne,
}
use aura_os.Sched.{
  Task, Sched, task_max, kstack_size, task_at, update, push_all, first_frame, new_task, create_task,
}
use aura_os.Sched.Table.{IsValid, expected, update_self, update_other}

-- The 64-bit word of a stack that begins at `base`, at an address.
abbrev pub word_at : ℕ → List ℕ → ℕ → ℕ
word_at base kstack a = get_or kstack ((a - base) / 8) 0

-- Pushing keeps what lies above.
push_all-above :
    (base : ℕ) (vs : List ℕ) (sp : ℕ) (kstack : List ℕ) (k : ℕ)
    → base + 8 * length vs ≤ sp
    → (sp - base) % 8 ≡ 0
    → (sp - base) / 8 ≤ k
    → get_or (push_all base vs sp kstack).1 k 0 ≡ get_or kstack k 0
unfolding push_all
push_all-above base [] sp kstack k room al h = refl
push_all-above base (v ∷ vs) sp kstack k room al h =
    push_all-above base vs (sp - 8) (set kstack ((sp - 8 - base) / 8) v) k (omega arith)
      (omega arith) (omega arith)
    ∙ get_or-set_ne kstack ((sp - 8 - base) / 8) k v 0 (omega arith)

-- The value pushed as number `i` lies `i + 1` words below the first stack pointer.
push_all-at :
    (base : ℕ) (vs : List ℕ) (sp : ℕ) (kstack : List ℕ) (i : ℕ)
    → base + 8 * length vs ≤ sp
    → (sp - base) % 8 ≡ 0
    → (sp - base) / 8 ≤ length kstack
    → i < length vs
    → word_at base (push_all base vs sp kstack).1 (sp - 8 * (i + 1)) ≡ get_or vs i 0
unfolding push_all
push_all-at base [] sp kstack i room al fits h = absurd (omega arith)
push_all-at base (v ∷ vs) sp kstack zero room al fits h =
    push_all-above base vs (sp - 8) (set kstack ((sp - 8 - base) / 8) v) ((sp - 8 - base) / 8)
      (omega arith) (omega arith) (omega arith)
    ∙ get_or-set_self kstack ((sp - 8 - base) / 8) v 0 (omega arith)
push_all-at base (v ∷ vs) sp kstack (suc i) room al fits h =
    let a : sp - 8 * (suc i + 1) ≡ sp - 8 - 8 * (i + 1) = omega arith in
    rw a (
      push_all-at base vs (sp - 8) (set kstack ((sp - 8 - base) / 8) v) i (omega arith)
        (omega arith) (omega (arith, length-set kstack ((sp - 8 - base) / 8) v)) (omega arith))

push_all-sp :
    (base : ℕ) (vs : List ℕ) (sp : ℕ) (kstack : List ℕ)
    → (push_all base vs sp kstack).0 ≡ sp - 8 * length vs
unfolding push_all
push_all-sp base [] sp kstack = omega arith
push_all-sp base (v ∷ vs) sp kstack =
    omega (arith, push_all-sp base vs (sp - 8) (set kstack ((sp - 8 - base) / 8) v))

-- What `switch_to` pops from a new task's stack: six zeros, then the return address, the trampoline,
-- which pops the entry.
pub record HasFirstFrame (base entry trampoline : ℕ) (t : Task) : Type 0 where
  pub stack_pointer : t.rsp + 64 ≡ base + kstack_size
  pub registers : (i : ℕ) → i < 6 → word_at base t.kstack (t.rsp + 8 * i) ≡ 0
  pub return_address : word_at base t.kstack (t.rsp + 48) ≡ trampoline
  pub argument : word_at base t.kstack (t.rsp + 56) ≡ entry

-- Behind the entry and the trampoline the first frame holds zeros.
get_or-zeros : (n j : ℕ) → get_or {A = ℕ} (replicate n 0) j 0 ≡ 0
get_or-zeros zero j = refl
get_or-zeros (suc n) zero = refl
get_or-zeros (suc n) (suc j) = get_or-zeros n j

first_frame_zeros : (entry trampoline j : ℕ) → 2 ≤ j → get_or (first_frame entry trampoline) j 0 ≡ 0
first_frame_zeros entry trampoline zero h = absurd (omega arith)
first_frame_zeros entry trampoline (suc zero) h = absurd (omega arith)
first_frame_zeros entry trampoline (suc (suc j)) h = get_or-zeros 6 j

-- The eight stores from the top of a stack of 512 words.
module _ (base entry trampoline : ℕ) (kstack : List ℕ) (size : length kstack ≡ 512) where
  abbrev pushed : ℕ × List ℕ
  pushed = push_all base (first_frame entry trampoline) (base + kstack_size) kstack

  pushed-sp : pushed.0 + 64 ≡ base + kstack_size
  pushed-sp =
      omega (arith, push_all-sp base (first_frame entry trampoline) (base + kstack_size) kstack)

  -- Word `7 - i` of the frame lies at `rsp + 8 * i`.
  pushed-at :
      (i : ℕ)
      → i < 8
      → word_at base pushed.1 (pushed.0 + 8 * i) ≡ get_or (first_frame entry trampoline) (7 - i) 0
  pushed-at i h =
      let a : pushed.0 + 8 * i ≡ base + kstack_size - 8 * (7 - i + 1) = omega (arith, pushed-sp) in
      ap (λ a. word_at base pushed.1 a) a
      ∙ push_all-at base (first_frame entry trampoline) (base + kstack_size) kstack (7 - i)
          (omega arith) (omega arith) (omega arith) (omega arith)

module _ (kstack_base : ℕ → ℕ) (trampoline : ℕ) where
  new_task-HasFirstFrame :
      (idx : ℕ) (name : List ℕ) (entry : ℕ) (t : Task)
      → kstack_base idx % 16 ≡ 0
      → kstack_base idx + kstack_size < 2 ^ 64
      → length t.kstack ≡ 512
      → HasFirstFrame
          (kstack_base idx)
          entry
          trampoline
          (new_task kstack_base trampoline idx name entry t)
  new_task-HasFirstFrame idx name entry t al fits size =
      let base = kstack_base idx in
      let top : u64 (base + kstack_size) / 16 * 16 ≡ base + kstack_size = omega arith in
      let at = pushed-at base entry trampoline t.kstack size in
      record {
        stack_pointer = rw top (pushed-sp base entry trampoline t.kstack size);
        registers = λ i h.
            rw top (at i (omega arith) ∙ first_frame_zeros entry trampoline (7 - i) (omega arith));
        return_address = rw top (at 6 (omega arith));
        argument = rw top (at 7 (omega arith));
      }

  module _ (s : Sched) (name : List ℕ) (entry : ℕ) (v : IsValid s) (room : s.task_count < task_max)
      (real : entry ≢ 0) where
    abbrev created : Sched
    created = record s {
      tasks = update s.tasks s.task_count (new_task kstack_base trampoline s.task_count name entry);
      task_count = s.task_count + 1;
    }

    create_task-created :
        create_task kstack_base trampoline s (some name) entry ≡ (some s.task_count, created)
    unfolding create_task
    create_task-created =
        rw ((==_false entry 0 real), create_task)
          (rw ((lt→leb task_max s.task_count room), create_task) refl)

    at_new :
        task_at created.tasks s.task_count
        ≡ new_task kstack_base trampoline s.task_count name entry (task_at s.tasks s.task_count)
    at_new =
        update_self s.tasks s.task_count (new_task kstack_base trampoline s.task_count name entry)
          (omega (arith, v.size))

    at_old : (i : ℕ) → i ≢ s.task_count → task_at created.tasks i ≡ task_at s.tasks i
    at_old i h =
        update_other s.tasks s.task_count (new_task kstack_base trampoline s.task_count name entry)
          i h

    created-at :
        (i : ℕ)
        → i < task_max
        → ((task_at created.tasks i).state ≡ expected s.cur_task (s.task_count + 1) i)
          × ((task_at created.tasks i).pid ≡ i)
    created-at i h = elim (ℕ_discrete i s.task_count) [
      | yes same ↦ (
        ap (λ k. (task_at created.tasks k).state) same
            ∙ ap (λ t. t.state) at_new
            ∙ ground (arith, v.created),
        ap (λ k. (task_at created.tasks k).pid) same ∙ ap (λ t. t.pid) at_new ∙ omega arith,
      )
      | no other ↦ (
        ap (λ t. t.state) (at_old i other) ∙ v.states i h ∙ ground arith,
        ap (λ t. t.pid) (at_old i other) ∙ v.pids i h,
      )
    ]

    created-IsValid : IsValid created
    created-IsValid = record {
      size = length-set s.tasks s.task_count _ ∙ v.size;
      created = omega (arith, v.created);
      fits = omega arith;
      states = λ i h. (created-at i h).0;
      pids = λ i h. (created-at i h).1;
    }

  -- On a valid table with room, for a name and an entry, `sched_create_task` returns the number of
  -- tasks and keeps the invariant; the new task is ready, its stack holds the first frame, and no
  -- other entry of the table changes. (The stacks are aligned, as their type says, and lie in the
  -- address space.)
  pub create_task_lem :
      (s : Sched) (name : List ℕ) (entry : ℕ)
      → IsValid s
      → s.task_count < task_max
      → entry ≢ 0
      → kstack_base s.task_count % 16 ≡ 0
      → kstack_base s.task_count + kstack_size < 2 ^ 64
      → length (task_at s.tasks s.task_count).kstack ≡ 512
      → let (result, s') = create_task kstack_base trampoline s (some name) entry in
        (result ≡ some s.task_count)
        × IsValid s'
        × (s'.task_count ≡ s.task_count + 1)
        × (s'.cur_task ≡ s.cur_task)
        × HasFirstFrame (kstack_base s.task_count) entry trampoline (task_at s'.tasks s.task_count)
        × ((i : ℕ) → i ≢ s.task_count → task_at s'.tasks i ≡ task_at s.tasks i)
  create_task_lem s name entry v room real al fits size =
      rw (create_task-created s name entry v room real) (
        refl,
        created-IsValid s name entry v room real,
        refl,
        refl,
        rw (at_new s name entry v room real) (
            new_task-HasFirstFrame s.task_count name entry (task_at s.tasks s.task_count) al fits
              size),
        at_old s name entry v room real,
      )

  -- A missing name or entry, or a full table, is refused with -1, and nothing changes.
  pub create_task_refused :
      (s : Sched) (name : Option (List ℕ)) (entry : ℕ)
      → (name ≡ none) ⊎ ((entry ≡ 0) ⊎ (task_max ≤ s.task_count))
      → create_task kstack_base trampoline s name entry ≡ (none, s)
  unfolding create_task
  create_task_refused s none entry h = refl
  create_task_refused s (some name) entry h = ground arith
