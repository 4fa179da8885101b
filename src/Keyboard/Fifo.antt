-- ===== src/Keyboard/Fifo.antt =====
-- The driver against a bounded queue: whatever keys are pressed between whatever reads, the readers
-- get the characters that a queue of 31 would give them.
use aura_os.Base.{ℕ, ◌≡◌, refl, ap, ◌∙◌, inl, inr, List, [], ◌∷◌, ◌++◌, ◌==◌, if◌then◌else◌, length}
use aura_os.Keyboard.{Keyboard, translate, enqueue, handle, getchar}
use aura_os.Keyboard.Ring.{
  IsValid, waiting, enqueue-IsValid, waiting-enqueue, getchar-IsValid, getchar-waiting,
}

-- An interrupt with a scancode, or a call of `keyboard_getchar`.
pub data Event : Type 0 where
  key : ℕ → Event
  read : Event

-- The characters that the reads of a run return, in order.
unfoldable pub run : Keyboard → List Event → List ℕ
run k [] = []
run k (key scancode ∷ es) = run (handle k scancode) es
run k (read ∷ es) = let (c, k') = getchar k in c ∷ run k' es

-- The queue: a character that finds 31 waiting is lost, and 0 stands for "none waits".
abbrev pub put : List ℕ → ℕ → List ℕ
put q c = if c == 0 then q else if length q == 31 then q else q ++ (c ∷ [])

pub queue_run : List ℕ → List Event → List ℕ
queue_run q [] = []
queue_run q (key scancode ∷ es) = queue_run (put q (translate scancode)) es
queue_run [] (read ∷ es) = 0 ∷ queue_run [] es
queue_run (c ∷ q) (read ∷ es) = c ∷ queue_run q es

-- The driver returns to its readers, in any order of interrupts and reads, what a first-in first-out
-- queue of 31 characters holding the same characters returns.
pub run_refines : (es : List Event) (k : Keyboard) → IsValid k → run k es ≡ queue_run (waiting k) es
unfolding run queue_run handle
run_refines [] k v = refl
run_refines (key scancode ∷ es) k v =
    run_refines es (enqueue k (translate scancode)) (enqueue-IsValid k v (translate scancode))
    ∙ ap (λ q. queue_run q es) (waiting-enqueue k v (translate scancode))
run_refines (read ∷ es) k v = elim (getchar-waiting k v) [
  | inl (empty, none_read) ↦
      rw (none_read, empty) (ap (λ l. 0 ∷ l) (run_refines es k v ∙ ap (λ q. queue_run q es) empty))
  | inr first ↦
      rw first (ap (λ l. (getchar k).0 ∷ l) (run_refines es (getchar k).1 (getchar-IsValid k v)))
]
