-- ===== src/Keyboard/Examples.antt =====
-- Runs of the keyboard driver, and its theorem at a concrete run.
use aura_os.Base.{◌≡◌, refl, false, List, [], ◌∷◌, replicate}
use aura_os.Keyboard.{Keyboard, init, handle, has_key, getchar}
use aura_os.Keyboard.Ring.{IsValid, waiting, init-IsValid}
use aura_os.Keyboard.Fifo.{Event, key, read, run, queue_run, run_refines}

abbrev started : Keyboard
started = init (record { buf = replicate 32 7; head = 3; tail = 9 })

-- "h", "i", the release of "i", and Enter.
abbrev typed : List Event
typed = key 0x23 ∷ key 0x17 ∷ read ∷ key 0x97 ∷ key 0x1c ∷ read ∷ read ∷ read ∷ []

started-IsValid : IsValid started
started-IsValid = init-IsValid (record { buf = replicate 32 7; head = 3; tail = 9 }) refl

typed_reads : run started typed ≡ b'h' ∷ b'i' ∷ 10 ∷ 0 ∷ []
unfolding run handle getchar init
typed_reads = refl

starts_empty : has_key started ≡ false
unfolding has_key init
starts_empty = refl

run_refines_example : run started typed ≡ queue_run (waiting started) typed
run_refines_example = run_refines typed started started-IsValid
