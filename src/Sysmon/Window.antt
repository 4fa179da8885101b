-- ===== src/Sysmon/Window.antt =====
-- What the sampler holds after any ticks: the idle share of the last whole window of 1000.
use native.Mathlib.Decide.{dec_lt}
use aura_os.Base.{
  ℕ, suc, ◌+◌, ◌%◌, ◌≤◌, ◌<◌, ◌≡◌, refl, ◌∙◌, Bool, true, false, List, [], ◌∷◌, ◌++◌, arith,
  if◌then◌else◌, length,
}
use aura_os.Sysmon.{Sysmon, window, tick, set_idle}

-- One timer period: the idle loop has marked the CPU idle in it or not, then the tick comes.
abbrev pub period : Sysmon → Bool → Sysmon
period s idle = tick (if idle then set_idle s else s)

unfoldable pub run : Sysmon → List Bool → Sysmon
run s [] = s
run s (idle ∷ trace) = run (period s idle) trace

abbrev pub idle_count : List Bool → ℕ
idle_count [] = 0
idle_count (true ∷ trace) = suc (idle_count trace)
idle_count (false ∷ trace) = idle_count trace

pub record IsValid (s : Sysmon) : Type 0 where
  pub within : s.window_count < window
  pub idle_within : s.window_idle ≤ s.window_count
  pub not_idle : s.current_idle ≡ false
  pub total : s.prev_window_total ≡ window
  pub prev_within : s.prev_window_idle ≤ window

abbrev idle_value : Bool → ℕ
idle_value true = 1
idle_value false = 0

idle_value_le : (idle : Bool) → idle_value idle ≤ 1
idle_value_le true = omega arith
idle_value_le false = omega arith

-- A period inside the window counts; the last one of the window latches.
period-inside :
    (s : Sysmon) (idle : Bool)
    → IsValid s
    → s.window_count + 1 < window
    → ((period s idle).window_count ≡ s.window_count + 1)
      × ((period s idle).window_idle ≡ s.window_idle + idle_value idle)
      × ((period s idle).current_idle ≡ false)
      × ((period s idle).prev_window_total ≡ s.prev_window_total)
      × ((period s idle).prev_window_idle ≡ s.prev_window_idle)
unfolding tick set_idle
period-inside s true v h = ground arith
period-inside s false v h = ground arith

period-last :
    (s : Sysmon) (idle : Bool)
    → IsValid s
    → s.window_count + 1 ≡ window
    → ((period s idle).window_count ≡ 0)
      × ((period s idle).window_idle ≡ 0)
      × ((period s idle).current_idle ≡ false)
      × ((period s idle).prev_window_total ≡ window)
      × ((period s idle).prev_window_idle ≡ s.window_idle + idle_value idle)
unfolding tick set_idle
period-last s true v h = ground arith
period-last s false v h = ground arith

pub period-IsValid : (s : Sysmon) (idle : Bool) → IsValid s → IsValid (period s idle)
period-IsValid s idle v =
    let b = idle_value_le idle in
    elim (dec_lt (s.window_count + 1) window) [
      | yes h ↦
          let (c, i, n, t, p) = period-inside s idle v h in
          record {
            within = omega arith;
            idle_within = omega (arith, v.idle_within);
            not_idle = n;
            total = t ∙ v.total;
            prev_within = omega (arith, v.prev_within);
          }
      | no h ↦
          let (c, i, n, t, p) = period-last s idle v (omega (arith, v.within)) in
          record {
            within = omega arith;
            idle_within = omega arith;
            not_idle = n;
            total = t;
            prev_within = omega (arith, v.idle_within, v.within);
          }
    ]

pub run-IsValid : (s : Sysmon) (trace : List Bool) → IsValid s → IsValid (run s trace)
unfolding run
run-IsValid s [] v = v
run-IsValid s (idle ∷ trace) v = run-IsValid (period s idle) trace (period-IsValid s idle v)

pub run-append : (s : Sysmon) (xs ys : List Bool) → run s (xs ++ ys) ≡ run (run s xs) ys
unfolding run
run-append s [] ys = refl
run-append s (idle ∷ xs) ys = run-append (period s idle) xs ys

period_count :
    (s : Sysmon) (idle : Bool)
    → IsValid s
    → (period s idle).window_count ≡ (s.window_count + 1) % window
period_count s idle v = elim (dec_lt (s.window_count + 1) window) [
  | yes h ↦ let (c, i, n, t, p) = period-inside s idle v h in omega arith
  | no h ↦
      let (c, i, n, t, p) = period-last s idle v (omega (arith, v.within)) in
      omega (arith, v.within)
]

pub run_count :
    (s : Sysmon) (trace : List Bool)
    → IsValid s
    → (run s trace).window_count ≡ (s.window_count + length trace) % window
unfolding run
run_count s [] v = omega (arith, v.within)
run_count s (idle ∷ trace) v =
    omega (arith, run_count (period s idle) trace (period-IsValid s idle v), period_count s idle v)

idle_count-cons :
    (idle : Bool) (trace : List Bool)
    → idle_count (idle ∷ trace) ≡ idle_value idle + idle_count trace
idle_count-cons true trace = omega arith
idle_count-cons false trace = omega arith

pub idle_count_le : (trace : List Bool) → idle_count trace ≤ length trace
idle_count_le [] = omega arith
idle_count_le (true ∷ trace) = omega (arith, idle_count_le trace)
idle_count_le (false ∷ trace) = omega (arith, idle_count_le trace)

-- Less than the rest of a window leaves the latched counts.
pub run_partial :
    (s : Sysmon) (trace : List Bool)
    → IsValid s
    → s.window_count + length trace < window
    → (run s trace).prev_window_idle ≡ s.prev_window_idle
unfolding run
run_partial s [] v h = refl
run_partial s (idle ∷ trace) v h =
    let (c, i, n, t, p) = period-inside s idle v (omega arith) in
    run_partial (period s idle) trace (period-IsValid s idle v) (omega arith) ∙ p

-- The rest of a window latches the idle periods of all of it.
pub run_whole :
    (s : Sysmon) (trace : List Bool)
    → IsValid s
    → s.window_count + length trace ≡ window
    → (run s trace).prev_window_idle ≡ s.window_idle + idle_count trace
unfolding run
run_whole s [] v h = absurd (omega (arith, v.within))
run_whole s (idle ∷ []) v h =
    let (c, i, n, t, p) = period-last s idle v (omega arith) in
    omega (arith, p, idle_count-cons idle [])
run_whole s (idle ∷ next ∷ trace) v h =
    let (c, i, n, t, p) = period-inside s idle v (omega arith) in
    omega (
      arith,
      i,
      idle_count-cons idle (next ∷ trace),
      run_whole (period s idle) (next ∷ trace) (period-IsValid s idle v) (omega arith),
    )
