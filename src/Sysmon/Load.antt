-- ===== src/Sysmon/Load.antt =====
-- The snapshot of the sampler under the timer: uptime, and the load of the last whole second.
use aura_os.Base.{
  ◌+◌, ◌-◌, ◌*◌, ◌/◌, ◌%◌, ◌^◌, ◌≤◌, ◌<◌, ◌≡◌, refl, ap, ◌∙◌, Bool, true, false, List, [], ◌∷◌,
  ◌++◌, arith, some, if◌then◌else◌, u64, length,
}
use aura_os.Pit.{Pit, irq_handler, set_callback, get_ticks}
use aura_os.Pmm.{Pmm, get_total_memory, get_free_memory}
use aura_os.Pmm.Invariant
use aura_os.Pmm.Invariant.{used-le-total}
use aura_os.Zram.Pool.{ZramStats}
use aura_os.Sysmon.{Sysmon, tick, set_idle, init, cpu_load, get_stats, SysmonStats}
use aura_os.Sysmon.Window.{
  IsValid, idle_count, run, run-IsValid, run-append, run_count, run_partial, run_whole,
}

-- Timer interrupts: before each, the idle loop has marked the CPU idle or not.
unfoldable pub interrupts : Pit Sysmon → Sysmon → List Bool → Pit Sysmon × Sysmon
interrupts p s [] = (p, s)
interrupts p s (idle ∷ trace) =
    let (p', s') = irq_handler p (if idle then set_idle s else s) in interrupts p' s' trace

-- The snapshot taken after the interrupts of a trace, from the initialisation on.
unfoldable pub snapshot : Pit Sysmon → List Bool → Pmm → ZramStats → SysmonStats
snapshot p trace pmm z =
    let (p', s) = init p in let (q, t) = interrupts p' s trace in get_stats t q pmm z

-- The sampler's part of the interrupts is its run.
interrupts-run :
    (p : Pit Sysmon) (s : Sysmon) (trace : List Bool)
    → p.callback ≡ some tick
    → (interrupts p s trace).1 ≡ run s trace
unfolding interrupts irq_handler run
interrupts-run p s [] h = refl
interrupts-run p s (idle ∷ trace) h = rw h (
    interrupts-run (record { ticks = u64 (p.ticks + 1); callback = some tick })
      (tick (if idle then set_idle s else s)) trace refl)

interrupts_ticks :
    (p : Pit Sysmon) (s : Sysmon) (trace : List Bool)
    → p.ticks < 2 ^ 64
    → (interrupts p s trace).0.ticks ≡ u64 (p.ticks + length trace)
unfolding interrupts irq_handler
interrupts_ticks p s [] h = omega arith
interrupts_ticks p s (idle ∷ trace) h =
    let (p', s') = irq_handler p (if idle then set_idle s else s) in
    omega (arith, interrupts_ticks p' s' trace (omega arith))

tick_init_tick : (s : Sysmon) → (tick s).init_tick ≡ s.init_tick
unfolding tick
tick_init_tick s = ground arith

run_init_tick : (s : Sysmon) (trace : List Bool) → (run s trace).init_tick ≡ s.init_tick
unfolding run tick set_idle
run_init_tick s [] = refl
run_init_tick s (true ∷ trace) =
    run_init_tick (tick (set_idle s)) trace ∙ tick_init_tick (set_idle s)
run_init_tick s (false ∷ trace) = run_init_tick (tick s) trace ∙ tick_init_tick s

init-IsValid : (p : Pit Sysmon) → IsValid (init p).1
unfolding init
init-IsValid p = record {
  within = omega arith;
  idle_within = omega arith;
  not_idle = refl;
  total = refl;
  prev_within = omega arith;
}

-- The latched share after a whole window and less than a window more.
run-latched :
    (s : Sysmon) (earlier w rest : List Bool)
    → IsValid s
    → s.window_count ≡ 0
    → length earlier % 1000 ≡ 0
    → length w ≡ 1000
    → length rest < 1000
    → (run s (earlier ++ (w ++ rest))).prev_window_idle ≡ idle_count w
run-latched s earlier w rest v start he hw hr =
    let a = run s earlier in
    let va = run-IsValid s earlier v in
    let ca : a.window_count ≡ 0 = omega (arith, run_count s earlier v) in
    let b = run a w in
    let vb = run-IsValid a w va in
    let cb : b.window_count ≡ 0 = omega (arith, run_count a w va) in
    ap (λ t. t.prev_window_idle) (run-append s earlier (w ++ rest) ∙ run-append a w rest)
    ∙ run_partial b rest vb (omega arith)
    ∙ run_whole a w va (omega arith)
    ∙ omega (arith, va.idle_within)

cpu_load_lem : (s : Sysmon) → IsValid s → cpu_load s ≡ 100 - s.prev_window_idle * 100 / 1000
unfolding cpu_load
cpu_load_lem s v = rw v.total (ground (arith, v.prev_within))

-- Whatever was idle when: after `init`, some whole seconds of 1000 interrupts, a second `w` and less
-- than a second more, the snapshot gives as load 100 less the whole percentage of the interrupts of
-- `w` that found the CPU idle, and as uptime the number of interrupts, cut to 64 bits.
pub snapshot_lem :
    (p : Pit Sysmon) (earlier w rest : List Bool) (pmm : Pmm) (z : ZramStats)
    → p.ticks < 2 ^ 64
    → length earlier % 1000 ≡ 0
    → length w ≡ 1000
    → length rest < 1000
    → ((snapshot p (earlier ++ (w ++ rest)) pmm z).cpu_load_pct ≡ 100 - idle_count w * 100 / 1000)
      × ((snapshot p (earlier ++ (w ++ rest)) pmm z).uptime_ms
          ≡ u64 (length (earlier ++ (w ++ rest))))
unfolding snapshot get_stats get_ticks set_callback init
snapshot_lem p earlier w rest pmm z hp he hw hr =
    let trace = earlier ++ (w ++ rest) in
    let (p', s) = init p in
    let v = init-IsValid p in
    let (q, t) = interrupts p' s trace in
    let e : t ≡ run s trace = interrupts-run p' s trace refl in
    (
      rw e (
          cpu_load_lem (run s trace) (run-IsValid s trace v)
          ∙ ap (λ n. 100 - n * 100 / 1000) (run-latched s earlier w rest v refl he hw hr)),
      omega
          (arith, interrupts_ticks p' s trace hp, ap (λ t. t.init_tick) e ∙ run_init_tick s trace),
    )

-- The snapshot of a machine of less than 4 TiB: the memory in KiB is 4 times the frames, in all and in
-- use, and no more is in use than there is.
pub get_stats_memory :
    (s : Sysmon) (p : Pit Sysmon) (pmm : Pmm) (z : ZramStats)
    → Invariant.IsValid pmm
    → get_total_memory pmm < 2 ^ 42
    → ((get_stats s p pmm z).ram_total_kb ≡ pmm.total_frames * 4)
      × ((get_stats s p pmm z).ram_used_kb ≡ pmm.used_frames * 4)
      × ((get_stats s p pmm z).ram_used_kb ≤ (get_stats s p pmm z).ram_total_kb)
unfolding get_stats get_total_memory get_free_memory
get_stats_memory s p pmm z v h =
    let within = used-le-total pmm v in (omega arith, omega arith, omega arith)
