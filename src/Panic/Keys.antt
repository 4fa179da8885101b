-- ===== src/Panic/Keys.antt =====
-- Which key ends the panic screen's loop.
use aura_os.Base.{
  ℕ, zero, suc, ◌<◌, ◌≡◌, ◌≢◌, refl, ap, ◌∙◌, true, false, arith, ◌==◌, some, List, [], ◌∷◌, ◌++◌,
  length, codes, Bool-cases, ==_iff, inl, inr,
}
use aura_os.Vga.{Vga}
use aura_os.Tui.{printf_at}
use aura_os.Dashboard.{Process}
use aura_os.Sysmon.{SysmonStats}
use aura_os.Menu.{Menu}
use aura_os.Panic.{
  RecoveryPoint, Read, key_of, poll_key, Action, restore, reboot, poweroff, nothing, action, End,
  rebooting, powering_off, awaiting, do_restore, key_loop,
}

-- No read asks for anything: no key, a release, or a key without an action.
unfoldable pub AllIdle : List Read → Type 0
AllIdle [] = Unit
AllIdle (r ∷ reads) = (action (key_of r) ≡ nothing) × AllIdle reads

poll_skip :
    (r : Read) (reads : List Read) → (key_of r == 0) ≡ true → poll_key (r ∷ reads) ≡ poll_key reads
unfolding poll_key
poll_skip r reads e = rw (e, poll_key) refl

poll_found :
    (r : Read) (reads : List Read)
    → (key_of r == 0) ≡ false
    → poll_key (r ∷ reads) ≡ some (key_of r, reads)
unfolding poll_key
poll_found r reads e = rw (e, poll_key) refl

module _ (stats : SysmonStats) (ticks heap_used : ℕ) (ps : List Process) (point : RecoveryPoint)
    (s : Menu) (v : Vga) where
  -- What an action comes to where there is a recovery point.
  unfoldable pub finish : Action → End
  finish restore = do_restore stats ticks heap_used ps point s v
  finish reboot = rebooting
  finish poweroff = powering_off (
      printf_at v.memory 2 23 0x4f
        (codes "Power off not supported by hardware. You may close the VM.") [])
  finish nothing = awaiting v.memory

  loop : ℕ → List Read → End
  loop fuel reads = key_loop stats ticks heap_used ps fuel point s v reads

  loop_nothing :
      (fuel : ℕ) (r : Read) (reads : List Read)
      → (key_of r == 0) ≡ false
      → action (key_of r) ≡ nothing
      → loop (suc fuel) (r ∷ reads) ≡ loop fuel reads
  unfolding loop key_loop
  loop_nothing fuel r reads e idle = rw (poll_found r reads e, key_loop) (rw (idle, key_loop) refl)

  loop_skip :
      (fuel : ℕ) (r : Read) (reads : List Read)
      → (key_of r == 0) ≡ true
      → loop fuel (r ∷ reads) ≡ loop fuel reads
  unfolding loop key_loop
  loop_skip zero r reads e = refl
  loop_skip (suc fuel) r reads e = rw (poll_skip r reads e, key_loop) refl

  loop_acts :
      (fuel : ℕ) (r : Read) (reads : List Read) (act : Action)
      → (key_of r == 0) ≡ false
      → action (key_of r) ≡ act
      → act ≢ nothing
      → point.valid ≡ true
      → loop (suc fuel) (r ∷ reads) ≡ finish act
  unfolding loop key_loop finish
  loop_acts fuel r reads restore e a other valid =
      rw (poll_found r reads e, key_loop) (rw (a, key_loop) (simp (valid) refl))
  loop_acts fuel r reads reboot e a other valid =
      rw (poll_found r reads e, key_loop) (rw (a, key_loop) refl)
  loop_acts fuel r reads poweroff e a other valid =
      rw (poll_found r reads e, key_loop) (rw (a, key_loop) refl)
  loop_acts fuel r reads nothing e a other valid = absurd (other refl)

  key_found : (r : Read) → action (key_of r) ≢ nothing → (key_of r == 0) ≡ false
  unfolding action
  key_found r other = elim (Bool-cases (key_of r == 0)) [
    | inl e ↦ absurd (other (ap action ((==_iff (key_of r) 0).0 e)))
    | inr e ↦ e
  ]

  -- Where there is a recovery point, the first key with an action ends the loop with what that action
  -- comes to, whatever reads, without a key or with keys without an action, are before it, and whatever
  -- is behind it. The fuel is more than there are reads before the key.
  pub key_loop-first :
      (before after : List Read) (fuel : ℕ) (r : Read)
      → point.valid ≡ true
      → AllIdle before
      → action (key_of r) ≢ nothing
      → length before < fuel
      → key_loop stats ticks heap_used ps fuel point s v (before ++ r ∷ after)
        ≡ finish (action (key_of r))
  unfolding AllIdle loop
  key_loop-first before after zero r valid idle other room = absurd (omega arith)
  key_loop-first [] after (suc fuel) r valid idle other room =
      loop_acts fuel r after (action (key_of r)) (key_found r other) refl other valid
  key_loop-first (q ∷ before) after (suc fuel) r valid idle other room =
      elim (Bool-cases (key_of q == 0)) [
        | inl e ↦
            loop_skip (suc fuel) q (before ++ r ∷ after) e
            ∙ key_loop-first before after (suc fuel) r valid idle.1 other (omega arith)
        | inr e ↦
            loop_nothing fuel q (before ++ r ∷ after) e idle.0
            ∙ key_loop-first before after fuel r valid idle.1 other (omega arith)
      ]
