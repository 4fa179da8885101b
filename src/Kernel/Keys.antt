-- ===== src/Kernel/Keys.antt =====
-- The loop's keys: all that wait reach the shell, in order, up to a command that does not return.
use aura_os.Base.{
  ℕ, zero, suc, ◌<◌, ◌≡◌, refl, sym, ap, ◌∙◌, inl, inr, true, false, List, [], ◌∷◌, arith, length,
}
use aura_os.Keyboard.{Keyboard, has_key, getchar}
use aura_os.Keyboard.Ring.{
  IsValid, waiting, getchar-IsValid, getchar-waiting, has_key_none, has_key_some,
}
use aura_os.Menu.{Menu, Outcome, returned, halted, invalid_opcode, page_fault}
use aura_os.Sysmon.{SysmonStats}
use aura_os.Zram.Pool.{ZramStats}
use aura_os.Kernel.{feed, drain}

module _ (stats : SysmonStats) (zstats : ZramStats) where
  -- The shell on a list of characters: what is left of the list, and how it ends.
  pub feed_all : Menu → List ℕ → List ℕ × Menu × Outcome
  feed_all m [] = ([], m, returned)
  feed_all m (c ∷ cs) =
      let (m', outcome) = feed stats zstats m c in
      elim outcome [ returned ↦ feed_all m' cs | other ↦ (cs, m', other) ]

  after_key : ℕ → Keyboard → Menu → Outcome → Keyboard × Menu × Outcome
  after_key fuel k m returned = drain stats zstats fuel k m
  after_key fuel k m halted = (k, m, halted)
  after_key fuel k m invalid_opcode = (k, m, invalid_opcode)
  after_key fuel k m page_fault = (k, m, page_fault)

  drain-after_key :
      (fuel : ℕ) (k : Keyboard) (m : Menu) (o : Outcome)
      → (let r : Keyboard × Menu × Outcome = elim o [
        | returned ↦ drain stats zstats fuel k m
        | other ↦ (k, m, other)
      ] in
          r)
        ≡ after_key fuel k m o
  unfolding after_key
  drain-after_key fuel k m returned = refl
  drain-after_key fuel k m halted = refl
  drain-after_key fuel k m invalid_opcode = refl
  drain-after_key fuel k m page_fault = refl

  drain_key :
      (fuel : ℕ) (k : Keyboard) (m : Menu)
      → has_key k ≡ true
      → drain stats zstats (suc fuel) k m ≡ (
          let (m', outcome) = feed stats zstats m (getchar k).0 in
          after_key fuel (getchar k).1 m' outcome)
  unfolding drain
  drain_key fuel k m e =
      let fed = feed stats zstats m (getchar k).0 in
      rw (e, drain) (drain-after_key fuel (getchar k).1 fed.0 fed.1)

  drain_none :
      (fuel : ℕ) (k : Keyboard) (m : Menu)
      → has_key k ≡ false
      → drain stats zstats (suc fuel) k m ≡ (k, m, returned)
  unfolding drain
  drain_none fuel k m e = rw (e, drain) refl

  -- The characters that wait, instead of the ring.
  abbrev pub seen : Keyboard × Menu × Outcome → List ℕ × Menu × Outcome
  seen (k, m, outcome) = (waiting k, m, outcome)

  after_key-feed_all :
      (fuel : ℕ) (k : Keyboard) (m : Menu) (o : Outcome)
      → seen (drain stats zstats fuel k m) ≡ feed_all m (waiting k)
      → seen (after_key fuel k m o) ≡ (
          let r : List ℕ × Menu × Outcome = elim o [
            | returned ↦ feed_all m (waiting k)
            | other ↦ (waiting k, m, other)
          ] in
          r)
  unfolding after_key
  after_key-feed_all fuel k m returned h = h
  after_key-feed_all fuel k m halted h = refl
  after_key-feed_all fuel k m invalid_opcode h = refl
  after_key-feed_all fuel k m page_fault h = refl

  -- With more rounds than characters wait in a valid ring, the loop hands all of them to the shell in
  -- order, those that are not 0, and leaves the ring empty; but after a command that does not return
  -- the characters behind it are still in the ring.
  pub drain-feed_all :
      (fuel : ℕ) (k : Keyboard) (m : Menu)
      → IsValid k
      → length (waiting k) < fuel
      → seen (drain stats zstats fuel k m) ≡ feed_all m (waiting k)
  unfolding feed_all
  drain-feed_all zero k m v h = absurd (omega arith)
  drain-feed_all (suc fuel) k m v h = elim (getchar-waiting k v) [
    | inl (empty, none_read) ↦
        ap seen (drain_none fuel k m (has_key_none k v empty))
        ∙ ap (λ cs. (cs, m, returned)) empty
        ∙ ap (feed_all m) (sym empty)
    | inr first ↦
        let k' = (getchar k).1 in
        let fed = feed stats zstats m (getchar k).0 in
        let shorter : length (waiting k') < fuel = omega (arith, ap length first) in
        ap seen (drain_key fuel k m (has_key_some k v (λ e. (let w = sym first ∙ e in cc))))
        ∙ after_key-feed_all fuel k' fed.0 fed.1
            (drain-feed_all fuel k' fed.0 (getchar-IsValid k v) shorter)
        ∙ ap (feed_all m) (sym first)
  ]
