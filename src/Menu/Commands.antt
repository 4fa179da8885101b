-- ===== src/Menu/Commands.antt =====
-- What a key does to the view, and which commands there are.
use aura_os.Base.{
  ℕ, ◌≡◌, ◌↔◌, inl, inr, refl, sym, ap, ap₂, ◌∙◌, true, false, List, [], ◌∷◌, ◌==◌, ==_iff,
  if◌then◌else◌, Bool-cases, if_elim, codes,
}
use aura_os.Sysmon.{SysmonStats}
use aura_os.Zram.Pool.{ZramStats}
use aura_os.Menu.{
  Menu, View, dashboard, Outcome, log_print, print_all, str_eq, execute_command, help_lines,
  ram_line, zram_line,
}
use aura_os.Menu.Log.{log_print_same}

pub str_eq_iff : (xs ys : List ℕ) → (str_eq xs ys ≡ true) ↔ (xs ≡ ys)
unfolding str_eq
str_eq_iff [] [] = (λ _. refl, λ _. refl)
str_eq_iff [] (y ∷ ys) = (λ e. cc, λ e. cc)
str_eq_iff (x ∷ xs) [] = (λ e. cc, λ e. cc)
str_eq_iff (x ∷ xs) (y ∷ ys) = elim (Bool-cases (x == y)) [
  | inl e ↦
      let same = (==_iff x y).0 e in
      (
        λ h. ap₂ (λ a l. a ∷ l) same ((str_eq_iff xs ys).0 (rw (e, str_eq) at h)),
        λ h. rw (e, str_eq) ((str_eq_iff xs ys).1 cc),
      )
  | inr e ↦ (
    λ h. (let no : false ≡ true = rw (e, str_eq) at h in cc),
    λ h. (let yes = (==_iff x y).1 cc in cc),
  )
]

str_eq-other : (t w d : List ℕ) → str_eq t w ≡ true → str_eq w d ≡ false → str_eq t d ≡ false
str_eq-other t w d e apart = ap (λ l. str_eq l d) ((str_eq_iff t w).0 e) ∙ apart

print_all_view : (msgs : List (List ℕ)) (m : Menu) → (print_all m msgs).active_view ≡ m.active_view
unfolding print_all
print_all_view [] m = refl
print_all_view (msg ∷ msgs) m = print_all_view msgs (log_print m msg) ∙ (log_print_same m msg).1

abbrev pub text_dashboard : List ℕ
text_dashboard = codes "dashboard"

abbrev pub view_after : Menu → List ℕ → View
view_after m t = if str_eq t text_dashboard then dashboard else m.active_view

view_after-false :
    (m : Menu) (t : List ℕ) → str_eq t text_dashboard ≡ false → view_after m t ≡ m.active_view
view_after-false m t e = ap (λ b. if b then dashboard else m.active_view) e

print_all-view_after :
    (m : Menu) (t w : List ℕ) (msgs : List (List ℕ))
    → str_eq w text_dashboard ≡ false
    → str_eq t w ≡ true
    → (print_all m msgs).active_view ≡ view_after m t
print_all-view_after m t w msgs apart e =
    print_all_view msgs m ∙ sym (view_after-false m t (str_eq-other t w text_dashboard e apart))

module _ (stats : SysmonStats) (zstats : ZramStats) where
  pub execute_command-view :
      (m : Menu) (t : List ℕ) → (execute_command stats zstats m t).0.active_view ≡ view_after m t
  unfolding execute_command str_eq
  execute_command-view m [] = refl
  execute_command-view m (c ∷ cs) =
      let t = c ∷ cs in
      let P : Menu × Outcome → Type 0 = λ r. r.0.active_view ≡ view_after m t in
      if_elim P (str_eq t (codes "help")) (print_all-view_after m t (codes "help") help_lines refl)
        (λ _.
          if_elim P (str_eq t (codes "info"))
            (print_all-view_after m t (codes "info")
              (codes "[AuraOS v0.2.3] x86_64 freestanding C kernel"
                ∷ codes "Console: VGA 80x25 @ 0xB8000 + COM1 UART 115200"
                ∷ [])
              refl)
            (λ _.
              if_elim P (str_eq t (codes "mem"))
                (print_all-view_after m t (codes "mem")
                  (ram_line stats
                    ∷ codes "  Kernel Heap: 4 MB pool (free-list allocator)"
                    ∷ zram_line zstats
                    ∷ [])
                  refl)
                (λ _.
                  if_elim P (str_eq t (codes "clear"))
                    (print_all-view_after m t (codes "clear") [] refl)
                    (λ _.
                      if_elim P (str_eq t text_dashboard)
                        (λ e. sym (ap (λ b. if b then dashboard else m.active_view) e))
                        (λ away.
                          if_elim P (str_eq t (codes "halt"))
                            (print_all-view_after m t (codes "halt") (codes "System halted." ∷ [])
                              refl)
                            (λ _.
                              if_elim P (str_eq t (codes "panic"))
                                (print_all-view_after m t (codes "panic") [] refl)
                                (λ _.
                                  if_elim P (str_eq t (codes "pf"))
                                    (print_all-view_after m t (codes "pf")
                                      (codes "Triggering page fault (write to 0xdead0000)..." ∷ [])
                                      refl)
                                    (λ _.
                                      print_all_view
                                        (codes "Unknown command. Type 'help' for list." ∷ []) m
                                      ∙ sym (view_after-false m t away)))))))))
