-- ===== src/Menu/Keys.antt =====
-- The switch between the views, and what is typed is what is executed.
use mathlib.Core.List
use aura_os.Base.{
  ℕ, zero, suc, ◌+◌, ◌-◌, ◌≤◌, ◌<◌, ◌≡◌, ◌⊎◌, ◌↔◌, refl, sym, ap, ◌∙◌, true, ◌&&◌, ◌||◌, List, [],
  ◌∷◌, ◌++◌, arith, ◌==◌, ltb, leb, if◌then◌else◌, if_elim, codes, take, length, length-append,
}
use aura_os.Sysmon.{SysmonStats}
use aura_os.Zram.Pool.{ZramStats}
use aura_os.Menu.{
  Menu, View, menu, dashboard, Outcome, returned, halted, invalid_opcode, page_fault, log_print,
  str_eq, execute_command, enter, end_line, dashboard_key, edit_key, menu_key, key_in, handle_key,
  cmd_max,
}
use aura_os.Menu.Log.{log_print_same, append_assoc}
use aura_os.Menu.Commands.{str_eq_iff, text_dashboard, view_after, execute_command-view}

abbrev pub Enters : ℕ → Type 0
Enters c = (c ≡ 10) ⊎ (c ≡ 13)

abbrev pub Leaves : ℕ → Type 0
Leaves c = (c ≡ b'q') ⊎ (c ≡ b'Q') ⊎ (c ≡ 27)

-- When a key leads to the dashboard or leaves it shown.
abbrev pub Shows : View → List ℕ → ℕ → Type 0
Shows dashboard cmd c = ¬ Leaves c
Shows menu cmd c = Enters c × (cmd ≡ text_dashboard)

end_line_view : (o : Outcome) (m : Menu) → (end_line o m).active_view ≡ m.active_view
unfolding end_line
end_line_view returned m = refl
end_line_view halted m = refl
end_line_view invalid_opcode m = refl
end_line_view page_fault m = refl

Enters-iff : (c : ℕ) → (((c == 10) || (c == 13)) ≡ true) ↔ Enters c
Enters-iff c = ground arith

Leaves-iff : (c : ℕ) → (((c == b'q') || ((c == b'Q') || (c == 27))) ≡ true) ↔ Leaves c
Leaves-iff c = ground arith

view_after_iff :
    (m : Menu) (t : List ℕ)
    → m.active_view ≡ menu
    → (view_after m t ≡ dashboard) ↔ (t ≡ text_dashboard)
view_after_iff m t h =
    let P : View → Type 0 = λ v. (v ≡ dashboard) ↔ (t ≡ text_dashboard) in
    if_elim P (str_eq t text_dashboard) (λ e. (λ _. (str_eq_iff t text_dashboard).0 e, λ _. refl))
      (λ e. (λ v. absurd cc, λ s. absurd (let w = (str_eq_iff t text_dashboard).1 s in cc)))

module _ (stats : SysmonStats) (zstats : ZramStats) where
  enter_view : (m : Menu) → (enter stats zstats m).0.active_view ≡ view_after m m.cmd
  unfolding enter
  enter_view m =
      let echoed = log_print m (codes "> " ++ take 70 m.cmd) in
      end_line_view (execute_command stats zstats echoed m.cmd).1 _
      ∙ execute_command-view stats zstats echoed m.cmd
      ∙ ap (λ v. if str_eq m.cmd text_dashboard then dashboard else v)
          (log_print_same m (codes "> " ++ take 70 m.cmd)).1

  edit_key_view : (m : Menu) (c : ℕ) → (edit_key stats zstats m c).active_view ≡ m.active_view
  unfolding edit_key
  edit_key_view m c =
      let P : Menu → Type 0 = λ t. t.active_view ≡ m.active_view in
      if_elim P (c == 8) (λ _. refl)
        (λ _.
          if_elim P (leb b' ' c && leb c b'~')
            (λ _. if_elim P (ltb (length m.cmd) (cmd_max - 1)) (λ _. refl) (λ _. refl)) (λ _. refl))

  key_in-Shows :
      (v : View) (m : Menu) (c : ℕ)
      → m.active_view ≡ v
      → ((key_in stats zstats v m c).0.active_view ≡ dashboard) ↔ Shows v m.cmd c
  unfolding key_in dashboard_key menu_key
  key_in-Shows dashboard m c h =
      if_elim (λ (t : Menu). (t.active_view ≡ dashboard) ↔ (¬ Leaves c))
        ((c == b'q') || ((c == b'Q') || (c == 27)))
        (λ e. (λ no_path. absurd cc, λ stays. absurd (stays ((Leaves-iff c).0 e))))
        (λ e. (λ _ l. absurd (let t = (Leaves-iff c).1 l in cc), λ _. h))
  key_in-Shows menu m c h =
      let P : Menu × Outcome → Type 0 =
        λ r. (r.0.active_view ≡ dashboard) ↔ (Enters c × (m.cmd ≡ text_dashboard)) in
      if_elim P ((c == 10) || (c == 13))
        (λ e. (
          λ w. ((Enters-iff c).0 e, (view_after_iff m m.cmd h).0 (sym (enter_view m) ∙ w)),
          λ w. enter_view m ∙ (view_after_iff m m.cmd h).1 w.1,
        ))
        (λ e. (
          λ w. absurd (let s = edit_key_view m c in cc),
          λ w. absurd (let t = (Enters-iff c).1 w.0 in cc),
        ))

  -- After a key the dashboard is shown exactly if it was shown and the key is not q, Q or Escape, or
  -- the menu was shown, the key is Enter and the command line is `dashboard`.
  pub handle_key-Shows :
      (m : Menu) (c : ℕ)
      → ((handle_key stats zstats m c).0.active_view ≡ dashboard) ↔ Shows m.active_view m.cmd c
  unfolding handle_key
  handle_key-Shows m c = key_in-Shows m.active_view m c refl

  pub type_keys : Menu → List ℕ → Menu
  unfolding handle_key
  type_keys m [] = m
  type_keys m (c ∷ cs) = type_keys (handle_key stats zstats m c).0 cs

take_all {ℓ} : {A : Type ℓ} (n : ℕ) (xs : List A) → length xs ≤ n → take n xs ≡ xs
take_all zero [] h = refl
take_all zero (x ∷ xs) h = absurd (omega arith)
take_all (suc n) [] h = refl
take_all (suc n) (x ∷ xs) h = ap (λ l. x ∷ l) (take_all n xs (omega arith))

abbrev pub Printable : List ℕ → Type 0
Printable [] = Unit
Printable (c ∷ cs) = (b' ' ≤ c) × (c ≤ b'~') × Printable cs

module _ (stats : SysmonStats) (zstats : ZramStats) where
  handle_key-typed :
      (cmd : List ℕ) (log : List (List ℕ)) (c : ℕ)
      → b' ' ≤ c
      → c ≤ b'~'
      → length cmd < 63
      → (handle_key stats zstats (record { cmd = cmd; log = log; active_view = menu }) c).0
        ≡ record { cmd = cmd ++ c ∷ []; log = log; active_view = menu }
  unfolding handle_key key_in menu_key edit_key
  handle_key-typed cmd log c lo hi room = ground arith

  type_keys-append :
      (text cmd : List ℕ) (log : List (List ℕ))
      → Printable text
      → length cmd + length text < 64
      → type_keys stats zstats (record { cmd = cmd; log = log; active_view = menu }) text
        ≡ record { cmd = cmd ++ text; log = log; active_view = menu }
  unfolding type_keys
  type_keys-append [] cmd log h room =
      ap (λ l. record { cmd = l; log = log; active_view = menu }) (sym (List.append-nil cmd))
  type_keys-append (c ∷ cs) cmd log h room =
      ap (λ m. type_keys stats zstats m cs) (handle_key-typed cmd log c h.0 h.1 (omega arith))
      ∙ type_keys-append cs (cmd ++ c ∷ []) log h.2 (omega (arith, length-append cmd (c ∷ [])))
      ∙ ap (λ l. record { cmd = l; log = log; active_view = menu }) (append_assoc cmd (c ∷ []) cs)

  -- A printable text of at most 63 characters that is typed in the menu at an empty prompt is
  -- echoed and executed unchanged when Enter follows.
  pub type_keys-enter :
      (text : List ℕ) (log : List (List ℕ))
      → Printable text
      → length text < cmd_max
      → handle_key stats zstats
          (type_keys stats zstats (record { cmd = []; log = log; active_view = menu }) text)
          b'\n'
        ≡ (let (m, outcome) =
              execute_command stats zstats
                (log_print
                  (record { cmd = text; log = log; active_view = menu })
                  (codes "> " ++ text))
                text in
            (end_line outcome m, outcome))
  unfolding enter handle_key key_in menu_key
  type_keys-enter text log h room =
      ap (λ m. handle_key stats zstats m b'\n') (type_keys-append text [] log h (omega arith))
      ∙ ap
          (λ l.
            let r =
              execute_command stats zstats
                (log_print (record { cmd = text; log = log; active_view = menu }) (codes "> " ++ l))
                text in
            (end_line r.1 r.0, r.1))
          (take_all 70 text (omega arith))
