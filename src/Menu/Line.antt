-- ===== src/Menu/Line.antt =====
-- What any keys leave: the command line and the log window stay inside their buffers.
use mathlib.Core.List.{map}
use aura_os.Base.{
  ℕ, zero, suc, ◌-◌, ◌≤◌, ◌<◌, sym, ap, ◌&&◌, ◌||◌, List, [], ◌∷◌, ◌++◌, arith, ◌==◌, ltb, leb,
  if_elim, take, drop, length, length-append, length-take, ltb→lt, codes, subst,
}
use aura_os.Sysmon.{SysmonStats}
use aura_os.Zram.Pool.{ZramStats}
use aura_os.Menu.{
  Menu, View, menu, dashboard, Outcome, returned, halted, invalid_opcode, page_fault, cmd_max,
  log_lines, log_print, print_all, str_eq, init, execute_command, enter, dashboard_key, key_in,
  end_line, edit_key, menu_key, handle_key, help_lines, ram_line, zram_line,
}
use aura_os.Menu.Log.{length-latest, print_all-latest}

abbrev pub Short : List (List ℕ) → Type 0
Short [] = Unit
Short (l ∷ ls) = (length l ≤ 78) × Short ls

-- A line leaves room for the terminator in its buffer of 64, 8 rows of 80.
abbrev pub Fits : Menu → Type 0
Fits m = (length m.cmd < cmd_max) × (length m.log ≤ log_lines) × Short m.log

Short-append : (xs ys : List (List ℕ)) → Short xs → Short ys → Short (xs ++ ys)
Short-append [] ys hx hy = hy
Short-append (x ∷ xs) ys hx hy = (hx.0, Short-append xs ys hx.1 hy)

pub Short-drop : (k : ℕ) (xs : List (List ℕ)) → Short xs → Short (drop k xs)
Short-drop zero xs h = h
Short-drop (suc k) [] h = h
Short-drop (suc k) (x ∷ xs) h = Short-drop k xs h.1

Short-map : (msgs : List (List ℕ)) → Short (map (take 78) msgs)
Short-map [] = tt
Short-map (msg ∷ msgs) = (omega (arith, length-take 78 msg), Short-map msgs)

print_all-Fits : (m : Menu) (msgs : List (List ℕ)) → Fits m → Fits (print_all m msgs)
print_all-Fits m msgs h =
    let (log, cmd, view) = print_all-latest msgs m h.1 in
    let all = m.log ++ map (take 78) msgs in
    (
      omega (arith, ap length cmd, h.0),
      omega (arith, ap length log, length-latest all),
      subst Short (sym log) (
          Short-drop (length all - 8) all
            (Short-append m.log (map (take 78) msgs) h.2 (Short-map msgs))),
    )

edit_key-Fits :
    (stats : SysmonStats) (zstats : ZramStats) (m : Menu) (c : ℕ)
    → Fits m
    → Fits (edit_key stats zstats m c)
unfolding edit_key
edit_key-Fits stats zstats m c h =
    if_elim Fits (c == 8)
      (λ _. (omega (arith, h.0, length-take (length m.cmd - 1) m.cmd), h.1, h.2))
      (λ _.
        if_elim Fits (leb b' ' c && leb c b'~')
          (λ _.
            if_elim Fits (ltb (length m.cmd) (cmd_max - 1))
              (λ e.
                (omega (arith, ltb→lt (length m.cmd) 63 e, length-append m.cmd (c ∷ [])), h.1, h.2))
              (λ _. h))
          (λ _. h))

execute_command-Fits :
    (stats : SysmonStats) (zstats : ZramStats) (m : Menu) (text : List ℕ)
    → Fits m
    → Fits (execute_command stats zstats m text).0
unfolding execute_command
execute_command-Fits stats zstats m [] h = h
execute_command-Fits stats zstats m (c ∷ cs) h =
    let t = c ∷ cs in
    let P : Menu × Outcome → Type 0 = λ r. Fits r.0 in
    if_elim P (str_eq t (codes "help")) (λ _. print_all-Fits m help_lines h)
      (λ _.
        if_elim P (str_eq t (codes "info"))
          (λ _.
            print_all-Fits m
              (codes "[AuraOS v0.2.3] x86_64 freestanding C kernel"
                ∷ codes "Console: VGA 80x25 @ 0xB8000 + COM1 UART 115200"
                ∷ [])
              h)
          (λ _.
            if_elim P (str_eq t (codes "mem"))
              (λ _.
                print_all-Fits m
                  (ram_line stats
                    ∷ codes "  Kernel Heap: 4 MB pool (free-list allocator)"
                    ∷ zram_line zstats
                    ∷ [])
                  h)
              (λ _.
                if_elim P (str_eq t (codes "clear")) (λ _. (h.0, omega arith, tt))
                  (λ _.
                    if_elim P (str_eq t (codes "dashboard")) (λ _. h)
                      (λ _.
                        if_elim P (str_eq t (codes "halt"))
                          (λ _. print_all-Fits m (codes "System halted." ∷ []) h)
                          (λ _.
                            if_elim P (str_eq t (codes "panic")) (λ _. h)
                              (λ _.
                                if_elim P (str_eq t (codes "pf"))
                                  (λ _.
                                    print_all-Fits m
                                      (codes "Triggering page fault (write to 0xdead0000)..." ∷ [])
                                      h)
                                  (λ _.
                                    print_all-Fits m
                                      (codes "Unknown command. Type 'help' for list." ∷ [])
                                      h))))))))

end_line-Fits : (outcome : Outcome) (m : Menu) → Fits m → Fits (end_line outcome m)
unfolding end_line
end_line-Fits returned m h = (omega arith, h.1, h.2)
end_line-Fits halted m h = h
end_line-Fits invalid_opcode m h = h
end_line-Fits page_fault m h = h

enter-Fits :
    (stats : SysmonStats) (zstats : ZramStats) (m : Menu) → Fits m → Fits (enter stats zstats m).0
unfolding enter log_print
enter-Fits stats zstats m h =
    let echoed = log_print m (codes "> " ++ take 70 m.cmd) in
    let ran =
      execute_command-Fits stats zstats echoed m.cmd
        (print_all-Fits m ((codes "> " ++ take 70 m.cmd) ∷ []) h) in
    end_line-Fits (execute_command stats zstats echoed m.cmd).1 _ ran

key_in-Fits :
    (stats : SysmonStats) (zstats : ZramStats) (v : View) (m : Menu) (c : ℕ)
    → Fits m
    → Fits (key_in stats zstats v m c).0
unfolding key_in dashboard_key menu_key
key_in-Fits stats zstats dashboard m c h =
    if_elim Fits ((c == b'q') || ((c == b'Q') || (c == 27))) (λ _. h) (λ _. h)
key_in-Fits stats zstats menu m c h =
    let P : Menu × Outcome → Type 0 = λ r. Fits r.0 in
    if_elim P ((c == 10) || (c == 13)) (λ _. enter-Fits stats zstats m h)
      (λ _. edit_key-Fits stats zstats m c h)

-- The states that keys lead to from the one that `menu_init` leaves.
pub data Reached (stats : SysmonStats) (zstats : ZramStats) : Menu → Type 0 where
  started : (m : Menu) → Reached stats zstats (init m)
  pressed :
      (m : Menu) (c : ℕ)
      → Reached stats zstats m
      → Reached stats zstats (handle_key stats zstats m c).0

init-Fits : (m : Menu) → Fits (init m)
unfolding init
init-Fits m =
    print_all-Fits (record { cmd = []; log = []; active_view = menu })
      (codes "AuraOS Command Shell ready."
        ∷ codes "Type 'help' for commands, or 'dashboard' for btop view."
        ∷ [])
      (omega arith, omega arith, tt)

-- Whatever keys follow `menu_init`, the command line with its terminator fits `cmd_buf`, and the
-- log is at most eight lines of at most 78 characters.
pub Reached-Fits :
    (stats : SysmonStats) (zstats : ZramStats) {m : Menu} → Reached stats zstats m → Fits m
unfolding handle_key
Reached-Fits stats zstats (started m) = init-Fits m
Reached-Fits stats zstats (pressed m c r) =
    key_in-Fits stats zstats m.active_view m c (Reached-Fits stats zstats r)
