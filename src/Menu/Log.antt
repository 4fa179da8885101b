-- ===== src/Menu/Log.antt =====
-- The log window holds the latest eight messages.
use mathlib.Core.List.{map}
use mathlib.Core.List
use aura_os.Base.{
  ℕ, zero, suc, ◌+◌, ◌-◌, ◌≤◌, ◌≡◌, refl, sym, ap, ◌∙◌, List, [], ◌∷◌, ◌++◌, arith, length, take,
  drop, length-append, length-drop, ltb, inl, inr, Bool-cases, ltb→lt, if_elim,
}
use aura_os.Menu.{Menu, log_lines, log_print, print_all}

abbrev pub latest : List (List ℕ) → List (List ℕ)
latest msgs = drop (length msgs - 8) msgs

module _ {ℓ} {A : Type ℓ} where
  drop-append : (k : ℕ) (xs ys : List A) → k ≤ length xs → drop k (xs ++ ys) ≡ drop k xs ++ ys
  drop-append zero xs ys h = refl
  drop-append (suc k) [] ys h = absurd (omega arith)
  drop-append (suc k) (x ∷ xs) ys h = drop-append k xs ys (omega arith)

  drop-nil : (n : ℕ) → drop n (let e : List A = [] in e) ≡ []
  drop-nil zero = refl
  drop-nil (suc n) = refl

  drop-drop : (j k : ℕ) (xs : List A) → drop j (drop k xs) ≡ drop (k + j) xs
  drop-drop j zero xs = ap (λ n. drop n xs) (omega arith)
  drop-drop j (suc k) [] = drop-nil j ∙ sym (drop-nil (suc k + j))
  drop-drop j (suc k) (x ∷ xs) =
      drop-drop j k xs ∙ ap (λ n. drop n (x ∷ xs)) {x = suc (k + j)} (omega arith)

  pub append_assoc : (xs ys zs : List A) → (xs ++ ys) ++ zs ≡ xs ++ (ys ++ zs)
  append_assoc [] ys zs = refl
  append_assoc (x ∷ xs) ys zs = ap (λ l. x ∷ l) (append_assoc xs ys zs)

latest-append : (xs ys : List (List ℕ)) → latest (latest xs ++ ys) ≡ latest (xs ++ ys)
latest-append xs ys =
    let k = length xs - 8 in
    ap latest (sym (drop-append k xs ys (omega arith)))
    ∙ drop-drop (length (drop k (xs ++ ys)) - 8) k (xs ++ ys)
    ∙ ap (λ n. drop n (xs ++ ys)) (omega (arith, length-drop k (xs ++ ys), length-append xs ys))

log_print-latest :
    (m : Menu) (msg : List ℕ)
    → length m.log ≤ 8
    → (log_print m msg).log ≡ latest (m.log ++ take 78 msg ∷ [])
unfolding log_print
log_print-latest m msg h =
    let n = length-append m.log (take 78 msg ∷ []) in
    elim (Bool-cases (ltb (length m.log) log_lines)) [
      | inl e ↦
          let small = ltb→lt (length m.log) 8 e in
          rw e (ap (λ k. drop k (m.log ++ take 78 msg ∷ [])) {x = 0} (omega (arith, n)))
      | inr e ↦
          let full : 8 ≤ length m.log = ground arith in
          rw e (
            sym (drop-append 1 m.log (take 78 msg ∷ []) (omega arith))
            ∙ ap (λ k. drop k (m.log ++ take 78 msg ∷ [])) {x = 1} (omega (arith, n)))
    ]

pub length-latest : (msgs : List (List ℕ)) → length (latest msgs) ≤ 8
length-latest msgs = omega (arith, length-drop (length msgs - 8) msgs)

pub log_print_same :
    (m : Menu) (msg : List ℕ)
    → ((log_print m msg).cmd ≡ m.cmd) × ((log_print m msg).active_view ≡ m.active_view)
unfolding log_print
log_print_same m msg =
    if_elim (λ (t : Menu). (t.cmd ≡ m.cmd) × (t.active_view ≡ m.active_view))
      (ltb (length m.log) log_lines) (λ _. (refl, refl)) (λ _. (refl, refl))

-- If the log holds at most eight lines, then after any messages it holds the latest eight of those
-- it held and these, each cut to 78 characters, in order; the command line and the view are as
-- before.
pub print_all-latest :
    (msgs : List (List ℕ)) (m : Menu)
    → length m.log ≤ 8
    → ((print_all m msgs).log ≡ latest (m.log ++ map (take 78) msgs))
      × ((print_all m msgs).cmd ≡ m.cmd)
      × ((print_all m msgs).active_view ≡ m.active_view)
unfolding print_all
print_all-latest [] m h = (
  sym (ap latest (List.append-nil m.log) ∙ ap (λ k. drop k m.log) {y = 0} (omega arith)),
  refl,
  refl,
)
print_all-latest (msg ∷ msgs) m h =
    let first = log_print-latest m msg h in
    let (cmd_same, view_same) = log_print_same m msg in
    let (log, cmd, view) =
      print_all-latest msgs (log_print m msg)
        (omega (arith, ap length first, length-latest (m.log ++ take 78 msg ∷ []))) in
    (
      log
          ∙ ap (λ l. latest (l ++ map (take 78) msgs)) first
          ∙ latest-append (m.log ++ take 78 msg ∷ []) (map (take 78) msgs)
          ∙ ap latest (append_assoc m.log (take 78 msg ∷ []) (map (take 78) msgs)),
      cmd ∙ cmd_same,
      view ∙ view_same,
    )
