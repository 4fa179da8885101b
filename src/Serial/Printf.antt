-- ===== src/Serial/Printf.antt =====
-- `serial_printf` on a text with its `%` doubled.
use aura_os.Base.{
  ℕ, ◌≡◌, inl, inr, refl, sym, ap, ◌∙◌, false, some, List, [], ◌∷◌, ◌==◌, if◌then◌else◌, Bool-cases,
  ==_iff,
}
use aura_os.Varargs.{Arg}
use aura_os.Serial.{printf_loop, printf}

abbrev pub escape : List ℕ → List ℕ
escape [] = []
escape (c ∷ text) = if c == b'%' then b'%' ∷ b'%' ∷ escape text else c ∷ escape text

printf_loop-cons :
    (c : ℕ) (text : List ℕ) (args : List Arg)
    → (c == b'%') ≡ false
    → printf_loop (c ∷ text) args ≡ c ∷ printf_loop text args
unfolding printf_loop
printf_loop-cons c [] args e = refl
printf_loop-cons c (d ∷ text) args e = rw (e, printf_loop) refl

-- Any text is sent as it is, whatever the arguments, if each `%` in it is written twice.
pub printf-escape : (text : List ℕ) (args : List Arg) → printf (some (escape text)) args ≡ text
unfolding printf
printf-escape [] args = refl
printf-escape (c ∷ text) args = elim (Bool-cases (c == b'%')) [
  | inl e ↦ rw e (
      ap (λ t. b'%' ∷ t) (printf-escape text args) ∙ ap (λ k. k ∷ text) (sym ((==_iff c b'%').0 e)))
  | inr e ↦
      rw e (printf_loop-cons c (escape text) args e ∙ ap (λ t. c ∷ t) (printf-escape text args))
]
