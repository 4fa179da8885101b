-- ===== src/Tui/Format.antt =====
-- How much of its buffer of 81 bytes `tui_printf_at` fills.
use aura_os.Base.{
  ℕ, ◌+◌, ◌-◌, ◌^◌, ◌≤◌, ◌<◌, ◌≡◌, inl, inr, refl, ap, ◌∙◌, Bool, true, false, ◌||◌, arith, ◌==◌,
  leb, if◌then◌else◌, if_elim, u32, List, [], ◌∷◌, ◌++◌, length, take, length-append, length-take,
  Option-cases, lt→leb, le→leb,
}
use aura_os.Varargs.{Arg, next_arg, as_number, as_text}
use aura_os.Tui.{fit, print_unsigned, print_negative, directive, format}

length-fit : (out s : List ℕ) → length out ≤ 80 → length (fit out s) ≤ 80
length-fit out s h =
    omega (arith, length-append out (take (80 - length out) s), length-take (80 - length out) s)

length-directive :
    (c : ℕ) (args : List Arg) (out : List ℕ)
    → length out < 80
    → length (directive c args out).0 ≤ 81
unfolding directive
length-directive c args out h =
    let a = (next_arg args).0 in
    let rest = (next_arg args).1 in
    let v = u32 (as_number a) in
    let P : List ℕ × List Arg → Type 0 = λ r. length r.0 ≤ 81 in
    if_elim P (c == b's')
      (λ _. elim (Option-cases (as_text a)) [
        | inl e ↦ rw (e, P) (omega arith)
        | inr (t, e) ↦ rw (e, P) (omega (arith, length-fit out t))
      ])
      (λ _.
        if_elim P (c == b'd')
          (λ _.
            if_elim (λ (l : List ℕ). length l ≤ 81) (leb (2 ^ 31) v)
              (λ _. omega (
                arith,
                length-fit (out ++ b'-' ∷ [])
                    (if v == 2 ^ 31 then print_negative v else print_unsigned (u32 (2 ^ 32 - v))),
                length-append out (b'-' ∷ []),
              ))
              (λ _. omega (arith, length-fit out (print_unsigned v))))
          (λ _.
            if_elim P (c == b'u') (λ _. omega (arith, length-fit out (print_unsigned v)))
              (λ _.
                if_elim P (c == b'%') (λ _. omega (arith, length-append out (b'%' ∷ [])))
                  (λ _. omega (arith, length-append out (b'%' ∷ c ∷ []))))))

-- The buffer never takes more than 81 characters, without the terminator, from any format and
-- arguments.
pub length-format :
    (fmt : List ℕ) (args : List Arg) (out : List ℕ)
    → length out ≤ 81
    → length (format fmt args out).0 ≤ 81
unfolding format
length-format [] args out h = h
length-format (c ∷ []) args out h =
    let P : List ℕ × Bool → Type 0 = λ r. length r.0 ≤ 81 in
    if_elim P (leb 80 (length out)) (λ _. h)
      (λ full.
        let room : length out < 80 = ground arith in
        if_elim P (c == b'%') (λ _. omega (arith, length-append out (b'%' ∷ [])))
          (λ _. omega (arith, length-append out (c ∷ []))))
length-format (c ∷ d ∷ fmt) args out h =
    let P : List ℕ × Bool → Type 0 = λ r. length r.0 ≤ 81 in
    let r = directive d args out in
    if_elim P (leb 80 (length out)) (λ _. h)
      (λ full.
        let room : length out < 80 = ground arith in
        if_elim P (c == b'%') (λ _. length-format fmt r.1 r.0 (length-directive d args out room))
          (λ _.
            length-format (d ∷ fmt) args (out ++ c ∷ [])
              (omega (arith, length-append out (c ∷ [])))))

abbrev pub plain : List ℕ → Bool
plain [] = true
plain (c ∷ cs) = if c == b'%' then false else plain cs

-- A conversion that the switch does not know.
abbrev pub unknown : ℕ → Bool
unknown d = if (d == b's') || ((d == b'd') || ((d == b'u') || (d == b'%'))) then false else true

directive-unknown :
    (d : ℕ) (args : List Arg) (out : List ℕ)
    → unknown d ≡ true
    → directive d args out ≡ (out ++ b'%' ∷ d ∷ [], args)
unfolding directive
directive-unknown d args out h =
    let one : (d == b's') ≡ false = ground arith in
    let two : (d == b'd') ≡ false = ground arith in
    let three : (d == b'u') ≡ false = ground arith in
    let four : (d == b'%') ≡ false = ground arith in rw (one, two, three, four) refl

format_full :
    (fmt : List ℕ) (args : List Arg) (out : List ℕ)
    → 80 ≤ length out
    → format fmt args out ≡ (out, false)
unfolding format
format_full [] args out h = refl
format_full (c ∷ []) args out h = rw (le→leb 80 (length out) h) refl
format_full (c ∷ d ∷ fmt) args out h = rw (le→leb 80 (length out) h) refl

-- A character that is put in.
format_char :
    (c d : ℕ) (fmt : List ℕ) (args : List Arg) (out : List ℕ)
    → (c == b'%') ≡ false
    → length out < 80
    → format (c ∷ d ∷ fmt) args out ≡ format (d ∷ fmt) args (out ++ c ∷ [])
unfolding format
format_char c d fmt args out e h = rw (lt→leb 80 (length out) h, e) refl

format_end :
    (d : ℕ) (rest : List ℕ) (args : List Arg) (out : List ℕ)
    → unknown d ≡ true
    → length out ≡ 79
    → length (format (b'%' ∷ d ∷ rest) args out).0 ≡ 81
unfolding format
format_end d rest args out u size =
    let long : length (out ++ b'%' ∷ d ∷ []) ≡ 81 =
      omega (arith, length-append out (b'%' ∷ d ∷ [])) in
    rw (lt→leb 80 (length out) (omega arith), directive-unknown d args out u)
      (ap (λ (r : List ℕ × Bool). length r.0)
          (format_full rest args (out ++ b'%' ∷ d ∷ []) (omega arith))
        ∙ long)

-- Where the characters in the buffer and the plain ones that a format goes on with make up 79, an
-- unknown conversion behind them fills all 81 bytes, whatever follows, so that the terminator is
-- written behind the buffer.
pub format_overflow :
    (text : List ℕ) (d : ℕ) (rest : List ℕ) (args : List Arg) (out : List ℕ)
    → plain text ≡ true
    → unknown d ≡ true
    → length out + length text ≡ 79
    → length (format (text ++ b'%' ∷ d ∷ rest) args out).0 ≡ 81
format_overflow [] d rest args out p u size = format_end d rest args out u (omega arith)
format_overflow (c ∷ []) d rest args out p u size =
    let e : (c == b'%') ≡ false = ground arith in
    ap (λ (r : List ℕ × Bool). length r.0) (format_char c b'%' (d ∷ rest) args out e (omega arith))
    ∙ format_end d rest args (out ++ c ∷ []) u (omega (arith, length-append out (c ∷ [])))
format_overflow (c ∷ c' ∷ cs) d rest args out p u size =
    let e : (c == b'%') ≡ false = ground arith in
    let others : plain (c' ∷ cs) ≡ true = ground arith in
    ap (λ (r : List ℕ × Bool). length r.0)
      (format_char c c' (cs ++ b'%' ∷ d ∷ rest) args out e (omega arith))
    ∙ format_overflow (c' ∷ cs) d rest args (out ++ c ∷ []) others u
        (omega (arith, length-append out (c ∷ [])))
