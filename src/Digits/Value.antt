-- ===== src/Digits/Value.antt =====
-- The digits stand for the number, they fit the buffers, and both loops write the same.
use aura_os.Base.{
  ℕ, zero, suc, ◌+◌, ◌-◌, ◌*◌, ◌/◌, ◌%◌, ◌≤◌, ◌<◌, ◌≡◌, ◌≢◌, inl, inr, refl, sym, ap, ◌∙◌, List, [],
  ◌∷◌, arith, length, leb, ◌==◌, if◌then◌else◌, Bool-cases, ==_iff, ==_false,
}
use aura_os.Digits.{dec_char, hex_char, while_digits, do_digits}

abbrev pub digit_of : ℕ → ℕ
digit_of c = if leb c b'9' then c - b'0' else c - b'a' + 10

-- The number that a text of digits stands for: its last digit counts once.
abbrev pub low_first : ℕ → List ℕ → ℕ
low_first base [] = 0
low_first base (c ∷ cs) = digit_of c + base * low_first base cs

pub dec_char_digit : (d : ℕ) → d < 10 → digit_of (dec_char d) ≡ d
dec_char_digit d h = ground arith

while_digits-zero : (char : ℕ → ℕ) (base fuel : ℕ) → while_digits char base fuel 0 ≡ []
unfolding while_digits
while_digits-zero char base zero = refl
while_digits-zero char base (suc fuel) = refl

-- A number other than 0 has the same digits in both loops.
pub do_digits-eq :
    (char : ℕ → ℕ) (base fuel v : ℕ)
    → v ≢ 0
    → do_digits char base fuel v ≡ while_digits char base fuel v
unfolding do_digits while_digits
do_digits-eq char base zero v h = refl
do_digits-eq char base (suc fuel) v h =
    let more = ==_false v 0 h in
    elim (Bool-cases (v / base == 0)) [
      | inl e ↦
          let none_left : v / base ≡ 0 = (==_iff (v / base) 0).0 e in
          rw (more, e)
            (ap (λ ds. char (v % base) ∷ ds)
              (sym (ap (while_digits char base fuel) none_left ∙ while_digits-zero char base fuel)))
      | inr e ↦
          rw (more, e)
            (ap (λ ds. char (v % base) ∷ ds)
              (do_digits-eq char base fuel (v / base)
                (λ z. absurd (cc ((==_iff (v / base) 0).1 z)))))
    ]

abbrev pub pow10 : ℕ → ℕ
pow10 zero = 1
pow10 (suc n) = 10 * pow10 n

abbrev pub pow16 : ℕ → ℕ
pow16 zero = 1
pow16 (suc n) = 16 * pow16 n

pub low_first-while_digits_dec :
    (fuel v : ℕ) → v < pow10 fuel → low_first 10 (while_digits dec_char 10 fuel v) ≡ v
unfolding while_digits
low_first-while_digits_dec zero v h = omega arith
low_first-while_digits_dec (suc fuel) v h =
    ground (arith, low_first-while_digits_dec fuel (v / 10), dec_char_digit (v % 10))

pub length-while_digits_dec :
    (fuel k v : ℕ) → v < pow10 k → length (while_digits dec_char 10 fuel v) ≤ k
unfolding while_digits
length-while_digits_dec zero k v h = omega arith
length-while_digits_dec (suc fuel) zero v h = ground arith
length-while_digits_dec (suc fuel) (suc k) v h =
    ground (arith, length-while_digits_dec fuel k (v / 10))

hex_char_digit : (d : ℕ) → d < 16 → digit_of (hex_char d) ≡ d
hex_char_digit zero h = refl
hex_char_digit (suc zero) h = refl
hex_char_digit (suc (suc zero)) h = refl
hex_char_digit (suc (suc (suc zero))) h = refl
hex_char_digit (suc (suc (suc (suc zero)))) h = refl
hex_char_digit (suc (suc (suc (suc (suc zero))))) h = refl
hex_char_digit (suc (suc (suc (suc (suc (suc zero)))))) h = refl
hex_char_digit (suc (suc (suc (suc (suc (suc (suc zero))))))) h = refl
hex_char_digit (suc (suc (suc (suc (suc (suc (suc (suc zero)))))))) h = refl
hex_char_digit (suc (suc (suc (suc (suc (suc (suc (suc (suc zero))))))))) h = refl
hex_char_digit (suc (suc (suc (suc (suc (suc (suc (suc (suc (suc zero)))))))))) h = refl
hex_char_digit (suc (suc (suc (suc (suc (suc (suc (suc (suc (suc (suc zero))))))))))) h = refl
hex_char_digit (suc (suc (suc (suc (suc (suc (suc (suc (suc (suc (suc (suc zero)))))))))))) h = refl
hex_char_digit (suc (suc (suc (suc (suc (suc (suc (suc (suc (suc (suc (suc (suc zero)))))))))))))
      h =
    refl
hex_char_digit
      (suc (suc (suc (suc (suc (suc (suc (suc (suc (suc (suc (suc (suc (suc zero)))))))))))))) h =
    refl
hex_char_digit
      (suc (suc (suc (suc (suc (suc (suc (suc (suc (suc (suc (suc (suc (suc (suc zero)))))))))))))))
      h =
    refl
hex_char_digit
      (suc (
        suc
          (suc (suc (suc (suc (suc (suc (suc (suc (suc (suc (suc (suc (suc (suc (n)))))))))))))))))
      h =
    absurd (omega arith)

pub low_first-while_digits_hex :
    (fuel v : ℕ) → v < pow16 fuel → low_first 16 (while_digits hex_char 16 fuel v) ≡ v
unfolding while_digits
low_first-while_digits_hex zero v h = omega arith
low_first-while_digits_hex (suc fuel) v h = elim (Bool-cases (v == 0)) [
  | inl e ↦ rw e (sym ((==_iff v 0).0 e))
  | inr e ↦ rw e (
      omega (
        arith,
        low_first-while_digits_hex fuel (v / 16) (omega arith),
        hex_char_digit (v % 16) (omega arith),
      ))
]

pub length-while_digits_hex :
    (fuel k v : ℕ) → v < pow16 k → length (while_digits hex_char 16 fuel v) ≤ k
unfolding while_digits
length-while_digits_hex zero k v h = omega arith
length-while_digits_hex (suc fuel) zero v h = ground arith
length-while_digits_hex (suc fuel) (suc k) v h = elim (Bool-cases (v == 0)) [
  | inl e ↦ rw e (omega arith)
  | inr e ↦ rw e (omega (arith, length-while_digits_hex fuel k (v / 16) (omega arith)))
]
