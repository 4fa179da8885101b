-- ===== src/Serial/Number.antt =====
-- The text of a number reads back as the number, and its digits fit the buffers.
use mathlib.Core.List.{reverse, reverse_aux}
use mathlib.Core.List
use aura_os.Base.{
  ℕ, ◌+◌, ◌-◌, ◌^◌, ◌≤◌, ◌<◌, ◌≡◌, inl, inr, refl, sym, ap, ◌∙◌, Bool, true, false, List, [], ◌∷◌,
  arith, length, ◌==◌, leb, if◌then◌else◌, Bool-cases, ==_iff, drop, take, codes, u32, leb→le,
}
use aura_os.Digits.{dec_char, hex_char, while_digits}
use aura_os.Digits.Value.{
  low_first, low_first-while_digits_dec, length-while_digits_dec, low_first-while_digits_hex,
  length-while_digits_hex,
}
use aura_os.Serial.{print_number, print_signed, print_hex_pointer}

abbrev pub base_of : Bool → ℕ
base_of true = 16
base_of false = 10

-- The number that a text of digits stands for.
abbrev pub value : ℕ → List ℕ → ℕ
value base text = low_first base (reverse text)

length-reverse_aux : (xs ys : List ℕ) → length (reverse_aux xs ys) ≡ length xs + length ys
length-reverse_aux [] ys = omega arith
length-reverse_aux (x ∷ xs) ys = omega (arith, length-reverse_aux xs (x ∷ ys))

length-reverse : (xs : List ℕ) → length (reverse xs) ≡ length xs
length-reverse xs = omega (arith, length-reverse_aux xs [])

value-reverse : (base : ℕ) (xs : List ℕ) → value base (reverse xs) ≡ low_first base xs
value-reverse base xs = ap (low_first base) (List.reverse-reverse xs)

number_lem :
    (v : ℕ) (hex : Bool)
    → v < 2 ^ 32
    → (value (base_of hex) (print_number v hex) ≡ v)
      × (length (print_number v hex) ≤ (if hex then 8 else 10))
unfolding print_number
number_lem v hex h = elim (Bool-cases (v == 0)) [
  | inl e ↦ rw e (zero_text hex (sym ((==_iff v 0).0 e)))
  | inr e ↦ rw e (digits_text v hex h)
]
  where
    zero_text :
        (hex : Bool)
        → 0 ≡ v
        → (value (base_of hex) (b'0' ∷ []) ≡ v)
          × (length {A = ℕ} (b'0' ∷ []) ≤ (if hex then 8 else 10))
    zero_text true z = (z, omega arith)
    zero_text false z = (z, omega arith)

    digits_text :
        (v : ℕ) (hex : Bool)
        → v < 2 ^ 32
        → (value (base_of hex) (
              reverse
                (if hex then while_digits hex_char 16 32 v else while_digits dec_char 10 32 v))
            ≡ v)
          × (length (
                reverse
                  (if hex then while_digits hex_char 16 32 v else while_digits dec_char 10 32 v))
              ≤ (if hex then 8 else 10))
    digits_text v true h =
        let ds = while_digits hex_char 16 32 v in
        (
          value-reverse 16 ds ∙ low_first-while_digits_hex 32 v (omega arith),
          omega (arith, length-reverse ds, length-while_digits_hex 32 8 v (omega arith)),
        )
    digits_text v false h =
        let ds = while_digits dec_char 10 32 v in
        (
          value-reverse 10 ds ∙ low_first-while_digits_dec 32 v (omega arith),
          omega (arith, length-reverse ds, length-while_digits_dec 32 10 v (omega arith)),
        )

-- For any 32-bit number, in either base, the text that is sent stands for the number, and its digits
-- fit the buffer, of 8 characters for base 16 and 10 for base 10. As a signed number, a pattern from
-- 2 ^ 31 on, the least one too, is sent as a minus sign and the text of its absolute value.
pub print_number_lem :
    (v : ℕ) (hex : Bool)
    → v < 2 ^ 32
    → (value (base_of hex) (print_number v hex) ≡ v)
      × (length (print_number v hex) ≤ (if hex then 8 else 10))
      × (value 10 (drop (if leb (2 ^ 31) v then 1 else 0) (print_signed v))
          ≡ (if leb (2 ^ 31) v then 2 ^ 32 - v else v))
      × (take (if leb (2 ^ 31) v then 1 else 0) (print_signed v)
          ≡ (if leb (2 ^ 31) v then b'-' ∷ [] else []))
unfolding print_signed
print_number_lem v hex h =
    let (read, fits) = number_lem v hex h in
    elim (Bool-cases (leb (2 ^ 31) v)) [
      | inl e ↦
          let high = leb→le (2 ^ 31) v e in
          let small : u32 (2 ^ 32 - v) ≡ 2 ^ 32 - v = omega arith in
          (
            read,
            fits,
            rw e ((number_lem (u32 (2 ^ 32 - v)) false (omega arith)).0 ∙ small),
            rw e refl,
          )
      | inr e ↦ (read, fits, rw e (number_lem v false h).0, rw e refl)
    ]

-- A pointer is sent as "0x" and the text of the 64-bit number in base 16, of 16 digits at most.
pub print_hex_pointer_lem :
    (p : ℕ)
    → p < 2 ^ 64
    → (take 2 (print_hex_pointer p) ≡ codes "0x")
      × (value 16 (drop 2 (print_hex_pointer p)) ≡ p)
      × (length (print_hex_pointer p) ≤ 18)
unfolding print_hex_pointer
print_hex_pointer_lem p h = elim (Bool-cases (p == 0)) [
  | inl e ↦ rw e (refl, sym ((==_iff p 0).0 e), omega arith)
  | inr e ↦
      let ds = while_digits hex_char 16 64 p in
      rw e (
        refl,
        value-reverse 16 ds ∙ low_first-while_digits_hex 64 p (omega arith),
        omega (arith, length-reverse ds, length-while_digits_hex 64 16 p (omega arith)),
      )
]
