-- ===== src/Pagefault/Hex.antt =====
-- The hexadecimal text of an address is read back as the address.
use aura_os.Base.{
  ℕ, zero, suc, ◌+◌, ◌-◌, ◌*◌, ◌/◌, ◌%◌, ◌^◌, ◌≤◌, ◌<◌, ◌≡◌, refl, ap, ◌∙◌, List, [], ◌∷◌, arith,
  leb, if◌then◌else◌, length,
}
use aura_os.Pagefault.{hex_digit, hex_digits}

abbrev pub digit_value : ℕ → ℕ
digit_value c = if leb c b'9' then c - b'0' else c - b'a' + 10

-- The number that digits stand for, after those that stood for `acc`.
abbrev pub hex_value : ℕ → List ℕ → ℕ
hex_value acc [] = acc
hex_value acc (c ∷ cs) = hex_value (acc * 16 + digit_value c) cs

digit_value-hex_digit : (n : ℕ) → n < 16 → digit_value (hex_digit n) ≡ n
unfolding hex_digit
digit_value-hex_digit zero h = refl
digit_value-hex_digit (suc zero) h = refl
digit_value-hex_digit (suc (suc zero)) h = refl
digit_value-hex_digit (suc (suc (suc zero))) h = refl
digit_value-hex_digit (suc (suc (suc (suc zero)))) h = refl
digit_value-hex_digit (suc (suc (suc (suc (suc zero))))) h = refl
digit_value-hex_digit (suc (suc (suc (suc (suc (suc zero)))))) h = refl
digit_value-hex_digit (suc (suc (suc (suc (suc (suc (suc zero))))))) h = refl
digit_value-hex_digit (suc (suc (suc (suc (suc (suc (suc (suc zero)))))))) h = refl
digit_value-hex_digit (suc (suc (suc (suc (suc (suc (suc (suc (suc zero))))))))) h = refl
digit_value-hex_digit (suc (suc (suc (suc (suc (suc (suc (suc (suc (suc zero)))))))))) h = refl
digit_value-hex_digit (suc (suc (suc (suc (suc (suc (suc (suc (suc (suc (suc zero))))))))))) h =
    refl
digit_value-hex_digit (suc (suc (suc (suc (suc (suc (suc (suc (suc (suc (suc (suc zero))))))))))))
      h =
    refl
digit_value-hex_digit
      (suc (suc (suc (suc (suc (suc (suc (suc (suc (suc (suc (suc (suc zero))))))))))))) h =
    refl
digit_value-hex_digit
      (suc (suc (suc (suc (suc (suc (suc (suc (suc (suc (suc (suc (suc (suc zero)))))))))))))) h =
    refl
digit_value-hex_digit
      (suc (suc (suc (suc (suc (suc (suc (suc (suc (suc (suc (suc (suc (suc (suc zero)))))))))))))))
      h =
    refl
digit_value-hex_digit
      (suc (
        suc
          (suc (suc (suc (suc (suc (suc (suc (suc (suc (suc (suc (suc (suc (suc (n)))))))))))))))))
      h =
    absurd (omega arith)

-- A digit more, at each of the 16 places.
nibble :
    (i acc v : ℕ)
    → i < 16
    → (acc * 16 + v / 2 ^ (i * 4) % 16) * 2 ^ (i * 4) + v % 2 ^ (i * 4)
      ≡ acc * 2 ^ (suc i * 4) + v % 2 ^ (suc i * 4)
nibble zero acc v h = omega arith
nibble (suc (zero)) acc v h = omega arith
nibble (suc (suc (zero))) acc v h = omega arith
nibble (suc (suc (suc (zero)))) acc v h = omega arith
nibble (suc (suc (suc (suc (zero))))) acc v h = omega arith
nibble (suc (suc (suc (suc (suc (zero)))))) acc v h = omega arith
nibble (suc (suc (suc (suc (suc (suc (zero))))))) acc v h = omega arith
nibble (suc (suc (suc (suc (suc (suc (suc (zero)))))))) acc v h = omega arith
nibble (suc (suc (suc (suc (suc (suc (suc (suc (zero))))))))) acc v h = omega arith
nibble (suc (suc (suc (suc (suc (suc (suc (suc (suc (zero)))))))))) acc v h = omega arith
nibble (suc (suc (suc (suc (suc (suc (suc (suc (suc (suc (zero))))))))))) acc v h = omega arith
nibble (suc (suc (suc (suc (suc (suc (suc (suc (suc (suc (suc (zero)))))))))))) acc v h =
    omega arith
nibble (suc (suc (suc (suc (suc (suc (suc (suc (suc (suc (suc (suc (zero))))))))))))) acc v h =
    omega arith
nibble (suc (suc (suc (suc (suc (suc (suc (suc (suc (suc (suc (suc (suc (zero)))))))))))))) acc v
      h =
    omega arith
nibble (suc (suc (suc (suc (suc (suc (suc (suc (suc (suc (suc (suc (suc (suc (zero)))))))))))))))
      acc v h =
    omega arith
nibble
      (suc
        (suc (suc (suc (suc (suc (suc (suc (suc (suc (suc (suc (suc (suc (suc (zero))))))))))))))))
      acc v h =
    omega arith
nibble
      (suc (
        suc
          (suc (suc (suc (suc (suc (suc (suc (suc (suc (suc (suc (suc (suc (suc (n)))))))))))))))))
      acc v h =
    absurd (omega arith)

pub hex_value-hex_digits :
    (n acc v : ℕ) → n ≤ 16 → hex_value acc (hex_digits n v) ≡ acc * 2 ^ (n * 4) + v % 2 ^ (n * 4)
unfolding hex_digits
hex_value-hex_digits zero acc v h = omega arith
hex_value-hex_digits (suc i) acc v h =
    let d = v / 2 ^ (i * 4) % 16 in
    hex_value-hex_digits i (acc * 16 + digit_value (hex_digit d)) v (omega arith)
    ∙ ap (λ k. (acc * 16 + k) * 2 ^ (i * 4) + v % 2 ^ (i * 4))
        (digit_value-hex_digit d (omega arith))
    ∙ nibble i acc v (omega arith)

pub length-hex_digits : (n v : ℕ) → length (hex_digits n v) ≡ n
unfolding hex_digits
length-hex_digits zero v = refl
length-hex_digits (suc i) v = ap suc (length-hex_digits i v)
