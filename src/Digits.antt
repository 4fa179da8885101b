-- ===== src/Digits.antt =====
-- The loops that split a number into digits, the lowest first, as the drivers and the menu write them.
-- The fuel is the number of rounds that are possible; `Digits.Value` shows how many a number needs.
pub mod Value
use aura_os.Base.{ℕ, zero, suc, ◌+◌, ◌/◌, ◌%◌, List, [], ◌∷◌, ◌==◌, if◌then◌else◌, get_or, codes}

-- `'0' + d`, and `hex_digits[d]`.
abbrev pub dec_char : ℕ → ℕ
dec_char d = b'0' + d

abbrev pub hex_char : ℕ → ℕ
hex_char d = get_or (codes "0123456789abcdef") d 0

-- `while (v != 0) { tmp[i++] = …v % base…; v /= base; }`
unfoldable pub while_digits : (ℕ → ℕ) → ℕ → ℕ → ℕ → List ℕ
while_digits char base zero v = []
while_digits char base (suc fuel) v =
    let rest = while_digits char base fuel (v / base) in
    if v == 0 then [] else char (v % base) ∷ rest

-- `do { tmp[i++] = …v % base…; v /= base; } while (v);`
unfoldable pub do_digits : (ℕ → ℕ) → ℕ → ℕ → ℕ → List ℕ
do_digits char base zero v = []
do_digits char base (suc fuel) v =
    let rest = do_digits char base fuel (v / base) in
    char (v % base) ∷ (if v / base == 0 then [] else rest)
