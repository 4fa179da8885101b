-- ===== src/Base/Masks.antt =====
-- The masks that clear low bits, as in `x & ~7`, at any word.
use Prim.Native.Nat.{
  ℕ, zero, suc, ◌+◌, ◌-◌, ◌*◌, ◌/◌, ◌%◌, ◌^◌, ◌≤◌, ◌<◌, min, bit_and, digits, bit_and-bitwise,
}
use Prim.Native.Nat.pow
use mathlib.Core.Path.{◌≡◌, refl, ap, ◌∙◌}
use native.Mathlib.Omega.{arith}

-- `bit_and` in `n` digits.
abbrev and_in : ℕ → ℕ → ℕ → ℕ
and_in n a b = digits (λ _. 0) min n a b

and_in_enough : (a : ℕ) (n m b : ℕ) → a ≤ n → a ≤ m → and_in n a b ≡ and_in m a b
and_in_enough zero zero zero b p q = refl
and_in_enough zero zero (suc m) b p q = refl
and_in_enough zero (suc n) zero b p q = refl
and_in_enough zero (suc n) (suc m) b p q = refl
and_in_enough (suc a) zero m b p q = absurd (omega arith)
and_in_enough (suc a) (suc n) zero b p q = absurd (omega arith)
and_in_enough (suc a) (suc n) (suc m) b p q =
    ap (λ t. t * 2 + min (suc a % 2) (b % 2))
      (and_in_enough (suc a / 2) n m (b / 2) (omega arith) (omega arith))

low_digit : (a b : ℕ) → bit_and a b ≡ bit_and (a / 2) (b / 2) * 2 + min (a % 2) (b % 2)
low_digit zero b = omega (arith, bit_and-bitwise 0 b, bit_and-bitwise (0 / 2) (b / 2))
low_digit (suc a) b =
    let whole = bit_and-bitwise (suc a) b in
    let half = bit_and-bitwise (suc a / 2) (b / 2) in
    let digits_left = and_in_enough (suc a / 2) a (suc a / 2) (b / 2) (omega arith) (omega arith) in
    omega arith

-- `k` ones.
ones : ℕ → ℕ
ones zero = 0
ones (suc k) = ones k * 2 + 1

-- A number whose digits below the `k` ones are all that it has.
bit_and-ones : (k a : ℕ) → a < 2 ^ k → bit_and a (ones k) ≡ a
unfolding ones
bit_and-ones zero a h =
    let none_left : a ≡ 0 = omega arith in
    ap (λ t. bit_and t 0) none_left ∙ omega (arith, none_left)
bit_and-ones (suc k) a h =
    let half : bit_and (a / 2) (ones k) ≡ a / 2 =
      bit_and-ones k (a / 2) (omega (arith, pow.suc 2 k)) in
    let odd : (ones k * 2 + 1) / 2 ≡ ones k = omega arith in
    let same = ap (bit_and (a / 2)) odd in omega (arith, low_digit a (ones k * 2 + 1))

-- `m` with `s` zeros behind it, and `a` with its `s` low digits cleared and dropped.
abbrev shifted : ℕ → ℕ → ℕ
shifted zero m = m
shifted (suc s) m = shifted s m * 2

abbrev cleared : ℕ → ℕ → ℕ
cleared zero a = a
cleared (suc s) a = cleared s (a / 2) * 2

abbrev dropped : ℕ → ℕ → ℕ
dropped zero a = a
dropped (suc s) a = dropped s (a / 2)

bit_and-shifted : (s k a : ℕ) → dropped s a < 2 ^ k → bit_and a (shifted s (ones k)) ≡ cleared s a
bit_and-shifted zero k a h = bit_and-ones k a h
bit_and-shifted (suc s) k a h =
    let even : shifted s (ones k) * 2 / 2 ≡ shifted s (ones k) = omega arith in
    let same = ap (bit_and (a / 2)) even in
    omega (arith, low_digit a (shifted s (ones k) * 2), bit_and-shifted s k (a / 2) h)

-- `x & ~7` and `x & ~4095` in 64 bits.
pub bit_and_low3 : (a : ℕ) → a < 2 ^ 64 → bit_and a (2 ^ 64 - 8) ≡ a / 8 * 8
unfolding ones
bit_and_low3 a h =
    let mask : shifted 3 (ones 61) ≡ 2 ^ 64 - 8 = refl in
    ap (bit_and a) mask ∙ bit_and-shifted 3 61 a (omega arith) ∙ omega arith

pub bit_and_low12 : (a : ℕ) → a < 2 ^ 64 → bit_and a (2 ^ 64 - 4096) ≡ a / 4096 * 4096
unfolding ones
bit_and_low12 a h =
    let mask : shifted 12 (ones 52) ≡ 2 ^ 64 - 4096 = refl in
    ap (bit_and a) mask ∙ bit_and-shifted 12 52 a (omega arith) ∙ omega arith

ones_lem : (k : ℕ) → ones k + 1 ≡ 2 ^ k
unfolding ones
ones_lem zero = refl
ones_lem (suc k) = omega (arith, ones_lem k, pow.suc 2 k)

-- `k` and `s`, added by the digits that are shifted in.
abbrev longer : ℕ → ℕ → ℕ
longer zero k = k
longer (suc s) k = suc (longer s k)

longer_sum : (s k : ℕ) → longer s k ≡ k + s
longer_sum zero k = omega arith
longer_sum (suc s) k = omega (arith, longer_sum s k)

shifted-ones : (s k : ℕ) → shifted s (ones k) + 2 ^ s ≡ 2 ^ longer s k
shifted-ones zero k = ones_lem k
shifted-ones (suc s) k = omega (arith, shifted-ones s k, pow.suc 2 s, pow.suc 2 (longer s k))

dropped-le : (s k a : ℕ) → a < 2 ^ longer s k → dropped s a < 2 ^ k
dropped-le zero k a h = h
dropped-le (suc s) k a h = dropped-le s k (a / 2) (omega (arith, pow.suc 2 (longer s k)))

cleared_bounds : (s a : ℕ) → (cleared s a ≤ a) × (a < cleared s a + 2 ^ s)
cleared_bounds zero a = omega arith
cleared_bounds (suc s) a = omega (arith, cleared_bounds s (a / 2), pow.suc 2 s)

cleared_multiple : (s a : ℕ) → cleared s a ≡ dropped s a * 2 ^ s
cleared_multiple zero a = omega arith
cleared_multiple (suc s) a =
    ap (λ t. t * 2) (cleared_multiple s (a / 2)) ∙ grind (arith, pow.suc 2 s)

-- `x & ~(2^s - 1)` in 64 bits is the last multiple of 2^s that is not above `x`.
pub bit_and_low :
    (s k a : ℕ)
    → k + s ≡ 64
    → a < 2 ^ 64
    → (q : ℕ) × (bit_and a (2 ^ 64 - 2 ^ s) ≡ q * 2 ^ s) × (q * 2 ^ s ≤ a) × (a < q * 2 ^ s + 2 ^ s)
bit_and_low s k a e h =
    let whole : longer s k ≡ 64 = longer_sum s k ∙ e in
    let top : 2 ^ longer s k ≡ 2 ^ 64 = ap (λ t. 2 ^ t) whole in
    let mask : 2 ^ 64 - 2 ^ s ≡ shifted s (ones k) = omega (arith, shifted-ones s k, top) in
    let low = ap (bit_and a) mask ∙ bit_and-shifted s k a (dropped-le s k a (omega (arith, top))) in
    let bounds = cleared_bounds s a in
    let multiple = cleared_multiple s a in
    (dropped s a, low ∙ multiple, omega (arith, bounds, multiple), omega (arith, bounds, multiple))

-- A power of two has no digit in common with what is below it.
pub bit_and-power : (s : ℕ) → bit_and (2 ^ s) (2 ^ s - 1) ≡ 0
bit_and-power zero = refl
bit_and-power (suc s) =
    let one = low_digit (2 ^ suc s) (2 ^ suc s - 1) in
    let half : 2 ^ suc s / 2 ≡ 2 ^ s = omega (arith, pow.suc 2 s) in
    let rest : (2 ^ suc s - 1) / 2 ≡ 2 ^ s - 1 = omega (arith, pow.suc 2 s) in
    let same =
      ap (λ t. bit_and t ((2 ^ suc s - 1) / 2)) half
      ∙ ap (bit_and (2 ^ s)) rest
      ∙ bit_and-power s in
    omega (arith, one, same, pow.suc 2 s)
