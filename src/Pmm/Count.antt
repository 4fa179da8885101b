-- ===== src/Pmm/Count.antt =====
-- How many of the first frames are used, and how a write to the bitmap changes that.
use aura_os.Base.{
  ℕ, zero, suc, ◌+◌, ◌≤◌, ◌<◌, ◌≡◌, refl, Bool, true, false, List, [], ◌∷◌, arith, length, get_or,
  set, replicate,
}

abbrev pub bit_value : Bool → ℕ
bit_value true = 1
bit_value false = 0

unfoldable pub count_used : ℕ → List Bool → ℕ
count_used zero bs = 0
count_used (suc n) [] = 0
count_used (suc n) (b ∷ bs) = bit_value b + count_used n bs

pub count_used-le : (n : ℕ) (bs : List Bool) → count_used n bs ≤ n
unfolding count_used
count_used-le zero bs = omega arith
count_used-le (suc n) [] = omega arith
count_used-le (suc n) (true ∷ bs) = omega (arith, count_used-le n bs)
count_used-le (suc n) (false ∷ bs) = omega (arith, count_used-le n bs)

-- A write moves the count by the difference of the bits.
pub count_used-set :
    (n i : ℕ) (bs : List Bool) (v : Bool)
    → i < n
    → i < length bs
    → count_used n (set bs i v) + bit_value (get_or bs i true) ≡ count_used n bs + bit_value v
unfolding count_used
count_used-set zero i bs v h k = absurd (omega arith)
count_used-set (suc n) i [] v h k = absurd (omega arith)
count_used-set (suc n) zero (b ∷ bs) v h k = omega arith
count_used-set (suc n) (suc i) (b ∷ bs) v h k =
    omega (arith, count_used-set n i bs v (omega arith) (omega arith))

pub count_used_all :
    (n : ℕ) (bs : List Bool)
    → n ≤ length bs
    → ((i : ℕ) → i < n → get_or bs i true ≡ true)
    → count_used n bs ≡ n
unfolding count_used
count_used_all zero bs h all = refl
count_used_all (suc n) [] h all = absurd (omega arith)
count_used_all (suc n) (true ∷ bs) h all =
    omega (arith, count_used_all n bs (omega arith) (λ i k. all (suc i) (omega arith)))
count_used_all (suc n) (false ∷ bs) h all = absurd (cc (all 0 (omega arith)))

pub count_used-replicate : (n k : ℕ) → count_used n (replicate k false) ≡ 0
unfolding count_used
count_used-replicate zero k = refl
count_used-replicate (suc n) zero = refl
count_used-replicate (suc n) (suc k) = omega (arith, count_used-replicate n k)
