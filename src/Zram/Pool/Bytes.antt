-- ===== src/Zram/Pool/Bytes.antt =====
-- Bytes that are written are read back, and bytes elsewhere are as before.
use aura_os.Base.{
  ℕ, zero, suc, ◌+◌, ◌≤◌, ◌<◌, ◌≡◌, ◌⊎◌, inl, inr, refl, ap₂, ◌∙◌, List, [], ◌∷◌, arith, length,
  ==_refl, ==_false, ◌==◌, if◌then◌else◌,
}
use aura_os.Allocator.{Apart}
use aura_os.Zram.Pool.{write_bytes, read_bytes}

write_bytes_outside :
    (memory : ℕ → ℕ) (p : ℕ) (bs : List ℕ) (a : ℕ)
    → (a < p) ⊎ (p + length bs ≤ a)
    → write_bytes memory p bs a ≡ memory a
unfolding write_bytes
write_bytes_outside memory p [] a h = refl
write_bytes_outside memory p (b ∷ bs) a (inl below) =
    write_bytes_outside (λ a. if a == p then b else memory a) (p + 1) bs a (inl (omega arith))
    ∙ rw (==_false a p (λ e. omega arith)) refl
write_bytes_outside memory p (b ∷ bs) a (inr above) =
    write_bytes_outside (λ a. if a == p then b else memory a) (p + 1) bs a (inr (omega arith))
    ∙ rw (==_false a p (λ e. omega arith)) refl

pub read_bytes-write_bytes :
    (memory : ℕ → ℕ) (p : ℕ) (bs : List ℕ) → read_bytes (write_bytes memory p bs) p (length bs) ≡ bs
unfolding read_bytes write_bytes
read_bytes-write_bytes memory p [] = refl
read_bytes-write_bytes memory p (b ∷ bs) =
    let memory' : ℕ → ℕ = λ a. if a == p then b else memory a in
    ap₂ (λ x xs. x ∷ xs)
      (write_bytes_outside memory' (p + 1) bs p (inl (omega arith)) ∙ rw (==_refl p) refl)
      (read_bytes-write_bytes memory' (p + 1) bs)

pub read_bytes-write_bytes_outside :
    (memory : ℕ → ℕ) (p : ℕ) (bs : List ℕ) (q n : ℕ)
    → Apart p (length bs) q n
    → read_bytes (write_bytes memory p bs) q n ≡ read_bytes memory q n
unfolding read_bytes
read_bytes-write_bytes_outside memory p bs q zero d = refl
read_bytes-write_bytes_outside memory p bs q (suc n) (inl d) =
    ap₂ (λ x xs. x ∷ xs) (write_bytes_outside memory p bs q (inr d))
      (read_bytes-write_bytes_outside memory p bs (q + 1) n (inl (omega arith)))
read_bytes-write_bytes_outside memory p bs q (suc n) (inr d) =
    ap₂ (λ x xs. x ∷ xs) (write_bytes_outside memory p bs q (inl (omega arith)))
      (read_bytes-write_bytes_outside memory p bs (q + 1) n (inr (omega arith)))
