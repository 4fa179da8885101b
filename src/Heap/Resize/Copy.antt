-- ===== src/Heap/Resize/Copy.antt =====
-- The bytes after the copy of `krealloc`.
use native.Mathlib.Decide.{ℕ_discrete}
use aura_os.Base.{
  ℕ, zero, suc, ◌+◌, ◌≤◌, ◌<◌, ◌≡◌, ◌≢◌, ◌⊎◌, refl, sym, ap, ◌∙◌, inl, arith, ◌==◌, if◌then◌else◌,
  ==_false, ==_iff,
}
use aura_os.Allocator.{Apart}
use aura_os.Heap.Resize.{copy_bytes}

pub copy_bytes_outside :
    (left i : ℕ) (memory : ℕ → ℕ) (dst src a : ℕ)
    → (a < dst + i) ⊎ (dst + i + left ≤ a)
    → copy_bytes left i memory dst src a ≡ memory a
unfolding copy_bytes
copy_bytes_outside zero i memory dst src a out = refl
copy_bytes_outside (suc left) i memory dst src a out =
    let ne : a ≢ dst + i = λ e. omega (arith, e, out) in
    copy_bytes_outside left (i + 1) (λ a. if a == dst + i then memory (src + i) else memory a) dst
      src a (omega (arith, out))
    ∙ rw (==_false a (dst + i) ne) refl

-- Between regions that are apart, each byte arrives.
pub copy_bytes_lem :
    (left i : ℕ) (memory : ℕ → ℕ) (dst src j : ℕ)
    → Apart dst (i + left) src (i + left)
    → i ≤ j
    → j < i + left
    → copy_bytes left i memory dst src (dst + j) ≡ memory (src + j)
unfolding copy_bytes
copy_bytes_lem zero i memory dst src j apart lo hi = absurd (omega arith)
copy_bytes_lem (suc left) i memory dst src j apart lo hi =
    let memory' : ℕ → ℕ = λ a. if a == dst + i then memory (src + i) else memory a in
    elim (ℕ_discrete j i) [
      | yes e ↦
          copy_bytes_outside left (i + 1) memory' dst src (dst + j) (inl (omega (arith, e)))
          ∙ ap (λ t. if t then memory (src + i) else memory (dst + j))
              ((==_iff (dst + j) (dst + i)).1 (ap (λ q. dst + q) e))
          ∙ ap (λ q. memory (src + q)) (sym e)
      | no ne ↦
          let other : src + j ≢ dst + i = λ e. omega (arith, e, apart, hi) in
          copy_bytes_lem left (i + 1) memory' dst src j (omega (arith, apart)) (omega arith)
            (omega arith)
          ∙ ap (λ t. if t then memory (src + i) else memory (src + j))
              (==_false (src + j) (dst + i) other)
    ]
