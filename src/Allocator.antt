-- ===== src/Allocator.antt =====
-- What the parts above the kernel heap use of it (kernel/include/aura/heap.h): `kmalloc` and `kfree`, on
-- a state of the heap, with the laws that its clients rely on. `Live s p n` says that `p` is an
-- allocation of `n` bytes at least.
pub mod Calls
use aura_os.Base.{ℕ, ◌+◌, ◌^◌, ◌≤◌, ◌<◌, ◌≢◌, ◌⊎◌}

-- The bytes from `p` and those from `q` have none in common.
abbrev pub Apart : ℕ → ℕ → ℕ → ℕ → Type 0
Apart p n q m = (p + n ≤ q) ⊎ (q + m ≤ p)

pub record Allocator : Type 1 where
  pub State : Type 0
  pub IsValid : State → Type 0
  pub Live : State → ℕ → ℕ → Type 0
  pub kmalloc : State → ℕ → ℕ × State
  pub kfree : State → ℕ → State
  pub kmalloc-IsValid : (s : State) (n : ℕ) → IsValid s → n < 2 ^ 32 → IsValid (kmalloc s n).1
  pub kfree-IsValid : (s : State) (p n : ℕ) → IsValid s → Live s p n → IsValid (kfree s p)
  pub kmalloc-Live :
      (s : State) (n : ℕ)
      → IsValid s
      → 0 < n
      → n < 2 ^ 32
      → (kmalloc s n).0 ≢ 0
      → Live (kmalloc s n).1 (kmalloc s n).0 n
  pub kmalloc_other :
      (s : State) (n q m : ℕ) → IsValid s → n < 2 ^ 32 → Live s q m → Live (kmalloc s n).1 q m
  pub kmalloc-Apart :
      (s : State) (n q m : ℕ)
      → IsValid s
      → 0 < n
      → n < 2 ^ 32
      → (kmalloc s n).0 ≢ 0
      → Live s q m
      → Apart (kmalloc s n).0 n q m
  pub kfree_other :
      (s : State) (p n q m : ℕ) → IsValid s → Live s p n → Live s q m → p ≢ q → Live (kfree s p) q m
