-- ===== src/Heap/Resize.antt =====
-- `krealloc` and `kmalloc_aligned` of kernel/core/heap.c. The bytes of the allocations are a memory of
-- their own, by address, and so are the words that `kmalloc_aligned` writes.
pub mod Copy
pub mod Realloc
pub mod Aligned
mod Examples
use Prim.Native.Nat.{bit_and}
use native.Mathlib.Decide.{ℕ_discrete}
use aura_os.Base.{
  ℕ, zero, suc, ◌+◌, ◌-◌, ◌^◌, ◌≤◌, ◌<◌, ◌≡◌, ◌≢◌, ◌⊎◌, refl, sym, ap, ◌∙◌, Bool, true, false, ◌||◌,
  not, inl, inr, arith, ◌==◌, if◌then◌else◌, if_elim, ==_refl, ==_false, ==_iff, Bool-cases, leb,
  lt→leb, subst, u64,
}
use aura_os.Allocator.{Apart}
use aura_os.Heap.{Heap, align_up, kmalloc, kfree, header_size}
use aura_os.Heap.Fields.{size_of, used_of}
use aura_os.Heap.Invariant.{Inv}
use aura_os.Heap.Take.{align_up_lem, true_ne_false, Kept, Granted, Done}
use aura_os.Heap.Obtain.{kmalloc-Done}
use aura_os.Heap.Release.{Keeps, kfree-Keeps}
use aura_os.Heap.Accounts.{IsLive, IsLive-Kept}
use aura_os.Heap.Separate.{IsLive-Apart}

-- The loop that copies the bytes from `i` on, `left` of them.
pub copy_bytes : ℕ → ℕ → (ℕ → ℕ) → ℕ → ℕ → ℕ → ℕ
copy_bytes zero i memory dst src = memory
copy_bytes (suc left) i memory dst src =
    copy_bytes left (i + 1) (λ a. if a == dst + i then memory (src + i) else memory a) dst src

pub krealloc : ℕ → ℕ → Heap → (ℕ → ℕ) → ℕ → ℕ → ℕ × Heap × (ℕ → ℕ)
unfolding copy_bytes
krealloc fuel rounds h memory ptr new_size =
    let blk = ptr - header_size in
    let need = align_up new_size 8 in
    let (first, fresh) = kmalloc fuel rounds h new_size in
    let (p, g) = kmalloc fuel rounds h need in
    if ptr == 0
    then (first, fresh, memory)
    else if new_size == 0
    then (0, kfree h ptr, memory)
    else if leb need (h.nodes blk).size
    then (ptr, h, memory)
    else if p == 0
    then (0, g, memory)
    else (p, kfree g ptr, copy_bytes (g.nodes blk).size 0 memory p ptr)

-- The address, and the heap and the words after it.
pub kmalloc_aligned : ℕ → ℕ → Heap → (ℕ → ℕ) → ℕ → ℕ → ℕ × Heap × (ℕ → ℕ)
kmalloc_aligned fuel rounds h words size align =
    let padded = u64 (size + align + header_size + 8) in
    let (raw, g) = kmalloc fuel rounds h padded in
    let aligned = align_up (u64 (raw + 8)) align in
    if (size == 0) || (align == 0)
    then (0, h, words)
    else if not (bit_and align (align - 1) == 0)
    then (0, h, words)
    else if raw == 0
    then (0, g, words)
    else (aligned, g, (λ a. if a == aligned - 8 then raw else words a))
