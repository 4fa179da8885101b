-- ===== src/Heap/Resize/Aligned.antt =====
-- Where `kmalloc_aligned` places an allocation.
use Prim.Native.Nat.{bit_and}
use aura_os.Base.{
  ℕ, ◌+◌, ◌-◌, ◌*◌, ◌^◌, ◌≤◌, ◌<◌, ◌≡◌, ◌≢◌, ◌⊎◌, ◌||◌, refl, sym, ap, ◌∙◌, Bool, not, inl, inr,
  arith, ◌==◌, if◌then◌else◌, if_elim, ==_refl, ==_iff, subst, u64,
}
use aura_os.Base.Masks.{bit_and_low, bit_and-power}
use aura_os.Heap.{Heap, align_up, kmalloc, header_size}
use aura_os.Heap.Invariant.{Inv}
use aura_os.Heap.Take.{true_ne_false, Kept, Granted}
use aura_os.Heap.Obtain.{kmalloc-Done}
use aura_os.Heap.Accounts.{IsLive}
use aura_os.Heap.Resize.{kmalloc_aligned}

-- The address is a multiple of the alignment, inside an allocation with a word before it and `size`
-- bytes behind it, and that word holds the address of the allocation.
pub record Placed (h : Heap) (blocks : ℕ → Bool) (size align p : ℕ) (words : ℕ → ℕ) : Type 0 where
  pub raw : ℕ
  pub live : IsLive h blocks (size + align + 56) raw
  pub multiple : ℕ
  pub aligned : p ≡ multiple * align
  pub after : raw + 8 ≤ p
  pub inside : p + size ≤ raw + (size + align + 56)
  pub kept : words (p - 8) ≡ raw

pub record Allocated (h : Heap) (blocks : ℕ → Bool) (size align : ℕ) (r : ℕ × Heap × (ℕ → ℕ))
    : Type 0 where
  pub blocks' : ℕ → Bool
  pub inv : Inv r.1 blocks' 0
  pub kept : Kept h blocks r.1 blocks' 0
  pub answer : (r.0 ≡ 0) ⊎ Placed r.1 blocks' size align r.0 r.2

module _ (h : Heap) (blocks : ℕ → Bool) (size s k : ℕ) (words : ℕ → ℕ) (sum : k + s ≡ 64) (g : Heap)
    (blocks' : ℕ → Bool) (raw : ℕ) (inv : Inv g blocks' 0) (positive : 0 < 2 ^ s)
    (got : Granted h blocks (size + 2 ^ s + 56) raw g blocks') where
  abbrev aligned : ℕ
  aligned = align_up (u64 (raw + 8)) (2 ^ s)

  in_words : raw + (size + 2 ^ s + 56) ≤ 2 ^ 64
  in_words =
      let b = (inv.layout.bound got.block got.mine).1 in omega (arith, b, got.enough, got.payload)

  placed : Placed g blocks' size (2 ^ s) aligned (λ a. if a == aligned - 8 then raw else words a)
  placed =
      let x : u64 (u64 (raw + 8) + (2 ^ s - 1)) ≡ raw + 8 + (2 ^ s - 1) =
        omega (arith, in_words, positive) in
      let (q, e, below, above) =
        bit_and_low s k (raw + 8 + (2 ^ s - 1)) sum (omega (arith, in_words, positive)) in
      let at : aligned ≡ q * 2 ^ s = ap (λ t. bit_and t (2 ^ 64 - 2 ^ s)) x ∙ e in
      record {
        raw = raw;
        live = record {
          block = got.block;
          payload = got.payload;
          mine = got.mine;
          used = got.used;
          enough = got.enough;
        };
        multiple = q;
        aligned = at;
        after = omega (arith, at, above);
        inside = omega (arith, at, below, positive);
        kept = rw (==_refl (aligned - 8)) refl;
      }

power-positive : (s k : ℕ) → k + s ≡ 64 → 0 < 2 ^ s
power-positive s k sum =
    let (q, e, below, above) = bit_and_low s k 0 sum (omega arith) in omega (arith, above, below)

-- Let the invariant hold, let the size be other than 0 and the alignment be 2 ^ s, and let the sum of
-- both and 63 be less than 2 ^ 64. Then the invariant holds after `kmalloc_aligned`, every block in
-- use keeps its mark and its size, and the result is NULL or a multiple of the alignment, with `size`
-- bytes behind it and the address of the allocation in the word before it, all inside an allocation.
pub kmalloc_aligned-Allocated :
    (fuel rounds : ℕ) (h : Heap) (blocks : ℕ → Bool) (words : ℕ → ℕ) (size s k : ℕ)
    → Inv h blocks 0
    → size ≢ 0
    → k + s ≡ 64
    → size + 2 ^ s + 63 < 2 ^ 64
    → Allocated h blocks size (2 ^ s) (kmalloc_aligned fuel rounds h words size (2 ^ s))
unfolding kmalloc_aligned
kmalloc_aligned-Allocated fuel rounds h blocks words size s k v bytes sum room =
    let positive = power-positive s k sum in
    let padded : u64 (size + 2 ^ s + header_size + 8) ≡ size + 2 ^ s + 56 = omega (arith, room) in
    let g = (kmalloc fuel rounds h (u64 (size + 2 ^ s + header_size + 8))).1 in
    let raw = (kmalloc fuel rounds h (u64 (size + 2 ^ s + header_size + 8))).0 in
    let d =
      kmalloc-Done fuel rounds h blocks (u64 (size + 2 ^ s + header_size + 8)) v
        (omega (arith, padded, room)) in
    let P = λ (r : ℕ × Heap × (ℕ → ℕ)). Allocated h blocks size (2 ^ s) r in
    if_elim P ((size == 0) || (2 ^ s == 0)) (λ z. absurd (ground arith))
      (λ _.
        if_elim P (not (bit_and (2 ^ s) (2 ^ s - 1) == 0))
          (λ z. absurd (true_ne_false (sym z ∙ ap (λ t. not (t == 0)) (bit_and-power s))))
          (λ _.
            if_elim P (raw == 0)
              (λ z. record { blocks' = d.blocks'; inv = d.inv; kept = d.kept; answer = inl refl })
              (λ nn. record {
                blocks' = d.blocks';
                inv = d.inv;
                kept = d.kept;
                answer = elim d.answer [
                  | inl z ↦ absurd (true_ne_false (sym ((==_iff raw 0).1 z) ∙ nn))
                  | inr got ↦ inr (
                      placed h blocks size s k words sum g d.blocks' raw d.inv positive
                        (subst (λ n. Granted h blocks n raw g d.blocks') padded got))
                ];
              })))
