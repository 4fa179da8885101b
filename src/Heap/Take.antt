-- ===== src/Heap/Take.antt =====
-- An allocation and the invariant.
use aura_os.Base.{
  ℕ, zero, suc, ◌+◌, ◌-◌, ◌*◌, ◌/◌, ◌^◌, ◌≤◌, ◌<◌, ◌≡◌, ◌≢◌, ◌⊎◌, refl, sym, ap, ◌∙◌, Bool, true,
  false, inl, inr, arith, ◌==◌, if◌then◌else◌, if_elim, leb, ==_refl, ==_false, leb→le, Bool-cases,
  some, List, [], ◌∷◌, subst, u64,
}
use aura_os.Base.Masks.{bit_and_low3}
use aura_os.Heap.{Block, Nodes, Heap, align_up, free_list_remove, first_fit, header_size}
use aura_os.Heap.FreeList.{Distinct, Links}
use aura_os.Heap.Fields.{
  size_of, used_of, put_field, put_kept, free_list_remove_kept, size-Unlinked, used-Unlinked,
}
use aura_os.Heap.Invariant.{has, Inv}
use aura_os.Heap.Steps.{free_list_remove-Inv}
use aura_os.Heap.Changes.{marked, mark-Inv}

-- A size is rounded up to a multiple of 8.
pub align_up_lem : (size : ℕ) → size + 7 < 2 ^ 64 → align_up size 8 ≡ (size + 7) / 8 * 8
align_up_lem size h = bit_and_low3 (u64 (size + (8 - 1))) (omega arith) ∙ omega arith

-- What an operation leaves alone: the blocks in use, but for one.
abbrev pub Kept : Heap → (ℕ → Bool) → Heap → (ℕ → Bool) → ℕ → Type 0
Kept h blocks h' blocks' except =
    (b : ℕ)
    → blocks b ≡ true
    → used_of h.nodes b ≡ true
    → b ≢ except
    → (blocks' b ≡ true) × (used_of h'.nodes b ≡ true) × (size_of h'.nodes b ≡ size_of h.nodes b)

-- An address that is returned, of a block in use that was not in use before.
pub record Granted (h : Heap) (blocks : ℕ → Bool) (size p : ℕ) (h' : Heap) (blocks' : ℕ → Bool)
    : Type 0 where
  pub block : ℕ
  pub payload : p ≡ block + header_size
  pub mine : blocks' block ≡ true
  pub used : used_of h'.nodes block ≡ true
  pub enough : size ≤ size_of h'.nodes block
  pub new : blocks block ≡ true → used_of h.nodes block ≡ false

pub first_fit-has :
    (fuel size : ℕ) (nodes : Nodes) (before p : ℕ) (l : List ℕ) (cur : ℕ)
    → Distinct l
    → Links nodes before p l
    → first_fit fuel nodes p size ≡ some cur
    → (has cur l ≡ true) × (size ≤ size_of nodes cur)
unfolding first_fit
first_fit-has zero size nodes before p l cur d k e = cc
first_fit-has (suc fuel) size nodes before p [] cur d k e = ground arith
first_fit-has (suc fuel) size nodes before p (y ∷ ys) cur d k e =
    let away : p ≢ 0 = λ z. d.0 (sym k.0 ∙ z) in
    elim (Bool-cases (leb size (nodes p).size)) [
      | inl fits ↦
          let found : some p ≡ some cur = sym (rw (==_false p 0 away, fits) refl) ∙ e in
          let here : p ≡ cur = cc in
          (ground arith, subst (λ q. size ≤ size_of nodes q) here (leb→le size (nodes p).size fits))
      | inr small ↦
          let later : first_fit fuel nodes (nodes p).next_free size ≡ some cur =
            sym (rw (==_false p 0 away, small) refl) ∙ e in
          let (within, fits) =
            first_fit-has fuel size nodes y (nodes p).next_free ys cur d.2
              (subst (λ q. Links nodes y (nodes q).next_free ys) (sym k.0) k.2) later in
          (ground arith, fits)
    ]

module _ (s : Heap) (blocks : ℕ → Bool) (cur w : ℕ) (v : Inv s blocks 0) (mine : blocks cur ≡ true)
    (unused : used_of s.nodes cur ≡ false) where
  -- A free block that is taken off the list and marked.
  abbrev pub taken : Heap
  taken = marked (free_list_remove s cur) blocks cur true w

  pub taken-Inv : Inv taken blocks 0
  taken-Inv =
      mark-Inv (free_list_remove s cur) blocks cur w
        (free_list_remove-Inv s blocks cur mine unused v)

  pub taken_size : (p : ℕ) → size_of taken.nodes p ≡ size_of s.nodes p
  taken_size p =
      let g = free_list_remove s cur in
      put_kept (λ (b : Block). b.size) g.nodes cur (record (g.nodes cur) { used = true }) p refl
      ∙ free_list_remove_kept (λ (b : Block). b.size) size-Unlinked s cur p

  pub taken_used : (p : ℕ) → used_of taken.nodes p ≡ (if p == cur then true else used_of s.nodes p)
  taken_used p =
      let g = free_list_remove s cur in
      put_field (λ (b : Block). b.used) g.nodes cur (record (g.nodes cur) { used = true }) p
      ∙ ap (λ t. if p == cur then true else t)
          (free_list_remove_kept (λ (b : Block). b.used) used-Unlinked s cur p)

-- What an allocation leaves.
pub record Done (h : Heap) (blocks : ℕ → Bool) (size : ℕ) (r : ℕ × Heap) : Type 0 where
  pub blocks' : ℕ → Bool
  pub inv : Inv r.1 blocks' 0
  pub kept : Kept h blocks r.1 blocks' 0
  pub answer : (r.0 ≡ 0) ⊎ Granted h blocks size r.0 r.1 blocks'

pub Kept-trans :
    (h : Heap) (blocks : ℕ → Bool) (h' : Heap) (blocks' : ℕ → Bool) (h2 : Heap) (blocks2 : ℕ → Bool)
    (except : ℕ)
    → Kept h blocks h' blocks' except
    → Kept h' blocks' h2 blocks2 except
    → Kept h blocks h2 blocks2 except
Kept-trans h blocks h' blocks' h2 blocks2 except one two = λ b mine used other.
    let (mine', used', size') = one b mine used other in
    let (mine2, used2, size2) = two b mine' used' other in (mine2, used2, size2 ∙ size')

pub true_ne_false : true ≢ false
true_ne_false e = cc

-- A free block of a heap with room at it is taken off the list and marked.
module _ (h s : Heap) (blocks blocks1 : ℕ → Bool) (cur n w : ℕ) (v : Inv s blocks1 0)
    (mine : blocks1 cur ≡ true) (unused : used_of s.nodes cur ≡ false)
    (fits : n ≤ size_of s.nodes cur) (bytes : n ≢ 0) (kept : Kept h blocks s blocks1 0)
    (new : blocks cur ≡ true → used_of h.nodes cur ≡ false) where
  payload : u64 (cur + header_size) ≡ cur + header_size
  payload = let (away, inside) = v.layout.bound cur mine in omega (arith, inside, fits, bytes)

  pub take-Done : Done h blocks n (u64 (cur + header_size), taken s blocks1 cur w v mine unused)
  take-Done = record {
    blocks' = blocks1;
    inv = taken-Inv s blocks1 cur w v mine unused;
    kept = λ b m u other.
        let (m', u', size') = kept b m u other in
        (
          m',
          taken_used s blocks1 cur w v mine unused b
              ∙ if_elim (λ t. t ≡ true) (b == cur) (λ _. refl) (λ _. u'),
          taken_size s blocks1 cur w v mine unused b ∙ size',
        );
    answer = inr (record {
      block = cur;
      payload = payload;
      mine = mine;
      used = taken_used s blocks1 cur w v mine unused cur ∙ rw (==_refl cur) refl;
      enough = omega (arith, fits, taken_size s blocks1 cur w v mine unused cur);
      new = new;
    });
  }
