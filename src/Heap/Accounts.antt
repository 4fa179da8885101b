-- ===== src/Heap/Accounts.antt =====
-- The heap with the account of what was allocated from it.
use aura_os.Base.{
  ℕ, ◌+◌, ◌-◌, ◌≤◌, ◌≡◌, ◌≢◌, sym, ap, ◌∙◌, Bool, true, false, arith, ◌==◌, if◌then◌else◌, if_elim,
  ==_iff, List, [], ◌∷◌,
}
use aura_os.Allocator.Calls.{NotAmong, AllOf}
use aura_os.Heap.{Heap, header_size}
use aura_os.Heap.Fields.{size_of, used_of}
use aura_os.Heap.Invariant.{Inv}
use aura_os.Heap.Take.{true_ne_false, Kept}

-- The allocation `p` of `n` bytes.
pub record IsLive (h : Heap) (blocks : ℕ → Bool) (n p : ℕ) : Type 0 where
  pub block : ℕ
  pub payload : p ≡ block + header_size
  pub mine : blocks block ≡ true
  pub used : used_of h.nodes block ≡ true
  pub enough : n ≤ size_of h.nodes block

-- The heap, and the size and the address of each allocation, the latest first.
pub record Client : Type 0 where
  pub heap : Heap
  pub live : List (ℕ × ℕ)

abbrev pub IsValid : Client → Type 0
IsValid t = (blocks : ℕ → Bool) × Inv t.heap blocks 0 × AllOf (IsLive t.heap blocks) t.live

pub IsLive-Kept :
    (h : Heap) (blocks : ℕ → Bool) (h' : Heap) (blocks' : ℕ → Bool) (except n p : ℕ)
    → Kept h blocks h' blocks' except
    → p ≢ except + header_size
    → IsLive h blocks n p
    → IsLive h' blocks' n p
IsLive-Kept h blocks h' blocks' except n p kept ne l =
    let (mine', used', size') =
      kept l.block l.mine l.used (λ e. ne (l.payload ∙ ap (λ q. q + header_size) e)) in
    record {
      block = l.block;
      payload = l.payload;
      mine = mine';
      used = used';
      enough = omega (arith, l.enough, size');
    }

-- The allocations but those at `p`.
unfoldable pub without : ℕ → List (ℕ × ℕ) → List (ℕ × ℕ)
without p [] = []
without p ((n, c) ∷ live) = if c == p then without p live else (n, c) ∷ without p live

without-NotAmong : (p c : ℕ) (live : List (ℕ × ℕ)) → NotAmong c live → NotAmong c (without p live)
unfolding without
without-NotAmong p c [] apart = tt
without-NotAmong p c ((n, d) ∷ live) apart =
    if_elim (λ (t : List (ℕ × ℕ)). NotAmong c t) (d == p) (λ _. without-NotAmong p c live apart.1)
      (λ _. (apart.0, without-NotAmong p c live apart.1))

module _ (h : Heap) (blocks : ℕ → Bool) (h' : Heap) (blocks' : ℕ → Bool) where
  pub AllOf-Kept :
      (live : List (ℕ × ℕ))
      → Kept h blocks h' blocks' 0
      → Inv h blocks 0
      → AllOf (IsLive h blocks) live
      → AllOf (IsLive h' blocks') live
  AllOf-Kept [] kept v all = tt
  AllOf-Kept ((n, c) ∷ live) kept v all =
      let l = all.0 in
      let above = v.layout.above l.block l.mine in
      (
        IsLive-Kept h blocks h' blocks' 0 n c kept (λ e. omega (arith, e, above, l.payload)) l,
        all.1,
        AllOf-Kept live kept v all.2,
      )

  pub AllOf-without :
      (p : ℕ) (live : List (ℕ × ℕ))
      → p ≡ p - header_size + header_size
      → Kept h blocks h' blocks' (p - header_size)
      → AllOf (IsLive h blocks) live
      → AllOf (IsLive h' blocks') (without p live)
  unfolding without
  AllOf-without p [] whole kept all = tt
  AllOf-without p ((n, c) ∷ live) whole kept all =
      if_elim (λ (t : List (ℕ × ℕ)). AllOf (IsLive h' blocks') t) (c == p)
        (λ _. AllOf-without p live whole kept all.2)
        (λ e. (
          IsLive-Kept h blocks h' blocks' (p - header_size) n c kept
              (λ q. true_ne_false (sym ((==_iff c p).1 (q ∙ sym whole)) ∙ e)) all.0,
          without-NotAmong p c live all.1,
          AllOf-without p live whole kept all.2,
        ))

-- A block that was not in use is none of the allocations before.
pub new-NotAmong :
    (h : Heap) (blocks : ℕ → Bool) (block p : ℕ) (live : List (ℕ × ℕ))
    → p ≡ block + header_size
    → (blocks block ≡ true → used_of h.nodes block ≡ false)
    → AllOf (IsLive h blocks) live
    → NotAmong p live
new-NotAmong h blocks block p [] at new all = tt
new-NotAmong h blocks block p ((n, c) ∷ live) at new all =
    let l = all.0 in
    (
      λ e.
          let same : l.block ≡ block = omega (arith, l.payload, at, e) in
          true_ne_false
            (sym l.used ∙ ap (used_of h.nodes) same ∙ new (ap blocks (sym same) ∙ l.mine)),
      new-NotAmong h blocks block p live at new all.2,
    )
