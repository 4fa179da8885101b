-- ===== src/Heap/Separate.antt =====
-- What holds after any calls from `heap_init` on: allocations are apart. The heap as an `Allocator`.
use aura_os.Base.{
  ℕ, ◌+◌, ◌≡◌, ◌≢◌, refl, sym, ap, ◌∙◌, Bool, true, false, inl, inr, arith, List, [], ◌∷◌,
}
use aura_os.Allocator.{Apart}
use aura_os.Allocator.Calls.{Call, NotAmong, AllOf, ApartFrom, AllApart}
use aura_os.Pmm.{is_used}
use aura_os.Pmm.Invariant
use aura_os.Heap.{Heap, init, header_size}
use aura_os.Heap.Invariant.{Inv}
use aura_os.Heap.Take.{true_ne_false}
use aura_os.Heap.Accounts.{IsLive, Client, IsValid}
use aura_os.Heap.Runs.{run, Sizes, run-IsValid}

-- Two allocations at different addresses have no byte in common.
pub IsLive-Apart :
    (h : Heap) (blocks : ℕ → Bool) (n p m q : ℕ)
    → Inv h blocks 0
    → IsLive h blocks n p
    → IsLive h blocks m q
    → q ≢ p
    → Apart p n q m
IsLive-Apart h blocks n p m q v l k ne =
    let other : l.block ≢ k.block =
      λ e. ne (k.payload ∙ ap (λ b. b + header_size) (sym e) ∙ sym l.payload) in
    elim (v.layout.apart l.block k.block l.mine k.mine other) [
      | inl d ↦ inl (omega (arith, d, l.payload, k.payload, l.enough))
      | inr d ↦ inr (omega (arith, d, l.payload, k.payload, k.enough))
    ]

module _ (h : Heap) (blocks : ℕ → Bool) (v : Inv h blocks 0) where
  pub AllOf-ApartFrom :
      (n p : ℕ) (live : List (ℕ × ℕ))
      → IsLive h blocks n p
      → NotAmong p live
      → AllOf (IsLive h blocks) live
      → ApartFrom n p live
  AllOf-ApartFrom n p [] l apart all = tt
  AllOf-ApartFrom n p ((m, q) ∷ live) l apart all =
      (IsLive-Apart h blocks n p m q v l all.0 apart.0, AllOf-ApartFrom n p live l apart.1 all.2)

  AllOf-AllApart : (live : List (ℕ × ℕ)) → AllOf (IsLive h blocks) live → AllApart live
  AllOf-AllApart [] all = tt
  AllOf-AllApart ((n, p) ∷ live) all =
      let l = all.0 in
      (
        λ e. omega (arith, e, l.payload),
        AllOf-ApartFrom n p live l all.1 all.2,
        AllOf-AllApart live all.2,
      )

abbrev pub start : Heap → Client
start h = record { heap = init h 0; live = [] }

module _ (h : Heap) (valid : Invariant.IsValid h.frames)
    (first : is_used h.frames.bitmap 0 ≡ true) where
  pub start-IsValid : IsValid (start h)
  unfolding init
  start-IsValid = (
    λ b. false,
    record {
      list = [];
      layout = record {
        bound = λ b e. absurd (true_ne_false (sym e));
        above = λ b e. absurd (true_ne_false (sym e));
        apart = λ a b e. absurd (true_ne_false (sym e));
        framed = λ b f e. absurd (true_ne_false (sym e));
        followed = λ b e. absurd (true_ne_false (sym e));
        preceded = λ b e. absurd (true_ne_false (sym e));
      };
      free = (tt, refl);
      listed = λ b. refl;
      frames = valid;
      first = first;
      identity = refl;
    },
    tt,
  )

  -- Let the heap be initialised without an offset over a valid frame allocator with frame 0 in use.
  -- After any calls of `kmalloc`, for sizes that do not wrap when they are rounded up, and of `kfree`
  -- for what is allocated, no allocation is NULL, and no two of them have a byte in common.
  pub AllApart-run :
      (fuel rounds : ℕ) (cs : List Call) → Sizes cs → AllApart (run fuel rounds (start h) cs).live
  AllApart-run fuel rounds cs fits =
      let (blocks, v, all) = run-IsValid fuel rounds (start h) cs fits start-IsValid in
      AllOf-AllApart (run fuel rounds (start h) cs).heap blocks v
        (run fuel rounds (start h) cs).live all
