-- ===== src/Heap/Runs.antt =====
-- Any calls of `kmalloc`, and of `kfree` for what it returned, and the invariant.
use aura_os.Base.{
  ℕ, ◌+◌, ◌-◌, ◌^◌, ◌<◌, ◌≡◌, sym, ap, ◌∙◌, Bool, inl, inr, arith, if◌then◌else◌, ==_iff, none,
  some, Option-cases, List, [], ◌∷◌, subst,
}
use aura_os.Allocator.Calls.{Call, allocate, release, note, note_some, pick, AllOf, AllOf-pick}
use aura_os.Heap.{Heap, kmalloc, kfree, header_size}
use aura_os.Heap.Fields.{used_of}
use aura_os.Heap.Invariant.{Inv}
use aura_os.Heap.Take.{Done}
use aura_os.Heap.Obtain.{kmalloc-Done}
use aura_os.Heap.Release.{kfree-Keeps}
use aura_os.Heap.Accounts.{
  IsLive, Client, IsValid, without, AllOf-Kept, AllOf-without, new-NotAmong,
}

abbrev pub give_back : Client → ℕ → Client
give_back t p = record { heap = kfree t.heap p; live = without p t.live }

pub give_back-IsValid :
    (t : Client) (blocks : ℕ → Bool) (n p : ℕ)
    → Inv t.heap blocks 0
    → IsLive t.heap blocks n p
    → AllOf (IsLive t.heap blocks) t.live
    → IsValid (give_back t p)
give_back-IsValid t blocks n p v l all =
    let here : p - header_size ≡ l.block = omega (arith, l.payload) in
    let above = v.layout.above l.block l.mine in
    let r =
      kfree-Keeps t.heap blocks p v (λ e. omega (arith, e, l.payload)) (ap blocks here ∙ l.mine)
        (ap (used_of t.heap.nodes) here ∙ l.used) in
    (
      r.blocks',
      r.inv,
      AllOf-without t.heap blocks (kfree t.heap p) r.blocks' p t.live (omega (arith, l.payload))
          r.kept all,
    )

-- Each size can be rounded up to a multiple of 8 without wrapping.
abbrev pub Sizes : List Call → Type 0
Sizes [] = Unit
Sizes (allocate size ∷ cs) = (size + 7 < 2 ^ 64) × Sizes cs
Sizes (release k ∷ cs) = Sizes cs

-- `fuel` bounds the steps of each search of the free list, and `rounds` the calls of `kmalloc` by itself.
module _ (fuel rounds : ℕ) where
  abbrev pub take : Client → ℕ → ℕ × Client
  take t size =
      let (p, heap) = kmalloc fuel rounds t.heap size in
      (p, record { heap = heap; live = note size p t.live })

  noted :
      (t : Client) (blocks : ℕ → Bool) (size : ℕ) (r : ℕ × Heap)
      → Inv t.heap blocks 0
      → AllOf (IsLive t.heap blocks) t.live
      → Done t.heap blocks size r
      → IsValid (record { heap = r.1; live = note size r.0 t.live })
  noted t blocks size r v all d =
      let kept = AllOf-Kept t.heap blocks r.1 d.blocks' t.live d.kept v all in
      elim d.answer [
        | inl z ↦ (
          d.blocks',
          d.inv,
          subst (AllOf (IsLive r.1 d.blocks'))
              (ap (λ c. if c then t.live else (size, r.0) ∷ t.live) (sym ((==_iff r.0 0).1 z)))
              kept,
        )
        | inr g ↦ (
          d.blocks',
          d.inv,
          subst (AllOf (IsLive r.1 d.blocks'))
              (note_some size r.0 t.live (λ z. omega (arith, z, g.payload)))
              (
                record {
                  block = g.block;
                  payload = g.payload;
                  mine = g.mine;
                  used = g.used;
                  enough = g.enough;
                },
                new-NotAmong t.heap blocks g.block r.0 t.live g.payload g.new all,
                kept,
              ),
        )
      ]

  pub take-IsValid :
      (t : Client) (size : ℕ) → size + 7 < 2 ^ 64 → IsValid t → IsValid (take t size).1
  take-IsValid t size room (blocks, v, all) =
      noted t blocks size (kmalloc fuel rounds t.heap size) v all
        (kmalloc-Done fuel rounds t.heap blocks size v room)

  unfoldable pub step : Client → Call → Client
  step t (allocate size) = (take t size).1
  step t (release k) = elim (pick k t.live) [ none ↦ t | some ((size, p), rest) ↦ give_back t p ]

  unfoldable pub run : Client → List Call → Client
  unfolding step
  run t [] = t
  run t (c ∷ cs) = run (step t c) cs

  release-IsValid : (t : Client) (k : ℕ) → IsValid t → IsValid (step t (release k))
  unfolding step
  release-IsValid t k (blocks, v, all) = elim (Option-cases (pick k t.live)) [
    | inl e ↦ rw (e, step) (blocks, v, all)
    | inr (((size, p), rest), e) ↦
        rw (e, step)
          (give_back-IsValid t blocks size p v
            (AllOf-pick (IsLive t.heap blocks) k t.live (size, p) rest e all).0 all)
  ]

  pub run-IsValid : (t : Client) (cs : List Call) → Sizes cs → IsValid t → IsValid (run t cs)
  unfolding run
  run-IsValid t [] fits v = v
  run-IsValid t (allocate size ∷ cs) fits v =
      run-IsValid (step t (allocate size)) cs fits.1 (take-IsValid t size fits.0 v)
  run-IsValid t (release k ∷ cs) fits v =
      run-IsValid (step t (release k)) cs fits (release-IsValid t k v)
