-- ===== src/Heap/Resize/Realloc.antt =====
-- `krealloc` moves the bytes of an allocation, and leaves the others alone.
use aura_os.Base.{
  ℕ, ◌+◌, ◌-◌, ◌^◌, ◌≤◌, ◌<◌, ◌≡◌, ◌≢◌, ◌⊎◌, refl, sym, ap, ◌∙◌, Bool, true, inl, inr, arith, ◌==◌,
  if_elim, ==_iff, leb, leb→le,
}
use aura_os.Allocator.{Apart}
use aura_os.Heap.{Heap, align_up, kmalloc, kfree, header_size}
use aura_os.Heap.Fields.{size_of, used_of}
use aura_os.Heap.Invariant.{Inv}
use aura_os.Heap.Take.{align_up_lem, true_ne_false, Kept, Granted}
use aura_os.Heap.Obtain.{kmalloc-Done}
use aura_os.Heap.Release.{Keeps, kfree-Keeps}
use aura_os.Heap.Accounts.{IsLive, IsLive-Kept}
use aura_os.Heap.Separate.{IsLive-Apart}
use aura_os.Heap.Resize.{copy_bytes, krealloc}
use aura_os.Heap.Resize.Copy.{copy_bytes_outside, copy_bytes_lem}

module _ (h : Heap) (blocks : ℕ → Bool) (memory : ℕ → ℕ) (ptr n : ℕ) where
  -- The bytes of the allocation are at `p`, and those of every other allocation are where they were.
  pub record Moved (new_size p : ℕ) (h' : Heap) (memory' : ℕ → ℕ) : Type 0 where
    pub blocks' : ℕ → Bool
    pub inv : Inv h' blocks' 0
    pub live : IsLive h' blocks' new_size p
    pub contents : (i : ℕ) → i < n → memory' (p + i) ≡ memory (ptr + i)
    pub others :
        (m q : ℕ)
        → IsLive h blocks m q
        → q ≢ ptr
        → IsLive h' blocks' m q × ((i : ℕ) → i < m → memory' (q + i) ≡ memory (q + i))

  -- Nothing has moved, and every allocation is still there.
  pub record Stayed (h' : Heap) (memory' : ℕ → ℕ) : Type 0 where
    pub blocks' : ℕ → Bool
    pub inv : Inv h' blocks' 0
    pub all : (m q : ℕ) → IsLive h blocks m q → IsLive h' blocks' m q
    pub same : (a : ℕ) → memory' a ≡ memory a

  -- What is allocated stays so when only blocks in use are kept.
  kept_live :
      (h' : Heap) (blocks' : ℕ → Bool) (m q : ℕ)
      → Inv h blocks 0
      → Kept h blocks h' blocks' 0
      → IsLive h blocks m q
      → IsLive h' blocks' m q
  kept_live h' blocks' m q v kept l =
      let above = v.layout.above l.block l.mine in
      IsLive-Kept h blocks h' blocks' 0 m q kept (λ e. omega (arith, e, above, l.payload)) l

  abbrev pub Resized : ℕ → ℕ × Heap × (ℕ → ℕ) → Type 0
  Resized new_size r = ((r.0 ≡ 0) × Stayed r.1 r.2) ⊎ ((r.0 ≢ 0) × Moved new_size r.0 r.1 r.2)

  in_place :
      (new_size : ℕ)
      → Inv h blocks 0
      → (l : IsLive h blocks n ptr) → new_size ≤ size_of h.nodes l.block
      → Resized new_size (ptr, h, memory)
  in_place new_size v l fits = inr (
    λ z. omega (arith, z, l.payload),
    record {
      blocks' = blocks;
      inv = v;
      live = record {
        block = l.block;
        payload = l.payload;
        mine = l.mine;
        used = l.used;
        enough = fits;
      };
      contents = λ i below. refl;
      others = λ m q k ne. (k, (λ i below. refl));
    },
  )

  no_room :
      (new_size : ℕ) (g : Heap) (blocks' : ℕ → Bool)
      → Inv h blocks 0
      → Inv g blocks' 0
      → Kept h blocks g blocks' 0
      → Resized new_size (0, g, memory)
  no_room new_size g blocks' v inv kept = inl (
    refl,
    record {
      blocks' = blocks';
      inv = inv;
      all = λ m q l. kept_live g blocks' m q v kept l;
      same = λ a. refl;
    },
  )

-- The new block is granted, the bytes are copied and the old block is freed.
module _ (h : Heap) (blocks : ℕ → Bool) (memory : ℕ → ℕ) (ptr n need p : ℕ) (g : Heap)
    (blocks' : ℕ → Bool) (v : Inv h blocks 0) (l : IsLive h blocks n ptr) (inv : Inv g blocks' 0)
    (kept : Kept h blocks g blocks' 0) (got : Granted h blocks need p g blocks')
    (more : size_of h.nodes l.block ≤ need) where
  here : ptr - header_size ≡ l.block
  here = omega (arith, l.payload)

  abbrev count : ℕ
  count = size_of g.nodes (ptr - header_size)

  old :
      (blocks' l.block ≡ true)
      × (used_of g.nodes l.block ≡ true)
      × (size_of g.nodes l.block ≡ size_of h.nodes l.block)
  old = kept l.block l.mine l.used (v.layout.bound l.block l.mine).0

  counted : count ≡ size_of h.nodes l.block
  counted = ap (size_of g.nodes) here ∙ old.2

  new_live : IsLive g blocks' need p
  new_live = record {
    block = got.block;
    payload = got.payload;
    mine = got.mine;
    used = got.used;
    enough = got.enough;
  }

  new_other : (m q : ℕ) → IsLive h blocks m q → q ≢ p
  new_other m q k e =
      let same : k.block ≡ got.block = omega (arith, e, k.payload, got.payload) in
      true_ne_false
        (sym k.used ∙ ap (used_of h.nodes) same ∙ got.new (ap blocks (sym same) ∙ k.mine))

  Granted-Apart : (m q : ℕ) → IsLive h blocks m q → Apart p need q m
  Granted-Apart m q k =
      IsLive-Apart g blocks' need p m q inv new_live
        (kept_live h blocks memory ptr n g blocks' m q v kept k) (new_other m q k)

  count-Apart : Apart p count ptr count
  count-Apart =
      let whole : IsLive h blocks (size_of h.nodes l.block) ptr = record {
        block = l.block;
        payload = l.payload;
        mine = l.mine;
        used = l.used;
        enough = omega arith;
      } in
      let d = Granted-Apart (size_of h.nodes l.block) ptr whole in omega (arith, d, counted, more)

  released : Keeps g blocks' (ptr - header_size) (kfree g ptr)
  released =
      kfree-Keeps g blocks' ptr inv (λ z. omega (arith, z, l.payload)) (ap blocks' here ∙ old.0)
        (ap (used_of g.nodes) here ∙ old.1)

  still_live :
      (m q : ℕ) → IsLive g blocks' m q → q ≢ ptr → IsLive (kfree g ptr) released.blocks' m q
  still_live m q k ne =
      IsLive-Kept g blocks' (kfree g ptr) released.blocks' (ptr - header_size) m q released.kept
        (λ e. ne (omega (arith, e, l.payload))) k

  moved :
      (new_size : ℕ)
      → new_size ≤ need
      → Moved h blocks memory ptr n new_size p (kfree g ptr) (copy_bytes count 0 memory p ptr)
  moved new_size less = record {
    blocks' = released.blocks';
    inv = released.inv;
    live =
        still_live new_size p
          (record {
            block = got.block;
            payload = got.payload;
            mine = got.mine;
            used = got.used;
            enough = omega (arith, less, got.enough);
          })
          (λ e. new_other n ptr l (sym e));
    contents = λ i below.
        copy_bytes_lem count 0 memory p ptr i (omega (arith, count-Apart)) (omega arith)
          (omega (arith, below, l.enough, counted));
    others = λ m q k ne.
        let d = Granted-Apart m q k in
        (
          still_live m q (kept_live h blocks memory ptr n g blocks' m q v kept k) ne,
          λ i below.
              copy_bytes_outside count 0 memory p ptr (q + i)
                (omega (arith, d, below, counted, more)),
        );
  }

-- Let the invariant hold, let `ptr` be an allocation of `n` bytes, and let the new size be other than
-- 0 and with 7 more less than 2 ^ 64. Then `krealloc` either returns NULL, and every allocation is
-- there with its bytes, or it returns an address that is not NULL, of an allocation of the new size
-- whose first `n` bytes are those of the old one, and every other allocation is there with its bytes;
-- and the invariant holds.
pub krealloc-Resized :
    (fuel rounds : ℕ) (h : Heap) (blocks : ℕ → Bool) (memory : ℕ → ℕ) (ptr n new_size : ℕ)
    → Inv h blocks 0
    → IsLive h blocks n ptr
    → new_size ≢ 0
    → new_size + 7 < 2 ^ 64
    → Resized h blocks memory ptr n new_size (krealloc fuel rounds h memory ptr new_size)
unfolding krealloc
krealloc-Resized fuel rounds h blocks memory ptr n new_size v l bytes room =
    let need = align_up new_size 8 in
    let rounded = align_up_lem new_size room in
    let at : ptr - header_size ≡ l.block = omega (arith, l.payload) in
    let g = (kmalloc fuel rounds h need).1 in
    let p = (kmalloc fuel rounds h need).0 in
    let P = λ (r : ℕ × Heap × (ℕ → ℕ)). Resized h blocks memory ptr n new_size r in
    if_elim P (ptr == 0) (λ z. absurd (omega (arith, (==_iff ptr 0).0 z, l.payload)))
      (λ _.
        if_elim P (new_size == 0) (λ z. absurd (bytes ((==_iff new_size 0).0 z)))
          (λ _.
            if_elim P (leb need (size_of h.nodes (ptr - header_size)))
              (λ e.
                let fits = leb→le need (size_of h.nodes (ptr - header_size)) e in
                let same = ap (size_of h.nodes) at in
                in_place h blocks memory ptr n new_size v l (omega (arith, fits, same, rounded)))
              (λ e.
                let same = ap (size_of h.nodes) at in
                let small : size_of h.nodes l.block < need = ground arith in
                let d = kmalloc-Done fuel rounds h blocks need v (omega (arith, rounded, room)) in
                if_elim P (p == 0)
                  (λ z. no_room h blocks memory ptr n new_size g d.blocks' v d.inv d.kept)
                  (λ nn. elim d.answer [
                    | inl z ↦ absurd (true_ne_false (sym ((==_iff p 0).1 z) ∙ nn))
                    | inr got ↦ inr (
                      λ z. true_ne_false (sym ((==_iff p 0).1 z) ∙ nn),
                      moved h blocks memory ptr n need p g d.blocks' v l d.inv d.kept got
                          (omega (arith, small)) new_size (omega (arith, rounded)),
                    )
                  ]))))
