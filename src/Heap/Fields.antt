-- ===== src/Heap/Fields.antt =====
-- What the steps of the heap do to the sizes, the marks and the neighbours of the blocks.
use aura_os.Base.{
  ℕ, ◌+◌, ◌-◌, ◌^◌, ◌≡◌, refl, sym, ap, ◌∙◌, Bool, false, ◌&&◌, not, inl, inr, arith, ◌==◌,
  if◌then◌else◌, if_elim, ==_iff, Bool-cases, u64,
}
use aura_os.Heap.{
  Block, Nodes, Heap, put, set_next_free, set_prev_free, shrink, free_list_add, free_list_remove,
  header_size,
}

abbrev pub size_of : Nodes → ℕ → ℕ
size_of nodes p = (nodes p).size

abbrev pub next_of : Nodes → ℕ → ℕ
next_of nodes p = (nodes p).next

abbrev pub prev_of : Nodes → ℕ → ℕ
prev_of nodes p = (nodes p).prev

abbrev pub used_of : Nodes → ℕ → Bool
used_of nodes p = (nodes p).used

pub put_field {ℓ} :
    {X : Type ℓ} (f : Block → X) (nodes : Nodes) (a : ℕ) (b : Block) (p : ℕ)
    → f (put nodes a b p) ≡ (if p == a then f b else f (nodes p))
put_field f nodes a b p = elim (Bool-cases (p == a)) [ inl e ↦ rw e refl | inr e ↦ rw e refl ]

-- A write that keeps a field of the header that it replaces.
pub put_kept {ℓ} :
    {X : Type ℓ} (f : Block → X) (nodes : Nodes) (a : ℕ) (b : Block) (p : ℕ)
    → f b ≡ f (nodes a)
    → f (put nodes a b p) ≡ f (nodes p)
put_kept f nodes a b p same = elim (Bool-cases (p == a)) [
  | inl e ↦ rw e (same ∙ ap (λ q. f (nodes q)) (sym ((==_iff p a).0 e)))
  | inr e ↦ rw e refl
]

-- A field that the links of the free list are no part of.
pub record Unlinked {ℓ} {X : Type ℓ} (f : Block → X) : Type ℓ where
  pub next_free : (b : Block) (v : ℕ) → f (record b { next_free = v }) ≡ f b
  pub prev_free : (b : Block) (v : ℕ) → f (record b { prev_free = v }) ≡ f b

module _ {ℓ} {X : Type ℓ} (f : Block → X) (out : Unlinked f) where
  set_next_free_kept : (nodes : Nodes) (a v p : ℕ) → f (set_next_free nodes a v p) ≡ f (nodes p)
  set_next_free_kept nodes a v p =
      put_kept f nodes a (record (nodes a) { next_free = v }) p (out.next_free (nodes a) v)

  set_prev_free_kept : (nodes : Nodes) (a v p : ℕ) → f (set_prev_free nodes a v p) ≡ f (nodes p)
  set_prev_free_kept nodes a v p =
      put_kept f nodes a (record (nodes a) { prev_free = v }) p (out.prev_free (nodes a) v)

  pub free_list_add_kept :
      (h : Heap) (blk p : ℕ) → f ((free_list_add h blk).nodes p) ≡ f (h.nodes p)
  unfolding free_list_add
  free_list_add_kept h blk p =
      let one = set_next_free h.nodes blk h.free_head in
      let two = set_prev_free one blk 0 in
      let same : f (two p) ≡ f (h.nodes p) =
        set_prev_free_kept one blk 0 p ∙ set_next_free_kept h.nodes blk h.free_head p in
      if_elim (λ (t : Nodes). f (t p) ≡ f (h.nodes p)) (h.free_head == 0) (λ _. same)
        (λ _. set_prev_free_kept two h.free_head blk p ∙ same)

  pub free_list_remove_kept :
      (h : Heap) (blk p : ℕ) → f ((free_list_remove h blk).nodes p) ≡ f (h.nodes p)
  unfolding free_list_remove
  free_list_remove_kept h blk p =
      let before = (h.nodes blk).prev_free in
      let after = (h.nodes blk).next_free in
      let skipped = if before == 0 then h.nodes else set_next_free h.nodes before after in
      let linked = if after == 0 then skipped else set_prev_free skipped after before in
      let one : f (skipped p) ≡ f (h.nodes p) =
        if_elim (λ (t : Nodes). f (t p) ≡ f (h.nodes p)) (before == 0) (λ _. refl)
          (λ _. set_next_free_kept h.nodes before after p) in
      let two : f (linked p) ≡ f (h.nodes p) =
        if_elim (λ (t : Nodes). f (t p) ≡ f (h.nodes p)) (after == 0) (λ _. one)
          (λ _. set_prev_free_kept skipped after before p ∙ one) in
      set_prev_free_kept (set_next_free linked blk 0) blk 0 p
      ∙ set_next_free_kept linked blk 0 p
      ∙ two

pub size-Unlinked : Unlinked (λ (b : Block). b.size)
size-Unlinked = record { next_free = λ b v. refl; prev_free = λ b v. refl }

pub next-Unlinked : Unlinked (λ (b : Block). b.next)
next-Unlinked = record { next_free = λ b v. refl; prev_free = λ b v. refl }

pub prev-Unlinked : Unlinked (λ (b : Block). b.prev)
prev-Unlinked = record { next_free = λ b v. refl; prev_free = λ b v. refl }

pub used-Unlinked : Unlinked (λ (b : Block). b.used)
used-Unlinked = record { next_free = λ b v. refl; prev_free = λ b v. refl }

module _ (nodes : Nodes) (cur n split : ℕ) where
  abbrev rest_size : ℕ
  rest_size = u64 ((nodes cur).size + 2 ^ 64 - n + 2 ^ 64 - header_size)

  abbrev shrunk : Nodes
  shrunk = put nodes cur (record (nodes cur) { size = n })

  abbrev rest : Block
  rest = record (shrunk split) {
    size = rest_size;
    used = false;
    next = (nodes cur).next;
    prev = cur;
  }

  abbrev placed : Nodes
  placed = put shrunk split rest

  abbrev joined : Nodes
  joined =
      if (nodes cur).next == 0
      then placed
      else put placed (nodes cur).next (record (placed (nodes cur).next) { prev = split })

  joined_kept {ℓ} :
      {X : Type ℓ} (f : Block → X) (p : ℕ)
      → ((b : Block) → f (record b { prev = split }) ≡ f b)
      → f (joined p) ≡ f (placed p)
  joined_kept f p out =
      if_elim (λ (t : Nodes). f (t p) ≡ f (placed p)) ((nodes cur).next == 0) (λ _. refl)
        (λ _.
          put_kept f placed (nodes cur).next (record (placed (nodes cur).next) { prev = split }) p
            (out (placed (nodes cur).next)))

  shrink_last {ℓ} :
      {X : Type ℓ} (f : Block → X) (p : ℕ)
      → ((b : Block) → f (record b { next = split }) ≡ f b)
      → f (shrink nodes cur n split p) ≡ f (joined p)
  unfolding shrink
  shrink_last f p out =
      put_kept f joined cur (record (joined cur) { next = split }) p (out (joined cur))

  pub shrink_size :
      (p : ℕ)
      → (shrink nodes cur n split p).size
        ≡ (if p == split then rest_size else if p == cur then n else (nodes p).size)
  shrink_size p =
      shrink_last (λ (b : Block). b.size) p (λ b. refl)
      ∙ joined_kept (λ (b : Block). b.size) p (λ b. refl)
      ∙ put_field (λ (b : Block). b.size) shrunk split rest p
      ∙ ap (λ t. if p == split then rest_size else t)
          (put_field (λ (b : Block). b.size) nodes cur (record (nodes cur) { size = n }) p)

  pub shrink_used :
      (p : ℕ) → (shrink nodes cur n split p).used ≡ (if p == split then false else (nodes p).used)
  shrink_used p =
      shrink_last (λ (b : Block). b.used) p (λ b. refl)
      ∙ joined_kept (λ (b : Block). b.used) p (λ b. refl)
      ∙ put_field (λ (b : Block). b.used) shrunk split rest p
      ∙ ap (λ t. if p == split then false else t)
          (put_kept (λ (b : Block). b.used) nodes cur (record (nodes cur) { size = n }) p refl)

  pub shrink_prev :
      (p : ℕ)
      → (shrink nodes cur n split p).prev ≡ (
          if (p == (nodes cur).next) && not ((nodes cur).next == 0)
          then split
          else if p == split
          then cur
          else (nodes p).prev)
  shrink_prev p =
      let placed_prev : (placed p).prev ≡ (if p == split then cur else (nodes p).prev) =
        put_field (λ (b : Block). b.prev) shrunk split rest p
        ∙ ap (λ t. if p == split then cur else t)
            (put_kept (λ (b : Block). b.prev) nodes cur (record (nodes cur) { size = n }) p refl) in
      let after = (nodes cur).next in
      shrink_last (λ (b : Block). b.prev) p (λ b. refl)
      ∙ if_elim
          (λ (t : Nodes). (t p).prev ≡ (
            if (p == after) && not (after == 0)
            then split
            else if p == split
            then cur
            else (nodes p).prev))
          (after == 0) (λ e. placed_prev ∙ ground arith)
          (λ e.
            put_field (λ (b : Block). b.prev) placed after (record (placed after) { prev = split })
              p
            ∙ ap (λ t. if p == after then split else t) placed_prev
            ∙ ground arith)

  pub shrink_next :
      (p : ℕ)
      → (shrink nodes cur n split p).next
        ≡ (if p == cur then split else if p == split then (nodes cur).next else (nodes p).next)
  unfolding shrink
  shrink_next p =
      put_field (λ (b : Block). b.next) joined cur (record (joined cur) { next = split }) p
      ∙ ap (λ t. if p == cur then split else t)
          (joined_kept (λ (b : Block). b.next) p (λ b. refl)
            ∙ put_field (λ (b : Block). b.next) shrunk split rest p
            ∙ ap (λ t. if p == split then (nodes cur).next else t)
                (put_kept (λ (b : Block). b.next) nodes cur (record (nodes cur) { size = n }) p
                  refl))
