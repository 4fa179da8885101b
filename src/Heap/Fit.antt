-- ===== src/Heap/Fit.antt =====
-- An allocation: the first block that fits, the split, and the free list afterwards.
use aura_os.Base.{
  ℕ, zero, suc, ◌+◌, ◌-◌, ◌^◌, ◌≤◌, ◌<◌, ◌≡◌, ◌≢◌, inl, inr, refl, sym, ap, ◌∙◌, Bool, true, false,
  List, [], ◌∷◌, ◌++◌, arith, ◌==◌, ==_false, if◌then◌else◌, Bool-cases, if_elim, subst, length,
  some, le→leb, lt→leb, u64,
}
use aura_os.Heap.{
  Block, Nodes, Heap, put, align_up, free_list_remove, first_fit, shrink, split_at, can_split,
  split_block, take_block, kmalloc, header_size,
}
use aura_os.Heap.FreeList.{
  Without, Distinct, Links, IsFreeList, Agree, Links-Agree, put_next, put_prev, unchanged,
  free_list_add-IsFreeList,
}
use aura_os.Heap.Unlink.{free_list_remove-IsFreeList}

-- Two stores with the same links of the free list.
abbrev pub SameLinks : Nodes → Nodes → Type 0
SameLinks f g = (p : ℕ) → ((f p).prev_free ≡ (g p).prev_free) × ((f p).next_free ≡ (g p).next_free)

pub put-SameLinks :
    (nodes : Nodes) (a : ℕ) (b : Block)
    → b.prev_free ≡ (nodes a).prev_free
    → b.next_free ≡ (nodes a).next_free
    → SameLinks nodes (put nodes a b)
put-SameLinks nodes a b prev next = λ p. (
  sym (
      put_prev nodes a p b
      ∙ ap (λ t. if p == a then t else (nodes p).prev_free) prev
      ∙ unchanged (λ q. (nodes q).prev_free) a p),
  sym (
      put_next nodes a p b
      ∙ ap (λ t. if p == a then t else (nodes p).next_free) next
      ∙ unchanged (λ q. (nodes q).next_free) a p),
)

pub SameLinks-trans : (f g k : Nodes) → SameLinks f g → SameLinks g k → SameLinks f k
SameLinks-trans f g k one two = λ p. ((one p).0 ∙ (two p).0, (one p).1 ∙ (two p).1)

SameLinks-Agree : (f g : Nodes) (l : List ℕ) → SameLinks f g → Agree f g l
SameLinks-Agree f g [] same = tt
SameLinks-Agree f g (x ∷ xs) same = ((same x).0, (same x).1, SameLinks-Agree f g xs same)

pub shrink-SameLinks :
    (nodes : Nodes) (cur size split : ℕ) → SameLinks nodes (shrink nodes cur size split)
unfolding shrink
shrink-SameLinks nodes cur size split =
    let b = nodes cur in
    let shrunk = put nodes cur (record b { size = size }) in
    let whole = put-SameLinks nodes cur (record b { size = size }) refl refl in
    let rest : Block = record (shrunk split) {
      size = u64 (b.size + 2 ^ 64 - size + 2 ^ 64 - header_size);
      used = false;
      next = b.next;
      prev = cur;
    } in
    let placed = put shrunk split rest in
    let done =
      SameLinks-trans nodes shrunk placed whole (put-SameLinks shrunk split rest refl refl) in
    if_elim (λ (t : Nodes). SameLinks nodes (put t cur (record (t cur) { next = split })))
      (b.next == 0)
      (λ _.
        SameLinks-trans nodes placed (put placed cur (record (placed cur) { next = split })) done
          (put-SameLinks placed cur (record (placed cur) { next = split }) refl refl))
      (λ _.
        (let back = record (placed b.next) { prev = split } in
          let followed = put placed b.next back in
          SameLinks-trans nodes followed (put followed cur (record (followed cur) { next = split }))
            (SameLinks-trans nodes placed followed done
              (put-SameLinks placed b.next back refl refl))
            (put-SameLinks followed cur (record (followed cur) { next = split }) refl refl)))

-- Every block of a list is too small for `size` bytes.
abbrev pub AllSmall : Nodes → ℕ → List ℕ → Type 0
AllSmall nodes size [] = Unit
AllSmall nodes size (x ∷ xs) = ((nodes x).size < size) × AllSmall nodes size xs

first_fit_lem :
    (nodes : Nodes) (size cur : ℕ) (post : List ℕ) (fuel before p : ℕ) (pre : List ℕ)
    → length pre < fuel
    → Distinct (pre ++ cur ∷ post)
    → Links nodes before p (pre ++ cur ∷ post)
    → AllSmall nodes size pre
    → size ≤ (nodes cur).size
    → first_fit fuel nodes p size ≡ some cur
unfolding first_fit
first_fit_lem nodes size cur post zero before p pre room d k small fits = absurd (omega arith)
first_fit_lem nodes size cur post (suc fuel) before p [] room d k small fits =
    let fits_p = subst (λ q. size ≤ (nodes q).size) (sym k.0) fits in
    rw (==_false p 0 (λ e. d.0 (sym k.0 ∙ e)), le→leb size (nodes p).size fits_p) (ap some k.0)
first_fit_lem nodes size cur post (suc fuel) before p (y ∷ ys) room d k small fits =
    let small_p = subst (λ q. (nodes q).size < size) (sym k.0) small.0 in
    rw (==_false p 0 (λ e. d.0 (sym k.0 ∙ e)), lt→leb size (nodes p).size small_p)
      (first_fit_lem nodes size cur post fuel y (nodes p).next_free ys (omega arith) d.2
        (subst (λ q. Links nodes y (nodes q).next_free (ys ++ cur ∷ post)) (sym k.0) k.2) small.1
        fits)

pub Links-SameLinks :
    (f g : Nodes) (before p : ℕ) (l : List ℕ)
    → SameLinks f g
    → Links f before p l
    → Links g before p l
Links-SameLinks f g before p l same = Links-Agree f g before p l (SameLinks-Agree f g l same)

-- The free list after the split of a block.
abbrev pub after_split : Bool → ℕ → List ℕ → List ℕ
after_split cut split l = if cut then split ∷ l else l

split_block-IsFreeList :
    (h : Heap) (l : List ℕ) (cur size : ℕ)
    → IsFreeList h l
    → split_at cur size ≢ 0
    → Without (split_at cur size) l
    → IsFreeList
        (split_block h cur size)
        (after_split (can_split (h.nodes cur) size) (split_at cur size) l)
unfolding split_block
split_block-IsFreeList h l cur size free away out =
    let split = split_at cur size in
    let nodes = shrink h.nodes cur size split in
    elim (Bool-cases (can_split (h.nodes cur) size)) [
      | inl e ↦
          rw (e, split_block)
            (free_list_add-IsFreeList (record h { nodes = nodes }) l split
              (
                free.0,
                Links-SameLinks h.nodes nodes 0 h.free_head l
                    (shrink-SameLinks h.nodes cur size split) free.1,
              )
              away out)
      | inr e ↦ rw (e, split_block) free
    ]

free_list_remove-after_split :
    (cut : Bool) (s : Heap) (split : ℕ) (pre post : List ℕ) (cur : ℕ)
    → IsFreeList s (after_split cut split (pre ++ cur ∷ post))
    → IsFreeList (free_list_remove s cur) (after_split cut split (pre ++ post))
free_list_remove-after_split true s split pre post cur h =
    free_list_remove-IsFreeList s (split ∷ pre) cur post h
free_list_remove-after_split false s split pre post cur h =
    free_list_remove-IsFreeList s pre cur post h

take_block-IsFreeList :
    (h : Heap) (pre post : List ℕ) (cur size : ℕ)
    → IsFreeList h (pre ++ cur ∷ post)
    → split_at cur size ≢ 0
    → Without (split_at cur size) (pre ++ cur ∷ post)
    → IsFreeList
        (take_block h cur size).1
        (after_split (can_split (h.nodes cur) size) (split_at cur size) (pre ++ post))
unfolding take_block
take_block-IsFreeList h pre post cur size free away out =
    let split = split_at cur size in
    let after = split_block-IsFreeList h (pre ++ cur ∷ post) cur size free away out in
    let s = split_block h cur size in
    let g = free_list_remove s cur in
    let front : IsFreeList g (after_split (can_split (h.nodes cur) size) split (pre ++ post)) =
      free_list_remove-after_split (can_split (h.nodes cur) size) s split pre post cur after in
    let l = after_split (can_split (h.nodes cur) size) split (pre ++ post) in
    let taken = record (g.nodes cur) { used = true } in
    (
      front.0,
      Links-SameLinks g.nodes (put g.nodes cur taken) 0 g.free_head l
          (put-SameLinks g.nodes cur taken refl refl) front.1,
    )

-- Let a size other than 0, rounded up, be more than each block of `pre`, which the free list begins
-- with, and at most the block `cur` behind them, and the address behind the cut be neither 0 nor
-- that of a free block. Then an allocation of that size returns the payload of `cur`, in a search of
-- more steps than `pre` has blocks, and the free list is as before without `cur`, and with what is
-- left of it at the front if that is enough for a block.
pub kmalloc-IsFreeList :
    (fuel rounds : ℕ) (h : Heap) (size : ℕ) (pre : List ℕ) (cur : ℕ) (post : List ℕ)
    → IsFreeList h (pre ++ cur ∷ post)
    → size ≢ 0
    → AllSmall h.nodes (align_up size 8) pre
    → align_up size 8 ≤ (h.nodes cur).size
    → split_at cur (align_up size 8) ≢ 0
    → Without (split_at cur (align_up size 8)) (pre ++ cur ∷ post)
    → length pre < fuel
    → ((kmalloc fuel (suc rounds) h size).0 ≡ u64 (cur + header_size))
      × IsFreeList (kmalloc fuel (suc rounds) h size).1 (
          after_split
            (can_split (h.nodes cur) (align_up size 8))
            (split_at cur (align_up size 8))
            (pre ++ post))
unfolding kmalloc take_block
kmalloc-IsFreeList fuel rounds h size pre cur post free some_bytes small fits away out room =
    let need = align_up size 8 in
    let found =
      first_fit_lem h.nodes need cur post fuel 0 h.free_head pre room free.0 free.1 small fits in
    let taken = take_block-IsFreeList h pre post cur need free away out in
    rw (==_false size 0 some_bytes, found, kmalloc) (refl, taken)
