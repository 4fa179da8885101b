-- ===== src/Heap/FreeList.antt =====
-- The free list as a doubly linked list in the store.
use aura_os.Base.{
  ℕ, ◌≡◌, ◌≢◌, inl, inr, refl, sym, ap, ◌∙◌, List, [], ◌∷◌, ◌==◌, ==_iff, ==_false, if◌then◌else◌,
  Bool-cases, if_elim, subst,
}
use aura_os.Heap.{Block, Nodes, Heap, put, set_next_free, set_prev_free, free_list_add}

abbrev pub Without : ℕ → List ℕ → Type 0
Without a [] = Unit
Without a (x ∷ xs) = (a ≢ x) × Without a xs

abbrev pub Distinct : List ℕ → Type 0
Distinct [] = Unit
Distinct (x ∷ xs) = (x ≢ 0) × Without x xs × Distinct xs

abbrev pub first : List ℕ → ℕ
first [] = 0
first (x ∷ xs) = x

-- The blocks of the list `l` are linked both ways, from `p` on, behind `before`.
abbrev pub Links : Nodes → ℕ → ℕ → List ℕ → Type 0
Links nodes before p [] = p ≡ 0
Links nodes before p (x ∷ xs) =
    (p ≡ x) × ((nodes x).prev_free ≡ before) × Links nodes x (nodes x).next_free xs

-- The free list of the heap is `l`, without repetition.
abbrev pub IsFreeList : Heap → List ℕ → Type 0
IsFreeList h l = Distinct l × Links h.nodes 0 h.free_head l

pub put_next :
    (nodes : Nodes) (a p : ℕ) (b : Block)
    → (put nodes a b p).next_free ≡ (if p == a then b.next_free else (nodes p).next_free)
put_next nodes a p b =
    if_elim (λ (t : Block). t.next_free ≡ (if p == a then b.next_free else (nodes p).next_free))
      (p == a) (λ e. rw e refl) (λ e. rw e refl)

pub put_prev :
    (nodes : Nodes) (a p : ℕ) (b : Block)
    → (put nodes a b p).prev_free ≡ (if p == a then b.prev_free else (nodes p).prev_free)
put_prev nodes a p b =
    if_elim (λ (t : Block). t.prev_free ≡ (if p == a then b.prev_free else (nodes p).prev_free))
      (p == a) (λ e. rw e refl) (λ e. rw e refl)

pub unchanged : (f : ℕ → ℕ) (a p : ℕ) → (if p == a then f a else f p) ≡ f p
unchanged f a p = elim (Bool-cases (p == a)) [
  | inl e ↦ rw e (ap f (sym ((==_iff p a).0 e)))
  | inr e ↦ rw e refl
]

pub set_next_free_lem :
    (nodes : Nodes) (a v p : ℕ)
    → ((set_next_free nodes a v p).next_free ≡ (if p == a then v else (nodes p).next_free))
      × ((set_next_free nodes a v p).prev_free ≡ (nodes p).prev_free)
set_next_free_lem nodes a v p = (
  put_next nodes a p (record (nodes a) { next_free = v }),
  put_prev nodes a p (record (nodes a) { next_free = v })
      ∙ unchanged (λ q. (nodes q).prev_free) a p,
)

pub set_prev_free_lem :
    (nodes : Nodes) (a v p : ℕ)
    → ((set_prev_free nodes a v p).prev_free ≡ (if p == a then v else (nodes p).prev_free))
      × ((set_prev_free nodes a v p).next_free ≡ (nodes p).next_free)
set_prev_free_lem nodes a v p = (
  put_prev nodes a p (record (nodes a) { prev_free = v }),
  put_next nodes a p (record (nodes a) { prev_free = v })
      ∙ unchanged (λ q. (nodes q).next_free) a p,
)

-- A write through a pointer that is tested for NULL first, seen from a block elsewhere than at 0.
pub guarded_next :
    (nodes : Nodes) (a v p : ℕ)
    → p ≢ 0
    → ((if a == 0 then nodes else set_next_free nodes a v) p).next_free
      ≡ (if p == a then v else (nodes p).next_free)
guarded_next nodes a v p away =
    if_elim (λ (t : Nodes). (t p).next_free ≡ (if p == a then v else (nodes p).next_free)) (a == 0)
      (λ e.
        (let none_left : a ≡ 0 = (==_iff a 0).0 e in
          rw (==_false p a (λ q. away (q ∙ none_left))) refl))
      (λ _. (set_next_free_lem nodes a v p).0)

pub guarded_prev :
    (nodes : Nodes) (a v p : ℕ)
    → p ≢ 0
    → ((if a == 0 then nodes else set_prev_free nodes a v) p).prev_free
      ≡ (if p == a then v else (nodes p).prev_free)
guarded_prev nodes a v p away =
    if_elim (λ (t : Nodes). (t p).prev_free ≡ (if p == a then v else (nodes p).prev_free)) (a == 0)
      (λ e.
        (let none_left : a ≡ 0 = (==_iff a 0).0 e in
          rw (==_false p a (λ q. away (q ∙ none_left))) refl))
      (λ _. (set_prev_free_lem nodes a v p).0)

pub guarded_next_prev :
    (nodes : Nodes) (a v p : ℕ)
    → ((if a == 0 then nodes else set_next_free nodes a v) p).prev_free ≡ (nodes p).prev_free
guarded_next_prev nodes a v p =
    if_elim (λ (t : Nodes). (t p).prev_free ≡ (nodes p).prev_free) (a == 0) (λ _. refl)
      (λ _. (set_next_free_lem nodes a v p).1)

pub guarded_prev_next :
    (nodes : Nodes) (a v p : ℕ)
    → ((if a == 0 then nodes else set_prev_free nodes a v) p).next_free ≡ (nodes p).next_free
guarded_prev_next nodes a v p =
    if_elim (λ (t : Nodes). (t p).next_free ≡ (nodes p).next_free) (a == 0) (λ _. refl)
      (λ _. (set_prev_free_lem nodes a v p).1)

free_list_add_next :
    (h : Heap) (blk p : ℕ)
    → ((free_list_add h blk).nodes p).next_free
      ≡ (if p == blk then h.free_head else (h.nodes p).next_free)
unfolding free_list_add
free_list_add_next h blk p =
    let linked = set_next_free h.nodes blk h.free_head in
    guarded_prev_next (set_prev_free linked blk 0) h.free_head blk p
    ∙ (set_prev_free_lem linked blk 0 p).1
    ∙ (set_next_free_lem h.nodes blk h.free_head p).0

free_list_add_prev :
    (h : Heap) (blk p : ℕ)
    → p ≢ 0
    → ((free_list_add h blk).nodes p).prev_free
      ≡ (if p == h.free_head then blk else if p == blk then 0 else (h.nodes p).prev_free)
unfolding free_list_add
free_list_add_prev h blk p away =
    let linked = set_next_free h.nodes blk h.free_head in
    guarded_prev (set_prev_free linked blk 0) h.free_head blk p away
    ∙ ap (λ t. if p == h.free_head then blk else t)
        ((set_prev_free_lem linked blk 0 p).0
          ∙ ap (λ t. if p == blk then 0 else t) (set_next_free_lem h.nodes blk h.free_head p).1)

-- Two stores with the same links at the blocks of a list.
abbrev pub Agree : Nodes → Nodes → List ℕ → Type 0
Agree f g [] = Unit
Agree f g (x ∷ xs) =
    ((f x).prev_free ≡ (g x).prev_free) × ((f x).next_free ≡ (g x).next_free) × Agree f g xs

pub Links-Agree :
    (f g : Nodes) (before p : ℕ) (l : List ℕ)
    → Agree f g l
    → Links f before p l
    → Links g before p l
Links-Agree f g before p [] a h = h
Links-Agree f g before p (x ∷ xs) a h = (
  h.0,
  sym a.0 ∙ h.1,
  Links-Agree f g x (g x).next_free xs a.2 (subst (λ n. Links f x n xs) a.1 h.2),
)

pub if_other : (a p x y : ℕ) → a ≢ p → (if p == a then x else y) ≡ y
if_other a p x y h = rw (==_false p a (λ e. h (sym e))) refl

pub if_same : (p a x y : ℕ) → p ≡ a → (if p == a then x else y) ≡ x
if_same p a x y e = rw ((==_iff p a).1 e) refl

pub Without-first : (a : ℕ) (l : List ℕ) → a ≢ 0 → Without a l → first l ≢ a
Without-first a [] away h = λ e. away (sym e)
Without-first a (x ∷ xs) away h = λ e. h.0 (sym e)

pub Links-first : (nodes : Nodes) (before p : ℕ) (l : List ℕ) → Links nodes before p l → p ≡ first l
Links-first nodes before p [] h = h
Links-first nodes before p (x ∷ xs) h = h.0

free_list_add-Agree :
    (h : Heap) (blk : ℕ) (l : List ℕ)
    → Distinct l
    → Without blk l
    → Without h.free_head l
    → Agree h.nodes (free_list_add h blk).nodes l
free_list_add-Agree h blk [] d out behind = tt
free_list_add-Agree h blk (x ∷ xs) d out behind = (
  sym (
      free_list_add_prev h blk x d.0
      ∙ if_other h.free_head x blk _ behind.0
      ∙ if_other blk x 0 _ out.0),
  sym (free_list_add_next h blk x ∙ if_other blk x h.free_head _ out.0),
  free_list_add-Agree h blk xs d.2 out.1 behind.1,
)

free_list_add_head : (h : Heap) (blk : ℕ) → (free_list_add h blk).free_head ≡ blk
unfolding free_list_add
free_list_add_head h blk = refl

free_list_add-Links :
    (h : Heap) (l : List ℕ) (blk : ℕ)
    → IsFreeList h l
    → Without blk l
    → Links (free_list_add h blk).nodes blk h.free_head l
free_list_add-Links h [] blk free out = free.1
free_list_add-Links h (x ∷ xs) blk free out =
    let nodes = (free_list_add h blk).nodes in
    let at_head : h.free_head ≡ x = free.1.0 in
    let next : (nodes x).next_free ≡ (h.nodes x).next_free =
      free_list_add_next h blk x ∙ if_other blk x h.free_head _ out.0 in
    (
      at_head,
      free_list_add_prev h blk x free.0.0 ∙ if_same x h.free_head blk _ (sym at_head),
      Links-Agree h.nodes nodes x (nodes x).next_free xs
          (free_list_add-Agree h blk xs free.0.2 out.1
            (subst (λ a. Without a xs) (sym at_head) free.0.1))
          (subst (λ n. Links h.nodes x n xs) (sym next) free.1.2),
    )

-- A block that is not in the list comes to its front.
pub free_list_add-IsFreeList :
    (h : Heap) (l : List ℕ) (blk : ℕ)
    → IsFreeList h l
    → blk ≢ 0
    → Without blk l
    → IsFreeList (free_list_add h blk) (blk ∷ l)
free_list_add-IsFreeList h l blk free away out =
    let nodes = (free_list_add h blk).nodes in
    let next : (nodes blk).next_free ≡ h.free_head =
      free_list_add_next h blk blk ∙ if_same blk blk h.free_head _ refl in
    let behind : h.free_head ≢ blk =
      λ e. Without-first blk l away out (sym (Links-first h.nodes 0 h.free_head l free.1) ∙ e) in
    (
      (away, out, free.0),
      (
        free_list_add_head h blk,
        free_list_add_prev h blk blk away
            ∙ if_other h.free_head blk blk _ behind
            ∙ if_same blk blk 0 _ refl,
        subst (λ n. Links nodes blk n l) (sym next) (free_list_add-Links h l blk free out),
      ),
    )
