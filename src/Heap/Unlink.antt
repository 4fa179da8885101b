-- ===== src/Heap/Unlink.antt =====
-- A block leaves the free list, wherever in it it is.
use aura_os.Base.{
  ℕ, ◌≡◌, ◌≢◌, sym, ap, ◌∙◌, List, [], ◌∷◌, ◌++◌, ◌==◌, ==_iff, if◌then◌else◌, if_elim, subst,
}
use aura_os.Heap.{Nodes, Heap, set_next_free, set_prev_free, free_list_remove}
use aura_os.Heap.FreeList.{
  Without, Distinct, first, Links, IsFreeList, Agree, Links-Agree, Without-first, Links-first,
  guarded_next, guarded_prev, guarded_next_prev, guarded_prev_next, set_next_free_lem,
  set_prev_free_lem, if_other, if_same,
}

module _ (h : Heap) (blk : ℕ) where
  free_list_remove_next :
      (p : ℕ)
      → p ≢ 0
      → blk ≢ p
      → ((free_list_remove h blk).nodes p).next_free
        ≡ (if p == (h.nodes blk).prev_free then (h.nodes blk).next_free else (h.nodes p).next_free)
  unfolding free_list_remove
  free_list_remove_next p away other =
      let B = (h.nodes blk).prev_free in
      let A = (h.nodes blk).next_free in
      let skipped = if B == 0 then h.nodes else set_next_free h.nodes B A in
      let linked = if A == 0 then skipped else set_prev_free skipped A B in
      (set_prev_free_lem (set_next_free linked blk 0) blk 0 p).1
      ∙ (set_next_free_lem linked blk 0 p).0
      ∙ if_other blk p 0 _ other
      ∙ guarded_prev_next skipped A B p
      ∙ guarded_next h.nodes B A p away

  free_list_remove_prev :
      (p : ℕ)
      → p ≢ 0
      → blk ≢ p
      → ((free_list_remove h blk).nodes p).prev_free
        ≡ (if p == (h.nodes blk).next_free then (h.nodes blk).prev_free else (h.nodes p).prev_free)
  unfolding free_list_remove
  free_list_remove_prev p away other =
      let B = (h.nodes blk).prev_free in
      let A = (h.nodes blk).next_free in
      let skipped = if B == 0 then h.nodes else set_next_free h.nodes B A in
      let linked = if A == 0 then skipped else set_prev_free skipped A B in
      (set_prev_free_lem (set_next_free linked blk 0) blk 0 p).0
      ∙ if_other blk p 0 _ other
      ∙ (set_next_free_lem linked blk 0 p).1
      ∙ guarded_prev skipped A B p away
      ∙ ap (λ t. if p == A then B else t) (guarded_next_prev h.nodes B A p)

  free_list_remove_head :
      (free_list_remove h blk).free_head
      ≡ (if 0 == (h.nodes blk).prev_free then (h.nodes blk).next_free else h.free_head)
  unfolding free_list_remove
  free_list_remove_head =
      let B = (h.nodes blk).prev_free in
      let A = (h.nodes blk).next_free in
      if_elim (λ t. t ≡ (if 0 == B then A else h.free_head)) (B == 0)
        (λ e. sym (if_same 0 B A h.free_head (sym ((==_iff B 0).0 e))))
        (λ e. sym (if_other B 0 A h.free_head (λ q. absurd (let w = (==_iff B 0).1 q in cc))))

pub Without-blk : (a : ℕ) (ys : List ℕ) (b : ℕ) (zs : List ℕ) → Without a (ys ++ b ∷ zs) → a ≢ b
Without-blk a [] b zs h = h.0
Without-blk a (y ∷ ys) b zs h = Without-blk a ys b zs h.1

Without-rest :
    (a : ℕ) (ys : List ℕ) (b : ℕ) (zs : List ℕ) → Without a (ys ++ b ∷ zs) → Without a (ys ++ zs)
Without-rest a [] b zs h = h.1
Without-rest a (y ∷ ys) b zs h = (h.0, Without-rest a ys b zs h.1)

Without-end : (a : ℕ) (ys : List ℕ) (b : ℕ) (zs : List ℕ) → Without a (ys ++ b ∷ zs) → Without a zs
Without-end a [] b zs h = h.1
Without-end a (y ∷ ys) b zs h = Without-end a ys b zs h.1

Without-zero : (l : List ℕ) → Distinct l → Without 0 l
Without-zero [] d = tt
Without-zero (x ∷ xs) d = (λ e. d.0 (sym e), Without-zero xs d.2)

Distinct-rest : (ys : List ℕ) (b : ℕ) (zs : List ℕ) → Distinct (ys ++ b ∷ zs) → Distinct (ys ++ zs)
Distinct-rest [] b zs d = d.2
Distinct-rest (y ∷ ys) b zs d = (d.0, Without-rest y ys b zs d.1, Distinct-rest ys b zs d.2)

abbrev last_of : ℕ → List ℕ → ℕ
last_of b [] = b
last_of b (y ∷ ys) = last_of y ys

module _ (nodes : Nodes) (blk : ℕ) (post : List ℕ) where
  Links-blk :
      (before p : ℕ) (pre : List ℕ)
      → Links nodes before p (pre ++ blk ∷ post)
      → ((nodes blk).prev_free ≡ last_of before pre) × ((nodes blk).next_free ≡ first post)
  Links-blk before p [] k = (k.1, Links-first nodes blk (nodes blk).next_free post k.2)
  Links-blk before p (y ∷ ys) k = Links-blk y (nodes y).next_free ys k.2

last_of_apart :
    (a y : ℕ) (ys : List ℕ) (b : ℕ) (zs : List ℕ)
    → a ≢ y
    → Without a (ys ++ b ∷ zs)
    → last_of y ys ≢ a
last_of_apart a y [] b zs h out = λ e. h (sym e)
last_of_apart a y (x ∷ xs) b zs h out = last_of_apart a x xs b zs out.0 out.1

module _ (h : Heap) (blk : ℕ) where
  remove-Agree :
      (l : List ℕ)
      → Distinct l
      → Without blk l
      → Without (h.nodes blk).prev_free l
      → Without (h.nodes blk).next_free l
      → Agree h.nodes (free_list_remove h blk).nodes l
  remove-Agree [] d out behind ahead = tt
  remove-Agree (x ∷ xs) d out behind ahead = (
    sym (free_list_remove_prev h blk x d.0 out.0 ∙ if_other (h.nodes blk).next_free x _ _ ahead.0),
    sym (free_list_remove_next h blk x d.0 out.0 ∙ if_other (h.nodes blk).prev_free x _ _ behind.0),
    remove-Agree xs d.2 out.1 behind.1 ahead.1,
  )

  -- Behind the block: its successors, the first of them linked back to what was before the block.
  remove-tail :
      (post : List ℕ)
      → Distinct (blk ∷ post)
      → Without (h.nodes blk).prev_free post
      → Links h.nodes blk (h.nodes blk).next_free post
      → Links (free_list_remove h blk).nodes (h.nodes blk).prev_free (h.nodes blk).next_free post
  remove-tail [] d behind k = k
  remove-tail (z ∷ zs) d behind k =
      let nodes = (free_list_remove h blk).nodes in
      let next : (nodes z).next_free ≡ (h.nodes z).next_free =
        free_list_remove_next h blk z d.2.0 d.1.0
        ∙ if_other (h.nodes blk).prev_free z _ _ behind.0 in
      (
        k.0,
        free_list_remove_prev h blk z d.2.0 d.1.0 ∙ if_same z (h.nodes blk).next_free _ _ (sym k.0),
        Links-Agree h.nodes nodes z (nodes z).next_free zs
            (remove-Agree zs d.2.2 d.1.1 behind.1 (subst (λ a. Without a zs) (sym k.0) d.2.1))
            (subst (λ n. Links h.nodes z n zs) (sym next) k.2),
      )

  remove-Links :
      (before p : ℕ) (pre post : List ℕ)
      → Distinct (pre ++ blk ∷ post)
      → Without before (pre ++ blk ∷ post)
      → Links h.nodes before p (pre ++ blk ∷ post)
      → Links
          (free_list_remove h blk).nodes
          before
          (if before == (h.nodes blk).prev_free then (h.nodes blk).next_free else p)
          (pre ++ post)
  remove-Links before p [] post d out k =
      let nodes = (free_list_remove h blk).nodes in
      subst (λ n. Links nodes before n post)
        (sym (if_same before (h.nodes blk).prev_free _ p (sym k.1)))
        (subst (λ b. Links nodes b (h.nodes blk).next_free post) k.1
          (remove-tail post d (subst (λ b. Without b post) (sym k.1) out.1) k.2))
  remove-Links before p (y ∷ ys) post d out k =
      let nodes = (free_list_remove h blk).nodes in
      let (behind, ahead) = Links-blk h.nodes blk post before p (y ∷ ys) k in
      let other : blk ≢ y = λ e. Without-blk y ys blk post d.1 (sym e) in
      (
        if_other (h.nodes blk).prev_free before _ p
              (λ e. last_of_apart before y ys blk post out.0 out.1 (sym behind ∙ e))
            ∙ k.0,
        free_list_remove_prev h blk y d.0 other
            ∙ if_other (h.nodes blk).next_free y _ _
                (λ e. Without-first y post d.0 (Without-end y ys blk post d.1) (sym ahead ∙ e))
            ∙ k.1,
        subst (λ n. Links nodes y n (ys ++ post)) (sym (free_list_remove_next h blk y d.0 other))
            (remove-Links y (h.nodes y).next_free ys post d.2 d.1 k.2),
      )

-- A block of the free list is taken out, and the others stay in their order.
pub free_list_remove-IsFreeList :
    (h : Heap) (pre : List ℕ) (blk : ℕ) (post : List ℕ)
    → IsFreeList h (pre ++ blk ∷ post)
    → IsFreeList (free_list_remove h blk) (pre ++ post)
free_list_remove-IsFreeList h pre blk post free =
    let nodes = (free_list_remove h blk).nodes in
    (
      Distinct-rest pre blk post free.0,
      subst (λ p. Links nodes 0 p (pre ++ post)) (sym (free_list_remove_head h blk))
          (remove-Links h blk 0 h.free_head pre post free.0
            (Without-zero (pre ++ blk ∷ post) free.0) free.1),
    )
