-- ===== src/Heap/Steps.antt =====
-- The steps of `kmalloc` and `kfree` and the invariant.
use aura_os.Base.{
  ℕ, ◌≡◌, refl, sym, ap, ◌∙◌, Bool, true, false, ◌&&◌, ◌||◌, not, inl, inr, arith, ◌==◌,
  if◌then◌else◌, ==_refl, ==_false, ==_iff, Bool-cases, ◌∷◌, ◌++◌, subst,
}
use aura_os.Pmm.{is_used}
use aura_os.Heap.{Heap, free_list_add, free_list_remove}
use aura_os.Heap.FreeList.{IsFreeList, free_list_add-IsFreeList}
use aura_os.Heap.Unlink.{free_list_remove-IsFreeList}
use aura_os.Heap.Layout.{Layout-SameAt}
use aura_os.Heap.Fields.{
  size_of, next_of, prev_of, used_of, free_list_add_kept, free_list_remove_kept, size-Unlinked,
  next-Unlinked, prev-Unlinked, used-Unlinked,
}
use aura_os.Heap.Invariant.{has, Without-has, has-Parts, has_without, Inv}

-- The other parts of the state of the heap.
frames_add : (h : Heap) (c : ℕ) → (free_list_add h c).frames ≡ h.frames
unfolding free_list_add
frames_add h c = refl

offset_add : (h : Heap) (c : ℕ) → (free_list_add h c).phys_offset ≡ h.phys_offset
unfolding free_list_add
offset_add h c = refl

frames_remove : (h : Heap) (c : ℕ) → (free_list_remove h c).frames ≡ h.frames
unfolding free_list_remove
frames_remove h c = refl

offset_remove : (h : Heap) (c : ℕ) → (free_list_remove h c).phys_offset ≡ h.phys_offset
unfolding free_list_remove
offset_remove h c = refl

-- Of a block: whether it is one, whether it is in use, and whether it is the one that is added or
-- taken off, or 0.
flags_add :
    (t u is_c is_zero : Bool)
    → (is_c ≡ true → t ≡ true)
    → (is_c ≡ true → u ≡ false)
    → (is_zero ≡ true → t ≡ false)
    → (is_c || (t && (not u && not is_c))) ≡ (t && (not u && not is_zero))
flags_add true true true z ht hu hz = ground (arith, hu refl)
flags_add true true false z ht hu hz = ground arith
flags_add true false true true ht hu hz = ground (arith, hz refl)
flags_add true false true false ht hu hz = refl
flags_add true false false true ht hu hz = ground (arith, hz refl)
flags_add true false false false ht hu hz = refl
flags_add false u true z ht hu hz = ground (arith, ht refl)
flags_add false u false z ht hu hz = refl

flags_remove :
    (t u is_c is_zero : Bool)
    → (is_zero ≡ true → t ≡ false)
    → (if is_c then false else t && (not u && not is_zero)) ≡ (t && (not u && not is_c))
flags_remove t u true z hz = ground arith
flags_remove true u false true hz = ground (arith, hz refl)
flags_remove true u false false hz = refl
flags_remove false u false z hz = refl

pub no_zero :
    (h : Heap) (blocks : ℕ → Bool) (off : ℕ)
    → Inv h blocks off
    → (b : ℕ) → (b == 0) ≡ true
    → blocks b ≡ false
no_zero h blocks off v b z = elim (Bool-cases (blocks b)) [
  | inl e ↦ absurd ((v.layout.bound b e).0 ((==_iff b 0).0 z))
  | inr e ↦ e
]

module _ (h : Heap) (blocks : ℕ → Bool) (c : ℕ) (mine : blocks c ≡ true)
    (unused : used_of h.nodes c ≡ false) where
  -- The block that is off the list is put on it.
  pub free_list_add-Inv : Inv h blocks c → Inv (free_list_add h c) blocks 0
  free_list_add-Inv v =
      let away = (v.layout.bound c mine).0 in
      let out : has c v.list ≡ false = v.listed c ∙ rw (==_refl c) (ground arith) in
      record {
        list = c ∷ v.list;
        layout = rw (frames_add h c) (
            Layout-SameAt (size_of h.nodes) (next_of h.nodes) (prev_of h.nodes)
              (size_of (free_list_add h c).nodes) (next_of (free_list_add h c).nodes)
              (prev_of (free_list_add h c).nodes) (is_used h.frames.bitmap) blocks
              (λ p. sym (free_list_add_kept (λ b. b.size) size-Unlinked h c p))
              (λ p. sym (free_list_add_kept (λ b. b.next) next-Unlinked h c p))
              (λ p. sym (free_list_add_kept (λ b. b.prev) prev-Unlinked h c p)) v.layout);
        free = free_list_add-IsFreeList h v.list c v.free away (Without-has c v.list out);
        listed = λ b.
            let kept = free_list_add_kept (λ b. b.used) used-Unlinked h c b in
            let old = v.listed b in
            let same = λ (e : (b == c) ≡ true). ap blocks ((==_iff b c).0 e) ∙ mine in
            let idle = λ (e : (b == c) ≡ true). ap (used_of h.nodes) ((==_iff b c).0 e) ∙ unused in
            ap (λ t. (b == c) || t) old
            ∙ flags_add (blocks b) (used_of h.nodes b) (b == c) (b == 0) same idle
                (no_zero h blocks c v b)
            ∙ ap (λ t. blocks b && (not t && not (b == 0))) (sym kept);
        frames = rw (frames_add h c) v.frames;
        first = rw (frames_add h c) v.first;
        identity = offset_add h c ∙ v.identity;
      }

  -- A free block is taken off the list.
  pub free_list_remove-Inv : Inv h blocks 0 → Inv (free_list_remove h c) blocks c
  free_list_remove-Inv v =
      let away = (v.layout.bound c mine).0 in
      let within : has c v.list ≡ true = v.listed c ∙ rw (mine, unused, ==_false c 0 away) refl in
      let r = has-Parts c v.list within in
      let whole = subst (IsFreeList h) r.whole v.free in
      record {
        list = r.before ++ r.after;
        layout = rw (frames_remove h c) (
            Layout-SameAt (size_of h.nodes) (next_of h.nodes) (prev_of h.nodes)
              (size_of (free_list_remove h c).nodes) (next_of (free_list_remove h c).nodes)
              (prev_of (free_list_remove h c).nodes) (is_used h.frames.bitmap) blocks
              (λ p. sym (free_list_remove_kept (λ b. b.size) size-Unlinked h c p))
              (λ p. sym (free_list_remove_kept (λ b. b.next) next-Unlinked h c p))
              (λ p. sym (free_list_remove_kept (λ b. b.prev) prev-Unlinked h c p)) v.layout);
        free = free_list_remove-IsFreeList h r.before c r.after whole;
        listed = λ b.
            let kept = free_list_remove_kept (λ b. b.used) used-Unlinked h c b in
            let old = v.listed b in
            let gone = has_without c b r.before r.after whole.0 in
            let same : has b v.list ≡ has b (r.before ++ c ∷ r.after) = ap (has b) r.whole in
            gone
            ∙ ap (λ t. if b == c then false else t) (sym same ∙ old)
            ∙ flags_remove (blocks b) (used_of h.nodes b) (b == c) (b == 0) (no_zero h blocks 0 v b)
            ∙ ap (λ t. blocks b && (not t && not (b == c))) (sym kept);
        frames = rw (frames_remove h c) v.frames;
        first = rw (frames_remove h c) v.first;
        identity = offset_remove h c ∙ v.identity;
      }
