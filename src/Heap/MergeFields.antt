-- ===== src/Heap/MergeFields.antt =====
-- What the join of two blocks does to the fields of the headers.
use aura_os.Base.{
  ℕ, ◌+◌, ◌≡◌, ◌≢◌, refl, ap, ◌∙◌, ◌&&◌, not, arith, ◌==◌, if◌then◌else◌, if_elim, ==_false, u64,
}
use aura_os.Heap.{Block, Nodes, put, header_size}
use aura_os.Heap.Fields.{put_field, put_kept}

-- The block behind `b` is joined with it.
unfoldable pub merge : Nodes → ℕ → ℕ → Nodes
merge nodes b n =
    let merged = put nodes b (record (nodes b) {
      size = u64 ((nodes b).size + header_size + (nodes n).size);
      next = (nodes n).next;
    }) in
    let after = (merged n).next in
    if after == 0 then merged else put merged after (record (merged after) { prev = b })

module _ (nodes : Nodes) (b n : ℕ) (other : n ≢ b) where
  abbrev pub bigger : Block
  bigger = record (nodes b) {
    size = u64 ((nodes b).size + header_size + (nodes n).size);
    next = (nodes n).next;
  }

  abbrev pub merged : Nodes
  merged = put nodes b bigger

  merged_next : (merged n).next ≡ (nodes n).next
  merged_next = put_field (λ (b : Block). b.next) nodes b bigger n ∙ rw (==_false n b other) refl

  pub merge_kept {ℓ} :
      {X : Type ℓ} (f : Block → X) (p : ℕ)
      → ((c : Block) → f (record c { prev = b }) ≡ f c)
      → f (merge nodes b n p) ≡ f (merged p)
  unfolding merge
  merge_kept f p out =
      let after = (merged n).next in
      if_elim (λ (t : Nodes). f (t p) ≡ f (merged p)) (after == 0) (λ _. refl)
        (λ _. put_kept f merged after (record (merged after) { prev = b }) p (out (merged after)))

  pub merge_size :
      (p : ℕ)
      → (merge nodes b n p).size
        ≡ (if p == b then u64 ((nodes b).size + header_size + (nodes n).size) else (nodes p).size)
  merge_size p =
      merge_kept (λ (b : Block). b.size) p (λ b. refl)
      ∙ put_field (λ (b : Block). b.size) nodes b bigger p

  pub merge_next :
      (p : ℕ) → (merge nodes b n p).next ≡ (if p == b then (nodes n).next else (nodes p).next)
  merge_next p =
      merge_kept (λ (b : Block). b.next) p (λ b. refl)
      ∙ put_field (λ (b : Block). b.next) nodes b bigger p

  pub merge_used : (p : ℕ) → (merge nodes b n p).used ≡ (nodes p).used
  merge_used p =
      merge_kept (λ (b : Block). b.used) p (λ b. refl)
      ∙ put_kept (λ (b : Block). b.used) nodes b bigger p refl

  pub merge_prev :
      (p : ℕ)
      → (merge nodes b n p).prev
        ≡ (if (p == (nodes n).next) && not ((nodes n).next == 0) then b else (nodes p).prev)
  unfolding merge
  merge_prev p =
      let kept : (merged p).prev ≡ (nodes p).prev =
        put_kept (λ (b : Block). b.prev) nodes b bigger p refl in
      let same = merged_next in
      let after = (merged n).next in
      if_elim
        (λ (t : Nodes).
          (t p).prev ≡ (if (p == after) && not (after == 0) then b else (nodes p).prev))
        (after == 0) (λ e. kept ∙ ground arith)
        (λ e.
          put_field (λ (b : Block). b.prev) merged after (record (merged after) { prev = b }) p
          ∙ ap (λ t. if p == after then b else t) kept
          ∙ ground arith)
      ∙ ap (λ q. if (p == q) && not (q == 0) then b else (nodes p).prev) same
