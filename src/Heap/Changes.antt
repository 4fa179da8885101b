-- ===== src/Heap/Changes.antt =====
-- The changes of the blocks themselves and the invariant: marks, cuts, joins and new blocks.
use aura_os.Base.{
  ℕ, ◌+◌, ◌-◌, ◌^◌, ◌≤◌, ◌≡◌, ◌≢◌, refl, sym, ap, ◌∙◌, Bool, true, false, ◌&&◌, not, arith, ◌==◌,
  if◌then◌else◌, ==_iff, List, u64,
}
use aura_os.Pmm.{is_used}
use aura_os.Heap.{Block, Heap, put, shrink, header_size}
use aura_os.Heap.FreeList.{IsFreeList}
use aura_os.Heap.Fit.{SameLinks, put-SameLinks, Links-SameLinks, shrink-SameLinks}
use aura_os.Heap.Layout.{Layout, Layout-SameAt, at_point}
use aura_os.Heap.Split.{split_new, split_size, split_next, split_prev, split-Layout}
use aura_os.Heap.Merge
use aura_os.Heap.Merge.{merge-Layout}
use aura_os.Heap.Fields.{
  size_of, next_of, prev_of, used_of, put_field, put_kept, shrink_size, shrink_next, shrink_prev,
  shrink_used,
}
use aura_os.Heap.MergeFields.{
  merge, merge_size, merge_next, merge_prev, merge_used, merge_kept, bigger,
}
use aura_os.Heap.Invariant.{has, Inv}
use aura_os.Heap.Steps.{no_zero}

pub not_true : (t : Bool) → t ≢ true → t ≡ false
not_true true h = absurd (h refl)
not_true false h = refl

flags_mark :
    (t u is_c is_zero : Bool)
    → (is_zero ≡ true → t ≡ false)
    → (t && (not u && not is_c)) ≡ (t && (not (if is_c then true else u) && not is_zero))
flags_mark t u true z hz = ground arith
flags_mark true u false true hz = ground (arith, hz refl)
flags_mark true u false false hz = refl
flags_mark false u false z hz = refl

flags_unmark :
    (t u is_c is_zero : Bool)
    → (is_c ≡ true → u ≡ true)
    → (is_zero ≡ true → t ≡ false)
    → (t && (not u && not is_zero)) ≡ (t && (not (if is_c then false else u) && not is_c))
flags_unmark t u true z hu hz = ground (arith, hu refl)
flags_unmark true u false true hu hz = ground (arith, hz refl)
flags_unmark true u false false hu hz = refl
flags_unmark false u false z hu hz = refl

pub flags_cut :
    (t u is_c is_zero : Bool)
    → (is_c ≡ true → t ≡ false)
    → (is_zero ≡ true → t ≡ false)
    → (t && (not u && not is_zero))
      ≡ ((if is_c then true else t) && (not (if is_c then false else u) && not is_c))
flags_cut t u true z hc hz = ground (arith, hc refl)
flags_cut true u false true hc hz = ground (arith, hz refl)
flags_cut true u false false hc hz = refl
flags_cut false u false z hc hz = refl

flags_join :
    (t u is_c is_zero : Bool)
    → (is_zero ≡ true → t ≡ false)
    → (t && (not u && not is_c)) ≡ ((if is_c then false else t) && (not u && not is_zero))
flags_join t u true z hz = ground arith
flags_join true u false true hz = ground (arith, hz refl)
flags_join true u false false hz = refl
flags_join false u false z hz = refl

module _ (h : Heap) (blocks : ℕ → Bool) (c : ℕ) (used : Bool) (w : ℕ) where
  -- The block is marked.
  abbrev pub marked : Heap
  marked = record h { nodes = put h.nodes c (record (h.nodes c) { used = used }); heap_used = w }

  marked_used : (b : ℕ) → used_of marked.nodes b ≡ (if b == c then used else used_of h.nodes b)
  marked_used b = put_field (λ (b : Block). b.used) h.nodes c (record (h.nodes c) { used = used }) b

  marked-Layout :
      (busy : ℕ → Bool)
      → Layout (size_of h.nodes) (next_of h.nodes) (prev_of h.nodes) busy blocks
      → Layout (size_of marked.nodes) (next_of marked.nodes) (prev_of marked.nodes) busy blocks
  marked-Layout busy lay =
      let same = record (h.nodes c) { used = used } in
      Layout-SameAt (size_of h.nodes) (next_of h.nodes) (prev_of h.nodes) (size_of marked.nodes)
        (next_of marked.nodes) (prev_of marked.nodes) busy blocks
        (λ p. sym (put_kept (λ (b : Block). b.size) h.nodes c same p refl))
        (λ p. sym (put_kept (λ (b : Block). b.next) h.nodes c same p refl))
        (λ p. sym (put_kept (λ (b : Block). b.prev) h.nodes c same p refl)) lay

  marked-IsFreeList : (l : List ℕ) → IsFreeList h l → IsFreeList marked l
  marked-IsFreeList l free = (
    free.0,
    Links-SameLinks h.nodes marked.nodes 0 h.free_head l
        (put-SameLinks h.nodes c (record (h.nodes c) { used = used }) refl refl) free.1,
  )

  marked-Inv :
      (off off' : ℕ) (v : Inv h blocks off)
      → ((b : ℕ)
          → has b v.list
            ≡ (blocks b && (not (if b == c then used else used_of h.nodes b) && not (b == off'))))
      → Inv marked blocks off'
  marked-Inv off off' v flags = record {
    list = v.list;
    layout = marked-Layout (is_used h.frames.bitmap) v.layout;
    free = marked-IsFreeList v.list v.free;
    listed = λ b. flags b ∙ ap (λ t. blocks b && (not t && not (b == off'))) (sym (marked_used b));
    frames = v.frames;
    first = v.first;
    identity = v.identity;
  }

module _ (h : Heap) (blocks : ℕ → Bool) (c w : ℕ) where
  -- The block that is off the list goes into use.
  pub mark-Inv : Inv h blocks c → Inv (marked h blocks c true w) blocks 0
  mark-Inv v = marked-Inv h blocks c true w c 0 v (λ b.
      v.listed b
      ∙ flags_mark (blocks b) (used_of h.nodes b) (b == c) (b == 0) (no_zero h blocks c v b))

  -- A block goes out of use, and is off the list.
  pub unmark-Inv :
      used_of h.nodes c ≡ true → Inv h blocks 0 → Inv (marked h blocks c false w) blocks c
  unmark-Inv taken v = marked-Inv h blocks c false w 0 c v (λ b.
      v.listed b
      ∙ flags_unmark (blocks b) (used_of h.nodes b) (b == c) (b == 0)
          (λ e. ap (used_of h.nodes) ((==_iff b c).0 e) ∙ taken) (no_zero h blocks 0 v b))

-- The block `cur` is cut to `n` bytes, and the rest is off the list.
module _ (h : Heap) (blocks : ℕ → Bool) (cur n : ℕ) (mine : blocks cur ≡ true)
    (room : n + 48 ≤ size_of h.nodes cur) where
  abbrev pub cut_at : ℕ
  cut_at = cur + 48 + n

  abbrev pub cut : Heap
  cut = record h { nodes = shrink h.nodes cur n cut_at }

  cut_sizes :
      (whole other : ℕ)
      → cur + 48 + whole ≤ 2 ^ 64
      → n + 48 ≤ whole
      → (is_cur is_cut : Bool) → (is_cur ≡ true → is_cut ≡ true → ⊥)
      → (if is_cur then n else if is_cut then whole - n - 48 else other) ≡ (
          if is_cut
          then u64 (whole + 2 ^ 64 - n + 2 ^ 64 - header_size)
          else if is_cur
          then n
          else other)
  cut_sizes whole other fits enough true true two = absurd (two refl refl)
  cut_sizes whole other fits enough true false two = refl
  cut_sizes whole other fits enough false true two = omega arith
  cut_sizes whole other fits enough false false two = refl

  pub cut-Inv : Inv h blocks 0 → Inv cut (at_point blocks cut_at true) cut_at
  cut-Inv v =
      let s = size_of h.nodes in
      let x = next_of h.nodes in
      let p = prev_of h.nodes in
      let busy = is_used h.frames.bitmap in
      let fits = (v.layout.bound cur mine).1 in
      let fresh : blocks cut_at ≢ true =
        λ e. split_new s x p busy blocks v.layout cur n mine room e in
      record {
        list = v.list;
        layout =
            Layout-SameAt (split_size s x p busy blocks v.layout cur n mine room)
              (split_next s x p busy blocks v.layout cur n mine room)
              (split_prev s x p busy blocks v.layout cur n mine room) (size_of cut.nodes)
              (next_of cut.nodes) (prev_of cut.nodes) busy (at_point blocks cut_at true)
              (λ q.
                cut_sizes (s cur) (s q) fits room (q == cur) (q == cut_at)
                  (λ e e'. omega (arith, (==_iff q cur).0 e, (==_iff q cut_at).0 e'))
                ∙ sym (shrink_size h.nodes cur n cut_at q))
              (λ q. sym (shrink_next h.nodes cur n cut_at q))
              (λ q. sym (shrink_prev h.nodes cur n cut_at q))
              (split-Layout s x p busy blocks v.layout cur n mine room);
        free = (
          v.free.0,
          Links-SameLinks h.nodes cut.nodes 0 h.free_head v.list
              (shrink-SameLinks h.nodes cur n cut_at) v.free.1,
        );
        listed = λ b.
            v.listed b
            ∙ flags_cut (blocks b) (used_of h.nodes b) (b == cut_at) (b == 0)
                (λ e.
                  not_true (blocks b) (λ q. fresh (sym (ap blocks ((==_iff b cut_at).0 e)) ∙ q)))
                (no_zero h blocks 0 v b)
            ∙ ap (λ t. at_point blocks cut_at true b && (not t && not (b == cut_at)))
                (sym (shrink_used h.nodes cur n cut_at b));
        frames = v.frames;
        first = v.first;
        identity = v.identity;
      }

-- The block `b` takes over the block `n` behind it, which is off the list.
module _ (h : Heap) (blocks : ℕ → Bool) (b n : ℕ) (mine : blocks b ≡ true)
    (behind : next_of h.nodes b ≡ n) (some_block : n ≢ 0) where
  abbrev pub joined : Heap
  joined = record h { nodes = merge h.nodes b n }

  merge-SameLinks : n ≢ b → SameLinks h.nodes joined.nodes
  merge-SameLinks other q = (
    sym (
        merge_kept h.nodes b n other (λ (c : Block). c.prev_free) q (λ c. refl)
        ∙ put_kept (λ (c : Block). c.prev_free) h.nodes b (bigger h.nodes b n other) q refl),
    sym (
        merge_kept h.nodes b n other (λ (c : Block). c.next_free) q (λ c. refl)
        ∙ put_kept (λ (c : Block). c.next_free) h.nodes b (bigger h.nodes b n other) q refl),
  )

  pub join-Inv : Inv h blocks n → Inv joined (at_point blocks n false) 0
  join-Inv v =
      let s = size_of h.nodes in
      let x = next_of h.nodes in
      let p = prev_of h.nodes in
      let busy = is_used h.frames.bitmap in
      let l = v.layout.followed b mine (λ z. some_block (sym behind ∙ z)) in
      let at : n ≡ b + 48 + s b = sym behind ∙ l.1 in
      let other : n ≢ b = λ e. omega (arith, at) in
      let fits = (v.layout.bound n (ap blocks (sym behind) ∙ l.0)).1 in
      let whole : u64 (s b + header_size + s n) ≡ s b + 48 + s n = omega (arith, at, fits) in
      record {
        list = v.list;
        layout =
            Layout-SameAt (Merge.merge_size s x p busy blocks v.layout b n mine behind some_block)
              (Merge.merge_next s x p busy blocks v.layout b n mine behind some_block)
              (Merge.merge_prev s x p busy blocks v.layout b n mine behind some_block)
              (size_of joined.nodes) (next_of joined.nodes) (prev_of joined.nodes) busy
              (at_point blocks n false)
              (λ q.
                sym (merge_size h.nodes b n other q ∙ ap (λ t. if q == b then t else s q) whole))
              (λ q. sym (merge_next h.nodes b n other q))
              (λ q. sym (merge_prev h.nodes b n other q))
              (merge-Layout s x p busy blocks v.layout b n mine behind some_block);
        free = (
          v.free.0,
          Links-SameLinks h.nodes joined.nodes 0 h.free_head v.list (merge-SameLinks other)
              v.free.1,
        );
        listed = λ q.
            v.listed q
            ∙ flags_join (blocks q) (used_of h.nodes q) (q == n) (q == 0) (no_zero h blocks n v q)
            ∙ ap (λ t. at_point blocks n false q && (not t && not (q == 0)))
                (sym (merge_used h.nodes b n other q));
        frames = v.frames;
        first = v.first;
        identity = v.identity;
      }
