-- ===== src/Heap.antt =====
-- The kernel heap, kernel/core/heap.c: a store of block headers at their addresses, the free list that
-- is linked through them, and the frames that the heap grows by. NULL is 0.
-- `krealloc` and `kmalloc_aligned` are in Resize, with the bytes of the allocations.
pub mod FreeList
pub mod Unlink
pub mod Fit
pub mod Grow
pub mod Fields
pub mod MergeFields
pub mod Layout
pub mod Split
pub mod Merge
pub mod Extend
pub mod Invariant
pub mod Steps
pub mod Changes
pub mod Growth
pub mod Take
pub mod TakeBlock
pub mod Obtain
pub mod Release
pub mod Accounts
pub mod Runs
pub mod Separate
pub mod Provided
pub mod Succeeds
pub mod Resize
pub mod Bare
mod Examples
use Prim.Native.Nat.{bit_and}
use aura_os.Base.{
  ℕ, zero, suc, ◌+◌, ◌-◌, ◌*◌, ◌/◌, ◌%◌, ◌^◌, Bool, true, false, ◌&&◌, not, Option, none, some,
  ◌==◌, ltb, leb, if◌then◌else◌, u64,
}
use aura_os.Pmm.{Pmm, page_size, alloc_contiguous}

pub record Block : Type 0 where
  pub size : ℕ
  pub used : Bool
  pub next : ℕ
  pub prev : ℕ
  pub next_free : ℕ
  pub prev_free : ℕ

-- sizeof(block_t) with pointers of 8 bytes
abbrev pub header_size : ℕ
header_size = 48

abbrev pub min_split : ℕ
min_split = 32

abbrev pub Nodes : Type 0
Nodes = ℕ → Block

pub record Heap : Type 0 where
  pub nodes : Nodes
  pub free_head : ℕ
  pub heap_used : ℕ
  pub phys_offset : ℕ
  pub frames : Pmm

-- For `align` from 1 on.
abbrev pub align_up : ℕ → ℕ → ℕ
align_up val align = bit_and (u64 (val + (align - 1))) (2 ^ 64 - align)

-- A write to the header at an address.
abbrev pub put : Nodes → ℕ → Block → Nodes
put nodes a b = λ p. if p == a then b else nodes p

abbrev pub set_next_free : Nodes → ℕ → ℕ → Nodes
set_next_free nodes a v = put nodes a (record (nodes a) { next_free = v })

abbrev pub set_prev_free : Nodes → ℕ → ℕ → Nodes
set_prev_free nodes a v = put nodes a (record (nodes a) { prev_free = v })

pub free_list_add : Heap → ℕ → Heap
free_list_add h blk =
    let linked = set_prev_free (set_next_free h.nodes blk h.free_head) blk 0 in
    record h {
      nodes = if h.free_head == 0 then linked else set_prev_free linked h.free_head blk;
      free_head = blk;
    }

pub free_list_remove : Heap → ℕ → Heap
free_list_remove h blk =
    let before = (h.nodes blk).prev_free in
    let after = (h.nodes blk).next_free in
    let skipped = if before == 0 then h.nodes else set_next_free h.nodes before after in
    let linked = if after == 0 then skipped else set_prev_free skipped after before in
    record h {
      nodes = set_prev_free (set_next_free linked blk 0) blk 0;
      free_head = if before == 0 then after else h.free_head;
    }

-- The heap after the growth, and whether there were frames for it.
pub grow_heap : Heap → ℕ → Heap × Bool
unfolding free_list_add
grow_heap h min_payload =
    let need = u64 (min_payload + header_size) in
    let pages = u64 (need + (page_size - 1)) / page_size in
    let (pa, frames) = alloc_contiguous h.frames pages in
    if pa == 0
    then (record h { frames = frames }, false)
    else (let blk = u64 (pa + h.phys_offset) in
        (
          free_list_add
              (record h {
                nodes = put h.nodes blk (record {
                  size = pages * page_size - header_size;
                  used = false;
                  next = 0;
                  prev = 0;
                  next_free = 0;
                  prev_free = 0;
                });
                frames = frames;
              })
              blk,
          true,
        ))

unfoldable pub init : Heap → ℕ → Heap
init h offset = record h { free_head = 0; heap_used = 0; phys_offset = offset }

-- The first block of the free list from `cur` on with `size` bytes, in `fuel` steps at most.
pub first_fit : ℕ → Nodes → ℕ → ℕ → Option ℕ
first_fit zero nodes cur size = none
first_fit (suc fuel) nodes cur size =
    let rest = first_fit fuel nodes (nodes cur).next_free size in
    if cur == 0 then none else if leb size (nodes cur).size then some cur else rest

-- The block at `cur` is cut to `size` bytes, and what is left of it is a block at `split`.
pub shrink : Nodes → ℕ → ℕ → ℕ → Nodes
shrink nodes cur size split =
    let b = nodes cur in
    let shrunk = put nodes cur (record b { size = size }) in
    let placed = put shrunk split (record (shrunk split) {
      size = u64 (b.size + 2 ^ 64 - size + 2 ^ 64 - header_size);
      used = false;
      next = b.next;
      prev = cur;
    }) in
    let followed =
      if b.next == 0 then placed else put placed b.next (record (placed b.next) { prev = split }) in
    put followed cur (record (followed cur) { next = split })

-- The address behind the first `size` bytes of a block.
abbrev pub split_at : ℕ → ℕ → ℕ
split_at cur size = u64 (cur + header_size + size)

pub can_split : Block → ℕ → Bool
can_split b size = leb (u64 (size + header_size + min_split)) b.size

pub split_block : Heap → ℕ → ℕ → Heap
unfolding free_list_add shrink can_split
split_block h cur size =
    if can_split (h.nodes cur) size
    then free_list_add (record h { nodes = shrink h.nodes cur size (split_at cur size) })
        (split_at cur size)
    else h

pub take_block : Heap → ℕ → ℕ → ℕ × Heap
unfolding split_block free_list_remove
take_block h cur size =
    let g = free_list_remove (split_block h cur size) cur in
    (
      u64 (cur + header_size),
      record g {
        nodes = put g.nodes cur (record (g.nodes cur) { used = true });
        heap_used = u64 (g.heap_used + (g.nodes cur).size);
      },
    )

-- `rounds` bounds the calls of `kmalloc` by itself and `fuel` the steps of each search.
unfoldable pub kmalloc : ℕ → ℕ → Heap → ℕ → ℕ × Heap
unfolding first_fit take_block grow_heap
kmalloc fuel zero h size = (0, h)
kmalloc fuel (suc rounds) h size =
    let need = align_up size 8 in
    let (g, grown) = grow_heap h need in
    let again = kmalloc fuel rounds g need in
    if size == 0 then (0, h) else elim (first_fit fuel h.nodes h.free_head need) [
      | some cur ↦ take_block h cur need
      | none ↦ if grown then again else (0, g)
    ]

pub coalesce_right : Heap → ℕ → Heap
unfolding free_list_remove
coalesce_right h blk =
    let nxt = (h.nodes blk).next in
    if not (nxt == 0) && not (h.nodes nxt).used
    then (let g = free_list_remove h nxt in
        let b = g.nodes blk in
        let merged = put g.nodes blk (record b {
          size = u64 (b.size + header_size + (g.nodes nxt).size);
          next = (g.nodes nxt).next;
        }) in
        let after = (merged nxt).next in
        record g {
          nodes =
              if after == 0
              then merged
              else put merged after (record (merged after) { prev = blk });
        })
    else h

pub coalesce_left : Heap → ℕ → Heap
unfolding free_list_remove
coalesce_left h blk =
    let prv = (h.nodes blk).prev in
    if not (prv == 0) && not (h.nodes prv).used
    then (let g = free_list_remove h blk in
        let p = g.nodes prv in
        let merged = put g.nodes prv (record p {
          size = u64 (p.size + header_size + (g.nodes blk).size);
          next = (g.nodes blk).next;
        }) in
        let after = (merged blk).next in
        record g {
          nodes =
              if after == 0
              then merged
              else put merged after (record (merged after) { prev = prv });
        })
    else h

-- For an address from 48 on.
unfoldable pub kfree : Heap → ℕ → Heap
unfolding free_list_add coalesce_right coalesce_left
kfree h ptr =
    if ptr == 0
    then h
    else (let blk = ptr - header_size in
        let b = h.nodes blk in
        if b.used
        then coalesce_left
            (coalesce_right
              (free_list_add
                (record h {
                  nodes = put h.nodes blk (record b { used = false });
                  heap_used = u64 (h.heap_used + 2 ^ 64 - b.size);
                })
                blk)
              blk)
            blk
        else h)

pub get_used : Heap → ℕ
get_used h = h.heap_used

pub free_total : ℕ → Nodes → ℕ → ℕ → ℕ
free_total zero nodes cur total = total
free_total (suc fuel) nodes cur total =
    let rest = free_total fuel nodes (nodes cur).next_free (u64 (total + (nodes cur).size)) in
    if cur == 0 then total else rest

pub get_free : ℕ → Heap → ℕ
unfolding free_total
get_free fuel h = free_total fuel h.nodes h.free_head 0
