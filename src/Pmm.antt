-- ===== src/Pmm.antt =====
-- The physical memory manager, kernel/core/pmm.c: one bit for each frame of 4096 bytes.
-- The bitmap is the list of its bits: bit `k % 8` of byte `k / 8` is entry `k`, so that a 64-bit
-- word `w` of it (the machine is little-endian) is the 64 entries from `64 * w` on.
-- A function that changes the static variables returns the new state beside its result.
pub mod Count
pub mod Scan
pub mod Invariant
pub mod Alloc
pub mod Range
pub mod Contiguous
pub mod Calls
pub mod Mark
mod Examples
use aura_os.Base.{
  ℕ, zero, suc, ◌+◌, ◌-◌, ◌*◌, ◌/◌, Bool, true, false, not, ◌&&◌, Option, none, some, List, [], ◌∷◌,
  ltb, leb, ◌==◌, if◌then◌else◌, u64, get_or, set, take, drop, replicate,
}
use mathlib.Core.Option

-- PAGE_SIZE
abbrev pub page_size : ℕ
page_size = 4096

-- The static variables of the module.
pub record Pmm : Type 0 where
  pub bitmap : List Bool
  pub total_frames : ℕ
  pub used_frames : ℕ
  pub alloc_hint : ℕ

-- BITMAP_TEST; a bit beyond the bitmap is never read (`Pmm.Invariant`).
abbrev pub is_used : List Bool → ℕ → Bool
is_used bitmap frame = get_or bitmap frame true

pub init : ℕ → Pmm
init mem_size = record {
  bitmap = replicate ((mem_size / page_size + 7) / 8 * 8) false;
  total_frames = mem_size / page_size;
  used_frames = 0;
  alloc_hint = 0;
}

pub mark_used : Pmm → ℕ → Pmm
mark_used s paddr =
    let frame = paddr / page_size in
    if ltb frame s.total_frames && not (is_used s.bitmap frame)
    then record s { bitmap = set s.bitmap frame true; used_frames = u64 (s.used_frames + 1) }
    else s

-- The decrement wraps below 0, as on `size_t`.
pub mark_free : Pmm → ℕ → Pmm
mark_free s paddr =
    let frame = paddr / page_size in
    if ltb frame s.total_frames && is_used s.bitmap frame
    then record s {
      bitmap = set s.bitmap frame false;
      used_frames = u64 (s.used_frames + 0xffff_ffff_ffff_ffff);
      alloc_hint = if ltb frame s.alloc_hint then frame else s.alloc_hint;
    }
    else s

-- `__builtin_ctzll(~val)`, if `val` has a zero bit.
pub first_free : List Bool → Option ℕ
first_free [] = none
first_free (false ∷ bs) = some 0
first_free (true ∷ bs) = Option.map suc (first_free bs)

abbrev pub word : List Bool → ℕ → List Bool
word bitmap w = take 64 (drop (w * 64) bitmap)

-- The loops of phases 1 and 2: `left` words from word `w` on.
pub scan_words : List Bool → ℕ → ℕ → ℕ → Option ℕ
scan_words bitmap total zero w = none
scan_words bitmap total (suc left) w = elim (first_free (word bitmap w)) [
  | none ↦ scan_words bitmap total left (w + 1)
  | some bit ↦ elim (ltb (w * 64 + bit) total) [
    | true ↦ some (w * 64 + bit)
    | false ↦ scan_words bitmap total left (w + 1)
  ]
]

-- The loop of phase 3: `left` bits from bit `i` on.
pub scan_bits : List Bool → ℕ → ℕ → Option ℕ
scan_bits bitmap zero i = none
scan_bits bitmap (suc left) i = elim (is_used bitmap i) [
  | true ↦ scan_bits bitmap left (i + 1)
  | false ↦ some i
]

-- A phase that finds a frame returns it; else the next one is run.
abbrev pub or_else : Option ℕ → Option ℕ → Option ℕ
or_else (some frame) next = some frame
or_else none next = next

-- Phase 1: the words from the hint on.
abbrev pub scan_from_hint : Pmm → Option ℕ
scan_from_hint s =
    scan_words s.bitmap s.total_frames (s.total_frames / 64 - s.alloc_hint / 64) (s.alloc_hint / 64)

-- Phase 2: the words before the hint.
abbrev pub scan_from_start : Pmm → Option ℕ
scan_from_start s = scan_words s.bitmap s.total_frames (s.alloc_hint / 64) 0

-- Phase 3: the bits behind the last whole word.
abbrev pub scan_trailing : Pmm → Option ℕ
scan_trailing s =
    scan_bits s.bitmap (s.total_frames - s.total_frames / 64 * 64) (s.total_frames / 64 * 64)

unfoldable pub find_free : Pmm → Option ℕ
unfolding scan_words scan_bits first_free
find_free s = or_else (scan_from_hint s) (or_else (scan_from_start s) (scan_trailing s))

-- What each phase does with the frame that it finds.
abbrev pub take_frame : Pmm → ℕ → ℕ × Pmm
take_frame s frame = (
  u64 (frame * page_size),
  record s {
    bitmap = set s.bitmap frame true;
    used_frames = u64 (s.used_frames + 1);
    alloc_hint = u64 (frame + 1);
  },
)

unfoldable pub alloc_frame : Pmm → ℕ × Pmm
alloc_frame s =
    if leb s.total_frames s.used_frames
    then (0, s)
    else elim (find_free s) [ some frame ↦ take_frame s frame | none ↦ (0, s) ]

pub free_frame : Pmm → ℕ → Pmm
unfolding mark_free
free_frame s paddr = mark_free s paddr

-- The loop of `pmm_alloc_contiguous`: `left` bits from bit `i` on, `count` free ones from `start` on
-- just before it.
unfoldable pub find_range : List Bool → ℕ → ℕ → ℕ → ℕ → ℕ → Option ℕ
find_range bitmap frame_count zero i count start = none
find_range bitmap frame_count (suc left) i count start = elim (is_used bitmap i) [
  | true ↦ find_range bitmap frame_count left (i + 1) 0 start
  | false ↦ elim (count + 1 == frame_count) [
    | true ↦ some (if count == 0 then i else start)
    | false ↦
        find_range bitmap frame_count left (i + 1) (count + 1) (if count == 0 then i else start)
  ]
]

unfoldable pub mark_range : ℕ → ℕ → List Bool → List Bool
mark_range zero j bitmap = bitmap
mark_range (suc left) j bitmap = mark_range left (j + 1) (set bitmap j true)

unfoldable pub alloc_contiguous : Pmm → ℕ → ℕ × Pmm
alloc_contiguous s frame_count =
    if frame_count == 0
    then (0, s)
    else elim (find_range s.bitmap frame_count s.total_frames 0 0 0) [
      | none ↦ (0, s)
      | some start ↦ (
        u64 (start * page_size),
        record s {
          bitmap = mark_range frame_count start s.bitmap;
          used_frames = u64 (s.used_frames + frame_count);
        },
      )
    ]

unfoldable pub get_free_memory : Pmm → ℕ
get_free_memory s = (s.total_frames - s.used_frames) * page_size

pub get_used_memory : Pmm → ℕ
get_used_memory s = s.used_frames * page_size

unfoldable pub get_total_memory : Pmm → ℕ
get_total_memory s = s.total_frames * page_size
