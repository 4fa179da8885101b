-- ===== src/Vmm/Tables.antt =====
-- The invariant of the page tables. A ghost function gives each frame a level: 4 for the root, down to
-- 1 for the tables whose entries name pages, 0 for frames that hold no table.
use native.Mathlib.Decide.{dec_lt}
use aura_os.Base.{
  ℕ, suc, ◌+◌, ◌*◌, ◌^◌, ◌<◌, ◌≡◌, ◌≢◌, ◌⊎◌, inl, inr, true, arith, if◌then◌else◌, ◌==◌, le→leb,
  lt→leb, lt→ltb, le→ltb,
}
use aura_os.Pmm.{is_used}
use aura_os.Pmm.Invariant
use aura_os.Vmm.{Vmm, is_present, address, slot, write, clear_table}

abbrev pub table : ℕ → ℕ
table frame = frame * 4096

pub record IsTree (level : ℕ → ℕ) (s : Vmm) : Type 0 where
  pub allocator : Invariant.IsValid s.pmm
  -- Addresses of frames fit the address bits of an entry.
  pub physical : s.pmm.total_frames < 2 ^ 40
  -- Tables are frames in use.
  pub inside : (f : ℕ) → level f ≢ 0 → f < s.pmm.total_frames
  pub used : (f : ℕ) → level f ≢ 0 → is_used s.pmm.bitmap f ≡ true
  -- A present entry above the last level names a table of the next level.
  pub child :
      (f k index : ℕ)
      → level f ≡ suc (suc k)
      → index < 512
      → is_present (s.memory (slot (table f) index)) ≡ true
      → (g : ℕ) × (address (s.memory (slot (table f) index)) ≡ table g) × (level g ≡ suc k)

abbrev pub add_level : (ℕ → ℕ) → ℕ → ℕ → ℕ → ℕ
add_level level frame k f = if frame == f then k else level f

-- Words of different entries have different addresses.
slot-ne :
    (f g i j : ℕ) → i < 512 → j < 512 → (f ≢ g) ⊎ (i ≢ j) → slot (table f) i ≢ slot (table g) j
slot-ne f g i j hi hj (inl d) e = d (omega arith)
slot-ne f g i j hi hj (inr d) e = d (omega arith)

pub write_self : (memory : ℕ → ℕ) (a word : ℕ) → write memory a word a ≡ word
unfolding write
write_self memory a word = ground arith

pub write-slot :
    (memory : ℕ → ℕ) (f i g j word : ℕ)
    → i < 512
    → j < 512
    → (f ≢ g) ⊎ (i ≢ j)
    → write memory (slot (table f) i) word (slot (table g) j) ≡ memory (slot (table g) j)
unfolding write
write-slot memory f i g j word hi hj d = ground (arith, slot-ne f g i j hi hj d)

pub clear_table_inside :
    (memory : ℕ → ℕ) (g i : ℕ) → i < 512 → clear_table memory (table g) (slot (table g) i) ≡ 0
unfolding clear_table
clear_table_inside memory g i h = rw (
  le→leb (table g) (slot (table g) i) (omega arith),
  lt→ltb (slot (table g) i) (table g + 4096) (omega arith),
)

ne_lt : (f g : ℕ) → f ≢ g → ¬ (f < g) → g < f
ne_lt f g d l = omega arith

pub clear_table_outside :
    (memory : ℕ → ℕ) (g f i : ℕ)
    → i < 512
    → f ≢ g
    → clear_table memory (table g) (slot (table f) i) ≡ memory (slot (table f) i)
unfolding clear_table
clear_table_outside memory g f i h d = elim (dec_lt f g) [
  | yes l ↦ rw (lt→leb (table g) (slot (table f) i) (omega arith))
  | no l ↦
      let up : g < f = ne_lt f g d l in
      rw (
        le→leb (table g) (slot (table f) i) (omega arith),
        le→ltb (slot (table f) i) (table g + 4096) (omega arith),
      )
]

pub add_level_self : (level : ℕ → ℕ) (f k : ℕ) → add_level level f k f ≡ k
add_level_self level f k = ground arith

pub add_level_ne : (level : ℕ → ℕ) (f k g : ℕ) → f ≢ g → add_level level f k g ≡ level g
add_level_ne level f k g d = ground arith
