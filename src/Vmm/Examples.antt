-- ===== src/Vmm/Examples.antt =====
-- Runs of the page tables, and their theorems at a concrete memory.
use aura_os.Base.{
  ℕ, zero, suc, ◌≢◌, ◌+◌, ◌%◌, ◌^◌, ◌≡◌, refl, true, false, ◌∷◌, arith, if◌then◌else◌, ◌==◌,
  replicate,
}
use aura_os.Pmm.{Pmm, is_used, alloc_frame, find_free}
use aura_os.Pmm.Count.{count_used}
use aura_os.Pmm.Invariant
use aura_os.Vmm.{Vmm, address, map_page, unmap_page, virt_to_phys}
use aura_os.Vmm.Tables.{IsTree}
use aura_os.Vmm.Translate.{virt_to_phys-map_page}

-- Frame 0 is reserved, frame 1 is an empty root, and six frames are free.
abbrev frames : Pmm
frames = record {
  bitmap = true ∷ true ∷ replicate 6 false;
  total_frames = 8;
  used_frames = 2;
  alloc_hint = 0;
}

abbrev empty : Vmm
empty = record { memory = λ _. 0; pmm = frames }

abbrev root_level : ℕ → ℕ
root_level f = if f == 1 then 4 else 0

frames-IsValid : Invariant.IsValid frames
unfolding count_used
frames-IsValid = record {
  covered = omega arith;
  addressable = omega arith;
  counted = refl;
  hinted = omega arith;
}

root_used : (f : ℕ) → root_level f ≢ 0 → is_used frames.bitmap f ≡ true
root_used zero l = refl
root_used (suc zero) l = refl
root_used (suc (suc f)) l = absurd (l (ground arith))

empty-IsTree : IsTree root_level empty
empty-IsTree = record {
  allocator = frames-IsValid;
  physical = omega arith;
  inside = λ f l. ground arith;
  used = root_used;
  child = λ f k i l h p. absurd (cc);
}

-- A page far up and another in the same table: frames 2, 3 and 4 become the tables.
abbrev mapped : Vmm
mapped =
    map_page (map_page empty 4096 0xffff_8000_0020_1abc 0xfee0_0000 0x1b) 4096 0xffff_8000_0020_2000
      0x7000 3

translated : virt_to_phys mapped.memory 4096 0xffff_8000_0020_1abc ≡ 0xfee0_0abc
unfolding virt_to_phys map_page alloc_frame find_free
translated = refl

unmapped_again :
    virt_to_phys (unmap_page mapped 4096 0xffff_8000_0020_1abc).memory 4096 0xffff_8000_0020_2fff
    ≡ 0x7fff
unfolding virt_to_phys map_page unmap_page alloc_frame find_free
unmapped_again = refl

virt_to_phys-map_page_example :
    (virt_to_phys
        (map_page empty 4096 0xffff_8000_0020_1abc 0xfee0_0000 0x1b).memory
        4096
        0xffff_8000_0020_1abc
      ≡ address 0xfee0_0000 + 0xffff_8000_0020_1abc % 2 ^ 12)
    × ((level' : ℕ → ℕ) × IsTree level' (map_page empty 4096 0xffff_8000_0020_1abc 0xfee0_0000 0x1b)
        × (level' 1 ≡ 4))
virt_to_phys-map_page_example =
    virt_to_phys-map_page root_level empty 1 0xffff_8000_0020_1abc 0xfee0_0000 0x1b empty-IsTree
      refl (omega arith)

abbrev one_page : Vmm
one_page = map_page empty 4096 0x40_0000 0x9000 3

one_page-IsTree : (level : ℕ → ℕ) × IsTree level one_page × (level 1 ≡ 4)
one_page-IsTree =
    (virt_to_phys-map_page root_level empty 1 0x40_0000 0x9000 3 empty-IsTree refl (omega arith)).1
