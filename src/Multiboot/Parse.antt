-- ===== src/Multiboot/Parse.antt =====
-- What `multiboot2_parse` makes of the tags in memory.
use Prim.Native.Nat.{bit_and}
use aura_os.Base.{
  ℕ, zero, suc, ◌+◌, ◌-◌, ◌*◌, ◌/◌, ◌^◌, ◌<◌, ◌≤◌, ◌≡◌, ◌≢◌, ◌∙◌, refl, ap, false, arith, ◌==◌,
  none, u32, u64, List, [], ◌∷◌,
}
use aura_os.Multiboot.{
  magic_number, Memory, read32, BootInfo, no_info, tag_info, next_tag, tags_loop, runs_on, parse,
}
use aura_os.Multiboot.Tags.{Tag, tell, Holds, tag_usable}

-- The tags lie in memory from the address on, and the end tag behind them. Each has its size in bytes,
-- its header of 8 bytes included, behind its type, and the next one follows on it, with as many bytes
-- between them as make the size a multiple of 8.
unfoldable pub Stream : Memory → ℕ → List Tag → Type 0
Stream m p [] = read32 m p ≡ 0
Stream m p (t ∷ ts) =
    Holds m p t
    × (8 ≤ read32 m (p + 4))
    × (read32 m (p + 4) + 7 < 2 ^ 32)
    × (p + (read32 m (p + 4) + 7) / 8 * 8 < 2 ^ 64)
    × Stream m (p + (read32 m (p + 4) + 7) / 8 * 8) ts

unfoldable pub all_usable : List Tag → ℕ
all_usable [] = 0
all_usable (t ∷ ts) = tag_usable t + all_usable ts

-- The tags in their order, each on top of what the ones before it have told.
unfoldable pub tell_all : BootInfo → List Tag → BootInfo
tell_all info [] = info
tell_all info (t ∷ ts) = tell_all (tell info t) ts

tags_loop_stuck :
    (fuel : ℕ) (m : Memory) (p : ℕ) (info : BootInfo)
    → p < 2 ^ 64
    → read32 m p ≢ 0
    → read32 m (u64 (p + 4)) ≡ 0
    → tags_loop fuel m p info ≡ none
unfolding tags_loop next_tag
tags_loop_stuck zero m p info hp ht hs = refl
tags_loop_stuck (suc fuel) m p info hp ht hs =
    let type : (read32 m p == 0) ≡ false = ground arith in
    let same : u64 (p + bit_and (u32 (read32 m (u64 (p + 4)) + 7)) (2 ^ 64 - 8)) ≡ p =
      rw hs (omega arith) in
    rw (type, tags_loop)
      (rw (same, tags_loop) (tags_loop_stuck fuel m p (tag_info m p info) hp ht hs))

-- A first tag that is not the end tag and whose size is 0 keeps the parser at it for ever: it does not
-- return after any number of rounds.
pub parse_stuck :
    (fuel : ℕ) (m : Memory) (mbi_addr : ℕ)
    → mbi_addr + 12 < 2 ^ 64
    → read32 m (mbi_addr + 8) ≢ 0
    → read32 m (mbi_addr + 12) ≡ 0
    → parse fuel m magic_number mbi_addr ≡ runs_on
unfolding parse
parse_stuck fuel m mbi_addr hp ht hs =
    let at : u64 (mbi_addr + 8) ≡ mbi_addr + 8 = omega arith in
    let size : read32 m (u64 (mbi_addr + 8 + 4)) ≡ 0 =
      ap (read32 m) {x = u64 (mbi_addr + 8 + 4)} {y = mbi_addr + 12} (omega arith) ∙ hs in
    rw (at, parse)
      (rw (tags_loop_stuck fuel m (mbi_addr + 8) no_info (omega arith) ht size, parse) refl)
