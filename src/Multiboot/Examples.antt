-- ===== src/Multiboot/Examples.antt =====
-- Boot information in memory, and the parser's theorems at it.
use aura_os.Base.{ℕ, ◌≡◌, refl, true, List, [], ◌∷◌, ◌++◌, get_or}
use aura_os.Multiboot.{magic_number, Memory, parsed, refused, parse}
use aura_os.Multiboot.Tags.{Region, Tag, upper_memory, memory_map, framebuffer, unknown}

abbrev byte : ℕ → List ℕ
byte n = n ∷ 0 ∷ 0 ∷ 0 ∷ []

-- A command line of one character, which the parser skips, 1 MiB and 63 MiB of memory, two regions,
-- a framebuffer, and the end tag.
abbrev info_bytes : List ℕ
info_bytes =
    byte 152
    ++ byte 0
    ++ byte 1
    ++ byte 10
    ++ (113 ∷ 0 ∷ [])
    ++ (0 ∷ 0 ∷ 0 ∷ 0 ∷ 0 ∷ 0 ∷ [])
    ++ byte 4
    ++ byte 16
    ++ byte 128
    ++ (0 ∷ 252 ∷ 0 ∷ 0 ∷ [])
    ++ byte 6
    ++ byte 64
    ++ byte 24
    ++ byte 0
    ++ byte 0
    ++ byte 0
    ++ (0 ∷ 160 ∷ 9 ∷ 0 ∷ [])
    ++ byte 0
    ++ byte 1
    ++ byte 0
    ++ (0 ∷ 160 ∷ 9 ∷ 0 ∷ [])
    ++ byte 0
    ++ (0 ∷ 96 ∷ 0 ∷ 0 ∷ [])
    ++ byte 0
    ++ byte 2
    ++ byte 0
    ++ byte 8
    ++ byte 32
    ++ (0 ∷ 0 ∷ 0 ∷ 224 ∷ [])
    ++ byte 0
    ++ (0 ∷ 16 ∷ 0 ∷ 0 ∷ [])
    ++ (0 ∷ 4 ∷ 0 ∷ 0 ∷ [])
    ++ (0 ∷ 3 ∷ 0 ∷ 0 ∷ [])
    ++ byte 32
    ++ byte 0
    ++ byte 8

abbrev loaded : Memory
loaded p = get_or info_bytes p 0

abbrev regions : List Region
regions = (record { bytes = 0x9_a000; kind = 1 }) ∷ (record { bytes = 0x6000; kind = 2 }) ∷ []

abbrev info_tags : List Tag
info_tags =
    unknown 1
    ∷ upper_memory 0xfc00
    ∷ memory_map regions
    ∷ framebuffer 0xe000_0000 0x1000 0x400 0x300 32
    ∷ []

parse_run :
    parse 5 loaded magic_number 0
    ≡ parsed (record {
      total_memory_bytes = 0x400_0000;
      available_memory_bytes = 0x9_a000;
      fb_addr = 0xe000_0000;
      fb_width = 1024;
      fb_height = 768;
      fb_pitch = 4096;
      fb_bpp = 32;
      has_framebuffer = true;
    })
unfolding parse
parse_run = refl

parse_other : parse 5 loaded 0x2bad_b002 0 ≡ refused
unfolding parse
parse_other = refl

-- A tag of type 1 without a size.
abbrev broken : Memory
broken p = get_or (byte 24 ++ byte 0 ++ byte 1 ++ byte 0 ++ byte 0 ++ byte 8) p 0
