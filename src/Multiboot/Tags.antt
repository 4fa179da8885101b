-- ===== src/Multiboot/Tags.antt =====
-- What the tags say, apart from how they lie in memory.
use aura_os.Base.{
  ℕ, ◌+◌, ◌-◌, ◌*◌, ◌/◌, ◌^◌, ◌≤◌, ◌<◌, ◌≡◌, ◌≢◌, ◌∙◌, refl, ap, true, arith, ◌==◌, if◌then◌else◌,
  u32, u64, List, [], ◌∷◌, length, subst,
}
use aura_os.Multiboot.{Memory, read32, read64, BootInfo, entries_loop, tag_info}

-- A region of the memory map.
pub record Region : Type 0 where
  pub bytes : ℕ
  pub kind : ℕ

-- A tag: the memory above the first MiB in KiB, the memory map, the framebuffer, and any other.
pub data Tag : Type 0 where
  upper_memory : ℕ → Tag
  memory_map : List Region → Tag
  framebuffer : (place pitch columns rows depth : ℕ) → Tag
  unknown : ℕ → Tag

-- The bytes of the regions that may be used.
unfoldable pub usable : List Region → ℕ
usable [] = 0
usable (r ∷ rs) = (if r.kind == 1 then r.bytes else 0) + usable rs

-- What a tag adds to the information.
unfoldable pub tell : BootInfo → Tag → BootInfo
unfolding usable
tell info (upper_memory n) = record info { total_memory_bytes = (n + 1024) * 1024 }
tell info (memory_map rs) = record info {
  available_memory_bytes = info.available_memory_bytes + usable rs;
}
tell info (framebuffer place pitch columns rows depth) = record info {
  fb_addr = place;
  fb_pitch = pitch;
  fb_width = columns;
  fb_height = rows;
  fb_bpp = depth;
  has_framebuffer = true;
}
tell info (unknown t) = info

-- The regions lie in memory one after the other, in 24 bytes each.
unfoldable pub Lists : Memory → ℕ → List Region → Type 0
Lists m p [] = Unit
Lists m p (r ∷ rs) =
    (read64 m (p + 8) ≡ r.bytes) × (read32 m (p + 16) ≡ r.kind) × Lists m (p + 24) rs

-- The tag lies in memory at the address.
unfoldable pub Holds : Memory → ℕ → Tag → Type 0
unfolding Lists
Holds m p (upper_memory n) =
    (read32 m p ≡ 4) × (read32 m (p + 12) ≡ n) × (n + 1024 < 2 ^ 32) × (p + 16 ≤ 2 ^ 64)
Holds m p (memory_map rs) =
    (read32 m p ≡ 6)
    × (read32 m (p + 4) ≡ 16 + length rs * 24)
    × (read32 m (p + 8) ≡ 24)
    × Lists m (p + 16) rs
    × (16 + length rs * 24 < 2 ^ 32)
    × (p + 16 + length rs * 24 < 2 ^ 64)
Holds m p (framebuffer place pitch columns rows depth) =
    (read32 m p ≡ 8)
    × (read64 m (p + 8) ≡ place)
    × (read32 m (p + 16) ≡ pitch)
    × (read32 m (p + 20) ≡ columns)
    × (read32 m (p + 24) ≡ rows)
    × (m (p + 28) ≡ depth)
    × (p + 32 ≤ 2 ^ 64)
Holds m p (unknown t) = (read32 m p ≡ t) × (t ≢ 0) × (t ≢ 4) × (t ≢ 6) × (t ≢ 8)

entry_at :
    (p i k : ℕ)
    → i * 24 < 2 ^ 32
    → p + i * 24 + k < 2 ^ 64
    → u64 (u64 (p + u32 (i * 24)) + k) ≡ p + i * 24 + k
entry_at p i k hi hp = omega arith

-- A round of the loop adds the bytes of its region.
round_lem :
    (r : Region) (i : ℕ) (m : Memory) (p available : ℕ)
    → read64 m (p + i * 24 + 8) ≡ r.bytes
    → read32 m (p + i * 24 + 16) ≡ r.kind
    → i * 24 < 2 ^ 32
    → p + i * 24 + 16 < 2 ^ 64
    → available + (if r.kind == 1 then r.bytes else 0) < 2 ^ 64
    → (if read32 m (u64 (u64 (p + u32 (i * 24)) + 16)) == 1
        then u64 (available + read64 m (u64 (u64 (p + u32 (i * 24)) + 8)))
        else available)
      ≡ available + (if r.kind == 1 then r.bytes else 0)
round_lem r i m p available hb hk hi hp ha =
    rw (entry_at p i 16 hi hp, entry_at p i 8 hi (omega arith), hb, hk) (ground arith)

entries_loop_lem :
    (rs : List Region) (i : ℕ) (m : Memory) (p available : ℕ)
    → Lists m (p + i * 24) rs
    → (i + length rs) * 24 < 2 ^ 32
    → p + (i + length rs) * 24 ≤ 2 ^ 64
    → available + usable rs < 2 ^ 64
    → entries_loop (length rs) i m p 24 available ≡ available + usable rs
unfolding entries_loop Lists usable
entries_loop_lem [] i m p available l hn hp ha = omega arith
entries_loop_lem (r ∷ rs) i m p available l hn hp ha =
    let here : p + i * 24 + 24 ≡ p + (i + 1) * 24 = omega arith in
    let rest : Lists m (p + (i + 1) * 24) rs = subst (λ q. Lists m q rs) here l.2 in
    let next : entries_loop (length rs) (i + 1) m p 24
          (available + (if r.kind == 1 then r.bytes else 0))
        ≡ available + usable (r ∷ rs) =
      entries_loop_lem rs (i + 1) m p (available + (if r.kind == 1 then r.bytes else 0)) rest
        (omega arith) (omega arith) (omega arith)
      ∙ omega arith in
    ap (entries_loop (length rs) (i + 1) m p 24)
      (round_lem r i m p available l.0 l.1 (omega arith) (omega arith) (omega arith))
    ∙ next

-- What a tag may add to the usable memory.
unfoldable pub tag_usable : Tag → ℕ
unfolding usable
tag_usable (memory_map rs) = usable rs
tag_usable (upper_memory n) = 0
tag_usable (framebuffer place pitch columns rows depth) = 0
tag_usable (unknown t) = 0

wide : (p k : ℕ) → p + k < 2 ^ 64 → u64 (p + k) ≡ p + k
wide p k h = omega arith

entries_of : (n : ℕ) → 16 + n * 24 < 2 ^ 32 → u32 (u64 (16 + n * 24 + 2 ^ 64 - 16) / 24) ≡ n
entries_of n h = omega arith

pub tag_info_lem :
    (m : Memory) (p : ℕ) (t : Tag) (info : BootInfo)
    → Holds m p t
    → info.available_memory_bytes + tag_usable t < 2 ^ 64
    → tag_info m p info ≡ tell info t
unfolding tag_info tell Holds tag_usable
tag_info_lem m p (upper_memory n) info (ht, hn, hs, hp) ha =
    rw (ht, wide p 12 (omega arith), hn, tag_info)
      (ap (λ k. record info { total_memory_bytes = k }) {y = (n + 1024) * 1024} (omega arith))
tag_info_lem m p (memory_map rs) info (ht, hs, he, l, hn, hp) ha =
    rw (ht, tag_info)
      (rw
        (
          wide p 4 (omega arith),
          hs,
          wide p 8 (omega arith),
          he,
          wide p 16 (omega arith),
          entries_of (length rs) hn,
        )
        (ap (λ k. record info { available_memory_bytes = k })
          (entries_loop_lem rs 0 m (p + 16) info.available_memory_bytes
            (subst (λ q. Lists m q rs) {x = p + 16} (omega arith) l) (omega arith) (omega arith)
            ha)))
tag_info_lem m p (framebuffer place pitch columns rows depth) info (ht, h1, h2, h3, h4, h5, hp) ha =
    rw (ht, tag_info)
      (rw
        (
          wide p 8 (omega arith),
          h1,
          wide p 16 (omega arith),
          h2,
          wide p 20 (omega arith),
          h3,
          wide p 24 (omega arith),
          h4,
          wide p 28 (omega arith),
          h5,
        )
        refl)
tag_info_lem m p (unknown t) info (ht, h0, h4, h6, h8) ha = rw (ht, tag_info) (ground arith)
