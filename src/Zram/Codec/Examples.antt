-- ===== src/Zram/Codec/Examples.antt =====
-- Runs of the codec, and its theorems at concrete pages.
use aura_os.Base.{ℕ, ◌≤◌, ◌≡◌, refl, ◌≢◌, ◌⊎◌, List, [], ◌∷◌, ◌++◌, arith, length, replicate}
use aura_os.Zram.Codec.{done, failed, compress_page, page_size, decompress_page}
use aura_os.Zram.Codec.Bounds.{compress_page_ends}
use aura_os.Zram.Codec.Fill.{decompress_page_ends}
use aura_os.Zram.Codec.RoundTrip.{AllReadable, HasNoShortLiteral, decompress-compress}
use aura_os.Zram.Codec.ShortLiteral.{lone_byte, decompress-compress_lone}

abbrev twice : List ℕ → List ℕ
twice xs = xs ++ xs

-- Sixteen full runs of zeros, and one of sixteen.
abbrev zero_page_stream : List ℕ
zero_page_stream = twice (twice (twice (twice (1 ∷ 255 ∷ [])))) ++ 1 ∷ 16 ∷ []

abbrev zero_page : List ℕ
zero_page = replicate 4096 0

compress-zero_page : compress_page zero_page 4096 ≡ done zero_page_stream
unfolding compress_page
compress-zero_page = refl

compress_page_ends_example :
    ((out : List ℕ) × (compress_page (9 ∷ 9 ∷ 9 ∷ []) 8 ≡ done out) × (length out ≤ 8))
    ⊎ (compress_page (9 ∷ 9 ∷ 9 ∷ []) 8 ≡ failed)
compress_page_ends_example = compress_page_ends (9 ∷ 9 ∷ 9 ∷ []) 8

decompress_page_ends_example :
    ((out : List ℕ) × (decompress_page (3 ∷ 9 ∷ 9 ∷ 9 ∷ []) ≡ done out) × (length out ≡ page_size))
    ⊎ (decompress_page (3 ∷ 9 ∷ 9 ∷ 9 ∷ []) ≡ failed)
decompress_page_ends_example = decompress_page_ends (3 ∷ 9 ∷ 9 ∷ 9 ∷ [])

zero_page_readable : HasNoShortLiteral zero_page 4096
unfolding AllReadable compress_page
zero_page_readable = omega arith

decompress-compress_example : decompress_page zero_page_stream ≡ done zero_page
decompress-compress_example =
    decompress-compress zero_page zero_page_stream 4096 refl zero_page_readable compress-zero_page

abbrev lone_page : List ℕ
lone_page = lone_byte 7 0 (replicate 4090 0)

abbrev lone_page_stream : List ℕ
lone_page_stream = 1 ∷ 7 ∷ (twice (twice (twice (twice (1 ∷ 255 ∷ [])))) ++ 1 ∷ 15 ∷ [])

compress-lone_page : compress_page lone_page 4096 ≡ done lone_page_stream
unfolding compress_page
compress-lone_page = refl

decompress-compress_lone_example : decompress_page lone_page_stream ≢ done lone_page
decompress-compress_lone_example =
    decompress-compress_lone 7 0 (replicate 4090 0) lone_page_stream 4096 (λ e. omega arith)
      compress-lone_page
