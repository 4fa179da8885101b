-- ===== src/Zram/Codec.antt =====
-- The page codec of kernel/core/zram.c: `zram_compress_page` and `zram_decompress_page`.
-- A buffer that is read is the list of its bytes from the read index on, so `in_idx + k < end` is
-- `k < length rest` and `in_idx += k` is `drop k rest`. A buffer that is written is the list of the
-- bytes written. Each loop takes fuel; `Codec.Bounds` and `Codec.Fill` show that what is given is enough.
pub mod Chunks
pub mod Bounds
pub mod Fill
pub mod RoundTrip
pub mod ShortLiteral
mod Examples
use aura_os.Base.{
  ℕ, zero, suc, ◌+◌, ◌-◌, ◌%◌, min, Bool, true, false, ◌&&◌, ◌||◌, Option, none, some, List, [],
  ◌∷◌, ◌++◌, ltb, leb, ◌==◌, if◌then◌else◌, u8, length, take, drop, replicate,
}

-- ZRAM_PAGE_SIZE
abbrev pub page_size : ℕ
page_size = 4096

abbrev pub tag_zeros : ℕ
tag_zeros = 1

abbrev pub tag_run : ℕ
tag_run = 2

-- `failed` is the return of -1.
pub data Result : Type 0 where
  done : List ℕ → Result
  failed out_of_fuel : Result

abbrev pub prepend : List ℕ → Result → Result
prepend xs (done ys) = done (xs ++ ys)
prepend xs failed = failed
prepend xs out_of_fuel = out_of_fuel

-- What one round of the compressor writes: a run of zeros, a run of a byte, or bytes as they are.
pub data Chunk : Type 0 where
  zeros : ℕ → Chunk
  run : ℕ → ℕ → Chunk
  literal : List ℕ → Chunk

-- How often `val` stands at the front, at most `left` times.
pub count_run : ℕ → ℕ → List ℕ → ℕ
count_run zero val rest = 0
count_run (suc left) val [] = 0
count_run (suc left) val (b ∷ bs) = if b == val then suc (count_run left val bs) else 0

-- Four zeros at the front, and a byte behind them.
abbrev pub four_zeros : List ℕ → Bool
four_zeros (a ∷ b ∷ c ∷ d ∷ e ∷ bs) = a == 0 && (b == 0 && (c == 0 && d == 0))
four_zeros bs = false

pub literal_len : ℕ → List ℕ → ℕ
literal_len zero rest = 0
literal_len (suc left) [] = 0
literal_len (suc left) (b ∷ bs) = if four_zeros (b ∷ bs) then 0 else suc (literal_len left bs)

pub next_chunk : ℕ → List ℕ → Chunk
next_chunk lit_cap [] = literal []
next_chunk lit_cap (b ∷ bs) =
    if b == 0 && leb 4 (count_run 255 0 (b ∷ bs))
    then zeros (count_run 255 0 (b ∷ bs))
    else if leb 6 (count_run 255 b (b ∷ bs))
    then run (count_run 255 b (b ∷ bs)) b
    else literal (take (literal_len lit_cap (b ∷ bs)) (b ∷ bs))

-- By how much a round moves `in_idx`.
abbrev pub chunk_len : Chunk → ℕ
chunk_len (zeros n) = n
chunk_len (run n val) = n
chunk_len (literal bs) = length bs

-- The bytes that a round writes; an empty literal writes none.
abbrev pub emit : Chunk → List ℕ
emit (zeros n) = tag_zeros ∷ u8 n ∷ []
emit (run n val) = tag_run ∷ u8 n ∷ val ∷ []
emit (literal []) = []
emit (literal (b ∷ bs)) = u8 (length (b ∷ bs) % 128) ∷ b ∷ bs

-- The test before a literal is written.
abbrev pub overflows : ℕ → ℕ → Chunk → Bool
overflows max_dst out_idx (zeros n) = false
overflows max_dst out_idx (run n val) = false
overflows max_dst out_idx (literal []) = false
overflows max_dst out_idx (literal (b ∷ bs)) = ltb max_dst (out_idx + 1 + length (b ∷ bs))

-- `lit_cap`: the room behind the tag byte, at most 127.
abbrev pub literal_cap : ℕ → ℕ → ℕ
literal_cap max_dst out_idx = min (max_dst - out_idx - 1) 127

pub compress_loop : ℕ → ℕ → ℕ → List ℕ → Result
compress_loop zero max_dst out_idx rest = out_of_fuel
compress_loop (suc fuel) max_dst out_idx [] = done []
compress_loop (suc fuel) max_dst out_idx (b ∷ bs) =
    let c = next_chunk (literal_cap max_dst out_idx) (b ∷ bs) in
    elim (leb max_dst (out_idx + 4)) [
      | true ↦ failed
      | false ↦ elim (overflows max_dst out_idx c) [
        | true ↦ failed
        | false ↦
            prepend (emit c)
              (compress_loop fuel max_dst (out_idx + length (emit c)) (drop (chunk_len c) (b ∷ bs)))
      ]
    ]

unfoldable pub compress_page : List ℕ → ℕ → Result
unfolding compress_loop next_chunk count_run literal_len
compress_page src max_dst = compress_loop (suc (length src)) max_dst 0 src

-- The three kinds of chunk, read behind the tag: the bytes that it stands for, and what follows it.
abbrev pub decode_zeros : List ℕ → Option (List ℕ × List ℕ)
decode_zeros [] = none
decode_zeros (count ∷ src) = some (replicate count 0, src)

abbrev pub decode_run : List ℕ → Option (List ℕ × List ℕ)
decode_run [] = none
decode_run (count ∷ []) = none
decode_run (count ∷ val ∷ src) = some (replicate count val, src)

abbrev pub decode_literal : ℕ → List ℕ → Option (List ℕ × List ℕ)
decode_literal lit_len src =
    if lit_len == 0 || ltb (length src) lit_len
    then none
    else some (take lit_len src, drop lit_len src)

pub decode_chunk : ℕ → List ℕ → Option (List ℕ × List ℕ)
decode_chunk tag src =
    if tag == tag_zeros
    then decode_zeros src
    else if tag == tag_run
    then decode_run src
    else decode_literal (tag % 128) src

-- `room` is what `dst` still has free; a chunk is cut where `dst` is full, and a short stream is
-- filled up with zeros.
pub decompress_loop : ℕ → ℕ → List ℕ → Result
decompress_loop zero room src = out_of_fuel
decompress_loop (suc fuel) room [] = done (replicate room 0)
decompress_loop (suc fuel) room (tag ∷ src) = elim (room == 0) [
  | true ↦ done []
  | false ↦ elim (decode_chunk tag src) [
    | none ↦ failed
    | some (bytes, rest) ↦
        prepend (take room bytes) (decompress_loop fuel (room - length (take room bytes)) rest)
  ]
]

pub decompress_page : List ℕ → Result
unfolding decompress_loop decode_chunk
decompress_page src = decompress_loop (suc (length src)) page_size src
