-- ===== src/Zram/Codec/RoundTrip.antt =====
-- What the compressor writes, the decompressor reads back, as long as no literal chunk has one or two
-- bytes: its tag would be that of a run (`Codec.ShortLiteral`).
use aura_os.Base.{
  ℕ, zero, suc, ◌+◌, ◌-◌, ◌≤◌, ◌<◌, ◌≡◌, refl, sym, ap, subst, ◌∙◌, ◌≢◌, inl, inr, List, [], ◌∷◌,
  ◌++◌, arith, leb, length, take, drop, replicate, some, length-append, length-replicate, ◌%◌, ◌⊎◌,
  u8, leb→le, Bool-cases,
}
use aura_os.Zram.Codec.{
  Result, done, failed, out_of_fuel, prepend, Chunk, zeros, run, literal, chunk_len, emit,
  literal_cap, compress_loop, compress_page, page_size, decode_chunk, decompress_loop,
  decompress_page,
}
use aura_os.Zram.Codec.Chunks.{Fits, chunk_bytes, next_chunk_split}
use aura_os.Zram.Codec.Bounds.{
  round_chunk, round_chunk-Fits, later_rounds, compress_loop_full, compress_loop_round,
}
use aura_os.Zram.Codec.Fill.{decompress_loop_round}

-- The chunk's tag is not mistaken for another.
abbrev pub IsReadable : Chunk → Type 0
IsReadable (zeros n) = Unit
IsReadable (run n val) = Unit
IsReadable (literal bs) = 3 ≤ length bs

-- So are all chunks that the loop writes.
unfoldable pub AllReadable : ℕ → ℕ → ℕ → List ℕ → Type 0
AllReadable zero m o rest = Unit
AllReadable (suc fuel) m o [] = Unit
AllReadable (suc fuel) m o (b ∷ bs) =
    let c = round_chunk fuel m o b bs in
    IsReadable c × AllReadable fuel m (o + length (emit c)) (drop (chunk_len c) (b ∷ bs))

-- No literal chunk of the page has fewer than three bytes.
abbrev pub HasNoShortLiteral : List ℕ → ℕ → Type 0
HasNoShortLiteral src max_dst = AllReadable (suc (length src)) max_dst 0 src

take-length-append : (xs ys : List ℕ) → take (length xs) (xs ++ ys) ≡ xs
take-length-append [] ys = refl
take-length-append (x ∷ xs) ys = ap (λ l. x ∷ l) (take-length-append xs ys)

drop-length-append : (xs ys : List ℕ) → drop (length xs) (xs ++ ys) ≡ ys
drop-length-append [] ys = refl
drop-length-append (x ∷ xs) ys = drop-length-append xs ys

take-le : (n : ℕ) (xs : List ℕ) → length xs ≤ n → take n xs ≡ xs
take-le zero [] h = refl
take-le zero (x ∷ xs) h = absurd (omega arith)
take-le (suc n) [] h = refl
take-le (suc n) (x ∷ xs) h = ap (λ l. x ∷ l) (take-le n xs (omega arith))

decode_chunk-literal :
    (b : ℕ) (bs tail : List ℕ)
    → 3 ≤ length (b ∷ bs)
    → length (b ∷ bs) ≤ 127
    → decode_chunk (length (b ∷ bs)) (b ∷ bs ++ tail) ≡ some (b ∷ bs, tail)
unfolding decode_chunk
decode_chunk-literal b bs tail h k = ground (
  arith,
  length-append bs tail,
  take-length-append (b ∷ bs) tail,
  drop-length-append (b ∷ bs) tail,
)

decode_chunk-run :
    (tag n val : ℕ) (src tail : List ℕ)
    → n ≤ 255
    → ((tag ≡ 1) × (val ≡ 0) × (src ≡ u8 n ∷ tail)) ⊎ ((tag ≡ 2) × (src ≡ u8 n ∷ val ∷ tail))
    → decode_chunk tag src ≡ some (replicate n val, tail)
unfolding decode_chunk
decode_chunk-run tag n val src tail h (inl (e, v, s)) =
    let u : u8 n ≡ n = omega arith in rw (e, s, u, v) refl
decode_chunk-run tag n val src tail h (inr (e, s)) =
    let u : u8 n ≡ n = omega arith in rw (e, s, u) refl

-- A round whose bytes fit the page writes all of them.
decompress_loop_whole :
    (fuel room tag : ℕ) (src bytes rest : List ℕ)
    → room ≢ 0
    → decode_chunk tag src ≡ some (bytes, rest)
    → length bytes ≤ room
    → decompress_loop (suc fuel) room (tag ∷ src)
      ≡ prepend bytes (decompress_loop fuel (room - length bytes) rest)
decompress_loop_whole fuel room tag src bytes rest ne e h =
    decompress_loop_round fuel room tag src bytes rest ne e
    ∙ ap (λ l. prepend l (decompress_loop fuel (room - length l) rest)) (take-le room bytes h)

-- The decoder's round on an emitted chunk gives back the chunk's bytes.
decompress-emit :
    (fuel room lit_cap : ℕ) (c : Chunk) (tail : List ℕ)
    → Fits lit_cap c
    → lit_cap ≤ 127
    → IsReadable c
    → length (chunk_bytes c) ≤ room
    → decompress_loop (suc fuel) room (emit c ++ tail)
      ≡ prepend (chunk_bytes c) (decompress_loop fuel (room - length (chunk_bytes c)) tail)
decompress-emit fuel room lit_cap (zeros n) tail f k r h =
    decompress_loop_whole fuel room 1 (u8 n ∷ tail) (replicate n 0) tail
      (omega (arith, length-replicate {A = ℕ} n 0))
      (decode_chunk-run 1 n 0 _ tail f.1 (inl (refl, refl, refl))) h
decompress-emit fuel room lit_cap (run n val) tail f k r h =
    decompress_loop_whole fuel room 2 (u8 n ∷ val ∷ tail) (replicate n val) tail
      (omega (arith, length-replicate {A = ℕ} n val))
      (decode_chunk-run 2 n val _ tail f.1 (inr (refl, refl))) h
decompress-emit fuel room lit_cap (literal []) tail f k r h = absurd (omega arith)
decompress-emit fuel room lit_cap (literal (b ∷ bs)) tail f k r h =
    let e : u8 (length (b ∷ bs) % 128) ≡ length (b ∷ bs) = omega arith in
    rw e (
      decompress_loop_whole fuel room (length (b ∷ bs)) (b ∷ bs ++ tail) (b ∷ bs) tail (omega arith)
        (decode_chunk-literal b bs tail r (omega arith)) h)

prepend-eq-done :
    (xs out : List ℕ) (r : Result)
    → prepend xs r ≡ done out
    → (tail : List ℕ) × (r ≡ done tail) × (out ≡ xs ++ tail)
prepend-eq-done xs out (done ys) e = (ys, refl, cc)
prepend-eq-done xs out failed e = absurd (cc)
prepend-eq-done xs out out_of_fuel e = absurd (cc)

-- A loop that succeeds has made a round and succeeded in the rounds behind it.
pub compress_loop-eq-done :
    (fuel m o b : ℕ) (bs out : List ℕ)
    → compress_loop (suc fuel) m o (b ∷ bs) ≡ done out
    → (o + 4 < m)
      × (tail : List ℕ) × (later_rounds fuel m o b bs ≡ done tail)
      × (out ≡ emit (round_chunk fuel m o b bs) ++ tail)
compress_loop-eq-done fuel m o b bs out e = elim (Bool-cases (leb m (o + 4))) [
  | inl t ↦ absurd (cc (compress_loop_full fuel m o b bs (leb→le m (o + 4) t)))
  | inr t ↦
      let h : o + 4 < m = ground arith in
      let (tail, p, q) = prepend-eq-done _ out _ (sym (compress_loop_round fuel m o b bs h) ∙ e) in
      (h, tail, p, q)
]

length-emit-pos : (lit_cap : ℕ) (c : Chunk) → Fits lit_cap c → 1 ≤ length (emit c)
length-emit-pos lit_cap (zeros n) f = omega arith
length-emit-pos lit_cap (run n val) f = omega arith
length-emit-pos lit_cap (literal []) f = f.0
length-emit-pos lit_cap (literal (b ∷ bs)) f = omega arith

decompress-compress_loop :
    (fuel m o : ℕ) (rest out : List ℕ) (fuel' : ℕ)
    → AllReadable fuel m o rest
    → compress_loop fuel m o rest ≡ done out
    → length out < fuel'
    → decompress_loop fuel' (length rest) out ≡ done rest
unfolding AllReadable
decompress-compress_loop zero m o rest out fuel' r e h = absurd (unfold compress_loop in cc)
decompress-compress_loop (suc fuel) m o rest out zero r e h = absurd (omega arith)
decompress-compress_loop (suc fuel) m o [] out (suc fuel') r e h =
    let empty : [] ≡ out = unfold compress_loop in cc e in
    subst (λ l. decompress_loop (suc fuel') 0 l ≡ done []) empty (unfold decompress_loop in refl)
decompress-compress_loop (suc fuel) m o (b ∷ bs) out (suc fuel') r e h =
    let (room, tail, later, whole) = compress_loop-eq-done fuel m o b bs out e in
    let c : Chunk = round_chunk fuel m o b bs in
    let rest : List ℕ = drop (chunk_len c) (b ∷ bs) in
    let fits = round_chunk-Fits fuel m o b bs room in
    let split = next_chunk_split (literal_cap m o) b bs in
    let lengths : length (chunk_bytes c) + length rest ≡ length (b ∷ bs) =
      sym (length-append (chunk_bytes c) rest) ∙ ap length split in
    let ih : decompress_loop fuel' (length rest) tail ≡ done rest =
      decompress-compress_loop fuel m (o + length (emit c)) rest tail fuel' r.1 later
        (omega (arith, ap length whole, length-append (emit c) tail, length-emit-pos _ c fits)) in
    rw whole (
      decompress-emit fuel' (length (b ∷ bs)) (literal_cap m o) c tail fits (omega arith) r.0
        (omega arith)
      ∙ ap (λ k. prepend (chunk_bytes c) (decompress_loop fuel' k tail)) (omega arith)
      ∙ ap (prepend (chunk_bytes c)) ih
      ∙ ap done split)

-- A page that compresses, and none of whose literal chunks has one or two bytes, decompresses to
-- itself.
pub decompress-compress :
    (page out : List ℕ) (max_dst : ℕ)
    → length page ≡ page_size
    → HasNoShortLiteral page max_dst
    → compress_page page max_dst ≡ done out
    → decompress_page out ≡ done page
unfolding compress_page decompress_page
decompress-compress page out max_dst size readable e = rw (← size) (
    decompress-compress_loop (suc (length page)) max_dst 0 page out (suc (length out)) readable e
      (omega arith))
