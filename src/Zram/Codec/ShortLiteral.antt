-- ===== src/Zram/Codec/ShortLiteral.antt =====
-- A literal chunk of one byte has the tag 0x01 of a run of zeros, so the decompressor reads it wrong.
use aura_os.Base.{
  ℕ, zero, suc, ◌≤◌, ◌≡◌, refl, sym, ◌∙◌, ◌≢◌, List, [], ◌∷◌, arith, length, replicate,
}
use aura_os.Zram.Codec.{
  Result, done, failed, out_of_fuel, prepend, literal, literal_len, count_run, next_chunk,
  literal_cap, compress_page, page_size, decode_chunk, decompress_loop, decompress_page,
}
use aura_os.Zram.Codec.Fill.{decompress_loop_round}
use aura_os.Zram.Codec.RoundTrip.{compress_loop-eq-done}

-- One byte before five or more bytes, of which four are zero.
abbrev pub lone_byte : ℕ → ℕ → List ℕ → List ℕ
lone_byte x z more = x ∷ 0 ∷ 0 ∷ 0 ∷ 0 ∷ z ∷ more

module _ (x z : ℕ) (more : List ℕ) (nonzero : x ≢ 0) where
  literal_len-lone : (left : ℕ) → 1 ≤ left → literal_len left (lone_byte x z more) ≡ 1
  unfolding literal_len
  literal_len-lone zero h = absurd (omega arith)
  literal_len-lone (suc zero) h = ground arith
  literal_len-lone (suc (suc left)) h = ground arith

  count_run-lone : (left : ℕ) → count_run (suc (suc left)) x (lone_byte x z more) ≡ 1
  unfolding count_run
  count_run-lone zero = ground arith
  count_run-lone (suc left) = ground arith

  next_chunk-lone :
      (lit_cap : ℕ) → 1 ≤ lit_cap → next_chunk lit_cap (lone_byte x z more) ≡ literal (x ∷ [])
  unfolding next_chunk
  next_chunk-lone lit_cap h = ground (arith, literal_len-lone lit_cap h, count_run-lone 253)

-- The tag 1 makes the byte a count of zeros.
decompress_lone :
    (fuel room x : ℕ) (tail page : List ℕ)
    → x ≢ 0
    → room ≢ 0
    → decompress_loop (suc fuel) room (1 ∷ x ∷ tail) ≢ done (x ∷ page)
decompress_lone fuel room zero tail page h k e = h refl
decompress_lone fuel zero (suc x) tail page h k e = k refl
decompress_lone fuel (suc room) (suc x) tail page h k e = first_is_zero _ _ (
    sym (
      decompress_loop_round fuel (suc room) 1 (suc x ∷ tail) (replicate (suc x) 0) tail k
        (unfold decode_chunk in refl))
    ∙ e)
  where
    first_is_zero : (zs : List ℕ) (r : Result) → prepend (0 ∷ zs) r ≢ done (suc x ∷ page)
    first_is_zero zs (done ys) q = h (ground arith)
    first_is_zero zs failed q = cc
    first_is_zero zs out_of_fuel q = cc

-- No page that starts with a nonzero byte, four zeros and one byte more comes back: if it compresses,
-- what it compresses to does not decompress to it.
pub decompress-compress_lone :
    (x z : ℕ) (more out : List ℕ) (max_dst : ℕ)
    → x ≢ 0
    → compress_page (lone_byte x z more) max_dst ≡ done out
    → decompress_page out ≢ done (lone_byte x z more)
unfolding compress_page decompress_page
decompress-compress_lone x z more out max_dst nonzero e back =
    let page : List ℕ = 0 ∷ 0 ∷ 0 ∷ 0 ∷ z ∷ more in
    let (room, tail, later, whole) =
      compress_loop-eq-done (suc (length page)) max_dst 0 x page out e in
    let starts : out ≡ 1 ∷ x ∷ tail =
      whole ∙ (rw (next_chunk-lone x z more nonzero (literal_cap max_dst 0) (omega arith)) refl) in
    decompress_lone (suc (suc (length tail))) page_size x tail page nonzero (omega arith)
      (rw starts at back)
