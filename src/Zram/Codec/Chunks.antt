-- ===== src/Zram/Codec/Chunks.antt =====
-- One round of the compressor: the chunk stands for the bytes that it consumes, and fits its fields.
use aura_os.Base.{
  ℕ, zero, suc, ◌≤◌, ◌≡◌, refl, ap, inl, inr, true, false, List, [], ◌∷◌, ◌++◌, arith, leb, ◌==◌,
  length, take, drop, replicate, Bool-cases, length-take, if_elim, ◌&&◌,
}
use aura_os.Zram.Codec.{
  Chunk, zeros, run, literal, count_run, four_zeros, literal_len, next_chunk, chunk_len,
}

-- The bytes that a chunk stands for.
abbrev pub chunk_bytes : Chunk → List ℕ
chunk_bytes (zeros n) = replicate n 0
chunk_bytes (run n val) = replicate n val
chunk_bytes (literal bs) = bs

-- What a round that makes progress can emit.
abbrev pub Fits : ℕ → Chunk → Type 0
Fits lit_cap (zeros n) = (4 ≤ n) × (n ≤ 255)
Fits lit_cap (run n val) = (6 ≤ n) × (n ≤ 255)
Fits lit_cap (literal bs) = (1 ≤ length bs) × (length bs ≤ lit_cap)

count_run-le : (left val : ℕ) (rest : List ℕ) → count_run left val rest ≤ left
unfolding count_run
count_run-le zero val rest = omega arith
count_run-le (suc left) val [] = omega arith
count_run-le (suc left) val (b ∷ bs) = ground (arith, count_run-le left val bs)

count_run_split :
    (left val : ℕ) (rest : List ℕ)
    → replicate (count_run left val rest) val ++ drop (count_run left val rest) rest ≡ rest
unfolding count_run
count_run_split zero val rest = refl
count_run_split (suc left) val [] = refl
count_run_split (suc left) val (b ∷ bs) = ground (arith, count_run_split left val bs)

literal_len-le : (left : ℕ) (rest : List ℕ) → literal_len left rest ≤ left
unfolding literal_len
literal_len-le zero rest = omega arith
literal_len-le (suc left) [] = omega arith
literal_len-le (suc left) (b ∷ bs) = ground (arith, literal_len-le left bs)

literal_len-le-length : (left : ℕ) (rest : List ℕ) → literal_len left rest ≤ length rest
unfolding literal_len
literal_len-le-length zero rest = omega arith
literal_len-le-length (suc left) [] = omega arith
literal_len-le-length (suc left) (b ∷ bs) = ground (arith, literal_len-le-length left bs)

four_zeros-count_run :
    (b : ℕ) (bs : List ℕ) → four_zeros (b ∷ bs) ≡ true → (b ≡ 0) × (4 ≤ count_run 255 0 (b ∷ bs))
unfolding count_run
four_zeros-count_run b [] h = absurd (ground arith)
four_zeros-count_run b (c ∷ []) h = absurd (ground arith)
four_zeros-count_run b (c ∷ d ∷ []) h = absurd (ground arith)
four_zeros-count_run b (c ∷ d ∷ e ∷ []) h = absurd (ground arith)
four_zeros-count_run b (c ∷ d ∷ e ∷ g ∷ bs) h = ground arith

literal_len_pos :
    (left b : ℕ) (bs : List ℕ)
    → 1 ≤ left
    → four_zeros (b ∷ bs) ≡ false
    → 1 ≤ literal_len left (b ∷ bs)
unfolding literal_len
literal_len_pos zero b bs h e = absurd (omega arith)
literal_len_pos (suc left) b bs h e = ground arith

take_split : (n : ℕ) (xs : List ℕ) → take n xs ++ drop (length (take n xs)) xs ≡ xs
take_split zero xs = refl
take_split (suc n) [] = refl
take_split (suc n) (x ∷ xs) = ap (λ ys. x ∷ ys) (take_split n xs)

no_four_zeros :
    (b : ℕ) (bs : List ℕ)
    → (b == 0 && leb 4 (count_run 255 0 (b ∷ bs))) ≡ false
    → four_zeros (b ∷ bs) ≡ false
no_four_zeros b bs f = elim (Bool-cases (four_zeros (b ∷ bs))) [
  | inl e ↦
      absurd (ground (arith, (four_zeros-count_run b bs e).0, (four_zeros-count_run b bs e).1))
  | inr e ↦ e
]

-- A fact about a round is a fact about each of its three outcomes.
next_chunk_elim {κ} :
    (P : Chunk → Type κ) (lit_cap b : ℕ) (bs : List ℕ)
    → (b ≡ 0 → 4 ≤ count_run 255 0 (b ∷ bs) → P (zeros (count_run 255 0 (b ∷ bs))))
    → (6 ≤ count_run 255 b (b ∷ bs) → P (run (count_run 255 b (b ∷ bs)) b))
    → (four_zeros (b ∷ bs) ≡ false → P (literal (take (literal_len lit_cap (b ∷ bs)) (b ∷ bs))))
    → P (next_chunk lit_cap (b ∷ bs))
unfolding next_chunk
next_chunk_elim P lit_cap b bs hz hr hl =
    if_elim P (b == 0 && leb 4 (count_run 255 0 (b ∷ bs))) (λ t. hz (ground arith) (ground arith))
      λ f.
        if_elim P (leb 6 (count_run 255 b (b ∷ bs))) (λ t. hr (ground arith))
          λ g. hl (no_four_zeros b bs f)

-- The chunk of a round and what it leaves make up the input.
pub next_chunk_split :
    (lit_cap b : ℕ) (bs : List ℕ)
    → chunk_bytes (next_chunk lit_cap (b ∷ bs))
        ++ drop (chunk_len (next_chunk lit_cap (b ∷ bs))) (b ∷ bs)
      ≡ b ∷ bs
next_chunk_split lit_cap b bs =
    next_chunk_elim (λ c. chunk_bytes c ++ drop (chunk_len c) (b ∷ bs) ≡ b ∷ bs) lit_cap b bs
      (λ _ _. count_run_split 255 0 (b ∷ bs)) (λ _. count_run_split 255 b (b ∷ bs))
      (λ _. take_split (literal_len lit_cap (b ∷ bs)) (b ∷ bs))

-- A round on a non-empty input consumes at least one byte, and each count fits its field.
pub next_chunk-Fits :
    (lit_cap b : ℕ) (bs : List ℕ) → 1 ≤ lit_cap → Fits lit_cap (next_chunk lit_cap (b ∷ bs))
next_chunk-Fits lit_cap b bs h =
    next_chunk_elim (Fits lit_cap) lit_cap b bs (λ _ n. (n, count_run-le 255 0 (b ∷ bs)))
      (λ n. (n, count_run-le 255 b (b ∷ bs)))
      λ e. omega (
        arith,
        length-take (literal_len lit_cap (b ∷ bs)) (b ∷ bs),
        literal_len_pos lit_cap b bs h e,
        literal_len-le lit_cap (b ∷ bs),
        literal_len-le-length lit_cap (b ∷ bs),
      )
