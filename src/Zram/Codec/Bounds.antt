-- ===== src/Zram/Codec/Bounds.antt =====
-- `zram_compress_page` ends and stays inside its buffer: how much fuel the loop needs, one equation
-- for a round, and how long the output is.
use aura_os.Base.{
  ℕ, zero, suc, ◌+◌, ◌≤◌, ◌<◌, ◌≡◌, refl, ◌⊎◌, inl, inr, false, List, [], ◌∷◌, ◌++◌, arith, leb,
  length, drop, length-drop, length-append, leb→le, Bool-cases, le→leb, lt→leb,
}
use aura_os.Zram.Codec.{
  Result, done, failed, out_of_fuel, prepend, Chunk, zeros, run, literal, next_chunk, chunk_len,
  emit, overflows, literal_cap, compress_loop, compress_page,
}
use aura_os.Zram.Codec.Chunks.{Fits, next_chunk-Fits}

-- The loop has ended, and what it wrote, if it did not fail, satisfies `P`.
abbrev pub Returns : (List ℕ → Type 0) → Result → Type 0
Returns P (done out) = P out
Returns P failed = Unit
Returns P out_of_fuel = ⊥

pub Returns-prepend :
    (P Q : List ℕ → Type 0) (xs : List ℕ) (r : Result)
    → ((ys : List ℕ) → P ys → Q (xs ++ ys))
    → Returns P r
    → Returns Q (prepend xs r)
Returns-prepend P Q xs (done ys) h p = h ys p
Returns-prepend P Q xs failed h p = tt
Returns-prepend P Q xs out_of_fuel h p = p

pub Returns-cases :
    (P : List ℕ → Type 0) (r : Result)
    → Returns P r
    → ((out : List ℕ) × (r ≡ done out) × P out) ⊎ (r ≡ failed)
Returns-cases P (done out) p = inl (out, refl, p)
Returns-cases P failed p = inr refl
Returns-cases P out_of_fuel p = absurd p

chunk_len_pos : (lit_cap : ℕ) (c : Chunk) → Fits lit_cap c → 1 ≤ chunk_len c
chunk_len_pos lit_cap (zeros n) h = omega arith
chunk_len_pos lit_cap (run n val) h = omega arith
chunk_len_pos lit_cap (literal bs) h = omega arith

-- With the room that the first test leaves, the second test never fails: it is dead code.
overflows-false :
    (m o : ℕ) (c : Chunk) → o + 4 < m → Fits (literal_cap m o) c → overflows m o c ≡ false
overflows-false m o (zeros n) h f = refl
overflows-false m o (run n val) h f = refl
overflows-false m o (literal []) h f = refl
overflows-false m o (literal (b ∷ bs)) h f = ground arith

module _ (fuel m o b : ℕ) (bs : List ℕ) where
  -- The chunk of the round, and the rounds that follow.
  abbrev pub round_chunk : Chunk
  round_chunk = next_chunk (literal_cap m o) (b ∷ bs)

  abbrev pub later_rounds : Result
  later_rounds =
      compress_loop fuel m (o + length (emit round_chunk)) (drop (chunk_len round_chunk) (b ∷ bs))

  pub round_chunk-Fits : o + 4 < m → Fits (literal_cap m o) round_chunk
  round_chunk-Fits h = next_chunk-Fits (literal_cap m o) b bs (omega arith)

  pub compress_loop_full : m ≤ o + 4 → compress_loop (suc fuel) m o (b ∷ bs) ≡ failed
  unfolding compress_loop
  compress_loop_full h = rw (le→leb m (o + 4) h, compress_loop) refl

  pub compress_loop_round :
      o + 4 < m → compress_loop (suc fuel) m o (b ∷ bs) ≡ prepend (emit round_chunk) later_rounds
  unfolding compress_loop
  compress_loop_round h =
      rw (lt→leb m (o + 4) h, compress_loop)
        (rw (overflows-false m o round_chunk h (round_chunk-Fits h), compress_loop) refl)

  -- What holds of a stop for lack of room, and of a round, holds of the loop.
  pub compress_loop_elim {κ} :
      (P : Result → Type κ)
      → (m ≤ o + 4 → P failed)
      → (o + 4 < m
          → Fits (literal_cap m o) round_chunk
          → P (prepend (emit round_chunk) later_rounds))
      → P (compress_loop (suc fuel) m o (b ∷ bs))
  compress_loop_elim P full round = elim (Bool-cases (leb m (o + 4))) [
    | inl t ↦ let h : m ≤ o + 4 = leb→le m (o + 4) t in rw (compress_loop_full h) (full h)
    | inr t ↦
        let h : o + 4 < m = ground arith in
        rw (compress_loop_round h) (round h (round_chunk-Fits h))
  ]

length-emit-le :
    (m o : ℕ) (c : Chunk) → o + 4 < m → Fits (literal_cap m o) c → o + length (emit c) ≤ m
length-emit-le m o (zeros n) h f = omega arith
length-emit-le m o (run n val) h f = omega arith
length-emit-le m o (literal []) h f = omega arith
length-emit-le m o (literal (b ∷ bs)) h f = omega arith

-- Every round shortens the input, so the loop needs one round more than there are bytes.
pub compress_loop_lem :
    (fuel m o : ℕ) (rest : List ℕ)
    → length rest < fuel
    → o ≤ m
    → Returns (λ out. o + length out ≤ m) (compress_loop fuel m o rest)
compress_loop_lem zero m o rest h w = absurd (omega arith)
compress_loop_lem (suc fuel) m o [] h w = unfold compress_loop in omega arith
compress_loop_lem (suc fuel) m o (b ∷ bs) h w =
    compress_loop_elim fuel m o b bs (Returns (λ out. o + length out ≤ m)) (λ _. tt)
      λ room fits.
        let c = round_chunk fuel m o b bs in
        Returns-prepend (λ ys. o + length (emit c) + length ys ≤ m) (λ out. o + length out ≤ m)
          (emit c) _ (λ ys p. omega (arith, length-append (emit c) ys))
          (compress_loop_lem fuel m (o + length (emit c)) (drop (chunk_len c) (b ∷ bs))
            (omega
              (arith, chunk_len_pos (literal_cap m o) c fits, length-drop (chunk_len c) (b ∷ bs)))
            (length-emit-le m o c room fits))

-- `zram_compress_page` ends on every input: it returns -1, or it has written at most `max_dst` bytes.
pub compress_page_ends :
    (src : List ℕ) (max_dst : ℕ)
    → ((out : List ℕ) × (compress_page src max_dst ≡ done out) × (length out ≤ max_dst))
      ⊎ (compress_page src max_dst ≡ failed)
unfolding compress_page
compress_page_ends src max_dst = elim loop_cases [
  | inl (out, e, p) ↦ inl (out, e, omega arith)
  | inr e ↦ inr e
]
  where
    loop_cases :
        ((out : List ℕ) × (compress_loop (suc (length src)) max_dst 0 src ≡ done out)
          × (0 + length out ≤ max_dst))
        ⊎ (compress_loop (suc (length src)) max_dst 0 src ≡ failed)
    loop_cases =
        Returns-cases (λ out. 0 + length out ≤ max_dst) _
          (compress_loop_lem (suc (length src)) max_dst 0 src (omega arith) (omega arith))
