-- ===== src/Zram/Codec/Fill.antt =====
-- `zram_decompress_page` ends and fills the page, on any input at all.
use native.Mathlib.Decide.{ℕ_discrete}
use aura_os.Base.{
  ℕ, zero, suc, ◌-◌, ◌≤◌, ◌<◌, ◌≡◌, refl, ◌≢◌, ◌⊎◌, inl, inr, Option, none, some, List, [], ◌∷◌,
  ◌%◌, ◌||◌, arith, ltb, ◌==◌, length, take, if_elim, length-take, length-drop, length-append,
  length-replicate, Option-cases, subst, sym,
}
use aura_os.Zram.Codec.{
  done, failed, prepend, page_size, decode_zeros, decode_run, tag_zeros, tag_run, decode_chunk,
  decompress_loop, decompress_page,
}
use aura_os.Zram.Codec.Bounds.{Returns, Returns-prepend, Returns-cases}

-- What is left behind a decoded chunk is at most as long as what stood behind its tag.
abbrev LeavesAtMost : ℕ → Option (List ℕ × List ℕ) → Type 0
LeavesAtMost n none = Unit
LeavesAtMost n (some (bytes, rest)) = length rest ≤ n

decode_chunk-LeavesAtMost :
    (tag : ℕ) (src : List ℕ) → LeavesAtMost (length src) (decode_chunk tag src)
unfolding decode_chunk
decode_chunk-LeavesAtMost tag src =
    if_elim P (tag == tag_zeros) (λ _. by_zeros src)
      λ _.
        if_elim P (tag == tag_run) (λ _. by_run src)
          λ _.
            if_elim P (tag % 128 == 0 || ltb (length src) (tag % 128)) (λ _. tt)
              λ _. omega (arith, length-drop (tag % 128) src)
  where
    P : Option (List ℕ × List ℕ) → Type 0
    P = LeavesAtMost (length src)

    by_zeros : (l : List ℕ) → LeavesAtMost (length l) (decode_zeros l)
    by_zeros [] = tt
    by_zeros (count ∷ l) = omega arith

    by_run : (l : List ℕ) → LeavesAtMost (length l) (decode_run l)
    by_run [] = tt
    by_run (count ∷ []) = tt
    by_run (count ∷ val ∷ l) = omega arith

module _ (fuel room tag : ℕ) (src : List ℕ) where
  pub decompress_loop_full : room ≡ 0 → decompress_loop (suc fuel) room (tag ∷ src) ≡ done []
  unfolding decompress_loop
  decompress_loop_full e = rw e refl

  pub decompress_loop_fails :
      room ≢ 0 → decode_chunk tag src ≡ none → decompress_loop (suc fuel) room (tag ∷ src) ≡ failed
  unfolding decompress_loop
  decompress_loop_fails ne e = ground arith

  pub decompress_loop_round :
      (bytes rest : List ℕ)
      → room ≢ 0
      → decode_chunk tag src ≡ some (bytes, rest)
      → decompress_loop (suc fuel) room (tag ∷ src)
        ≡ prepend (take room bytes) (decompress_loop fuel (room - length (take room bytes)) rest)
  unfolding decompress_loop
  decompress_loop_round bytes rest ne e = ground arith

pub decompress_loop_lem :
    (fuel room : ℕ) (src : List ℕ)
    → length src < fuel
    → Returns (λ out. length out ≡ room) (decompress_loop fuel room src)
decompress_loop_lem zero room src h = absurd (omega arith)
decompress_loop_lem (suc fuel) room [] h = unfold decompress_loop in length-replicate room 0
decompress_loop_lem (suc fuel) room (tag ∷ src) h = elim (ℕ_discrete room 0) [
  | yes e ↦ rw (decompress_loop_full fuel room tag src e) (sym e)
  | no ne ↦ elim (Option-cases (decode_chunk tag src)) [
    | inl e ↦ rw (decompress_loop_fails fuel room tag src ne e) tt
    | inr ((bytes, rest), e) ↦
        let cut = take room bytes in
        rw (decompress_loop_round fuel room tag src bytes rest ne e) (
          Returns-prepend (λ out. length out ≡ room - length cut) (λ out. length out ≡ room) cut _
            (λ ys p. omega (arith, length-append cut ys, length-take room bytes))
            (decompress_loop_lem fuel (room - length cut) rest (
              omega
                (arith, subst (LeavesAtMost (length src)) e (decode_chunk-LeavesAtMost tag src)))))
  ]
]

-- `zram_decompress_page` ends on every input: it returns -1, or it has written the whole page.
pub decompress_page_ends :
    (src : List ℕ)
    → ((out : List ℕ) × (decompress_page src ≡ done out) × (length out ≡ page_size))
      ⊎ (decompress_page src ≡ failed)
unfolding decompress_page
decompress_page_ends src =
    Returns-cases (λ out. length out ≡ page_size) _
      (decompress_loop_lem (suc (length src)) page_size src (omega arith))
