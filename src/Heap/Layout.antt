-- ===== src/Heap/Layout.antt =====
-- Where blocks are: the headers and payloads of any two are apart, and the links to the neighbours
-- lead to blocks that are next to each other. What the heap does to blocks, apart from their store.
use aura_os.Base.{
  ℕ, ◌+◌, ◌*◌, ◌^◌, ◌≤◌, ◌<◌, ◌≡◌, ◌≢◌, ◌⊎◌, sym, ap, ◌∙◌, Bool, true, arith, ◌==◌, if◌then◌else◌,
}

-- The end of a block of `size` bytes at `b`.
abbrev pub block_end : (ℕ → ℕ) → ℕ → ℕ
block_end size b = b + 48 + size b

-- `blocks` are those of the heap; `busy` are the frames in use.
pub record Layout (size next prev : ℕ → ℕ) (busy blocks : ℕ → Bool) : Type 0 where
  pub bound : (b : ℕ) → blocks b ≡ true → (b ≢ 0) × (block_end size b ≤ 2 ^ 64)
  pub above : (b : ℕ) → blocks b ≡ true → 4096 ≤ b
  pub apart :
      (a b : ℕ)
      → blocks a ≡ true
      → blocks b ≡ true
      → a ≢ b
      → (block_end size a ≤ b) ⊎ (block_end size b ≤ a)
  pub framed :
      (b f : ℕ)
      → blocks b ≡ true
      → f * 4096 < block_end size b
      → b < f * 4096 + 4096
      → busy f ≡ true
  pub followed :
      (b : ℕ)
      → blocks b ≡ true
      → next b ≢ 0
      → (blocks (next b) ≡ true) × (next b ≡ block_end size b) × (prev (next b) ≡ b)
  pub preceded :
      (b : ℕ) → blocks b ≡ true → prev b ≢ 0 → (blocks (prev b) ≡ true) × (next (prev b) ≡ b)

-- A function with another value at a point.
abbrev pub at_point {ℓ} : {A : Type ℓ} → (ℕ → A) → ℕ → A → ℕ → A
at_point f a v p = if p == a then v else f p

abbrev pub SameAt : (ℕ → ℕ) → (ℕ → ℕ) → Type 0
SameAt f g = (p : ℕ) → f p ≡ g p

pub Layout-SameAt :
    (s n p s' n' p' : ℕ → ℕ) (busy blocks : ℕ → Bool)
    → SameAt s s'
    → SameAt n n'
    → SameAt p p'
    → Layout s n p busy blocks
    → Layout s' n' p' busy blocks
Layout-SameAt s n p s' n' p' busy blocks hs hn hp lay = record {
  bound = λ b hb. let (away, fits) = lay.bound b hb in (away, omega (arith, hs b));
  above = lay.above;
  apart = λ a b ha hb ne. let d = lay.apart a b ha hb ne in omega (arith, hs a, hs b);
  framed = λ b f hb lo hi. lay.framed b f hb (omega (arith, hs b)) hi;
  followed = λ b hb away.
      let (one, two, three) = lay.followed b hb (λ e. away (sym (hn b) ∙ e)) in
      (
        ap blocks (sym (hn b)) ∙ one,
        omega (arith, hs b, hn b),
        sym (hp (n' b)) ∙ ap p (sym (hn b)) ∙ three,
      );
  preceded = λ b hb away.
      let (one, two) = lay.preceded b hb (λ e. away (sym (hp b) ∙ e)) in
      (ap blocks (sym (hp b)) ∙ one, sym (hn (p' b)) ∙ ap n (sym (hp b)) ∙ two);
}
