-- ===== src/Heap/Extend.antt =====
-- A new block in frames that were free keeps the layout.
use native.Mathlib.Decide.{dec_lt, ℕ_discrete}
use aura_os.Base.{
  ℕ, ◌+◌, ◌-◌, ◌*◌, ◌/◌, ◌^◌, ◌≤◌, ◌<◌, ◌≡◌, ◌≢◌, ◌⊎◌, inl, inr, refl, sym, ap, ◌∙◌, Bool, true,
  false, arith, ==_refl, ==_false,
}
use aura_os.Heap.Layout.{Layout, block_end, at_point}

module _ (size next prev : ℕ → ℕ) (busy busy' blocks : ℕ → Bool)
    (lay : Layout size next prev busy blocks) (start pages : ℕ) (some_frame : start ≢ 0)
    (some_pages : 0 < pages) (addressable : (start + pages) * 4096 ≤ 2 ^ 64)
    (were_free : (f : ℕ) → start ≤ f → f < start + pages → busy f ≡ false)
    (now_used : (f : ℕ) → start ≤ f → f < start + pages → busy' f ≡ true)
    (still_used : (f : ℕ) → busy f ≡ true → busy' f ≡ true) where
  abbrev pub new_at : ℕ
  new_at = start * 4096

  abbrev pub new_size : ℕ → ℕ
  new_size = at_point size new_at (pages * 4096 - 48)

  abbrev pub new_blocks : ℕ → Bool
  new_blocks = at_point blocks new_at true

  not_both : (f : ℕ) → start ≤ f → f < start + pages → busy f ≢ true
  not_both f lo hi h = let free = were_free f lo hi in cc

  new_end : block_end new_size new_at ≡ (start + pages) * 4096
  new_end = rw (==_refl new_at) (omega arith)

  same_end : (p : ℕ) → p ≢ new_at → block_end new_size p ≡ block_end size p
  same_end p h = rw (==_false p new_at h) refl

  new_cases : (p : ℕ) → new_blocks p ≡ true → (p ≡ new_at) ⊎ ((p ≢ new_at) × (blocks p ≡ true))
  new_cases p h = elim (ℕ_discrete p new_at) [
    | yes e ↦ inl e
    | no ne ↦ inr (ne, sym (rw (==_false p new_at ne) refl) ∙ h)
  ]

  pub old_ne : (c : ℕ) → blocks c ≡ true → c ≢ new_at
  old_ne c h e =
      not_both start (omega arith) (omega arith) (lay.framed c start h (omega arith) (omega arith))

  old_kept : (c : ℕ) → blocks c ≡ true → new_blocks c ≡ true
  old_kept c h = rw (==_false c new_at (old_ne c h)) h

  old_apart : (b : ℕ) → blocks b ≡ true → ((start + pages) * 4096 ≤ b) ⊎ (block_end size b ≤ new_at)
  old_apart b h = elim (dec_lt b ((start + pages) * 4096)) [
    | no after ↦ inl (omega arith)
    | yes before ↦ elim (dec_lt new_at (block_end size b)) [
      | no above ↦ inr (omega arith)
      | yes overlap ↦ elim (dec_lt b new_at) [
        | yes below ↦ absurd (
            not_both start (omega arith) (omega arith) (lay.framed b start h overlap (omega arith)))
        | no inside ↦ absurd (
            not_both (b / 4096) (omega arith) (omega arith)
              (lay.framed b (b / 4096) h (omega arith) (omega arith)))
      ]
    ]
  ]

  extend-apart :
      (a b : ℕ)
      → new_blocks a ≡ true
      → new_blocks b ≡ true
      → a ≢ b
      → (block_end new_size a ≤ b) ⊎ (block_end new_size b ≤ a)
  extend-apart a b ha hb ne = elim (new_cases a ha) [
    | inl ea ↦ elim (new_cases b hb) [
      | inl eb ↦ absurd (ne (ea ∙ sym eb))
      | inr (nb, old) ↦
          let d = old_apart b old in
          let same = ap (block_end new_size) ea in omega (arith, new_end, same_end b nb)
    ]
    | inr (na, olda) ↦ elim (new_cases b hb) [
      | inl eb ↦
          let d = old_apart a olda in
          let same = ap (block_end new_size) eb in omega (arith, new_end, same_end a na)
      | inr (nb, oldb) ↦
          let d = lay.apart a b olda oldb ne in omega (arith, same_end a na, same_end b nb)
    ]
  ]

  extend-framed :
      (b f : ℕ)
      → new_blocks b ≡ true
      → f * 4096 < block_end new_size b
      → b < f * 4096 + 4096
      → busy' f ≡ true
  extend-framed b f h lo hi = elim (new_cases b h) [
    | inl e ↦
        let same = ap (block_end new_size) e in
        now_used f (omega (arith, new_end)) (omega (arith, new_end))
    | inr (ne, old) ↦ still_used f (lay.framed b f old (omega (arith, same_end b ne)) hi)
  ]

  extend-bound : (b : ℕ) → new_blocks b ≡ true → (b ≢ 0) × (block_end new_size b ≤ 2 ^ 64)
  extend-bound b h = elim (new_cases b h) [
    | inl e ↦ let same = ap (block_end new_size) e in (λ z. omega arith, omega (arith, new_end))
    | inr (ne, old) ↦ let (away, fits) = lay.bound b old in (away, omega (arith, same_end b ne))
  ]

  extend-followed :
      (b : ℕ)
      → new_blocks b ≡ true
      → at_point next new_at 0 b ≢ 0
      → (new_blocks (at_point next new_at 0 b) ≡ true)
        × (at_point next new_at 0 b ≡ block_end new_size b)
        × (at_point prev new_at 0 (at_point next new_at 0 b) ≡ b)
  extend-followed b h away = elim (new_cases b h) [
    | inl e ↦ absurd (away (ground arith))
    | inr (ne, old) ↦
        let to : at_point next new_at 0 b ≡ next b = ground arith in
        let (one, two, three) = lay.followed b old (λ z. away (to ∙ z)) in
        (
          ap new_blocks to ∙ old_kept (next b) one,
          to ∙ two ∙ sym (same_end b ne),
          ap (at_point prev new_at 0) to
              ∙ rw (==_false (next b) new_at (old_ne (next b) one)) three,
        )
  ]

  extend-preceded :
      (b : ℕ)
      → new_blocks b ≡ true
      → at_point prev new_at 0 b ≢ 0
      → (new_blocks (at_point prev new_at 0 b) ≡ true)
        × (at_point next new_at 0 (at_point prev new_at 0 b) ≡ b)
  extend-preceded b h away = elim (new_cases b h) [
    | inl e ↦ absurd (away (ground arith))
    | inr (ne, old) ↦
        let to : at_point prev new_at 0 b ≡ prev b = ground arith in
        let (one, two) = lay.preceded b old (λ z. away (to ∙ z)) in
        (
          ap new_blocks to ∙ old_kept (prev b) one,
          ap (at_point next new_at 0) to ∙ rw (==_false (prev b) new_at (old_ne (prev b) one)) two,
        )
  ]

  pub extend-Layout :
      Layout new_size (at_point next new_at 0) (at_point prev new_at 0) busy' new_blocks
  extend-Layout = record {
    bound = extend-bound;
    above = λ b h. elim (new_cases b h) [ inl e ↦ omega arith | inr (ne, old) ↦ lay.above b old ];
    apart = extend-apart;
    framed = extend-framed;
    followed = extend-followed;
    preceded = extend-preceded;
  }
