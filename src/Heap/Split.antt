-- ===== src/Heap/Split.antt =====
-- A block that is cut in two keeps the layout.
use native.Mathlib.Decide.{ℕ_discrete}
use aura_os.Base.{
  ℕ, ◌+◌, ◌-◌, ◌*◌, ◌≤◌, ◌<◌, ◌≡◌, ◌≢◌, ◌⊎◌, inl, inr, refl, sym, ap, ◌∙◌, Bool, true, ◌&&◌, not,
  arith, ◌==◌, if◌then◌else◌, ==_refl, ==_false, subst,
}
use aura_os.Heap.Layout.{Layout, block_end, at_point}

-- The block `cur` is cut to `n` bytes.
module _ (size next prev : ℕ → ℕ) (busy blocks : ℕ → Bool) (lay : Layout size next prev busy blocks)
    (cur n : ℕ) (mine : blocks cur ≡ true) (room : n + 48 ≤ size cur) where
  abbrev pub split : ℕ
  split = cur + 48 + n

  abbrev pub split_size : ℕ → ℕ
  split_size p = if p == cur then n else if p == split then size cur - n - 48 else size p

  abbrev pub split_next : ℕ → ℕ
  split_next p = if p == cur then split else if p == split then next cur else next p

  abbrev pub split_prev : ℕ → ℕ
  split_prev p =
      if (p == next cur) && not (next cur == 0) then split else if p == split then cur else prev p

  pub split_new : blocks split ≡ true → ⊥
  split_new h = let d = lay.apart cur split mine h (λ e. omega arith) in absurd (omega arith)

  split_cases :
      (p : ℕ)
      → at_point blocks split true p ≡ true
      → (p ≡ split) ⊎ ((p ≢ split) × (blocks p ≡ true))
  split_cases p h = elim (ℕ_discrete p split) [
    | yes e ↦ inl e
    | no ne ↦ inr (ne, sym (rw (==_false p split ne) refl) ∙ h)
  ]

  split_end : block_end split_size split ≡ block_end size cur
  split_end = ground arith

  cur_end : block_end split_size cur ≡ split
  cur_end = ground arith

  old_end : (p : ℕ) → p ≢ cur → p ≢ split → block_end split_size p ≡ block_end size p
  old_end p h k = ground arith

  old_end-le : (p : ℕ) → p ≢ split → block_end split_size p ≤ block_end size p
  old_end-le p k = elim (ℕ_discrete p cur) [
    | yes e ↦ rw e (omega (arith, cur_end))
    | no h ↦ omega (arith, old_end p h k)
  ]

  -- The new block and another one.
  split_apart :
      (b : ℕ)
      → b ≢ split
      → blocks b ≡ true
      → (block_end split_size split ≤ b) ⊎ (block_end split_size b ≤ split)
  split_apart b ne old = elim (ℕ_discrete b cur) [
    | yes e ↦ inr (rw e (omega (arith, cur_end)))
    | no h ↦
        let d = lay.apart cur b mine old (λ e. h (sym e)) in
        omega (arith, split_end, old_end b h ne)
  ]

  split-apart :
      (a b : ℕ)
      → at_point blocks split true a ≡ true
      → at_point blocks split true b ≡ true
      → a ≢ b
      → (block_end split_size a ≤ b) ⊎ (block_end split_size b ≤ a)
  split-apart a b ha hb ne = elim (split_cases a ha) [
    | inl ea ↦ elim (split_cases b hb) [
      | inl eb ↦ absurd (ne (ea ∙ sym eb))
      | inr (nb, old) ↦ rw ea (split_apart b nb old)
    ]
    | inr (na, olda) ↦ elim (split_cases b hb) [
      | inl eb ↦ rw eb (let d = split_apart a na olda in omega arith)
      | inr (nb, oldb) ↦
          let d = lay.apart a b olda oldb ne in omega (arith, old_end-le a na, old_end-le b nb)
    ]
  ]

  split-framed :
      (b f : ℕ)
      → at_point blocks split true b ≡ true
      → f * 4096 < block_end split_size b
      → b < f * 4096 + 4096
      → busy f ≡ true
  split-framed b f hb lo hi = elim (split_cases b hb) [
    | inl e ↦
        lay.framed cur f mine (let same = ap (block_end split_size) e in omega (arith, split_end))
          (omega arith)
    | inr (ne, old) ↦ lay.framed b f old (omega (arith, old_end-le b ne)) hi
  ]

  old_ne : (c : ℕ) → blocks c ≡ true → c ≢ split
  old_ne c h e = split_new (subst (λ q. blocks q ≡ true) e h)

  old_kept : (c : ℕ) → blocks c ≡ true → at_point blocks split true c ≡ true
  old_kept c h = rw (==_false c split (old_ne c h)) h

  next_ne : next cur ≢ split
  next_ne e =
      split_new (subst (λ q. blocks q ≡ true) e (lay.followed cur mine (λ z. omega arith)).0)

  split-followed :
      (b : ℕ)
      → at_point blocks split true b ≡ true
      → split_next b ≢ 0
      → (at_point blocks split true (split_next b) ≡ true)
        × (split_next b ≡ block_end split_size b)
        × (split_prev (split_next b) ≡ b)
  split-followed b hb away = elim (ℕ_discrete b cur) [
    | yes e ↦
        let to : split_next b ≡ split = ground arith in
        (
          ap (at_point blocks split true) to ∙ rw (==_refl split) refl,
          to ∙ sym cur_end ∙ ap (block_end split_size) (sym e),
          ap split_prev to ∙ ground (arith, next_ne),
        )
    | no h ↦ elim (split_cases b hb) [
      | inl e ↦
          let to : split_next b ≡ next cur = ground arith in
          let (one, two, three) = lay.followed cur mine (λ z. away (to ∙ z)) in
          (
            ap (at_point blocks split true) to ∙ old_kept (next cur) one,
            to ∙ two ∙ sym split_end ∙ ap (block_end split_size) (sym e),
            ap split_prev to ∙ ground arith,
          )
      | inr (ne, old) ↦
          let to : split_next b ≡ next b = ground arith in
          let (one, two, three) = lay.followed b old (λ z. away (to ∙ z)) in
          let other : next b ≢ next cur =
            λ e. h (sym three ∙ ap prev e ∙ (lay.followed cur mine (λ z. away (to ∙ e ∙ z))).2) in
          let ns : next b ≢ split = old_ne (next b) one in
          (
            ap (at_point blocks split true) to ∙ old_kept (next b) one,
            to ∙ two ∙ sym (old_end b h ne),
            ap split_prev to
                ∙ rw (==_false (next b) (next cur) other, ==_false (next b) split ns) three,
          )
    ]
  ]

  split-preceded :
      (b : ℕ)
      → at_point blocks split true b ≡ true
      → split_prev b ≢ 0
      → (at_point blocks split true (split_prev b) ≡ true) × (split_next (split_prev b) ≡ b)
  split-preceded b hb away = elim (split_cases b hb) [
    | inl e ↦
        let to : split_prev b ≡ cur = ground (arith, next_ne) in
        (
          ap (at_point blocks split true) to ∙ old_kept cur mine,
          ap split_next to ∙ rw (==_refl cur) (sym e),
        )
    | inr (ne, old) ↦ elim (ℕ_discrete b (next cur)) [
      | yes e ↦ elim (ℕ_discrete (next cur) 0) [
        | yes z ↦ absurd ((lay.bound b old).0 (e ∙ z))
        | no nz ↦
            let to : split_prev b ≡ split = ground arith in
            (
              ap (at_point blocks split true) to ∙ rw (==_refl split) refl,
              ap split_next to ∙ ground arith,
            )
      ]
      | no h ↦
          let to : split_prev b ≡ prev b = ground arith in
          let (one, two) = lay.preceded b old (λ z. away (to ∙ z)) in
          let ns = old_ne (prev b) one in
          let nc : prev b ≢ cur = λ e. h (sym two ∙ ap next e) in
          (
            ap (at_point blocks split true) to ∙ old_kept (prev b) one,
            ap split_next to ∙ rw (==_false (prev b) cur nc, ==_false (prev b) split ns) two,
          )
    ]
  ]

  pub split-Layout : Layout split_size split_next split_prev busy (at_point blocks split true)
  split-Layout = record {
    bound = λ b hb. elim (split_cases b hb) [
      | inl e ↦ let (away, fits) = lay.bound cur mine in ground arith
      | inr (ne, old) ↦ let (away, fits) = lay.bound b old in ground arith
    ];
    above = λ b hb. elim (split_cases b hb) [
      | inl e ↦ omega (arith, lay.above cur mine)
      | inr (ne, old) ↦ lay.above b old
    ];
    apart = split-apart;
    framed = split-framed;
    followed = split-followed;
    preceded = split-preceded;
  }
