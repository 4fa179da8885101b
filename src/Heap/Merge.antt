-- ===== src/Heap/Merge.antt =====
-- A block that takes over the one behind it keeps the layout.
use native.Mathlib.Decide.{dec_lt, ℕ_discrete}
use aura_os.Base.{
  ℕ, ◌+◌, ◌*◌, ◌^◌, ◌≤◌, ◌<◌, ◌≡◌, ◌≢◌, ◌⊎◌, refl, sym, ap, ◌∙◌, Bool, true, false, ◌&&◌, not,
  arith, ◌==◌, if◌then◌else◌, ==_refl, ==_false,
}
use aura_os.Heap.Layout.{Layout, block_end, at_point}

module _ (size next prev : ℕ → ℕ) (busy blocks : ℕ → Bool) (lay : Layout size next prev busy blocks)
    (b n : ℕ) (mine : blocks b ≡ true) (behind : next b ≡ n) (some_block : n ≢ 0) where
  abbrev pub merge_size : ℕ → ℕ
  merge_size p = if p == b then size b + 48 + size n else size p

  abbrev pub merge_next : ℕ → ℕ
  merge_next p = if p == b then next n else next p

  abbrev pub merge_prev : ℕ → ℕ
  merge_prev p = if (p == next n) && not (next n == 0) then b else prev p

  abbrev pub left_blocks : ℕ → Bool
  left_blocks = at_point blocks n false

  link : (blocks n ≡ true) × (n ≡ block_end size b) × (prev n ≡ b)
  link =
      let l = lay.followed b mine (λ z. some_block (sym behind ∙ z)) in
      (ap blocks (sym behind) ∙ l.0, sym behind ∙ l.1, ap prev (sym behind) ∙ l.2)

  left_cases : (p : ℕ) → left_blocks p ≡ true → (p ≢ n) × (blocks p ≡ true)
  left_cases p h = elim (ℕ_discrete p n) [
    | yes e ↦ let no_more : false ≡ true = sym (rw (e, ==_refl n) refl) ∙ h in cc
    | no ne ↦ (ne, sym (rw (==_false p n ne) refl) ∙ h)
  ]

  left_kept : (p : ℕ) → p ≢ n → blocks p ≡ true → left_blocks p ≡ true
  left_kept p ne h = rw (==_false p n ne) h

  merged_end : block_end merge_size b ≡ block_end size n
  merged_end = rw (==_refl b) (omega (arith, link.1))

  same_end : (p : ℕ) → p ≢ b → block_end merge_size p ≡ block_end size p
  same_end p h = rw (==_false p b h) refl

  merged_apart :
      (c : ℕ)
      → c ≢ b
      → c ≢ n
      → blocks c ≡ true
      → (block_end merge_size b ≤ c) ⊎ (block_end merge_size c ≤ b)
  merged_apart c nb nn old =
      let d = lay.apart b c mine old (λ e. nb (sym e)) in
      let d' = lay.apart n c link.0 old (λ e. nn (sym e)) in
      omega (arith, merged_end, same_end c nb, link.1)

  merge-apart :
      (a c : ℕ)
      → left_blocks a ≡ true
      → left_blocks c ≡ true
      → a ≢ c
      → (block_end merge_size a ≤ c) ⊎ (block_end merge_size c ≤ a)
  merge-apart a c ha hc ne =
      let (na, olda) = left_cases a ha in
      let (nc, oldc) = left_cases c hc in
      elim (ℕ_discrete a b) [
        | yes e ↦ rw e (merged_apart c (λ q. ne (e ∙ sym q)) nc oldc)
        | no ab ↦ elim (ℕ_discrete c b) [
          | yes e ↦ rw e (let d = merged_apart a ab na olda in omega arith)
          | no cb ↦
              let d = lay.apart a c olda oldc ne in omega (arith, same_end a ab, same_end c cb)
        ]
      ]

  merge-framed :
      (p f : ℕ)
      → left_blocks p ≡ true
      → f * 4096 < block_end merge_size p
      → p < f * 4096 + 4096
      → busy f ≡ true
  merge-framed p f h lo hi = elim (ℕ_discrete p b) [
    | yes e ↦ elim (dec_lt (f * 4096) n) [
      | yes before ↦ lay.framed b f mine (omega (arith, link.1)) (omega arith)
      | no after ↦
          let same = ap (block_end merge_size) e in
          lay.framed n f link.0 (omega (arith, merged_end)) (omega arith)
    ]
    | no ne ↦ lay.framed p f (left_cases p h).1 (omega (arith, same_end p ne)) hi
  ]

  merge-followed :
      (p : ℕ)
      → left_blocks p ≡ true
      → merge_next p ≢ 0
      → (left_blocks (merge_next p) ≡ true)
        × (merge_next p ≡ block_end merge_size p)
        × (merge_prev (merge_next p) ≡ p)
  merge-followed p h away = elim (ℕ_discrete p b) [
    | yes e ↦
        let to : merge_next p ≡ next n = ground arith in
        let (one, two, three) = lay.followed n link.0 (λ z. away (to ∙ z)) in
        let nn : next n ≢ n = λ q. omega arith in
        let nz : next n ≢ 0 = λ z. away (to ∙ z) in
        (
          ap left_blocks to ∙ left_kept (next n) nn one,
          to ∙ two ∙ sym merged_end ∙ ap (block_end merge_size) (sym e),
          ap merge_prev to ∙ ground arith,
        )
    | no ne ↦
        let (np, old) = left_cases p h in
        let to : merge_next p ≡ next p = ground arith in
        let (one, two, three) = lay.followed p old (λ z. away (to ∙ z)) in
        let nn : next p ≢ n = λ q. ne (sym three ∙ ap prev q ∙ link.2) in
        let other : next p ≢ next n =
          λ q. np (sym three ∙ ap prev q ∙ (lay.followed n link.0 (λ z. away (to ∙ q ∙ z))).2) in
        (
          ap left_blocks to ∙ left_kept (next p) nn one,
          to ∙ two ∙ sym (same_end p ne),
          ap merge_prev to ∙ rw (==_false (next p) (next n) other) three,
        )
  ]

  merge-preceded :
      (p : ℕ)
      → left_blocks p ≡ true
      → merge_prev p ≢ 0
      → (left_blocks (merge_prev p) ≡ true) × (merge_next (merge_prev p) ≡ p)
  merge-preceded p h away =
      let (np, old) = left_cases p h in
      elim (ℕ_discrete p (next n)) [
        | yes e ↦
            let nz : next n ≢ 0 = λ z. (lay.bound p old).0 (e ∙ z) in
            let to : merge_prev p ≡ b = ground arith in
            (
              ap left_blocks to ∙ left_kept b (λ q. omega (arith, link.1)) mine,
              ap merge_next to ∙ rw (==_refl b) (sym e),
            )
        | no ne ↦
            let to : merge_prev p ≡ prev p = ground arith in
            let (one, two) = lay.preceded p old (λ z. away (to ∙ z)) in
            let pn : prev p ≢ n = λ q. ne (sym two ∙ ap next q) in
            let pb : prev p ≢ b = λ q. np (sym two ∙ ap next q ∙ behind) in
            (
              ap left_blocks to ∙ left_kept (prev p) pn one,
              ap merge_next to ∙ rw (==_false (prev p) b pb) two,
            )
      ]

  merge-bound : (p : ℕ) → left_blocks p ≡ true → (p ≢ 0) × (block_end merge_size p ≤ 2 ^ 64)
  merge-bound p h =
      let (away, fits) = lay.bound p (left_cases p h).1 in
      elim (ℕ_discrete p b) [
        | yes e ↦
            let (away', fits') = lay.bound n link.0 in
            let same = ap (block_end merge_size) e in (away, omega (arith, merged_end))
        | no ne ↦ (away, omega (arith, same_end p ne))
      ]

  pub merge-Layout : Layout merge_size merge_next merge_prev busy left_blocks
  merge-Layout = record {
    bound = merge-bound;
    above = λ p h. lay.above p (left_cases p h).1;
    apart = merge-apart;
    framed = merge-framed;
    followed = merge-followed;
    preceded = merge-preceded;
  }
