-- ===== src/Pmm/Scan.antt =====
-- The scans of `pmm_alloc_frame` find a free frame below the limit, and miss none.
use native.Mathlib.Decide.{ℕ_discrete, dec_lt}
use aura_os.Base.{
  ℕ, zero, suc, ◌+◌, ◌-◌, ◌*◌, ◌/◌, ◌≤◌, ◌<◌, ◌≡◌, refl, ◌∙◌, sym, inl, inr, Bool, true, false,
  Option, none, some, List, [], ◌∷◌, arith, ltb, length, get_or, drop, get_or-take, get_or-drop,
  ◌≢◌, subst, Bool-cases, Option-cases, length-take, ltb→lt,
}
use aura_os.Pmm.{
  Pmm, is_used, first_free, word, scan_words, scan_bits, or_else, scan_from_hint, scan_from_start,
  scan_trailing, find_free,
}

first_free-some :
    (bs : List Bool) (i : ℕ) → first_free bs ≡ some i → (i < length bs) × (get_or bs i true ≡ false)
unfolding first_free
first_free-some [] i e = absurd (cc)
first_free-some (false ∷ bs) i e = ground arith
first_free-some (true ∷ bs) i e = elim (Option-cases (first_free bs)) [
  | inl n ↦ absurd (ground arith)
  | inr (j, p) ↦ ground (arith, first_free-some bs j p)
]

first_free-none : (bs : List Bool) (i : ℕ) → first_free bs ≡ none → get_or bs i true ≡ true
unfolding first_free
first_free-none [] i e = refl
first_free-none (false ∷ bs) i e = absurd (cc)
first_free-none (true ∷ bs) zero e = refl
first_free-none (true ∷ bs) (suc i) e = elim (Option-cases (first_free bs)) [
  | inl n ↦ first_free-none bs i n
  | inr (j, p) ↦ absurd (ground arith)
]

-- The bits before the first free one are used.
first_free-before :
    (bs : List Bool) (i j : ℕ) → first_free bs ≡ some i → j < i → get_or bs j true ≡ true
unfolding first_free
first_free-before [] i j e h = absurd (cc)
first_free-before (false ∷ bs) i j e h = absurd (ground arith)
first_free-before (true ∷ bs) i zero e h = refl
first_free-before (true ∷ bs) i (suc j) e h = elim (Option-cases (first_free bs)) [
  | inl n ↦ absurd (ground arith)
  | inr (k, p) ↦ first_free-before bs k j p (ground arith)
]

get_or-word :
    (bitmap : List Bool) (w k : ℕ)
    → k < 64
    → get_or (word bitmap w) k true ≡ is_used bitmap (w * 64 + k)
get_or-word bitmap w k h = get_or-take _ 64 k true h ∙ get_or-drop bitmap (w * 64) k true

-- A word's free bit is a free frame.
first_free-word :
    (bitmap : List Bool) (w k : ℕ)
    → first_free (word bitmap w) ≡ some k
    → (k < 64) × (is_used bitmap (w * 64 + k) ≡ false)
first_free-word bitmap w k e =
    let (inside, free) = first_free-some (word bitmap w) k e in
    let h : k < 64 = omega (arith, length-take 64 (drop (w * 64) bitmap)) in
    (h, sym (get_or-word bitmap w k h) ∙ free)

module _ (bitmap : List Bool) (total : ℕ) where
  abbrev Found : Option ℕ → Type 0
  Found none = Unit
  Found (some frame) = (frame < total) × (is_used bitmap frame ≡ false)

  pub scan_words-Found : (left w : ℕ) → Found (scan_words bitmap total left w)
  unfolding scan_words
  scan_words-Found zero w = tt
  scan_words-Found (suc left) w = elim (Option-cases (first_free (word bitmap w))) [
    | inl n ↦ rw (n, scan_words) (scan_words-Found left (w + 1))
    | inr (k, p) ↦ elim (Bool-cases (ltb (w * 64 + k) total)) [
      | inl t ↦
          rw (p, scan_words) (rw (t, scan_words) (ltb→lt _ _ t, (first_free-word bitmap w k p).1))
      | inr t ↦ rw (p, scan_words) (rw (t, scan_words) (scan_words-Found left (w + 1)))
    ]
  ]

  -- The frames of a word that the scan passes over are used.
  word_used :
      (w i : ℕ)
      → first_free (word bitmap w) ≡ none
      → w * 64 ≤ i
      → i < w * 64 + 64
      → is_used bitmap i ≡ true
  word_used w i e lo hi =
      let k : i ≡ w * 64 + (i - w * 64) = omega arith in
      rw k (
        sym (get_or-word bitmap w (i - w * 64) (omega arith))
        ∙ first_free-none (word bitmap w) (i - w * 64) e)

  -- No frame of the words scanned is free.
  word_used_before :
      (w i k : ℕ)
      → first_free (word bitmap w) ≡ some k
      → w * 64 ≤ i
      → i < w * 64 + k
      → is_used bitmap i ≡ true
  word_used_before w i k e lo hi =
      let in_word : i - w * 64 < 64 = omega (arith, (first_free-word bitmap w k e).0) in
      let split : i ≡ w * 64 + (i - w * 64) = omega arith in
      rw split (
        sym (get_or-word bitmap w (i - w * 64) in_word)
        ∙ first_free-before (word bitmap w) k (i - w * 64) e (omega arith))

  none_is_some : {frame : ℕ} → some frame ≢ none
  none_is_some e = cc

  pub scan_words-none :
      (left w i : ℕ)
      → scan_words bitmap total left w ≡ none
      → w * 64 ≤ i
      → i < (w + left) * 64
      → i < total
      → is_used bitmap i ≡ true
  unfolding scan_words
  scan_words-none zero w i e lo hi t = absurd (omega arith)
  scan_words-none (suc left) w i e lo hi t = elim (Option-cases (first_free (word bitmap w))) [
    | inl n ↦ elim (dec_lt i (w * 64 + 64)) [
      | yes near ↦ word_used w i n lo near
      | no far ↦
          scan_words-none left (w + 1) i (rw (n, scan_words) at e) (omega arith) (omega arith) t
    ]
    | inr (k, p) ↦ elim (Bool-cases (ltb (w * 64 + k) total)) [
      | inl b ↦ absurd (none_is_some (rw (b, scan_words) at (rw (p, scan_words) at e)))
      | inr b ↦ word_used_before w i k p lo (ground arith)
    ]
  ]

  pub scan_bits-Found : (left i : ℕ) → i + left ≡ total → Found (scan_bits bitmap left i)
  unfolding scan_bits
  scan_bits-Found zero i h = tt
  scan_bits-Found (suc left) i h = elim (Bool-cases (is_used bitmap i)) [
    | inl t ↦ rw (t, scan_bits) (scan_bits-Found left (i + 1) (omega arith))
    | inr f ↦ rw (f, scan_bits) (omega arith, f)
  ]

  pub scan_bits-none :
      (left i j : ℕ)
      → scan_bits bitmap left i ≡ none
      → i ≤ j
      → j < i + left
      → is_used bitmap j ≡ true
  unfolding scan_bits
  scan_bits-none zero i j e lo hi = absurd (omega arith)
  scan_bits-none (suc left) i j e lo hi = elim (Bool-cases (is_used bitmap i)) [
    | inl t ↦ elim (ℕ_discrete i j) [
      | yes same ↦ rw (← same) t
      | no other ↦
          scan_bits-none left (i + 1) j (rw (t, scan_bits) at e) (omega arith) (omega arith)
    ]
    | inr f ↦ absurd (cc (rw (f, scan_bits) at e))
  ]

  or_else-Found : (a b : Option ℕ) → Found a → Found b → Found (or_else a b)
  or_else-Found (some frame) b ha hb = ha
  or_else-Found none b ha hb = hb

or_else-none : (a b : Option ℕ) → or_else a b ≡ none → (a ≡ none) × (b ≡ none)
or_else-none (some frame) b e = absurd (cc)
or_else-none none b e = (refl, e)

find_free-Found : (s : Pmm) → Found s.bitmap s.total_frames (find_free s)
unfolding find_free
find_free-Found s =
    or_else-Found bitmap total_frames (scan_from_hint s)
      (or_else (scan_from_start s) (scan_trailing s))
      (scan_words-Found bitmap total_frames (total_frames / 64 - alloc_hint / 64) (alloc_hint / 64))
      (or_else-Found bitmap total_frames (scan_from_start s) (scan_trailing s)
        (scan_words-Found bitmap total_frames (alloc_hint / 64) 0)
        (scan_bits-Found bitmap total_frames (total_frames - total_frames / 64 * 64)
          (total_frames / 64 * 64) (omega arith)))
  where
    open s use {bitmap, total_frames, alloc_hint}

-- What `find_free` finds is a free frame below the limit.
pub find_free-some :
    (s : Pmm) {frame : ℕ}
    → find_free s ≡ some frame
    → (frame < s.total_frames) × (is_used s.bitmap frame ≡ false)
find_free-some s e = subst (Found s.bitmap s.total_frames) e (find_free-Found s)

-- If it finds none, every frame below the limit is used.
pub find_free-none :
    (s : Pmm) (i : ℕ) → find_free s ≡ none → i < s.total_frames → is_used s.bitmap i ≡ true
unfolding find_free
find_free-none s i e h =
    let words = s.total_frames / 64 in
    let start = s.alloc_hint / 64 in
    let (high, later) =
      or_else-none (scan_from_hint s) (or_else (scan_from_start s) (scan_trailing s)) e in
    let (low, tail) = or_else-none (scan_from_start s) (scan_trailing s) later in
    elim (dec_lt i (words * 64)) [
      | no past ↦
          scan_bits-none s.bitmap s.total_frames (s.total_frames - words * 64) (words * 64) i tail
            (omega arith) (omega arith)
      | yes inside ↦ elim (dec_lt i (start * 64)) [
        | yes before ↦
            scan_words-none s.bitmap s.total_frames start 0 i low (omega arith) (omega arith) h
        | no behind ↦
            scan_words-none s.bitmap s.total_frames (words - start) start i high (omega arith)
              (omega arith) h
      ]
    ]
