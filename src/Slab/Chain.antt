-- ===== src/Slab/Chain.antt =====
-- A zone's free list as a linked list in memory, and what carving a frame makes of it.
use aura_os.Base.{
  ℕ, zero, suc, ◌+◌, ◌*◌, ◌^◌, ◌≤◌, ◌<◌, ◌≡◌, ◌≢◌, refl, sym, List, [], ◌∷◌, arith, subst, u64,
  ==_false, ==_iff,
}
use aura_os.Slab.{carve, put}

module _ {ℓ} {A : Type ℓ} where
  pub put_same : (f : ℕ → A) (a : ℕ) (v : A) → put f a v a ≡ v
  put_same f a v = rw ((==_iff a a).1 refl) refl

  pub put_other : (f : ℕ → A) (a p : ℕ) (v : A) → p ≢ a → put f a v p ≡ f p
  put_other f a p v h = rw (==_false p a h) refl

abbrev pub Without : ℕ → List ℕ → Type 0
Without a [] = Unit
Without a (x ∷ xs) = (x ≢ a) × Without a xs

-- The chunks of the list are linked from `p` on, and none is there twice.
abbrev pub Chain : (ℕ → ℕ) → ℕ → List ℕ → Type 0
Chain next p [] = p ≡ 0
Chain next p (x ∷ xs) = (p ≡ x) × (x ≢ 0) × Without x xs × Chain next (next x) xs

pub Chain-put :
    (next : ℕ → ℕ) (c v p : ℕ) (l : List ℕ)
    → Without c l
    → Chain next p l
    → Chain (put next c v) p l
Chain-put next c v p [] out k = k
Chain-put next c v p (x ∷ xs) out k = (
  k.0,
  k.1,
  k.2,
  subst (λ n. Chain (put next c v) n xs) (sym (put_other next c x v out.0))
      (Chain-put next c v (next x) xs out.1 k.3),
)

-- A chunk that is not in the list comes to its front.
pub Chain-push :
    (next : ℕ → ℕ) (c p : ℕ) (l : List ℕ)
    → c ≢ 0
    → Without c l
    → Chain next p l
    → Chain (put next c p) c (c ∷ l)
Chain-push next c p l away out k = (
  refl,
  away,
  out,
  subst (λ n. Chain (put next c p) n l) (sym (put_same next c p)) (Chain-put next c p p l out k),
)

-- The list after the loop of `zone_refill`.
unfoldable pub carved : ℕ → ℕ → ℕ → ℕ → List ℕ → List ℕ
carved zero i base size l = l
carved (suc left) i base size l = carved left (i + 1) base size ((base + i * size) ∷ l)

next_chunk_ne : (i m base size : ℕ) → 0 < size → i + 1 ≤ m → base + i * size ≢ base + m * size
next_chunk_ne i m base size pos h = λ e. grind arith

chunk_le : (i limit size : ℕ) → i < limit → i * size + size ≤ limit * size
chunk_le i limit size h = grind arith

-- `limit` chunks of `size` bytes from `base` on.
module _ (base size limit : ℕ) where
  -- No chunk of the list is one of these from number `i` on.
  abbrev pub Fresh : ℕ → List ℕ → Type 0
  Fresh i [] = Unit
  Fresh i (x ∷ xs) = ((m : ℕ) → i ≤ m → m < limit → x ≢ base + m * size) × Fresh i xs

  Fresh-Without :
      (i m : ℕ) (l : List ℕ) → i ≤ m → m < limit → Fresh i l → Without (base + m * size) l
  Fresh-Without i m [] h b k = tt
  Fresh-Without i m (x ∷ xs) h b k = (k.0 m h b, Fresh-Without i m xs h b k.1)

  Fresh-suc : (i : ℕ) (l : List ℕ) → Fresh i l → Fresh (i + 1) l
  Fresh-suc i [] k = tt
  Fresh-suc i (x ∷ xs) k = (λ m h b. k.0 m (omega arith) b, Fresh-suc i xs k.1)

module _ (base size limit : ℕ) (pos : 0 < size) (away : base ≢ 0)
    (bound : base + limit * size ≤ 2 ^ 64) where
  whole : (i : ℕ) → i < limit → u64 (base + i * size) ≡ base + i * size
  whole i h = omega (arith, chunk_le i limit size h)

  pub carve-Chain :
      (left i : ℕ) (next : ℕ → ℕ) (head : ℕ) (l : List ℕ)
      → i + left ≡ limit
      → Fresh base size limit i l
      → Chain next head l
      → (let (next', head') = carve left i base size next head in
          Chain next' head' (carved left i base size l))
  unfolding carve carved
  carve-Chain zero i next head l e fresh k = k
  carve-Chain (suc left) i next head l e fresh k =
      let c = base + i * size in
      let more : Fresh base size limit (i + 1) (c ∷ l) =
        (λ m h b. next_chunk_ne i m base size pos h, Fresh-suc base size limit i l fresh) in
      subst
        (λ a.
          let r = carve left (i + 1) base size (put next a head) a in
          Chain r.0 r.1 (carved left (i + 1) base size (c ∷ l)))
        (sym (whole i (omega arith)))
        (carve-Chain left (i + 1) (put next c head) c (c ∷ l) (omega arith) more (
          Chain-push next c head l (omega arith)
            (Fresh-Without base size limit i i l (omega arith) (omega arith) fresh) k))

  -- A list of other chunks is left alone.
  pub carve_other :
      (left i : ℕ) (next : ℕ → ℕ) (head p : ℕ) (l : List ℕ)
      → i + left ≡ limit
      → Fresh base size limit 0 l
      → Chain next p l
      → Chain (carve left i base size next head).0 p l
  unfolding carve
  carve_other zero i next head p l e fresh k = k
  carve_other (suc left) i next head p l e fresh k =
      let c = base + i * size in
      subst (λ a. Chain (carve left (i + 1) base size (put next a head) a).0 p l)
        (sym (whole i (omega arith)))
        (carve_other left (i + 1) (put next c head) c p l (omega arith) fresh (
          Chain-put next c head p l
            (Fresh-Without base size limit 0 i l (omega arith) (omega arith) fresh) k))

  -- What is in neither the list nor the frame is not in the list after it.
  pub carved-Without :
      (left i d : ℕ) (l : List ℕ)
      → i + left ≡ limit
      → ((m : ℕ) → m < limit → d ≢ base + m * size)
      → Without d l
      → Without d (carved left i base size l)
  unfolding carved
  carved-Without zero i d l e apart out = out
  carved-Without (suc left) i d l e apart out =
      carved-Without left (i + 1) d ((base + i * size) ∷ l) (omega arith) apart
        (λ q. apart i (omega arith) (sym q), out)
