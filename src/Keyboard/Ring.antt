-- ===== src/Keyboard/Ring.antt =====
-- The ring as the characters that wait in it, oldest first, and what each operation does to them.
use native.Mathlib.Decide.{ℕ_discrete}
use aura_os.Base.{
  ℕ, ◌⊎◌, inl, inr, ==_refl, ==_false, zero, suc, ◌+◌, ◌-◌, ◌%◌, ◌<◌, ◌≡◌, refl, ap, ap₂, ◌∙◌, ◌≢◌,
  List, [], ◌∷◌, ◌++◌, arith, ◌==◌, if◌then◌else◌, length, length-set, true, false, get_or, set,
  get_or-set_self, get_or-set_ne,
}
use aura_os.Keyboard.{Keyboard, buf_size, init, enqueue, getchar, has_key}

pub record IsValid (k : Keyboard) : Type 0 where
  pub size : length k.buf ≡ buf_size
  pub head_in : k.head < buf_size
  pub tail_in : k.tail < buf_size

-- The `n` characters from index `i` on, round the ring.
pub waiting_from : List ℕ → ℕ → ℕ → List ℕ
waiting_from buf i zero = []
waiting_from buf i (suc n) = get_or buf i 0 ∷ waiting_from buf ((i + 1) % buf_size) n

abbrev pub count : Keyboard → ℕ
count k = (k.head + buf_size - k.tail) % buf_size

unfoldable pub waiting : Keyboard → List ℕ
unfolding waiting_from
waiting k = waiting_from k.buf k.tail (count k)

length-waiting_from : (buf : List ℕ) (i n : ℕ) → length (waiting_from buf i n) ≡ n
unfolding waiting_from
length-waiting_from buf i zero = refl
length-waiting_from buf i (suc n) = ap suc (length-waiting_from buf ((i + 1) % buf_size) n)

pub length-waiting : (k : Keyboard) → length (waiting k) ≡ count k
unfolding waiting
length-waiting k = length-waiting_from k.buf k.tail (count k)

-- A write behind the last character adds it.
waiting_from-set :
    (buf : List ℕ) (c n i j : ℕ)
    → length buf ≡ buf_size
    → i < buf_size
    → n + 1 < buf_size
    → j ≡ (i + n) % buf_size
    → waiting_from (set buf j c) i (suc n) ≡ waiting_from buf i n ++ (c ∷ [])
unfolding waiting_from
waiting_from-set buf c zero i j size hi hn e =
    let same : j ≡ i = omega arith in rw (same, get_or-set_self buf i c 0 (omega arith)) refl
waiting_from-set buf c (suc n) i j size hi hn e =
    ap₂ ◌∷◌ (get_or-set_ne buf j i c 0 (omega arith)) (
      waiting_from-set buf c n ((i + 1) % buf_size) j size (omega arith) (omega arith)
        (omega arith))

-- The first waiting character is read.
waiting_from-pos :
    (buf : List ℕ) (i n : ℕ)
    → n ≢ 0
    → waiting_from buf i n ≡ get_or buf i 0 ∷ waiting_from buf ((i + 1) % buf_size) (n - 1)
unfolding waiting_from
waiting_from-pos buf i zero h = absurd (h refl)
waiting_from-pos buf i (suc n) h =
    ap (λ m. get_or buf i 0 ∷ waiting_from buf ((i + 1) % buf_size) m) (omega arith)

pub init-IsValid : (k : Keyboard) → length k.buf ≡ buf_size → IsValid (init k)
unfolding init
init-IsValid k size = record { size = size; head_in = omega arith; tail_in = omega arith }

module _ (k : Keyboard) (v : IsValid k) where
  pub enqueue-IsValid : (c : ℕ) → IsValid (enqueue k c)
  unfolding enqueue
  enqueue-IsValid c = ground (arith, length-set k.buf k.head c)

  waiting-put :
      (c : ℕ)
      → (k.head + 1) % buf_size ≢ k.tail
      → waiting (record k { buf = set k.buf k.head c; head = (k.head + 1) % buf_size })
        ≡ waiting k ++ (c ∷ [])
  unfolding waiting
  waiting-put c room =
      ap (waiting_from (set k.buf k.head c) k.tail) {y = suc (count k)} (omega arith)
      ∙ waiting_from-set k.buf c (count k) k.tail k.head v.size v.tail_in (omega arith)
          (omega arith)

  pub waiting-enqueue :
      (c : ℕ)
      → waiting (enqueue k c) ≡ (
          if c == 0
          then waiting k
          else if length (waiting k) == 31
          then waiting k
          else waiting k ++ (c ∷ []))
  unfolding enqueue
  waiting-enqueue c = elim (ℕ_discrete c 0) [
    | yes z ↦ rw (z, enqueue) refl
    | no char ↦ elim (ℕ_discrete ((k.head + 1) % buf_size) k.tail) [
      | yes full ↦
          let all : count k ≡ 31 = omega arith in
          rw (==_false c 0 char, length-waiting k, all, full, ==_refl k.tail, enqueue) refl
      | no room ↦
          let some_room : count k ≢ 31 = omega arith in
          rw
            (
              ==_false c 0 char,
              length-waiting k,
              ==_false (count k) 31 some_room,
              ==_false ((k.head + 1) % buf_size) k.tail room,
            )
            (waiting-put c room)
    ]
  ]

  pub getchar-IsValid : IsValid (getchar k).1
  unfolding getchar
  getchar-IsValid = ground arith

  pub getchar-waiting :
      ((waiting k ≡ []) × (getchar k ≡ (0, k)))
      ⊎ (waiting k ≡ (getchar k).0 ∷ waiting (getchar k).1)
  unfolding waiting getchar
  getchar-waiting = elim (ℕ_discrete k.tail k.head) [
    | yes same ↦
        inl (ap (waiting_from k.buf k.tail) {y = 0} (omega arith), rw (same, ==_refl k.head) refl)
    | no differ ↦ inr (
        waiting_from-pos k.buf k.tail (count k) (omega arith)
        ∙ rw (==_false k.tail k.head differ) (
            ap (λ n. get_or k.buf k.tail 0 ∷ waiting_from k.buf ((k.tail + 1) % buf_size) n)
              (omega arith)))
  ]

  pub has_key_none : waiting k ≡ [] → has_key k ≡ false
  unfolding has_key
  has_key_none e =
      let same : k.tail ≡ k.head = omega (arith, ap length e, length-waiting k) in
      rw (same, ==_refl k.head) refl

  pub has_key_some : waiting k ≢ [] → has_key k ≡ true
  unfolding has_key waiting
  has_key_some h = elim (ℕ_discrete k.tail k.head) [
    | yes same ↦ absurd (h (ap (waiting_from k.buf k.tail) {y = 0} (omega arith)))
    | no differ ↦ rw (==_false k.tail k.head differ) refl
  ]
