-- ===== src/Allocator/Calls.antt =====
-- The calls of a client of an allocator, and the account of what it has allocated: the size and the
-- address of each allocation, the latest first.
use aura_os.Base.{
  ℕ, zero, suc, ◌≤◌, ◌≡◌, ◌≢◌, inl, inr, refl, sym, none, some, Option, List, [], ◌∷◌, arith, subst,
  ◌==◌, ==_false, if◌then◌else◌, Option-cases,
}
use aura_os.Allocator.{Apart}

-- `release k` frees the allocation number `k`, if there is one.
pub data Call : Type 0 where
  allocate : ℕ → Call
  release : ℕ → Call

abbrev pub note : ℕ → ℕ → List (ℕ × ℕ) → List (ℕ × ℕ)
note size p live = if p == 0 then live else (size, p) ∷ live

pub note_some : (size p : ℕ) (live : List (ℕ × ℕ)) → p ≢ 0 → (size, p) ∷ live ≡ note size p live
note_some size p live h = rw (==_false p 0 h) refl

abbrev pub NotAmong : ℕ → List (ℕ × ℕ) → Type 0
NotAmong c [] = Unit
NotAmong c ((size, d) ∷ live) = (d ≢ c) × NotAmong c live

unfoldable pub pick : ℕ → List (ℕ × ℕ) → Option ((ℕ × ℕ) × List (ℕ × ℕ))
pick k [] = none
pick zero (x ∷ xs) = some (x, xs)
pick (suc k) (x ∷ xs) = elim (pick k xs) [ none ↦ none | some (y, ys) ↦ some (y, x ∷ ys) ]

-- Each allocation has the property, and no two have one address.
abbrev pub AllOf : (ℕ → ℕ → Type 0) → List (ℕ × ℕ) → Type 0
AllOf has [] = Unit
AllOf has ((size, c) ∷ live) = has size c × NotAmong c live × AllOf has live

NotAmong-pick :
    (c k : ℕ) (live : List (ℕ × ℕ)) (x : ℕ × ℕ) (rest : List (ℕ × ℕ))
    → pick k live ≡ some (x, rest)
    → NotAmong c live
    → (x.1 ≢ c) × NotAmong c rest
unfolding pick
NotAmong-pick c k [] x rest e apart = cc
NotAmong-pick c zero (y ∷ ys) x rest e apart =
    let one : y ≡ x = cc in
    let two : ys ≡ rest = cc in
    (subst (λ (z : ℕ × ℕ). z.1 ≢ c) one apart.0, subst (NotAmong c) two apart.1)
NotAmong-pick c (suc k) (y ∷ ys) x rest e apart = elim (Option-cases (pick k ys)) [
  | inl q ↦
      let no_pick : ◌≡◌ {A = Option ((ℕ × ℕ) × List (ℕ × ℕ))} none (some (x, rest)) =
        rw (q, pick) at e in
      cc
  | inr ((z, zs), q) ↦
      let found : ◌≡◌ {A = Option ((ℕ × ℕ) × List (ℕ × ℕ))} (some (z, y ∷ zs)) (some (x, rest)) =
        rw (q, pick) at e in
      let (head, tail) = NotAmong-pick c k ys z zs q apart.1 in
      let one : z ≡ x = cc in
      let two : y ∷ zs ≡ rest = cc in
      (subst (λ (w : ℕ × ℕ). w.1 ≢ c) one head, subst (NotAmong c) two (apart.0, tail))
]

-- The allocation that is picked may as well be the latest.
pub AllOf-pick :
    (has : ℕ → ℕ → Type 0) (k : ℕ) (live : List (ℕ × ℕ)) (x : ℕ × ℕ) (rest : List (ℕ × ℕ))
    → pick k live ≡ some (x, rest)
    → AllOf has live
    → AllOf has (x ∷ rest)
unfolding pick
AllOf-pick has k [] x rest e all = cc
AllOf-pick has zero (y ∷ ys) x rest e all =
    let same : y ∷ ys ≡ x ∷ rest = cc in subst (AllOf has) same all
AllOf-pick has (suc k) (y ∷ ys) x rest e all = elim (Option-cases (pick k ys)) [
  | inl q ↦
      let no_pick : ◌≡◌ {A = Option ((ℕ × ℕ) × List (ℕ × ℕ))} none (some (x, rest)) =
        rw (q, pick) at e in
      cc
  | inr ((z, zs), q) ↦
      let found : ◌≡◌ {A = Option ((ℕ × ℕ) × List (ℕ × ℕ))} (some (z, y ∷ zs)) (some (x, rest)) =
        rw (q, pick) at e in
      let (l, apart, others) = AllOf-pick has k ys z zs q all.2 in
      let (head, tail) = NotAmong-pick y.1 k ys z zs q all.1 in
      let same : z ∷ (y ∷ zs) ≡ x ∷ rest = cc in
      subst (AllOf has) same (l, (λ w. head (sym w), apart), (all.0, tail, others))
]

pub Apart-le : (c n d m n' m' : ℕ) → n' ≤ n → m' ≤ m → Apart c n d m → Apart c n' d m'
Apart-le c n d m n' m' hn hm (inl h) = inl (omega arith)
Apart-le c n d m n' m' hn hm (inr h) = inr (omega arith)

abbrev pub ApartFrom : ℕ → ℕ → List (ℕ × ℕ) → Type 0
ApartFrom n c [] = Unit
ApartFrom n c ((m, d) ∷ live) = Apart c n d m × ApartFrom n c live

abbrev pub AllApart : List (ℕ × ℕ) → Type 0
AllApart [] = Unit
AllApart ((n, c) ∷ live) = (c ≢ 0) × ApartFrom n c live × AllApart live
