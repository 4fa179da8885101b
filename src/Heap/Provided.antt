-- ===== src/Heap/Provided.antt =====
-- The heap is an `Allocator`, with the account of what was allocated from it.
use aura_os.Base.{
  ℕ, ◌≤◌, ◌≡◌, ◌≢◌, refl, sym, ◌∙◌, Bool, true, false, ◌&&◌, ◌||◌, inl, inr, arith, ◌==◌, if_elim,
  ==_refl, ==_false, Bool-cases, leb, le→leb, List, [], ◌∷◌, subst,
}
use aura_os.Allocator.{Allocator, Apart}
use aura_os.Allocator.Calls.{note, note_some, AllOf, Apart-le, ApartFrom}
use aura_os.Heap.{Heap, kmalloc}
use aura_os.Heap.Take.{true_ne_false}
use aura_os.Heap.Accounts.{IsLive, Client, IsValid, without}
use aura_os.Heap.Runs.{give_back, give_back-IsValid, take, take-IsValid}
use aura_os.Heap.Separate.{AllOf-ApartFrom}

-- Whether `p` was allocated for `n` bytes or more.
abbrev pub holds : ℕ → ℕ → List (ℕ × ℕ) → Bool
holds p n [] = false
holds p n ((m, c) ∷ live) = ((p == c) && leb n m) || holds p n live

holds-IsLive :
    (h : Heap) (blocks : ℕ → Bool) (p n : ℕ) (live : List (ℕ × ℕ))
    → holds p n live ≡ true
    → AllOf (IsLive h blocks) live
    → IsLive h blocks n p
holds-IsLive h blocks p n [] e all = absurd (true_ne_false (sym e))
holds-IsLive h blocks p n ((m, c) ∷ live) e all = elim (Bool-cases ((p == c) && leb n m)) [
  | inl here ↦
      let l = all.0 in
      let same : p ≡ c = ground arith in
      let less : n ≤ m = ground arith in
      record {
        block = l.block;
        payload = same ∙ l.payload;
        mine = l.mine;
        used = l.used;
        enough = omega (arith, less, l.enough);
      }
  | inr there ↦ holds-IsLive h blocks p n live (ground arith) all.2
]

holds-Apart :
    (n p q m : ℕ) (live : List (ℕ × ℕ)) → holds q m live ≡ true → ApartFrom n p live → Apart p n q m
holds-Apart n p q m [] e all = absurd (true_ne_false (sym e))
holds-Apart n p q m ((k, c) ∷ live) e all = elim (Bool-cases ((q == c) && leb m k)) [
  | inl here ↦
      let same : q ≡ c = ground arith in
      let less : m ≤ k = ground arith in
      subst (λ a. Apart p n a m) (sym same) (Apart-le p n c k n m (omega arith) less all.0)
  | inr there ↦ holds-Apart n p q m live (ground arith) all.1
]

pub holds-without :
    (p q m : ℕ) (live : List (ℕ × ℕ))
    → p ≢ q
    → holds q m live ≡ true
    → holds q m (without p live) ≡ true
unfolding without
holds-without p q m [] ne e = e
holds-without p q m ((k, c) ∷ live) ne e = elim (Bool-cases ((q == c) && leb m k)) [
  | inl here ↦
      let same : q ≡ c = ground arith in rw (==_false c p (λ s. ne (sym (same ∙ s)))) (ground arith)
  | inr there ↦
      let rest = holds-without p q m live ne (ground arith) in
      if_elim (λ (t : List (ℕ × ℕ)). holds q m t ≡ true) (c == p) (λ _. rest) (λ _. ground arith)
]

pub holds-note :
    (n p q m : ℕ) (live : List (ℕ × ℕ)) → holds q m live ≡ true → holds q m (note n p live) ≡ true
holds-note n p q m live e =
    if_elim (λ (t : List (ℕ × ℕ)). holds q m t ≡ true) (p == 0) (λ _. e) (λ _. ground arith)

pub holds_new : (n p : ℕ) (live : List (ℕ × ℕ)) → p ≢ 0 → holds p n (note n p live) ≡ true
holds_new n p live nn =
    subst (λ t. holds p n t ≡ true) (note_some n p live nn)
      (rw (==_refl p, le→leb n n (omega arith)) refl)

pub given_back :
    (t : Client) (p n : ℕ) → IsValid t → holds p n t.live ≡ true → IsValid (give_back t p)
given_back t p n (blocks, v, all) e =
    give_back-IsValid t blocks n p v (holds-IsLive t.heap blocks p n t.live e all) all

-- The newest allocation is apart from those before it.
pub note-Apart :
    (t : Client) (n p q m : ℕ)
    → p ≢ 0
    → IsValid (record { heap = t.heap; live = note n p t.live })
    → holds q m t.live ≡ true
    → Apart p n q m
note-Apart t n p q m nn (blocks, v, all) e =
    let front = subst (AllOf (IsLive t.heap blocks)) (sym (note_some n p t.live nn)) all in
    holds-Apart n p q m t.live e
      (AllOf-ApartFrom t.heap blocks v n p t.live front.0 front.1 front.2)

abbrev pub provided : ℕ → ℕ → Allocator
provided fuel rounds = record {
  State = Client;
  IsValid = IsValid;
  Live = λ t p n. holds p n t.live ≡ true;
  kmalloc = take fuel rounds;
  kfree = give_back;
  kmalloc-IsValid = λ t n v small. take-IsValid fuel rounds t n (omega arith) v;
  kfree-IsValid = λ t p n v l. given_back t p n v l;
  kmalloc-Live = λ t n v pos small nn. holds_new n (kmalloc fuel rounds t.heap n).0 t.live nn;
  kmalloc_other = λ t n q m v small l. holds-note n (kmalloc fuel rounds t.heap n).0 q m t.live l;
  kmalloc-Apart = λ t n q m v pos small nn l.
      note-Apart (record { heap = (kmalloc fuel rounds t.heap n).1; live = t.live }) n
        (kmalloc fuel rounds t.heap n).0 q m nn (take-IsValid fuel rounds t n (omega arith) v) l;
  kfree_other = λ t p n q m v l k ne. holds-without p q m t.live ne k;
}
