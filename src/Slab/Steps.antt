-- ===== src/Slab/Steps.antt =====
-- What is popped from a zone is allocated, and what is pushed is free again.
use aura_os.Base.{ℕ, ◌<◌, ◌≡◌, ◌≢◌, refl, sym, some, List, ◌∷◌, subst, ==_false, ==_iff}
use aura_os.Slab.{Slab, num_zones, zone_chunk_size, put, size_to_zone_index, pop, push}
use aura_os.Slab.Place.{Owner, InPlace-ne-zero}
use aura_os.Slab.Chain.{Without, Chain, Chain-put, Chain-push}
use aura_os.Slab.Invariant.{
  put_elim, put_elim2, AllInPlace, Inv, AllInPlace-Without, AllLive-free, free-NotAmong, Chain-head,
}

abbrev popped : Slab → ℕ → Slab
popped s i = record s {
  zones = put s.zones i (record (s.zones i) { free_list = s.next (s.zones i).free_list });
}

pub pop_none : (s : Slab) (i : ℕ) → (s.zones i).free_list ≡ 0 → pop s i ≡ (0, s)
unfolding pop
pop_none s i h = rw ((==_iff (s.zones i).free_list 0).1 h) refl

pub pop_some :
    (s : Slab) (i : ℕ) → (s.zones i).free_list ≢ 0 → pop s i ≡ ((s.zones i).free_list, popped s i)
unfolding pop
pop_some s i h = rw (==_false (s.zones i).free_list 0 h) refl

module _ (s : Slab) (owner : Owner) (free : ℕ → List ℕ) (live : List (ℕ × ℕ))
    (v : Inv s owner free live) (i size : ℕ) (hi : i < num_zones) where
  popped-Inv :
      (rest : List ℕ)
      → free i ≡ (s.zones i).free_list ∷ rest
      → size ≢ 0
      → size_to_zone_index size ≡ some i
      → Inv (popped s i) owner (put free i rest) ((size, (s.zones i).free_list) ∷ live)
  popped-Inv rest e bytes index =
      let c = (s.zones i).free_list in
      let k = subst (Chain s.next c) e (v.chains i hi) in
      let places = subst (AllInPlace owner i) e (v.placed i hi) in
      record {
        frames_valid = v.frames_valid;
        first = v.first;
        identity = v.identity;
        sizes =
            put_elim (λ j z. j < num_zones → z.chunk_size ≡ zone_chunk_size j) s.zones i
              (record (s.zones i) { free_list = s.next c }) (λ h. v.sizes i h)
              (λ j ne h. v.sizes j h);
        owned = v.owned;
        chains =
            put_elim2 (λ j z l. j < num_zones → Chain s.next z.free_list l) s.zones free i
              (record (s.zones i) { free_list = s.next c }) rest (λ h. k.3)
              (λ j ne h. v.chains j h);
        placed =
            put_elim (λ j l. j < num_zones → AllInPlace owner j l) free i rest (λ h. places.1)
              (λ j ne h. v.placed j h);
        lives = (
          record {
            zone = i;
            some_bytes = bytes;
            index = index;
            below = hi;
            place = places.0;
            out =
                put_elim (λ j l. j ≡ i → Without c l) free i rest (λ _. k.2)
                  (λ j ne q. absurd (ne q)) i refl;
          },
          free-NotAmong owner free live i c rest hi e places.0 v.lives,
          AllLive-free owner free (put free i rest) live c
              (λ d j ne hj p out.
                put_elim (λ n l. Without d (free n) → Without d l) free i rest
                  (λ o. (subst (Without d) e o).1) (λ n ne' o. o) j out)
              (free-NotAmong owner free live i c rest hi e places.0 v.lives) v.lives,
        );
      }

  -- The head of a list that is not empty becomes an allocation.
  pub pop-Inv :
      (s.zones i).free_list ≢ 0
      → size ≢ 0
      → size_to_zone_index size ≡ some i
      → (free' : ℕ → List ℕ) × Inv (pop s i).1 owner free' ((size, (pop s i).0) ∷ live)
  pop-Inv h bytes index =
      let (rest, e) = Chain-head s.next (s.zones i).free_list (free i) h (v.chains i hi) in
      (
        put free i rest,
        subst (λ r. Inv r.1 owner (put free i rest) ((size, r.0) ∷ live)) (sym (pop_some s i h))
            (popped-Inv rest e bytes index),
      )

module _ (s : Slab) (owner : Owner) (free : ℕ → List ℕ) (size c : ℕ) (live : List (ℕ × ℕ))
    (v : Inv s owner free ((size, c) ∷ live)) where
  -- An allocation that is pushed onto its zone's list is free.
  pub push-Inv :
      Inv (push s v.lives.0.zone c) owner (put free v.lives.0.zone (c ∷ free v.lives.0.zone)) live
  unfolding push
  push-Inv =
      let l = v.lives.0 in
      let i = l.zone in
      let head = (s.zones i).free_list in
      let away = InPlace-ne-zero owner i c l.place in
      record {
        frames_valid = v.frames_valid;
        first = v.first;
        identity = v.identity;
        sizes =
            put_elim (λ j z. j < num_zones → z.chunk_size ≡ zone_chunk_size j) s.zones i
              (record (s.zones i) { free_list = c }) (λ h. v.sizes i h) (λ j ne h. v.sizes j h);
        owned = v.owned;
        chains =
            put_elim2 (λ j z ls. j < num_zones → Chain (put s.next c head) z.free_list ls) s.zones
              free i (record (s.zones i) { free_list = c }) (c ∷ free i)
              (λ h. Chain-push s.next c head (free i) away l.out (v.chains i h))
              (λ j ne h.
                Chain-put s.next c head (s.zones j).free_list (free j)
                  (AllInPlace-Without owner i j c (free j) l.below h (λ q. ne (sym q)) l.place
                    (v.placed j h))
                  (v.chains j h));
        placed =
            put_elim (λ j ls. j < num_zones → AllInPlace owner j ls) free i (c ∷ free i)
              (λ h. (l.place, v.placed i h)) (λ j ne h. v.placed j h);
        lives =
            AllLive-free owner free (put free i (c ∷ free i)) live c
              (λ d j ne hj p out.
                put_elim (λ n ls. Without d (free n) → Without d ls) free i (c ∷ free i)
                  (λ o. (λ q. ne (sym q), o)) (λ n ne' o. o) j out)
              v.lives.1 v.lives.2;
      }
