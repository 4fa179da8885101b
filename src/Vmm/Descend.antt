-- ===== src/Vmm/Descend.antt =====
-- One level of the walk of `vmm_map_page`.
use aura_os.Base.{
  ℕ, suc, ◌+◌, ◌<◌, ◌≤◌, ◌≡◌, ◌≢◌, ◌⊎◌, inl, inr, refl, sym, ap, ◌∙◌, true, false, arith,
  Bool-cases, get_or-set_self, get_or-set_ne, set, subst,
}
use native.Mathlib.Decide.{ℕ_discrete}
use aura_os.Pmm.{is_used, alloc_frame}
use aura_os.Pmm.Invariant
use aura_os.Pmm.Invariant.{alloc_frame-IsValid}
use aura_os.Pmm.Alloc.{taken, alloc_frame_succeeds}
use aura_os.Vmm.{Vmm, is_present, address, slot, write, clear_table, descend}
use aura_os.Vmm.Tables.{
  table, IsTree, add_level, add_level_self, add_level_ne, write_self, write-slot,
  clear_table_inside, clear_table_outside,
}

-- What a step leaves: the state `t` and the table `next` of level `k + 1` below entry `index` of the
-- table `f`; all other entries of tables that were there are as they were.
pub record Descends (level : ℕ → ℕ) (s : Vmm) (f k index : ℕ) (t : Vmm) (next : ℕ) : Type 0 where
  pub level' : ℕ → ℕ
  pub frame : ℕ
  pub tree : IsTree level' t
  pub next_eq : next ≡ table frame
  pub next_level : level' frame ≡ suc k
  pub present : is_present (t.memory (slot (table f) index)) ≡ true
  pub names : address (t.memory (slot (table f) index)) ≡ next
  pub levels : (g : ℕ) → level g ≢ 0 → level' g ≡ level g
  pub same :
      (g i : ℕ)
      → level g ≢ 0
      → i < 512
      → (g ≢ f) ⊎ (i ≢ index)
      → t.memory (slot (table g) i) ≡ s.memory (slot (table g) i)
  pub count : t.pmm.used_frames ≤ s.pmm.used_frames + 1
  pub total : t.pmm.total_frames ≡ s.pmm.total_frames

-- A new table below entry `index` of the table `f`, in the frame `g`.
module _ (level : ℕ → ℕ) (s : Vmm) (f k index g : ℕ) (v : IsTree level s)
    (at : level f ≡ suc (suc k)) (hi : index < 512) (below : g < s.pmm.total_frames)
    (unused : is_used s.pmm.bitmap g ≡ false) (allocated : Invariant.IsValid (taken s.pmm g)) where
  abbrev added : ℕ → ℕ
  added = write (clear_table s.memory (table g)) (slot (table f) index) (table g + 7)

  flip : {h i : ℕ} → (h ≢ f) ⊎ (i ≢ index) → (f ≢ h) ⊎ (index ≢ i)
  flip (inl d) = inl (λ e. d (sym e))
  flip (inr d) = inr (λ e. d (sym e))

  fresh : (h : ℕ) → level h ≢ 0 → g ≢ h
  fresh h l e = cc (v.used h l, ap (λ n. is_used s.pmm.bitmap n) e, unused)

  added_other :
      (h i : ℕ)
      → level h ≢ 0
      → i < 512
      → (h ≢ f) ⊎ (i ≢ index)
      → added (slot (table h) i) ≡ s.memory (slot (table h) i)
  added_other h i l h512 d =
      write-slot (clear_table s.memory (table g)) f index h i (table g + 7) hi h512 (flip d)
      ∙ clear_table_outside s.memory g h i h512 (λ e. fresh h l (sym e))

  added_new : (i : ℕ) → i < 512 → added (slot (table g) i) ≡ 0
  added_new i h512 =
      write-slot (clear_table s.memory (table g)) f index g i (table g + 7) hi h512
        (inl (λ e. fresh f (λ z. omega arith) (sym e)))
      ∙ clear_table_inside s.memory g i h512

  abbrev added_level : ℕ → ℕ
  added_level = add_level level g (suc k)

  abbrev added_state : Vmm
  added_state = record { memory = added; pmm = taken s.pmm g }

  old_level : (h : ℕ) → level h ≢ 0 → added_level h ≡ level h
  old_level h l = add_level_ne level g (suc k) h (fresh h l)

  added_entry : added (slot (table f) index) ≡ table g + 7
  added_entry = write_self (clear_table s.memory (table g)) (slot (table f) index) (table g + 7)

  new_address : address (table g + 7) ≡ table g
  new_address = omega (arith, v.physical)

  old_other :
      (h j i : ℕ)
      → level h ≡ suc (suc j)
      → i < 512
      → is_present (added (slot (table h) i)) ≡ true
      → (h ≢ f) ⊎ (i ≢ index)
      → (d : ℕ) × (address (added (slot (table h) i)) ≡ table d) × (added_level d ≡ suc j)
  old_other h j i l h512 p n =
      let same = added_other h i (λ z. omega arith) h512 n in
      let (d, e, ld) = v.child h j i l h512 (ap is_present (sym same) ∙ p) in
      (d, ap address same ∙ e, old_level d (λ z. omega arith) ∙ ld)

  -- Entries of an old table: the one just written, or as before.
  old_child :
      (h j i : ℕ)
      → level h ≡ suc (suc j)
      → i < 512
      → is_present (added (slot (table h) i)) ≡ true
      → (d : ℕ) × (address (added (slot (table h) i)) ≡ table d) × (added_level d ≡ suc j)
  old_child h j i l h512 p = elim (ℕ_discrete h f) [
    | yes eh ↦ elim (ℕ_discrete i index) [
      | yes ei ↦ (
        g,
        rw (eh, ei) (rw added_entry new_address),
        add_level_self level g (suc k) ∙ omega (arith, ap level eh),
      )
      | no ni ↦ old_other h j i l h512 p (inr ni)
    ]
    | no nh ↦ old_other h j i l h512 p (inl nh)
  ]

  added-IsTree : IsTree added_level added_state
  added-IsTree = record {
    allocator = allocated;
    physical = v.physical;
    inside = λ h l. elim (ℕ_discrete g h) [
      | yes e ↦ subst (λ n. n < s.pmm.total_frames) e below
      | no ne ↦ v.inside h (λ z. l (add_level_ne level g (suc k) h ne ∙ z))
    ];
    used = λ h l. elim (ℕ_discrete g h) [
      | yes e ↦
          subst (λ n. is_used (set s.pmm.bitmap g true) n ≡ true) e
            (get_or-set_self s.pmm.bitmap g true true (omega (arith, v.allocator.covered)))
      | no ne ↦
          get_or-set_ne s.pmm.bitmap g h true true ne
          ∙ v.used h (λ z. l (add_level_ne level g (suc k) h ne ∙ z))
    ];
    child = λ h j i l h512 p. elim (ℕ_discrete g h) [
      | yes e ↦
          let zero_entry = subst (λ n. added (slot (table n) i) ≡ 0) e (added_new i h512) in
          absurd (cc)
      | no ne ↦ old_child h j i (sym (add_level_ne level g (suc k) h ne) ∙ l) h512 p
    ];
  }

  descend_new :
      is_present (s.memory (slot (table f) index)) ≡ false
      → alloc_frame s.pmm ≡ (table g, taken s.pmm g)
      → Descends level s f k index (descend s (table f) index).0 (descend s (table f) index).1
  unfolding descend
  descend_new p e =
      rw (p, e)
        (record {
          level' = added_level;
          frame = g;
          tree = added-IsTree;
          next_eq = refl;
          next_level = add_level_self level g (suc k);
          present = rw added_entry (ground arith);
          names = rw added_entry new_address;
          levels = old_level;
          same = added_other;
          count = omega arith;
          total = refl;
        })

module _ (level : ℕ → ℕ) (s : Vmm) (f k index : ℕ) (v : IsTree level s) (at : level f ≡ suc (suc k))
    (hi : index < 512) where
  descend_old :
      is_present (s.memory (slot (table f) index)) ≡ true
      → Descends level s f k index (descend s (table f) index).0 (descend s (table f) index).1
  unfolding descend
  descend_old p =
      let (g, e, lg) = v.child f k index at hi p in
      rw p (record {
        level' = level;
        frame = g;
        tree = v;
        next_eq = e;
        next_level = lg;
        present = p;
        names = refl;
        levels = λ h _. refl;
        same = λ h i _ _ _. refl;
        count = omega arith;
        total = refl;
      })

  pub descend-Descends :
      s.pmm.used_frames < s.pmm.total_frames
      → Descends level s f k index (descend s (table f) index).0 (descend s (table f) index).1
  descend-Descends free = elim (Bool-cases (is_present (s.memory (slot (table f) index)))) [
    | inl p ↦ descend_old p
    | inr p ↦
        let (g, below, unused, e) = alloc_frame_succeeds s.pmm v.allocator free in
        descend_new level s f k index g v at hi below unused
          (subst (λ r. Invariant.IsValid r.1) e (alloc_frame-IsValid s.pmm v.allocator)) p e
  ]
