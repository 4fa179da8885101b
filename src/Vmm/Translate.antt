-- ===== src/Vmm/Translate.antt =====
-- Translation after mapping a page and after unmapping it.
use aura_os.Base.{
  ℕ, suc, ◌+◌, ◌%◌, ◌^◌, ◌<◌, ◌≤◌, ◌≡◌, ◌≢◌, inl, inr, refl, sym, ap, ◌∙◌, true, arith,
  if◌then◌else◌, Bool-cases, subst,
}
use aura_os.Vmm.{
  Vmm, pml4_index, pdpt_index, pd_index, pt_index, is_present, address, slot, write, descend,
  page_entry, map_page, unmap_page, virt_to_phys,
}
use aura_os.Vmm.Tables.{table, IsTree, write_self, write-slot}
use aura_os.Vmm.Descend.{Descends, descend-Descends}

-- The walk over tables whose four entries are known.
walk :
    (memory : ℕ → ℕ) (f f1 f2 f3 virt word : ℕ)
    → is_present (memory (slot (table f) (pml4_index virt))) ≡ true
    → address (memory (slot (table f) (pml4_index virt))) ≡ table f1
    → is_present (memory (slot (table f1) (pdpt_index virt))) ≡ true
    → address (memory (slot (table f1) (pdpt_index virt))) ≡ table f2
    → is_present (memory (slot (table f2) (pd_index virt))) ≡ true
    → address (memory (slot (table f2) (pd_index virt))) ≡ table f3
    → memory (slot (table f3) (pt_index virt)) ≡ word
    → virt_to_phys memory (table f) virt
      ≡ (if is_present word then address word + virt % 2 ^ 12 else 0)
unfolding virt_to_phys
walk memory f f1 f2 f3 virt word p4 a4 p3 a3 p2 a2 e =
    rw p4 (rw a4 (rw p3 (rw a3 (rw p2 (rw a2 (rw e refl))))))

page_entry-address : (phys flags : ℕ) → address (page_entry phys flags) ≡ address phys
unfolding page_entry
page_entry-address phys flags = omega arith

page_entry-is_present : (phys flags : ℕ) → is_present (page_entry phys flags) ≡ true
unfolding page_entry
page_entry-is_present phys flags = ground arith

ne_of_level : (level : ℕ → ℕ) (f g k j : ℕ) → level f ≡ k → level g ≡ j → k ≢ j → f ≢ g
ne_of_level level f g k j hf hg d e = d (sym hf ∙ ap level e ∙ hg)

-- Three steps down and the write of the page's entry.
module _ (level : ℕ → ℕ) (s s1 s2 s3 : Vmm) (f n1 n2 n3 virt word : ℕ) (root : level f ≡ 4)
    (d1 : Descends level s f 2 (pml4_index virt) s1 n1)
    (d2 : Descends d1.level' s1 d1.frame 1 (pdpt_index virt) s2 n2)
    (d3 : Descends d2.level' s2 d2.frame 0 (pd_index virt) s3 n3) where
  abbrev final : ℕ → ℕ
  final = write s3.memory (slot (table d3.frame) (pt_index virt)) word

  root1 : d1.level' f ≡ 4
  root1 = d1.levels f (λ z. omega arith) ∙ root

  root2 : d2.level' f ≡ 4
  root2 = d2.levels f (λ z. omega (arith, root1)) ∙ root1

  root3 : d3.level' f ≡ 4
  root3 = d3.levels f (λ z. omega (arith, root2)) ∙ root2

  pdpt2 : d2.level' d1.frame ≡ 3
  pdpt2 = d2.levels d1.frame (λ z. omega (arith, d1.next_level)) ∙ d1.next_level

  pdpt3 : d3.level' d1.frame ≡ 3
  pdpt3 = d3.levels d1.frame (λ z. omega (arith, pdpt2)) ∙ pdpt2

  pd3 : d3.level' d2.frame ≡ 2
  pd3 = d3.levels d2.frame (λ z. omega (arith, d2.next_level)) ∙ d2.next_level

  -- The last write is to a table of level 1.
  final_other :
      (g i k : ℕ)
      → d3.level' g ≡ suc (suc k)
      → i < 512
      → final (slot (table g) i) ≡ s3.memory (slot (table g) i)
  final_other g i k h h512 =
      write-slot s3.memory d3.frame (pt_index virt) g i word (omega arith) h512
        (inl (ne_of_level d3.level' d3.frame g 1 (suc (suc k)) d3.next_level h (λ e. omega arith)))

  entry4 : final (slot (table f) (pml4_index virt)) ≡ s1.memory (slot (table f) (pml4_index virt))
  entry4 =
      final_other f (pml4_index virt) 2 root3 (omega arith)
      ∙ d3.same f (pml4_index virt) (λ z. omega (arith, root2)) (omega arith)
          (inl (ne_of_level d2.level' f d2.frame 4 2 root2 d2.next_level (λ e. omega arith)))
      ∙ d2.same f (pml4_index virt) (λ z. omega (arith, root1)) (omega arith)
          (inl (ne_of_level d1.level' f d1.frame 4 3 root1 d1.next_level (λ e. omega arith)))

  entry3 :
      final (slot (table d1.frame) (pdpt_index virt))
      ≡ s2.memory (slot (table d1.frame) (pdpt_index virt))
  entry3 =
      final_other d1.frame (pdpt_index virt) 1 pdpt3 (omega arith)
      ∙ d3.same d1.frame (pdpt_index virt) (λ z. omega (arith, pdpt2)) (omega arith)
          (inl (ne_of_level d2.level' d1.frame d2.frame 3 2 pdpt2 d2.next_level (λ e. omega arith)))

  entry2 :
      final (slot (table d2.frame) (pd_index virt))
      ≡ s3.memory (slot (table d2.frame) (pd_index virt))
  entry2 = final_other d2.frame (pd_index virt) 0 pd3 (omega arith)

  mapped :
      virt_to_phys final (table f) virt
      ≡ (if is_present word then address word + virt % 2 ^ 12 else 0)
  mapped =
      walk final f d1.frame d2.frame d3.frame virt word (ap is_present entry4 ∙ d1.present)
        (ap address entry4 ∙ d1.names ∙ d1.next_eq) (ap is_present entry3 ∙ d2.present)
        (ap address entry3 ∙ d2.names ∙ d2.next_eq) (ap is_present entry2 ∙ d3.present)
        (ap address entry2 ∙ d3.names ∙ d3.next_eq)
        (write_self s3.memory (slot (table d3.frame) (pt_index virt)) word)

  -- Writing an entry of the last level breaks no table.
  final-IsTree : IsTree d3.level' (record { memory = final; pmm = s3.pmm })
  final-IsTree = record {
    allocator = d3.tree.allocator;
    physical = d3.tree.physical;
    inside = d3.tree.inside;
    used = d3.tree.used;
    child = λ g k i h h512 p.
        let same = final_other g i k h h512 in
        let (c, e, lc) = d3.tree.child g k i h h512 (ap is_present (sym same) ∙ p) in
        (c, ap address same ∙ e, lc);
  }

descend_at :
    (level : ℕ → ℕ) (s : Vmm) (f k index n : ℕ)
    → IsTree level s
    → level f ≡ suc (suc k)
    → index < 512
    → s.pmm.used_frames < s.pmm.total_frames
    → n ≡ table f
    → Descends level s f k index (descend s n index).0 (descend s n index).1
descend_at level s f k index n v at h free e =
    subst (λ m. Descends level s f k index (descend s m index).0 (descend s m index).1) (sym e)
      (descend-Descends level s f k index v at h free)

abbrev Maps : (ℕ → ℕ) → Vmm → ℕ → ℕ → ℕ → ℕ → ℕ → Type 0
Maps level s f n virt phys word =
    (virt_to_phys (write s.memory (slot n (pt_index virt)) word) (table f) virt
      ≡ address phys + virt % 2 ^ 12)
    × ((level' : ℕ → ℕ) × IsTree level'
          (record s { memory = write s.memory (slot n (pt_index virt)) word })
        × (level' f ≡ 4))

-- With three free frames, `vmm_map_page` maps the page of `virt`, whatever tables were there: the
-- address in it is translated to the same offset in the page of `phys`, and the tables stay a tree
-- of frames in use with the same root.
pub virt_to_phys-map_page :
    (level : ℕ → ℕ) (s : Vmm) (f virt phys flags : ℕ)
    → IsTree level s
    → level f ≡ 4
    → s.pmm.used_frames + 3 ≤ s.pmm.total_frames
    → (virt_to_phys (map_page s (table f) virt phys flags).memory (table f) virt
        ≡ address phys + virt % 2 ^ 12)
      × ((level' : ℕ → ℕ) × IsTree level' (map_page s (table f) virt phys flags) × (level' f ≡ 4))
unfolding map_page
virt_to_phys-map_page level s f virt phys flags v root free =
    let (s1, n1) = descend s (table f) (pml4_index virt) in
    let d1 =
      descend_at level s f 2 (pml4_index virt) (table f) v root (omega arith) (omega arith) refl in
    let (s2, n2) = descend s1 n1 (pdpt_index virt) in
    let d2 =
      descend_at d1.level' s1 d1.frame 1 (pdpt_index virt) n1 d1.tree d1.next_level (omega arith)
        (omega (arith, d1.count, d1.total)) d1.next_eq in
    let (s3, n3) = descend s2 n2 (pd_index virt) in
    let d3 =
      descend_at d2.level' s2 d2.frame 0 (pd_index virt) n2 d2.tree d2.next_level (omega arith)
        (omega (arith, d1.count, d1.total, d2.count, d2.total)) d2.next_eq in
    let word = page_entry phys flags in
    let base =
      mapped level s s1 s2 s3 f n1 n2 n3 virt word root d1 d2 d3
      ∙ rw (page_entry-is_present phys flags, page_entry-address phys flags) refl in
    subst (λ n. Maps level s3 f n virt phys word) (sym d3.next_eq)
      (
        base,
        (
          d3.level',
          final-IsTree level s s1 s2 s3 f n1 n2 n3 virt word root d1 d2 d3,
          root3 level s s1 s2 s3 f n1 n2 n3 virt word root d1 d2 d3,
        ),
      )

-- Where the walk stops early nothing is translated.
module _ (level : ℕ → ℕ) (s : Vmm) (f virt : ℕ) (v : IsTree level s) (root : level f ≡ 4) where
  unmapped :
      (f1 f2 f3 : ℕ)
      → level f1 ≡ 3
      → level f2 ≡ 2
      → level f3 ≡ 1
      → is_present (s.memory (slot (table f) (pml4_index virt))) ≡ true
      → address (s.memory (slot (table f) (pml4_index virt))) ≡ table f1
      → is_present (s.memory (slot (table f1) (pdpt_index virt))) ≡ true
      → address (s.memory (slot (table f1) (pdpt_index virt))) ≡ table f2
      → is_present (s.memory (slot (table f2) (pd_index virt))) ≡ true
      → address (s.memory (slot (table f2) (pd_index virt))) ≡ table f3
      → virt_to_phys (write s.memory (slot (table f3) (pt_index virt)) 0) (table f) virt ≡ 0
  unmapped f1 f2 f3 l1 l2 l3 p4 a4 p3 a3 p2 a2 =
      let a = slot (table f3) (pt_index virt) in
      let other = λ (g i k : ℕ) (h : level g ≡ suc (suc k)) (h512 : i < 512).
        write-slot s.memory f3 (pt_index virt) g i 0 (omega arith) h512
          (inl (ne_of_level level f3 g 1 (suc (suc k)) l3 h (λ e. omega arith))) in
      let e4 = other f (pml4_index virt) 2 root (omega arith) in
      let e3 = other f1 (pdpt_index virt) 1 l1 (omega arith) in
      let e2 = other f2 (pd_index virt) 0 l2 (omega arith) in
      walk (write s.memory a 0) f f1 f2 f3 virt 0 (ap is_present e4 ∙ p4) (ap address e4 ∙ a4)
        (ap is_present e3 ∙ p3) (ap address e3 ∙ a3) (ap is_present e2 ∙ p2) (ap address e2 ∙ a2)
        (write_self s.memory a 0)

-- After `vmm_unmap_page` the address is not translated.
pub virt_to_phys-unmap_page :
    (level : ℕ → ℕ) (s : Vmm) (f virt : ℕ)
    → IsTree level s
    → level f ≡ 4
    → virt_to_phys (unmap_page s (table f) virt).memory (table f) virt ≡ 0
unfolding unmap_page virt_to_phys
virt_to_phys-unmap_page level s f virt v root =
    let e4 = s.memory (slot (table f) (pml4_index virt)) in
    let e3 = s.memory (slot (address e4) (pdpt_index virt)) in
    let e2 = s.memory (slot (address e3) (pd_index virt)) in
    let e1 = s.memory (slot (address e2) (pt_index virt)) in
    elim (Bool-cases (is_present e4)) [
      | inr n ↦ rw n (rw n refl)
      | inl p4 ↦ elim (Bool-cases (is_present e3)) [
        | inr n ↦ rw (p4, n) (rw (p4, n) refl)
        | inl p3 ↦ elim (Bool-cases (is_present e2)) [
          | inr n ↦ rw (p4, p3, n) (rw (p4, p3, n) refl)
          | inl p2 ↦ elim (Bool-cases (is_present e1)) [
            | inr n ↦ rw (p4, p3, p2, n) (rw (p4, p3, p2, n) refl)
            | inl p1 ↦
                let (f1, a4, l1) = v.child f 2 (pml4_index virt) root (omega arith) p4 in
                let q3 = ap (λ a. is_present (s.memory (slot a (pdpt_index virt)))) (sym a4) ∙ p3 in
                let (f2, b3, l2) = v.child f1 1 (pdpt_index virt) l1 (omega arith) q3 in
                let a3 = ap (λ a. address (s.memory (slot a (pdpt_index virt)))) a4 ∙ b3 in
                let q2 = ap (λ a. is_present (s.memory (slot a (pd_index virt)))) (sym a3) ∙ p2 in
                let (f3, b2, l3) = v.child f2 0 (pd_index virt) l2 (omega arith) q2 in
                let a2 = ap (λ a. address (s.memory (slot a (pd_index virt)))) a3 ∙ b2 in
                rw (p4, p3, p2, p1)
                  (subst
                    (λ a.
                      virt_to_phys (write s.memory (slot a (pt_index virt)) 0) (table f) virt ≡ 0)
                    (sym a2) (unmapped level s f virt v root f1 f2 f3 l1 l2 l3 p4 a4 q3 b3 q2 b2))
          ]
        ]
      ]
    ]
