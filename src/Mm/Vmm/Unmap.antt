-- ===== src/Mm/Vmm/Unmap.antt =====
-- `unmap_page` of kernel/mm/vmm.c takes away the mapping of one page, and no other.
use aeolos.Base.{
  ℕ, ◌+◌, ◌*◌, ◌/◌, ◌%◌, ◌<◌, ◌≤◌, ◌≡◌, ◌≢◌, refl, sym, ap, ◌∙◌, true, ◌==◌, [], ◌∷◌, ◌++◌, none,
  some, arith, Bool-cases, inl, inr,
}
use aeolos.Mm.Pmm.{virt_to_phys}
use aeolos.Mm.Vmm.{
  Vmm, page_of, is_present, index, entry_at, store, table_at, drop_tables, clear_entry, unmap_page,
}
use aeolos.Mm.Vmm.Walk.{child, table_of, translate, index-lt}
use aeolos.Mm.Vmm.Next.{IsValid}
use aeolos.Mm.Vmm.Tables.{Points, drop_pt-Keeps}
use aeolos.Mm.Vmm.Drop.{Keeps}
use aeolos.Mm.Vmm.Entry.{page_number, written-IsTree, written-other, written-none, upper}

-- With flags below 512 both masks give the same table.
table_at_lem : (e : ℕ) → e % 4096 < 512 → table_at e ≡ child e
table_at_lem e low = let whole : e / 512 * 512 ≡ page_of e = omega arith in rw whole refl

-- What `unmap_page` should do: nothing is mapped at the address, every other page is as before, and
-- `invlpg` was given the address if it was mapped in the address space that is in use.
pub record Unmaps (s : Vmm) (cr3 pml4 vaddr : ℕ) (s' : Vmm) : Type 0 where
  pub valid : (level' : ℕ → ℕ) × IsValid s' level' pml4
  pub unmapped : translate s'.mem pml4 vaddr ≡ none
  pub others :
      (w : ℕ) → page_number w ≢ page_number vaddr → translate s'.mem pml4 w ≡ translate s.mem pml4 w
  pub flushed :
      (e : ℕ)
      → translate s.mem pml4 vaddr ≡ some e
      → cr3 ≡ virt_to_phys pml4
      → s'.flushed ≡ s.flushed ++ (vaddr ∷ [])

module _ (s : Vmm) (level : ℕ → ℕ) (cr3 pml4 vaddr : ℕ) (v : IsValid s level pml4) where
  -- Where nothing is mapped, nothing is done.
  absent-Unmaps : translate s.mem pml4 vaddr ≡ none → Unmaps s cr3 pml4 vaddr s
  absent-Unmaps e = record {
    valid = (level, v);
    unmapped = e;
    others = λ w other. refl;
    flushed = λ x f g. let nothing : none ≡ some x = sym e ∙ f in cc;
  }

  -- The write of the entry
  module _ (pt : ℕ) (leaf : level pt ≡ 1) (path : table_of s.mem 3 pml4 vaddr ≡ some pt) where
    abbrev cleared : Vmm
    cleared = clear_entry cr3 pml4 pt vaddr s

    abbrev written : ℕ → ℕ
    written = store s.mem (entry_at pt (index 1 vaddr)) 0

    cleared-fields :
        (cleared.mem ≡ written)
        × (cleared.pmm ≡ s.pmm)
        × (cr3 ≡ virt_to_phys pml4 → cleared.flushed ≡ s.flushed ++ (vaddr ∷ []))
    cleared-fields = elim (Bool-cases (cr3 == virt_to_phys pml4)) [
      | inl e ↦ rw e (refl, refl, λ f. refl)
      | inr e ↦ rw e (refl, refl, λ f. absurd (ground arith))
    ]

    cleared-IsValid : IsValid cleared level pml4
    cleared-IsValid =
        let (m, p, f) = cleared-fields in
        record {
          tree = rw m (written-IsTree s.mem level pml4 v.tree pt vaddr 0 leaf);
          bytes = rw p v.bytes;
          start = rw p v.start;
          range = rw p v.range;
          low = rw p v.low;
          used = rw p v.used;
        }

    cleared-Unmaps : (s' : Vmm) → Keeps cleared pml4 s' → Unmaps s cr3 pml4 vaddr s'
    cleared-Unmaps s' k =
        let (m, p, f) = cleared-fields in
        record {
          valid = k.valid;
          unmapped =
              k.same vaddr
              ∙ ap (λ mem. translate mem pml4 vaddr) m
              ∙ written-none s.mem level pml4 v.tree pt vaddr 0 leaf path refl;
          others = λ w other.
              k.same w
              ∙ ap (λ mem. translate mem pml4 w) m
              ∙ written-other s.mem level pml4 v.tree pt vaddr 0 leaf w path other;
          flushed = λ e there in_use. k.flushed ∙ f in_use;
        }

    cleared-Points : (t i c : ℕ) → 2 ≤ level t → i < 512 → Points s t i c → Points cleared t i c
    cleared-Points t i c l lt (e, to) =
        let (m, p, f) = cleared-fields in
        let same : cleared.mem (entry_at t i) ≡ s.mem (entry_at t i) =
          ap (λ mem. mem (entry_at t i)) m
          ∙ upper s.mem level pml4 v.tree pt vaddr 0 leaf t i l lt in
        (ap is_present same ∙ e, ap child same ∙ to)

  -- The entries on the way
  abbrev e4 : ℕ
  e4 = s.mem (entry_at pml4 (index 4 vaddr))

  abbrev e3 : ℕ
  e3 = s.mem (entry_at (child e4) (index 3 vaddr))

  abbrev e2 : ℕ
  e2 = s.mem (entry_at (child e3) (index 2 vaddr))

  abbrev e1 : ℕ
  e1 = s.mem (entry_at (child e2) (index 1 vaddr))

  present-Unmaps :
      is_present e4 ≡ true
      → is_present e3 ≡ true
      → is_present e2 ≡ true
      → Unmaps s cr3 pml4 vaddr (
          drop_tables pml4
            (child e4)
            (child e3)
            (child e2)
            vaddr
            (clear_entry cr3 pml4 (child e2) vaddr s))
  unfolding table_of drop_tables
  present-Unmaps p4 p3 p2 =
      let root = v.tree.root in
      let (lt4, lt3, lt2) : (index 4 vaddr < 512) × (index 3 vaddr < 512) × (index 2 vaddr < 512) =
        (index-lt 4 vaddr, index-lt 3 vaddr, index-lt 2 vaddr) in
      let l3 = v.tree.below pml4 (index 4 vaddr) (omega arith) lt4 p4 in
      let l2 = v.tree.below (child e4) (index 3 vaddr) (omega arith) lt3 p3 in
      let l1 = v.tree.below (child e3) (index 2 vaddr) (omega arith) lt2 p2 in
      let leaf : level (child e2) ≡ 1 = omega arith in
      let path : table_of s.mem 3 pml4 vaddr ≡ some (child e2) = rw (p4, p3, p2) refl in
      let k =
        drop_pt-Keeps pml4 (child e4) (child e3) (child e2) (index 4 vaddr) (index 3 vaddr)
          (index 2 vaddr) lt4 lt3 lt2 (cleared (child e2) leaf path) level
          (cleared-IsValid (child e2) leaf path) (omega arith) (omega arith) leaf
          (cleared-Points (child e2) leaf path pml4 (index 4 vaddr) (child e4) (omega arith) lt4
            (p4, refl))
          (cleared-Points (child e2) leaf path (child e4) (index 3 vaddr) (child e3) (omega arith)
            lt3 (p3, refl))
          (cleared-Points (child e2) leaf path (child e3) (index 2 vaddr) (child e2) (omega arith)
            lt2 (p2, refl)) in
      cleared-Unmaps (child e2) leaf path _ k

  step :
      (t i : ℕ)
      → 2 ≤ level t
      → i < 512
      → is_present (s.mem (entry_at t i)) ≡ true
      → (table_at (s.mem (entry_at t i)) ≡ child (s.mem (entry_at t i)))
        × (level (child (s.mem (entry_at t i))) + 1 ≡ level t)
  step t i l lt e =
      (table_at_lem (s.mem (entry_at t i)) (v.tree.plain t i l lt e), v.tree.below t i l lt e)

  -- `unmap_page` takes the mapping of the page of the address away and leaves every other page as it was,
  -- whichever of the tables on the way it gives back; the tables that are left are a tree of pages
  -- in use, and the address went to `invlpg` if it was mapped in the address space in use. The
  -- tables are such a tree before.
  pub unmap_page-Unmaps : Unmaps s cr3 pml4 vaddr (unmap_page cr3 pml4 vaddr s)
  unfolding unmap_page table_of
  unmap_page-Unmaps =
      let root = v.tree.root in
      elim (Bool-cases (is_present e4)) [
        | inr p4 ↦ rw p4 (absent-Unmaps (rw p4 refl))
        | inl p4 ↦
            let (t4, l3) = step pml4 (index 4 vaddr) (omega arith) (index-lt 4 vaddr) p4 in
            elim (Bool-cases (is_present e3)) [
              | inr p3 ↦ rw (p4, t4, p3) (absent-Unmaps (rw (p4, p3) refl))
              | inl p3 ↦
                  let (t3, l2) =
                    step (child e4) (index 3 vaddr) (omega arith) (index-lt 3 vaddr) p3 in
                  elim (Bool-cases (is_present e2)) [
                    | inr p2 ↦ rw (p4, t4, p3, t3, p2) (absent-Unmaps (rw (p4, p3, p2) refl))
                    | inl p2 ↦
                        let (t2, l1) =
                          step (child e3) (index 2 vaddr) (omega arith) (index-lt 2 vaddr) p2 in
                        elim (Bool-cases (is_present e1)) [
                          | inr p1 ↦
                              rw (p4, t4, p3, t3, p2, t2, p1)
                                (absent-Unmaps (rw (p4, p3, p2, p1) refl))
                          | inl p1 ↦ rw (p4, t4, p3, t3, p2, t2, p1) (present-Unmaps p4 p3 p2)
                        ]
                  ]
            ]
      ]
