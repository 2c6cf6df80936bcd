-- ===== src/Mm/Vmm/Tables.antt =====
-- The end of `unmap_page` of kernel/mm/vmm.c: up to three tables are given back.
use aeolos.Base.{
  ℕ, ◌<◌, ◌≤◌, ◌≡◌, ◌≢◌, refl, ap, ◌∙◌, true, not, if◌then◌else◌, arith, Bool-cases, inl, inr,
}
use aeolos.Mm.Vmm.{Vmm, is_present, entry_at, all_zero, drop_table}
use aeolos.Mm.Vmm.Walk.{child}
use aeolos.Mm.Vmm.Next.{IsValid}
use aeolos.Mm.Vmm.Drop.{
  Keeps, dropped, dropped_level, dropped-IsValid, drop_table-Keeps, dropped-entry, dropped-level,
}

-- An entry that is present, and the table it points to
abbrev pub Points : Vmm → ℕ → ℕ → ℕ → Type 0
Points s t i c = (is_present (s.mem (entry_at t i)) ≡ true) × (child (s.mem (entry_at t i)) ≡ c)

Keeps-trans : (s s1 s2 : Vmm) (pml4 : ℕ) → Keeps s pml4 s1 → Keeps s1 pml4 s2 → Keeps s pml4 s2
Keeps-trans s s1 s2 pml4 x y = record {
  valid = y.valid;
  same = λ vaddr. y.same vaddr ∙ x.same vaddr;
  flushed = y.flushed ∙ x.flushed;
}

Keeps-refl : (s : Vmm) (level : ℕ → ℕ) (pml4 : ℕ) → IsValid s level pml4 → Keeps s pml4 s
Keeps-refl s level pml4 v = record { valid = (level, v); same = λ vaddr. refl; flushed = refl }

-- What is left of the way from the top after a table `c` below `t` is given back
record After (s : Vmm) (level : ℕ → ℕ) (pml4 t c : ℕ) (s' : Vmm) (level' : ℕ → ℕ) : Type 0 where
  valid : IsValid s' level' pml4
  levels : (x : ℕ) → level x ≢ level c → level' x ≡ level x
  ways : (t' j b : ℕ) → 1 ≤ level t' → j < 512 → t' ≢ t → Points s t' j b → Points s' t' j b

-- One table, given by its address
module _ (s : Vmm) (level : ℕ → ℕ) (pml4 t i c : ℕ) (v : IsValid s level pml4) (high : 2 ≤ level t)
    (lt : i < 512) (points : Points s t i c) (empty : all_zero 512 0 s.mem c ≡ true) where
  empty' : all_zero 512 0 s.mem (child (s.mem (entry_at t i))) ≡ true
  empty' = rw points.1 empty

  abbrev after : Vmm
  after = drop_table (entry_at t i) c s

  after_same : dropped s level pml4 t i v high lt points.0 empty' ≡ after
  after_same = ap (λ x. drop_table (entry_at t i) x s) points.1

  after-Keeps : Keeps s pml4 after
  after-Keeps = rw (← after_same) (drop_table-Keeps s level pml4 t i v high lt points.0 empty')

  after_lem : (level' : ℕ → ℕ) × After s level pml4 t c after level'
  after_lem =
      let d : After s level pml4 t c (dropped s level pml4 t i v high lt points.0 empty')
          (dropped_level s level pml4 t i v high lt points.0 empty') =
        record {
          valid = dropped-IsValid s level pml4 t i v high lt points.0 empty';
          levels = λ x other.
              dropped-level s level pml4 t i v high lt points.0 empty' x
                (λ same. other (same ∙ ap level points.1));
          ways = λ t' j b l lt' other (e, f).
              let same =
                dropped-entry s level pml4 t i v high lt points.0 empty' t' j l lt' other in
              (ap is_present same ∙ e, ap child same ∙ f);
        } in
      (dropped_level s level pml4 t i v high lt points.0 empty', rw after_same at d)

-- The three tables on the way to a page
module _ (pml4 pdpt pd pt i4 i3 i2 : ℕ) (lt4 : i4 < 512) (lt3 : i3 < 512) (lt2 : i2 < 512) where
  -- The PDPT, then the page directory before it, then the page table before that
  abbrev drop_pdpt : Vmm → Vmm
  drop_pdpt s = if not (all_zero 512 0 s.mem pdpt) then s else drop_table (entry_at pml4 i4) pdpt s

  abbrev drop_pd : Vmm → Vmm
  drop_pd s =
      if not (all_zero 512 0 s.mem pd) then s else drop_pdpt (drop_table (entry_at pdpt i3) pd s)

  abbrev drop_pt : Vmm → Vmm
  drop_pt s =
      if not (all_zero 512 0 s.mem pt) then s else drop_pd (drop_table (entry_at pd i2) pt s)

  drop_pdpt-Keeps :
      (s : Vmm) (level : ℕ → ℕ)
      → IsValid s level pml4
      → Points s pml4 i4 pdpt
      → Keeps s pml4 (drop_pdpt s)
  drop_pdpt-Keeps s level v p4 = elim (Bool-cases (all_zero 512 0 s.mem pdpt)) [
    | inr e ↦ rw e (Keeps-refl s level pml4 v)
    | inl e ↦
        let root = v.tree.root in
        rw e (after-Keeps s level pml4 pml4 i4 pdpt v (omega arith) lt4 p4 e)
  ]

  drop_pd-Keeps :
      (s : Vmm) (level : ℕ → ℕ)
      → IsValid s level pml4
      → level pdpt ≡ 3
      → level pd ≡ 2
      → Points s pml4 i4 pdpt
      → Points s pdpt i3 pd
      → Keeps s pml4 (drop_pd s)
  drop_pd-Keeps s level v l3 l2 p4 p3 = elim (Bool-cases (all_zero 512 0 s.mem pd)) [
    | inr e ↦ rw e (Keeps-refl s level pml4 v)
    | inl e ↦
        let root = v.tree.root in
        let s1 = drop_table (entry_at pdpt i3) pd s in
        let (level1, a) = after_lem s level pml4 pdpt i3 pd v (omega arith) lt3 p3 e in
        let top : pml4 ≢ pdpt = λ same. ground (arith, ap level same) in
        let k = after-Keeps s level pml4 pdpt i3 pd v (omega arith) lt3 p3 e in
        rw e (
          Keeps-trans s s1 (drop_pdpt s1) pml4 k
            (drop_pdpt-Keeps s1 level1 a.valid (a.ways pml4 i4 pdpt (omega arith) lt4 top p4)))
  ]

  pub drop_pt-Keeps :
      (s : Vmm) (level : ℕ → ℕ)
      → IsValid s level pml4
      → level pdpt ≡ 3
      → level pd ≡ 2
      → level pt ≡ 1
      → Points s pml4 i4 pdpt
      → Points s pdpt i3 pd
      → Points s pd i2 pt
      → Keeps s pml4 (drop_pt s)
  drop_pt-Keeps s level v l3 l2 l1 p4 p3 p2 = elim (Bool-cases (all_zero 512 0 s.mem pt)) [
    | inr e ↦ rw e (Keeps-refl s level pml4 v)
    | inl e ↦
        let root = v.tree.root in
        let s1 = drop_table (entry_at pd i2) pt s in
        let (level1, a) = after_lem s level pml4 pd i2 pt v (omega arith) lt2 p2 e in
        let top : pml4 ≢ pd = λ same. ground (arith, ap level same) in
        let next : pdpt ≢ pd = λ same. ground (arith, ap level same) in
        let k = after-Keeps s level pml4 pd i2 pt v (omega arith) lt2 p2 e in
        let low3 : level1 pdpt ≡ 3 = a.levels pdpt (λ same. omega arith) ∙ l3 in
        let low2 : level1 pd ≡ 2 = a.levels pd (λ same. omega arith) ∙ l2 in
        rw e (
          Keeps-trans s s1 (drop_pd s1) pml4 k (
            drop_pd-Keeps s1 level1 a.valid low3 low2 (a.ways pml4 i4 pdpt (omega arith) lt4 top p4)
              (a.ways pdpt i3 pd (omega arith) lt3 next p3)))
  ]
