-- ===== src/Mm/Vmm/Grow.antt =====
-- A new table of kernel/mm/vmm.c in the tree: the tree stays one, and no address is translated
-- otherwise than before.
use aeolos.Base.{
  ℕ, zero, suc, ◌+◌, ◌-◌, ◌%◌, ◌^◌, ◌<◌, ◌≤◌, ◌≡◌, ◌≢◌, refl, sym, ap, ◌∙◌, true, false, ◌==◌, ◌&&◌,
  if◌then◌else◌, none, arith, Bool-cases, inl, inr, ◌⊎◌,
}
use aeolos.Mm.Vmm.{is_present, index, entry_at, store, clear}
use aeolos.Mm.Vmm.Walk.{child, table_of, mapping, index-lt}
use aeolos.Mm.Vmm.Tree.{IsTree, store-entry, clear-entry}

module _ (mem : ℕ → ℕ) (level : ℕ → ℕ) (pml4 : ℕ) (tree : IsTree mem level pml4) (t i c entry : ℕ)
    (high : 2 ≤ level t) (lt : i < 512) (free : is_present (mem (entry_at t i)) ≡ false)
    (new : level c ≡ 0) (page : c % 4096 ≡ 0) (inside : c < 2 ^ 64) (low : entry % 4096 < 512)
    (present : is_present entry ≡ true) (to : child entry ≡ c) where
  abbrev pub grown : ℕ → ℕ
  grown = store (clear mem c) (entry_at t i) entry

  abbrev pub grown_level : ℕ → ℕ
  grown_level x = if x == c then level t - 1 else level x

  pub grown-entry :
      (t' j : ℕ)
      → 1 ≤ grown_level t'
      → j < 512
      → grown (entry_at t' j)
        ≡ (if (t' == t) && (j == i) then entry else (if t' == c then 0 else mem (entry_at t' j)))
  grown-entry t' j l lt' =
      let a = tree.aligned t (omega arith) in
      let a' : t' % 4096 ≡ 0 = elim (Bool-cases (t' == c)) [
        | inl e ↦ let same : t' ≡ c = ground arith in rw same page
        | inr e ↦ tree.aligned t' (rw e at l)
      ] in
      store-entry (clear mem c) t i t' j entry a a' lt lt'
      ∙ ap (λ x. if (t' == t) && (j == i) then entry else x) (clear-entry mem c t' j page a' lt')

  -- The entry that has been made, the new table's, and every other.
  pub made : grown (entry_at t i) ≡ entry
  made =
      let l : 1 ≤ grown_level t = ground arith in
      grown-entry t i l lt ∙ (let at : ((t == t) && (i == i)) ≡ true = ground arith in rw at)

  empty : (j : ℕ) → j < 512 → grown (entry_at c j) ≡ 0
  empty j lt' =
      let l : 1 ≤ grown_level c = ground arith in
      let off : ((c == t) && (j == i)) ≡ false = ground arith in
      let at : (c == c) ≡ true = ground arith in grown-entry c j l lt' ∙ rw (off, at)

  pub kept :
      (t' j : ℕ)
      → 1 ≤ level t'
      → j < 512
      → ((t' == t) && (j == i)) ≡ false
      → grown (entry_at t' j) ≡ mem (entry_at t' j)
  kept t' j l lt' off =
      let other : (t' == c) ≡ false = ground arith in
      let l' : 1 ≤ grown_level t' = ground arith in grown-entry t' j l' lt' ∙ rw (off, other)

  pub kept-level : (t' : ℕ) → 1 ≤ level t' → grown_level t' ≡ level t'
  kept-level t' l = let other : (t' == c) ≡ false = ground arith in rw other

  -- What is present in the grown tree: the entry made, or one that was there.
  record Old (t' j : ℕ) : Type 0 where
    was : 1 ≤ level t'
    same : grown (entry_at t' j) ≡ mem (entry_at t' j)
    apart : ((t' == t) && (j == i)) ≡ false

  cases :
      (t' j : ℕ)
      → 2 ≤ grown_level t'
      → j < 512
      → is_present (grown (entry_at t' j)) ≡ true
      → ((t' ≡ t) × (j ≡ i)) ⊎ Old t' j
  cases t' j l lt' e = elim (Bool-cases (t' == c)) [
    | inl f ↦
        let same : t' ≡ c = ground arith in
        let zero_there : grown (entry_at t' j) ≡ 0 = rw same (empty j lt') in
        absurd (ground (arith, ap is_present zero_there))
    | inr f ↦ elim (Bool-cases ((t' == t) && (j == i))) [
      | inl g ↦ inl (ground arith, ground arith)
      | inr g ↦
          let was : 1 ≤ level t' = ground arith in
          inr (record { was = was; same = kept t' j was lt' g; apart = g })
    ]
  ]

  old_child :
      (t' j : ℕ)
      → 2 ≤ level t'
      → j < 512
      → is_present (mem (entry_at t' j)) ≡ true
      → child (mem (entry_at t' j)) ≢ c
  old_child t' j l lt' e same =
      let down = tree.below t' j l lt' e in
      let gone : level (child (mem (entry_at t' j))) ≡ 0 = ap level same ∙ new in
      absurd (omega arith)

  -- Where the entries of the grown tree point to
  new_target : (t' j : ℕ) → t' ≡ t → j ≡ i → child (grown (entry_at t' j)) ≡ c
  new_target t' j f g =
      ap (λ x. child (grown (entry_at x j))) f
      ∙ ap (λ x. child (grown (entry_at t x))) g
      ∙ ap child made
      ∙ to

  Old-target :
      (t' j : ℕ)
      → 2 ≤ grown_level t'
      → j < 512
      → is_present (grown (entry_at t' j)) ≡ true
      → Old t' j
      → child (grown (entry_at t' j)) ≢ c
  Old-target t' j l lt' e old same =
      old_child t' j (rw (kept-level t' old.was) at l) lt' (sym (ap is_present old.same) ∙ e)
        (sym (ap child old.same) ∙ same)

  -- The levels below an entry of the grown tree.
  grown-below :
      (t' j : ℕ)
      → 2 ≤ grown_level t'
      → j < 512
      → is_present (grown (entry_at t' j)) ≡ true
      → grown_level (child (grown (entry_at t' j))) + 1 ≡ grown_level t'
  grown-below t' j l lt' e = elim (cases t' j l lt' e) [
    | inl (f, g) ↦
        let target : child (grown (entry_at t' j)) ≡ c = new_target t' j f g in
        let self : (c == c) ≡ true = ground arith in
        let level_of = kept-level t (omega arith) in
        let top : grown_level t' ≡ level t = rw f level_of in rw (target, top, self) (omega arith)
    | inr old ↦
        let top = kept-level t' old.was in
        let e' : is_present (mem (entry_at t' j)) ≡ true = sym (ap is_present old.same) ∙ e in
        let down = tree.below t' j (rw top at l) lt' e' in
        let l' : 2 ≤ level t' = rw top at l in
        let level_of = kept-level (child (mem (entry_at t' j))) (omega arith) in
        rw (old.same, top, level_of) down
  ]

  grown-aligned : (t' : ℕ) → 1 ≤ grown_level t' → t' % 4096 ≡ 0
  grown-aligned t' l = elim (Bool-cases (t' == c)) [
    | inl e ↦ let same : t' ≡ c = ground arith in rw same page
    | inr e ↦ tree.aligned t' (rw e at l)
  ]

  -- No two entries of the grown tree point to the same table.
  grown-unshared :
      (t1 i1 t2 i2 : ℕ)
      → 2 ≤ grown_level t1
      → 2 ≤ grown_level t2
      → i1 < 512
      → i2 < 512
      → is_present (grown (entry_at t1 i1)) ≡ true
      → is_present (grown (entry_at t2 i2)) ≡ true
      → child (grown (entry_at t1 i1)) ≡ child (grown (entry_at t2 i2))
      → (t1 ≡ t2) × (i1 ≡ i2)
  grown-unshared t1 i1 t2 i2 l1 l2 lt1 lt2 e1 e2 same = elim (cases t1 i1 l1 lt1 e1) [
    | inl (f1, g1) ↦ elim (cases t2 i2 l2 lt2 e2) [
      | inl (f2, g2) ↦ (f1 ∙ sym f2, g1 ∙ sym g2)
      | inr old ↦ absurd (Old-target t2 i2 l2 lt2 e2 old (sym same ∙ new_target t1 i1 f1 g1))
    ]
    | inr old ↦ elim (cases t2 i2 l2 lt2 e2) [
      | inl (f2, g2) ↦ absurd (Old-target t1 i1 l1 lt1 e1 old (same ∙ new_target t2 i2 f2 g2))
      | inr old' ↦
          tree.unshared t1 i1 t2 i2 (rw (kept-level t1 old.was) at l1)
            (rw (kept-level t2 old'.was) at l2) lt1 lt2 (sym (ap is_present old.same) ∙ e1)
            (sym (ap is_present old'.same) ∙ e2)
            (sym (ap child old.same) ∙ same ∙ ap child old'.same)
    ]
  ]

  grown-inside : (t' : ℕ) → 1 ≤ grown_level t' → t' < 2 ^ 64
  grown-inside t' l = elim (Bool-cases (t' == c)) [
    | inl e ↦ let same : t' ≡ c = ground arith in rw same inside
    | inr e ↦ tree.inside t' (rw e at l)
  ]

  grown-plain :
      (t' j : ℕ)
      → 2 ≤ grown_level t'
      → j < 512
      → is_present (grown (entry_at t' j)) ≡ true
      → grown (entry_at t' j) % 4096 < 512
  grown-plain t' j l lt' e = elim (cases t' j l lt' e) [
    | inl (f, g) ↦
        let there : grown (entry_at t' j) ≡ entry =
          ap (λ x. grown (entry_at x j)) f ∙ ap (λ x. grown (entry_at t x)) g ∙ made in
        rw there low
    | inr old ↦
        let l' : 2 ≤ level t' = rw (kept-level t' old.was) at l in
        rw old.same (tree.plain t' j l' lt' (sym (ap is_present old.same) ∙ e))
  ]

  pub grown-IsTree : IsTree grown grown_level pml4
  grown-IsTree = record {
    root = kept-level pml4 (rw tree.root (omega arith)) ∙ tree.root;
    top = λ x.
        let (high', high'') : (level t ≤ 4) × (level x ≤ 4) = (tree.top t, tree.top x) in
        ground arith;
    aligned = grown-aligned;
    inside = grown-inside;
    plain = grown-plain;
    below = grown-below;
    unshared = grown-unshared;
  }

  -- The new table maps nothing,
  empty-mapping : (k vaddr : ℕ) → mapping grown k c vaddr ≡ none
  unfolding table_of
  empty-mapping zero vaddr = rw (empty (index 1 vaddr) (index-lt 1 vaddr)) refl
  empty-mapping (suc k) vaddr =
      rw (empty (index (suc (suc k)) vaddr) (index-lt (suc (suc k)) vaddr)) refl

  -- so that no address is translated otherwise than before.
  pub grown-mapping :
      (k t' vaddr : ℕ) → level t' ≡ suc k → mapping grown k t' vaddr ≡ mapping mem k t' vaddr
  unfolding table_of
  grown-mapping zero t' vaddr l =
      rw (kept t' (index 1 vaddr) (omega arith) (index-lt 1 vaddr) (ground arith)) refl
  grown-mapping (suc k) t' vaddr l =
      let j = index (suc (suc k)) vaddr in
      let lt' = index-lt (suc (suc k)) vaddr in
      elim (Bool-cases ((t' == t) && (j == i))) [
        | inl f ↦
            let f1 : t' ≡ t = ground arith in
            let f2 : j ≡ i = ground arith in
            let there : grown (entry_at t' j) ≡ entry =
              ap (λ x. grown (entry_at x j)) f1 ∙ ap (λ x. grown (entry_at t x)) f2 ∙ made in
            let was : is_present (mem (entry_at t' j)) ≡ false =
              ap (λ x. is_present (mem (entry_at x j))) f1
              ∙ ap (λ x. is_present (mem (entry_at t x))) f2
              ∙ free in
            rw (there, present, to, was) (empty-mapping k vaddr)
        | inr f ↦
            let same = kept t' j (omega arith) lt' f in
            elim (Bool-cases (is_present (mem (entry_at t' j)))) [
              | inl e ↦
                  let down = tree.below t' j (omega arith) lt' e in
                  let rest = grown-mapping k (child (mem (entry_at t' j))) vaddr (omega arith) in
                  rw (same, e) rest
              | inr e ↦ rw (same, e) refl
            ]
      ]
