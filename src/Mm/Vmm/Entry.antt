-- ===== src/Mm/Vmm/Entry.antt =====
-- The last write of `map_page` of kernel/mm/vmm.c, the entry of the page itself: what it changes in
-- the translations.
use aeolos.Base.{
  ℕ, zero, suc, ◌/◌, ◌%◌, ◌^◌, ◌<◌, ◌≤◌, ◌≡◌, ◌≢◌, refl, ap, ◌∙◌, true, false, ◌==◌, ◌&&◌,
  if◌then◌else◌, Option, none, some, arith, Bool-cases, Option-cases, inl, inr,
}
use aeolos.Mm.Vmm.{is_present, index, entry_at, store}
use aeolos.Mm.Vmm.Walk.{child, table_of, translate, index-lt}
use aeolos.Mm.Vmm.Tree.{IsTree, store-entry, table_of-level, SameIndices, same_path}

-- The number of an address's page: 36 bits of it are looked up.
abbrev pub page_number : ℕ → ℕ
page_number vaddr = vaddr / 0x1000 % 2 ^ 36

page_number-SameIndices :
    (v w : ℕ) → SameIndices 3 v w → index 1 v ≡ index 1 w → page_number v ≡ page_number w
page_number-SameIndices v w (e4, (e3, (e2, e0))) e1 = omega arith

abbrev entry_of : ℕ → Option ℕ
entry_of e = if is_present e then some e else none

module _ (mem : ℕ → ℕ) (level : ℕ → ℕ) (pml4 : ℕ) (tree : IsTree mem level pml4) (pt v x : ℕ)
    (leaf : level pt ≡ 1) where
  abbrev written : ℕ → ℕ
  written = store mem (entry_at pt (index 1 v)) x

  written-entry :
      (t j : ℕ)
      → 1 ≤ level t
      → j < 512
      → written (entry_at t j) ≡ (if (t == pt) && (j == index 1 v) then x else mem (entry_at t j))
  written-entry t j l lt =
      store-entry mem pt (index 1 v) t j x (tree.aligned pt (omega arith)) (tree.aligned t l)
        (index-lt 1 v) lt

  pub upper : (t j : ℕ) → 2 ≤ level t → j < 512 → written (entry_at t j) ≡ mem (entry_at t j)
  upper t j l lt =
      let other : t ≢ pt = λ same. ground (arith, ap level same) in
      let off : (t == pt) ≡ false = ground arith in written-entry t j (omega arith) lt ∙ rw off refl

  pub written-IsTree : IsTree written level pml4
  written-IsTree = record {
    root = tree.root;
    top = tree.top;
    aligned = tree.aligned;
    inside = tree.inside;
    plain = λ t i l lt e. let same = upper t i l lt in rw same (tree.plain t i l lt (rw same at e));
    below = λ t i l lt e. rw (upper t i l lt) (tree.below t i l lt (rw (upper t i l lt) at e));
    unshared = λ t i t' i' l l' lt lt' e e' same.
        tree.unshared t i t' i' l l' lt lt' (rw (upper t i l lt) at e)
          (rw (upper t' i' l' lt') at e') (rw (upper t i l lt, upper t' i' l' lt') at same);
  }

  written-table_of : (k t w : ℕ) → level t ≡ suc k → table_of written k t w ≡ table_of mem k t w
  unfolding table_of
  written-table_of zero t w l = refl
  written-table_of (suc k) t w l =
      let i = index (suc (suc k)) w in
      let same = upper t i (omega arith) (index-lt (suc (suc k)) w) in
      elim (Bool-cases (is_present (mem (entry_at t i)))) [
        | inl e ↦
            let down = tree.below t i (omega arith) (index-lt (suc (suc k)) w) e in
            rw (same, e) (written-table_of k (child (mem (entry_at t i))) w (omega arith))
        | inr e ↦ rw (same, e) refl
      ]

  -- The page that is written,
  pub written-translate :
      table_of mem 3 pml4 v ≡ some pt → is_present x ≡ true → translate written pml4 v ≡ some x
  written-translate path present =
      let at : (pt == pt) && (index 1 v == index 1 v) ≡ true = ground arith in
      let there : written (entry_at pt (index 1 v)) ≡ x =
        written-entry pt (index 1 v) (omega arith) (index-lt 1 v) ∙ rw at refl in
      let whole : entry_of x ≡ some x = rw present refl in
      rw (written-table_of 3 pml4 v tree.root, path) (ap entry_of there ∙ whole)

  pub written-none :
      table_of mem 3 pml4 v ≡ some pt → is_present x ≡ false → translate written pml4 v ≡ none
  written-none path absent =
      let at : (pt == pt) && (index 1 v == index 1 v) ≡ true = ground arith in
      let there : written (entry_at pt (index 1 v)) ≡ x =
        written-entry pt (index 1 v) (omega arith) (index-lt 1 v) ∙ rw at refl in
      let whole : entry_of x ≡ none = rw absent refl in
      rw (written-table_of 3 pml4 v tree.root, path) (ap entry_of there ∙ whole)

  elsewhere :
      (w p : ℕ)
      → table_of mem 3 pml4 v ≡ some pt
      → table_of mem 3 pml4 w ≡ some p
      → page_number w ≢ page_number v
      → written (entry_at p (index 1 w)) ≡ mem (entry_at p (index 1 w))
  elsewhere w p path e other =
      let down = table_of-level mem level pml4 tree 3 pml4 w p tree.root e in
      written-entry p (index 1 w) (omega arith) (index-lt 1 w)
      ∙ elim (Bool-cases ((p == pt) && (index 1 w == index 1 v))) [
        | inr f ↦ rw f refl
        | inl f ↦
            let same : p ≡ pt = ground arith in
            let low : index 1 w ≡ index 1 v = ground arith in
            let (tops, indices) =
              same_path mem level pml4 tree 3 pml4 pml4 w v pt tree.root tree.root
                (e ∙ ap some same) path in
            absurd (other (page_number-SameIndices w v indices low))
      ]

  -- and every other.
  pub written-other :
      (w : ℕ)
      → table_of mem 3 pml4 v ≡ some pt
      → page_number w ≢ page_number v
      → translate written pml4 w ≡ translate mem pml4 w
  written-other w path other = elim (Option-cases (table_of mem 3 pml4 w)) [
    | inl e ↦ rw (written-table_of 3 pml4 w tree.root, e) refl
    | inr (p, e) ↦
        rw (written-table_of 3 pml4 w tree.root, e) (ap entry_of (elsewhere w p path e other))
  ]
