-- ===== src/Mm/Vmm/Shrink.antt =====
-- A table of kernel/mm/vmm.c that is empty is taken out of the tree: the tree stays one, and no
-- address is translated otherwise than before.
use aeolos.Base.{
  ℕ, zero, suc, ◌+◌, ◌<◌, ◌≤◌, ◌≡◌, ◌≢◌, refl, sym, ap, ◌∙◌, true, false, ◌==◌, ◌&&◌, if◌then◌else◌,
  none, arith, Bool-cases, inl, inr,
}
use aeolos.Mm.Vmm.{is_present, index, entry_at, store, all_zero}
use aeolos.Mm.Vmm.Walk.{child, table_of, mapping, index-lt}
use aeolos.Mm.Vmm.Tree.{IsTree, store-entry}

-- The loop over a table finds whether it is empty.
pub all_zero_lem :
    (fuel i : ℕ) (mem : ℕ → ℕ) (table j : ℕ)
    → all_zero fuel i mem table ≡ true
    → i ≤ j
    → j < i + fuel
    → mem (entry_at table j) ≡ 0
unfolding all_zero
all_zero_lem zero i mem table j e le lt = absurd (omega arith)
all_zero_lem (suc fuel) i mem table j e le lt = elim (Bool-cases (mem (entry_at table i) == 0)) [
  | inr f ↦ let nothing : false ≡ true = rw f at e in cc
  | inl f ↦ elim (Bool-cases (j == i)) [
    | inl g ↦ let same : j ≡ i = ground arith in rw same (ground arith)
    | inr g ↦ all_zero_lem fuel (suc i) mem table j (rw f at e) (ground arith) (omega arith)
  ]
]

module _ (mem : ℕ → ℕ) (level : ℕ → ℕ) (pml4 : ℕ) (tree : IsTree mem level pml4) (t i : ℕ)
    (high : 2 ≤ level t) (lt : i < 512) (present : is_present (mem (entry_at t i)) ≡ true)
    (empty : (j : ℕ) → j < 512 → mem (entry_at (child (mem (entry_at t i))) j) ≡ 0) where
  abbrev c : ℕ
  c = child (mem (entry_at t i))

  abbrev pub shrunk : ℕ → ℕ
  shrunk = store mem (entry_at t i) 0

  abbrev pub shrunk_level : ℕ → ℕ
  shrunk_level x = if x == c then 0 else level x

  shrunk-entry :
      (t' j : ℕ)
      → 1 ≤ level t'
      → j < 512
      → shrunk (entry_at t' j) ≡ (if (t' == t) && (j == i) then 0 else mem (entry_at t' j))
  shrunk-entry t' j l lt' =
      store-entry mem t i t' j 0 (tree.aligned t (omega arith)) (tree.aligned t' l) lt lt'

  other_table : (x : ℕ) → 1 ≤ shrunk_level x → (x ≢ c) × (shrunk_level x ≡ level x) × (1 ≤ level x)
  other_table x l = elim (Bool-cases (x == c)) [
    | inl e ↦ let low : 1 ≤ 0 = rw e at l in absurd (omega arith)
    | inr e ↦ (ground arith, rw e refl, rw e at l)
  ]

  -- An entry that is still present was there, and it points to another table.
  record Still (t' j : ℕ) : Type 0 where
    was : is_present (mem (entry_at t' j)) ≡ true
    same : shrunk (entry_at t' j) ≡ mem (entry_at t' j)
    apart : child (mem (entry_at t' j)) ≢ c

  still :
      (t' j : ℕ) → 2 ≤ level t' → j < 512 → is_present (shrunk (entry_at t' j)) ≡ true → Still t' j
  still t' j l lt' e = elim (Bool-cases ((t' == t) && (j == i))) [
    | inl f ↦
        let gone : shrunk (entry_at t' j) ≡ 0 = shrunk-entry t' j (omega arith) lt' ∙ rw f refl in
        absurd (ground (arith, ap is_present gone))
    | inr f ↦
        let same : shrunk (entry_at t' j) ≡ mem (entry_at t' j) =
          shrunk-entry t' j (omega arith) lt' ∙ rw f refl in
        let was = sym (ap is_present same) ∙ e in
        record {
          was = was;
          same = same;
          apart = λ there.
              let (tables, indices) = tree.unshared t' j t i l high lt' lt was present there in
              ground arith;
        }
  ]

  pub shrunk-IsTree : IsTree shrunk shrunk_level pml4
  shrunk-IsTree =
      let down = tree.below t i high lt present in
      record {
        root =
            let low = tree.top t in
            let other : pml4 ≢ c = λ same. ground (arith, tree.root, ap level same) in
            let off : (pml4 == c) ≡ false = ground arith in rw off tree.root;
        top = λ x. let low = tree.top x in ground arith;
        aligned = λ x l. tree.aligned x (other_table x l).2;
        inside = λ x l. tree.inside x (other_table x l).2;
        plain = λ x j l lt' e.
            let (other, same, one) = other_table x (omega arith) in
            let s = still x j (rw same at l) lt' e in
            rw s.same (tree.plain x j (rw same at l) lt' s.was);
        below = λ x j l lt' e.
            let (other, same, one) = other_table x (omega arith) in
            let s = still x j (rw same at l) lt' e in
            let next = tree.below x j (rw same at l) lt' s.was in
            let apart = s.apart in
            let off : (child (mem (entry_at x j)) == c) ≡ false = ground arith in
            rw (s.same, same, off) next;
        unshared = λ x j x' j' l l' lt' lt'' e e' both.
            let (other, same, one) = other_table x (omega arith) in
            let (other', same', one') = other_table x' (omega arith) in
            let s = still x j (rw same at l) lt' e in
            let s' = still x' j' (rw same' at l') lt'' e' in
            tree.unshared x j x' j' (rw same at l) (rw same' at l') lt' lt'' s.was s'.was
              (sym (ap child s.same) ∙ both ∙ ap child s'.same);
      }

  -- An empty table maps nothing,
  empty-mapping : (k vaddr : ℕ) → mapping mem k c vaddr ≡ none
  unfolding table_of
  empty-mapping zero vaddr = rw (empty (index 1 vaddr) (index-lt 1 vaddr)) refl
  empty-mapping (suc k) vaddr =
      rw (empty (index (suc (suc k)) vaddr) (index-lt (suc (suc k)) vaddr)) refl

  -- so that no address is translated otherwise than before.
  pub shrunk-mapping :
      (k t' vaddr : ℕ) → level t' ≡ suc k → mapping shrunk k t' vaddr ≡ mapping mem k t' vaddr
  unfolding table_of
  shrunk-mapping zero t' vaddr l =
      let off : ((t' == t) && (index 1 vaddr == i)) ≡ false = ground arith in
      let same : shrunk (entry_at t' (index 1 vaddr)) ≡ mem (entry_at t' (index 1 vaddr)) =
        shrunk-entry t' (index 1 vaddr) (omega arith) (index-lt 1 vaddr) ∙ rw off refl in
      rw same refl
  shrunk-mapping (suc k) t' vaddr l =
      let j = index (suc (suc k)) vaddr in
      let lt' = index-lt (suc (suc k)) vaddr in
      let now = shrunk-entry t' j (omega arith) lt' in
      elim (Bool-cases ((t' == t) && (j == i))) [
        | inl f ↦
            let gone : shrunk (entry_at t' j) ≡ 0 = now ∙ rw f refl in
            let f1 : t' ≡ t = ground arith in
            let f2 : j ≡ i = ground arith in
            let was : mem (entry_at t' j) ≡ mem (entry_at t i) =
              ap (λ x. mem (entry_at x j)) f1 ∙ ap (λ x. mem (entry_at t x)) f2 in
            rw (gone, was, present) (sym (empty-mapping k vaddr))
        | inr f ↦
            let same : shrunk (entry_at t' j) ≡ mem (entry_at t' j) = now ∙ rw f refl in
            elim (Bool-cases (is_present (mem (entry_at t' j)))) [
              | inl e ↦
                  let next = tree.below t' j (omega arith) lt' e in
                  let rest = shrunk-mapping k (child (mem (entry_at t' j))) vaddr (omega arith) in
                  rw (same, e) rest
              | inr e ↦ rw (same, e) refl
            ]
      ]
