-- ===== src/Mm/Vmm/Tree.antt =====
-- The tables of kernel/mm/vmm.c are a tree: what that is, and what a write to one entry changes.
use aeolos.Base.{
  ℕ, zero, suc, ◌+◌, ◌%◌, ◌^◌, ◌<◌, ◌≤◌, ◌≡◌, true, false, leb, ltb, ◌==◌, ◌&&◌, if◌then◌else◌,
  none, some, arith, Bool-cases, inl, inr,
}
use aeolos.Mm.Pmm.Bitmap.{page_size}
use aeolos.Mm.Vmm.{is_present, index, entry_at, store, clear}
use aeolos.Mm.Vmm.Walk.{child, table_of, index-lt}

-- The tables, by level: 4 is the PML4, 1 a page table, and 0 what is no table. They are pages of the
-- address space, an
-- entry that is present points to a table one level down with flags below 512, and no two point to
-- the same.
pub record IsTree (mem : ℕ → ℕ) (level : ℕ → ℕ) (pml4 : ℕ) : Type 0 where
  pub root : level pml4 ≡ 4
  pub top : (t : ℕ) → level t ≤ 4
  pub aligned : (t : ℕ) → 1 ≤ level t → t % 4096 ≡ 0
  pub inside : (t : ℕ) → 1 ≤ level t → t < 2 ^ 64
  pub plain :
      (t i : ℕ)
      → 2 ≤ level t
      → i < 512
      → is_present (mem (entry_at t i)) ≡ true
      → mem (entry_at t i) % 4096 < 512
  pub below :
      (t i : ℕ)
      → 2 ≤ level t
      → i < 512
      → is_present (mem (entry_at t i)) ≡ true
      → level (child (mem (entry_at t i))) + 1 ≡ level t
  pub unshared :
      (t i t' i' : ℕ)
      → 2 ≤ level t
      → 2 ≤ level t'
      → i < 512
      → i' < 512
      → is_present (mem (entry_at t i)) ≡ true
      → is_present (mem (entry_at t' i')) ≡ true
      → child (mem (entry_at t i)) ≡ child (mem (entry_at t' i'))
      → (t ≡ t') × (i ≡ i')

-- A write of an entry, seen from the entries.
pub store-entry :
    (mem : ℕ → ℕ) (t i t' j x : ℕ)
    → t % 4096 ≡ 0
    → t' % 4096 ≡ 0
    → i < 512
    → j < 512
    → store mem (entry_at t i) x (entry_at t' j)
      ≡ (if (t' == t) && (j == i) then x else mem (entry_at t' j))
store-entry mem t i t' j x a a' lt lt' = elim (Bool-cases ((t' == t) && (j == i))) [
  | inl e ↦ let at : (entry_at t' j == entry_at t i) ≡ true = ground arith in rw (e, at)
  | inr e ↦ let off : (entry_at t' j == entry_at t i) ≡ false = ground arith in rw (e, off)
]

-- A table that is cleared, seen from the entries.
pub clear-entry :
    (mem : ℕ → ℕ) (c t j : ℕ)
    → c % 4096 ≡ 0
    → t % 4096 ≡ 0
    → j < 512
    → clear mem c (entry_at t j) ≡ (if t == c then 0 else mem (entry_at t j))
clear-entry mem c t j a a' lt = elim (Bool-cases (t == c)) [
  | inl e ↦
      let at : (leb c (entry_at t j) && ltb (entry_at t j) (c + page_size)) ≡ true = ground arith in
      rw (e, at)
  | inr e ↦
      let off : (leb c (entry_at t j) && ltb (entry_at t j) (c + page_size)) ≡ false =
        ground arith in
      rw (e, off)
]

-- The tables on the way from a table down are one level further down each.
pub table_of-level :
    (mem : ℕ → ℕ) (level : ℕ → ℕ) (pml4 : ℕ)
    → IsTree mem level pml4
    → (k t vaddr p : ℕ) → level t ≡ suc k
    → table_of mem k t vaddr ≡ some p
    → level p ≡ 1
unfolding table_of
table_of-level mem level pml4 tree zero t vaddr p l e = let same : t ≡ p = cc in rw (← same) l
table_of-level mem level pml4 tree (suc k) t vaddr p l e =
    let i = index (suc (suc k)) vaddr in
    elim (Bool-cases (is_present (mem (entry_at t i)))) [
      | inl f ↦
          let down = tree.below t i (omega arith) (index-lt (suc (suc k)) vaddr) f in
          table_of-level mem level pml4 tree k (child (mem (entry_at t i))) vaddr p (omega arith)
            (rw f at e)
      | inr f ↦ let nothing : none ≡ some p = rw f at e in cc
    ]

-- Two addresses have the same indices at the levels from 2 to `k + 1`.
abbrev pub SameIndices : ℕ → ℕ → ℕ → Type 0
SameIndices zero v w = Unit {0}
SameIndices (suc k) v w = (index (suc (suc k)) v ≡ index (suc (suc k)) w) × SameIndices k v w

-- Two ways that end at the same page table are the same.
pub same_path :
    (mem : ℕ → ℕ) (level : ℕ → ℕ) (pml4 : ℕ)
    → IsTree mem level pml4
    → (k t t' v w p : ℕ) → level t ≡ suc k
    → level t' ≡ suc k
    → table_of mem k t v ≡ some p
    → table_of mem k t' w ≡ some p
    → (t ≡ t') × SameIndices k v w
unfolding table_of
same_path mem level pml4 tree zero t t' v w p l l' e e' = (cc, tt)
same_path mem level pml4 tree (suc k) t t' v w p l l' e e' =
    let i = index (suc (suc k)) v in
    let j = index (suc (suc k)) w in
    let lt = index-lt (suc (suc k)) v in
    let lt' = index-lt (suc (suc k)) w in
    elim (Bool-cases (is_present (mem (entry_at t i)))) [
      | inr f ↦ let nothing : none ≡ some p = rw f at e in cc
      | inl f ↦ elim (Bool-cases (is_present (mem (entry_at t' j)))) [
        | inr g ↦ let nothing : none ≡ some p = rw g at e' in cc
        | inl g ↦
            let down = tree.below t i (omega arith) lt f in
            let down' = tree.below t' j (omega arith) lt' g in
            let (same, rest) =
              same_path mem level pml4 tree k (child (mem (entry_at t i)))
                (child (mem (entry_at t' j))) v w p (omega arith) (omega arith) (rw f at e)
                (rw g at e') in
            let (tables, indices) =
              tree.unshared t i t' j (omega arith) (omega arith) lt lt' f g same in
            (tables, (indices, rest))
      ]
    ]
