-- ===== src/Mm/Vmm/Drop.antt =====
-- A table of kernel/mm/vmm.c that is empty is given back with its page.
use aeolos.Base.{
  ℕ, ◌/◌, ◌%◌, ◌^◌, ◌<◌, ◌≤◌, ◌≡◌, ◌≢◌, refl, ap, ◌∙◌, true, false, ◌==◌, ◌&&◌, if◌then◌else◌,
  arith, Bool-cases, inl, inr,
}
use aeolos.Mm.Pmm.{virt_to_phys}
use aeolos.Mm.Pmm.Bitmap.{page_size}
use aeolos.Mm.Pmm.Bitmap.Loops.{IsBytes, page_free, within}
use aeolos.Mm.Pmm.Alloc.{pmm_free-page_free, pmm_free-limits}
use aeolos.Mm.Vmm.{Vmm, is_present, entry_at, all_zero, drop_table}
use aeolos.Mm.Vmm.Walk.{child, translate}
use aeolos.Mm.Vmm.Tree.{store-entry}
use aeolos.Mm.Vmm.Next.{IsValid}
use aeolos.Mm.Vmm.Shrink.{all_zero_lem, shrunk-IsTree, shrunk-mapping}

-- A valid state in which every address that is left is translated as before
pub record Keeps (s : Vmm) (pml4 : ℕ) (s' : Vmm) : Type 0 where
  pub valid : (level' : ℕ → ℕ) × IsValid s' level' pml4
  pub same : (vaddr : ℕ) → translate s'.mem pml4 vaddr ≡ translate s.mem pml4 vaddr
  pub flushed : s'.flushed ≡ s.flushed

-- Two tables are two pages.
apart :
    (x c : ℕ)
    → x % 4096 ≡ 0
    → c % 4096 ≡ 0
    → x < 2 ^ 64
    → c < 2 ^ 64
    → x ≢ c
    → within (virt_to_phys c) 1 (virt_to_phys x / page_size) ≡ false
apart x c a a' lt lt' other = ground arith

-- An empty table is given back.
module _ (s : Vmm) (level : ℕ → ℕ) (pml4 t i : ℕ) (v : IsValid s level pml4) (high : 2 ≤ level t)
    (lt : i < 512) (present : is_present (s.mem (entry_at t i)) ≡ true)
    (empty : all_zero 512 0 s.mem (child (s.mem (entry_at t i))) ≡ true) where
  abbrev pub c : ℕ
  c = child (s.mem (entry_at t i))

  abbrev pub dropped : Vmm
  dropped = drop_table (entry_at t i) c s

  abbrev pub dropped_level : ℕ → ℕ
  dropped_level x = if x == c then 0 else level x

  zeros : (j : ℕ) → j < 512 → s.mem (entry_at c j) ≡ 0
  zeros j lt' = all_zero_lem 512 0 s.mem c j empty (omega arith) (omega arith)

  freed :
      (p : ℕ)
      → IsBytes dropped.pmm.bitmap
        × (page_free dropped.pmm.bitmap p
            ≡ (if within (virt_to_phys c) 1 p then true else page_free s.pmm.bitmap p))
  freed p =
      let down = v.tree.below t i high lt present in
      let low = v.low c (omega arith) in
      let range = v.range in pmm_free-page_free s.pmm (virt_to_phys c) 1 p v.bytes (omega arith)

  other_table :
      (x : ℕ) → 1 ≤ dropped_level x → (x ≢ c) × (dropped_level x ≡ level x) × (1 ≤ level x)
  other_table x l = elim (Bool-cases (x == c)) [
    | inl e ↦ let low : 1 ≤ 0 = rw e at l in absurd (omega arith)
    | inr e ↦ (ground arith, rw e refl, rw e at l)
  ]

  dropped-used :
      (x : ℕ)
      → 1 ≤ dropped_level x
      → page_free dropped.pmm.bitmap (virt_to_phys x / page_size) ≡ false
  dropped-used x l =
      let (other, same, one) = other_table x l in
      let q = virt_to_phys x / page_size in
      let down = v.tree.below t i high lt present in
      let out =
        apart x c (v.tree.aligned x one) (v.tree.aligned c (omega arith)) (v.tree.inside x one)
          (v.tree.inside c (omega arith)) other in
      (freed q).1 ∙ rw out (v.used x one)

  pub dropped-IsValid : IsValid dropped dropped_level pml4
  dropped-IsValid = record {
    tree = shrunk-IsTree s.mem level pml4 v.tree t i high lt present zeros;
    bytes = (freed 0).0;
    start = (pmm_free-limits s.pmm (virt_to_phys c) 1).1 ∙ v.start;
    range = rw (pmm_free-limits s.pmm (virt_to_phys c) 1).0 v.range;
    low = λ x l.
        let (other, same, one) = other_table x l in
        rw (pmm_free-limits s.pmm (virt_to_phys c) 1).0 (v.low x one);
    used = dropped-used;
  }

  pub drop_table-Keeps : Keeps s pml4 dropped
  drop_table-Keeps = record {
    valid = (dropped_level, dropped-IsValid);
    same = λ vaddr.
        shrunk-mapping s.mem level pml4 v.tree t i high lt present zeros 3 pml4 vaddr v.tree.root;
    flushed = refl;
  }

  -- The other tables' entries
  pub dropped-entry :
      (t' j : ℕ)
      → 1 ≤ level t'
      → j < 512
      → t' ≢ t
      → dropped.mem (entry_at t' j) ≡ s.mem (entry_at t' j)
  dropped-entry t' j l lt' other =
      let off : ((t' == t) && (j == i)) ≡ false = ground arith in
      store-entry s.mem t i t' j 0 (v.tree.aligned t (omega arith)) (v.tree.aligned t' l) lt lt'
      ∙ rw off refl

  pub dropped-level : (x : ℕ) → level x ≢ level c → dropped_level x ≡ level x
  dropped-level x other =
      let apart : x ≢ c = λ same. other (ap level same) in
      let off : (x == c) ≡ false = ground arith in rw off refl
