-- ===== src/Mm/Vmm/Next.antt =====
-- One step down in `map_page` of kernel/mm/vmm.c: the tables with the pages they stand in.
use aeolos.Base.{
  ℕ, suc, ◌+◌, ◌-◌, ◌*◌, ◌/◌, ◌%◌, ◌^◌, ◌<◌, ◌≤◌, ◌≡◌, ◌≢◌, refl, ap, ◌∙◌, true, false, leb, ◌==◌,
  ◌&&◌, if◌then◌else◌, Option, none, some, arith, Bool-cases, Option-cases, inl, inr, ◌⊎◌,
}
use aeolos.Mm.Pmm.{Pmm, pmm_get, phys_to_virt, virt_to_phys}
use aeolos.Mm.Pmm.Bitmap.{page_size}
use aeolos.Mm.Pmm.Bitmap.Loops.{IsBytes, page_free}
use aeolos.Mm.Vmm.{
  Vmm, is_present, entry_at, store, clear, make_table_entry, vmm_flags_usermode, next_table,
}
use aeolos.Mm.Vmm.Walk.{child, mapping}
use aeolos.Mm.Vmm.Tree.{IsTree}
use aeolos.Mm.Vmm.Grow.{grown-IsTree, grown-mapping, kept}
use aeolos.Mm.Vmm.Fresh.{IsFree, Fresh, fresh, full, virt_to_phys_lem, child-entry}

-- The tables are a tree, and the page of each is in use. No page has been handed out by position
-- (`last_used_page` is never written), and the physical memory ends before the address space does.
pub record IsValid (s : Vmm) (level : ℕ → ℕ) (pml4 : ℕ) : Type 0 where
  pub tree : IsTree s.mem level pml4
  pub bytes : IsBytes s.pmm.bitmap
  pub start : s.pmm.last_used_page ≡ 0
  pub range : s.pmm.phys_limit + 2 * page_size < 2 ^ 64
  pub low : (t : ℕ) → 1 ≤ level t → virt_to_phys t < s.pmm.phys_limit
  pub used : (t : ℕ) → 1 ≤ level t → page_free s.pmm.bitmap (virt_to_phys t / page_size) ≡ false

-- What one step keeps: the tables there are, the entries that are present, and every translation.
pub record Extends (s : Vmm) (level : ℕ → ℕ) (s' : Vmm) (level' : ℕ → ℕ) : Type 0 where
  pub levels : (t : ℕ) → 1 ≤ level t → level' t ≡ level t
  pub entries :
      (t j : ℕ)
      → 1 ≤ level t
      → j < 512
      → is_present (s.mem (entry_at t j)) ≡ true
      → s'.mem (entry_at t j) ≡ s.mem (entry_at t j)
  pub lookups :
      (k t vaddr : ℕ) → level t ≡ suc k → mapping s'.mem k t vaddr ≡ mapping s.mem k t vaddr

-- A step down where no table is: a page is taken for one.
module _ (s : Vmm) (level : ℕ → ℕ) (pml4 t i a : ℕ) (pmm : Pmm) (v : IsValid s level pml4)
    (high : 2 ≤ level t) (lt : i < 512) (free : is_present (s.mem (entry_at t i)) ≡ false)
    (got : Fresh s.pmm a pmm) where
  abbrev table : ℕ
  table = phys_to_virt a

  abbrev entry : ℕ
  entry = make_table_entry (virt_to_phys table) vmm_flags_usermode

  abbrev next : Vmm
  next = record s { mem = store (clear s.mem table) (entry_at t i) entry; pmm = pmm }

  abbrev next_level : ℕ → ℕ
  next_level x = if x == table then level t - 1 else level x

  small : a < 2 ^ 64
  small = let below = got.low in let range = v.range in omega arith

  unused : level table ≡ 0
  unused = elim (Bool-cases (leb 1 (level table))) [
    | inl e ↦
        let in_use = v.used table (ground arith) in
        absurd (ground (arith, virt_to_phys_lem a small, got.free))
    | inr e ↦ ground arith
  ]

  aligned : table % 4096 ≡ 0
  aligned = let page = got.page in omega arith

  inside : table < 2 ^ 64
  inside = omega arith

  next-IsTree : IsTree next.mem next_level pml4
  next-IsTree =
      let (present, to, flags) = child-entry a got.page small in
      grown-IsTree s.mem level pml4 v.tree t i table entry high lt free unused aligned inside flags
        present to

  next-mapping :
      (k t' vaddr : ℕ) → level t' ≡ suc k → mapping next.mem k t' vaddr ≡ mapping s.mem k t' vaddr
  next-mapping k t' vaddr l =
      let (present, to, flags) = child-entry a got.page small in
      grown-mapping s.mem level pml4 v.tree t i table entry high lt free unused aligned inside flags
        present to k t' vaddr l

  next-low : (t' : ℕ) → 1 ≤ next_level t' → virt_to_phys t' < pmm.phys_limit
  next-low t' l = elim (Bool-cases (t' == table)) [
    | inl e ↦
        let same : t' ≡ table = ground arith in
        rw (same, virt_to_phys_lem a small, got.same.0) got.low
    | inr e ↦ rw got.same.0 (v.low t' (rw e at l))
  ]

  next-used :
      (t' : ℕ) → 1 ≤ next_level t' → page_free pmm.bitmap (virt_to_phys t' / page_size) ≡ false
  next-used t' l =
      let q = virt_to_phys t' / page_size in
      got.now.1 q ∙ elim (Bool-cases (q == a / page_size)) [
        | inl e ↦ rw e refl
        | inr e ↦
            let back = virt_to_phys_lem a small in
            let other : t' ≢ table =
              λ same. ground (arith, ap (λ x. virt_to_phys x / page_size) same, back) in
            let off : (t' == table) ≡ false = ground arith in rw e (v.used t' (rw off at l))
      ]

  next-IsValid : IsValid next next_level pml4
  next-IsValid = record {
    tree = next-IsTree;
    bytes = got.now.0;
    start = got.same.1 ∙ v.start;
    range = rw got.same.0 v.range;
    low = next-low;
    used = next-used;
  }

  next-entry :
      (is_present (next.mem (entry_at t i)) ≡ true) × (child (next.mem (entry_at t i)) ≡ table)
  next-entry =
      let self : (entry_at t i == entry_at t i) ≡ true = ground arith in
      let (present, to, flags) = child-entry a got.page small in rw self (present, to)

  next-kept :
      (t' j : ℕ)
      → 1 ≤ level t'
      → j < 512
      → is_present (s.mem (entry_at t' j)) ≡ true
      → next.mem (entry_at t' j) ≡ s.mem (entry_at t' j)
  next-kept t' j l lt' e =
      let (present, to, flags) = child-entry a got.page small in
      elim (Bool-cases ((t' == t) && (j == i))) [
        | inl f ↦
            let f1 : t' ≡ t = ground arith in
            let f2 : j ≡ i = ground arith in
            let was : is_present (s.mem (entry_at t i)) ≡ true = rw (← f1, ← f2) e in
            absurd (ground (arith, was, free))
        | inr f ↦
            kept s.mem level pml4 v.tree t i table entry high lt free unused aligned inside flags
              present to t' j l lt' f
      ]

  next-pages : (q : ℕ) → IsFree s.pmm q → IsFree pmm q ⊎ (q ≡ a / page_size)
  next-pages q (lt', f) = elim (Bool-cases (q == a / page_size)) [
    | inl e ↦ inr (ground arith)
    | inr e ↦ let now = got.now.1 q in inl (rw got.same.0 lt', now ∙ rw e f)
  ]

  next-Extends : Extends s level next next_level
  next-Extends = record {
    levels = λ t' l.
        let off : t' ≢ table = λ same. ground (arith, ap level same, unused) in
        let off' : (t' == table) ≡ false = ground arith in rw off' refl;
    entries = next-kept;
    lookups = next-mapping;
  }

pub Extends-trans :
    (s s1 s2 : Vmm) (level level1 level2 : ℕ → ℕ)
    → Extends s level s1 level1
    → Extends s1 level1 s2 level2
    → Extends s level s2 level2
Extends-trans s s1 s2 level level1 level2 x y = record {
  levels = λ t l. y.levels t (rw (x.levels t l) l) ∙ x.levels t l;
  entries = λ t j l lt e.
      y.entries t j (rw (x.levels t l) l) lt (ap is_present (x.entries t j l lt e) ∙ e)
      ∙ x.entries t j l lt e;
  lookups =
      λ k t vaddr l. y.lookups k t vaddr (x.levels t (omega arith) ∙ l) ∙ x.lookups k t vaddr l;
}

-- What `next_table` gives for an entry: one step down, or no page is left.
pub record Down (s : Vmm) (level : ℕ → ℕ) (pml4 t i : ℕ) (c : ℕ) (s' : Vmm) : Type 0 where
  pub level' : ℕ → ℕ
  pub valid : IsValid s' level' pml4
  pub extends : Extends s level s' level'
  pub lower : level' c + 1 ≡ level t
  pub present : is_present (s'.mem (entry_at t i)) ≡ true
  pub to : child (s'.mem (entry_at t i)) ≡ c
  pub flushed : s'.flushed ≡ s.flushed
  pub limit : s'.pmm.phys_limit ≡ s.pmm.phys_limit
  pub pages : (a : ℕ) × ((q : ℕ) → IsFree s.pmm q → IsFree s'.pmm q ⊎ (q ≡ a))

there-Down :
    (s : Vmm) (level : ℕ → ℕ) (pml4 t i : ℕ)
    → IsValid s level pml4
    → 2 ≤ level t
    → i < 512
    → is_present (s.mem (entry_at t i)) ≡ true
    → Down s level pml4 t i (child (s.mem (entry_at t i))) s
there-Down s level pml4 t i v high lt e = record {
  level' = level;
  valid = v;
  extends = record {
    levels = λ t' l. refl;
    entries = λ t' j l lt' e. refl;
    lookups = λ k t' vaddr l. refl;
  };
  lower = v.tree.below t i high lt e;
  present = e;
  to = refl;
  flushed = refl;
  limit = refl;
  pages = (0, λ q f. inl f);
}

abbrev pub Outcome : Vmm → (ℕ → ℕ) → ℕ → ℕ → ℕ → Option (ℕ × Vmm) → Type 0
Outcome s level pml4 t i none = (q : ℕ) → ¬ IsFree s.pmm q
Outcome s level pml4 t i (some (c, s')) = Down s level pml4 t i c s'

-- `next_table`, in both cases
pub next_table-Outcome :
    (s : Vmm) (level : ℕ → ℕ) (pml4 t i : ℕ)
    → IsValid s level pml4
    → 2 ≤ level t
    → i < 512
    → Outcome s level pml4 t i (next_table s (entry_at t i))
unfolding next_table
next_table-Outcome s level pml4 t i v high lt =
    elim (Bool-cases (is_present (s.mem (entry_at t i)))) [
      | inl e ↦ rw e (there-Down s level pml4 t i v high lt e)
      | inr e ↦ elim (Option-cases (pmm_get s.pmm 1)) [
        | inl f ↦ rw (e, f) (full s.pmm v.bytes v.start v.range f)
        | inr ((a, pmm), f) ↦
            let got = fresh s.pmm a pmm v.bytes v.start v.range f in
            rw (e, f)
              (record {
                level' = next_level s level pml4 t i a pmm v high lt e got;
                valid = next-IsValid s level pml4 t i a pmm v high lt e got;
                extends = next-Extends s level pml4 t i a pmm v high lt e got;
                lower =
                    (let self : (phys_to_virt a == phys_to_virt a) ≡ true = ground arith in
                      rw self (omega arith));
                present = (next-entry s level pml4 t i a pmm v high lt e got).0;
                to = (next-entry s level pml4 t i a pmm v high lt e got).1;
                flushed = refl;
                limit = got.same.0;
                pages = (a / page_size, next-pages s level pml4 t i a pmm v high lt e got);
              })
      ]
    ]
