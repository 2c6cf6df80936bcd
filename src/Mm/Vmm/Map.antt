-- ===== src/Mm/Vmm/Map.antt =====
-- `map_page` of kernel/mm/vmm.c maps the page, and no other page is mapped otherwise than before.
use aeolos.Base.{
  ℕ, suc, ◌%◌, ◌<◌, ◌≤◌, ◌≡◌, ◌≢◌, refl, ap, ◌∙◌, true, ◌==◌, if◌then◌else◌, List, [], ◌∷◌, ◌++◌,
  Option, none, some, arith, Bool-cases, Option-cases, inl, inr, ◌⊎◌,
}
use aeolos.Mm.Pmm.{Pmm, virt_to_phys}
use aeolos.Mm.Vmm.{
  Vmm, page_of, is_present, index, entry_at, store, make_table_entry, next_table, set_page_entry,
  map_page,
}
use aeolos.Mm.Vmm.Walk.{child, table_of, translate, index-lt}
use aeolos.Mm.Vmm.Fresh.{IsFree}
use aeolos.Mm.Vmm.Next.{IsValid, Extends, Extends-trans, Down, next_table-Outcome}
use aeolos.Mm.Vmm.Entry.{page_number, written-IsTree, written-translate, written-other}

-- What `map_page` should do to the translations,
pub record Maps (s : Vmm) (cr3 pml4 vaddr paddr flags : ℕ) (s' : Vmm) : Type 0 where
  pub valid : (level' : ℕ → ℕ) × IsValid s' level' pml4
  pub limit : s'.pmm.phys_limit ≡ s.pmm.phys_limit
  pub mapped : translate s'.mem pml4 vaddr ≡ some (make_table_entry paddr flags)
  pub exact :
      (page_of (make_table_entry paddr flags) ≡ page_of paddr)
      × (make_table_entry paddr flags % 4096 ≡ flags)
  pub others :
      (w : ℕ) → page_number w ≢ page_number vaddr → translate s'.mem pml4 w ≡ translate s.mem pml4 w
  pub flushed :
      s'.flushed ≡ (if cr3 == virt_to_phys pml4 then s.flushed ++ (vaddr ∷ []) else s.flushed)

-- and when it may fail: at most two pages are free.
abbrev pub AtMostTwo : Pmm → Type 0
AtMostTwo s = (a b : ℕ) × ((q : ℕ) → IsFree s q → (q ≡ a) ⊎ (q ≡ b))

abbrev pub MapOutcome : Vmm → ℕ → ℕ → ℕ → ℕ → ℕ → Option Vmm → Type 0
MapOutcome s cr3 pml4 vaddr paddr flags none = AtMostTwo s.pmm
MapOutcome s cr3 pml4 vaddr paddr flags (some s') = Maps s cr3 pml4 vaddr paddr flags s'

-- The last write
module _ (s : Vmm) (level : ℕ → ℕ) (cr3 pml4 pt vaddr paddr flags : ℕ) (v : IsValid s level pml4)
    (leaf : level pt ≡ 1) (path : table_of s.mem 3 pml4 vaddr ≡ some pt) (odd : flags % 2 ≡ 1)
    (small : flags < 4096) where
  abbrev written : List ℕ → Vmm
  written addresses = record s {
    mem = store s.mem (entry_at pt (index 1 vaddr)) (make_table_entry (page_of paddr) flags);
    flushed = addresses;
  }

  written-Maps :
      (addresses : List ℕ)
      → addresses ≡ (if cr3 == virt_to_phys pml4 then s.flushed ++ (vaddr ∷ []) else s.flushed)
      → Maps s cr3 pml4 vaddr paddr flags (written addresses)
  written-Maps addresses f =
      let x = make_table_entry (page_of paddr) flags in
      let whole : x ≡ make_table_entry paddr flags = omega arith in
      let present : is_present x ≡ true = ground arith in
      record {
        valid = (
          level,
          record {
            tree = written-IsTree s.mem level pml4 v.tree pt vaddr x leaf;
            bytes = v.bytes;
            start = v.start;
            range = v.range;
            low = v.low;
            used = v.used;
          },
        );
        limit = refl;
        mapped =
            written-translate s.mem level pml4 v.tree pt vaddr x leaf path present ∙ ap some whole;
        exact = (omega arith, omega arith);
        others = λ w other. written-other s.mem level pml4 v.tree pt vaddr x leaf w path other;
        flushed = f;
      }

  set_page_entry-Maps :
      Maps s cr3 pml4 vaddr paddr flags (set_page_entry cr3 pml4 pt vaddr paddr flags s)
  unfolding set_page_entry
  set_page_entry-Maps = elim (Bool-cases (cr3 == virt_to_phys pml4)) [
    | inl e ↦ rw e (written-Maps (s.flushed ++ (vaddr ∷ [])) (rw e refl))
    | inr e ↦ rw e (written-Maps s.flushed (rw e refl))
  ]

-- An entry that is present and where it points to
abbrev PointsTo : Vmm → ℕ → ℕ → ℕ → Type 0
PointsTo s t i c = (is_present (s.mem (entry_at t i)) ≡ true) × (child (s.mem (entry_at t i)) ≡ c)

PointsTo-Extends :
    (s s' : Vmm) (level level' : ℕ → ℕ) (t i c : ℕ)
    → Extends s level s' level'
    → 1 ≤ level t
    → i < 512
    → PointsTo s t i c
    → PointsTo s' t i c
PointsTo-Extends s s' level level' t i c x l lt (e, f) =
    let same = x.entries t i l lt e in (ap is_present same ∙ e, ap child same ∙ f)

table_of-PointsTo :
    (s : Vmm) (k t c vaddr : ℕ)
    → PointsTo s t (index (suc (suc k)) vaddr) c
    → table_of s.mem (suc k) t vaddr ≡ table_of s.mem k c vaddr
unfolding table_of
table_of-PointsTo s k t c vaddr (e, f) = rw (e, f) refl

-- The state after the three steps down
module _ (s s1 s2 s3 : Vmm) (level : ℕ → ℕ) (cr3 pml4 pdpt pd pt vaddr paddr flags : ℕ)
    (odd : flags % 2 ≡ 1) (small : flags < 4096) (v : IsValid s level pml4)
    (d1 : Down s level pml4 pml4 (index 4 vaddr) pdpt s1)
    (d2 : Down s1 d1.level' pml4 pdpt (index 3 vaddr) pd s2)
    (d3 : Down s2 d2.level' pml4 pd (index 2 vaddr) pt s3) where
  path : table_of s3.mem 3 pml4 vaddr ≡ some pt
  unfolding table_of
  path =
      let root = v.tree.root in
      let low1 = d1.lower in
      let low2 = d2.lower in
      let below = d2.extends.levels pdpt (omega arith) in
      let rest = Extends-trans s1 s2 s3 d1.level' d2.level' d3.level' d2.extends d3.extends in
      let top =
        PointsTo-Extends s1 s3 d1.level' d3.level' pml4 (index 4 vaddr) pdpt rest
          (rw d1.valid.tree.root (omega arith)) (index-lt 4 vaddr) (d1.present, d1.to) in
      let middle =
        PointsTo-Extends s2 s3 d2.level' d3.level' pdpt (index 3 vaddr) pd d3.extends (omega arith)
          (index-lt 3 vaddr) (d2.present, d2.to) in
      table_of-PointsTo s3 2 pml4 pdpt vaddr top
      ∙ table_of-PointsTo s3 1 pdpt pd vaddr middle
      ∙ table_of-PointsTo s3 0 pd pt vaddr (d3.present, d3.to)

  three_steps : Maps s cr3 pml4 vaddr paddr flags (set_page_entry cr3 pml4 pt vaddr paddr flags s3)
  three_steps =
      let root = v.tree.root in
      let low1 = d1.lower in
      let low2 = d2.lower in
      let low3 = d3.lower in
      let below1 = d2.extends.levels pdpt (omega arith) in
      let same_list =
        ap (λ l. if cr3 == virt_to_phys pml4 then l ++ (vaddr ∷ []) else l)
          (d3.flushed ∙ d2.flushed ∙ d1.flushed) in
      let done =
        set_page_entry-Maps s3 d3.level' cr3 pml4 pt vaddr paddr flags d3.valid (omega arith) path
          odd small in
      let whole =
        Extends-trans s s1 s3 level d1.level' d3.level' d1.extends
          (Extends-trans s1 s2 s3 d1.level' d2.level' d3.level' d2.extends d3.extends) in
      record {
        valid = done.valid;
        limit = done.limit ∙ d3.limit ∙ d2.limit ∙ d1.limit;
        mapped = done.mapped;
        exact = done.exact;
        flushed = done.flushed ∙ same_list;
        others = λ w other. done.others w other ∙ whole.lookups 3 pml4 w root;
      }

-- A state with no page free, one or two pages after another
abbrev Loses : Pmm → Pmm → Type 0
Loses s s' = (a : ℕ) × ((q : ℕ) → IsFree s q → IsFree s' q ⊎ (q ≡ a))

at_most_two : (s s1 s2 : Pmm) → ((q : ℕ) → ¬ IsFree s2 q) → Loses s s1 → Loses s1 s2 → AtMostTwo s
at_most_two s s1 s2 full (a, l) (b, l') = (
  a,
  b,
  λ q f. elim (l q f) [
    | inr e ↦ inl e
    | inl g ↦ elim (l' q g) [ inl h ↦ absurd (full q h) | inr e ↦ inr e ]
  ],
)

at_most_one : (s s1 : Pmm) → ((q : ℕ) → ¬ IsFree s1 q) → Loses s s1 → AtMostTwo s
at_most_one s s1 full l = at_most_two s s1 s1 full l (0, λ q f. inl f)

-- `map_page` either runs out of memory, which it does only when at most two pages are free, or the
-- processor then translates the page of the address to the page of the physical address with the
-- flags, and every address of another page as before; the tables are still a tree of pages that
-- are in use, and `invlpg` is given the address exactly when the address space is the one in use.
-- The tables are such a tree before, and the flags are below 4096 and include
-- the bit for "present".
pub map_page-MapOutcome :
    (s : Vmm) (level : ℕ → ℕ) (cr3 pml4 vaddr paddr flags : ℕ)
    → IsValid s level pml4
    → flags % 2 ≡ 1
    → flags < 4096
    → MapOutcome s cr3 pml4 vaddr paddr flags (map_page cr3 pml4 vaddr paddr flags s)
unfolding map_page
map_page-MapOutcome s level cr3 pml4 vaddr paddr flags v odd small =
    let root = v.tree.root in
    let lt = index-lt 4 vaddr in
    let out1 = next_table-Outcome s level pml4 pml4 (index 4 vaddr) v (omega arith) lt in
    elim (Option-cases (next_table s (entry_at pml4 (index 4 vaddr)))) [
      | inl e1 ↦ let full = rw e1 at out1 in rw (e1, map_page) (0, 0, λ q f. absurd (full q f))
      | inr ((pdpt, s1), e1) ↦
          let d1 : Down s level pml4 pml4 (index 4 vaddr) pdpt s1 = rw e1 at out1 in
          let low1 = d1.lower in
          let out2 =
            next_table-Outcome s1 d1.level' pml4 pdpt (index 3 vaddr) d1.valid (omega arith)
              (index-lt 3 vaddr) in
          elim (Option-cases (next_table s1 (entry_at pdpt (index 3 vaddr)))) [
            | inl e2 ↦
                let full = rw e2 at out2 in
                rw (e1, e2, map_page) (at_most_one s.pmm s1.pmm full d1.pages)
            | inr ((pd, s2), e2) ↦
                let d2 : Down s1 d1.level' pml4 pdpt (index 3 vaddr) pd s2 = rw e2 at out2 in
                let low2 = d2.lower in
                let out3 =
                  next_table-Outcome s2 d2.level' pml4 pd (index 2 vaddr) d2.valid (omega arith)
                    (index-lt 2 vaddr) in
                elim (Option-cases (next_table s2 (entry_at pd (index 2 vaddr)))) [
                  | inl e3 ↦
                      let full = rw e3 at out3 in
                      rw (e1, e2, e3, map_page)
                        (at_most_two s.pmm s1.pmm s2.pmm full d1.pages d2.pages)
                  | inr ((pt, s3), e3) ↦
                      let d3 : Down s2 d2.level' pml4 pd (index 2 vaddr) pt s3 = rw e3 at out3 in
                      rw (e1, e2, e3, map_page)
                        (three_steps s s1 s2 s3 level cr3 pml4 pdpt pd pt vaddr paddr flags odd
                          small v d1 d2 d3)
                ]
          ]
    ]
