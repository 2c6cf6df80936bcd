-- ===== src/Mm/Vmm/Fresh.antt =====
-- The page that `map_page` of kernel/mm/vmm.c gets for a new table.
use aeolos.Base.{
  ℕ, ◌+◌, ◌*◌, ◌/◌, ◌%◌, ◌^◌, ◌<◌, ◌≡◌, refl, ap, ◌∙◌, true, false, ◌==◌, if◌then◌else◌, none, some,
  arith, inl, inr,
}
use aeolos.Mm.Pmm.{Pmm, pmm_get, phys_to_virt, virt_to_phys}
use aeolos.Mm.Pmm.Bitmap.{page_size}
use aeolos.Mm.Pmm.Bitmap.Loops.{IsBytes, page_free, within}
use aeolos.Mm.Pmm.Alloc.{AllFree, taken-page_free, pmm_alloc-limits}
use aeolos.Mm.Pmm.Get.{pmm_get_scans}
use aeolos.Mm.Vmm.{page_of, is_present, make_table_entry, vmm_flags_usermode}
use aeolos.Mm.Vmm.Walk.{child}

-- A page is free, below the limit of the physical memory.
abbrev pub IsFree : Pmm → ℕ → Type 0
IsFree s q = (q * page_size < s.phys_limit) × (page_free s.bitmap q ≡ true)

-- The first page of a page of memory that `pmm_get` gives
pub record Fresh (s : Pmm) (a : ℕ) (s' : Pmm) : Type 0 where
  pub low : a < s.phys_limit
  pub page : a % 4096 ≡ 0
  pub free : page_free s.bitmap (a / page_size) ≡ true
  pub now :
      IsBytes s'.bitmap
      × ((q : ℕ)
          → page_free s'.bitmap q ≡ (if q == a / page_size then false else page_free s.bitmap q))
  pub same : (s'.phys_limit ≡ s.phys_limit) × (s'.last_used_page ≡ s.last_used_page)

AllFree-page_free :
    (s : Pmm) (a q : ℕ) → a ≡ q * page_size → page_free s.bitmap q ≡ true → AllFree s a 1
AllFree-page_free s a q e f p w = let same : p ≡ q = ground arith in rw same f

one_page : (a q : ℕ) → within a 1 q ≡ (q == a / page_size)
one_page a q = ground arith

pub fresh :
    (s : Pmm) (a : ℕ) (s' : Pmm)
    → IsBytes s.bitmap
    → s.last_used_page ≡ 0
    → s.phys_limit + 2 * page_size < 2 ^ 64
    → pmm_get s 1 ≡ some (a, s')
    → Fresh s a s'
fresh s a s' v z range e = elim (pmm_get_scans s 1 v (omega arith)) [
  | inl first ↦
      let (k, at, lt, free, same, least) = rw e at first in
      record {
        low = lt;
        page = omega arith;
        free = free (a / page_size) (ground arith);
        now = rw same (
          (taken-page_free s a 1 v (omega arith) free 0).0,
          λ q.
              (taken-page_free s a 1 v (omega arith) free q).1
              ∙ ap (λ b. if b then false else page_free s.bitmap q) (one_page a q),
        );
        same = rw same (pmm_alloc-limits s a 1);
      }
  | inr (nothing, second) ↦
      let (k, at, lt, free, same, least) = rw e at second in absurd (omega arith)
]

-- `pmm_get` fails only if no page is free.
pub full :
    (s : Pmm)
    → IsBytes s.bitmap
    → s.last_used_page ≡ 0
    → s.phys_limit + 2 * page_size < 2 ^ 64
    → pmm_get s 1 ≡ none
    → (q : ℕ) → ¬ IsFree s q
full s v z range e q (lt, f) = elim (pmm_get_scans s 1 v (omega arith)) [
  | inl first ↦
      let none_free = rw e at first in
      none_free q (omega arith) (AllFree-page_free s _ q (omega arith) f)
  | inr (nothing, second) ↦ nothing q (omega arith) (AllFree-page_free s _ q (omega arith) f)
]

pub virt_to_phys_lem : (a : ℕ) → a < 2 ^ 64 → virt_to_phys (phys_to_virt a) ≡ a
virt_to_phys_lem a lt = omega arith

-- What the entry of a new table says.
pub child-entry :
    (a : ℕ)
    → a % 4096 ≡ 0
    → a < 2 ^ 64
    → let e = make_table_entry (virt_to_phys (phys_to_virt a)) vmm_flags_usermode in
      (is_present e ≡ true) × (child e ≡ phys_to_virt a) × (e % 4096 < 512)
child-entry a page lt =
    let back = virt_to_phys_lem a lt in
    let whole : page_of a ≡ a = omega arith in
    rw (back, whole)
      (ground arith, (let low : page_of (a + 7) ≡ a = omega arith in rw low refl), omega arith)
