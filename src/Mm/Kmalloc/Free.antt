-- ===== src/Mm/Kmalloc/Free.antt =====
-- `kmfree` gives back what `kmalloc` of kernel/lib/kmalloc.c has taken.
use aeolos.Base.{
  ℕ, ◌+◌, ◌*◌, ◌%◌, ◌^◌, ◌<◌, ◌≡◌, refl, ap, ap₂, ◌∙◌, true, ◌==◌, none, some, Option-cases, inl,
  inr, ◌⊎◌, arith,
}
use aeolos.Mm.Pmm.{Pmm, pmm_alloc, pmm_get, pmm_free, phys_to_virt, virt_to_phys}
use aeolos.Mm.Pmm.Bitmap.{page_size, num_pages}
use aeolos.Mm.Pmm.Bitmap.Loops.{IsBytes, page_free}
use aeolos.Mm.Pmm.Alloc.{AllFree, back-page_free}
use aeolos.Mm.Pmm.Get.{pmm_get_scans}
use aeolos.Mm.Kmalloc.{Heap, Metadata, kmalloc, kmfree, metadata_of, put}

-- What `pmm_get` returns, whichever of its scans found it.
abbrev Got : Pmm → ℕ → ℕ → Pmm → Type 0
Got s n a s' = (a < s.phys_limit + s.last_used_page) × AllFree s a n × (s' ≡ (pmm_alloc s a n).1)

got :
    (s : Pmm) (n a : ℕ) (s' : Pmm)
    → IsBytes s.bitmap
    → s.phys_limit + s.last_used_page + (n + 1) * page_size < 2 ^ 64
    → pmm_get s n ≡ some (a, s')
    → Got s n a s'
got s n a s' v range e = elim (pmm_get_scans s n v range) [
  | inl first ↦ let (k, at, lt, free, same, least) = rw e at first in (omega arith, free, same)
  | inr (nothing, second) ↦
      let (k, at, lt, free, same, least) = rw e at second in (omega arith, free, same)
]

virt_to_phys_lem : (a : ℕ) → a < 2 ^ 64 → virt_to_phys (phys_to_virt a) ≡ a
virt_to_phys_lem a lt = omega arith

metadata_of_lem : (d : ℕ) → d < 2 ^ 64 → metadata_of ((d + page_size) % 2 ^ 64) ≡ d
metadata_of_lem d lt = omega arith

-- `kmfree`, where the metadata is found.
kmfree_lem :
    (a n : ℕ) (h : Heap)
    → a < 2 ^ 64
    → ((h.metadata (phys_to_virt a)).numpages + 1) % 2 ^ 64 ≡ n
    → (kmfree ((phys_to_virt a + page_size) % 2 ^ 64) h).pmm ≡ pmm_free h.pmm a n
unfolding kmfree
kmfree_lem a n h lt e =
    let d = phys_to_virt a in
    ap (λ k. pmm_free h.pmm (virt_to_phys k) (((h.metadata k).numpages + 1) % 2 ^ 64))
      (metadata_of_lem d (omega arith))
    ∙ ap₂ (pmm_free h.pmm) (virt_to_phys_lem a lt) e

-- `kmalloc` fails only where `pmm_get` does. Otherwise all pages that it takes were free, it returns
-- the address behind their first page, and `kmfree` of that address leaves every page free that was
-- free before, and no other. The bitmap holds bytes, and the sum of the limits and the range does
-- not wrap.
pub kmfree-kmalloc :
    (size : ℕ) (h : Heap) (p : ℕ)
    → IsBytes h.pmm.bitmap
    → h.pmm.phys_limit + h.pmm.last_used_page + (num_pages size + 2) * page_size < 2 ^ 64
    → let n = num_pages size + 1 in
      ((kmalloc size h ≡ none) × (pmm_get h.pmm n ≡ none))
      ⊎ ((a : ℕ) × (h' : Heap) × (kmalloc size h ≡ some ((phys_to_virt a + page_size) % 2 ^ 64, h'))
          × AllFree h.pmm a n
          × (page_free (kmfree ((phys_to_virt a + page_size) % 2 ^ 64) h').pmm.bitmap p
              ≡ page_free h.pmm.bitmap p))
unfolding kmalloc
kmfree-kmalloc size h p v range =
    let n = num_pages size + 1 in
    let whole : n % 2 ^ 64 ≡ n = omega arith in
    elim (Option-cases (pmm_get h.pmm n)) [
      | inl e ↦ inl (rw (ap (pmm_get h.pmm) whole ∙ e, kmalloc) refl, e)
      | inr ((a, s'), e) ↦
          let (lt, free, same) = got h.pmm n a s' v (omega arith) e in
          let m : Metadata = record { numpages = num_pages size; size = size } in
          let h' : Heap = record h { pmm = s'; metadata = put h.metadata (phys_to_virt a) m } in
          let self : (phys_to_virt a == phys_to_virt a) ≡ true = ground arith in
          let freed = kmfree_lem a n h' (omega arith) (rw self whole) in
          inr (
            a,
            h',
            rw (ap (pmm_get h.pmm) whole ∙ e, kmalloc) refl,
            free,
            ap (λ (s : Pmm). page_free s.bitmap p) (freed ∙ ap (λ s. pmm_free s a n) same)
                ∙ back-page_free h.pmm a n v (omega arith) free p,
          )
    ]
