-- ===== src/Mm/Pmm/Alloc.antt =====
-- `pmm_alloc` and `pmm_free` of kernel/mm/pmm.c, page by page.
use aeolos.Base.{
  sym, ◌∙◌, ℕ, zero, suc, ◌+◌, ◌*◌, ◌%◌, ◌^◌, ◌<◌, ◌≡◌, refl, Bool, true, false, arith,
  if◌then◌else◌, ◌⊎◌, inl, inr, Bool-cases, ltb,
}
use aeolos.Mm.Pmm.{Pmm, pmm_alloc, pmm_free, free_loop}
use aeolos.Mm.Pmm.Bitmap.{page_size, end_of, next, set_page, bmp_isfree, bmp_markused}
use aeolos.Mm.Pmm.Bitmap.Loops.{
  IsBytes, page_free, within, set_page-IsBytes, page_free-set_page, markused_loop-page_free,
  isfree_loop_sound, isfree_loop_complete,
}

-- The range of `n` pages from address `addr` on does not reach the end of the address space.
abbrev pub IsRange : ℕ → ℕ → Type 0
IsRange addr n = addr + n * page_size < 2 ^ 64

abbrev pub AllFree : Pmm → ℕ → ℕ → Type 0
AllFree s addr n = (p : ℕ) → within addr n p ≡ true → page_free s.bitmap p ≡ true

-- What an allocation of a range may return.
abbrev pub Outcome : Pmm → ℕ → ℕ → Bool × Pmm → Type 0
Outcome s addr n (done, s') =
    ((done ≡ true)
      × AllFree s addr n
      × ((p : ℕ)
          → page_free s'.bitmap p ≡ (if within addr n p then false else page_free s.bitmap p)))
    ⊎ ((done ≡ false) × (¬ AllFree s addr n) × (s' ≡ s))

module _ (s : Pmm) (addr n : ℕ) (v : IsBytes s.bitmap) (range : IsRange addr n) where
  pub isfree_sound :
      (p : ℕ)
      → bmp_isfree s.bitmap addr n ≡ true
      → within addr n p ≡ true
      → page_free s.bitmap p ≡ true
  unfolding bmp_isfree
  isfree_sound p h w =
      isfree_loop_sound n addr (end_of addr n) s.bitmap p v (omega arith) (omega arith) h w

  pub isfree_complete : AllFree s addr n → bmp_isfree s.bitmap addr n ≡ true
  unfolding bmp_isfree
  isfree_complete all =
      isfree_loop_complete n addr (end_of addr n) s.bitmap v (omega arith) (omega arith) all

  pub markused-page_free :
      (p : ℕ)
      → IsBytes (bmp_markused s.bitmap addr n)
        × (page_free (bmp_markused s.bitmap addr n) p
            ≡ (if within addr n p then false else page_free s.bitmap p))
  unfolding bmp_markused
  markused-page_free p =
      markused_loop-page_free n addr (end_of addr n) s.bitmap p v (omega arith) (omega arith)

  -- `pmm_alloc` succeeds exactly when every page of the range is free. Then the pages of the range
  -- are used and no other page changes; if it fails, nothing changes. The range must not reach the
  -- end of the address space.
  pub pmm_alloc_lem : Outcome s addr n (pmm_alloc s addr n)
  unfolding pmm_alloc
  pmm_alloc_lem = elim (Bool-cases (bmp_isfree s.bitmap addr n)) [
    | inl h ↦ rw h (inl (refl, (λ p w. isfree_sound p h w), (λ p. (markused-page_free p).1)))
    | inr h ↦ rw h (inr (refl, (λ all. ground (arith, isfree_complete all)), refl))
  ]

pub pmm_alloc-limits :
    (s : Pmm) (a n : ℕ)
    → let s' = (pmm_alloc s a n).1 in
      (s'.phys_limit ≡ s.phys_limit) × (s'.last_used_page ≡ s.last_used_page)
unfolding pmm_alloc
pmm_alloc-limits s a n = elim (Bool-cases (bmp_isfree s.bitmap a n)) [
  | inl e ↦ rw e (refl, refl)
  | inr e ↦ rw e (refl, refl)
]

-- The loop of `pmm_free`.
free_loop-page_free :
    (n i end : ℕ) (s : Pmm) (p : ℕ)
    → IsBytes s.bitmap
    → end ≡ i + n * page_size
    → end < 2 ^ 64
    → IsBytes (free_loop n i end s).bitmap
      × (page_free (free_loop n i end s).bitmap p
          ≡ (if within i n p then true else page_free s.bitmap p))
unfolding free_loop
free_loop-page_free zero i end s p v e fits = (v, ground arith)
free_loop-page_free (suc n) i end s p v e fits = ground (
  arith,
  free_loop-page_free n (next i) end
      (record s {
        free_mem = (s.free_mem + (if bmp_isfree s.bitmap i 1 then 0 else page_size)) % 2 ^ 64;
        bitmap = set_page s.bitmap i;
      })
      p (set_page-IsBytes s.bitmap i v),
  page_free-set_page s.bitmap i v p,
)

-- After `pmm_free` the pages of the range are free, no other page has changed, and the bitmap still
-- holds bytes. The range must not reach the end of the address space.
pub pmm_free-page_free :
    (s : Pmm) (addr n p : ℕ)
    → IsBytes s.bitmap
    → IsRange addr n
    → IsBytes (pmm_free s addr n).bitmap
      × (page_free (pmm_free s addr n).bitmap p
          ≡ (if within addr n p then true else page_free s.bitmap p))
unfolding pmm_free
pmm_free-page_free s addr n p v range =
    free_loop-page_free n addr (end_of addr n) s p v (omega arith) (omega arith)

free_loop-limits :
    (n i end : ℕ) (s : Pmm)
    → let s' = free_loop n i end s in
      (s'.phys_limit ≡ s.phys_limit) × (s'.last_used_page ≡ s.last_used_page)
unfolding free_loop
free_loop-limits zero i end s = (refl, refl)
free_loop-limits (suc n) i end s = elim (Bool-cases (ltb i end)) [
  | inl e ↦ rw e (
      free_loop-limits n (next i) end (record s {
        free_mem = (s.free_mem + (if bmp_isfree s.bitmap i 1 then 0 else page_size)) % 2 ^ 64;
        bitmap = set_page s.bitmap i;
      }))
  | inr e ↦ rw e (refl, refl)
]

pub pmm_free-limits :
    (s : Pmm) (addr n : ℕ)
    → let s' = pmm_free s addr n in
      (s'.phys_limit ≡ s.phys_limit) × (s'.last_used_page ≡ s.last_used_page)
unfolding pmm_free
pmm_free-limits s addr n = free_loop-limits n addr (end_of addr n) s

-- A range that is taken and given back
module _ (s : Pmm) (a n : ℕ) (v : IsBytes s.bitmap) (range : IsRange a n)
    (free : AllFree s a n) where
  pub taken-page_free :
      (p : ℕ)
      → IsBytes (pmm_alloc s a n).1.bitmap
        × (page_free (pmm_alloc s a n).1.bitmap p
            ≡ (if within a n p then false else page_free s.bitmap p))
  unfolding pmm_alloc
  taken-page_free p = rw (isfree_complete s a n v range free) (markused-page_free s a n v range p)

  pub back-page_free :
      (p : ℕ) → page_free (pmm_free (pmm_alloc s a n).1 a n).bitmap p ≡ page_free s.bitmap p
  back-page_free p =
      let (bytes, taken) = taken-page_free p in
      (pmm_free-page_free (pmm_alloc s a n).1 a n p bytes range).1
      ∙ elim (Bool-cases (within a n p)) [
        | inl e ↦ rw e (sym (free p e))
        | inr e ↦ rw (e, taken) (rw e)
      ]
