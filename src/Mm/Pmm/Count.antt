-- ===== src/Mm/Pmm/Count.antt =====
-- `memstats.free_mem` of kernel/mm/pmm.c: the size of the pages that the bitmap marks free.
use aeolos.Base.{
  ℕ, zero, suc, ◌+◌, ◌*◌, ◌/◌, ◌%◌, ◌^◌, ◌<◌, ◌≤◌, ◌≡◌, ◌≢◌, refl, true, false, arith, ltb,
  if◌then◌else◌, inl, inr, Bool-cases, ◌∙◌, ℕ_discrete,
}
use aeolos.Mm.Pmm.{Pmm, pmm_alloc, pmm_free, free_loop}
use aeolos.Mm.Pmm.Bitmap.{
  Bits, page_size, end_of, next, clear_page, set_page, test_page, bmp_isfree, bmp_markused,
  isfree_loop, markused_loop,
}
use aeolos.Mm.Pmm.Bitmap.Loops.{
  IsBytes, page_free, within, set_page-IsBytes, page_free-set_page, clear_page-IsBytes,
  page_free-clear_page, test_page-eq,
}
use aeolos.Mm.Pmm.Alloc.{IsRange, isfree_sound, markused-page_free}

-- The number of free pages below page `limit`.
unfoldable pub count_free : Bits → ℕ → ℕ
count_free bm zero = 0
count_free bm (suc limit) = count_free bm limit + (if page_free bm limit then 1 else 0)

-- `free_mem` is the size of the free pages below `limit`, all below the end of the address space.
pub record IsCounted (limit : ℕ) (s : Pmm) : Type 0 where
  pub bytes : IsBytes s.bitmap
  pub exact : s.free_mem ≡ count_free s.bitmap limit * page_size
  pub small : limit * page_size < 2 ^ 64

count_free-le : (bm : Bits) (limit : ℕ) → count_free bm limit ≤ limit
unfolding count_free
count_free-le bm zero = omega arith
count_free-le bm (suc limit) = ground (arith, count_free-le bm limit)

-- Two bitmaps that agree on each page but `q`.
abbrev Agree : Bits → Bits → ℕ → Type 0
Agree a b q = (p : ℕ) → p ≢ q → page_free a p ≡ page_free b p

count_free-same :
    (a b : Bits) (q limit : ℕ) → Agree a b q → limit ≤ q → count_free a limit ≡ count_free b limit
unfolding count_free
count_free-same a b q zero h le = refl
count_free-same a b q (suc limit) h le =
    ground (arith, count_free-same a b q limit h, h limit (omega arith))

count_free-gain :
    (a b : Bits) (q limit : ℕ)
    → Agree a b q
    → q < limit
    → page_free a q ≡ true
    → page_free b q ≡ false
    → count_free a limit ≡ count_free b limit + 1
unfolding count_free
count_free-gain a b q zero h lt ha hb = absurd (omega arith)
count_free-gain a b q (suc limit) h lt ha hb = elim (ℕ_discrete limit q) [
  | yes e ↦
      let below = count_free-same a b q limit h (omega arith) in
      let ha' : page_free a limit ≡ true = rw e ha in
      let hb' : page_free b limit ≡ false = rw e hb in rw (ha', hb') (omega (arith, below))
  | no ne ↦ ground (arith, count_free-gain a b q limit h, h limit ne)
]

module _ (bm : Bits) (i limit : ℕ) (v : IsBytes bm) (inside : i / page_size < limit) where
  -- Marking a free page used takes one off,
  count_free-clear_page :
      page_free bm (i / page_size) ≡ true
      → count_free bm limit ≡ count_free (clear_page bm i) limit + 1
  count_free-clear_page h =
      count_free-gain bm (clear_page bm i) (i / page_size) limit
        (λ p ne. ground (arith, page_free-clear_page bm i v p)) inside h
        (ground (arith, page_free-clear_page bm i v (i / page_size)))

  -- and marking a page free adds one, unless it was free.
  count_free-set_page :
      count_free (set_page bm i) limit
      ≡ count_free bm limit + (if page_free bm (i / page_size) then 0 else 1)
  count_free-set_page = elim (Bool-cases (page_free bm (i / page_size))) [
    | inl h ↦ rw h (
        count_free-same (set_page bm i) bm limit limit
          (λ p ne. ground (arith, h, page_free-set_page bm i v p)) (omega arith)
        ∙ omega arith)
    | inr h ↦ rw h (
        count_free-gain (set_page bm i) bm (i / page_size) limit
          (λ p ne. ground (arith, page_free-set_page bm i v p)) inside
          (ground (arith, page_free-set_page bm i v (i / page_size))) h)
  ]

-- The loop of `bmp_markused` over free pages takes off as many as its range has.
markused_loop-count :
    (n i end limit : ℕ) (bm : Bits)
    → IsBytes bm
    → end ≡ i + n * page_size
    → end < 2 ^ 64
    → i / page_size + n ≤ limit
    → ((p : ℕ) → within i n p ≡ true → page_free bm p ≡ true)
    → count_free bm limit ≡ count_free (markused_loop n i end bm) limit + n
unfolding markused_loop
markused_loop-count zero i end limit bm v e fits inside all = omega arith
markused_loop-count (suc n) i end limit bm v e fits inside all =
    let step =
      count_free-clear_page bm i limit v (omega arith) (all (i / page_size) (ground arith)) in
    let rest =
      markused_loop-count n (next i) end limit (clear_page bm i) (clear_page-IsBytes bm i v)
        (omega arith) fits (omega arith)
        (λ p w. ground (arith, page_free-clear_page bm i v p, all p)) in
    ground (arith, step, rest)

isfree_one :
    (s : Pmm) (i : ℕ) → i + page_size < 2 ^ 64 → bmp_isfree s.bitmap i 1 ≡ test_page s.bitmap i
unfolding bmp_isfree isfree_loop
isfree_one s i h = ground arith

free_loop-IsCounted :
    (n i end limit : ℕ) (s : Pmm)
    → IsCounted limit s
    → end ≡ i + n * page_size
    → end < 2 ^ 64
    → i / page_size + n ≤ limit
    → IsCounted limit (free_loop n i end s)
unfolding free_loop
free_loop-IsCounted zero i end limit s c e fits inside = c
free_loop-IsCounted (suc n) i end limit s c e fits inside =
    let lt : ltb i end ≡ true = ground arith in
    rw lt (
      free_loop-IsCounted n (next i) end limit
        (record s {
          free_mem = (s.free_mem + (if bmp_isfree s.bitmap i 1 then 0 else page_size)) % 2 ^ 64;
          bitmap = set_page s.bitmap i;
        })
        (record {
          bytes = set_page-IsBytes s.bitmap i c.bytes;
          exact = ground (
            arith,
            isfree_one s i (omega arith),
            test_page-eq s.bitmap i c.bytes,
            count_free-set_page s.bitmap i limit c.bytes (omega arith),
            count_free-le (set_page s.bitmap i) limit,
          );
          small = c.small;
        })
        (omega arith) fits (omega arith))

alloc-IsCounted :
    (limit : ℕ) (s : Pmm) (addr n : ℕ)
    → IsCounted limit s
    → IsRange addr n
    → addr / page_size + n ≤ limit
    → IsCounted limit (pmm_alloc s addr n).1
unfolding pmm_alloc bmp_markused
alloc-IsCounted limit s addr n c range inside = elim (Bool-cases (bmp_isfree s.bitmap addr n)) [
  | inl h ↦ rw h (
      let marked = markused_loop n addr (end_of addr n) s.bitmap in
      let fewer =
        markused_loop-count n addr (end_of addr n) limit s.bitmap c.bytes (omega arith)
          (omega arith) inside (λ p w. isfree_sound s addr n c.bytes range p h w) in
      record {
        bytes = (markused-page_free s addr n c.bytes range 0).0;
        exact = omega (arith, count_free-le s.bitmap limit);
        small = c.small;
      })
  | inr h ↦ rw h c
]

-- Within the managed pages, `pmm_alloc` and `pmm_free` keep `free_mem` equal to the size of the
-- free pages: freeing a page twice does not count it twice, and no sum or difference wraps.
pub pmm-IsCounted :
    (limit : ℕ) (s : Pmm) (addr n : ℕ)
    → IsCounted limit s
    → IsRange addr n
    → addr / page_size + n ≤ limit
    → IsCounted limit (pmm_alloc s addr n).1 × IsCounted limit (pmm_free s addr n)
unfolding pmm_free
pmm-IsCounted limit s addr n c range inside = (
  alloc-IsCounted limit s addr n c range inside,
  free_loop-IsCounted n addr (end_of addr n) limit s c (omega arith) (omega arith) inside,
)
