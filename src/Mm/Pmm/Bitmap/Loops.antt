-- ===== src/Mm/Pmm/Bitmap/Loops.antt =====
-- What the loops over the bitmap of kernel/mm/pmm.c do to each page.
use aeolos.Base.{
  ℕ, zero, suc, ◌+◌, ◌*◌, ◌/◌, ◌^◌, ◌<◌, ◌≡◌, refl, Bool, true, false, ◌&&◌, ltb, leb, ◌==◌,
  if◌then◌else◌, arith,
}
use aeolos.Mm.Pmm.Bitmap.{
  Bits, page_size, byte_index, bit_index, clear_page, set_page, test_page, next, markused_loop,
  isfree_loop,
}
use aeolos.Mm.Pmm.Bitmap.Bytes.{test-clear, test-set, clear-lt, set-lt}

-- Every cell of the bitmap holds a byte.
abbrev pub IsBytes : Bits → Type 0
IsBytes bm = (k : ℕ) → bm k < 256

-- The page with number `p` is marked free.
abbrev pub page_free : Bits → ℕ → Bool
page_free bm p = test_page bm (p * page_size)

-- `p` is one of the `n` pages from the page of address `i` on.
abbrev pub within : ℕ → ℕ → ℕ → Bool
within i n p = leb (i / page_size) p && ltb p (i / page_size + n)

module _ (bm : Bits) (i : ℕ) (v : IsBytes bm) where
  pub clear_page-IsBytes : IsBytes (clear_page bm i)
  unfolding clear_page
  clear_page-IsBytes k =
      ground
        (arith, v k, v (byte_index i), clear-lt (bm (byte_index i)) (bit_index i) (bit_index i))

  pub set_page-IsBytes : IsBytes (set_page bm i)
  unfolding set_page
  set_page-IsBytes k =
      ground (arith, v k, v (byte_index i), set-lt (bm (byte_index i)) (bit_index i) (bit_index i))

  pub page_free-clear_page :
      (p : ℕ)
      → page_free (clear_page bm i) p ≡ (if p == i / page_size then false else page_free bm p)
  unfolding clear_page test_page
  page_free-clear_page p = ground (
    arith,
    v (byte_index i),
    test-clear (bm (byte_index i)) (bit_index i) (bit_index (p * page_size)),
  )

  pub page_free-set_page :
      (p : ℕ) → page_free (set_page bm i) p ≡ (if p == i / page_size then true else page_free bm p)
  unfolding set_page test_page
  page_free-set_page p = ground (
    arith,
    v (byte_index i),
    test-set (bm (byte_index i)) (bit_index i) (bit_index (p * page_size)),
  )

  pub test_page-eq : test_page bm i ≡ page_free bm (i / page_size)
  unfolding test_page
  test_page-eq = ground arith

-- With fuel for the whole range, and no wrap, the loop of `bmp_markused` marks exactly the range.
pub markused_loop-page_free :
    (n i end : ℕ) (bm : Bits) (p : ℕ)
    → IsBytes bm
    → end ≡ i + n * page_size
    → end < 2 ^ 64
    → IsBytes (markused_loop n i end bm)
      × (page_free (markused_loop n i end bm) p ≡ (if within i n p then false else page_free bm p))
unfolding markused_loop
markused_loop-page_free zero i end bm p v e fits = (v, ground arith)
markused_loop-page_free (suc n) i end bm p v e fits = ground (
  arith,
  markused_loop-page_free n (next i) end (clear_page bm i) p (clear_page-IsBytes bm i v),
  page_free-clear_page bm i v p,
)

-- The test loop: true when every page of the range is free,
pub isfree_loop_sound :
    (n i end : ℕ) (bm : Bits) (p : ℕ)
    → IsBytes bm
    → end ≡ i + n * page_size
    → end < 2 ^ 64
    → isfree_loop n i end bm ≡ true
    → within i n p ≡ true
    → page_free bm p ≡ true
unfolding isfree_loop
isfree_loop_sound zero i end bm p v e fits h w = ground arith
isfree_loop_sound (suc n) i end bm p v e fits h w =
    ground (arith, isfree_loop_sound n (next i) end bm p v, test_page-eq bm i v)

-- and only then.
pub isfree_loop_complete :
    (n i end : ℕ) (bm : Bits)
    → IsBytes bm
    → end ≡ i + n * page_size
    → end < 2 ^ 64
    → ((p : ℕ) → within i n p ≡ true → page_free bm p ≡ true)
    → isfree_loop n i end bm ≡ true
unfolding isfree_loop
isfree_loop_complete zero i end bm v e fits all = refl
isfree_loop_complete (suc n) i end bm v e fits all = ground (
  arith,
  isfree_loop_complete n (next i) end bm v (omega arith) fits (λ p h. all p (ground arith)),
  all (i / page_size),
  test_page-eq bm i v,
)
