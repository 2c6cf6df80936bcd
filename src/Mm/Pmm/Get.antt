-- ===== src/Mm/Pmm/Get.antt =====
-- `pmm_get` of kernel/mm/pmm.c: a first fit over the pages.
use aeolos.Base.{
  ℕ, zero, suc, ◌+◌, ◌*◌, ◌^◌, ◌<◌, ◌≡◌, refl, true, false, arith, ltb, ◌⊎◌, inl, inr, Option-cases,
  Option, none, some, dec_lt,
}
use aeolos.Mm.Pmm.{Pmm, pmm_alloc, pmm_get, get_loop, rounds}
use aeolos.Mm.Pmm.Bitmap.{page_size, next}
use aeolos.Mm.Pmm.Bitmap.Loops.{IsBytes}
use aeolos.Mm.Pmm.Alloc.{AllFree, pmm_alloc_lem}

-- What a scan by pages from address `i` up to `limit` should return: the first address whose
-- range is free, with the range taken, and nothing only if there is no such address.
abbrev pub FirstFit : Pmm → ℕ → ℕ → ℕ → Option (ℕ × Pmm) → Type 0
FirstFit s i limit n none = (j : ℕ) → i + j * page_size < limit → ¬ AllFree s (i + j * page_size) n
FirstFit s i limit n (some (a, s')) =
    (k : ℕ) × (a ≡ i + k * page_size)
    × (a < limit)
    × AllFree s a n
    × (s' ≡ (pmm_alloc s a n).1)
    × ((j : ℕ) → j < k → ¬ AllFree s (i + j * page_size) n)

-- The candidates from `i` on are `i` and those from the next page on.
not-AllFree_step :
    (s : Pmm) (i i' n j : ℕ)
    → ¬ AllFree s i n
    → i' ≡ i + page_size
    → ((k : ℕ) → suc k ≡ j → ¬ AllFree s (i' + k * page_size) n)
    → ¬ AllFree s (i + j * page_size) n
not-AllFree_step s i i' n zero here e later =
    let at : i + 0 * page_size ≡ i = omega arith in rw at here
not-AllFree_step s i i' n (suc k) here e later =
    let at : i + suc k * page_size ≡ i' + k * page_size = omega arith in rw at (later k refl)

FirstFit-step :
    (s : Pmm) (i i' limit n : ℕ) (r : Option (ℕ × Pmm))
    → ¬ AllFree s i n
    → i' ≡ i + page_size
    → FirstFit s i' limit n r
    → FirstFit s i limit n r
FirstFit-step s i i' limit n none here e rest =
    λ j h. not-AllFree_step s i i' n j here e (λ k q. rest k (omega arith))
FirstFit-step s i i' limit n (some (a, s')) here e (k, at, lt, free, same, least) = (
  suc k,
  omega arith,
  lt,
  free,
  same,
  λ j h. not-AllFree_step s i i' n j here e (λ k' q. least k' (omega arith)),
)

module _ (s : Pmm) (limit n : ℕ) (v : IsBytes s.bitmap)
    (range : limit + (n + 1) * page_size < 2 ^ 64) where
  get_loop-FirstFit :
      (fuel i : ℕ) → limit < i + fuel * page_size → FirstFit s i limit n (get_loop fuel i limit n s)
  unfolding get_loop
  get_loop-FirstFit zero i enough = λ j h. absurd (omega arith)
  get_loop-FirstFit (suc fuel) i enough = elim (dec_lt i limit) [
    | no past ↦
        let stop : ltb i limit ≡ false = ground arith in rw stop (λ j h. absurd (omega arith))
    | yes lt ↦
        let go : ltb i limit ≡ true = ground arith in
        rw go (elim (pmm_alloc_lem s i n v (omega arith)) [
          | inl taken ↦ rw taken.0 (0, omega arith, lt, taken.1, refl, λ j h. absurd (omega arith))
          | inr failed ↦ rw failed.0 (
              FirstFit-step s i (next i) limit n _ failed.1 (omega arith)
                (get_loop-FirstFit fuel (next i) (omega arith)))
        ])
  ]

-- What the first scan returns, or, if it finds nothing, what the second returns.
pub pmm_get_scans :
    (s : Pmm) (n : ℕ)
    → IsBytes s.bitmap
    → s.phys_limit + s.last_used_page + (n + 1) * page_size < 2 ^ 64
    → let l = s.last_used_page in
      FirstFit s l s.phys_limit n (pmm_get s n)
      ⊎ (FirstFit s l s.phys_limit n none × FirstFit s 0 l n (pmm_get s n))
unfolding pmm_get
pmm_get_scans s n v range =
    let l = s.last_used_page in
    let first =
      get_loop-FirstFit s s.phys_limit n v (omega arith) (rounds s.phys_limit) l (omega arith) in
    let second = get_loop-FirstFit s l n v (omega arith) (rounds l) 0 (omega arith) in
    elim (Option-cases (get_loop (rounds s.phys_limit) l s.phys_limit n s)) [
      | inl e ↦ rw (e, pmm_get) (inr (rw e at first, second))
      | inr (r, e) ↦ rw (e, pmm_get) (inl (rw e at first))
    ]

-- What `pmm_get` should return: an address only where the scan from the last used page, or else
-- that from 0, finds it first, and nothing only where neither scan finds any.
abbrev pub GetOutcome : Pmm → ℕ → Option (ℕ × Pmm) → Type 0
GetOutcome s n none =
    FirstFit s s.last_used_page s.phys_limit n none × FirstFit s 0 s.last_used_page n none
GetOutcome s n (some r) =
    FirstFit s s.last_used_page s.phys_limit n (some r)
    ⊎ (FirstFit s s.last_used_page s.phys_limit n none × FirstFit s 0 s.last_used_page n (some r))
