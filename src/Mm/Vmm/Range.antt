-- ===== src/Mm/Vmm/Range.antt =====
-- `vmm_map` of kernel/mm/vmm.c maps a range, page by page.
use aeolos.Base.{
  ℕ, zero, suc, ◌+◌, ◌*◌, ◌%◌, ◌^◌, ◌<◌, ◌≤◌, ◌≡◌, ◌≢◌, refl, sym, ap, ◌∙◌, true, ltb, Option, none,
  some, arith, Option-cases, inl, inr,
}
use aeolos.Mm.Pmm.Bitmap.{page_size}
use aeolos.Mm.Vmm.{Vmm, make_table_entry, map_page, map_loop, vmm_map, addrspace_of}
use aeolos.Mm.Vmm.Walk.{translate}
use aeolos.Mm.Vmm.Next.{IsValid}
use aeolos.Mm.Vmm.Entry.{page_number}
use aeolos.Mm.Vmm.Map.{Maps, AtMostTwo, map_page-MapOutcome}

-- `n` pages from `vaddr` on are mapped to those from `paddr` on, and nothing else has changed.
pub record MapsRange (s : Vmm) (pml4 vaddr paddr n flags : ℕ) (s' : Vmm) : Type 0 where
  pub valid : (level' : ℕ → ℕ) × IsValid s' level' pml4
  pub limit : s'.pmm.phys_limit ≡ s.pmm.phys_limit
  pub mapped :
      (j : ℕ)
      → j < n
      → translate s'.mem pml4 (vaddr + j * page_size)
        ≡ some (make_table_entry (paddr + j * page_size) flags)
  pub others :
      (w : ℕ)
      → ((j : ℕ) → j < n → page_number w ≢ page_number (vaddr + j * page_size))
      → translate s'.mem pml4 w ≡ translate s.mem pml4 w

-- `n` calls of `map_page` from `vaddr` and `paddr` on that all succeed lead from one state to
-- another.
pub data Runs (cr3 pml4 flags : ℕ) : ℕ → ℕ → ℕ → Vmm → Vmm → Type 0 where
  done : {vaddr paddr : ℕ} {s : Vmm} → Runs cr3 pml4 flags vaddr paddr 0 s s
  page :
      {vaddr paddr n : ℕ} {s s1 s' : Vmm}
      → map_page cr3 pml4 vaddr paddr flags s ≡ some s1
      → Runs cr3 pml4 flags (vaddr + page_size) (paddr + page_size) n s1 s'
      → Runs cr3 pml4 flags vaddr paddr (suc n) s s'

-- A failure: the first `i` pages are mapped, the call for the next one fails in the state that this
-- has led to, and at most two pages are free in that state.
abbrev pub RangeOutcome : Vmm → ℕ → ℕ → ℕ → ℕ → ℕ → ℕ → Option Vmm → Type 0
RangeOutcome s cr3 pml4 vaddr paddr n flags none =
    (i : ℕ) × (s1 : Vmm) × (i < n)
    × Runs cr3 pml4 flags vaddr paddr i s s1
    × MapsRange s pml4 vaddr paddr i flags s1
    × (map_page cr3 pml4 (vaddr + i * page_size) (paddr + i * page_size) flags s1 ≡ none)
    × AtMostTwo s1.pmm
RangeOutcome s cr3 pml4 vaddr paddr n flags (some s') =
    Runs cr3 pml4 flags vaddr paddr n s s' × MapsRange s pml4 vaddr paddr n flags s'

-- No page is a range that is mapped, and one more page in front of a range is one.
MapsRange-zero :
    (s : Vmm) (level : ℕ → ℕ) (pml4 vaddr paddr flags : ℕ)
    → IsValid s level pml4
    → MapsRange s pml4 vaddr paddr 0 flags s
MapsRange-zero s level pml4 vaddr paddr flags v = record {
  valid = (level, v);
  limit = refl;
  mapped = λ j lt. absurd (omega arith);
  others = λ w other. refl;
}

module _ (s s1 : Vmm) (cr3 pml4 v p v1 p1 flags : ℕ) (first : Maps s cr3 pml4 v p flags s1)
    (next : v1 ≡ v + page_size) (next' : p1 ≡ p + page_size) where
  MapsRange-suc :
      (s2 : Vmm) (n : ℕ)
      → n < 2 ^ 36
      → MapsRange s1 pml4 v1 p1 n flags s2
      → MapsRange s pml4 v p (suc n) flags s2
  MapsRange-suc s2 n small rest =
      let at : (j : ℕ) → v1 + j * page_size ≡ v + suc j * page_size = λ j. omega arith in
      let at' : (j : ℕ) → p1 + j * page_size ≡ p + suc j * page_size = λ j. omega arith in
      let apart : (j : ℕ) → j < n → page_number v ≢ page_number (v1 + j * page_size) =
        λ j lt same. absurd (omega arith) in
      let here : v + 0 * page_size ≡ v = omega arith in
      let here' : p + 0 * page_size ≡ p = omega arith in
      record {
        valid = rest.valid;
        limit = rest.limit ∙ first.limit;
        mapped = λ j.
            elim j
              as (λ j.
                j < suc n
                → translate s2.mem pml4 (v + j * page_size)
                  ≡ some (make_table_entry (p + j * page_size) flags)) [
                    | zero ↦ λ lt. rw (here, here') (rest.others v apart ∙ first.mapped)
                    | suc j' ↦ λ lt. rw (← at j', ← at' j') (rest.mapped j' (omega arith))
                  ];
        others = λ w other.
            rest.others w (λ j lt same. other (suc j) (omega arith) (same ∙ ap page_number (at j)))
            ∙ first.others w (λ same. other 0 (omega arith) (same ∙ ap page_number (sym here)));
      }

  Runs-suc :
      (s2 : Vmm) (n : ℕ)
      → map_page cr3 pml4 v p flags s ≡ some s1
      → Runs cr3 pml4 flags v1 p1 n s1 s2
      → Runs cr3 pml4 flags v p (suc n) s s2
  Runs-suc s2 n e rest = page e (rw (← next, ← next') rest)

  RangeOutcome-suc :
      (r : Option Vmm) (n : ℕ)
      → n < 2 ^ 36
      → map_page cr3 pml4 v p flags s ≡ some s1
      → RangeOutcome s1 cr3 pml4 v1 p1 n flags r
      → RangeOutcome s cr3 pml4 v p (suc n) flags r
  RangeOutcome-suc none n small e (i, s2, lt, runs, some_pages, fails, few) =
      let at : v + suc i * page_size ≡ v1 + i * page_size = omega arith in
      let at' : p + suc i * page_size ≡ p1 + i * page_size = omega arith in
      (
        suc i,
        s2,
        omega arith,
        Runs-suc s2 i e runs,
        MapsRange-suc s2 i (omega arith) some_pages,
        rw (at, at') fails,
        few,
      )
  RangeOutcome-suc (some s2) n small e (runs, rest) =
      (Runs-suc s2 n e runs, MapsRange-suc s2 n small rest)

module _ (cr3 pml4 vaddr paddr flags np : ℕ) (odd : flags % 2 ≡ 1) (small : flags < 4096)
    (size : np < 2 ^ 36) (fits : vaddr + np * page_size ≤ 2 ^ 64)
    (fits' : paddr + np * page_size ≤ 2 ^ 64) where
  map_loop-RangeOutcome :
      (n k : ℕ) (s : Vmm) (level : ℕ → ℕ)
      → k + n ≡ np
      → IsValid s level pml4
      → RangeOutcome s cr3 pml4
          (vaddr + k * page_size)
          (paddr + k * page_size)
          n
          flags
          (map_loop n cr3 pml4 vaddr paddr flags (k * page_size) (np * page_size) s)
  unfolding map_loop
  map_loop-RangeOutcome zero k s level e v =
      (done, MapsRange-zero s level pml4 (vaddr + k * page_size) (paddr + k * page_size) flags v)
  map_loop-RangeOutcome (suc n) k s level e v =
      let v0 = vaddr + k * page_size in
      let p0 = paddr + k * page_size in
      let go : ltb (k * page_size) (np * page_size) ≡ true = ground arith in
      let whole : v0 % 2 ^ 64 ≡ v0 = omega arith in
      let whole' : p0 % 2 ^ 64 ≡ p0 = omega arith in
      let step : (k * page_size + page_size) % 2 ^ 64 ≡ suc k * page_size = omega arith in
      let (front, front') : (v0 + 0 * page_size ≡ v0) × (p0 + 0 * page_size ≡ p0) =
        (omega arith, omega arith) in
      let out = map_page-MapOutcome s level cr3 pml4 v0 p0 flags v odd small in
      elim (Option-cases (map_page cr3 pml4 v0 p0 flags s)) [
        | inl f ↦
            rw (go, whole, whole', f)
              (
                0,
                s,
                omega arith,
                done,
                MapsRange-zero s level pml4 v0 p0 flags v,
                rw (front, front') f,
                rw f at out,
              )
        | inr (s1, f) ↦
            let first : Maps s cr3 pml4 v0 p0 flags s1 = rw f at out in
            let (level1, v1) = first.valid in
            rw (go, whole, whole', f, step)
              (RangeOutcome-suc s s1 cr3 pml4 v0 p0 (vaddr + suc k * page_size)
                (paddr + suc k * page_size) flags first (omega arith) (omega arith)
                (map_loop n cr3 pml4 vaddr paddr flags (suc k * page_size) (np * page_size) s1) n
                (omega arith) f (map_loop-RangeOutcome n (suc k) s1 level1 (omega arith) v1))
      ]

-- `vmm_map` maps every page of the range to the page of the physical range at the same distance,
-- with the flags, and translates every address outside the range as before; or it fails, and then
-- it has mapped some of the first pages, `map_page` fails at the next one in the state that this
-- has led to, and at most two pages are free in that state. The
-- address space is the kernel's where none is given. The range is below 2^36 pages, neither range
-- passes the end of the address space, the tables are a tree of pages in use, and the flags are below
-- 4096 and include "present".
pub vmm_map-RangeOutcome :
    (s : Vmm) (level : ℕ → ℕ) (cr3 kernel : ℕ) (addrspace : Option ℕ) (vaddr paddr np flags : ℕ)
    → IsValid s level (addrspace_of kernel addrspace)
    → flags % 2 ≡ 1
    → flags < 4096
    → np < 2 ^ 36
    → vaddr + np * page_size ≤ 2 ^ 64
    → paddr + np * page_size ≤ 2 ^ 64
    → RangeOutcome s cr3
        (addrspace_of kernel addrspace)
        vaddr
        paddr
        np
        flags
        (vmm_map cr3 kernel addrspace vaddr paddr np flags s)
unfolding vmm_map
vmm_map-RangeOutcome s level cr3 kernel addrspace vaddr paddr np flags v odd small size fits fits' =
    let whole : np * page_size % 2 ^ 64 ≡ np * page_size = omega arith in
    let zero_pages : 0 * page_size ≡ 0 = omega arith in
    let (front, front') : (vaddr + 0 * page_size ≡ vaddr) × (paddr + 0 * page_size ≡ paddr) =
      (omega arith, omega arith) in
    let all =
      map_loop-RangeOutcome cr3 (addrspace_of kernel addrspace) vaddr paddr flags np odd small size
        fits fits' np 0 s level (omega arith) v in
    rw whole (rw (front, front', zero_pages) at all)
