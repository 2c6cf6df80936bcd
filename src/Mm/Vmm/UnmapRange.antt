-- ===== src/Mm/Vmm/UnmapRange.antt =====
-- `vmm_unmap` of kernel/mm/vmm.c takes away the mappings of a range, page by page.
use aeolos.Base.{
  ℕ, zero, suc, ◌+◌, ◌*◌, ◌%◌, ◌^◌, ◌<◌, ◌≤◌, ◌≡◌, ◌≢◌, refl, sym, ap, ◌∙◌, true, ltb, Option, none,
  arith,
}
use aeolos.Mm.Pmm.Bitmap.{page_size}
use aeolos.Mm.Vmm.{Vmm, unmap_page, unmap_loop, vmm_unmap, addrspace_of}
use aeolos.Mm.Vmm.Walk.{translate}
use aeolos.Mm.Vmm.Next.{IsValid}
use aeolos.Mm.Vmm.Entry.{page_number}
use aeolos.Mm.Vmm.Unmap.{Unmaps, unmap_page-Unmaps}

-- Nothing is mapped at `n` pages from `vaddr` on, and nothing else has changed.
pub record UnmapsRange (s : Vmm) (pml4 vaddr n : ℕ) (s' : Vmm) : Type 0 where
  pub valid : (level' : ℕ → ℕ) × IsValid s' level' pml4
  pub unmapped : (j : ℕ) → j < n → translate s'.mem pml4 (vaddr + j * page_size) ≡ none
  pub others :
      (w : ℕ)
      → ((j : ℕ) → j < n → page_number w ≢ page_number (vaddr + j * page_size))
      → translate s'.mem pml4 w ≡ translate s.mem pml4 w

UnmapsRange-suc :
    (s s1 s2 : Vmm) (cr3 pml4 v v1 n : ℕ)
    → Unmaps s cr3 pml4 v s1
    → v1 ≡ v + page_size
    → n < 2 ^ 36
    → UnmapsRange s1 pml4 v1 n s2
    → UnmapsRange s pml4 v (suc n) s2
UnmapsRange-suc s s1 s2 cr3 pml4 v v1 n first next small rest =
    let at : (j : ℕ) → v1 + j * page_size ≡ v + suc j * page_size = λ j. omega arith in
    let here : v + 0 * page_size ≡ v = omega arith in
    let apart : (j : ℕ) → j < n → page_number v ≢ page_number (v1 + j * page_size) =
      λ j lt same. absurd (omega arith) in
    record {
      valid = rest.valid;
      unmapped = λ j.
          elim j as (λ j. j < suc n → translate s2.mem pml4 (v + j * page_size) ≡ none) [
            | zero ↦ λ lt. rw here (rest.others v apart ∙ first.unmapped)
            | suc j' ↦ λ lt. rw (← at j') (rest.unmapped j' (omega arith))
          ];
      others = λ w other.
          rest.others w (λ j lt same. other (suc j) (omega arith) (same ∙ ap page_number (at j)))
          ∙ first.others w (λ same. other 0 (omega arith) (same ∙ ap page_number (sym here)));
    }

module _ (cr3 pml4 vaddr np : ℕ) (size : np < 2 ^ 36) (fits : vaddr + np * page_size ≤ 2 ^ 64) where
  unmap_loop-UnmapsRange :
      (n k : ℕ) (s : Vmm) (level : ℕ → ℕ)
      → k + n ≡ np
      → IsValid s level pml4
      → UnmapsRange s pml4
          (vaddr + k * page_size)
          n
          (unmap_loop n cr3 pml4 vaddr (k * page_size) (np * page_size) s)
  unfolding unmap_loop
  unmap_loop-UnmapsRange zero k s level e v = record {
    valid = (level, v);
    unmapped = λ j lt. absurd (omega arith);
    others = λ w other. refl;
  }
  unmap_loop-UnmapsRange (suc n) k s level e v =
      let v0 = vaddr + k * page_size in
      let go : ltb (k * page_size) (np * page_size) ≡ true = ground arith in
      let whole : v0 % 2 ^ 64 ≡ v0 = omega arith in
      let step : (k * page_size + page_size) % 2 ^ 64 ≡ suc k * page_size = omega arith in
      let s1 = unmap_page cr3 pml4 v0 s in
      let first = unmap_page-Unmaps s level cr3 pml4 v0 v in
      let (level1, v1) = first.valid in
      rw (go, whole, step)
        (UnmapsRange-suc s s1 (unmap_loop n cr3 pml4 vaddr (suc k * page_size) (np * page_size) s1)
          cr3 pml4 v0 (vaddr + suc k * page_size) n first (omega arith) (omega arith)
          (unmap_loop-UnmapsRange n (suc k) s1 level1 (omega arith) v1))

-- `vmm_unmap` takes away the mapping of every page of the range, and every address outside the range
-- is translated as before; the tables that are left are a tree of pages in use. The address space
-- is the kernel's where none is given. The range is below 2^36 pages and does not pass the end of
-- the address space, and the tables are such a tree before.
pub vmm_unmap-UnmapsRange :
    (s : Vmm) (level : ℕ → ℕ) (cr3 kernel : ℕ) (addrspace : Option ℕ) (vaddr np : ℕ)
    → IsValid s level (addrspace_of kernel addrspace)
    → np < 2 ^ 36
    → vaddr + np * page_size ≤ 2 ^ 64
    → UnmapsRange s
        (addrspace_of kernel addrspace)
        vaddr
        np
        (vmm_unmap cr3 kernel addrspace vaddr np s)
unfolding vmm_unmap
vmm_unmap-UnmapsRange s level cr3 kernel addrspace vaddr np v size fits =
    let whole : np * page_size % 2 ^ 64 ≡ np * page_size = omega arith in
    let zero_pages : 0 * page_size ≡ 0 = omega arith in
    let front : vaddr + 0 * page_size ≡ vaddr = omega arith in
    let all =
      unmap_loop-UnmapsRange cr3 (addrspace_of kernel addrspace) vaddr np size fits np 0 s level
        (omega arith) v in
    rw whole (rw (front, zero_pages) at all)
