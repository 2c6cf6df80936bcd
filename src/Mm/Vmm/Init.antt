-- ===== src/Mm/Vmm/Init.antt =====
-- `vmm_init` of kernel/mm/vmm.c: the two mappings of the kernel's address space.
use aeolos.Base.{
  ℕ, ◌+◌, ◌*◌, ◌/◌, ◌<◌, ◌≡◌, refl, ap, ◌∙◌, Option, none, some, arith, Option-cases, inl, inr, ◌⊎◌,
  sym,
}
use aeolos.Mm.Pmm.{virt_to_phys}
use aeolos.Mm.Pmm.Bitmap.{page_size, num_pages}
use aeolos.Mm.Vmm.{Vmm, clear, vmm_map, vmm_init}
use aeolos.Mm.Vmm.Walk.{translate}
use aeolos.Mm.Vmm.Next.{IsValid}
use aeolos.Mm.Vmm.Range.{MapsRange, Runs, RangeOutcome, vmm_map-RangeOutcome}

-- The first 2 GiB at the address of the kernel, and all physical memory at its direct mapping
pub record KernelSpace (pml4 limit : ℕ) (s : Vmm) : Type 0 where
  pub valid : (level : ℕ → ℕ) × IsValid s level pml4
  pub kernel :
      (j : ℕ)
      → j < 0x80000
      → translate s.mem pml4 (0xffffffff80000000 + j * page_size) ≡ some (j * page_size + 3)
  pub direct :
      (j : ℕ)
      → j < num_pages limit
      → translate s.mem pml4 (0xffff800000000000 + j * page_size) ≡ some (j * page_size + 3)

-- The state with the cleared PML4
abbrev pub cleared : Vmm → ℕ → Vmm
cleared s pml4 = record s { mem = clear s.mem pml4 }

-- A failure: the mapping of the kernel runs out of memory, or it succeeds and that of all physical
-- memory does, in the state that it has left.
abbrev pub InitOutcome : Vmm → ℕ → ℕ → Option (ℕ × Vmm) → Type 0
InitOutcome s cr3 pml4 none =
    RangeOutcome (cleared s pml4) cr3 pml4 0xffffffff80000000 0 (num_pages 0x80000000) 3 none
    ⊎ ((s1 : Vmm) × Runs cr3 pml4 3 0xffffffff80000000 0 (num_pages 0x80000000) (cleared s pml4) s1
        × RangeOutcome s1 cr3 pml4 0xffff800000000000 0 (num_pages s1.pmm.phys_limit) 3 none)
InitOutcome s cr3 pml4 (some (cr3', s')) =
    (cr3' ≡ virt_to_phys pml4)
    × (s'.pmm.phys_limit ≡ s.pmm.phys_limit)
    × KernelSpace pml4 s.pmm.phys_limit s'

both :
    (s0 s1 s2 : Vmm) (pml4 limit limit' : ℕ)
    → limit' ≡ limit
    → limit < 0x7fff80000000
    → MapsRange s0 pml4 0xffffffff80000000 0 (num_pages 0x80000000) 3 s1
    → MapsRange s1 pml4 0xffff800000000000 0 (num_pages limit) 3 s2
    → KernelSpace pml4 limit' s2
both s0 s1 s2 pml4 limit limit' same_limit small first second =
    let entry : (j : ℕ) → (0 + j * page_size) / 4096 * 4096 + 3 ≡ j * page_size + 3 =
      λ j. omega arith in
    record {
      valid = second.valid;
      kernel = λ j lt.
          second.others (0xffffffff80000000 + j * page_size) (λ k lt' same. omega arith)
          ∙ first.mapped j (omega arith)
          ∙ ap some (entry j);
      direct = λ j lt. second.mapped j (omega arith) ∙ ap some (entry j);
    }

-- `vmm_init` makes an address space in which the first 2 GiB of physical memory are mapped to where
-- the kernel is and all physical memory to its direct mapping, and gives its PML4 for the register;
-- it fails only when `map_page` fails at some page of the first mapping, or at some page of the
-- second after the whole first one, the pages before it being mapped and at most two pages being
-- free in the state that this has led to. The cleared PML4 is a tree of tables by
-- itself, and the physical memory ends below the first mapping.
pub vmm_init-InitOutcome :
    (s : Vmm) (level : ℕ → ℕ) (cr3 pml4 : ℕ)
    → IsValid (cleared s pml4) level pml4
    → s.pmm.phys_limit < 0x7fff80000000
    → InitOutcome s cr3 pml4 (vmm_init cr3 pml4 s)
unfolding vmm_init
vmm_init-InitOutcome s level cr3 pml4 v small =
    let s0 : Vmm = cleared s pml4 in
    let first =
      vmm_map-RangeOutcome s0 level cr3 pml4 none 0xffffffff80000000 0 (num_pages 0x80000000) 3 v
        refl (omega arith) (omega arith) (omega arith) (omega arith) in
    elim (Option-cases (vmm_map cr3 pml4 none 0xffffffff80000000 0 (num_pages 0x80000000) 3 s0)) [
      | inl e ↦ rw (e, vmm_init) (inl (rw e at first))
      | inr (s1, e) ↦
          let (runs, range) : Runs cr3 pml4 3 0xffffffff80000000 0 (num_pages 0x80000000) s0 s1
              × MapsRange s0 pml4 0xffffffff80000000 0 (num_pages 0x80000000) 3 s1 =
            rw e at first in
          let same = range.limit in
          let limit = s1.pmm.phys_limit in
          let second =
            vmm_map-RangeOutcome s1 range.valid.0 cr3 pml4 none 0xffff800000000000 0
              (num_pages limit) 3 range.valid.1 refl (omega arith) (omega arith) (omega arith)
              (omega arith) in
          elim (Option-cases (vmm_map cr3 pml4 none 0xffff800000000000 0 (num_pages limit) 3 s1)) [
            | inl f ↦ rw (e, f, vmm_init) (inr (s1, runs, rw f at second))
            | inr (s2, f) ↦
                let (runs2, range2) : Runs cr3 pml4 3 0xffff800000000000 0 (num_pages limit) s1 s2
                    × MapsRange s1 pml4 0xffff800000000000 0 (num_pages limit) 3 s2 =
                  rw f at second in
                rw (e, f, vmm_init)
                  (
                    refl,
                    range2.limit ∙ same,
                    both s0 s1 s2 pml4 limit s.pmm.phys_limit (sym same) (omega arith) range range2,
                  )
          ]
    ]
