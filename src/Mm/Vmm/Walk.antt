-- ===== src/Mm/Vmm/Walk.antt =====
-- How the processor reads the tables of kernel/mm/vmm.c, which is what they are for.
use aeolos.Base.{ℕ, zero, suc, ◌<◌, if◌then◌else◌, Option, none, some, arith}
use aeolos.Mm.Pmm.{phys_to_virt}
use aeolos.Mm.Vmm.{page_of, is_present, index, entry_at}

-- The table that an entry points to
abbrev pub child : ℕ → ℕ
child e = phys_to_virt (page_of e)

-- The page table of an address, from a table of a level down,
unfoldable pub table_of : (ℕ → ℕ) → ℕ → ℕ → ℕ → Option ℕ
table_of mem zero table vaddr = some table
table_of mem (suc k) table vaddr =
    let e = mem (entry_at table (index (suc (suc k)) vaddr)) in
    let rest = table_of mem k (child e) vaddr in if is_present e then rest else none

-- and the entry of its page.
abbrev pub entry_in : (ℕ → ℕ) → ℕ → Option ℕ → Option ℕ
entry_in mem vaddr none = none
entry_in mem vaddr (some table) =
    let e = mem (entry_at table (index 1 vaddr)) in if is_present e then some e else none

-- The entry that maps an address, where the PML4 is at `pml4`.
abbrev pub translate : (ℕ → ℕ) → ℕ → ℕ → Option ℕ
translate mem pml4 vaddr = entry_in mem vaddr (table_of mem 3 pml4 vaddr)

abbrev pub mapping : (ℕ → ℕ) → ℕ → ℕ → ℕ → Option ℕ
mapping mem k table vaddr = entry_in mem vaddr (table_of mem k table vaddr)

pub index-lt : (k vaddr : ℕ) → index k vaddr < 512
index-lt zero vaddr = omega arith
index-lt (suc zero) vaddr = omega arith
index-lt (suc (suc zero)) vaddr = omega arith
index-lt (suc (suc (suc zero))) vaddr = omega arith
index-lt (suc (suc (suc (suc k)))) vaddr = omega arith
