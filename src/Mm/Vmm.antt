-- ===== src/Mm/Vmm.antt =====
-- kernel/mm/vmm.c: page tables. Memory is a function from the addresses of 64-bit words, and a table
-- is 512 words from its address on. The flags of a mapping are below 4096, so that `|` is a sum.
pub mod Walk
pub mod Tree
pub mod Grow
pub mod Fresh
pub mod Next
pub mod Entry
pub mod Map
pub mod Shrink
pub mod Drop
pub mod Tables
pub mod Unmap
pub mod UnmapRange
pub mod Range
pub mod Init
mod Tests
use aeolos.Base.{
  ℕ, zero, suc, ◌+◌, ◌-◌, ◌*◌, ◌/◌, ◌%◌, ◌^◌, Bool, true, false, not, ltb, leb, ◌==◌, ◌&&◌,
  if◌then◌else◌, List, [], ◌∷◌, ◌++◌, Option, none, some,
}
use aeolos.Mm.Pmm.{Pmm, pmm_get, pmm_free, phys_to_virt, virt_to_phys}
use aeolos.Mm.Pmm.Bitmap.{page_size, num_pages}

-- VMM_FLAGS_DEFAULT, VMM_FLAGS_MMIO, VMM_FLAGS_USERMODE
abbrev pub vmm_flags_default : ℕ
vmm_flags_default = 3

abbrev pub vmm_flags_usermode : ℕ
vmm_flags_usermode = 7

-- The words in memory, the pages, and the addresses given to `invlpg`
pub record Vmm : Type 0 where
  pub mem : ℕ → ℕ
  pub pmm : Pmm
  pub flushed : List ℕ

-- `& ~(0xfff)`, `& VMM_FLAG_PRESENT` and MAKE_TABLE_ENTRY
abbrev pub page_of : ℕ → ℕ
page_of e = e / 4096 * 4096

abbrev pub is_present : ℕ → Bool
is_present e = e % 2 == 1

abbrev pub make_table_entry : ℕ → ℕ → ℕ
make_table_entry address flags = page_of address + flags

-- The index of an address at a level: its page table entry's at level 1, `pml4e` at level 4
abbrev pub index : ℕ → ℕ → ℕ
index zero vaddr = 0
index (suc zero) vaddr = vaddr / 0x1000 % 512
index (suc (suc zero)) vaddr = vaddr / 0x200000 % 512
index (suc (suc (suc zero))) vaddr = vaddr / 0x40000000 % 512
index (suc (suc (suc (suc k)))) vaddr = vaddr / 0x8000000000 % 512

abbrev pub entry_at : ℕ → ℕ → ℕ
entry_at table i = table + 8 * i

abbrev pub store : (ℕ → ℕ) → ℕ → ℕ → ℕ → ℕ
store m p x a = if a == p then x else m a

-- `memset(table, 0, PAGE_SIZE)`
abbrev pub clear : (ℕ → ℕ) → ℕ → ℕ → ℕ
clear m table a = if leb table a && ltb a (table + page_size) then 0 else m a

-- The table that the entry at `e` points to, which is made if there is none; `none` is the panic of
-- `pmm_get`.
unfoldable pub next_table : Vmm → ℕ → Option (ℕ × Vmm)
next_table s e =
    if is_present (s.mem e)
    then some (phys_to_virt (page_of (s.mem e)), s)
    else elim (pmm_get s.pmm 1) [
      | none ↦ none
      | some (p, pmm) ↦
          let table = phys_to_virt p in
          let entry = make_table_entry (virt_to_phys table) vmm_flags_usermode in
          some (table, record s { mem = store (clear s.mem table) e entry; pmm = pmm })
    ]

-- `invlpg`, where the address space is the one in use
abbrev pub flush : ℕ → ℕ → ℕ → Vmm → Vmm
flush cr3 pml4 vaddr s =
    if cr3 == virt_to_phys pml4 then record s { flushed = s.flushed ++ (vaddr ∷ []) } else s

-- The last write of `map_page`
unfoldable pub set_page_entry : ℕ → ℕ → ℕ → ℕ → ℕ → ℕ → Vmm → Vmm
set_page_entry cr3 pml4 pt vaddr paddr flags s = flush cr3 pml4 vaddr (record s {
  mem = store s.mem (entry_at pt (index 1 vaddr)) (make_table_entry (page_of paddr) flags);
})

-- `map_page` in the address space whose PML4 is at `pml4`; `cr3` is what the register holds.
unfoldable pub map_page : ℕ → ℕ → ℕ → ℕ → ℕ → Vmm → Option Vmm
map_page cr3 pml4 vaddr paddr flags s = elim (next_table s (entry_at pml4 (index 4 vaddr))) [
  | none ↦ none
  | some (pdpt, s1) ↦ elim (next_table s1 (entry_at pdpt (index 3 vaddr))) [
    | none ↦ none
    | some (pd, s2) ↦ elim (next_table s2 (entry_at pd (index 2 vaddr))) [
      | none ↦ none
      | some (pt, s3) ↦ some (set_page_entry cr3 pml4 pt vaddr paddr flags s3)
    ]
  ]
]

-- `unmap_page` masks the entries with ~0x1ff.
abbrev pub table_at : ℕ → ℕ
table_at e = phys_to_virt (e / 512 * 512)

-- The search for an entry that is not 0, from the `i`-th on
unfoldable pub all_zero : ℕ → ℕ → (ℕ → ℕ) → ℕ → Bool
all_zero zero i mem table = true
all_zero (suc fuel) i mem table =
    let rest = all_zero fuel (suc i) mem table in
    if mem (entry_at table i) == 0 then rest else false

-- `entry = 0` and the `pmm_free` of the table that it pointed to
abbrev pub drop_table : ℕ → ℕ → Vmm → Vmm
drop_table e table s = record s {
  mem = store s.mem e 0;
  pmm = pmm_free s.pmm (virt_to_phys table) 1;
}

-- What follows the write of the entry: tables that are empty are given back, from the page table up.
unfoldable pub drop_tables : ℕ → ℕ → ℕ → ℕ → ℕ → Vmm → Vmm
drop_tables pml4 pdpt pd pt vaddr s =
    let s1 = drop_table (entry_at pd (index 2 vaddr)) pt s in
    let s2 = drop_table (entry_at pdpt (index 3 vaddr)) pd s1 in
    let s3 = drop_table (entry_at pml4 (index 4 vaddr)) pdpt s2 in
    if not (all_zero 512 0 s.mem pt)
    then s
    else if not (all_zero 512 0 s1.mem pd)
    then s1
    else if not (all_zero 512 0 s2.mem pdpt)
    then s2
    else s3

abbrev pub clear_entry : ℕ → ℕ → ℕ → ℕ → Vmm → Vmm
clear_entry cr3 pml4 pt vaddr s =
    flush cr3 pml4 vaddr (record s { mem = store s.mem (entry_at pt (index 1 vaddr)) 0 })

unfoldable pub unmap_page : ℕ → ℕ → ℕ → Vmm → Vmm
unmap_page cr3 pml4 vaddr s =
    let e4 = s.mem (entry_at pml4 (index 4 vaddr)) in
    let pdpt = table_at e4 in
    let e3 = s.mem (entry_at pdpt (index 3 vaddr)) in
    let pd = table_at e3 in
    let e2 = s.mem (entry_at pd (index 2 vaddr)) in
    let pt = table_at e2 in
    let e1 = s.mem (entry_at pt (index 1 vaddr)) in
    if not (is_present e4)
    then s
    else if not (is_present e3)
    then s
    else if not (is_present e2)
    then s
    else if not (is_present e1)
    then s
    else drop_tables pml4 pdpt pd pt vaddr (clear_entry cr3 pml4 pt vaddr s)

-- `addrspace ? addrspace : &kaddrspace`, by the PML4
abbrev pub addrspace_of : ℕ → Option ℕ → ℕ
addrspace_of kernel none = kernel
addrspace_of kernel (some pml4) = pml4

-- The loop of `vmm_map`, on `np` rounds of fuel; `i` stops at `np * PAGE_SIZE`.
unfoldable pub map_loop : ℕ → ℕ → ℕ → ℕ → ℕ → ℕ → ℕ → ℕ → Vmm → Option Vmm
map_loop zero cr3 pml4 vaddr paddr flags i end s = some s
map_loop (suc fuel) cr3 pml4 vaddr paddr flags i end s =
    let page : Option Vmm =
      elim (map_page cr3 pml4 ((vaddr + i) % 2 ^ 64) ((paddr + i) % 2 ^ 64) flags s) [
        | none ↦ none
        | some s' ↦ map_loop fuel cr3 pml4 vaddr paddr flags ((i + page_size) % 2 ^ 64) end s'
      ] in
    if ltb i end then page else some s

unfoldable pub vmm_map : ℕ → ℕ → Option ℕ → ℕ → ℕ → ℕ → ℕ → Vmm → Option Vmm
vmm_map cr3 kernel addrspace vaddr paddr np flags s =
    map_loop np cr3 (addrspace_of kernel addrspace) vaddr paddr flags 0 (np * page_size % 2 ^ 64) s

-- The loop of `vmm_unmap`, like that of `vmm_map`
unfoldable pub unmap_loop : ℕ → ℕ → ℕ → ℕ → ℕ → ℕ → Vmm → Vmm
unmap_loop zero cr3 pml4 vaddr i end s = s
unmap_loop (suc fuel) cr3 pml4 vaddr i end s =
    let rest =
      unmap_loop fuel cr3 pml4 vaddr ((i + page_size) % 2 ^ 64) end
        (unmap_page cr3 pml4 ((vaddr + i) % 2 ^ 64) s) in
    if ltb i end then rest else s

unfoldable pub vmm_unmap : ℕ → ℕ → Option ℕ → ℕ → ℕ → Vmm → Vmm
vmm_unmap cr3 kernel addrspace vaddr np s =
    unmap_loop np cr3 (addrspace_of kernel addrspace) vaddr 0 (np * page_size % 2 ^ 64) s

-- `vmm_init`, with the address from `kmalloc`; the new value of the register is given too.
unfoldable pub vmm_init : ℕ → ℕ → Vmm → Option (ℕ × Vmm)
vmm_init cr3 pml4 s =
    let s0 = record s { mem = clear s.mem pml4 } in
    elim (vmm_map cr3 pml4 none 0xffffffff80000000 0 (num_pages 0x80000000) vmm_flags_default s0) [
      | none ↦ none
      | some s1 ↦
          elim (vmm_map cr3 pml4 none 0xffff800000000000 0 (num_pages s1.pmm.phys_limit)
            vmm_flags_default s1) [ none ↦ none | some s2 ↦ some (virt_to_phys pml4, s2) ]
    ]
