-- ===== src/Mm/Vmm/Tests.antt =====
-- The theorems on the page tables, at empty tables and where a page is mapped.
use aeolos.Base.{ℕ, ◌≡◌, refl, fun_ext, arith, ◌==◌, if◌then◌else◌, [], Option, none, some}
use aeolos.Mm.Pmm.{Pmm}
use aeolos.Mm.Pmm.Bitmap.{test_page}
use aeolos.Mm.Pmm.Bitmap.Bytes.{byte_test}
use aeolos.Mm.Vmm.{Vmm, clear, vmm_init, unmap_page, map_page, vmm_map}
use aeolos.Mm.Vmm.Tree.{IsTree}
use aeolos.Mm.Vmm.Next.{IsValid}
use aeolos.Mm.Vmm.Map.{MapOutcome, map_page-MapOutcome}
use aeolos.Mm.Vmm.Init.{InitOutcome, vmm_init-InitOutcome}
use aeolos.Mm.Vmm.Unmap.{Unmaps, unmap_page-Unmaps}
use aeolos.Mm.Vmm.Range.{RangeOutcome, vmm_map-RangeOutcome}

-- Sixteen pages, of which all but the first two are free; the PML4 is the second.
abbrev machine : Pmm
machine = record {
  bitmap_addr = 0;
  bitmap = λ k. if k == 0 then 0xfc else if k == 1 then 0xff else 0;
  mmap = [];
  phys_limit = 0x10000;
  total_mem = 0x10000;
  free_mem = 0xe000;
  last_used_page = 0;
}

abbrev root_table : ℕ
root_table = 0xffff800000001000

abbrev blank : Vmm
blank = record { mem = λ a. 0; pmm = machine; flushed = [] }

abbrev only_root : ℕ → ℕ
only_root t = if t == root_table then 4 else 0

blank-IsTree : IsTree blank.mem only_root root_table
blank-IsTree = record {
  root = refl;
  top = λ t. ground arith;
  aligned = λ t l. ground arith;
  inside = λ t l. ground arith;
  plain = λ t i l lt e. absurd (ground arith);
  below = λ t i l lt e. absurd (ground arith);
  unshared = λ t i t' i' l l' lt lt' e e' same. absurd (ground arith);
}

blank-IsValid : IsValid blank only_root root_table
unfolding test_page byte_test
blank-IsValid = record {
  tree = blank-IsTree;
  bytes = λ k. ground arith;
  start = refl;
  range = omega arith;
  low = λ t l. let same : t ≡ root_table = ground arith in rw same (omega arith);
  used = λ t l. let same : t ≡ root_table = ground arith in rw same refl;
}

map_page-MapOutcome_example :
    MapOutcome blank 0x1000 root_table 0x400000 0x5000 7
      (map_page 0x1000 root_table 0x400000 0x5000 7 blank)
map_page-MapOutcome_example =
    map_page-MapOutcome blank only_root 0x1000 root_table 0x400000 0x5000 7 blank-IsValid refl
      (omega arith)

vmm_map-RangeOutcome_example :
    RangeOutcome blank 0x1000 root_table 0xffff800000000000 0x0 16 3
      (vmm_map 0x1000 root_table none 0xffff800000000000 0x0 16 3 blank)
vmm_map-RangeOutcome_example =
    vmm_map-RangeOutcome blank only_root 0x1000 root_table none 0xffff800000000000 0x0 16 3
      blank-IsValid refl (omega arith) (omega arith) (omega arith) (omega arith)

cleared-IsValid : IsValid (record blank { mem = clear blank.mem root_table }) only_root root_table
cleared-IsValid =
    let same : clear blank.mem root_table ≡ blank.mem = fun_ext (λ a. ground arith) in
    rw same blank-IsValid

-- The state in which a page is mapped
abbrev state_of : Option Vmm → Vmm
state_of none = blank
state_of (some s) = s

abbrev mapped : Vmm
mapped = state_of (map_page 0x1000 root_table 0x400000 0x5000 7 blank)

outcome-IsValid :
    (r : Option Vmm)
    → MapOutcome blank 0x1000 root_table 0x400000 0x5000 7 r
    → (level : ℕ → ℕ) × IsValid (state_of r) level root_table
outcome-IsValid none few = (only_root, blank-IsValid)
outcome-IsValid (some s) maps = maps.valid

mapped-IsValid : (level : ℕ → ℕ) × IsValid mapped level root_table
mapped-IsValid = outcome-IsValid (map_page 0x1000 root_table 0x400000 0x5000 7 blank) (
    map_page-MapOutcome blank only_root 0x1000 root_table 0x400000 0x5000 7 blank-IsValid refl
      (omega arith))

unmap_page-Unmaps_example :
    Unmaps mapped 0x1000 root_table 0x400000 (unmap_page 0x1000 root_table 0x400000 mapped)
unmap_page-Unmaps_example =
    unmap_page-Unmaps mapped mapped-IsValid.0 0x1000 root_table 0x400000 mapped-IsValid.1

vmm_init-InitOutcome_example : InitOutcome blank 0 root_table (vmm_init 0 root_table blank)
vmm_init-InitOutcome_example =
    vmm_init-InitOutcome blank only_root 0 root_table cleared-IsValid (omega arith)
