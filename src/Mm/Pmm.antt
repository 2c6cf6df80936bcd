-- ===== src/Mm/Pmm.antt =====
-- kernel/mm/pmm.c: the physical memory manager, which keeps one bit for each page. Its static
-- variables are one record, which the operations pass on. `kernel_panic` does not return: `none`.
pub mod Bitmap
pub mod Alloc
pub mod Count
pub mod Get
pub mod Init
mod Tests
use aeolos.Base.{
  ℕ, zero, suc, ◌+◌, ◌-◌, ◌*◌, ◌/◌, ◌%◌, ◌^◌, Bool, true, false, not, ltb, leb, ◌==◌, ◌||◌, ◌&&◌,
  if◌then◌else◌, List, [], ◌∷◌, Option, none, some,
}
use Bitmap.{Bits, page_size, num_pages, set_page, bmp_isfree, bmp_markused, next, end_of}

-- The types of a memory map's entry that the code names
abbrev pub usable : ℕ
usable = 1

abbrev pub acpi_reclaimable : ℕ
acpi_reclaimable = 3

abbrev pub bootloader_reclaimable : ℕ
bootloader_reclaimable = 0x1000

abbrev pub kernel_and_modules : ℕ
kernel_and_modules = 0x1001

-- `struct stivale2_mmap_entry`
pub record Entry : Type 0 where
  pub base : ℕ
  pub len : ℕ
  pub type : ℕ

-- The static variables: the bitmap, as an address and the memory from there on; the memory map;
-- `memstats`; and the `lastusedpage` of `pmm_get`.
pub record Pmm : Type 0 where
  pub bitmap_addr : ℕ
  pub bitmap : Bits
  pub mmap : List Entry
  pub phys_limit : ℕ
  pub total_mem : ℕ
  pub free_mem : ℕ
  pub last_used_page : ℕ

-- The loop of `pmm_free`, on `numpages` rounds of fuel.
unfoldable pub free_loop : ℕ → ℕ → ℕ → Pmm → Pmm
free_loop zero i end s = s
free_loop (suc fuel) i end s =
    let gain = if bmp_isfree s.bitmap i 1 then 0 else page_size in
    let s' = record s { free_mem = (s.free_mem + gain) % 2 ^ 64; bitmap = set_page s.bitmap i } in
    let rest = free_loop fuel (next i) end s' in if ltb i end then rest else s

pub pmm_free : Pmm → ℕ → ℕ → Pmm
pmm_free s addr numpages = free_loop numpages addr (end_of addr numpages) s

pub pmm_alloc : Pmm → ℕ → ℕ → Bool × Pmm
pmm_alloc s addr numpages =
    if bmp_isfree s.bitmap addr numpages
    then (
      true,
      record s {
        bitmap = bmp_markused s.bitmap addr numpages;
        free_mem = (s.free_mem + 2 ^ 64 - numpages * page_size % 2 ^ 64) % 2 ^ 64;
      },
    )
    else (false, s)

-- A loop of `pmm_get`: `none` when it ends with no allocation made.
unfoldable pub get_loop : ℕ → ℕ → ℕ → ℕ → Pmm → Option (ℕ × Pmm)
get_loop zero i limit numpages s = none
get_loop (suc fuel) i limit numpages s =
    let rest = get_loop fuel (next i) limit numpages s in
    let (done, s') = pmm_alloc s i numpages in
    if ltb i limit then (if done then some (i, s') else rest) else none

-- The rounds of a loop that steps by a page and stops at `limit`, and one more.
abbrev pub rounds : ℕ → ℕ
rounds limit = limit / page_size + 2

pub pmm_get : Pmm → ℕ → Option (ℕ × Pmm)
pmm_get s numpages =
    elim (get_loop (rounds s.phys_limit) s.last_used_page s.phys_limit numpages s) [
      | some r ↦ some r
      | none ↦ get_loop (rounds s.last_used_page) 0 s.last_used_page numpages s
    ]

-- `entry.base + entry.length`, and the entries below the first MiB, which the loops of `pmm_init`
-- skip.
abbrev pub top : Entry → ℕ
top e = (e.base + e.len) % 2 ^ 64

abbrev pub is_low : Entry → Bool
is_low e = leb (top e) 0x100000

-- The first loop of `pmm_init`: the memory statistics.
unfoldable pub stats_loop : List Entry → Pmm → Pmm
stats_loop [] s = s
stats_loop (e ∷ es) s =
    let limit = if ltb s.phys_limit (top e) then top e else s.phys_limit in
    let counted =
      e.type == usable
      || e.type == bootloader_reclaimable
      || e.type == acpi_reclaimable
      || e.type == kernel_and_modules in
    let total = if counted then (s.total_mem + e.len) % 2 ^ 64 else s.total_mem in
    stats_loop es (if is_low e then s else record s { phys_limit = limit; total_mem = total })

-- The second loop: the first usable entry that can hold the bitmap. Its base, or the address
-- that `bitmap` already has.
abbrev pub phys_to_virt : ℕ → ℕ
phys_to_virt a = (a + 0xffff_8000_0000_0000) % 2 ^ 64

abbrev pub virt_to_phys : ℕ → ℕ
virt_to_phys a = (a + 2 ^ 64 - 0xffff_8000_0000_0000) % 2 ^ 64

abbrev pub holds : ℕ → Entry → Bool
holds bm_size e = not (is_low e) && (leb bm_size e.len && e.type == usable)

unfoldable pub find_loop : List Entry → ℕ → ℕ → ℕ
find_loop [] bm_size old = old
find_loop (e ∷ es) bm_size old =
    let rest = find_loop es bm_size old in if holds bm_size e then phys_to_virt e.base else rest

-- The third loop: frees the pages of the usable entries.
unfoldable pub populate_loop : List Entry → Pmm → Pmm
populate_loop [] s = s
populate_loop (e ∷ es) s =
    populate_loop es
      (if not (is_low e) && e.type == usable then pmm_free s e.base (num_pages e.len) else s)

abbrev pub start : List Entry → Pmm
start map = record {
  bitmap_addr = 0;
  bitmap = λ k. 0;
  mmap = map;
  phys_limit = 0;
  total_mem = 0;
  free_mem = 0;
  last_used_page = 0;
}

abbrev pub bitmap_size : Pmm → ℕ
bitmap_size s = s.phys_limit / (page_size * 8)

-- `memset(bitmap, 0, bm_size)` over the memory at the bitmap's address
abbrev pub zeroed : (ℕ → ℕ) → ℕ → ℕ → Bits
zeroed memory addr size k = if ltb k size then 0 else memory ((addr + k) % 2 ^ 64)

-- `pmm_init`, before the bitmap's own pages are taken, and whole. `memory` gives the byte at each
-- address when the kernel starts.
unfoldable pub populated : (ℕ → ℕ) → List Entry → Pmm
populated memory map =
    let s = stats_loop map (start map) in
    let addr = find_loop map (bitmap_size s) 0 in
    populate_loop map (record s { bitmap_addr = addr; bitmap = zeroed memory addr (bitmap_size s) })

pub pmm_init : (ℕ → ℕ) → List Entry → Pmm
pmm_init memory map =
    let s = populated memory map in
    (pmm_alloc s (virt_to_phys s.bitmap_addr) (num_pages (bitmap_size s))).1

-- `pmm_reclaim_bootloader_mem`
unfoldable pub reclaim_loop : List Entry → Pmm → Pmm
reclaim_loop [] s = s
reclaim_loop (e ∷ es) s =
    reclaim_loop es
      (if e.type == bootloader_reclaimable then pmm_free s e.base (num_pages e.len) else s)

pub pmm_reclaim_bootloader_mem : Pmm → Pmm
pmm_reclaim_bootloader_mem s = reclaim_loop s.mmap s
