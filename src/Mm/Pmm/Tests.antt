-- ===== src/Mm/Pmm/Tests.antt =====
-- Runs of the physical memory manager, and its theorems at a small machine.
use aeolos.Base.{ℕ, ◌≡◌, refl, false, arith, ◌==◌, if◌then◌else◌, List, [], ◌∷◌, Option, none, some}
use aeolos.Mm.Pmm.{
  Pmm, Entry, usable, pmm_alloc, pmm_free, pmm_get, pmm_init, get_loop, stats_loop, find_loop,
}
use aeolos.Mm.Pmm.Bitmap.{
  Bits, num_pages, clear_page, test_page, bmp_isfree, bmp_markused, isfree_loop, markused_loop,
}
use aeolos.Mm.Pmm.Bitmap.Bytes.{byte_clear, byte_test}
use aeolos.Mm.Pmm.Bitmap.Loops.{IsBytes, page_free, within}
use aeolos.Mm.Pmm.Alloc.{Outcome, pmm_alloc_lem}
use aeolos.Mm.Pmm.Count.{IsCounted, count_free, pmm-IsCounted}
use aeolos.Mm.Pmm.Init.{in_usable, map_addr, map_size, pmm_init-page_free}

-- Sixteen pages, of which all but the first two are free.
abbrev bits : Bits
bits k = if k == 0 then 0xfc else if k == 1 then 0xff else 0

abbrev machine : Pmm
machine = record {
  bitmap_addr = 0;
  bitmap = bits;
  mmap = [];
  phys_limit = 0x10000;
  total_mem = 0x10000;
  free_mem = 0xe000;
  last_used_page = 0;
}

bits-IsBytes : IsBytes bits
bits-IsBytes k = ground arith

machine-IsCounted : IsCounted 16 machine
unfolding count_free test_page byte_test
machine-IsCounted = record { bytes = bits-IsBytes; exact = refl; small = omega arith }

abbrev address : Option (ℕ × Pmm) → Option (ℕ × ℕ)
address none = none
address (some (a, s)) = some (a, s.free_mem)

get_runs : address (pmm_get machine 3) ≡ some (0x2000, 0xb000)
unfolding pmm_get get_loop pmm_alloc bmp_isfree isfree_loop test_page byte_test bmp_markused
    markused_loop clear_page byte_clear
get_runs = refl

get_too_many : address (pmm_get machine 15) ≡ none
unfolding pmm_get get_loop pmm_alloc bmp_isfree isfree_loop test_page byte_test bmp_markused
    markused_loop clear_page byte_clear
get_too_many = refl

pmm_alloc_lem_example : Outcome machine 0x2000 3 (pmm_alloc machine 0x2000 3)
pmm_alloc_lem_example = pmm_alloc_lem machine 0x2000 3 bits-IsBytes (omega arith)

pmm-IsCounted_example : IsCounted 16 (pmm_alloc machine 0 4).1 × IsCounted 16 (pmm_free machine 0 4)
pmm-IsCounted_example = pmm-IsCounted 16 machine 0 4 machine-IsCounted (omega arith) (omega arith)

-- One MiB of usable memory, whose bitmap takes its first page.
abbrev map : List Entry
map = record { base = 0x100000; len = 0x100000; type = usable } ∷ []

pmm_init-page_free_example :
    page_free (pmm_init (λ a. 0) map).bitmap 257
    ≡ (if within (map_addr map) (num_pages (map_size map)) 257 then false else in_usable map 257)
unfolding stats_loop find_loop
pmm_init-page_free_example =
    pmm_init-page_free (λ a. 0) map (λ a. omega arith) (omega arith) refl 257 (omega arith)
