-- ===== src/Mm/Kmalloc/Tests.antt =====
-- The theorem on the allocator at a machine of sixteen pages.
use aeolos.Base.{ℕ, ◌+◌, ◌%◌, ◌^◌, ◌≡◌, ◌⊎◌, none, some, ◌==◌, if◌then◌else◌, arith, []}
use aeolos.Mm.Pmm.{pmm_get, phys_to_virt}
use aeolos.Mm.Pmm.Bitmap.{Bits, page_size}
use aeolos.Mm.Pmm.Bitmap.Loops.{IsBytes, page_free}
use aeolos.Mm.Pmm.Alloc.{AllFree}
use aeolos.Mm.Kmalloc.{Heap, kmalloc, kmfree}
use aeolos.Mm.Kmalloc.Free.{kmfree-kmalloc}

-- All but the first two pages are free.
abbrev bits : Bits
bits k = if k == 0 then 0xfc else if k == 1 then 0xff else 0

abbrev heap : Heap
heap = record {
  pmm = record {
    bitmap_addr = 0;
    bitmap = bits;
    mmap = [];
    phys_limit = 0x10000;
    total_mem = 0x10000;
    free_mem = 0xe000;
    last_used_page = 0;
  };
  metadata = λ p. record { numpages = 0; size = 0 };
  bytes = λ p. 0;
}

bits-IsBytes : IsBytes bits
bits-IsBytes k = ground arith

-- Five thousand bytes are two pages, and one more for the metadata.
kmfree-kmalloc_example :
    ((kmalloc 5000 heap ≡ none) × (pmm_get heap.pmm 3 ≡ none))
    ⊎ ((a : ℕ) × (h' : Heap) × (kmalloc 5000 heap
          ≡ some ((phys_to_virt a + page_size) % 2 ^ 64, h'))
        × AllFree heap.pmm a 3
        × (page_free (kmfree ((phys_to_virt a + page_size) % 2 ^ 64) h').pmm.bitmap 4
            ≡ page_free bits 4))
kmfree-kmalloc_example = kmfree-kmalloc 5000 heap 4 bits-IsBytes (omega arith)
