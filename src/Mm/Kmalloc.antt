-- ===== src/Mm/Kmalloc.antt =====
-- kernel/lib/kmalloc.c: memory by pages, with a page in front that holds its size.
pub mod Free
mod Tests
use aeolos.Base.{
  ℕ, zero, suc, ◌+◌, ◌-◌, ◌%◌, ◌^◌, Bool, ltb, ◌==◌, if◌then◌else◌, Option, none, some,
}
use aeolos.Memutils.Memory.{memcpy}
use aeolos.Mm.Pmm.{Pmm, pmm_get, pmm_free, phys_to_virt, virt_to_phys}
use aeolos.Mm.Pmm.Bitmap.{page_size, num_pages}

-- `struct metadata`
pub record Metadata : Type 0 where
  pub numpages : ℕ
  pub size : ℕ

-- The pages, the metadata at its addresses, and the bytes of the memory that is given out.
pub record Heap : Type 0 where
  pub pmm : Pmm
  pub metadata : ℕ → Metadata
  pub bytes : ℕ → ℕ

abbrev pub put {ℓ} : {A : Type ℓ} → (ℕ → A) → ℕ → A → ℕ → A
put m p x a = if a == p then x else m a

-- `kmalloc`; `none` is the panic of `pmm_get`.
unfoldable pub kmalloc : ℕ → Heap → Option (ℕ × Heap)
kmalloc size h = elim (pmm_get h.pmm ((num_pages size + 1) % 2 ^ 64)) [
  | none ↦ none
  | some (p, pmm) ↦
      let alloc = phys_to_virt p in
      some (
        (alloc + page_size) % 2 ^ 64,
        record h {
          pmm = pmm;
          metadata = put h.metadata alloc (record { numpages = num_pages size; size = size });
        },
      )
]

abbrev pub metadata_of : ℕ → ℕ
metadata_of addr = (addr + 2 ^ 64 - page_size) % 2 ^ 64

unfoldable pub kmfree : ℕ → Heap → Heap
kmfree addr h =
    let d = metadata_of addr in
    record h { pmm = pmm_free h.pmm (virt_to_phys d) (((h.metadata d).numpages + 1) % 2 ^ 64) }

-- `kmrealloc`: what it does in place, and with new memory.
abbrev pub resized : ℕ → ℕ → Heap → Heap
resized d newsize h = record h {
  metadata = put h.metadata d (record { numpages = num_pages newsize; size = newsize });
}

abbrev pub moved : ℕ → ℕ → ℕ → Heap → Heap
moved addr new newsize h =
    let size = (h.metadata (metadata_of addr)).size in
    let len = if ltb newsize size then newsize else size in
    kmfree addr (record h { bytes = memcpy len addr new h.bytes })

unfoldable pub kmrealloc : ℕ → ℕ → Heap → Option (ℕ × Heap)
kmrealloc addr newsize h =
    let d = metadata_of addr in
    let fresh = kmalloc newsize h in
    let replaced : Option (ℕ × Heap) = elim fresh [
      | none ↦ none
      | some (new, h') ↦ some (new, moved addr new newsize h')
    ] in
    if addr == 0
    then fresh
    else if num_pages (h.metadata d).size == num_pages newsize
    then some (addr, resized d newsize h)
    else replaced
