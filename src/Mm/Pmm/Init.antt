-- ===== src/Mm/Pmm/Init.antt =====
-- `pmm_init` of kernel/mm/pmm.c: which pages are free when the kernel starts.
use aeolos.Base.{
  ℕ, zero, suc, ◌+◌, ◌*◌, ◌/◌, ◌%◌, ◌^◌, ◌<◌, ◌≤◌, ◌≡◌, refl, Bool, true, false, not, arith, ◌==◌,
  ◌&&◌, ◌||◌, if◌then◌else◌, inl, inr, Bool-cases, ap, ap₂, sym, ◌∙◌, List, [], ◌∷◌,
}
use aeolos.Mm.Pmm.{
  Pmm, Entry, usable, is_low, holds, pmm_alloc, pmm_free, free_loop, populate_loop, find_loop,
  populated, pmm_init, bitmap_size, zeroed, start, stats_loop, phys_to_virt, virt_to_phys,
}
use aeolos.Mm.Pmm.Bitmap.{
  page_size, num_pages, next, set_page, bmp_isfree, test_page, byte_index, bit_index,
}
use aeolos.Mm.Pmm.Bitmap.Bytes.{byte_test, test-zero}
use aeolos.Mm.Pmm.Bitmap.Loops.{IsBytes, page_free, within}
use aeolos.Mm.Pmm.Alloc.{IsRange, AllFree, pmm_alloc_lem, pmm_free-page_free}

-- No entry of the memory map reaches the last page of the address space.
abbrev pub IsMap : List Entry → Type 0
IsMap [] = Unit {0}
IsMap (e ∷ es) = (e.base + e.len + page_size < 2 ^ 64) × IsMap es

-- Page `p` lies in a usable entry of the map that reaches above the first MiB.
abbrev pub in_usable : List Entry → ℕ → Bool
in_usable [] p = false
in_usable (e ∷ es) p =
    ((not (is_low e) && e.type == usable) && within e.base (num_pages e.len) p) || in_usable es p

-- Some entry can hold a bitmap of this size.
abbrev pub any_holds : ℕ → List Entry → Bool
any_holds size [] = false
any_holds size (e ∷ es) = holds size e || any_holds size es

free_loop-keeps :
    (n i end : ℕ) (s : Pmm)
    → ((free_loop n i end s).bitmap_addr ≡ s.bitmap_addr)
      × ((free_loop n i end s).phys_limit ≡ s.phys_limit)
unfolding free_loop
free_loop-keeps zero i end s = (refl, refl)
free_loop-keeps (suc n) i end s = ground (
  arith,
  free_loop-keeps n (next i) end (record s {
    free_mem = (s.free_mem + (if bmp_isfree s.bitmap i 1 then 0 else page_size)) % 2 ^ 64;
    bitmap = set_page s.bitmap i;
  }),
)

pmm_free-keeps :
    (s : Pmm) (addr n : ℕ)
    → ((pmm_free s addr n).bitmap_addr ≡ s.bitmap_addr)
      × ((pmm_free s addr n).phys_limit ≡ s.phys_limit)
unfolding pmm_free
pmm_free-keeps s addr n = free_loop-keeps n addr ((addr + n * page_size) % 2 ^ 64) s

populate_loop-page_free :
    (es : List Entry) (s : Pmm) (p : ℕ)
    → IsMap es
    → IsBytes s.bitmap
    → IsBytes (populate_loop es s).bitmap
      × (page_free (populate_loop es s).bitmap p ≡ (in_usable es p || page_free s.bitmap p))
      × ((populate_loop es s).bitmap_addr ≡ s.bitmap_addr)
      × ((populate_loop es s).phys_limit ≡ s.phys_limit)
unfolding populate_loop
populate_loop-page_free [] s p m v = (v, refl, refl, refl)
populate_loop-page_free (e ∷ es) s p m v = elim (Bool-cases (not (is_low e) && e.type == usable)) [
  | inl hit ↦
      let freed = pmm_free-page_free s e.base (num_pages e.len) p v (omega arith) in
      let rest = populate_loop-page_free es (pmm_free s e.base (num_pages e.len)) p m.1 freed.0 in
      rw hit (ground (arith, freed.1, rest, pmm_free-keeps s e.base (num_pages e.len)))
  | inr skip ↦ rw (skip, populate_loop) (populate_loop-page_free es s p m.1 v)
]

-- What `find_loop` returns when an entry can hold the bitmap.
record Held (map : List Entry) (size addr : ℕ) : Type 0 where
  entry : Entry
  at : addr ≡ phys_to_virt entry.base
  room : size ≤ entry.len
  bound : entry.base + entry.len + page_size < 2 ^ 64
  covers : (p : ℕ) → within entry.base (num_pages entry.len) p ≡ true → in_usable map p ≡ true

find_loop-Held :
    (map : List Entry) (size old : ℕ)
    → IsMap map
    → any_holds size map ≡ true
    → Held map size (find_loop map size old)
unfolding find_loop
find_loop-Held [] size old m h = absurd (ground arith)
find_loop-Held (e ∷ es) size old m h = elim (Bool-cases (holds size e)) [
  | inl this ↦ rw this (record {
    entry = e;
    at = refl;
    room = ground arith;
    bound = m.0;
    covers = λ p w. ground arith;
  })
  | inr other ↦ rw other (
      let found = find_loop-Held es size old m.1 (ground arith) in
      record {
        entry = found.entry;
        at = found.at;
        room = found.room;
        bound = found.bound;
        covers = λ p w. ground (arith, found.covers p w);
      })
]

alloc_taken :
    (s : Pmm) (a n : ℕ)
    → IsBytes s.bitmap
    → IsRange a n
    → AllFree s a n
    → (p : ℕ)
    → page_free (pmm_alloc s a n).1.bitmap p
      ≡ (if within a n p then false else page_free s.bitmap p)
alloc_taken s a n v range all p = elim (pmm_alloc_lem s a n v range) [
  | inl taken ↦ taken.2 p
  | inr failed ↦ absurd (failed.1 all)
]

-- Memory holds bytes.
abbrev pub IsMemory : (ℕ → ℕ) → Type 0
IsMemory memory = (a : ℕ) → memory a < 256

zeroed-page_free :
    (memory : ℕ → ℕ) (addr size p : ℕ)
    → p < size * 8
    → page_free (zeroed memory addr size) p ≡ false
unfolding test_page
zeroed-page_free memory addr size p h =
    let clear : zeroed memory addr size (byte_index (p * page_size)) ≡ 0 = ground arith in
    ap (λ byte. byte_test byte (bit_index (p * page_size))) clear
    ∙ test-zero (bit_index (p * page_size))

zeroed-IsBytes :
    (memory : ℕ → ℕ) (addr size : ℕ) → IsMemory memory → IsBytes (zeroed memory addr size)
zeroed-IsBytes memory addr size m k = ground (arith, m ((addr + k) % 2 ^ 64))

-- The bitmap's size and address as `pmm_init` computes them.
abbrev pub map_size : List Entry → ℕ
map_size map = bitmap_size (stats_loop map (start map))

abbrev pub map_addr : List Entry → ℕ
map_addr map = virt_to_phys (find_loop map (map_size map) 0)

module _ (memory : ℕ → ℕ) (map : List Entry) (mem : IsMemory memory) (m : IsMap map) where
  populated-page_free :
      (p : ℕ)
      → IsBytes (populated memory map).bitmap
        × (p < map_size map * 8 → page_free (populated memory map).bitmap p ≡ in_usable map p)
        × (in_usable map p ≡ true → page_free (populated memory map).bitmap p ≡ true)
        × ((populated memory map).bitmap_addr ≡ find_loop map (map_size map) 0)
        × (bitmap_size (populated memory map) ≡ map_size map)
  unfolding populated
  populated-page_free p =
      let addr = find_loop map (map_size map) 0 in
      let s = stats_loop map (start map) in
      let bits = zeroed memory addr (map_size map) in
      let (v, page, at, limit) =
        populate_loop-page_free map (record s { bitmap_addr = addr; bitmap = bits }) p m
          (zeroed-IsBytes memory addr (map_size map) mem) in
      (
        v,
        λ h. ground (arith, page, zeroed-page_free memory addr (map_size map) p h),
        λ h. ground (arith, page),
        at,
        ap (λ l. l / (page_size * 8)) limit,
      )

  -- When the kernel starts, the pages of the memory map's usable entries that end above the first
  -- MiB are free, except for the pages that hold the bitmap, and no other page is (one of a usable
  -- entry that ends at or below the first MiB is not), for each page that the bitmap has a zeroed
  -- byte for.
  -- The map has an entry that can hold the bitmap, and no entry at the end of the address space.
  pub pmm_init-page_free :
      any_holds (map_size map) map ≡ true
      → (p : ℕ) → p < map_size map * 8
      → page_free (pmm_init memory map).bitmap p
        ≡ (if within (map_addr map) (num_pages (map_size map)) p then false else in_usable map p)
  unfolding pmm_init
  pmm_init-page_free h p lt =
      let s = populated memory map in
      let (v, page, _, at, size) = populated-page_free p in
      let held = find_loop-Held map (map_size map) 0 m h in
      let addr : virt_to_phys s.bitmap_addr ≡ held.entry.base =
        rw (at, held.at) (omega (arith, held.bound)) in
      let addr' : map_addr map ≡ held.entry.base = rw held.at (omega (arith, held.bound)) in
      let inside : (q : ℕ)
          → within held.entry.base (num_pages (map_size map)) q ≡ true
          → page_free s.bitmap q ≡ true =
        λ q w. (populated-page_free q).2 (held.covers q (ground (arith, held.room, held.bound))) in
      let n = num_pages (map_size map) in
      let taken =
        alloc_taken s held.entry.base n v (omega (arith, held.room, held.bound)) inside p in
      ap₂ (λ a k. page_free (pmm_alloc s a (num_pages k)).1.bitmap p) addr size
      ∙ taken
      ∙ ap₂ (λ a rest. if within a n p then false else rest) (sym addr') (page lt)
