-- ===== src/Mm/Pmm/Bitmap.antt =====
-- The bitmap of kernel/mm/pmm.c and the loops over it. A bitmap is the memory from its address on,
-- a function from a byte's index to the byte; a set bit is a free page. The loops of the source
-- step an address by a page until it reaches `addr + numpages * PAGE_SIZE`, which may wrap: they
-- run on `numpages` rounds of fuel, which is enough where that sum does not wrap.
pub mod Bytes
pub mod Loops
use Prim.Native.Nat.{bit_and, bit_or}
use aeolos.Base.{
  ℕ, zero, suc, ◌+◌, ◌-◌, ◌*◌, ◌/◌, ◌%◌, ◌^◌, Bool, true, false, not, ltb, ◌==◌, if◌then◌else◌,
}
use Bytes.{byte_set, byte_clear, byte_test}

abbrev pub Bits : Type 0
Bits = ℕ → ℕ

-- PAGE_SIZE
abbrev pub page_size : ℕ
page_size = 4096

-- NUM_PAGES, on `uint64_t`
abbrev pub num_pages : ℕ → ℕ
num_pages n = (n + page_size - 1) % 2 ^ 64 / page_size

-- `i / (PAGE_SIZE * BMP_PAGES_PER_BYTE)` and `(i / PAGE_SIZE) % BMP_PAGES_PER_BYTE`
abbrev pub byte_index : ℕ → ℕ
byte_index i = i / (page_size * 8)

abbrev pub bit_index : ℕ → ℕ
bit_index i = i / page_size % 8

abbrev store : Bits → ℕ → ℕ → Bits
store bm k v b = if b == k then v else bm b

-- `bitmap[…] &= ~(1 << …)`
unfoldable pub clear_page : Bits → ℕ → Bits
clear_page bm i = store bm (byte_index i) (byte_clear (bm (byte_index i)) (bit_index i))

-- `bitmap[…] |= 1 << …`
unfoldable pub set_page : Bits → ℕ → Bits
set_page bm i = store bm (byte_index i) (byte_set (bm (byte_index i)) (bit_index i))

-- `bitmap[…] & (1 << …)`, as a truth value
unfoldable pub test_page : Bits → ℕ → Bool
test_page bm i = byte_test (bm (byte_index i)) (bit_index i)

-- The loop's step and its end.
abbrev pub next : ℕ → ℕ
next i = (i + page_size) % 2 ^ 64

abbrev pub end_of : ℕ → ℕ → ℕ
end_of addr numpages = (addr + numpages * page_size) % 2 ^ 64

unfoldable pub markused_loop : ℕ → ℕ → ℕ → Bits → Bits
markused_loop zero i end bm = bm
markused_loop (suc fuel) i end bm =
    let rest = markused_loop fuel (next i) end (clear_page bm i) in if ltb i end then rest else bm

-- `bmp_markused`
unfoldable pub bmp_markused : Bits → ℕ → ℕ → Bits
bmp_markused bm addr numpages = markused_loop numpages addr (end_of addr numpages) bm

-- The loop of `bmp_isfree`, with its `break`: `free` is still true when it is entered.
unfoldable pub isfree_loop : ℕ → ℕ → ℕ → Bits → Bool
isfree_loop zero i end bm = true
isfree_loop (suc fuel) i end bm =
    let rest = isfree_loop fuel (next i) end bm in
    if ltb i end then (if test_page bm i then rest else false) else true

-- `bmp_isfree`
unfoldable pub bmp_isfree : Bits → ℕ → ℕ → Bool
bmp_isfree bm addr numpages = isfree_loop numpages addr (end_of addr numpages) bm
