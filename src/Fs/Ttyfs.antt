-- ===== src/Fs/Ttyfs.antt =====
-- kernel/fs/ttyfs/ttyfs.c: a terminal's input and output rings of sixteen bytes.
-- A ring is the buffer with its `start` and `size` fields; `char` is only moved, so it is a number.
mod Ring
mod Write
pub mod Refine
pub mod Driver
mod Tests
use aeolos.Base.{
  ℕ, ◌+◌, ◌-◌, ◌%◌, ◌^◌, ◌<◌, ◌≤◌, ◌≡◌, List, [], ◌∷◌, get_or, set, ltb, if◌then◌else◌, zero, suc,
  length,
}

-- TTY_BUFFER_SIZE
abbrev pub tty_buffer_size : ℕ
tty_buffer_size = 16

-- MIN
abbrev pub min_of : ℕ → ℕ → ℕ
min_of x y = if ltb x y then x else y

-- `ttyfs_ident_t`
pub record Ident : Type 0 where
  pub buff_in : List ℕ
  pub buff_out : List ℕ
  pub in_start : ℕ
  pub in_size : ℕ
  pub out_start : ℕ
  pub out_size : ℕ

-- `create_ident`: the two buffers are what `kmalloc` returns, with whatever it holds.
pub create_ident : List ℕ → List ℕ → Ident
create_ident mem_in mem_out = record {
  buff_in = mem_in;
  buff_out = mem_out;
  in_start = 0;
  in_size = 0;
  out_start = 0;
  out_size = 0;
}

-- The loop of `ttyfs_read`, from index `i` on with `n` rounds left: the bytes put in the buffer.
pub read_loop : Ident → ℕ → ℕ → List ℕ
read_loop id zero i = []
read_loop id (suc n) i =
    get_or id.buff_in ((id.in_start + i) % tty_buffer_size) 0 ∷ read_loop id n (i + 1)

-- `ttyfs_read`: the bytes that it stores in `buff`, its result, and the new state.
pub read : Ident → ℕ → List ℕ × ℕ × Ident
read id len =
    let rlen = min_of len id.in_size in
    (
      read_loop id rlen 0,
      rlen,
      record id { in_start = (id.in_start + rlen) % tty_buffer_size; in_size = id.in_size - rlen },
    )

-- The loop of `ttyfs_write`, from index `i` on: `buff[i..len)` is the list.
pub write_loop : List ℕ → ℕ → List ℕ → ℕ → List ℕ
write_loop out end [] i = out
write_loop out end (b ∷ bs) i = write_loop (set out ((end + i) % tty_buffer_size) b) end bs (i + 1)

-- `ttyfs_write`: its result and the new state. A `size_t` that is only used modulo the buffer's
-- size may wrap unseen, as sixteen divides 2 ^ 64; `len + out_size` is not, so its wrap is written.
pub write : Ident → List ℕ → ℕ × Ident
write id buff =
    let len = length buff in
    let end = id.out_start + id.out_size in
    let out = write_loop id.buff_out end buff 0 in
    let start =
      if ltb (tty_buffer_size - id.out_size) len
      then (end + len) % tty_buffer_size
      else id.out_start in
    (
      len,
      record id {
        buff_out = out;
        out_start = start;
        out_size = min_of ((len + id.out_size) % 2 ^ 64) tty_buffer_size;
      },
    )

-- Both buffers have the size that the code indexes them by, and both rings lie inside them.
pub record IsValid (id : Ident) : Type 0 where
  pub in_full : length id.buff_in ≡ tty_buffer_size
  pub out_full : length id.buff_out ≡ tty_buffer_size
  pub in_start_lt : id.in_start < tty_buffer_size
  pub in_size_le : id.in_size ≤ tty_buffer_size
  pub out_start_lt : id.out_start < tty_buffer_size
  pub out_size_le : id.out_size ≤ tty_buffer_size
