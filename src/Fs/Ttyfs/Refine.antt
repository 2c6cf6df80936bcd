-- ===== src/Fs/Ttyfs/Refine.antt =====
-- `ttyfs_read` and `ttyfs_write` of kernel/fs/ttyfs/ttyfs.c against the queues of the bytes that
-- the two rings hold.
use aeolos.Base.{
  ℕ, zero, suc, ◌+◌, ◌-◌, ◌%◌, ◌^◌, ◌<◌, ◌≡◌, refl, sym, ap, ap₂, ◌∙◌, arith, List, [], ◌∷◌, ◌++◌,
  take, drop, length, length-append, min, get_or,
}
use aeolos.Fs.Ttyfs.{Ident, IsValid, create_ident, read, read_loop, write, write_loop, min_of}
use aeolos.Fs.Ttyfs.Ring.{window, length-window, take-window, drop-window}
use aeolos.Fs.Ttyfs.Write.{last_bytes, end_start, length-write_loop, write_loop-window}

-- What has been typed and not yet read, oldest first.
abbrev pub in_bytes : Ident → List ℕ
in_bytes id = window id.buff_in id.in_start id.in_size

-- What has been written and is still held, oldest first.
abbrev pub out_bytes : Ident → List ℕ
out_bytes id = window id.buff_out id.out_start id.out_size

read_loop-window :
    (id : Ident) (n i h : ℕ) → h ≡ (id.in_start + i) % 16 → read_loop id n i ≡ window id.buff_in h n
unfolding read_loop
read_loop-window id zero i h e = refl
read_loop-window id (suc n) i h e =
    ap₂ ◌∷◌ (ap (λ j. get_or id.buff_in j 0) (sym e))
      (read_loop-window id n (i + 1) ((h + 1) % 16) (omega arith))

-- A node made over two buffers of the ring's size is valid and holds nothing; reading and writing
-- keep it valid, whatever the lengths asked for.
pub Ident-IsValid :
    ((m k : List ℕ)
      → length m ≡ 16
      → length k ≡ 16
      → IsValid (create_ident m k)
        × (in_bytes (create_ident m k) ≡ [])
        × (out_bytes (create_ident m k) ≡ []))
    × ((id : Ident) (len : ℕ) → IsValid id → IsValid (read id len).2)
    × ((id : Ident) (buff : List ℕ) → IsValid id → IsValid (write id buff).1)
unfolding create_ident read write
Ident-IsValid = (
  λ m k hm hk. (omega arith, refl, refl),
  λ id len v. ground arith,
  λ id buff v. ground (arith, length-write_loop buff id.buff_out (id.out_start + id.out_size) 0),
)

-- In a valid node `ttyfs_read` hands over the oldest bytes of the input queue, as many as it
-- holds and at most `len`, returns their number, takes exactly those off the queue, and leaves
-- what was written alone.
pub read_refines :
    (id : Ident) (len : ℕ)
    → IsValid id
    → let n = min len id.in_size in
      let (bytes, result, id') = read id len in
      (bytes ≡ take n (in_bytes id))
      × (result ≡ length bytes)
      × (in_bytes id' ≡ drop n (in_bytes id))
      × (out_bytes id' ≡ out_bytes id)
unfolding read
read_refines id len v =
    let e : min_of len id.in_size ≡ min len id.in_size = ground arith in
    let loop = read_loop-window id (min_of len id.in_size) 0 id.in_start (omega arith) in
    (
      loop
          ∙ ap (window id.buff_in id.in_start) e
          ∙ sym (take-window id.buff_in id.in_start id.in_size (min len id.in_size) (omega arith)),
      sym (ap length loop ∙ length-window id.buff_in id.in_start (min_of len id.in_size)),
      rw e (
          sym (
            drop-window id.buff_in id.in_start id.in_size (min len id.in_size) v.in_start_lt
              (omega arith))),
      refl,
    )

-- In a valid node `ttyfs_write` accepts the whole buffer and returns its length; the output queue
-- is then the last sixteen bytes of what it held followed by the buffer, and the input queue is as
-- before. The condition on the length keeps the sum of two sizes below 2 ^ 64.
pub write_refines :
    (id : Ident) (buff : List ℕ)
    → IsValid id
    → length buff + 16 < 2 ^ 64
    → let (result, id') = write id buff in
      (result ≡ length buff)
      × (out_bytes id' ≡ last_bytes (out_bytes id ++ buff))
      × (in_bytes id' ≡ in_bytes id)
unfolding write
write_refines id buff v fits = (
  refl,
  ap (window (write_loop id.buff_out (id.out_start + id.out_size) buff 0) start)
        (ap (λ k. min_of k 16) small)
      ∙ write_loop-window buff id.buff_out (id.out_start + id.out_size) 0 id.out_start id.out_size
          v.out_full v.out_start_lt v.out_size_le (omega arith)
      ∙ ap (λ k. drop (k - 16) (out_bytes id ++ buff))
          (omega (
            arith,
            length-append (out_bytes id) buff,
            length-window id.buff_out id.out_start id.out_size,
          )),
  refl,
)
  where
    small : (length buff + id.out_size) % 2 ^ 64 ≡ length buff + id.out_size
    small = omega (arith, v.out_size_le)

    start : ℕ
    start = end_start id.out_start id.out_size (length buff)
