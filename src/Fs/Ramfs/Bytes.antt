-- ===== src/Fs/Ramfs/Bytes.antt =====
-- What the copies of kernel/fs/ramfs/ramfs.c leave in memory.
use aeolos.Base.{ℕ, ◌+◌, ◌≡◌, refl, ap₂, true, ltb, arith, List, [], ◌∷◌, length}
use aeolos.Fs.Vfs.{put}
use aeolos.Fs.Ramfs.{read_at, write_at}

-- A write does not touch what is before it or behind it.
pub write_at-other :
    (d : ℕ → ℕ) (off : ℕ) (bs : List ℕ) (k : ℕ) → (ltb k off) ≡ true → write_at d off bs k ≡ d k
unfolding write_at
write_at-other d off [] k h = refl
write_at-other d off (b ∷ bs) k h =
    ground (arith, write_at-other (put d off b) (off + 1) bs k (ground arith))

pub read_at-write_at :
    (d : ℕ → ℕ) (off : ℕ) (bs : List ℕ) → read_at (write_at d off bs) off (length bs) ≡ bs
unfolding read_at write_at
read_at-write_at d off [] = refl
read_at-write_at d off (b ∷ bs) =
    let here = write_at-other (put d off b) (off + 1) bs off (ground arith) in
    ap₂ ◌∷◌ (ground arith) (read_at-write_at (put d off b) (off + 1) bs)
