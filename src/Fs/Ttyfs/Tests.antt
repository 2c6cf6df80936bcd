-- ===== src/Fs/Ttyfs/Tests.antt =====
-- Runs of the terminal rings, and the theorems about them at a ring that goes round its end.
use aeolos.Base.{ℕ, ◌≡◌, refl, List, [], ◌∷◌, replicate, arith, length, ◌++◌, ◌+◌, ◌%◌, ◌^◌, some}
use aeolos.Fs.Ttyfs.{Ident, IsValid, read, read_loop, write, write_loop}
use aeolos.Fs.Ttyfs.Refine.{in_bytes, out_bytes, read_refines, write_refines}
use aeolos.Fs.Vfs.{Ptr, char_device, mode_read, NodeDesc, Vfs}
use aeolos.Fs.Vfs.Files.{handle_to_fd, vfs_read}
use aeolos.Fs.Ttyfs.Driver.{Ttys, ttyfs, vfs_read-reports}

abbrev zeros : List ℕ
zeros = replicate 16 0

-- Both rings go round the end: the input holds 7, 8, 9, the output 4, 5.
abbrev wrapped : Ident
wrapped = record {
  buff_in = 8 ∷ 9 ∷ replicate 13 0 ++ (7 ∷ []);
  buff_out = 5 ∷ replicate 14 0 ++ (4 ∷ []);
  in_start = 15;
  in_size = 3;
  out_start = 15;
  out_size = 2;
}

wrapped-IsValid : IsValid wrapped
wrapped-IsValid = omega arith

read_runs : (read wrapped 2).0 ≡ 7 ∷ 8 ∷ []
unfolding read read_loop
read_runs = refl

write_runs :
    out_bytes (write wrapped (replicate 14 1 ++ (2 ∷ []))).1 ≡ 5 ∷ replicate 14 1 ++ (2 ∷ [])
unfolding write write_loop
write_runs = refl

read_refines_example :
    let (bytes, result, id') = read wrapped 2 in
    (bytes ≡ 7 ∷ 8 ∷ [])
    × (result ≡ length bytes)
    × (in_bytes id' ≡ 9 ∷ [])
    × (out_bytes id' ≡ 4 ∷ 5 ∷ [])
read_refines_example = read_refines wrapped 2 wrapped-IsValid

write_refines_example :
    let (result, id') = write wrapped (replicate 15 1) in
    (result ≡ 15) × (out_bytes id' ≡ 5 ∷ replicate 15 1) × (in_bytes id' ≡ 7 ∷ 8 ∷ 9 ∷ [])
write_refines_example = write_refines wrapped (replicate 15 1) wrapped-IsValid (omega arith)

-- One terminal, at 7, is open as handle 0.
abbrev fd_tty : NodeDesc
fd_tty = record { tnode = 3; inode = 7; mode = mode_read; seek_pos = 0 }

abbrev terminal : Vfs Ttys
terminal = record {
  tnodes = λ p. record { name = []; inode = 7; parent = 1 };
  inodes = λ p. record {
    type = char_device;
    size = 0;
    perms = 0o777;
    uid = 0;
    refcount = 2;
    fs = 9;
    mountpoint = 1;
    child = [];
  };
  root = 1;
  fslist = 9 ∷ [];
  openfiles = some fd_tty ∷ [];
  freed = [];
  priv = λ p. wrapped;
}

abbrev no_memory : Ptr → List ℕ
no_memory p = []

-- The terminal has three bytes, and a read of five reports five.
vfs_read-reports_example :
    let (bytes, count, v') = vfs_read (λ p. ttyfs 9 no_memory no_memory) terminal 0 5 in
    (count ≡ 5)
    × (bytes ≡ 7 ∷ 8 ∷ 9 ∷ [])
    × (in_bytes (v'.priv 7) ≡ [])
    × (handle_to_fd v' 0 ≡ some (record fd_tty { seek_pos = (0 + length bytes) % 2 ^ 64 }))
vfs_read-reports_example =
    vfs_read-reports 9 no_memory no_memory (λ p. ttyfs 9 no_memory no_memory) terminal 0 5 fd_tty
      refl refl refl wrapped-IsValid
