-- ===== src/Fs/Ramfs.antt =====
-- kernel/fs/ramfs/ramfs.c: files in memory. The `ident` of each inode is kept by the inode's
-- address. `ramfs_refresh` does nothing.
mod Bytes
pub mod RoundTrip
use aeolos.Base.{
  ℕ, zero, suc, ◌+◌, Bool, true, false, not, ◌||◌, ltb, leb, ◌==◌, if◌then◌else◌, List, [], ◌∷◌,
  ◌++◌, length,
}
use aeolos.Fs.Vfs.{Ptr, null, NodeType, mountpoint, Inode, Fsinfo, put}
use aeolos.Fs.Vfs.Path.{vfs_alloc_inode}

-- `ramfs_ident_t`: the memory at `data` is the function from offsets; `data` is NULL where
-- `alloc_size` is 0.
pub record Ident : Type 0 where
  pub alloc_size : ℕ
  pub data_at : ℕ → ℕ

-- The idents, and the inodes whose ident has been freed. `overrun` says whether a call has read or
-- written through a NULL `data` or past `alloc_size`, which nothing in the driver prevents: from
-- then on nothing is known of the memory.
pub record Ramfs : Type 0 where
  pub ident : Ptr → Ident
  pub freed : List Ptr
  pub overrun : Bool

-- The bytes at an offset are in the memory at `data`.
abbrev pub in_memory : Ident → ℕ → ℕ → Bool
in_memory id offset len = (len == 0) || leb (offset + len) id.alloc_size

-- `create_ident`; nothing is at the data of a new node, which is NULL.
abbrev pub create_ident : Ident
create_ident = record { alloc_size = 0; data_at = λ k. 0 }

-- `memcpy` from and to an offset
unfoldable pub read_at : (ℕ → ℕ) → ℕ → ℕ → List ℕ
read_at d off zero = []
read_at d off (suc n) = d off ∷ read_at d (off + 1) n

unfoldable pub write_at : (ℕ → ℕ) → ℕ → List ℕ → ℕ → ℕ
write_at d off [] = d
write_at d off (b ∷ bs) = write_at (put d off b) (off + 1) bs

module _ (self : Ptr) (fresh : Ptr → ℕ → ℕ) where
  abbrev pub ramfs_mount : Ptr → Ptr → Ramfs → Inode × Ramfs
  ramfs_mount device at r = (
    vfs_alloc_inode mountpoint 0o777 0 self null,
    record r { ident = put r.ident at create_ident },
  )

  abbrev pub ramfs_mknode : Ptr → Ramfs → Ramfs
  ramfs_mknode at r = record r { ident = put r.ident at create_ident }

  abbrev pub ramfs_read : Ptr → ℕ → ℕ → Ramfs → List ℕ × ℕ × Ramfs
  ramfs_read at offset len r =
      let id = r.ident at in
      (
        read_at id.data_at offset len,
        len,
        record r { overrun = r.overrun || not (in_memory id offset len) },
      )

  abbrev pub ramfs_write : Ptr → ℕ → List ℕ → Ramfs → ℕ × Ramfs
  ramfs_write at offset buff r =
      let id = r.ident at in
      (
        length buff,
        record r {
          ident = put r.ident at (record id { data_at = write_at id.data_at offset buff });
          overrun = r.overrun || not (in_memory id offset (length buff));
        },
      )

  -- `ramfs_sync`, with `kmrealloc`: what the old memory held is kept, and behind it is whatever the
  -- new memory holds.
  abbrev pub ramfs_sync : Ptr → ℕ → Ramfs → Ramfs
  ramfs_sync at size r =
      let id = r.ident at in
      if ltb id.alloc_size size
      then record r {
        ident = put r.ident at (record {
          alloc_size = size;
          data_at = λ k. if ltb k id.alloc_size then id.data_at k else fresh at k;
        });
      }
      else r

  abbrev pub ramfs_setlink : Ptr → ℕ → Ramfs → ℕ × Ramfs
  ramfs_setlink at refcount r =
      (0, if refcount == 0 then record r { freed = r.freed ++ (at ∷ []) } else r)

  -- The filesystem's information
  abbrev pub ramfs : Fsinfo Ramfs
  ramfs = record {
    name = b'r' ∷ b'a' ∷ b'm' ∷ b'f' ∷ b's' ∷ [];
    istemp = true;
    mount = ramfs_mount;
    mknode = ramfs_mknode;
    read = ramfs_read;
    write = ramfs_write;
    sync = ramfs_sync;
    setlink = ramfs_setlink;
  }
