-- ===== src/Fs/Ttyfs/Driver.antt =====
-- kernel/fs/ttyfs/ttyfs.c as a filesystem of kernel/fs/vfs. The `ident` of each inode is kept by
-- the inode's address; `ttyfs_sync`, `ttyfs_refresh` and `ttyfs_setlink` do nothing.
use aeolos.Base.{
  ℕ, ◌+◌, ◌%◌, ◌^◌, ◌≡◌, refl, true, false, ◌==◌, List, [], ◌∷◌, some, length, min, take, drop, ap,
  ◌∙◌, arith, and_false,
}
use aeolos.Fs.Vfs.{Ptr, null, mountpoint, Inode, NodeDesc, Fsinfo, Vfs, has_size, put}
use aeolos.Fs.Vfs.Path.{vfs_alloc_inode}
use aeolos.Fs.Vfs.Files.{entry-set, handle_to_fd, set_seek, len_asked, is_end, vfs_read}
use aeolos.Fs.Ttyfs.{Ident, IsValid, create_ident, read, write}
use aeolos.Fs.Ttyfs.Refine.{in_bytes, read_refines}

abbrev pub Ttys : Type 0
Ttys = Ptr → Ident

-- `self` is the address of the filesystem's information, and `mem_in` and `mem_out` are what the
-- memory of a new ident holds. A mounted root gets no ident.
module _ (self : Ptr) (mem_in mem_out : Ptr → List ℕ) where
  abbrev pub ttyfs_mount : Ptr → Ptr → Ttys → Inode × Ttys
  ttyfs_mount device at f = (vfs_alloc_inode mountpoint 0o777 0 self null, f)

  abbrev pub ttyfs_mknode : Ptr → Ttys → Ttys
  ttyfs_mknode at f = put f at (create_ident (mem_in at) (mem_out at))

  abbrev pub ttyfs_read : Ptr → ℕ → ℕ → Ttys → List ℕ × ℕ × Ttys
  ttyfs_read at offset len f = let (bytes, rlen, id) = read (f at) len in (bytes, rlen, put f at id)

  abbrev pub ttyfs_write : Ptr → ℕ → List ℕ → Ttys → ℕ × Ttys
  ttyfs_write at offset buff f = let (len, id) = write (f at) buff in (len, put f at id)

  abbrev pub ttyfs : Fsinfo Ttys
  ttyfs = record {
    name = b't' ∷ b't' ∷ b'y' ∷ b'f' ∷ b's' ∷ [];
    istemp = true;
    mount = ttyfs_mount;
    mknode = ttyfs_mknode;
    read = ttyfs_read;
    write = ttyfs_write;
    sync = λ at size f. f;
    setlink = λ at refcount f. (0, f);
  }

-- The call, which cuts nothing off for a node without a size.
read_lem :
    (self : Ptr) (mem_in mem_out : Ptr → List ℕ) (fss : Ptr → Fsinfo Ttys) (v : Vfs Ttys)
    (handle len : ℕ) (fd : NodeDesc)
    → handle_to_fd v handle ≡ some fd
    → fss (v.inodes fd.inode).fs ≡ ttyfs self mem_in mem_out
    → has_size (v.inodes fd.inode) ≡ false
    → let (bytes, rlen, id) = read (v.priv fd.inode) len in
      vfs_read fss v handle len ≡ (
        bytes,
        len,
        record (set_seek v handle fd ((fd.seek_pos + rlen) % 2 ^ 64)) {
          priv = put v.priv fd.inode id;
        },
      )
unfolding vfs_read
read_lem self mem_in mem_out fss v handle len fd open_at driver sizeless =
    let whole : len_asked (v.inodes fd.inode) fd.seek_pos len ≡ len = rw (sizeless, and_false) in
    let goes_on : is_end (v.inodes fd.inode) fd.seek_pos len ≡ false = rw (sizeless, and_false) in
    rw (open_at, driver, goes_on, whole, vfs_read)

-- `vfs_read` from a terminal takes the oldest bytes of its input queue, as many as it holds and at
-- most as many as asked for, moves the handle's position on by their number, and reports the length
-- that it was asked for, not that number. The node has no size and its rings are valid.
pub vfs_read-reports :
    (self : Ptr) (mem_in mem_out : Ptr → List ℕ) (fss : Ptr → Fsinfo Ttys) (v : Vfs Ttys)
    (handle len : ℕ) (fd : NodeDesc)
    → handle_to_fd v handle ≡ some fd
    → fss (v.inodes fd.inode).fs ≡ ttyfs self mem_in mem_out
    → has_size (v.inodes fd.inode) ≡ false
    → IsValid (v.priv fd.inode)
    → let id = v.priv fd.inode in
      let n = min len id.in_size in
      let (bytes, count, v') = vfs_read fss v handle len in
      (count ≡ len)
      × (bytes ≡ take n (in_bytes id))
      × (in_bytes (v'.priv fd.inode) ≡ drop n (in_bytes id))
      × (handle_to_fd v' handle
          ≡ some (record fd { seek_pos = (fd.seek_pos + length bytes) % 2 ^ 64 }))
vfs_read-reports self mem_in mem_out fss v handle len fd open_at driver sizeless valid =
    let id = v.priv fd.inode in
    let (taken, result, left, same) = read_refines id len valid in
    let at : (fd.inode == fd.inode) ≡ true = ground arith in
    rw (read_lem self mem_in mem_out fss v handle len fd open_at driver sizeless, at)
      (
        refl,
        taken,
        left,
        entry-set v.openfiles handle fd _ open_at
            ∙ ap (λ k. some (record fd { seek_pos = (fd.seek_pos + k) % 2 ^ 64 })) result,
      )
