-- ===== src/Fs/Ramfs/RoundTrip.antt =====
-- What is written to a file of a ramfs through the calls of kernel/fs/vfs is read back.
use aeolos.Base.{
  ℕ, ◌+◌, ◌%◌, ◌^◌, ◌<◌, ◌≤◌, ◌≡◌, refl, ap, ◌∙◌, true, false, ltb, ◌&&◌, ◌==◌, arith, List, some,
  length, get_elem?, set, Bool-cases, inl, inr, and_false, or_false,
}
use aeolos.Fs.Vfs.{Ptr, Inode, NodeDesc, Fsinfo, Vfs, has_size}
use aeolos.Fs.Vfs.Files.{
  entry, entry-set, handle_to_fd, set_seek, is_read, len_asked, is_end, grown, vfs_write, vfs_seek,
  vfs_read,
}
use aeolos.Fs.Ramfs.{Ident, Ramfs, ramfs, ramfs_read, ramfs_write, ramfs_sync, in_memory, read_at}
use aeolos.Fs.Ramfs.Bytes.{read_at-write_at}

-- A read that ends within the file is not cut.
uncut :
    (i : Inode) (seek len : ℕ)
    → seek + len < 2 ^ 64
    → (has_size i ≡ true → seek + len ≤ i.size)
    → (len_asked i seek len ≡ len) × (is_end i seek len ≡ false)
uncut i seek len fits within = elim (Bool-cases (has_size i)) [
  | inl e ↦
      let le = within e in
      let inside : ltb i.size ((seek + len) % 2 ^ 64) ≡ false = ground arith in
      rw inside (refl, refl)
  | inr e ↦ rw e (ground arith, ground arith)
]

-- A read that is not cut, from a ramfs.
read_lem :
    (self : Ptr) (fresh : Ptr → ℕ → ℕ) (fss : Ptr → Fsinfo Ramfs) (s : Vfs Ramfs) (handle len : ℕ)
    (fd : NodeDesc)
    → handle_to_fd s handle ≡ some fd
    → fss (s.inodes fd.inode).fs ≡ ramfs self fresh
    → fd.seek_pos + len < 2 ^ 64
    → (has_size (s.inodes fd.inode) ≡ true → fd.seek_pos + len ≤ (s.inodes fd.inode).size)
    → vfs_read fss s handle len ≡ (
      read_at (s.priv.ident fd.inode).data_at fd.seek_pos len,
      len,
      record (set_seek s handle fd ((fd.seek_pos + len) % 2 ^ 64)) {
        priv = (ramfs_read self fresh fd.inode fd.seek_pos len s.priv).2;
      },
    )
unfolding vfs_read
read_lem self fresh fss s handle len fd open_at driver fits within =
    let (asked, more) = uncut (s.inodes fd.inode) fd.seek_pos len fits within in
    rw (open_at, driver, more, asked, vfs_read)

-- Growing an inode leaves the open files, and the inode is large enough for the write.
module _ (fss : Ptr → Fsinfo Ramfs) (v : Vfs Ramfs) (p : Ptr) (end : ℕ) where
  grown-openfiles : (grown fss v p end).openfiles ≡ v.openfiles
  grown-openfiles = elim (Bool-cases (ltb (v.inodes p).size end && has_size (v.inodes p))) [
    | inl e ↦ rw e
    | inr e ↦ rw e
  ]

  grown-size :
      has_size ((grown fss v p end).inodes p) ≡ true → end ≤ ((grown fss v p end).inodes p).size
  grown-size = elim (Bool-cases (ltb (v.inodes p).size end && has_size (v.inodes p))) [
    | inl e ↦ let at : (p == p) ≡ true = ground arith in rw (e, at) (λ h. omega arith)
    | inr e ↦ rw e (λ h. ground arith)
  ]

-- and its memory is large enough, if it was for the old size; no memory has been overrun.
module _ (self : Ptr) (fresh : Ptr → ℕ → ℕ) (fss : Ptr → Fsinfo Ramfs) (v : Vfs Ramfs) (p : Ptr)
    (end : ℕ) (driver : fss (v.inodes p).fs ≡ ramfs self fresh) where
  synced-alloc : end ≤ ((ramfs_sync self fresh p end v.priv).ident p).alloc_size
  synced-alloc =
      let at : (p == p) ≡ true = ground arith in
      elim (Bool-cases (ltb (v.priv.ident p).alloc_size end)) [
        | inl e ↦ rw (e, at) (omega arith)
        | inr e ↦ rw e (ground arith)
      ]

  synced-overrun : (ramfs_sync self fresh p end v.priv).overrun ≡ v.priv.overrun
  synced-overrun = elim (Bool-cases (ltb (v.priv.ident p).alloc_size end)) [
    | inl e ↦ rw e
    | inr e ↦ rw e
  ]

  grown-alloc :
      has_size (v.inodes p) ≡ true
      → (v.inodes p).size ≤ (v.priv.ident p).alloc_size
      → end ≤ ((grown fss v p end).priv.ident p).alloc_size
  grown-alloc h le = elim (Bool-cases (ltb (v.inodes p).size end)) [
    | inl e ↦ rw (e, h, driver) synced-alloc
    | inr e ↦ rw e (ground arith)
  ]

  grown-overrun : (grown fss v p end).priv.overrun ≡ v.priv.overrun
  grown-overrun = elim (Bool-cases (ltb (v.inodes p).size end && has_size (v.inodes p))) [
    | inl e ↦ rw (e, driver) synced-overrun
    | inr e ↦ rw e
  ]

-- Bytes that end within the memory are in it.
inside :
    (id : Ident) (offset len : ℕ) → offset + len ≤ id.alloc_size → in_memory id offset len ≡ true
inside id offset len le = ground arith

module _ (self : Ptr) (fresh : Ptr → ℕ → ℕ) (fss : Ptr → Fsinfo Ramfs) (v : Vfs Ramfs) (handle : ℕ)
    (fd : NodeDesc) (buff : List ℕ) (open_at : handle_to_fd v handle ≡ some fd)
    (driver : fss (v.inodes fd.inode).fs ≡ ramfs self fresh) (writable : is_read fd.mode ≡ false)
    (fits : fd.seek_pos + length buff < 2 ^ 64) where
  abbrev end_pos : ℕ
  end_pos = fd.seek_pos + length buff

  -- The state that the write leaves.
  abbrev ready : Vfs Ramfs
  ready = grown fss v fd.inode ((fd.seek_pos + length buff) % 2 ^ 64)

  abbrev written : Vfs Ramfs
  written = record (set_seek ready handle fd ((fd.seek_pos + length buff) % 2 ^ 64)) {
    priv = (ramfs_write self fresh fd.inode fd.seek_pos buff ready.priv).1;
  }

  write_lem : vfs_write fss v handle buff ≡ (length buff, written)
  unfolding vfs_write
  write_lem = rw (open_at, driver, writable, vfs_write)

  no_wrap : end_pos % 2 ^ 64 ≡ end_pos
  no_wrap = omega arith

  written-fd : handle_to_fd written handle ≡ some (record fd { seek_pos = end_pos })
  written-fd =
      ap
        (λ l.
          entry
            (get_elem? (set l handle (some (record fd { seek_pos = end_pos % 2 ^ 64 }))) handle))
        (grown-openfiles fss v fd.inode (end_pos % 2 ^ 64))
      ∙ entry-set v.openfiles handle fd _ open_at
      ∙ ap (λ n. some (record fd { seek_pos = n })) no_wrap

  written-size :
      has_size (written.inodes fd.inode) ≡ true → end_pos ≤ (written.inodes fd.inode).size
  written-size h = let le = grown-size fss v fd.inode (end_pos % 2 ^ 64) h in omega arith

  written-fs : (written.inodes fd.inode).fs ≡ (v.inodes fd.inode).fs
  written-fs = ground arith

  -- The seek back, and the read.
  abbrev back : Vfs Ramfs
  back = set_seek written handle (record fd { seek_pos = end_pos }) fd.seek_pos

  seek_lem : vfs_seek written handle fd.seek_pos ≡ (0, back)
  unfolding vfs_seek
  seek_lem = rw (written-fd, vfs_seek, writable, and_false)

  back-fd : handle_to_fd back handle ≡ some fd
  back-fd = entry-set written.openfiles handle _ fd written-fd

  -- The state that the read leaves.
  abbrev after : Vfs Ramfs
  after = record (set_seek back handle fd (end_pos % 2 ^ 64)) {
    priv = (ramfs_read self fresh fd.inode fd.seek_pos (length buff) back.priv).2;
  }

  after-overrun :
      has_size (v.inodes fd.inode) ≡ true
      → (v.inodes fd.inode).size ≤ (v.priv.ident fd.inode).alloc_size
      → after.priv.overrun ≡ v.priv.overrun
  after-overrun h le =
      let i = fd.inode in
      let large : end_pos ≤ (ready.priv.ident i).alloc_size =
        (let all = grown-alloc self fresh fss v i (end_pos % 2 ^ 64) driver h le in omega arith) in
      let room = inside (ready.priv.ident i) fd.seek_pos (length buff) large in
      let at : (i == i) ≡ true = ground arith in
      let room' : in_memory (written.priv.ident i) fd.seek_pos (length buff) ≡ true = rw at room in
      let wrote : written.priv.overrun ≡ ready.priv.overrun = simp (room, or_false) in
      let read : after.priv.overrun ≡ written.priv.overrun = simp (room', or_false) in
      read ∙ wrote ∙ grown-overrun self fresh fss v i (end_pos % 2 ^ 64) driver

  bytes_lem : vfs_read fss back handle (length buff) ≡ (buff, length buff, after)
  bytes_lem =
      let at : (fd.inode == fd.inode) ≡ true = ground arith in
      read_lem self fresh fss back handle (length buff) fd back-fd (rw written-fs driver) fits
        written-size
      ∙ ap (λ b. (b, length buff, after))
          (rw at (read_at-write_at (ready.priv.ident fd.inode).data_at fd.seek_pos buff))

-- What is written to a file of a ramfs is read back: a write of any length through an open
-- handle, a seek back to where it began, and a read of as many bytes succeed, say so, and give the
-- bytes that were written; the handle is then behind them. No call reads or writes outside the
-- memory that the driver has for the file. The node is a file or a block device whose memory is as
-- large as its size says; the handle is not read-only, and its position and the length do not pass
-- 2 ^ 64.
pub write-seek-read :
    (self : Ptr) (fresh : Ptr → ℕ → ℕ) (fss : Ptr → Fsinfo Ramfs) (v : Vfs Ramfs) (handle : ℕ)
    (fd : NodeDesc) (buff : List ℕ)
    → handle_to_fd v handle ≡ some fd
    → fss (v.inodes fd.inode).fs ≡ ramfs self fresh
    → is_read fd.mode ≡ false
    → fd.seek_pos + length buff < 2 ^ 64
    → has_size (v.inodes fd.inode) ≡ true
    → (v.inodes fd.inode).size ≤ (v.priv.ident fd.inode).alloc_size
    → let (count, v1) = vfs_write fss v handle buff in
      let (status, v2) = vfs_seek v1 handle fd.seek_pos in
      let (bytes, count', v3) = vfs_read fss v2 handle (length buff) in
      (count ≡ length buff)
      × (status ≡ 0)
      × (bytes ≡ buff)
      × (count' ≡ length buff)
      × (handle_to_fd v3 handle ≡ some (record fd { seek_pos = fd.seek_pos + length buff }))
      × (v3.priv.overrun ≡ v.priv.overrun)
write-seek-read self fresh fss v handle fd buff open_at driver writable fits sized le =
    let w = write_lem self fresh fss v handle fd buff open_at driver writable fits in
    let k = seek_lem self fresh fss v handle fd buff open_at driver writable fits in
    let b = bytes_lem self fresh fss v handle fd buff open_at driver writable fits in
    let f = back-fd self fresh fss v handle fd buff open_at driver writable fits in
    let n = no_wrap self fresh fss v handle fd buff open_at driver writable fits in
    let back = back self fresh fss v handle fd buff open_at driver writable fits in
    rw (w, k, b)
      (
        refl,
        refl,
        refl,
        refl,
        entry-set back.openfiles handle fd _ f ∙ ap (λ p. some (record fd { seek_pos = p })) n,
        after-overrun self fresh fss v handle fd buff open_at driver writable fits sized le,
      )
