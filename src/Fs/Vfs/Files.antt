-- ===== src/Fs/Vfs/Files.antt =====
-- Handles and open files: kernel/fs/vfs/openclose.c, readwrite.c, getdent.c, and `vfs_chmod` of
-- misc.c. A handle is what its conversion to `size_t` gives, so that a negative one is too large;
-- results are `int64_t`, modulo 2 ^ 64.
use aeolos.Base.{
  ℕ, ◌+◌, ◌-◌, ◌%◌, ◌^◌, Bool, true, false, not, ◌==◌, ◌&&◌, ltb, leb, if◌then◌else◌, List, [], ◌∷◌,
  ◌++◌, Option, none, some, length, get_elem?, set, ◌≡◌, refl, zero, suc,
}
use aeolos.Fs.Vfs.{
  Ptr, null, NodeType, file, OpenMode, mode_read, Inode, NodeDesc, Fsinfo, Vfs, is_traversable,
  has_size, put,
}
use aeolos.Fs.Vfs.Path.{no_create, path_to_node}

abbrev pub minus_one : ℕ
minus_one = 2 ^ 64 - 1

-- The entry of a handle, NULL outside the vector
abbrev pub entry : Option (Option NodeDesc) → Option NodeDesc
entry none = none
entry (some o) = o

abbrev pub is_read : OpenMode → Bool
is_read mode = elim mode [ mode_read ↦ true | _ ↦ false ]

-- What `vfs_read` asks the filesystem for.
abbrev pub len_asked : Inode → ℕ → ℕ → ℕ
len_asked i seek len =
    if ltb i.size ((seek + len) % 2 ^ 64) && has_size i
    then (i.size + 2 ^ 64 - seek) % 2 ^ 64
    else len

-- It ends early only where it has cut the length to 0.
abbrev pub is_end : Inode → ℕ → ℕ → Bool
is_end i seek len = ltb i.size ((seek + len) % 2 ^ 64) && (has_size i && len_asked i seek len == 0)

-- An open file that is replaced
pub entry-set :
    (xs : List (Option NodeDesc)) (h : ℕ) (fd fd' : NodeDesc)
    → entry (get_elem? xs h) ≡ some fd
    → entry (get_elem? (set xs h (some fd')) h) ≡ some fd'
entry-set [] h fd fd' e = cc
entry-set (x ∷ xs) zero fd fd' e = refl
entry-set (x ∷ xs) (suc h) fd fd' e = entry-set xs h fd fd' e

module _ {F : Type 0} where
  abbrev pub handle_to_fd : Vfs F → ℕ → Option NodeDesc
  handle_to_fd v handle = entry (get_elem? v.openfiles handle)

  -- `fd->seek_pos = pos`, and `refcount++` and `refcount--` of an inode
  abbrev pub set_seek : Vfs F → ℕ → NodeDesc → ℕ → Vfs F
  set_seek v handle fd pos = record v {
    openfiles = set v.openfiles handle (some (record fd { seek_pos = pos }));
  }

  abbrev pub set_refcount : Vfs F → Ptr → ℕ → Vfs F
  set_refcount v i n = record v { inodes = put v.inodes i (record (v.inodes i) { refcount = n }) }

  abbrev pub add_ref : Vfs F → Ptr → Vfs F
  add_ref v i = set_refcount v i (((v.inodes i).refcount + 1) % 2 ^ 32)

  abbrev pub drop_ref : Vfs F → Ptr → Vfs F
  drop_ref v i = set_refcount v i (((v.inodes i).refcount + 2 ^ 32 - 1) % 2 ^ 32)

  -- `vfs_open`: the handle, or -1. Nothing is created, so the addresses do not matter.
  unfoldable pub vfs_open : (Ptr → Fsinfo F) → Vfs F → List ℕ → OpenMode → Option ℕ × Vfs F
  vfs_open fss v path mode =
      let (req, v) = path_to_node fss null null v path no_create file in
      elim req [
        | none ↦ (none, v)
        | some t ↦
            let i = (v.tnodes t).inode in
            let v = add_ref v i in
            let nd : NodeDesc = record { tnode = t; inode = i; mode = mode; seek_pos = 0 } in
            (some (length v.openfiles), record v { openfiles = v.openfiles ++ (some nd ∷ []) })
      ]

  unfoldable pub vfs_close : Vfs F → ℕ → ℕ × Vfs F
  vfs_close v handle = elim (handle_to_fd v handle) [
    | none ↦ (minus_one, v)
    | some fd ↦
        let v = drop_ref v fd.inode in (0, record v { openfiles = set v.openfiles handle none })
  ]

  unfoldable pub vfs_seek : Vfs F → ℕ → ℕ → ℕ × Vfs F
  vfs_seek v handle pos = elim (handle_to_fd v handle) [
    | none ↦ (minus_one, v)
    | some fd ↦
        if leb (v.inodes fd.inode).size pos && is_read fd.mode
        then (minus_one, v)
        else (0, set_seek v handle fd pos)
  ]

  -- `vfs_read`: the bytes that are put into the buffer, and the result.
  unfoldable pub vfs_read : (Ptr → Fsinfo F) → Vfs F → ℕ → ℕ → List ℕ × ℕ × Vfs F
  vfs_read fss v handle len = elim (handle_to_fd v handle) [
    | none ↦ ([], 0, v)
    | some fd ↦
        let i = v.inodes fd.inode in
        let asked = len_asked i fd.seek_pos len in
        let (bytes, len_read, priv) = (fss i.fs).read fd.inode fd.seek_pos asked v.priv in
        if is_end i fd.seek_pos len then ([], 0, v) else (
          bytes,
          asked,
          record (set_seek v handle fd ((fd.seek_pos + len_read) % 2 ^ 64)) { priv = priv },
        )
  ]

  -- The inode, grown for a write that ends past its size, and the state after `sync`.
  abbrev pub grown : (Ptr → Fsinfo F) → Vfs F → Ptr → ℕ → Vfs F
  grown fss v p end =
      let i = v.inodes p in
      if ltb i.size end && has_size i
      then record v {
        inodes = put v.inodes p (record i { size = end });
        priv = (fss i.fs).sync p end v.priv;
      }
      else v

  unfoldable pub vfs_write : (Ptr → Fsinfo F) → Vfs F → ℕ → List ℕ → ℕ × Vfs F
  vfs_write fss v handle buff = elim (handle_to_fd v handle) [
    | none ↦ (0, v)
    | some fd ↦
        let len = length buff in
        let v' = grown fss v fd.inode ((fd.seek_pos + len) % 2 ^ 64) in
        let (len_written, priv) =
          (fss (v.inodes fd.inode).fs).write fd.inode fd.seek_pos buff v'.priv in
        if is_read fd.mode then (0, v) else (
          len,
          record (set_seek v' handle fd ((fd.seek_pos + len_written) % 2 ^ 64)) { priv = priv },
        )
  ]

  unfoldable pub vfs_chmod : (Ptr → Fsinfo F) → Vfs F → ℕ → ℕ → ℕ × Vfs F
  vfs_chmod fss v handle newperms = elim (handle_to_fd v handle) [
    | none ↦ (minus_one, v)
    | some fd ↦
        let i = v.inodes fd.inode in
        if is_read fd.mode then (minus_one, v) else (
          0,
          record v {
            inodes = put v.inodes fd.inode (record i { perms = newperms % 2 ^ 32 });
            priv = (fss i.fs).sync fd.inode i.size v.priv;
          },
        )
  ]

  -- `vfs_getdent`: the type and the name that it stores, if it stores any.
  unfoldable pub vfs_getdent : Vfs F → ℕ → Option (NodeType × List ℕ) × ℕ × Vfs F
  vfs_getdent v handle = elim (handle_to_fd v handle) [
    | none ↦ (none, minus_one, v)
    | some fd ↦
        let i = v.inodes fd.inode in
        if not (is_traversable i)
        then (none, minus_one, v)
        else elim (get_elem? i.child fd.seek_pos) [
          | none ↦ (none, 0, v)
          | some c ↦
              let t = v.tnodes c in
              (some ((v.inodes t.inode).type, t.name), 1, set_seek v handle fd (fd.seek_pos + 1))
        ]
  ]
