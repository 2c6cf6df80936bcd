-- ===== src/Fs/Vfs/Nodes.antt =====
-- Calls on nodes: kernel/fs/vfs/link.c, `vfs_create` and `vfs_mount` of misc.c, `vfs_free_nodes` of
-- common.c, and the registered filesystems and `vfs_init` of vfs.c.
use aeolos.Base.{
  ℕ, Bool, true, false, not, ◌==◌, ◌||◌, if◌then◌else◌, List, [], ◌∷◌, ◌++◌, Option, none, some,
}
use aeolos.Memutils.{is_same}
use aeolos.Fs.Vfs.{Ptr, null, NodeType, folder, file, block_device, Fsinfo, Vfs, put}
use aeolos.Fs.Vfs.Path.{no_create, create_new, path_to_node, vfs_alloc_inode}
use aeolos.Fs.Vfs.Files.{minus_one, add_ref, drop_ref, set_refcount}

-- `vec_erase_val`: the first entry with the value. The list is what the vector holds; the bytes past
-- its end that `vec_erase` also copies are those of Fs/Vfs/Vector.antt.
unfoldable pub erase_val : List Ptr → Ptr → List Ptr
erase_val [] p = []
erase_val (x ∷ xs) p = if x == p then xs else x ∷ erase_val xs p

abbrev pub is_folder : NodeType → Bool
is_folder type = elim type [ folder ↦ true | _ ↦ false ]

abbrev pub is_block_device : NodeType → Bool
is_block_device type = elim type [ block_device ↦ true | _ ↦ false ]

abbrev pub is_empty : List Ptr → Bool
is_empty [] = true
is_empty (x ∷ xs) = false

-- The name of a filesystem is a field of sixteen bytes.
abbrev pub fs_name_len : ℕ
fs_name_len = 16

module _ {F : Type 0} (fss : Ptr → Fsinfo F) where
  unfoldable pub vfs_free_nodes : Vfs F → Ptr → Vfs F
  vfs_free_nodes v t =
      let i = (v.tnodes t).inode in
      record v { freed = v.freed ++ (if (v.inodes i).refcount == 0 then i ∷ t ∷ [] else t ∷ []) }

  unfoldable pub vfs_create : Ptr → Ptr → Vfs F → List ℕ → NodeType → ℕ × Vfs F
  vfs_create ni nt v path type =
      let (node, v) = path_to_node fss ni nt v path create_new type in
      elim node [ none ↦ (minus_one, v) | some t ↦ (0, v) ]

  -- The two ends of `vfs_link`, at the new tnode `t` and the inode `i` of the old one.
  unfoldable pub link_fails : Vfs F → Ptr → Vfs F
  unfolding vfs_free_nodes
  link_fails v t =
      let new = (v.tnodes t).inode in
      let (status, priv) = (fss (v.inodes new).fs).setlink new (v.inodes new).refcount v.priv in
      vfs_free_nodes (record v { priv = priv }) t

  unfoldable pub link_succeeds : Vfs F → Ptr → Ptr → Vfs F
  link_succeeds v t i =
      let new = (v.tnodes t).inode in
      let v = set_refcount (add_ref v i) new 0 in
      let (status, priv) = (fss (v.inodes i).fs).setlink new (v.inodes new).refcount v.priv in
      record v {
        tnodes = put v.tnodes t (record (v.tnodes t) { inode = i });
        freed = v.freed ++ (new ∷ []);
        priv = priv;
      }

  -- `vfs_link`, with the addresses of the new inode and tnode
  unfoldable pub vfs_link : Ptr → Ptr → Vfs F → List ℕ → List ℕ → ℕ × Vfs F
  vfs_link ni nt v oldpath newpath =
      let (old, v) = path_to_node fss null null v oldpath no_create file in
      elim old [
        | none ↦ (minus_one, v)
        | some o ↦
            let i = (v.tnodes o).inode in
            let (made, v) = path_to_node fss ni nt v newpath create_new (v.inodes i).type in
            elim made [
              | none ↦ (minus_one, v)
              | some t ↦
                  if not ((v.inodes (v.tnodes t).inode).mountpoint == (v.inodes i).mountpoint)
                  then (minus_one, link_fails v t)
                  else (0, link_succeeds v t i)
            ]
      ]

  -- `vfs_unlink` on the tnode of the path: its result is the filesystem's.
  unfoldable pub unlink_node : Vfs F → Ptr → ℕ × Vfs F
  unfolding vfs_free_nodes erase_val
  unlink_node v t =
      let i = (v.tnodes t).inode in
      let v = drop_ref v i in
      let (status, priv) = (fss (v.inodes i).fs).setlink i (v.inodes i).refcount v.priv in
      let parent = (v.tnodes t).parent in
      let dir = v.inodes parent in
      let erased = put v.inodes parent (record dir { child = erase_val dir.child t }) in
      (status, vfs_free_nodes (record v { inodes = erased; priv = priv }) t)

  unfoldable pub vfs_unlink : Vfs F → List ℕ → ℕ × Vfs F
  vfs_unlink v path =
      let (node, v) = path_to_node fss null null v path no_create file in
      elim node [
        | none ↦ (minus_one, v)
        | some t ↦
            if not (is_empty (v.inodes (v.tnodes t).inode).child)
            then (minus_one, v)
            else unlink_node v t
      ]

  unfoldable pub vfs_register_fs : Vfs F → Ptr → Vfs F
  vfs_register_fs v fs = record v { fslist = v.fslist ++ (fs ∷ []) }

  -- The loop of `vfs_get_fs`
  unfoldable pub get_fs : List ℕ → List Ptr → Option Ptr
  get_fs name [] = none
  get_fs name (p ∷ ps) = if is_same name (fss p).name fs_name_len then some p else get_fs name ps

  unfoldable pub vfs_get_fs : Vfs F → List ℕ → Option Ptr
  unfolding get_fs
  vfs_get_fs v name = get_fs name v.fslist

  -- The device of `vfs_mount`: `none` where the call fails on it, and NULL where none is needed.
  unfoldable pub mount_device : Vfs F → Ptr → List ℕ → Option Ptr
  mount_device v fs device =
      if (fss fs).istemp
      then some null
      else elim (path_to_node fss null null v device no_create file).0 [
        | none ↦ none
        | some t ↦
            let i = (v.tnodes t).inode in if is_block_device (v.inodes i).type then some i else none
      ]

  -- The filesystem's root inode, at `mi`, takes the place of the folder's inode.
  unfoldable pub mount_at : Ptr → Vfs F → Ptr → Ptr → Ptr → Vfs F
  mount_at mi v fs device at =
      let (inode, priv) = (fss fs).mount device mi v.priv in
      record v {
        freed = v.freed ++ ((v.tnodes at).inode ∷ []);
        inodes = put v.inodes mi (record inode { mountpoint = at });
        tnodes = put v.tnodes at (record (v.tnodes at) { inode = mi });
        priv = priv;
      }

  unfoldable pub vfs_mount : Ptr → Vfs F → List ℕ → List ℕ → List ℕ → ℕ × Vfs F
  unfolding mount_at
  vfs_mount mi v device path fsname = elim (vfs_get_fs v fsname) [
    | none ↦ (minus_one, v)
    | some fs ↦ elim (mount_device v fs device) [
      | none ↦ (minus_one, v)
      | some dev ↦ elim (path_to_node fss null null v path no_create file).0 [
        | none ↦ (minus_one, v)
        | some at ↦
            let i = v.inodes (v.tnodes at).inode in
            if not (is_folder i.type) || not (is_empty i.child)
            then (minus_one, v)
            else (0, mount_at mi v fs dev at)
      ]
    ]
  ]

  -- `vfs_init`, with the address of ramfs and those of the first two inodes: the filesystems'
  -- state and the rest of memory are as they are found.
  unfoldable pub vfs_init : Ptr → Ptr → Ptr → Vfs F → Vfs F
  vfs_init ramfs ri mi v =
      let root = record (v.tnodes v.root) { inode = ri } in
      let v = record v {
        tnodes = put v.tnodes v.root root;
        inodes = put v.inodes ri (vfs_alloc_inode folder 0o777 0 null null);
      } in
      let v = vfs_register_fs v ramfs in
      (vfs_mount mi v [] (b'/' ∷ []) (b'r' ∷ b'a' ∷ b'm' ∷ b'f' ∷ b's' ∷ [])).1
