-- ===== src/Fs/Vfs.antt =====
-- kernel/fs/vfs: the virtual filesystem. Its nodes are kept in memories from addresses: a tnode is
-- a name in a folder, an inode is what it names. `vfs_lock` is held over each call, so a call is
-- one step.
pub mod Path
pub mod Walk
pub mod Lookup
pub mod Children
pub mod Create
pub mod Files
pub mod Nodes
pub mod Handles
pub mod Link
pub mod Unlink
mod Vector
mod Tests
use aeolos.Base.{ℕ, Bool, true, false, ◌==◌, if◌then◌else◌, List, ◌||◌, Option}

abbrev pub Ptr : Type 0
Ptr = ℕ

abbrev pub null : Ptr
null = 0

-- VFS_MAX_NAME_LEN
abbrev pub vfs_max_name_len : ℕ
vfs_max_name_len = 256

-- `vfs_node_type_t`
pub data NodeType : Type 0 where
  file folder pipe block_device char_device mountpoint : NodeType

-- `vfs_openmode_t`
pub data OpenMode : Type 0 where
  mode_read mode_write mode_readwrite : OpenMode

-- `_vfs_tnode_t`; its `sibling` is never used.
pub record Tnode : Type 0 where
  pub name : List ℕ
  pub inode : Ptr
  pub parent : Ptr

-- `_vfs_inode_t`; what its `ident` points to is the filesystem's own state.
pub record Inode : Type 0 where
  pub type : NodeType
  pub size : ℕ
  pub perms : ℕ
  pub uid : ℕ
  pub refcount : ℕ
  pub fs : Ptr
  pub mountpoint : Ptr
  pub child : List Ptr

-- `vfs_node_desc_t`
pub record NodeDesc : Type 0 where
  pub tnode : Ptr
  pub inode : Ptr
  pub mode : OpenMode
  pub seek_pos : ℕ

-- `vfs_fsinfo_t`: a filesystem's functions, over the state `F` that the filesystems keep behind the
-- inodes' `ident`. Of an inode they are given the address and the fields that they look at. `mount`
-- gets the address of the inode that it makes. The results of `mknode`, `sync` and `refresh` are
-- never looked at.
pub record Fsinfo (F : Type 0) : Type 0 where
  pub name : List ℕ
  pub istemp : Bool
  pub mount : Ptr → Ptr → F → Inode × F
  pub mknode : Ptr → F → F
  pub read : Ptr → ℕ → ℕ → F → List ℕ × ℕ × F
  pub write : Ptr → ℕ → List ℕ → F → ℕ × F
  pub sync : Ptr → ℕ → F → F
  pub setlink : Ptr → ℕ → F → ℕ × F

-- The nodes in memory, `vfs_root`, the registered filesystems in order, the open files of the
-- current task, and the nodes that have been given to `kmfree`.
pub record Vfs (F : Type 0) : Type 0 where
  pub tnodes : Ptr → Tnode
  pub inodes : Ptr → Inode
  pub root : Ptr
  pub fslist : List Ptr
  pub openfiles : List (Option NodeDesc)
  pub freed : List Ptr
  pub priv : F

-- IS_TRAVERSABLE
abbrev pub is_traversable : Inode → Bool
is_traversable i = elim i.type [ folder ↦ true | mountpoint ↦ true | _ ↦ false ]

-- HAS_SIZE of readwrite.c
abbrev pub has_size : Inode → Bool
has_size i = elim i.type [ block_device ↦ true | file ↦ true | _ ↦ false ]

-- Writes of a whole node
abbrev pub put {ℓ} : {A : Type ℓ} → (Ptr → A) → Ptr → A → Ptr → A
put m p x a = if a == p then x else m a
