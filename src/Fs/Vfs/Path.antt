-- ===== src/Fs/Vfs/Path.antt =====
-- `path_to_node` of kernel/fs/vfs/common.c. A path is a C string of which the leading slash has
-- been tested; `tmpbuff` is the list of the characters that it holds up to its NUL. The code writes
-- a token to `tmpbuff` without a test of its length, and so the model follows it on paths whose
-- tokens are shorter than VFS_MAX_PATH_LEN; what a longer one overwrites is not modelled.
use aeolos.Base.{
  ℕ, zero, suc, Bool, true, false, not, ◌==◌, ◌&&◌, if◌then◌else◌, List, [], ◌∷◌, ◌++◌, Option,
  none, some, take, length,
}
use aeolos.Memutils.{is_same}
use aeolos.Fs.Vfs.{Ptr, vfs_max_name_len, NodeType, Tnode, Inode, Fsinfo, Vfs, is_traversable, put}

-- The modes NO_CREATE, CREATE and CREATE | ERR_ON_EXIST, in which the function is called.
pub data Mode : Type 0 where
  no_create create create_new : Mode

abbrev pub may_create : Mode → Bool
may_create no_create = false
may_create create = true
may_create create_new = true

abbrev pub must_be_new : Mode → Bool
must_be_new no_create = false
must_be_new create = false
must_be_new create_new = true

abbrev pub slash : ℕ
slash = b'/'

-- The token at the front of a path, and the path behind the slash that ends it, if one does.
unfoldable pub take_token : List ℕ → List ℕ × Option (List ℕ)
take_token [] = ([], none)
take_token (c ∷ cs) =
    let (token, rest) = take_token cs in if c == slash then ([], some cs) else (c ∷ token, rest)

-- The first of the children with the name.
unfoldable pub find_child : (Ptr → Tnode) → List ℕ → List Ptr → Option Ptr
find_child m token [] = none
find_child m token (c ∷ cs) =
    if is_same (m c).name token vfs_max_name_len then some c else find_child m token cs

-- The variables of the loop when it is left: `past` is `curr_index > pathlen`.
pub record Walk : Type 0 where
  pub curr : Ptr
  pub tmpbuff : List ℕ
  pub foundnode : Bool
  pub past : Bool

-- Where the path goes on behind a token.
abbrev pub is_last : Option (List ℕ) → Bool
is_last none = true
is_last (some cs) = false

abbrev pub behind : Option (List ℕ) → List ℕ
behind none = []
behind (some cs) = cs

abbrev pub found_or : Ptr → Option Ptr → Ptr
found_or p none = p
found_or p (some c) = c

abbrev pub is_found : Option Ptr → Bool
is_found none = false
is_found (some c) = true

-- The variables after the `break` of a round
abbrev pub stopped : Walk → List ℕ → Option (List ℕ) → Walk
stopped w token rest = record w { tmpbuff = token; foundnode = false; past = is_last rest }

-- `vfs_alloc_inode` and `vfs_alloc_tnode`, at the addresses that `kmalloc` returns
unfoldable pub vfs_alloc_inode : NodeType → ℕ → ℕ → Ptr → Ptr → Inode
vfs_alloc_inode type perms uid fs mountpoint = record {
  type = type;
  size = 0;
  perms = perms;
  uid = uid;
  refcount = 1;
  fs = fs;
  mountpoint = mountpoint;
  child = [];
}

unfoldable pub vfs_alloc_tnode : List ℕ → Ptr → Ptr → Tnode
vfs_alloc_tnode name inode parent = record {
  name = take vfs_max_name_len name;
  inode = inode;
  parent = parent;
}

module _ {F : Type 0} where
  abbrev pub inode_at : Vfs F → Ptr → Inode
  inode_at v p = v.inodes (v.tnodes p).inode

  -- and after its search for the token in the children of the current node.
  abbrev pub searched : Vfs F → Walk → List ℕ → Option (List ℕ) → Walk
  searched v w token rest =
      let next = find_child v.tnodes token (inode_at v w.curr).child in
      record {
        curr = found_or w.curr next;
        tmpbuff = token;
        foundnode = is_found next;
        past = is_last rest;
      }

  -- The loop over the tokens of the path, with fuel; the last argument is what is left of it.
  unfoldable pub walk : ℕ → Vfs F → Walk → List ℕ → Walk
  walk zero v w path = w
  walk (suc fuel) v w [] = w
  walk (suc fuel) v w (c ∷ cs) =
      let (token, rest) = take_token (c ∷ cs) in
      let go = walk fuel v (searched v w token rest) (behind rest) in
      if is_traversable (inode_at v w.curr) then go else stopped w token rest

  abbrev pub at_root : Vfs F → Walk
  at_root v = record { curr = v.root; tmpbuff = []; foundnode = true; past = false }

  abbrev pub walked : Vfs F → List ℕ → Walk
  walked v path = walk (suc (length path)) v (at_root v) path

  -- The branch that creates the node: its inode at `ni` and its tnode at `nt`.
  unfoldable pub create_at : (Ptr → Fsinfo F) → Ptr → Ptr → NodeType → Walk → Vfs F → Vfs F
  unfolding vfs_alloc_inode vfs_alloc_tnode
  create_at fss ni nt type w v =
      let folder_at = (v.tnodes w.curr).inode in
      let dir = v.inodes folder_at in
      let inodes = put v.inodes ni (vfs_alloc_inode type 0o777 0 dir.fs dir.mountpoint) in
      let tnodes = put v.tnodes nt (vfs_alloc_tnode w.tmpbuff ni folder_at) in
      let pushed =
        put inodes folder_at
          (record (inodes folder_at) { child = (inodes folder_at).child ++ (nt ∷ []) }) in
      record v { inodes = pushed; tnodes = tnodes; priv = (fss dir.fs).mknode ni v.priv }

  -- `path_to_node`: NULL is `none`.
  unfoldable pub path_to_node :
      (Ptr → Fsinfo F) → Ptr → Ptr → Vfs F → List ℕ → Mode → NodeType → Option Ptr × Vfs F
  unfolding walk
  path_to_node fss ni nt v [] mode type = (none, v)
  path_to_node fss ni nt v (c ∷ path) mode type =
      let w = walked v path in
      if not (c == slash)
      then (none, v)
      else if not w.foundnode
      then (if not (is_traversable (inode_at v w.curr))
          then (none, v)
          else if may_create mode && w.past
          then (some nt, create_at fss ni nt type w v)
          else (none, v))
      else if must_be_new mode
      then (none, v)
      else (some w.curr, v)
