-- ===== src/Fs/Vfs/Tests.antt =====
-- The theorems on the virtual filesystem and on ramfs at a small tree: the root, at 1, holds the
-- file `a`, at 2, and the folder `d`, at 3, which is empty.
use aeolos.Base.{ℕ, ◌≡◌, refl, ◌==◌, arith, if◌then◌else◌, List, [], ◌∷◌, some, none, false}
use aeolos.Memutils.{strncmp}
use aeolos.Fs.Vfs.{
  Ptr, null, NodeType, file, folder, mountpoint, mode_readwrite, Inode, NodeDesc, Fsinfo, Vfs,
}
use aeolos.Fs.Vfs.Path.{
  no_create, create_new, create, path_to_node, walk, take_token, find_child, inode_at,
}
use aeolos.Fs.Vfs.Walk.{IsName, AllTokens, resolve}
use aeolos.Fs.Vfs.Lookup.{Answered, path_to_node_lem, path_to_node-skips_missing}
use aeolos.Fs.Vfs.Create.{IsFresh, create-lookup}
use aeolos.Fs.Vfs.Files.{
  minus_one, handle_to_fd, vfs_open, vfs_close, vfs_seek, vfs_read, vfs_write,
}
use aeolos.Fs.Vfs.Nodes.{vfs_link}
use aeolos.Fs.Vfs.Handles.{vfs_open-close}
use aeolos.Fs.Vfs.Link.{vfs_link-shares}
use aeolos.Fs.Ramfs.{Ramfs, ramfs, create_ident}
use aeolos.Fs.Ramfs.RoundTrip.{write-seek-read}

abbrev fss : Ptr → Fsinfo Ramfs
fss p = ramfs 9 (λ at k. 0)

abbrev node : NodeType → List Ptr → Inode
node type child = record {
  type = type;
  size = 0;
  perms = 0o777;
  uid = 0;
  refcount = 1;
  fs = 9;
  mountpoint = 1;
  child = child;
}

abbrev name_a : List ℕ
name_a = b'a' ∷ []

abbrev name_d : List ℕ
name_d = b'd' ∷ []

abbrev name_x : List ℕ
name_x = b'x' ∷ []

-- Handle 0 is closed, handle 1 is `a`.
abbrev fd_a : NodeDesc
fd_a = record { tnode = 2; inode = 11; mode = mode_readwrite; seek_pos = 3 }

abbrev tree : Vfs Ramfs
tree = record {
  tnodes = λ p.
      if p == 2
      then record { name = name_a; inode = 11; parent = 10 }
      else if p == 3
      then record { name = name_d; inode = 12; parent = 10 }
      else record { name = []; inode = 10; parent = 0 };
  inodes = λ p.
      if p == 10
      then node mountpoint (2 ∷ 3 ∷ [])
      else if p == 12
      then node folder []
      else node file [];
  root = 1;
  fslist = 9 ∷ [];
  openfiles = none ∷ some fd_a ∷ [];
  freed = [];
  priv = record { ident = λ p. create_ident; freed = []; overrun = false };
}

tree-IsFresh : IsFresh tree 13 4
tree-IsFresh = record {
  root_ne = ground arith;
  no_inode = λ p ne. ground arith;
  no_child = λ i. ground arith;
}

abbrev bytes_b : List ℕ
bytes_b = 1 ∷ 3 ∷ []

abbrev bytes_a : List ℕ
bytes_a = 1 ∷ 2 ∷ []

abbrev d_x : List ℕ
d_x = b'/' ∷ b'd' ∷ b'/' ∷ b'x' ∷ []

-- The folder `d`, and `x` that is not in it
in_d : resolve tree 1 (name_d ∷ []) ≡ some 3
unfolding resolve find_child strncmp
in_d = refl

no_x : find_child tree.tnodes name_x (inode_at tree 3).child ≡ none
unfolding find_child
no_x = refl

no_m : find_child tree.tnodes (b'm' ∷ []) (inode_at tree 1).child ≡ none
unfolding find_child strncmp
no_m = refl

x-IsName : IsName name_x
x-IsName = (λ e. cc, (refl, tt))

d-AllTokens : AllTokens (name_d ∷ [])
d-AllTokens = ((refl, tt), tt)

path_to_node_lem_example :
    Answered fss 13 4 file tree 3 name_x create (path_to_node fss 13 4 tree d_x create file)
path_to_node_lem_example =
    path_to_node_lem fss 13 4 file tree (name_d ∷ []) name_x 3 create d-AllTokens x-IsName in_d refl
      (ground arith)

create-lookup_example :
    let (made, v') = path_to_node fss 13 4 tree d_x create_new folder in
    (made ≡ some 4)
    × (path_to_node fss 14 5 v' d_x no_create file ≡ (some 4, v'))
    × (path_to_node fss 14 5 v' d_x create_new file ≡ (none, v'))
    × ((inode_at v' 4).type ≡ folder)
create-lookup_example =
    create-lookup fss 13 4 14 5 folder file tree (name_d ∷ []) name_x 3 tree-IsFresh (ground arith)
      d-AllTokens x-IsName (omega arith, tt) in_d refl no_x

-- The path `/m/a` is answered as `/a` is, since there is no `m`.
path_to_node-skips_missing_example :
    path_to_node fss 13 4 tree (b'/' ∷ b'm' ∷ b'/' ∷ b'a' ∷ []) no_create file
    ≡ path_to_node fss 13 4 tree (b'/' ∷ b'a' ∷ []) no_create file
path_to_node-skips_missing_example =
    path_to_node-skips_missing fss 13 4 file tree (b'm' ∷ []) b'a' [] no_create (refl, tt) refl no_m

-- The file `a`
abbrev a_path : List ℕ
a_path = b'/' ∷ b'a' ∷ []

found_a : path_to_node fss null null tree a_path no_create file ≡ (some 2, tree)
unfolding path_to_node walk take_token find_child strncmp
found_a = refl

vfs_open-close_example :
    let (handle, v1) = vfs_open fss tree a_path mode_readwrite in
    let (status, v2) = vfs_close v1 2 in
    (handle ≡ some 2)
    × (handle_to_fd v1 2
        ≡ some (record { tnode = 2; inode = 11; mode = mode_readwrite; seek_pos = 0 }))
    × (status ≡ 0)
    × (handle_to_fd v2 2 ≡ none)
    × (vfs_close v2 2 ≡ (minus_one, v2))
    × (v2.inodes 11 ≡ tree.inodes 11)
vfs_open-close_example = vfs_open-close fss tree a_path mode_readwrite 2 11 found_a (omega arith)

write-seek-read_example :
    let (count, v1) = vfs_write fss tree 1 (7 ∷ 8 ∷ []) in
    let (status, v2) = vfs_seek v1 1 3 in
    let (bytes, count', v3) = vfs_read fss v2 1 2 in
    (count ≡ 2)
    × (status ≡ 0)
    × (bytes ≡ 7 ∷ 8 ∷ [])
    × (count' ≡ 2)
    × (handle_to_fd v3 1 ≡ some (record fd_a { seek_pos = 5 }))
    × (v3.priv.overrun ≡ false)
write-seek-read_example =
    write-seek-read 9 (λ at k. 0) fss tree 1 fd_a (7 ∷ 8 ∷ []) refl refl refl (omega arith) refl
      (omega arith)

-- The file `a` gets the second name `/d/x`.
vfs_link-shares_example :
    let (status, v') = vfs_link fss 13 4 tree a_path d_x in
    (status ≡ 0) × ((v'.tnodes 4).inode ≡ 11) × ((v'.inodes 11).refcount ≡ 2) × (v'.freed ≡ 13 ∷ [])
vfs_link-shares_example =
    vfs_link-shares fss 13 4 tree a_path 2 (name_d ∷ []) name_x 3 found_a (ground arith)
      tree-IsFresh (ground arith) d-AllTokens x-IsName in_d refl no_x
