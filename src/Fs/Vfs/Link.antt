-- ===== src/Fs/Vfs/Link.antt =====
-- `vfs_link` of kernel/fs/vfs/link.c.
use aeolos.Base.{
  ℕ, ◌+◌, ◌%◌, ◌^◌, ◌≡◌, ◌≢◌, refl, ap, ◌∙◌, true, false, not, ◌==◌, if◌then◌else◌, List, [], ◌∷◌,
  ◌++◌, none, some, arith, Bool-cases, inl, inr,
}
use aeolos.Fs.Vfs.{Ptr, null, file, NodeType, Fsinfo, Vfs, is_traversable}
use aeolos.Fs.Vfs.Path.{
  no_create, create_new, slash, find_child, inode_at, create_at, path_to_node, vfs_alloc_inode,
  vfs_alloc_tnode,
}
use aeolos.Fs.Vfs.Walk.{IsName, AllTokens, path_of, resolve}
use aeolos.Fs.Vfs.Lookup.{ended, answer, path_to_node-answer}
use aeolos.Fs.Vfs.Children.{has}
use aeolos.Fs.Vfs.Create.{IsFresh}
use aeolos.Fs.Vfs.Files.{minus_one}
use aeolos.Fs.Vfs.Nodes.{vfs_link, link_fails, link_succeeds, vfs_free_nodes}

has-snoc : (a : Ptr) (xs : List Ptr) → has a (xs ++ (a ∷ [])) ≡ true
has-snoc a [] = ground arith
has-snoc a (x ∷ xs) = ground (arith, has-snoc a xs)

-- The state after the new node has been created, in the folder `d`.
module _ {F : Type 0} (fss : Ptr → Fsinfo F) (ni nt : Ptr) (type : NodeType) (v : Vfs F)
    (fresh : IsFresh v ni nt) (d : Ptr) (t : List ℕ) (d_ne : d ≢ nt) where
  abbrev made : Vfs F
  made = create_at fss ni nt type (ended d t none) v

  abbrev folder_at : Ptr
  folder_at = (v.tnodes d).inode

  folder_ne : (folder_at == ni) ≡ false
  folder_ne = let ne = fresh.no_inode d d_ne in ground arith

  new_inode : (made.tnodes nt).inode ≡ ni
  unfolding create_at vfs_alloc_tnode
  new_inode = let at : (nt == nt) ≡ true = ground arith in rw at

  new_mountpoint : (made.inodes ni).mountpoint ≡ (inode_at v d).mountpoint
  unfolding create_at vfs_alloc_inode
  new_mountpoint =
      let at : (ni == ni) ≡ true = ground arith in
      let off : (ni == folder_at) ≡ false = let ne = folder_ne in ground arith in rw (off, at)

  new_listed : has nt (made.inodes folder_at).child ≡ true
  unfolding create_at vfs_alloc_inode
  new_listed =
      let at : (folder_at == folder_at) ≡ true = ground arith in
      rw (at, folder_ne) (has-snoc nt (inode_at v d).child)

  -- Another inode keeps its mountpoint and its references.
  module _ (q : Ptr) (q_ne : (q == ni) ≡ false) where
    kept-mountpoint : (made.inodes q).mountpoint ≡ (v.inodes q).mountpoint
    unfolding create_at vfs_alloc_inode
    kept-mountpoint = ground (arith, folder_ne)

    kept-refcount : (made.inodes q).refcount ≡ (v.inodes q).refcount
    unfolding create_at vfs_alloc_inode
    kept-refcount = ground (arith, folder_ne)

  created :
      (ps : List (List ℕ))
      → AllTokens ps
      → IsName t
      → resolve v v.root ps ≡ some d
      → is_traversable (inode_at v d) ≡ true
      → find_child v.tnodes t (inode_at v d).child ≡ none
      → path_to_node fss ni nt v (slash ∷ path_of ps t) create_new type ≡ (some nt, made)
  created ps all name e dir missing =
      path_to_node-answer fss ni nt type v ps t d create_new all name e dir
      ∙ ap (answer fss ni nt type v d t create_new) missing

  created-freed : made.freed ≡ v.freed
  unfolding create_at
  created-freed = refl

-- The call, where the old path leads to `o` and the new node is created.
link_lem :
    {F : Type 0} (fss : Ptr → Fsinfo F) (ni nt : Ptr) (v w : Vfs F) (oldpath newpath : List ℕ)
    (o : Ptr)
    → path_to_node fss null null v oldpath no_create file ≡ (some o, v)
    → path_to_node fss ni nt v newpath create_new (v.inodes (v.tnodes o).inode).type ≡ (some nt, w)
    → vfs_link fss ni nt v oldpath newpath ≡ (
        let i = (v.tnodes o).inode in
        if not ((w.inodes (w.tnodes nt).inode).mountpoint == (w.inodes i).mountpoint)
        then (minus_one, link_fails fss w nt)
        else (0, link_succeeds fss w nt i))
unfolding vfs_link
link_lem fss ni nt v w oldpath newpath o old new = simp (old, new, vfs_link)

has-append : (a : Ptr) (xs ys : List Ptr) → has a ys ≡ true → has a (xs ++ ys) ≡ true
has-append a [] ys h = h
has-append a (x ∷ xs) ys h = ground (arith, has-append a xs ys h)

-- The two ends of the call, with the new inode at `ni`.
module _ {F : Type 0} (fss : Ptr → Fsinfo F) (w : Vfs F) (nt ni : Ptr)
    (at : (w.tnodes nt).inode ≡ ni) where
  succeeds :
      (i : Ptr)
      → (i == ni) ≡ false
      → let v' = link_succeeds fss w nt i in
        ((v'.tnodes nt).inode ≡ i)
        × ((v'.inodes i).refcount ≡ ((w.inodes i).refcount + 1) % 2 ^ 32)
        × (v'.freed ≡ w.freed ++ (ni ∷ []))
  unfolding link_succeeds
  succeeds i ne =
      let self : (nt == nt) ≡ true = ground arith in
      let self' : (i == i) ≡ true = ground arith in rw (at, self, ne, self') (refl, refl, refl)

  fails : has nt (link_fails fss w nt).freed ≡ true
  unfolding link_fails vfs_free_nodes
  fails =
      has-append nt w.freed _ (elim (Bool-cases ((w.inodes (w.tnodes nt).inode).refcount == 0)) [
        | inl e ↦ rw e (ground arith)
        | inr e ↦ rw e (ground arith)
      ])

  fails-child : (q : Ptr) → ((link_fails fss w nt).inodes q).child ≡ (w.inodes q).child
  unfolding link_fails
  fails-child q = refl

-- `vfs_link` of a node to a new path, where the folder of the new name and the node have the same
-- mountpoint: the new name stands for the old node's inode, which has one reference more, and the
-- inode made for the new name is freed. Where they have not, the call fails, and the tnode that it
-- has made for the new name is freed but stays among the children of the folder. The old path
-- leads to a node, the folders of the new path exist, the last does not hold the name, and the
-- addresses from `kmalloc` are in no use.
pub vfs_link-shares :
    {F : Type 0} (fss : Ptr → Fsinfo F) (ni nt : Ptr) (v : Vfs F) (oldpath : List ℕ) (o : Ptr)
    (ps : List (List ℕ)) (t : List ℕ) (d : Ptr)
    → path_to_node fss null null v oldpath no_create file ≡ (some o, v)
    → o ≢ nt
    → IsFresh v ni nt
    → d ≢ nt
    → AllTokens ps
    → IsName t
    → resolve v v.root ps ≡ some d
    → is_traversable (inode_at v d) ≡ true
    → find_child v.tnodes t (inode_at v d).child ≡ none
    → let i = (v.tnodes o).inode in
      let (status, v') = vfs_link fss ni nt v oldpath (slash ∷ path_of ps t) in
      if (inode_at v d).mountpoint == (v.inodes i).mountpoint
      then ((status ≡ 0)
          × ((v'.tnodes nt).inode ≡ i)
          × ((v'.inodes i).refcount ≡ ((v.inodes i).refcount + 1) % 2 ^ 32)
          × (v'.freed ≡ v.freed ++ (ni ∷ [])))
      else ((status ≡ minus_one)
          × (has nt (v'.inodes (v.tnodes d).inode).child ≡ true)
          × (has nt v'.freed ≡ true))
vfs_link-shares fss ni nt v oldpath o ps t d old o_ne fresh d_ne all name e dir missing =
    let i = (v.tnodes o).inode in
    let type = (v.inodes i).type in
    let w = made fss ni nt type v fresh d t d_ne in
    let new = created fss ni nt type v fresh d t d_ne ps all name e dir missing in
    let call = link_lem fss ni nt v w oldpath (slash ∷ path_of ps t) o old new in
    let i_ne : (i == ni) ≡ false = let ne = fresh.no_inode o o_ne in ground arith in
    let mount = kept-mountpoint fss ni nt type v fresh d t d_ne i i_ne in
    let mount' = new_mountpoint fss ni nt type v fresh d t d_ne in
    let at = new_inode fss ni nt type v fresh d t d_ne in
    let refs = kept-refcount fss ni nt type v fresh d t d_ne i i_ne in
    let freed = created-freed fss ni nt type v fresh d t d_ne in
    elim (Bool-cases ((inode_at v d).mountpoint == (v.inodes i).mountpoint)) [
      | inl same ↦
          let (inode, count, gone) = succeeds fss w nt ni at i i_ne in
          rw (call, at, mount, mount', same)
            (
              refl,
              inode,
              count ∙ ap (λ n. (n + 1) % 2 ^ 32) refs,
              gone ∙ ap (λ l. l ++ (ni ∷ [])) freed,
            )
      | inr differ ↦
          rw (call, at, mount, mount', differ)
            (
              refl,
              rw (fails-child fss w nt ni at) (new_listed fss ni nt type v fresh d t d_ne),
              fails fss w nt ni at,
            )
    ]
