-- ===== src/Fs/Vfs/Create.antt =====
-- A node that `path_to_node` of kernel/fs/vfs/common.c creates is found afterwards.
use aeolos.Base.{
  ℕ, ◌≡◌, ◌≢◌, refl, ap, ◌∙◌, true, false, ◌==◌, if◌then◌else◌, List, [], ◌∷◌, ◌++◌, none, some,
  arith, Bool-cases, inl, inr,
}
use aeolos.Memutils.{is_same, IsString}
use aeolos.Fs.Vfs.{Ptr, NodeType, Fsinfo, Vfs, is_traversable, put, vfs_max_name_len}
use aeolos.Fs.Vfs.Path.{
  Mode, no_create, create_new, must_be_new, vfs_alloc_inode, slash, find_child, inode_at, create_at,
  path_to_node, vfs_alloc_tnode,
}
use aeolos.Fs.Vfs.Walk.{IsName, AllTokens, path_of, resolve, resolve-cons, resolve_step}
use aeolos.Fs.Vfs.Lookup.{ended, answer, path_to_node-answer}
use aeolos.Fs.Vfs.Children.{
  has, same-cut, find_child-has, find_child-put, find_child-append, find_child-snoc,
}

-- The addresses that `kmalloc` returned are in no use.
pub record IsFresh {F : Type 0} (v : Vfs F) (ni nt : Ptr) : Type 0 where
  pub root_ne : v.root ≢ nt
  pub no_inode : (p : Ptr) → p ≢ nt → (v.tnodes p).inode ≢ ni
  pub no_child : (i : Ptr) → has nt (v.inodes i).child ≡ false

module _ {F : Type 0} (fss : Ptr → Fsinfo F) (ni nt : Ptr) (type : NodeType) (v : Vfs F)
    (fresh : IsFresh v ni nt) (d : Ptr) (t : List ℕ) (d_ne : d ≢ nt) where
  abbrev made : Vfs F
  made = create_at fss ni nt type (ended d t none) v

  abbrev folder_at : Ptr
  folder_at = (v.tnodes d).inode

  apart : (folder_at == ni) ≡ false
  apart = let ne = fresh.no_inode d d_ne in ground arith

  -- Any other node keeps its type, and its children: those of `d` get the new one at their end.
  module _ (p : Ptr) (p_ne : p ≢ nt) where
    other : (p == nt) ≡ false
    other = ground arith

    other_inode : ((v.tnodes p).inode == ni) ≡ false
    other_inode = let ne = fresh.no_inode p p_ne in ground arith

    made-type : (inode_at made p).type ≡ (inode_at v p).type
    unfolding create_at
    made-type = ground (arith, other, apart, other_inode)

    made-child : (inode_at made p).child ≡ (
        if (v.tnodes p).inode == folder_at
        then (inode_at v p).child ++ (nt ∷ [])
        else (inode_at v p).child)
    unfolding create_at
    made-child = ground (arith, other, apart, other_inode)

    listed : has nt (inode_at v p).child ≡ false
    listed = fresh.no_child (v.tnodes p).inode

    -- A search among the children that ends at a node ends there still,
    found-made :
        (u : List ℕ) (c : Ptr)
        → find_child v.tnodes u (inode_at v p).child ≡ some c
        → find_child made.tnodes u (inode_at made p).child ≡ some c
    unfolding create_at
    found-made u c e =
        let new = vfs_alloc_tnode t ni (v.tnodes d).inode in
        let here = find_child-put v.tnodes new nt u (inode_at v p).child listed ∙ e in
        rw made-child (elim (Bool-cases ((v.tnodes p).inode == folder_at)) [
          | inl f ↦
              rw f (find_child-append (put v.tnodes nt new) u (inode_at v p).child (nt ∷ []) c here)
          | inr f ↦ rw f here
        ])

    traversable-made :
        is_traversable (inode_at v p) ≡ true → is_traversable (inode_at made p) ≡ true
    traversable-made e = rw (made-type, is_traversable) e

    child_ne : (u : List ℕ) (c : Ptr) → find_child v.tnodes u (inode_at v p).child ≡ some c → c ≢ nt
    child_ne u c e at =
        let here : has nt (inode_at v p).child ≡ true =
          rw (← at) (find_child-has v.tnodes u (inode_at v p).child c e) in
        let gone = listed in cc

  -- and so does the path to a node.
  resolve-made :
      (ps : List (List ℕ)) (p q : Ptr)
      → p ≢ nt
      → resolve v p ps ≡ some q
      → resolve made p ps ≡ some q
  unfolding resolve
  resolve-made [] p q ne e = e
  resolve-made (u ∷ us) p q ne e =
      let (c, found, dir, on) = resolve-cons v p u us q e in
      resolve_step made p c u us (found-made p ne u c found) (traversable-made p ne dir)
      ∙ resolve-made us c q (child_ne p ne u c found) on

  -- The new node is the last child of its folder, so the search for its name ends at it.
  new_found :
      IsString t
      → find_child v.tnodes t (inode_at v d).child ≡ none
      → find_child made.tnodes t (inode_at made d).child ≡ some nt
  unfolding create_at vfs_alloc_tnode
  new_found str e =
      let new = vfs_alloc_tnode t ni (v.tnodes d).inode in
      let here = find_child-put v.tnodes new nt t (inode_at v d).child (listed d d_ne) ∙ e in
      let self : ((v.tnodes d).inode == folder_at) ≡ true = ground arith in
      let at : (nt == nt) ≡ true = ground arith in
      let named : is_same (put v.tnodes nt new nt).name t vfs_max_name_len ≡ true =
        rw at (same-cut t str) in
      rw (made-child d d_ne, self)
        (find_child-snoc (put v.tnodes nt new) t (inode_at v d).child nt here named)

  new-type : (inode_at made nt).type ≡ type
  unfolding create_at vfs_alloc_tnode vfs_alloc_inode
  new-type =
      let at : (nt == nt) ≡ true = ground arith in
      let at' : (ni == ni) ≡ true = ground arith in
      let off : (ni == folder_at) ≡ false = let ne = fresh.no_inode d d_ne in ground arith in
      rw (at, off, at')

  -- A second call on the path, in the state that the first leaves.
  again :
      (ni' nt' : Ptr) (type' : NodeType) (ps : List (List ℕ)) (mode : Mode)
      → AllTokens ps
      → IsName t
      → IsString t
      → resolve v v.root ps ≡ some d
      → is_traversable (inode_at v d) ≡ true
      → find_child v.tnodes t (inode_at v d).child ≡ none
      → path_to_node fss ni' nt' made (slash ∷ path_of ps t) mode type'
        ≡ (if must_be_new mode then (none, made) else (some nt, made))
  unfolding create_at
  again ni' nt' type' ps mode all name str e dir missing =
      path_to_node-answer fss ni' nt' type' made ps t d mode all name
        (resolve-made ps v.root d fresh.root_ne e) (traversable-made d d_ne dir)
      ∙ ap (answer fss ni' nt' type' made d t mode) (new_found str missing)

-- A node that `path_to_node` creates is found again: the call for a new node answers with its tnode
-- where the folders of the path exist and the last does not hold the name, the same path then leads
-- to that node, which has the type asked for, and asking for a new node there again fails and
-- changes nothing. The addresses that `kmalloc` returns are in no use.
pub create-lookup :
    {F : Type 0} (fss : Ptr → Fsinfo F) (ni nt ni' nt' : Ptr) (type type' : NodeType) (v : Vfs F)
    (ps : List (List ℕ)) (t : List ℕ) (d : Ptr)
    → IsFresh v ni nt
    → d ≢ nt
    → AllTokens ps
    → IsName t
    → IsString t
    → resolve v v.root ps ≡ some d
    → is_traversable (inode_at v d) ≡ true
    → find_child v.tnodes t (inode_at v d).child ≡ none
    → let path = slash ∷ path_of ps t in
      let (made, v') = path_to_node fss ni nt v path create_new type in
      (made ≡ some nt)
      × (path_to_node fss ni' nt' v' path no_create type' ≡ (some nt, v'))
      × (path_to_node fss ni' nt' v' path create_new type' ≡ (none, v'))
      × ((inode_at v' nt).type ≡ type)
create-lookup fss ni nt ni' nt' type type' v ps t d fresh ne all name str e dir missing =
    let first = path_to_node-answer fss ni nt type v ps t d create_new all name e dir in
    let created = first ∙ ap (answer fss ni nt type v d t create_new) missing in
    let second = λ (mode : Mode).
      again fss ni nt type v fresh d t ne ni' nt' type' ps mode all name str e dir missing in
    rw created (refl, second no_create, second create_new, new-type fss ni nt type v fresh d t ne)
