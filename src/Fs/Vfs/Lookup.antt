-- ===== src/Fs/Vfs/Lookup.antt =====
-- What `path_to_node` of kernel/fs/vfs/common.c finds, creates and refuses.
use aeolos.Base.{
  ℕ, suc, ◌-◌, ◌<◌, ◌≡◌, ◌∙◌, true, if◌then◌else◌, List, ◌∷◌, ◌++◌, Option, none, some, length,
  length-append, arith, Bool-cases, inl, inr, Option-cases, ◌⊎◌, ◌≢◌, false, [], ◌==◌, refl, take,
}
use mathlib.Core.Path.{subst}
use aeolos.Fs.Vfs.{Ptr, NodeType, Fsinfo, Vfs, vfs_max_name_len, is_traversable}
use aeolos.Fs.Vfs.Children.{NoneNamed, IsFirst, find_child-NoneNamed, find_child-IsFirst}
use aeolos.Fs.Vfs.Path.{
  Mode, may_create, must_be_new, slash, find_child, Walk, found_or, is_found, inode_at, walk,
  walked, at_root, searched, create_at, path_to_node, vfs_alloc_inode, vfs_alloc_tnode,
}
use aeolos.Fs.Vfs.Walk.{
  IsToken, IsName, AllTokens, path_of, resolve, walk-path_of, walk-fuel, walk-curr, walk_round,
  take_token-slash, append-cons-ne,
}

-- The loop's variables where the folder `d` holds `o` for the name `t`.
abbrev pub ended : Ptr → List ℕ → Option Ptr → Walk
ended d t o = record { curr = found_or d o; tmpbuff = t; foundnode = is_found o; past = true }

module _ {F : Type 0} (fss : Ptr → Fsinfo F) (ni nt : Ptr) (type : NodeType) where
  -- The answer for that name: a node that exists, unless it must be new; one that is created, if the
  -- mode allows it; or NULL.
  abbrev pub answer : Vfs F → Ptr → List ℕ → Mode → Option Ptr → Option Ptr × Vfs F
  answer v d t mode (some c) = if must_be_new mode then (none, v) else (some c, v)
  answer v d t mode none =
      if may_create mode then (some nt, create_at fss ni nt type (ended d t none) v) else (none, v)

  answered :
      (v : Vfs F) (path t : List ℕ) (d : Ptr) (mode : Mode) (o : Option Ptr)
      → walked v path ≡ ended d t o
      → is_traversable (inode_at v d) ≡ true
      → path_to_node fss ni nt v (slash ∷ path) mode type ≡ answer v d t mode o
  unfolding path_to_node
  answered v path t d mode none e dir =
      rw (e, dir) (elim (Bool-cases (may_create mode)) [ inl g ↦ rw g | inr g ↦ rw g ])
  answered v path t d mode (some c) e dir = rw e

  -- The call on a path whose folders all exist.
  pub path_to_node-answer :
      (v : Vfs F) (ps : List (List ℕ)) (t : List ℕ) (d : Ptr) (mode : Mode)
      → AllTokens ps
      → IsName t
      → resolve v v.root ps ≡ some d
      → is_traversable (inode_at v d) ≡ true
      → path_to_node fss ni nt v (slash ∷ path_of ps t) mode type
        ≡ answer v d t mode (find_child v.tnodes t (inode_at v d).child)
  path_to_node-answer v ps t d mode all name e dir =
      answered v (path_of ps t) t d mode (find_child v.tnodes t (inode_at v d).child)
        (walk-path_of (suc (length (path_of ps t))) v (at_root v) ps t d all name e dir
          (omega arith))
        dir

  -- The state that the call leaves when it creates the node, next to the state before: the inode at
  -- `ni` and the tnode at `nt` are new, the tnode is the last child of the folder `d`, the filesystem
  -- has been told, and nothing else has changed.
  pub record Created (v : Vfs F) (d : Ptr) (t : List ℕ) (v' : Vfs F) : Type 0 where
    pub tnode :
        v'.tnodes nt
        ≡ record { name = take vfs_max_name_len t; inode = ni; parent = (v.tnodes d).inode }
    pub tnodes : (a : Ptr) → a ≢ nt → v'.tnodes a ≡ v.tnodes a
    pub inode : v'.inodes ni ≡ record {
      type = type;
      size = 0;
      perms = 0o777;
      uid = 0;
      refcount = 1;
      fs = (inode_at v d).fs;
      mountpoint = (inode_at v d).mountpoint;
      child = [];
    }
    pub listed :
        v'.inodes (v.tnodes d).inode
        ≡ record (inode_at v d) { child = (inode_at v d).child ++ (nt ∷ []) }
    pub inodes : (a : Ptr) → a ≢ ni → a ≢ (v.tnodes d).inode → v'.inodes a ≡ v.inodes a
    pub told : v'.priv ≡ (fss (inode_at v d).fs).mknode ni v.priv
    pub rest :
        (v'.root ≡ v.root)
        × (v'.fslist ≡ v.fslist)
        × (v'.openfiles ≡ v.openfiles)
        × (v'.freed ≡ v.freed)

  create_at-Created :
      (v : Vfs F) (d : Ptr) (t : List ℕ)
      → ni ≢ (v.tnodes d).inode
      → Created v d t (create_at fss ni nt type (ended d t none) v)
  unfolding create_at vfs_alloc_inode vfs_alloc_tnode
  create_at-Created v d t ne =
      let i = (v.tnodes d).inode in
      let at : (nt == nt) ≡ true = ground arith in
      let at' : (i == i) ≡ true = ground arith in
      let at'' : (ni == ni) ≡ true = ground arith in
      let off : (i == ni) ≡ false = ground arith in
      let off' : (ni == i) ≡ false = ground arith in
      record {
        tnode = simp at;
        tnodes = λ a other. let away : (a == nt) ≡ false = ground arith in simp away;
        inode = simp (at'', off', off);
        listed = simp (at', off);
        inodes = λ a other other'.
            let away : (a == ni) ≡ false = ground arith in
            let away' : (a == i) ≡ false = ground arith in simp (away, away');
        told = refl;
        rest = (refl, refl, refl, refl);
      }

  -- What the call should answer and leave where `d` is the last folder of the path.
  abbrev pub Answered : Vfs F → Ptr → List ℕ → Mode → Option Ptr × Vfs F → Type 0
  Answered v d t mode r =
      ((c : Ptr) × IsFirst v.tnodes t (inode_at v d).child c
        × (r ≡ (if must_be_new mode then none else some c, v)))
      ⊎ (NoneNamed v.tnodes t (inode_at v d).child
          × (((may_create mode ≡ false) × (r ≡ (none, v)))
              ⊎ ((may_create mode ≡ true) × (r.0 ≡ some nt) × Created v d t r.1)))

  answer-Answered :
      (v : Vfs F) (d : Ptr) (t : List ℕ) (mode : Mode)
      → ni ≢ (v.tnodes d).inode
      → Answered v d t mode (answer v d t mode (find_child v.tnodes t (inode_at v d).child))
  answer-Answered v d t mode ne = elim (Option-cases (find_child v.tnodes t (inode_at v d).child)) [
    | inl e ↦
        let missing = find_child-NoneNamed v.tnodes t (inode_at v d).child e in
        elim (Bool-cases (may_create mode)) [
          | inl g ↦ rw (e, g) (inr (missing, inr (refl, refl, create_at-Created v d t ne)))
          | inr g ↦ rw (e, g) (inr (missing, inl (refl, refl)))
        ]
    | inr (c, e) ↦
        let first = find_child-IsFirst v.tnodes t (inode_at v d).child c e in
        elim (Bool-cases (must_be_new mode)) [
          | inl g ↦ rw (e, g) (inl (c, first, refl))
          | inr g ↦ rw (e, g) (inl (c, first, refl))
        ]
  ]

  -- `path_to_node` on a path whose folders all exist looks for the name in the last of them. If a
  -- child has it, the first such child is the answer, or NULL if the node must be new, and nothing
  -- changes. If no child has it and the mode does not allow a new node, the answer is NULL and
  -- nothing changes. Otherwise the answer is a new node, with the name cut to its field, of the type
  -- asked for, that is the last child of the folder, and nothing else changes. The memory of the new
  -- inode is not that of the folder.
  pub path_to_node_lem :
      (v : Vfs F) (ps : List (List ℕ)) (t : List ℕ) (d : Ptr) (mode : Mode)
      → AllTokens ps
      → IsName t
      → resolve v v.root ps ≡ some d
      → is_traversable (inode_at v d) ≡ true
      → ni ≢ (v.tnodes d).inode
      → Answered v d t mode (path_to_node fss ni nt v (slash ∷ path_of ps t) mode type)
  path_to_node_lem v ps t d mode all name e dir ne =
      rw (path_to_node-answer v ps t d mode all name e dir) (answer-Answered v d t mode ne)

  skipped :
      (v : Vfs F) (t : List ℕ) (c : ℕ) (cs : List ℕ)
      → IsToken t
      → is_traversable (inode_at v v.root) ≡ true
      → find_child v.tnodes t (inode_at v v.root).child ≡ none
      → walked v (t ++ (slash ∷ c ∷ cs)) ≡ walked v (c ∷ cs)
  skipped v t c cs token dir missing =
      let path = t ++ (slash ∷ c ∷ cs) in
      let w = searched v (at_root v) t (some (c ∷ cs)) in
      let long : length (c ∷ cs) < length path = omega (arith, length-append t (slash ∷ c ∷ cs)) in
      let back : w.curr ≡ v.root = rw missing in
      let e : suc (length path - 1) ≡ length path = omega arith in
      walk_round (length path) v (at_root v) path t (some (c ∷ cs))
        (append-cons-ne t slash (c ∷ cs)) (take_token-slash t (c ∷ cs) token)
      ∙ rw dir (
          subst (λ n. walk n v w (c ∷ cs) ≡ walk n v (at_root v) (c ∷ cs)) e
            (walk-curr (length path - 1) v w (at_root v) c cs back)
          ∙ walk-fuel (length path) (suc (length (c ∷ cs))) v (at_root v) (c ∷ cs) long
              (omega arith))

  -- `path_to_node` passes over a folder that does not exist: a path through a name that the root
  -- does not hold is answered as if the name were not there, in every mode, so `/missing/a` names
  -- the node `/a`, and creates it.
  pub path_to_node-skips_missing :
      (v : Vfs F) (t : List ℕ) (c : ℕ) (cs : List ℕ) (mode : Mode)
      → IsToken t
      → is_traversable (inode_at v v.root) ≡ true
      → find_child v.tnodes t (inode_at v v.root).child ≡ none
      → path_to_node fss ni nt v (slash ∷ t ++ (slash ∷ c ∷ cs)) mode type
        ≡ path_to_node fss ni nt v (slash ∷ c ∷ cs) mode type
  unfolding path_to_node
  path_to_node-skips_missing v t c cs mode token dir missing =
      rw (skipped v t c cs token dir missing)
