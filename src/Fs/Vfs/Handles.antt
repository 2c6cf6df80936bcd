-- ===== src/Fs/Vfs/Handles.antt =====
-- Opening, closing and reading through handles: kernel/fs/vfs/openclose.c and readwrite.c.
use aeolos.Base.{
  ℕ, zero, suc, ◌+◌, ◌-◌, ◌%◌, ◌^◌, ◌<◌, ◌≡◌, refl, ap, true, ◌==◌, arith, List, [], ◌∷◌, ◌++◌,
  Option, none, some, length, get_elem?, set, Bool-cases, inl, inr,
}
use aeolos.Fs.Vfs.{Ptr, null, file, OpenMode, NodeDesc, Fsinfo, Vfs}
use aeolos.Fs.Vfs.Path.{no_create, path_to_node}
use aeolos.Fs.Vfs.Files.{entry, handle_to_fd, add_ref, drop_ref, minus_one, vfs_open, vfs_close}

get-last :
    (xs : List (Option NodeDesc)) (fd : NodeDesc)
    → get_elem? (xs ++ (some fd ∷ [])) (length xs) ≡ some (some fd)
get-last [] fd = refl
get-last (x ∷ xs) fd = get-last xs fd

get-set : (xs : List (Option NodeDesc)) (h : ℕ) → entry (get_elem? (set xs h none) h) ≡ none
get-set [] h = refl
get-set (x ∷ xs) zero = refl
get-set (x ∷ xs) (suc h) = get-set xs h

module _ {F : Type 0} where
  -- One reference more and one less: the inodes are as they were.
  same_refs :
      (v : Vfs F) (i p : Ptr)
      → (v.inodes i).refcount < 2 ^ 32
      → (drop_ref (add_ref v i) i).inodes p ≡ v.inodes p
  same_refs v i p lt = elim (Bool-cases (p == i)) [
    | inl e ↦
        let at : p ≡ i = ground arith in
        let self : (i == i) ≡ true = ground arith in
        let n : (((v.inodes i).refcount + 1) % 2 ^ 32 + 2 ^ 32 - 1) % 2 ^ 32
            ≡ (v.inodes i).refcount =
          omega arith in
        rw (e, at, self) (ap (λ k. record (v.inodes i) { refcount = k }) n)
    | inr e ↦ rw e
  ]

  abbrev opened : Vfs F → Ptr → OpenMode → Vfs F
  opened v t mode =
      let i = (v.tnodes t).inode in
      let nd : NodeDesc = record { tnode = t; inode = i; mode = mode; seek_pos = 0 } in
      record (add_ref v i) { openfiles = v.openfiles ++ (some nd ∷ []) }

  open_lem :
      (fss : Ptr → Fsinfo F) (v : Vfs F) (path : List ℕ) (mode : OpenMode) (t : Ptr)
      → path_to_node fss null null v path no_create file ≡ (some t, v)
      → vfs_open fss v path mode ≡ (some (length v.openfiles), opened v t mode)
  unfolding vfs_open
  open_lem fss v path mode t found = rw (found, vfs_open) (rw found)

  abbrev closed : Vfs F → ℕ → Ptr → Vfs F
  closed v h i = record (drop_ref v i) { openfiles = set v.openfiles h none }

  close_lem :
      (v : Vfs F) (h : ℕ) (fd : NodeDesc)
      → handle_to_fd v h ≡ some fd
      → vfs_close v h ≡ (0, closed v h fd.inode)
  unfolding vfs_close
  close_lem v h fd e = rw (e, vfs_close)

  close-invalid : (v : Vfs F) (h : ℕ) → handle_to_fd v h ≡ none → vfs_close v h ≡ (minus_one, v)
  unfolding vfs_close
  close-invalid v h e = rw (e, vfs_close)

  -- Opening a node that the path leads to gives the next handle, for that node at its beginning;
  -- closing it succeeds once, after which the handle is invalid and closing it fails, and the two
  -- calls leave every inode as it was. The node has fewer than 2 ^ 32 references.
  pub vfs_open-close :
      (fss : Ptr → Fsinfo F) (v : Vfs F) (path : List ℕ) (mode : OpenMode) (t : Ptr) (p : Ptr)
      → path_to_node fss null null v path no_create file ≡ (some t, v)
      → (v.inodes (v.tnodes t).inode).refcount < 2 ^ 32
      → let (handle, v1) = vfs_open fss v path mode in
        let h = length v.openfiles in
        let (status, v2) = vfs_close v1 h in
        (handle ≡ some h)
        × (handle_to_fd v1 h
            ≡ some (record { tnode = t; inode = (v.tnodes t).inode; mode = mode; seek_pos = 0 }))
        × (status ≡ 0)
        × (handle_to_fd v2 h ≡ none)
        × (vfs_close v2 h ≡ (minus_one, v2))
        × (v2.inodes p ≡ v.inodes p)
  vfs_open-close fss v path mode t p found lt =
      let i = (v.tnodes t).inode in
      let nd : NodeDesc = record { tnode = t; inode = i; mode = mode; seek_pos = 0 } in
      let h = length v.openfiles in
      let valid = ap entry (get-last v.openfiles nd) in
      let gone = get-set (v.openfiles ++ (some nd ∷ [])) h in
      rw (open_lem fss v path mode t found, close_lem (opened v t mode) h nd valid)
        (
          refl,
          valid,
          refl,
          gone,
          close-invalid (closed (opened v t mode) h i) h gone,
          same_refs v i p lt,
        )
