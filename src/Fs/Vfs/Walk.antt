-- ===== src/Fs/Vfs/Walk.antt =====
-- The loop of `path_to_node` in kernel/fs/vfs/common.c on a path by its components.
use aeolos.Base.{
  ℕ, zero, suc, ◌<◌, ◌≤◌, ◌≡◌, ◌≢◌, refl, ap, ◌∙◌, true, false, ◌==◌, if◌then◌else◌, List, [], ◌∷◌,
  ◌++◌, Option, none, some, length, length-append, arith, Bool-cases, Option-cases, inl, inr,
}
use aeolos.Fs.Vfs.{Ptr, Vfs, is_traversable}
use aeolos.Fs.Vfs.Path.{
  slash, take_token, find_child, Walk, behind, found_or, is_found, inode_at, walk, searched,
  stopped,
}

-- No slash stands in a component.
abbrev pub IsToken : List ℕ → Type 0
IsToken [] = Unit {0}
IsToken (c ∷ cs) = ((c == slash) ≡ false) × IsToken cs

-- The name of a node: a component that is not empty.
abbrev pub IsName : List ℕ → Type 0
IsName t = (t ≢ []) × IsToken t

abbrev pub AllTokens : List (List ℕ) → Type 0
AllTokens [] = Unit {0}
AllTokens (t ∷ ts) = IsToken t × AllTokens ts

-- The path through the folders `ps` to the name `t`.
abbrev pub path_of : List (List ℕ) → List ℕ → List ℕ
path_of [] t = t
path_of (p ∷ ps) t = p ++ (slash ∷ path_of ps t)

pub take_token-last : (t : List ℕ) → IsToken t → take_token t ≡ (t, none)
unfolding take_token
take_token-last [] h = refl
take_token-last (c ∷ cs) h = rw (h.0, take_token-last cs h.1)

pub take_token-slash :
    (t rest : List ℕ) → IsToken t → take_token (t ++ (slash ∷ rest)) ≡ (t, some rest)
unfolding take_token
take_token-slash [] rest h = refl
take_token-slash (c ∷ cs) rest h = rw (h.0, take_token-slash cs rest h.1)

-- What is behind a token is shorter than the path,
behind-length : (c : ℕ) (cs : List ℕ) → length (behind (take_token (c ∷ cs)).1) ≤ length cs
unfolding take_token
behind-length c [] = ground arith
behind-length c (d ∷ ds) =
    let rest = behind-length d ds in
    elim (Bool-cases (c == slash)) [
      | inl e ↦ rw (e, take_token) (omega arith)
      | inr e ↦ rw (e, take_token) (omega arith)
    ]

pub append-cons-ne : (p : List ℕ) (c : ℕ) (r : List ℕ) → p ++ (c ∷ r) ≢ []
append-cons-ne [] c r e = cc
append-cons-ne (x ∷ xs) c r e = cc

module _ {F : Type 0} where
  -- so the loop has enough fuel with one round more than the path is long.
  pub walk-fuel :
      (f g : ℕ) (v : Vfs F) (w : Walk) (path : List ℕ)
      → length path < f
      → length path < g
      → walk f v w path ≡ walk g v w path
  unfolding walk
  walk-fuel zero g v w path h k = absurd (omega arith)
  walk-fuel (suc f) zero v w path h k = absurd (omega arith)
  walk-fuel (suc f) (suc g) v w [] h k = refl
  walk-fuel (suc f) (suc g) v w (c ∷ cs) h k =
      let shorter = behind-length c cs in
      let rest =
        walk-fuel f g v (searched v w (take_token (c ∷ cs)).0 (take_token (c ∷ cs)).1)
          (behind (take_token (c ∷ cs)).1) (omega arith) (omega arith) in
      rw rest

  -- A round overwrites all that the one before it has found, but for the node reached.
  pub walk-curr :
      (f : ℕ) (v : Vfs F) (w w' : Walk) (c : ℕ) (cs : List ℕ)
      → w.curr ≡ w'.curr
      → walk (suc f) v w (c ∷ cs) ≡ walk (suc f) v w' (c ∷ cs)
  unfolding walk
  walk-curr f v w w' c cs e = rw e

  -- A round, by the token that it takes.
  pub walk_round :
      (f : ℕ) (v : Vfs F) (w : Walk) (path t : List ℕ) (rest : Option (List ℕ))
      → path ≢ []
      → take_token path ≡ (t, rest)
      → walk (suc f) v w path ≡ (
          if is_traversable (inode_at v w.curr)
          then walk f v (searched v w t rest) (behind rest)
          else stopped w t rest)
  unfolding walk
  walk_round f v w [] t rest ne e = absurd (ne refl)
  walk_round f v w (c ∷ cs) t rest ne e =
      let at : (take_token (c ∷ cs)).0 ≡ t = ap (λ p. p.0) e in
      let on : (take_token (c ∷ cs)).1 ≡ rest = ap (λ p. p.1) e in rw (at, on)

  -- The node at the end of a list of components: each is a child of the one before, which may have
  -- children.
  unfoldable pub resolve : Vfs F → Ptr → List (List ℕ) → Option Ptr
  resolve v p [] = some p
  resolve v p (t ∷ ts) = elim (find_child v.tnodes t (inode_at v p).child) [
    | none ↦ none
    | some c ↦ if is_traversable (inode_at v p) then resolve v c ts else none
  ]

  -- What the loop finds in the folder at the end of the components before the last.
  abbrev pub sought : Vfs F → Ptr → List ℕ → Walk
  sought v d t =
      let next = find_child v.tnodes t (inode_at v d).child in
      record { curr = found_or d next; tmpbuff = t; foundnode = is_found next; past = true }

  walk-nil : (f : ℕ) (v : Vfs F) (w : Walk) → walk f v w [] ≡ w
  unfolding walk
  walk-nil zero v w = refl
  walk-nil (suc f) v w = refl

  pub resolve-cons :
      (v : Vfs F) (p : Ptr) (t : List ℕ) (ts : List (List ℕ)) (d : Ptr)
      → resolve v p (t ∷ ts) ≡ some d
      → (c : Ptr) × (find_child v.tnodes t (inode_at v p).child ≡ some c)
        × (is_traversable (inode_at v p) ≡ true)
        × (resolve v c ts ≡ some d)
  unfolding resolve
  resolve-cons v p t ts d e = elim (Option-cases (find_child v.tnodes t (inode_at v p).child)) [
    | inl f ↦ let no_child : none ≡ some d = rw (f, resolve) at e in cc
    | inr (c, f) ↦
        let go : (if is_traversable (inode_at v p) then resolve v c ts else none) ≡ some d =
          rw (f, resolve) at e in
        elim (Bool-cases (is_traversable (inode_at v p))) [
          | inl g ↦ (c, f, g, rw g at go)
          | inr g ↦ let stuck : none ≡ some d = rw g at go in cc
        ]
  ]

  pub resolve_step :
      (v : Vfs F) (p c : Ptr) (t : List ℕ) (ts : List (List ℕ))
      → find_child v.tnodes t (inode_at v p).child ≡ some c
      → is_traversable (inode_at v p) ≡ true
      → resolve v p (t ∷ ts) ≡ resolve v c ts
  unfolding resolve
  resolve_step v p c t ts e dir = rw (e, dir, resolve)

  pub walk-path_of :
      (f : ℕ) (v : Vfs F) (w : Walk) (ps : List (List ℕ)) (t : List ℕ) (d : Ptr)
      → AllTokens ps
      → IsName t
      → resolve v w.curr ps ≡ some d
      → is_traversable (inode_at v d) ≡ true
      → length (path_of ps t) < f
      → walk f v w (path_of ps t) ≡ sought v d t
  unfolding resolve
  walk-path_of zero v w ps t d all name e dir enough = absurd (omega arith)
  walk-path_of (suc f) v w [] t d all name e dir enough =
      let at : w.curr ≡ d = ground arith in
      let dir' : is_traversable (inode_at v w.curr) ≡ true = rw at dir in
      walk_round f v w t t none name.0 (take_token-last t name.1)
      ∙ rw dir' (walk-nil f v (searched v w t none) ∙ ap (λ c. sought v c t) at)
  walk-path_of (suc f) v w (p ∷ ps) t d all name e dir enough =
      let (c, found, dir', on) = resolve-cons v w.curr p ps d e in
      let w' = searched v w p (some (path_of ps t)) in
      let on' : resolve v w'.curr ps ≡ some d = rw found on in
      let shorter : length (path_of ps t) < f =
        omega (arith, length-append p (slash ∷ path_of ps t)) in
      walk_round f v w (p ++ (slash ∷ path_of ps t)) p (some (path_of ps t))
        (append-cons-ne p slash (path_of ps t)) (take_token-slash p (path_of ps t) all.0)
      ∙ rw dir' (walk-path_of f v w' ps t d all.1 name on' dir shorter)
