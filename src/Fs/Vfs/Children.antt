-- ===== src/Fs/Vfs/Children.antt =====
-- The search for a name in a folder's children, in kernel/fs/vfs/common.c, when a child is added.
use aeolos.Base.{
  ℕ, zero, suc, ◌≡◌, refl, ap, Bool, true, false, ◌==◌, ◌||◌, List, [], ◌∷◌, ◌++◌, none, some,
  arith, Bool-cases, inl, inr, take,
}
use aeolos.Memutils.{is_same, strncmp-take, IsString}
use aeolos.Fs.Vfs.{Ptr, Tnode, put, vfs_max_name_len}
use aeolos.Fs.Vfs.Path.{find_child}

abbrev pub has : Ptr → List Ptr → Bool
has a [] = false
has a (x ∷ xs) = (a == x) || has a xs

take-take : (n : ℕ) (xs : List ℕ) → take n (take n xs) ≡ take n xs
take-take zero xs = refl
take-take (suc n) [] = refl
take-take (suc n) (x ∷ xs) = ap (λ l. x ∷ l) (take-take n xs)

take-IsString : (n : ℕ) (xs : List ℕ) → IsString xs → IsString (take n xs)
take-IsString zero xs h = tt
take-IsString (suc n) [] h = tt
take-IsString (suc n) (x ∷ xs) h = (h.0, take-IsString n xs h.1)

-- A name that has been cut to the size of the field is still found by the whole name.
pub same-cut :
    (t : List ℕ) → IsString t → is_same (take vfs_max_name_len t) t vfs_max_name_len ≡ true
same-cut t h =
    (strncmp-take (take vfs_max_name_len t) t vfs_max_name_len (take-IsString vfs_max_name_len t h)
        h).1
      (take-take vfs_max_name_len t)

pub find_child-has :
    (m : Ptr → Tnode) (t : List ℕ) (cs : List Ptr) (c : Ptr)
    → find_child m t cs ≡ some c
    → has c cs ≡ true
unfolding find_child
find_child-has m t [] c e = cc
find_child-has m t (x ∷ xs) c e = elim (Bool-cases (is_same (m x).name t vfs_max_name_len)) [
  | inl f ↦ let at : some x ≡ some c = rw f at e in let same : x ≡ c = cc in ground arith
  | inr f ↦
      let at : find_child m t xs ≡ some c = rw f at e in
      let rest = find_child-has m t xs c at in ground arith
]

pub find_child-put :
    (m : Ptr → Tnode) (n : Tnode) (nt : Ptr) (t : List ℕ) (cs : List Ptr)
    → has nt cs ≡ false
    → find_child (put m nt n) t cs ≡ find_child m t cs
unfolding find_child
find_child-put m n nt t [] h = refl
find_child-put m n nt t (x ∷ xs) h =
    let ne : (x == nt) ≡ false = ground arith in
    let rest = find_child-put m n nt t xs (ground arith) in rw (ne, rest)

pub find_child-append :
    (m : Ptr → Tnode) (t : List ℕ) (cs ds : List Ptr) (c : Ptr)
    → find_child m t cs ≡ some c
    → find_child m t (cs ++ ds) ≡ some c
unfolding find_child
find_child-append m t [] ds c e = cc
find_child-append m t (x ∷ xs) ds c e = elim (Bool-cases (is_same (m x).name t vfs_max_name_len)) [
  | inl f ↦ rw f (rw f at e)
  | inr f ↦ rw f (find_child-append m t xs ds c (rw f at e))
]

pub find_child-snoc :
    (m : Ptr → Tnode) (t : List ℕ) (cs : List Ptr) (c : Ptr)
    → find_child m t cs ≡ none
    → is_same (m c).name t vfs_max_name_len ≡ true
    → find_child m t (cs ++ (c ∷ [])) ≡ some c
unfolding find_child
find_child-snoc m t [] c e h = rw h
find_child-snoc m t (x ∷ xs) c e h = elim (Bool-cases (is_same (m x).name t vfs_max_name_len)) [
  | inl f ↦ let at : some x ≡ none = rw f at e in cc
  | inr f ↦ rw f (find_child-snoc m t xs c (rw f at e) h)
]

-- No child has the name,
abbrev pub NoneNamed : (Ptr → Tnode) → List ℕ → List Ptr → Type 0
NoneNamed m t cs = (x : Ptr) → has x cs ≡ true → is_same (m x).name t vfs_max_name_len ≡ false

-- or `c` is the first child that has.
abbrev pub IsFirst : (Ptr → Tnode) → List ℕ → List Ptr → Ptr → Type 0
IsFirst m t cs c =
    (before : List Ptr) × (behind : List Ptr) × (cs ≡ before ++ (c ∷ behind))
    × (is_same (m c).name t vfs_max_name_len ≡ true)
    × NoneNamed m t before

NoneNamed-cons :
    (m : Ptr → Tnode) (t : List ℕ) (x : Ptr) (xs : List Ptr)
    → is_same (m x).name t vfs_max_name_len ≡ false
    → NoneNamed m t xs
    → NoneNamed m t (x ∷ xs)
NoneNamed-cons m t x xs e h y i = elim (Bool-cases (y == x)) [
  | inl f ↦ let same : y ≡ x = ground arith in rw same e
  | inr f ↦ h y (ground (arith, i, f))
]

pub find_child-NoneNamed :
    (m : Ptr → Tnode) (t : List ℕ) (cs : List Ptr) → find_child m t cs ≡ none → NoneNamed m t cs
unfolding find_child
find_child-NoneNamed m t [] e = λ x i. cc
find_child-NoneNamed m t (x ∷ xs) e = elim (Bool-cases (is_same (m x).name t vfs_max_name_len)) [
  | inl f ↦ let found : some x ≡ none = rw f at e in cc
  | inr f ↦
      let later : find_child m t xs ≡ none = rw f at e in
      NoneNamed-cons m t x xs f (find_child-NoneNamed m t xs later)
]

pub find_child-IsFirst :
    (m : Ptr → Tnode) (t : List ℕ) (cs : List Ptr) (c : Ptr)
    → find_child m t cs ≡ some c
    → IsFirst m t cs c
unfolding find_child
find_child-IsFirst m t [] c e = cc
find_child-IsFirst m t (x ∷ xs) c e = elim (Bool-cases (is_same (m x).name t vfs_max_name_len)) [
  | inl f ↦
      let found : some x ≡ some c = rw f at e in
      let same : x ≡ c = cc in rw (← same) ([], xs, refl, f, λ y i. cc)
  | inr f ↦
      let later : find_child m t xs ≡ some c = rw f at e in
      let (before, behind, at, named, others) = find_child-IsFirst m t xs c later in
      (x ∷ before, behind, ap (λ l. x ∷ l) at, named, NoneNamed-cons m t x before f others)
]
