-- ===== src/Proc/Sched/Order.antt =====
-- Tasks in the order of their wakeup times, the latest in front, as kernel/proc/sched/sched.c keeps
-- its queue of sleeping tasks.
use aeolos.Base.{
  ℕ, ◌<◌, ◌≤◌, ◌≡◌, refl, ap, true, false, leb, ◌==◌, arith, inl, inr, if◌then◌else◌, Bool-cases,
  List, [], ◌∷◌, ◌++◌,
}
use aeolos.Proc.Tasks.{Ptr, Tasks}
use aeolos.Proc.Tqueue.Links.{last_or, has}

-- No task of the list wakes later than `bound`.
abbrev pub Until : Tasks → ℕ → List Ptr → Type 0
Until m bound [] = Unit {0}
Until m bound (x ∷ xs) = ((m x).wakeuptime ≤ bound) × Until m bound xs

abbrev pub IsDescending : Tasks → List Ptr → Type 0
IsDescending m [] = Unit {0}
IsDescending m (x ∷ xs) = Until m (m x).wakeuptime xs × IsDescending m xs

-- A task put before the first one that does not wake later.
abbrev pub insert : Tasks → Ptr → List Ptr → List Ptr
insert m t [] = t ∷ []
insert m t (x ∷ xs) =
    if leb (m x).wakeuptime (m t).wakeuptime then t ∷ x ∷ xs else x ∷ insert m t xs

-- Past a longer wakeup time than all of a list's there is nothing to find.
pub insert_last :
    (m : Tasks) (t x : Ptr) (xs : List Ptr)
    → IsDescending m (x ∷ xs)
    → (m t).wakeuptime < (m (last_or x xs)).wakeuptime
    → insert m t (x ∷ xs) ≡ x ∷ xs ++ (t ∷ [])
insert_last m t x [] d lt = ground arith
insert_last m t x (y ∷ ys) d lt =
    let rest = insert_last m t y ys d.1 lt in
    let bound = last-le m (m x).wakeuptime y ys d.0 in
    let e : leb (m x).wakeuptime (m t).wakeuptime ≡ false = ground arith in rw (e, rest)
  where
    last-le :
        (m : Tasks) (b y : ℕ) (ys : List Ptr)
        → Until m b (y ∷ ys)
        → (m (last_or y ys)).wakeuptime ≤ b
    last-le m b y [] u = u.0
    last-le m b y (z ∷ zs) u = last-le m b z zs u.1

Until-insert :
    (m : Tasks) (t : Ptr) (b : ℕ) (xs : List Ptr)
    → (m t).wakeuptime ≤ b
    → Until m b xs
    → Until m b (insert m t xs)
Until-insert m t b [] h u = (h, tt)
Until-insert m t b (x ∷ xs) h u = elim (Bool-cases (leb (m x).wakeuptime (m t).wakeuptime)) [
  | inl e ↦ rw e (h, u)
  | inr e ↦ rw e (u.0, Until-insert m t b xs h u.1)
]

Until-mono : (m : Tasks) (b c : ℕ) (xs : List Ptr) → b ≤ c → Until m b xs → Until m c xs
Until-mono m b c [] h u = tt
Until-mono m b c (x ∷ xs) h u = (omega arith, Until-mono m b c xs h u.1)

pub insert-IsDescending :
    (m : Tasks) (t : Ptr) (xs : List Ptr) → IsDescending m xs → IsDescending m (insert m t xs)
insert-IsDescending m t [] d = (tt, tt)
insert-IsDescending m t (x ∷ xs) d = elim (Bool-cases (leb (m x).wakeuptime (m t).wakeuptime)) [
  | inl e ↦
      let le : (m x).wakeuptime ≤ (m t).wakeuptime = ground arith in
      rw e ((le, Until-mono m _ _ xs le d.0), d)
  | inr e ↦
      let le : (m t).wakeuptime ≤ (m x).wakeuptime = ground arith in
      rw e (Until-insert m t _ xs le d.0, insert-IsDescending m t xs d.1)
]

-- A list is what stands before its last task, and that task.
pub init : Ptr → List Ptr → List Ptr
init x [] = []
init x (y ∷ ys) = x ∷ init y ys

pub init-last : (x : Ptr) (xs zs : List Ptr) → init x xs ++ (last_or x xs ∷ zs) ≡ x ∷ xs ++ zs
unfolding init
init-last x [] zs = refl
init-last x (y ∷ ys) zs = ap (λ l. x ∷ l) (init-last y ys zs)

Until-has :
    (m : Tasks) (b a : ℕ) (xs : List Ptr) → Until m b xs → has a xs ≡ true → (m a).wakeuptime ≤ b
Until-has m b a [] u h = cc
Until-has m b a (x ∷ xs) u h = elim (Bool-cases (a == x)) [
  | inl e ↦ let same : a ≡ x = ground arith in rw same u.0
  | inr e ↦ Until-has m b a xs u.1 (ground arith)
]

Until-append : (m : Tasks) (b : ℕ) (xs ys : List Ptr) → Until m b (xs ++ ys) → Until m b xs
Until-append m b [] ys u = tt
Until-append m b (x ∷ xs) ys u = (u.0, Until-append m b xs ys u.1)

pub IsDescending-append :
    (m : Tasks) (xs ys : List Ptr) → IsDescending m (xs ++ ys) → IsDescending m xs
IsDescending-append m [] ys d = tt
IsDescending-append m (x ∷ xs) ys d = (Until-append m _ xs ys d.0, IsDescending-append m xs ys d.1)

-- The last task of the list wakes first.
pub last-least :
    (m : Tasks) (a x : Ptr) (xs : List Ptr)
    → IsDescending m (x ∷ xs)
    → has a (x ∷ xs) ≡ true
    → (m (last_or x xs)).wakeuptime ≤ (m a).wakeuptime
last-least m a x [] d h = let same : a ≡ x = ground arith in rw same (omega arith)
last-least m a x (y ∷ ys) d h = elim (Bool-cases (a == x)) [
  | inl e ↦
      let same : a ≡ x = ground arith in
      let here : has y (y ∷ ys) ≡ true = ground arith in
      let low = last-least m y y ys d.1 here in
      let le : (m y).wakeuptime ≤ (m x).wakeuptime = d.0.0 in rw same (omega arith)
  | inr e ↦ last-least m a y ys d.1 (ground arith)
]

Until-frame :
    (m m' : Tasks) (b : ℕ) (xs : List Ptr)
    → ((a : Ptr) → (m' a).wakeuptime ≡ (m a).wakeuptime)
    → Until m b xs
    → Until m' b xs
Until-frame m m' b [] h u = tt
Until-frame m m' b (x ∷ xs) h u = (rw (h x) u.0, Until-frame m m' b xs h u.1)

pub IsDescending-frame :
    (m m' : Tasks) (xs : List Ptr)
    → ((a : Ptr) → (m' a).wakeuptime ≡ (m a).wakeuptime)
    → IsDescending m xs
    → IsDescending m' xs
IsDescending-frame m m' [] h d = tt
IsDescending-frame m m' (x ∷ xs) h d =
    (rw (h x) (Until-frame m m' _ xs h d.0), IsDescending-frame m m' xs h d.1)
