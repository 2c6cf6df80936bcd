-- ===== src/Proc/Tqueue/Links.antt =====
-- The lists that the queues of kernel/proc/sched/tqueue.c stand for, and how they change when
-- links are written.
use aeolos.Base.{
  ◌≡◌, ◌≢◌, refl, sym, ap, ◌∙◌, Bool, true, false, List, [], ◌∷◌, ◌++◌, ◌==◌, ◌||◌, if◌then◌else◌,
  arith, Bool-cases, inl, inr,
}
use aeolos.Proc.Tasks.{Ptr, null, Tasks}

abbrev pub head_or : Ptr → List Ptr → Ptr
head_or d [] = d
head_or d (x ∷ xs) = x

abbrev pub last_or : Ptr → List Ptr → Ptr
last_or d [] = d
last_or d (x ∷ xs) = last_or x xs

abbrev pub has : Ptr → List Ptr → Bool
has a [] = false
has a (x ∷ xs) = (a == x) || has a xs

-- No task is in both lists.
abbrev pub Apart : List Ptr → List Ptr → Type 0
Apart xs ys = (a : Ptr) → has a xs ≡ true → has a ys ≡ false

-- The tasks `xs` are distinct and linked in order; before the first stands `p`, after the last `s`.
abbrev pub Links : Tasks → Ptr → Ptr → List Ptr → Type 0
Links m p s [] = Unit {0}
Links m p s (x ∷ xs) =
    (x ≢ null)
    × ((m x).prev ≡ p)
    × ((m x).next ≡ head_or s xs)
    × (has x xs ≡ false)
    × Links m x s xs

pub has-append : (a : Ptr) (xs ys : List Ptr) → has a (xs ++ ys) ≡ (has a xs || has a ys)
has-append a [] ys = refl
has-append a (x ∷ xs) ys = ground (arith, has-append a xs ys)

pub head_or-append : (d : Ptr) (xs ys : List Ptr) → head_or d (xs ++ ys) ≡ head_or (head_or d ys) xs
head_or-append d [] ys = refl
head_or-append d (x ∷ xs) ys = refl

pub last_or-append : (d : Ptr) (xs ys : List Ptr) → last_or d (xs ++ ys) ≡ last_or (last_or d xs) ys
last_or-append d [] ys = refl
last_or-append d (x ∷ xs) ys = last_or-append x xs ys

pub has-last_or : (x : Ptr) (xs : List Ptr) → has (last_or x xs) (x ∷ xs) ≡ true
has-last_or x [] = ground arith
has-last_or x (y ∷ ys) = ground (arith, has-last_or y ys)

-- A task in the list and one that is not are two tasks.
pub has-ne : (x a : Ptr) (xs : List Ptr) → has a xs ≡ true → has x xs ≡ false → (x == a) ≡ false
has-ne x a xs here gone = elim (Bool-cases (x == a)) [
  | inl e ↦ let same : x ≡ a = ground arith in absurd (cc (ap (λ b. has b xs) same))
  | inr e ↦ e
]

-- A list whose links are written only before its first task and after its last.
pub Links-relink :
    (m m' : Tasks) (p p' s s' : Ptr) (xs : List Ptr)
    → ((a : Ptr)
        → has a xs ≡ true
        → ((m' a).prev ≡ (if a == head_or null xs then p' else (m a).prev))
          × ((m' a).next ≡ (if a == last_or null xs then s' else (m a).next)))
    → Links m p s xs
    → Links m' p' s' xs
Links-relink m m' p p' s s' [] h l = tt
Links-relink m m' p p' s s' (x ∷ []) h l = ground (arith, h x)
Links-relink m m' p p' s s' (x ∷ y ∷ ys) h l =
    let rest : Links m' x s' (y ∷ ys) =
      Links-relink m m' x x s s' (y ∷ ys) (λ a i. ground (arith, h a)) l.4 in
    let here = h x (ground arith) in
    let other = has-ne x (last_or y ys) (y ∷ ys) (has-last_or y ys) l.3 in
    (
      l.0,
      here.0 ∙ (let e : (x == x) ≡ true = ground arith in rw e),
      here.1 ∙ rw other l.2,
      l.3,
      rest,
    )

pub Links-frame :
    (m m' : Tasks) (p s : Ptr) (xs : List Ptr)
    → ((a : Ptr) → has a xs ≡ true → ((m' a).prev ≡ (m a).prev) × ((m' a).next ≡ (m a).next))
    → Links m p s xs
    → Links m' p s xs
Links-frame m m' p s [] h l = tt
Links-frame m m' p s (x ∷ xs) h l =
    let rest = Links-frame m m' x s xs (λ a i. ground (arith, h a)) l.4 in
    (l.0, ground (arith, h x), ground (arith, h x), l.3, rest)

-- A chain of two parts, taken apart and put together.
pub Links-split :
    (m : Tasks) (p s : Ptr) (xs ys : List Ptr)
    → Links m p s (xs ++ ys)
    → Links m p (head_or s ys) xs × Links m (last_or p xs) s ys × Apart xs ys
Links-split m p s [] ys l = (tt, l, λ a i. ground arith)
Links-split m p s (x ∷ xs) ys l =
    let (front, back, apart) = Links-split m x s xs ys l.4 in
    (
      (l.0, l.1, l.2 ∙ head_or-append s xs ys, ground (arith, l.3, has-append x xs ys), front),
      back,
      λ a i. ground (arith, apart a, l.3, has-append x xs ys),
    )

pub Links-join :
    (m : Tasks) (p s : Ptr) (xs ys : List Ptr)
    → Links m p (head_or s ys) xs
    → Links m (last_or p xs) s ys
    → Apart xs ys
    → Links m p s (xs ++ ys)
Links-join m p s [] ys front back apart = back
Links-join m p s (x ∷ xs) ys front back apart = (
  front.0,
  front.1,
  front.2 ∙ sym (head_or-append s xs ys),
  ground (arith, apart x, has-append x xs ys, front.3),
  Links-join m x s xs ys front.4 back (λ a i. ground (arith, apart a)),
)

next-last :
    (m : Tasks) (p s x : Ptr) (xs : List Ptr) → Links m p s (x ∷ xs) → (m (last_or x xs)).next ≡ s
next-last m p s x [] l = l.2
next-last m p s x (y ∷ ys) l = next-last m x s y ys l.4

-- A known value under a test for its place.
known : (f : Ptr → Ptr) (b v a : Ptr) → f b ≡ v → f a ≡ (if a == b then v else f a)
known f b v a e = ground arith

-- Only the link before the list changes,
pub Links-relink_prev :
    (m m' : Tasks) (p p' s x : Ptr) (xs : List Ptr)
    → ((a : Ptr)
        → has a (x ∷ xs) ≡ true
        → ((m' a).prev ≡ (if a == x then p' else (m a).prev)) × ((m' a).next ≡ (m a).next))
    → Links m p s (x ∷ xs)
    → Links m' p' s (x ∷ xs)
Links-relink_prev m m' p p' s x xs h l =
    Links-relink m m' p p' s s (x ∷ xs)
      (λ a i. (
        (h a i).0,
        (h a i).1 ∙ known (λ b. (m b).next) (last_or x xs) s a (next-last m p s x xs l),
      ))
      l

-- or only the link after it.
pub Links-relink_next :
    (m m' : Tasks) (p s s' x : Ptr) (xs : List Ptr)
    → ((a : Ptr)
        → has a (x ∷ xs) ≡ true
        → ((m' a).prev ≡ (m a).prev)
          × ((m' a).next ≡ (if a == last_or x xs then s' else (m a).next)))
    → Links m p s (x ∷ xs)
    → Links m' p s' (x ∷ xs)
Links-relink_next m m' p s s' x xs h l =
    Links-relink m m' p p s s' (x ∷ xs)
      (λ a i. ((h a i).0 ∙ known (λ b. (m b).prev) x p a l.1, (h a i).1)) l
