-- ===== src/Proc/Tqueue/Ops.antt =====
-- The operations of kernel/proc/sched/tqueue.c on the lists that the queues stand for.
use aeolos.Base.{
  ℕ, zero, suc, ◌≡◌, ◌≢◌, refl, ◌∙◌, true, false, List, [], ◌∷◌, ◌++◌, ◌==◌, if◌then◌else◌, arith,
  length, ◌<◌,
}
use aeolos.Proc.Tasks.{Ptr, null, Tasks, set_next, set_prev, link_laws, other_laws}
use aeolos.Proc.Tqueue.{Tqueue, tq_push_front, tq_pop_back, tq_find, find_from}
use aeolos.Proc.Tqueue.Links.{
  head_or, last_or, has, Links, last_or-append, has-ne, Links-relink_prev, Links-relink_next,
  Links-split,
}

-- The queue holds the tasks `xs`, front first.
pub record IsQueue (m : Tasks) (q : Tqueue) (xs : List Ptr) : Type 0 where
  pub front : q.front ≡ head_or null xs
  pub back : q.back ≡ last_or null xs
  pub links : Links m null null xs

-- Only links have been written: every other field of every task is as before.
abbrev pub OnlyLinks : Tasks → Tasks → Type 0
OnlyLinks m m' =
    (a : Ptr)
    → ((m' a).tid ≡ (m a).tid)
      × ((m' a).status ≡ (m a).status)
      × ((m' a).wakeuptime ≡ (m a).wakeuptime)
      × ((m' a).kstack_limit ≡ (m a).kstack_limit)
      × ((m' a).kstack_top ≡ (m a).kstack_top)

pub head_ne_null :
    (m : Tasks) (p s x : Ptr) (xs : List Ptr) → Links m p s (x ∷ xs) → (x == null) ≡ false
head_ne_null m p s x xs l = ground (arith, l.0)

pub last_ne_null :
    (m : Tasks) (p s x : Ptr) (xs : List Ptr)
    → Links m p s (x ∷ xs)
    → (last_or x xs == null) ≡ false
last_ne_null m p s x [] l = ground (arith, l.0)
last_ne_null m p s x (y ∷ ys) l = last_ne_null m x s y ys l.4

-- Tests of pointers that the proofs decide.
pub eq_self : (a : Ptr) → (a == a) ≡ true
eq_self a = ground arith

pub mem-ne : (a t : Ptr) (xs : List Ptr) → has a xs ≡ true → has t xs ≡ false → (a == t) ≡ false
mem-ne a t xs i out = let e = has-ne t a xs i out in ground arith

-- `tq_push_front` puts a task that is not in the queue in front of it, and writes only links.
pub tq_push_front-cons :
    (m : Tasks) (q : Tqueue) (t : Ptr) (xs : List Ptr)
    → IsQueue m q xs
    → t ≢ null
    → has t xs ≡ false
    → let (q', m') = tq_push_front q t m in IsQueue m' q' (t ∷ xs) × OnlyLinks m m'
unfolding tq_push_front
tq_push_front-cons m q t [] v ne new =
    let e : (q.front == null) ≡ true = ground arith in
    rw (e, tq_push_front)
      (
        record {
          front = refl;
          back = refl;
          links = (ne, simp (link_laws, eq_self), simp (link_laws, eq_self, v.front), refl, tt);
        },
        λ a. simp other_laws (refl, refl, refl, refl, refl),
      )
tq_push_front-cons m q t (x ∷ xs) v ne new =
    let e : (q.front == null) ≡ false = ground (arith, v.links.0) in
    let apart : (t == x) ≡ false = ground arith in
    let m' = set_prev (set_next (set_prev m t null) t q.front) q.front t in
    rw (e, tq_push_front)
      (
        record {
          front = refl;
          back = v.back;
          links = (
            ne,
            simp (link_laws, eq_self, v.front, apart),
            simp (link_laws, eq_self, v.front),
            new,
            Links-relink_prev m m' null t null x xs
                (λ a i.
                  let other = mem-ne a t (x ∷ xs) i new in
                  simp (link_laws, v.front, other) (refl, refl))
                v.links,
          );
        },
        λ a. simp other_laws (refl, refl, refl, refl, refl),
      )

-- `tq_pop_back` takes the last task of a queue that holds one, and writes only links.
pub tq_pop_back-snoc :
    (m : Tasks) (q : Tqueue) (t : Ptr) (xs : List Ptr)
    → IsQueue m q (xs ++ (t ∷ []))
    → let (r, q', m') = tq_pop_back q m in (r ≡ t) × IsQueue m' q' xs × OnlyLinks m m'
unfolding tq_pop_back
tq_pop_back-snoc m q t [] v =
    let e : (q.back == null) ≡ false = ground (arith, v.links.0) in
    let first : ((m q.back).prev == null) ≡ true = rw v.back (ground (arith, v.links.1)) in
    rw (e, first, tq_pop_back)
      (
        v.back,
        record { front = refl; back = refl; links = tt },
        λ a. (refl, refl, refl, refl, refl),
      )
tq_pop_back-snoc m q t (y ∷ ys) v =
    let (front, back, apart) = Links-split m null null (y ∷ ys) (t ∷ []) v.links in
    let at : q.back ≡ t = v.back ∙ last_or-append y ys (t ∷ []) in
    let e : (q.back == null) ≡ false = ground (arith, back.0) in
    let rest : (m q.back).prev ≡ last_or y ys = rw at back.1 in
    let some_left : ((m q.back).prev == null) ≡ false =
      rw rest (last_ne_null m null t y ys front) in
    let m' = set_next m (m q.back).prev null in
    rw (e, some_left, tq_pop_back)
      (
        at,
        record {
          front = v.front;
          back = rest;
          links =
              Links-relink_next m m' null t null y ys (λ a i. simp (link_laws, rest) (refl, refl))
                front;
        },
        λ a. simp other_laws (refl, refl, refl, refl, refl),
      )

-- The first task of a list with the tid, or NULL.
abbrev pub find_tid : Tasks → ℕ → List Ptr → Ptr
find_tid m tid [] = null
find_tid m tid (x ∷ xs) = if (m x).tid == tid then x else find_tid m tid xs

find_from-Links :
    (m : Tasks) (p tid fuel : ℕ) (xs : List Ptr)
    → length xs < fuel
    → Links m p null xs
    → find_from fuel (head_or null xs) tid m ≡ find_tid m tid xs
unfolding find_from
find_from-Links m p tid zero xs lt l = absurd (omega arith)
find_from-Links m p tid (suc fuel) [] lt l = refl
find_from-Links m p tid (suc fuel) (x ∷ xs) lt l =
    let rest = find_from-Links m x tid fuel xs (omega arith) l.4 in
    rw (head_ne_null m p null x xs l, l.2, rest)

-- `tq_find` returns the first task of the queue, from the front, with the tid, and NULL if there is
-- none; with fuel for one step more than the queue is long its loop ends.
pub tq_find_lem :
    (m : Tasks) (q : Tqueue) (fuel tid : ℕ) (xs : List Ptr)
    → IsQueue m q xs
    → length xs < fuel
    → tq_find fuel q tid m ≡ find_tid m tid xs
unfolding tq_find
tq_find_lem m q fuel tid xs v lt = rw v.front (find_from-Links m null tid fuel xs lt v.links)
