-- ===== src/Proc/Tqueue/Remove.antt =====
-- `tq_remove` of kernel/proc/sched/tqueue.c on the list that the queue stands for.
use aeolos.Base.{
  ◌≡◌, ◌≢◌, refl, sym, ◌∙◌, Bool, true, false, List, [], ◌∷◌, ◌++◌, ◌==◌, ◌||◌, arith, append-nil,
}
use aeolos.Proc.Tasks.{Ptr, null, Tasks, set_next, set_prev, link_laws, other_laws}
use aeolos.Proc.Tqueue.{Tqueue, tq_remove}
use aeolos.Proc.Tqueue.Links.{
  last_or, last_or-append, has-last_or, Links-relink_prev, Links-relink_next, Links-split,
  Links-join,
}
use aeolos.Proc.Tqueue.Ops.{IsQueue, OnlyLinks, mem-ne, head_ne_null, last_ne_null}

-- The last two writes of the function.
abbrev unlinked : Tasks → Ptr → Tasks
unlinked m t = set_prev (set_next m t null) t null

or_right : (a b : Bool) → (a || b) ≡ false → b ≡ false
or_right a b h = ground arith

-- What the removal leaves: the queue of the others, and only links are written.
abbrev pub Removed : Tasks → List Ptr → Tqueue × Tasks → Type 0
Removed m rest (q', m') = IsQueue m' q' rest × OnlyLinks m m'

module _ (m : Tasks) (q : Tqueue) (t : Ptr) where
  remove_front :
      (b : Ptr) (ys : List Ptr) → IsQueue m q (t ∷ b ∷ ys) → Removed m (b ∷ ys) (tq_remove t q m)
  unfolding tq_remove
  remove_front b ys v =
      let l = v.links in
      let m' = unlinked (set_prev m (m t).next null) t in
      let no_prev : ((m t).prev == null) ≡ true = ground (arith, l.1) in
      let next : (m t).next ≡ b = l.2 in
      let some_next : ((m t).next == null) ≡ false = rw next (head_ne_null m t null b ys l.4) in
      rw (no_prev, some_next, tq_remove)
        (
          record {
            front = next;
            back = v.back;
            links =
                Links-relink_prev m m' t null null b ys
                  (λ c i.
                    let ct = mem-ne c t (b ∷ ys) i l.3 in simp (link_laws, next, ct) (refl, refl))
                  l.4;
          },
          λ c. simp other_laws (refl, refl, refl, refl, refl),
        )

  remove_back :
      (x : Ptr) (xs : List Ptr)
      → IsQueue m q (x ∷ xs ++ (t ∷ []))
      → Removed m (x ∷ xs) (tq_remove t q m)
  unfolding tq_remove
  remove_back x xs v =
      let (front, back, apart) = Links-split m null null (x ∷ xs) (t ∷ []) v.links in
      let m' = unlinked (set_next m (m t).prev null) t in
      let prev : (m t).prev ≡ last_or x xs = back.1 in
      let some_prev : ((m t).prev == null) ≡ false = rw prev (last_ne_null m null t x xs front) in
      let no_next : ((m t).next == null) ≡ true = ground (arith, back.2) in
      rw (some_prev, no_next, tq_remove)
        (
          record {
            front = v.front;
            back = prev;
            links =
                Links-relink_next m m' null t null x xs
                  (λ c i.
                    let ct : (c == t) ≡ false = ground (arith, apart c) in
                    simp (link_laws, prev, ct) (refl, refl))
                  front;
          },
          λ c. simp other_laws (refl, refl, refl, refl, refl),
        )

  remove_between :
      (x b : Ptr) (xs ys : List Ptr)
      → IsQueue m q (x ∷ xs ++ (t ∷ b ∷ ys))
      → Removed m (x ∷ xs ++ (b ∷ ys)) (tq_remove t q m)
  unfolding tq_remove
  remove_between x b xs ys v =
      let (front, back, apart) = Links-split m null null (x ∷ xs) (t ∷ b ∷ ys) v.links in
      let m' = unlinked (set_prev (set_next m (m t).prev (m t).next) (m t).next (m t).prev) t in
      let prev : (m t).prev ≡ last_or x xs = back.1 in
      let next : (m t).next ≡ b = back.2 in
      let some_prev : ((m t).prev == null) ≡ false = rw prev (last_ne_null m null t x xs front) in
      let some_next : ((m t).next == null) ≡ false = rw next (head_ne_null m t null b ys back.4) in
      rw (some_prev, some_next, tq_remove)
        (
          record {
            front = v.front;
            back = v.back ∙ last_or-append x xs (t ∷ b ∷ ys) ∙ sym (last_or-append x xs (b ∷ ys));
            links =
                Links-join m' null null (x ∷ xs) (b ∷ ys)
                  (Links-relink_next m m' null t b x xs
                    (λ c i.
                      let ct : (c == t) ≡ false = ground (arith, apart c) in
                      let cb : (c == b) ≡ false = ground (arith, apart c) in
                      simp (link_laws, prev, next, ct, cb) (refl, refl))
                    front)
                  (Links-relink_prev m m' t (last_or x xs) null b ys
                    (λ c i.
                      let ct = mem-ne c t (b ∷ ys) i back.3 in
                      let last_out =
                        or_right (last_or x xs == t) _ (apart (last_or x xs) (has-last_or x xs)) in
                      let other = mem-ne c (last_or x xs) (b ∷ ys) i last_out in
                      simp (link_laws, prev, next, ct, other) (refl, refl))
                    back.4)
                  (λ c i. ground (arith, apart c));
          },
          λ c. simp other_laws (refl, refl, refl, refl, refl),
        )

-- `tq_remove` takes a task out of a queue that holds at least one other, wherever it stands, and
-- writes only links.
pub tq_remove_lem :
    (m : Tasks) (q : Tqueue) (t : Ptr) (xs ys : List Ptr)
    → xs ++ ys ≢ []
    → IsQueue m q (xs ++ (t ∷ ys))
    → Removed m (xs ++ ys) (tq_remove t q m)
tq_remove_lem m q t [] [] other v = absurd (other refl)
tq_remove_lem m q t [] (b ∷ ys) other v = remove_front m q t b ys v
tq_remove_lem m q t (x ∷ xs) [] other v = rw (append-nil xs) (remove_back m q t x xs v)
tq_remove_lem m q t (x ∷ xs) (b ∷ ys) other v = remove_between m q t x b xs ys v

-- `tq_remove` of the only task of a queue leaves both ends of the queue pointing at it, so the
-- queue is not empty afterwards.
pub tq_remove_only :
    (m : Tasks) (q : Tqueue) (t : Ptr)
    → IsQueue m q (t ∷ [])
    → let (q', m') = tq_remove t q m in (q'.front ≡ t) × (q'.back ≡ t) × (¬ IsQueue m' q' [])
unfolding tq_remove
tq_remove_only m q t v =
    let no_prev : ((m t).prev == null) ≡ true = ground (arith, v.links.1) in
    let no_next : ((m t).next == null) ≡ true = ground (arith, v.links.2) in
    rw (no_prev, no_next, tq_remove) (v.front, v.back, λ w. v.links.0 (sym v.front ∙ w.front))
