-- ===== src/Proc/Sched/Sleeping.antt =====
-- `add_sleeping_sorted` of kernel/proc/sched/sched.c: the queue of sleeping tasks is kept in the
-- order of their wakeup times, the latest in front.
use aeolos.Base.{
  ℕ, zero, suc, ◌<◌, ◌≤◌, ◌≡◌, ◌≢◌, refl, sym, ap, ◌∙◌, true, false, ltb, leb, ◌==◌, arith, inl,
  inr, Bool-cases, Option, some, List, [], ◌∷◌, ◌++◌, length, append_assoc, append-nil, ltb→lt,
}
use mathlib.Core.Path.{subst}
use aeolos.Proc.Tasks.{Ptr, null, Tasks, set_next, set_prev, link_laws, other_laws}
use aeolos.Proc.Tqueue.{Tqueue, tq_push_front, tq_insert_after}
use aeolos.Proc.Tqueue.Links.{head_or, last_or, has, Links-frame, Links-split}
use aeolos.Proc.Tqueue.Ops.{IsQueue, OnlyLinks, tq_push_front-cons, mem-ne, head_ne_null}
use aeolos.Proc.Tqueue.Insert.{Inserted, tq_insert_after_lem}
use aeolos.Proc.Sched.Order.{
  IsDescending, insert, insert_last, insert-IsDescending, init, init-last,
}
use aeolos.Proc.Sched.{add_sleeping_sorted, sorted_loop}

abbrev pub Added : Tasks → Ptr → List Ptr → ℕ → Tqueue → Type 0
Added m t ys fuel q =
    (q' : Tqueue) × (m' : Tasks) × (add_sleeping_sorted fuel t q m ≡ some (q', m'))
    × IsQueue m' q' ys
    × OnlyLinks m m'

abbrev Looped : Tasks → Ptr → List Ptr → ℕ → Tqueue → Ptr → Type 0
Looped m t ys fuel q i =
    (q' : Tqueue) × (m' : Tasks) × (sorted_loop fuel i t q m ≡ some (q', m'))
    × IsQueue m' q' ys
    × OnlyLinks m m'

-- The loop, behind the task `a` at the end of `ps ++ a ∷ []`.
sorted_loop-insert :
    (m : Tasks) (q : Tqueue) (t a : Ptr) (ps rest : List Ptr) (fuel : ℕ)
    → t ≢ null
    → IsQueue m q (ps ++ (a ∷ rest))
    → has t (ps ++ (a ∷ rest)) ≡ false
    → length rest < fuel
    → (m t).wakeuptime < (m a).wakeuptime
    → (m (last_or a rest)).wakeuptime ≤ (m t).wakeuptime
    → Looped m t (ps ++ (a ∷ insert m t rest)) fuel q (head_or null rest)
unfolding sorted_loop
sorted_loop-insert m q t a ps rest zero ne v new enough later sooner = absurd (omega arith)
sorted_loop-insert m q t a ps [] (suc fuel) ne v new enough later sooner = absurd (omega arith)
sorted_loop-insert m q t a ps (x ∷ ws) (suc fuel) ne v new enough later sooner =
    let (front, back, apart) = Links-split m null null ps (a ∷ x ∷ ws) v.links in
    let some_x = head_ne_null m a null x ws back.4 in
    let prev : (m x).prev ≡ a = back.4.1 in
    let next : (m x).next ≡ head_or null ws = back.4.2 in
    elim (Bool-cases (leb (m x).wakeuptime (m t).wakeuptime)) [
      | inl e ↦ rw (some_x, e, prev, sorted_loop) (tq_insert_after_lem m q a t ps (x ∷ ws) v ne new)
      | inr e ↦
          let shift : (ws' : List Ptr) → (ps ++ (a ∷ [])) ++ (x ∷ ws') ≡ ps ++ (a ∷ x ∷ ws') =
            λ ws'. append_assoc ps (a ∷ []) (x ∷ ws') in
          let go =
            sorted_loop-insert m q t x (ps ++ (a ∷ [])) ws fuel ne (rw (shift ws) v)
              (rw (shift ws) new) (omega arith) (ground arith) sooner in
          rw (some_x, e, next, sorted_loop) (rw (shift (insert m t ws)) at go)
    ]

-- Insertion behind NULL is insertion in front.
insert_front :
    (m : Tasks) (q : Tqueue) (t : Ptr) (xs : List Ptr)
    → IsQueue m q xs
    → t ≢ null
    → has t xs ≡ false
    → (q' : Tqueue) × (m' : Tasks) × (tq_insert_after q null t m ≡ some (q', m'))
      × IsQueue m' q' (t ∷ xs)
      × OnlyLinks m m'
unfolding tq_insert_after
insert_front m q t xs v ne new =
    let m1 = set_next (set_prev m t null) t null in
    let v1 : IsQueue m1 q xs = record {
      front = v.front;
      back = v.back;
      links =
          Links-frame m m1 null null xs
            (λ c i. let ct = mem-ne c t xs i new in simp (link_laws, ct) (refl, refl)) v.links;
    } in
    let (pushed, only) = tq_push_front-cons m1 q t xs v1 ne new in
    (
      (tq_push_front q t m1).0,
      (tq_push_front q t m1).1,
      refl,
      pushed,
      λ c.
          let (a, b, w, k, top) = only c in
          (
            a ∙ simp other_laws,
            b ∙ simp other_laws,
            w ∙ simp other_laws,
            k ∙ simp other_laws,
            top ∙ simp other_laws,
          ),
    )

module _ (m : Tasks) (q : Tqueue) (t x : Ptr) (xs : List Ptr) (ne : t ≢ null)
    (v : IsQueue m q (x ∷ xs)) (new : has t (x ∷ xs) ≡ false) where
  -- Behind the last task,
  insert_behind : Inserted m q q.back t (init x xs) []
  insert_behind =
      let whole : init x xs ++ (last_or x xs ∷ []) ≡ x ∷ xs =
        init-last x xs [] ∙ ap (λ l. x ∷ l) (append-nil xs) in
      subst (λ a. Inserted m q a t (init x xs) []) (sym v.back)
        (tq_insert_after_lem m q (last_or x xs) t (init x xs) [] (rw whole v) ne (rw whole new))

  behind :
      IsDescending m (x ∷ xs)
      → (fuel : ℕ) → ltb (m t).wakeuptime (m q.back).wakeuptime ≡ true
      → Added m t (insert m t (x ∷ xs)) fuel q
  unfolding add_sleeping_sorted
  behind d fuel e =
      let (q', m', ret, w, only) = insert_behind in
      let some_front : (q.front == null) ≡ false =
        rw v.front (head_ne_null m null null x xs v.links) in
      let lt : (m t).wakeuptime < (m (last_or x xs)).wakeuptime = rw (← v.back) (ltb→lt _ _ e) in
      let at : init x xs ++ (q.back ∷ t ∷ []) ≡ insert m t (x ∷ xs) =
        rw v.back (init-last x xs (t ∷ [])) ∙ sym (insert_last m t x xs d lt) in
      (q', m', rw (some_front, e, add_sleeping_sorted) ret, subst (IsQueue m' q') at w, only)

  from_front :
      (fuel : ℕ) (r : Option (Tqueue × Tasks))
      → ltb (m t).wakeuptime (m q.back).wakeuptime ≡ false
      → sorted_loop fuel x t q m ≡ r
      → add_sleeping_sorted fuel t q m ≡ r
  unfolding add_sleeping_sorted
  from_front fuel r e h =
      let some_front : (q.front == null) ≡ false =
        rw v.front (head_ne_null m null null x xs v.links) in
      rw (some_front, e, add_sleeping_sorted)
        (subst (λ b. sorted_loop fuel b t q m ≡ r) (sym v.front) h)

  -- before the first,
  before :
      (fuel : ℕ)
      → ltb (m t).wakeuptime (m q.back).wakeuptime ≡ false
      → leb (m x).wakeuptime (m t).wakeuptime ≡ true
      → Added m t (t ∷ x ∷ xs) (suc fuel) q
  unfolding sorted_loop
  before fuel e f =
      let (q', m', ret, w, only) = insert_front m q t (x ∷ xs) v ne new in
      let some_x = head_ne_null m null null x xs v.links in
      let prev : (m x).prev ≡ null = v.links.1 in
      (q', m', from_front (suc fuel) _ e (rw (some_x, f, prev, sorted_loop) ret), w, only)

  -- or further on.
  further :
      (fuel : ℕ)
      → length (x ∷ xs) < suc fuel
      → ltb (m t).wakeuptime (m q.back).wakeuptime ≡ false
      → leb (m x).wakeuptime (m t).wakeuptime ≡ false
      → Added m t (x ∷ insert m t xs) (suc fuel) q
  unfolding sorted_loop
  further fuel enough e f =
      let sooner : (m (last_or x xs)).wakeuptime ≤ (m t).wakeuptime =
        rw (← v.back) (ground arith) in
      let (q', m', ret, w, only) =
        sorted_loop-insert m q t x [] xs fuel ne v new (omega arith) (ground arith) sooner in
      let some_x = head_ne_null m null null x xs v.links in
      let next : (m x).next ≡ head_or null xs = v.links.2 in
      (q', m', from_front (suc fuel) _ e (rw (some_x, f, next, sorted_loop) ret), w, only)

  add_some :
      (fuel : ℕ)
      → IsDescending m (x ∷ xs)
      → length (x ∷ xs) < fuel
      → Added m t (insert m t (x ∷ xs)) fuel q
  add_some zero d enough = absurd (omega arith)
  add_some (suc fuel) d enough = elim (Bool-cases (ltb (m t).wakeuptime (m q.back).wakeuptime)) [
    | inl e ↦ behind d (suc fuel) e
    | inr e ↦ elim (Bool-cases (leb (m x).wakeuptime (m t).wakeuptime)) [
      | inl f ↦ rw f (before fuel e f)
      | inr f ↦ rw f (further fuel enough e f)
    ]
  ]

-- A task that goes to sleep is put into the queue of sleeping tasks, which stays in the order of
-- the wakeup times, and no other field of any task is written: the queue is in order before, the
-- task is not in it, and the loop has fuel for the queue's length.
pub add_sleeping_sorted-insert :
    (m : Tasks) (q : Tqueue) (t : Ptr) (xs : List Ptr) (fuel : ℕ)
    → t ≢ null
    → IsQueue m q xs
    → has t xs ≡ false
    → IsDescending m xs
    → length xs < fuel
    → Added m t (insert m t xs) fuel q × IsDescending m (insert m t xs)
unfolding add_sleeping_sorted
add_sleeping_sorted-insert m q t [] fuel ne v new d enough =
    let none_front : (q.front == null) ≡ true = ground (arith, v.front) in
    let (pushed, only) = tq_push_front-cons m q t [] v ne new in
    (
      rw (none_front, add_sleeping_sorted)
          ((tq_push_front q t m).0, (tq_push_front q t m).1, refl, pushed, only),
      (tt, tt),
    )
add_sleeping_sorted-insert m q t (x ∷ xs) fuel ne v new d enough =
    (add_some m q t x xs ne v new fuel d enough, insert-IsDescending m t (x ∷ xs) d)
