-- ===== src/Proc/Tqueue.antt =====
-- kernel/proc/sched/tqueue.c: doubly linked queues of tasks. Each function takes the memory and
-- returns what it changes. `tq_insert_after` reads `a->next` and writes through it: `none` is the
-- fault where that is NULL.
pub mod Links
pub mod Ops
pub mod Insert
pub mod Remove
use aeolos.Base.{ℕ, zero, suc, Option, none, some, ◌==◌, if◌then◌else◌, not, ◌&&◌}
use aeolos.Proc.Tasks.{Ptr, null, Task, Tasks, set_next, set_prev}

-- `tqueue_t`; its `len` is never used.
pub record Tqueue : Type 0 where
  pub front : Ptr
  pub back : Ptr

unfoldable pub tq_push_front : Tqueue → Ptr → Tasks → Tqueue × Tasks
tq_push_front q t m =
    let m = set_prev m t null in
    let m = set_next m t q.front in
    if q.front == null
    then (record { front = t; back = t }, m)
    else (record q { front = t }, set_prev m q.front t)

unfoldable pub tq_insert_after : Tqueue → Ptr → Ptr → Tasks → Option (Tqueue × Tasks)
unfolding tq_push_front
tq_insert_after q a t m =
    let m = set_prev m t null in
    let m = set_next m t null in
    if a == null
    then some (tq_push_front q t m)
    else if a == q.back
    then some (record q { back = t }, set_prev (set_next m a t) t a)
    else let b = (m a).next in
      if b == null
      then none
      else some (q, set_next (set_prev (set_next (set_prev m b t) a t) t a) t b)

unfoldable pub tq_remove : Ptr → Tqueue → Tasks → Tqueue × Tasks
tq_remove t q m =
    let prev = (m t).prev in
    let next = (m t).next in
    let (q', m') =
      if not (prev == null) && not (next == null)
      then (q, set_prev (set_next m prev next) next prev)
      else if not (prev == null)
      then (record q { back = prev }, set_next m prev null)
      else if not (next == null)
      then (record q { front = next }, set_prev m next null)
      else (q, m) in
    (q', set_prev (set_next m' t null) t null)

-- The result is NULL for an empty queue.
unfoldable pub tq_pop_back : Tqueue → Tasks → Ptr × Tqueue × Tasks
tq_pop_back q m =
    if q.back == null
    then (null, q, m)
    else let ret = q.back in
      let back = (m ret).prev in
      if back == null
      then (ret, record { front = null; back = null }, m)
      else (ret, record q { back = back }, set_next m back null)

-- The loop of `tq_find` from `t` on, with fuel for the length of the queue.
unfoldable pub find_from : ℕ → Ptr → ℕ → Tasks → Ptr
find_from zero t tid m = null
find_from (suc fuel) t tid m =
    let rest = find_from fuel (m t).next tid m in
    if t == null then null else if (m t).tid == tid then t else rest

unfoldable pub tq_find : ℕ → Tqueue → ℕ → Tasks → Ptr
tq_find fuel q tid m = find_from fuel q.front tid m
