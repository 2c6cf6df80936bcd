-- ===== src/Proc/Sched.antt =====
-- kernel/proc/sched/sched.c: the scheduler. Its static variables are one record, with the memory of
-- the tasks. Each function holds `sched_lock` from its first access to the last, so it is one
-- step; the clock's readings and the number of the CPU that runs it are arguments.
pub mod Choose
pub mod Wake
pub mod Exclusive
pub mod Order
pub mod Sleeping
pub mod Due
pub mod Janitor
pub mod Add
pub mod Kill
pub mod Calls
use aeolos.Base.{
  ℕ, zero, suc, ◌+◌, ◌-◌, ◌*◌, ◌/◌, ◌%◌, ◌^◌, Bool, true, false, not, ltb, leb, ◌==◌, ◌&&◌,
  if◌then◌else◌, Option, none, some,
}
use aeolos.Proc.Tasks.{
  Ptr, null, Task, Tasks, Status, is_ready, set_status, set_wakeuptime, set_kstack_top,
}
use aeolos.Proc.Tqueue.{Tqueue, tq_push_front, tq_insert_after, tq_pop_back, tq_remove}

-- TIMESLICE_DEFAULT and KSTACK_SIZE
abbrev pub timeslice_default : ℕ
timeslice_default = 2 * 1_000_000

abbrev pub kstack_size : ℕ
kstack_size = 4096

-- The static variables. The vector `tasks_all` is its length, its `alloc_size` and the array at
-- `data`; what that holds past the length is whatever is in memory.
pub record Sched : Type 0 where
  pub mem : Tasks
  pub tasks_idle : ℕ → Ptr
  pub tasks_running : ℕ → Ptr
  pub len : ℕ
  pub alloc_size : ℕ
  pub tasks_all : ℕ → Ptr
  pub tasks_asleep : Tqueue
  pub tasks_dead : Tqueue

-- The result of a function that returns 0 or -1.
pub data Code : Type 0 where
  success failure : Code

-- IS_TID_VALID
abbrev pub is_tid_valid : Sched → ℕ → Bool
is_tid_valid s tid = ltb tid s.len && not (s.tasks_all tid == null)

abbrev pub update : (ℕ → Ptr) → ℕ → Ptr → ℕ → Ptr
update f k p i = if i == k then p else f i

-- The loop of `add_sleeping_sorted` from task `i` on; `none` is a fault.
unfoldable pub sorted_loop : ℕ → Ptr → Ptr → Tqueue → Tasks → Option (Tqueue × Tasks)
sorted_loop zero i t q m = none
sorted_loop (suc fuel) i t q m =
    let rest = sorted_loop fuel (m i).next t q m in
    if i == null
    then some (q, m)
    else if leb (m i).wakeuptime (m t).wakeuptime
    then tq_insert_after q (m i).prev t m
    else rest

unfoldable pub add_sleeping_sorted : ℕ → Ptr → Tqueue → Tasks → Option (Tqueue × Tasks)
unfolding sorted_loop
add_sleeping_sorted fuel t q m =
    if q.front == null
    then some (tq_push_front q t m)
    else if ltb (m t).wakeuptime (m q.back).wakeuptime
    then tq_insert_after q q.back t m
    else sorted_loop fuel q.front t q m

-- The loop of `_do_context_switch` that wakes tasks; `clock k` is the reading of its round `k`.
unfoldable pub wake_loop : ℕ → ℕ → (ℕ → ℕ) → Tqueue → Tasks → Tqueue × Tasks
wake_loop zero k clock q m = (q, m)
wake_loop (suc fuel) k clock q m =
    let (t, q', m') = tq_pop_back q m in
    let rest =
      wake_loop fuel (k + 1) clock q' (set_status m' t (record (m' t).status { asleep = false })) in
    if not (q.back == null) && ltb (m q.back).wakeuptime (clock k) then rest else (q, m)

-- The loops that choose the next task: the first ready task at `n` indices from `i` on, or NULL.
unfoldable pub ready_from : Sched → ℕ → ℕ → Ptr
ready_from s zero i = null
ready_from s (suc n) i =
    let rest = ready_from s n (i + 1) in
    let t = s.tasks_all i in if not (t == null) && is_ready (s.mem t).status then t else rest

unfoldable pub choose : Sched → ℕ → Ptr → Ptr
unfolding ready_from
choose s cpu curr =
    let tid = (s.mem curr).tid in
    let after = ready_from s (s.len - (tid + 1)) (tid + 1) in
    let before = ready_from s (tid + 1) 0 in
    if not (after == null) then after else if not (before == null) then before else s.tasks_idle cpu

-- `_do_context_switch` up to the choice of the next task: the state of the current task is saved
-- and the tasks that are due are woken.
unfoldable pub saved : ℕ → ℕ → ℕ → (ℕ → ℕ) → Sched → Sched
unfolding wake_loop
saved fuel cpu state clock s =
    let curr = s.tasks_running cpu in
    let m = set_kstack_top s.mem curr state in
    let m = set_status m curr (record (m curr).status { running = false }) in
    let (asleep, m) = wake_loop fuel 0 clock s.tasks_asleep m in
    record s { mem = m; tasks_asleep = asleep }

-- The rest of it: the next task is chosen and runs. With it goes what is written to `rsp0` of the
-- task state segment.
unfoldable pub switched : ℕ → Sched → Sched × ℕ
switched cpu s =
    let next = choose s cpu (s.tasks_running cpu) in
    let m = set_status s.mem next (record (s.mem next).status { running = true }) in
    (
      record s { mem = m; tasks_running = update s.tasks_running cpu next },
      ((m next).kstack_limit + kstack_size) % 2 ^ 64,
    )

unfoldable pub do_context_switch : ℕ → ℕ → ℕ → (ℕ → ℕ) → Sched → Sched × ℕ
do_context_switch fuel cpu state clock s = switched cpu (saved fuel cpu state clock s)

-- `sched_sleep`: a short sleep only waits; `none` is a fault.
unfoldable pub sched_sleep : ℕ → ℕ → ℕ → ℕ → Sched → Option Sched
sched_sleep fuel cpu now nanos s =
    if leb nanos timeslice_default
    then some s
    else let curr = s.tasks_running cpu in
      let m = set_wakeuptime s.mem curr ((now + nanos) % 2 ^ 64) in
      let m = set_status m curr (record (m curr).status { asleep = true }) in
      elim (add_sleeping_sorted fuel curr s.tasks_asleep m) [
        | none ↦ none
        | some (q, m') ↦ some (record s { mem = m'; tasks_asleep = q })
      ]

-- `sched_kill`; the middle result says whether the CPU then halts until the next switch.
unfoldable pub sched_kill : ℕ → ℕ → Sched → Code × Bool × Sched
sched_kill cpu tid s =
    if is_tid_valid s tid
    then (let t = s.tasks_all tid in
        let m = set_status s.mem t (record (s.mem t).status { dead = true }) in
        let (dead, m) = tq_push_front s.tasks_dead t m in
        let was_asleep = (m t).status.asleep in
        let (asleep, removed) = tq_remove t s.tasks_asleep m in
        let awake = set_status removed t (record (removed t).status { asleep = false }) in
        (
          success,
          t == s.tasks_running cpu,
          record s {
            mem = if was_asleep then awake else m;
            tasks_all = update s.tasks_all tid null;
            tasks_dead = dead;
            tasks_asleep = if was_asleep then asleep else s.tasks_asleep;
          },
        ))
    else (failure, false, s)

unfoldable pub sched_block : ℕ → ℕ → Sched → Code × Bool × Sched
sched_block cpu tid s =
    let t = s.tasks_all tid in
    let status = (s.mem t).status in
    if is_tid_valid s tid && not status.blocked
    then (
      success,
      t == s.tasks_running cpu,
      record s { mem = set_status s.mem t (record status { blocked = true }) },
    )
    else (failure, false, s)

unfoldable pub sched_unblock : ℕ → Sched → Code × Sched
sched_unblock tid s =
    let t = s.tasks_all tid in
    let status = (s.mem t).status in
    if is_tid_valid s tid && status.blocked
    then (success, record s { mem = set_status s.mem t (record status { blocked = false }) })
    else (failure, s)

-- `sched_add`, with `vec_resize`: a new array keeps what the old one held, and is otherwise
-- whatever is in the memory `fresh` that it is given.
unfoldable pub sched_add : (ℕ → Ptr) → Ptr → Sched → Sched
sched_add fresh t s =
    let tid = (s.mem t).tid in
    let need = (tid + 1) * 8 in
    let grow = ltb s.alloc_size need in
    let old = λ (i : ℕ).
      if grow
      then (if ltb i (s.alloc_size / 8) then s.tasks_all i else fresh i)
      else s.tasks_all i in
    record s {
      len = tid + 1;
      alloc_size = if grow then need * 2 else s.alloc_size;
      tasks_all = update old tid t;
    }
