-- ===== src/Proc/Sched/Kill.antt =====
-- `sched_kill` of kernel/proc/sched/sched.c and the queue of sleeping tasks.
use aeolos.Base.{
  ℕ, ◌≡◌, ◌≢◌, refl, ◌∙◌, true, false, ◌==◌, arith, inl, inr, Bool-cases, List, [], ◌∷◌, ◌++◌,
}
use aeolos.Proc.Tasks.{Ptr, null, Tasks, set_status, link_laws}
use aeolos.Proc.Tqueue.{Tqueue, tq_push_front, tq_remove}
use aeolos.Proc.Tqueue.Links.{last_or-append}
use aeolos.Proc.Tqueue.Ops.{IsQueue}
use aeolos.Proc.Sched.{Sched, success, is_tid_valid, sched_kill}

eq_self : (a : Ptr) → (a == a) ≡ true
eq_self a = ground arith

-- A task that has been pushed in front of a queue has nothing before it,
push-prev :
    (q : Tqueue) (t : Ptr) (m : Tasks) → q.front ≢ t → ((tq_push_front q t m).1 t).prev ≡ null
unfolding tq_push_front
push-prev q t m ne = elim (Bool-cases (q.front == null)) [
  | inl e ↦ rw (e, tq_push_front) (simp (link_laws, eq_self))
  | inr e ↦
      let f : (t == q.front) ≡ false = ground arith in
      rw (e, tq_push_front) (simp (link_laws, eq_self, f))
]

push-front : (q : Tqueue) (t : Ptr) (m : Tasks) → (tq_push_front q t m).0.front ≡ t
unfolding tq_push_front
push-front q t m = elim (Bool-cases (q.front == null)) [
  | inl e ↦ rw (e, tq_push_front)
  | inr e ↦ rw (e, tq_push_front)
]

-- so the removal from another queue does not move that queue's end.
remove-back :
    (q : Tqueue) (t : Ptr) (m : Tasks) → (m t).prev ≡ null → (tq_remove t q m).0.back ≡ q.back
unfolding tq_remove
remove-back q t m e =
    let none_before : ((m t).prev == null) ≡ true = ground arith in
    elim (Bool-cases ((m t).next == null)) [
      | inl f ↦ rw (none_before, f, tq_remove)
      | inr f ↦ rw (none_before, f, tq_remove)
    ]

-- `sched_kill` never takes the task that would be woken next off the queue of sleeping tasks. The
-- call succeeds on a task that stands at the end of that queue and is not yet in front of
-- the dead, and the task stays at that end, where it will be popped and woken, although it is now
-- in the queue of dead tasks as well, whose tasks the janitor frees: the links by which
-- `tq_remove` should take it out of the one have been overwritten by putting it into the other.
pub sched_kill-stays_asleep :
    (cpu tid : ℕ) (s : Sched) (xs : List Ptr)
    → is_tid_valid s tid ≡ true
    → IsQueue s.mem s.tasks_asleep (xs ++ (s.tasks_all tid ∷ []))
    → s.tasks_dead.front ≢ s.tasks_all tid
    → let (code, halts, s') = sched_kill cpu tid s in
      (code ≡ success)
      × (s'.tasks_asleep.back ≡ s.tasks_all tid)
      × (s'.tasks_dead.front ≡ s.tasks_all tid)
unfolding sched_kill
sched_kill-stays_asleep cpu tid s xs e v ne =
    let t = s.tasks_all tid in
    let m = set_status s.mem t (record (s.mem t).status { dead = true }) in
    let pushed = tq_push_front s.tasks_dead t m in
    let keeps : (tq_remove t s.tasks_asleep pushed.1).0.back ≡ s.tasks_asleep.back =
      remove-back s.tasks_asleep t pushed.1 (push-prev s.tasks_dead t m ne) in
    let last : s.tasks_asleep.back ≡ t = v.back ∙ last_or-append null xs (t ∷ []) in
    rw (e, sched_kill)
      (elim (Bool-cases (pushed.1 t).status.asleep) [
        | inl f ↦ rw f (refl, keeps ∙ last, push-front s.tasks_dead t m)
        | inr f ↦ rw f (refl, last, push-front s.tasks_dead t m)
      ])
