-- ===== src/Proc/Sched/Calls.antt =====
-- The other calls of kernel/proc/sched/sched.c keep the invariant of the started CPUs too.
use aeolos.Base.{
  ℕ, ◌≡◌, ◌≢◌, refl, sym, true, false, not, ◌==◌, ◌&&◌, arith, inl, inr, Bool-cases, ◌∙◌,
}
use aeolos.Proc.Tasks.{Ptr, null, Tasks, Status, set_status, status_laws, other_laws}
use aeolos.Proc.Tqueue.{Tqueue, tq_push_front, tq_remove}
use aeolos.Proc.Sched.{Sched, update, is_tid_valid, sched_kill, sched_block, sched_unblock}
use aeolos.Proc.Sched.Wake.{SameRunning}
use aeolos.Proc.Sched.Exclusive.{IsExclusive}

push-SameRunning : (q : Tqueue) (t : Ptr) (m : Tasks) → SameRunning m (tq_push_front q t m).1
unfolding tq_push_front
push-SameRunning q t m a = elim (Bool-cases (q.front == null)) [
  | inl e ↦ rw (e, tq_push_front) (simp other_laws (refl, refl))
  | inr e ↦ rw (e, tq_push_front) (simp other_laws (refl, refl))
]

remove-SameRunning : (q : Tqueue) (t : Ptr) (m : Tasks) → SameRunning m (tq_remove t q m).1
unfolding tq_remove
remove-SameRunning q t m a = elim (Bool-cases ((m t).prev == null)) [
  | inl e ↦ elim (Bool-cases ((m t).next == null)) [
    | inl f ↦ rw (e, f, tq_remove) (simp other_laws (refl, refl))
    | inr f ↦ rw (e, f, tq_remove) (simp other_laws (refl, refl))
  ]
  | inr e ↦ elim (Bool-cases ((m t).next == null)) [
    | inl f ↦ rw (e, f, tq_remove) (simp other_laws (refl, refl))
    | inr f ↦ rw (e, f, tq_remove) (simp other_laws (refl, refl))
  ]
]

-- A write of a status that keeps the running flag.
status-SameRunning :
    (m : Tasks) (t : Ptr) (st : Status)
    → st.running ≡ (m t).status.running
    → SameRunning m (set_status m t st)
status-SameRunning m t st e a = (simp status_laws, simp status_laws (ground arith))

SameRunning-trans : (m m' m'' : Tasks) → SameRunning m m' → SameRunning m' m'' → SameRunning m m''
SameRunning-trans m m' m'' h k a = ((k a).0 ∙ (h a).0, (k a).1 ∙ (h a).1)

-- The invariant looks at tids, running flags, the table and what runs.
IsExclusive-frame :
    (n : ℕ) (s : Sched) (m : Tasks) (table : ℕ → Ptr) (asleep dead : Tqueue)
    → IsExclusive n s
    → SameRunning s.mem m
    → ((i : ℕ) → table i ≢ null → table i ≡ s.tasks_all i)
    → IsExclusive n
        (record s { mem = m; tasks_all = table; tasks_asleep = asleep; tasks_dead = dead })
IsExclusive-frame n s m table asleep dead v same part = record {
  runs = λ c lt. (same _).1 ∙ v.runs c lt;
  apart = v.apart;
  idle_apart = v.idle_apart;
  idle_some = v.idle_some;
  idles = v.idles;
  hidden = λ i c li lc e.
      let there : table i ≢ null = λ z. v.idle_some c lc (sym e ∙ z) in
      v.hidden i c li lc (sym (part i there) ∙ e);
  tids = λ c lt. rw (λ (a : Ptr). (same a).0) (v.tids c lt);
  idle_tids = λ c lt. rw (λ (a : Ptr). (same a).0) (v.idle_tids c lt);
  tid_at = λ i lt ne. (same _).0 ∙ rw (part i ne) (v.tid_at i lt (λ z. ne (part i ne ∙ z)));
}

module _ (n cpu tid : ℕ) (s : Sched) (v : IsExclusive n s) where
  block_keeps : IsExclusive n (sched_block cpu tid s).2
  unfolding sched_block
  block_keeps =
      let t = s.tasks_all tid in
      let status = (s.mem t).status in
      elim (Bool-cases (is_tid_valid s tid && not status.blocked)) [
        | inl e ↦
            rw (e, sched_block)
              (IsExclusive-frame n s _ s.tasks_all s.tasks_asleep s.tasks_dead v
                (status-SameRunning s.mem t (record status { blocked = true }) refl) (λ i ne. refl))
        | inr e ↦ rw (e, sched_block) v
      ]

  unblock_keeps : IsExclusive n (sched_unblock tid s).1
  unfolding sched_unblock
  unblock_keeps =
      let t = s.tasks_all tid in
      let status = (s.mem t).status in
      elim (Bool-cases (is_tid_valid s tid && status.blocked)) [
        | inl e ↦
            rw (e, sched_unblock)
              (IsExclusive-frame n s _ s.tasks_all s.tasks_asleep s.tasks_dead v
                (status-SameRunning s.mem t (record status { blocked = false }) refl)
                (λ i ne. refl))
        | inr e ↦ rw (e, sched_unblock) v
      ]

  kill_keeps : IsExclusive n (sched_kill cpu tid s).2
  unfolding sched_kill
  kill_keeps =
      let t = s.tasks_all tid in
      let m = set_status s.mem t (record (s.mem t).status { dead = true }) in
      let (dead, m') = tq_push_front s.tasks_dead t m in
      let (asleep, removed) = tq_remove t s.tasks_asleep m' in
      let marked = status-SameRunning s.mem t (record (s.mem t).status { dead = true }) refl in
      let pushed : SameRunning s.mem m' =
        SameRunning-trans s.mem m m' marked (push-SameRunning s.tasks_dead t m) in
      let gone : SameRunning s.mem removed =
        SameRunning-trans s.mem m' removed pushed (remove-SameRunning s.tasks_asleep t m') in
      let up = set_status removed t (record (removed t).status { asleep = false }) in
      let awake : SameRunning s.mem up =
        SameRunning-trans s.mem removed up gone
          (status-SameRunning removed t (record (removed t).status { asleep = false }) refl) in
      elim (Bool-cases (is_tid_valid s tid)) [
        | inl e ↦
            rw (e, sched_kill)
              (elim (Bool-cases (m' t).status.asleep) [
                | inl f ↦ rw f (
                    IsExclusive-frame n s _ (update s.tasks_all tid null) asleep dead v awake
                      (λ i. ground arith))
                | inr f ↦ rw f (
                    IsExclusive-frame n s _ (update s.tasks_all tid null) s.tasks_asleep dead v
                      pushed (λ i. ground arith))
              ])
        | inr e ↦ rw (e, sched_kill) v
      ]

-- Blocking, unblocking and killing a task, whichever it is and whatever the call returns, keep the
-- invariant of the started CPUs: none of them lets a task run on two CPUs.
pub calls-IsExclusive :
    (n cpu tid : ℕ) (s : Sched)
    → IsExclusive n s
    → IsExclusive n (sched_block cpu tid s).2
      × IsExclusive n (sched_unblock tid s).1
      × IsExclusive n (sched_kill cpu tid s).2
calls-IsExclusive n cpu tid s v =
    (block_keeps n cpu tid s v, unblock_keeps n cpu tid s v, kill_keeps n cpu tid s v)
