-- ===== src/Proc/Sched/Wake.antt =====
-- What waking tasks in kernel/proc/sched/sched.c leaves alone.
use aeolos.Base.{
  ℕ, zero, suc, ◌+◌, ◌≡◌, refl, ◌∙◌, false, not, ltb, ◌==◌, ◌&&◌, arith, inl, inr, if◌then◌else◌,
  Bool-cases,
}
use aeolos.Proc.Tasks.{Ptr, null, Tasks, set_status, set_kstack_top, status_laws, other_laws}
use aeolos.Proc.Tqueue.{Tqueue, tq_pop_back}
use aeolos.Proc.Sched.{Sched, wake_loop, saved}

-- The tids and the running flags are the same.
abbrev pub SameRunning : Tasks → Tasks → Type 0
SameRunning m m' =
    (a : Ptr) → ((m' a).tid ≡ (m a).tid) × ((m' a).status.running ≡ (m a).status.running)

pop-SameRunning : (q : Tqueue) (m : Tasks) → SameRunning m (tq_pop_back q m).2
unfolding tq_pop_back
pop-SameRunning q m a = elim (Bool-cases (q.back == null)) [
  | inl e ↦ rw (e, tq_pop_back) (refl, refl)
  | inr e ↦
      rw (e, tq_pop_back)
        (elim (Bool-cases ((m q.back).prev == null)) [
          | inl f ↦ rw (f, tq_pop_back) (refl, refl)
          | inr f ↦ rw (f, tq_pop_back) (simp other_laws (refl, refl))
        ])
]

wake-SameRunning :
    (m : Tasks) (t : Ptr) → SameRunning m (set_status m t (record (m t).status { asleep = false }))
wake-SameRunning m t a = (simp status_laws, simp status_laws (ground arith))

pub wake_loop-SameRunning :
    (fuel k : ℕ) (clock : ℕ → ℕ) (q : Tqueue) (m : Tasks)
    → SameRunning m (wake_loop fuel k clock q m).1
unfolding wake_loop
wake_loop-SameRunning zero k clock q m a = (refl, refl)
wake_loop-SameRunning (suc fuel) k clock q m a =
    let (t, q', m') = tq_pop_back q m in
    let woken = set_status m' t (record (m' t).status { asleep = false }) in
    let rest = wake_loop-SameRunning fuel (k + 1) clock q' woken a in
    let one = wake-SameRunning m' t a in
    let pop = pop-SameRunning q m a in
    elim (Bool-cases (not (q.back == null) && ltb (m q.back).wakeuptime (clock k))) [
      | inl e ↦ rw (e, wake_loop) (rest.0 ∙ one.0 ∙ pop.0, rest.1 ∙ one.1 ∙ pop.1)
      | inr e ↦ rw (e, wake_loop) (refl, refl)
    ]

-- Up to the choice, the tids stay, and of the running flags only the current task's changes.
pub saved-running :
    (fuel cpu state : ℕ) (clock : ℕ → ℕ) (s : Sched) (a : Ptr)
    → (((saved fuel cpu state clock s).mem a).tid ≡ (s.mem a).tid)
      × (((saved fuel cpu state clock s).mem a).status.running
          ≡ (if a == s.tasks_running cpu then false else (s.mem a).status.running))
unfolding saved
saved-running fuel cpu state clock s a =
    let curr = s.tasks_running cpu in
    let m = set_kstack_top s.mem curr state in
    let m' = set_status m curr (record (m curr).status { running = false }) in
    let woken = wake_loop-SameRunning fuel 0 clock s.tasks_asleep m' a in
    (woken.0 ∙ simp status_laws, woken.1 ∙ simp status_laws (ground arith))
