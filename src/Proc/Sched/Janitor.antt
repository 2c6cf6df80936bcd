-- ===== src/Proc/Sched/Janitor.antt =====
-- One round of `sched_janitor` in kernel/proc/sched/sched.c, between taking `sched_lock` and
-- releasing it: the dead tasks are popped, taken out of the table, and their stack and they
-- themselves are given to `kmfree`.
use aeolos.Base.{
  ℕ, zero, suc, ◌<◌, ◌≡◌, refl, sym, ap, ◌∙◌, Bool, true, false, ◌==◌, ◌||◌, arith, if◌then◌else◌,
  List, [], ◌∷◌, ◌++◌, length, append_assoc, append-nil, length-append,
}
use mathlib.Core.Path.{subst}
use aeolos.Proc.Tasks.{Ptr, null, Tasks}
use aeolos.Proc.Tqueue.{tq_pop_back}
use aeolos.Proc.Tqueue.Links.{last_or}
use aeolos.Proc.Tqueue.Ops.{IsQueue, OnlyLinks, tq_pop_back-snoc, last_ne_null}
use aeolos.Proc.Sched.{Sched, update}
use aeolos.Proc.Sched.Order.{init, init-last}

-- The loop, with fuel; the list is what has been given to `kmfree`, in that order.
pub janitor_loop : ℕ → Sched → List ℕ → Sched × List ℕ
janitor_loop zero s freed = (s, freed)
janitor_loop (suc fuel) s freed =
    let (t, dead, m) = tq_pop_back s.tasks_dead s.mem in
    let popped = record s { mem = m; tasks_dead = dead } in
    let cleared = record popped { tasks_all = update s.tasks_all (m t).tid null } in
    let rest = janitor_loop fuel cleared (freed ++ ((m t).kstack_limit ∷ t ∷ [])) in
    if t == null then (popped, freed) else rest

-- What is freed for the tasks of a queue, from its back.
abbrev pub freed_of : Tasks → List Ptr → List ℕ
freed_of m [] = []
freed_of m (x ∷ xs) = freed_of m xs ++ ((m x).kstack_limit ∷ x ∷ [])

abbrev pub has_tid : Tasks → ℕ → List Ptr → Bool
has_tid m i [] = false
has_tid m i (x ∷ xs) = (i == (m x).tid) || has_tid m i xs

-- What a round of the janitor makes of the scheduler's state, with `xs` dead.
pub record Reaped (s : Sched) (xs : List Ptr) (freed : List ℕ) (s' : Sched) (freed' : List ℕ)
    : Type 0 where
  pub dead : IsQueue s'.mem s'.tasks_dead []
  pub frees : freed' ≡ freed ++ freed_of s.mem xs
  pub table : (i : ℕ) → s'.tasks_all i ≡ (if has_tid s.mem i xs then null else s.tasks_all i)
  pub links : OnlyLinks s.mem s'.mem
  pub asleep : s'.tasks_asleep ≡ s.tasks_asleep

freed_of-snoc :
    (m : Tasks) (xs : List Ptr) (t : Ptr)
    → freed_of m (xs ++ (t ∷ [])) ≡ (m t).kstack_limit ∷ t ∷ freed_of m xs
freed_of-snoc m [] t = refl
freed_of-snoc m (x ∷ xs) t = rw (freed_of-snoc m xs t)

has_tid-snoc :
    (m : Tasks) (i : ℕ) (xs : List Ptr) (t : Ptr)
    → has_tid m i (xs ++ (t ∷ [])) ≡ (has_tid m i xs || (i == (m t).tid))
has_tid-snoc m i [] t = ground arith
has_tid-snoc m i (x ∷ xs) t = ground (arith, has_tid-snoc m i xs t)

-- Writes of links alone change neither.
freed_of-frame : (m m' : Tasks) (xs : List Ptr) → OnlyLinks m m' → freed_of m' xs ≡ freed_of m xs
freed_of-frame m m' [] h = refl
freed_of-frame m m' (x ∷ xs) h =
    ap (λ l. l ++ ((m' x).kstack_limit ∷ x ∷ [])) (freed_of-frame m m' xs h)
    ∙ ap (λ k. freed_of m xs ++ (k ∷ x ∷ [])) (h x).3

has_tid-frame :
    (m m' : Tasks) (i : ℕ) (xs : List Ptr) → OnlyLinks m m' → has_tid m' i xs ≡ has_tid m i xs
has_tid-frame m m' i [] h = refl
has_tid-frame m m' i (x ∷ xs) h = rw (has_tid-frame m m' i xs h, (h x).0)

OnlyLinks-trans : (m m1 m2 : Tasks) → OnlyLinks m m1 → OnlyLinks m1 m2 → OnlyLinks m m2
OnlyLinks-trans m m1 m2 h k a =
    ((k a).0 ∙ (h a).0, (k a).1 ∙ (h a).1, (k a).2 ∙ (h a).2, (k a).3 ∙ (h a).3, (k a).4 ∙ (h a).4)

-- The state after one task has been reaped.
abbrev reap : Sched → Sched
reap s =
    let (t, dead, m) = tq_pop_back s.tasks_dead s.mem in
    record s { mem = m; tasks_dead = dead; tasks_all = update s.tasks_all (m t).tid null }

Reaped-snoc :
    (s : Sched) (t : Ptr) (xs : List Ptr) (freed out freed' : List ℕ) (s' : Sched)
    → IsQueue s.mem s.tasks_dead (xs ++ (t ∷ []))
    → out ≡ (s.mem t).kstack_limit ∷ t ∷ []
    → Reaped (reap s) xs (freed ++ out) s' freed'
    → Reaped s (xs ++ (t ∷ [])) freed s' freed'
Reaped-snoc s t xs freed out freed' s' v e w =
    let (at, queue, only) = tq_pop_back-snoc s.mem s.tasks_dead t xs v in
    let m = (tq_pop_back s.tasks_dead s.mem).2 in
    record {
      dead = w.dead;
      frees =
          w.frees
          ∙ append_assoc freed out (freed_of m xs)
          ∙ ap (λ l. freed ++ (l ++ freed_of m xs)) e
          ∙ ap (λ l. freed ++ ((s.mem t).kstack_limit ∷ t ∷ l)) (freed_of-frame s.mem m xs only)
          ∙ ap (λ l. freed ++ l) (sym (freed_of-snoc s.mem xs t));
      table = λ i.
          let same = has_tid-frame s.mem m i xs only in
          let tid : (m (tq_pop_back s.tasks_dead s.mem).0).tid ≡ (s.mem t).tid =
            (only _).0 ∙ ap (λ b. (s.mem b).tid) at in
          ground (arith, w.table i, has_tid-snoc s.mem i xs t, same, tid);
      links = OnlyLinks-trans s.mem m s'.mem only w.links;
      asleep = w.asleep;
    }

-- The queue with a last task.
abbrev Reaps : ℕ → Sched → List ℕ → List Ptr → Type 0
Reaps fuel s freed xs =
    Reaped s xs freed (janitor_loop fuel s freed).0 (janitor_loop fuel s freed).1

reap_one :
    (fuel : ℕ) (s : Sched) (freed : List ℕ) (t : Ptr) (xs : List Ptr)
    → IsQueue s.mem s.tasks_dead (xs ++ (t ∷ []))
    → (t == null) ≡ false
    → Reaps fuel
        (reap s)
        (freed
          ++ (((reap s).mem (tq_pop_back s.tasks_dead s.mem).0).kstack_limit
              ∷ (tq_pop_back s.tasks_dead s.mem).0
              ∷ []))
        xs
    → Reaps (suc fuel) s freed (xs ++ (t ∷ []))
unfolding janitor_loop
reap_one fuel s freed t xs v ne w =
    let (at, queue, only) = tq_pop_back-snoc s.mem s.tasks_dead t xs v in
    let r = (tq_pop_back s.tasks_dead s.mem).0 in
    let m = (tq_pop_back s.tasks_dead s.mem).2 in
    let some_left : (r == null) ≡ false = rw at ne in
    let stack : (m r).kstack_limit ≡ (s.mem t).kstack_limit =
      (only r).3 ∙ ap (λ b. (s.mem b).kstack_limit) at in
    let out : (m r).kstack_limit ∷ r ∷ [] ≡ (s.mem t).kstack_limit ∷ t ∷ [] =
      ap (λ k. k ∷ r ∷ []) stack ∙ ap (λ p. (s.mem t).kstack_limit ∷ p ∷ []) at in
    rw (some_left, janitor_loop) (Reaped-snoc s t xs freed _ _ _ v out w)

-- The same of a queue by its first task.
reap_last :
    (fuel : ℕ) (s : Sched) (freed : List ℕ) (x : Ptr) (xs : List Ptr)
    → IsQueue s.mem s.tasks_dead (x ∷ xs)
    → ((s' : Sched) (freed' : List ℕ) (ys : List Ptr)
        → IsQueue s'.mem s'.tasks_dead ys
        → length ys ≡ length xs
        → Reaps fuel s' freed' ys)
    → Reaps (suc fuel) s freed (x ∷ xs)
reap_last fuel s freed x xs v ih =
    let t = last_or x xs in
    let whole : init x xs ++ (t ∷ []) ≡ x ∷ xs =
      init-last x xs [] ∙ ap (λ l. x ∷ l) (append-nil xs) in
    let v' : IsQueue s.mem s.tasks_dead (init x xs ++ (t ∷ [])) = rw whole v in
    let len : length (init x xs) ≡ length xs =
      omega (arith, ap length whole, length-append (init x xs) (t ∷ [])) in
    let popped = (tq_pop_back-snoc s.mem s.tasks_dead t (init x xs) v').1 in
    let ne = last_ne_null s.mem null null x xs v.links in
    subst (Reaps (suc fuel) s freed) whole
      (reap_one fuel s freed t (init x xs) v' ne (ih (reap s) _ (init x xs) popped len))

-- A round of the janitor empties the queue of dead tasks, gives the stack and the structure of each
-- to `kmfree` once, the task that died first at first, takes their tids out of the table and
-- leaves the other entries; the loop has fuel for one round more than there are dead tasks.
pub janitor_loop-Reaped :
    (fuel : ℕ) (s : Sched) (freed : List ℕ) (xs : List Ptr)
    → IsQueue s.mem s.tasks_dead xs
    → length xs < fuel
    → Reaps fuel s freed xs
unfolding janitor_loop tq_pop_back
janitor_loop-Reaped zero s freed xs v enough = absurd (omega arith)
janitor_loop-Reaped (suc fuel) s freed [] v enough =
    let none_left : (s.tasks_dead.back == null) ≡ true = ground (arith, v.back) in
    rw (none_left, janitor_loop, tq_pop_back)
      (record {
        dead = v;
        frees = sym (append-nil freed);
        table = λ i. refl;
        links = λ a. (refl, refl, refl, refl, refl);
        asleep = refl;
      })
janitor_loop-Reaped (suc fuel) s freed (x ∷ xs) v enough =
    reap_last fuel s freed x xs v
      (λ s' freed' ys w e. janitor_loop-Reaped fuel s' freed' ys w (omega arith))
