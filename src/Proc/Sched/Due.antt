-- ===== src/Proc/Sched/Due.antt =====
-- The loop of `_do_context_switch` in kernel/proc/sched/sched.c that wakes tasks, on a queue that
-- `add_sleeping_sorted` has kept in order.
use aeolos.Base.{
  ℕ, zero, suc, ◌+◌, ◌<◌, ◌≤◌, ◌≡◌, refl, sym, ap, ◌∙◌, true, false, ltb, ltb→lt, ◌==◌, arith, inl,
  inr, if◌then◌else◌, Bool-cases, List, [], ◌∷◌, ◌++◌, length, append_assoc, append-nil,
  length-append,
}
use mathlib.Core.Path.{subst}
use native.Mathlib.Nat.{add-zero}
use aeolos.Proc.Tasks.{
  Ptr, null, Tasks, Status, set_status, status-set_status, wakeuptime-set_status, next-set_status,
  prev-set_status,
}
use aeolos.Proc.Tqueue.{Tqueue, tq_pop_back}
use aeolos.Proc.Tqueue.Links.{last_or, has, has-append, Links-frame}
use aeolos.Proc.Tqueue.Ops.{IsQueue, OnlyLinks, tq_pop_back-snoc, last_ne_null}
use aeolos.Proc.Sched.{wake_loop}
use aeolos.Proc.Sched.Order.{
  IsDescending, init, init-last, IsDescending-append, last-least, IsDescending-frame,
}

abbrev pub awake : Status → Status
awake st = record st { asleep = false }

-- Of the tasks `xs`, at time `now`: `zs` are due and have been woken, `ys` are not and still sleep.
pub record Woken (m : Tasks) (xs : List Ptr) (ys zs : List Ptr) (now : ℕ) (q' : Tqueue) (m' : Tasks)
    : Type 0 where
  pub parts : xs ≡ ys ++ zs
  pub queue : IsQueue m' q' ys
  pub due : (a : Ptr) → has a zs ≡ true → (m a).wakeuptime < now
  pub later : (a : Ptr) → has a ys ≡ true → now ≤ (m a).wakeuptime
  pub statuses : (a : Ptr) → (m' a).status ≡ (if has a zs then awake (m a).status else (m a).status)

-- A round: the last task is taken off the queue and woken.
abbrev woken : Tasks → Tqueue → Tasks
woken m q = let (t, q', m') = tq_pop_back q m in set_status m' t (awake (m' t).status)

-- The status written to the task that is popped, where only links have changed.
awake_at :
    (m1 m : Tasks) (r t a : Ptr)
    → r ≡ t
    → ((b : Ptr) → (m1 b).status ≡ (m b).status)
    → (if a == r then awake (m1 r).status else (m1 a).status)
      ≡ (if a == t then awake (m a).status else (m a).status)
awake_at m1 m r t a e h = elim (Bool-cases (a == t)) [
  | inl f ↦ let at : a ≡ t = ground arith in rw (e, f, at, h t)
  | inr f ↦ rw (e, f, h a)
]

module _ (m : Tasks) (q : Tqueue) (t : Ptr) (xs : List Ptr) (v : IsQueue m q (xs ++ (t ∷ []))) where
  abbrev popped : IsQueue (tq_pop_back q m).2 (tq_pop_back q m).1 xs
  popped = (tq_pop_back-snoc m q t xs v).1

  abbrev links : OnlyLinks m (tq_pop_back q m).2
  links = (tq_pop_back-snoc m q t xs v).2

  round-IsQueue : IsQueue (woken m q) (tq_pop_back q m).1 xs
  round-IsQueue = record {
    front = popped.front;
    back = popped.back;
    links =
        Links-frame (tq_pop_back q m).2 (woken m q) null null xs
          (λ a i. (prev-set_status _ _ a _, next-set_status _ _ a _)) popped.links;
  }

  round-wakeuptime : (a : Ptr) → (woken m q a).wakeuptime ≡ (m a).wakeuptime
  round-wakeuptime a = wakeuptime-set_status _ _ a _ ∙ (links a).2

  round-status :
      (a : Ptr) → (woken m q a).status ≡ (if a == t then awake (m a).status else (m a).status)
  round-status a =
      status-set_status _ _ a _
      ∙ awake_at (tq_pop_back q m).2 m (tq_pop_back q m).0 t a (tq_pop_back-snoc m q t xs v).0
          (λ b. (links b).1)

-- The rest of the loop after a round, seen from before it.
Woken-snoc :
    (m m1 m' : Tasks) (q' : Tqueue) (t : Ptr) (xs ys zs : List Ptr) (now : ℕ)
    → ((a : Ptr) → (m1 a).wakeuptime ≡ (m a).wakeuptime)
    → ((a : Ptr) → (m1 a).status ≡ (if a == t then awake (m a).status else (m a).status))
    → (m t).wakeuptime < now
    → Woken m1 xs ys zs now q' m'
    → Woken m (xs ++ (t ∷ [])) ys (zs ++ (t ∷ [])) now q' m'
Woken-snoc m m1 m' q' t xs ys zs now same st lt w = record {
  parts = ap (λ l. l ++ (t ∷ [])) w.parts ∙ append_assoc ys zs (t ∷ []);
  queue = w.queue;
  due = λ a h. elim (Bool-cases (a == t)) [
    | inl e ↦ let at : a ≡ t = ground arith in rw at lt
    | inr e ↦ rw (← same a) (w.due a (ground (arith, has-append a zs (t ∷ []))))
  ];
  later = λ a h. rw (← same a) (w.later a h);
  statuses = λ a. ground (arith, w.statuses a, st a, has-append a zs (t ∷ []));
}

-- The list after all rounds: what `wake_loop` returns, with the time of its last reading.
abbrev pub Wakes : ℕ → ℕ → (ℕ → ℕ) → Tqueue → Tasks → List Ptr → Type 0
Wakes fuel k clock q m xs =
    (ys : List Ptr) × (zs : List Ptr) × Woken m xs ys zs (clock (k + length zs))
      (wake_loop fuel k clock q m).0 (wake_loop fuel k clock q m).1

clock_mono :
    (clock : ℕ → ℕ) → ((i : ℕ) → clock i ≤ clock (suc i)) → (k n : ℕ) → clock k ≤ clock (k + n)
clock_mono clock up k zero = rw add-zero (omega arith)
clock_mono clock up k (suc n) =
    let e : k + suc n ≡ suc (k + n) = omega arith in
    let rest = clock_mono clock up k n in let step = up (k + n) in rw e (omega arith)

module _ (k : ℕ) (clock : ℕ → ℕ) (q : Tqueue) (m : Tasks) (x : Ptr) (xs : List Ptr)
    (up : (i : ℕ) → clock i ≤ clock (suc i)) (v : IsQueue m q (x ∷ xs)) where
  some_left : (q.back == null) ≡ false
  some_left = rw v.back (last_ne_null m null null x xs v.links)

  whole : init x xs ++ (last_or x xs ∷ []) ≡ x ∷ xs
  whole = init-last x xs [] ∙ ap (λ l. x ∷ l) (append-nil xs)

  -- A first round that wakes a task,
  wake_more :
      (fuel : ℕ)
      → ltb (m q.back).wakeuptime (clock k) ≡ true
      → Wakes fuel (k + 1) clock (tq_pop_back q m).1 (woken m q) (init x xs)
      → Wakes (suc fuel) k clock q m (x ∷ xs)
  unfolding wake_loop
  wake_more fuel e (ys, zs, w) =
      let t = last_or x xs in
      let rest = wake_loop fuel (k + 1) clock (tq_pop_back q m).1 (woken m q) in
      let v' : IsQueue m q (init x xs ++ (t ∷ [])) = rw whole v in
      let time : k + 1 + length zs ≡ k + length (zs ++ (t ∷ [])) =
        omega (arith, length-append zs (t ∷ [])) in
      let now : (m t).wakeuptime < clock k =
        subst (λ b. (m b).wakeuptime < clock k) v.back (ltb→lt _ _ e) in
      let mono = clock_mono clock up k (1 + length zs) in
      let assoc : k + (1 + length zs) ≡ k + 1 + length zs = omega arith in
      let early : (m t).wakeuptime < clock (k + 1 + length zs) = rw (← assoc) (omega arith) in
      let all =
        Woken-snoc m (woken m q) _ _ t (init x xs) ys zs (clock (k + 1 + length zs))
          (round-wakeuptime m q t (init x xs) v') (round-status m q t (init x xs) v') early w in
      (
        ys,
        zs ++ (t ∷ []),
        rw (some_left, e, wake_loop)
            (subst
              (λ l.
                Woken m l ys (zs ++ (t ∷ [])) (clock (k + length (zs ++ (t ∷ [])))) rest.0 rest.1)
              whole
              (subst (λ n. Woken m (init x xs ++ (t ∷ [])) ys (zs ++ (t ∷ [])) n rest.0 rest.1)
                (ap clock time) all)),
      )

  -- and one that ends the loop.
  wake_none :
      (fuel : ℕ)
      → IsDescending m (x ∷ xs)
      → ltb (m q.back).wakeuptime (clock k) ≡ false
      → Wakes (suc fuel) k clock q m (x ∷ xs)
  unfolding wake_loop
  wake_none fuel d e =
      let at : k + 0 ≡ k = omega arith in
      let now : clock k ≤ (m (last_or x xs)).wakeuptime =
        subst (λ b. clock k ≤ (m b).wakeuptime) v.back (ground arith) in
      (
        x ∷ xs,
        [],
        rw (some_left, e, wake_loop)
            (record {
              parts = sym (append-nil (x ∷ xs));
              queue = v;
              due = λ a h. cc;
              later = λ a h. let least = last-least m a x xs d h in rw at (omega arith);
              statuses = λ a. refl;
            }),
      )

-- The loop wakes exactly the tasks that are due and stops at its first reading of the clock that
-- leaves none: the queue is in order, the loop has fuel for one round more than it is long, and
-- the clock does not run backwards.
pub wake_loop-Woken :
    (fuel k : ℕ) (clock : ℕ → ℕ) (q : Tqueue) (m : Tasks) (xs : List Ptr)
    → ((i : ℕ) → clock i ≤ clock (suc i))
    → IsQueue m q xs
    → IsDescending m xs
    → length xs < fuel
    → Wakes fuel k clock q m xs
unfolding wake_loop
wake_loop-Woken zero k clock q m xs up v d enough = absurd (omega arith)
wake_loop-Woken (suc fuel) k clock q m [] up v d enough =
    let none_left : (q.back == null) ≡ true = ground (arith, v.back) in
    (
      [],
      [],
      rw (none_left, wake_loop)
          (record {
            parts = refl;
            queue = v;
            due = λ a h. cc;
            later = λ a h. cc;
            statuses = λ a. refl;
          }),
    )
wake_loop-Woken (suc fuel) k clock q m (x ∷ xs) up v d enough =
    let t = last_or x xs in
    let all = whole k clock q m x xs up v in
    let v' : IsQueue m q (init x xs ++ (t ∷ [])) = rw all v in
    let d' : IsDescending m (init x xs ++ (t ∷ [])) = rw all d in
    let shorter : length (init x xs) < fuel =
      omega (arith, ap length all, length-append (init x xs) (t ∷ [])) in
    let ordered =
      IsDescending-frame m (woken m q) (init x xs) (round-wakeuptime m q t (init x xs) v')
        (IsDescending-append m (init x xs) (t ∷ []) d') in
    let rest =
      wake_loop-Woken fuel (k + 1) clock (tq_pop_back q m).1 (woken m q) (init x xs) up
        (round-IsQueue m q t (init x xs) v') ordered shorter in
    elim (Bool-cases (ltb (m q.back).wakeuptime (clock k))) [
      | inl e ↦ wake_more k clock q m x xs up v fuel e rest
      | inr e ↦ wake_none k clock q m x xs up v fuel d e
    ]
