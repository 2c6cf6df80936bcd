-- ===== src/Proc/Sched/Exclusive.antt =====
-- No task runs on two CPUs: the invariant of kernel/proc/sched/sched.c over the started CPUs.
use aeolos.Base.{
  ℕ, ◌<◌, ◌≡◌, ◌≢◌, refl, sym, true, false, ◌==◌, arith, ◌⊎◌, inl, inr, Bool-cases, ap, ◌∙◌,
}
use aeolos.Proc.Tasks.{Ptr, null, set_status, status_laws}
use aeolos.Proc.Sched.{Sched, update, saved, choose, switched, do_context_switch}
use aeolos.Proc.Sched.Choose.{ready_at, choose-Chosen}
use aeolos.Proc.Sched.Wake.{saved-running}

-- CPUs `0` to `n - 1` have been started. Each runs a task that is marked running, and no two run
-- the same task; each has an idle task of its own, which no other CPU runs and which the table of
-- tasks does not hold; the table holds each task at its tid.
pub record IsExclusive (n : ℕ) (s : Sched) : Type 0 where
  pub runs : (c : ℕ) → c < n → (s.mem (s.tasks_running c)).status.running ≡ true
  pub apart : (c d : ℕ) → c < n → d < n → s.tasks_running c ≡ s.tasks_running d → c ≡ d
  pub idle_apart : (c d : ℕ) → c < n → d < n → s.tasks_running c ≡ s.tasks_idle d → c ≡ d
  pub idle_some : (c : ℕ) → c < n → s.tasks_idle c ≢ null
  pub idles : (c d : ℕ) → c < n → d < n → s.tasks_idle c ≡ s.tasks_idle d → c ≡ d
  pub hidden : (i c : ℕ) → i < s.len → c < n → s.tasks_all i ≢ s.tasks_idle c
  pub tids : (c : ℕ) → c < n → (s.mem (s.tasks_running c)).tid < s.len
  pub idle_tids : (c : ℕ) → c < n → (s.mem (s.tasks_idle c)).tid < s.len
  pub tid_at : (i : ℕ) → i < s.len → s.tasks_all i ≢ null → (s.mem (s.tasks_all i)).tid ≡ i

eq_self : (a : ℕ) → (a == a) ≡ true
eq_self a = ground arith

-- The same while CPU `cpu` is between two tasks.
record IsBetween (n cpu : ℕ) (s : Sched) : Type 0 where
  runs : (c : ℕ) → c < n → c ≢ cpu → (s.mem (s.tasks_running c)).status.running ≡ true
  apart : (c d : ℕ) → c < n → d < n → s.tasks_running c ≡ s.tasks_running d → c ≡ d
  idle_apart : (c d : ℕ) → c < n → d < n → s.tasks_running c ≡ s.tasks_idle d → c ≡ d
  idle_some : (c : ℕ) → c < n → s.tasks_idle c ≢ null
  idles : (c d : ℕ) → c < n → d < n → s.tasks_idle c ≡ s.tasks_idle d → c ≡ d
  hidden : (i c : ℕ) → i < s.len → c < n → s.tasks_all i ≢ s.tasks_idle c
  tids : (c : ℕ) → c < n → (s.mem (s.tasks_running c)).tid < s.len
  idle_tids : (c : ℕ) → c < n → (s.mem (s.tasks_idle c)).tid < s.len
  tid_at : (i : ℕ) → i < s.len → s.tasks_all i ≢ null → (s.mem (s.tasks_all i)).tid ≡ i

-- What the choice may give: a ready task of the table, or the idle task of the CPU.
abbrev Candidate : Sched → ℕ → Ptr → Type 0
Candidate s cpu r =
    ((k : ℕ) × (k < s.len) × (r ≡ s.tasks_all k) × (ready_at s k ≡ true)) ⊎ (r ≡ s.tasks_idle cpu)

choose-Candidate :
    (s : Sched) (cpu curr : ℕ) → (s.mem curr).tid < s.len → Candidate s cpu (choose s cpu curr)
choose-Candidate s cpu curr lt = elim (choose-Chosen s cpu curr lt) [
  | inl (k, l, u, e, ok, least) ↦ inl (k, u, e, ok)
  | inr (inl (none, (k, l, u, e, ok, least))) ↦ inl (k, omega arith, e, ok)
  | inr (inr (none, none', e)) ↦ inr e
]

ready-running :
    (s : Sched) (k : ℕ) → ready_at s k ≡ true → (s.mem (s.tasks_all k)).status.running ≡ false
ready-running s k h = ground arith

ready-ne_null : (s : Sched) (k : ℕ) → ready_at s k ≡ true → s.tasks_all k ≢ null
ready-ne_null s k h = ground arith

module _ (n fuel cpu state : ℕ) (clock : ℕ → ℕ) (s : Sched) (v : IsExclusive n s)
    (started : cpu < n) where
  saved-tid : (a : Ptr) → ((saved fuel cpu state clock s).mem a).tid ≡ (s.mem a).tid
  saved-tid a = (saved-running fuel cpu state clock s a).0

  saved-runs :
      (d : ℕ)
      → d < n
      → d ≢ cpu
      → ((saved fuel cpu state clock s).mem (s.tasks_running d)).status.running ≡ true
  saved-runs d lt ne =
      let other : (s.tasks_running d == s.tasks_running cpu) ≡ false =
        elim (Bool-cases (s.tasks_running d == s.tasks_running cpu)) [
          | inl e ↦ absurd (ne (v.apart d cpu lt started (ground arith)))
          | inr e ↦ e
        ] in
      (saved-running fuel cpu state clock s (s.tasks_running d)).1 ∙ rw other (v.runs d lt)

  saved-IsBetween : IsBetween n cpu (saved fuel cpu state clock s)
  saved-IsBetween = record {
    runs = unfold saved in saved-runs;
    apart = unfold saved in v.apart;
    idle_apart = unfold saved in v.idle_apart;
    idle_some = unfold saved in v.idle_some;
    idles = unfold saved in v.idles;
    hidden = unfold saved in v.hidden;
    tids = λ c lt. rw saved-tid (unfold saved in v.tids c lt);
    idle_tids = λ c lt. rw saved-tid (unfold saved in v.idle_tids c lt);
    tid_at = λ i lt ne. saved-tid _ ∙ (unfold saved in v.tid_at i lt ne);
  }

module _ (n cpu : ℕ) (s : Sched) (v : IsBetween n cpu s) (started : cpu < n) where
  abbrev chosen : Ptr
  chosen = choose s cpu (s.tasks_running cpu)

  candidate : Candidate s cpu chosen
  candidate = choose-Candidate s cpu (s.tasks_running cpu) (v.tids cpu started)

  -- The chosen task runs on no other CPU,
  chosen-apart : (d : ℕ) → d < n → d ≢ cpu → chosen ≢ s.tasks_running d
  chosen-apart d lt ne same = elim candidate [
    | inl (k, u, e, ok) ↦
        let idle = ready-running s k ok in
        let busy = v.runs d lt ne in
        let at : s.tasks_running d ≡ s.tasks_all k = sym same ∙ e in
        absurd (cc (idle, busy, ap (λ a. (s.mem a).status.running) at))
    | inr e ↦ ne (v.idle_apart d cpu lt started (sym same ∙ e))
  ]

  -- it is no other CPU's idle task,
  chosen-idle : (d : ℕ) → d < n → chosen ≡ s.tasks_idle d → cpu ≡ d
  chosen-idle d lt same = elim candidate [
    | inl (k, u, e, ok) ↦ absurd (v.hidden k d u lt (sym e ∙ same))
    | inr e ↦ v.idles cpu d started lt (sym e ∙ same)
  ]

  -- and its tid lies in the table.
  chosen-tid : (s.mem chosen).tid < s.len
  chosen-tid = elim candidate [
    | inl (k, u, e, ok) ↦ rw (e, v.tid_at k u (ready-ne_null s k ok)) u
    | inr e ↦ rw e (v.idle_tids cpu started)
  ]

  new_runs :
      (c : ℕ)
      → c < n
      → (set_status s.mem chosen
          (record (s.mem chosen).status { running = true })
          (update s.tasks_running cpu chosen c)).status.running
        ≡ true
  new_runs c lt = elim (Bool-cases (c == cpu)) [
    | inl e ↦ rw e (simp (status_laws, eq_self))
    | inr e ↦
        let busy = v.runs c lt (ground arith) in
        rw e (
          simp status_laws (elim (Bool-cases (s.tasks_running c == chosen)) [
            | inl f ↦ rw f refl
            | inr f ↦ rw f busy
          ]))
  ]

  new_apart :
      (c d : ℕ)
      → c < n
      → d < n
      → update s.tasks_running cpu chosen c ≡ update s.tasks_running cpu chosen d
      → c ≡ d
  new_apart c d lc ld = elim (Bool-cases (c == cpu)) [
    | inl e ↦ rw e (elim (Bool-cases (d == cpu)) [
      | inl f ↦ rw f (λ h. ground arith)
      | inr f ↦ rw f (λ h. absurd (chosen-apart d ld (ground arith) h))
    ])
    | inr e ↦ rw e (elim (Bool-cases (d == cpu)) [
      | inl f ↦ rw f (λ h. absurd (chosen-apart c lc (ground arith) (sym h)))
      | inr f ↦ rw f (λ h. v.apart c d lc ld h)
    ])
  ]

  new_idle_apart :
      (c d : ℕ) → c < n → d < n → update s.tasks_running cpu chosen c ≡ s.tasks_idle d → c ≡ d
  new_idle_apart c d lc ld = elim (Bool-cases (c == cpu)) [
    | inl e ↦ rw e (λ h. let at = chosen-idle d ld h in ground arith)
    | inr e ↦ rw e (λ h. v.idle_apart c d lc ld h)
  ]

  new_tids : (c : ℕ) → c < n → (s.mem (update s.tasks_running cpu chosen c)).tid < s.len
  new_tids c lt = elim (Bool-cases (c == cpu)) [
    | inl e ↦ rw e chosen-tid
    | inr e ↦ rw e (v.tids c lt)
  ]

  switched-IsExclusive : IsExclusive n (switched cpu s).0
  unfolding switched
  switched-IsExclusive = record {
    runs = new_runs;
    apart = new_apart;
    idle_apart = new_idle_apart;
    idle_some = v.idle_some;
    idles = v.idles;
    hidden = v.hidden;
    tids = λ c lt. simp status_laws (new_tids c lt);
    idle_tids = λ c lt. simp status_laws (v.idle_tids c lt);
    tid_at = λ i lt ne. simp status_laws (v.tid_at i lt ne);
  }

-- A context switch on a started CPU keeps the invariant: a task that runs on one CPU is chosen by
-- no other.
pub do_context_switch-IsExclusive :
    (n fuel cpu state : ℕ) (clock : ℕ → ℕ) (s : Sched)
    → IsExclusive n s
    → cpu < n
    → IsExclusive n (do_context_switch fuel cpu state clock s).0
unfolding do_context_switch
do_context_switch-IsExclusive n fuel cpu state clock s v started =
    switched-IsExclusive n cpu (saved fuel cpu state clock s)
      (saved-IsBetween n fuel cpu state clock s v started) started
