-- ===== src/Proc/Sched/Choose.antt =====
-- Which task `_do_context_switch` of kernel/proc/sched/sched.c chooses.
use aeolos.Base.{
  ℕ, zero, suc, ◌+◌, ◌-◌, ◌<◌, ◌≤◌, ◌≡◌, refl, Bool, true, false, not, ◌==◌, ◌&&◌, arith, ◌⊎◌, inl,
  inr, Bool-cases, ℕ_discrete,
}
use aeolos.Proc.Tasks.{Ptr, null, is_ready}
use aeolos.Proc.Sched.{Sched, ready_from, choose}

-- The table of tasks has a ready task at index `i`.
abbrev pub ready_at : Sched → ℕ → Bool
ready_at s i = not (s.tasks_all i == null) && is_ready (s.mem (s.tasks_all i)).status

-- The first ready task at the indices from `lo` up to `hi`, and that there is none.
abbrev pub FirstReady : Sched → ℕ → ℕ → Ptr → Type 0
FirstReady s lo hi r =
    (k : ℕ) × (lo ≤ k)
    × (k < hi)
    × (r ≡ s.tasks_all k)
    × (ready_at s k ≡ true)
    × ((j : ℕ) → lo ≤ j → j < k → ready_at s j ≡ false)

abbrev pub NoneReady : Sched → ℕ → ℕ → Type 0
NoneReady s lo hi = (j : ℕ) → lo ≤ j → j < hi → ready_at s j ≡ false

from_next :
    (s : Sched) (lo j : ℕ)
    → ready_at s lo ≡ false
    → (lo + 1 ≤ j → ready_at s j ≡ false)
    → lo ≤ j
    → ready_at s j ≡ false
from_next s lo j here later le = elim (ℕ_discrete lo j) [
  | yes e ↦ rw e at here
  | no ne ↦ later (omega arith)
]

ready_from_lem :
    (s : Sched) (n lo hi : ℕ)
    → hi ≡ lo + n
    → FirstReady s lo hi (ready_from s n lo) ⊎ ((ready_from s n lo ≡ null) × NoneReady s lo hi)
unfolding ready_from
ready_from_lem s zero lo hi e = inr (refl, λ j l h. absurd (omega arith))
ready_from_lem s (suc n) lo hi e = elim (Bool-cases (ready_at s lo)) [
  | inl h ↦
      rw (h, ready_from)
        (inl (lo, omega arith, omega arith, refl, h, λ j l k. absurd (omega arith)))
  | inr h ↦
      rw (h, ready_from)
        (elim (ready_from_lem s n (lo + 1) hi (omega arith)) [
          | inl (k, l, u, r, ok, least) ↦
              inl (k, omega arith, u, r, ok, λ j lj uj. from_next s lo j h (λ l'. least j l' uj) lj)
          | inr (e', none) ↦ inr (e', λ j lj uj. from_next s lo j h (λ l'. none j l' uj) lj)
        ])
]

-- What the choice on a CPU may return, after a task with this tid.
abbrev pub Chosen : Sched → ℕ → ℕ → Ptr → Type 0
Chosen s cpu tid r =
    FirstReady s (tid + 1) s.len r
    ⊎ (NoneReady s (tid + 1) s.len × FirstReady s 0 (tid + 1) r)
    ⊎ (NoneReady s (tid + 1) s.len × NoneReady s 0 (tid + 1) × (r ≡ s.tasks_idle cpu))

found_ne_null : (s : Sched) (lo hi : ℕ) (r : Ptr) → FirstReady s lo hi r → (r == null) ≡ false
found_ne_null s lo hi r (k, l, u, e, ok, least) = rw e (ground arith)

-- The scheduler goes round the tasks: it chooses the first ready task at an index above the
-- current task's, then the first from index 0 up to the current task itself, and the CPU's idle
-- task only if no task of the table is ready. The current task's tid lies in the table.
pub choose-Chosen :
    (s : Sched) (cpu curr : ℕ)
    → (s.mem curr).tid < s.len
    → Chosen s cpu (s.mem curr).tid (choose s cpu curr)
unfolding choose
choose-Chosen s cpu curr lt =
    let tid = (s.mem curr).tid in
    let after = ready_from_lem s (s.len - (tid + 1)) (tid + 1) s.len (omega arith) in
    let before = ready_from_lem s (tid + 1) 0 (tid + 1) (omega arith) in
    elim after [
      | inl f ↦ rw (found_ne_null s (tid + 1) s.len _ f, choose) (inl f)
      | inr (e, none) ↦
          rw (e, choose)
            (elim before [
              | inl g ↦ rw (found_ne_null s 0 (tid + 1) _ g, choose) (inr (inl (none, g)))
              | inr (e', none') ↦ rw (e', choose) (inr (inr (none, none', refl)))
            ])
    ]
