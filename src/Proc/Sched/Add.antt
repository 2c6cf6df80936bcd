-- ===== src/Proc/Sched/Add.antt =====
-- `sched_add` of kernel/proc/sched/sched.c, with the vector of kernel/lib/vector.h.
use aeolos.Base.{ℕ, ◌*◌, ◌<◌, ◌≤◌, ◌≡◌, ltb, ◌==◌, arith, ◌⊎◌, if◌then◌else◌, Option, none, some}
use aeolos.Proc.Tasks.{Ptr}
use aeolos.Proc.Sched.{Sched, sched_add}

-- The entry of the table at a tid, if the vector reaches so far.
abbrev pub entry : Sched → ℕ → Option Ptr
entry s i = if ltb i s.len then some (s.tasks_all i) else none

-- `sched_add` puts the task at its tid, and the vector then ends there: entries below stay, also
-- where the array is moved, and entries above are lost. The array holds the vector's entries before
-- and afterwards. Nothing is said of the entries between the old end and the tid, which the code
-- leaves as it finds them in memory.
pub sched_add_lem :
    (fresh : ℕ → Ptr) (t : Ptr) (s : Sched) (i : ℕ)
    → s.len * 8 ≤ s.alloc_size
    → (i < s.len) ⊎ ((s.mem t).tid ≤ i)
    → let s' = sched_add fresh t s in
      let tid = (s.mem t).tid in
      (s'.len * 8 ≤ s'.alloc_size)
      × (entry s' i ≡ (if i == tid then some t else if ltb i tid then entry s i else none))
unfolding sched_add
sched_add_lem fresh t s i room where_i = (ground arith, ground arith)
