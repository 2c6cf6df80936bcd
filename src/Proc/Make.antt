-- ===== src/Proc/Make.antt =====
-- kernel/proc/task.c: making a task. The counter of tids is passed on; `kmalloc` gives the task's
-- and its stack's addresses, and what it leaves in the new task's other fields is an argument.
use aeolos.Base.{
  ℕ, ◌+◌, ◌-◌, ◌%◌, ◌^◌, ◌≤◌, ◌<◌, ◌≡◌, ltb, ◌==◌, arith, if◌then◌else◌, Option, none, some, false,
  true, ◌≢◌, Bool-cases, inl, inr, refl,
}
use aeolos.Proc.Tasks.{Ptr, null, Task, store}
use aeolos.Proc.Sched.{Sched, kstack_size, sched_add}
use aeolos.Proc.Sched.Add.{entry}
use aeolos.Proc.Sched.Choose.{ready_at}

-- TID_MAX and RFLAGS_DEFAULT, and the segments of the two modes
abbrev pub tid_max : ℕ
tid_max = 65536

abbrev pub rflags_default : ℕ
rflags_default = 0x0202

-- `tmode_t`
pub data Mode : Type 0 where
  kernel_mode user_mode : Mode

abbrev pub code_segment : Mode → ℕ
code_segment kernel_mode = 0x08
code_segment user_mode = 0x1b

abbrev pub stack_segment : Mode → ℕ
stack_segment kernel_mode = 0x10
stack_segment user_mode = 0x23

-- The fields of `task_state_t` that are written; the other registers keep what `kmalloc` returned.
pub record Frame : Type 0 where
  pub rdi : ℕ
  pub rip : ℕ
  pub cs : ℕ
  pub rflags : ℕ
  pub rsp : ℕ
  pub ss : ℕ

-- `sizeof(task_state_t)`: twenty registers of eight bytes
abbrev pub frame_size : ℕ
frame_size = 160

-- What `task_make` writes: the task, with the fields that the scheduler does not use, and the stack
-- frame that is at the task's `kstack_top`.
pub record Made : Type 0 where
  pub task : Task
  pub priority : ℕ
  pub cr3 : ℕ
  pub frame : Frame

-- `task_make`: the counter afterwards, and the new task or NULL.
pub task_make :
    (counter start priority : ℕ)
    → Mode
    → (rsp pagemap : ℕ) → (cr3 stack : ℕ) → Task
    → ℕ × Option Made
task_make counter start priority mode rsp pagemap cr3 stack old =
    let tid = counter in
    let limit = stack in
    let top = (limit + kstack_size) % 2 ^ 64 in
    let made : Made = record {
      task = record old {
        kstack_top = (top + 2 ^ 64 - frame_size) % 2 ^ 64;
        tid = tid;
        status = record { running = false; blocked = false; asleep = false; dead = false };
        wakeuptime = 0;
        kstack_limit = limit;
      };
      priority = priority;
      cr3 = if pagemap == 0 then cr3 else pagemap;
      frame = record {
        rdi = tid;
        rip = start;
        cs = code_segment mode;
        rflags = rflags_default;
        rsp = if rsp == 0 then top else rsp;
        ss = stack_segment mode;
      };
    } in
    ((counter + 1) % 2 ^ 64, if ltb tid_max tid then none else some made)

-- `task_add`: -1, as a `tid_t`, if no tid is left.
pub task_add :
    (counter start priority : ℕ)
    → Mode
    → (rsp pagemap : ℕ) → (cr3 stack : ℕ) → (fresh : ℕ → Ptr) → (t : Ptr) → Sched
    → ℕ × ℕ × Sched
task_add counter start priority mode rsp pagemap cr3 stack fresh t s =
    let (counter', made) = task_make counter start priority mode rsp pagemap cr3 stack (s.mem t) in
    elim made [
      | none ↦ (counter', 2 ^ 64 - 1, s)
      | some k ↦ (counter', k.task.tid, sched_add fresh t (record s { mem = store s.mem t k.task }))
    ]

-- A tid is given out while the counter is at most TID_MAX, and the task is then in the table at its
-- tid and ready to be chosen, with its first frame at the top end of its stack. Above TID_MAX the
-- call returns -1 and changes nothing but the counter. The stack does not lie at the end of memory.
pub task_add_lem :
    (counter start priority : ℕ) (mode : Mode) (rsp pagemap cr3 stack : ℕ) (fresh : ℕ → Ptr)
    (t : Ptr) (s : Sched)
    → t ≢ null
    → stack + kstack_size < 2 ^ 64
    → counter < 2 ^ 64 - 1
    → let (counter', result, s') =
        task_add counter start priority mode rsp pagemap cr3 stack fresh t s in
      (counter' ≡ counter + 1)
      × (if ltb tid_max counter
          then (result ≡ 2 ^ 64 - 1) × (s' ≡ s)
          else ((result ≡ counter)
              × (entry s' counter ≡ some t)
              × (ready_at s' counter ≡ true)
              × (stack ≤ (s'.mem t).kstack_top)
              × ((s'.mem t).kstack_top + frame_size ≡ stack + kstack_size)))
unfolding task_add task_make sched_add store
task_add_lem counter start priority mode rsp pagemap cr3 stack fresh t s ne fits more =
    elim (Bool-cases (ltb tid_max counter)) [
      | inl e ↦ rw (e, task_add, task_make) (omega arith, (refl, refl))
      | inr e ↦
          rw (e, task_add, task_make)
            (omega arith, (refl, ground arith, ground arith, ground arith, ground arith))
    ]
