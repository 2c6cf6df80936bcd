-- ===== src/Proc/Tests.antt =====
-- The theorems on tasks, queues and the scheduler at small memories.
use aeolos.Base.{
  ℕ, ◌+◌, ◌≤◌, ◌≡◌, refl, true, false, arith, ◌==◌, ltb, if◌then◌else◌, [], ◌∷◌, ◌<◌, some, ◌-◌,
  ◌^◌,
}
use aeolos.Proc.Tasks.{Ptr, Task, Tasks, Status}
use aeolos.Proc.Tqueue.{Tqueue, tq_remove}
use aeolos.Proc.Tqueue.Ops.{IsQueue}
use aeolos.Proc.Tqueue.Remove.{Removed, tq_remove_lem}
use aeolos.Proc.Sched.{
  Sched, choose, do_context_switch, sched_kill, sched_block, sched_unblock, success,
}
use aeolos.Proc.Sched.Due.{Wakes, wake_loop-Woken}
use aeolos.Proc.Sched.Add.{entry}
use aeolos.Proc.Sched.Kill.{sched_kill-stays_asleep}
use aeolos.Proc.Sched.Janitor.{Reaped, janitor_loop, janitor_loop-Reaped}
use aeolos.Proc.Make.{task_add, task_add_lem, kernel_mode, tid_max, frame_size}
use aeolos.Proc.Sched.Choose.{ready_at, Chosen, choose-Chosen}
use aeolos.Proc.Sched.Exclusive.{IsExclusive, do_context_switch-IsExclusive}
use aeolos.Proc.Sched.Calls.{calls-IsExclusive}
use aeolos.Proc.Sched.Order.{insert, IsDescending}
use aeolos.Proc.Sched.Sleeping.{Added, add_sleeping_sorted-insert}

-- Tasks 1 and 2 are a queue, task 3 stands alone; task 4 is running and task 5 idles.
abbrev sleepy : Status
sleepy = record { running = false; blocked = false; asleep = true; dead = false }

abbrev ready : Status
ready = record { running = false; blocked = false; asleep = false; dead = false }

abbrev running : Status
running = record { running = true; blocked = false; asleep = false; dead = false }

abbrev task : ℕ → Status → ℕ → Ptr → Ptr → Task
task tid st wake prev next = record {
  kstack_top = 0;
  tid = tid;
  status = st;
  wakeuptime = wake;
  kstack_limit = 4096;
  next = next;
  prev = prev;
}

abbrev tasks : Tasks
tasks a =
    if a == 1
    then task 2 sleepy 30 0 2
    else if a == 2
    then task 3 sleepy 10 1 0
    else if a == 3
    then task 4 ready 20 0 0
    else if a == 4
    then task 1 running 0 0 0
    else task 0 ready 0 0 0

abbrev queue : Tqueue
queue = record { front = 1; back = 2 }

queue-IsQueue : IsQueue tasks queue (1 ∷ 2 ∷ [])
queue-IsQueue = record { front = refl; back = refl; links = ground arith }

tq_remove_lem_example : Removed tasks (2 ∷ []) (tq_remove 1 queue tasks)
tq_remove_lem_example = tq_remove_lem tasks queue 1 [] (2 ∷ []) (λ e. cc) queue-IsQueue

add_sleeping_sorted-insert_example :
    Added tasks 3 (insert tasks 3 (1 ∷ 2 ∷ [])) 3 queue
    × IsDescending tasks (insert tasks 3 (1 ∷ 2 ∷ []))
add_sleeping_sorted-insert_example =
    add_sleeping_sorted-insert tasks queue 3 (1 ∷ 2 ∷ []) 3 (omega arith) queue-IsQueue refl
      (omega arith) (omega arith)

-- One CPU, whose idle task 5 has tid 0, and the tasks 4, 1, 2 and 3.
abbrev table : ℕ → Ptr
table i = if i == 1 then 4 else if i == 2 then 1 else if i == 3 then 2 else if i == 4 then 3 else 0

abbrev one_cpu : Sched
one_cpu = record {
  mem = tasks;
  tasks_idle = λ c. 5;
  tasks_running = λ c. 4;
  len = 5;
  alloc_size = 80;
  tasks_all = table;
  tasks_asleep = queue;
  tasks_dead = record { front = 0; back = 0 };
}

table-tid : (i : ℕ) → i < 5 → (table i == 0) ≡ false → (tasks (table i)).tid ≡ i
table-tid i lt ne = ground arith

one_cpu-IsExclusive : IsExclusive 1 one_cpu
one_cpu-IsExclusive = record {
  runs = λ c lt. refl;
  apart = λ c d lc ld e. omega arith;
  idle_apart = λ c d lc ld e. omega arith;
  idle_some = λ c lt e. omega arith;
  idles = λ c d lc ld e. omega arith;
  hidden = λ i c li lc. ground arith;
  tids = λ c lt. omega arith;
  idle_tids = λ c lt. omega arith;
  tid_at = λ i lt ne. table-tid i lt (ground arith);
}

choose-Chosen_example : Chosen one_cpu 0 1 (choose one_cpu 0 4)
choose-Chosen_example = choose-Chosen one_cpu 0 4 (omega arith)

do_context_switch-IsExclusive_example :
    IsExclusive 1 (do_context_switch 3 0 0x5000 (λ k. 15) one_cpu).0
do_context_switch-IsExclusive_example =
    do_context_switch-IsExclusive 1 3 0 0x5000 (λ k. 15) one_cpu one_cpu-IsExclusive (omega arith)

calls-IsExclusive_example :
    IsExclusive 1 (sched_block 0 4 one_cpu).2
    × IsExclusive 1 (sched_unblock 4 one_cpu).1
    × IsExclusive 1 (sched_kill 0 4 one_cpu).2
calls-IsExclusive_example = calls-IsExclusive 1 0 4 one_cpu one_cpu-IsExclusive

wake_loop-Woken_example : Wakes 3 0 (λ k. 15) queue tasks (1 ∷ 2 ∷ [])
wake_loop-Woken_example =
    wake_loop-Woken 3 0 (λ k. 15) queue tasks (1 ∷ 2 ∷ []) (λ i. omega arith) queue-IsQueue
      (omega arith) (omega arith)

sched_kill-stays_asleep_example :
    ((sched_kill 0 3 one_cpu).0 ≡ success)
    × ((sched_kill 0 3 one_cpu).2.tasks_asleep.back ≡ 2)
    × ((sched_kill 0 3 one_cpu).2.tasks_dead.front ≡ 2)
sched_kill-stays_asleep_example =
    sched_kill-stays_asleep 0 3 one_cpu (1 ∷ []) refl queue-IsQueue (omega arith)

-- The same CPU with the queue of tasks 1 and 2 dead.
abbrev with_dead : Sched
with_dead = record one_cpu { tasks_dead = queue; tasks_asleep = record { front = 0; back = 0 } }

janitor_loop-Reaped_example :
    Reaped with_dead (1 ∷ 2 ∷ []) [] (janitor_loop 3 with_dead []).0 (janitor_loop 3 with_dead []).1
janitor_loop-Reaped_example =
    janitor_loop-Reaped 3 with_dead [] (1 ∷ 2 ∷ []) queue-IsQueue (omega arith)

task_add_lem_example :
    let (counter', result, s') =
      task_add 5 0x1000 35 kernel_mode 0 0 0x2000 0x3000 (λ i. 0) 6 one_cpu in
    (counter' ≡ 6)
    × (if ltb tid_max 5
        then (result ≡ 2 ^ 64 - 1) × (s' ≡ one_cpu)
        else ((result ≡ 5)
            × (entry s' 5 ≡ some 6)
            × (ready_at s' 5 ≡ true)
            × (0x3000 ≤ (s'.mem 6).kstack_top)
            × ((s'.mem 6).kstack_top + frame_size ≡ 0x4000)))
task_add_lem_example =
    task_add_lem 5 0x1000 35 kernel_mode 0 0 0x2000 0x3000 (λ i. 0) 6 one_cpu (omega arith)
      (omega arith) (omega arith)
