-- ===== src/Proc/Tasks.antt =====
-- kernel/proc/task.h: the tasks in memory. A task pointer is a number, NULL is 0, and the memory
-- gives the task at each other address.
use aeolos.Base.{ℕ, Bool, not, ◌&&◌, ◌==◌, ◌≡◌, if◌then◌else◌, arith}

abbrev pub Ptr : Type 0
Ptr = ℕ

abbrev pub null : Ptr
null = 0

-- `tstatus_t`: one bit for each flag
pub record Status : Type 0 where
  pub running : Bool
  pub blocked : Bool
  pub asleep : Bool
  pub dead : Bool

-- `status == TASK_READY`
abbrev pub is_ready : Status → Bool
is_ready s = not s.running && (not s.blocked && (not s.asleep && not s.dead))

-- The fields of `task_t` that the scheduler and its queues use.
pub record Task : Type 0 where
  pub kstack_top : ℕ
  pub tid : ℕ
  pub status : Status
  pub wakeuptime : ℕ
  pub kstack_limit : ℕ
  pub next : Ptr
  pub prev : Ptr

abbrev pub Tasks : Type 0
Tasks = Ptr → Task

-- `*p = t`, and the writes of single fields
unfoldable pub store : Tasks → Ptr → Task → Tasks
store m p t a = if a == p then t else m a

unfoldable pub set_next : Tasks → Ptr → Ptr → Tasks
unfolding store
set_next m p q = store m p (record (m p) { next = q })

unfoldable pub set_prev : Tasks → Ptr → Ptr → Tasks
unfolding store
set_prev m p q = store m p (record (m p) { prev = q })

unfoldable pub set_status : Tasks → Ptr → Status → Tasks
unfolding store
set_status m p s = store m p (record (m p) { status = s })

unfoldable pub set_wakeuptime : Tasks → Ptr → ℕ → Tasks
unfolding store
set_wakeuptime m p t = store m p (record (m p) { wakeuptime = t })

unfoldable pub set_kstack_top : Tasks → Ptr → ℕ → Tasks
unfolding store
set_kstack_top m p k = store m p (record (m p) { kstack_top = k })

-- What a read sees after a write of one link.
module _ (m : Tasks) (p q a : Ptr) where
  pub next-set_next : (set_next m p q a).next ≡ (if a == p then q else (m a).next)
  unfolding set_next
  next-set_next = ground arith

  pub prev-set_next : (set_next m p q a).prev ≡ (m a).prev
  unfolding set_next
  prev-set_next = ground arith

  pub next-set_prev : (set_prev m p q a).next ≡ (m a).next
  unfolding set_prev
  next-set_prev = ground arith

  pub prev-set_prev : (set_prev m p q a).prev ≡ (if a == p then q else (m a).prev)
  unfolding set_prev
  prev-set_prev = ground arith

  pub tid-set_next : (set_next m p q a).tid ≡ (m a).tid
  unfolding set_next
  tid-set_next = ground arith

  pub tid-set_prev : (set_prev m p q a).tid ≡ (m a).tid
  unfolding set_prev
  tid-set_prev = ground arith

  pub status-set_next : (set_next m p q a).status ≡ (m a).status
  unfolding set_next
  status-set_next = ground arith

  pub status-set_prev : (set_prev m p q a).status ≡ (m a).status
  unfolding set_prev
  status-set_prev = ground arith

  pub wakeuptime-set_next : (set_next m p q a).wakeuptime ≡ (m a).wakeuptime
  unfolding set_next
  wakeuptime-set_next = ground arith

  pub wakeuptime-set_prev : (set_prev m p q a).wakeuptime ≡ (m a).wakeuptime
  unfolding set_prev
  wakeuptime-set_prev = ground arith

module _ (m : Tasks) (p q a : Ptr) where
  pub kstack_limit-set_next : (set_next m p q a).kstack_limit ≡ (m a).kstack_limit
  unfolding set_next
  kstack_limit-set_next = ground arith

  pub kstack_limit-set_prev : (set_prev m p q a).kstack_limit ≡ (m a).kstack_limit
  unfolding set_prev
  kstack_limit-set_prev = ground arith

  pub kstack_top-set_next : (set_next m p q a).kstack_top ≡ (m a).kstack_top
  unfolding set_next
  kstack_top-set_next = ground arith

  pub kstack_top-set_prev : (set_prev m p q a).kstack_top ≡ (m a).kstack_top
  unfolding set_prev
  kstack_top-set_prev = ground arith

pub ruleset link_laws = (next-set_next, prev-set_next, next-set_prev, prev-set_prev)

pub ruleset other_laws = (
  tid-set_next, tid-set_prev, status-set_next, status-set_prev, wakeuptime-set_next,
  wakeuptime-set_prev, kstack_limit-set_next, kstack_limit-set_prev, kstack_top-set_next,
  kstack_top-set_prev,
)

-- What a read sees after a write of another field.
module _ (m : Tasks) (p a : Ptr) where
  pub status-set_status :
      (st : Status) → (set_status m p st a).status ≡ (if a == p then st else (m a).status)
  unfolding set_status
  status-set_status st = ground arith

  pub tid-set_status : (st : Status) → (set_status m p st a).tid ≡ (m a).tid
  unfolding set_status
  tid-set_status st = ground arith

  pub wakeuptime-set_status : (st : Status) → (set_status m p st a).wakeuptime ≡ (m a).wakeuptime
  unfolding set_status
  wakeuptime-set_status st = ground arith

  pub next-set_status : (st : Status) → (set_status m p st a).next ≡ (m a).next
  unfolding set_status
  next-set_status st = ground arith

  pub prev-set_status : (st : Status) → (set_status m p st a).prev ≡ (m a).prev
  unfolding set_status
  prev-set_status st = ground arith

  pub status-set_kstack_top : (k : ℕ) → (set_kstack_top m p k a).status ≡ (m a).status
  unfolding set_kstack_top
  status-set_kstack_top k = ground arith

  pub tid-set_kstack_top : (k : ℕ) → (set_kstack_top m p k a).tid ≡ (m a).tid
  unfolding set_kstack_top
  tid-set_kstack_top k = ground arith

  pub status-set_wakeuptime : (t : ℕ) → (set_wakeuptime m p t a).status ≡ (m a).status
  unfolding set_wakeuptime
  status-set_wakeuptime t = ground arith

  pub tid-set_wakeuptime : (t : ℕ) → (set_wakeuptime m p t a).tid ≡ (m a).tid
  unfolding set_wakeuptime
  tid-set_wakeuptime t = ground arith

  pub wakeuptime-set_wakeuptime :
      (t : ℕ) → (set_wakeuptime m p t a).wakeuptime ≡ (if a == p then t else (m a).wakeuptime)
  unfolding set_wakeuptime
  wakeuptime-set_wakeuptime t = ground arith

pub ruleset status_laws = (
  status-set_status, tid-set_status, status-set_kstack_top, tid-set_kstack_top,
  status-set_wakeuptime, tid-set_wakeuptime,
)
