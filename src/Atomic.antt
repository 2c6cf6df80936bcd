-- ===== src/Atomic.antt =====
-- kernel/lib/atomic.h and kernel/lib/atomic.c: spinlocks, and the lock for readers and writers that
-- is made of two of them. Here is each call as it runs alone on a CPU; the interleavings of the
-- calls are in Atomic/System.antt.
pub mod Flags
pub mod Family
pub mod System
pub mod Invariant
pub mod Safety
mod Tests
use aeolos.Base.{ℕ, ◌+◌, ◌-◌, Bool, true, false, not, ◌==◌, if◌then◌else◌, Option, none, some}

-- `lock_t`: of the flags register that it keeps, the interrupt flag.
pub record Lock : Type 0 where
  pub held : Bool
  pub rflags : Bool

-- `rwlock_t`
pub record Rwlock : Type 0 where
  pub num_readers : ℕ
  pub nrlock : Lock
  pub wlock : Lock

-- `lock_wait`: the lock, and the CPU's interrupt flag; `none` spins for as long as the lock is held.
unfoldable pub lock_wait : Lock → Bool → Option (Lock × Bool)
lock_wait l intr = if l.held then none else some (record { held = true; rflags = intr }, false)

unfoldable pub lock_release : Lock → Lock × Bool
lock_release l = (record l { held = false }, l.rflags)

unfoldable pub lock_try : Lock → Bool × Lock
lock_try l = if l.held then (false, l) else (true, record l { held = true })

unfoldable pub rwlock_try_read : Rwlock → Bool → Option (Bool × Rwlock × Bool)
unfolding lock_release lock_try
rwlock_try_read l intr = elim (lock_wait l.nrlock intr) [
  | none ↦ none
  | some (nrlock, intr) ↦
      let num = l.num_readers + 1 in
      let (ok, wlock) = lock_try l.wlock in
      let (released, intr) = lock_release nrlock in
      if num == 1
      then (if not ok
          then some (false, record l { nrlock = released }, intr)
          else some (true, record { num_readers = num; nrlock = released; wlock = wlock }, intr))
      else some (true, record l { num_readers = num; nrlock = released }, intr)
]

-- The number of readers is not 0 here.
unfoldable pub rwlock_end_read : Rwlock → Bool → Option (Rwlock × Bool)
unfolding lock_release
rwlock_end_read l intr = elim (lock_wait l.nrlock intr) [
  | none ↦ none
  | some (nrlock, intr) ↦
      let num = l.num_readers - 1 in
      let wlock = if num == 0 then (lock_release l.wlock).0 else l.wlock in
      let (released, intr) = lock_release nrlock in
      some (record { num_readers = num; nrlock = released; wlock = wlock }, intr)
]

unfoldable pub rwlock_try_write : Rwlock → Bool × Rwlock
unfolding lock_try
rwlock_try_write l = let (ok, wlock) = lock_try l.wlock in (ok, record l { wlock = wlock })

unfoldable pub rwlock_end_write : Rwlock → Rwlock × Bool
unfolding lock_release
rwlock_end_write l = let (wlock, intr) = lock_release l.wlock in (record l { wlock = wlock }, intr)
