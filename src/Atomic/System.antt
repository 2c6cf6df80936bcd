-- ===== src/Atomic/System.antt =====
-- The interleavings of the calls on one lock of kernel/lib/atomic.c. Each compare-and-swap and
-- release of a lock is a step; so is each statement on `num_readers`, `num_readers++` as a whole and
-- a test together with the compare-and-swap that follows it, since only the thread that holds
-- `nrlock` touches the field. The spinning of a `lock_wait` is no step. `num_readers` is a natural
-- number: it counts threads, of which the kernel has far fewer than an `int` can hold.
use aeolos.Base.{ℕ, ◌+◌, ◌-◌, ◌<◌, ◌≡◌, ◌≢◌, Bool, true, false}
use aeolos.Atomic.Family.{update}

-- Where a thread stands. A call that has failed, and one that has ended, is `idle`.
pub data Pc : Type 0 where
  idle : Pc  -- outside the calls, with no lock
  counting : Pc  -- `rwlock_try_read`, with `nrlock`, before `num_readers++`
  counted : Pc  -- before its test
  refused : Pc  -- before its `num_readers--`
  leaving : Pc  -- before the `lock_release` of a call that has failed
  granted : Pc  -- before that of one that has not
  reading : Pc  -- with the lock for reading
  ending : Pc  -- `rwlock_end_read`, with `nrlock`, before `num_readers--`
  ended : Pc  -- before its test
  closing : Pc  -- before its `lock_release` of `nrlock`
  writing : Pc  -- with the lock for writing

-- The fields `num_readers`, `nrlock.lock` and `wlock.lock`
pub record Shared : Type 0 where
  pub num_readers : ℕ
  pub nrlock : Bool
  pub wlock : Bool

-- One step of one thread.
pub data Move (m : Shared) : Pc → Shared → Pc → Type 0 where
  try_read : m.nrlock ≡ false → Move m idle (record m { nrlock = true }) counting
  count_up : Move m counting (record m { num_readers = m.num_readers + 1 }) counted
  first : m.num_readers ≡ 1 → m.wlock ≡ false → Move m counted (record m { wlock = true }) granted
  no_first : m.num_readers ≡ 1 → m.wlock ≡ true → Move m counted m refused
  join : m.num_readers ≢ 1 → Move m counted m granted
  count_back : Move m refused (record m { num_readers = m.num_readers - 1 }) leaving
  leave : Move m leaving (record m { nrlock = false }) idle
  grant : Move m granted (record m { nrlock = false }) reading
  end_read : m.nrlock ≡ false → Move m reading (record m { nrlock = true }) ending
  count_down : Move m ending (record m { num_readers = m.num_readers - 1 }) ended
  last : m.num_readers ≡ 0 → Move m ended (record m { wlock = false }) closing
  not_last : m.num_readers ≢ 0 → Move m ended m closing
  close : Move m closing (record m { nrlock = false }) idle
  try_write : m.wlock ≡ false → Move m idle (record m { wlock = true }) writing
  no_write : m.wlock ≡ true → Move m idle m idle
  end_write : Move m writing (record m { wlock = false }) idle

pub record System : Type 0 where
  pub mem : Shared
  pub pc : ℕ → Pc

-- A step of one of `n` threads.
pub data Step (n : ℕ) (s : System) : System → Type 0 where
  pick :
      (i : ℕ) {m : Shared} {p : Pc}
      → i < n
      → Move s.mem (s.pc i) m p
      → Step n s (record { mem = m; pc = update s.pc i p })

-- A lock that is all zeros, and no thread in a call
abbrev pub start : System
start = record { mem = record { num_readers = 0; nrlock = false; wlock = false }; pc = λ i. idle }

pub data Reach (n : ℕ) : System → Type 0 where
  begin : Reach n start
  later : {s t : System} → Reach n s → Step n s t → Reach n t
