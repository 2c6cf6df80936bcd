-- ===== src/Atomic/Tests.antt =====
-- The theorems on locks: two threads, of which one writes, or both read.
use aeolos.Base.{ℕ, ◌<◌, ◌≡◌, refl, true, false, arith, ◌⊎◌, some}
use aeolos.Atomic.{Rwlock, rwlock_try_read, rwlock_try_write, rwlock_end_write}
use aeolos.Atomic.System.{
  pick, Reach, begin, later, System, try_read, count_up, first, grant, try_write,
}
use aeolos.Atomic.Invariant.{owns, reads, writes}
use aeolos.Atomic.Safety.{mutual_exclusion, GoesOn, Releases, no_deadlock}
use aeolos.Atomic.Flags.{write_lem}

-- A state, with the steps that lead to it.
abbrev Run : Type 0
Run = (s : System) × Reach 2 s

abbrev one_writes : Run
one_writes = (_, later begin (pick 0 (omega arith) (try_write refl)))

abbrev one_counts : Run
one_counts = (_, later begin (pick 1 (omega arith) (try_read refl)))

abbrev one_reads : Run
one_reads = (
  _,
  later
      (later (later one_counts.1 (pick 1 (omega arith) count_up))
        (pick 1 (omega arith) (first refl refl)))
      (pick 1 (omega arith) grant),
)

mutual_exclusion_example :
    (reads (one_writes.0.pc 1) ≡ false) × (writes (one_writes.0.pc 1) ≡ true → ◌≡◌ {A = ℕ} 0 1)
mutual_exclusion_example = mutual_exclusion one_writes.1 0 1 (omega arith) (omega arith) refl

no_deadlock_example :
    ((one_counts.0.mem.nrlock ≡ false)
      × ((i : ℕ) → i < 2 → GoesOn one_counts.0.mem (one_counts.0.pc i)))
    ⊎ ((one_counts.0.mem.nrlock ≡ true)
        × (j : ℕ) × (j < 2)
        × (owns (one_counts.0.pc j) ≡ true)
        × ((i : ℕ) → i < 2 → owns (one_counts.0.pc i) ≡ true → i ≡ j)
        × Releases one_counts.0.mem (one_counts.0.pc j))
no_deadlock_example = no_deadlock one_counts.1

-- A lock that is all zeros
abbrev zeros : Rwlock
zeros = record {
  num_readers = 0;
  nrlock = record { held = false; rflags = false };
  wlock = record { held = false; rflags = false };
}

-- Interrupts are off after the lock for writing has been given back.
write_lem_example :
    (rwlock_try_write zeros).0 ≡ true
    × (((rwlock_try_write zeros).1 ≡ record zeros { wlock = record zeros.wlock { held = true } })
        × (rwlock_try_write (rwlock_try_write zeros).1 ≡ (false, (rwlock_try_write zeros).1))
        × (rwlock_try_read (rwlock_try_write zeros).1 true
            ≡ some (
              false,
              record (rwlock_try_write zeros).1 { nrlock = record { held = false; rflags = true } },
              true,
            )))
    × (rwlock_end_write (rwlock_try_write zeros).1 ≡ (zeros, false))
write_lem_example = write_lem zeros true refl refl refl
