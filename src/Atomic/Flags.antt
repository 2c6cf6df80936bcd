-- ===== src/Atomic/Flags.antt =====
-- What a call on a lock of kernel/lib/atomic.c leaves when it runs alone on a CPU: the interrupt
-- flag, and the lock.
use aeolos.Base.{
  ℕ, zero, suc, ◌+◌, ◌-◌, ◌≡◌, refl, ap, ◌∙◌, Bool, true, false, not, ◌==◌, if◌then◌else◌, some,
  arith,
}
use aeolos.Atomic.{
  Rwlock, lock_wait, lock_release, lock_try, rwlock_try_read, rwlock_end_read, rwlock_try_write,
  rwlock_end_write,
}

-- The answer and the state after `rwlock_try_read`
abbrev pub can_read : Rwlock → Bool
can_read l = if l.num_readers == 0 then not l.wlock.held else true

abbrev pub after_read : Rwlock → Bool → Rwlock
after_read l intr =
    if can_read l
    then record {
      num_readers = l.num_readers + 1;
      nrlock = record { held = false; rflags = intr };
      wlock = record l.wlock { held = true };
    }
    else record l { nrlock = record { held = false; rflags = intr } }

-- The statement below at its fields
abbrev lock_of : ℕ → Bool → Bool → Bool → Bool → Rwlock
lock_of num nheld nflags wheld wflags = record {
  num_readers = num;
  nrlock = record { held = nheld; rflags = nflags };
  wlock = record { held = wheld; rflags = wflags };
}

try_read_at :
    (num : ℕ) (nheld nflags wheld wflags intr : Bool)
    → nheld ≡ false
    → ((num == 0) ≡ false → wheld ≡ true)
    → let l = lock_of num nheld nflags wheld wflags in
      rwlock_try_read l intr ≡ some (can_read l, after_read l intr, intr)
unfolding rwlock_try_read lock_wait lock_release lock_try
try_read_at num true nflags wheld wflags intr free valid = cc
try_read_at zero false nflags true wflags intr free valid = refl
try_read_at zero false nflags false wflags intr free valid = refl
try_read_at (suc num) false nflags true wflags intr free valid =
    let more : (suc num + 1 == 1) ≡ false = ground arith in
    let some_before : (suc num == 0) ≡ false = ground arith in rw (more, some_before) refl
try_read_at (suc num) false nflags false wflags intr free valid =
    let no_more = valid (ground arith) in cc

end_read_at :
    (num : ℕ) (nheld nflags wheld wflags intr : Bool)
    → ((num == 0) ≡ false → wheld ≡ true)
    → let l = lock_of num nheld nflags wheld wflags in
      can_read l ≡ true
      → rwlock_end_read (after_read l intr) intr
        ≡ some (lock_of num false intr (not (num == 0)) wflags, intr)
unfolding rwlock_end_read lock_wait lock_release
end_read_at zero nheld nflags true wflags intr valid ok = cc
end_read_at zero nheld nflags false wflags intr valid ok = refl
end_read_at (suc num) nheld nflags wheld wflags intr valid ok =
    let back : suc num + 1 - 1 ≡ suc num = omega arith in
    let some_before : (suc num == 0) ≡ false = ground arith in
    let after : after_read (lock_of (suc num) nheld nflags wheld wflags) intr
        ≡ lock_of (suc num + 1) false intr true wflags =
      rw some_before refl in
    ap (λ l. rwlock_end_read l intr) after ∙ rw (back, some_before) refl

-- A call for reading that runs alone succeeds unless there is no reader yet and the lock for writing
-- is held. Then `rwlock_end_read` brings the number of readers back and frees the lock for writing
-- for the last reader. Each call leaves the CPU's interrupt flag as it was. The inner lock is free,
-- and the lock for writing is held where there are readers.
pub read_lem :
    (l : Rwlock) (intr : Bool)
    → l.nrlock.held ≡ false
    → ((l.num_readers == 0) ≡ false → l.wlock.held ≡ true)
    → (rwlock_try_read l intr ≡ some (can_read l, after_read l intr, intr))
      × (can_read l ≡ true
          → rwlock_end_read (after_read l intr) intr
            ≡ some (
              record {
                num_readers = l.num_readers;
                nrlock = record { held = false; rflags = intr };
                wlock = record l.wlock { held = not (l.num_readers == 0) };
              },
              intr,
            ))
read_lem l intr free valid = (
  try_read_at l.num_readers l.nrlock.held l.nrlock.rflags l.wlock.held l.wlock.rflags intr free
      valid,
  end_read_at l.num_readers l.nrlock.held l.nrlock.rflags l.wlock.held l.wlock.rflags intr valid,
)

-- Taking a free lock without readers for writing succeeds and changes nothing but that the lock for
-- writing is held; until it is released a second call for writing fails and changes nothing, and
-- one for reading fails and leaves the number of readers and the lock for writing as they are.
-- After the release the lock is as before, but the CPU's interrupt flag is then what the lock's
-- field held, whatever the flag was, since `rwlock_try_write` does not save it.
pub write_lem :
    (l : Rwlock) (intr : Bool)
    → l.wlock.held ≡ false
    → l.nrlock.held ≡ false
    → l.num_readers ≡ 0
    → let (ok, l') = rwlock_try_write l in
      (ok ≡ true)
      × ((l' ≡ record l { wlock = record l.wlock { held = true } })
          × (rwlock_try_write l' ≡ (false, l'))
          × (rwlock_try_read l' intr
              ≡ some (false, record l' { nrlock = record { held = false; rflags = intr } }, intr)))
      × (rwlock_end_write l' ≡ (l, l.wlock.rflags))
unfolding rwlock_try_write rwlock_end_write lock_release lock_try
write_lem l intr free outer none_reads =
    let no_readers : (l.num_readers == 0) ≡ true = ground arith in
    let taken : Rwlock = record l { wlock = record l.wlock { held = true } } in
    let refused : rwlock_try_read taken intr
        ≡ some (false, record taken { nrlock = record { held = false; rflags = intr } }, intr) =
      rw no_readers at (read_lem taken intr outer (λ h. refl)).0 in
    rw free (refl, (refl, refl, refused), refl)
