-- ===== src/Atomic/Safety.antt =====
-- What holds of a lock for readers and writers in every reachable state.
use aeolos.Base.{
  ℕ, ◌+◌, ◌≤◌, ◌<◌, ◌≡◌, ◌≢◌, refl, true, false, arith, min, dec_lt, inl, inr, ◌⊎◌, Bool-cases,
  ℕ_discrete,
}
use aeolos.Atomic.Family.{one, count, count-one, count-two, find}
use aeolos.Atomic.System.{
  Pc, idle, counting, counted, refused, leaving, granted, reading, ending, ended, closing, writing,
  Shared, Move, try_read, count_up, first, no_first, join, count_back, leave, grant, end_read,
  count_down, last, not_last, close, end_write, System, Reach,
}
use aeolos.Atomic.Invariant.{owns, reads, writes, Reach-Inv}

-- While a thread may write no thread may read, and no other may write, whatever the order of the
-- accesses of any number of threads.
pub mutual_exclusion :
    {n : ℕ} {s : System}
    → Reach n s
    → (i j : ℕ) → i < n
    → j < n
    → writes (s.pc i) ≡ true
    → (reads (s.pc j) ≡ false) × (writes (s.pc j) ≡ true → i ≡ j)
mutual_exclusion {n} {s} r i j lt lt' w =
    let inv = Reach-Inv r in
    let writer = count-one writes n s.pc i lt w in
    (
      elim (Bool-cases (reads (s.pc j))) [
        | inl e ↦ let reader = count-one reads n s.pc j lt' e in absurd (ground (arith, inv.wlock))
        | inr e ↦ e
      ],
      λ w'. elim (dec_lt i j) [
        | yes before ↦
            let two = count-two writes n s.pc i j before lt' w w' in
            absurd (ground (arith, inv.wlock))
        | no after ↦ elim (dec_lt j i) [
          | yes before ↦
              let two = count-two writes n s.pc j i before lt w' w in
              absurd (ground (arith, inv.wlock))
          | no same ↦ omega arith
        ]
      ],
    )

-- While `nrlock` is free `num_readers` is the number of the threads that may read, and the lock for
-- writing is held exactly if one of these or a writer has it.
pub readers_counted :
    {n : ℕ} {s : System}
    → Reach n s
    → s.mem.nrlock ≡ false
    → (s.mem.num_readers ≡ count reads n s.pc)
      × (one s.mem.wlock ≡ count writes n s.pc + min 1 (count reads n s.pc))
readers_counted {n} {s} r free = let inv = Reach-Inv r in (ground arith, ground arith)

-- A thread has a move to another place in the calls. (An `idle` one takes `nrlock` for reading.)
pub GoesOn : Shared → Pc → Type 0
GoesOn m p = (m' : Shared) × (p' : Pc) × Move m p m' p' × (p' ≢ p)

goes_on : (m : Shared) (p : Pc) → owns p ≡ false → m.nrlock ≡ false → GoesOn m p
unfolding GoesOn
goes_on m idle e free = (_, _, try_read free, λ z. cc)
goes_on m reading e free = (_, _, end_read free, λ z. cc)
goes_on m writing e free = (_, _, end_write, λ z. cc)
goes_on m counting e free = cc
goes_on m counted e free = cc
goes_on m refused e free = cc
goes_on m leaving e free = cc
goes_on m granted e free = cc
goes_on m ending e free = cc
goes_on m ended e free = cc
goes_on m closing e free = cc

-- Moves of one thread with none of another between them
pub data Alone : Shared → Pc → Shared → Pc → Type 0 where
  stop : {m : Shared} {p : Pc} → Alone m p m p
  then_on : {m m1 m' : Shared} {p p1 p' : Pc} → Move m p m1 p1 → Alone m1 p1 m' p' → Alone m p m' p'

-- The moves of one thread alone bring it to where `nrlock` is free.
pub Releases : Shared → Pc → Type 0
Releases m p = (m' : Shared) × (p' : Pc) × Alone m p m' p' × (m'.nrlock ≡ false)

Releases-step : (m m1 : Shared) (p p1 : Pc) → Move m p m1 p1 → Releases m1 p1 → Releases m p
unfolding Releases
Releases-step m m1 p p1 h (m', p', rest, free) = (m', p', then_on h rest, free)

leaving-Releases : (m : Shared) → Releases m leaving
unfolding Releases
leaving-Releases m = (_, _, then_on leave stop, refl)

granted-Releases : (m : Shared) → Releases m granted
unfolding Releases
granted-Releases m = (_, _, then_on grant stop, refl)

closing-Releases : (m : Shared) → Releases m closing
unfolding Releases
closing-Releases m = (_, _, then_on close stop, refl)

refused-Releases : (m : Shared) → Releases m refused
refused-Releases m = Releases-step m _ refused leaving count_back (leaving-Releases _)

counted-Releases : (m : Shared) → Releases m counted
counted-Releases m = elim (ℕ_discrete m.num_readers 1) [
  | yes only ↦ elim (Bool-cases m.wlock) [
    | inl taken ↦ Releases-step m _ counted refused (no_first only taken) (refused-Releases _)
    | inr free ↦ Releases-step m _ counted granted (first only free) (granted-Releases _)
  ]
  | no more ↦ Releases-step m _ counted granted (join more) (granted-Releases _)
]

ended-Releases : (m : Shared) → Releases m ended
ended-Releases m = elim (ℕ_discrete m.num_readers 0) [
  | yes gone ↦ Releases-step m _ ended closing (last gone) (closing-Releases _)
  | no more ↦ Releases-step m _ ended closing (not_last more) (closing-Releases _)
]

-- The owner of `nrlock` needs no other thread to release it.
owner-Releases : (m : Shared) (p : Pc) → owns p ≡ true → Releases m p
owner-Releases m counting e = Releases-step m _ counting counted count_up (counted-Releases _)
owner-Releases m counted e = counted-Releases m
owner-Releases m refused e = refused-Releases m
owner-Releases m leaving e = leaving-Releases m
owner-Releases m granted e = granted-Releases m
owner-Releases m ending e = Releases-step m _ ending ended count_down (ended-Releases _)
owner-Releases m ended e = ended-Releases m
owner-Releases m closing e = closing-Releases m
owner-Releases m idle e = cc
owner-Releases m reading e = cc
owner-Releases m writing e = cc

-- Only one of the threads owns `nrlock`.
one_owner :
    {n : ℕ} {s : System}
    → Reach n s
    → (i j : ℕ) → i < n
    → j < n
    → owns (s.pc i) ≡ true
    → owns (s.pc j) ≡ true
    → i ≡ j
one_owner {n} {s} r i j lt lt' e e' =
    let inv = Reach-Inv r in
    elim (dec_lt i j) [
      | yes before ↦
          let two = count-two owns n s.pc i j before lt' e e' in absurd (ground (arith, inv.nrlock))
      | no after ↦ elim (dec_lt j i) [
        | yes before ↦
            let two = count-two owns n s.pc j i before lt e' e in
            absurd (ground (arith, inv.nrlock))
        | no same ↦ omega arith
      ]
    ]

-- There is no deadlock. While `nrlock` is free, every thread can go on, one outside the calls by
-- taking `nrlock`. While it is held, and so the calls that want it spin, exactly one thread holds
-- it, and that thread's own moves, whatever the others do not do, bring it to its release.
pub no_deadlock :
    {n : ℕ} {s : System}
    → Reach n s
    → ((s.mem.nrlock ≡ false) × ((i : ℕ) → i < n → GoesOn s.mem (s.pc i)))
      ⊎ ((s.mem.nrlock ≡ true)
          × (j : ℕ) × (j < n)
          × (owns (s.pc j) ≡ true)
          × ((i : ℕ) → i < n → owns (s.pc i) ≡ true → i ≡ j)
          × Releases s.mem (s.pc j))
no_deadlock {n} {s} r =
    let inv = Reach-Inv r in
    elim (Bool-cases s.mem.nrlock) [
      | inl held ↦
          let owned : 1 ≤ count owns n s.pc = ground (arith, inv.nrlock) in
          let (j, lt, e) = find owns n s.pc owned in
          inr (
            held,
            j,
            lt,
            e,
            λ i lt' e'. one_owner r i j lt' lt e' e,
            owner-Releases s.mem (s.pc j) e,
          )
      | inr free ↦ inl (free, λ i lt. goes_on s.mem (s.pc i) (no_owner i lt free) free)
    ]
  where
    no_owner : (i : ℕ) → i < n → s.mem.nrlock ≡ false → owns (s.pc i) ≡ false
    no_owner i lt free =
        let inv = Reach-Inv r in
        elim (Bool-cases (owns (s.pc i))) [
          | inl e ↦
              let one_owns = count-one owns n s.pc i lt e in absurd (ground (arith, inv.nrlock))
          | inr e ↦ e
        ]
