-- ===== src/Atomic/Invariant.antt =====
-- Who holds the two locks of a lock for readers and writers, and what `num_readers` counts; true at
-- the start and kept by every step.
use aeolos.Base.{ℕ, ◌+◌, ◌<◌, ◌≡◌, refl, Bool, true, false, arith, min}
use aeolos.Atomic.Family.{update, one, count, count-update, count-zero}
use aeolos.Atomic.System.{
  Pc, idle, counting, counted, refused, leaving, granted, reading, ending, ended, closing, writing,
  Shared, Move, try_read, count_up, first, no_first, join, count_back, leave, grant, end_read,
  count_down, last, not_last, close, try_write, no_write, end_write, System, Step, pick, Reach,
  start, begin, later,
}

-- Whether a thread holds `nrlock`,
abbrev pub owns : Pc → Bool
owns idle = false
owns reading = false
owns writing = false
owns counting = true
owns counted = true
owns refused = true
owns leaving = true
owns granted = true
owns ending = true
owns ended = true
owns closing = true

-- is counted in `num_readers`,
abbrev pub counts : Pc → Bool
counts counted = true
counts refused = true
counts granted = true
counts reading = true
counts ending = true
counts idle = false
counts counting = false
counts leaving = false
counts ended = false
counts closing = false
counts writing = false

-- may read,
abbrev pub reads : Pc → Bool
reads granted = true
reads reading = true
reads ending = true
reads idle = false
reads counting = false
reads counted = false
reads refused = false
reads leaving = false
reads ended = false
reads closing = false
reads writing = false

-- is before the test for the last reader,
abbrev pub ends : Pc → Bool
ends ended = true
ends idle = false
ends counting = false
ends counted = false
ends refused = false
ends leaving = false
ends granted = false
ends reading = false
ends ending = false
ends closing = false
ends writing = false

-- is before the test for the first,
abbrev pub tests : Pc → Bool
tests counted = true
tests refused = true
tests idle = false
tests counting = false
tests leaving = false
tests granted = false
tests reading = false
tests ending = false
tests ended = false
tests closing = false
tests writing = false

-- is elsewhere with `nrlock`,
abbrev pub others : Pc → Bool
others counting = true
others leaving = true
others granted = true
others ending = true
others closing = true
others idle = false
others counted = false
others refused = false
others reading = false
others ended = false
others writing = false

-- or writes.
abbrev pub writes : Pc → Bool
writes writing = true
writes idle = false
writes counting = false
writes counted = false
writes refused = false
writes leaving = false
writes granted = false
writes reading = false
writes ending = false
writes ended = false
writes closing = false

pub record Inv (n : ℕ) (m : Shared) (pc : ℕ → Pc) : Type 0 where
  pub nrlock : one m.nrlock ≡ count owns n pc
  pub readers : m.num_readers ≡ count counts n pc
  pub parts : count counts n pc ≡ count reads n pc + count tests n pc
  pub owners : count owns n pc ≡ count ends n pc + count tests n pc + count others n pc
  pub wlock : one m.wlock ≡ count writes n pc + min 1 (count reads n pc + count ends n pc)

module _ {n : ℕ} {m : Shared} {pc : ℕ → Pc} (inv : Inv n m pc) (i : ℕ) (lt : i < n) where
  -- What the move of thread `i` from `p` to `p'` changes in the numbers of threads.
  record Changes (p p' : Pc) : Type 0 where
    all_owners : count owns n (update pc i p') + one (owns p) ≡ count owns n pc + one (owns p')
    counted_ones :
        count counts n (update pc i p') + one (counts p) ≡ count counts n pc + one (counts p')
    readers : count reads n (update pc i p') + one (reads p) ≡ count reads n pc + one (reads p')
    enders : count ends n (update pc i p') + one (ends p) ≡ count ends n pc + one (ends p')
    testers : count tests n (update pc i p') + one (tests p) ≡ count tests n pc + one (tests p')
    other_owners :
        count others n (update pc i p') + one (others p) ≡ count others n pc + one (others p')
    writers : count writes n (update pc i p') + one (writes p) ≡ count writes n pc + one (writes p')

  changes : (p' : Pc) → Changes (pc i) p'
  changes p' = record {
    all_owners = count-update owns n pc i p' lt;
    counted_ones = count-update counts n pc i p' lt;
    readers = count-update reads n pc i p' lt;
    enders = count-update ends n pc i p' lt;
    testers = count-update tests n pc i p' lt;
    other_owners = count-update others n pc i p' lt;
    writers = count-update writes n pc i p' lt;
  }

  -- A match on `Move` needs a variable for `pc i`.
  Move-parts : {p p' : Pc} {m' : Shared} → Move m p m' p' → Changes p p' → Inv n m' (update pc i p')
  Move-parts (try_read free) c = ground arith
  Move-parts count_up c = ground arith
  Move-parts (first only free) c = ground arith
  Move-parts (no_first only taken) c = ground arith
  Move-parts (join more) c = ground arith
  Move-parts count_back c = ground arith
  Move-parts leave c = ground arith
  Move-parts grant c = ground arith
  Move-parts (end_read free) c = ground arith
  Move-parts count_down c = ground arith
  Move-parts (last zero_left) c = ground arith
  Move-parts (not_last more) c = ground arith
  Move-parts close c = ground arith
  Move-parts (try_write free) c = ground arith
  Move-parts (no_write taken) c = ground arith
  Move-parts end_write c = ground arith

  pub Move-Inv : {p' : Pc} {m' : Shared} → Move m (pc i) m' p' → Inv n m' (update pc i p')
  Move-Inv {p'} mv = Move-parts mv (changes p')

pub Step-Inv : {n : ℕ} {s t : System} → Step n s t → Inv n s.mem s.pc → Inv n t.mem t.pc
Step-Inv (pick i lt mv) inv = Move-Inv inv i lt mv

Inv-start : (n : ℕ) → Inv n start.mem start.pc
Inv-start n =
    let owners = count-zero owns n start.pc (λ i. refl) in
    let counters = count-zero counts n start.pc (λ i. refl) in
    let readers = count-zero reads n start.pc (λ i. refl) in
    let testers = count-zero tests n start.pc (λ i. refl) in
    let other_owners = count-zero others n start.pc (λ i. refl) in
    let enders = count-zero ends n start.pc (λ i. refl) in
    let writers = count-zero writes n start.pc (λ i. refl) in omega arith

pub Reach-Inv : {n : ℕ} {s : System} → Reach n s → Inv n s.mem s.pc
Reach-Inv {n} begin = Inv-start n
Reach-Inv (later r st) = Step-Inv st (Reach-Inv r)
