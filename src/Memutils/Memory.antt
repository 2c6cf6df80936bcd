-- ===== src/Memutils/Memory.antt =====
-- The functions of kernel/lib/memutils.c on memory, a function from addresses to bytes. Loops that
-- look for a NUL take fuel, and give `none` when it is used up.
pub mod Ranges
pub mod Strings
mod Tests
use aeolos.Base.{
  ℕ, zero, suc, ◌+◌, ◌-◌, ◌<◌, ◌≤◌, ◌≡◌, refl, Bool, true, false, not, ◌==◌, ◌||◌, if◌then◌else◌,
  Option, none, some,
}

abbrev pub put : (ℕ → ℕ) → ℕ → ℕ → ℕ → ℕ
put m p x a = if a == p then x else m a

-- `memcpy` copies byte by byte from the first.
unfoldable pub memcpy : ℕ → ℕ → ℕ → (ℕ → ℕ) → ℕ → ℕ
memcpy zero src target m = m
memcpy (suc len) src target m = memcpy len (src + 1) (target + 1) (put m target (m src))

unfoldable pub memset : ℕ → ℕ → ℕ → (ℕ → ℕ) → ℕ → ℕ
memset zero addr val m = m
memset (suc len) addr val m = memset len (addr + 1) val (put m addr val)

unfoldable pub memcmp : ℕ → ℕ → ℕ → (ℕ → ℕ) → Bool
memcmp zero s1 s2 m = true
memcmp (suc len) s1 s2 m =
    let rest = memcmp len (s1 + 1) (s2 + 1) m in if not (m s1 == m s2) then false else rest

-- `strlen`, with the length so far
unfoldable pub strlen : ℕ → ℕ → ℕ → (ℕ → ℕ) → Option ℕ
strlen zero len str m = none
strlen (suc fuel) len str m =
    let rest = strlen fuel (len + 1) str m in if m (str + len) == 0 then some len else rest

-- `strcmp`: the two characters whose difference is the result.
unfoldable pub strcmp : ℕ → ℕ → ℕ → (ℕ → ℕ) → Option (ℕ × ℕ)
strcmp zero a b m = none
strcmp (suc fuel) a b m =
    let rest = strcmp fuel (a + 1) (b + 1) m in
    if not (m a == m b) || (m a == 0 || m b == 0) then some (m a, m b) else rest

-- `strcpy`: its result, and the memory.
unfoldable pub strcpy : ℕ → ℕ → ℕ → ℕ → (ℕ → ℕ) → Option (ℕ × (ℕ → ℕ))
strcpy zero i src dest m = none
strcpy (suc fuel) i src dest m =
    let m' = put m (dest + i) (m (src + i)) in
    let rest = strcpy fuel (i + 1) src dest m' in if m' (src + i) == 0 then some (i, m') else rest
