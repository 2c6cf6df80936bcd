-- ===== src/Fs/Vfs/Vector.antt =====
-- `vec_erase` and `vec_erase_val` of kernel/lib/vector.h on the memory of a vector of pointers, and
-- that they do on its entries what `erase_val` does on the list of them. `base` is the address of the
-- first. The copy also reads and writes past the vector's end, in whatever memory is there.
use aeolos.Base.{
  ℕ, zero, suc, ◌+◌, ◌-◌, ◌*◌, ◌^◌, ◌<◌, ◌≤◌, ◌≡◌, refl, ap, ap₂, ◌∙◌, ◌==◌, if◌then◌else◌, List,
  [], ◌∷◌, arith, Bool-cases, inl, inr,
}
use aeolos.Memutils.Memory.{memcpy}
use aeolos.Memutils.Memory.Ranges.{memcpy-down, memcpy-Outside}
use aeolos.Fs.Vfs.Nodes.{erase_val}

-- The pointer whose eight bytes are at an address
abbrev pointer_at : (ℕ → ℕ) → ℕ → ℕ
pointer_at m a =
    m a
    + 2 ^ 8 * m (a + 1)
    + 2 ^ 16 * m (a + 2)
    + 2 ^ 24 * m (a + 3)
    + 2 ^ 32 * m (a + 4)
    + 2 ^ 40 * m (a + 5)
    + 2 ^ 48 * m (a + 6)
    + 2 ^ 56 * m (a + 7)

-- `vec_erase`, with the number of bytes that it computes: `sizeof * len - index - 1`.
unfoldable vec_erase : ℕ → ℕ → ℕ → (ℕ → ℕ) → ℕ × (ℕ → ℕ)
vec_erase base len index m =
    (len - 1, memcpy (8 * len - index - 1) (base + 8 * (index + 1)) (base + 8 * index) m)

-- The loop of `vec_erase_val` from an index on, with `n` entries left
unfoldable vec_erase_val : ℕ → ℕ → ℕ → ℕ → ℕ → (ℕ → ℕ) → ℕ × (ℕ → ℕ)
vec_erase_val zero base len index val m = (len, m)
vec_erase_val (suc n) base len index val m =
    let rest = vec_erase_val n base len (index + 1) val m in
    if pointer_at m (base + 8 * index) == val then vec_erase base len index m else rest

-- The pointers of a vector, from an entry on
abbrev entries : (ℕ → ℕ) → ℕ → ℕ → ℕ → List ℕ
entries m base index zero = []
entries m base index (suc n) = pointer_at m (base + 8 * index) ∷ entries m base (index + 1) n

-- Memories that agree on eight bytes hold the same pointer there.
pointer_at-same :
    (m m' : ℕ → ℕ) (a b : ℕ)
    → ((k : ℕ) → k < 8 → m' (a + k) ≡ m (b + k))
    → pointer_at m' a ≡ pointer_at m b
pointer_at-same m m' a b h =
    let zeroth : m' a ≡ m b = ap m' (omega arith) ∙ h 0 (omega arith) ∙ ap m (omega arith) in
    rw
      (
        zeroth,
        h 1 (omega arith),
        h 2 (omega arith),
        h 3 (omega arith),
        h 4 (omega arith),
        h 5 (omega arith),
        h 6 (omega arith),
        h 7 (omega arith),
      )
      refl

module _ (base len index : ℕ) (m : ℕ → ℕ) (inside : index < len) where
  abbrev erased : ℕ → ℕ
  erased = (vec_erase base len index m).1

  -- An entry behind the index is the next one that was,
  entry_behind :
      (j : ℕ)
      → index ≤ j
      → j + 1 < len
      → pointer_at erased (base + 8 * j) ≡ pointer_at m (base + 8 * (j + 1))
  unfolding vec_erase
  entry_behind j le lt = pointer_at-same m erased (base + 8 * j) (base + 8 * (j + 1)) (λ k small.
      ap erased {x = base + 8 * j + k} {y = base + 8 * index + (8 * (j - index) + k)} (omega arith)
      ∙ memcpy-down (8 * len - index - 1) (base + 8 * (index + 1)) (base + 8 * index) m
          (8 * (j - index) + k) (omega arith) (omega arith)
      ∙ ap m (omega arith))

  -- one before it is as it was,
  entry_before :
      (j : ℕ) → j < index → pointer_at erased (base + 8 * j) ≡ pointer_at m (base + 8 * j)
  unfolding vec_erase
  entry_before j lt = pointer_at-same m erased (base + 8 * j) (base + 8 * j) (λ k small.
      memcpy-Outside (8 * len - index - 1) (base + 8 * (index + 1)) (base + 8 * index) m
        (base + 8 * j + k) (inl (omega arith)))

  -- and so the entries move up by one.
  entries-erased :
      (n j : ℕ) → index ≤ j → j + n < len → entries erased base j n ≡ entries m base (j + 1) n
  entries-erased zero j le lt = refl
  entries-erased (suc n) j le lt =
      ap₂ ◌∷◌ (entry_behind j le (omega arith))
        (entries-erased n (j + 1) (omega arith) (omega arith))

-- The loop leaves the entries before its index alone, takes out the first entry with the value from
-- there on, and counts the entries that are left.
erase_loop :
    (n base len index val : ℕ) (m : ℕ → ℕ)
    → index + n ≡ len
    → let (len', m') = vec_erase_val n base len index val m in
      (entries m' base index (len' - index) ≡ erase_val (entries m base index n) val)
      × ((j : ℕ) → j < index → pointer_at m' (base + 8 * j) ≡ pointer_at m (base + 8 * j))
      × (index ≤ len')
unfolding vec_erase_val erase_val vec_erase
erase_loop zero base len index val m e =
    let gone : len - index ≡ 0 = omega arith in (rw gone refl, λ j lt. refl, omega arith)
erase_loop (suc n) base len index val m e =
    elim (Bool-cases (pointer_at m (base + 8 * index) == val)) [
      | inl f ↦
          let left : len - 1 - index ≡ n = omega arith in
          rw f (
            rw left
                (entries-erased base len index m (omega arith) n index (omega arith) (omega arith)),
            entry_before base len index m (omega arith),
            omega arith,
          )
      | inr f ↦
          let (list, kept, le) = erase_loop n base len (index + 1) val m (omega arith) in
          let r = vec_erase_val n base len (index + 1) val m in
          let more : r.0 - index ≡ suc (r.0 - (index + 1)) = omega arith in
          rw f (
            rw more (ap₂ ◌∷◌ (kept index (omega arith)) list),
            λ j lt. kept j (omega arith),
            omega arith,
          )
    ]

-- `vec_erase_val` does on a vector in memory what `erase_val` does on the list of its entries, though
-- it copies more bytes than the vector has behind the entry.
vec_erase_val-erase_val :
    (base len val : ℕ) (m : ℕ → ℕ)
    → let (len', m') = vec_erase_val len base len 0 val m in
      entries m' base 0 len' ≡ erase_val (entries m base 0 len) val
vec_erase_val-erase_val base len val m =
    let r = vec_erase_val len base len 0 val m in
    let all : r.0 - 0 ≡ r.0 = omega arith in
    rw all at (erase_loop len base len 0 val m (omega arith)).0
