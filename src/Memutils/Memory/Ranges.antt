-- ===== src/Memutils/Memory/Ranges.antt =====
-- Ranges of memory: `memcpy` and `memcmp` of kernel/lib/memutils.c.
use aeolos.Base.{
  ℕ, zero, suc, ◌+◌, ◌<◌, ◌≤◌, ◌≡◌, refl, ap, ◌∙◌, true, false, ◌==◌, ◌⊎◌, inl, inr, Bool-cases,
  arith, ◌↔◌,
}
use aeolos.Memutils.Memory.{put, memcpy, memcmp}

-- The two ranges of a length do not overlap.
abbrev pub Apart : ℕ → ℕ → ℕ → Type 0
Apart len a b = (a + len ≤ b) ⊎ (b + len ≤ a)

abbrev pub Outside : ℕ → ℕ → ℕ → Type 0
Outside len target a = (a < target) ⊎ (target + len ≤ a)

pub memcpy-Outside :
    (len src target : ℕ) (m : ℕ → ℕ) (a : ℕ)
    → Outside len target a
    → memcpy len src target m a ≡ m a
unfolding memcpy
memcpy-Outside zero src target m a out = refl
memcpy-Outside (suc len) src target m a out =
    let off : (a == target) ≡ false = ground arith in
    memcpy-Outside len (src + 1) (target + 1) (put m target (m src)) a (ground arith) ∙ rw off

memcpy-inside :
    (len src target : ℕ) (m : ℕ → ℕ) (k : ℕ)
    → Apart len src target
    → k < len
    → memcpy len src target m (target + k) ≡ m (src + k)
unfolding memcpy
memcpy-inside zero src target m k apart lt = absurd (omega arith)
memcpy-inside (suc len) src target m zero apart lt =
    let same : (target == target) ≡ true = ground arith in
    ap (memcpy len (src + 1) (target + 1) (put m target (m src))) {x = target + 0} {y = target}
      (omega arith)
    ∙ memcpy-Outside len (src + 1) (target + 1) (put m target (m src)) target (inl (omega arith))
    ∙ rw same (ap m (omega arith))
memcpy-inside (suc len) src target m (suc k) apart lt =
    let off : (src + 1 + k == target) ≡ false = ground arith in
    ap (memcpy len (src + 1) (target + 1) (put m target (m src))) {x = target + suc k}
      {y = target + 1 + k} (omega arith)
    ∙ memcpy-inside len (src + 1) (target + 1) (put m target (m src)) k (ground arith) (omega arith)
    ∙ rw off (ap m (omega arith))

-- `memcpy` between ranges that do not overlap: each byte of the target is the byte of the source
-- that it was, and no other byte changes.
pub memcpy_lem :
    (len src target : ℕ) (m : ℕ → ℕ)
    → Apart len src target
    → ((k : ℕ) → k < len → memcpy len src target m (target + k) ≡ m (src + k))
      × ((a : ℕ) → Outside len target a → memcpy len src target m a ≡ m a)
memcpy_lem len src target m apart =
    (λ k lt. memcpy-inside len src target m k apart lt, memcpy-Outside len src target m)

-- `memcpy` to a lower address gives each byte of the target the byte of the source that it was,
-- where the ranges overlap too.
pub memcpy-down :
    (len src target : ℕ) (m : ℕ → ℕ) (k : ℕ)
    → target < src
    → k < len
    → memcpy len src target m (target + k) ≡ m (src + k)
unfolding memcpy
memcpy-down zero src target m k down lt = absurd (omega arith)
memcpy-down (suc len) src target m zero down lt =
    let same : (target == target) ≡ true = ground arith in
    ap (memcpy len (src + 1) (target + 1) (put m target (m src))) {x = target + 0} {y = target}
      (omega arith)
    ∙ memcpy-Outside len (src + 1) (target + 1) (put m target (m src)) target (inl (omega arith))
    ∙ rw same (ap m (omega arith))
memcpy-down (suc len) src target m (suc k) down lt =
    let off : (src + 1 + k == target) ≡ false = ground arith in
    ap (memcpy len (src + 1) (target + 1) (put m target (m src))) {x = target + suc k}
      {y = target + 1 + k} (omega arith)
    ∙ memcpy-down len (src + 1) (target + 1) (put m target (m src)) k (omega arith) (omega arith)
    ∙ rw off (ap m (omega arith))

-- Ranges that agree on their first byte and on the others agree.
agree-suc :
    (len a b : ℕ) (m : ℕ → ℕ)
    → m a ≡ m b
    → ((k : ℕ) → k < len → m (a + 1 + k) ≡ m (b + 1 + k))
    → (k : ℕ) → k < suc len
    → m (a + k) ≡ m (b + k)
agree-suc len a b m e rest zero lt = ap m (omega arith) ∙ e ∙ ap m (omega arith)
agree-suc len a b m e rest (suc k) lt =
    ap m (omega arith) ∙ rest k (omega arith) ∙ ap m (omega arith)

-- `memcmp` returns true exactly for ranges with the same bytes.
pub memcmp_lem :
    (len a b : ℕ) (m : ℕ → ℕ)
    → (memcmp len a b m ≡ true) ↔ ((k : ℕ) → k < len → m (a + k) ≡ m (b + k))
unfolding memcmp
memcmp_lem zero a b m = (λ e k lt. absurd (omega arith), λ h. refl)
memcmp_lem (suc len) a b m =
    let rest = memcmp_lem len (a + 1) (b + 1) m in
    elim (Bool-cases (m a == m b)) [
      | inl e ↦
          let same : m a ≡ m b = ground arith in
          rw e (
            λ f. agree-suc len a b m same (rest.0 f),
            λ h. rest.1 (λ k lt. ap m (omega arith) ∙ h (suc k) (omega arith) ∙ ap m (omega arith)),
          )
      | inr e ↦ rw e (
        λ f. absurd (ground arith),
        λ h.
            let same : m a ≡ m b = ap m (omega arith) ∙ h 0 (omega arith) ∙ ap m (omega arith) in
            absurd (ground arith),
      )
    ]
