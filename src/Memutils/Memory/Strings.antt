-- ===== src/Memutils/Memory/Strings.antt =====
-- Strings in memory: `strlen` and `strcpy` of kernel/lib/memutils.c.
use aeolos.Base.{
  ℕ, zero, suc, ◌+◌, ◌<◌, ◌≤◌, ◌≡◌, ◌≢◌, refl, sym, ap, ◌∙◌, true, false, ◌==◌, Option, some, ◌⊎◌,
  inl, arith, dec_lt,
}
use aeolos.Memutils.Memory.{put, strlen, strcpy}
use aeolos.Memutils.Memory.Ranges.{Apart}

-- A string of the length stands at the address.
abbrev pub HasLength : (ℕ → ℕ) → ℕ → ℕ → Type 0
HasLength m str n = ((k : ℕ) → k < n → m (str + k) ≢ 0) × (m (str + n) ≡ 0)

strlen-from :
    (fuel len str n : ℕ) (m : ℕ → ℕ)
    → HasLength m str n
    → len ≤ n
    → n < len + fuel
    → strlen fuel len str m ≡ some n
unfolding strlen
strlen-from zero len str n m h le enough = absurd (omega arith)
strlen-from (suc fuel) len str n m h le enough = elim (dec_lt len n) [
  | yes lt ↦
      let more : (m (str + len) == 0) ≡ false = let ne = h.0 len lt in ground arith in
      rw more (strlen-from fuel (len + 1) str n m h (omega arith) (omega arith))
  | no ge ↦
      let at : n ≡ len = omega arith in
      let stop : (m (str + len) == 0) ≡ true =
        let nul : m (str + len) ≡ 0 = ap (λ k. m (str + k)) (sym at) ∙ h.1 in ground arith in
      rw (stop, at) refl
]

-- `strlen` of a string returns its length, with one round more of fuel than that.
pub strlen_lem :
    (fuel str n : ℕ) (m : ℕ → ℕ) → HasLength m str n → n < fuel → strlen fuel 0 str m ≡ some n
strlen_lem fuel str n m h enough = strlen-from fuel 0 str n m h (omega arith) (omega arith)

-- What `strcpy` does from index `i` on.
abbrev Copied : ℕ → ℕ → ℕ → ℕ → (ℕ → ℕ) → Option (ℕ × (ℕ → ℕ)) → Type 0
Copied i src dest n m r =
    (m' : ℕ → ℕ) × (r ≡ some (n, m'))
    × ((k : ℕ) → i ≤ k → k ≤ n → m' (dest + k) ≡ m (src + k))
    × ((a : ℕ) → (a < dest + i) ⊎ (dest + n < a) → m' a ≡ m a)

-- One byte is copied: what the write of it leaves, and what it writes.
module _ (src dest n i x : ℕ) (m : ℕ → ℕ) where
  source-put :
      (k : ℕ) → Apart (suc n) src dest → i ≤ n → k ≤ n → put m (dest + i) x (src + k) ≡ m (src + k)
  source-put k apart le hi = let off : (src + k == dest + i) ≡ false = ground arith in rw off

  other-put : (a : ℕ) → (a < dest + i) ⊎ (dest + i < a) → put m (dest + i) x a ≡ m a
  other-put a out = let off : (a == dest + i) ≡ false = ground arith in rw off

  self-put : (k : ℕ) → k ≡ i → put m (dest + i) x (dest + k) ≡ x
  self-put k e = let at : (dest + k == dest + i) ≡ true = ground arith in rw at

strcpy-from :
    (fuel i src dest n : ℕ) (m : ℕ → ℕ)
    → ((k : ℕ) → i ≤ k → k < n → m (src + k) ≢ 0)
    → m (src + n) ≡ 0
    → Apart (suc n) src dest
    → i ≤ n
    → n < i + fuel
    → Copied i src dest n m (strcpy fuel i src dest m)
unfolding strcpy
strcpy-from zero i src dest n m text nul apart le enough = absurd (omega arith)
strcpy-from (suc fuel) i src dest n m text nul apart le enough =
    let m1 = put m (dest + i) (m (src + i)) in
    let kept = λ (k : ℕ). source-put src dest n i (m (src + i)) m k apart le in
    let self = self-put src dest n i (m (src + i)) m in
    let here = kept i le in
    elim (dec_lt i n) [
      | yes lt ↦
          let more : (m1 (src + i) == 0) ≡ false =
            let ne = text i (omega arith) lt in ground arith in
          let (m', e, copied, other) =
            strcpy-from fuel (i + 1) src dest n m1
              (λ k lo hi z. text k (omega arith) hi (sym (kept k (omega arith)) ∙ z))
              (kept n (omega arith) ∙ nul) apart (omega arith) (omega arith) in
          (
            m',
            rw more e,
            λ k lo hi. elim (dec_lt i k) [
              | yes past ↦ copied k (omega arith) hi ∙ kept k hi
              | no first ↦
                  other (dest + k) (inl (omega arith)) ∙ self k (omega arith) ∙ ap m (omega arith)
            ],
            λ a out.
                other a (ground arith) ∙ other-put src dest n i (m (src + i)) m a (ground arith),
          )
      | no ge ↦
          let at : i ≡ n = omega arith in
          let end : m (src + i) ≡ 0 = ap (λ k. m (src + k)) at ∙ nul in
          let stop : (m1 (src + i) == 0) ≡ true = ground arith in
          (
            m1,
            rw stop (ap (λ k. some (k, m1)) at),
            λ k lo hi. self k (omega arith) ∙ ap m (omega arith),
            λ a out. other-put src dest n i (m (src + i)) m a (ground arith),
          )
    ]

-- `strcpy` of a string to a place that it does not overlap returns its length and copies it with its
-- NUL; no other byte changes. The fuel is one round more than the length.
pub strcpy_lem :
    (fuel src dest n : ℕ) (m : ℕ → ℕ)
    → HasLength m src n
    → Apart (suc n) src dest
    → n < fuel
    → (m' : ℕ → ℕ) × (strcpy fuel 0 src dest m ≡ some (n, m'))
      × HasLength m' dest n
      × ((k : ℕ) → k ≤ n → m' (dest + k) ≡ m (src + k))
      × ((a : ℕ) → (a < dest) ⊎ (dest + n < a) → m' a ≡ m a)
strcpy_lem fuel src dest n m h apart enough =
    let (m', e, copied, other) =
      strcpy-from fuel 0 src dest n m (λ k lo hi. h.0 k hi) h.1 apart (omega arith) (omega arith) in
    (
      m',
      e,
      (
        (λ k lt z. h.0 k lt (sym (copied k (omega arith) (omega arith)) ∙ z)),
        copied n (omega arith) (omega arith) ∙ h.1,
      ),
      λ k hi. copied k (omega arith) hi,
      λ a out. other a (ground arith),
    )
