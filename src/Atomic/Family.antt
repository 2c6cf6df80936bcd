-- ===== src/Atomic/Family.antt =====
-- Families indexed by thread: the write of one thread, and how many of the first `n` threads have a
-- property.
use aeolos.Base.{
  ℕ, zero, suc, ◌+◌, ◌≤◌, ◌<◌, ◌≡◌, refl, Bool, true, false, ◌==◌, if◌then◌else◌, arith, dec_lt,
}

abbrev pub update {ℓ} : {A : Type ℓ} → (ℕ → A) → ℕ → A → ℕ → A
update f i a j = if j == i then a else f j

abbrev pub one : Bool → ℕ
one b = if b then 1 else 0

module _ {ℓ} {A : Type ℓ} (p : A → Bool) where
  unfoldable pub count : ℕ → (ℕ → A) → ℕ
  count zero f = 0
  count (suc n) f = count n f + one (p (f n))

  count-update_of_le :
      (n : ℕ) (f : ℕ → A) (i : ℕ) (a : A) → n ≤ i → count n (update f i a) ≡ count n f
  unfolding count
  count-update_of_le zero f i a h = refl
  count-update_of_le (suc n) f i a h = ground (arith, count-update_of_le n f i a)

  -- What a write changes.
  pub count-update :
      (n : ℕ) (f : ℕ → A) (i : ℕ) (a : A)
      → i < n
      → count n (update f i a) + one (p (f i)) ≡ count n f + one (p a)
  unfolding count
  count-update zero f i a h = absurd (omega arith)
  count-update (suc n) f i a h = elim (dec_lt i n) [
    | yes below ↦ ground (arith, count-update n f i a below)
    | no last ↦ ground (arith, count-update_of_le n f i a)
  ]

  pub count-one : (n : ℕ) (f : ℕ → A) (i : ℕ) → i < n → p (f i) ≡ true → 1 ≤ count n f
  unfolding count
  count-one zero f i h e = absurd (omega arith)
  count-one (suc n) f i h e = elim (dec_lt i n) [
    | yes below ↦ let rest = count-one n f i below e in omega arith
    | no last ↦ ground arith
  ]

  pub count-two :
      (n : ℕ) (f : ℕ → A) (i j : ℕ)
      → i < j
      → j < n
      → p (f i) ≡ true
      → p (f j) ≡ true
      → 2 ≤ count n f
  unfolding count
  count-two zero f i j h k e g = absurd (omega arith)
  count-two (suc n) f i j h k e g = elim (dec_lt j n) [
    | yes below ↦ let rest = count-two n f i j h below e g in omega arith
    | no last ↦ let first = count-one n f i (omega arith) e in ground arith
  ]

  pub count-zero : (n : ℕ) (f : ℕ → A) → ((i : ℕ) → p (f i) ≡ false) → count n f ≡ 0
  unfolding count
  count-zero zero f h = refl
  count-zero (suc n) f h = let rest = count-zero n f h in ground (arith, h n)

  -- If some thread has the property, there is one.
  pub find : (n : ℕ) (f : ℕ → A) → 1 ≤ count n f → (i : ℕ) × (i < n) × (p (f i) ≡ true)
  unfolding count
  find zero f h = absurd (omega arith)
  find (suc n) f h = elim (dec_lt 0 (count n f)) [
    | yes before ↦ let (i, lt, e) = find n f before in (i, omega arith, e)
    | no none_before ↦ (n, omega arith, ground arith)
  ]
