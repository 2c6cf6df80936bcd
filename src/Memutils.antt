-- ===== src/Memutils.antt =====
-- kernel/lib/memutils.c. For `strncmp` a C string is the list of its characters, without the NUL
-- that ends it.
pub mod Memory
use aeolos.Base.{
  ℕ, zero, suc, ◌≡◌, refl, ap, Bool, ◌<◌, true, ◌==◌, arith, if◌then◌else◌, List, [], ◌∷◌, ◌↔◌,
  Bool-cases, inl, inr, take,
}

-- `strncmp`: the two characters whose difference is the result; both are 0 where it returns 0 at
-- the end of its loop.
unfoldable pub strncmp : List ℕ → List ℕ → ℕ → ℕ × ℕ
strncmp xs ys zero = (0, 0)
strncmp [] [] (suc n) = (0, 0)
strncmp [] (b ∷ ys) (suc n) = (0, b)
strncmp (a ∷ xs) [] (suc n) = (a, 0)
strncmp (a ∷ xs) (b ∷ ys) (suc n) = let rest = strncmp xs ys n in if a == b then rest else (a, b)

-- `strncmp(a, b, n) == 0`
abbrev pub is_same : List ℕ → List ℕ → ℕ → Bool
is_same a b n = let r = strncmp a b n in r.0 == r.1

-- A C string holds no NUL.
abbrev pub IsString : List ℕ → Type 0
IsString [] = Unit {0}
IsString (c ∷ cs) = (0 < c) × IsString cs

-- `strncmp` returns 0 exactly for strings that agree on their first `n` characters.
pub strncmp-take :
    (xs ys : List ℕ) (n : ℕ)
    → IsString xs
    → IsString ys
    → (is_same xs ys n ≡ true) ↔ (take n xs ≡ take n ys)
unfolding strncmp
strncmp-take xs ys zero p q = (λ h. refl, λ h. refl)
strncmp-take [] [] (suc n) p q = (λ h. refl, λ h. refl)
strncmp-take [] (b ∷ ys) (suc n) p q = (λ h. absurd (ground arith), λ h. cc)
strncmp-take (a ∷ xs) [] (suc n) p q = (λ h. absurd (ground arith), λ h. cc)
strncmp-take (a ∷ xs) (b ∷ ys) (suc n) p q =
    let rest = strncmp-take xs ys n p.1 q.1 in
    elim (Bool-cases (a == b)) [
      | inl e ↦
          let same : a ≡ b = ground arith in
          rw (e, same) (λ h. ap (λ l. b ∷ l) (rest.0 h), λ h. rest.1 (cc))
      | inr e ↦
          rw e (λ h. absurd (ground arith), λ h. let same : a ≡ b = cc in absurd (ground arith))
    ]
