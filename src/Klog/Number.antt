-- ===== src/Klog/Number.antt =====
-- The numbers that `putnum` of kernel/lib/klog.c prints.
use aeolos.Base.{
  ℕ, zero, suc, ◌+◌, ◌-◌, ◌*◌, ◌/◌, ◌%◌, ◌^◌, ◌<◌, ◌≤◌, ◌≡◌, refl, sym, ap, ◌∙◌, arith, List, [],
  ◌∷◌, ◌++◌, Bool, true, false, ltb, leb, ◌==◌, ◌&&◌, if◌then◌else◌, length, dec_lt, Bool-cases,
  inl, inr, ◌⊎◌, length-append,
}
use native.Mathlib.Nat.{mod-lt, mod-add-div, div-lt_iff_lt-mul, mul-le-mul_left, pow-suc}
use aeolos.Klog.{Log, lookup, putch, puts, extract, put_back, putnum}

-- The list from its last to its first.
abbrev pub backwards : List ℕ → List ℕ
backwards [] = []
backwards (c ∷ cs) = backwards cs ++ (c ∷ [])

-- The digit that a character stands for.
abbrev pub digit_of : ℕ → ℕ
digit_of c = if ltb c b'A' then c - b'0' else c - b'A' + 10

-- The number that digits stand for, the last digit first,
abbrev pub value : ℕ → List ℕ → ℕ
value base [] = 0
value base (c ∷ cs) = digit_of c + base * value base cs

digit_of-lookup : (d : ℕ) → d < 36 → digit_of (lookup d) ≡ d
digit_of-lookup d lt = elim (dec_lt d 10) [
  | yes small ↦
      let here : ltb d 10 ≡ true = ground arith in
      let low : ltb (b'0' + d) b'A' ≡ true = ground arith in rw (here, low) (omega arith)
  | no large ↦
      let here : ltb d 10 ≡ false = ground arith in
      let high : ltb (b'A' + (d - 10)) b'A' ≡ false = ground arith in rw (here, high) (omega arith)
]

-- The loop extracts the digits of a number that is below the fuel's power of two.
extract-value :
    (fuel base num : ℕ)
    → 2 ≤ base
    → base ≤ 36
    → num < 2 ^ fuel
    → value base (extract fuel base num) ≡ num
unfolding extract
extract-value zero base num lo hi lt = omega arith
extract-value (suc fuel) base num lo hi lt =
    let pos : 0 < base = omega arith in
    let digit = digit_of-lookup (num % base) (let small = mod-lt num pos in omega arith) in
    let whole = mod-add-div num base in
    elim (Bool-cases (num / base == 0)) [
      | inl e ↦
          let none_left : num / base ≡ 0 = ground arith in
          rw (e, digit) (ap (λ q. num % base + base * q) (sym none_left) ∙ whole)
      | inr e ↦
          let less : num / base < 2 ^ fuel =
            (div-lt_iff_lt-mul pos).1 (
              let more = mul-le-mul_left (2 ^ fuel) lo in
              let two = pow-suc 2 fuel in omega arith) in
          rw (e, digit)
            (ap (λ q. num % base + base * q) (extract-value fuel base (num / base) lo hi less)
              ∙ whole)
    ]

-- The loop ends with a digit that is not zero, for a number that is not,
leading_digit :
    (fuel base num : ℕ)
    → 2 ≤ base
    → base ≤ 36
    → num < 2 ^ fuel
    → 0 < num
    → (c : ℕ) × (cs : List ℕ) × (backwards (extract fuel base num) ≡ c ∷ cs) × (0 < digit_of c)
unfolding extract
leading_digit zero base num lo hi lt some_num = absurd (omega arith)
leading_digit (suc fuel) base num lo hi lt some_num =
    let pos : 0 < base = omega arith in
    let digit = digit_of-lookup (num % base) (let small = mod-lt num pos in omega arith) in
    let whole = mod-add-div num base in
    elim (Bool-cases (num / base == 0)) [
      | inl e ↦
          let none_left : num / base ≡ 0 = ground arith in
          let same : num % base + base * 0 ≡ num =
            ap (λ q. num % base + base * q) (sym none_left) ∙ whole in
          rw e (lookup (num % base), [], refl, omega arith)
      | inr e ↦
          let less : num / base < 2 ^ fuel =
            (div-lt_iff_lt-mul pos).1 (
              let more = mul-le-mul_left (2 ^ fuel) lo in
              let two = pow-suc 2 fuel in omega arith) in
          let some_left : 0 < num / base = ground (arith, e) in
          let (c, cs, at, nz) = leading_digit fuel base (num / base) lo hi less some_left in
          rw e
            (c, cs ++ (lookup (num % base) ∷ []), ap (λ l. l ++ (lookup (num % base) ∷ [])) at, nz)
    ]

-- and prints one zero for zero.
zero_digit : (fuel base : ℕ) → 2 ≤ base → backwards (extract (suc fuel) base 0) ≡ b'0' ∷ []
unfolding extract
zero_digit fuel base lo =
    let whole = mod-add-div 0 base in
    let rest : 0 % base ≡ 0 = omega arith in
    let none_left : 0 / base < 1 = (div-lt_iff_lt-mul (omega arith)).1 (omega arith) in
    let e : (0 / base == 0) ≡ true = ground arith in rw (e, rest) refl

-- A zero alone, or digits of which the first is not zero
abbrev pub IsCanonical : List ℕ → Type 0
IsCanonical ds = (ds ≡ b'0' ∷ []) ⊎ ((c : ℕ) × (cs : List ℕ) × (ds ≡ c ∷ cs) × (0 < digit_of c))

extract-IsCanonical :
    (fuel base num : ℕ)
    → 2 ≤ base
    → base ≤ 36
    → num < 2 ^ suc fuel
    → IsCanonical (backwards (extract (suc fuel) base num))
extract-IsCanonical fuel base zero lo hi lt = inl (zero_digit fuel base lo)
extract-IsCanonical fuel base (suc num) lo hi lt =
    inr (leading_digit (suc fuel) base (suc num) lo hi lt (omega arith))

length-extract : (fuel base num : ℕ) → length (extract fuel base num) ≤ fuel
unfolding extract
length-extract zero base num = omega arith
length-extract (suc fuel) base num =
    let rest = length-extract fuel base (num / base) in
    elim (Bool-cases (num / base == 0)) [ inl e ↦ rw e (omega arith) | inr e ↦ rw e (omega arith) ]

-- The number that digits stand for, the first digit first.
abbrev pub number : ℕ → ℕ → List ℕ → ℕ
number base acc [] = acc
number base acc (c ∷ cs) = number base (digit_of c + base * acc) cs

number-snoc :
    (base acc c : ℕ) (cs : List ℕ)
    → number base acc (cs ++ (c ∷ [])) ≡ digit_of c + base * number base acc cs
number-snoc base acc c [] = refl
number-snoc base acc c (d ∷ ds) = number-snoc base (digit_of d + base * acc) c ds

number-backwards : (base : ℕ) (cs : List ℕ) → number base 0 (backwards cs) ≡ value base cs
number-backwards base [] = refl
number-backwards base (c ∷ cs) =
    number-snoc base 0 c (backwards cs) ∙ ap (λ n. digit_of c + base * n) (number-backwards base cs)

length-backwards : (cs : List ℕ) → length (backwards cs) ≡ length cs
length-backwards [] = refl
length-backwards (c ∷ cs) =
    omega (arith, length-append (backwards cs) (c ∷ []), length-backwards cs)

pub puts-append : (cs ds : List ℕ) (l : Log) → puts (cs ++ ds) l ≡ puts ds (puts cs l)
unfolding puts
puts-append [] ds l = refl
puts-append (c ∷ cs) ds l = puts-append cs ds (putch c l)

put_back_lem : (cs : List ℕ) (l : Log) → put_back cs l ≡ puts (backwards cs) l
unfolding put_back puts
put_back_lem [] l = refl
put_back_lem (c ∷ cs) l =
    ap (putch c) (put_back_lem cs l) ∙ sym (puts-append (backwards cs) (c ∷ []) l)

-- Whether `putnum` prints a sign, and the number behind it.
abbrev pub is_minus : ℕ → Bool → Bool
is_minus num is_signed = leb (2 ^ 63) num && is_signed

abbrev pub magnitude : ℕ → Bool → ℕ
magnitude num is_signed = if is_minus num is_signed then 2 ^ 64 - num else num

-- The digits that `putnum` prints.
abbrev pub digits : ℕ → ℕ → Bool → List ℕ
digits num base is_signed = backwards (extract 64 base (magnitude num is_signed))

abbrev pub number_text : ℕ → ℕ → Bool → List ℕ
number_text num base is_signed =
    if is_minus num is_signed then b'-' ∷ digits num base is_signed else digits num base is_signed

-- `putnum` in a base from 2 to 36 prints a minus sign exactly for a signed number with its top bit
-- set, and then digits: read in that base, they are the number, or its distance from 2 ^ 64 behind a
-- minus sign. The digits of zero are a single "0", and those of any other number have no zero in
-- front. There are at most 64 of them, which is what the function's buffer can hold.
pub putnum-number :
    (num base : ℕ) (is_signed : Bool) (l : Log)
    → 2 ≤ base
    → base ≤ 36
    → num < 2 ^ 64
    → (putnum num base is_signed l ≡ puts (number_text num base is_signed) l)
      × (number base 0 (digits num base is_signed) ≡ magnitude num is_signed)
      × IsCanonical (digits num base is_signed)
      × (length (digits num base is_signed) ≤ 64)
unfolding putnum puts
putnum-number num base is_signed l lo hi lt = elim (Bool-cases (is_minus num is_signed)) [
  | inl e ↦
      let big : 2 ^ 63 ≤ num = ground arith in
      let fits : (2 ^ 64 - num) % 2 ^ 64 ≡ 2 ^ 64 - num = omega arith in
      let xs = extract 64 base (2 ^ 64 - num) in
      rw (e, fits)
        (
          put_back_lem xs (putch b'-' l),
          number-backwards base xs ∙ extract-value 64 base (2 ^ 64 - num) lo hi (omega arith),
          extract-IsCanonical 63 base (2 ^ 64 - num) lo hi (omega arith),
          (let short = length-extract 64 base (2 ^ 64 - num) in omega (arith, length-backwards xs)),
        )
  | inr e ↦
      let xs = extract 64 base num in
      rw e (
        put_back_lem xs l,
        number-backwards base xs ∙ extract-value 64 base num lo hi lt,
        extract-IsCanonical 63 base num lo hi lt,
        (let short = length-extract 64 base num in omega (arith, length-backwards xs)),
      )
]
