-- ===== src/Term/Array.antt =====
-- The index of the array `cparams` in kernel/dev/term/term.c.
use aeolos.Base.{
  ℕ, ◌+◌, ◌-◌, ◌≤◌, ◌≡◌, refl, ◌∙◌, true, false, ltb, leb, ◌==◌, ◌&&◌, arith, Bool-cases, inl, inr,
  ◌⊎◌,
}
use aeolos.Term.{
  Font, Term, Parser, ready, cmd_wait, param_wait, scroll, putchar_at, term_clear, set_colors,
  parse_in, show_char, wrap_line, wrap_screen,
}

-- In a sequence of parameters there is one, and the array holds them all.
abbrev pub Indexed : Parser → ℕ → Type 0
Indexed ready n = Unit {0}
Indexed cmd_wait n = Unit {0}
Indexed param_wait n = (1 ≤ n) × (n ≤ 10)

-- Nothing has been written past the array, and the parameters are in it.
abbrev pub InArray : Term → Type 0
InArray s = (s.overrun ≡ false) × Indexed s.state s.cparamcount

-- The byte that begins the eleventh parameter
abbrev pub Eleventh : Parser → ℕ → ℕ → Type 0
Eleventh p byte n = (p ≡ param_wait) × (byte ≡ 0x3b) × (n ≡ 10)

-- What only the parser changes
abbrev Keeps : Term → Term → Type 0
Keeps s s' = (s'.overrun ≡ s.overrun) × (s'.state ≡ s.state) × (s'.cparamcount ≡ s.cparamcount)

Keeps-InArray : (s s' : Term) → Keeps s s' → InArray s → InArray s'
Keeps-InArray s s' (o, p, n) (safe, at) = (o ∙ safe, rw (p, n) at)

set_colors-overrun : (s : Term) → (set_colors s).overrun ≡ s.overrun
unfolding set_colors
set_colors-overrun s = elim (Bool-cases (s.cparams 0 == 0)) [
  | inl e ↦ rw e
  | inr e ↦ elim (Bool-cases (leb 30 (s.cparams 0) && leb (s.cparams 0) 37)) [
    | inl f ↦ rw (e, f)
    | inr f ↦ elim (Bool-cases (leb 40 (s.cparams 0) && leb (s.cparams 0) 47)) [
      | inl g ↦ rw (e, f, g)
      | inr g ↦ rw (e, f, g)
    ]
  ]
]

-- A byte keeps the parameters in the array, unless it begins an eleventh one: then it is taken as a
-- part of the sequence, and the array is overrun.
pub parse_in-InArray :
    (p : Parser) (byte : ℕ) (s : Term)
    → s.state ≡ p
    → s.overrun ≡ false
    → Indexed p s.cparamcount
    → (Eleventh p byte s.cparamcount
        × ((parse_in p byte s).0 ≡ true)
        × ((parse_in p byte s).1.overrun ≡ true))
      ⊎ InArray (parse_in p byte s).1
unfolding parse_in term_clear
parse_in-InArray ready byte s at safe h = elim (Bool-cases (byte == 0x1b)) [
  | inl e ↦ rw e (inr (safe, tt))
  | inr e ↦ rw e (inr (safe, tt))
]
parse_in-InArray cmd_wait byte s at safe h = elim (Bool-cases (byte == 0x5b)) [
  | inl e ↦ rw e (inr (safe, (omega arith, omega arith)))
  | inr e ↦ elim (Bool-cases (byte == 0x63)) [
    | inl f ↦ rw (e, f) (inr (safe, tt))
    | inr f ↦ rw (e, f) (inr (safe, tt))
  ]
]
parse_in-InArray param_wait byte s at safe (some_params, few) = elim (Bool-cases (byte == 0x3b)) [
  | inl e ↦ elim (Bool-cases (ltb s.cparamcount 10)) [
    | inl f ↦
        let next : (1 ≤ s.cparamcount + 1) × (s.cparamcount + 1 ≤ 10) =
          (omega arith, ground (arith, f)) in
        inr (rw (e, f) safe, rw (e, at) next)
    | inr f ↦
        let all : s.cparamcount ≡ 10 = ground (arith, f) in
        inl ((refl, ground (arith, e), all), rw e refl, rw (e, f) refl)
  ]
  | inr e ↦ elim (Bool-cases (byte == 0x6d)) [
    | inl f ↦ rw (e, f) (inr (set_colors-overrun s ∙ safe, tt))
    | inr f ↦ elim (Bool-cases (leb 0x30 byte && leb byte 0x39)) [
      | inl g ↦
          let inside : ltb (s.cparamcount - 1) 10 ≡ true = ground arith in
          inr (rw (e, f, g, inside) safe, rw (e, f, g, at) (some_params, few))
      | inr g ↦ rw (e, f, g) (inr (safe, tt))
    ]
  ]
]

show_char-Keeps : (font : Font) (c : ℕ) (s : Term) → Keeps s (show_char font c s)
unfolding show_char putchar_at
show_char-Keeps font c s = elim (Bool-cases (c == 0x0a)) [
  | inl e ↦ rw e (refl, refl, refl)
  | inr e ↦ elim (Bool-cases (c == 0x09)) [
    | inl f ↦ rw (e, f) (refl, refl, refl)
    | inr f ↦ rw (e, f) (refl, refl, refl)
  ]
]

wrap_line-Keeps : (s : Term) → Keeps s (wrap_line s)
unfolding wrap_line
wrap_line-Keeps s = elim (Bool-cases (leb s.width s.cursor_x)) [
  | inl e ↦ rw e (refl, refl, refl)
  | inr e ↦ rw e (refl, refl, refl)
]

wrap_screen-Keeps : (font : Font) (s : Term) → Keeps s (wrap_screen font s)
unfolding wrap_screen scroll
wrap_screen-Keeps font s = elim (Bool-cases (leb s.height s.cursor_y)) [
  | inl e ↦ rw e (refl, refl, refl)
  | inr e ↦ rw e (refl, refl, refl)
]

-- Showing a byte is no matter of the parser.
pub shown-InArray :
    (font : Font) (c : ℕ) (s : Term)
    → InArray s
    → InArray (wrap_screen font (wrap_line (show_char font c s)))
shown-InArray font c s v =
    let s2 = show_char font c s in
    let s3 = wrap_line s2 in
    Keeps-InArray s3 (wrap_screen font s3) (wrap_screen-Keeps font s3)
      (Keeps-InArray s2 s3 (wrap_line-Keeps s2) (Keeps-InArray s s2 (show_char-Keeps font c s) v))
