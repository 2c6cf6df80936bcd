-- ===== src/Term/Quiet.antt =====
-- What a byte of an escape sequence changes in kernel/dev/term/term.c.
use aeolos.Base.{ℕ, ◌≡◌, refl, leb, ◌==◌, ◌&&◌, arith, Bool-cases, inl, inr, ◌⊎◌}
use aeolos.Term.{Term, Parser, ready, cmd_wait, param_wait, set_colors, parse_in}

-- Only the colors and the parser have changed.
abbrev pub Quiet : Term → Term → Type 0
Quiet s s' =
    (s'.fb ≡ s.fb)
    × (s'.cursor_x ≡ s.cursor_x)
    × (s'.cursor_y ≡ s.cursor_y)
    × (s'.width ≡ s.width)
    × (s'.height ≡ s.height)

set_colors-Quiet : (s : Term) → Quiet s (set_colors s)
unfolding set_colors
set_colors-Quiet s = elim (Bool-cases (s.cparams 0 == 0)) [
  | inl e ↦ rw e (refl, refl, refl, refl, refl)
  | inr e ↦ elim (Bool-cases (leb 30 (s.cparams 0) && leb (s.cparams 0) 37)) [
    | inl f ↦ rw (e, f) (refl, refl, refl, refl, refl)
    | inr f ↦ elim (Bool-cases (leb 40 (s.cparams 0) && leb (s.cparams 0) 47)) [
      | inl g ↦ rw (e, f, g) (refl, refl, refl, refl, refl)
      | inr g ↦ rw (e, f, g) (refl, refl, refl, refl, refl)
    ]
  ]
]

-- A byte of a sequence changes only the colors and the parser, but for the one that clears.
pub parse_in-Quiet :
    (p : Parser) (byte : ℕ) (s : Term)
    → Quiet s (parse_in p byte s).1 ⊎ ((p ≡ cmd_wait) × (byte ≡ 0x63))
unfolding parse_in
parse_in-Quiet ready byte s = elim (Bool-cases (byte == 0x1b)) [
  | inl e ↦ rw e (inl (refl, refl, refl, refl, refl))
  | inr e ↦ rw e (inl (refl, refl, refl, refl, refl))
]
parse_in-Quiet cmd_wait byte s = elim (Bool-cases (byte == 0x5b)) [
  | inl e ↦ rw e (inl (refl, refl, refl, refl, refl))
  | inr e ↦ elim (Bool-cases (byte == 0x63)) [
    | inl f ↦ inr (refl, ground arith)
    | inr f ↦ rw (e, f) (inl (refl, refl, refl, refl, refl))
  ]
]
parse_in-Quiet param_wait byte s = elim (Bool-cases (byte == 0x3b)) [
  | inl e ↦ rw e (inl (refl, refl, refl, refl, refl))
  | inr e ↦ elim (Bool-cases (byte == 0x6d)) [
    | inl f ↦ rw (e, f) (inl (set_colors-Quiet s))
    | inr f ↦ elim (Bool-cases (leb 0x30 byte && leb byte 0x39)) [
      | inl g ↦ rw (e, f, g) (inl (refl, refl, refl, refl, refl))
      | inr g ↦ rw (e, f, g) (inl (refl, refl, refl, refl, refl))
    ]
  ]
]
