-- ===== src/Term/Colors.antt =====
-- The color sequences of kernel/dev/term/term.c, and the parameters that it keeps.
use aeolos.Base.{ℕ, zero, suc, ◌+◌, ◌<◌, ◌≡◌, refl, List, [], ◌∷◌, arith}
use aeolos.Term.{Font, Term, ready, ansicolors, set_colors, parse_in, term_putchar}

-- A string, byte by byte
unfoldable pub put_all : Font → List ℕ → Term → Term
put_all font [] s = s
put_all font (c ∷ cs) s = put_all font cs (term_putchar font c s)

abbrev pub resting : Term → Term
resting s = record s { state = ready; cparamcount = 0 }

-- ESC [ 3 d m and ESC [ 4 d m, and the same with ; 1
abbrev pub color_bytes : ℕ → ℕ → List ℕ
color_bytes layer d = 0x1b ∷ 0x5b ∷ layer ∷ (0x30 + d) ∷ 0x6d ∷ []

abbrev pub bright_bytes : ℕ → ℕ → List ℕ
bright_bytes layer d = 0x1b ∷ 0x5b ∷ layer ∷ (0x30 + d) ∷ 0x3b ∷ 0x31 ∷ 0x6d ∷ []

-- The colors are the two that are meant, and the terminal is at rest as it was before.
abbrev pub Colored : Term → Term → ℕ → ℕ → Type 0
Colored s s' fg bg =
    s'
    ≡ record s { fgcolor = fg; bgcolor = bg; state = ready; cparamcount = 0; cparams = s'.cparams }

abbrev pub AllColored : Font → Term → ℕ → Type 0
AllColored font s d =
    Colored s (put_all font (color_bytes 0x33 d) (resting s)) (ansicolors d) s.bgcolor
    × Colored s (put_all font (bright_bytes 0x33 d) (resting s)) (ansicolors (d + 8)) s.bgcolor
    × Colored s (put_all font (color_bytes 0x34 d) (resting s)) s.fgcolor (ansicolors d)
    × Colored s (put_all font (bright_bytes 0x34 d) (resting s)) s.fgcolor (ansicolors (d + 8))

-- For each of the eight colors, a terminal at rest that is given ESC [ 3 d m has that foreground color,
-- or its bright variant if the sequence has a second parameter 1, and ESC [ 4 d m does the same to the
-- background. The other color, the screen and the cursor are as before, and the terminal is at
-- rest again.
pub put_all-AllColored : (font : Font) (s : Term) (d : ℕ) → d < 8 → AllColored font s d
unfolding put_all term_putchar parse_in set_colors
put_all-AllColored font s zero lt = (refl, refl, refl, refl)
put_all-AllColored font s (suc zero) lt = (refl, refl, refl, refl)
put_all-AllColored font s (suc (suc zero)) lt = (refl, refl, refl, refl)
put_all-AllColored font s (suc (suc (suc zero))) lt = (refl, refl, refl, refl)
put_all-AllColored font s (suc (suc (suc (suc zero)))) lt = (refl, refl, refl, refl)
put_all-AllColored font s (suc (suc (suc (suc (suc zero))))) lt = (refl, refl, refl, refl)
put_all-AllColored font s (suc (suc (suc (suc (suc (suc zero)))))) lt = (refl, refl, refl, refl)
put_all-AllColored font s (suc (suc (suc (suc (suc (suc (suc zero))))))) lt =
    (refl, refl, refl, refl)
put_all-AllColored font s (suc (suc (suc (suc (suc (suc (suc (suc d)))))))) lt =
    absurd (omega arith)
