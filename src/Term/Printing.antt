-- ===== src/Term/Printing.antt =====
-- A character that kernel/dev/term/term.c shows.
use aeolos.Base.{
  ℕ, ◌+◌, ◌-◌, ◌*◌, ◌<◌, ◌≡◌, ◌≢◌, refl, true, false, ltb, leb, ◌==◌, if◌then◌else◌, arith,
  Bool-cases, inl, inr, ◌⊎◌,
}
use aeolos.Term.{
  Font, Term, ready, parse_in, putchar_at, show_char, wrap_line, wrap_screen, term_putchar,
}
use aeolos.Term.Areas.{AreaDrawn}
use aeolos.Term.Screen.{glyph_color, putchar_at-AreaDrawn}
use aeolos.Term.Colors.{resting}
use aeolos.Term.Cursor.{IsTerm, in_cell}

-- The glyph is drawn in the cursor's cell, and the cursor goes to the next cell in reading order.
pub record Printed (font : Font) (c : ℕ) (s s' : Term) : Type 0 where
  pub drawn :
      AreaDrawn s.fb s'.fb
        (s.cursor_x * font.width)
        font.width
        (s.cursor_y * font.height)
        font.height
        (λ x y. glyph_color font c s (x - s.cursor_x * font.width) (y - s.cursor_y * font.height))
  pub x : s'.cursor_x ≡ (if ltb (s.cursor_x + 1) s.width then s.cursor_x + 1 else 0)
  pub y : s'.cursor_y ≡ (if ltb (s.cursor_x + 1) s.width then s.cursor_y else s.cursor_y + 1)
  pub state : s'.state ≡ ready

-- The end of a line that is not the last wraps the cursor, and draws nothing.
wrapped :
    (font : Font) (s : Term)
    → s.cursor_y < s.height
    → (s.cursor_x < s.width) ⊎ (s.cursor_y + 1 < s.height)
    → let s' = wrap_screen font (wrap_line s) in
      (s'.fb ≡ s.fb)
      × (s'.cursor_x ≡ (if ltb s.cursor_x s.width then s.cursor_x else 0))
      × (s'.cursor_y ≡ (if ltb s.cursor_x s.width then s.cursor_y else s.cursor_y + 1))
      × (s'.state ≡ s.state)
unfolding wrap_line wrap_screen
wrapped font s low room = elim (Bool-cases (ltb s.cursor_x s.width)) [
  | inl e ↦
      let same_line : leb s.width s.cursor_x ≡ false = ground arith in
      let on_screen : leb s.height s.cursor_y ≡ false = ground arith in
      rw (e, same_line, on_screen) (refl, refl, refl, refl)
  | inr e ↦
      let next_line : leb s.width s.cursor_x ≡ true = ground arith in
      let on_screen : leb s.height (s.cursor_y + 1) ≡ false = elim room [
        | inl lt ↦ absurd (ground arith)
        | inr lt ↦ ground arith
      ] in
      rw (e, next_line, on_screen) (refl, refl, refl, refl)
]

-- The terminal after the glyph has been drawn
abbrev moved : Font → ℕ → Term → Term
moved font c s = record (putchar_at font c s.cursor_x s.cursor_y (resting s)) {
  cursor_x = s.cursor_x + 1;
}

shown :
    (font : Font) (c : ℕ) (s : Term)
    → c ≢ 0
    → c ≢ 0x09
    → c ≢ 0x0a
    → c ≢ 0x1b
    → term_putchar font c (resting s) ≡ wrap_screen font (wrap_line (moved font c s))
unfolding term_putchar parse_in show_char
shown font c s n0 n9 na n1b =
    let e0 : (c == 0) ≡ false = ground arith in
    let e9 : (c == 0x09) ≡ false = ground arith in
    let ea : (c == 0x0a) ≡ false = ground arith in
    let e1b : (c == 0x1b) ≡ false = ground arith in rw (e1b, e0, e9, ea) refl

-- A byte that is no control character, given to a terminal at rest whose cursor is not at the last
-- cell, is shown: its glyph is drawn in the cursor's cell in the current colors, no other pixel
-- changes, and the cursor goes to the next cell of the line, or to the first of the next line.
pub term_putchar-Printed :
    (font : Font) (c : ℕ) (s : Term)
    → IsTerm font s
    → c ≢ 0
    → c ≢ 0x09
    → c ≢ 0x0a
    → c ≢ 0x1b
    → (s.cursor_x + 1 < s.width) ⊎ (s.cursor_y + 1 < s.height)
    → Printed font c s (term_putchar font c (resting s))
unfolding putchar_at
term_putchar-Printed font c s v n0 n9 na n1b room =
    let page = v.page in
    let d =
      putchar_at-AreaDrawn font c s.cursor_x s.cursor_y s page.screen
        (in_cell s.cursor_x s.width font.width s.fb.width v.x page.columns)
        (in_cell s.cursor_y s.height font.height s.fb.height v.y page.rows) in
    let (fb, x, y, state) = wrapped font (moved font c s) v.y room in
    rw (shown font c s n0 n9 na n1b) (record { drawn = rw fb d; x = x; y = y; state = state })
