-- ===== src/Term/Screen.antt =====
-- What `scroll`, `putchar_at` and `term_clear` of kernel/dev/term/term.c leave on the screen.
use aeolos.Base.{
  ℕ, ◌+◌, ◌-◌, ◌*◌, ◌%◌, ◌^◌, ◌<◌, ◌≤◌, ◌≡◌, refl, ◌∙◌, true, false, ltb, ◌&&◌, if◌then◌else◌,
  arith, Bool-cases, inl, inr,
}
use aeolos.Term.{Font, Term, scroll, putchar_at, term_clear, glyph_bit}
use aeolos.Term.Framebuffer.{Fb, fb_putpixel, fb_getpixel, for_range}
use aeolos.Term.Pixels.{IsScreen, Shape, Shape-IsScreen, RowDrawn}
use aeolos.Term.Areas.{within, AreaDrawn, AreaDrawn-start, area-AreaDrawn}
use aeolos.Term.Rows.{row_colors, row_copies, fill, RowDrawn-color}

-- A screen all of whose pixels have changed
pub record Replaced (fb fb' : Fb) (color : ℕ → ℕ → ℕ) : Type 0 where
  pub shape : Shape fb fb'
  pub pixels : (x y : ℕ) → x < fb.width → y < fb.height → fb_getpixel fb' x y ≡ color x y
  pub beyond : (o : ℕ) → fb.pitch * fb.height ≤ o → fb'.backbuffer o ≡ fb.backbuffer o

-- The first loop of `scroll`
copied :
    (fb : Fb) (up kept : ℕ)
    → IsScreen fb
    → 1 ≤ up
    → kept + up ≡ fb.height
    → AreaDrawn fb
        (for_range 0 kept
          (λ y fb. for_range 0 fb.width (λ x fb. fb_putpixel fb x y (fb_getpixel fb x (y + up))) fb)
          fb)
        0
        fb.width
        0
        kept
        (λ x y. fb_getpixel fb x (y + up))
copied fb up kept v some_rows fits =
    let whole : (0 + kept ≡ kept) × (0 + 0 ≡ 0) = (omega arith, omega arith) in
    let color : ℕ → ℕ → ℕ = λ x y. fb_getpixel fb x (y + up) in
    let body : ℕ → Fb → Fb =
      λ y fb. for_range 0 fb.width (λ x fb. fb_putpixel fb x y (fb_getpixel fb x (y + up))) fb in
    let draws : (n : ℕ) (fb' : Fb)
        → AreaDrawn fb fb' 0 fb.width 0 n color
        → 0 + n < kept
        → RowDrawn fb' (body (0 + n) fb') (0 + n) 0 fb.width (λ x. color x (0 + n)) =
      λ n fb' d lt.
        let (w, h, p) = d.shape in
        let v' = Shape-IsScreen fb fb' d.shape v in
        let r =
          row_copies fb' (0 + n) (0 + n + up) v' (omega arith) (omega arith) (λ e. omega arith) in
        RowDrawn-color fb' (body (0 + n) fb') (0 + n) 0 fb'.width fb.width
          (λ x. fb_getpixel fb' x (0 + n + up)) (λ x. color x (0 + n)) w r
          (λ x lx.
            let out : within 0 n (0 + n + up) ≡ false = ground arith in
            let old = d.pixels x (0 + n + up) (omega arith) (omega arith) in rw out at old) in
    rw (whole.0, whole.1) at
      (area-AreaDrawn fb v 0 fb.width 0 color 0 kept body (omega arith) draws kept 0 fb
        (AreaDrawn-start fb 0 fb.width 0 color) (omega arith))

-- What is moved and what is filled are the whole screen.
both_areas :
    (fb fb1 fb2 : Fb) (up kept rest c : ℕ)
    → up ≤ fb.height
    → kept + up ≡ fb.height
    → kept + rest ≡ fb.height
    → AreaDrawn fb fb1 0 fb.width 0 kept (λ x y. fb_getpixel fb x (y + up))
    → AreaDrawn fb1 fb2 0 fb1.width kept rest (λ x y. c)
    → Replaced fb fb2 (λ x y. if ltb (y + up) fb.height then fb_getpixel fb x (y + up) else c)
both_areas fb fb1 fb2 up kept rest c le fits fits' d d' =
    let (w, h, p) = d.shape in
    let (w', h', p') = d'.shape in
    record {
      shape = (w' ∙ w, h' ∙ h, p' ∙ p);
      pixels = λ x y lx ly.
          let now = d'.pixels x y (omega arith) (omega arith) in
          let old = d.pixels x y lx ly in
          elim (Bool-cases (ltb (y + up) fb.height)) [
            | inl e ↦
                let out : (within kept rest y && within 0 fb1.width x) ≡ false = ground arith in
                let inside : (within 0 kept y && within 0 fb.width x) ≡ true = ground arith in
                rw e (rw out at now ∙ rw inside at old)
            | inr e ↦
                let inside : (within kept rest y && within 0 fb1.width x) ≡ true = ground arith in
                rw e (rw inside at now)
          ];
      beyond = λ o out. d'.beyond o (rw (p, h) out) ∙ d.beyond o out;
    }

-- `scroll` moves every row up by the height of a character, and the rows that this leaves at the
-- bottom get the background color. It changes no memory past the buffer. The characters are no
-- higher than the screen.
pub scroll-Replaced :
    (font : Font) (s : Term)
    → IsScreen s.fb
    → 1 ≤ font.height
    → font.height ≤ s.fb.height
    → Replaced s.fb (scroll font s).fb (λ x y.
      if ltb (y + font.height) s.fb.height then fb_getpixel s.fb x (y + font.height) else s.bgcolor)
unfolding scroll
scroll-Replaced font s v some_rows le =
    let kept = s.fb.height - font.height in
    let whole : (s.fb.height + 2 ^ 32 - font.height) % 2 ^ 32 ≡ kept =
      let short = v.short in omega arith in
    let rest = s.fb.height - kept in
    let up : ℕ → Fb → Fb = λ y fb.
      for_range 0 fb.width (λ x fb. fb_putpixel fb x y (fb_getpixel fb x (y + font.height))) fb in
    let moved = for_range 0 kept up s.fb in
    let d = copied s.fb font.height kept v some_rows (omega arith) in
    let (w, h, p) = d.shape in
    let v' = Shape-IsScreen s.fb moved d.shape v in
    rw whole (
      both_areas s.fb moved
        (for_range kept rest
          (λ y fb. for_range 0 fb.width (λ x fb. fb_putpixel fb x y s.bgcolor) fb) moved)
        font.height kept rest s.bgcolor le (omega arith) (omega arith) d
        (fill moved kept rest s.bgcolor v' (omega arith)))

-- `term_clear` gives every pixel the background color and moves the cursor to the first place.
pub term_clear-Replaced :
    (s : Term)
    → IsScreen s.fb
    → Replaced s.fb (term_clear s).fb (λ x y. s.bgcolor)
      × ((term_clear s).cursor_x ≡ 0)
      × ((term_clear s).cursor_y ≡ 0)
unfolding term_clear
term_clear-Replaced s v =
    let d = fill s.fb 0 s.fb.height s.bgcolor v (omega arith) in
    (
      record {
        shape = d.shape;
        pixels = λ x y lx ly.
            let inside : within 0 s.fb.height y && within 0 s.fb.width x ≡ true = ground arith in
            let now = d.pixels x y lx ly in rw inside at now;
        beyond = d.beyond;
      },
      refl,
      refl,
    )

-- The color that a glyph has at a pixel of its cell
abbrev pub glyph_color : Font → ℕ → Term → ℕ → ℕ → ℕ
glyph_color font c s dx dy =
    if glyph_bit (font.bytes (c * font.glyph_size + dy)) dx then s.fgcolor else s.bgcolor

-- `putchar_at` draws the glyph in the two colors in its cell, and changes no other pixel and no memory
-- past the buffer. The cell is on the screen.
pub putchar_at-AreaDrawn :
    (font : Font) (c px py : ℕ) (s : Term)
    → IsScreen s.fb
    → px * font.width + font.width ≤ s.fb.width
    → py * font.height + font.height ≤ s.fb.height
    → AreaDrawn s.fb
        (putchar_at font c px py s).fb
        (px * font.width)
        font.width
        (py * font.height)
        font.height
        (λ x y. glyph_color font c s (x - px * font.width) (y - py * font.height))
unfolding putchar_at
putchar_at-AreaDrawn font c px py s v fits fits' =
    let x0 = px * font.width in
    let y0 = py * font.height in
    let color : ℕ → ℕ → ℕ = λ x y. glyph_color font c s (x - x0) (y - y0) in
    let body : ℕ → Fb → Fb = λ i fb.
      for_range 0 font.width (λ j fb. fb_putpixel fb (x0 + j) (y0 + i) (glyph_color font c s j i))
        fb in
    let draws : (n : ℕ) (fb' : Fb)
        → AreaDrawn s.fb fb' x0 font.width y0 n color
        → y0 + n < y0 + font.height
        → RowDrawn fb' (body (0 + n) fb') (y0 + n) x0 font.width (λ x. color x (y0 + n)) =
      λ n fb' d lt.
        let (w, h, p) = d.shape in
        let z : 0 + n ≡ n = omega arith in
        let dy : y0 + n - y0 ≡ n = omega arith in
        rw z (
          row_colors fb' (y0 + n) x0 font.width
            (λ j fb. fb_putpixel fb (x0 + j) (y0 + n) (glyph_color font c s j n))
            (λ x. color x (y0 + n)) (Shape-IsScreen s.fb fb' d.shape v) (omega arith) (omega arith)
            (λ j fb''. let dx : x0 + j - x0 ≡ j = omega arith in rw (dx, dy) refl)) in
    let whole : (0 + font.height ≡ font.height) × (0 + 0 ≡ 0) = (omega arith, omega arith) in
    rw (whole.0, whole.1) at
      (area-AreaDrawn s.fb v x0 font.width y0 color 0 (y0 + font.height) body (omega arith) draws
        font.height 0 s.fb (AreaDrawn-start s.fb x0 font.width y0 color) (omega arith))
