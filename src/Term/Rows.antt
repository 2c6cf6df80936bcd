-- ===== src/Term/Rows.antt =====
-- The rows that the loops of kernel/dev/term/term.c draw.
use aeolos.Base.{ℕ, ◌+◌, ◌<◌, ◌≤◌, ◌≡◌, ◌≢◌, refl, ap₂, ◌∙◌, if◌then◌else◌, arith}
use aeolos.Term.Framebuffer.{Fb, fb_putpixel, fb_getpixel, for_range}
use aeolos.Term.Pixels.{IsScreen, Shape-IsScreen, RowDrawn, RowDrawn-start, row-RowDrawn}
use aeolos.Term.Areas.{within, AreaDrawn, AreaDrawn-start, area-AreaDrawn}

-- A loop that gives every pixel of a row a color of its own,
pub row_colors :
    (fb : Fb) (y x0 m : ℕ) (body : ℕ → Fb → Fb) (color : ℕ → ℕ)
    → IsScreen fb
    → y < fb.height
    → x0 + m ≤ fb.width
    → ((j : ℕ) (fb' : Fb) → body j fb' ≡ fb_putpixel fb' (x0 + j) y (color (x0 + j)))
    → RowDrawn fb (for_range 0 m body fb) y x0 m color
row_colors fb y x0 m body color v low fits puts =
    let same : 0 + m ≡ m = omega arith in
    rw same at (
      row-RowDrawn fb v y x0 color (λ j fb'. color (x0 + j)) low (λ fb' m' j d lt. refl) body puts m
        0 fb (RowDrawn-start fb v y x0 color (λ j fb'. color (x0 + j)) low (λ fb' m' j d lt. refl))
        (omega arith))

-- and one that copies another row.
pub row_copies :
    (fb : Fb) (y y2 : ℕ)
    → IsScreen fb
    → y < fb.height
    → y2 < fb.height
    → y2 ≢ y
    → RowDrawn fb
        (for_range 0 fb.width (λ x fb. fb_putpixel fb x y (fb_getpixel fb x y2)) fb)
        y
        0
        fb.width
        (λ x. fb_getpixel fb x y2)
row_copies fb y y2 v low low2 other =
    let zero_first : (j : ℕ) → 0 + j ≡ j = λ j. omega arith in
    let src : ℕ → Fb → ℕ = λ j fb'. fb_getpixel fb' j y2 in
    let color : ℕ → ℕ = λ x. fb_getpixel fb x y2 in
    let still : (fb' : Fb) (m j : ℕ)
        → RowDrawn fb fb' y 0 m color
        → 0 + j < fb.width
        → src j fb' ≡ color (0 + j) =
      λ fb' m j d lt. rw (zero_first j) (d.rest j y2 (omega arith) low2 other) in
    rw (zero_first fb.width) at (
      row-RowDrawn fb v y 0 color src low still (λ x fb. fb_putpixel fb x y (fb_getpixel fb x y2))
        (λ j fb'. rw (zero_first j) refl) fb.width 0 fb
        (RowDrawn-start fb v y 0 color src low still) (omega arith))

-- Rows that are filled with one color
pub fill :
    (fb : Fb) (first n c : ℕ)
    → IsScreen fb
    → first + n ≤ fb.height
    → AreaDrawn fb
        (for_range first n (λ y fb. for_range 0 fb.width (λ x fb. fb_putpixel fb x y c) fb) fb)
        0
        fb.width
        first
        n
        (λ x y. c)
fill fb first n c v fits =
    let whole : (0 + n ≡ n) × (first + 0 ≡ first) = (omega arith, omega arith) in
    rw (whole.0, whole.1) at
      (area-AreaDrawn fb v 0 fb.width first (λ x y. c) first fb.height
        (λ y fb. for_range 0 fb.width (λ x fb. fb_putpixel fb x y c) fb) (omega arith)
        (λ k fb' d lt.
          let (w, h, p) = d.shape in
          rw (← w) (
            row_colors fb' (first + k) 0 fb'.width (λ x fb. fb_putpixel fb x (first + k) c) (λ x. c)
              (Shape-IsScreen fb fb' d.shape v) (omega arith) (omega arith)
              (λ j fb''. let same : 0 + j ≡ j = omega arith in rw same refl)))
        n 0 fb (AreaDrawn-start fb 0 fb.width first (λ x y. c)) (omega arith))

pub RowDrawn-color :
    (fb fb' : Fb) (y x0 m m' : ℕ) (color color' : ℕ → ℕ)
    → m ≡ m'
    → RowDrawn fb fb' y x0 m color
    → ((x : ℕ) → x < fb.width → color x ≡ color' x)
    → RowDrawn fb fb' y x0 m' color'
RowDrawn-color fb fb' y x0 m m' color color' e r same = record {
  shape = r.shape;
  row = λ x lx.
      r.row x lx ∙ ap₂ (λ k c. if within x0 k x then c else fb_getpixel fb x y) e (same x lx);
  rest = r.rest;
  beyond = r.beyond;
}
