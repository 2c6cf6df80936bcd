-- ===== src/Term/Init.antt =====
-- `term_init` of kernel/dev/term/term.c
use aeolos.Base.{ℕ, ◌*◌, ◌/◌, ◌%◌, ◌^◌, ◌<◌, ◌≤◌, ◌≡◌, refl, true, ltb, arith}
use native.Mathlib.Nat.{mod-add-div, mul_comm, le-div_iff_mul-le}
use aeolos.Term.{Font, Term, term_init, term_clear}
use aeolos.Term.Framebuffer.{fb_getpixel, Fb, fb_swap_buffers}
use aeolos.Term.Pixels.{IsScreen, Shape-IsScreen}
use aeolos.Term.Screen.{term_clear-Replaced}
use aeolos.Term.Cursor.{IsTerm}

div-le : (n k : ℕ) → n / k * k ≤ n
div-le n k = let whole = mod-add-div n k in let turned = mul_comm k (n / k) in omega arith

div-pos : (n k : ℕ) → 1 ≤ k → k ≤ n → 1 ≤ n / k
div-pos n k one le =
    let (up, down) = le-div_iff_mul-le {k = k} {x = 1} {y = n} one in down (omega arith)

-- `term_init` makes a well-formed terminal of any screen that has room for a character: the cursor
-- is at the first cell, every pixel has the background color, and what is shown is what was drawn.
pub term_init-IsTerm :
    (font : Font) (fb : Fb) (s : Term)
    → IsScreen fb
    → 1 ≤ font.width
    → 1 ≤ font.height
    → font.width ≤ fb.width
    → font.height ≤ fb.height
    → IsTerm font (term_init font fb s)
      × ((term_init font fb s).cursor_x ≡ 0)
      × ((term_init font fb s).cursor_y ≡ 0)
      × ((x y : ℕ)
          → x < fb.width
          → y < fb.height
          → fb_getpixel (term_init font fb s).fb x y ≡ s.bgcolor)
      × ((o : ℕ)
          → o < fb.pitch * fb.height
          → (term_init font fb s).fb.front o ≡ (term_init font fb s).fb.backbuffer o)
unfolding term_init fb_swap_buffers term_clear fb_getpixel
term_init-IsTerm font fb s v wide high le le' =
    let start : Term = record s {
      fb = fb;
      width = fb.width / font.width;
      height = fb.height / font.height;
    } in
    let (all, home, home') = term_clear-Replaced start v in
    let (w, h, p) = all.shape in
    let v' = Shape-IsScreen fb (term_clear start).fb all.shape v in
    let fits = v.fits in
    (
      record {
        page = record {
          screen = record { row = v'.row; fits = v'.fits; short = v'.short };
          cell = (wide, high);
          columns = rw w (div-le fb.width font.width);
          rows = rw h (div-le fb.height font.height);
        };
        x = div-pos fb.width font.width wide le;
        y = div-pos fb.height font.height high le';
      },
      refl,
      refl,
      all.pixels,
      λ o lt.
          let inside : ltb o ((term_clear start).fb.pitch * (term_clear start).fb.height % 2 ^ 32)
              ≡ true =
            rw (p, h) (ground arith) in
          rw inside refl,
    )
