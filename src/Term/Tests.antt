-- ===== src/Term/Tests.antt =====
-- The theorems on the terminal, at a screen of four characters by two.
use aeolos.Base.{ℕ, ◌+◌, ◌%◌, ◌<◌, ◌≡◌, arith, ltb, if◌then◌else◌, inr, ◌⊎◌, refl, true, false}
use aeolos.Term.{Font, Term, ready, scroll, term_putchar, term_init}
use aeolos.Term.Framebuffer.{Fb, fb_getpixel}
use aeolos.Term.Pixels.{IsScreen}
use aeolos.Term.Screen.{Replaced, scroll-Replaced}
use aeolos.Term.Array.{Eleventh, InArray}
use aeolos.Term.Cursor.{IsTerm, Safe, term_putchar-Safe}
use aeolos.Term.Colors.{AllColored, resting, put_all-AllColored}
use aeolos.Term.Printing.{Printed, term_putchar-Printed}
use aeolos.Term.Init.{term_init-IsTerm}

abbrev font : Font
font = record { glyph_size = 2; height = 2; width = 8; bytes = λ k. k % 256; narrow = omega arith }

abbrev screen : Fb
screen = record { width = 32; height = 4; pitch = 128; backbuffer = λ o. 7; front = λ o. 0 }

abbrev terminal : Term
terminal = record {
  fb = screen;
  fgcolor = 0xaaaaaa;
  bgcolor = 0;
  cursor_x = 3;
  cursor_y = 0;
  width = 4;
  height = 2;
  state = ready;
  cparams = λ k. 0;
  cparamcount = 0;
  overrun = false;
}

screen-IsScreen : IsScreen screen
screen-IsScreen = record { row = omega arith; fits = omega arith; short = omega arith }

terminal-IsTerm : IsTerm font terminal
terminal-IsTerm = record {
  page = record {
    screen = screen-IsScreen;
    cell = (omega arith, omega arith);
    columns = omega arith;
    rows = omega arith;
  };
  x = omega arith;
  y = omega arith;
}

term_putchar-Safe_example :
    (Eleventh ready 65 0 × ((term_putchar font 65 terminal).overrun ≡ true))
    ⊎ (Safe font terminal (term_putchar font 65 terminal) × InArray (term_putchar font 65 terminal))
term_putchar-Safe_example = term_putchar-Safe font 65 terminal terminal-IsTerm (refl, tt)

term_putchar-Printed_example : Printed font 65 terminal (term_putchar font 65 (resting terminal))
term_putchar-Printed_example =
    term_putchar-Printed font 65 terminal terminal-IsTerm (λ e. omega arith) (λ e. omega arith)
      (λ e. omega arith) (λ e. omega arith) (inr (omega arith))

scroll-Replaced_example :
    Replaced screen
      (scroll font terminal).fb
      (λ x y. if ltb (y + 2) 4 then fb_getpixel screen x (y + 2) else 0)
scroll-Replaced_example = scroll-Replaced font terminal screen-IsScreen (omega arith) (omega arith)

put_all-AllColored_example : AllColored font terminal 3
put_all-AllColored_example = put_all-AllColored font terminal 3 (omega arith)

term_init-IsTerm_example :
    IsTerm font (term_init font screen terminal)
    × ((term_init font screen terminal).cursor_x ≡ 0)
    × ((term_init font screen terminal).cursor_y ≡ 0)
    × ((x y : ℕ) → x < 32 → y < 4 → fb_getpixel (term_init font screen terminal).fb x y ≡ 0)
    × ((o : ℕ)
        → o < 512
        → (term_init font screen terminal).fb.front o
          ≡ (term_init font screen terminal).fb.backbuffer o)
term_init-IsTerm_example =
    term_init-IsTerm font screen terminal screen-IsScreen (omega arith) (omega arith) (omega arith)
      (omega arith)
