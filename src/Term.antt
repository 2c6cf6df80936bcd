-- ===== src/Term.antt =====
-- kernel/dev/term/term.c: the terminal, a state machine over the bytes it is given. The font and the
-- frame buffer are records; the static variables of the file and of `parse_cmd_byte` are one.
pub mod Framebuffer
pub mod Pixels
pub mod Areas
pub mod Rows
pub mod Screen
pub mod Quiet
pub mod Array
pub mod Cursor
pub mod Colors
pub mod Printing
pub mod Init
mod Tests
use aeolos.Base.{
  ℕ, zero, suc, ◌+◌, ◌-◌, ◌*◌, ◌/◌, ◌%◌, ◌^◌, Bool, true, false, not, ltb, leb, ◌==◌, ◌&&◌, ◌≤◌,
  if◌then◌else◌, List, [], ◌∷◌, Option, none, some,
}
use Framebuffer.{Fb, fb_putpixel, fb_getpixel, fb_swap_buffers, for_range}

-- `psfont_t`: the glyphs' bytes, one for each row; `masks` in `putchar_at` has eight entries, and so
-- the model is for fonts that are at most eight pixels wide.
pub record Font : Type 0 where
  pub glyph_size : ℕ
  pub height : ℕ
  pub width : ℕ
  pub bytes : ℕ → ℕ
  pub narrow : width ≤ 8

pub data Parser : Type 0 where
  ready : Parser
  cmd_wait : Parser
  param_wait : Parser

-- `cparams` holds ten numbers, and the code does not keep its index below 10. `overrun` says whether
-- an entry past the tenth has been written: what that overwrites is unknown, and from then on the
-- other fields say nothing of the kernel.
pub record Term : Type 0 where
  pub fb : Fb
  pub fgcolor : ℕ
  pub bgcolor : ℕ
  pub cursor_x : ℕ
  pub cursor_y : ℕ
  pub width : ℕ
  pub height : ℕ
  pub state : Parser
  pub cparams : ℕ → ℕ
  pub cparamcount : ℕ
  pub overrun : Bool

abbrev pub default_fgcolor : ℕ
default_fgcolor = 0xaaaaaa

abbrev pub default_bgcolor : ℕ
default_bgcolor = 0

abbrev pub ansicolors : ℕ → ℕ
ansicolors k =
    if k == 0
    then 0
    else if k == 1
    then 0xaa0000
    else if k == 2
    then 0x00aa00
    else if k == 3
    then 0xaaaa00
    else if k == 4
    then 0x0000aa
    else if k == 5
    then 0xaa00aa
    else if k == 6
    then 0x00aaaa
    else if k == 7
    then 0xaaaaaa
    else if k == 8
    then 0x555555
    else if k == 9
    then 0xff5555
    else if k == 10
    then 0x55ff55
    else if k == 11
    then 0xffff55
    else if k == 12
    then 0x5555ff
    else if k == 13
    then 0xff55ff
    else if k == 14
    then 0x55ffff
    else 0xffffff

unfoldable pub scroll : Font → Term → Term
scroll font s =
    let kept = (s.fb.height + 2 ^ 32 - font.height) % 2 ^ 32 in
    let moved =
      for_range 0 kept
        (λ y fb.
          for_range 0 fb.width (λ x fb. fb_putpixel fb x y (fb_getpixel fb x (y + font.height))) fb)
        s.fb in
    let filled =
      for_range kept (s.fb.height - kept)
        (λ y fb. for_range 0 fb.width (λ x fb. fb_putpixel fb x y s.bgcolor) fb) moved in
    record s { fb = filled }

-- `glyph[i] & masks[j]`, where the masks go from 128 down to 1
abbrev pub glyph_bit : ℕ → ℕ → Bool
glyph_bit byte j = byte / 2 ^ (7 - j) % 2 == 1

unfoldable pub putchar_at : Font → ℕ → ℕ → ℕ → Term → Term
putchar_at font c px py s =
    let drawn =
      for_range 0 font.height
        (λ i fb.
          for_range 0 font.width
            (λ j fb.
              fb_putpixel fb (px * font.width + j) (py * font.height + i) (
                if glyph_bit (font.bytes (c * font.glyph_size + i)) j
                then s.fgcolor
                else s.bgcolor))
            fb)
        s.fb in
    record s { fb = drawn }

unfoldable pub term_clear : Term → Term
term_clear s =
    let cleared =
      for_range 0 s.fb.height
        (λ y fb. for_range 0 fb.width (λ x fb. fb_putpixel fb x y s.bgcolor) fb) s.fb in
    record s { fb = cleared; cursor_x = 0; cursor_y = 0 }

abbrev pub term_flush : Term → Term
term_flush s = record s { fb = fb_swap_buffers s.fb }

abbrev pub term_setfgcolor : ℕ → Term → Term
term_setfgcolor color s = record s { fgcolor = color }

abbrev pub term_setbgcolor : ℕ → Term → Term
term_setbgcolor color s = record s { bgcolor = color }

-- `cparams[k] = x`
abbrev pub set_param : ℕ → ℕ → Term → Term
set_param k x s = record s {
  cparams = λ i. if i == k then x else s.cparams i;
  overrun = if ltb k 10 then s.overrun else true;
}

-- What `m` does with the parameters.
unfoldable pub set_colors : Term → Term
set_colors s =
    let p = s.cparams 0 in
    let bright = if s.cparamcount == 2 && s.cparams 1 == 1 then 8 else 0 in
    if p == 0
    then term_setbgcolor default_bgcolor (term_setfgcolor default_fgcolor s)
    else if leb 30 p && leb p 37
    then term_setfgcolor (ansicolors (p - 30 + bright)) s
    else if leb 40 p && leb p 47
    then term_setbgcolor (ansicolors (p - 40 + bright)) s
    else s

-- The labels `err` and `success`
abbrev pub finish : Bool → Term → Bool × Term
finish r s = (r, record s { state = ready; cparamcount = 0 })

-- A byte in each state, with whether it belongs to a sequence.
unfoldable pub parse_in : Parser → ℕ → Term → Bool × Term
parse_in ready byte s =
    if byte == 0x1b then (true, record s { state = cmd_wait }) else finish false s
parse_in cmd_wait byte s =
    if byte == 0x5b
    then (true, set_param 0 0 (record s { state = param_wait; cparamcount = 1 }))
    else if byte == 0x63
    then finish true (term_clear s)
    else finish false s
parse_in param_wait byte s =
    if byte == 0x3b
    then (true, set_param s.cparamcount 0 (record s { cparamcount = s.cparamcount + 1 }))
    else if byte == 0x6d
    then finish true (set_colors s)
    else if leb 0x30 byte && leb byte 0x39
    then (
      true,
      set_param (s.cparamcount - 1) ((s.cparams (s.cparamcount - 1) * 10 + (byte - 0x30)) % 2 ^ 32)
          s,
    )
    else finish false s

abbrev pub parse_cmd_byte : ℕ → Term → Bool × Term
parse_cmd_byte byte s = parse_in s.state byte s

-- The cursor after a byte that is shown, and the end of the line and of the screen
unfoldable pub show_char : Font → ℕ → Term → Term
show_char font c s =
    if c == 0x0a
    then record s { cursor_x = 0; cursor_y = s.cursor_y + 1 }
    else if c == 0x09
    then record s {
      cursor_x = s.cursor_x + (if s.cursor_x % 4 == 0 then 0 else 4 - s.cursor_x % 4);
    }
    else (let drawn = putchar_at font c s.cursor_x s.cursor_y s in
        record drawn { cursor_x = s.cursor_x + 1 })

unfoldable pub wrap_line : Term → Term
wrap_line s =
    if leb s.width s.cursor_x then record s { cursor_x = 0; cursor_y = s.cursor_y + 1 } else s

unfoldable pub wrap_screen : Font → Term → Term
wrap_screen font s =
    if leb s.height s.cursor_y
    then (let up = scroll font s in record up { cursor_y = s.height - 1 })
    else s

unfoldable pub term_putchar : Font → ℕ → Term → Term
term_putchar font c s =
    let (taken, s') = parse_cmd_byte c s in
    if taken then s' else if c == 0 then s' else wrap_screen font (wrap_line (show_char font c s'))

-- The terminal on a frame buffer, as `term_init` leaves it.
unfoldable pub term_init : Font → Fb → Term → Term
term_init font fb s = term_flush (
    term_clear
      (record s { fb = fb; width = fb.width / font.width; height = fb.height / font.height }))
