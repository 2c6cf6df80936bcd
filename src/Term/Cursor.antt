-- ===== src/Term/Cursor.antt =====
-- The cursor of kernel/dev/term/term.c stays on the screen, and nothing is written past the buffer.
use aeolos.Base.{
  ℕ, suc, true, ◌+◌, ◌*◌, ◌<◌, ◌≤◌, ◌≡◌, refl, ap, ◌∙◌, leb, ◌==◌, arith, Bool-cases, inl, inr, ◌⊎◌,
}
use native.Mathlib.Nat.{mul-le-mul_right, suc-mul}
use aeolos.Term.{
  Font, Term, Parser, cmd_wait, scroll, putchar_at, term_clear, parse_in, show_char, wrap_line,
  wrap_screen, term_putchar,
}
use aeolos.Term.Pixels.{IsScreen, Shape, Shape-IsScreen}
use aeolos.Term.Quiet.{parse_in-Quiet}
use aeolos.Term.Array.{InArray, Eleventh, parse_in-InArray, shown-InArray}
use aeolos.Term.Screen.{scroll-Replaced, term_clear-Replaced, putchar_at-AreaDrawn}

-- The characters' cells are on the screen,
pub record IsPage (font : Font) (s : Term) : Type 0 where
  pub screen : IsScreen s.fb
  pub cell : (1 ≤ font.width) × (1 ≤ font.height)
  pub columns : s.width * font.width ≤ s.fb.width
  pub rows : s.height * font.height ≤ s.fb.height

-- and the cursor is at one of them.
pub record IsTerm (font : Font) (s : Term) : Type 0 where
  pub page : IsPage font s
  pub x : s.cursor_x < s.width
  pub y : s.cursor_y < s.height

-- What every operation leaves alone: the sizes, and the memory past the buffer.
pub record Stays (s s' : Term) : Type 0 where
  pub shape : Shape s.fb s'.fb
  pub beyond : (o : ℕ) → s.fb.pitch * s.fb.height ≤ o → s'.fb.backbuffer o ≡ s.fb.backbuffer o
  pub size : (s'.width ≡ s.width) × (s'.height ≡ s.height)

Stays-IsPage : (font : Font) (s s' : Term) → Stays s s' → IsPage font s → IsPage font s'
Stays-IsPage font s s' t v =
    let (w, h, p) = t.shape in
    let (w', h') = t.size in
    record {
      screen = Shape-IsScreen s.fb s'.fb t.shape v.screen;
      cell = v.cell;
      columns = rw (w, w') v.columns;
      rows = rw (h, h') v.rows;
    }

Stays-trans : (s s1 s2 : Term) → Stays s s1 → Stays s1 s2 → Stays s s2
Stays-trans s s1 s2 t u =
    let (w, h, p) = t.shape in
    let (w1, h1, p1) = u.shape in
    record {
      shape = (w1 ∙ w, h1 ∙ h, p1 ∙ p);
      beyond = λ o out. u.beyond o (rw (p, h) out) ∙ t.beyond o out;
      size = (u.size.0 ∙ t.size.0, u.size.1 ∙ t.size.1);
    }

Stays-same : (s s' : Term) → s'.fb ≡ s.fb → s'.width ≡ s.width → s'.height ≡ s.height → Stays s s'
Stays-same s s' f w h = record {
  shape = (ap (λ fb. fb.width) f, ap (λ fb. fb.height) f, ap (λ fb. fb.pitch) f);
  beyond = λ o out. ap (λ fb. fb.backbuffer o) f;
  size = (w, h);
}

-- A step that stays, with the cursor where it may be after it
abbrev pub Safe : Font → Term → Term → Type 0
Safe font s s' = Stays s s' × IsTerm font s'

cleared-Safe : (font : Font) (s : Term) → IsTerm font s → Safe font s (parse_in cmd_wait 0x63 s).1
unfolding parse_in term_clear
cleared-Safe font s v =
    let s' = (parse_in cmd_wait 0x63 s).1 in
    let (all, home, home') = term_clear-Replaced s v.page.screen in
    let stays : Stays s s' = record {
      shape = all.shape;
      beyond = all.beyond;
      size = (refl, refl);
    } in
    let inside = v.x in
    let inside' = v.y in
    (stays, record { page = Stays-IsPage font s s' stays v.page; x = omega arith; y = omega arith })

parse_in-Safe :
    (font : Font) (p : Parser) (byte : ℕ) (s : Term)
    → IsTerm font s
    → Safe font s (parse_in p byte s).1
parse_in-Safe font p byte s v = elim (parse_in-Quiet p byte s) [
  | inl (f, x, y, w, h) ↦
      let stays = Stays-same s (parse_in p byte s).1 f w h in
      (
        stays,
        record {
          page = Stays-IsPage font s (parse_in p byte s).1 stays v.page;
          x = rw (x, w) v.x;
          y = rw (y, h) v.y;
        },
      )
  | inr (e, f) ↦ rw (e, f) (cleared-Safe font s v)
]

-- The cell of a character on the screen
pub in_cell : (n k size total : ℕ) → n < k → k * size ≤ total → n * size + size ≤ total
in_cell n k size total lt le =
    let next = mul-le-mul_right {m = suc n} size lt in let whole = suc-mul n size in omega arith

-- Where the cursor may be before the end of the line is looked at, and before that of the screen.
abbrev Ahead : Term → Type 0
Ahead s = ((s.cursor_x < s.width) × (s.cursor_y ≤ s.height)) ⊎ (s.cursor_y < s.height)

show_char-Stays :
    (font : Font) (c : ℕ) (s : Term)
    → IsTerm font s
    → Stays s (show_char font c s) × Ahead (show_char font c s)
unfolding show_char putchar_at
show_char-Stays font c s v =
    let x = v.x in
    let y = v.y in
    elim (Bool-cases (c == 0x0a)) [
      | inl e ↦ rw e (Stays-same s _ refl refl refl, inl (omega arith, omega arith))
      | inr e ↦ elim (Bool-cases (c == 0x09)) [
        | inl f ↦ rw (e, f) (Stays-same s _ refl refl refl, inr y)
        | inr f ↦
            let page = v.page in
            let d =
              putchar_at-AreaDrawn font c s.cursor_x s.cursor_y s page.screen
                (in_cell s.cursor_x s.width font.width s.fb.width x page.columns)
                (in_cell s.cursor_y s.height font.height s.fb.height y page.rows) in
            rw (e, f) (record { shape = d.shape; beyond = d.beyond; size = (refl, refl) }, inr y)
      ]
    ]

wrap_line-Stays :
    (s : Term)
    → Ahead s
    → 1 ≤ s.width
    → Stays s (wrap_line s)
      × ((wrap_line s).cursor_x < s.width)
      × ((wrap_line s).cursor_y ≤ s.height)
unfolding wrap_line
wrap_line-Stays s ahead some_columns = elim (Bool-cases (leb s.width s.cursor_x)) [
  | inl e ↦ elim ahead [
    | inl (x, y) ↦ absurd (ground arith)
    | inr y ↦ rw e (Stays-same s _ refl refl refl, some_columns, omega arith)
  ]
  | inr e ↦
      let x : s.cursor_x < s.width = ground arith in
      elim ahead [
        | inl (x', y) ↦ rw e (Stays-same s _ refl refl refl, x, y)
        | inr y ↦ rw e (Stays-same s _ refl refl refl, x, omega arith)
      ]
]

wrap_screen-Safe :
    (font : Font) (s : Term)
    → IsPage font s
    → s.cursor_x < s.width
    → s.cursor_y ≤ s.height
    → 1 ≤ s.height
    → Safe font s (wrap_screen font s)
unfolding wrap_screen scroll
wrap_screen-Safe font s v x y some_rows = elim (Bool-cases (leb s.height s.cursor_y)) [
  | inl e ↦
      let (all_high, one_high) = v.cell in
      let rows = v.rows in
      let one_row = in_cell 0 s.height font.height s.fb.height (omega arith) rows in
      let fits : font.height ≤ s.fb.height = omega arith in
      let d = scroll-Replaced font s v.screen one_high fits in
      let stays : Stays s (wrap_screen font s) =
        rw e (record { shape = d.shape; beyond = d.beyond; size = (refl, refl) }) in
      (
        stays,
        record {
          page = Stays-IsPage font s (wrap_screen font s) stays v;
          x = rw e x;
          y = rw e (omega arith);
        },
      )
  | inr e ↦ rw e (Stays-same s s refl refl refl, record { page = v; x = x; y = ground arith })
]

-- What a byte does to the cursor and the screen.
putchar-Safe :
    (font : Font) (c : ℕ) (s : Term) → IsTerm font s → Safe font s (term_putchar font c s)
unfolding term_putchar
putchar-Safe font c s v =
    let (stays, v1) = parse_in-Safe font s.state c s v in
    let s1 = (parse_in s.state c s).1 in
    elim (Bool-cases (parse_in s.state c s).0) [
      | inl e ↦ rw e (stays, v1)
      | inr e ↦ elim (Bool-cases (c == 0)) [
        | inl f ↦ rw (e, f) (stays, v1)
        | inr f ↦
            let (stays2, ahead) = show_char-Stays font c s1 v1 in
            let s2 = show_char font c s1 in
            let (same_w, same_h) = stays2.size in
            let x1 = v1.x in
            let y1 = v1.y in
            let (stays3, x3, y3) = wrap_line-Stays s2 ahead (omega arith) in
            let s3 = wrap_line s2 in
            let (same_w', same_h') = stays3.size in
            let page3 = Stays-IsPage font s2 s3 stays3 (Stays-IsPage font s1 s2 stays2 v1.page) in
            let (stays4, v4) =
              wrap_screen-Safe font s3 page3 (omega arith) (omega arith) (omega arith) in
            rw (e, f)
              (
                Stays-trans s s1 (wrap_screen font s3) stays (
                    Stays-trans s1 s2 (wrap_screen font s3) stays2
                      (Stays-trans s2 s3 (wrap_screen font s3) stays3 stays4)),
                v4,
              )
      ]
    ]

-- Every byte that the terminal is given, in the middle of a sequence too, leaves it well formed: the
-- cursor is at a cell of the screen, the sizes are the same, no memory past the buffer has changed,
-- and only the ten entries of `cparams` have been written. The one exception is a separator behind
-- ten parameters: it writes past the array.
pub term_putchar-Safe :
    (font : Font) (c : ℕ) (s : Term)
    → IsTerm font s
    → InArray s
    → (Eleventh s.state c s.cparamcount × ((term_putchar font c s).overrun ≡ true))
      ⊎ (Safe font s (term_putchar font c s) × InArray (term_putchar font c s))
unfolding term_putchar
term_putchar-Safe font c s v (safe, at) =
    let whole = putchar-Safe font c s v in
    elim (parse_in-InArray s.state c s refl safe at) [
      | inl (eleventh, taken, over) ↦ inl (eleventh, rw taken over)
      | inr inside ↦ inr (
        whole,
        elim (Bool-cases (parse_in s.state c s).0) [
          | inl e ↦ rw e inside
          | inr e ↦ elim (Bool-cases (c == 0)) [
            | inl f ↦ rw (e, f) inside
            | inr f ↦ rw (e, f) (shown-InArray font c (parse_in s.state c s).1 inside)
          ]
        ],
      )
    ]
