-- ===== src/Term/Pixels.antt =====
-- The loops over the pixels of kernel/dev/term/term.c: what an area that is drawn row by row holds.
use aeolos.Base.{
  ℕ, zero, suc, ◌+◌, ◌*◌, ◌^◌, ◌<◌, ◌≤◌, ◌≡◌, ◌≢◌, refl, ap, ◌∙◌, true, false, ltb, leb, ◌==◌, ◌&&◌,
  if◌then◌else◌, arith, Bool-cases, inl, inr, dec_lt,
}
use native.Mathlib.Nat.{mul-le-mul_left, mul-suc}
use aeolos.Term.Framebuffer.{Fb, offset, fb_putpixel, fb_getpixel, for_range}

-- A row has room for its pixels, and the buffer's size is a 32-bit number.
pub record IsScreen (fb : Fb) : Type 0 where
  pub row : 4 * fb.width ≤ fb.pitch
  pub fits : fb.pitch * fb.height < 2 ^ 32
  pub short : fb.height < 2 ^ 32

abbrev pub Shape : Fb → Fb → Type 0
Shape fb fb' = (fb'.width ≡ fb.width) × (fb'.height ≡ fb.height) × (fb'.pitch ≡ fb.pitch)

module _ (fb : Fb) (v : IsScreen fb) where
  later_row : (y y' : ℕ) → y < y' → fb.pitch * y + fb.pitch ≤ fb.pitch * y'
  later_row y y' lt =
      let le = mul-le-mul_left {m = suc y} fb.pitch lt in rw (← mul-suc fb.pitch y) le

  row_start : (y : ℕ) → y < fb.height → fb.pitch * y + fb.pitch ≤ fb.pitch * fb.height
  row_start y lt = later_row y fb.height lt

  offset_lem :
      (x y : ℕ)
      → y < fb.height
      → x < fb.width
      → (offset fb x y ≡ fb.pitch * y + 4 * x) × (offset fb x y < fb.pitch * fb.height)
  offset_lem x y lt lt' =
      let start = row_start y lt in
      let fits = v.fits in let row = v.row in (omega arith, omega arith)

  -- Two pixels have the same offset only if they are the same.
  pub offset-eq :
      (x y x' y' : ℕ)
      → x < fb.width
      → y < fb.height
      → x' < fb.width
      → y' < fb.height
      → (offset fb x' y' == offset fb x y) ≡ ((x' == x) && (y' == y))
  offset-eq x y x' y' lx ly lx' ly' =
      let (at, in_buffer) = offset_lem x y ly lx in
      let (at', in_buffer') = offset_lem x' y' ly' lx' in
      let row = v.row in
      elim (Bool-cases (y' == y)) [
        | inl e ↦
            let same : y' ≡ y = ground arith in
            let at'' : offset fb x' y' ≡ fb.pitch * y + 4 * x' =
              at' ∙ ap (λ r. fb.pitch * r + 4 * x') same in
            ground arith
        | inr e ↦ elim (dec_lt y y') [
          | yes lt ↦ let far = later_row y y' lt in ground arith
          | no ge ↦ let far = later_row y' y (ground arith) in ground arith
        ]
      ]

  pub getpixel-putpixel :
      (x y color x' y' : ℕ)
      → x < fb.width
      → y < fb.height
      → x' < fb.width
      → y' < fb.height
      → fb_getpixel (fb_putpixel fb x y color) x' y'
        ≡ (if (x' == x) && (y' == y) then color else fb_getpixel fb x' y')
  unfolding fb_getpixel fb_putpixel
  getpixel-putpixel x y color x' y' lx ly lx' ly' = rw (← offset-eq x y x' y' lx ly lx' ly') refl

  pub putpixel-beyond :
      (x y color o : ℕ)
      → x < fb.width
      → y < fb.height
      → fb.pitch * fb.height ≤ o
      → (fb_putpixel fb x y color).backbuffer o ≡ fb.backbuffer o
  unfolding fb_putpixel
  putpixel-beyond x y color o lx ly out =
      let (at, in_buffer) = offset_lem x y ly lx in
      let off : (o == offset fb x y) ≡ false = ground arith in rw off refl

pub putpixel-Shape : (fb : Fb) (x y color : ℕ) → Shape fb (fb_putpixel fb x y color)
unfolding fb_putpixel
putpixel-Shape fb x y color = (refl, refl, refl)

pub Shape-IsScreen : (fb fb' : Fb) → Shape fb fb' → IsScreen fb → IsScreen fb'
Shape-IsScreen fb fb' (w, h, p) v = record {
  row = rw (w, p) v.row;
  fits = rw (p, h) v.fits;
  short = rw h v.short;
}

-- The `m` pixels from `x0` on of the row `y` have been drawn.
pub record RowDrawn (fb fb' : Fb) (y x0 m : ℕ) (color : ℕ → ℕ) : Type 0 where
  pub shape : Shape fb fb'
  pub row :
      (x : ℕ)
      → x < fb.width
      → fb_getpixel fb' x y ≡ (if leb x0 x && ltb x (x0 + m) then color x else fb_getpixel fb x y)
  pub rest :
      (x y' : ℕ)
      → x < fb.width
      → y' < fb.height
      → y' ≢ y
      → fb_getpixel fb' x y' ≡ fb_getpixel fb x y'
  pub beyond : (o : ℕ) → fb.pitch * fb.height ≤ o → fb'.backbuffer o ≡ fb.backbuffer o

module _ (fb : Fb) (v : IsScreen fb) (y x0 : ℕ) (color : ℕ → ℕ) (src : ℕ → Fb → ℕ)
    (low : y < fb.height)
    (still : (fb' : Fb) (m j : ℕ)
      → RowDrawn fb fb' y x0 m color
      → x0 + j < fb.width
      → src j fb' ≡ color (x0 + j)) where
  stepped :
      (fb' : Fb) (m : ℕ)
      → RowDrawn fb fb' y x0 m color
      → x0 + m < fb.width
      → (x : ℕ) → x < fb.width
      → fb_getpixel (fb_putpixel fb' (x0 + m) y (src m fb')) x y
        ≡ (if leb x0 x && ltb x (x0 + suc m) then color x else fb_getpixel fb x y)
  stepped fb' m d lt x lx =
      let v' = Shape-IsScreen fb fb' d.shape v in
      let (w, h, p) = d.shape in
      getpixel-putpixel fb' v' (x0 + m) y (src m fb') x y (omega arith) (omega arith) (omega arith)
        (omega arith)
      ∙ elim (Bool-cases (x == x0 + m)) [
        | inl e ↦
            let here : ((x == x0 + m) && (y == y)) ≡ true = ground arith in
            let inside : (leb x0 x && ltb x (x0 + suc m)) ≡ true = ground arith in
            let same : x0 + m ≡ x = ground arith in
            rw (here, inside) (still fb' m m d lt ∙ ap color same)
        | inr e ↦
            let off : ((x == x0 + m) && (y == y)) ≡ false = ground arith in
            let range : ltb x (x0 + suc m) ≡ ltb x (x0 + m) = ground arith in
            rw (off, range) (d.row x lx)
      ]

  RowDrawn-step :
      (fb' : Fb) (m : ℕ)
      → RowDrawn fb fb' y x0 m color
      → x0 + m < fb.width
      → RowDrawn fb (fb_putpixel fb' (x0 + m) y (src m fb')) y x0 (suc m) color
  RowDrawn-step fb' m d lt =
      let v' = Shape-IsScreen fb fb' d.shape v in
      let (w, h, p) = d.shape in
      let (w', h', p') = putpixel-Shape fb' (x0 + m) y (src m fb') in
      record {
        shape = (w' ∙ w, h' ∙ h, p' ∙ p);
        row = λ x lx. stepped fb' m d lt x lx;
        rest = λ x y' lx ly other.
            let off : ((x == x0 + m) && (y' == y)) ≡ false = ground arith in
            getpixel-putpixel fb' v' (x0 + m) y (src m fb') x y' (omega arith) (omega arith)
              (omega arith) (omega arith)
            ∙ rw off (d.rest x y' lx ly other);
        beyond = λ o out.
            putpixel-beyond fb' v' (x0 + m) y (src m fb') o (omega arith) (omega arith)
              (rw (p, h) out)
            ∙ d.beyond o out;
      }

  -- A loop along the row, where what is drawn does not depend on the row itself.
  pub row-RowDrawn :
      (body : ℕ → Fb → Fb)
      → ((j : ℕ) (fb' : Fb) → body j fb' ≡ fb_putpixel fb' (x0 + j) y (src j fb'))
      → (n m : ℕ) (fb' : Fb) → RowDrawn fb fb' y x0 m color
      → x0 + m + n ≤ fb.width
      → RowDrawn fb (for_range m n body fb') y x0 (m + n) color
  unfolding for_range
  row-RowDrawn body puts zero m fb' d le = let same : m + 0 ≡ m = omega arith in rw same d
  row-RowDrawn body puts (suc n) m fb' d le =
      let same : m + suc n ≡ suc m + n = omega arith in
      rw (same, puts m fb')
        (row-RowDrawn body puts n (suc m) (fb_putpixel fb' (x0 + m) y (src m fb'))
          (RowDrawn-step fb' m d (omega arith)) (omega arith))

  pub RowDrawn-start : RowDrawn fb fb y x0 0 color
  RowDrawn-start = record {
    shape = (refl, refl, refl);
    row = λ x lx. let out : (leb x0 x && ltb x (x0 + 0)) ≡ false = ground arith in rw out refl;
    rest = λ x y' lx ly other. refl;
    beyond = λ o out. refl;
  }
