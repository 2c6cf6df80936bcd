-- ===== src/Term/Areas.antt =====
-- What the nested loops of kernel/dev/term/term.c draw: an area of the screen.
use aeolos.Base.{
  ℕ, zero, suc, ◌+◌, ◌*◌, ◌<◌, ◌≤◌, ◌≡◌, ◌≢◌, refl, ap, ◌∙◌, Bool, true, false, ltb, leb, ◌==◌,
  ◌&&◌, if◌then◌else◌, arith, Bool-cases, inl, inr,
}
use aeolos.Term.Framebuffer.{Fb, fb_getpixel, for_range}
use aeolos.Term.Pixels.{IsScreen, Shape, RowDrawn}

abbrev pub within : ℕ → ℕ → ℕ → Bool
within first n i = leb first i && ltb i (first + n)

-- The `n` rows from `y0` on hold a color in the `m` columns from `x0` on, every other pixel is as it
-- was, and so is the memory past the buffer.
pub record AreaDrawn (fb fb' : Fb) (x0 m y0 n : ℕ) (color : ℕ → ℕ → ℕ) : Type 0 where
  pub shape : Shape fb fb'
  pub pixels :
      (x y : ℕ)
      → x < fb.width
      → y < fb.height
      → fb_getpixel fb' x y
        ≡ (if within y0 n y && within x0 m x then color x y else fb_getpixel fb x y)
  pub beyond : (o : ℕ) → fb.pitch * fb.height ≤ o → fb'.backbuffer o ≡ fb.backbuffer o

pub AreaDrawn-start : (fb : Fb) (x0 m y0 : ℕ) (color : ℕ → ℕ → ℕ) → AreaDrawn fb fb x0 m y0 0 color
AreaDrawn-start fb x0 m y0 color = record {
  shape = (refl, refl, refl);
  pixels = λ x y lx ly. let out : within y0 0 y ≡ false = ground arith in rw out refl;
  beyond = λ o out. refl;
}

module _ (fb : Fb) (v : IsScreen fb) (x0 m y0 : ℕ) (color : ℕ → ℕ → ℕ) where
  -- One more row
  AreaDrawn-step :
      (fb' fb'' : Fb) (n : ℕ)
      → AreaDrawn fb fb' x0 m y0 n color
      → y0 + n < fb.height
      → RowDrawn fb' fb'' (y0 + n) x0 m (λ x. color x (y0 + n))
      → AreaDrawn fb fb'' x0 m y0 (suc n) color
  AreaDrawn-step fb' fb'' n d lt r =
      let (w, h, p) = d.shape in
      let (w', h', p') = r.shape in
      record {
        shape = (w' ∙ w, h' ∙ h, p' ∙ p);
        pixels = λ x y lx ly. elim (Bool-cases (y == y0 + n)) [
          | inl e ↦
              let here : y ≡ y0 + n = ground arith in
              let inside : within y0 (suc n) (y0 + n) ≡ true = ground arith in
              let outside : within y0 n (y0 + n) ≡ false = ground arith in
              let old = rw outside at (d.pixels x (y0 + n) lx lt) in
              rw (here, inside)
                (r.row x (omega arith)
                  ∙ ap (λ z. if within x0 m x then color x (y0 + n) else z) old)
          | inr e ↦
              let other : y ≢ y0 + n = λ same. ground arith in
              let same : within y0 (suc n) y ≡ within y0 n y = ground arith in
              r.rest x y (omega arith) (omega arith) other ∙ d.pixels x y lx ly ∙ rw same refl
        ];
        beyond = λ o out. r.beyond o (rw (p, h) out) ∙ d.beyond o out;
      }

  -- A loop down the area, whose body draws the row that it is at
  pub area-AreaDrawn :
      (b end : ℕ) (body : ℕ → Fb → Fb)
      → end ≤ fb.height
      → ((n : ℕ) (fb' : Fb)
          → AreaDrawn fb fb' x0 m y0 n color
          → y0 + n < end
          → RowDrawn fb' (body (b + n) fb') (y0 + n) x0 m (λ x. color x (y0 + n)))
      → (k n : ℕ) (fb' : Fb) → AreaDrawn fb fb' x0 m y0 n color
      → y0 + n + k ≤ end
      → AreaDrawn fb (for_range (b + n) k body fb') x0 m y0 (n + k) color
  unfolding for_range
  area-AreaDrawn b end body low draws zero n fb' d le =
      let same : n + 0 ≡ n = omega arith in rw same d
  area-AreaDrawn b end body low draws (suc k) n fb' d le =
      let same : n + suc k ≡ suc n + k = omega arith in
      let next : suc (b + n) ≡ b + suc n = omega arith in
      rw (same, next)
        (area-AreaDrawn b end body low draws k (suc n) (body (b + n) fb')
          (AreaDrawn-step fb' (body (b + n) fb') n d (omega arith) (draws n fb' d (omega arith)))
          (omega arith))
