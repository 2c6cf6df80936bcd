-- ===== src/Term/Framebuffer.antt =====
-- kernel/dev/fb/fb.c: the two buffers of the screen, as functions from the byte offsets of their
-- 32-bit pixels. A loop over coordinates is a fold over its range.
use aeolos.Base.{ℕ, zero, suc, ◌+◌, ◌*◌, ◌%◌, ◌^◌, ◌==◌, ltb, if◌then◌else◌}

-- `fb_info`, without the address, and `backbuffer`
pub record Fb : Type 0 where
  pub width : ℕ
  pub height : ℕ
  pub pitch : ℕ
  pub backbuffer : ℕ → ℕ
  pub front : ℕ → ℕ

-- `fb.pitch * y` is a 32-bit product.
abbrev pub offset : Fb → ℕ → ℕ → ℕ
offset fb x y = fb.pitch * y % 2 ^ 32 + 4 * x

unfoldable pub fb_putpixel : Fb → ℕ → ℕ → ℕ → Fb
fb_putpixel fb x y color = record fb {
  backbuffer = λ o. if o == offset fb x y then color else fb.backbuffer o;
}

unfoldable pub fb_getpixel : Fb → ℕ → ℕ → ℕ
fb_getpixel fb x y = fb.backbuffer (offset fb x y)

-- `memcpy(backbuffer, fb.addr, n)` copies from the first to the second.
unfoldable pub fb_swap_buffers : Fb → Fb
fb_swap_buffers fb = record fb {
  front = λ o. if ltb o (fb.pitch * fb.height % 2 ^ 32) then fb.backbuffer o else fb.front o;
}

-- `for (i = first; i < first + n; i++)`
unfoldable pub for_range : {A : Type 0} → ℕ → ℕ → (ℕ → A → A) → A → A
for_range first zero body s = s
for_range first (suc n) body s = for_range (suc first) n body (body first s)
