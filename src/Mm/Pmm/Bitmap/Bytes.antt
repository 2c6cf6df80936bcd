-- ===== src/Mm/Pmm/Bitmap/Bytes.antt =====
-- The bits of a byte: the operations of kernel/mm/pmm.c on one byte of the bitmap, and their laws,
-- which are read off a table of all bytes.
use Prim.Native.Nat.{bit_and, bit_or, bit_and-bitwise}
use aeolos.Base.{
  ℕ, zero, suc, ◌-◌, ◌^◌, ◌<◌, ◌≡◌, refl, Bool, true, false, not, ◌&&◌, ltb, ◌==◌, if◌then◌else◌,
  arith,
}

-- `byte & ~(1 << k)`, `byte | 1 << k` and `byte & (1 << k)`, for a `uint8_t` and `k < 8`.
unfoldable pub byte_clear : ℕ → ℕ → ℕ
byte_clear byte k = bit_and byte (255 - 2 ^ k)

unfoldable pub byte_set : ℕ → ℕ → ℕ
byte_set byte k = bit_or byte (2 ^ k)

unfoldable pub byte_test : ℕ → ℕ → Bool
byte_test byte k = not (bit_and byte (2 ^ k) == 0)

all_below : ℕ → (ℕ → Bool) → Bool
all_below zero p = true
all_below (suc n) p = p n && all_below n p

all_below-get : (n : ℕ) (p : ℕ → Bool) (x : ℕ) → x < n → all_below n p ≡ true → p x ≡ true
unfolding all_below
all_below-get zero p x lt h = absurd (omega arith)
all_below-get (suc n) p x lt h = ground (arith, all_below-get n p x)

abbrev same : Bool → Bool → Bool
same true b = b
same false b = not b

same-eq : (a b : Bool) → same a b ≡ true → a ≡ b
same-eq true b h = ground arith
same-eq false b h = ground arith

abbrev row : ℕ → ℕ → ℕ → Bool
row byte k j =
    same (byte_test (byte_clear byte k) j) (if j == k then false else byte_test byte j)
    && same (byte_test (byte_set byte k) j) (if j == k then true else byte_test byte j)
    && ltb (byte_clear byte k) 256
    && ltb (byte_set byte k) 256

table : all_below 256 (λ byte. all_below 8 (λ k. all_below 8 (row byte k))) ≡ true
unfolding all_below byte_clear byte_set byte_test
table = refl

module _ (byte k j : ℕ) (hb : byte < 256) (hk : k < 8) (hj : j < 8) where
  row-true : row byte k j ≡ true
  row-true = all_below-get 8 (row byte k) j hj (
      all_below-get 8 (λ c. all_below 8 (row byte c)) k hk
        (all_below-get 256 (λ b. all_below 8 (λ c. all_below 8 (row b c))) byte hb table))

  pub test-clear : byte_test (byte_clear byte k) j ≡ (if j == k then false else byte_test byte j)
  test-clear = same-eq _ _ (ground (arith, row-true))

  pub test-set : byte_test (byte_set byte k) j ≡ (if j == k then true else byte_test byte j)
  test-set = same-eq _ _ (ground (arith, row-true))

  pub clear-lt : byte_clear byte k < 256
  clear-lt = ground (arith, row-true)

  pub set-lt : byte_set byte k < 256
  set-lt = ground (arith, row-true)

zero-bit_and : (b : ℕ) → bit_and 0 b ≡ 0
zero-bit_and b = bit_and-bitwise 0 b

pub test-zero : (k : ℕ) → byte_test 0 k ≡ false
unfolding byte_test
test-zero k = rw (zero-bit_and (2 ^ k))
