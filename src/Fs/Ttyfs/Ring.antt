-- ===== src/Fs/Ttyfs/Ring.antt =====
-- The bytes that a ring of sixteen holds, oldest first, for the two rings of
-- kernel/fs/ttyfs/ttyfs.c.
use aeolos.Base.{
  ℕ, zero, suc, ◌+◌, ◌-◌, ◌%◌, ◌<◌, ◌≤◌, ◌≡◌, refl, ap, ap₂, ◌∙◌, arith, List, [], ◌∷◌, ◌++◌,
  get_or, set, drop, take, length, get_or-set_self, get_or-set_ne,
}

-- The `n` bytes from index `h` on, going round at the buffer's size.
abbrev pub window : List ℕ → ℕ → ℕ → List ℕ
window buf h zero = []
window buf h (suc n) = get_or buf h 0 ∷ window buf ((h + 1) % 16) n

pub length-window : (buf : List ℕ) (h n : ℕ) → length (window buf h n) ≡ n
length-window buf h zero = refl
length-window buf h (suc n) = ap suc (length-window buf ((h + 1) % 16) n)

pub take-window : (buf : List ℕ) (h n m : ℕ) → m ≤ n → take m (window buf h n) ≡ window buf h m
take-window buf h n zero le = refl
take-window buf h zero (suc m) le = absurd (omega arith)
take-window buf h (suc n) (suc m) le =
    ap (λ t. get_or buf h 0 ∷ t) (take-window buf ((h + 1) % 16) n m (omega arith))

pub drop-window :
    (buf : List ℕ) (h n m : ℕ)
    → h < 16
    → m ≤ n
    → drop m (window buf h n) ≡ window buf ((h + m) % 16) (n - m)
drop-window buf h n zero lt le = ap₂ (window buf) (omega arith) (omega arith)
drop-window buf h zero (suc m) lt le = absurd (omega arith)
drop-window buf h (suc n) (suc m) lt le =
    drop-window buf ((h + 1) % 16) n m (omega arith) (omega arith)
    ∙ ap₂ (window buf) (omega arith) (omega arith)

-- A write just past a window that does not fill the ring extends it.
pub window-set :
    (buf : List ℕ) (x n h i : ℕ)
    → length buf ≡ 16
    → h < 16
    → n < 16
    → i ≡ (h + n) % 16
    → window (set buf i x) h (suc n) ≡ window buf h n ++ (x ∷ [])
window-set buf x zero h i full hh hn e =
    ap (λ v. v ∷ [])
      (ap (λ j. get_or (set buf i x) j 0) {x = h} {y = i} (omega arith)
        ∙ get_or-set_self buf i x 0 (omega arith))
window-set buf x (suc n) h i full hh hn e =
    ap₂ ◌∷◌ (get_or-set_ne buf x 0 (omega arith))
      (window-set buf x n ((h + 1) % 16) i full (omega arith) (omega arith) (omega arith))

-- A write over the oldest byte of a full ring drops it and appends the new one.
pub window-set_full :
    (buf : List ℕ) (x h : ℕ)
    → length buf ≡ 16
    → h < 16
    → window (set buf h x) ((h + 1) % 16) 16 ≡ window buf ((h + 1) % 16) 15 ++ (x ∷ [])
window-set_full buf x h full hh =
    window-set buf x 15 ((h + 1) % 16) h full (omega arith) (omega arith) (omega arith)
