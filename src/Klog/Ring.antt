-- ===== src/Klog/Ring.antt =====
-- The ring of kernel/lib/klog.c against a log that keeps its last 65535 bytes.
use aeolos.Base.{
  ℕ, zero, suc, ◌+◌, ◌-◌, ◌%◌, ◌<◌, ◌≤◌, ◌≡◌, refl, sym, ap, ◌∙◌, arith, List, [], ◌∷◌, ◌++◌, true,
  false, drop, length, ◌==◌, append-nil, append_assoc, dec_lt, drop-eq_of_zero, drop-cons,
  Bool-cases, inl, inr, length-append,
}
use aeolos.Klog.{Log, store, putch, puts}

-- The `n` bytes from index `h` on, going round.
abbrev pub window : (ℕ → ℕ) → ℕ → ℕ → List ℕ
window f h zero = []
window f h (suc n) = f h ∷ window f ((h + 1) % 65536) n

pub length-window : (f : ℕ → ℕ) (h n : ℕ) → length (window f h n) ≡ n
length-window f h zero = refl
length-window f h (suc n) = ap suc (length-window f ((h + 1) % 65536) n)

window-store :
    (f : ℕ → ℕ) (x n h i : ℕ)
    → h < 65536
    → n < 65536
    → i ≡ (h + n) % 65536
    → window (store f i x) h (suc n) ≡ window f h n ++ (x ∷ [])
window-store f x zero h i hh hn e = let at : (h == i) ≡ true = ground arith in rw at
window-store f x (suc n) h i hh hn e =
    let off : (h == i) ≡ false = ground arith in
    let rest = window-store f x n ((h + 1) % 65536) i (omega arith) (omega arith) (omega arith) in
    rw (off, rest)

-- How many bytes the log holds, and which: the oldest first.
abbrev pub count : Log → ℕ
count l = (l.end + 65536 - l.start) % 65536

abbrev pub contents : Log → List ℕ
contents l = window l.buff l.start (count l)

-- Both indices are in the buffer.
pub record IsValid (l : Log) : Type 0 where
  pub start_lt : l.start < 65536
  pub end_lt : l.end < 65536

-- The last `n` of a list
abbrev pub last_of : ℕ → List ℕ → List ℕ
last_of n xs = drop (length xs - n) xs

last_of-cons : (n x : ℕ) (xs : List ℕ) → n ≤ length xs → last_of n (x ∷ xs) ≡ last_of n xs
last_of-cons n x xs le = drop-cons (length xs - n) (suc (length xs) - n) x xs (omega arith)

last_of-all : (n : ℕ) (xs : List ℕ) → length xs ≤ n → last_of n xs ≡ xs
last_of-all n xs le = drop-eq_of_zero (length xs - n) xs (omega arith)

last_of-append : (n : ℕ) (xs ys : List ℕ) → last_of n (last_of n xs ++ ys) ≡ last_of n (xs ++ ys)
last_of-append n [] ys = ap (λ l. last_of n (l ++ ys)) (last_of-all n [] (omega arith))
last_of-append n (x ∷ xs) ys = elim (dec_lt (length xs) n) [
  | yes lt ↦ ap (λ l. last_of n (l ++ ys)) (last_of-all n (x ∷ xs) (omega arith))
  | no ge ↦
      ap (λ l. last_of n (l ++ ys)) (last_of-cons n x xs (omega arith))
      ∙ last_of-append n xs ys
      ∙ sym (last_of-cons n x (xs ++ ys) (omega (arith, length-append xs ys)))
]

putch-IsValid : (c : ℕ) (l : Log) → IsValid l → IsValid (putch c l)
unfolding putch
putch-IsValid c l v = record {
  start_lt = elim (Bool-cases ((l.end + 1) % 65536 == l.start)) [
    | inl e ↦ rw e (omega arith)
    | inr e ↦ rw e v.start_lt
  ];
  end_lt = omega arith;
}

-- A write behind a window that fills the ring, whose first byte is lost
window-store_full :
    (f : ℕ → ℕ) (x k h i : ℕ)
    → h < 65536
    → k < 65536
    → i ≡ (h + suc k) % 65536
    → window (store f i x) ((h + 1) % 65536) (suc k)
      ≡ last_of (suc k) (window f h (suc k) ++ (x ∷ []))
window-store_full f x k h i hh hk e =
    let w = window f ((h + 1) % 65536) k in
    let size : length (w ++ (x ∷ [])) ≡ suc k =
      omega (arith, length-append w (x ∷ []), length-window f ((h + 1) % 65536) k) in
    window-store f x k ((h + 1) % 65536) i (omega arith) hk (omega arith)
    ∙ sym (last_of-all (suc k) (w ++ (x ∷ [])) (omega arith))
    ∙ sym (last_of-cons (suc k) (f h) (w ++ (x ∷ [])) (omega arith))

-- One byte more, in a ring that holds `n`, which is not full and which is.
contents-putch :
    (c : ℕ) (l : Log) → IsValid l → contents (putch c l) ≡ last_of 65535 (contents l ++ (c ∷ []))
unfolding putch
contents-putch c l v = elim (Bool-cases ((l.end + 1) % 65536 == l.start)) [
  | inl e ↦
      let full : count l ≡ suc 65534 = ground arith in
      let still : ((l.end + 1) % 65536 + 65536 - (l.start + 1) % 65536) % 65536 ≡ suc 65534 =
        ground arith in
      rw (e, full, still)
        (window-store_full l.buff c 65534 l.start l.end v.start_lt (omega arith) (omega arith))
  | inr e ↦
      let more : ((l.end + 1) % 65536 + 65536 - l.start) % 65536 ≡ suc (count l) = ground arith in
      let short : length (contents l ++ (c ∷ [])) ≤ 65535 =
        ground
          (arith, length-append (contents l) (c ∷ []), length-window l.buff l.start (count l)) in
      rw (e, more)
        (window-store l.buff c (count l) l.start l.end v.start_lt (omega arith) (omega arith)
          ∙ sym (last_of-all 65535 (contents l ++ (c ∷ [])) short))
]

-- `puts` keeps the last 65535 of the bytes that the log held and those that it adds, in their
-- order, and sends all of its bytes. Both indices of the log are in its buffer, and stay there.
pub puts-last :
    (cs : List ℕ) (l : Log)
    → IsValid l
    → IsValid (puts cs l)
      × (contents (puts cs l) ≡ last_of 65535 (contents l ++ cs))
      × ((puts cs l).sent ≡ l.sent ++ cs)
unfolding puts putch
puts-last [] l v = (
  v,
  sym (append-nil (contents l))
      ∙ sym (
          last_of-all 65535 (contents l ++ [])
            (omega (arith, length-append (contents l) [], length-window l.buff l.start (count l)))),
  sym (append-nil l.sent),
)
puts-last (c ∷ cs) l v =
    let (v', kept, sent) = puts-last cs (putch c l) (putch-IsValid c l v) in
    (
      v',
      kept
          ∙ ap (λ w. last_of 65535 (w ++ cs)) (contents-putch c l v)
          ∙ last_of-append 65535 (contents l ++ (c ∷ [])) cs
          ∙ ap (last_of 65535) (append_assoc (contents l) (c ∷ []) cs),
      sent ∙ append_assoc l.sent (c ∷ []) cs,
    )
