-- ===== src/Fs/Ttyfs/Write.antt =====
-- `ttyfs_write` of kernel/fs/ttyfs/ttyfs.c against a queue that keeps its last sixteen bytes.
use aeolos.Base.{
  ℕ, suc, ◌+◌, ◌-◌, ◌%◌, ◌<◌, ◌≤◌, ◌≡◌, refl, ap, ap₂, ◌∙◌, arith, List, [], ◌∷◌, ◌++◌, set, get_or,
  drop, length, length-set, ltb, if◌then◌else◌, append-nil, append_assoc, sym, dec_lt,
  drop-eq_of_zero, drop-cons,
}
use aeolos.Fs.Ttyfs.{write_loop, min_of}
use aeolos.Fs.Ttyfs.Ring.{window, window-set, window-set_full}

-- The last sixteen bytes of a list.
abbrev pub last_bytes : List ℕ → List ℕ
last_bytes xs = drop (length xs - 16) xs

-- Where the code puts `out_start` after `len` more bytes.
abbrev pub end_start : ℕ → ℕ → ℕ → ℕ
end_start s n len = if ltb (16 - n) len then (s + n + len) % 16 else s

pub length-write_loop :
    (bs out : List ℕ) (end i : ℕ) → length (write_loop out end bs i) ≡ length out
unfolding write_loop
length-write_loop [] out end i = refl
length-write_loop (b ∷ bs) out end i =
    length-write_loop bs (set out ((end + i) % 16) b) end (i + 1)
    ∙ length-set out ((end + i) % 16) b

-- The loop, started in a ring that holds `n` bytes from `s` on and whose end is `end + i`.
pub write_loop-window :
    (bs out : List ℕ) (end i s n : ℕ)
    → length out ≡ 16
    → s < 16
    → n ≤ 16
    → (s + n) % 16 ≡ (end + i) % 16
    → window (write_loop out end bs i) (end_start s n (length bs)) (min_of (length bs + n) 16)
      ≡ drop (n + length bs - 16) (window out s n ++ bs)
unfolding write_loop
write_loop-window [] out end i s n full hs hn e =
    ap₂ (window out) (ground arith) (ground arith)
    ∙ sym (append-nil (window out s n))
    ∙ sym (drop-eq_of_zero (n + 0 - 16) (window out s n ++ []) (omega arith))
write_loop-window (b ∷ bs) out end i s n full hs hn e = elim (dec_lt n 16) [
  | yes room ↦
      ap₂ (window (write_loop out' end bs (i + 1))) (ground arith) (ground arith)
      ∙ write_loop-window bs out' end (i + 1) s (suc n) full' hs (omega arith) (omega arith)
      ∙ ap₂ drop (omega arith) (
          ap (λ w. w ++ bs) (window-set out b n s j full hs room (omega arith))
          ∙ append_assoc (window out s n) (b ∷ []) bs)
  | no all ↦
      let h = (s + 1) % 16 in
      let e16 : n ≡ 16 = omega arith in
      let here : j ≡ s = omega arith in
      ap₂ (window (write_loop out' end bs (i + 1))) (ground arith) (ground arith)
      ∙ write_loop-window bs out' end (i + 1) h 16 full' (omega arith) (omega arith) (omega arith)
      ∙ ap (λ w. drop (16 + length bs - 16) (w ++ bs))
          (ap (λ k. window (set out k b) h 16) here ∙ window-set_full out b s full hs)
      ∙ ap (drop (16 + length bs - 16)) (append_assoc (window out h 15) (b ∷ []) bs)
      ∙ sym (
          ap (λ k. drop (k + suc (length bs) - 16) (window out s k ++ b ∷ bs)) e16
          ∙ drop-cons (16 + length bs - 16) (16 + suc (length bs) - 16) (get_or out s 0)
              (window out h 15 ++ b ∷ bs) (omega arith))
]
  where
    j : ℕ
    j = (end + i) % 16

    out' : List ℕ
    out' = set out j b

    full' : length out' ≡ 16
    full' = length-set out j b ∙ full
