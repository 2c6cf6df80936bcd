-- ===== src/Klog/Show.antt =====
-- What `klog_show_helper` of kernel/lib/klog.c shows.
use aeolos.Base.{
  ℕ, zero, suc, ◌+◌, ◌-◌, ◌*◌, ◌%◌, ◌^◌, ◌<◌, ◌≤◌, ◌≡◌, refl, sym, ap₂, ◌∙◌, arith, true, false,
  drop, length, ltb, ◌==◌, Bool-cases, inl, inr,
}
use aeolos.Klog.{Log, used_by, visible_loop, shown_loop, visible, klog_show_helper}
use aeolos.Klog.Ring.{window, length-window, count, contents, IsValid, last_of}

-- The loop over the characters that are visible stops at the start of the ring,
visible_loop-le :
    (fuel width numchars : ℕ) (l : Log) (i used seen : ℕ)
    → IsValid l
    → i < 65536
    → visible_loop fuel width numchars l i used seen ≤ seen + (i + 65536 - l.start) % 65536
unfolding visible_loop
visible_loop-le zero width numchars l i used seen v lt = omega arith
visible_loop-le (suc fuel) width numchars l i used seen v lt =
    let i' = (i + 65536 - 1) % 65536 in
    let rest =
      visible_loop-le fuel width numchars l i' (used_by width used (l.buff i)) (seen + 1) v
        (omega arith) in
    let first = v.start_lt in
    elim (Bool-cases (i == l.start)) [
      | inl e ↦ rw e (omega arith)
      | inr e ↦
          let back : (i' + 65536 - l.start) % 65536 + 1 ≡ (i + 65536 - l.start) % 65536 =
            ground arith in
          elim (Bool-cases (ltb used numchars)) [
            | inl f ↦ rw (e, f) (omega arith)
            | inr f ↦ rw (e, f) (omega arith)
          ]
    ]

-- and the loop that shows characters goes from its index to the end of the ring.
shown_loop-window :
    (n fuel : ℕ) (l : Log) (i : ℕ)
    → IsValid l
    → i < 65536
    → n < fuel
    → n ≡ (l.end + 65536 - i) % 65536
    → shown_loop fuel l i ≡ window l.buff i n
unfolding shown_loop
shown_loop-window n zero l i v lt enough e = absurd (omega arith)
shown_loop-window zero (suc fuel) l i v lt enough e =
    let last = v.end_lt in let at : (i == l.end) ≡ true = ground arith in rw at refl
shown_loop-window (suc n) (suc fuel) l i v lt enough e =
    let last = v.end_lt in
    let more : (i == l.end) ≡ false = ground arith in
    rw (
      more,
      shown_loop-window n fuel l ((i + 1) % 65536) v (omega arith) (omega arith) (omega arith),
    )

drop-window :
    (f : ℕ → ℕ) (h n m : ℕ)
    → h < 65536
    → m ≤ n
    → drop m (window f h n) ≡ window f ((h + m) % 65536) (n - m)
drop-window f h n zero lt le = ap₂ (window f) (omega arith) (omega arith)
drop-window f h zero (suc m) lt le = absurd (omega arith)
drop-window f h (suc n) (suc m) lt le =
    drop-window f ((h + 1) % 65536) n m (omega arith) (omega arith)
    ∙ ap₂ (window f) (omega arith) (omega arith)

-- `klog_show_helper` shows the last bytes of the log, in their order, as many as its first loop has
-- counted, and that loop counts no more than the log holds, whatever the size of the screen. Both
-- indices of the log are in its buffer.
pub klog_show_helper-last :
    (width height : ℕ) (l : Log)
    → IsValid l
    → (visible width height l ≤ length (contents l))
      × (klog_show_helper width height l ≡ last_of (visible width height l) (contents l))
unfolding klog_show_helper
klog_show_helper-last width height l v =
    let n = visible width height l in
    let seen = visible_loop-le 65536 width (width * height % 2 ^ 32) l l.end 0 0 v v.end_lt in
    let le : n ≤ count l = omega arith in
    let size = length-window l.buff l.start (count l) in
    let i = (l.end + 65536 - n % 65536) % 65536 in
    let first = v.start_lt in
    let last = v.end_lt in
    (
      omega arith,
      shown_loop-window n 65536 l i v (omega arith) (omega arith) (omega arith)
          ∙ ap₂ (window l.buff) (omega arith) (omega arith)
          ∙ sym
              (drop-window l.buff l.start (count l) (length (contents l) - n) first (omega arith)),
    )
