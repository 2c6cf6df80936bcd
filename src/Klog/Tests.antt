-- ===== src/Klog/Tests.antt =====
-- The theorems on the log at a ring that is full and goes round its end.
use aeolos.Base.{ℕ, ◌-◌, ◌%◌, ◌^◌, ◌≤◌, ◌≡◌, refl, true, arith, List, [], ◌∷◌, ◌++◌, length, some}
use aeolos.Klog.{Log, word, text, puts, putnum, vprintf}
use aeolos.Klog.Ring.{IsValid, contents, last_of, puts-last}
use aeolos.Klog.Number.{IsCanonical, number, number_text, digits, putnum-number}
use aeolos.Klog.Format.{Piece, literal, percent, decimal, string, all_text, vprintf-all_text}

-- The log is full, and starts behind the end.
abbrev full : Log
full = record { buff = λ i. i % 256; start = 5; end = 4; sent = [] }

full-IsValid : IsValid full
full-IsValid = omega arith

puts-last_example :
    IsValid (puts (7 ∷ 8 ∷ []) full)
    × (contents (puts (7 ∷ 8 ∷ []) full) ≡ last_of 65535 (contents full ++ (7 ∷ 8 ∷ [])))
    × ((puts (7 ∷ 8 ∷ []) full).sent ≡ 7 ∷ 8 ∷ [])
puts-last_example = puts-last (7 ∷ 8 ∷ []) full full-IsValid

-- The number is -42.
abbrev minus_42 : ℕ
minus_42 = 2 ^ 64 - 42

putnum-number_example :
    (putnum minus_42 10 true full ≡ puts (number_text minus_42 10 true) full)
    × (number 10 0 (digits minus_42 10 true) ≡ 42)
    × IsCanonical (digits minus_42 10 true)
    × (length (digits minus_42 10 true) ≤ 64)
putnum-number_example =
    putnum-number minus_42 10 true full (omega arith) (omega arith) (omega arith)

abbrev pieces : List Piece
pieces = literal b'n' refl ∷ percent ∷ decimal minus_42 ∷ string (b'o' ∷ b'k' ∷ []) ∷ []

vprintf-all_text_example :
    vprintf
      (b'n' ∷ b'%' ∷ b'%' ∷ b'%' ∷ b'd' ∷ b'%' ∷ b's' ∷ [])
      (word minus_42 ∷ text (b'o' ∷ b'k' ∷ []) ∷ [])
      full
    ≡ some (puts (all_text pieces) full)
vprintf-all_text_example = vprintf-all_text pieces full tt
