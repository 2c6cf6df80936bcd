-- ===== src/Klog/Format.antt =====
-- `vprintf` of kernel/lib/klog.c on a format that is made of pieces.
use aeolos.Base.{
  ℕ, ◌%◌, ◌^◌, ◌<◌, ◌≤◌, ◌≡◌, refl, sym, ap, ◌∙◌, arith, List, [], ◌∷◌, ◌++◌, Bool, true, false,
  ◌==◌, if◌then◌else◌, some,
}
use aeolos.Klog.{
  Log, Arg, word, text, putch, puts, putnum, put_arg, int_of, true_text, false_text, vprintf,
}
use aeolos.Klog.Number.{number_text, puts-append, putnum-number}

-- What a format asks for, one after the other.
pub data Piece : Type 0 where
  literal : (c : ℕ) → (c == b'%') ≡ false → Piece
  percent : Piece
  decimal hexadecimal boolean : ℕ → Piece
  string : List ℕ → Piece

-- A piece in the format, its argument, and its text.
abbrev pub format_of : List Piece → List ℕ
format_of [] = []
format_of (literal c plain ∷ ps) = c ∷ format_of ps
format_of (percent ∷ ps) = b'%' ∷ b'%' ∷ format_of ps
format_of (decimal w ∷ ps) = b'%' ∷ b'd' ∷ format_of ps
format_of (hexadecimal w ∷ ps) = b'%' ∷ b'x' ∷ format_of ps
format_of (boolean w ∷ ps) = b'%' ∷ b'b' ∷ format_of ps
format_of (string s ∷ ps) = b'%' ∷ b's' ∷ format_of ps

abbrev pub args_of : List Piece → List Arg
args_of [] = []
args_of (literal c plain ∷ ps) = args_of ps
args_of (percent ∷ ps) = args_of ps
args_of (decimal w ∷ ps) = word w ∷ args_of ps
args_of (hexadecimal w ∷ ps) = word w ∷ args_of ps
args_of (boolean w ∷ ps) = word w ∷ args_of ps
args_of (string s ∷ ps) = text s ∷ args_of ps

abbrev pub text_of : Piece → List ℕ
text_of (literal c plain) = c ∷ []
text_of percent = b'%' ∷ []
text_of (decimal w) = number_text (int_of w) 10 true
text_of (hexadecimal w) = b'0' ∷ b'x' ∷ number_text w 16 false
text_of (boolean w) = if w % 2 ^ 32 == 0 then false_text else true_text
text_of (string s) = s

abbrev pub all_text : List Piece → List ℕ
all_text [] = []
all_text (p ∷ ps) = text_of p ++ all_text ps

-- The words are 64 bits wide.
abbrev pub AllWords : List Piece → Type 0
AllWords [] = Unit {0}
AllWords (hexadecimal w ∷ ps) = (w < 2 ^ 64) × AllWords ps
AllWords (p ∷ ps) = AllWords ps

int_of-lt : (w : ℕ) → int_of w < 2 ^ 64
int_of-lt w = ground arith

vprintf-plain :
    (c : ℕ) (cs : List ℕ) (args : List Arg) (l : Log)
    → (c == b'%') ≡ false
    → vprintf (c ∷ cs) args l ≡ vprintf cs args (putch c l)
unfolding vprintf
vprintf-plain c [] args l plain = rw plain refl
vprintf-plain c (d ∷ ds) args l plain = rw plain refl

-- A number, and what is printed behind it
shows :
    (num base : ℕ) (is_signed : Bool) (cs : List ℕ) (l : Log)
    → 2 ≤ base
    → base ≤ 36
    → num < 2 ^ 64
    → puts (number_text num base is_signed ++ cs) l ≡ puts cs (putnum num base is_signed l)
shows num base is_signed cs l lo hi lt =
    puts-append (number_text num base is_signed) cs l
    ∙ ap (puts cs) (sym (putnum-number num base is_signed l lo hi lt).0)

-- `vprintf` of a format made of such pieces, with their arguments, prints their texts one after the
-- other: numbers as `putnum` does, and a `%` for two.
pub vprintf-all_text :
    (ps : List Piece) (l : Log)
    → AllWords ps
    → vprintf (format_of ps) (args_of ps) l ≡ some (puts (all_text ps) l)
unfolding vprintf put_arg puts
vprintf-all_text [] l h = refl
vprintf-all_text (literal c plain ∷ ps) l h =
    vprintf-plain c (format_of ps) (args_of ps) l plain ∙ vprintf-all_text ps (putch c l) h
vprintf-all_text (percent ∷ ps) l h = vprintf-all_text ps (putch b'%' l) h
vprintf-all_text (decimal w ∷ ps) l h =
    vprintf-all_text ps (putnum (int_of w) 10 true l) h
    ∙ ap some
        (sym (shows (int_of w) 10 true (all_text ps) l (omega arith) (omega arith) (int_of-lt w)))
vprintf-all_text (hexadecimal w ∷ ps) l h =
    let l' = puts (b'0' ∷ b'x' ∷ []) l in
    vprintf-all_text ps (putnum w 16 false l') h.1
    ∙ ap some (sym (shows w 16 false (all_text ps) l' (omega arith) (omega arith) h.0))
vprintf-all_text (boolean w ∷ ps) l h =
    let s = if w % 2 ^ 32 == 0 then false_text else true_text in
    vprintf-all_text ps (puts s l) h ∙ ap some (sym (puts-append s (all_text ps) l))
vprintf-all_text (string s ∷ ps) l h =
    vprintf-all_text ps (puts s l) h ∙ ap some (sym (puts-append s (all_text ps) l))
