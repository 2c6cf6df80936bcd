-- ===== src/Klog.antt =====
-- kernel/lib/klog.c: the kernel's log. The calls hold `log_lock` from their first access to the
-- last, so each is one step. The arguments of a format are a list; what is sent to the serial port
-- is kept in order.
pub mod Ring
pub mod Number
pub mod Format
pub mod Show
mod Tests
use aeolos.Base.{
  ℕ, zero, suc, ◌+◌, ◌-◌, ◌/◌, ◌%◌, ◌*◌, ◌^◌, Bool, true, false, not, ltb, leb, ◌==◌, ◌&&◌,
  if◌then◌else◌, List, [], ◌∷◌, ◌++◌, Option, none, some,
}

-- `log_buff`, `log_start` and `log_end`, which wrap as `uint16_t`, and the bytes sent
pub record Log : Type 0 where
  pub buff : ℕ → ℕ
  pub start : ℕ
  pub end : ℕ
  pub sent : List ℕ

abbrev pub store : (ℕ → ℕ) → ℕ → ℕ → ℕ → ℕ
store f i x j = if j == i then x else f j

unfoldable pub putch : ℕ → Log → Log
putch i l =
    let end = (l.end + 1) % 2 ^ 16 in
    record {
      buff = store l.buff l.end i;
      start = if end == l.start then (l.start + 1) % 2 ^ 16 else l.start;
      end = end;
      sent = l.sent ++ (i ∷ []);
    }

-- `puts`, and `putsn` on its `len` characters
unfoldable pub puts : List ℕ → Log → Log
puts [] l = l
puts (c ∷ cs) l = puts cs (putch c l)

-- `lookup`
abbrev pub lookup : ℕ → ℕ
lookup d = if ltb d 10 then b'0' + d else b'A' + (d - 10)

-- The characters that `putnum` extracts to `tmpbuf`, in its order; fuel is the rest of the buffer.
unfoldable pub extract : ℕ → ℕ → ℕ → List ℕ
extract zero base num = []
extract (suc fuel) base num =
    let rest = extract fuel base (num / base) in
    lookup (num % base) ∷ (if num / base == 0 then [] else rest)

-- The second loop of `putnum` prints them from the last to the first.
unfoldable pub put_back : List ℕ → Log → Log
put_back [] l = l
put_back (c ∷ cs) l = putch c (put_back cs l)

unfoldable pub putnum : ℕ → ℕ → Bool → Log → Log
unfolding extract put_back
putnum num base is_signed l =
    if leb (2 ^ 63) num && is_signed
    then put_back (extract 64 base ((2 ^ 64 - num) % 2 ^ 64)) (putch b'-' l)
    else put_back (extract 64 base num) l

-- What `va_arg` is given: a word in a register, or a string.
pub data Arg : Type 0 where
  word : ℕ → Arg
  text : List ℕ → Arg

-- `(uint64_t)va_arg(args, int)`
abbrev pub int_of : ℕ → ℕ
int_of w = let i = w % 2 ^ 32 in if ltb i (2 ^ 31) then i else i + (2 ^ 64 - 2 ^ 32)

abbrev pub true_text : List ℕ
true_text = b't' ∷ b'r' ∷ b'u' ∷ b'e' ∷ []

abbrev pub false_text : List ℕ
false_text = b'f' ∷ b'a' ∷ b'l' ∷ b's' ∷ b'e' ∷ []

-- The conversion of one argument; `none` where there is no such argument.
unfoldable pub put_arg : ℕ → List Arg → Log → Option (Log × List Arg)
put_arg c [] l = none
put_arg c (word w ∷ args) l =
    if c == b'd'
    then some (putnum (int_of w) 10 true l, args)
    else if c == b'x'
    then some (putnum w 16 false (puts (b'0' ∷ b'x' ∷ []) l), args)
    else if c == b'b'
    then some (puts (if w % 2 ^ 32 == 0 then false_text else true_text) l, args)
    else none
put_arg c (text s ∷ args) l = if c == b's' then some (puts s l, args) else none

abbrev pub takes_arg : ℕ → Bool
takes_arg c =
    if c == b'd' then true else if c == b'x' then true else if c == b's' then true else c == b'b'

-- `vprintf`. After a `%` at the end of the format the loop goes on behind the NUL: `none`.
unfoldable pub vprintf : List ℕ → List Arg → Log → Option Log
vprintf [] args l = some l
vprintf (c ∷ []) args l = if c == b'%' then none else some (putch c l)
vprintf (c ∷ d ∷ cs) args l =
    let plain = vprintf (d ∷ cs) args (putch c l) in
    let percent = vprintf cs args (putch b'%' l) in
    let skipped = vprintf cs args l in
    if c == b'%'
    then (if d == b'%'
        then percent
        else if takes_arg d
        then elim (put_arg d args l) [ none ↦ none | some (l', rest) ↦ vprintf cs rest l' ]
        else skipped)
    else plain

-- `loglevel_t`, and the coloured word that `klog` begins with
pub data Level : Type 0 where
  log_success log_info log_warn log_error : Level

abbrev esc : List ℕ → List ℕ
esc cs = 27 ∷ b'[' ∷ cs

abbrev pub level_text : Level → List ℕ
level_text log_success = esc (
    b'3'
    ∷ b'2'
    ∷ b';'
    ∷ b'1'
    ∷ b'm'
    ∷ b'['
    ∷ b'O'
    ∷ b'K'
    ∷ b'A'
    ∷ b'Y'
    ∷ b']'
    ∷ b' '
    ∷ b' '
    ∷ esc (b'0' ∷ b'm' ∷ []))
level_text log_warn = esc (
    b'3'
    ∷ b'3'
    ∷ b'm'
    ∷ b'['
    ∷ b'W'
    ∷ b'A'
    ∷ b'R'
    ∷ b'N'
    ∷ b']'
    ∷ b' '
    ∷ b' '
    ∷ esc (b'0' ∷ b'm' ∷ []))
level_text log_error = esc (
    b'3'
    ∷ b'1'
    ∷ b';'
    ∷ b'1'
    ∷ b'm'
    ∷ b'['
    ∷ b'E'
    ∷ b'R'
    ∷ b'R'
    ∷ b'O'
    ∷ b'R'
    ∷ b']'
    ∷ b' '
    ∷ esc (b'0' ∷ b'm' ∷ []))
level_text log_info = esc (
    b'3'
    ∷ b'4'
    ∷ b';'
    ∷ b'1'
    ∷ b'm'
    ∷ b'['
    ∷ b'I'
    ∷ b'N'
    ∷ b'F'
    ∷ b'O'
    ∷ b']'
    ∷ b' '
    ∷ b' '
    ∷ esc (b'0' ∷ b'm' ∷ []))

unfoldable pub klog : Level → List ℕ → List Arg → Log → Option Log
klog lvl s args l = vprintf s args (puts (level_text lvl) l)

-- The cells of the screen that are used after one more character, in a width
abbrev pub used_by : ℕ → ℕ → ℕ → ℕ
used_by width used c =
    if c == 10
    then (used + (if used % width == 0 then 0 else width - used % width)) % 2 ^ 32
    else if c == 0
    then used
    else (used + 1) % 2 ^ 32

-- The first loop of `klog_show_helper`, from index `i` back: how many characters are visible.
unfoldable pub visible_loop : ℕ → ℕ → ℕ → Log → ℕ → ℕ → ℕ → ℕ
visible_loop zero width numchars l i used visible = visible
visible_loop (suc fuel) width numchars l i used visible =
    let rest =
      visible_loop fuel width numchars l ((i + 2 ^ 16 - 1) % 2 ^ 16) (used_by width used (l.buff i))
        (visible + 1) in
    if not (i == l.start) && ltb used numchars then rest else visible

-- Its second loop, from index `i` on: the characters given to `term_putchar`.
unfoldable pub shown_loop : ℕ → Log → ℕ → List ℕ
shown_loop zero l i = []
shown_loop (suc fuel) l i =
    let rest = shown_loop fuel l ((i + 1) % 2 ^ 16) in if i == l.end then [] else l.buff i ∷ rest

abbrev pub visible : ℕ → ℕ → Log → ℕ
visible width height l = visible_loop (2 ^ 16) width (width * height % 2 ^ 32) l l.end 0 0

unfoldable pub klog_show_helper : ℕ → ℕ → Log → List ℕ
klog_show_helper width height l =
    shown_loop (2 ^ 16) l ((l.end + 2 ^ 16 - visible width height l % 2 ^ 16) % 2 ^ 16)
