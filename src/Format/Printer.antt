-- ===== src/Format/Printer.antt =====
-- `vsprintf` of kernel/lib/vsprintf.c. The format is the list of its bytes up to the terminator. Where
-- the code would read past the terminator, or take an argument that is not there, the step is `none`.
use razos.Base.{
  int_lt, ℕ, zero, suc, ◌+◌, ◌-◌, ◌*◌, ◌%◌, ◌^◌, leb, ◌==◌, ◌!=◌, if◌then◌else◌, List, [], ◌∷◌,
  ◌++◌, Option, none, some, length, take, drop, replicate, is_neg, neg_one, sub32, bit_and, bit_or,
}
use razos.Ctype.{isdigit}
use razos.Format.{
  fl_sign, fl_left_justify, fl_plus, fl_space, fl_special, fl_zeropad, fl_small, flagged, atoi_ptr,
  numstr, pad,
}
use mathlib.Core.Option

-- An argument: an int, a long or a pointer that is printed; a string or NULL; a pointer for `%n`.
pub data Arg : Type 0 where
  word : ℕ → Arg
  text : Option (List ℕ) → Arg
  place : Arg

-- The variables of `vsprintf`: `str` is what has been stored in `buf`, and `printed` what `%n` has
-- stored through its pointers.
pub record Printer : Type 0 where
  pub fmt : List ℕ
  pub flags : ℕ
  pub state : ℕ
  pub width : ℕ
  pub prec : ℕ
  pub len : ℕ
  pub arg : List Arg
  pub str : List ℕ
  pub printed : List ℕ

-- `*fmt`
abbrev pub here : Printer → ℕ
here p = elim p.fmt [ [] ↦ 0 | c ∷ rest ↦ c ]

-- `fmt++` behind a byte that is not the terminator.
abbrev pub skip : Printer → Printer
skip p = record p { fmt = drop 1 p.fmt }

-- `*str++ = …` for each byte.
abbrev pub put : List ℕ → Printer → Printer
put bytes p = record p { str = p.str ++ bytes }

abbrev pub set_flag : ℕ → Printer → Printer
set_flag f p = record p { flags = bit_or p.flags f }

abbrev pub next_state : Printer → Printer
next_state p = record p { state = p.state + 1 }

-- `va_arg(arg, int)`, `long` or `void*`
abbrev pub next_word : (ℕ → Printer → Option Printer) → Printer → Option Printer
next_word go p = elim p.arg [
  | [] ↦ none
  | a ∷ arg ↦ elim a [ word w ↦ go w (record p { arg = arg }) | text s ↦ none | place ↦ none ]
]

-- `(short)w` as an int.
abbrev pub short : ℕ → ℕ
short w = let low = w % 2 ^ 16 in if leb (2 ^ 15) low then low + (2 ^ 32 - 2 ^ 16) else low

abbrev pub put_number : (number base : ℕ) → Printer → Option Printer
put_number number base p =
    Option.map (λ bytes. put bytes p) (numstr number base p.width p.prec p.flags)

abbrev pub number_word : (base : ℕ) → ℕ → Printer → Option Printer
number_word base w p = put_number (if p.len == neg_one then short w else w) base p

-- The conversion of a number: the argument, as the length modifier says, and `numstr`.
unfoldable pub conv_number : (base : ℕ) → Printer → Option Printer
conv_number base = next_word (number_word base)

-- `while (--width > 0) *str++ = ' '` stores these, and leaves the width below.
abbrev pub pad_first : ℕ → List ℕ
pad_first width = pad (sub32 width 1) b' '

abbrev pub after_first : ℕ → ℕ
after_first width = if is_neg (sub32 width 1) then sub32 width 1 else 0

abbrev pub char_word : ℕ → Printer → Option Printer
char_word w p =
    let left = flagged p.flags fl_left_justify in
    let before = if left then [] else pad_first p.width in
    let width = if left then p.width else after_first p.width in
    some (put (before ++ (w % 256 ∷ pad_first width)) (record p { width = after_first width }))

unfoldable pub conv_char : Printer → Option Printer
conv_char = next_word char_word

-- `while (slen < width--) *str++ = ' '`
abbrev pub pad_to : ℕ → ℕ → List ℕ
pad_to slen width = if int_lt slen width then replicate (width - slen) b' ' else []

abbrev pub after_to : ℕ → ℕ → ℕ
after_to slen width = sub32 (if int_lt slen width then slen else width) 1

-- `slen`: the bytes of the string that the precision lets through.
unfoldable pub string_length : ℕ → List ℕ → ℕ
string_length prec s =
    let slen = length s in if is_neg prec then slen else if int_lt prec slen then prec else slen

unfoldable pub put_string : List ℕ → Printer → Printer
put_string s p =
    let prec = if is_neg p.prec then length s else p.prec in
    let slen = string_length p.prec s in
    let left = flagged p.flags fl_left_justify in
    let before = if left then [] else pad_to slen p.width in
    let width = if left then p.width else after_to slen p.width in
    put (before ++ (take slen s ++ pad_to slen width))
      (record p { prec = prec; width = after_to slen width })

unfoldable pub conv_string : Printer → Option Printer
unfolding put_string
conv_string p = elim p.arg [
  | [] ↦ none
  | a ∷ arg ↦ elim a [
    | text none ↦ some (record p { arg = arg })
    | text (some s) ↦ some (put_string s (record p { arg = arg }))
    | word w ↦ none
    | place ↦ none
  ]
]

unfoldable pub conv_pointer : Printer → Option Printer
conv_pointer p =
    let q = set_flag fl_special (set_flag fl_small p) in
    let wide = record (set_flag fl_zeropad q) { width = 8 } in
    let r = if p.width == neg_one then wide else q in next_word (λ w. put_number w 16) r

unfoldable pub conv_printed : Printer → Option Printer
conv_printed p = elim p.arg [
  | [] ↦ none
  | a ∷ arg ↦ elim a [
    | place ↦ some (record p { arg = arg; printed = p.printed ++ (length p.str ∷ []) })
    | word w ↦ none
    | text s ↦ none
  ]
]

-- The inner switch.
unfoldable pub convert : ℕ → Printer → Option Printer
convert c p =
    if c == b'd'
    then conv_number 10 (set_flag fl_sign p)
    else if c == b'i'
    then conv_number 10 (set_flag fl_sign p)
    else if c == b'u'
    then conv_number 10 p
    else if c == b'o'
    then conv_number 8 p
    else if c == b'x'
    then conv_number 16 (set_flag fl_small p)
    else if c == b'X'
    then conv_number 16 p
    else if c == b'c'
    then conv_char p
    else if c == b's'
    then conv_string p
    else if c == b'p'
    then conv_pointer p
    else if c == b'n'
    then conv_printed p
    else some p

-- `fmt++` where `*fmt` may be the terminator.
abbrev pub skip_any : Printer → Option Printer
skip_any p = elim p.fmt [ [] ↦ none | c ∷ rest ↦ some (record p { fmt = rest }) ]

-- The cases of the outer switch, each of which falls through to the next one.
unfoldable pub case5 : Printer → Option Printer
case5 p = Option.map next_state (Option.bind (convert (here p) p) skip_any)

unfoldable pub case4 : Printer → Option Printer
case4 p =
    if here p == b'l'
    then case5 (next_state (record (skip p) { len = 1 }))
    else if here p == b'h'
    then case5 (next_state (record (skip p) { len = neg_one }))
    else case5 (next_state p)

abbrev pub prec_word : ℕ → Printer → Option Printer
prec_word w p = case4 (next_state (record (skip p) { prec = w }))

unfoldable pub set_prec : Printer → Option Printer
set_prec p =
    if isdigit (here p) != 0
    then case4 (next_state (record p { prec = (atoi_ptr p.fmt).0; fmt = (atoi_ptr p.fmt).1 }))
    else if here p == b'*'
    then next_word prec_word p
    else case4 (next_state p)

unfoldable pub case3 : Printer → Option Printer
case3 p = if here p == b'.' then set_prec (skip p) else some (next_state p)

abbrev pub width_word : ℕ → Printer → Option Printer
width_word w p = case3 (next_state (record (skip p) { width = w }))

unfoldable pub case2 : Printer → Option Printer
case2 p =
    if isdigit (here p) != 0
    then case3 (next_state (record p { width = (atoi_ptr p.fmt).0; fmt = (atoi_ptr p.fmt).1 }))
    else if here p == b'*'
    then next_word width_word p
    else case3 (next_state p)

-- The precedence of the flags.
abbrev pub settle : ℕ → ℕ
settle flags =
    let f = if flagged flags fl_plus then bit_and flags 0xF7 else flags in
    if flagged f fl_left_justify then bit_and f 0xDF else f

unfoldable pub case1 : Printer → Option Printer
case1 p =
    let c = here p in
    if c == b'%'
    then some (put (c ∷ []) (record (skip p) { state = 0 }))
    else if c == b'-'
    then some (skip (set_flag fl_left_justify p))
    else if c == b'0'
    then some (skip (set_flag fl_zeropad p))
    else if c == b'+'
    then some (skip (set_flag fl_sign (set_flag fl_plus p)))
    else if c == b' '
    then some (skip (set_flag fl_space p))
    else if c == b'#'
    then some (skip (set_flag fl_special p))
    else case2 (next_state (record p { flags = settle p.flags }))

unfoldable pub case0 : Printer → Option Printer
case0 p = if here p != b'%' then some (put (here p ∷ []) (skip p)) else case1 (skip (next_state p))

abbrev pub reset : Printer → Printer
reset p = record p { state = 0; flags = 0; width = neg_one; prec = neg_one; len = 0 }

-- The outer switch; no other state occurs.
unfoldable pub step : Printer → Option Printer
step p =
    if p.state == 0
    then case0 p
    else if p.state == 1
    then case1 p
    else if p.state == 2
    then case2 p
    else if p.state == 3
    then case3 p
    else if p.state == 4
    then case4 p
    else if p.state == 5
    then case5 p
    else if p.state == 6
    then some (reset p)
    else some p

pub data Run : Type 0 where
  done : Printer → Run
  faults : Run
  out_of_fuel : Run

-- The loop over the format.
unfoldable pub print_loop : ℕ → Printer → Run
print_loop zero p = elim p.fmt [ [] ↦ done p | c ∷ rest ↦ out_of_fuel ]
print_loop (suc fuel) p = elim p.fmt [
  | [] ↦ done p
  | c ∷ rest ↦ elim (step p) [ none ↦ faults | some q ↦ print_loop fuel q ]
]

abbrev pub start : List ℕ → List Arg → Printer
start fmt arg = record {
  fmt = fmt;
  flags = 0;
  state = 0;
  width = neg_one;
  prec = neg_one;
  len = 0;
  arg = arg;
  str = [];
  printed = [];
}

-- What `vsprintf` leaves in `buf`, without the terminator, what it returns, and what it stores for `%n`.
pub record Printed : Type 0 where
  pub buf : List ℕ
  pub count : ℕ
  pub stores : List ℕ

abbrev pub finished : Run → Option Printed
finished (done p) = some (record { buf = p.str; count = length p.str; stores = p.printed })
finished faults = none
finished out_of_fuel = none

unfoldable pub vsprintf : List ℕ → List Arg → Option Printed
vsprintf fmt arg = finished (print_loop (3 * length fmt + 2) (start fmt arg))
