-- ===== src/Format.antt =====
-- The numbers of kernel/lib/vsprintf.c: `atoi_ptr` and `numstr`. An `int` or a `long` is its bit
-- pattern, below 2 ^ 32. What is stored through `str` is a list of bytes.
pub mod Digits
pub mod Layout
pub mod RoundTrip
pub mod Printer
pub mod Keeps
pub mod Ends
pub mod Items
mod Tests
use razos.Base.{
  int_lt, ℕ, zero, suc, ◌+◌, ◌-◌, ◌*◌, ◌/◌, ◌%◌, ◌^◌, Bool, true, false, ◌&&◌, ◌||◌, ltb, leb, ◌==◌,
  ◌!=◌, if◌then◌else◌, List, [], ◌∷◌, ◌++◌, Option, none, some, length, get_or, replicate, is_neg,
  neg_one, sub32, u32_mod, bit_and, bit_or,
}
use razos.Ctype.{isdigit}
use mathlib.Core.Option

-- The flags of printf.
abbrev pub fl_sign : ℕ
fl_sign = 0x01

abbrev pub fl_left_justify : ℕ
fl_left_justify = 0x02

abbrev pub fl_plus : ℕ
fl_plus = 0x04

abbrev pub fl_space : ℕ
fl_space = 0x08

abbrev pub fl_special : ℕ
fl_special = 0x10

abbrev pub fl_zeropad : ℕ
fl_zeropad = 0x20

abbrev pub fl_small : ℕ
fl_small = 0x40

-- `flags & mask` as a condition.
abbrev pub flagged : ℕ → ℕ → Bool
flagged flags mask = bit_and flags mask != 0

-- The loop of `atoi_ptr` from the value `i` on: the number, and where the pointer stops.
unfoldable pub atoi_loop : ℕ → List ℕ → ℕ × List ℕ
atoi_loop i [] = (i, [])
atoi_loop i (c ∷ str) =
    let rest = atoi_loop (sub32 (i * 10 % u32_mod + c) b'0') str in
    if isdigit c != 0 then rest else (i, c ∷ str)

unfoldable pub atoi_ptr : List ℕ → ℕ × List ℕ
atoi_ptr str = atoi_loop 0 str

-- `digs[d]`
unfoldable pub digs : (small : Bool) → ℕ → ℕ
digs small d = if ltb d 10 then b'0' + d else (if small then b'a' else b'A') + (d - 10)

-- The loop that stores the digits, the lowest first, in `tmp`; 32 rounds are enough.
unfoldable pub digit_loop : (fuel : ℕ) (small : Bool) (base num : ℕ) → Option (List ℕ)
digit_loop zero small base num = if num == 0 then some [] else none
digit_loop (suc fuel) small base num =
    let rest = digit_loop fuel small base (num / base) in
    if num == 0 then some [] else Option.map (λ tmp. digs small (num % base) ∷ tmp) rest

unfoldable pub digits_of : (small : Bool) (base num : ℕ) → Option (List ℕ)
digits_of small base num = if num == 0 then some (b'0' ∷ []) else digit_loop 32 small base num

-- `while (width-- > 0) *str++ = c`: what it stores, and what it leaves in `width`.
abbrev pub pad : ℕ → ℕ → List ℕ
pad width c = if is_neg width then [] else replicate width c

abbrev pub after_pad : ℕ → ℕ
after_pad width = sub32 (if is_neg width then width else 0) 1

-- `while (i-- > 0) *str++ = tmp[i]`
unfoldable pub backwards : List ℕ → List ℕ
backwards [] = []
backwards (d ∷ tmp) = backwards tmp ++ (d ∷ [])

abbrev negative : ℕ → ℕ → Bool
negative number flags = flagged flags fl_sign && is_neg number

abbrev pub sign_of : ℕ → ℕ → ℕ
sign_of number flags =
    if negative number flags
    then b'-'
    else if flagged flags fl_plus
    then b'+'
    else if flagged flags fl_space
    then b' '
    else 0

abbrev pub num_of : ℕ → ℕ → ℕ
num_of number flags = if negative number flags then sub32 0 number else number

-- What stands before the digits of an octal or hexadecimal number.
abbrev pub prefix_of : ℕ → ℕ → List ℕ
prefix_of base flags =
    if flagged flags fl_special
    then (if base == 8
        then b'0' ∷ []
        else if base == 16
        then b'0' ∷ digs (flagged flags fl_small) 33 ∷ []
        else [])
    else []

-- The width that is left for the digits and the padding.
abbrev pub width_left : ℕ → ℕ → ℕ → ℕ → ℕ
width_left base width sign flags =
    let width = if is_neg width then sub32 0 width else width in
    let width = if sign != 0 then sub32 width 1 else width in
    if flagged flags fl_special
    then (if base == 16 then sub32 width 2 else if base == 8 then sub32 width 1 else width)
    else width

-- From the first padding on: `plain` is its test, and the text before and behind the second
-- padding is given.
unfoldable pub spread : (left zeropad plain : Bool) (width : ℕ) (head body : List ℕ) → List ℕ
spread left zeropad plain width head body =
    let before = if plain then [] else pad width b' ' in
    let width1 = if plain then width else after_pad width in
    let c = if zeropad then b'0' else b' ' in
    let inner = if left then [] else pad width1 c in
    let width2 = if left then width1 else after_pad width1 in
    before ++ (head ++ (inner ++ (body ++ pad width2 b' ')))

-- From the comparison of `i` with `prec` on, with the digits in `tmp`.
unfoldable pub lay_out : ℕ → ℕ → ℕ → ℕ → ℕ → List ℕ → List ℕ
lay_out base width sign prec flags tmp =
    let i = length tmp in
    let prec = if int_lt prec i then i else prec in
    spread (flagged flags fl_left_justify) (flagged flags fl_zeropad)
      (flagged flags (fl_left_justify + fl_zeropad)) (sub32 width prec)
      ((if sign != 0 then sign ∷ [] else []) ++ prefix_of base flags)
      (replicate (prec - i) b'0' ++ backwards tmp)

-- `numstr`: what it stores, or `none` where it returns 0.
unfoldable pub numstr : (number base width prec flags : ℕ) → Option (List ℕ)
numstr number base width prec flags =
    let sign = sign_of number flags in
    let stored =
      Option.map (lay_out base (width_left base width sign flags) sign prec flags)
        (digits_of (flagged flags fl_small) base (num_of number flags)) in
    if int_lt base 2 || int_lt 36 base then none else stored
