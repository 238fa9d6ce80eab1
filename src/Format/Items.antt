-- ===== src/Format/Items.antt =====
-- What a format means: its directives and what each of them prints.
pub mod Steps
pub mod Flags
pub mod Reading
pub mod Directives
use razos.Base.{
  ℕ, ◌+◌, ◌%◌, leb, not, ◌^◌, ◌<◌, ◌⊎◌, ◌≡◌, ◌≢◌, Bool, true, false, ◌==◌, ◌||◌, ◌&&◌,
  if◌then◌else◌, List, [], ◌∷◌, ◌++◌, Option, none, some, length, take, is_neg, neg_one, bit_or,
}
use razos.Ctype.{isdigit}
use razos.Format.{
  fl_sign, fl_left_justify, fl_plus, fl_space, fl_special, fl_zeropad, fl_small, flagged, atoi_loop,
  atoi_ptr, numstr,
}
use razos.Format.Layout.{justified, magnitude}
use razos.Format.Printer.{Arg, word, text, place}

pub data Flag : Type 0 where
  left zeros plus blank special : Flag

abbrev pub flag_char : Flag → ℕ
flag_char left = b'-'
flag_char zeros = b'0'
flag_char plus = b'+'
flag_char blank = b' '
flag_char special = b'#'

pub data Length : Type 0 where
  int long half : Length

pub data Kind : Type 0 where
  signed signed_i unsigned octal hex capital_hex : Kind

abbrev pub kind_char : Kind → ℕ
kind_char signed = b'd'
kind_char signed_i = b'i'
kind_char unsigned = b'u'
kind_char octal = b'o'
kind_char hex = b'x'
kind_char capital_hex = b'X'

abbrev pub base_of : Kind → ℕ
base_of octal = 8
base_of hex = 16
base_of capital_hex = 16
base_of _ = 10

abbrev pub kind_flags : Kind → ℕ → ℕ
kind_flags signed f = bit_or f fl_sign
kind_flags signed_i f = bit_or f fl_sign
kind_flags hex f = bit_or f fl_small
kind_flags _ f = f

-- What stands between `%` and the letter of a conversion; without digits there is no width, and
-- `none` is no precision.
pub record Directive : Type 0 where
  pub flags : List Flag
  pub width : List ℕ
  pub prec : Option (List ℕ)
  pub len : Length

abbrev pub AllDigits : List ℕ → Type 0
AllDigits [] = Unit
AllDigits (c ∷ ds) = ((isdigit c == 1) ≡ true) × AllDigits ds

-- A width begins with a digit from 1 to 9, so that it is not taken for a flag.
abbrev pub IsWidth : List ℕ → Type 0
IsWidth [] = Unit
IsWidth (c ∷ ds) = (c ≢ b'0') × AllDigits (c ∷ ds)

abbrev pub IsPrecision : Option (List ℕ) → Type 0
IsPrecision none = Unit
IsPrecision (some ds) = AllDigits ds

abbrev pub IsDirective : Directive → Type 0
IsDirective d = IsWidth d.width × IsPrecision d.prec

abbrev pub flag_chars : List Flag → List ℕ → List ℕ
flag_chars [] rest = rest
flag_chars (f ∷ fs) rest = flag_char f ∷ flag_chars fs rest

abbrev pub prec_chars : Option (List ℕ) → List ℕ → List ℕ
prec_chars none rest = rest
prec_chars (some ds) rest = b'.' ∷ ds ++ rest

abbrev pub len_chars : Length → List ℕ → List ℕ
len_chars int rest = rest
len_chars long rest = b'l' ∷ rest
len_chars half rest = b'h' ∷ rest

-- The directive as it stands in a format, with what follows it.
abbrev pub written : Directive → List ℕ → List ℕ
written d rest = b'%' ∷ flag_chars d.flags (d.width ++ prec_chars d.prec (len_chars d.len rest))

abbrev pub has : Flag → List Flag → Bool
has f [] = false
has f (g ∷ gs) = (flag_char g == flag_char f) || has f gs

-- The word of flags for the ones that hold; `+` prints the sign.
abbrev pub flag_word : (left zeros plus blank special : Bool) → ℕ
flag_word l z p b s =
    (if l then fl_left_justify else 0)
    + (if z then fl_zeropad else 0)
    + (if p then fl_plus + fl_sign else 0)
    + (if b then fl_space else 0)
    + (if s then fl_special else 0)

-- `-` overrides `0`, and `+` overrides the space.
abbrev pub flags_of : Directive → ℕ
flags_of d =
    let l = has left d.flags in
    let p = has plus d.flags in
    flag_word l (has zeros d.flags && not l) p (has blank d.flags && not p) (has special d.flags)

-- The number that digits give, if there are any.
abbrev pub number_or : ℕ → List ℕ → ℕ
number_or default' [] = default'
number_or default' (c ∷ ds) = (atoi_ptr (c ∷ ds)).0

abbrev pub width_of : Directive → ℕ
width_of d = number_or neg_one d.width

abbrev pub prec_from : ℕ → Option (List ℕ) → ℕ
prec_from default' none = default'
prec_from default' (some ds) = number_or default' ds

abbrev pub prec_of : Option (List ℕ) → ℕ
prec_of prec = prec_from neg_one prec

abbrev pub is_signed : Kind → Bool
is_signed signed = true
is_signed signed_i = true
is_signed _ = false

-- The number that an argument stands for: `h` takes the low 16 bits, of which a signed conversion extends
-- the sign to 32 bits.
abbrev pub as_length : Kind → Length → ℕ → ℕ
as_length k half w =
    let low = w % 65_536 in if is_signed k && leb 32_768 low then low + 4_294_901_760 else low
as_length k _ w = w

-- With `h` an unsigned conversion has an argument without bit 15.
abbrev pub Fits : Kind → Length → ℕ → Type 0
Fits k half w = (is_signed k ≡ true) ⊎ (w % 65_536 < 32_768)
Fits k _ w = Unit

-- The bytes of a string that a precision lets through.
abbrev pub clipped : ℕ → List ℕ → List ℕ
clipped prec s = if is_neg prec then s else take prec s

-- The bytes of a string, cut at the precision and padded with spaces to the width.
abbrev pub string_bytes : Directive → List ℕ → List ℕ
string_bytes d s =
    justified (flagged (flags_of d) fl_left_justify) false
      (if is_neg (width_of d) then 0 else width_of d) [] (clipped (prec_of d.prec) s)

-- `Prints n fmt arg out stores`: behind `n` bytes the format asks for the bytes `out` with these arguments,
-- and for the numbers `stores` in the places that `%n` names.
pub data Prints : ℕ → List ℕ → List Arg → List ℕ → List ℕ → Type 0 where
  finish : {n : ℕ} {arg : List Arg} → Prints n [] arg [] []
  literal :
      {n : ℕ} {fmt out stores : List ℕ} {arg : List Arg} (c : ℕ)
      → c ≢ b'%'
      → Prints (n + 1) fmt arg out stores
      → Prints n (c ∷ fmt) arg (c ∷ out) stores
  percent :
      {n : ℕ} {fmt out stores : List ℕ} {arg : List Arg}
      → Prints (n + 1) fmt arg out stores
      → Prints n (b'%' ∷ b'%' ∷ fmt) arg (b'%' ∷ out) stores
  number :
      {n : ℕ} {fmt out stores : List ℕ} {arg : List Arg} (d : Directive) (k : Kind) (w : ℕ)
      (bytes : List ℕ)
      → IsDirective d
      → Fits k d.len w
      → numstr
          (as_length k d.len w)
          (base_of k)
          (width_of d)
          (prec_of d.prec)
          (kind_flags k (flags_of d))
        ≡ some bytes
      → Prints (n + length bytes) fmt arg out stores
      → Prints n (written d (kind_char k ∷ fmt)) (word w ∷ arg) (bytes ++ out) stores
  string :
      {n : ℕ} {fmt out stores : List ℕ} {arg : List Arg} (d : Directive) (s : List ℕ)
      → IsDirective d
      → length s < 2 ^ 31
      → (width_of d < 2 ^ 31) ⊎ (width_of d ≡ neg_one)
      → Prints (n + length (string_bytes d s)) fmt arg out stores
      → Prints n (written d (b's' ∷ fmt)) (text (some s) ∷ arg) (string_bytes d s ++ out) stores
  count :
      {n : ℕ} {fmt out stores : List ℕ} {arg : List Arg} (d : Directive)
      → IsDirective d
      → Prints n fmt arg out stores
      → Prints n (written d (b'n' ∷ fmt)) (place ∷ arg) out (n ∷ stores)
