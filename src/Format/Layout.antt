-- ===== src/Format/Layout.antt =====
-- Where `numstr` puts the sign, the prefix, the padding and the digits.
use razos.Base.{
  int_lt, ℕ, ◌+◌, ◌-◌, ◌^◌, ◌<◌, ◌≤◌, ◌≡◌, refl, ap, arith, Bool, true, false, ◌||◌, ltb, ◌==◌,
  ◌!=◌, if◌then◌else◌, List, [], ◌∷◌, ◌++◌, none, some, length, replicate, Bool-cases, inl, ◌⊎◌,
  inr, every_below, every_below-holds, is_neg, sub32, length-append, length-replicate,
}
use mathlib.Core.List.{append-nil}
use razos.Format.{
  numstr, sign_of, num_of, fl_small, spread, flagged, fl_left_justify, fl_zeropad, fl_special, pad,
  after_pad, backwards, lay_out, prefix_of, width_left,
}
use razos.Format.Digits.{Digits, digits_of_lem}

-- The layout that printf asks for: at least `width` bytes; the padding is spaces behind if the text
-- is justified to the left, zeros between the prefix and the digits if the flag for zeros is set, and spaces
-- in front if neither is.
unfoldable pub justified : (left zeropad : Bool) (width : ℕ) (head body : List ℕ) → List ℕ
justified left zeropad width head body =
    let gap = width - length (head ++ body) in
    if left
    then head ++ (body ++ replicate gap b' ')
    else if zeropad
    then head ++ (replicate gap b'0' ++ body)
    else replicate gap b' ' ++ (head ++ body)

-- The digits, at least `prec` of them; no precision is a negative one.
unfoldable pub digits_text : ℕ → List ℕ → List ℕ
digits_text prec tmp =
    replicate ((if is_neg prec then 0 else prec) - length tmp) b'0' ++ backwards tmp

-- The sign and the prefix.
unfoldable pub head_text : ℕ → ℕ → ℕ → List ℕ
head_text base sign flags = (if sign != 0 then sign ∷ [] else []) ++ prefix_of base flags

-- An `int` that is negative or small enough to stay away from an overflow.
abbrev pub IsModest : ℕ → Type 0
IsModest w = (w < 2 ^ 30) ⊎ ((2 ^ 31 ≤ w) × (w < 2 ^ 32))

-- A width says how wide, whatever its sign.
abbrev pub magnitude : ℕ → ℕ
magnitude width = if is_neg width then sub32 0 width else width

length-backwards : (tmp : List ℕ) → length (backwards tmp) ≡ length tmp
unfolding backwards
length-backwards [] = refl
length-backwards (d ∷ tmp) =
    omega (arith, length-append (backwards tmp) (d ∷ []), length-backwards tmp)

flags_table :
    every_below 256 (λ f.
      (if flagged f (fl_left_justify + fl_zeropad) then 1 else 0)
      == (if flagged f fl_left_justify || flagged f fl_zeropad then 1 else 0))
    ≡ true
unfolding every_below
flags_table = refl

both_flags :
    (f : ℕ)
    → f < 256
    → flagged f (fl_left_justify + fl_zeropad) ≡ (flagged f fl_left_justify || flagged f fl_zeropad)
both_flags f h = ground (arith, every_below-holds 256 _ f flags_table h)

length-head_text :
    (base sign flags : ℕ)
    → length (head_text base sign flags)
      ≡ (if sign != 0 then 1 else 0)
        + (if flagged flags fl_special
            then if base == 16 then 2 else if base == 8 then 1 else 0
            else 0)
unfolding head_text
length-head_text base sign flags = ground arith

width_left_lem :
    (base width sign flags : ℕ)
    → magnitude width < 2 ^ 30
    → width_left base width sign flags
      ≡ sub32 (magnitude width) (length (head_text base sign flags))
width_left_lem base width sign flags h = ground (arith, length-head_text base sign flags)

head_text-le : (base sign flags : ℕ) → length (head_text base sign flags) ≤ 3
head_text-le base sign flags = ground (arith, length-head_text base sign flags)

-- The precision that `numstr` works with.
abbrev full : ℕ → ℕ → ℕ
full prec i = if int_lt prec i then i else prec

full_lem :
    (prec i : ℕ)
    → IsModest prec
    → i ≤ 32
    → (full prec i - i ≡ (if is_neg prec then 0 else prec) - i)
      × (i ≤ full prec i)
      × (full prec i < 2 ^ 30)
full_lem prec i (inl h) b = ground arith
full_lem prec i (inr h) b = ground arith

-- What is left of the width, once the text of `k + p` bytes is taken off.
abbrev remaining : ℕ → ℕ → ℕ → ℕ
remaining width k p = sub32 (sub32 width k) p

pad-remaining :
    (width k p c : ℕ)
    → width < 2 ^ 30
    → k ≤ 3
    → p < 2 ^ 30
    → pad (remaining width k p) c ≡ replicate (width - (k + p)) c
pad-remaining width k p c h k' p' = elim (Bool-cases (ltb (width) (k + p))) [
  | inl e ↦
      (let neg : is_neg (remaining width k p) ≡ true = ground arith in
        let none_left : width - (k + p) ≡ 0 = ground arith in rw (neg, none_left) refl)
  | inr e ↦
      (let same : remaining width k p ≡ width - (k + p) = ground arith in
        let pos : is_neg (width - (k + p)) ≡ false = ground arith in rw (same, pos) refl)
]

-- A loop over the width leaves nothing for the next ones.
spent :
    (width k p c : ℕ)
    → width < 2 ^ 30
    → k ≤ 3
    → p < 2 ^ 30
    → (pad (after_pad (remaining width k p)) c ≡ [])
      × (pad (after_pad (after_pad (remaining width k p))) c ≡ [])
spent width k p c h k' p' =
    let once : is_neg (after_pad (remaining width k p)) ≡ true = ground arith in
    let twice : is_neg (after_pad (after_pad (remaining width k p))) ≡ true = ground arith in
    (rw once refl, rw twice refl)

length-digits_text :
    (prec : ℕ) (tmp : List ℕ)
    → IsModest prec
    → length tmp ≤ 32
    → length (digits_text prec tmp) ≡ full prec (length tmp)
unfolding digits_text
length-digits_text prec tmp m h =
    let (rest, above, below) = full_lem prec (length tmp) m h in
    omega (
      arith,
      rest,
      above,
      length-backwards tmp,
      length-append (replicate ((if is_neg prec then 0 else prec) - length tmp) b'0')
          (backwards tmp),
      length-replicate {A = ℕ} ((if is_neg prec then 0 else prec) - length tmp) b'0',
    )

spread_lem :
    (left zeropad : Bool) (width k p : ℕ) (head body : List ℕ)
    → width < 2 ^ 30
    → k ≤ 3
    → p < 2 ^ 30
    → length (head ++ body) ≡ k + p
    → spread left zeropad (left || zeropad) (remaining width k p) head body
      ≡ justified left zeropad width head body
unfolding spread justified
spread_lem true zeropad width k p head body w k' p' size =
    rw (size, pad-remaining width k p b' ' w k' p') refl
spread_lem false true width k p head body w k' p' size =
    rw
      (
        size,
        pad-remaining width k p b'0' w k' p',
        (spent width k p b' ' w k' p').0,
        append-nil body,
      )
      refl
spread_lem false false width k p head body w k' p' size =
    rw
      (
        size,
        pad-remaining width k p b' ' w k' p',
        (spent width k p b' ' w k' p').0,
        (spent width k p b' ' w k' p').1,
        append-nil body,
      )
      refl

pub lay_out_lem :
    (base width sign prec flags : ℕ) (tmp : List ℕ)
    → magnitude width < 2 ^ 30
    → IsModest prec
    → flags < 256
    → length tmp ≤ 32
    → lay_out base (width_left base width sign flags) sign prec flags tmp
      ≡ justified
          (flagged flags fl_left_justify)
          (flagged flags fl_zeropad)
          (magnitude width)
          (head_text base sign flags)
          (digits_text prec tmp)
unfolding lay_out head_text digits_text
lay_out_lem base width sign prec flags tmp w m f t =
    let head = head_text base sign flags in
    let k = length head in
    let p = full prec (length tmp) in
    let (rest, above, below) = full_lem prec (length tmp) m t in
    let short = head_text-le base sign flags in
    let gap : length (head ++ digits_text prec tmp) ≡ k + p =
      omega (arith, length-append head (digits_text prec tmp), length-digits_text prec tmp m t) in
    rw (width_left_lem base width sign flags w, both_flags flags f, rest)
      (spread_lem (flagged flags fl_left_justify) (flagged flags fl_zeropad) (magnitude width) k p
        head (digits_text prec tmp) w short below gap)

abbrev pub DigitText : ℕ → ℕ → ℕ → List ℕ → Type 0
DigitText number base flags tmp =
    Digits (flagged flags fl_small) base (num_of number flags) 32 tmp × (1 ≤ length tmp)

num_of-lt : (number flags : ℕ) → number < 2 ^ 32 → num_of number flags < 2 ^ 32
num_of-lt number flags h = ground arith

in_range : (base : ℕ) → 2 ≤ base → base ≤ 36 → (int_lt base 2 || int_lt 36 base) ≡ false
in_range base b b' = ground arith

-- In a base from 2 to 36, with a width that is below 2 ^ 30 on either side of 0 and a precision that is
-- negative or below 2 ^ 30, `numstr` stores the digits of the number or of its negation, at least as many as
-- the precision says, behind the sign and the prefix that the flags ask for; and it justifies that text in
-- its width as the flags say.
pub numstr_lem :
    (number base width prec flags : ℕ)
    → number < 2 ^ 32
    → 2 ≤ base
    → base ≤ 36
    → magnitude width < 2 ^ 30
    → IsModest prec
    → flags < 256
    → (tmp : List ℕ) × DigitText number base flags tmp
      × (numstr number base width prec flags
          ≡ some (
              justified
                (flagged flags fl_left_justify)
                (flagged flags fl_zeropad)
                (magnitude width)
                (head_text base (sign_of number flags) flags)
                (digits_text prec tmp)))
unfolding numstr
numstr_lem number base width prec flags n b b' w m f =
    let small = flagged flags fl_small in
    let num = num_of number flags in
    let (tmp, run, d, l) = digits_of_lem small base num b b' (num_of-lt number flags n) in
    let sign = sign_of number flags in
    (
      tmp,
      (d, l),
      rw (in_range base b b', run)
          (ap some (lay_out_lem base width sign prec flags tmp w m f d.bound)),
    )

-- Outside these bases it stores nothing and returns 0.
pub numstr_bases :
    (number base width prec flags : ℕ)
    → base < 2 ^ 32
    → (base < 2) ⊎ (36 < base)
    → numstr number base width prec flags ≡ none
unfolding numstr
numstr_bases number base width prec flags h (inl b) =
    let e : (int_lt base 2 || int_lt 36 base) ≡ true = ground arith in rw e refl
numstr_bases number base width prec flags h (inr b) =
    let e : (int_lt base 2 || int_lt 36 base) ≡ true = ground arith in rw e refl
