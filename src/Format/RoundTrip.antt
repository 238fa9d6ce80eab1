-- ===== src/Format/RoundTrip.antt =====
-- `atoi_ptr` of what `numstr` stores.
use razos.Base.{
  ℕ, zero, suc, ◌-◌, ◌^◌, ◌<◌, ◌≡◌, refl, ap, ◌∙◌, arith, Bool, false, List, [], ◌∷◌, ◌++◌, some,
  length, replicate, is_neg, if◌then◌else◌,
}
use mathlib.Core.List.{append_assoc}
use razos.Ctype.{isdigit}
use razos.Format.{atoi_loop, atoi_ptr, fl_zeropad, numstr, backwards}
use razos.Format.Digits.{AreDigits, number_of, atoi-backwards}
use razos.Format.Layout.{IsModest, magnitude, digits_text, justified, head_text, numstr_lem}

-- The text does not go on with a digit.
abbrev pub Stops : List ℕ → Type 0
Stops [] = Unit
Stops (c ∷ rest) = isdigit c ≡ 0

atoi-zeros : (n : ℕ) (str : List ℕ) → atoi_loop 0 (replicate n b'0' ++ str) ≡ atoi_loop 0 str
unfolding atoi_loop isdigit
atoi-zeros zero str = refl
atoi-zeros (suc n) str = atoi-zeros n str

atoi_stop : (i : ℕ) (rest : List ℕ) → Stops rest → atoi_loop i rest ≡ (i, rest)
unfolding atoi_loop
atoi_stop i [] h = refl
atoi_stop i (c ∷ rest) h = rw h refl

skip_zeros : (n : ℕ) (str : List ℕ) → atoi_ptr (replicate n b'0' ++ str) ≡ atoi_ptr str
unfolding atoi_ptr
skip_zeros n str = atoi-zeros n str

pub atoi-digits_text :
    (small : Bool) (tmp rest : List ℕ) (zeros : ℕ)
    → AreDigits small 10 tmp
    → number_of 10 tmp < 2 ^ 32
    → Stops rest
    → atoi_ptr ((replicate zeros b'0' ++ backwards tmp) ++ rest) ≡ (number_of 10 tmp, rest)
unfolding atoi_ptr
atoi-digits_text small tmp rest zeros a h s =
    rw (append_assoc (replicate zeros b'0') (backwards tmp) rest) (
      atoi-zeros zeros (backwards tmp ++ rest)
      ∙ atoi-backwards small tmp rest a h
      ∙ atoi_stop (number_of 10 tmp) rest s)

-- With the flag for zeros alone, a width that is below 2 ^ 30 on either side of 0 and a precision that
-- is negative or below 2 ^ 30, what `numstr` stores in base 10 is read by `atoi_ptr` as the number that was
-- printed, and the pointer stops behind it where no digit follows.
pub numstr-atoi_ptr :
    (number width prec : ℕ) (rest : List ℕ)
    → number < 2 ^ 32
    → magnitude width < 2 ^ 30
    → IsModest prec
    → Stops rest
    → (text : List ℕ) × (numstr number 10 width prec fl_zeropad ≡ some text)
      × (atoi_ptr (text ++ rest) ≡ (number, rest))
unfolding digits_text justified head_text
numstr-atoi_ptr number width prec rest n w m s =
    let (tmp, (d, l), run) =
      numstr_lem number 10 width prec fl_zeropad n (omega arith) (omega arith) w m (omega arith) in
    let gap = magnitude width - length (digits_text prec tmp) in
    let zeros = (if is_neg prec then 0 else prec) - length tmp in
    (
      replicate gap b'0' ++ (replicate zeros b'0' ++ backwards tmp),
      run,
      rw (append_assoc (replicate gap b'0') (replicate zeros b'0' ++ backwards tmp) rest) (
          skip_zeros gap ((replicate zeros b'0' ++ backwards tmp) ++ rest)
          ∙ atoi-digits_text false tmp rest zeros d.chars (rw d.sum n) s
          ∙ ap (λ k. (k, rest)) d.sum),
    )
