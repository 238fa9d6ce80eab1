-- ===== src/Format/Items/Flags.antt =====
-- How `vsprintf` reads the flags of a directive, bit by bit.
use razos.Base.{
  ℕ, ◌≡◌, refl, ap, ◌∙◌, sym, arith, Bool, true, false, not, ◌||◌, ◌&&◌, ◌==◌, List, [], ◌∷◌,
  bit_or,
}
use razos.Format.{fl_sign, fl_left_justify, fl_plus, fl_space, fl_special, fl_zeropad}
use razos.Format.Printer.{settle}
use razos.Format.Items.{
  Flag, left, zeros, plus, blank, special, has, flag_word, Directive, flags_of,
}

abbrev pub add_flag : ℕ → Flag → ℕ
add_flag f left = bit_or f fl_left_justify
add_flag f zeros = bit_or f fl_zeropad
add_flag f plus = bit_or (bit_or f fl_plus) fl_sign
add_flag f blank = bit_or f fl_space
add_flag f special = bit_or f fl_special

abbrev pub flags_from : ℕ → List Flag → ℕ
flags_from f [] = f
flags_from f (x ∷ fs) = flags_from (add_flag f x) fs

-- A test of a Boolean that holds for both holds for each.
abbrev both : (Bool → Bool) → Bool
both f = f true && f false

both_lem : (f : Bool → Bool) → both f ≡ true → (x : Bool) → f x ≡ true
both_lem f h true = ground (arith, h)
both_lem f h false = ground (arith, h)

abbrev all_flags : (Bool → Bool → Bool → Bool → Bool → Bool) → Bool
all_flags f = both (λ l. both (λ z. both (λ p. both (λ b. both (λ s. f l z p b s)))))

all_flags_lem :
    (f : Bool → Bool → Bool → Bool → Bool → Bool)
    → all_flags f ≡ true
    → (l z p b s : Bool) → f l z p b s ≡ true
all_flags_lem f h l z p b s =
    both_lem (λ s. f l z p b s)
      (both_lem (λ b. both (λ s. f l z p b s))
        (both_lem (λ p. both (λ b. both (λ s. f l z p b s)))
          (both_lem (λ z. both (λ p. both (λ b. both (λ s. f l z p b s))))
            (both_lem (λ l. both (λ z. both (λ p. both (λ b. both (λ s. f l z p b s))))) h l) z)
          p)
        b)
      s

abbrev with_flag : Flag → (l z p b s : Bool) → ℕ
with_flag left l z p b s = flag_word true z p b s
with_flag zeros l z p b s = flag_word l true p b s
with_flag plus l z p b s = flag_word l z true b s
with_flag blank l z p b s = flag_word l z p true s
with_flag special l z p b s = flag_word l z p b true

adds :
    (f : Flag)
    → all_flags (λ l z p b s. add_flag (flag_word l z p b s) f == with_flag f l z p b s) ≡ true
adds left = refl
adds zeros = refl
adds plus = refl
adds blank = refl
adds special = refl

same_word : (a b : ℕ) → (a == b) ≡ true → a ≡ b
same_word a b h = ground (arith, h)

add_flag_lem :
    (f : Flag) (l z p b s : Bool) → add_flag (flag_word l z p b s) f ≡ with_flag f l z p b s
add_flag_lem f l z p b s =
    let same =
      all_flags_lem (λ l z p b s. add_flag (flag_word l z p b s) f == with_flag f l z p b s)
        (adds f) l z p b s in
    same_word (add_flag (flag_word l z p b s) f) (with_flag f l z p b s) same

settles :
    all_flags
      (λ l z p b s. settle (flag_word l z p b s) == flag_word l (z && not l) p (b && not p) s)
    ≡ true
settles = refl

settle_lem :
    (l z p b s : Bool) → settle (flag_word l z p b s) ≡ flag_word l (z && not l) p (b && not p) s
settle_lem l z p b s =
    same_word (settle (flag_word l z p b s)) (flag_word l (z && not l) p (b && not p) s) (
      all_flags_lem
        (λ l z p b s. settle (flag_word l z p b s) == flag_word l (z && not l) p (b && not p) s)
        settles l z p b s)

or_true : (x y : Bool) → x || (true || y) ≡ true || y
or_true true y = refl
or_true false y = refl

or_false : (x : Bool) → x || false ≡ x
or_false true = refl
or_false false = refl

flags_from_lem :
    (fs : List Flag) (l z p b s : Bool)
    → flags_from (flag_word l z p b s) fs
      ≡ flag_word
          (l || has left fs)
          (z || has zeros fs)
          (p || has plus fs)
          (b || has blank fs)
          (s || has special fs)
flags_from_lem [] l z p b s = rw (or_false l, or_false z, or_false p, or_false b, or_false s) refl
flags_from_lem (left ∷ fs) l z p b s =
    ap (λ w. flags_from w fs) (add_flag_lem left l z p b s)
    ∙ flags_from_lem fs true z p b s
    ∙ ap
        (λ x.
          flag_word x (z || has zeros fs) (p || has plus fs) (b || has blank fs)
            (s || has special fs))
        (sym (or_true l (has left fs)))
flags_from_lem (zeros ∷ fs) l z p b s =
    ap (λ w. flags_from w fs) (add_flag_lem zeros l z p b s)
    ∙ flags_from_lem fs l true p b s
    ∙ ap
        (λ x.
          flag_word (l || has left fs) x (p || has plus fs) (b || has blank fs)
            (s || has special fs))
        (sym (or_true z (has zeros fs)))
flags_from_lem (plus ∷ fs) l z p b s =
    ap (λ w. flags_from w fs) (add_flag_lem plus l z p b s)
    ∙ flags_from_lem fs l z true b s
    ∙ ap
        (λ x.
          flag_word (l || has left fs) (z || has zeros fs) x (b || has blank fs)
            (s || has special fs))
        (sym (or_true p (has plus fs)))
flags_from_lem (blank ∷ fs) l z p b s =
    ap (λ w. flags_from w fs) (add_flag_lem blank l z p b s)
    ∙ flags_from_lem fs l z p true s
    ∙ ap
        (λ x.
          flag_word (l || has left fs) (z || has zeros fs) (p || has plus fs) x
            (s || has special fs))
        (sym (or_true b (has blank fs)))
flags_from_lem (special ∷ fs) l z p b s =
    ap (λ w. flags_from w fs) (add_flag_lem special l z p b s)
    ∙ flags_from_lem fs l z p b true
    ∙ ap
        (λ x.
          flag_word (l || has left fs) (z || has zeros fs) (p || has plus fs) (b || has blank fs) x)
        (sym (or_true s (has special fs)))

-- The flags that `vsprintf` settles on are those that the directive asks for.
pub settle-flags_of : (d : Directive) → settle (flags_from 0 d.flags) ≡ flags_of d
settle-flags_of d =
    ap settle (flags_from_lem d.flags false false false false false)
    ∙ settle_lem (has left d.flags) (has zeros d.flags) (has plus d.flags) (has blank d.flags)
        (has special d.flags)
