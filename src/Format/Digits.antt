-- ===== src/Format/Digits.antt =====
-- The digits that `numstr` stores, and `atoi_ptr` reading them back.
use razos.Base.{
  ℕ, zero, suc, ◌+◌, ◌-◌, ◌*◌, ◌/◌, ◌%◌, ◌^◌, ◌<◌, ◌≤◌, ◌≡◌, refl, ap, ◌∙◌, arith, Bool, true,
  false, ltb, ◌==◌, ◌!=◌, if◌then◌else◌, List, [], ◌∷◌, ◌++◌, some, length, Bool-cases, inl, inr,
  sub32, u32_mod,
}
use razos.Ctype.{isdigit}
use razos.Format.{atoi_loop, digs, digit_loop, digits_of, backwards}
use mathlib.Core.List.{append_assoc}
use native.Mathlib.Nat.{div-add-mod}

-- The value of a digit of any base, on either alphabet.
pub value : ℕ → ℕ
value c = if ltb c b'A' then c - b'0' else if ltb c b'a' then c - b'A' + 10 else c - b'a' + 10

value-digs : (small : Bool) (d : ℕ) → d < 36 → value (digs small d) ≡ d
unfolding value digs
value-digs true d h = ground arith
value-digs false d h = ground arith

-- The number that digits stand for, the lowest first.
pub number_of : ℕ → List ℕ → ℕ
number_of base [] = 0
number_of base (c ∷ tmp) = value c + base * number_of base tmp

abbrev pub AreDigits : Bool → ℕ → List ℕ → Type 0
AreDigits small base [] = Unit
AreDigits small base (c ∷ tmp) =
    ((d : ℕ) × (d < base) × (c ≡ digs small d)) × AreDigits small base tmp

pub record Digits (small : Bool) (base num rounds : ℕ) (tmp : List ℕ) : Type 0 where
  pub chars : AreDigits small base tmp
  pub sum : number_of base tmp ≡ num
  pub bound : length tmp ≤ rounds

half_bound :
    (base num r : ℕ) → 2 ≤ base → num < 2 ^ suc r → (num / base < 2 ^ r) × (num % base < base)
half_bound base num r b h = let e = div-add-mod num base in (grind (arith, e), omega arith)

one_zero : (base : ℕ) → value b'0' + base * 0 ≡ 0
unfolding value
one_zero base = omega arith

zero_digit : (small : Bool) → b'0' ≡ digs small 0
unfolding digs
zero_digit small = refl

nonempty :
    (base num : ℕ) (tmp : List ℕ) → number_of base tmp ≡ num → (num == 0) ≡ false → 1 ≤ length tmp
unfolding number_of
nonempty base num [] s e = ground arith
nonempty base num (c ∷ tmp) s e = omega arith

pub digit_loop_lem :
    (rounds : ℕ) (small : Bool) (base num : ℕ)
    → 2 ≤ base
    → base ≤ 36
    → num < 2 ^ rounds
    → (tmp : List ℕ) × (digit_loop rounds small base num ≡ some tmp)
      × Digits small base num rounds tmp
unfolding digit_loop number_of
digit_loop_lem zero small base num b b' h =
    ([], ground arith, record { chars = tt; sum = omega arith; bound = omega arith })
digit_loop_lem (suc rounds) small base num b b' h = elim (Bool-cases (num == 0)) [
  | inl e ↦ ([], rw e refl, record { chars = tt; sum = ground arith; bound = omega arith })
  | inr e ↦
      (let (small_quotient, digit) = half_bound base num rounds b h in
        let (tmp, run, d) = digit_loop_lem rounds small base (num / base) b b' small_quotient in
        (
          digs small (num % base) ∷ tmp,
          rw (e, run) refl,
          record {
            chars = ((num % base, digit, refl), d.chars);
            sum =
                grind
                  (arith, d.sum, value-digs small (num % base) (omega arith), div-add-mod num base);
            bound = omega (arith, d.bound);
          },
        ))
]

-- In every base from 2 to 36 the digits of a number below 2 ^ 32 fit into the 36 bytes of `tmp`,
-- and the loop ends with all of them.
pub digits_of_lem :
    (small : Bool) (base num : ℕ)
    → 2 ≤ base
    → base ≤ 36
    → num < 2 ^ 32
    → (tmp : List ℕ) × (digits_of small base num ≡ some tmp)
      × Digits small base num 32 tmp
      × (1 ≤ length tmp)
unfolding digits_of number_of
digits_of_lem small base num b b' h = elim (Bool-cases (num == 0)) [
  | inl e ↦ (
    b'0' ∷ [],
    rw e refl,
    record {
      chars = ((0, omega arith, zero_digit small), tt);
      sum = ground (arith, one_zero base);
      bound = omega arith;
    },
    omega arith,
  )
  | inr e ↦
      (let (tmp, run, d) = digit_loop_lem 32 small base num b b' h in
        (tmp, rw (e, run) refl, d, nonempty base num tmp d.sum e))
]

digit_step :
    (small : Bool) (j d : ℕ)
    → d < 10
    → j * 10 + d < 2 ^ 32
    → (sub32 (j * 10 % u32_mod + digs small d) b'0' ≡ j * 10 + d)
      × ((isdigit (digs small d) != 0) ≡ true)
unfolding digs isdigit
digit_step small j d h k = ground arith

-- `atoi_ptr` takes the digits of a number, the highest first, back to the number.
pub atoi-backwards :
    (small : Bool) (tmp rest : List ℕ)
    → AreDigits small 10 tmp
    → number_of 10 tmp < 2 ^ 32
    → atoi_loop 0 (backwards tmp ++ rest) ≡ atoi_loop (number_of 10 tmp) rest
unfolding atoi_loop backwards number_of
atoi-backwards small [] rest a h = refl
atoi-backwards small (c ∷ tmp) rest ((d, below, e), a) h =
    let v : value c ≡ d = rw e (value-digs small d (omega arith)) in
    let (next, digit) = digit_step small (number_of 10 tmp) d below (omega arith) in
    let total : number_of 10 tmp * 10 + d ≡ value c + 10 * number_of 10 tmp = omega arith in
    rw (append_assoc (backwards tmp) (c ∷ []) rest) (
      atoi-backwards small tmp (c ∷ rest) a (omega arith)
      ∙ rw (e, atoi_loop, digit) (ap (λ n. atoi_loop n rest) (next ∙ total ∙ rw e refl)))
