-- ===== src/Base/Bits.antt =====
-- Laws of `&` and `|` at variables, by induction over the binary digits of a number.
use Prim.Native.Nat.{
  ℕ, zero, suc, ◌+◌, ◌*◌, ◌/◌, ◌%◌, ◌≤◌, min, max, bit_and, bit_or, digits, bit_and-bitwise,
  bit_or-bitwise,
}
use mathlib.Core.Path.{◌≡◌, refl, ap, ap₂}
use native.Mathlib.Omega.{arith}

module _ (last : ℕ → ℕ) (op : ℕ → ℕ → ℕ) where
  abbrev put_digit : ℕ → ℕ → ℕ → ℕ
  put_digit x y high = high * 2 + op (x % 2) (y % 2)

  -- Once the count covers the number, it does not matter.
  digits-settled : (x y n m : ℕ) → x ≤ n → x ≤ m → digits last op n x y ≡ digits last op m x y
  digits-settled zero y zero zero h k = refl
  digits-settled zero y zero (suc m) h k = refl
  digits-settled zero y (suc n) zero h k = refl
  digits-settled zero y (suc n) (suc m) h k = refl
  digits-settled (suc x) y zero m h k = absurd (omega arith)
  digits-settled (suc x) y (suc n) zero h k = absurd (omega arith)
  digits-settled (suc x) y (suc n) (suc m) h k =
      ap (put_digit (suc x) y) (digits-settled (suc x / 2) (y / 2) n m (omega arith) (omega arith))

  lowest_digit :
      (x y : ℕ)
      → digits last op (suc x) (suc x) y
        ≡ put_digit (suc x) y (digits last op (suc x / 2) (suc x / 2) (y / 2))
  lowest_digit x y =
      ap (put_digit (suc x) y)
        (digits-settled (suc x / 2) (y / 2) x (suc x / 2) (omega arith) (omega arith))

no_bits-and : (y : ℕ) → bit_and 0 y ≡ 0
no_bits-and y = bit_and-bitwise 0 y

pub zero-or : (y : ℕ) → bit_or 0 y ≡ y
zero-or y = bit_or-bitwise 0 y

bit_and_digit : (x y : ℕ) → bit_and x y ≡ min (x % 2) (y % 2) + 2 * bit_and (x / 2) (y / 2)
bit_and_digit zero y = omega (arith, no_bits-and y, no_bits-and (y / 2))
bit_and_digit (suc x) y =
    let low = lowest_digit (λ d. zero) min x y in
    omega (arith, low, bit_and-bitwise (suc x / 2) (y / 2), bit_and-bitwise (suc x) y)

bit_or_digit : (x y : ℕ) → bit_or x y ≡ max (x % 2) (y % 2) + 2 * bit_or (x / 2) (y / 2)
bit_or_digit zero y = omega (arith, zero-or y, zero-or (y / 2))
bit_or_digit (suc x) y =
    let low = lowest_digit (λ d. d) max x y in
    omega (arith, low, bit_or-bitwise (suc x / 2) (y / 2), bit_or-bitwise (suc x) y)

bit_or_half : (x y : ℕ) → bit_or x y / 2 ≡ bit_or (x / 2) (y / 2)
bit_or_half x y = omega (arith, bit_or_digit x y)

bit_and_half : (x y : ℕ) → bit_and x y / 2 ≡ bit_and (x / 2) (y / 2)
bit_and_half x y = omega (arith, bit_and_digit x y)

module _ (P : ℕ → Type 0) (none_left : P 0) (from_half : (n : ℕ) → P (suc n / 2) → P (suc n)) where
  halving_below : (bound n : ℕ) → n ≤ bound → P n
  halving_below bound zero h = none_left
  halving_below zero (suc n) h = absurd (omega arith)
  halving_below (suc bound) (suc n) h = from_half n (halving_below bound (suc n / 2) (omega arith))

  -- Induction from the half of a number.
  halving : (n : ℕ) → P n
  halving n = halving_below n n (omega arith)

pub bit_and-zero : (x : ℕ) → bit_and x 0 ≡ 0
bit_and-zero =
    halving (λ x. bit_and x 0 ≡ 0) (no_bits-and 0)
      (λ n r. omega (arith, r, bit_and_digit (suc n) 0))

pub bit_or-zero : (x : ℕ) → bit_or x 0 ≡ x
bit_or-zero =
    halving (λ x. bit_or x 0 ≡ x) (zero-or 0) (λ n r. omega (arith, r, bit_or_digit (suc n) 0))

pub bit_and_assoc : (x y m : ℕ) → bit_and (bit_and x y) m ≡ bit_and x (bit_and y m)
bit_and_assoc =
    halving (λ x. (y m : ℕ) → bit_and (bit_and x y) m ≡ bit_and x (bit_and y m))
      (λ y m. rw (no_bits-and y, no_bits-and (bit_and y m), no_bits-and m))
      (λ n r y m. omega (
        arith,
        r (y / 2) (m / 2),
        bit_and_digit (bit_and (suc n) y) m,
        bit_and_digit (suc n) y,
        ap (λ t. bit_and t (m / 2)) (bit_and_half (suc n) y),
        bit_and_digit (suc n) (bit_and y m),
        bit_and_digit y m,
        ap (bit_and (suc n / 2)) (bit_and_half y m),
      ))

-- One digit of the law below, from its next ones.
distrib_digit :
    (x y m : ℕ)
    → bit_and (bit_or (x / 2) (y / 2)) (m / 2)
      ≡ bit_or (bit_and (x / 2) (m / 2)) (bit_and (y / 2) (m / 2))
    → bit_and (bit_or x y) m ≡ bit_or (bit_and x m) (bit_and y m)
distrib_digit x y m r = omega (
  arith,
  r,
  bit_and_digit (bit_or x y) m,
  bit_or_digit x y,
  ap (λ t. bit_and t (m / 2)) (bit_or_half x y),
  bit_or_digit (bit_and x m) (bit_and y m),
  bit_and_digit x m,
  bit_and_digit y m,
  ap₂ bit_or (bit_and_half x m) (bit_and_half y m),
)

pub bit_and_distrib : (x y m : ℕ) → bit_and (bit_or x y) m ≡ bit_or (bit_and x m) (bit_and y m)
bit_and_distrib =
    halving (λ x. (y m : ℕ) → bit_and (bit_or x y) m ≡ bit_or (bit_and x m) (bit_and y m))
      (λ y m. rw (zero-or y, no_bits-and m, zero-or (bit_and y m)))
      (λ n r y m. distrib_digit (suc n) y m (r (y / 2) (m / 2)))

pub bit_and_fifteen : (x : ℕ) → bit_and x 15 ≡ x % 16
bit_and_fifteen x = omega (
  arith,
  bit_and_digit x 15,
  bit_and_digit (x / 2) 7,
  bit_and_digit (x / 2 / 2) 3,
  bit_and_digit (x / 2 / 2 / 2) 1,
  bit_and-zero (x / 2 / 2 / 2 / 2),
)
