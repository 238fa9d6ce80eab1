-- ===== src/Strings/Search.antt =====
-- Where `memchr`, `strchr` and `strrchr` find a byte.
use razos.Base.{
  ℕ, zero, suc, ◌<◌, ◌≤◌, ◌≡◌, ◌≢◌, arith, false, List, [], ◌∷◌, length, take, get_or, Option, none,
  some, ◌==◌, Bool-cases, inl, inr,
}
use mathlib.Core.Option
use native.Mathlib.Decide.{dec_le}
use razos.Strings.{strchr, memchr, rchr_loop, strrchr}

-- No byte of the list is the value.
abbrev pub Without : ℕ → List ℕ → Type 0
Without value [] = Unit
Without value (x ∷ xs) = (x ≢ value) × Without value xs

-- A first occurrence, or none.
abbrev pub FirstAt : ℕ → List ℕ → Option ℕ → Type 0
FirstAt value xs none = Without value xs
FirstAt value xs (some i) = (i < length xs) × (get_or xs i 0 ≡ value) × Without value (take i xs)

FirstAt-suc :
    (value x : ℕ) (xs : List ℕ) (o : Option ℕ)
    → x ≢ value
    → FirstAt value xs o
    → FirstAt value (x ∷ xs) (Option.map suc o)
FirstAt-suc value x xs none ne h = (ne, h)
FirstAt-suc value x xs (some i) ne h = (omega arith, h.1, (ne, h.2))

-- `strchr` returns the first place of a byte other than 0 in a string, and NULL if it has none.
pub strchr_lem : (str : List ℕ) (value : ℕ) → FirstAt value str (strchr str value)
unfolding strchr
strchr_lem [] value = tt
strchr_lem (x ∷ str) value = elim (Bool-cases (x == value)) [
  | inl e ↦ rw (e, strchr) (omega arith, ground arith, tt)
  | inr e ↦
      rw (e, strchr)
        (FirstAt-suc value x str (strchr str value) (ground arith) (strchr_lem str value))
]

-- `memchr` returns the first place of a byte in the first `num` bytes of a region that has them, and NULL if they
-- do not have it.
pub memchr_lem :
    (num : ℕ) (p : List ℕ) (value : ℕ)
    → num ≤ length p
    → FirstAt value (take num p) (memchr num p value)
unfolding memchr
memchr_lem zero p value h = tt
memchr_lem (suc num) [] value h = absurd (omega arith)
memchr_lem (suc num) (x ∷ p) value h = elim (Bool-cases (x == value)) [
  | inl e ↦ rw (e, memchr) (omega arith, ground arith, tt)
  | inr e ↦
      rw (e, memchr)
        (FirstAt-suc value x (take num p) (memchr num p value) (ground arith)
          (memchr_lem num p value (omega arith)))
]

-- A last occurrence among the bytes up to and with the terminator, or none.
abbrev pub LastAt : ℕ → List ℕ → ℕ → Option ℕ → Type 0
LastAt value str n none = (j : ℕ) → j ≤ n → get_or str j 0 ≢ value
LastAt value str n (some i) =
    (i ≤ n) × (get_or str i 0 ≡ value) × ((j : ℕ) → i < j → j ≤ n → get_or str j 0 ≢ value)

below_suc :
    (str : List ℕ) (value n j : ℕ)
    → get_or str (suc n) 0 ≢ value
    → (j ≤ n → get_or str j 0 ≢ value)
    → j ≤ suc n
    → get_or str j 0 ≢ value
below_suc str value n j ne h l = elim (dec_le j n) [
  | yes p ↦ h p
  | no p ↦ let e : j ≡ suc n = omega arith in rw e ne
]

LastAt-suc :
    (str : List ℕ) (value n : ℕ) (o : Option ℕ)
    → get_or str (suc n) 0 ≢ value
    → LastAt value str n o
    → LastAt value str (suc n) o
LastAt-suc str value n none ne h = λ j. below_suc str value n j ne (h j)
LastAt-suc str value n (some i) ne (a, b, c) =
    (omega arith, b, λ j lo. below_suc str value n j ne (c j lo))

rchr_loop_lem : (n : ℕ) (str : List ℕ) (value : ℕ) → LastAt value str n (rchr_loop n str value)
unfolding rchr_loop
rchr_loop_lem zero str value = elim (Bool-cases (get_or str 0 0 == value)) [
  | inl e ↦ rw (e, rchr_loop) (omega arith, ground arith, λ j a b. absurd (omega arith))
  | inr e ↦ rw (e, rchr_loop) (λ j h. ne_zero j h e)
]
  where
    ne_zero : (j : ℕ) → j ≤ 0 → (get_or str 0 0 == value) ≡ false → get_or str j 0 ≢ value
    ne_zero zero h e = ground arith
    ne_zero (suc j) h e = absurd (omega arith)
rchr_loop_lem (suc n) str value = elim (Bool-cases (get_or str (suc n) 0 == value)) [
  | inl e ↦ rw (e, rchr_loop) (omega arith, ground arith, λ j a b. absurd (omega arith))
  | inr e ↦
      rw (e, rchr_loop)
        (LastAt-suc str value n (rchr_loop n str value) (ground arith) (rchr_loop_lem n str value))
]

-- `strrchr` returns the last place of a byte, the terminator included, and NULL if there is none.
pub strrchr_lem : (str : List ℕ) (value : ℕ) → LastAt value str (length str) (strrchr str value)
unfolding strrchr
strrchr_lem str value = rchr_loop_lem (length str) str value
