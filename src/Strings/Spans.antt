-- ===== src/Strings/Spans.antt =====
-- `strpbrk`, `strcspn` and `strspn` of kernel/lib/string.c.
use razos.Base.{
  ℕ, suc, ◌+◌, ◌<◌, ◌≤◌, ◌≡◌, refl, arith, true, false, List, [], ◌∷◌, length, take, drop, get_or,
  none, some, if◌then◌else◌, ltb, Bool-cases, inl, inr,
}
use razos.Strings.{among, matches, strpbrk, strcspn, strspn}

abbrev pub AllOutside : List ℕ → List ℕ → Type 0
AllOutside set [] = Unit
AllOutside set (c ∷ xs) = (among c set ≡ false) × AllOutside set xs

-- `strcspn` is the length of the longest start of the string that has no byte of the set: its bytes
-- are all outside, and the byte behind it, unless the string ends there, is inside.
pub strcspn_lem :
    (str set : List ℕ)
    → let n = strcspn str set in
      (n ≤ length str)
      × AllOutside set (take n str)
      × (n < length str → among (get_or str n 0) set ≡ true)
unfolding strcspn
strcspn_lem [] set = (omega arith, tt, λ h. absurd (omega arith))
strcspn_lem (c ∷ str) set = elim (Bool-cases (among c set)) [
  | inl e ↦ rw (e, strcspn) (omega arith, tt, λ h. e)
  | inr e ↦
      (let (a, b, d) = strcspn_lem str set in
        rw (e, strcspn) (omega arith, (e, b), λ h. d (omega arith)))
]

-- `strpbrk` points where `strcspn` stops, and is NULL if that is the end of the string.
pub strpbrk-strcspn :
    (str set : List ℕ)
    → strpbrk str set
      ≡ (if ltb (strcspn str set) (length str) then some (strcspn str set) else none)
unfolding strpbrk strcspn
strpbrk-strcspn [] set = refl
strpbrk-strcspn (c ∷ str) set = ground (arith, strpbrk-strcspn str set)

-- The length of the longest start of the string that has only bytes of the set, which is what
-- <string.h> asks of `strspn`.
pub span : List ℕ → List ℕ → ℕ
span [] set = 0
span (c ∷ str) set = let rest = suc (span str set) in if among c set then rest else 0

-- No byte stands in the set twice.
abbrev pub NoRepeats : List ℕ → Type 0
NoRepeats [] = Unit
NoRepeats (t ∷ set) = (among t set ≡ false) × NoRepeats set

matches-among :
    (c : ℕ) (set : List ℕ) → NoRepeats set → matches c set ≡ (if among c set then 1 else 0)
unfolding matches among
matches-among c [] h = refl
matches-among c (t ∷ set) (a, h) = ground (arith, matches-among c set h)

-- The bytes of the string in the set, wherever they stand.
pub members : List ℕ → List ℕ → ℕ
members [] set = 0
members (c ∷ str) set = (if among c set then 1 else 0) + members str set

-- Over a set without repetitions `strspn` counts the bytes of the string that are in the set; it
-- is never less than the length of the span, and it is that length only if no byte behind the span is
-- in the set.
pub strspn_lem :
    (str set : List ℕ)
    → NoRepeats set
    → (strspn str set ≡ members str set)
      × (strspn str set ≡ span str set + members (drop (span str set) str) set)
unfolding strspn members span
strspn_lem [] set h = (refl, refl)
strspn_lem (c ∷ str) set h = elim (Bool-cases (among c set)) [
  | inl e ↦ ground (arith, matches-among c set h, strspn_lem str set h)
  | inr e ↦ ground (arith, matches-among c set h, strspn_lem str set h)
]
