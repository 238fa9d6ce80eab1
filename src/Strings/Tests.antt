-- ===== src/Strings/Tests.antt =====
-- Runs of the functions that read strings.
use razos.Base.{ℕ, ◌+◌, ◌≡◌, refl, arith, List, [], ◌∷◌, drop}
use razos.Strings.{strspn, among}
use razos.Strings.Compare.{IsText, AreBytes}
use razos.Strings.Spans.{NoRepeats, span, members, strspn_lem}

-- "abc" and "abd"
abbrev abc : List ℕ
abc = b'a' ∷ b'b' ∷ b'c' ∷ []

abbrev abd : List ℕ
abd = b'a' ∷ b'b' ∷ b'd' ∷ []

abc-IsText : IsText abc
abc-IsText = (omega arith, omega arith, (omega arith, omega arith, (omega arith, omega arith, tt)))

abd-IsText : IsText abd
abd-IsText = (omega arith, omega arith, (omega arith, omega arith, (omega arith, omega arith, tt)))

abc-AreBytes : AreBytes abc
abc-AreBytes = (omega arith, (omega arith, (omega arith, tt)))

abd-AreBytes : AreBytes abd
abd-AreBytes = (omega arith, (omega arith, (omega arith, tt)))

c_a-NoRepeats : NoRepeats (b'c' ∷ b'a' ∷ [])
unfolding among
c_a-NoRepeats = (refl, (refl, tt))

-- Of "abc" over "ca" the span is 1, and `strspn` counts 2.
strspn_example :
    (strspn abc (b'c' ∷ b'a' ∷ []) ≡ members abc (b'c' ∷ b'a' ∷ []))
    × (strspn abc (b'c' ∷ b'a' ∷ [])
        ≡ span abc (b'c' ∷ b'a' ∷ [])
          + members (drop (span abc (b'c' ∷ b'a' ∷ [])) abc) (b'c' ∷ b'a' ∷ []))
strspn_example = strspn_lem abc (b'c' ∷ b'a' ∷ []) c_a-NoRepeats
