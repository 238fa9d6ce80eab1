-- ===== src/Memory/Tests.antt =====
-- Runs of the functions that write memory, on the first bytes of a memory that counts up.
use razos.Base.{◌≡◌, refl, arith, inr, [], ◌∷◌, some, if◌then◌else◌, ◌==◌}
use razos.Memory.{Memory, memset, memmove, strcpy}
use razos.Memory.Copy.{memset_lem, memmove_lem}
use razos.Memory.Held.{IsString, SameOutside}
use razos.Memory.Text.{strcpy_lem}

-- Each byte is its address.
abbrev counting : Memory
counting a = a

-- "hi" at 10, "!" at 20, and zeros elsewhere.
abbrev words : Memory
words a = if a == 10 then 104 else if a == 11 then 105 else if a == 20 then 33 else 0

hi-IsString : IsString words 10 (104 ∷ 105 ∷ [])
hi-IsString = ((refl, omega arith, (refl, omega arith, tt)), refl)

mark-IsString : IsString words 20 (33 ∷ [])
mark-IsString = ((refl, omega arith, tt), refl)

memset_example : memset 3 7 2 counting 4 ≡ 7
memset_example = memset_lem 3 7 2 counting 4

-- Moved up by one place, all bytes but the first.
memmove_example : memmove 4 3 3 counting 4 ≡ 4
memmove_example = memmove_lem 4 3 3 counting 4

strcpy_example :
    (g : Memory) × (strcpy 5 30 10 words ≡ some (32, g))
    × IsString g 30 (104 ∷ 105 ∷ [])
    × SameOutside 30 3 words g
strcpy_example =
    strcpy_lem 5 30 10 words (104 ∷ 105 ∷ []) (omega arith) hi-IsString (inr (omega arith))
