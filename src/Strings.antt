-- ===== src/Strings.antt =====
-- The functions of kernel/lib/string.c that only read. A C string is the list of its bytes up to
-- the terminator, so `*str == '\0'` is the end of the list; bytes are `char`s, compared as signed. A
-- pointer that is returned is its offset from the argument, and NULL is `none`.
pub mod Compare
pub mod Search
pub mod Spans
mod Tests
use razos.Base.{
  ℕ, zero, suc, ◌+◌, ◌-◌, ◌%◌, Bool, true, false, ◌&&◌, ltb, ◌==◌, if◌then◌else◌, List, [], ◌∷◌,
  Option, none, some, length, neg_one, sub32, drop, get_or,
}
use mathlib.Core.Option

-- `a < b` on signed bytes.
abbrev pub char_lt : ℕ → ℕ → Bool
char_lt a b = ltb ((a + 128) % 256) ((b + 128) % 256)

-- `*str`
abbrev pub first : List ℕ → ℕ
first [] = 0
first (x ∷ xs) = x

-- The loop of `strcmp`.
unfoldable pub cmp_loop : List ℕ → List ℕ → ℕ
cmp_loop [] ys = if char_lt 0 (first ys) then neg_one else if char_lt (first ys) 0 then 1 else 0
cmp_loop (x ∷ xs) ys =
    let rest = cmp_loop xs (drop 1 ys) in
    if char_lt x (first ys) then neg_one else if char_lt (first ys) x then 1 else rest

-- Strings of different lengths are told apart by the lengths alone.
unfoldable pub strcmp : List ℕ → List ℕ → ℕ
unfolding cmp_loop
strcmp str1 str2 =
    let diff = sub32 (length str1) (length str2) in if diff == 0 then cmp_loop str1 str2 else diff

-- The loop of `strncmp` with `num` rounds left; `len1` and `len2` fall with the pointers.
pub ncmp_loop : ℕ → List ℕ → ℕ → List ℕ → ℕ → ℕ
ncmp_loop zero str1 len1 str2 len2 = 0
ncmp_loop (suc num) str1 len1 str2 len2 =
    let rest = ncmp_loop num (drop 1 str1) (len1 - 1) (drop 1 str2) (len2 - 1) in
    if ltb len1 (suc num) && ltb len1 len2
    then neg_one
    else if ltb len2 (suc num) && ltb len2 len1
    then 1
    else if char_lt (first str1) (first str2)
    then neg_one
    else if char_lt (first str2) (first str1)
    then 1
    else if first str1 == 0
    then 0
    else rest

unfoldable pub strncmp : List ℕ → List ℕ → ℕ → ℕ
unfolding ncmp_loop
strncmp str1 str2 num = ncmp_loop num str1 (length str1) str2 (length str2)

-- The regions are lists of at least `num` bytes.
unfoldable pub memcmp : ℕ → List ℕ → List ℕ → ℕ
memcmp zero ptr1 ptr2 = 0
memcmp (suc num) ptr1 ptr2 =
    let rest = memcmp num (drop 1 ptr1) (drop 1 ptr2) in
    if char_lt (first ptr1) (first ptr2)
    then neg_one
    else if char_lt (first ptr2) (first ptr1)
    then 1
    else rest

unfoldable pub memchr : ℕ → List ℕ → ℕ → Option ℕ
memchr zero ptr value = none
memchr (suc num) ptr value =
    let rest = memchr num (drop 1 ptr) value in
    if first ptr == value then some 0 else Option.map suc rest

unfoldable pub strchr : List ℕ → ℕ → Option ℕ
strchr [] value = none
strchr (x ∷ str) value =
    let rest = strchr str value in if x == value then some 0 else Option.map suc rest

-- The loop of `strrchr` from the terminator down, at offset `n`.
rchr_loop : ℕ → List ℕ → ℕ → Option ℕ
rchr_loop zero str value = if get_or str 0 0 == value then some 0 else none
rchr_loop (suc n) str value =
    let rest = rchr_loop n str value in if get_or str (suc n) 0 == value then some (suc n) else rest

unfoldable pub strrchr : List ℕ → ℕ → Option ℕ
unfolding rchr_loop
strrchr str value = rchr_loop (length str) str value

-- The inner loop of `strpbrk` and `strcspn`: is the byte among those of `str2`?
pub among : ℕ → List ℕ → Bool
among c [] = false
among c (t ∷ str2) = if c == t then true else among c str2

unfoldable pub strpbrk : List ℕ → List ℕ → Option ℕ
unfolding among
strpbrk [] str2 = none
strpbrk (c ∷ str1) str2 =
    let rest = strpbrk str1 str2 in if among c str2 then some 0 else Option.map suc rest

unfoldable pub strcspn : List ℕ → List ℕ → ℕ
unfolding among
strcspn [] str2 = 0
strcspn (c ∷ str1) str2 = let rest = strcspn str1 str2 in if among c str2 then 0 else suc rest

-- The inner loop of `strspn`: it counts, and does not stop.
pub matches : ℕ → List ℕ → ℕ
matches c [] = 0
matches c (t ∷ str2) = (if t == c then 1 else 0) + matches c str2

unfoldable pub strspn : List ℕ → List ℕ → ℕ
unfolding matches
strspn [] str2 = 0
strspn (c ∷ str1) str2 = matches c str2 + strspn str1 str2
