-- ===== src/Stdlib.antt =====
-- `bsearch` and `qsort` of rlibc/stdlib. An array maps the place of an element to it; a pointer is a place, and
-- `compar` returns the bit pattern of an `int`.
pub mod Bsearch
pub mod Moves
pub mod Insertion
pub mod Partition
pub mod Qsort
mod Tests
use razos.Base.{
  ℕ, zero, suc, ◌+◌, ◌-◌, ◌*◌, ◌/◌, ◌==◌, ◌!=◌, ◌&&◌, not, ltb, leb, Bool, if◌then◌else◌, Option,
  none, some, is_neg,
}
use mathlib.Core.Option

-- `pos i` is the bit pattern of the `int` that `compar` returns for the element at place i, counted in
-- elements, and the key; the result is the place of an element. `fuel` bounds the depth of the calls.
unfoldable pub bsearch : ℕ → (ℕ → ℕ) → ℕ → ℕ → Option ℕ
bsearch zero pos base nitems = none
bsearch (suc fuel) pos base nitems =
    let half = nitems / 2 in
    let middle = base + half in
    let left = bsearch fuel pos base half in
    let right = bsearch fuel pos (middle + 1) half in
    if nitems == 0
    then none
    else if is_neg (pos middle)
    then right
    else if pos middle == 0
    then some middle
    else left

abbrev pub Array : Type 0 → Type 0
Array A = ℕ → A

-- `swap(a, b, size)`: the bytes of two elements change places.
unfoldable pub swap : {A : Type 0} → Array A → ℕ → ℕ → Array A
swap a i j k = if k == i then a j else if k == j then a i else a k

-- `compar(x, y) > 0`
unfoldable pub is_above : {A : Type 0} → (A → A → ℕ) → A → A → Bool
is_above compar x y = not (is_neg (compar x y)) && (compar x y != 0)

-- The inner loop of `isort`, with `q` elements between `base` and the place that `q` points to.
unfoldable pub sink : {A : Type 0} → (A → A → ℕ) → ℕ → Array A → Array A
sink compar zero a = a
sink compar (suc q) a =
    let rest = sink compar q (swap a q (suc q)) in
    if is_above compar (a q) (a (suc q)) then rest else a

-- The outer loop of `isort`, over the places below `n`.
unfoldable pub isort : {A : Type 0} → (A → A → ℕ) → ℕ → Array A → Array A
isort compar zero a = a
isort compar (suc n) a = sink compar n (isort compar n a)

-- `lt`, `gt` and the array when the loop of `dsort` ends.
pub record Split (A : Type 0) : Type 0 where
  pub lt : ℕ
  pub gt : ℕ
  pub array : Array A

-- The loop of `dsort`: `i` and `gt` come one place nearer in each round.
unfoldable pub split_loop :
    {A : Type 0} → (A → A → ℕ) → (rounds : ℕ) → (lo hi lt i gt : ℕ) → Array A → Split A
split_loop compar zero lo hi lt i gt a = record { lt = lt; gt = gt; array = a }
split_loop compar (suc rounds) lo hi lt i gt a =
    let low = split_loop compar rounds lo hi (lt + 1) (i + 1) gt (swap a lt i) in
    let high = split_loop compar rounds lo hi lt i (gt - 1) (swap a gt i) in
    let between = split_loop compar rounds lo hi lt (i + 1) gt a in
    let none_left : Split _ = record { lt = lt; gt = gt; array = a } in
    if ltb gt i
    then none_left
    else if is_neg (compar (a i) (a lo))
    then low
    else if is_neg (compar (a hi) (a i))
    then high
    else between

-- The pivots are taken at a third and at two thirds, and put in order.
unfoldable pub pivots : {A : Type 0} → (A → A → ℕ) → ℕ → ℕ → Array A → Array A
pivots compar lo hi a =
    let b = swap a lo (lo + (hi - lo) / 3) in
    let c = swap b hi (lo + 2 * (hi - lo) / 3) in
    if is_neg (compar (c hi) (c lo)) then swap c lo hi else c

-- The three parts, with the pivots back between them.
unfoldable pub split : {A : Type 0} → (A → A → ℕ) → ℕ → ℕ → Array A → Split A
split compar lo hi a =
    let s = split_loop compar (hi - lo) lo hi (lo + 1) (lo + 1) (hi - 1) (pivots compar lo hi a) in
    record { lt = s.lt - 1; gt = s.gt + 1; array = swap (swap s.array lo (s.lt - 1)) hi (s.gt + 1) }

abbrev pub and_then : {A : Type 0} → Option A → (A → Option A) → Option A
and_then none f = none
and_then (some a) f = f a

-- `dsort(lo, hi)`, where `stop` is the place behind `hi`; lists of fewer than 6 elements stay unsorted. `fuel`
-- bounds the depth of the calls.
unfoldable pub dsort : {A : Type 0} → (A → A → ℕ) → ℕ → ℕ → ℕ → Array A → Option (Array A)
dsort {A} compar zero lo stop a = if ltb stop (lo + 6) then some a else none
dsort {A} compar (suc fuel) lo stop a =
    let s = split compar lo (stop - 1) a in
    let below = dsort compar fuel lo s.lt s.array in
    let middle : Array A → Option (Array A) = λ b.
      let sorted = dsort compar fuel (s.lt + 1) s.gt b in
      if is_neg (compar (b s.lt) (b s.gt)) then sorted else some b in
    let above = and_then (and_then below middle) (dsort compar fuel (s.gt + 1) stop) in
    if ltb stop (lo + 6) then some a else above

unfoldable pub qsort : {A : Type 0} → (A → A → ℕ) → ℕ → Array A → Option (Array A)
qsort compar nitems a = Option.map (isort compar nitems) (dsort compar nitems 0 nitems a)
