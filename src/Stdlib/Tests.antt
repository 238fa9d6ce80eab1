-- ===== src/Stdlib/Tests.antt =====
-- Numbers in order and out of order.
use razos.Base.{ℕ, ◌≡◌, refl, arith, [], ◌∷◌, get_or, ◌==◌, ltb, if◌then◌else◌, neg_one, some, none}
use razos.Stdlib.{Array, is_above, bsearch, qsort}
use razos.Stdlib.Bsearch.{IsSorted, bsearch_lem}
use razos.Stdlib.Moves.{Moved}
use razos.Stdlib.Insertion.{IsOrder, InOrder}
use razos.Stdlib.Qsort.{qsort_lem}

abbrev compare : ℕ → ℕ → ℕ
compare x y = if ltb x y then neg_one else if x == y then 0 else 1

compare-IsOrder : IsOrder compare
unfolding is_above
compare-IsOrder = record {
  one_way = λ x y h. ground (arith, h);
  chain = λ x y z h g. ground (arith, h, g);
}

abbrev numbers : Array ℕ
numbers k = get_or (5 ∷ 2 ∷ 7 ∷ 1 ∷ 9 ∷ 2 ∷ 4 ∷ []) k 0

qsort_example :
    (b : Array ℕ) × (qsort compare 7 numbers ≡ some b) × InOrder compare 7 b × Moved 0 7 numbers b
qsort_example = qsort_lem compare compare-IsOrder 7 numbers

-- The numbers from 0 on, and the key 2.
abbrev from_two : ℕ → ℕ
from_two i = compare i 2

from_two-IsSorted : IsSorted from_two 6
from_two-IsSorted = record {
  small_first = λ i j le lt h. ground (arith, h);
  large_last = λ i j le lt h g. ground (arith, h, g);
}

bsearch_example : (r : ℕ) × (bsearch 3 from_two 0 3 ≡ some r) × (from_two r ≡ 0)
bsearch_example =
    bsearch_lem 3 from_two 0 3 2 (omega arith) from_two-IsSorted (omega arith) (omega arith) refl

-- With four elements, of which the last is the key, and a small one behind them: `bsearch` finds nothing.
abbrev small_behind : ℕ → ℕ
small_behind i = if i == 3 then 0 else neg_one

bsearch_misses : bsearch 4 small_behind 0 4 ≡ none
unfolding bsearch
bsearch_misses = refl
