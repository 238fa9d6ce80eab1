-- ===== src/Stdlib/Bsearch.antt =====
-- What `bsearch` of rlibc/stdlib/bsearch.c finds. Behind an even number of elements the right half has one
-- too many, so the search can leave the array.
use razos.Base.{
  ℕ, zero, suc, ◌+◌, ◌*◌, ◌/◌, ◌<◌, ◌≤◌, ◌≡◌, ◌≢◌, arith, true, false, ◌==◌, some, is_neg, inl, inr,
  Bool-cases,
}
use razos.Stdlib.{bsearch}
use mathlib.Core.Option

-- The elements up to `limit` are in order for the key: those that are too small come first, then those that
-- are equal to it, then those that are too large.
pub record IsSorted (pos : ℕ → ℕ) (limit : ℕ) : Type 0 where
  pub small_first : (i j : ℕ) → i ≤ j → j < limit → is_neg (pos j) ≡ true → is_neg (pos i) ≡ true
  pub large_last :
      (i j : ℕ)
      → i ≤ j
      → j < limit
      → is_neg (pos i) ≡ false
      → pos i ≢ 0
      → (is_neg (pos j) ≡ false) × (pos j ≢ 0)

IsSorted-less :
    (pos : ℕ → ℕ) (limit less : ℕ) → less ≤ limit → IsSorted pos limit → IsSorted pos less
IsSorted-less pos limit less le s = record {
  small_first = λ i j a b. s.small_first i j a (omega arith);
  large_last = λ i j a b. s.large_last i j a (omega arith);
}

-- Where `bsearch` returns an element, it is equal to the key, and its place is less than twice the number
-- of elements behind the start.
pub bsearch_sound :
    (fuel : ℕ) (pos : ℕ → ℕ) (base nitems r : ℕ)
    → bsearch fuel pos base nitems ≡ some r
    → (pos r ≡ 0) × (base ≤ r) × (r < base + 2 * nitems)
unfolding bsearch
bsearch_sound zero pos base nitems r h = absurd (Option.none-ne-some r h)
bsearch_sound (suc fuel) pos base nitems r h =
    let half = nitems / 2 in
    let left = bsearch_sound fuel pos base half r in
    let right = bsearch_sound fuel pos (base + half + 1) half r in ground (arith, left, right)

-- An element that is equal to the key is found: `bsearch` returns such an element if one is in the array,
-- if the fuel is not less than the number of elements and the memory up to twice their number is in order.
pub bsearch_lem :
    (fuel : ℕ) (pos : ℕ → ℕ) (base nitems i : ℕ)
    → nitems ≤ fuel
    → IsSorted pos (base + 2 * nitems)
    → base ≤ i
    → i < base + nitems
    → pos i ≡ 0
    → (r : ℕ) × (bsearch fuel pos base nitems ≡ some r) × (pos r ≡ 0)
unfolding bsearch
bsearch_lem zero pos base nitems i le sorted lo hi e = absurd (omega arith)
bsearch_lem (suc fuel) pos base nitems i le sorted lo hi e =
    let half = nitems / 2 in
    let middle = base + half in
    let some_items : (nitems == 0) ≡ false = ground arith in
    elim (Bool-cases (is_neg (pos middle))) [
      | inl small ↦
          (let above : middle < i = ground (arith, sorted.small_first i middle) in
            let (r, run, found) =
              bsearch_lem fuel pos (middle + 1) half i (omega arith)
                (IsSorted-less pos (base + 2 * nitems) (middle + 1 + 2 * half) (omega arith) sorted)
                (omega arith) (omega arith) e in
            (r, ground (arith, run), found))
      | inr not_small ↦ elim (Bool-cases (pos middle == 0)) [
        | inl equal ↦ (middle, ground arith, ground arith)
        | inr large ↦
            (let below : i < middle = ground (arith, sorted.large_last middle i) in
              let (r, run, found) =
                bsearch_lem fuel pos base half i (omega arith)
                  (IsSorted-less pos (base + 2 * nitems) (base + 2 * half) (omega arith) sorted) lo
                  (omega arith) e in
              (r, ground (arith, run), found))
      ]
    ]
