-- ===== src/Stdlib/Partition.antt =====
-- The loop of `dsort` of rlibc/stdlib/qsort.c: the bounds of the parts, and what is left of the array.
use razos.Base.{
  ℕ, zero, suc, ◌+◌, ◌-◌, ◌*◌, ◌/◌, ◌<◌, ◌≤◌, arith, true, false, if◌then◌else◌, ltb, is_neg,
  Bool-cases, inl, inr,
}
use razos.Stdlib.{Array, swap, Split, split_loop, pivots, split}
use razos.Stdlib.Moves.{Moved, Moved-refl, Moved-trans, swap-Moved}

module _ {A : Type 0} (compar : A → A → ℕ) where
  -- The loop moves elements between the pivots only, and stops between them.
  record InBounds (lo hi lt : ℕ) (a : Array A) (s : Split A) : Type 0 where
    moved : Moved lo (hi + 1) a s.array
    lt_low : lt ≤ s.lt
    lt_high : s.lt ≤ hi
    gt_high : s.gt < hi
    gt_low : s.lt ≤ s.gt + 1

  swapped :
      (lo hi lt lt' : ℕ) (a : Array A) (i j : ℕ) (s : Split A)
      → lo ≤ i
      → lo ≤ j
      → i ≤ hi
      → j ≤ hi
      → lt ≤ lt'
      → InBounds lo hi lt' (swap a i j) s
      → InBounds lo hi lt a s
  swapped lo hi lt lt' a i j s li lj hi_i hi_j le b = record {
    moved =
        Moved-trans lo (hi + 1) a (swap a i j) s.array
          (swap-Moved lo (hi + 1) a i j li lj (omega arith) (omega arith)) b.moved;
    lt_low = omega (arith, b.lt_low);
    lt_high = b.lt_high;
    gt_high = b.gt_high;
    gt_low = b.gt_low;
  }

  split_loop-InBounds :
      (rounds lo hi lt i gt : ℕ) (a : Array A)
      → lo < lt
      → lt ≤ i
      → i ≤ gt + 1
      → gt < hi
      → gt + 1 ≤ rounds + i
      → InBounds lo hi lt a (split_loop compar rounds lo hi lt i gt a)
  unfolding split_loop
  split_loop-InBounds zero lo hi lt i gt a l0 l1 l2 l3 l4 = record {
    moved = Moved-refl lo (hi + 1) a;
    lt_low = omega arith;
    lt_high = omega arith;
    gt_high = l3;
    gt_low = omega arith;
  }
  split_loop-InBounds (suc rounds) lo hi lt i gt a l0 l1 l2 l3 l4 = elim (Bool-cases (ltb gt i)) [
    | inl e ↦
        rw (e, split_loop)
          (record {
            moved = Moved-refl lo (hi + 1) a;
            lt_low = omega arith;
            lt_high = omega arith;
            gt_high = l3;
            gt_low = omega arith;
          })
    | inr e ↦
        (let inside : i ≤ gt = ground arith in
          elim (Bool-cases (is_neg (compar (a i) (a lo)))) [
            | inl f ↦
                rw (e, split_loop, f)
                  (swapped lo hi lt (lt + 1) a lt i
                    (split_loop compar rounds lo hi (lt + 1) (i + 1) gt (swap a lt i)) (omega arith)
                    (omega arith) (omega arith) (omega arith) (omega arith)
                    (split_loop-InBounds rounds lo hi (lt + 1) (i + 1) gt (swap a lt i)
                      (omega arith) (omega arith) (omega arith) l3 (omega arith)))
            | inr f ↦ elim (Bool-cases (is_neg (compar (a hi) (a i)))) [
              | inl g ↦
                  rw (e, split_loop, f, g)
                    (swapped lo hi lt lt a gt i
                      (split_loop compar rounds lo hi lt i (gt - 1) (swap a gt i)) (omega arith)
                      (omega arith) (omega arith) (omega arith) (omega arith)
                      (split_loop-InBounds rounds lo hi lt i (gt - 1) (swap a gt i) l0 l1
                        (omega arith) (omega arith) (omega arith)))
              | inr g ↦
                  rw (e, split_loop, f, g)
                    (split_loop-InBounds rounds lo hi lt (i + 1) gt a l0 (omega arith) (omega arith)
                      l3 (omega arith))
            ]
          ])
  ]

  pivots-Moved : (lo hi : ℕ) (a : Array A) → lo ≤ hi → Moved lo (hi + 1) a (pivots compar lo hi a)
  unfolding pivots
  pivots-Moved lo hi a le =
      let b : Array A = swap a lo (lo + (hi - lo) / 3) in
      let c : Array A = swap b hi (lo + 2 * (hi - lo) / 3) in
      let first : Moved lo (hi + 1) a c =
        Moved-trans lo (hi + 1) a b c
          (swap-Moved lo (hi + 1) a lo (lo + (hi - lo) / 3) (omega arith) (omega arith)
            (omega arith) (omega arith))
          (swap-Moved lo (hi + 1) b hi (lo + 2 * (hi - lo) / 3) (omega arith) (omega arith)
            (omega arith) (omega arith)) in
      elim (is_neg (compar (c hi) (c lo)))
        as (λ d. Moved lo (hi + 1) a (if d then swap c lo hi else c)) [
          | true ↦ Moved-trans lo (hi + 1) a c (swap c lo hi) first (
              swap-Moved lo (hi + 1) c lo hi (omega arith) (omega arith) (omega arith)
                (omega arith))
          | false ↦ first
        ]

  -- The pivots stand between the parts.
  pub record Parts (lo hi : ℕ) (a : Array A) (s : Split A) : Type 0 where
    pub moved : Moved lo (hi + 1) a s.array
    pub from_lo : lo ≤ s.lt
    pub apart : s.lt < s.gt
    pub to_hi : s.gt ≤ hi

  pub split-Parts : (lo hi : ℕ) (a : Array A) → lo + 5 ≤ hi → Parts lo hi a (split compar lo hi a)
  unfolding split
  split-Parts lo hi a le =
      let p : Array A = pivots compar lo hi a in
      let s : Split A = split_loop compar (hi - lo) lo hi (lo + 1) (lo + 1) (hi - 1) p in
      let b =
        split_loop-InBounds (hi - lo) lo hi (lo + 1) (lo + 1) (hi - 1) p (omega arith) (omega arith)
          (omega arith) (omega arith) (omega arith) in
      let low : lo + 1 ≤ s.lt = b.lt_low in
      let high : s.lt ≤ hi = b.lt_high in
      let gt_high : s.gt < hi = b.gt_high in
      let gt_low : s.lt ≤ s.gt + 1 = b.gt_low in
      let c : Array A = swap s.array lo (s.lt - 1) in
      record {
        moved =
            Moved-trans lo (hi + 1) a p (swap c hi (s.gt + 1)) (pivots-Moved lo hi a (omega arith))
              (Moved-trans lo (hi + 1) p s.array (swap c hi (s.gt + 1)) b.moved (
                Moved-trans lo (hi + 1) s.array c (swap c hi (s.gt + 1))
                  (swap-Moved lo (hi + 1) s.array lo (s.lt - 1) (omega arith) (omega arith)
                    (omega arith) (omega arith))
                  (swap-Moved lo (hi + 1) c hi (s.gt + 1) (omega arith) (omega arith) (omega arith)
                    (omega arith))));
        from_lo = omega arith;
        apart = omega arith;
        to_hi = omega arith;
      }
