-- ===== src/Stdlib/Qsort.antt =====
-- `dsort` and `qsort` of rlibc/stdlib/qsort.c.
use razos.Base.{
  ℕ, zero, suc, ◌+◌, ◌-◌, ◌<◌, ◌≤◌, ◌≡◌, refl, sym, ap, ◌∙◌, arith, true, false, if◌then◌else◌, ltb,
  is_neg, Option, none, some, Bool-cases, inl, inr,
}
use razos.Stdlib.{Array, split, and_then, dsort, isort, qsort}
use razos.Stdlib.Moves.{Moved, Moved-refl, Moved-trans, Moved-wider}
use razos.Stdlib.Insertion.{IsOrder, InOrder, isort-InOrder, isort-Moved}
use razos.Stdlib.Partition.{split-Parts}
use mathlib.Core.Option
use mathlib.Core.Path.{subst}

module _ {A : Type 0} (compar : A → A → ℕ) where
  -- The array is returned, with its elements moved.
  abbrev Returns : ℕ → ℕ → Array A → Option (Array A) → Type 0
  Returns lo stop a r = (b : Array A) × (r ≡ some b) × Moved lo stop a b

  and_then-Returns :
      (lo stop : ℕ) (a : Array A) (r : Option (Array A)) (f : Array A → Option (Array A))
      → Returns lo stop a r
      → ((b : Array A) → Returns lo stop b (f b))
      → Returns lo stop a (and_then r f)
  and_then-Returns lo stop a r f (b, e, m) k =
      let (c, g, n) = k b in (c, ap (λ x. and_then x f) e ∙ g, Moved-trans lo stop a b c m n)

  Returns-wider :
      (lo stop lo' stop' : ℕ) (a : Array A) (r : Option (Array A))
      → lo' ≤ lo
      → stop ≤ stop'
      → Returns lo stop a r
      → Returns lo' stop' a r
  Returns-wider lo stop lo' stop' a r l s (b, e, m) =
      (b, e, Moved-wider lo stop lo' stop' a b l s m)

  -- The three calls, which each have enough fuel.
  dsort-Returns :
      (fuel lo stop : ℕ) (a : Array A)
      → stop ≤ lo + fuel
      → Returns lo stop a (dsort compar fuel lo stop a)
  unfolding dsort
  dsort-Returns zero lo stop a enough =
      let small : ltb stop (lo + 6) ≡ true = ground arith in
      subst (λ b. Returns lo stop a (if b then some a else none)) (sym small)
        (a, refl, Moved-refl lo stop a)
  dsort-Returns (suc fuel) lo stop a enough =
      let s = split compar lo (stop - 1) a in
      let below = dsort compar fuel lo s.lt s.array in
      let middle : Array A → Option (Array A) = λ b.
        let sorted = dsort compar fuel (s.lt + 1) s.gt b in
        if is_neg (compar (b s.lt) (b s.gt)) then sorted else some b in
      let above = and_then (and_then below middle) (dsort compar fuel (s.gt + 1) stop) in
      elim (Bool-cases (ltb stop (lo + 6))) [
        | inl e ↦
            subst (λ b. Returns lo stop a (if b then some a else above)) (sym e)
              (a, refl, Moved-refl lo stop a)
        | inr e ↦
            (let large : lo + 5 ≤ stop - 1 = ground arith in
              let p = split-Parts compar lo (stop - 1) a large in
              let from_lo : lo ≤ s.lt = p.from_lo in
              let apart : s.lt < s.gt = p.apart in
              let to_hi : s.gt ≤ stop - 1 = p.to_hi in
              let first : Moved lo stop a s.array =
                Moved-wider lo (stop - 1 + 1) lo stop a s.array (omega arith) (omega arith)
                  p.moved in
              let low : Returns lo stop s.array below =
                Returns-wider lo s.lt lo stop s.array below (omega arith) (omega arith)
                  (dsort-Returns fuel lo s.lt s.array (omega arith)) in
              let between : (b : Array A) → Returns lo stop b (middle b) = λ b.
                elim (is_neg (compar (b s.lt) (b s.gt)))
                  as (λ d.
                    Returns lo stop b (if d then dsort compar fuel (s.lt + 1) s.gt b else some b)) [
                      | true ↦
                          Returns-wider (s.lt + 1) s.gt lo stop b
                            (dsort compar fuel (s.lt + 1) s.gt b) (omega arith) (omega arith)
                            (dsort-Returns fuel (s.lt + 1) s.gt b (omega arith))
                      | false ↦ (b, refl, Moved-refl lo stop b)
                    ] in
              let high : (b : Array A) → Returns lo stop b (dsort compar fuel (s.gt + 1) stop b) =
                λ b.
                  Returns-wider (s.gt + 1) stop lo stop b (dsort compar fuel (s.gt + 1) stop b)
                    (omega arith) (omega arith)
                    (dsort-Returns fuel (s.gt + 1) stop b (omega arith)) in
              let (b, run, moved) =
                and_then-Returns lo stop s.array (and_then below middle)
                  (dsort compar fuel (s.gt + 1) stop)
                  (and_then-Returns lo stop s.array below middle low between) high in
              subst (λ d. Returns lo stop a (if d then some a else above)) (sym e)
                (b, run, Moved-trans lo stop a s.array b first moved))
      ]

  -- If the comparison function is an order, `qsort` returns for every number of elements: the result is in
  -- order, and it has the elements of the array, each once, with nothing moved from behind the last one.
  pub qsort_lem :
      IsOrder compar
      → (nitems : ℕ) (a : Array A)
      → (b : Array A) × (qsort compar nitems a ≡ some b)
        × InOrder compar nitems b
        × Moved 0 nitems a b
  unfolding qsort
  qsort_lem order nitems a =
      let (b, run, moved) = dsort-Returns nitems 0 nitems a (omega arith) in
      (
        isort compar nitems b,
        ap (Option.map (isort compar nitems)) run,
        isort-InOrder compar order nitems b,
        Moved-trans 0 nitems a b (isort compar nitems b) moved (isort-Moved compar nitems b),
      )
