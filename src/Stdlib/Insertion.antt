-- ===== src/Stdlib/Insertion.antt =====
-- `isort` of rlibc/stdlib/qsort.c puts an array in order.
use razos.Base.{
  ℕ, zero, suc, ◌<◌, ◌≡◌, ◌≢◌, inl, inr, sym, ap, ◌∙◌, arith, true, false, ◌==◌, if◌then◌else◌,
  Bool-cases,
}
use razos.Stdlib.{Array, swap, is_above, sink, isort}
use razos.Stdlib.Moves.{Moved, Moved-refl, Moved-trans, Moved-wider, swap-Moved}
use mathlib.Core.Path.{subst}

-- The documented behaviour of `compar`: of two elements at most one is above the other, and "not above" is
-- transitive.
pub record IsOrder {A : Type 0} (compar : A → A → ℕ) : Type 0 where
  pub one_way : (x y : A) → is_above compar x y ≡ true → is_above compar y x ≡ false
  pub chain :
      (x y z : A)
      → is_above compar x y ≡ false
      → is_above compar y z ≡ false
      → is_above compar x z ≡ false

module _ {A : Type 0} (compar : A → A → ℕ) where
  -- Of two places below `n` the later one never holds the smaller element.
  abbrev pub InOrder : ℕ → Array A → Type 0
  InOrder n a = (i j : ℕ) → i < j → j < n → is_above compar (a i) (a j) ≡ false

  -- The places below `n` are in order but for the element at `q`, which is in order with those behind it.
  abbrev OrderedBut : ℕ → ℕ → Array A → Type 0
  OrderedBut q n a =
      ((i j : ℕ) → i < j → j < n → i ≢ q → j ≢ q → is_above compar (a i) (a j) ≡ false)
      × ((j : ℕ) → q < j → j < n → is_above compar (a q) (a j) ≡ false)

  module _ (order : IsOrder compar) where
    first_place : (n : ℕ) (a : Array A) → OrderedBut 0 n a → InOrder n a
    first_place n a (others, front) i j lt le = ground (arith, others i j lt le, front j)

    settled :
        (q n : ℕ) (a : Array A)
        → suc q < n
        → is_above compar (a q) (a (suc q)) ≡ false
        → OrderedBut (suc q) n a
        → InOrder n a
    settled q n a here stop (others, front) i j lt le = elim (Bool-cases (j == suc q)) [
      | inl e ↦
          (let f : suc q ≡ j = ground arith in
            subst (λ x. is_above compar (a i) (a x) ≡ false) f
              (elim (Bool-cases (i == q)) [
                | inl g ↦ subst (λ x. is_above compar (a x) (a (suc q)) ≡ false) (ground arith) stop
                | inr g ↦
                    order.chain (a i) (a q) (a (suc q))
                      (others i q (ground arith) (omega arith) (omega arith) (omega arith)) stop
              ]))
      | inr e ↦ elim (Bool-cases (i == suc q)) [
        | inl g ↦
            (let f : suc q ≡ i = ground arith in
              subst (λ x. is_above compar (a x) (a j) ≡ false) f (front j (omega arith) le))
        | inr g ↦ others i j lt le (ground arith) (ground arith)
      ]
    ]

    swap_left : (a : Array A) (i j : ℕ) → swap a i j i ≡ a j
    unfolding swap
    swap_left a i j = ground arith

    swap_right : (a : Array A) (i j : ℕ) → swap a i j j ≡ a i
    unfolding swap
    swap_right a i j = ground arith

    swap_other : (a : Array A) (i j k : ℕ) → k ≢ i → k ≢ j → swap a i j k ≡ a k
    unfolding swap
    swap_other a i j k h g = ground arith

    pair :
        (b : Array A) (i j : ℕ) (x y : A)
        → b i ≡ x
        → b j ≡ y
        → is_above compar x y ≡ false
        → is_above compar (b i) (b j) ≡ false
    pair b i j x y e f h = ap (λ u. is_above compar u (b j)) e ∙ ap (is_above compar x) f ∙ h

    sunk :
        (q n : ℕ) (a : Array A)
        → suc q < n
        → is_above compar (a q) (a (suc q)) ≡ true
        → OrderedBut (suc q) n a
        → OrderedBut q n (swap a q (suc q))
    sunk q n a here up (others, front) =
        let b = swap a q (suc q) in
        (
          λ i j lt le ne ne'. elim (Bool-cases (j == suc q)) [
            | inl e ↦
                pair b i j (a i) (a q) (swap_other a q (suc q) i ne (ground arith))
                  (ap b (ground arith) ∙ swap_right a q (suc q))
                  (others i q (ground arith) (omega arith) (ground arith) (omega arith))
            | inr e ↦ elim (Bool-cases (i == suc q)) [
              | inl g ↦
                  pair b i j (a q) (a j) (ap b (ground arith) ∙ swap_right a q (suc q))
                    (swap_other a q (suc q) j ne' (ground arith))
                    (others q j (ground arith) le (omega arith) (ground arith))
              | inr g ↦
                  pair b i j (a i) (a j) (swap_other a q (suc q) i ne (ground arith))
                    (swap_other a q (suc q) j ne' (ground arith))
                    (others i j lt le (ground arith) (ground arith))
            ]
          ],
          λ j lt le. elim (Bool-cases (j == suc q)) [
            | inl e ↦
                pair b q j (a (suc q)) (a q) (swap_left a q (suc q))
                  (ap b (ground arith) ∙ swap_right a q (suc q))
                  (order.one_way (a q) (a (suc q)) up)
            | inr e ↦
                pair b q j (a (suc q)) (a j) (swap_left a q (suc q))
                  (swap_other a q (suc q) j (omega arith) (ground arith))
                  (front j (ground arith) le)
          ],
        )

    sink-InOrder : (q n : ℕ) (a : Array A) → q < n → OrderedBut q n a → InOrder n (sink compar q a)
    unfolding sink
    sink-InOrder zero n a lt h = first_place n a h
    sink-InOrder (suc q) n a lt h = elim (Bool-cases (is_above compar (a q) (a (suc q)))) [
      | inl e ↦
          subst (λ b. InOrder n (if b then sink compar q (swap a q (suc q)) else a)) (sym e)
            (sink-InOrder q n (swap a q (suc q)) (omega arith) (sunk q n a lt e h))
      | inr e ↦
          subst (λ b. InOrder n (if b then sink compar q (swap a q (suc q)) else a)) (sym e)
            (settled q n a lt e h)
    ]

    pub isort-InOrder : (n : ℕ) (a : Array A) → InOrder n (isort compar n a)
    unfolding isort
    isort-InOrder zero a = λ i j lt le. absurd (omega arith)
    isort-InOrder (suc n) a =
        let before = isort-InOrder n a in
        sink-InOrder n (suc n) (isort compar n a) (omega arith)
          (λ i j lt le ne ne'. before i j lt (omega arith), λ j lt le. absurd (omega arith))

  sink-Moved : (q n : ℕ) (a : Array A) → q < n → Moved 0 n a (sink compar q a)
  unfolding sink
  sink-Moved zero n a lt = Moved-refl 0 n a
  sink-Moved (suc q) n a lt =
      let moved : Moved 0 n a (sink compar q (swap a q (suc q))) =
        Moved-trans 0 n a (swap a q (suc q)) (sink compar q (swap a q (suc q)))
          (swap-Moved 0 n a q (suc q) (omega arith) (omega arith) (omega arith) lt)
          (sink-Moved q n (swap a q (suc q)) (omega arith)) in
      elim (is_above compar (a q) (a (suc q)))
        as (λ b. Moved 0 n a (if b then sink compar q (swap a q (suc q)) else a)) [
          | true ↦ moved
          | false ↦ Moved-refl 0 n a
        ]

  pub isort-Moved : (n : ℕ) (a : Array A) → Moved 0 n a (isort compar n a)
  unfolding isort
  isort-Moved zero a = Moved-refl 0 0 a
  isort-Moved (suc n) a =
      Moved-trans 0 (suc n) a (isort compar n a) (sink compar n (isort compar n a))
        (Moved-wider 0 n 0 (suc n) a (isort compar n a) (omega arith) (omega arith)
          (isort-Moved n a))
        (sink-Moved n (suc n) (isort compar n a) (omega arith))
