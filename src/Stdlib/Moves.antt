-- ===== src/Stdlib/Moves.antt =====
-- Rearrangements of an array, for qsort.c of rlibc/stdlib.
use razos.Base.{ℕ, ◌<◌, ◌≤◌, ◌≡◌, refl, ap, ◌∙◌, arith, ◌==◌, if◌then◌else◌}
use razos.Stdlib.{Array, swap}

-- `b` has the elements of `a`, each once, at other places from `lo` on and below `stop`.
pub record Moved {A : Type 0} (lo stop : ℕ) (a b : Array A) : Type 0 where
  pub from : ℕ → ℕ
  pub back : ℕ → ℕ
  pub same : (k : ℕ) → b k ≡ a (from k)
  pub from_back : (k : ℕ) → from (back k) ≡ k
  pub back_from : (k : ℕ) → back (from k) ≡ k
  pub below : (k : ℕ) → k < lo → from k ≡ k
  pub behind : (k : ℕ) → stop ≤ k → from k ≡ k

abbrev pub swap_places : ℕ → ℕ → ℕ → ℕ
swap_places i j k = if k == i then j else if k == j then i else k

module _ {A : Type 0} where
  pub Moved-refl : (lo stop : ℕ) (a : Array A) → Moved lo stop a a
  Moved-refl lo stop a = record {
    from = λ k. k;
    back = λ k. k;
    same = λ k. refl;
    from_back = λ k. refl;
    back_from = λ k. refl;
    below = λ k h. refl;
    behind = λ k h. refl;
  }

  pub Moved-trans :
      (lo stop : ℕ) (a b c : Array A) → Moved lo stop a b → Moved lo stop b c → Moved lo stop a c
  Moved-trans lo stop a b c f g = record {
    from = λ k. f.from (g.from k);
    back = λ k. g.back (f.back k);
    same = λ k. g.same k ∙ f.same (g.from k);
    from_back = λ k. ap f.from (g.from_back (f.back k)) ∙ f.from_back k;
    back_from = λ k. ap g.back (f.back_from (g.from k)) ∙ g.back_from k;
    below = λ k h. ap f.from (g.below k h) ∙ f.below k h;
    behind = λ k h. ap f.from (g.behind k h) ∙ f.behind k h;
  }

  swap-swap_places : (a : Array A) (i j k : ℕ) → swap a i j k ≡ a (swap_places i j k)
  unfolding swap
  swap-swap_places a i j k = ground arith

  pub swap-Moved :
      (lo stop : ℕ) (a : Array A) (i j : ℕ)
      → lo ≤ i
      → lo ≤ j
      → i < stop
      → j < stop
      → Moved lo stop a (swap a i j)
  swap-Moved lo stop a i j li lj si sj = record {
    from = swap_places i j;
    back = swap_places i j;
    same = swap-swap_places a i j;
    from_back = λ k. ground arith;
    back_from = λ k. ground arith;
    below = λ k h. ground arith;
    behind = λ k h. ground arith;
  }

  pub Moved-wider :
      (lo stop lo' stop' : ℕ) (a b : Array A)
      → lo' ≤ lo
      → stop ≤ stop'
      → Moved lo stop a b
      → Moved lo' stop' a b
  Moved-wider lo stop lo' stop' a b l s m = record {
    from = m.from;
    back = m.back;
    same = m.same;
    from_back = m.from_back;
    back_from = m.back_from;
    below = λ k h. m.below k (omega arith);
    behind = λ k h. m.behind k (omega arith);
  }
