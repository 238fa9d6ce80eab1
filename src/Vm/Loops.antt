-- ===== src/Vm/Loops.antt =====
-- The loops of kernel/src/mm/kvm.c and uvm.c end, and where they leave the end of the heap.
use razos.Base.{
  ℕ, zero, suc, ◌+◌, ◌-◌, ◌*◌, ◌/◌, ◌%◌, ◌^◌, ◌<◌, ◌≤◌, ◌≡◌, refl, ◌∙◌, arith, true, false, ltb,
  ◌==◌, inl, inr, Bool-cases, add32, sub32, ◌⊎◌,
}
use razos.Vm.{
  Heap, Outcome, fails, goes, out_of_fuel, brk_grow, brk_shrink, sbrk_grow, sbrk_shrink, or_bad,
}

-- A heap of whole pages below `top`.
pub record IsHeap (top : ℕ) (h : Heap) : Type 0 where
  pub start_page : h.start % 4_096 ≡ 0
  pub end_page : h.end % 4_096 ≡ 0
  pub order : h.start ≤ h.end
  pub below : h.end ≤ top

-- A page more, or none.
pub record IsPager (alloc : Heap → ℕ × Heap) : Type 0 where
  pub no_page : (h : Heap) → ((alloc h).0 == 0) ≡ true → (alloc h).1.end ≡ h.end
  pub one_page : (h : Heap) → ((alloc h).0 == 0) ≡ false → (alloc h).1.end ≡ add32 h.end 4_096
  pub same_start : (h : Heap) → (alloc h).1.start ≡ h.start

-- A page less.
pub record IsUnpager (free : Heap → Heap) : Type 0 where
  pub less : (h : Heap) → (free h).end ≡ sub32 h.end 4_096
  pub same_start : (h : Heap) → (free h).start ≡ h.start

-- The call ends; the heap stays one of whole pages below `top`, with the same start, and if the call does not
-- fail its end is as `Q` says.
unfoldable pub Leaves : (top : ℕ) (Q : ℕ → Type 0) (old : Heap) → Outcome → Type 0
Leaves top Q old (fails h) = IsHeap top h × (h.start ≡ old.start)
Leaves top Q old (goes h) = IsHeap top h × (h.start ≡ old.start) × Q h.end
Leaves top Q old out_of_fuel = ⊥

pub Leaves-map :
    (top : ℕ) (Q R : ℕ → Type 0) (new old : Heap) (o : Outcome)
    → new.start ≡ old.start
    → ((e : ℕ) → e % 4_096 ≡ 0 → Q e → R e)
    → Leaves top Q new o
    → Leaves top R old o
unfolding Leaves
Leaves-map top Q R new old (fails h) s f (w, e) = (w, e ∙ s)
Leaves-map top Q R new old (goes h) s f (w, e, q) = (w, e ∙ s, f h.end w.end_page q)
Leaves-map top Q R new old out_of_fuel s f l = l

pub Leaves-or_bad :
    (top : ℕ) (Q : ℕ → Type 0) (old : Heap) (o : Outcome)
    → Leaves top Q old o
    → Leaves top Q old (or_bad o)
unfolding Leaves
Leaves-or_bad top Q old (fails h) (w, e) = (
  record { start_page = w.start_page; end_page = w.end_page; order = w.order; below = w.below },
  e,
)
Leaves-or_bad top Q old (goes h) l = l
Leaves-or_bad top Q old out_of_fuel l = l

-- The next page boundary from `addr` on, or the old end.
abbrev pub GrownTo : (addr old e : ℕ) → Type 0
GrownTo addr old e = (addr ≤ e) × ((e ≡ old) ⊎ (e < addr + 4_096))

module _ (top : ℕ) (small : top < 2 ^ 32) (whole : top % 4_096 ≡ 0) (alloc : Heap → ℕ × Heap)
    (pager : IsPager alloc) where
  one_more :
      (h : Heap)
      → IsHeap top h
      → h.end < top
      → ((alloc h).0 == 0) ≡ false
      → IsHeap top (alloc h).1 × ((alloc h).1.end ≡ h.end + 4_096)
  one_more h w lt e =
      let end = pager.one_page h e in
      let start = pager.same_start h in
      (
        record {
          start_page = omega (arith, start, w.start_page);
          end_page = omega (arith, end, w.end_page, w.below);
          order = omega (arith, start, end, w.order, w.below);
          below = omega (arith, end, w.end_page, w.below);
        },
        omega (arith, end, w.below),
      )

  none_more : (h : Heap) → IsHeap top h → ((alloc h).0 == 0) ≡ true → IsHeap top (alloc h).1
  none_more h w e =
      let end = pager.no_page h e in
      let start = pager.same_start h in
      record {
        start_page = omega (arith, start, w.start_page);
        end_page = omega (arith, end, w.end_page);
        order = omega (arith, start, end, w.order);
        below = omega (arith, end, w.below);
      }

  -- The end grows to the next page boundary from `addr` on.
  pub brk_grow_lem :
      (fuel addr : ℕ) (h : Heap)
      → IsHeap top h
      → addr ≤ top
      → addr ≤ h.end + fuel * 4_096
      → Leaves top (GrownTo addr h.end) h (brk_grow alloc (suc fuel) addr h)
  unfolding brk_grow Leaves
  brk_grow_lem zero addr h w t f =
      let e : ltb h.end addr ≡ false = ground arith in rw e (w, refl, (omega arith, inl refl))
  brk_grow_lem (suc fuel) addr h w t f = elim (Bool-cases (ltb h.end addr)) [
    | inr e ↦ rw e (w, refl, (ground arith, inl refl))
    | inl e ↦ elim (Bool-cases ((alloc h).0 == 0)) [
      | inl n ↦ rw (e, n) (none_more h w n, pager.same_start h)
      | inr n ↦
          (let (w', end) = one_more h w (ground arith) n in
            rw (e, n)
              (Leaves-map top (GrownTo addr (alloc h).1.end) (GrownTo addr h.end) (alloc h).1 h _
                (pager.same_start h) (λ k g (a, q). (a, inr (ground arith)))
                (brk_grow_lem fuel addr (alloc h).1 w' t (omega arith))))
    ]
  ]

  -- The end grows by the pages that hold `incr` bytes.
  pub sbrk_grow_lem :
      (fuel incr : ℕ) (h : Heap)
      → IsHeap top h
      → h.end + incr ≤ top
      → incr ≤ fuel * 4_096
      → Leaves top
          (λ e. e ≡ h.end + (incr + 4_095) / 4_096 * 4_096)
          h
          (sbrk_grow alloc (suc fuel) incr h)
  unfolding sbrk_grow Leaves
  sbrk_grow_lem zero incr h w t f =
      let e : ltb 0 incr ≡ false = ground arith in rw e (w, refl, omega arith)
  sbrk_grow_lem (suc fuel) incr h w t f = elim (Bool-cases (ltb 0 incr)) [
    | inr e ↦ rw e (w, refl, ground arith)
    | inl e ↦ elim (Bool-cases ((alloc h).0 == 0)) [
      | inl n ↦ rw (e, n) (none_more h w n, pager.same_start h)
      | inr n ↦
          (let (w', end) = one_more h w (ground arith) n in
            rw (e, n)
              (Leaves-map top (λ e. e ≡ (alloc h).1.end + (incr - 4_096 + 4_095) / 4_096 * 4_096)
                (λ e. e ≡ h.end + (incr + 4_095) / 4_096 * 4_096) (alloc h).1 h _
                (pager.same_start h) (λ k g q. ground arith)
                (sbrk_grow_lem fuel (incr - 4_096) (alloc h).1 w' (omega (arith, w'.below))
                  (omega arith))))
    ]
  ]

-- The last page boundary up to `addr`, or the old end.
abbrev pub ShrunkTo : (addr old e : ℕ) → Type 0
ShrunkTo addr old e = (e ≤ addr) × ((e ≡ old) ⊎ (addr < e + 4_096))

module _ (top : ℕ) (small : top < 2 ^ 32) (free : Heap → Heap) (unpager : IsUnpager free) where
  one_less :
      (h : Heap)
      → IsHeap top h
      → h.start < h.end
      → IsHeap top (free h) × ((free h).end + 4_096 ≡ h.end)
  one_less h w lt =
      let end = unpager.less h in
      let start = unpager.same_start h in
      (
        record {
          start_page = omega (arith, start, w.start_page);
          end_page = omega (arith, end, w.end_page, w.start_page, w.below);
          order = omega (arith, start, end, w.end_page, w.start_page, w.below);
          below = omega (arith, end, w.end_page, w.start_page, w.below);
        },
        omega (arith, end, w.end_page, w.start_page, w.below),
      )

  pub brk_shrink_lem :
      (fuel addr : ℕ) (h : Heap)
      → IsHeap top h
      → h.start ≤ addr
      → h.end ≤ addr + fuel * 4_096
      → Leaves top (ShrunkTo addr h.end) h (brk_shrink free (suc fuel) addr h)
  unfolding brk_shrink Leaves
  brk_shrink_lem zero addr h w t f =
      let e : ltb addr h.end ≡ false = ground arith in rw e (w, refl, (omega arith, inl refl))
  brk_shrink_lem (suc fuel) addr h w t f = elim (Bool-cases (ltb addr h.end)) [
    | inr e ↦ rw e (w, refl, (ground arith, inl refl))
    | inl e ↦
        (let (w', end) = one_less h w (ground arith) in
          let start = unpager.same_start h in
          rw e (
            Leaves-map top (ShrunkTo addr (free h).end) (ShrunkTo addr h.end) (free h) h _ start
              (λ k g (a, q). (a, inr (ground arith)))
              (brk_shrink_lem fuel addr (free h) w' (omega arith) (omega arith))))
  ]

  -- The end shrinks by the pages that `decr` bytes begin.
  pub sbrk_shrink_lem :
      (fuel decr : ℕ) (h : Heap)
      → IsHeap top h
      → h.start + decr ≤ h.end
      → decr ≤ fuel * 4_096
      → Leaves top
          (λ e. e + (decr + 4_095) / 4_096 * 4_096 ≡ h.end)
          h
          (sbrk_shrink free (suc fuel) decr h)
  unfolding sbrk_shrink Leaves
  sbrk_shrink_lem zero decr h w t f =
      let e : ltb 0 decr ≡ false = ground arith in rw e (w, refl, omega arith)
  sbrk_shrink_lem (suc fuel) decr h w t f = elim (Bool-cases (ltb 0 decr)) [
    | inr e ↦ rw e (w, refl, ground arith)
    | inl e ↦
        (let (w', end) = one_less h w (ground arith) in
          let start = unpager.same_start h in
          rw e (
            Leaves-map top (λ e. e + (decr - 4_096 + 4_095) / 4_096 * 4_096 ≡ (free h).end)
              (λ e. e + (decr + 4_095) / 4_096 * 4_096 ≡ h.end) (free h) h _ start
              (λ k g q. ground arith)
              (sbrk_shrink_lem fuel (decr - 4_096) (free h) w' (omega (arith, start, w'.order))
                (omega arith))))
  ]
