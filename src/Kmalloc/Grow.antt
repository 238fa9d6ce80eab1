-- ===== src/Kmalloc/Grow.antt =====
-- The growth of the last node of the heap, in kernel/src/mm/kmalloc.c.
use razos.Base.{
  ℕ, ◌-◌, ◌+◌, ◌*◌, ◌/◌, ◌%◌, ◌^◌, ◌<◌, ◌≤◌, ◌≡◌, ◌⊎◌, refl, arith, false, ltb, sub32, add32,
  Bool-cases, inl, inr, ◌==◌, Option, none, some, neg_one, is_neg,
}
use razos.Paging.{page_size}
use razos.Vm.{Heap, Outcome, fails, goes, out_of_fuel, kstack_begin}
use razos.Vm.Kvm.{ksbrk}
use razos.Vm.Loops.{IsHeap, Leaves}
use razos.Vm.Bounds.{SbrkEnd, ksbrk_lem}
use razos.Kmalloc.{Node, Arena, break_of, grow_last, grown_by}

-- The kernel's heap as `ksbrk` leaves it, and `kheap_end` the end of it.
pub record IsBacked (a : Arena) : Type 0 where
  pub vm : IsHeap kstack_begin a.vm
  pub end : a.kheap_end ≡ a.vm.end

-- What `break_of` makes of an increment that is not negative.
unfoldable pub Broke : ℕ → Heap → ℕ × Heap → Type 0
Broke incr old (ret, h) =
    (ret ≡ neg_one)
    ⊎ ((ret ≡ old.end) × IsHeap kstack_begin h × (h.end ≡ old.end + (incr + 4_095) / 4_096 * 4_096))

broke :
    (incr : ℕ) (old : Heap) (o : Outcome)
    → is_neg incr ≡ false
    → Leaves kstack_begin (SbrkEnd incr old.end) old o
    → Broke incr old (break_of old o)
unfolding Leaves Broke
broke incr old (fails h) n l = inl refl
broke incr old (goes h) n (w, s, q) = inr (refl, w, q.0 n)
broke incr old out_of_fuel n l = absurd l

pub ksbrk-Broke :
    (incr : ℕ) (h : Heap)
    → incr < 2 ^ 31
    → IsHeap kstack_begin h
    → Broke incr h (break_of h (ksbrk incr h))
ksbrk-Broke incr h i w =
    let pos : is_neg incr ≡ false = ground arith in
    broke incr h (ksbrk incr h) pos (ksbrk_lem incr h (omega arith) (λ n. absurd (ground arith)) w)

-- Without a failure the last node is then a page larger than what is asked for, and ends where the heap does.
unfoldable pub Grown : ℕ → ℕ → Node → Option Node × Arena → Type 0
Grown size at n (none, a') = Unit
Grown size at n (some n', a') =
    (n'.addr ≡ n.addr)
    × (n'.prev ≡ n.prev)
    × (n'.free ≡ n.free)
    × (n'.size % 16 ≡ 0)
    × (size + 4_096 ≤ n'.size)
    × (at + 16 + n'.size ≡ a'.kheap_end)
    × IsBacked a'

grown_by_lem :
    (size at : ℕ) (n : Node) (a : Arena) (r : ℕ × Heap)
    → IsBacked a
    → size < 2 ^ 28
    → size % 16 ≡ 0
    → n.size % 16 ≡ 0
    → at + 16 + n.size ≡ a.kheap_end
    → n.size < size + 4_096
    → Broke (size + 4_096 - n.size) a.vm r
    → Grown size at n (grown_by n a r)
unfolding Grown Broke grown_by
grown_by_lem size at n a (ret, h) w s m d e l (inl failed) = rw failed tt
grown_by_lem size at n a (ret, h) w s m d e l (inr (old, w', end)) =
    let below = w'.below in
    let test : (ret == neg_one) ≡ false = ground (arith, w.vm.below) in
    let more : sub32 h.end ret ≡ h.end - ret = omega (arith, w.vm.below) in
    let size' : add32 n.size (h.end - ret) ≡ n.size + (h.end - ret) =
      omega (arith, w.vm.below, w.end) in
    rw (test, more, size')
      (
        refl,
        refl,
        refl,
        omega (arith, w.vm.end_page, w'.end_page),
        omega arith,
        omega (arith, w.end),
        record { vm = w'; end = refl },
      )

pub grow_last_lem :
    (size at : ℕ) (n : Node) (a : Arena)
    → IsBacked a
    → size < 2 ^ 28
    → size % 16 ≡ 0
    → n.size % 16 ≡ 0
    → at + 16 + n.size ≡ a.kheap_end
    → Grown size at n (grow_last size n a)
unfolding grow_last Grown
grow_last_lem size at n a w s m d e = elim (Bool-cases (ltb n.size (add32 size page_size))) [
  | inr large ↦ rw large (refl, refl, refl, d, ground arith, e, w)
  | inl small ↦
      (let lt : n.size < size + 4_096 = ground arith in
        let incr : sub32 (add32 size page_size) n.size ≡ size + 4_096 - n.size = omega arith in
        rw (small, incr)
          (grown_by_lem size at n a (break_of a.vm (ksbrk (size + 4_096 - n.size) a.vm)) w s m d e
            lt (ksbrk-Broke (size + 4_096 - n.size) a.vm (omega arith) w.vm)))
]
