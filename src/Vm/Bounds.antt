-- ===== src/Vm/Bounds.antt =====
-- Where `kbrk`, `ksbrk`, `uvm_brk` and `uvm_sbrk` leave the heap: kernel/src/mm/kvm.c and uvm.c.
use razos.Base.{
  ℕ, ◌+◌, ◌-◌, ◌*◌, ◌/◌, ◌%◌, ◌^◌, ◌<◌, ◌≤◌, ◌≡◌, refl, arith, true, false, ltb, leb, ◌==◌, ◌||◌,
  inl, inr, Bool-cases, add32, sub32, ◌⊎◌, is_neg,
}
use razos.Paging.{page_size}
use razos.Vm.{
  Heap, fails, goes, sbrk_grow, sbrk_shrink, with_enomem, or_bad, rounds, kstack_begin, umem_begin,
  ustack_begin, map_page, unmap_page,
}
use razos.Vm.Kvm.{kvm_page_alloc, kvm_page_alloc_zeroed, kvm_page_free, kbrk, ksbrk}
use razos.Vm.Uvm.{uvm_page_alloc, uvm_page_free, uvm_brk, uvm_sbrk, round_up}
use razos.Vm.Loops.{
  IsHeap, IsPager, IsUnpager, Leaves, Leaves-map, Leaves-or_bad, GrownTo, ShrunkTo, brk_grow_lem,
  sbrk_grow_lem, brk_shrink_lem, sbrk_shrink_lem,
}

kvm-IsPager : IsPager kvm_page_alloc_zeroed
unfolding kvm_page_alloc_zeroed kvm_page_alloc map_page
kvm-IsPager = record {
  no_page = λ h e. ground arith;
  one_page = λ h e. ground arith;
  same_start = λ h. ground arith;
}

kvm-IsUnpager : IsUnpager kvm_page_free
unfolding kvm_page_free unmap_page
kvm-IsUnpager = record { less = λ h. refl; same_start = λ h. refl }

uvm-IsPager : IsPager uvm_page_alloc
unfolding uvm_page_alloc map_page
uvm-IsPager = record {
  no_page = λ h e. ground arith;
  one_page = λ h e. ground arith;
  same_start = λ h. ground arith;
}

uvm-IsUnpager : IsUnpager uvm_page_free
unfolding uvm_page_free unmap_page
uvm-IsUnpager = record { less = λ h. refl; same_start = λ h. refl }

failed :
    (top : ℕ) (Q : ℕ → Type 0) (h : Heap) → IsHeap top h → Leaves top Q h (fails (with_enomem h))
unfolding Leaves
failed top Q h w = (
  record { start_page = w.start_page; end_page = w.end_page; order = w.order; below = w.below },
  refl,
)

stays : (top : ℕ) (Q : ℕ → Type 0) (h : Heap) → IsHeap top h → Q h.end → Leaves top Q h (goes h)
unfolding Leaves
stays top Q h w q = (w, refl, q)

-- The page boundary that `kbrk` takes the end to.
abbrev pub KbrkEnd : (addr old e : ℕ) → Type 0
KbrkEnd addr old e = (old < addr → GrownTo addr old e) × (addr ≤ old → ShrunkTo addr old e)

-- `kbrk` ends on every heap of whole pages below the kernel stack, and leaves such a heap. If it does not fail, the
-- end is then the next page boundary from the address on if the heap grew, and the last one up to the address if it
-- shrank.
pub kbrk_lem :
    (addr : ℕ) (h : Heap)
    → addr < 2 ^ 32
    → IsHeap kstack_begin h
    → Leaves kstack_begin (KbrkEnd addr h.end) h (kbrk addr h)
unfolding kbrk
kbrk_lem addr h a w = elim (Bool-cases (ltb addr h.start || ltb kstack_begin addr)) [
  | inl e ↦ rw e (failed kstack_begin (KbrkEnd addr h.end) h w)
  | inr e ↦ elim (Bool-cases (addr == h.end)) [
    | inl e2 ↦
        rw (e, e2)
          (stays kstack_begin (KbrkEnd addr h.end) h w
            (λ lt. absurd (ground arith), λ le. (ground arith, inl refl)))
    | inr e2 ↦ elim (Bool-cases (ltb h.end addr)) [
      | inl e3 ↦
          rw (e, e2, e3)
            (Leaves-or_bad kstack_begin (KbrkEnd addr h.end) h _ (
              Leaves-map kstack_begin (GrownTo addr h.end) (KbrkEnd addr h.end) h h _ refl
                (λ k g q. (λ lt. q, λ le. absurd (ground arith)))
                (brk_grow_lem kstack_begin (omega arith) (omega arith) kvm_page_alloc_zeroed
                  kvm-IsPager (2 ^ 20) addr h w (ground arith) (omega arith))))
      | inr e3 ↦
          rw (e, e2, e3)
            (Leaves-or_bad kstack_begin (KbrkEnd addr h.end) h _ (
              Leaves-map kstack_begin (ShrunkTo addr h.end) (KbrkEnd addr h.end) h h _ refl
                (λ k g q. (λ lt. absurd (ground arith), λ le. q))
                (brk_shrink_lem kstack_begin (omega arith) kvm_page_free kvm-IsUnpager (2 ^ 20) addr
                  h w (ground arith) (omega (arith, w.below)))))
    ]
  ]
]

-- The end that a call of `sbrk` asks for: pages for all of the bytes more, or the whole pages among the
-- bytes less.
abbrev pub SbrkEnd : (incr old e : ℕ) → Type 0
SbrkEnd incr old e =
    (is_neg incr ≡ false → e ≡ old + (incr + 4_095) / 4_096 * 4_096)
    × (is_neg incr ≡ true → e + (2 ^ 32 - incr) / 4_096 * 4_096 ≡ old)

-- Both `ksbrk` and `uvm_sbrk`, on a heap below `top`.
module _ (top : ℕ) (small : top < 2 ^ 32) (whole : top % 4_096 ≡ 0) (alloc : Heap → ℕ × Heap)
    (pager : IsPager alloc) (free : Heap → Heap) (unpager : IsUnpager free) (incr : ℕ) (h : Heap)
    (w : IsHeap top h) (i : incr < 2 ^ 32) where
  grows :
      is_neg incr ≡ false
      → h.end + incr ≤ top
      → Leaves top (SbrkEnd incr h.end) h (or_bad (sbrk_grow alloc rounds incr h))
  grows n t = Leaves-or_bad top (SbrkEnd incr h.end) h _ (
      Leaves-map top (λ e. e ≡ h.end + (incr + 4_095) / 4_096 * 4_096) (SbrkEnd incr h.end) h h _
        refl (λ k g q. (λ p. q, λ p. absurd (ground arith)))
        (sbrk_grow_lem top small whole alloc pager (2 ^ 20) incr h w t (omega arith)))

  shrinks :
      is_neg incr ≡ true
      → h.start + (2 ^ 32 - incr) ≤ h.end
      → Leaves top
          (SbrkEnd incr h.end)
          h
          (or_bad (sbrk_shrink free rounds (sub32 0 incr - (page_size - 1)) h))
  shrinks n t =
      let decr = sub32 0 incr - (page_size - 1) in
      Leaves-or_bad top (SbrkEnd incr h.end) h _ (
        Leaves-map top (λ e. e + (decr + 4_095) / 4_096 * 4_096 ≡ h.end) (SbrkEnd incr h.end) h h _
          refl (λ k g q. (λ p. absurd (ground arith), λ p. ground arith))
          (sbrk_shrink_lem top small free unpager (2 ^ 20) decr h w (ground arith) (omega arith)))

-- On a heap of whole pages below the kernel stack `ksbrk` ends and leaves such a heap, if a decrement is not more than
-- the address of the end, so that the sum does not wrap. If it does not fail, the heap grew by the pages that hold the
-- increment, or shrank by the whole pages of the decrement.
pub ksbrk_lem :
    (incr : ℕ) (h : Heap)
    → incr < 2 ^ 32
    → (is_neg incr ≡ true → 2 ^ 32 - incr ≤ h.end)
    → IsHeap kstack_begin h
    → Leaves kstack_begin (SbrkEnd incr h.end) h (ksbrk incr h)
unfolding ksbrk
ksbrk_lem incr h i d w =
    let Q = SbrkEnd incr h.end in
    elim (Bool-cases (incr == 0)) [
      | inl e ↦ rw e (stays kstack_begin Q h w (λ n. ground arith, λ n. absurd (ground arith)))
      | inr e ↦ elim (Bool-cases (is_neg incr)) [
        | inl n ↦
            (let small = d n in
              elim (Bool-cases (ltb (add32 h.end incr) h.start)) [
                | inl e2 ↦ rw (e, n, e2) (failed kstack_begin Q h w)
                | inr e2 ↦
                    rw (e, n, e2)
                      (shrinks kstack_begin (omega arith) (omega arith) kvm_page_alloc_zeroed
                        kvm-IsPager kvm_page_free kvm-IsUnpager incr h w i n
                        (ground (arith, w.below)))
              ])
        | inr n ↦ elim (Bool-cases (ltb kstack_begin (add32 h.end incr))) [
          | inl e2 ↦ rw (e, n, e2) (failed kstack_begin Q h w)
          | inr e2 ↦
              rw (e, n, e2)
                (grows kstack_begin (omega arith) (omega arith) kvm_page_alloc_zeroed kvm-IsPager
                  kvm_page_free kvm-IsUnpager incr h w i n (ground (arith, w.below)))
        ]
      ]
    ]

-- On a heap of whole pages below the user stack `uvm_sbrk` ends and leaves such a heap, if the sum of the end and the increment
-- does not wrap, upwards or downwards; the heap grows and shrinks as in `ksbrk`.
pub uvm_sbrk_lem :
    (incr : ℕ) (h : Heap)
    → incr < 2 ^ 32
    → (is_neg incr ≡ true → 2 ^ 32 - incr ≤ h.end)
    → (is_neg incr ≡ false → h.end + incr < 2 ^ 32)
    → IsHeap ustack_begin h
    → Leaves ustack_begin (SbrkEnd incr h.end) h (uvm_sbrk incr h)
unfolding uvm_sbrk
uvm_sbrk_lem incr h i d u w =
    let Q = SbrkEnd incr h.end in
    elim (Bool-cases (incr == 0)) [
      | inl e ↦ rw e (stays ustack_begin Q h w (λ n. ground arith, λ n. absurd (ground arith)))
      | inr e ↦ elim (Bool-cases (is_neg incr)) [
        | inl n ↦
            (let small = d n in
              elim (Bool-cases (ltb (add32 h.end incr) h.start)) [
                | inl e2 ↦ rw (e, n, e2) (failed ustack_begin Q h w)
                | inr e2 ↦
                    rw (e, n, e2)
                      (shrinks ustack_begin (omega arith) (omega arith) uvm_page_alloc uvm-IsPager
                        uvm_page_free uvm-IsUnpager incr h w i n (ground (arith, w.below)))
              ])
        | inr n ↦
            (let small = u n in
              elim (Bool-cases (ltb ustack_begin (add32 h.end incr))) [
                | inl e2 ↦ rw (e, n, e2) (failed ustack_begin Q h w)
                | inr e2 ↦
                    rw (e, n, e2)
                      (grows ustack_begin (omega arith) (omega arith) uvm_page_alloc uvm-IsPager
                        uvm_page_free uvm-IsUnpager incr h w i n (ground (arith, w.below)))
              ])
      ]
    ]

round_up_lem :
    (addr : ℕ)
    → addr < 2 ^ 32
    → (round_up addr page_size % 4_096 ≡ 0)
      × ((round_up addr page_size ≡ 0) ⊎ (addr ≤ round_up addr page_size))
unfolding round_up
round_up_lem addr h = ground arith

-- On a heap of whole pages below the user stack `uvm_brk` of an address that is not below the start of the heap ends
-- and leaves such a heap; if it does not fail, the end is the address rounded up to a page.
pub uvm_brk_lem :
    (addr : ℕ) (h : Heap)
    → addr < 2 ^ 32
    → h.start ≤ addr
    → IsHeap ustack_begin h
    → Leaves ustack_begin (λ e. e ≡ round_up addr page_size) h (uvm_brk addr h)
unfolding uvm_brk
uvm_brk_lem addr h a s w =
    let to = round_up addr page_size in
    let (whole, far) = round_up_lem addr a in
    elim (Bool-cases (ltb to umem_begin || leb ustack_begin to)) [
      | inl e ↦ rw e (failed ustack_begin (λ e. e ≡ to) h w)
      | inr e ↦
          (let above : addr ≤ to = ground arith in
            elim (Bool-cases (to == h.end)) [
              | inl e2 ↦ rw (e, e2) (stays ustack_begin (λ e. e ≡ to) h w (ground arith))
              | inr e2 ↦ elim (Bool-cases (ltb h.end to)) [
                | inl e3 ↦
                    rw (e, e2, e3)
                      (Leaves-or_bad ustack_begin (λ e. e ≡ to) h _
                        (Leaves-map ustack_begin (GrownTo to h.end) (λ e. e ≡ to) h h _ refl
                          (λ k g (le, q). ground arith)
                          (brk_grow_lem ustack_begin (omega arith) (omega arith) uvm_page_alloc
                            uvm-IsPager (2 ^ 20) to h w (ground arith) (ground arith))))
                | inr e3 ↦
                    rw (e, e2, e3)
                      (Leaves-or_bad ustack_begin (λ e. e ≡ to) h _
                        (Leaves-map ustack_begin (ShrunkTo to h.end) (λ e. e ≡ to) h h _ refl
                          (λ k g (le, q). ground arith)
                          (brk_shrink_lem ustack_begin (omega arith) uvm_page_free uvm-IsUnpager
                            (2 ^ 20) to h w (omega arith) (omega (arith, w.below)))))
              ]
            ])
    ]
