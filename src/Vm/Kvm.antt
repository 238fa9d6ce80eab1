-- ===== src/Vm/Kvm.antt =====
-- kernel/src/mm/kvm.c: `end` is `kheap_start + kheap_size`, and `cur_page_dir` is the directory.
use razos.Base.{ℕ, ◌+◌, ◌-◌, ◌||◌, ltb, ◌==◌, if◌then◌else◌, ◌∷◌, is_neg, add32, sub32}
use razos.Paging.{page_size, pf_pres, pf_rw}
use razos.Vm.{
  Heap, Outcome, fails, goes, kstack_begin, map_page, unmap_page, with_enomem, rounds, or_bad,
  brk_grow, brk_shrink, sbrk_grow, sbrk_shrink,
}

-- `kvm_page_alloc` and `kvm_page_alloc_zeroed`: without a page the result is NULL.
unfoldable pub kvm_page_alloc : Heap → ℕ × Heap
kvm_page_alloc h =
    let (ret, h') = map_page h.end (pf_pres + pf_rw) h in
    if ret == 0 then (0, with_enomem h') else (ret, record h' { end = add32 h.end page_size })

unfoldable pub kvm_page_alloc_zeroed : Heap → ℕ × Heap
kvm_page_alloc_zeroed h =
    let (ret, h') = kvm_page_alloc h in
    if ret == 0 then (0, h') else (ret, record h' { cleared = ret ∷ h'.cleared })

-- The page that is taken back is the one behind the heap.
unfoldable pub kvm_page_free : Heap → Heap
kvm_page_free h = record (unmap_page h.end h) { end = sub32 h.end page_size }

-- 0 is `goes`, and -1 is `fails`.
unfoldable pub kbrk : ℕ → Heap → Outcome
kbrk addr h =
    if ltb addr h.start || ltb kstack_begin addr
    then fails (with_enomem h)
    else if addr == h.end
    then goes h
    else if ltb h.end addr
    then or_bad (brk_grow kvm_page_alloc_zeroed rounds addr h)
    else or_bad (brk_shrink kvm_page_free rounds addr h)

-- The old end is returned by `goes`, and -1 by `fails`.
unfoldable pub ksbrk : ℕ → Heap → Outcome
ksbrk incr h =
    let decr = sub32 0 incr in
    if incr == 0
    then goes h
    else if is_neg incr
    then (if ltb (add32 h.end incr) h.start
        then fails (with_enomem h)
        else or_bad (sbrk_shrink kvm_page_free rounds (decr - (page_size - 1)) h))
    else if ltb kstack_begin (add32 h.end incr)
    then fails (with_enomem h)
    else or_bad (sbrk_grow kvm_page_alloc_zeroed rounds incr h)
