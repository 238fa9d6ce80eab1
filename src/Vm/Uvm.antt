-- ===== src/Vm/Uvm.antt =====
-- kernel/src/mm/uvm.c: `start` and `end` are `uheap_begin` and `uheap_end` of the current task, and the
-- directory is the task's.
use razos.Base.{
  ℕ, ◌+◌, ◌-◌, ◌%◌, ◌||◌, ltb, leb, ◌==◌, ◌!=◌, if◌then◌else◌, ◌∷◌, is_neg, add32, sub32,
}
use razos.Paging.{page_size, pf_pres, pf_rw, pf_user}
use razos.Vm.{
  Heap, Outcome, fails, goes, umem_begin, ustack_begin, map_page, unmap_page, with_enomem, rounds,
  or_bad, brk_grow, brk_shrink, sbrk_grow, sbrk_shrink,
}

-- util.h
unfoldable pub round_up : ℕ → ℕ → ℕ
round_up val divisor = if val % divisor != 0 then sub32 (add32 val divisor) (val % divisor) else val

-- Without a page the result is NULL.
unfoldable pub uvm_page_alloc : Heap → ℕ × Heap
uvm_page_alloc h =
    let (ret, h') = map_page h.end (pf_pres + pf_rw + pf_user) h in
    let mapped = record h' { end = add32 h.end page_size; cleared = ret ∷ h'.cleared } in
    if ltb h.end ustack_begin
    then (if ret == 0 then (0, h') else (ret, mapped))
    else (0, with_enomem h)

unfoldable pub uvm_page_free : Heap → Heap
uvm_page_free h =
    let addr = sub32 h.end page_size in record (unmap_page addr h) { end = sub32 h.end page_size }

-- 0 is `goes`, and -1 is `fails`.
unfoldable pub uvm_brk : ℕ → Heap → Outcome
uvm_brk addr h =
    let addr = round_up addr page_size in
    if ltb addr umem_begin || leb ustack_begin addr
    then fails (with_enomem h)
    else if addr == h.end
    then goes h
    else if ltb h.end addr
    then or_bad (brk_grow uvm_page_alloc rounds addr h)
    else or_bad (brk_shrink uvm_page_free rounds addr h)

-- The old end is returned by `goes`, and -1 by `fails`.
unfoldable pub uvm_sbrk : ℕ → Heap → Outcome
uvm_sbrk incr h =
    let decr = sub32 0 incr in
    if incr == 0
    then goes h
    else if is_neg incr
    then (if ltb (add32 h.end incr) h.start
        then fails (with_enomem h)
        else or_bad (sbrk_shrink uvm_page_free rounds (decr - (page_size - 1)) h))
    else if ltb ustack_begin (add32 h.end incr)
    then fails (with_enomem h)
    else or_bad (sbrk_grow uvm_page_alloc rounds incr h)
