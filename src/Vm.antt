-- ===== src/Vm.antt =====
-- The heap of the kernel and the heap of a task: kernel/src/mm/kvm.c and uvm.c. An `intptr_t` is its
-- bit pattern, below 2 ^ 32.
pub mod Loops
pub mod Kvm
pub mod Uvm
pub mod Bounds
mod Tests
use razos.Base.{
  ℕ, zero, suc, ◌+◌, ◌-◌, ◌*◌, ◌/◌, ◌%◌, ◌^◌, Bool, true, false, ◌&&◌, ◌||◌, ltb, leb, ◌==◌, ◌!=◌,
  if◌then◌else◌, List, [], ◌∷◌, Option, none, some, is_neg, neg_one, add32, sub32,
}
use razos.Fs.Kernel.{Errno, enomem}
use razos.Paging.{
  PageDir, Paging, Mapped, page_size, pf_pres, pf_rw, pf_user, frame_alloc, frame_free, get_phys,
  page_map,
}

-- paging.h
abbrev pub kstack_begin : ℕ
kstack_begin = 0x0FC0_0000

abbrev pub umem_begin : ℕ
umem_begin = 0x1000_0000

abbrev pub ustack_begin : ℕ
ustack_begin = 0xFFC0_0000

-- What both heaps work on: a directory, the state of paging, the bounds of the heap, and the pages that
-- were cleared, the last one first.
pub record Heap : Type 0 where
  pub dir : PageDir
  pub paging : Paging
  pub start : ℕ
  pub end : ℕ
  pub cleared : List ℕ

abbrev pub with_enomem : Heap → Heap
with_enomem h = record h { paging = record h.paging { errno = enomem } }

-- A call that does not end in time is `none`; it fails, or it goes on.
pub data Outcome : Type 0 where
  fails : Heap → Outcome
  goes : Heap → Outcome
  out_of_fuel : Outcome

-- A page from `frame_alloc`, mapped at `addr`: the address, and the heap then.
unfoldable pub map_page : ℕ → ℕ → Heap → ℕ × Heap
map_page addr flags h =
    let (frame, paging) = frame_alloc h.paging in
    let m = page_map addr frame flags h.dir paging in
    (m.ret, record h { dir = m.dir; paging = m.state })

-- The page at `addr` goes back to the free frames.
unfoldable pub unmap_page : ℕ → Heap → Heap
unmap_page addr h =
    let paging = frame_free (get_phys addr h.dir h.paging) h.paging in
    let m = page_map addr 0 0 h.dir paging in record h { dir = m.dir; paging = m.state }

-- Rounds of a loop over the pages: more than there are pages.
abbrev pub rounds : ℕ
rounds = 2 ^ 20 + 1

-- What stands behind the label `bad`.
abbrev pub or_bad : Outcome → Outcome
or_bad (fails h) = fails (with_enomem h)
or_bad (goes h) = goes h
or_bad out_of_fuel = out_of_fuel

-- The loops of both files, with their own functions for one page.
module _ (alloc : Heap → ℕ × Heap) where
  -- `while (addr > end)`
  unfoldable pub brk_grow : ℕ → ℕ → Heap → Outcome
  brk_grow zero addr h = out_of_fuel
  brk_grow (suc fuel) addr h =
      let (ret, h') = alloc h in
      let rest = brk_grow fuel addr h' in
      if ltb h.end addr then (if ret == 0 then fails h' else rest) else goes h

  -- `while (incr > 0)`, at a positive or a spent `incr`.
  unfoldable pub sbrk_grow : ℕ → ℕ → Heap → Outcome
  sbrk_grow zero incr h = out_of_fuel
  sbrk_grow (suc fuel) incr h =
      let (ret, h') = alloc h in
      let rest = sbrk_grow fuel (incr - page_size) h' in
      if ltb 0 incr then (if ret == 0 then fails h' else rest) else goes h

module _ (free : Heap → Heap) where
  -- `while (addr < end)`
  unfoldable pub brk_shrink : ℕ → ℕ → Heap → Outcome
  brk_shrink zero addr h = out_of_fuel
  brk_shrink (suc fuel) addr h =
      let rest = brk_shrink fuel addr (free h) in if ltb addr h.end then rest else goes h

  -- `while (incr < 0)`, with `decr` for `-incr`.
  unfoldable pub sbrk_shrink : ℕ → ℕ → Heap → Outcome
  sbrk_shrink zero decr h = out_of_fuel
  sbrk_shrink (suc fuel) decr h =
      let rest = sbrk_shrink fuel (decr - page_size) (free h) in if ltb 0 decr then rest else goes h
