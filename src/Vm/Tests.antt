-- ===== src/Vm/Tests.antt =====
-- The theorems on kernel/src/mm/kvm.c and uvm.c at concrete inputs.
use razos.Base.{◌-◌, ◌^◌, ◌≡◌, refl, arith, true, false, [], ◌∷◌, none, some, replicate}
use razos.Fs.Kernel.{clear}
use razos.Paging.{
  Paging, empty_entry, page_size, frame_free, get_phys, clear_frame, page_map, map_aligned, map_in,
  new_table,
}
use razos.Vm.{Heap, kstack_begin, ustack_begin, unmap_page}
use razos.Vm.Kvm.{kbrk, ksbrk, kvm_page_free}
use razos.Vm.Uvm.{uvm_brk, uvm_sbrk, round_up}
use razos.Vm.Loops.{IsHeap, Leaves}
use razos.Vm.Bounds.{KbrkEnd, SbrkEnd, kbrk_lem, ksbrk_lem, uvm_brk_lem, uvm_sbrk_lem}

abbrev memory : Paging
memory = record {
  frames = (true ∷ replicate 31 false) ∷ [];
  memsize = 32;
  tabs = λ t. [];
  heap = some 0x0030_0000 ∷ [];
  errno = clear;
}

abbrev kheap : Heap
kheap = record {
  dir = record { tables = replicate 1_024 none; tables_phys = replicate 1_024 empty_entry };
  paging = memory;
  start = 0x0040_0000;
  end = 0x0040_3000;
  cleared = [];
}

kheap-IsHeap : IsHeap kstack_begin kheap
kheap-IsHeap = record {
  start_page = refl;
  end_page = refl;
  order = omega arith;
  below = omega arith;
}

kbrk_example : Leaves kstack_begin (KbrkEnd 0x0040_5800 0x0040_3000) kheap (kbrk 0x0040_5800 kheap)
kbrk_example = kbrk_lem 0x0040_5800 kheap (omega arith) kheap-IsHeap

ksbrk_example :
    Leaves kstack_begin (SbrkEnd (2 ^ 32 - 5_000) 0x0040_3000) kheap (ksbrk (2 ^ 32 - 5_000) kheap)
ksbrk_example = ksbrk_lem (2 ^ 32 - 5_000) kheap (omega arith) (λ n. omega arith) kheap-IsHeap

abbrev uheap : Heap
uheap = record kheap { start = 0x1040_0000; end = 0x1040_3000 }

uheap-IsHeap : IsHeap ustack_begin uheap
uheap-IsHeap = record {
  start_page = refl;
  end_page = refl;
  order = omega arith;
  below = omega arith;
}

uvm_brk_example :
    Leaves ustack_begin (λ e. e ≡ round_up 0x1040_1234 page_size) uheap (uvm_brk 0x1040_1234 uheap)
uvm_brk_example = uvm_brk_lem 0x1040_1234 uheap (omega arith) (omega arith) uheap-IsHeap

uvm_sbrk_example : Leaves ustack_begin (SbrkEnd 9_000 0x1040_3000) uheap (uvm_sbrk 9_000 uheap)
uvm_sbrk_example =
    uvm_sbrk_lem 9_000 uheap (omega arith) (λ n. absurd (ground arith)) (λ n. omega arith)
      uheap-IsHeap

-- The page behind the heap is not mapped, so the frame that is given back is frame 0, which is kept
-- so that nothing is ever mapped there.
frees_frame_0 : (kvm_page_free kheap).paging.frames ≡ replicate 32 false ∷ []
unfolding kvm_page_free unmap_page get_phys frame_free clear_frame page_map map_aligned map_in
    new_table
frees_frame_0 = refl
