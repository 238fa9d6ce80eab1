-- ===== src/Kmalloc/Tests.antt =====
-- Runs of kernel/src/mm/kmalloc.c, and its theorems at concrete inputs.
use razos.Base.{◌+◌, ◌≡◌, refl, arith, true, false, [], ◌∷◌, none, some, replicate, inl}
use razos.Fs.Kernel.{clear}
use razos.Paging.{empty_entry}
use razos.Vm.{Heap, kstack_begin}
use razos.Vm.Loops.{IsHeap}
use razos.Kmalloc.{
  Node, Arena, do_kmalloc, round_up, search_arena, search_nodes, take_last, take_node, unfit,
  padding_of, split_node, grow_last,
}
use razos.Kmalloc.Tiles.{Tiles, LastFree, blocks, Inserted}
use razos.Kmalloc.Alloc.{IsStarted, IsNew, Allocated, kmalloc_lem}
use razos.Kmalloc.Free.{do_kfree, coalesce, large_last}
use razos.Kmalloc.Release.{this_node, do_kfree_lem}

abbrev heap_memory : Heap
heap_memory = record {
  dir = record { tables = replicate 1_024 none; tables_phys = replicate 1_024 empty_entry };
  paging = record {
    frames = (true ∷ replicate 31 false) ∷ [];
    memsize = 32;
    tabs = λ t. [];
    heap = some 0x0030_0000 ∷ [];
    errno = clear;
  };
  start = 0x0040_0000;
  end = 0x0040_3000;
  cleared = [];
}

heap_memory-IsHeap : IsHeap kstack_begin heap_memory
heap_memory-IsHeap = record {
  start_page = refl;
  end_page = refl;
  order = omega arith;
  below = omega arith;
}

abbrev new_arena : Arena
new_arena = record { kheap_start = 0; kheap_end = 0; kheap_size = 0; nodes = []; vm = heap_memory }

new_arena-IsNew : IsNew new_arena
new_arena-IsNew = record {
  start = refl;
  nodes = refl;
  vm = heap_memory-IsHeap;
  end = λ e. omega (arith, e);
}

kmalloc_example : Allocated 100 new_arena (do_kmalloc 100 16 new_arena)
kmalloc_example = kmalloc_lem 100 new_arena (omega arith) (omega arith) (inl new_arena-IsNew)

-- A block of 32 bytes, and the rest of three pages.
abbrev used_node : Node
used_node = record { addr = 0x0040_0000; size = 32; free = false; prev = 0 }

abbrev rest_node : Node
rest_node = record { addr = 0x0040_0030; size = 0x2FC0; free = true; prev = 0x0040_0000 }

abbrev small_arena : Arena
small_arena = record {
  kheap_start = 0x0040_0000;
  kheap_end = 0x0040_3000;
  kheap_size = 0x3000;
  nodes = used_node ∷ rest_node ∷ [];
  vm = heap_memory;
}

small_arena-IsStarted : IsStarted small_arena
unfolding Tiles LastFree
small_arena-IsStarted = record {
  backed = record { vm = heap_memory-IsHeap; end = refl };
  start = λ e. omega (arith, e);
  tiles = (refl, refl, refl, (refl, refl, refl, refl));
  last = refl;
}

do_kfree_example :
    let a' = do_kfree (0x0040_0000 + 16) small_arena in
    Inserted (blocks a'.nodes) (0x0040_0000 + 16, 32) (blocks small_arena.nodes)
    × (large_last
            (coalesce 0x0040_0000 small_arena.nodes).0
            (coalesce 0x0040_0000 small_arena.nodes).1
          ≡ false
        → IsStarted a')
do_kfree_example =
    do_kfree_lem 0x0040_0000 32 small_arena (this_node refl refl refl) small_arena-IsStarted

-- The second block, behind the first.
second_block : (do_kmalloc 100 16 small_arena).0 ≡ 0x0040_0040
unfolding do_kmalloc round_up search_arena search_nodes take_last take_node unfit padding_of
    split_node grow_last
second_block = refl

-- With an alignment of a page the node that is moved up takes its size from the next node; behind it
-- there is none, and the size wraps.
wrapped_size : (do_kmalloc 4_096 4_096 small_arena).0 ≡ 0x0040_1000
unfolding do_kmalloc round_up search_arena search_nodes take_last take_node unfit padding_of
    split_node grow_last
wrapped_size = refl
