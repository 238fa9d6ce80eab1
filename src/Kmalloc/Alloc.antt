-- ===== src/Kmalloc/Alloc.antt =====
-- What `kmalloc` gives out: `do_kmalloc` of kernel/src/mm/kmalloc.c with an alignment of 16.
use razos.Base.{
  ℕ, ◌-◌, ◌+◌, ◌%◌, ◌^◌, ◌<◌, ◌≤◌, ◌≡◌, ◌≢◌, ◌⊎◌, refl, ap, ◌∙◌, sym, arith, true, false, [], ◌∷◌,
  sub32, add32, inl, inr, ◌==◌, neg_one,
}
use razos.Base.Bits.{bit_and_fifteen}
use razos.Paging.{page_size}
use razos.Vm.{Heap, kstack_begin}
use razos.Vm.Kvm.{ksbrk}
use razos.Vm.Loops.{IsHeap}
use razos.Kmalloc.{
  Arena, node_t_size, round_up, break_of, search_nodes, search_arena, do_kmalloc, first_node,
  first_heap,
}
use razos.Kmalloc.Tiles.{Tiles, LastFree, blocks, Inserted, Apart, Tiles-Apart}
use razos.Kmalloc.Grow.{IsBacked, Broke, ksbrk-Broke}
use razos.Kmalloc.Search.{Served, Made, search_nodes_lem, search_nodes_start}

-- The heap as calls of `kmalloc` leave it: nodes that tile it.
pub record IsStarted (a : Arena) : Type 0 where
  pub backed : IsBacked a
  pub start : a.kheap_start ≢ 0
  pub tiles : Tiles a.kheap_start 0 a.kheap_end a.nodes
  pub last : LastFree false a.nodes

-- Before the first call there are no nodes.
pub record IsNew (a : Arena) : Type 0 where
  pub start : a.kheap_start ≡ 0
  pub nodes : a.nodes ≡ []
  pub vm : IsHeap kstack_begin a.vm
  pub end : a.vm.end ≢ 0

-- What a call leaves: the blocks as they were, or one more, of at least `size` bytes.
pub Allocated : ℕ → Arena → ℕ × Arena → Type 0
Allocated size a (ret, a') =
    ((ret ≡ 0) × (blocks a'.nodes ≡ blocks a.nodes))
    ⊎ (IsStarted a'
        × ((size' : ℕ) × (size ≤ size') × Inserted (blocks a.nodes) (ret, size') (blocks a'.nodes))
        × Apart a'.kheap_start (blocks a'.nodes)
        × (ret % 16 ≡ 0)
        × (ret ≢ 0))

round_up_lem :
    (size : ℕ)
    → size < 2 ^ 27
    → (size ≤ round_up size 16) × (round_up size 16 % 16 ≡ 0) × (round_up size 16 < 2 ^ 28)
unfolding round_up
round_up_lem size h = ground (arith, bit_and_fifteen size)

search_lem :
    (size want : ℕ) (a : Arena)
    → size < 2 ^ 28
    → size % 16 ≡ 0
    → want ≤ size
    → IsStarted a
    → Allocated want a (search_arena size 16 a)
unfolding search_arena Served Made Allocated
search_lem size want a s m le w =
    let t = search_nodes size 16 a.nodes a in
    let same = search_nodes_start size a.nodes a in
    elim (search_nodes_lem size a.nodes a.kheap_start 0 a s m w.start w.tiles w.last w.backed) [
      | inl (z, ns) ↦ inl (z, ap blocks ns)
      | inr (tiles, last, backed, made, r, ne) ↦
          (let tiles' : Tiles t.arena.kheap_start 0 t.arena.kheap_end t.nodes = rw same tiles in
            inr (
              record {
                backed = record { vm = backed.vm; end = backed.end };
                start = rw same w.start;
                tiles = tiles';
                last = last;
              },
              (size, le, made),
              Tiles-Apart t.nodes t.arena.kheap_start 0 t.arena.kheap_end tiles',
              r,
              ne,
            ))
    ]

Allocated-same :
    (want : ℕ) (a b : Arena) (r : ℕ × Arena)
    → blocks b.nodes ≡ blocks a.nodes
    → Allocated want b r
    → Allocated want a r
unfolding Allocated
Allocated-same want a b (ret, a') e (inl (z, same)) = inl (z, same ∙ e)
Allocated-same want a b (ret, a') e (inr (w, (size, le, (low, high, f, g)), apart, m, z)) =
    inr (w, (size, le, (low, high, sym e ∙ f, g)), apart, m, z)

first_lem :
    (size want : ℕ) (a : Arena) (r : ℕ × Heap)
    → size < 2 ^ 28
    → size % 16 ≡ 0
    → want ≤ size
    → IsNew a
    → Broke (size + 4_096) a.vm r
    → Allocated want a (first_heap size 16 a r)
unfolding first_heap Broke Allocated Tiles LastFree blocks
first_lem size want a (start, vm) s m le w (inl failed) = rw failed (inl (refl, refl))
first_lem size want a (start, vm) s m le w (inr (old, w', end)) =
    let below = w'.below in
    let test : (start == neg_one) ≡ false = ground (arith, w.vm.below) in
    let heap_size : sub32 vm.end start ≡ vm.end - start = omega (arith, w.vm.below) in
    let first : sub32 (vm.end - start) node_t_size ≡ vm.end - start - 16 =
      omega (arith, w.vm.below) in
    let b : Arena = record {
      kheap_start = start;
      kheap_end = vm.end;
      kheap_size = sub32 vm.end start;
      nodes = first_node start (sub32 vm.end start) ∷ [];
      vm = vm;
    } in
    let started : IsStarted b = record {
      backed = record { vm = w'; end = refl };
      start = rw old w.end;
      tiles =
          rw (heap_size, first)
            (
              refl,
              refl,
              omega (arith, w.vm.end_page, w'.end_page),
              omega (arith, w.vm.end_page, w'.end_page),
            );
      last = refl;
    } in
    rw test (
      Allocated-same want a b (search_arena size 16 b) (rw w.nodes refl)
        (search_lem size want b s m le started))

-- Where there is a heap or the first call is to make it, `kmalloc` of 1 to 2 ^ 27 - 1 bytes returns NULL and the blocks
-- that are given out are as they were; or it returns a block of at least that many bytes, at an
-- address that is a multiple of 16: then the nodes tile the heap, the other blocks are as they were, and all
-- blocks lie apart.
pub kmalloc_lem :
    (size : ℕ) (a : Arena)
    → 0 < size
    → size < 2 ^ 27
    → IsNew a ⊎ IsStarted a
    → Allocated size a (do_kmalloc size 16 a)
unfolding do_kmalloc
kmalloc_lem size a pos s (inr w) =
    let (le, m, small) = round_up_lem size s in
    let e : (size == 0) ≡ false = ground arith in
    let f : (a.kheap_start == 0) ≡ false = ground (arith, w.start) in
    rw (e, f) (search_lem (round_up size 16) size a small m le w)
kmalloc_lem size a pos s (inl w) =
    let (le, m, small) = round_up_lem size s in
    let e : (size == 0) ≡ false = ground arith in
    let f : (a.kheap_start == 0) ≡ true = ground (arith, w.start) in
    let more : add32 (round_up size 16) page_size ≡ round_up size 16 + 4_096 = omega arith in
    rw (e, f, more)
      (first_lem (round_up size 16) size a (break_of a.vm (ksbrk (round_up size 16 + 4_096) a.vm))
        small m le w (ksbrk-Broke (round_up size 16 + 4_096) a.vm (omega arith) w.vm))
