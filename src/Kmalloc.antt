-- ===== src/Kmalloc.antt =====
-- The heap of the kernel: kernel/src/mm/kmalloc.c, over `ksbrk`. The nodes are in the order of their
-- `next` pointers; an address 0 is NULL, and `prev` is the address that the node holds.
pub mod Tiles
pub mod Grow
pub mod Search
pub mod Alloc
pub mod Free
pub mod Release
mod Tests
use razos.Base.{
  ℕ, ◌+◌, ◌-◌, ◌*◌, ◌||◌, ◌%◌, ◌^◌, Bool, true, false, not, ltb, ◌==◌, ◌!=◌, ◌&&◌, if◌then◌else◌,
  List, [], ◌∷◌, Option, none, some, neg_one, add32, sub32, bit_and,
}
use razos.Paging.{page_size}
use razos.Vm.{Heap, Outcome, fails, goes, out_of_fuel, with_enomem}
use razos.Vm.Kvm.{ksbrk}

-- `struct kheap_node_t`; `free` is `status == KMALLOC_FREE`.
pub record Node : Type 0 where
  pub addr : ℕ
  pub size : ℕ
  pub free : Bool
  pub prev : ℕ

abbrev pub node_t_size : ℕ
node_t_size = 16

-- The statics of kmalloc.c, the nodes from `kheap_start`, and what `ksbrk` works on.
pub record Arena : Type 0 where
  pub kheap_start : ℕ
  pub kheap_end : ℕ
  pub kheap_size : ℕ
  pub nodes : List Node
  pub vm : Heap

-- kmalloc.c has its own `round_up`.
unfoldable pub round_up : ℕ → ℕ → ℕ
round_up num align =
    if bit_and num (sub32 align 1) != 0
    then sub32 (add32 num align) (add32 num align % align)
    else num

-- What a call of `ksbrk` returns, and the heap then.
abbrev pub break_of : Heap → Outcome → ℕ × Heap
break_of old (goes h) = (old.end, h)
break_of old (fails h) = (neg_one, h)
break_of old out_of_fuel = (neg_one, old)

-- A node that is found, split or grown: the nodes from it on, the result, and the state.
pub record Taken : Type 0 where
  pub nodes : List Node
  pub ret : ℕ
  pub arena : Arena

abbrev pub behind : Node → Taken → Taken
behind n t = record t { nodes = n ∷ t.nodes }

-- `padding->next->prev = padding`
abbrev pub set_prev : ℕ → List Node → List Node
set_prev addr [] = []
set_prev addr (n ∷ ns) = record n { prev = addr } ∷ ns

-- The address of the first node, or NULL.
abbrev pub next_of : List Node → ℕ
next_of [] = 0
next_of (n ∷ ns) = n.addr

-- The rest of a node of another size becomes a free node.
unfoldable pub split_node : ℕ → Node → List Node → ℕ → List Node
split_node size n after kheap_end =
    let cur : Node = record n { size = size; free = false } in
    let addr = add32 (add32 n.addr node_t_size) size in
    let limit = if next_of after != 0 then next_of after else kheap_end in
    let rest : Node = record {
      addr = addr;
      size = sub32 (sub32 limit addr) node_t_size;
      free = true;
      prev = n.addr;
    } in
    if n.size != size then cur ∷ rest ∷ set_prev addr after else cur ∷ after

-- The padding that the alignment asks for: the test adds 16 nodes, not 16 bytes, to the address.
unfoldable pub padding_of : ℕ → ℕ → ℕ
padding_of addr align =
    if add32 addr (node_t_size * node_t_size) % align != 0 then align - addr % align else 0

-- A node that is large enough is padded, split and reserved.
unfoldable pub take_node : ℕ → ℕ → Node → List Node → Arena → Taken
take_node size pad n after a =
    let moved : Node = record {
      addr = sub32 (add32 n.addr pad) node_t_size;
      size = sub32 (sub32 (next_of after) (sub32 (add32 n.addr pad) node_t_size)) node_t_size;
      free = n.free;
      prev = n.addr;
    } in
    let padding = record n { size = sub32 pad (2 * node_t_size); free = true } in
    if (pad != 0) && (pad != node_t_size)
    then record {
      nodes = padding ∷ split_node size moved after a.kheap_end;
      ret = add32 moved.addr node_t_size;
      arena = a;
    }
    else record {
      nodes = split_node size n after a.kheap_end;
      ret = add32 n.addr node_t_size;
      arena = a;
    }

-- What follows the first call of `ksbrk` in the branch that grows the last node: `none` is the failure.
unfoldable pub grown_by : Node → Arena → ℕ × Heap → Option Node × Arena
grown_by n a (prev_end, vm) =
    let more = sub32 vm.end prev_end in
    let a' : Arena = record a { vm = vm; kheap_end = vm.end } in
    if prev_end == neg_one then (none, record a' { vm = with_enomem vm }) else (
      some (record n { size = add32 n.size more }),
      record a' { kheap_size = add32 a.kheap_size more },
    )

-- The last node grows, if it is not a page larger than what is asked for.
unfoldable pub grow_last : ℕ → Node → Arena → Option Node × Arena
grow_last size n a =
    let out = grown_by n a (break_of a.vm (ksbrk (sub32 (add32 size page_size) n.size) a.vm)) in
    if ltb n.size (add32 size page_size) then out else (some n, a)

-- Whether the loop goes on to the next node.
unfoldable pub unfit : ℕ → ℕ → Node → Bool
unfit size align n = not n.free || ltb n.size (add32 size (padding_of n.addr align))

-- The last round of the loop.
unfoldable pub take_last : ℕ → ℕ → Node → Option Node × Arena → Taken
take_last size align n (none, a) = record { nodes = n ∷ []; ret = 0; arena = a }
take_last size align n (some n', a) =
    if unfit size align n'
    then record { nodes = n' ∷ []; ret = 0; arena = a }
    else take_node size (padding_of n'.addr align) n' [] a

-- The loop over the nodes.
unfoldable pub search_nodes : ℕ → ℕ → List Node → Arena → Taken
search_nodes size align [] a = record { nodes = []; ret = 0; arena = a }
search_nodes size align (n ∷ []) a = take_last size align n (grow_last size n a)
search_nodes size align (n ∷ m ∷ ns) a =
    let rest = behind n (search_nodes size align (m ∷ ns) a) in
    if unfit size align n then rest else take_node size (padding_of n.addr align) n (m ∷ ns) a

-- The first node, which the first call makes.
abbrev pub first_node : ℕ → ℕ → Node
first_node start size = record {
  addr = start;
  size = sub32 size node_t_size;
  free = true;
  prev = 0;
}

unfoldable pub search_arena : ℕ → ℕ → Arena → ℕ × Arena
search_arena size align a =
    let t = search_nodes size align a.nodes a in (t.ret, record t.arena { nodes = t.nodes })

-- The first call, with what `ksbrk` returned.
unfoldable pub first_heap : ℕ → ℕ → Arena → ℕ × Heap → ℕ × Arena
first_heap size align a (start, vm) =
    let heap_size = sub32 vm.end start in
    if start == neg_one
    then (0, record a { kheap_start = neg_one; vm = with_enomem vm })
    else search_arena size align (record {
      kheap_start = start;
      kheap_end = vm.end;
      kheap_size = heap_size;
      nodes = first_node start heap_size ∷ [];
      vm = vm;
    })

unfoldable pub do_kmalloc : ℕ → ℕ → Arena → ℕ × Arena
do_kmalloc size align a =
    let size' = round_up size node_t_size in
    if size == 0
    then (0, a)
    else if a.kheap_start == 0
    then first_heap size' align a (break_of a.vm (ksbrk (add32 size' page_size) a.vm))
    else search_arena size' align a
