-- ===== src/Kmalloc/Free.antt =====
-- `do_kfree` of kernel/src/mm/kmalloc.c. A node is found by its address.
use razos.Base.{
  ℕ, ◌*◌, Bool, true, false, ltb, ◌==◌, ◌!=◌, ◌&&◌, if◌then◌else◌, List, [], ◌∷◌, Option, none,
  some, add32, sub32,
}
use razos.Paging.{page_size}
use razos.Vm.Kvm.{ksbrk}
use razos.Kmalloc.{Node, Arena, node_t_size, set_prev, break_of}

unfoldable pub node_at : ℕ → List Node → Option Node
node_at p [] = none
node_at p (n ∷ ns) = let rest = node_at p ns in if n.addr == p then some n else rest

abbrev pub first_free : List Node → Bool
first_free [] = false
first_free (n ∷ ns) = n.free

-- `ptr->next != NULL && ptr->next->status == KMALLOC_FREE`
unfoldable pub next_free : ℕ → List Node → Bool
next_free p [] = false
next_free p (n ∷ ns) = let rest = next_free p ns in if n.addr == p then first_free ns else rest

-- `ptr->status = KMALLOC_FREE`
unfoldable pub mark_free : ℕ → List Node → List Node
mark_free p [] = []
mark_free p (n ∷ ns) =
    let rest = n ∷ mark_free p ns in if n.addr == p then record n { free = true } ∷ ns else rest

abbrev pub merged : Node → List Node → List Node
merged n [] = n ∷ []
merged n (m ∷ ns) = record n { size = add32 n.size (add32 m.size node_t_size) } ∷ set_prev n.addr ns

unfoldable pub unify_fwd : ℕ → List Node → List Node
unify_fwd p [] = []
unify_fwd p (n ∷ ns) = let rest = n ∷ unify_fwd p ns in if n.addr == p then merged n ns else rest

abbrev pub is_free : Option Node → Bool
is_free none = false
is_free (some n) = n.free

-- `ptr->prev`, if it is not NULL and the node there is free.
abbrev pub free_prev_of : Option Node → List Node → Option ℕ
free_prev_of none nodes = none
free_prev_of (some n) nodes =
    if (n.prev != 0) && is_free (node_at n.prev nodes) then some n.prev else none

abbrev pub unify_prev : ℕ → Option ℕ → List Node → ℕ × List Node
unify_prev p none nodes = (p, nodes)
unify_prev p (some q) nodes = (q, unify_fwd q nodes)

abbrev pub unify_next : ℕ → List Node → List Node
unify_next p nodes = if next_free p nodes then unify_fwd p nodes else nodes

-- The node is marked, and joined with the free nodes beside it: the address in `ptr`, and the nodes.
unfoldable pub coalesce : ℕ → List Node → ℕ × List Node
coalesce p nodes =
    let nodes' = unify_next p (mark_free p nodes) in
    unify_prev p (free_prev_of (node_at p nodes') nodes') nodes'

-- `ptr->next == NULL && ptr->size > 2 * PAGE_SIZE`
unfoldable pub large_last : ℕ → List Node → Bool
large_last p [] = false
large_last p (n ∷ []) = (n.addr == p) && ltb (2 * page_size) n.size
large_last p (n ∷ m ∷ ns) = large_last p (m ∷ ns)

-- The last node after the heap was cut.
unfoldable pub cut_last : ℕ → List Node → List Node
cut_last less [] = []
cut_last less (n ∷ []) = record n { size = sub32 n.size less } ∷ []
cut_last less (n ∷ m ∷ ns) = n ∷ cut_last less (m ∷ ns)

abbrev pub last_size : List Node → ℕ
last_size [] = 0
last_size (n ∷ []) = n.size
last_size (n ∷ m ∷ ns) = last_size (m ∷ ns)

-- Some of the heap is freed, if the joined node is the last one and large.
unfoldable pub give_back : ℕ × List Node → Arena → Arena
give_back (p, nodes) a =
    let (prev_end, vm) = break_of a.vm (ksbrk (sub32 0 (last_size nodes)) a.vm) in
    if large_last p nodes
    then record a { nodes = cut_last (sub32 prev_end vm.end) nodes; vm = vm; kheap_end = vm.end }
    else record a { nodes = nodes }

unfoldable pub do_kfree : ℕ → Arena → Arena
do_kfree addr a = give_back (coalesce (sub32 addr node_t_size) a.nodes) a
