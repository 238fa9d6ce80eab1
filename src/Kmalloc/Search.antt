-- ===== src/Kmalloc/Search.antt =====
-- The loop over the nodes in `do_kmalloc`, without padding: kernel/src/mm/kmalloc.c.
use razos.Base.{
  ℕ, ◌+◌, ◌%◌, ◌^◌, ◌<◌, ◌≤◌, ◌≡◌, ◌≢◌, ◌⊎◌, refl, ap, ◌∙◌, sym, arith, true, false, List, [], ◌∷◌,
  add32, ◌!=◌, Bool-cases, inl, inr, Option, none, some,
}
use razos.Kmalloc.{
  Node, Arena, Taken, behind, node_t_size, padding_of, take_node, unfit, take_last, search_nodes,
  grow_last, grown_by, split_node,
}
use razos.Kmalloc.Tiles.{
  Tiles, Tiles-le, Tiles-mod, LastFree, LastFree-set_prev, LastFree-any, blocks, split_node-Tiles,
  Inserted, Inserted-behind, blocks-free,
}
use razos.Kmalloc.Grow.{IsBacked, Grown, grow_last_lem}

-- A block of the size was made, at the address that is returned.
unfoldable pub Made : ℕ → ℕ → ℕ → List Node → Taken → Type 0
Made size at prev ns t =
    Tiles at prev t.arena.kheap_end t.nodes
    × LastFree false t.nodes
    × IsBacked t.arena
    × Inserted (blocks ns) (t.ret, size) (blocks t.nodes)
    × (t.ret % 16 ≡ 0)
    × (t.ret ≢ 0)

-- No node was found, and the nodes are as they were; or a block was made.
unfoldable pub Served : ℕ → ℕ → ℕ → List Node → Taken → Type 0
unfolding Made
Served size at prev ns t = ((t.ret ≡ 0) × (t.nodes ≡ ns)) ⊎ Made size at prev ns t

no_padding : (addr : ℕ) → addr % 16 ≡ 0 → padding_of addr 16 ≡ 0
unfolding padding_of
no_padding addr h = ground arith

unfit_lem :
    (size : ℕ) (n : Node)
    → size < 2 ^ 28
    → n.addr % 16 ≡ 0
    → unfit size 16 n ≡ false
    → (n.free ≡ true) × (size ≤ n.size)
unfolding unfit
unfit_lem size n s h e = ground (arith, no_padding n.addr h)

fits :
    (size : ℕ) (n : Node)
    → size < 2 ^ 28
    → n.addr % 16 ≡ 0
    → n.free ≡ true
    → size ≤ n.size
    → unfit size 16 n ≡ false
unfolding unfit
fits size n s h f l = ground (arith, no_padding n.addr h)

split_node-LastFree :
    (size limit : ℕ) (n : Node) (ns : List Node)
    → LastFree true ns
    → (n.size ≢ size) ⊎ LastFree false ns
    → LastFree false (split_node size n ns limit)
unfolding split_node LastFree
split_node-LastFree size limit n ns l c = elim (Bool-cases (n.size != size)) [
  | inl e ↦ rw e (LastFree-set_prev true (add32 (add32 n.addr node_t_size) size) ns l)
  | inr e ↦ elim c [ inl ne ↦ absurd (ne (ground arith)) | inr f ↦ rw e f ]
]

taken :
    (size at prev : ℕ) (n : Node) (ns : List Node) (a : Arena)
    → size % 16 ≡ 0
    → Tiles at prev a.kheap_end (n ∷ ns)
    → LastFree true ns
    → (n.size ≢ size) ⊎ LastFree false ns
    → IsBacked a
    → at ≢ 0
    → n.free ≡ true
    → size ≤ n.size
    → Made size at prev (n ∷ ns) (take_node size (padding_of n.addr 16) n ns a)
unfolding Made take_node Tiles
taken size at prev n ns a m (p, q, r, t) l c w z f h =
    let tiles : Tiles at prev a.kheap_end (n ∷ ns) = (p, q, r, t) in
    let limit : a.kheap_end < 2 ^ 32 = omega (arith, w.vm.below, w.end) in
    let whole : a.kheap_end % 16 ≡ 0 = omega (arith, w.vm.end_page, w.end) in
    let aligned = Tiles-mod at prev a.kheap_end (n ∷ ns) tiles whole in
    let below = Tiles-le (at + 16 + n.size) n.addr a.kheap_end ns t in
    let (tiles', made) = split_node-Tiles at prev a.kheap_end size n ns tiles z limit m h in
    let ret : add32 n.addr node_t_size ≡ at + 16 = omega arith in
    let pad = no_padding n.addr (omega arith) in
    rw (pad, ret)
      (
        tiles',
        split_node-LastFree size a.kheap_end n ns l c,
        w,
        ([], blocks ns, blocks-free n ns f, made),
        omega arith,
        λ e. omega arith,
      )

-- A free node alone has no block.
one_free :
    (size at prev : ℕ) (n n' : Node) (t : Taken)
    → n.free ≡ true
    → n'.free ≡ true
    → Made size at prev (n' ∷ []) t
    → Made size at prev (n ∷ []) t
unfolding Made blocks
one_free size at prev n n' t f f' (tiles, last, w, (low, high, e, e'), m, z) =
    (tiles, last, w, (low, high, blocks-free n [] f ∙ sym (blocks-free n' [] f') ∙ e, e'), m, z)

last-Served :
    (size at prev : ℕ) (n : Node) (r : Option Node × Arena)
    → size < 2 ^ 28
    → size % 16 ≡ 0
    → n.addr ≡ at
    → n.prev ≡ prev
    → n.free ≡ true
    → at ≢ 0
    → Grown size at n r
    → Served size at prev (n ∷ []) (take_last size 16 n r)
unfolding Grown take_last Served Tiles LastFree
last-Served size at prev n (none, a) s m p q f z g = inl (refl, refl)
last-Served size at prev n (some n', a) s m p q f z (p', q', f', d, room, end, w) =
    let tiles : Tiles at prev a.kheap_end (n' ∷ []) = (p' ∙ p, q' ∙ q, d, end) in
    let aligned : n'.addr % 16 ≡ 0 = omega (arith, w.vm.end_page, w.end) in
    let fit = fits size n' s aligned (f' ∙ f) (omega arith) in
    let other : n'.size ≢ size = (λ e. omega arith) in
    rw fit (
      inr (
        one_free size at prev n n' _ f (f' ∙ f)
          (taken size at prev n' [] a m tiles refl (inl other) w z (f' ∙ f) (omega arith))))

behind-Served :
    (size at prev : ℕ) (n : Node) (ns : List Node) (t : Taken)
    → n.addr ≡ at
    → n.prev ≡ prev
    → n.size % 16 ≡ 0
    → Served size (at + 16 + n.size) n.addr ns t
    → Served size at prev (n ∷ ns) (behind n t)
unfolding Served Made Tiles LastFree
behind-Served size at prev n ns t p q r (inl (z, same)) = inl (z, ap (λ l. n ∷ l) same)
behind-Served size at prev n ns t p q r (inr (tiles, last, w, made, m, z)) = inr (
  (p, q, r, tiles),
  LastFree-any n.free t.nodes last,
  w,
  Inserted-behind n ns (t.ret, size) t.nodes made,
  m,
  z,
)

-- The loop over nodes that tile the heap.
pub search_nodes_lem :
    (size : ℕ) (ns : List Node) (at prev : ℕ) (a : Arena)
    → size < 2 ^ 28
    → size % 16 ≡ 0
    → at ≢ 0
    → Tiles at prev a.kheap_end ns
    → LastFree false ns
    → IsBacked a
    → Served size at prev ns (search_nodes size 16 ns a)
unfolding search_nodes Tiles LastFree Served
search_nodes_lem size [] at prev a s m z t l w = absurd (ground arith)
search_nodes_lem size (n ∷ []) at prev a s m z (p, q, r, t) l w =
    last-Served size at prev n (grow_last size n a) s m p q l z
      (grow_last_lem size at n a w s m r t)
search_nodes_lem size (n ∷ k ∷ ns) at prev a s m z (p, q, r, t) l w =
    elim (Bool-cases (unfit size 16 n)) [
      | inl e ↦ rw e (
          behind-Served size at prev n (k ∷ ns) _ p q r (
            search_nodes_lem size (k ∷ ns) (at + 16 + n.size) n.addr a s m (λ e. omega arith) t l
              w))
      | inr e ↦
          (let whole : a.kheap_end % 16 ≡ 0 = omega (arith, w.vm.end_page, w.end) in
            let aligned = Tiles-mod at prev a.kheap_end (n ∷ k ∷ ns) (p, q, r, t) whole in
            let (f, fit) = unfit_lem size n s (omega arith) e in
            rw e (inr (taken size at prev n (k ∷ ns) a m (p, q, r, t) l (inr l) w z f fit)))
    ]

take_node_start :
    (size pad : ℕ) (n : Node) (ns : List Node) (a : Arena)
    → (take_node size pad n ns a).arena.kheap_start ≡ a.kheap_start
unfolding take_node
take_node_start size pad n ns a = ground arith

grow_last_start :
    (size : ℕ) (n : Node) (a : Arena) → (grow_last size n a).1.kheap_start ≡ a.kheap_start
unfolding grow_last grown_by
grow_last_start size n a = ground arith

take_last_start :
    (size : ℕ) (n : Node) (r : Option Node × Arena)
    → (take_last size 16 n r).arena.kheap_start ≡ r.1.kheap_start
unfolding take_last
take_last_start size n (none, a) = refl
take_last_start size n (some n', a) = elim (Bool-cases (unfit size 16 n')) [
  | inl e ↦ rw e refl
  | inr e ↦ rw e (take_node_start size (padding_of n'.addr 16) n' [] a)
]

-- The start of the heap stays.
pub search_nodes_start :
    (size : ℕ) (ns : List Node) (a : Arena)
    → (search_nodes size 16 ns a).arena.kheap_start ≡ a.kheap_start
unfolding search_nodes
search_nodes_start size [] a = refl
search_nodes_start size (n ∷ []) a =
    take_last_start size n (grow_last size n a) ∙ grow_last_start size n a
search_nodes_start size (n ∷ k ∷ ns) a = elim (Bool-cases (unfit size 16 n)) [
  | inl e ↦ rw e (search_nodes_start size (k ∷ ns) a)
  | inr e ↦ rw e (take_node_start size (padding_of n.addr 16) n (k ∷ ns) a)
]
