-- ===== src/Kmalloc/Release.antt =====
-- What `kfree` takes back: `do_kfree` of kernel/src/mm/kmalloc.c.
use razos.Base.{
  ℕ, ◌+◌, ◌^◌, ◌<◌, ◌≤◌, ◌≡◌, ◌⊎◌, refl, ap, ◌∙◌, sym, arith, Bool, true, false, List, [], ◌∷◌,
  sub32, add32, ◌!=◌, ◌&&◌, Bool-cases, Option-cases, inl, inr, ◌==◌, some,
}
use razos.Kmalloc.{Node, Arena, node_t_size, set_prev}
use razos.Kmalloc.Tiles.{
  Tiles, Tiles-le, LastFree, LastFree-set_prev, set_prev-Tiles, blocks, blocks-set_prev, Inserted,
  Inserted-behind, blocks-free,
}
use razos.Kmalloc.Alloc.{IsStarted}
use razos.Kmalloc.Free.{
  node_at, first_free, next_free, mark_free, merged, unify_fwd, is_free, free_prev_of, unify_prev,
  unify_next, coalesce, large_last, cut_last, give_back, do_kfree,
}

-- A block stands at the node.
pub data InUse (p size : ℕ) : List Node → Type 0 where
  this_node :
      {n : Node} {ns : List Node}
      → n.addr ≡ p
      → n.free ≡ false
      → n.size ≡ size
      → InUse p size (n ∷ ns)
  later_node :
      {n : Node} {ns : List Node} → (n.addr == p) ≡ false → InUse p size ns → InUse p size (n ∷ ns)

InUse-lt :
    {p size : ℕ} {ns : List Node}
    → InUse p size ns
    → (at prev limit : ℕ) → Tiles at prev limit ns
    → p + 16 ≤ limit
unfolding Tiles
InUse-lt (this_node {n} {ns} e f s) at prev limit (x, y, z, t) =
    omega (arith, Tiles-le (at + 16 + n.size) n.addr limit ns t)
InUse-lt (later_node {n} {ns} e u) at prev limit (x, y, z, t) =
    InUse-lt u (at + 16 + n.size) n.addr limit t

-- Marking takes the block away, and moves no node.
mark_free_lem :
    {p size : ℕ} {ns : List Node}
    → InUse p size ns
    → (at prev limit : ℕ) (b : Bool) → Tiles at prev limit ns
    → LastFree b ns
    → Tiles at prev limit (mark_free p ns)
      × LastFree b (mark_free p ns)
      × Inserted (blocks (mark_free p ns)) (p + 16, size) (blocks ns)
      × (is_free (node_at p (mark_free p ns)) ≡ true)
unfolding mark_free Tiles LastFree blocks node_at
mark_free_lem {p} {size} (this_node {n} {ns} e f s) at prev limit b (x, y, z, t) l =
    let same : (n.addr == p) ≡ true = ground arith in
    rw same ((x, y, z, t), freed ns l, ([], blocks ns, refl, rw f (rw (e, s) refl)), rw same refl)
  where
    freed : (ns : List Node) → LastFree n.free ns → LastFree true ns
    freed [] h = refl
    freed (m ∷ ns) h = h
mark_free_lem {p} {size} (later_node {n} {ns} e u) at prev limit b (x, y, z, t) l =
    let (tiles, last, made, now) = mark_free_lem u (at + 16 + n.size) n.addr limit n.free t l in
    rw e
      ((x, y, z, tiles), last, Inserted-behind n (mark_free p ns) (p + 16, size) ns made, rw e now)

blocks-kept :
    (n : Node) (old new : List Node) → blocks new ≡ blocks old → blocks (n ∷ new) ≡ blocks (n ∷ old)
unfolding blocks
blocks-kept n old new e = rw e refl

-- Joining two free nodes keeps the blocks and the tiling.
merged_lem :
    (n : Node) (ns : List Node) (at prev limit : ℕ) (b : Bool)
    → Tiles at prev limit (n ∷ ns)
    → LastFree b (n ∷ ns)
    → limit < 2 ^ 32
    → n.free ≡ true
    → first_free ns ≡ true
    → Tiles at prev limit (merged n ns)
      × LastFree b (merged n ns)
      × (blocks (merged n ns) ≡ blocks (n ∷ ns))
      × (is_free (node_at n.addr (merged n ns)) ≡ true)
unfolding Tiles LastFree node_at
merged_lem n [] at prev limit b t l h f g = absurd (ground arith)
merged_lem n (m ∷ ns) at prev limit b (x, y, z, (x', y', z', t)) l h f g =
    let below = Tiles-le (at + 16 + n.size + 16 + m.size) m.addr limit ns t in
    let size : add32 n.size (add32 m.size node_t_size) ≡ n.size + m.size + 16 = omega arith in
    let end : at + 16 + (n.size + m.size + 16) ≡ at + 16 + n.size + 16 + m.size = omega arith in
    let joined : Node = record n { size = add32 n.size (add32 m.size node_t_size) } in
    let here : (n.addr == n.addr) ≡ true = ground arith in
    (
      (
        x,
        y,
        rw size (omega arith),
        rw (size, end) (set_prev-Tiles (at + 16 + n.size + 16 + m.size) m.addr n.addr limit ns t),
      ),
      rw (f ∙ sym g) (LastFree-set_prev m.free n.addr ns l),
      blocks-free joined (set_prev n.addr ns) f
          ∙ blocks-set_prev n.addr ns
          ∙ sym (blocks-free n (m ∷ ns) f ∙ blocks-free m ns g),
      rw here f,
    )

unify_fwd_lem :
    (p : ℕ) (ns : List Node) (at prev limit : ℕ) (b : Bool)
    → Tiles at prev limit ns
    → LastFree b ns
    → limit < 2 ^ 32
    → is_free (node_at p ns) ≡ true
    → next_free p ns ≡ true
    → Tiles at prev limit (unify_fwd p ns)
      × LastFree b (unify_fwd p ns)
      × (blocks (unify_fwd p ns) ≡ blocks ns)
      × (is_free (node_at p (unify_fwd p ns)) ≡ true)
unfolding node_at next_free unify_fwd Tiles LastFree
unify_fwd_lem p [] at prev limit b t l h f g = absurd (ground arith)
unify_fwd_lem p (n ∷ ns) at prev limit b (x, y, z, t) l h f g = elim (Bool-cases (n.addr == p)) [
  | inl e ↦
      (let same : n.addr ≡ p = ground arith in
        let free : n.free ≡ true = is_this e f in
        let next : first_free ns ≡ true = is_this_next e g in
        let (a, c, d, r) = merged_lem n ns at prev limit b (x, y, z, t) l h free next in
        rw e (a, c, d, rw (← same) r))
  | inr e ↦
      (let (a, c, d, r) =
          unify_fwd_lem p ns (at + 16 + n.size) n.addr limit n.free t l h (is_later e f)
            (is_later_next e g) in
        rw e ((x, y, z, a), c, blocks-kept n ns (unify_fwd p ns) d, rw e r))
]
  where
    is_this : (n.addr == p) ≡ true → is_free (node_at p (n ∷ ns)) ≡ true → n.free ≡ true
    is_this e f = ground arith

    is_this_next : (n.addr == p) ≡ true → next_free p (n ∷ ns) ≡ true → first_free ns ≡ true
    is_this_next e g = ground arith

    is_later :
        (n.addr == p) ≡ false → is_free (node_at p (n ∷ ns)) ≡ true → is_free (node_at p ns) ≡ true
    is_later e f = ground arith

    is_later_next : (n.addr == p) ≡ false → next_free p (n ∷ ns) ≡ true → next_free p ns ≡ true
    is_later_next e g = ground arith

-- The node before one that stands at `p` is the one that its pointer back names.
before_lem :
    (p : ℕ) (n : Node) (ns : List Node) (at prev limit : ℕ)
    → Tiles at prev limit ns
    → node_at p ns ≡ some n
    → ((n.prev ≡ prev) × (first_free ns ≡ n.free))
      ⊎ ((at ≤ n.prev) × (next_free n.prev ns ≡ n.free))
unfolding node_at next_free Tiles
before_lem p n [] at prev limit t e = absurd (ground arith)
before_lem p n (k ∷ ns) at prev limit (x, y, z, t) e = elim (Bool-cases (k.addr == p)) [
  | inl q ↦
      (let same : k ≡ n = found q e in inl (ap (λ m. m.prev) (sym same) ∙ y, ap (λ m. m.free) same))
  | inr q ↦
      (let later = not_here q e in
        elim (before_lem p n ns (at + 16 + k.size) k.addr limit t later) [
          | inr (le, next) ↦
              (let other : (k.addr == n.prev) ≡ false = ground arith in
                inr (omega arith, rw other next))
          | inl (back, first) ↦
              (let this_one : (k.addr == n.prev) ≡ true = ground arith in
                inr (omega arith, rw this_one first))
        ])
]
  where
    found : (k.addr == p) ≡ true → node_at p (k ∷ ns) ≡ some n → k ≡ n
    found q e = ground arith

    not_here : (k.addr == p) ≡ false → node_at p (k ∷ ns) ≡ some n → node_at p ns ≡ some n
    not_here q e = ground arith

unify_next_lem :
    (p : ℕ) (ns : List Node) (at prev limit : ℕ)
    → Tiles at prev limit ns
    → LastFree false ns
    → limit < 2 ^ 32
    → is_free (node_at p ns) ≡ true
    → Tiles at prev limit (unify_next p ns)
      × LastFree false (unify_next p ns)
      × (blocks (unify_next p ns) ≡ blocks ns)
      × (is_free (node_at p (unify_next p ns)) ≡ true)
unify_next_lem p ns at prev limit t l h f = elim (Bool-cases (next_free p ns)) [
  | inl e ↦ rw e (unify_fwd_lem p ns at prev limit false t l h f e)
  | inr e ↦ rw e (t, l, refl, f)
]

-- From the first node on, whose pointer back is NULL.
unify_prev_lem :
    (p : ℕ) (ns : List Node) (at limit : ℕ)
    → Tiles at 0 limit ns
    → LastFree false ns
    → limit < 2 ^ 32
    → is_free (node_at p ns) ≡ true
    → let (r, ns') = unify_prev p (free_prev_of (node_at p ns) ns) ns in
      Tiles at 0 limit ns' × LastFree false ns' × (blocks ns' ≡ blocks ns)
unify_prev_lem p ns at limit t l h f = elim (Option-cases (node_at p ns)) [
  | inl e ↦ rw e (t, l, refl)
  | inr (n, e) ↦ elim (Bool-cases ((n.prev != 0) && is_free (node_at n.prev ns))) [
    | inr u ↦ rw (e, u) (t, l, refl)
    | inl u ↦ elim (before_lem p n ns at 0 limit t e) [
      | inl (null, first) ↦ absurd (ground arith)
      | inr (le, next) ↦
          (let self : n.free ≡ true = ap is_free (sym e) ∙ f in
            let free : is_free (node_at n.prev ns) ≡ true = ground arith in
            let (a, b, c, d) = unify_fwd_lem n.prev ns at 0 limit false t l h free (next ∙ self) in
            rw (e, u) (a, b, c))
    ]
  ]
]

coalesce_lem :
    (p size : ℕ) (ns : List Node) (at limit : ℕ)
    → InUse p size ns
    → Tiles at 0 limit ns
    → LastFree false ns
    → limit < 2 ^ 32
    → let (r, ns') = coalesce p ns in
      Tiles at 0 limit ns' × LastFree false ns' × Inserted (blocks ns') (p + 16, size) (blocks ns)
unfolding coalesce
coalesce_lem p size ns at limit u t l h =
    let (t1, l1, (low, high, e, e'), f1) = mark_free_lem u at 0 limit false t l in
    let (t2, l2, b2, f2) = unify_next_lem p (mark_free p ns) at 0 limit t1 l1 h f1 in
    let (t3, l3, b3) = unify_prev_lem p (unify_next p (mark_free p ns)) at limit t2 l2 h f2 in
    (t3, l3, (low, high, b3 ∙ b2 ∙ e, e'))

-- Cutting the last node, which is free, keeps the blocks.
cut_last-blocks :
    (less : ℕ) (ns : List Node) → LastFree false ns → blocks (cut_last less ns) ≡ blocks ns
unfolding cut_last blocks LastFree
cut_last-blocks less [] l = refl
cut_last-blocks less (n ∷ []) l = rw l refl
cut_last-blocks less (n ∷ m ∷ ns) l =
    blocks-kept n (m ∷ ns) (cut_last less (m ∷ ns)) (cut_last-blocks less (m ∷ ns) l)

-- `kfree` of a block in a heap that the nodes tile takes that block away and no other; unless it gives pages of a large
-- last node back, the nodes, joined where they are free, tile the heap again.
pub do_kfree_lem :
    (p size : ℕ) (a : Arena)
    → InUse p size a.nodes
    → IsStarted a
    → let a' = do_kfree (p + 16) a in
      Inserted (blocks a'.nodes) (p + 16, size) (blocks a.nodes)
      × (large_last (coalesce p a.nodes).0 (coalesce p a.nodes).1 ≡ false → IsStarted a')
unfolding do_kfree give_back
do_kfree_lem p size a u w =
    let limit : a.kheap_end < 2 ^ 32 = omega (arith, w.backed.vm.below, w.backed.end) in
    let (t, l, (low, high, e, e')) =
      coalesce_lem p size a.nodes a.kheap_start a.kheap_end u w.tiles w.last limit in
    let addr : sub32 (p + 16) node_t_size ≡ p =
      omega (arith, InUse-lt u a.kheap_start 0 a.kheap_end w.tiles) in
    rw addr (elim (Bool-cases (large_last (coalesce p a.nodes).0 (coalesce p a.nodes).1)) [
      | inl big ↦ rw big ((low, high, cut_last-blocks _ _ l ∙ e, e'), λ no. absurd (ground arith))
      | inr small ↦ rw small (
        (low, high, e, e'),
        λ no. record {
          backed = record { vm = w.backed.vm; end = w.backed.end };
          start = w.start;
          tiles = t;
          last = l;
        },
      )
    ])
