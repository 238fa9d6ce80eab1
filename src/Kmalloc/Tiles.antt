-- ===== src/Kmalloc/Tiles.antt =====
-- Nodes that tile the heap of kernel/src/mm/kmalloc.c, and the blocks that are given out.
use razos.Base.{
  ℕ, ◌-◌, ◌+◌, ◌%◌, ◌^◌, ◌<◌, ◌≤◌, ◌≡◌, ◌≢◌, refl, ap, arith, Bool, true, false, List, [], ◌∷◌,
  ◌++◌, sub32, add32, ◌!=◌, if◌then◌else◌, Bool-cases, inl, inr,
}
use razos.Kmalloc.{Node, set_prev, next_of, split_node, node_t_size}

-- The nodes follow each other from `at` to `limit`, each 16 bytes and its size long, in multiples of 16
-- bytes, with the right pointers back; the last one is free.
unfoldable pub Tiles : (at prev limit : ℕ) → List Node → Type 0
Tiles at prev limit [] = at ≡ limit
Tiles at prev limit (n ∷ ns) =
    (n.addr ≡ at) × (n.prev ≡ prev) × (n.size % 16 ≡ 0) × Tiles (at + 16 + n.size) n.addr limit ns

-- The last node is free, or the one before them is.
unfoldable pub LastFree : Bool → List Node → Type 0
LastFree before [] = before ≡ true
LastFree before (n ∷ ns) = LastFree n.free ns

-- The blocks that are given out: their addresses and sizes, in the order of their addresses.
unfoldable pub blocks : List Node → List (ℕ × ℕ)
blocks [] = []
blocks (n ∷ ns) = if n.free then blocks ns else (n.addr + 16, n.size) ∷ blocks ns

pub Tiles-le : (at prev limit : ℕ) (ns : List Node) → Tiles at prev limit ns → at ≤ limit
unfolding Tiles
Tiles-le at prev limit [] t = omega arith
Tiles-le at prev limit (n ∷ ns) (a, p, s, t) =
    omega (arith, Tiles-le (at + 16 + n.size) n.addr limit ns t)

pub Tiles-mod :
    (at prev limit : ℕ) (ns : List Node) → Tiles at prev limit ns → limit % 16 ≡ 0 → at % 16 ≡ 0
unfolding Tiles
Tiles-mod at prev limit [] t h = omega arith
Tiles-mod at prev limit (n ∷ ns) (a, p, s, t) h =
    omega (arith, Tiles-mod (at + 16 + n.size) n.addr limit ns t h)

pub set_prev-Tiles :
    (at prev addr limit : ℕ) (ns : List Node)
    → Tiles at prev limit ns
    → Tiles at addr limit (set_prev addr ns)
unfolding Tiles
set_prev-Tiles at prev addr limit [] t = t
set_prev-Tiles at prev addr limit (n ∷ ns) (a, p, s, t) = (a, refl, s, t)

pub blocks-set_prev : (addr : ℕ) (ns : List Node) → blocks (set_prev addr ns) ≡ blocks ns
unfolding blocks
blocks-set_prev addr [] = refl
blocks-set_prev addr (n ∷ ns) = refl

-- The next node stands where this one ends.
next-Tiles :
    (at prev limit : ℕ) (n : Node) (ns : List Node)
    → Tiles at prev limit (n ∷ ns)
    → at ≢ 0
    → (if next_of ns != 0 then next_of ns else limit) ≡ at + 16 + n.size
unfolding Tiles
next-Tiles at prev limit n [] (a, p, s, t) z = omega (arith, t)
next-Tiles at prev limit n (m ∷ ns) (a, p, s, (b, q, r, t)) z =
    let some_next : (m.addr != 0) ≡ true = ground arith in rw some_next b

-- What splitting leaves: the node with the new size, in use, and the rest.
pub split_node-Tiles :
    (at prev limit size : ℕ) (n : Node) (ns : List Node)
    → Tiles at prev limit (n ∷ ns)
    → at ≢ 0
    → limit < 2 ^ 32
    → size % 16 ≡ 0
    → size ≤ n.size
    → Tiles at prev limit (split_node size n ns limit)
      × (blocks (split_node size n ns limit) ≡ (at + 16, size) ∷ blocks ns)
unfolding Tiles blocks split_node
split_node-Tiles at prev limit size n ns (a, p, s, t) z l m h =
    let le = Tiles-le (at + 16 + n.size) n.addr limit ns t in
    elim (Bool-cases (n.size != size)) [
      | inr e ↦
          (let same : n.size ≡ size = ground arith in rw e ((a, p, m, rw (← same) t), rw a refl))
      | inl e ↦
          (let where_next = next-Tiles at prev limit n ns (a, p, s, t) z in
            let addr = add32 (add32 n.addr node_t_size) size in
            let limit' = if next_of ns != 0 then next_of ns else limit in
            let room : size + 16 ≤ n.size = ground arith in
            let start : addr ≡ at + 16 + size = omega arith in
            let rest : sub32 (sub32 limit' addr) node_t_size ≡ n.size - size - 16 =
              rw where_next (omega (arith, start)) in
            let end : at + 16 + size + 16 + (n.size - size - 16) ≡ at + 16 + n.size = omega arith in
            rw e (
              (
                a,
                p,
                m,
                (
                  start,
                  refl,
                  rw rest (omega arith),
                  rw (rest, end) (set_prev-Tiles (at + 16 + n.size) n.addr addr limit ns t),
                ),
              ),
              rw (a, blocks-set_prev addr ns) refl,
            ))
    ]

pub LastFree-set_prev :
    (b : Bool) (addr : ℕ) (ns : List Node) → LastFree b ns → LastFree b (set_prev addr ns)
unfolding LastFree
LastFree-set_prev b addr [] h = h
LastFree-set_prev b addr (n ∷ ns) h = h

pub LastFree-any : (b : Bool) (ns : List Node) → LastFree false ns → LastFree b ns
unfolding LastFree
LastFree-any b [] h = absurd (ground arith)
LastFree-any b (n ∷ ns) h = h

pub blocks-free : (n : Node) (ns : List Node) → n.free ≡ true → blocks (n ∷ ns) ≡ blocks ns
unfolding blocks
blocks-free n ns f = rw f refl

-- A block more, somewhere among the others.
abbrev pub Inserted : List (ℕ × ℕ) → ℕ × ℕ → List (ℕ × ℕ) → Type 0
Inserted old b new =
    (low : List (ℕ × ℕ)) × (high : List (ℕ × ℕ)) × (old ≡ low ++ high) × (new ≡ low ++ b ∷ high)

pub Inserted-behind :
    (n : Node) (old : List Node) (b : ℕ × ℕ) (new : List Node)
    → Inserted (blocks old) b (blocks new)
    → Inserted (blocks (n ∷ old)) b (blocks (n ∷ new))
unfolding blocks
Inserted-behind n old b new (low, high, e, e') = elim (Bool-cases n.free) [
  | inl f ↦ rw f (low, high, e, e')
  | inr f ↦ rw f (
    (n.addr + 16, n.size) ∷ low,
    high,
    ap (λ l. (n.addr + 16, n.size) ∷ l) e,
    ap (λ l. (n.addr + 16, n.size) ∷ l) e',
  )
]

-- Blocks that lie apart, from `at` on, with room for a node before each.
pub Apart : ℕ → List (ℕ × ℕ) → Type 0
Apart at [] = Unit
Apart at ((p, size) ∷ bs) = (at + 16 ≤ p) × Apart (p + size) bs

Apart-le : (at low : ℕ) (bs : List (ℕ × ℕ)) → low ≤ at → Apart at bs → Apart low bs
unfolding Apart
Apart-le at low [] h a = tt
Apart-le at low ((p, size) ∷ bs) h (a, r) = (omega arith, r)

pub Tiles-Apart :
    (ns : List Node) (at prev limit : ℕ) → Tiles at prev limit ns → Apart at (blocks ns)
unfolding Tiles Apart blocks
Tiles-Apart [] at prev limit t = tt
Tiles-Apart (n ∷ ns) at prev limit (p, q, r, t) =
    let rest = Tiles-Apart ns (at + 16 + n.size) n.addr limit t in
    elim (Bool-cases n.free) [
      | inl f ↦ rw f (Apart-le (at + 16 + n.size) at (blocks ns) (omega arith) rest)
      | inr f ↦
          (let end : n.addr + 16 + n.size ≡ at + 16 + n.size = omega arith in
            rw f (omega arith, rw end rest))
    ]
