-- ===== src/Fs/Ramfs/RoundTrip.antt =====
-- What reads and writes of ramfs.c that start in the first 255 bytes of a file do.
use razos.Base.{
  int_div, int_mod, ℕ, zero, suc, ◌+◌, ◌-◌, ◌^◌, ◌<◌, ◌≤◌, ◌≡◌, refl, sym, ap, ◌∙◌, arith, Bool,
  true, false, List, [], ◌∷◌, ◌++◌, Option, none, some, length, get_or, take, drop, replicate, min,
  sub32, add32, get_or-set_self, length-append, length-take, length-set, drop_all, drop-append,
  take-append,
}
use mathlib.Core.Option
use mathlib.Core.Path.{subst}
use mathlib.Core.List.{append-nil}
use razos.Fs.Kernel.{
  Kernel, closed_file, done, fildes, set_fildes, node_at, with_size, Block, zero_block,
}
use razos.Fs.Blocks.{walk, read_bytes, fill, Written, in_front, write_chain}
use razos.Fs.Blocks.Bytes.{content, AreBlocks, read_bytes_lem}
use razos.Fs.Blocks.Write.{write_chain_lem}
use razos.Fs.Ramfs.{read_ramfs, write_ramfs, store_written}

int_div_first : (p : ℕ) → p < 255 → int_div p 0xFF ≡ 0
int_div_first p h = ground arith

int_mod_first : (p : ℕ) → p < 255 → int_mod p 0x100 ≡ p
int_mod_first p h = ground arith

-- The blocks of the file of node `i`.
abbrev pub chain_of : Kernel → ℕ → List Block
chain_of k i = get_or k.ramfs_nodes (node_at k i).status.st_ino []

-- The descriptor moved to another position.
abbrev pub moved : Kernel → ℕ → ℕ → Kernel
moved k fd at = set_fildes k fd (record (fildes k fd) { at = at })

read_body :
    (k : Kernel) (fd i : ℕ) (buf : List ℕ) (bytes : List ℕ)
    → int_div (fildes k fd).at 0xFF ≡ 0
    → min (length buf) (sub32 (node_at k i).status.st_size (fildes k fd).at) ≡ length buf
    → read_bytes (length buf) (int_mod (fildes k fd).at 0x100) (chain_of k i) ≡ some bytes
    → drop (length buf) buf ≡ []
    → read_ramfs fd i buf k
      ≡ done (length buf, bytes ++ []) (moved k fd (add32 (fildes k fd).at (length buf)))
unfolding read_ramfs walk
read_body k fd i buf bytes a b c d = rw (a, b, c, read_ramfs) (rw (b, d) refl)

-- A read from a position below 255 on, of no more bytes than are left of the file, gives the bytes that stand in
-- its blocks, also across the ends of blocks, and moves the position behind them.
pub read_ramfs_lem :
    (k : Kernel) (fd i : ℕ) (buf : List ℕ)
    → (fildes k fd).at < 255
    → AreBlocks (chain_of k i)
    → (node_at k i).status.st_size < 2 ^ 32
    → (fildes k fd).at + length buf ≤ (node_at k i).status.st_size
    → (fildes k fd).at + length buf ≤ length (content (chain_of k i))
    → read_ramfs fd i buf k
      ≡ done
          (length buf, take (length buf) (drop (fildes k fd).at (content (chain_of k i))))
          (moved k fd ((fildes k fd).at + length buf))
read_ramfs_lem k fd i buf h a s l m =
    let p = (fildes k fd).at in
    let bytes = take (length buf) (drop p (content (chain_of k i))) in
    let e : add32 p (length buf) ≡ p + length buf = omega arith in
    read_body k fd i buf bytes (int_div_first p h) (omega arith)
      (ap (λ o. read_bytes (length buf) o (chain_of k i)) (int_mod_first p h)
        ∙ read_bytes_lem (length buf) p (chain_of k i) a (omega arith) m)
      (drop_all buf (length buf) (omega arith))
    ∙ rw (e, append-nil bytes) refl

-- Whether a write has met a failure of `kmalloc`.
abbrev failed_of : Option Written → Bool
failed_of none = false
failed_of (some w) = w.failed

failed-in_front :
    (b : Block) (o : Option Written) → failed_of (Option.map (in_front b) o) ≡ failed_of o
failed-in_front b none = refl
failed-in_front b (some w) = refl

-- With a block of memory for each step of fuel no write fails.
write_chain-enough :
    (fresh : Block) (fuel offset : ℕ) (given : List ℕ) (chain : List Block) (more : List Bool)
    → failed_of (write_chain fresh fuel offset given chain (replicate fuel true ++ more)) ≡ false
unfolding write_chain
write_chain-enough fresh fuel offset [] chain more = refl
write_chain-enough fresh zero offset (x ∷ xs) chain more = refl
write_chain-enough fresh (suc fuel) offset (x ∷ xs) [] more = refl
write_chain-enough fresh (suc fuel) offset (x ∷ xs) (b ∷ rest) more =
    let out = fill offset (x ∷ xs) b in
    failed-in_front out.0
      (write_chain fresh fuel 0 out.1 (fresh ∷ []) (replicate fuel true ++ more))
    ∙ write_chain-enough fresh fuel 0 out.1 (fresh ∷ []) more

write_body :
    (k : Kernel) (fd i : ℕ) (buf : List ℕ) (w : Written)
    → int_div (fildes k fd).at 0xFF ≡ 0
    → write_chain zero_block
        (length buf + 1)
        (int_mod (fildes k fd).at 0x100)
        buf
        (chain_of k i)
        k.heap
      ≡ some w
    → w.failed ≡ false
    → w.left ≡ []
    → write_ramfs fd i buf k ≡ done (length buf) (store_written fd i 0 (length buf) w k)
unfolding write_ramfs walk
write_body k fd i buf w a b c d =
    let n : length buf - 0 ≡ length buf = omega arith in
    rw (a, b, c, d, write_ramfs) (rw (a, n) refl)

-- Where the bytes `ys` stand behind the first `p` of a block.
bytes_at :
    (p : ℕ) (b ys tail : List ℕ) (chain w : List Block) (p' n : ℕ)
    → p < length b
    → content w ≡ take p b ++ (ys ++ tail)
    → p' ≡ p
    → chain ≡ w
    → n ≡ length ys
    → take n (drop p' (content chain)) ≡ ys
bytes_at p b ys tail chain w p' n h c ep ec en =
    let l : p ≡ length (take p b) + 0 = omega (arith, length-take p b) in
    let m : length ys ≡ length ys + 0 = omega arith in
    rw (ep, ec, en, c)
      (ap (λ q. take (length ys) (drop q (take p b ++ (ys ++ tail)))) l
        ∙ ap (take (length ys)) (drop-append (take p b) (ys ++ tail) 0)
        ∙ ap (λ q. take q (ys ++ tail)) m
        ∙ take-append ys tail 0
        ∙ append-nil ys)

long_enough :
    (p : ℕ) (b ys tail : List ℕ) (chain w : List Block) (p' n : ℕ)
    → p < length b
    → content w ≡ take p b ++ (ys ++ tail)
    → p' ≡ p
    → chain ≡ w
    → n ≡ length ys
    → p' + n ≤ length (content chain)
long_enough p b ys tail chain w p' n h c ep ec en =
    let e : length (content chain) ≡ length (take p b ++ (ys ++ tail)) =
      ap (λ x. length (content x)) ec ∙ ap length c in
    omega (arith, e, length-append (take p b) (ys ++ tail), length-append ys tail, length-take p b)

-- File descriptor `fd` is open on the file of node `i`, at a position in its first 255 bytes and not behind its end.
pub record IsAt (k : Kernel) (fd i : ℕ) (b : Block) (rest : List Block) : Type 0 where
  pub has_fd : fd < length k.files
  pub has_node : i < length k.nodes
  pub has_inode : (node_at k i).status.st_ino < length k.ramfs_nodes
  pub first_block : chain_of k i ≡ b ∷ rest
  pub blocks : AreBlocks (b ∷ rest)
  pub early : (fildes k fd).at < 255
  pub inside : (fildes k fd).at ≤ (node_at k i).status.st_size

abbrev pub file_size : Kernel → ℕ → ℕ
file_size k i = (node_at k i).status.st_size

-- The kernel after a write of `n` bytes, with the descriptor back at the position before it.
abbrev rewound : Kernel → ℕ → ℕ → ℕ → Written → Kernel
rewound k fd i n w = moved (store_written fd i 0 n w k) fd (fildes k fd).at

rewound-facts :
    (k : Kernel) (fd i n : ℕ) (b : Block) (rest : List Block) (w : Written)
    → IsAt k fd i b rest
    → ((fildes (rewound k fd i n w) fd).at ≡ (fildes k fd).at)
      × (file_size (rewound k fd i n w) i ≡ add32 (file_size k i) n)
      × (chain_of (rewound k fd i n w) i ≡ w.chain)
rewound-facts k fd i n b rest w v =
    let k' = store_written fd i 0 n w k in
    let node =
      get_or-set_self k.nodes i (with_size (node_at k i) (add32 (file_size k i) n)) k.junk.node
        v.has_node in
    (
      ap (λ f. f.at)
          (get_or-set_self k'.files fd (record (fildes k' fd) { at = (fildes k fd).at }) closed_file
            (omega (
              arith,
              v.has_fd,
              length-set k.files fd (record (fildes k fd) { at = add32 (fildes k fd).at n }),
            ))),
      ap (λ m. m.status.st_size) node,
      ap (λ m. get_or k'.ramfs_nodes m.status.st_ino []) node
          ∙ get_or-set_self k.ramfs_nodes (node_at k i).status.st_ino w.chain [] v.has_inode,
    )

-- The blocks that a write leaves while memory is left: every byte stands behind those before the position.
written :
    (k : Kernel) (fd i : ℕ) (buf : List ℕ) (b : Block) (rest : List Block) (more : List Bool)
    → IsAt k fd i b rest
    → k.heap ≡ replicate (length buf + 1) true ++ more
    → (w : Written) × (write_ramfs fd i buf k
        ≡ done (length buf) (store_written fd i 0 (length buf) w k))
      × (tail : List ℕ) × (content w.chain ≡ take (fildes k fd).at b ++ (buf ++ tail))
      × AreBlocks w.chain
written k fd i buf b rest more v hp =
    let p = (fildes k fd).at in
    let fuel = length buf + 1 in
    let (w, e, ys, tail, r) =
      write_chain_lem zero_block fuel p buf b rest k.heap refl (omega arith)
        (omega (arith, v.early)) v.blocks in
    let ok : w.failed ≡ false =
      sym (ap failed_of e)
      ∙ ap (λ h. failed_of (write_chain zero_block fuel p buf (b ∷ rest) h)) hp
      ∙ write_chain-enough zero_block fuel p buf (b ∷ rest) more in
    let all : buf ≡ ys = r.split ∙ (ap (λ l. ys ++ l) (r.finished ok) ∙ append-nil ys) in
    let run =
      ap (λ c. write_chain zero_block fuel (int_mod p 0x100) buf c k.heap) v.first_block
      ∙ ap (λ o. write_chain zero_block fuel o buf (b ∷ rest) k.heap) (int_mod_first p v.early)
      ∙ e in
    (
      w,
      write_body k fd i buf w (int_div_first p v.early) run ok (r.finished ok),
      tail,
      r.bytes ∙ ap (λ ys. take p b ++ (ys ++ tail)) (sym all),
      r.blocks,
    )

-- While one more of the next calls of `kmalloc` succeed than there are bytes and the size does not wrap, a write to a file in `ramfs` from a
-- position in its first 255 bytes, and not behind its end, writes all its bytes, moves the position behind them and
-- adds their number to the size; and a read of as many bytes from the position before the write returns exactly those
-- bytes, also across the ends of blocks.
pub write_ramfs-read_ramfs :
    (k : Kernel) (fd i : ℕ) (buf out : List ℕ) (b : Block) (rest : List Block) (more : List Bool)
    → IsAt k fd i b rest
    → k.heap ≡ replicate (length buf + 1) true ++ more
    → file_size k i + length buf < 2 ^ 32
    → length out ≡ length buf
    → (k' k'' : Kernel) × (write_ramfs fd i buf k ≡ done (length buf) k')
      × (read_ramfs fd i out (moved k' fd (fildes k fd).at) ≡ done (length buf, buf) k'')
      × (file_size k' i ≡ file_size k i + length buf)
      × ((fildes k' fd).at ≡ (fildes k fd).at + length buf)
write_ramfs-read_ramfs k fd i buf out b rest more v hp small lo =
    let p = (fildes k fd).at in
    let n = length buf in
    let (w, run, tail, bytes, blocks) = written k fd i buf b rest more v hp in
    let k' = store_written fd i 0 n w k in
    let back = rewound k fd i n w in
    let (at, size, chain) = rewound-facts k fd i n b rest w v in
    let inside : p < length b = omega (arith, v.early, v.blocks.0) in
    let pos : (fildes back fd).at < 255 = omega (arith, at, v.early) in
    let grown : file_size back i ≡ file_size k i + n = size ∙ omega arith in
    let list =
      bytes_at p b buf tail (chain_of back i) w.chain (fildes back fd).at (length out) inside bytes
        at chain lo in
    let last = moved back fd ((fildes back fd).at + length out) in
    (
      k',
      last,
      run,
      read_ramfs_lem back fd i out pos (subst AreBlocks (sym chain) blocks) (omega (arith, grown))
            (omega (arith, at, grown, v.inside))
            (long_enough p b buf tail (chain_of back i) w.chain (fildes back fd).at (length out)
              inside bytes at chain lo)
          ∙ ap (λ l. done (length out, l) last) list
          ∙ ap (λ m. done (m, buf) last) lo,
      grown,
      ap (λ f. f.at)
            (get_or-set_self k.files fd (record (fildes k fd) { at = add32 p n }) closed_file
              v.has_fd)
          ∙ omega (arith, v.inside),
    )
