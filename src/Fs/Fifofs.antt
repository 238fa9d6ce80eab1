-- ===== src/Fs/Fifofs.antt =====
-- The functions of fifofs.c.
use razos.Base.{
  ℕ, ◌+◌, ◌-◌, ◌*◌, ◌/◌, ◌%◌, Bool, false, not, ◌&&◌, ◌||◌, leb, ◌==◌, if◌then◌else◌, List, [], ◌∷◌,
  ◌++◌, none, some, length, get_or, set, take, drop, neg_one, is_neg, add32, sub32, min, bit_and,
}
use razos.Fs.Kernel.{
  Kernel, VfsNode, FifoHdr, done, fault, blocked, Op, fail, fildes, node_at, set_node, with_size,
  ReadFn, WriteFn, OpenFn, CloseFn, zero_block, kmalloc, has, o_nonblock, o_accmode, o_rdwr,
  o_rdonly, o_wronly, eagain, epipe, enxio, enomem, ◌>>=◌,
}
use razos.Fs.Blocks.{walk, read_bytes, write_chain}
use razos.Fs.Fd.{get_free_fd}

-- `fifofs_nodes[i]`: a fault if the pointer is NULL or the place lies behind the array.
abbrev pub with_hdr : {A : Type 0} → ℕ → (FifoHdr → Op A) → Op A
with_hdr ino f k = elim (get_or k.fifofs_nodes ino none) [ none ↦ fault | some hdr ↦ f hdr k ]

abbrev pub set_hdr : Kernel → ℕ → FifoHdr → Kernel
set_hdr k ino hdr = record k { fifofs_nodes = set k.fifofs_nodes ino (some hdr) }

-- The bytes are there: each block that is read to its end is freed. `data` of the header still points
-- to the first of them, which is no block any more.
abbrev pub take_bytes : ℕ → List ℕ → FifoHdr → Op (ℕ × List ℕ)
take_bytes node_index buf hdr k =
    let node = node_at k node_index in
    let offset = hdr.read_at % 0x100 in
    let size = min (length buf) node.status.st_size in
    let freed = (offset + size) / 256 in
    elim (read_bytes size offset hdr.chain) [
      | none ↦ fault
      | some bytes ↦
          done (size, bytes ++ drop size buf)
            (set_hdr (set_node k node_index (with_size node (node.status.st_size - size)))
              node.status.st_ino
              (record hdr {
                chain = if freed == 0 then hdr.chain else [];
                read_at = add32 hdr.read_at size;
                write_at = sub32 hdr.write_at (256 * freed);
              }))
    ]

unfoldable pub read_fifofs : ℕ → ℕ → List ℕ → Op (ℕ × List ℕ)
read_fifofs fd node_index buf k =
    let node = node_at k node_index in
    with_hdr node.status.st_ino
      (λ hdr.
        if node.status.st_size == 0
        then (if hdr.writers == 0
            then done (0, buf)
            else if has (fildes k fd).oflag o_nonblock
            then (λ k. done (neg_one, buf) (record k { errno = eagain }))
            else blocked)
        else take_bytes node_index buf hdr)
      k

unfoldable pub write_fifofs : ℕ → List ℕ → Op ℕ
write_fifofs node_index buf k =
    let node = node_at k node_index in
    with_hdr node.status.st_ino
      (λ hdr k.
        if hdr.readers == 0 then fail epipe k else elim (walk (hdr.write_at / 0xFF) hdr.chain) [
          | none ↦ fault
          | some chain ↦
              elim (write_chain k.junk.block (length buf + 1) (hdr.write_at % 0x100) buf chain
                k.heap) [
                  | none ↦ fault
                  | some w ↦
                      (let count = length buf - length w.left in
                        let k' = record k {
                          errno = if w.failed then enomem else k.errno;
                          heap = w.heap;
                        } in
                        done count (
                          set_hdr
                            (set_node k' node_index
                              (with_size node (add32 node.status.st_size count)))
                            node.status.st_ino
                            (record hdr {
                              chain = take (hdr.write_at / 0xFF) hdr.chain ++ w.chain;
                              write_at = add32 hdr.write_at count;
                            })))
                ]
        ])
      k

-- `w < 1` on an `int`.
abbrev pub below_one : ℕ → Bool
below_one w = is_neg w || w == 0

-- The loop of the reading end of `open_fifofs`, and what follows it: a task that waits here goes on here when it
-- is woken.
unfoldable pub wait_writers : ℕ → ℕ → Op ℕ
unfolding get_free_fd
wait_writers ino flags =
    with_hdr ino (λ hdr.
      if not (has flags o_nonblock) && below_one hdr.writers then blocked else get_free_fd 3)

-- The loop of the writing end, likewise.
unfoldable pub wait_readers : ℕ → ℕ → Op ℕ
unfolding get_free_fd
wait_readers ino flags = with_hdr ino (λ hdr.
    if below_one hdr.readers
    then (if has flags o_nonblock then fail enxio else blocked)
    else get_free_fd 3)

unfoldable pub open_fifofs : ℕ → ℕ → Op ℕ
open_fifofs node_index oflag k =
    let ino = (node_at k node_index).status.st_ino in
    let flags =
      if bit_and oflag o_accmode == o_rdwr then bit_and oflag (neg_one - o_wronly) else oflag in
    with_hdr ino
      (λ hdr k.
        if has flags o_rdonly
        then wait_writers ino flags (set_hdr k ino (record hdr { readers = add32 hdr.readers 1 }))
        else if has flags o_wronly
        then wait_readers ino flags (set_hdr k ino (record hdr { writers = add32 hdr.writers 1 }))
        else done neg_one k)
      k

-- `n--; if (n < 0) n = 0;` on an `int`.
abbrev pub less_one : ℕ → ℕ
less_one n = let m = sub32 n 1 in if is_neg m then 0 else m

unfoldable pub close_fifofs : ℕ → ℕ → Op ℕ
close_fifofs fd node_index k =
    let ino = (node_at k node_index).status.st_ino in
    let oflag = (fildes k fd).oflag in
    with_hdr ino
      (λ hdr k. done 0 (
        if has oflag o_rdonly
        then set_hdr k ino (record hdr { readers = less_one hdr.readers })
        else if has oflag o_wronly
        then set_hdr k ino (record hdr { writers = less_one hdr.writers })
        else k))
      k

-- The node with the functions of fifofs.
abbrev pub as_fifofs : VfsNode → VfsNode
as_fifofs n = record n {
  read_fn = some ReadFn.read_fifofs;
  write_fn = some WriteFn.write_fifofs;
  open_fn = some OpenFn.open_fifofs;
  close_fn = some CloseFn.close_fifofs;
}

-- `creat_fifofs`: the counts of readers and writers keep what the new memory holds.
unfoldable pub creat_fifofs : ℕ → Op ℕ
unfolding kmalloc
creat_fifofs node_index k =
    let n = node_at k node_index in
    let ino = n.status.st_ino in
    if leb (length k.fifofs_nodes) ino
    then fault
    else (do
      got_hdr ← kmalloc
      got_data ← (λ k.
          if got_hdr
          then kmalloc (set_hdr k ino k.junk.hdr)
          else done false (record k { fifofs_nodes = set k.fifofs_nodes ino none }))
      λ k.
          if got_data
          then done 1 (
              set_hdr k ino
                (record (k.junk.hdr) { chain = zero_block ∷ []; write_at = 0; read_at = 0 }))
          else done neg_one k)
        (set_node k node_index (as_fifofs n))
