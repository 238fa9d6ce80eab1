-- ===== src/Fs/Ramfs.antt =====
-- The functions of ramfs.c.
pub mod RoundTrip
use razos.Base.{
  int_div, int_mod, ℕ, zero, suc, ◌+◌, ◌-◌, ◌/◌, ◌%◌, Bool, true, false, ◌&&◌, ltb, leb, ◌==◌,
  if◌then◌else◌, List, [], ◌∷◌, ◌++◌, Option, none, some, length, get_or, set, take, drop, neg_one,
  add32, sub32, min,
}
use razos.Fs.Kernel.{
  Fildes, Kernel, Run, done, fault, Op, fail, fildes, set_fildes, node_at, set_node, with_size,
  VfsNode, ReadFn, WriteFn, zero_block, kmalloc, enospc, enomem, ◌>>=◌, Block,
}
use razos.Fs.Blocks.{walk, read_bytes, Written, write_chain}

-- `read_ramfs(fd, buf, size)` with `size` the length of `buf`: the value returned and the buffer.
unfoldable pub read_ramfs : ℕ → ℕ → List ℕ → Op (ℕ × List ℕ)
read_ramfs fd node_index buf k =
    let f = fildes k fd in
    let node = node_at k node_index in
    let readable = sub32 node.status.st_size f.at in
    let size = min (length buf) readable in
    elim (walk (int_div f.at 0xFF) (get_or k.ramfs_nodes node.status.st_ino [])) [
      | none ↦ fault
      | some chain ↦ elim (read_bytes size (int_mod f.at 0x100) chain) [
        | none ↦ fault
        | some bytes ↦
            done (size, bytes ++ drop size buf)
              (set_fildes k fd (record f { at = add32 f.at size }))
      ]
    ]

-- What a write leaves in the node, the file descriptor and the blocks.
abbrev pub store_written : ℕ → ℕ → ℕ → ℕ → Written → Kernel → Kernel
store_written fd node_index start count w k =
    let f = fildes k fd in
    let node = node_at k node_index in
    let chain = get_or k.ramfs_nodes node.status.st_ino [] in
    record k {
      errno = if w.failed then enomem else k.errno;
      nodes = set k.nodes node_index (with_size node (add32 node.status.st_size count));
      files = set k.files fd (record f { at = add32 f.at count });
      ramfs_nodes = set k.ramfs_nodes node.status.st_ino (take start chain ++ w.chain);
      heap = w.heap;
    }

-- `write_ramfs(fd, buf, size)`: each byte adds one to the size of the file, wherever it is written.
unfoldable pub write_ramfs : ℕ → ℕ → List ℕ → Op ℕ
write_ramfs fd node_index buf k =
    let f = fildes k fd in
    let node = node_at k node_index in
    let start = int_div f.at 0xFF in
    elim (walk start (get_or k.ramfs_nodes node.status.st_ino [])) [
      | none ↦ fault
      | some chain ↦
          elim (write_chain zero_block (length buf + 1) (int_mod f.at 0x100) buf chain k.heap) [
            | none ↦ fault
            | some w ↦
                (let count = length buf - length w.left in
                  done (if w.failed && count == 0 then neg_one else count)
                    (store_written fd node_index start count w k))
          ]
    ]

-- The node with the functions of ramfs.
abbrev pub as_ramfs : VfsNode → VfsNode
as_ramfs n = record n {
  read_fn = some ReadFn.read_ramfs;
  write_fn = some WriteFn.write_ramfs;
  open_fn = none;
  close_fn = none;
}

-- `creat_ramfs(node, mode)`: the first block, if `kmalloc` gives one. The source leaves the `next` of the block as
-- `kmalloc` gave it; the list ends there, and a step behind its end is a bad access.
unfoldable pub creat_ramfs : ℕ → Op ℕ
unfolding kmalloc
creat_ramfs node_index k =
    let n = node_at k node_index in
    let ino = n.status.st_ino in
    let k' = set_node k node_index (as_ramfs n) in
    if leb (length k.ramfs_nodes) ino
    then fault
    else (do
      got ← kmalloc
      λ k.
          if got
          then done 1 (record k { ramfs_nodes = set k.ramfs_nodes ino (zero_block ∷ []) })
          else fail enospc (record k { ramfs_nodes = set k.ramfs_nodes ino [] }))
        k'
