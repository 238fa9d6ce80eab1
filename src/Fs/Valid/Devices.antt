-- ===== src/Fs/Valid/Devices.antt =====
-- The functions that nodes point to keep the table valid.
use razos.Base.{
  int_div, int_mod, ℕ, ◌+◌, ◌-◌, ◌/◌, ◌%◌, Bool, true, false, not, ◌&&◌, ltb, leb, ◌==◌, is_neg,
  if◌then◌else◌, List, [], none, length, get_or, neg_one, min, sub32, is_some, bit_and,
}
use razos.Fs.Kernel.{
  Kernel, VfsNode, FifoHdr, done, Op, fildes, set_fildes, node_at, set_node, kmalloc, zero_block,
  has, open_max, o_nonblock, o_accmode, o_rdwr, o_rdonly, o_wronly,
}
use razos.Fs.Blocks.{walk, read_bytes, write_chain}
use razos.Fs.Fd.{get_free_fd}
use razos.Fs.Ramfs
use razos.Fs.Fifofs.{with_hdr, set_hdr, take_bytes, below_one, less_one}
use razos.Fs.Fifofs
use razos.Fs.Stdio
use razos.Fs.Valid.{
  IsValid, StaysValid, ends, stops, waits, ValidTable-set, ValidTable-node, if_valid, option_valid,
  then_valid, kmalloc-StaysValid,
}

module _ {least : ℕ} where
  pub get_free_fd-StaysValid :
      (fd : ℕ) (k : Kernel) → IsValid least k → StaysValid least (get_free_fd fd k)
  unfolding get_free_fd
  get_free_fd-StaysValid fd k v =
      if_valid (is_neg fd) _ _ (ends v) (if_valid (ltb open_max fd) _ _ stops (ends v))

  pub at_valid :
      {A : Type 0} (k : Kernel) (fd at : ℕ) (a : A)
      → IsValid least k
      → StaysValid least (done a (set_fildes k fd (record (fildes k fd) { at = at })))
  at_valid k fd at a v = ends (ValidTable-set k.files (length k.nodes) fd _ v (v.in_list fd))

  pub read_ramfs-StaysValid :
      (fd i : ℕ) (buf : List ℕ) (k : Kernel)
      → IsValid least k
      → StaysValid least (Ramfs.read_ramfs fd i buf k)
  unfolding Ramfs.read_ramfs
  read_ramfs-StaysValid fd i buf k v =
      let f = fildes k fd in
      let node = node_at k i in
      let size = min (length buf) (sub32 node.status.st_size f.at) in
      option_valid (walk (int_div f.at 0xFF) (get_or k.ramfs_nodes node.status.st_ino [])) _ _ stops
        (λ chain _.
          option_valid (read_bytes size (int_mod f.at 0x100) chain) _ _ stops
            (λ bytes _. at_valid k fd _ _ v))

  pub write_ramfs-StaysValid :
      (fd i : ℕ) (buf : List ℕ) (k : Kernel)
      → IsValid least k
      → StaysValid least (Ramfs.write_ramfs fd i buf k)
  unfolding Ramfs.write_ramfs
  write_ramfs-StaysValid fd i buf k v =
      let f = fildes k fd in
      let start = int_div f.at 0xFF in
      option_valid (walk start (get_or k.ramfs_nodes (node_at k i).status.st_ino [])) _ _ stops
        (λ chain _.
          option_valid
            (write_chain zero_block (length buf + 1) (int_mod f.at 0x100) buf chain k.heap) _ _
            stops
            (λ w _. ends (
              ValidTable-node _ k.nodes i _
                (ValidTable-set k.files (length k.nodes) fd _ v (v.in_list fd)))))

  pub creat_ramfs-StaysValid :
      (i : ℕ) (k : Kernel) → IsValid least k → StaysValid least (Ramfs.creat_ramfs i k)
  unfolding Ramfs.creat_ramfs
  creat_ramfs-StaysValid i k v =
      if_valid (leb (length k.ramfs_nodes) (node_at k i).status.st_ino) _ _ stops (
        then_valid (kmalloc (set_node k i (Ramfs.as_ramfs (node_at k i)))) _
          (kmalloc-StaysValid _ (ValidTable-node k.files k.nodes i _ v))
          (λ got k u. if_valid got _ _ (ends u) (ends u)))

  -- Another node and another header.
  hdr_valid :
      {A : Type 0} (k : Kernel) (i ino : ℕ) (n : VfsNode) (hdr : FifoHdr) (a : A)
      → IsValid least k
      → StaysValid least (done a (set_hdr (set_node k i n) ino hdr))
  hdr_valid k i ino n hdr a v = ends (ValidTable-node k.files k.nodes i n v)

  pub if_op_valid :
      {A : Type 0} (b : Bool) (x y : Op A) (k : Kernel)
      → StaysValid least (x k)
      → StaysValid least (y k)
      → StaysValid least ((if b then x else y) k)
  if_op_valid true x y k p q = p
  if_op_valid false x y k p q = q

  if_kernel :
      (b : Bool) (x y : Kernel)
      → IsValid least x
      → IsValid least y
      → IsValid least (if b then x else y)
  if_kernel true x y p q = p
  if_kernel false x y p q = q

  pub take_bytes-StaysValid :
      (i : ℕ) (buf : List ℕ) (hdr : FifoHdr) (k : Kernel)
      → IsValid least k
      → StaysValid least (take_bytes i buf hdr k)
  take_bytes-StaysValid i buf hdr k v =
      option_valid
        (read_bytes (min (length buf) (node_at k i).status.st_size) (hdr.read_at % 0x100) hdr.chain)
        _ _ stops (λ bytes _. hdr_valid k i _ _ _ _ v)

  pub read_fifofs-StaysValid :
      (fd i : ℕ) (buf : List ℕ) (k : Kernel)
      → IsValid least k
      → StaysValid least (Fifofs.read_fifofs fd i buf k)
  unfolding Fifofs.read_fifofs
  read_fifofs-StaysValid fd i buf k v =
      option_valid (get_or k.fifofs_nodes (node_at k i).status.st_ino none) _ _ stops (λ hdr _.
        if_op_valid ((node_at k i).status.st_size == 0) _ _ k
          (if_op_valid (hdr.writers == 0) _ _ k (ends v)
            (if_op_valid (has (fildes k fd).oflag o_nonblock) _ _ k (ends v) (waits v)))
          (take_bytes-StaysValid i buf hdr k v))

  pub write_fifofs-StaysValid :
      (i : ℕ) (buf : List ℕ) (k : Kernel)
      → IsValid least k
      → StaysValid least (Fifofs.write_fifofs i buf k)
  unfolding Fifofs.write_fifofs
  write_fifofs-StaysValid i buf k v =
      option_valid (get_or k.fifofs_nodes (node_at k i).status.st_ino none) _ _ stops (λ hdr _.
        if_valid (hdr.readers == 0) _ _ (ends v) (
          option_valid (walk (hdr.write_at / 0xFF) hdr.chain) _ _ stops (λ chain _.
            option_valid
              (write_chain k.junk.block (length buf + 1) (hdr.write_at % 0x100) buf chain k.heap) _
              _ stops (λ w _. ends (ValidTable-node k.files k.nodes i _ v)))))

  wait_writers-StaysValid :
      (ino flags : ℕ) (k : Kernel)
      → IsValid least k
      → StaysValid least (Fifofs.wait_writers ino flags k)
  unfolding Fifofs.wait_writers
  wait_writers-StaysValid ino flags k v =
      option_valid (get_or k.fifofs_nodes ino none) _ _ stops (λ hdr _.
        if_op_valid (not (has flags o_nonblock) && below_one hdr.writers) _ _ k (waits v)
          (get_free_fd-StaysValid 3 k v))

  wait_readers-StaysValid :
      (ino flags : ℕ) (k : Kernel)
      → IsValid least k
      → StaysValid least (Fifofs.wait_readers ino flags k)
  unfolding Fifofs.wait_readers
  wait_readers-StaysValid ino flags k v =
      option_valid (get_or k.fifofs_nodes ino none) _ _ stops (λ hdr _.
        if_op_valid (below_one hdr.readers) _ _ k
          (if_op_valid (has flags o_nonblock) _ _ k (ends v) (waits v))
          (get_free_fd-StaysValid 3 k v))

  pub open_fifofs-StaysValid :
      (i oflag : ℕ) (k : Kernel) → IsValid least k → StaysValid least (Fifofs.open_fifofs i oflag k)
  unfolding Fifofs.open_fifofs
  open_fifofs-StaysValid i oflag k v =
      let flags =
        if bit_and oflag o_accmode == o_rdwr then bit_and oflag (neg_one - o_wronly) else oflag in
      let ino = (node_at k i).status.st_ino in
      option_valid (get_or k.fifofs_nodes ino none) _ _ stops (λ hdr _.
        if_valid (has flags o_rdonly) _ _ (wait_writers-StaysValid ino flags _ v)
          (if_valid (has flags o_wronly) _ _ (wait_readers-StaysValid ino flags _ v) (ends v)))

  pub close_fifofs-StaysValid :
      (fd i : ℕ) (k : Kernel) → IsValid least k → StaysValid least (Fifofs.close_fifofs fd i k)
  unfolding Fifofs.close_fifofs
  close_fifofs-StaysValid fd i k v =
      option_valid (get_or k.fifofs_nodes (node_at k i).status.st_ino none) _ _ stops (λ hdr _.
        let oflag = (fildes k fd).oflag in
        ends (if_kernel (has oflag o_rdonly) _ _ v (if_kernel (has oflag o_wronly) _ _ v v)))

  pub creat_fifofs-StaysValid :
      (i : ℕ) (k : Kernel) → IsValid least k → StaysValid least (Fifofs.creat_fifofs i k)
  unfolding Fifofs.creat_fifofs
  creat_fifofs-StaysValid i k v =
      if_valid (leb (length k.fifofs_nodes) (node_at k i).status.st_ino) _ _ stops (
        then_valid (kmalloc (set_node k i (Fifofs.as_fifofs (node_at k i)))) _
          (kmalloc-StaysValid _ (ValidTable-node k.files k.nodes i _ v))
          (λ got k u.
            then_valid _ _ (if_valid got _ _ (kmalloc-StaysValid _ u) (ends u))
              (λ got k u. if_valid got _ _ (ends u) (ends u))))

  pub open_std-StaysValid :
      (fileno : ℕ) (k : Kernel) → IsValid least k → StaysValid least (Stdio.open_std fileno k)
  unfolding Stdio.open_std
  open_std-StaysValid fileno k v =
      if_valid (is_some (fildes k fileno).vfs_node) _ _
        (then_valid (get_free_fd 3 k) _ (get_free_fd-StaysValid 3 k v)
          (λ ret k u. ends (if_kernel (is_neg ret) _ _ u u)))
        (ends v)

  pub read_stdin-StaysValid :
      (buf : List ℕ) (k : Kernel) → IsValid least k → StaysValid least (Stdio.read_stdin buf k)
  unfolding Stdio.read_stdin
  read_stdin-StaysValid buf k v =
      if_valid (ltb k.stdin.buf_size (length buf)) _ _ (waits v) (ends v)

  pub write_stdin-StaysValid :
      (buf : List ℕ) (k : Kernel) → IsValid least k → StaysValid least (Stdio.write_stdin buf k)
  unfolding Stdio.write_stdin
  write_stdin-StaysValid buf k v = ends v

  pub write_stdout-StaysValid :
      (buf : List ℕ) (k : Kernel) → IsValid least k → StaysValid least (Stdio.write_stdout buf k)
  unfolding Stdio.write_stdout
  write_stdout-StaysValid buf k v = ends v
