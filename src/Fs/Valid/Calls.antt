-- ===== src/Fs/Valid/Calls.antt =====
-- The calls of vfs.c and do_fcntl.c keep the table valid.
use razos.Base.{
  ℕ, suc, ◌<◌, ◌≤◌, ◌≡◌, ap, arith, not, ◌&&◌, ◌||◌, ◌==◌, is_neg, if◌then◌else◌, List, [], ◌∷◌,
  ◌++◌, Option, none, some, length, bit_and, bit_or, length-append,
}
use razos.Fs.Kernel.{
  Kernel, VfsNode, Fildes, closed_file, Run, done, fault, blocked, Op, fildes, set_fildes, node_at,
  kmalloc, has, ReadFn, WriteFn, OpenFn, CreatFn, CloseFn, read_ramfs, read_fifofs, read_stdin,
  write_ramfs, write_fifofs, write_stdin, write_stdout, open_fifofs, open_stdin, open_stdout,
  open_stderr, creat_ramfs, creat_fifofs, close_fifofs, o_rdonly, o_wronly, o_creat, o_excl,
  s_ifdir, s_ififo, s_ifreg, s_ifmt, s_iperm,
}
use razos.Fs.Fd.{get_free_fd}
use razos.Fs.Creat.{call_creat, open_new, created, creat_vfs}
use razos.Fs.Vfs.{
  out_of_range, call_read, call_write, call_open, call_close, read_vfs, write_vfs, find_node,
  open_missing, open_found, open_vfs, close_vfs, seek, lseek_vfs,
}
use razos.Fs.Fcntl.{do_fcntl, dup_fd, set_oflag, f_dupfd, f_getfd, f_setfd, f_getfl, f_setfl}
use razos.Fs.Vfs.Open.{FirstNamed, at, nowhere, find_node_lem}
use razos.Fs.Valid.{
  NodeIn, IsValid, StaysValid, ends, stops, waits, ValidTable, ValidTable-set, ValidTable-append,
  if_valid, option_valid, then_valid, kmalloc-StaysValid,
}
use razos.Fs.Valid.Devices.{
  get_free_fd-StaysValid, if_op_valid, at_valid, read_ramfs-StaysValid, write_ramfs-StaysValid,
  creat_ramfs-StaysValid, read_fifofs-StaysValid, write_fifofs-StaysValid, open_fifofs-StaysValid,
  close_fifofs-StaysValid, creat_fifofs-StaysValid, open_std-StaysValid, read_stdin-StaysValid,
  write_stdin-StaysValid, write_stdout-StaysValid,
}

module _ {least : ℕ} where
  call_read-StaysValid :
      (f : ReadFn) (fd i : ℕ) (buf : List ℕ) (k : Kernel)
      → IsValid least k
      → StaysValid least (call_read f fd i buf k)
  unfolding call_read
  call_read-StaysValid read_ramfs fd i buf k v = read_ramfs-StaysValid fd i buf k v
  call_read-StaysValid read_fifofs fd i buf k v = read_fifofs-StaysValid fd i buf k v
  call_read-StaysValid read_stdin fd i buf k v = read_stdin-StaysValid buf k v

  call_write-StaysValid :
      (f : WriteFn) (fd i : ℕ) (buf : List ℕ) (k : Kernel)
      → IsValid least k
      → StaysValid least (call_write f fd i buf k)
  unfolding call_write
  call_write-StaysValid write_ramfs fd i buf k v = write_ramfs-StaysValid fd i buf k v
  call_write-StaysValid write_fifofs fd i buf k v = write_fifofs-StaysValid i buf k v
  call_write-StaysValid write_stdin fd i buf k v = write_stdin-StaysValid buf k v
  call_write-StaysValid write_stdout fd i buf k v = write_stdout-StaysValid buf k v

  call_open-StaysValid :
      (f : OpenFn) (i oflag : ℕ) (k : Kernel)
      → IsValid least k
      → StaysValid least (call_open f i oflag k)
  unfolding call_open
  call_open-StaysValid open_fifofs i oflag k v = open_fifofs-StaysValid i oflag k v
  call_open-StaysValid open_stdin i oflag k v = open_std-StaysValid 0 k v
  call_open-StaysValid open_stdout i oflag k v = open_std-StaysValid 1 k v
  call_open-StaysValid open_stderr i oflag k v = open_std-StaysValid 2 k v

  call_creat-StaysValid :
      (f : CreatFn) (i : ℕ) (k : Kernel) → IsValid least k → StaysValid least (call_creat f i k)
  unfolding call_creat
  call_creat-StaysValid creat_ramfs i k v = creat_ramfs-StaysValid i k v
  call_creat-StaysValid creat_fifofs i k v = creat_fifofs-StaysValid i k v

  call_close-StaysValid :
      (f : CloseFn) (fd i : ℕ) (k : Kernel)
      → IsValid least k
      → StaysValid least (call_close f fd i k)
  unfolding call_close
  call_close-StaysValid close_fifofs fd i k v = close_fifofs-StaysValid fd i k v

  set_valid :
      {A : Type 0} (k : Kernel) (fd : ℕ) (f : Fildes) (a : A)
      → IsValid least k
      → NodeIn (length k.nodes) f.vfs_node
      → StaysValid least (done a (set_fildes k fd f))
  set_valid k fd f a v n = ends (ValidTable-set k.files (length k.nodes) fd f v n)

  pub read_vfs-StaysValid :
      (fd : ℕ) (buf : List ℕ) (k : Kernel)
      → IsValid least k
      → StaysValid least (read_vfs fd (some buf) k)
  unfolding read_vfs
  read_vfs-StaysValid fd buf k v = if_valid (out_of_range fd) _ _ (ends v) (
      option_valid (fildes k fd).vfs_node _ _ (ends v) (λ i _.
        if_valid (has (node_at k i).status.st_mode s_ifdir) _ _ (ends v) (
          if_valid (length buf == 0) _ _ (ends v) (
            if_valid (has (fildes k fd).oflag o_rdonly) _ _
              (option_valid (node_at k i).read_fn _ _ (ends v)
                (λ f _. call_read-StaysValid f fd i buf k v))
              (ends v)))))

  pub write_vfs-StaysValid :
      (fd : ℕ) (buf : List ℕ) (k : Kernel)
      → IsValid least k
      → StaysValid least (write_vfs fd (some buf) k)
  unfolding write_vfs
  write_vfs-StaysValid fd buf k v = if_valid (out_of_range fd) _ _ (ends v) (
      option_valid (fildes k fd).vfs_node _ _ (ends v) (λ i _.
        if_valid (length buf == 0) _ _ (ends v) (
          if_valid (has (fildes k fd).oflag o_wronly) _ _
            (option_valid (node_at k i).write_fn _ _ (ends v)
              (λ f _. call_write-StaysValid f fd i buf k v))
            (ends v))))

  pub lseek_vfs-StaysValid :
      (fd offset whence : ℕ) (k : Kernel)
      → IsValid least k
      → StaysValid least (lseek_vfs fd offset whence k)
  unfolding lseek_vfs
  lseek_vfs-StaysValid fd offset whence k v = if_valid (out_of_range fd) _ _ (ends v) (
      option_valid (fildes k fd).vfs_node _ _ (ends v) (λ i _.
        if_valid (has (node_at k i).status.st_mode s_ififo) _ _ (ends v) (
          option_valid (seek (fildes k fd).at (node_at k i).status.st_size offset whence) _ _
            (ends v) (λ at _. at_valid k fd at at v))))

  pub close_vfs-StaysValid :
      (fd : ℕ) (k : Kernel) → IsValid least k → StaysValid least (close_vfs fd k)
  unfolding close_vfs
  close_vfs-StaysValid fd k v = if_valid (out_of_range fd) _ _ (ends v) (
      option_valid (fildes k fd).vfs_node _ _ (ends v) (λ i _.
        option_valid (node_at k i).close_fn _ _ (set_valid k fd closed_file 0 v tt) (λ f _.
          then_valid (call_close f fd i k) _ (call_close-StaysValid f fd i k v) (λ ret k u.
            if_op_valid (is_neg ret) _ _ k (ends u) (set_valid k fd closed_file 0 u tt)))))

  set_oflag-StaysValid :
      (fd oflag : ℕ) (k : Kernel) → IsValid least k → StaysValid least (set_oflag fd oflag k)
  set_oflag-StaysValid fd oflag k v = set_valid k fd _ 0 v (v.in_list fd)

  dup_fd-StaysValid :
      (fd arg : ℕ) (k : Kernel) → IsValid least k → StaysValid least (dup_fd fd arg k)
  dup_fd-StaysValid fd arg k v = if_op_valid (is_neg arg) _ _ k (ends v) (
      then_valid (get_free_fd arg k) _ (get_free_fd-StaysValid arg k v) (λ fd2 k u.
        if_op_valid (is_neg fd2) _ _ k (ends u) (set_valid k fd2 _ fd2 u (u.in_list fd))))

  pub do_fcntl-StaysValid :
      (fd cmd arg : ℕ) (k : Kernel) → IsValid least k → StaysValid least (do_fcntl fd cmd arg k)
  unfolding do_fcntl
  do_fcntl-StaysValid fd cmd arg k v = if_valid (out_of_range fd) _ _ (ends v) (
      option_valid (fildes k fd).vfs_node _ _ (ends v) (λ i _.
        if_valid (cmd == f_dupfd) _ _ (dup_fd-StaysValid fd arg k v) (
          if_valid (cmd == f_getfd) _ _ (ends v) (
            if_valid (cmd == f_setfd) _ _ (set_oflag-StaysValid fd _ k v) (
              if_valid (cmd == f_getfl) _ _ (ends v)
                (if_valid (cmd == f_setfl) _ _ (set_oflag-StaysValid fd _ k v) (ends v)))))))

  open_new-StaysValid :
      (i : ℕ) (k : Kernel) → i < least → IsValid least k → StaysValid least (open_new i k)
  open_new-StaysValid i k h v =
      then_valid (get_free_fd 3 k) _ (get_free_fd-StaysValid 3 k v) (λ fd k u.
        if_valid (is_neg fd) _ _ (ends u) (set_valid k fd _ fd u (omega (arith, u.many))))

  created-StaysValid :
      (i : ℕ) (f : CreatFn) (k : Kernel)
      → i < least
      → IsValid least k
      → StaysValid least (created i f k)
  created-StaysValid i f k h v =
      then_valid (call_creat f i k) _ (call_creat-StaysValid f i k v)
        (λ ret k u. if_op_valid (is_neg ret) _ _ k (ends u) (open_new-StaysValid i k h u))

  option_op_valid :
      {A B : Type 0} (o : Option B) (x : Op A) (f : B → Op A) (k : Kernel)
      → StaysValid least (x k)
      → ((b : B) → StaysValid least (f b k))
      → let op : Op A = elim o [ none ↦ x | some b ↦ f b ] in StaysValid least (op k)
  option_op_valid none x f k p q = p
  option_op_valid (some b) x f k p q = q b

  open_found-StaysValid :
      (i oflag : ℕ) (k : Kernel)
      → i < least
      → IsValid least k
      → StaysValid least (open_found i oflag k)
  open_found-StaysValid i oflag k h v =
      if_valid (bit_and oflag (bit_or o_creat o_excl) == bit_or o_creat o_excl) _ _ (ends v) (
        if_valid (has (node_at k i).status.st_mode s_ifdir && has oflag o_wronly) _ _ (ends v) (
          then_valid _ _
            (option_op_valid (node_at k i).open_fn (get_free_fd 3) (λ f. call_open f i oflag) k
              (get_free_fd-StaysValid 3 k v) (λ f. call_open-StaysValid f i oflag k v))
            (λ fd k u.
              if_op_valid (is_neg fd) _ _ k (ends u)
                (set_valid k fd _ fd u (omega (arith, u.many))))))

-- At least as many nodes as there are.
as_many : (least : ℕ) (k : Kernel) → IsValid least k → IsValid (length k.nodes) k
as_many least k v = record { whole = v.whole; many = omega arith; in_list = v.in_list }

fewer : {A : Type 0} (m n : ℕ) (r : Run A) → m ≤ n → StaysValid n r → StaysValid m r
fewer m n (done a k) h (ends v) =
    ends (record { whole = v.whole; many = omega (arith, v.many); in_list = v.in_list })
fewer m n fault h stops = stops
fewer m n (blocked k) h (waits v) =
    waits (record { whole = v.whole; many = omega (arith, v.many); in_list = v.in_list })

-- One node more.
added :
    (least : ℕ) (k : Kernel) (m : VfsNode)
    → IsValid least k
    → ValidTable (suc (length k.nodes)) k.files (length (k.nodes ++ (m ∷ [])))
added least k m v =
    let u = ValidTable-append k.files k.nodes m v in
    record {
      whole = u.whole;
      many = omega (arith, length-append k.nodes (m ∷ []));
      in_list = u.in_list;
    }

pub creat_vfs-StaysValid :
    (name : List ℕ) (mode : ℕ) (k : Kernel) → IsValid 0 k → StaysValid 0 (creat_vfs name mode k)
unfolding creat_vfs
creat_vfs-StaysValid name mode k v = then_valid (kmalloc k) _ (kmalloc-StaysValid k v) (λ got k u.
    let perm = if bit_and mode s_iperm == 0 then bit_or mode 0o777 else mode in
    if_valid (not got) _ _ (ends u) (
      if_valid (has perm s_ifreg || bit_and perm s_ifmt == 0) _ _
        (fewer 0 (suc (length k.nodes)) _ (omega arith)
          (created-StaysValid (length k.nodes) creat_ramfs _ (omega arith) (added 0 k _ u)))
        (if_valid (has perm s_ififo) _ _
          (fewer 0 (suc (length k.nodes)) _ (omega arith)
            (created-StaysValid (length k.nodes) creat_fifofs _ (omega arith) (added 0 k _ u)))
          (fewer 0 (suc (length k.nodes)) _ (omega arith) (ends (added 0 k _ u))))))

open_missing-StaysValid :
    (name : List ℕ) (oflag mode : ℕ) (k : Kernel)
    → IsValid 0 k
    → StaysValid 0 (open_missing name oflag mode k)
open_missing-StaysValid name oflag mode k v =
    if_op_valid (has oflag o_creat) _ _ k
      (then_valid (creat_vfs name mode k) _ (creat_vfs-StaysValid name mode k v) (λ ret k u.
        if_op_valid (is_neg ret) _ _ k (ends u) (set_valid k ret _ ret u (u.in_list ret))))
      (ends v)

found_in :
    (name : List ℕ) (nodes : List VfsNode) (d : VfsNode) (o : Option ℕ) (i : ℕ)
    → FirstNamed name nodes d o
    → o ≡ some i
    → i < length nodes
found_in name nodes d (some j) i (at j' h m f) e =
    let q : j' ≡ i = ap (λ o. get_or_zero o) e in omega arith
  where
    get_or_zero : Option ℕ → ℕ
    get_or_zero none = 0
    get_or_zero (some x) = x
found_in name nodes d none i (nowhere f) e = cc

pub open_vfs-StaysValid :
    (name : List ℕ) (oflag mode : ℕ) (k : Kernel)
    → IsValid 0 k
    → StaysValid 0 (open_vfs (some name) oflag mode k)
unfolding open_vfs
open_vfs-StaysValid name oflag mode k v =
    option_valid (find_node name k.nodes) _ _ (open_missing-StaysValid name oflag mode k v) (λ i e.
      fewer 0 (length k.nodes) _ (omega arith) (
        open_found-StaysValid i oflag k
          (found_in name k.nodes k.junk.node (find_node name k.nodes) i
            (find_node_lem name k.nodes k.junk.node) e)
          (as_many 0 k v)))
