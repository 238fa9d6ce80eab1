-- ===== src/Fs/Vfs.antt =====
-- The functions of vfs.c and stat.c, and `mkfifo`, on the current task's files.
pub mod Open
pub mod Descriptors
use razos.Base.{
  ℕ, zero, suc, ◌+◌, ◌-◌, Bool, true, false, not, ◌&&◌, ◌||◌, ltb, leb, ◌==◌, if◌then◌else◌, List,
  [], ◌∷◌, ◌++◌, Option, none, some, length, get_or, set, take, drop, neg_one, is_neg, is_some,
  add32, bit_and, bit_or,
}
use razos.Strings.{strcmp}
use razos.Fs.Kernel.{
  Kernel, VfsNode, Stat, Fildes, closed_file, Run, done, fault, blocked, Op, fail, fildes,
  set_fildes, node_at, set_node, ReadFn, read_ramfs, read_fifofs, read_stdin, WriteFn, write_ramfs,
  write_fifofs, write_stdin, write_stdout, OpenFn, open_fifofs, open_stdin, open_stdout,
  open_stderr, CreatFn, creat_ramfs, creat_fifofs, CloseFn, close_fifofs, kmalloc, has, open_max,
  o_rdonly, o_wronly, o_creat, o_excl, s_ifmt, s_ififo, s_ifreg, s_ifdir, s_iperm, devid_ramfs,
  devid_pipe, ebadf, emfile, enoent, eexist, eisdir, einval, enomem, enobufs, enxio, espipe, erofs,
  ◌>>=◌, Errno,
}
use razos.Fs.Creat.{creat_vfs}
use razos.Fs.Ramfs
use razos.Fs.Fifofs
use razos.Fs.Stdio
use razos.Fs.Fd.{get_free_fd}
use mathlib.Core.Option

-- `fd < 0 || fd >= OPEN_MAX`
abbrev pub out_of_range : ℕ → Bool
out_of_range fd = is_neg fd || leb open_max fd

-- A call through `node->read`.
unfoldable pub call_read : ReadFn → ℕ → ℕ → List ℕ → Op (ℕ × List ℕ)
call_read read_ramfs fd node_index buf = Ramfs.read_ramfs fd node_index buf
call_read read_fifofs fd node_index buf = Fifofs.read_fifofs fd node_index buf
call_read read_stdin fd node_index buf = Stdio.read_stdin buf

unfoldable pub call_write : WriteFn → ℕ → ℕ → List ℕ → Op ℕ
call_write write_ramfs fd node_index buf = Ramfs.write_ramfs fd node_index buf
call_write write_fifofs fd node_index buf = Fifofs.write_fifofs node_index buf
call_write write_stdin fd node_index buf = Stdio.write_stdin buf
call_write write_stdout fd node_index buf = Stdio.write_stdout buf

unfoldable pub call_open : OpenFn → ℕ → ℕ → Op ℕ
call_open open_fifofs node_index oflag = Fifofs.open_fifofs node_index oflag
call_open open_stdin node_index oflag = Stdio.open_std 0
call_open open_stdout node_index oflag = Stdio.open_std 1
call_open open_stderr node_index oflag = Stdio.open_std 2

-- A read that fails leaves the buffer as it was.
abbrev fail_read : Errno → List ℕ → Op (ℕ × List ℕ)
fail_read e buf k = done (neg_one, buf) (record k { errno = e })

-- `read_vfs(fd, buf, size)`: `none` is a NULL buffer, and `size` is the length of another.
unfoldable pub read_vfs : ℕ → Option (List ℕ) → Op (ℕ × List ℕ)
read_vfs fd none = fail_read enomem []
read_vfs fd (some buf) = λ k.
    if out_of_range fd then fail_read ebadf buf k else elim (fildes k fd).vfs_node [
      | none ↦ fail_read ebadf buf k
      | some i ↦
          (let node = node_at k i in
            if has node.status.st_mode s_ifdir
            then fail_read eisdir buf k
            else if length buf == 0
            then done (0, buf) k
            else if has (fildes k fd).oflag o_rdonly
            then elim node.read_fn [
              | none ↦ fail_read enxio buf k
              | some f ↦ call_read f fd i buf k
            ]
            else fail_read ebadf buf k)
    ]

unfoldable pub write_vfs : ℕ → Option (List ℕ) → Op ℕ
write_vfs fd none = fail enobufs
write_vfs fd (some buf) = λ k.
    if out_of_range fd then fail ebadf k else elim (fildes k fd).vfs_node [
      | none ↦ fail ebadf k
      | some i ↦
          (if length buf == 0
            then done 0 k
            else if has (fildes k fd).oflag o_wronly
            then elim (node_at k i).write_fn [
              | none ↦ fail enxio k
              | some f ↦ call_write f fd i buf k
            ]
            else fail ebadf k)
    ]

-- The bytes of a `char` array up to the terminator.
unfoldable pub c_string : List ℕ → List ℕ
c_string [] = []
c_string (c ∷ cs) = if c == 0 then [] else c ∷ c_string cs

-- The loop of `open_vfs` over the nodes: pipes have no name.
unfoldable pub find_node : List ℕ → List VfsNode → Option ℕ
unfolding c_string
find_node name [] = none
find_node name (n ∷ nodes) =
    let rest = Option.map suc (find_node name nodes) in
    if n.status.st_dev == devid_pipe
    then rest
    else if strcmp name (c_string n.name) == 0
    then some 0
    else rest

-- `open_vfs`: its branches for a file that is not there, and for one that is.
abbrev pub open_missing : List ℕ → ℕ → ℕ → Op ℕ
open_missing name oflag mode =
    if has oflag o_creat
    then (do
      ret ← creat_vfs name mode
      if is_neg ret then (λ k. done neg_one k) else λ k.
          done ret (set_fildes k ret (record (fildes k ret) { oflag = oflag })))
    else fail enoent

abbrev pub open_found : ℕ → ℕ → Op ℕ
open_found i oflag k =
    let node = node_at k i in
    let opened : Op ℕ = elim node.open_fn [ none ↦ get_free_fd 3 | some f ↦ call_open f i oflag ] in
    if bit_and oflag (bit_or o_creat o_excl) == bit_or o_creat o_excl
    then fail eexist k
    else if has node.status.st_mode s_ifdir && has oflag o_wronly
    then fail eisdir k
    else (do
      fd ← opened
      if is_neg fd then fail emfile else λ k.
          done fd (set_fildes k fd (record { vfs_node = some i; at = 0; oflag = oflag })))
        k

-- `none` is a NULL name.
unfoldable pub open_vfs : Option (List ℕ) → ℕ → ℕ → Op ℕ
open_vfs none oflag mode = fail enoent
open_vfs (some name) oflag mode = λ k. elim (find_node name k.nodes) [
  | none ↦ open_missing name oflag mode k
  | some i ↦ open_found i oflag k
]

unfoldable pub call_close : CloseFn → ℕ → ℕ → Op ℕ
call_close close_fifofs fd node_index = Fifofs.close_fifofs fd node_index

abbrev pub clear_fildes : ℕ → Op ℕ
clear_fildes fd k = done 0 (set_fildes k fd closed_file)

unfoldable pub close_vfs : ℕ → Op ℕ
close_vfs fd k = if out_of_range fd then fail ebadf k else elim (fildes k fd).vfs_node [
  | none ↦ fail ebadf k
  | some i ↦ elim (node_at k i).close_fn [
    | none ↦ clear_fildes fd k
    | some f ↦
        (do ret ← call_close f fd i; if is_neg ret then (λ k. done neg_one k) else clear_fildes fd)
          k
  ]
]

-- The new position, if `whence` is one of SEEK_SET, SEEK_CUR and SEEK_END.
abbrev pub seek : ℕ → ℕ → ℕ → ℕ → Option ℕ
seek at size offset whence =
    if whence == 0
    then some offset
    else if whence == 1
    then some (add32 at offset)
    else if whence == 2
    then some (add32 size offset)
    else none

unfoldable pub lseek_vfs : ℕ → ℕ → ℕ → Op ℕ
lseek_vfs fd offset whence k =
    if out_of_range fd then fail ebadf k else elim (fildes k fd).vfs_node [
      | none ↦ fail ebadf k
      | some i ↦
          (let status = (node_at k i).status in
            let f = fildes k fd in
            if has status.st_mode s_ififo
            then fail espipe k
            else elim (seek f.at status.st_size offset whence) [
              | none ↦ fail einval k
              | some at ↦ done at (set_fildes k fd (record f { at = at }))
            ])
    ]

unfoldable pub mkfifo : List ℕ → ℕ → Op ℕ
mkfifo path mode = do
  fd ← creat_vfs path (bit_or mode s_ififo)
  if is_neg fd then (λ k. done neg_one k) else do _ ← close_vfs fd; λ k. done 0 k

-- `fstat(fd, buf)`: the status that goes through `buf`. A descriptor that is not open is a NULL node.
unfoldable pub fstat : ℕ → Op (ℕ × Option Stat)
fstat fd k =
    if out_of_range fd
    then done (neg_one, none) (record k { errno = ebadf })
    else elim (fildes k fd).vfs_node [
      | none ↦ fault
      | some i ↦ done (0, some (node_at k i).status) k
    ]

-- `stat(path, buf)`, with `open` and `close` of kernel/lib/fcntl.c, which call the `_vfs` functions.
unfoldable pub stat : Option (List ℕ) → Op (ℕ × Option Stat)
stat none = λ k. done (neg_one, none) (record k { errno = enoent })
stat (some path) = do
  fd ← open_vfs (some path) o_rdonly 0
  if is_neg fd
      then (λ k. done (neg_one, none) (record k { errno = ebadf }))
      else do ret ← fstat fd; _ ← close_vfs fd; λ k. done ret k
