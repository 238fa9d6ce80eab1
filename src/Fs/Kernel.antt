-- ===== src/Fs/Kernel.antt =====
-- The state that kernel/src/fs works on (vfs.h, sys/stat.h, ramfs.h, fifofs.h), the constants of
-- fcntl.h, and runs of a kernel function.
use razos.Base.{
  ℕ, Bool, true, false, ◌!=◌, List, [], ◌∷◌, Option, none, get_or, set, replicate, neg_one, bit_and,
}

-- The values of `errno` that the file system sets.
pub data Errno : Type 0 where
  clear ebadf emfile enoent eexist eisdir einval enomem enobufs enxio : Errno
  espipe erofs enospc eagain epipe : Errno

-- fcntl.h, limits.h
abbrev pub open_max : ℕ
open_max = 32

abbrev pub o_accmode : ℕ
o_accmode = 0x03

abbrev pub o_rdonly : ℕ
o_rdonly = 0x01

abbrev pub o_wronly : ℕ
o_wronly = 0x02

abbrev pub o_rdwr : ℕ
o_rdwr = 0x03

abbrev pub o_creat : ℕ
o_creat = 0x0010

abbrev pub o_excl : ℕ
o_excl = 0x0020

abbrev pub o_nonblock : ℕ
o_nonblock = 0x0200

-- sys/stat.h
abbrev pub s_ifmt : ℕ
s_ifmt = 0x00FF_0000

abbrev pub s_ififo : ℕ
s_ififo = 0x0004_0000

abbrev pub s_ifreg : ℕ
s_ifreg = 0x0008_0000

abbrev pub s_ifdir : ℕ
s_ifdir = 0x0010_0000

abbrev pub s_iperm : ℕ
s_iperm = 0o7777

abbrev pub devid_ramfs : ℕ
devid_ramfs = 1

abbrev pub devid_pipe : ℕ
devid_pipe = 2

abbrev pub devid_stdio : ℕ
devid_stdio = 3

-- `w & mask` as a condition.
unfoldable pub has : ℕ → ℕ → Bool
has w mask = bit_and w mask != 0

-- 256 bytes of a file.
abbrev pub Block : Type 0
Block = List ℕ

abbrev pub zero_block : Block
zero_block = replicate 256 0

-- The functions that a node's pointers can point to.
pub data ReadFn : Type 0 where
  read_ramfs read_fifofs read_stdin : ReadFn

pub data WriteFn : Type 0 where
  write_ramfs write_fifofs write_stdin write_stdout : WriteFn

pub data OpenFn : Type 0 where
  open_fifofs open_stdin open_stdout open_stderr : OpenFn

pub data CreatFn : Type 0 where
  creat_ramfs creat_fifofs : CreatFn

pub data CloseFn : Type 0 where
  close_fifofs : CloseFn

-- `struct stat`; its three times are never set.
pub record Stat : Type 0 where
  pub st_dev : ℕ
  pub st_ino : ℕ
  pub st_mode : ℕ
  pub st_uid : ℕ
  pub st_gid : ℕ
  pub st_rdev : ℕ
  pub st_size : ℕ

-- `struct vfs_node_t`: `name` is the array of 64 bytes. `lseek` is NULL in every node and is left out.
pub record VfsNode : Type 0 where
  pub name : List ℕ
  pub status : Stat
  pub read_fn : Option ReadFn
  pub write_fn : Option WriteFn
  pub open_fn : Option OpenFn
  pub creat_fn : Option CreatFn
  pub close_fn : Option CloseFn

-- `struct fildes_t`: a pointer to a node is the node's place in the list from `vfs_root`.
pub record Fildes : Type 0 where
  pub vfs_node : Option ℕ
  pub at : ℕ
  pub oflag : ℕ

abbrev pub closed_file : Fildes
closed_file = record { vfs_node = none; at = 0; oflag = 0 }

-- `struct fifofs_hdr_t`: `chain` is the list of blocks from `data`.
pub record FifoHdr : Type 0 where
  pub chain : List Block
  pub write_at : ℕ
  pub read_at : ℕ
  pub readers : ℕ
  pub writers : ℕ

-- The statics of stdin.c.
pub record StdinBuf : Type 0 where
  pub read_at : ℕ
  pub write_at : ℕ
  pub buf_size : ℕ
  pub buf : List ℕ

-- What memory from `kmalloc` holds before it is written.
pub record Junk : Type 0 where
  pub node : VfsNode
  pub hdr : FifoHdr
  pub block : Block

pub record Kernel : Type 0 where
  pub errno : Errno
  -- the list from `vfs_root`
  pub nodes : List VfsNode
  -- `cur_task->files`
  pub files : List Fildes
  pub ramfs_inodes : ℕ
  -- an entry that holds no block is NULL
  pub ramfs_nodes : List (List Block)
  pub fifofs_nodes : List (Option FifoHdr)
  pub stdin : StdinBuf
  -- the characters given to `kputchar`, in order
  pub screen : List ℕ
  -- whether the next calls of `kmalloc` succeed; past the end they fail
  pub heap : List Bool
  pub junk : Junk

-- A run ends, stops at a bad access to memory, or waits in `sched_switch` or for an interrupt.
pub data Run (A : Type 0) : Type 0 where
  done : A → Kernel → Run A
  fault : Run A
  blocked : Kernel → Run A

abbrev pub Op : Type 0 → Type 0
Op A = Kernel → Run A

module _ {A B : Type 0} where
  abbrev pub and_then : Run A → (A → Op B) → Run B
  and_then (done a k) f = f a k
  and_then fault f = fault
  and_then (blocked k) f = blocked k

  infixl 5 ◌>>=◌
  abbrev pub ◌>>=◌ : Op A → (A → Op B) → Op B
  m >>= f = λ k. and_then (m k) f

-- `errno = e; return -1;`
abbrev pub fail : Errno → Op ℕ
fail e k = done neg_one (record k { errno = e })

abbrev pub fildes : Kernel → ℕ → Fildes
fildes k fd = get_or k.files fd closed_file

abbrev pub set_fildes : Kernel → ℕ → Fildes → Kernel
set_fildes k fd f = record k { files = set k.files fd f }

abbrev pub node_at : Kernel → ℕ → VfsNode
node_at k i = get_or k.nodes i k.junk.node

abbrev pub set_node : Kernel → ℕ → VfsNode → Kernel
set_node k i n = record k { nodes = set k.nodes i n }

-- The node's status with another size.
abbrev pub with_size : VfsNode → ℕ → VfsNode
with_size n size = record n { status = record (n.status) { st_size = size } }

-- `kmalloc`, as a success or a failure that sets `errno`.
unfoldable pub kmalloc : Op Bool
kmalloc k = elim k.heap [
  | true ∷ rest ↦ done true (record k { heap = rest })
  | false ∷ rest ↦ done false (record k { heap = rest; errno = enomem })
  | [] ↦ done false (record k { errno = enomem })
]
