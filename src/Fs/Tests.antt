-- ===== src/Fs/Tests.antt =====
-- A kernel with one file, "f", that is open under descriptor 3.
use razos.Base.{
  bit_and, ℕ, zero, suc, get_or, ◌≡◌, refl, arith, true, List, [], ◌∷◌, none, some, replicate,
}
use razos.Strings.{strcmp, cmp_loop}
use razos.Fs.Kernel.{
  fildes, Kernel, VfsNode, Fildes, closed_file, set_fildes, StdinBuf, done, clear, zero_block,
  s_ifreg, has, ReadFn, WriteFn, CreatFn,
}
use razos.Fs.Fd.{get_free_fd}
use razos.Fs.Fd.Free.{FirstFree, get_free_fd_lem}
use razos.Fs.Blocks.{Written, write_chain}
use razos.Fs.Blocks.Write.{Wrote, write_chain_lem}
use razos.Fs.Ramfs.{read_ramfs, write_ramfs}
use razos.Fs.Ramfs.RoundTrip.{IsAt, read_ramfs_lem, write_ramfs-read_ramfs, moved}
use razos.Fs.Stdio.{write_stdin, read_stdin}
use razos.Fs.Stdio.Queue.{Holds, write_stdin-read_stdin, with_stdin}
use razos.Fs.Vfs.{c_string, find_node, close_vfs, lseek_vfs}
use razos.Fs.Valid.{NodeIn, IsValid, ValidTable-set}
use razos.Fs.Valid.Steps.{no_call, seeks, closes, Steps-IsValid}
use razos.Fs.Vfs.Open.{IsPlain, open_vfs-close_vfs}
use razos.Fs.Fcntl.{do_fcntl, f_setfl, o_sf_mask}
use razos.Fs.Fcntl.Flags.{IsOpen, dupfd_lem, setfl-getfl}

abbrev text_file : VfsNode
text_file = record {
  name = 102 ∷ replicate 63 0;
  status = record {
    st_dev = 1;
    st_ino = 0;
    st_mode = s_ifreg;
    st_uid = 0;
    st_gid = 0;
    st_rdev = 1;
    st_size = 4;
  };
  read_fn = some ReadFn.read_ramfs;
  write_fn = some WriteFn.write_ramfs;
  open_fn = none;
  creat_fn = some CreatFn.creat_ramfs;
  close_fn = none;
}

-- Descriptor 3 stands at the second byte, for reading and writing.
abbrev third : Fildes
third = record { vfs_node = some 0; at = 1; oflag = 3 }

abbrev small_kernel : Kernel
small_kernel = record {
  errno = clear;
  nodes = text_file ∷ [];
  files = closed_file ∷ closed_file ∷ closed_file ∷ third ∷ replicate 28 closed_file;
  ramfs_inodes = 1;
  ramfs_nodes = (zero_block ∷ []) ∷ replicate 1023 [];
  fifofs_nodes = [];
  stdin = record { read_at = 0; write_at = 0; buf_size = 0; buf = replicate 1024 0 };
  screen = [];
  heap = replicate 8 true;
  junk = record {
    node = text_file;
    hdr = record { chain = []; write_at = 0; read_at = 0; readers = 0; writers = 0 };
    block = zero_block;
  };
}

third-IsAt : IsAt small_kernel 3 0 zero_block []
third-IsAt = record {
  has_fd = omega arith;
  has_node = omega arith;
  has_inode = omega arith;
  first_block = refl;
  blocks = (refl, tt);
  early = omega arith;
  inside = omega arith;
}

write_ramfs-read_ramfs_example :
    (k' k'' : Kernel) × (write_ramfs 3 0 (7 ∷ 8 ∷ []) small_kernel ≡ done 2 k')
    × (read_ramfs 3 0 (0 ∷ 0 ∷ []) (moved k' 3 1) ≡ done (2, 7 ∷ 8 ∷ []) k'')
write_ramfs-read_ramfs_example =
    let (k', k'', w, r, _, _) =
      write_ramfs-read_ramfs small_kernel 3 0 (7 ∷ 8 ∷ []) (0 ∷ 0 ∷ []) zero_block []
        (replicate 5 true) third-IsAt refl (omega arith) refl in
    (k', k'', w, r)

read_ramfs_example :
    read_ramfs 3 0 (5 ∷ 5 ∷ []) small_kernel ≡ done (2, 0 ∷ 0 ∷ []) (moved small_kernel 3 3)
read_ramfs_example =
    read_ramfs_lem small_kernel 3 0 (5 ∷ 5 ∷ []) (omega arith) (refl, tt) (omega arith)
      (omega arith) (omega arith)

write_chain_example :
    (w : Written) × (write_chain zero_block 3 255
        (1 ∷ 2 ∷ 3 ∷ [])
        (zero_block ∷ [])
        (true ∷ true ∷ [])
      ≡ some w)
    × (ys : List ℕ) × (tail : List ℕ) × Wrote 255 (1 ∷ 2 ∷ 3 ∷ []) zero_block w ys tail
write_chain_example =
    write_chain_lem zero_block 3 255 (1 ∷ 2 ∷ 3 ∷ []) zero_block [] (true ∷ true ∷ []) refl
      (omega arith) (omega arith) (refl, tt)

get_free_fd_example :
    (r : ℕ) × (get_free_fd 3 small_kernel ≡ done r small_kernel) × FirstFree small_kernel.files 3 r
get_free_fd_example = (get_free_fd_lem 3 small_kernel).0 (omega arith)

third-IsOpen : IsOpen small_kernel 3 0
third-IsOpen = record { in_range = omega arith; whole = refl; open_at = refl }

dupfd_example : (r : ℕ) × FirstFree small_kernel.files 0 r
dupfd_example = let (r, f, _, _) = dupfd_lem small_kernel 3 0 0 third-IsOpen (omega arith) in (r, f)

f_is_first : find_node (102 ∷ []) small_kernel.nodes ≡ some 0
unfolding find_node c_string strcmp cmp_loop
f_is_first = refl

text_file-IsPlain : IsPlain small_kernel 0 1
unfolding has
text_file-IsPlain = record {
  not_exclusive = refl;
  no_directory = refl;
  no_open = refl;
  no_close = refl;
}

open_vfs_example : (r : ℕ) × FirstFree small_kernel.files 3 r
open_vfs_example =
    let (r, f, _, _) =
      open_vfs-close_vfs small_kernel (102 ∷ []) 0 1 0 refl f_is_first text_file-IsPlain in
    (r, f)

nothing-Holds : Holds small_kernel.stdin []
nothing-Holds = record {
  whole = refl;
  counted = refl;
  ends_at = refl;
  fits = omega arith;
  content = refl;
}

stdin_example :
    (s t : StdinBuf) × (write_stdin (7 ∷ 8 ∷ []) small_kernel ≡ done 2 (with_stdin small_kernel s))
    × (read_stdin (0 ∷ []) (with_stdin small_kernel s)
        ≡ done (1, 7 ∷ []) (with_stdin small_kernel t))
    × Holds t (8 ∷ [])
stdin_example =
    write_stdin-read_stdin small_kernel [] (7 ∷ 8 ∷ []) (7 ∷ []) (8 ∷ []) (0 ∷ []) nothing-Holds
      (omega arith) refl (omega arith, tt) refl

all_closed : (n fd : ℕ) → NodeIn 1 (get_or (replicate n closed_file) fd closed_file).vfs_node
all_closed zero fd = tt
all_closed (suc n) zero = tt
all_closed (suc n) (suc fd) = all_closed n fd

small_kernel-IsValid : IsValid 0 small_kernel
small_kernel-IsValid =
    ValidTable-set (replicate 32 closed_file) 1 3 third
      (record { whole = refl; many = omega arith; in_list = all_closed 32 }) (omega arith)

-- Descriptor 3 is moved to the start and closed.
abbrev rewound_kernel : Kernel
rewound_kernel = moved small_kernel 3 0

abbrev closed_kernel : Kernel
closed_kernel = set_fildes rewound_kernel 3 closed_file

seek_runs : lseek_vfs 3 0 0 small_kernel ≡ done 0 rewound_kernel
unfolding lseek_vfs has
seek_runs = refl

close_runs : close_vfs 3 rewound_kernel ≡ done 0 closed_kernel
unfolding close_vfs
close_runs = refl

Steps-IsValid_example : IsValid 0 closed_kernel
Steps-IsValid_example = Steps-IsValid small_kernel closed_kernel small_kernel-IsValid (
    closes 3 0 rewound_kernel closed_kernel
      (seeks 3 0 0 0 small_kernel rewound_kernel no_call seek_runs) close_runs)

setfl_example :
    (k' : Kernel) × (do_fcntl 3 f_setfl 0x200 small_kernel ≡ done 0 k')
    × (bit_and (fildes k' 3).oflag o_sf_mask ≡ 0x200)
setfl_example = let (k', e, f, _, _) = setfl-getfl small_kernel 3 0x200 0 third-IsOpen in (k', e, f)
