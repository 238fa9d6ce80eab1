-- ===== src/Fs/Fcntl.antt =====
-- `do_fcntl` of do_fcntl.c.
pub mod Flags
use razos.Base.{
  ℕ, ◌-◌, Bool, true, false, ◌==◌, if◌then◌else◌, Option, none, some, neg_one, is_neg, bit_and,
  bit_or,
}
use razos.Fs.Kernel.{
  Kernel, Fildes, Run, done, fault, Op, fail, fildes, set_fildes, ebadf, einval, emfile, ◌>>=◌,
}
use razos.Fs.Fd.{get_free_fd}
use razos.Fs.Vfs.{out_of_range}

-- The masks and commands of fcntl.h.
abbrev pub o_mask : ℕ
o_mask = 0x0FF3

abbrev pub o_sf_mask : ℕ
o_sf_mask = 0x0F00

abbrev pub fd_mask : ℕ
fd_mask = 0xF000

abbrev pub fd_cloexec : ℕ
fd_cloexec = 0x1000

abbrev pub f_dupfd : ℕ
f_dupfd = 1

abbrev pub f_getfd : ℕ
f_getfd = 2

abbrev pub f_setfd : ℕ
f_setfd = 4

abbrev pub f_getfl : ℕ
f_getfl = 8

abbrev pub f_setfl : ℕ
f_setfl = 16

-- `w &= ~mask`
abbrev pub without : ℕ → ℕ → ℕ
without w mask = bit_and w (neg_one - mask)

abbrev pub set_oflag : ℕ → ℕ → Op ℕ
set_oflag fd oflag k = done 0 (set_fildes k fd (record (fildes k fd) { oflag = oflag }))

abbrev pub dup_fd : ℕ → ℕ → Op ℕ
dup_fd fd arg = if is_neg arg then fail einval else do
  fd2 ← get_free_fd arg
  if is_neg fd2 then fail emfile else λ k.
      (let f = fildes k fd in
        done fd2 (set_fildes k fd2 (record f { oflag = without f.oflag fd_cloexec })))

unfoldable pub do_fcntl : ℕ → ℕ → ℕ → Op ℕ
do_fcntl fd cmd arg k = if out_of_range fd then fail ebadf k else elim (fildes k fd).vfs_node [
  | none ↦ fail ebadf k
  | some i ↦
      (let flags = (fildes k fd).oflag in
        if cmd == f_dupfd
        then dup_fd fd arg k
        else if cmd == f_getfd
        then done (bit_and flags fd_mask) k
        else if cmd == f_setfd
        then set_oflag fd (bit_or (without flags fd_mask) (bit_and arg fd_mask)) k
        else if cmd == f_getfl
        then done (bit_and flags o_mask) k
        else if cmd == f_setfl
        then set_oflag fd (bit_or (without flags o_sf_mask) (bit_and arg o_sf_mask)) k
        else fail einval k)
]
