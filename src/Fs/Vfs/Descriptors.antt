-- ===== src/Fs/Vfs/Descriptors.antt =====
-- The calls of vfs.c and do_fcntl.c on a descriptor that is not open.
use razos.Base.{ℕ, ◌≡◌, refl, ◌⊎◌, inl, inr, true, false, Bool-cases, List, none, some, neg_one}
use razos.Fs.Kernel.{Kernel, done, fault, fail, fildes, ebadf}
use razos.Fs.Vfs.{out_of_range, read_vfs, write_vfs, close_vfs, lseek_vfs, fstat}
use razos.Fs.Fcntl.{do_fcntl}
use razos.Fs.Fcntl.Flags.{do_fcntl-closed}

-- `fd` is no descriptor, or one that is not open.
abbrev pub IsBad : Kernel → ℕ → Type 0
IsBad k fd = out_of_range fd ≡ true ⊎ ((fildes k fd).vfs_node ≡ none)

read_bad :
    (k : Kernel) (fd : ℕ) (buf : List ℕ)
    → IsBad k fd
    → read_vfs fd (some buf) k ≡ done (neg_one, buf) (record k { errno = ebadf })
unfolding read_vfs
read_bad k fd buf (inl e) = rw e refl
read_bad k fd buf (inr e) = elim (Bool-cases (out_of_range fd)) [
  | inl o ↦ rw o refl
  | inr o ↦ rw (o, e) refl
]

write_bad :
    (k : Kernel) (fd : ℕ) (buf : List ℕ) → IsBad k fd → write_vfs fd (some buf) k ≡ fail ebadf k
unfolding write_vfs
write_bad k fd buf (inl e) = rw e refl
write_bad k fd buf (inr e) = elim (Bool-cases (out_of_range fd)) [
  | inl o ↦ rw o refl
  | inr o ↦ rw (o, e) refl
]

close_bad : (k : Kernel) (fd : ℕ) → IsBad k fd → close_vfs fd k ≡ fail ebadf k
unfolding close_vfs
close_bad k fd (inl e) = rw e refl
close_bad k fd (inr e) = elim (Bool-cases (out_of_range fd)) [
  | inl o ↦ rw o refl
  | inr o ↦ rw (o, e) refl
]

lseek_bad :
    (k : Kernel) (fd offset whence : ℕ) → IsBad k fd → lseek_vfs fd offset whence k ≡ fail ebadf k
unfolding lseek_vfs
lseek_bad k fd offset whence (inl e) = rw e refl
lseek_bad k fd offset whence (inr e) = elim (Bool-cases (out_of_range fd)) [
  | inl o ↦ rw o refl
  | inr o ↦ rw (o, e) refl
]

-- On a number that is no descriptor, or a descriptor that is not open, `read`, `write`, `close`, `lseek` and `fcntl`
-- return -1 with EBADF, and neither the buffer nor anything else but `errno` changes.
pub bad_descriptor :
    (k : Kernel) (fd : ℕ)
    → IsBad k fd
    → ((buf : List ℕ) → read_vfs fd (some buf) k ≡ done (neg_one, buf) (record k { errno = ebadf }))
      × ((buf : List ℕ) → write_vfs fd (some buf) k ≡ done neg_one (record k { errno = ebadf }))
      × (close_vfs fd k ≡ done neg_one (record k { errno = ebadf }))
      × ((offset whence : ℕ)
          → lseek_vfs fd offset whence k ≡ done neg_one (record k { errno = ebadf }))
      × ((cmd arg : ℕ) → do_fcntl fd cmd arg k ≡ done neg_one (record k { errno = ebadf }))
bad_descriptor k fd h = (
  λ buf. read_bad k fd buf h,
  λ buf. write_bad k fd buf h,
  close_bad k fd h,
  λ offset whence. lseek_bad k fd offset whence h,
  λ cmd arg. do_fcntl-closed k fd cmd arg h,
)

-- `fstat` tests only the range: on a descriptor in range that is not open it reads through NULL.
pub fstat_closed :
    (k : Kernel) (fd : ℕ)
    → out_of_range fd ≡ false
    → (fildes k fd).vfs_node ≡ none
    → fstat fd k ≡ fault
unfolding fstat
fstat_closed k fd o e = rw (o, e) refl
