-- ===== src/Fs/Fd.antt =====
-- `get_free_fd` of vfs.c.
pub mod Free
use razos.Base.{
  ℕ, zero, suc, ◌+◌, ◌-◌, Bool, true, false, ltb, if◌then◌else◌, List, Option, get_or, neg_one,
  is_neg, is_some,
}
use razos.Fs.Kernel.{Fildes, closed_file, Kernel, Run, done, fault, Op, open_max}

-- The loop at descriptor `fd`, with `left` descriptors to go before OPEN_MAX.
pub free_loop : ℕ → ℕ → List Fildes → ℕ
free_loop zero fd files = neg_one
free_loop (suc left) fd files =
    let rest = free_loop left (fd + 1) files in
    if is_some (get_or files fd closed_file).vfs_node then rest else fd

-- The loop ends at OPEN_MAX by equality: from a larger descriptor it reads behind the array.
unfoldable pub get_free_fd : ℕ → Op ℕ
unfolding free_loop
get_free_fd fd k =
    if is_neg fd
    then done neg_one k
    else if ltb open_max fd
    then fault
    else done (free_loop (open_max - fd) fd k.files) k
