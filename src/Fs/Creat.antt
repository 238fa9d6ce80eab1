-- ===== src/Fs/Creat.antt =====
-- `creat_vfs` of vfs.c: a new node, and a descriptor for it.
use razos.Base.{
  ℕ, not, ◌||◌, ◌==◌, if◌then◌else◌, List, [], ◌∷◌, ◌++◌, some, length, set, take, drop, neg_one,
  is_neg, add32, bit_and, bit_or,
}
use razos.Fs.Kernel.{
  Kernel, VfsNode, done, Op, fail, set_fildes, CreatFn, creat_ramfs, creat_fifofs, kmalloc, has,
  o_wronly, s_ifmt, s_ififo, s_ifreg, s_iperm, devid_ramfs, emfile, erofs, ◌>>=◌,
}
use razos.Fs.Ramfs
use razos.Fs.Fifofs
use razos.Fs.Fd.{get_free_fd}

unfoldable pub call_creat : CreatFn → ℕ → Op ℕ
call_creat creat_ramfs node_index = Ramfs.creat_ramfs node_index
call_creat creat_fifofs node_index = Fifofs.creat_fifofs node_index

-- `strncpy(&(node->name[0]), name, 63); node->name[63] = '\0';` over an array that holds `old`: the
-- terminator of a shorter name is not copied.
unfoldable pub copy_name : List ℕ → List ℕ → List ℕ
copy_name name old = set (take 63 name ++ drop (length (take 63 name)) old) 63 0

abbrev pub new_node : List ℕ → ℕ → VfsNode → VfsNode
new_node name mode n = record n {
  name = copy_name name n.name;
  status = record (n.status) { st_mode = mode; st_uid = 0; st_gid = 0; st_size = 0 };
}

-- The node as a file of `ramfs`, under the next inode, with the function that creates it.
abbrev pub on_ramfs : CreatFn → Kernel → VfsNode → VfsNode
on_ramfs f k n = record n {
  status = record (n.status) {
    st_dev = devid_ramfs;
    st_rdev = devid_ramfs;
    st_ino = k.ramfs_inodes;
  };
  creat_fn = some f;
}

-- The end of `creat_vfs`: a descriptor for the new node, open for writing.
abbrev pub open_new : ℕ → Op ℕ
open_new i = do
  fd ← get_free_fd 3
  λ k.
      if is_neg fd
      then fail emfile k
      else done fd (set_fildes k fd (record { vfs_node = some i; at = 0; oflag = o_wronly }))

abbrev pub created : ℕ → CreatFn → Op ℕ
created i f = do ret ← call_creat f i; if is_neg ret then (λ k. done neg_one k) else open_new i

unfoldable pub creat_vfs : List ℕ → ℕ → Op ℕ
creat_vfs name mode = do
  got ← kmalloc
  λ k.
      (let i = length k.nodes in
        let perm = if bit_and mode s_iperm == 0 then bit_or mode 0o777 else mode in
        let node = new_node name perm k.junk.node in
        let add = λ (n : VfsNode). record k { nodes = k.nodes ++ (n ∷ []) } in
        let next = λ (k : Kernel). record k { ramfs_inodes = add32 k.ramfs_inodes 1 } in
        if not got
        then done neg_one k
        else if has perm s_ifreg || bit_and perm s_ifmt == 0
        then created i creat_ramfs (next (add (on_ramfs creat_ramfs k node)))
        else if has perm s_ififo
        then created i creat_fifofs (next (add (on_ramfs creat_fifofs k node)))
        else fail erofs (add node))
