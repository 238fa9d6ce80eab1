-- ===== src/Fs/Vfs/Open.antt =====
-- The search for a node by its name, and a file that is opened and closed.
use razos.Base.{
  ℕ, zero, suc, ◌<◌, ◌≡◌, ◌≢◌, refl, sym, ap, ◌∙◌, arith, Bool, true, false, not, ◌&&◌, ◌==◌,
  if◌then◌else◌, is_neg, bit_and, bit_or, List, [], ◌∷◌, Option, none, some, Bool-cases, inl, inr,
  neg_one, is_some, get_or, length, length-set, get_or-set_self, get_or-set_ne,
}
use mathlib.Core.Option
use mathlib.Core.Path.{subst}
use razos.Strings.{strcmp}
use razos.Fs.Kernel.{
  Kernel, VfsNode, Fildes, closed_file, done, fail, fildes, set_fildes, node_at, has, open_max,
  devid_pipe, o_creat, o_excl, o_wronly, s_ifdir, emfile,
}
use razos.Fs.Fd.{get_free_fd}
use razos.Fs.Fd.Free.{FirstFree, get_free_fd_lem, is_open}
use razos.Fs.Vfs.{c_string, find_node, open_vfs, open_found, close_vfs, out_of_range}

-- The node has the name, and is no pipe.
abbrev pub is_named : List ℕ → VfsNode → Bool
is_named name n = not (n.status.st_dev == devid_pipe) && (strcmp name (c_string n.name) == 0)

-- The first node with the name, or none at all.
pub data FirstNamed (name : List ℕ) (nodes : List VfsNode) (d : VfsNode) : Option ℕ → Type 0 where
  at :
      (i : ℕ)
      → i < length nodes
      → is_named name (get_or nodes i d) ≡ true
      → ((j : ℕ) → j < i → is_named name (get_or nodes j d) ≡ false)
      → FirstNamed name nodes d (some i)
  nowhere :
      ((j : ℕ) → j < length nodes → is_named name (get_or nodes j d) ≡ false)
      → FirstNamed name nodes d none

FirstNamed-next :
    (name : List ℕ) (n : VfsNode) (nodes : List VfsNode) (d : VfsNode) (o : Option ℕ)
    → is_named name n ≡ false
    → FirstNamed name nodes d o
    → FirstNamed name (n ∷ nodes) d (Option.map suc o)
FirstNamed-next name n nodes d (some i) e (at i' l m f) = at (suc i') (omega arith) m (λ j h.
    elim j as (λ j. j < suc i' → is_named name (get_or (n ∷ nodes) j d) ≡ false) [
      | zero ↦ λ _. e
      | suc j ↦ λ h. f j (omega arith)
    ]
      h)
FirstNamed-next name n nodes d none e (nowhere f) = nowhere (λ j h.
    elim j as (λ j. j < length (n ∷ nodes) → is_named name (get_or (n ∷ nodes) j d) ≡ false) [
      | zero ↦ λ _. e
      | suc j ↦ λ h. f j (omega arith)
    ]
      h)

find_node_step :
    (name : List ℕ) (n : VfsNode) (nodes : List VfsNode)
    → find_node name (n ∷ nodes)
      ≡ (if is_named name n then some 0 else Option.map suc (find_node name nodes))
unfolding find_node
find_node_step name n nodes = elim (Bool-cases (n.status.st_dev == devid_pipe)) [
  | inl e ↦ rw e refl
  | inr e ↦ rw e refl
]

-- The search goes over the nodes in the order of the list and gives the first that is no pipe and whose name
-- `strcmp` finds equal, and fails exactly if there is none.
pub find_node_lem :
    (name : List ℕ) (nodes : List VfsNode) (d : VfsNode)
    → FirstNamed name nodes d (find_node name nodes)
unfolding find_node
find_node_lem name [] d = nowhere (λ j h. absurd (omega arith))
find_node_lem name (n ∷ nodes) d =
    let rest = Option.map suc (find_node name nodes) in
    let step = λ (b : Bool) (e : is_named name n ≡ b).
      find_node_step name n nodes ∙ ap (λ b. if b then some 0 else rest) e in
    elim (Bool-cases (is_named name n)) [
      | inl e ↦
          subst (FirstNamed name (n ∷ nodes) d) (sym (step true e))
            (at 0 (omega arith) e (λ j h. absurd (omega arith)))
      | inr e ↦
          subst (FirstNamed name (n ∷ nodes) d) (sym (step false e))
            (FirstNamed-next name n nodes d (find_node name nodes) e (find_node_lem name nodes d))
    ]

-- The node at `i` is a plain file, as `ramfs` makes them, that may be opened with these flags.
pub record IsPlain (k : Kernel) (i oflag : ℕ) : Type 0 where
  pub not_exclusive : (bit_and oflag (bit_or o_creat o_excl) == bit_or o_creat o_excl) ≡ false
  pub no_directory : has (node_at k i).status.st_mode s_ifdir && has oflag o_wronly ≡ false
  pub no_open : (node_at k i).open_fn ≡ none
  pub no_close : (node_at k i).close_fn ≡ none

-- The kernel with `fd` open at the start of node `i`.
abbrev pub opened : Kernel → ℕ → ℕ → ℕ → Kernel
opened k fd i oflag = set_fildes k fd (record { vfs_node = some i; at = 0; oflag = oflag })

open_found_lem :
    (k : Kernel) (i oflag r : ℕ)
    → IsPlain k i oflag
    → get_free_fd 3 k ≡ done r k
    → (r < open_max → open_found i oflag k ≡ done r (opened k r i oflag))
      × (r ≡ neg_one → open_found i oflag k ≡ fail emfile k)
open_found_lem k i oflag r p g = (
  λ h.
      let e : is_neg r ≡ false = ground arith in
      rw (p.not_exclusive, p.no_directory, p.no_open) (rw (g, e) refl),
  λ h. rw (p.not_exclusive, p.no_directory, p.no_open) (rw (g, h) refl),
)

open_name :
    (k : Kernel) (name : List ℕ) (i oflag mode : ℕ)
    → find_node name k.nodes ≡ some i
    → open_vfs (some name) oflag mode k ≡ open_found i oflag k
unfolding open_vfs
open_name k name i oflag mode e = rw (e, open_vfs) refl

close_plain :
    (k : Kernel) (fd i : ℕ)
    → fd < open_max
    → (fildes k fd).vfs_node ≡ some i
    → (node_at k i).close_fn ≡ none
    → close_vfs fd k ≡ done 0 (set_fildes k fd closed_file)
unfolding close_vfs
close_plain k fd i h e c =
    let o : out_of_range fd ≡ false = ground arith in rw (o, e, close_vfs) (rw (c) refl)

-- Opening the first node of a name, where it is a plain file and the flags allow it, gives the first free descriptor
-- from 3 on, at the start of the file and with the flags given, or EMFILE if none is free. Closing it again makes it
-- free, and no other descriptor and no node has changed.
pub open_vfs-close_vfs :
    (k : Kernel) (name : List ℕ) (i oflag mode : ℕ)
    → length k.files ≡ open_max
    → find_node name k.nodes ≡ some i
    → IsPlain k i oflag
    → (r : ℕ) × FirstFree k.files 3 r
      × (r ≡ neg_one
          → open_vfs (some name) oflag mode k ≡ done neg_one (record k { errno = emfile }))
      × (r < open_max
          → (k' k'' : Kernel) × (open_vfs (some name) oflag mode k ≡ done r k')
            × (fildes k' r ≡ record { vfs_node = some i; at = 0; oflag = oflag })
            × (close_vfs r k' ≡ done 0 k'')
            × (is_open k''.files r ≡ false)
            × ((j : ℕ) → j ≢ r → fildes k'' j ≡ fildes k j)
            × (k''.nodes ≡ k.nodes))
open_vfs-close_vfs k name i oflag mode l e p =
    let (r, g, first) = (get_free_fd_lem 3 k).0 (omega arith) in
    let (yes_fd, no_fd) = open_found_lem k i oflag r p g in
    let by_name = open_name k name i oflag mode e in
    let f : Fildes = record { vfs_node = some i; at = 0; oflag = oflag } in
    let k' = opened k r i oflag in
    (
      r,
      first,
      λ h. by_name ∙ no_fd h,
      λ h.
          let s : fildes k' r ≡ f = get_or-set_self k.files r f closed_file (omega (arith, l)) in
          (
            k',
            set_fildes k' r closed_file,
            by_name ∙ yes_fd h,
            s,
            close_plain k' r i h (ap (λ g. g.vfs_node) s) p.no_close,
            ap (λ g. is_some g.vfs_node)
                (get_or-set_self k'.files r closed_file closed_file
                  (omega (arith, l, length-set k.files r f))),
            λ j n.
                get_or-set_ne k'.files r j closed_file closed_file (λ q. n (sym q))
                ∙ get_or-set_ne k.files r j f closed_file (λ q. n (sym q)),
            refl,
          ),
    )
