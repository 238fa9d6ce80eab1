-- ===== src/Fs/Fcntl/Flags.antt =====
-- What the commands of `do_fcntl` do to the flags and the table of descriptors.
use razos.Base.{
  ℕ, ◌-◌, ◌<◌, ◌≤◌, ◌≡◌, refl, ap, arith, true, false, Option, none, some, length, neg_one, is_neg,
  bit_and, bit_or, get_or-set_self, get_or-set_ne, ◌≢◌, ◌∙◌, ◌⊎◌, inl, inr, Bool-cases,
}
use razos.Base.Bits.{bit_and_distrib, bit_and_assoc, bit_and-zero, bit_or-zero, zero-or}
use razos.Fs.Kernel.{
  Kernel, Fildes, closed_file, done, fail, fildes, set_fildes, ebadf, emfile, open_max,
}
use razos.Fs.Fd.{get_free_fd}
use razos.Fs.Fd.Free.{FirstFree, get_free_fd_lem}
use razos.Fs.Vfs.{out_of_range}
use razos.Fs.Fcntl.{
  do_fcntl, f_dupfd, f_getfd, f_setfd, f_getfl, f_setfl, fd_mask, o_mask, o_sf_mask, without,
  fd_cloexec, dup_fd, set_oflag,
}

-- Descriptor `fd` of the table of 32 is open at node `i`.
pub record IsOpen (k : Kernel) (fd i : ℕ) : Type 0 where
  pub in_range : fd < open_max
  pub whole : length k.files ≡ open_max
  pub open_at : (fildes k fd).vfs_node ≡ some i

-- `new` in the bits of `m`, `old` in the others.
abbrev pub replaced : ℕ → ℕ → ℕ → ℕ
replaced old new m = bit_or (without old m) (bit_and new m)

replaced-inside :
    (old new m : ℕ)
    → bit_and (neg_one - m) m ≡ 0
    → bit_and m m ≡ m
    → bit_and (replaced old new m) m ≡ bit_and new m
replaced-inside old new m e f = rw (
  bit_and_distrib (without old m) (bit_and new m) m,
  bit_and_assoc old (neg_one - m) m,
  bit_and_assoc new m m,
  e,
  f,
  bit_and-zero old,
  zero-or (bit_and new m),
)

replaced-outside :
    (old new m m' : ℕ)
    → bit_and (neg_one - m) m' ≡ m'
    → bit_and m m' ≡ 0
    → bit_and (replaced old new m) m' ≡ bit_and old m'
replaced-outside old new m m' e f = rw (
  bit_and_distrib (without old m) (bit_and new m) m',
  bit_and_assoc old (neg_one - m) m',
  bit_and_assoc new m m',
  e,
  f,
  bit_and-zero new,
  bit_or-zero (bit_and old m'),
)

-- The kernel with other flags for `fd`.
abbrev pub with_oflag : Kernel → ℕ → ℕ → Kernel
with_oflag k fd flags = set_fildes k fd (record (fildes k fd) { oflag = flags })

fildes-set_self :
    (k : Kernel) (fd : ℕ) (f : Fildes) → fd < length k.files → fildes (set_fildes k fd f) fd ≡ f
fildes-set_self k fd f h = get_or-set_self k.files fd f closed_file h

out_of_range_lem : (fd : ℕ) → fd < open_max → out_of_range fd ≡ false
out_of_range_lem fd h = ground arith

at_some :
    {A B : Type 0}
    → {o : Option A} → {a : A} → (x : B) → o ≡ some a
    → (f : A → B) → (elim o [ none ↦ x | some b ↦ f b ]) ≡ f a
at_some x e f = rw e refl

-- The commands that read flags.
getfd_lem :
    (k : Kernel) (fd arg i : ℕ)
    → fd < open_max
    → (fildes k fd).vfs_node ≡ some i
    → (do_fcntl fd f_getfd arg k ≡ done (bit_and (fildes k fd).oflag fd_mask) k)
      × (do_fcntl fd f_getfl arg k ≡ done (bit_and (fildes k fd).oflag o_mask) k)
unfolding do_fcntl
getfd_lem k fd arg i h e = (rw (out_of_range_lem fd h, e) refl, rw (out_of_range_lem fd h, e) refl)

setfd_lem :
    (k : Kernel) (fd arg i : ℕ)
    → fd < open_max
    → (fildes k fd).vfs_node ≡ some i
    → (do_fcntl fd f_setfd arg k ≡ set_oflag fd (replaced (fildes k fd).oflag arg fd_mask) k)
      × (do_fcntl fd f_setfl arg k ≡ set_oflag fd (replaced (fildes k fd).oflag arg o_sf_mask) k)
unfolding do_fcntl
setfd_lem k fd arg i h e = (
  rw (out_of_range_lem fd h)
      (at_some _ e (λ j. set_oflag fd (replaced (fildes k fd).oflag arg fd_mask) k)),
  rw (out_of_range_lem fd h)
      (at_some _ e (λ j. set_oflag fd (replaced (fildes k fd).oflag arg o_sf_mask) k)),
)

getfd_after :
    (k : Kernel) (fd arg i flags : ℕ)
    → IsOpen k fd i
    → (do_fcntl fd f_getfd arg (with_oflag k fd flags)
        ≡ done (bit_and flags fd_mask) (with_oflag k fd flags))
      × (do_fcntl fd f_getfl arg (with_oflag k fd flags)
          ≡ done (bit_and flags o_mask) (with_oflag k fd flags))
getfd_after k fd arg i flags v =
    let f = record (fildes k fd) { oflag = flags } in
    let e = fildes-set_self k fd f (omega (arith, v.in_range, v.whole)) in
    let (p, q) = getfd_lem (with_oflag k fd flags) fd arg i v.in_range (rw e v.open_at) in
    (
      rw p (ap (λ g. done (bit_and g.oflag fd_mask) (with_oflag k fd flags)) e),
      rw q (ap (λ g. done (bit_and g.oflag o_mask) (with_oflag k fd flags)) e),
    )

-- On a descriptor that is open, F_SETFD returns 0 and replaces the flags of FD_MASK by those of its argument:
-- F_GETFD then returns these, and F_GETFL what it returned before.
pub setfd-getfd :
    (k : Kernel) (fd arg i : ℕ)
    → IsOpen k fd i
    → (k' : Kernel) × (do_fcntl fd f_setfd arg k ≡ done 0 k')
      × ((x : ℕ) → do_fcntl fd f_getfd x k' ≡ done (bit_and arg fd_mask) k')
      × ((x : ℕ) → do_fcntl fd f_getfl x k' ≡ done (bit_and (fildes k fd).oflag o_mask) k')
setfd-getfd k fd arg i v =
    let flags = (fildes k fd).oflag in
    let new = replaced flags arg fd_mask in
    let k' = with_oflag k fd new in
    (
      k',
      (setfd_lem k fd arg i v.in_range v.open_at).0,
      λ x.
          (getfd_after k fd x i new v).0
          ∙ ap (λ b. done b k') (replaced-inside flags arg fd_mask refl refl),
      λ x.
          (getfd_after k fd x i new v).1
          ∙ ap (λ b. done b k') (replaced-outside flags arg fd_mask o_mask refl refl),
    )

-- On a descriptor that is open, F_SETFL returns 0 and replaces the status flags (0x0F00) by those of its
-- argument. The access mode and the creation flags (0x00F3) and what F_GETFD returns stay.
pub setfl-getfl :
    (k : Kernel) (fd arg i : ℕ)
    → IsOpen k fd i
    → (k' : Kernel) × (do_fcntl fd f_setfl arg k ≡ done 0 k')
      × (bit_and (fildes k' fd).oflag o_sf_mask ≡ bit_and arg o_sf_mask)
      × (bit_and (fildes k' fd).oflag 0x00F3 ≡ bit_and (fildes k fd).oflag 0x00F3)
      × ((x : ℕ) → do_fcntl fd f_getfd x k' ≡ done (bit_and (fildes k fd).oflag fd_mask) k')
setfl-getfl k fd arg i v =
    let flags = (fildes k fd).oflag in
    let new = replaced flags arg o_sf_mask in
    let k' = with_oflag k fd new in
    let f = record (fildes k fd) { oflag = new } in
    let e = fildes-set_self k fd f (omega (arith, v.in_range, v.whole)) in
    (
      k',
      (setfd_lem k fd arg i v.in_range v.open_at).1,
      ap (λ g. bit_and g.oflag o_sf_mask) e ∙ replaced-inside flags arg o_sf_mask refl refl,
      ap (λ g. bit_and g.oflag 0x00F3) e ∙ replaced-outside flags arg o_sf_mask 0x00F3 refl refl,
      λ x.
          (getfd_after k fd x i new v).0
          ∙ ap (λ b. done b k') (replaced-outside flags arg o_sf_mask fd_mask refl refl),
    )

-- What F_DUPFD does with the descriptor `r` that `get_free_fd` gives.
dup_lem :
    (k : Kernel) (fd arg i r : ℕ)
    → fd < open_max
    → (fildes k fd).vfs_node ≡ some i
    → arg ≤ open_max
    → get_free_fd arg k ≡ done r k
    → (r ≡ neg_one → do_fcntl fd f_dupfd arg k ≡ fail emfile k)
      × (r < open_max
          → do_fcntl fd f_dupfd arg k
            ≡ done r (
                set_fildes k r
                  (record (fildes k fd) { oflag = without (fildes k fd).oflag fd_cloexec })))
unfolding do_fcntl
dup_lem k fd arg i r h e l g =
    let a : is_neg arg ≡ false = ground arith in
    (
      λ u. rw (out_of_range_lem fd h) (at_some _ e (λ j. dup_fd fd arg k) ∙ rw (a, g, u) refl),
      λ u.
          let b : is_neg r ≡ false = ground arith in
          rw (out_of_range_lem fd h) (at_some _ e (λ j. dup_fd fd arg k) ∙ rw (a, g, b) refl),
    )

-- On a descriptor that is open, F_DUPFD from a descriptor up to OPEN_MAX gives the first free one from there
-- on, at the same node and position and without FD_CLOEXEC, and changes no other descriptor; if none is free
-- it fails with EMFILE.
pub dupfd_lem :
    (k : Kernel) (fd arg i : ℕ)
    → IsOpen k fd i
    → arg ≤ open_max
    → (r : ℕ) × FirstFree k.files arg r
      × (r ≡ neg_one → do_fcntl fd f_dupfd arg k ≡ fail emfile k)
      × (r < open_max
          → (k' : Kernel) × (do_fcntl fd f_dupfd arg k ≡ done r k')
            × ((fildes k' r).vfs_node ≡ some i)
            × ((fildes k' r).at ≡ (fildes k fd).at)
            × (bit_and (fildes k' r).oflag fd_cloexec ≡ 0)
            × ((j : ℕ) → r ≢ j → fildes k' j ≡ fildes k j))
dupfd_lem k fd arg i v l =
    let (r, g, first) = (get_free_fd_lem arg k).0 l in
    let (p, q) = dup_lem k fd arg i r v.in_range v.open_at l g in
    let f = record (fildes k fd) { oflag = without (fildes k fd).oflag fd_cloexec } in
    (
      r,
      first,
      p,
      λ h.
          let s : fildes (set_fildes k r f) r ≡ f =
            fildes-set_self k r f (omega (arith, v.whole)) in
          (
            set_fildes k r f,
            q h,
            ap (λ g. g.vfs_node) s ∙ v.open_at,
            ap (λ g. g.at) s,
            ap (λ g. bit_and g.oflag fd_cloexec) s
                ∙ bit_and_assoc (fildes k fd).oflag (neg_one - fd_cloexec) fd_cloexec
                ∙ bit_and-zero (fildes k fd).oflag,
            λ j ne. get_or-set_ne k.files r j f closed_file ne,
          ),
    )

-- On a descriptor that is not open every command fails with EBADF and changes nothing else.
pub do_fcntl-closed :
    (k : Kernel) (fd cmd arg : ℕ)
    → out_of_range fd ≡ true ⊎ ((fildes k fd).vfs_node ≡ none)
    → do_fcntl fd cmd arg k ≡ fail ebadf k
unfolding do_fcntl
do_fcntl-closed k fd cmd arg (inl e) = rw e refl
do_fcntl-closed k fd cmd arg (inr e) = elim (Bool-cases (out_of_range fd)) [
  | inl o ↦ rw o refl
  | inr o ↦ rw (o, e) refl
]
