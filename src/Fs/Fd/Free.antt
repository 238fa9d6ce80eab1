-- ===== src/Fs/Fd/Free.antt =====
-- What `get_free_fd` finds.
use razos.Base.{
  ℕ, zero, suc, ◌+◌, ◌-◌, ◌<◌, ◌≤◌, ◌≡◌, refl, arith, Bool, true, false, List, get_or, neg_one,
  is_some, Bool-cases, inl, inr, ◌^◌,
}
use razos.Fs.Kernel.{Fildes, closed_file, Kernel, done, fault, open_max}
use native.Mathlib.Decide.{ℕ_discrete}
use razos.Fs.Fd.{free_loop, get_free_fd}

-- Whether descriptor `fd` of the table is open.
abbrev pub is_open : List Fildes → ℕ → Bool
is_open files fd = is_some (get_or files fd closed_file).vfs_node

abbrev pub OpenBetween : List Fildes → ℕ → ℕ → Type 0
OpenBetween files lo hi = (j : ℕ) → lo ≤ j → j < hi → is_open files j ≡ true

-- `r` is the first free descriptor from `fd` on, or -1 if there is none before OPEN_MAX.
pub data FirstFree (files : List Fildes) (fd r : ℕ) : Type 0 where
  found :
      fd ≤ r
      → r < open_max
      → is_open files r ≡ false
      → OpenBetween files fd r
      → FirstFree files fd r
  all_open : r ≡ neg_one → OpenBetween files fd open_max → FirstFree files fd r

OpenBetween-first :
    (files : List Fildes) (lo hi : ℕ)
    → is_open files lo ≡ true
    → OpenBetween files (lo + 1) hi
    → OpenBetween files lo hi
OpenBetween-first files lo hi o rest j a b = elim (ℕ_discrete lo j) [
  | yes e ↦ rw (← e) o
  | no ne ↦ rest j (omega (arith, ne)) b
]

FirstFree-first :
    (files : List Fildes) (fd r : ℕ)
    → is_open files fd ≡ true
    → FirstFree files (fd + 1) r
    → FirstFree files fd r
FirstFree-first files fd r o (found a b c d) =
    found (omega arith) b c (OpenBetween-first files fd r o d)
FirstFree-first files fd r o (all_open e d) = all_open e (OpenBetween-first files fd open_max o d)

free_loop_lem :
    (left fd : ℕ) (files : List Fildes)
    → fd + left ≡ open_max
    → FirstFree files fd (free_loop left fd files)
unfolding free_loop
free_loop_lem zero fd files e = all_open refl (λ j a b. absurd (omega arith))
free_loop_lem (suc left) fd files e = elim (Bool-cases (is_open files fd)) [
  | inl o ↦
      rw (o, free_loop)
        (FirstFree-first files fd (free_loop left (fd + 1) files) o
          (free_loop_lem left (fd + 1) files (omega arith)))
  | inr c ↦ rw (c, free_loop) (found (omega arith) (omega arith) c (λ j a b. absurd (omega arith)))
]

-- From a descriptor up to OPEN_MAX `get_free_fd` returns the first free one, or -1 if all are open up to
-- OPEN_MAX, and changes nothing; from a negative one it returns -1; and from one above OPEN_MAX it reads
-- behind the table.
pub get_free_fd_lem :
    (fd : ℕ) (k : Kernel)
    → (fd ≤ open_max → (r : ℕ) × (get_free_fd fd k ≡ done r k) × FirstFree k.files fd r)
      × (2 ^ 31 ≤ fd → get_free_fd fd k ≡ done neg_one k)
      × (open_max < fd → fd < 2 ^ 31 → get_free_fd fd k ≡ fault)
unfolding get_free_fd
get_free_fd_lem fd k = (
  λ h. (
    free_loop (open_max - fd) fd k.files,
    ground arith,
    free_loop_lem (open_max - fd) fd k.files (omega arith),
  ),
  λ h. ground arith,
  λ h l. ground arith,
)
