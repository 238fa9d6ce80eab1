-- ===== src/Fs/Valid/Steps.antt =====
-- Sequences of calls of vfs.c and do_fcntl.c by one task.
use razos.Base.{ℕ, ◌≡◌, List, some}
use mathlib.Core.Path.{subst}
use razos.Fs.Kernel.{Kernel, Run, done}
use razos.Fs.Creat.{creat_vfs}
use razos.Fs.Vfs.{read_vfs, write_vfs, open_vfs, close_vfs, lseek_vfs}
use razos.Fs.Fcntl.{do_fcntl}
use razos.Fs.Valid.{IsValid, StaysValid, ends}
use razos.Fs.Valid.Calls.{
  read_vfs-StaysValid, write_vfs-StaysValid, open_vfs-StaysValid, creat_vfs-StaysValid,
  close_vfs-StaysValid, lseek_vfs-StaysValid, do_fcntl-StaysValid,
}

-- The calls, made one after the other, none with a NULL pointer and all ended without waiting, take the kernel `k` to another.
pub data Steps (k : Kernel) : Kernel → Type 0 where
  no_call : Steps k k
  reads :
      (fd : ℕ) (buf : List ℕ) (r : ℕ × List ℕ) (k' k'' : Kernel)
      → Steps k k'
      → read_vfs fd (some buf) k' ≡ done r k''
      → Steps k k''
  writes :
      (fd : ℕ) (buf : List ℕ) (r : ℕ) (k' k'' : Kernel)
      → Steps k k'
      → write_vfs fd (some buf) k' ≡ done r k''
      → Steps k k''
  opens :
      (name : List ℕ) (oflag mode r : ℕ) (k' k'' : Kernel)
      → Steps k k'
      → open_vfs (some name) oflag mode k' ≡ done r k''
      → Steps k k''
  creates :
      (name : List ℕ) (mode r : ℕ) (k' k'' : Kernel)
      → Steps k k'
      → creat_vfs name mode k' ≡ done r k''
      → Steps k k''
  closes : (fd r : ℕ) (k' k'' : Kernel) → Steps k k' → close_vfs fd k' ≡ done r k'' → Steps k k''
  seeks :
      (fd offset whence r : ℕ) (k' k'' : Kernel)
      → Steps k k'
      → lseek_vfs fd offset whence k' ≡ done r k''
      → Steps k k''
  controls :
      (fd cmd arg r : ℕ) (k' k'' : Kernel)
      → Steps k k'
      → do_fcntl fd cmd arg k' ≡ done r k''
      → Steps k k''

last_state : {A : Type 0} (a : A) (k : Kernel) → StaysValid 0 (done a k) → IsValid 0 k
last_state a k (ends v) = v

ended : {A : Type 0} (r : Run A) (a : A) (k : Kernel) → StaysValid 0 r → r ≡ done a k → IsValid 0 k
ended r a k s e = last_state a k (subst (StaysValid 0) e s)

-- After any sequence of calls of `read`, `write`, `open`, `creat`, `close`, `lseek` and `fcntl`, in which no buffer and
-- no name is NULL and each call returns, with whatever value, without having waited for another task: the table
-- still has its 32 entries and every open descriptor points to a node of the list, when that held before.
pub Steps-IsValid : (k k' : Kernel) → IsValid 0 k → Steps k k' → IsValid 0 k'
Steps-IsValid k k' v no_call = v
Steps-IsValid k k' v (reads fd buf r k1 k2 s e) =
    ended _ r k' (read_vfs-StaysValid fd buf k1 (Steps-IsValid k k1 v s)) e
Steps-IsValid k k' v (writes fd buf r k1 k2 s e) =
    ended _ r k' (write_vfs-StaysValid fd buf k1 (Steps-IsValid k k1 v s)) e
Steps-IsValid k k' v (opens name oflag mode r k1 k2 s e) =
    ended _ r k' (open_vfs-StaysValid name oflag mode k1 (Steps-IsValid k k1 v s)) e
Steps-IsValid k k' v (creates name mode r k1 k2 s e) =
    ended _ r k' (creat_vfs-StaysValid name mode k1 (Steps-IsValid k k1 v s)) e
Steps-IsValid k k' v (closes fd r k1 k2 s e) =
    ended _ r k' (close_vfs-StaysValid fd k1 (Steps-IsValid k k1 v s)) e
Steps-IsValid k k' v (seeks fd offset whence r k1 k2 s e) =
    ended _ r k' (lseek_vfs-StaysValid fd offset whence k1 (Steps-IsValid k k1 v s)) e
Steps-IsValid k k' v (controls fd cmd arg r k1 k2 s e) =
    ended _ r k' (do_fcntl-StaysValid fd cmd arg k1 (Steps-IsValid k k1 v s)) e
