-- ===== src/Fs/Stdio.antt =====
-- stdin.c, stdout.c and stderr.c: the console as files.
pub mod Queue
use razos.Base.{
  ℕ, zero, suc, ◌+◌, ◌-◌, Bool, true, false, ◌&&◌, ltb, leb, ◌==◌, is_neg, if◌then◌else◌, List, [],
  ◌∷◌, ◌++◌, Option, none, some, length, get_or, set, is_some, sub32, add32,
}
use razos.Fs.Kernel.{
  Kernel, StdinBuf, Run, done, fault, blocked, Op, fildes, OpenFn, open_stdin, open_stdout,
  open_stderr, open_fifofs, emfile, ◌>>=◌,
}
use razos.Fs.Fd.{get_free_fd}

-- `push_stdin(c)`
unfoldable pub push_stdin : ℕ → StdinBuf → ℕ × StdinBuf
push_stdin c s =
    if leb 1024 s.write_at && s.read_at == 0
    then (0, s)
    else (let at = if leb 1024 s.write_at then 0 else s.write_at in
        (1, record s { buf = set s.buf at c; write_at = at + 1 }))

-- `pop_stdin()`: 0 if the buffer is empty.
unfoldable pub pop_stdin : StdinBuf → ℕ × StdinBuf
pop_stdin s =
    let at = if leb 1024 s.read_at then 0 else s.read_at in
    if at == s.write_at
    then (0, record s { read_at = at })
    else (get_or s.buf at 0, record s { read_at = at + 1 })

-- The loop of `read_stdin` over the positions of the buffer: a 0 leaves the position as it was.
unfoldable pub read_loop : List ℕ → StdinBuf → List ℕ × StdinBuf
unfolding pop_stdin
read_loop [] s = ([], s)
read_loop (b ∷ buf) s =
    let (c, s') = pop_stdin s in
    let (bytes, t) =
      read_loop buf (if c == 0 then s' else record s' { buf_size = sub32 s'.buf_size 1 }) in
    ((if c == 0 then b else c) ∷ bytes, t)

-- `read_stdin`: it waits for the keyboard until the buffer has `size` characters.
unfoldable pub read_stdin : List ℕ → Op (ℕ × List ℕ)
unfolding read_loop
read_stdin buf k =
    if ltb k.stdin.buf_size (length buf)
    then blocked k
    else (let (bytes, s) = read_loop buf k.stdin in
        done (length buf, bytes) (record k { stdin = s }))

-- The loop of `write_stdin`
unfoldable pub write_loop : List ℕ → StdinBuf → StdinBuf
unfolding push_stdin
write_loop [] s = s
write_loop (c ∷ buf) s =
    let (n, s') = push_stdin c s in write_loop buf (record s' { buf_size = add32 s'.buf_size n })

unfoldable pub write_stdin : List ℕ → Op ℕ
unfolding write_loop
write_stdin buf k = done (length buf) (record k { stdin = write_loop buf k.stdin })

-- `write_stdout` and `write_stderr`
unfoldable pub write_stdout : List ℕ → Op ℕ
write_stdout buf k = done (length buf) (record k { screen = k.screen ++ buf })

-- `open_stdin`, `open_stdout` and `open_stderr`, at their own descriptor.
unfoldable pub open_std : ℕ → Op ℕ
open_std fileno k =
    if is_some (fildes k fileno).vfs_node
    then (do
      ret ← get_free_fd 3
      λ k. done ret (if is_neg ret then record k { errno = emfile } else k))
        k
    else done fileno k
