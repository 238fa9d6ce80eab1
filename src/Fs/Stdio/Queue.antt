-- ===== src/Fs/Stdio/Queue.antt =====
-- The buffer of stdin.c as a queue, up to the place where its positions start again at 0.
use razos.Base.{
  ℕ, zero, suc, ◌+◌, ◌<◌, ◌≤◌, ◌≡◌, refl, ap, sym, ◌∙◌, arith, true, false, ltb, leb, ◌==◌, List,
  [], ◌∷◌, ◌++◌, length, get_or, set, take, drop, length-set, length-append, take-set, drop-get_or,
  length-drop, add32, sub32,
}
use mathlib.Core.List.{append_assoc, append-nil}
use razos.Fs.Kernel.{Kernel, StdinBuf, done, blocked}
use razos.Fs.Stdio.{push_stdin, pop_stdin, read_loop, read_stdin, write_loop, write_stdin}

-- The buffer holds `bytes`, next to read first.
pub record Holds (s : StdinBuf) (bytes : List ℕ) : Type 0 where
  pub whole : length s.buf ≡ 1024
  pub counted : s.buf_size ≡ length bytes
  pub ends_at : s.write_at ≡ s.read_at + length bytes
  pub fits : s.write_at ≤ 1024
  pub content : take (length bytes) (drop s.read_at s.buf) ≡ bytes

drop-set_at : (xs : List ℕ) (i j v : ℕ) → drop i (set xs (i + j) v) ≡ set (drop i xs) j v
drop-set_at xs zero j v = ap (λ n. set xs n v) (omega arith)
drop-set_at [] (suc i) j v = refl
drop-set_at (x ∷ xs) (suc i) j v =
    let e : suc i + j ≡ suc (i + j) = omega arith in rw e (drop-set_at xs i j v)

-- The buffer after a character is put in.
abbrev pub put : ℕ → StdinBuf → StdinBuf
put c s = record s {
  buf = set s.buf s.write_at c;
  write_at = s.write_at + 1;
  buf_size = add32 s.buf_size 1;
}

push_stdin_lem :
    (c : ℕ) (s : StdinBuf)
    → s.write_at < 1024
    → push_stdin c s ≡ (1, record s { buf = set s.buf s.write_at c; write_at = s.write_at + 1 })
unfolding push_stdin
push_stdin_lem c s h = let e : leb 1024 s.write_at ≡ false = ground arith in rw e refl

put-Holds :
    (c : ℕ) (s : StdinBuf) (bytes : List ℕ)
    → Holds s bytes
    → s.write_at < 1024
    → Holds (put c s) (bytes ++ (c ∷ []))
put-Holds c s bytes v h =
    let n = length bytes in
    let room : n < length (drop s.read_at s.buf) =
      omega (arith, length-drop s.read_at s.buf, v.whole, v.ends_at) in
    let len : length (bytes ++ (c ∷ [])) ≡ suc n = omega (arith, length-append bytes (c ∷ [])) in
    record {
      whole = length-set s.buf s.write_at c ∙ v.whole;
      counted = omega (arith, len, v.counted, v.ends_at);
      ends_at = omega (arith, len, v.ends_at);
      fits = omega arith;
      content =
          rw
            (
              len,
              v.ends_at,
              drop-set_at s.buf s.read_at n c,
              take-set (drop s.read_at s.buf) n c room,
              v.content,
            )
            refl;
    }

write_loop_lem :
    (cs : List ℕ) (s : StdinBuf) (bytes : List ℕ)
    → Holds s bytes
    → s.write_at + length cs ≤ 1024
    → Holds (write_loop cs s) (bytes ++ cs)
unfolding write_loop
write_loop_lem [] s bytes v h = rw (append-nil bytes) v
write_loop_lem (c ∷ cs) s bytes v h =
    rw (push_stdin_lem c s (omega arith), ← append_assoc bytes (c ∷ []) cs)
      (write_loop_lem cs (put c s) (bytes ++ (c ∷ [])) (put-Holds c s bytes v (omega arith))
        (omega arith))

-- What is left once the first character is taken.
abbrev pub taken : StdinBuf → StdinBuf
taken s = record s { read_at = s.read_at + 1; buf_size = sub32 s.buf_size 1 }

first_in :
    (s : StdinBuf) (b : ℕ) (bytes : List ℕ)
    → Holds s (b ∷ bytes)
    → get_or s.buf s.read_at 0 ∷ take (length bytes) (drop (suc s.read_at) s.buf) ≡ b ∷ bytes
first_in s b bytes v =
    let e = drop-get_or s.buf s.read_at 0 (omega (arith, v.whole, v.ends_at, v.fits)) in
    sym (ap (take (length (b ∷ bytes))) e) ∙ v.content

taken-Holds : (s : StdinBuf) (b : ℕ) (bytes : List ℕ) → Holds s (b ∷ bytes) → Holds (taken s) bytes
taken-Holds s b bytes v = record {
  whole = v.whole;
  counted = omega (arith, v.counted, v.ends_at, v.fits);
  ends_at = omega (arith, v.ends_at);
  fits = v.fits;
  content =
      let e : s.read_at + 1 ≡ suc s.read_at = omega arith in
      rw e (ap (drop 1) (first_in s b bytes v));
}

pop_stdin_lem :
    (s : StdinBuf) (b : ℕ) (bytes : List ℕ)
    → Holds s (b ∷ bytes)
    → pop_stdin s ≡ (b, record s { read_at = s.read_at + 1 })
unfolding pop_stdin
pop_stdin_lem s b bytes v =
    let e : leb 1024 s.read_at ≡ false = ground (arith, v.ends_at, v.fits) in
    let ne : (s.read_at == s.write_at) ≡ false = ground (arith, v.ends_at) in
    let head : get_or s.buf s.read_at 0 ≡ b = ap (λ xs. get_or xs 0 0) (first_in s b bytes v) in
    rw (e, ne, head) refl

-- No byte is the 0 that `pop_stdin` returns for an empty buffer.
abbrev pub AllNonzero : List ℕ → Type 0
AllNonzero [] = Unit
AllNonzero (b ∷ bytes) = (0 < b) × AllNonzero bytes

read_loop_lem :
    (buf : List ℕ) (s : StdinBuf) (bytes rest : List ℕ)
    → Holds s (bytes ++ rest)
    → AllNonzero bytes
    → length buf ≡ length bytes
    → (t : StdinBuf) × (read_loop buf s ≡ (bytes, t)) × Holds t rest
unfolding read_loop
read_loop_lem [] s [] rest v a h = (s, refl, v)
read_loop_lem [] s (b ∷ bytes) rest v a h = absurd (omega arith)
read_loop_lem (x ∷ buf) s [] rest v a h = absurd (omega arith)
read_loop_lem (x ∷ buf) s (b ∷ bytes) rest v (p, a) h =
    let e : (b == 0) ≡ false = ground arith in
    let (t, q, w) =
      read_loop_lem buf (taken s) bytes rest (taken-Holds s b (bytes ++ rest) v) a (omega arith) in
    (t, rw (pop_stdin_lem s b (bytes ++ rest) v, e, q) refl, w)

-- The kernel with another buffer of stdin.
abbrev pub with_stdin : Kernel → StdinBuf → Kernel
with_stdin k s = record k { stdin = s }

-- While the buffer holds `bytes` and its write position leaves room for `cs` before the end, writing `cs` to
-- stdin adds it at the end, and a read of as many bytes as there are in front, none of them 0, returns exactly
-- those and keeps the others.
pub write_stdin-read_stdin :
    (k : Kernel) (bytes cs front rest buf : List ℕ)
    → Holds k.stdin bytes
    → k.stdin.write_at + length cs ≤ 1024
    → bytes ++ cs ≡ front ++ rest
    → AllNonzero front
    → length buf ≡ length front
    → (s t : StdinBuf) × (write_stdin cs k ≡ done (length cs) (with_stdin k s))
      × (read_stdin buf (with_stdin k s) ≡ done (length buf, front) (with_stdin k t))
      × Holds t rest
unfolding write_stdin read_stdin
write_stdin-read_stdin k bytes cs front rest buf v h e a l =
    let s = write_loop cs k.stdin in
    let w : Holds s (front ++ rest) = rw (← e) (write_loop_lem cs k.stdin bytes v h) in
    let (t, q, u) = read_loop_lem buf s front rest w a l in
    let enough : ltb s.buf_size (length buf) ≡ false =
      ground (arith, w.counted, length-append front rest) in
    (s, t, refl, rw (enough, q) refl, u)

-- A read of more bytes than are counted in the buffer waits.
pub read_stdin_waits :
    (k : Kernel) (bytes buf : List ℕ)
    → Holds k.stdin bytes
    → length bytes < length buf
    → read_stdin buf k ≡ blocked k
unfolding read_stdin
read_stdin_waits k bytes buf v h =
    let e : ltb k.stdin.buf_size (length buf) ≡ true = ground (arith, v.counted) in rw e refl
