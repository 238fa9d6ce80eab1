-- ===== src/Memory/Copy.antt =====
-- What `memset`, `memcpy` and `memmove` write.
use razos.Base.{
  ℕ, zero, suc, ◌+◌, ◌-◌, ◌≤◌, ◌<◌, ◌≡◌, arith, Bool, ltb, leb, ◌&&◌, if◌then◌else◌, ◌⊎◌, inl, inr,
  ◌||◌, ◌!=◌,
}
use razos.Memory.{Memory, store, memset, memcpy, copy_back, memmove}

-- `a` lies in the `n` bytes from `p`.
abbrev pub inside : ℕ → ℕ → ℕ → Bool
inside p n a = leb p a && ltb a (p + n)

-- `memset` sets the `num` bytes from `p`, and no other.
pub memset_lem :
    (p value num : ℕ) (m : Memory) (a : ℕ)
    → memset p value num m a ≡ (if inside p num a then value else m a)
unfolding memset
memset_lem p value zero m a = ground arith
memset_lem p value (suc num) m a =
    ground (arith, memset_lem p value num (store m (p + num) value) a)

-- The source is not overwritten before it is read: the destination lies below it, or the two are
-- apart.
abbrev pub CopiesUp : ℕ → ℕ → ℕ → Type 0
CopiesUp dst src num = (dst < src) ⊎ (src + num ≤ dst)

CopiesUp-next : (dst src num : ℕ) → CopiesUp dst src (suc num) → CopiesUp (dst + 1) (src + 1) num
CopiesUp-next dst src num (inl h) = inl (omega arith)
CopiesUp-next dst src num (inr h) = inr (omega arith)

-- Where the source is not overwritten before it is read, `memcpy` copies the `num` bytes to the destination and
-- changes no other byte.
pub memcpy_lem :
    (dst src num : ℕ) (m : Memory) (a : ℕ)
    → CopiesUp dst src num
    → memcpy dst src num m a ≡ (if inside dst num a then m (src + (a - dst)) else m a)
unfolding memcpy
memcpy_lem dst src zero m a h = ground arith
memcpy_lem dst src (suc num) m a h =
    ground (
      arith,
      memcpy_lem (dst + 1) (src + 1) num (store m dst (m src)) a,
      CopiesUp-next dst src num h,
    )

-- From the last byte down the source has to lie at or below the destination.
copy_back_lem :
    (dst src num : ℕ) (m : Memory) (a : ℕ)
    → src ≤ dst
    → copy_back (dst + num) (src + num) num m a
      ≡ (if inside (dst + 1) num a then m (src + (a - dst)) else m a)
unfolding copy_back
copy_back_lem dst src zero m a h = ground arith
copy_back_lem dst src (suc num) m a h =
    let d : dst + suc num - 1 ≡ dst + num = omega arith in
    let s : src + suc num - 1 ≡ src + num = omega arith in
    rw (d, s)
      (ground (arith, copy_back_lem dst src num (store m (dst + suc num) (m (src + suc num))) a h))

inl_lt : (dst src num : ℕ) → dst < src → CopiesUp dst src num
inl_lt dst src num h = inl h

-- Towards a lower address `memmove` moves the `num` bytes, overlapping or not, and writes no
-- others. Towards a higher one, or in place, it moves all but the first: the byte at `dest` keeps
-- its old value.
pub memmove_lem :
    (dest source num : ℕ) (m : Memory) (a : ℕ)
    → memmove dest source num m a ≡ (
        if inside dest num a && (ltb dest source || (a != dest))
        then m (source + (a - dest))
        else m a)
unfolding memmove
memmove_lem dest source num m a = ground (
  arith,
  memcpy_lem dest source num m a,
  inl_lt dest source num,
  copy_back_lem dest source (num - 1) m a,
)
