-- ===== src/Memory.antt =====
-- The functions of kernel/lib/string.c that write memory. A memory maps an address to its byte;
-- pointers are addresses, and no run reaches the end of the address space.
pub mod Copy
pub mod Held
pub mod Text
mod Tests
use razos.Base.{
  ℕ, zero, suc, ◌+◌, ◌-◌, ◌≡◌, ◌≢◌, Bool, true, false, ltb, ◌==◌, if◌then◌else◌, Option, none, some,
}

abbrev pub Memory : Type 0
Memory = ℕ → ℕ

abbrev pub store : Memory → ℕ → ℕ → Memory
store m p v a = if a == p then v else m a

-- `num` is an `int`: its value where that is not negative, and 0 for the others, which set nothing.
-- The last byte is set first.
unfoldable pub memset : ℕ → ℕ → ℕ → Memory → Memory
memset p value zero m = m
memset p value (suc num) m = memset p value num (store m (p + num) value)

-- The loop of `memcpy`, from the first byte up.
unfoldable pub memcpy : ℕ → ℕ → ℕ → Memory → Memory
memcpy dst src zero m = m
memcpy dst src (suc num) m = memcpy (dst + 1) (src + 1) num (store m dst (m src))

-- The other loop of `memmove`, from the last byte down: `while (num)` stops at `num == 0`.
copy_back : ℕ → ℕ → ℕ → Memory → Memory
copy_back dst src zero m = m
copy_back dst src (suc num) m = copy_back (dst - 1) (src - 1) num (store m dst (m src))

unfoldable pub memmove : ℕ → ℕ → ℕ → Memory → Memory
unfolding copy_back
memmove dest source num m =
    if num == 0
    then m
    else if ltb dest source
    then memcpy dest source num m
    else copy_back (dest + (num - 1)) (source + (num - 1)) (num - 1) m

-- `while (*source != '\0')`: `fuel` bounds the length, and `none` says that it was too small. The
-- result is the new `dest`, at the terminator, and the memory.
unfoldable pub strcpy : ℕ → ℕ → ℕ → Memory → Option (ℕ × Memory)
strcpy zero dest source m = none
strcpy (suc fuel) dest source m = elim (m source == 0) [
  | true ↦ some (dest, store m dest (m source))
  | false ↦ strcpy fuel (dest + 1) (source + 1) (store m dest (m source))
]

-- The `for` loop with `num` rounds left: it stops behind a byte whose successor is the terminator.
unfoldable pub strncpy : ℕ → ℕ → ℕ → Memory → ℕ × Memory
strncpy dest source zero m = (dest, m)
strncpy dest source (suc num) m =
    let m' = store m dest (m source) in
    elim (m' (source + 1) == 0) [
      | true ↦ (dest + 1, m')
      | false ↦ strncpy (dest + 1) (source + 1) num m'
    ]

-- `while (*start != '\0') start++`
find_end : ℕ → ℕ → Memory → Option ℕ
find_end zero start m = none
find_end (suc fuel) start m = elim (m start == 0) [
  | true ↦ some start
  | false ↦ find_end fuel (start + 1) m
]

-- `while (*source != '\0') *start++ = *source++`. The assignment behind it, `start = '\0'`, clears
-- the local pointer and writes nothing.
append_loop : ℕ → ℕ → ℕ → Memory → Option Memory
append_loop zero start source m = none
append_loop (suc fuel) start source m = elim (m source == 0) [
  | true ↦ some m
  | false ↦ append_loop fuel (start + 1) (source + 1) (store m start (m source))
]

unfoldable pub strcat : ℕ → ℕ → ℕ → Memory → Option Memory
unfolding find_end append_loop
strcat fuel dest source m = elim (find_end fuel dest m) [
  | none ↦ none
  | some start ↦ append_loop fuel start source m
]
