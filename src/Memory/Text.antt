-- ===== src/Memory/Text.antt =====
-- C strings in memory: what `strcpy`, `strncpy` and `strcat` write.
use razos.Base.{
  ℕ, zero, suc, ◌+◌, ◌<◌, ◌≡◌, refl, sym, ap, ◌∙◌, arith, true, false, ◌==◌, inl, List, [], ◌∷◌,
  length, some, ◌++◌, min, take,
}
use mathlib.Core.Path.{subst}
use razos.Memory.{Memory, store, strcpy, strncpy, find_end, append_loop, strcat}
use razos.Memory.Held.{
  Holds, IsString, SameOutside, Holds-same, IsString-nil, IsString-rest, Apart, SameOutside-cons,
  first_kept, store-IsString,
}

append_loop_lem :
    (fuel start source : ℕ) (m : Memory) (ys : List ℕ)
    → length ys < fuel
    → IsString m source ys
    → Apart start (length ys) source (length ys)
    → (g : Memory) × (append_loop fuel start source m ≡ some g)
      × Holds g start ys
      × SameOutside start (length ys) m g
unfolding append_loop
append_loop_lem zero start source m ys f s apart = absurd (omega arith)
append_loop_lem (suc fuel) start source m [] f s apart =
    (m, rw (IsString-nil m source s, append_loop) refl, tt, λ a o. refl)
append_loop_lem (suc fuel) start source m (y ∷ ys) f s apart =
    let m' = store m start (m source) in
    let (g, e, h, same) =
      append_loop_lem fuel (start + 1) (source + 1) m' ys (omega arith)
        (store-IsString m start (m source) (source + 1) ys (omega arith)
          (IsString-rest m source y ys s))
        (omega arith) in
    let more : (m source == 0) ≡ false = ground (arith, s.0.0, s.0.1) in
    (
      g,
      rw (more, append_loop) e,
      (first_kept m start (m source) (length ys) g same ∙ s.0.0, s.0.1, h),
      SameOutside-cons m start (m source) (length ys) g same,
    )

-- `strcpy` of a string to a place apart from it ends, with enough fuel: the copy is the same
-- string, nothing else is written, and the pointer returned is that of the copy's terminator.
pub strcpy_lem :
    (fuel dest source : ℕ) (m : Memory) (xs : List ℕ)
    → length xs < fuel
    → IsString m source xs
    → Apart dest (suc (length xs)) source (length xs)
    → (g : Memory) × (strcpy fuel dest source m ≡ some (dest + length xs, g))
      × IsString g dest xs
      × SameOutside dest (suc (length xs)) m g
unfolding strcpy
strcpy_lem zero dest source m xs f s apart = absurd (omega arith)
strcpy_lem (suc fuel) dest source m [] f s apart =
    let z = IsString-nil m source s in
    let stop : (m source == 0) ≡ true = ground arith in
    (
      store m dest (m source),
      rw (stop, strcpy) (ap (λ p. some (p, store m dest (m source))) (omega arith)),
      (tt, ground arith),
      λ a o. ground arith,
    )
strcpy_lem (suc fuel) dest source m (x ∷ xs) f s apart =
    let m' = store m dest (m source) in
    let (g, e, h, same) =
      strcpy_lem fuel (dest + 1) (source + 1) m' xs (omega arith)
        (store-IsString m dest (m source) (source + 1) xs (omega arith)
          (IsString-rest m source x xs s))
        (omega arith) in
    let more : (m source == 0) ≡ false = ground (arith, s.0.0, s.0.1) in
    (
      g,
      rw (more, strcpy) (e ∙ ap (λ p. some (p, g)) (omega arith)),
      (
        (first_kept m dest (m source) (suc (length xs)) g same ∙ s.0.0, s.0.1, h.0),
        ap g (omega arith) ∙ h.1,
      ),
      SameOutside-cons m dest (m source) (suc (length xs)) g same,
    )

find_end_lem :
    (fuel p : ℕ) (m : Memory) (xs : List ℕ)
    → length xs < fuel
    → IsString m p xs
    → find_end fuel p m ≡ some (p + length xs)
unfolding find_end
find_end_lem zero p m xs f s = absurd (omega arith)
find_end_lem (suc fuel) p m [] f s =
    let z = IsString-nil m p s in
    let stop : (m p == 0) ≡ true = ground arith in rw (stop, find_end) (ap some (omega arith))
find_end_lem (suc fuel) p m (x ∷ xs) f s =
    let more : (m p == 0) ≡ false = ground (arith, s.0.0, s.0.1) in
    rw (more, find_end)
      (find_end_lem fuel (p + 1) m xs (omega arith) (IsString-rest m p x xs s)
        ∙ ap some (omega arith))

Holds-append :
    (m : Memory) (p : ℕ) (xs ys : List ℕ)
    → Holds m p xs
    → Holds m (p + length xs) ys
    → Holds m p (xs ++ ys)
Holds-append m p [] ys h k = subst (λ q. Holds m q ys) (omega arith) k
Holds-append m p (x ∷ xs) ys (e, ne, h) k =
    (e, ne, Holds-append m (p + 1) xs ys h (subst (λ q. Holds m q ys) (omega arith) k))

-- `strcat` of a string to another, with the room behind the first apart from the second, ends with
-- enough fuel and appends the bytes of the second. It writes no terminator: the byte behind them
-- and all others keep their values.
pub strcat_lem :
    (fuel dest source : ℕ) (m : Memory) (xs ys : List ℕ)
    → length xs + length ys < fuel
    → IsString m dest xs
    → IsString m source ys
    → Apart (dest + length xs) (length ys) source (length ys)
    → (g : Memory) × (strcat fuel dest source m ≡ some g)
      × Holds g dest (xs ++ ys)
      × SameOutside (dest + length xs) (length ys) m g
unfolding strcat
strcat_lem fuel dest source m xs ys f d s apart =
    let (g, e, h, same) =
      append_loop_lem fuel (dest + length xs) source m ys (omega arith) s apart in
    (
      g,
      rw (find_end_lem fuel dest m xs (omega arith) d, strcat) e,
      Holds-append g dest xs ys (Holds-same m g dest xs (λ a lo hi. same a (inl hi)) d.0) h,
      same,
    )

take_nil : (n : ℕ) (m : Memory) (p : ℕ) → Holds m p (take n [])
take_nil zero m p = tt
take_nil (suc n) m p = tt

-- `strncpy` of a string with a first byte, to a place apart from it, copies at most `num` bytes of
-- it, returns the pointer behind the last of them, and writes nothing else: no terminator either.
pub strncpy_lem :
    (dest source num : ℕ) (m : Memory) (x : ℕ) (xs : List ℕ)
    → IsString m source (x ∷ xs)
    → Apart dest (length (x ∷ xs)) source (length (x ∷ xs))
    → (g : Memory) × (strncpy dest source num m ≡ (dest + min num (length (x ∷ xs)), g))
      × Holds g dest (take num (x ∷ xs))
      × SameOutside dest (min num (length (x ∷ xs))) m g
unfolding strncpy
strncpy_lem dest source zero m x xs s apart = (m, ap (λ p. (p, m)) (omega arith), tt, λ a o. refl)
strncpy_lem dest source (suc num) m x [] s apart =
    let m' = store m dest (m source) in
    let z = IsString-nil m' (source + 1) (
      store-IsString m dest (m source) (source + 1) [] (omega arith)
        (IsString-rest m source x [] s)) in
    let stop : (m' (source + 1) == 0) ≡ true = ground (arith, z) in
    let one : min (suc num) 1 ≡ 1 = omega arith in
    (
      m',
      rw (stop, strncpy) (ap (λ n. (dest + n, m')) (sym one)),
      (ground (arith, s.0.0), s.0.1, take_nil num m' (dest + 1)),
      λ a o. ground (arith, one),
    )
strncpy_lem dest source (suc num) m x (y ∷ ys) s apart =
    let m' = store m dest (m source) in
    let s' =
      store-IsString m dest (m source) (source + 1) (y ∷ ys) (omega arith)
        (IsString-rest m source x (y ∷ ys) s) in
    let (g, e, h, same) = strncpy_lem (dest + 1) (source + 1) num m' y ys s' (omega arith) in
    let more : (m' (source + 1) == 0) ≡ false = ground (arith, s'.0.0, s'.0.1) in
    let n = min num (suc (length ys)) in
    let one : suc n ≡ min (suc num) (suc (suc (length ys))) = omega arith in
    (
      g,
      rw (more, strncpy) (e ∙ ap (λ p. (p, g)) (omega (arith, one))),
      (first_kept m dest (m source) n g same ∙ s.0.0, s.0.1, h),
      subst (λ k. SameOutside dest k m g) one (SameOutside-cons m dest (m source) n g same),
    )
