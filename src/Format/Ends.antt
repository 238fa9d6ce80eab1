-- ===== src/Format/Ends.antt =====
-- The loop of `vsprintf` ends.
use razos.Base.{
  ℕ, zero, suc, ◌+◌, ◌*◌, ◌%◌, ◌<◌, ◌≤◌, ◌≡◌, ◌≢◌, refl, ◌∙◌, arith, Bool, true, false, ◌==◌, ◌!=◌,
  ◌⊎◌, if◌then◌else◌, List, [], ◌∷◌, Option, none, some, length, drop, inl, inr, Bool-cases, sub32,
  u32_mod, neg_one, ◌||◌,
}
use razos.Ctype.{isdigit}
use razos.Format.{atoi_loop, atoi_ptr}
use razos.Format.Printer.{
  reset, settle, prec_word, width_word, Arg, Printer, here, skip, next_state, convert, skip_any,
  case0, case1, case2, case3, case4, case5, set_prec, step, faults, out_of_fuel, print_loop, start,
}
use mathlib.Core.Option
use razos.Format.Keeps.{Each, Keeps, next_word-Each, if-Each, map-Each, weaken-Each, convert-Each}

pub bytes_cases : (xs : List ℕ) → (xs ≡ []) ⊎ ((c : ℕ) × (rest : List ℕ) × (xs ≡ c ∷ rest))
bytes_cases [] = inl refl
bytes_cases (c ∷ rest) = inr (c, rest, refl)

-- In the state `k`, with fewer than `n` bytes of the format left.
abbrev Under : ℕ → ℕ → Printer → Type 0
Under n k q = (q.state ≡ k) × (length q.fmt < n)

skip_any-Each : (p q : Printer) → Keeps p q → Each (Under (length p.fmt) p.state) (skip_any q)
skip_any-Each p q (f, s) = elim (bytes_cases q.fmt) [
  | inl e ↦ rw e tt
  | inr (c, rest, e) ↦ rw e (s, rw (← f, e) (omega arith))
]

case5-Each : (p : Printer) → Each (Under (length p.fmt) (p.state + 1)) (case5 p)
unfolding case5 Option.bind
case5-Each p =
    map-Each (Under (length p.fmt) p.state) (Under (length p.fmt) (p.state + 1)) next_state _
      (λ q (s, l). (omega arith, l)) (after (convert (here p) p) (convert-Each (here p) p))
  where
    after :
        (o : Option Printer)
        → Each (Keeps p) o
        → Each (Under (length p.fmt) p.state) (Option.bind o skip_any)
    after none k = tt
    after (some q) k = skip_any-Each p q k

drop-le : (xs : List ℕ) → length (drop 1 xs) ≤ length xs
drop-le [] = omega arith
drop-le (x ∷ xs) = omega arith

widen : (n m k j : ℕ) (o : Option Printer) → n ≤ m → k ≡ j → Each (Under n k) o → Each (Under m j) o
widen n m k j none h e u = tt
widen n m k j (some q) h e (s, l) = (s ∙ e, omega arith)

case4-Each : (p : Printer) → Each (Under (length p.fmt) (p.state + 2)) (case4 p)
unfolding case4
case4-Each p =
    let to = p.state + 2 in
    let shorter = drop-le p.fmt in
    if-Each (Under (length p.fmt) to) (here p == b'l') _ _
      (widen _ _ _ to _ shorter (omega arith)
        (case5-Each (next_state (record (skip p) { len = 1 }))))
      (if-Each (Under (length p.fmt) to) (here p == b'h') _ _
        (widen _ _ _ to _ shorter (omega arith)
          (case5-Each (next_state (record (skip p) { len = neg_one }))))
        (widen _ _ _ to _ (omega arith) (omega arith) (case5-Each (next_state p))))

atoi_loop-le : (i : ℕ) (xs : List ℕ) → length (atoi_loop i xs).1 ≤ length xs
unfolding atoi_loop
atoi_loop-le i [] = omega arith
atoi_loop-le i (c ∷ xs) = elim (Bool-cases (isdigit c != 0)) [
  | inl e ↦ rw e (omega (arith, atoi_loop-le (sub32 (i * 10 % u32_mod + c) b'0') xs))
  | inr e ↦ rw e (omega arith)
]

atoi_ptr-le : (xs : List ℕ) → length (atoi_ptr xs).1 ≤ length xs
unfolding atoi_ptr
atoi_ptr-le xs = atoi_loop-le 0 xs

set_prec-Each : (p : Printer) → Each (Under (length p.fmt) (p.state + 3)) (set_prec p)
unfolding set_prec
set_prec-Each p =
    let to = p.state + 3 in
    let U = Under (length p.fmt) to in
    if-Each U (isdigit (here p) != 0) _ _
      (widen _ _ _ to _ (atoi_ptr-le p.fmt) (omega arith) (
        case4-Each (next_state (record p { prec = (atoi_ptr p.fmt).0; fmt = (atoi_ptr p.fmt).1 }))))
      (if-Each U (here p == b'*') _ _
        (next_word-Each U prec_word p λ w arg.
          widen _ _ _ to _ (drop-le p.fmt) (omega arith)
            (case4-Each (next_state (record (skip p) { prec = w; arg = arg }))))
        (widen _ _ _ to _ (omega arith) (omega arith) (case4-Each (next_state p))))

-- In one of the states in which the loop comes around, with a weight below `n`.
rank : ℕ → ℕ
rank state = if state == 6 || state == 1 then 1 else 0

weight : Printer → ℕ
weight p = 3 * length p.fmt + rank p.state

IsHead : ℕ → Type 0
IsHead k = (k ≡ 0) ⊎ (k ≡ 1) ⊎ (k ≡ 4) ⊎ (k ≡ 6)

abbrev Lighter : ℕ → Printer → Type 0
Lighter n q = IsHead q.state × (weight q < n)

case3-Each : (p : Printer) → p.state ≡ 3 → Each (Lighter (3 * length p.fmt + 1)) (case3 p)
unfolding case3 rank weight IsHead
case3-Each p h =
    if-Each (Lighter (3 * length p.fmt + 1)) (here p == b'.') _ _
      (weaken-Each (Under (length (drop 1 p.fmt)) (p.state + 3)) (Lighter (3 * length p.fmt + 1))
        (set_prec (skip p)) (λ q (s, l). ground (arith, drop-le p.fmt)) (set_prec-Each (skip p)))
      (ground arith)

width_next :
    (n : ℕ) (p : Printer) → p.state ≡ 3 → length p.fmt ≤ n → Each (Lighter (3 * n + 1)) (case3 p)
unfolding rank weight IsHead
width_next n p h l =
    weaken-Each (Lighter (3 * length p.fmt + 1)) (Lighter (3 * n + 1)) (case3 p)
      (λ q (s, k). (s, omega arith)) (case3-Each p h)

case2-Each : (p : Printer) → p.state ≡ 2 → Each (Lighter (3 * length p.fmt + 1)) (case2 p)
unfolding case2
case2-Each p h =
    let L = Lighter (3 * length p.fmt + 1) in
    let three : p.state + 1 ≡ 3 = omega arith in
    if-Each L (isdigit (here p) != 0) _ _
      (width_next (length p.fmt)
        (next_state (record p { width = (atoi_ptr p.fmt).0; fmt = (atoi_ptr p.fmt).1 })) three
        (atoi_ptr-le p.fmt))
      (if-Each L (here p == b'*') _ _
        (next_word-Each L width_word p λ w arg.
          width_next (length p.fmt) (next_state (record (skip p) { width = w; arg = arg })) three
            (drop-le p.fmt))
        (width_next (length p.fmt) (next_state p) three (omega arith)))

drop-lt : (p : Printer) (c : ℕ) → (here p == suc c) ≡ true → length (drop 1 p.fmt) < length p.fmt
drop-lt p c h = elim (bytes_cases p.fmt) [
  | inl e ↦ absurd (grind (arith, e))
  | inr (d, rest, e) ↦ rw e (omega arith)
]

-- Behind a byte of the format, in state 0 or 1.
flag_next :
    (c n : ℕ) (p q : Printer)
    → (here p == suc c) ≡ true
    → (q.state ≡ 0) ⊎ (q.state ≡ 1)
    → length q.fmt ≡ length (drop 1 p.fmt)
    → length p.fmt ≤ n
    → Lighter (3 * n + 1) q
unfolding rank weight IsHead
flag_next c n p q h s l b = ground (arith, drop-lt p c h)

-- A test that gives its outcome to the branch.
split-Each :
    (P : Printer → Type 0) (b : Bool) (q : Printer) (y : Option Printer)
    → (b ≡ true → P q)
    → Each P y
    → Each P (if b then some q else y)
split-Each P true q y hx hy = hx refl
split-Each P false q y hx hy = hy

case1-Each : (p : Printer) → p.state ≡ 1 → Each (Lighter (3 * length p.fmt + 1)) (case1 p)
unfolding case1
case1-Each p h =
    let n = length p.fmt in
    let L = Lighter (3 * n + 1) in
    let same : n ≤ n = omega arith in
    split-Each L (here p == b'%') _ _ (λ e. flag_next _ n p _ e (inl refl) refl same)
      (split-Each L (here p == b'-') _ _ (λ e. flag_next _ n p _ e (inr h) refl same)
        (split-Each L (here p == b'0') _ _ (λ e. flag_next _ n p _ e (inr h) refl same)
          (split-Each L (here p == b'+') _ _ (λ e. flag_next _ n p _ e (inr h) refl same)
            (split-Each L (here p == b' ') _ _ (λ e. flag_next _ n p _ e (inr h) refl same)
              (split-Each L (here p == b'#') _ _ (λ e. flag_next _ n p _ e (inr h) refl same)
                (case2-Each (next_state (record p { flags = settle p.flags })) (omega arith)))))))

shorter : (xs : List ℕ) → 0 < length xs → length (drop 1 xs) < length xs
shorter [] l = absurd (omega arith)
shorter (x ∷ xs) l = omega arith

case0-Each :
    (p : Printer) → p.state ≡ 0 → 0 < length p.fmt → Each (Lighter (3 * length p.fmt)) (case0 p)
unfolding case0 rank weight IsHead
case0-Each p h l =
    let L = Lighter (3 * length p.fmt) in
    let less = shorter p.fmt l in
    let one : p.state + 1 ≡ 1 = omega arith in
    if-Each L (here p != b'%') _ _ (ground arith) (
      weaken-Each (Lighter (3 * length (drop 1 p.fmt) + 1)) L _ (λ q (s, k). (s, omega arith))
        (case1-Each (skip (next_state p)) one))

pub step_first : (p : Printer) → p.state ≡ 0 → step p ≡ case0 p
unfolding step
step_first p h = let t : (p.state == 0) ≡ true = ground arith in rw t refl

pub step_flags : (p : Printer) → p.state ≡ 1 → step p ≡ case1 p
unfolding step
step_flags p h =
    let t : (p.state == 1) ≡ true = ground arith in
    let f : (p.state == 0) ≡ false = ground arith in rw (t, f) refl

pub step_length : (p : Printer) → p.state ≡ 4 → step p ≡ case4 p
unfolding step
step_length p h =
    let t : (p.state == 4) ≡ true = ground arith in
    let f0 : (p.state == 0) ≡ false = ground arith in
    let f1 : (p.state == 1) ≡ false = ground arith in
    let f2 : (p.state == 2) ≡ false = ground arith in
    let f3 : (p.state == 3) ≡ false = ground arith in rw (t, f0, f1, f2, f3) refl

pub step-reset : (p : Printer) → p.state ≡ 6 → step p ≡ some (reset p)
unfolding step
step-reset p h =
    let t : (p.state == 6) ≡ true = ground arith in
    let f0 : (p.state == 0) ≡ false = ground arith in
    let f1 : (p.state == 1) ≡ false = ground arith in
    let f2 : (p.state == 2) ≡ false = ground arith in
    let f3 : (p.state == 3) ≡ false = ground arith in
    let f4 : (p.state == 4) ≡ false = ground arith in
    let f5 : (p.state == 5) ≡ false = ground arith in rw (t, f0, f1, f2, f3, f4, f5) refl

step-Each : (p : Printer) → IsHead p.state → 0 < length p.fmt → Each (Lighter (weight p)) (step p)
unfolding rank weight IsHead
step-Each p (inl h) l = rw (step_first p h) (
    weaken-Each (Lighter (3 * length p.fmt)) (Lighter (weight p)) (case0 p)
      (λ q (s, k). (s, ground arith)) (case0-Each p h l))
step-Each p (inr (inl h)) l = rw (step_flags p h) (
    weaken-Each (Lighter (3 * length p.fmt + 1)) (Lighter (weight p)) (case1 p)
      (λ q (s, k). (s, ground arith)) (case1-Each p h))
step-Each p (inr (inr (inl h))) l = rw (step_length p h) (
    weaken-Each (Under (length p.fmt) (p.state + 2)) (Lighter (weight p)) (case4 p)
      (λ q (s, k). ground arith) (case4-Each p))
step-Each p (inr (inr (inr h))) l = rw (step-reset p h) (ground arith)

pub print_loop_more :
    (fuel : ℕ) (p : Printer) (c : ℕ) (rest : List ℕ)
    → p.fmt ≡ c ∷ rest
    → print_loop (suc fuel) p ≡ elim (step p) [ none ↦ faults | some q ↦ print_loop fuel q ]
unfolding print_loop
print_loop_more fuel p c rest e = rw e refl

-- One round, if the others end.
round-ends :
    (n fuel : ℕ) (o : Option Printer)
    → ((q : Printer) → Lighter n q → print_loop fuel q ≢ out_of_fuel)
    → Each (Lighter n) o
    → (elim o [ none ↦ faults | some q ↦ print_loop fuel q ]) ≢ out_of_fuel
round-ends n fuel none h k = ground arith
round-ends n fuel (some q) h k = h q k

-- With more fuel than the weight the loop ends.
print_loop-ends :
    (fuel : ℕ) (p : Printer) → IsHead p.state → weight p < fuel → print_loop fuel p ≢ out_of_fuel
unfolding print_loop
print_loop-ends zero p h w = absurd (omega arith)
print_loop-ends (suc fuel) p h w = elim (bytes_cases p.fmt) [
  | inl e ↦ rw e (ground arith)
  | inr (c, rest, e) ↦
      (let some_left : 0 < length p.fmt = rw e (omega arith) in
        rw (print_loop_more fuel p c rest e) (
          round-ends (weight p) fuel (step p) (λ q (s, k). print_loop-ends fuel q s (omega arith))
            (step-Each p h some_left)))
]

-- For every format and all arguments the fuel of `vsprintf` is enough: the loop reaches the end of the
-- format, or stops at a bad access.
pub vsprintf_ends :
    (fmt : List ℕ) (arg : List Arg) → print_loop (3 * length fmt + 2) (start fmt arg) ≢ out_of_fuel
unfolding weight rank IsHead
vsprintf_ends fmt arg = print_loop-ends _ (start fmt arg) (inl refl) (omega arith)
