-- ===== src/Strings/Compare.antt =====
-- The comparisons of kernel/lib/string.c decide equality.
use razos.Base.{
  ℕ, zero, suc, ◌-◌, ◌<◌, ◌≤◌, ◌≡◌, ◌↔◌, refl, ap, arith, List, [], ◌∷◌, length, length-take,
  u32_mod, take,
}
use razos.Strings.{cmp_loop, strcmp, ncmp_loop, strncmp, memcmp}

-- Every byte is a `char` other than the terminator.
abbrev pub IsText : List ℕ → Type 0
IsText [] = Unit
IsText (x ∷ xs) = (0 < x) × (x < 256) × IsText xs

abbrev pub AreBytes : List ℕ → Type 0
AreBytes [] = Unit
AreBytes (x ∷ xs) = (x < 256) × AreBytes xs

cmp_loop_iff :
    (s t : List ℕ) → IsText s → IsText t → length s ≡ length t → (cmp_loop s t ≡ 0) ↔ (s ≡ t)
unfolding cmp_loop
cmp_loop_iff [] [] a b e = (λ h. refl, λ h. refl)
cmp_loop_iff [] (y ∷ t) a b e = absurd (omega arith)
cmp_loop_iff (x ∷ s) [] a b e = absurd (omega arith)
cmp_loop_iff (x ∷ s) (y ∷ t) a b e =
    let (to, from) = cmp_loop_iff s t a.2 b.2 (omega arith) in
    (λ h. ground (arith, to), λ h. ground (arith, from))

-- `strcmp` returns 0 exactly at equal strings.
pub strcmp_iff :
    (s t : List ℕ)
    → IsText s
    → IsText t
    → length s < u32_mod
    → length t < u32_mod
    → (strcmp s t ≡ 0) ↔ (s ≡ t)
unfolding strcmp
strcmp_iff s t a b ls lt = (
  λ h. let e : length s ≡ length t = ground arith in (cmp_loop_iff s t a b e).0 (ground arith),
  λ h. let e : length s ≡ length t = ap length h in ground (arith, (cmp_loop_iff s t a b e).1 h),
)

ncmp_loop_iff :
    (num : ℕ) (s t : List ℕ)
    → IsText s
    → IsText t
    → (ncmp_loop num s (length s) t (length t) ≡ 0) ↔ (take num s ≡ take num t)
unfolding ncmp_loop
ncmp_loop_iff zero s t a b = (λ h. refl, λ h. refl)
ncmp_loop_iff (suc num) [] [] a b = (λ h. refl, λ h. ground arith)
ncmp_loop_iff (suc num) [] (y ∷ t) a b = (λ h. ground arith, λ h. ground arith)
ncmp_loop_iff (suc num) (x ∷ s) [] a b = (λ h. ground arith, λ h. ground arith)
ncmp_loop_iff (suc num) (x ∷ s) (y ∷ t) a b =
    let (to, from) = ncmp_loop_iff num s t a.2 b.2 in
    let ds : suc (length s) - 1 ≡ length s = omega arith in
    let dt : suc (length t) - 1 ≡ length t = omega arith in
    rw (ds, dt, ncmp_loop)
      (
        λ h. ground (arith, to),
        λ h. ground (arith, from, ap length h, length-take num s, length-take num t),
      )

-- `strncmp` returns 0 exactly where the first `num` bytes, or the whole strings if they are
-- shorter, are equal.
pub strncmp_iff :
    (s t : List ℕ) (num : ℕ)
    → IsText s
    → IsText t
    → (strncmp s t num ≡ 0) ↔ (take num s ≡ take num t)
unfolding strncmp
strncmp_iff s t num a b = ncmp_loop_iff num s t a b

-- `memcmp` returns 0 exactly where the first `num` bytes of two regions that have them are equal.
pub memcmp_iff :
    (num : ℕ) (p q : List ℕ)
    → AreBytes p
    → AreBytes q
    → num ≤ length p
    → num ≤ length q
    → (memcmp num p q ≡ 0) ↔ (take num p ≡ take num q)
unfolding memcmp
memcmp_iff zero p q a b lp lq = (λ h. refl, λ h. refl)
memcmp_iff (suc num) [] q a b lp lq = absurd (omega arith)
memcmp_iff (suc num) (x ∷ p) [] a b lp lq = absurd (omega arith)
memcmp_iff (suc num) (x ∷ p) (y ∷ q) a b lp lq =
    let (to, from) = memcmp_iff num p q a.1 b.1 (omega arith) (omega arith) in
    (λ h. ground (arith, to), λ h. ground (arith, from))
