-- ===== src/Paging/Frames.antt =====
-- The set of used frames behind the bitmap of kernel/src/mm/paging.c.
use razos.Base.{
  ℕ, zero, suc, ◌+◌, ◌*◌, ◌/◌, ◌%◌, ◌^◌, ◌<◌, ◌≤◌, ◌≡◌, ◌⊎◌, refl, ◌∙◌, arith, Bool, true, false,
  ◌==◌, ltb, List, [], ◌∷◌, Option, none, some, get_or, length, inl, inr, Bool-cases,
}
use razos.Paging.{Paging, used, not_full, free_bit, free_from}

-- The bitmap has a word of 32 bits for each 32 frames that `memsize` counts, and no address wraps.
pub record IsBitmap (s : Paging) : Type 0 where
  pub words : (i : ℕ) → i < s.memsize / 32 → length (get_or s.frames i []) ≡ 32
  pub size : s.memsize / 32 ≤ length s.frames
  pub range : s.memsize ≤ 2 ^ 20

-- The frames that can be given out.
abbrev pub managed : Paging → ℕ
managed s = s.memsize / 32 * 32

not_full_lem :
    (bits : List Bool) (k : ℕ)
    → not_full bits ≡ false
    → k < length bits
    → get_or bits k false ≡ true
unfolding not_full
not_full_lem [] k e h = absurd (omega arith)
not_full_lem (true ∷ bits) zero e h = refl
not_full_lem (false ∷ bits) zero e h = absurd (ground arith)
not_full_lem (true ∷ bits) (suc k) e h = not_full_lem bits k e (omega arith)
not_full_lem (false ∷ bits) (suc k) e h = absurd (ground arith)

abbrev AllSet : List Bool → ℕ → ℕ → Type 0
AllSet bits from to = (k : ℕ) → from ≤ k → k < to → get_or bits k false ≡ true

free_bit_lem :
    (left j : ℕ) (bits : List Bool)
    → ((free_bit left j bits ≡ none) × AllSet bits j (j + left))
      ⊎ ((k : ℕ) × (free_bit left j bits ≡ some k)
          × (k < j + left)
          × (j ≤ k)
          × (get_or bits k false ≡ false)
          × AllSet bits j k)
unfolding free_bit
free_bit_lem zero j bits = inl (refl, λ k a b. absurd (omega arith))
free_bit_lem (suc left) j bits = elim (Bool-cases (get_or bits j false)) [
  | inr e ↦ inr (j, rw e refl, omega arith, omega arith, e, λ k a b. absurd (omega arith))
  | inl e ↦ elim (free_bit_lem left (j + 1) bits) [
    | inl (r, all) ↦ inl (rw (e, r) refl, λ k a b. first k e a (λ c. all k c (omega arith)))
    | inr (k, r, lt, le, off, all) ↦
        inr
          (k, rw (e, r) refl, omega arith, omega arith, off, λ i a b. first i e a (λ c. all i c b))
  ]
]
  where
    first :
        (k : ℕ)
        → get_or bits j false ≡ true
        → j ≤ k
        → (j + 1 ≤ k → get_or bits k false ≡ true)
        → get_or bits k false ≡ true
    first k e a rest = elim (Bool-cases (k == j)) [
      | inl same ↦ (let eq : k ≡ j = ground arith in rw eq e)
      | inr other ↦ rest (ground arith)
    ]

-- What a search from word `i` on finds: nothing, and every frame up to the last word is used; or a frame
-- that is not used, behind used ones.
abbrev pub AllUsed : List (List Bool) → ℕ → ℕ → Type 0
AllUsed frames from to = (f : ℕ) → from ≤ f → f < to → used frames f ≡ true

unfoldable pub Found : ℕ → ℕ → List (List Bool) → Option ℕ → Type 0
Found left i frames o =
    ((o ≡ none) × AllUsed frames (i * 32) ((i + left) * 32))
    ⊎ ((f : ℕ) × (o ≡ some f)
        × (i * 32 ≤ f)
        × (f < (i + left) * 32)
        × (used frames f ≡ false)
        × AllUsed frames (i * 32) f)

below_or : (f m : ℕ) (P : Type 0) → (f < m → P) → (m ≤ f → P) → P
below_or f m P low high = elim (Bool-cases (ltb f m)) [
  | inl e ↦ low (ground arith)
  | inr e ↦ high (ground arith)
]

used_bit :
    (frames : List (List Bool)) (i f k : ℕ)
    → f / 32 ≡ i
    → f % 32 ≡ k
    → used frames f ≡ get_or (get_or frames i []) k false
unfolding used
used_bit frames i f k e e' = rw (e, e') refl

-- A word without a free bit.
word_used :
    (frames : List (List Bool)) (i : ℕ)
    → ((k : ℕ) → k < 32 → get_or (get_or frames i []) k false ≡ true)
    → AllUsed frames (i * 32) ((i + 1) * 32)
word_used frames i all f a b =
    used_bit frames i f (f % 32) (omega arith) refl ∙ all (f % 32) (omega arith)

skip_word :
    (left i : ℕ) (frames : List (List Bool))
    → AllUsed frames (i * 32) ((i + 1) * 32)
    → Found left (i + 1) frames (free_from left (i + 1) frames)
    → Found (suc left) i frames (free_from left (i + 1) frames)
unfolding Found
skip_word left i frames all (inl (r, more)) = inl (
  r,
  λ f a b. below_or f ((i + 1) * 32) (used frames f ≡ true) (all f a) (λ c. more f c (omega arith)),
)
skip_word left i frames all (inr (g, r, le, lt, off, more)) = inr (
  g,
  r,
  omega arith,
  omega arith,
  off,
  λ f a b. below_or f ((i + 1) * 32) (used frames f ≡ true) (all f a) (λ c. more f c b),
)

pub free_from_lem :
    (left i : ℕ) (frames : List (List Bool))
    → ((k : ℕ) → k < i + left → length (get_or frames k []) ≡ 32)
    → Found left i frames (free_from left i frames)
unfolding free_from Found
free_from_lem zero i frames w = inl (refl, λ f a b. absurd (omega arith))
free_from_lem (suc left) i frames w =
    let word = get_or frames i [] in
    let size = w i (omega arith) in
    let later = free_from_lem left (i + 1) frames (λ k h. w k (omega arith)) in
    elim (Bool-cases (not_full word)) [
      | inr e ↦ rw e (
          skip_word left i frames (word_used frames i (λ k h. not_full_lem word k e (omega arith)))
            later)
      | inl e ↦ elim (free_bit_lem 32 0 word) [
        | inl (r, all) ↦
            rw (e, r)
              (skip_word left i frames (word_used frames i (λ k h. all k (omega arith) h)) later)
        | inr (k, r, lt, le, off, all) ↦
            rw (e, r)
              (inr (
                i * 32 + k,
                refl,
                omega arith,
                omega arith,
                used_bit frames i (i * 32 + k) k (omega arith) (omega arith) ∙ off,
                λ f a b.
                    used_bit frames i f (f % 32) (omega arith) refl
                    ∙ all (f % 32) (omega arith) (omega arith),
              ))
      ]
    ]
