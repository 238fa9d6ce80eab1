-- ===== src/Memory/Held.antt =====
-- What a memory holds: bytes, C strings, and what stays the same.
use razos.Base.{
  ℕ, suc, ◌+◌, ◌≤◌, ◌<◌, ◌≡◌, ◌≢◌, ap, ◌∙◌, arith, ◌⊎◌, inl, inr, List, [], ◌∷◌, length,
}
use razos.Memory.{Memory, store}

-- From `p` on the memory holds the bytes `xs`, none of them 0.
abbrev pub Holds : Memory → ℕ → List ℕ → Type 0
Holds m p [] = Unit
Holds m p (x ∷ xs) = (m p ≡ x) × (x ≢ 0) × Holds m (p + 1) xs

-- A C string: the bytes `xs` and the terminator.
abbrev pub IsString : Memory → ℕ → List ℕ → Type 0
IsString m p xs = Holds m p xs × (m (p + length xs) ≡ 0)

-- `g` differs from `m` at most in the `n` bytes from `p`.
abbrev pub SameOutside : ℕ → ℕ → Memory → Memory → Type 0
SameOutside p n m g = (a : ℕ) → (a < p) ⊎ (p + n ≤ a) → g a ≡ m a

pub Holds-same :
    (m g : Memory) (p : ℕ) (xs : List ℕ)
    → ((a : ℕ) → p ≤ a → a < p + length xs → g a ≡ m a)
    → Holds m p xs
    → Holds g p xs
Holds-same m g p [] same h = h
Holds-same m g p (x ∷ xs) same (e, ne, h) = (
  same p (omega arith) (omega arith) ∙ e,
  ne,
  Holds-same m g (p + 1) xs (λ a lo hi. same a (omega arith) (omega arith)) h,
)

-- The string and the terminator stay where nothing of them is written.
pub IsString-same :
    (m g : Memory) (p : ℕ) (xs : List ℕ)
    → ((a : ℕ) → p ≤ a → a ≤ p + length xs → g a ≡ m a)
    → IsString m p xs
    → IsString g p xs
IsString-same m g p xs same (h, e) = (
  Holds-same m g p xs (λ a lo hi. same a lo (omega arith)) h,
  same (p + length xs) (omega arith) (omega arith) ∙ e,
)

-- The terminator of an empty string, and the rest of another.
pub IsString-nil : (m : Memory) (p : ℕ) → IsString m p [] → m p ≡ 0
IsString-nil m p h = ap m (omega arith) ∙ h.1

pub IsString-rest :
    (m : Memory) (p x : ℕ) (xs : List ℕ) → IsString m p (x ∷ xs) → IsString m (p + 1) xs
IsString-rest m p x xs ((e, ne, h), z) = (h, ap m (omega arith) ∙ z)

-- The two ranges have no address in common: the `n` bytes from `p`, and the string with its end.
abbrev pub Apart : ℕ → ℕ → ℕ → ℕ → Type 0
Apart p n q k = (p + n ≤ q) ⊎ (q + k < p)

-- A byte written in front of what is written next.
module _ (m : Memory) (p x : ℕ) where
  pub SameOutside-cons :
      (n : ℕ) (g : Memory) → SameOutside (p + 1) n (store m p x) g → SameOutside p (suc n) m g
  SameOutside-cons n g same a o = ground (arith, same a, next_outside a n o)
    where
      next_outside : (a n : ℕ) → (a < p) ⊎ (p + suc n ≤ a) → (a < p + 1) ⊎ (p + 1 + n ≤ a)
      next_outside a n (inl h) = inl (omega arith)
      next_outside a n (inr h) = inr (omega arith)

  pub first_kept : (n : ℕ) (g : Memory) → SameOutside (p + 1) n (store m p x) g → g p ≡ x
  first_kept n g same = same p (inl (omega arith)) ∙ ground arith

  pub store-IsString :
      (q : ℕ) (ys : List ℕ)
      → (p < q) ⊎ (q + length ys < p)
      → IsString m q ys
      → IsString (store m p x) q ys
  store-IsString q ys apart = IsString-same m (store m p x) q ys (λ a lo hi. ground arith)
