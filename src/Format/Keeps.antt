-- ===== src/Format/Keeps.antt =====
-- A conversion of `vsprintf` leaves the format and the state alone.
use razos.Base.{
  ℕ, ◌≡◌, refl, Bool, true, false, ◌==◌, ◌⊎◌, if◌then◌else◌, List, [], ◌∷◌, Option, none, some, inl,
  inr, Bool-cases, neg_one,
}
use razos.Format.{fl_small, fl_sign}
use razos.Format.Printer.{
  put, put_number, number_word, char_word, Arg, word, text, place, Printer, set_flag, next_word,
  conv_number, conv_char, conv_string, conv_pointer, conv_printed, convert, put_string,
}
use mathlib.Core.Option

-- What holds of the result, if there is one.
abbrev pub Each : (Printer → Type 0) → Option Printer → Type 0
Each P none = Unit
Each P (some q) = P q

abbrev pub Keeps : Printer → Printer → Type 0
Keeps p q = (q.fmt ≡ p.fmt) × (q.state ≡ p.state)

put-Each :
    (p : Printer) (o : Option (List ℕ)) → Each (Keeps p) (Option.map (λ bytes. put bytes p) o)
put-Each p none = tt
put-Each p (some bytes) = (refl, refl)

arg_cases : (xs : List Arg) → (xs ≡ []) ⊎ ((a : Arg) × (more : List Arg) × (xs ≡ a ∷ more))
arg_cases [] = inl refl
arg_cases (a ∷ more) = inr (a, more, refl)

pub next_word-Each :
    (P : Printer → Type 0) (go : ℕ → Printer → Option Printer) (p : Printer)
    → ((w : ℕ) (arg : List Arg) → Each P (go w (record p { arg = arg })))
    → Each P (next_word go p)
next_word-Each P go p h = elim (arg_cases p.arg) [
  | inl e ↦ rw e tt
  | inr (word w, arg, e) ↦ rw e (h w arg)
  | inr (text s, arg, e) ↦ rw e tt
  | inr (place, arg, e) ↦ rw e tt
]

conv_number-Each : (base : ℕ) (p : Printer) → Each (Keeps p) (conv_number base p)
unfolding conv_number
conv_number-Each base p =
    next_word-Each (Keeps p) (number_word base) p λ w arg. put-Each (record p { arg = arg }) _

conv_char-Each : (p : Printer) → Each (Keeps p) (conv_char p)
unfolding conv_char
conv_char-Each p = next_word-Each (Keeps p) char_word p λ w arg. (refl, refl)

conv_string-Each : (p : Printer) → Each (Keeps p) (conv_string p)
unfolding conv_string put_string
conv_string-Each p = elim (arg_cases p.arg) [
  | inl e ↦ rw e tt
  | inr (word w, arg, e) ↦ rw e tt
  | inr (text none, arg, e) ↦ rw e (refl, refl)
  | inr (text (some s), arg, e) ↦ rw e (refl, refl)
  | inr (place, arg, e) ↦ rw e tt
]

conv_printed-Each : (p : Printer) → Each (Keeps p) (conv_printed p)
unfolding conv_printed
conv_printed-Each p = elim (arg_cases p.arg) [
  | inl e ↦ rw e tt
  | inr (word w, arg, e) ↦ rw e tt
  | inr (text s, arg, e) ↦ rw e tt
  | inr (place, arg, e) ↦ rw e (refl, refl)
]

conv_pointer-Each : (p : Printer) → Each (Keeps p) (conv_pointer p)
unfolding conv_pointer
conv_pointer-Each p = elim (Bool-cases (p.width == neg_one)) [
  | inl e ↦ rw e (next_word-Each (Keeps p) (λ w. put_number w 16) _ λ w arg. put-Each _ _)
  | inr e ↦ rw e (next_word-Each (Keeps p) (λ w. put_number w 16) _ λ w arg. put-Each _ _)
]

pub if-Each :
    (P : Printer → Type 0) (b : Bool) (x y : Option Printer)
    → Each P x
    → Each P y
    → Each P (if b then x else y)
if-Each P true x y hx hy = hx
if-Each P false x y hx hy = hy

pub convert-Each : (c : ℕ) (p : Printer) → Each (Keeps p) (convert c p)
unfolding convert
convert-Each c p = if-Each (Keeps p) (c == b'd') _ _ (conv_number-Each 10 (set_flag fl_sign p)) (
    if-Each (Keeps p) (c == b'i') _ _ (conv_number-Each 10 (set_flag fl_sign p)) (
      if-Each (Keeps p) (c == b'u') _ _ (conv_number-Each 10 p) (
        if-Each (Keeps p) (c == b'o') _ _ (conv_number-Each 8 p) (
          if-Each (Keeps p) (c == b'x') _ _ (conv_number-Each 16 (set_flag fl_small p)) (
            if-Each (Keeps p) (c == b'X') _ _ (conv_number-Each 16 p) (
              if-Each (Keeps p) (c == b'c') _ _ (conv_char-Each p) (
                if-Each (Keeps p) (c == b's') _ _ (conv_string-Each p) (
                  if-Each (Keeps p) (c == b'p') _ _ (conv_pointer-Each p)
                    (if-Each (Keeps p) (c == b'n') _ _ (conv_printed-Each p) (refl, refl))))))))))

pub map-Each :
    (P Q : Printer → Type 0) (f : Printer → Printer) (o : Option Printer)
    → ((q : Printer) → P q → Q (f q))
    → Each P o
    → Each Q (Option.map f o)
map-Each P Q f none h e = tt
map-Each P Q f (some q) h e = h q e

pub weaken-Each :
    (P Q : Printer → Type 0) (o : Option Printer)
    → ((q : Printer) → P q → Q q)
    → Each P o
    → Each Q o
weaken-Each P Q none h e = tt
weaken-Each P Q (some q) h e = h q e
