-- ===== src/Console/Scroll.antt =====
-- What the loops of `scroll` leave of the text.
use razos.Base.{
  ℕ, zero, suc, ◌+◌, ◌≤◌, ◌≡◌, refl, ap, sym, ◌∙◌, arith, List, [], ◌∷◌, ◌++◌, length, get_or, set,
  take, drop, replicate, length-set, take-set, drop-set, drop-get_or, length-append, length-drop,
  take_all, drop_all, take-append-drop,
}
use mathlib.Core.List.{append_assoc}
use razos.Console.{blank, move_up, blank_out}

pub move_up_lem :
    (left i : ℕ) (cells : List ℕ)
    → i + left + 80 ≤ length cells
    → move_up left i cells
      ≡ take i cells ++ (take left (drop (i + 80) cells) ++ drop (i + left) cells)
unfolding move_up
move_up_lem zero i cells h =
    let e : i + 0 ≡ i = omega arith in rw e (sym (take-append-drop i cells))
move_up_lem (suc left) i cells h =
    let b = get_or cells (i + 80) 0 in
    let one : i + 1 ≡ suc i = omega arith in
    let next : suc i + 80 ≡ suc (i + 80) = omega arith in
    let end : suc i + left ≡ i + suc left = omega arith in
    let rest = take left (drop (suc (i + 80)) cells) ++ drop (i + suc left) cells in
    rw (one) (
      move_up_lem left (suc i) (set cells i b) (omega (arith, length-set cells i b))
      ∙ rw
          (
            next,
            end,
            take-set cells i b (omega arith),
            drop-set cells i (suc (i + 80)) b (omega arith),
            drop-set cells i (i + suc left) b (omega arith),
            drop-get_or cells (i + 80) 0 (omega arith),
          )
          (append_assoc (take i cells) (b ∷ []) rest))

pub blank_out_lem :
    (c left i : ℕ) (cells : List ℕ)
    → i + left ≤ length cells
    → blank_out c left i cells ≡ take i cells ++ (replicate left c ++ drop (i + left) cells)
unfolding blank_out
blank_out_lem c zero i cells h =
    let e : i + 0 ≡ i = omega arith in rw e (sym (take-append-drop i cells))
blank_out_lem c (suc left) i cells h =
    let one : i + 1 ≡ suc i = omega arith in
    let end : suc i + left ≡ i + suc left = omega arith in
    rw (one) (
      blank_out_lem c left (suc i) (set cells i c) (omega (arith, length-set cells i c))
      ∙ rw (end, take-set cells i c (omega arith), drop-set cells i (i + suc left) c (omega arith))
          (append_assoc (take i cells) (c ∷ []) (replicate left c ++ drop (i + suc left) cells)))

-- The text moves up by a line, and the last line is blank.
abbrev pub scrolled : List ℕ → List ℕ
scrolled cells = drop 80 cells ++ replicate 80 blank

take-length : (n : ℕ) (xs ys : List ℕ) → length xs ≡ n → take n (xs ++ ys) ≡ xs
take-length zero [] ys h = refl
take-length zero (x ∷ xs) ys h = absurd (omega arith)
take-length (suc n) [] ys h = absurd (omega arith)
take-length (suc n) (x ∷ xs) ys h = ap (λ zs. x ∷ zs) (take-length n xs ys (omega arith))

pub append-nil_right : (xs ys : List ℕ) → ys ≡ [] → xs ++ ys ≡ xs
append-nil_right [] ys h = h
append-nil_right (x ∷ xs) ys h = ap (λ zs. x ∷ zs) (append-nil_right xs ys h)

move_up-all :
    (cells : List ℕ) → length cells ≡ 2000 → move_up 1920 0 cells ≡ drop 80 cells ++ drop 1920 cells
move_up-all cells h =
    move_up_lem 1920 0 cells (omega arith)
    ∙ ap (λ l. l ++ drop 1920 cells)
        (take_all (drop 80 cells) 1920 (omega (arith, length-drop 80 cells)))

pub scroll_cells :
    (cells : List ℕ)
    → length cells ≡ 2000
    → blank_out blank 80 1920 (move_up 1920 0 cells) ≡ scrolled cells
scroll_cells cells h =
    let up = drop 80 cells ++ drop 1920 cells in
    let size : length up ≡ 2000 = omega (
      arith,
      length-append (drop 80 cells) (drop 1920 cells),
      length-drop 80 cells,
      length-drop 1920 cells,
    ) in
    rw (move_up-all cells h) (
      blank_out_lem blank 80 1920 up (omega arith)
      ∙ rw
          (take-length 1920 (drop 80 cells) (drop 1920 cells) (omega (arith, length-drop 80 cells)))
          (ap (λ l. drop 80 cells ++ l)
            (append-nil_right (replicate 80 blank) (drop 2000 up)
              (drop_all up 2000 (omega arith)))))
