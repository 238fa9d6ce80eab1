-- ===== src/Format/Items/Reading.antt =====
-- How the cases of `vsprintf` read the parts of a directive.
use razos.Base.{
  ℕ, ◌+◌, ◌*◌, ◌%◌, ◌≡◌, ◌≢◌, refl, ap, ◌∙◌, arith, true, false, ◌==◌, ◌!=◌, List, [], ◌∷◌, ◌++◌,
  Option, none, some, neg_one, sub32, u32_mod,
}
use razos.Ctype.{isdigit}
use razos.Format.{atoi_loop, atoi_ptr}
use razos.Format.Printer.{Printer, settle, next_state, case1, case2, case3, case4, case5, set_prec}
use razos.Format.Ends.{step_flags, step_length}
use razos.Format.Items.{
  Flag, left, zeros, plus, blank, special, Length, int, long, half, AllDigits, IsPrecision, IsWidth,
  flag_chars, flag_char, prec_from, number_or, prec_chars, len_chars, Directive, IsDirective,
}
use razos.Format.Items.Flags.{add_flag, flags_from}
use razos.Format.Items.Steps.{Ends, more}

-- The step ends somewhere, and the loop goes on from there to `q`.
abbrev pub Then : Printer → Option Printer → Type 0
Then q o = (r : Printer) × (o ≡ some r) × Ends q r

-- A byte that ends the flags.
abbrev pub NoFlag : ℕ → Type 0
NoFlag c =
    ((c == b'%') ≡ false)
    × ((c == b'-') ≡ false)
    × ((c == b'0') ≡ false)
    × ((c == b'+') ≡ false)
    × ((c == b' ') ≡ false)
    × ((c == b'#') ≡ false)

-- A byte that ends the digits.
abbrev pub NoDigit : ℕ → Type 0
NoDigit c = ((isdigit c != 0) ≡ false) × ((c == b'*') ≡ false)

-- A byte that a conversion can be named by.
abbrev pub IsLetter : ℕ → Type 0
IsLetter c =
    NoFlag c × NoDigit c × ((c == b'.') ≡ false) × ((c == b'l') ≡ false) × ((c == b'h') ≡ false)

atoi-append :
    (i : ℕ) (ds : List ℕ) (c : ℕ) (rest : List ℕ)
    → AllDigits ds
    → (isdigit c != 0) ≡ false
    → atoi_loop i (ds ++ c ∷ rest) ≡ ((atoi_loop i ds).0, c ∷ rest)
unfolding atoi_loop
atoi-append i [] c rest a h = rw h refl
atoi-append i (d ∷ ds) c rest (e, a) h =
    let digit : (isdigit d != 0) ≡ true = ground arith in
    rw digit (atoi-append (sub32 (i * 10 % u32_mod + d) b'0') ds c rest a h)

atoi_both :
    (ds : List ℕ) (c : ℕ) (rest : List ℕ)
    → AllDigits ds
    → (isdigit c != 0) ≡ false
    → atoi_ptr (ds ++ c ∷ rest) ≡ ((atoi_ptr ds).0, c ∷ rest)
unfolding atoi_ptr
atoi_both ds c rest a n = atoi-append 0 ds c rest a n

pub case2_lem :
    (ws : List ℕ) (p : Printer) (c : ℕ) (rest : List ℕ)
    → AllDigits ws
    → NoDigit c
    → case2 (record p { fmt = ws ++ c ∷ rest })
      ≡ case3 (next_state (record p { width = number_or p.width ws; fmt = c ∷ rest }))
unfolding case2
case2_lem [] p c rest a (n, s) = rw (n, s) refl
case2_lem (d ∷ ws) p c rest (e, a) (n, s) =
    let digit : (isdigit d != 0) ≡ true = ground arith in
    rw digit (
      ap (λ r. case3 (next_state (record p { width = r.0; fmt = r.1 })))
        (atoi_both (d ∷ ws) c rest (e, a) n))

set_prec_lem :
    (ds : List ℕ) (p : Printer) (c : ℕ) (rest : List ℕ)
    → AllDigits ds
    → NoDigit c
    → set_prec (record p { fmt = ds ++ c ∷ rest })
      ≡ case4 (next_state (record p { prec = number_or p.prec ds; fmt = c ∷ rest }))
unfolding set_prec
set_prec_lem [] p c rest a (n, s) = rw (n, s) refl
set_prec_lem (d ∷ ds) p c rest (e, a) (n, s) =
    let digit : (isdigit d != 0) ≡ true = ground arith in
    rw digit (
      ap (λ r. case4 (next_state (record p { prec = r.0; fmt = r.1 })))
        (atoi_both (d ∷ ds) c rest (e, a) n))

abbrev pub len_of : ℕ → Length → ℕ
len_of n int = n
len_of n long = 1
len_of n half = neg_one

pub case4_lem :
    (len : Length) (p : Printer) (c : ℕ) (rest : List ℕ)
    → IsLetter c
    → case4 (record p { fmt = len_chars len (c ∷ rest) })
      ≡ case5 (next_state (record p { len = len_of p.len len; fmt = c ∷ rest }))
unfolding case4
case4_lem int p c rest (f, d, dot, l, h) = rw (l, h) refl
case4_lem long p c rest k = refl
case4_lem half p c rest k = refl

-- The first byte of a length modifier or a letter.
len_head :
    (len : Length) (c : ℕ) (rest : List ℕ)
    → IsLetter c
    → (h : ℕ) × (t : List ℕ) × (len_chars len (c ∷ rest) ≡ h ∷ t)
      × NoFlag h
      × NoDigit h
      × ((h == b'.') ≡ false)
unfolding isdigit
len_head int c rest (f, d, dot, l, k) = (c, rest, refl, f, d, dot)
len_head long c rest k =
    (b'l', c ∷ rest, refl, (refl, refl, refl, refl, refl, refl), (refl, refl), refl)
len_head half c rest k =
    (b'h', c ∷ rest, refl, (refl, refl, refl, refl, refl, refl), (refl, refl), refl)

-- From the precision on.
abbrev ready5 : Option (List ℕ) → Length → Printer → List ℕ → Printer
ready5 prec len p fmt = record p {
  fmt = fmt;
  state = p.state + 1 + 1;
  prec = prec_from p.prec prec;
  len = len_of p.len len;
}

pub case3_lem :
    {q : Printer} (prec : Option (List ℕ)) (len : Length) (p : Printer) (c : ℕ) (rest : List ℕ)
    → IsPrecision prec
    → IsLetter c
    → p.state ≡ 3
    → Then q (case5 (ready5 prec len p (c ∷ rest)))
    → Then q (case3 (record p { fmt = prec_chars prec (len_chars len (c ∷ rest)) }))
unfolding case3
case3_lem none len p c rest i k s (r, e, run) =
    let (h, t, same, f, d, dot) = len_head len c rest k in
    let four : p.state + 1 ≡ 4 = omega arith in
    let q = next_state (record p { fmt = len_chars len (c ∷ rest) }) in
    rw (same, dot)
      (
        next_state (record p { fmt = h ∷ t }),
        refl,
        more r h t refl
            (rw (← same) (step_length q four ∙ case4_lem len (next_state p) c rest k ∙ e)) run,
      )
case3_lem (some ds) len p c rest i k s (r, e, run) =
    let (h, t, same, f, d, dot) = len_head len c rest k in
    let read : set_prec (record p { fmt = ds ++ len_chars len (c ∷ rest) })
        ≡ case4
            (next_state (record p { prec = number_or p.prec ds; fmt = len_chars len (c ∷ rest) })) =
      rw same (set_prec_lem ds p h t i d) in
    (
      r,
      read ∙ case4_lem len (next_state (record p { prec = number_or p.prec ds })) c rest k ∙ e,
      run,
    )

-- The first byte behind the width.
prec_head :
    (prec : Option (List ℕ)) (len : Length) (c : ℕ) (rest : List ℕ)
    → IsLetter c
    → (h : ℕ) × (t : List ℕ) × (prec_chars prec (len_chars len (c ∷ rest)) ≡ h ∷ t)
      × NoFlag h
      × NoDigit h
unfolding isdigit
prec_head none len c rest k =
    let (h, t, same, f, d, dot) = len_head len c rest k in (h, t, same, f, d)
prec_head (some ds) len c rest k =
    (b'.', ds ++ len_chars len (c ∷ rest), refl, (refl, refl, refl, refl, refl, refl), (refl, refl))

case1_plain :
    (p : Printer) (c : ℕ) (rest : List ℕ)
    → NoFlag c
    → case1 (record p { fmt = c ∷ rest })
      ≡ case2 (next_state (record p { flags = settle p.flags; fmt = c ∷ rest }))
unfolding case1
case1_plain p c rest (e1, e2, e3, e4, e5, e6) = rw (e1, e2, e3, e4, e5, e6) refl

-- A digit that begins a width is not a flag.
digit-NoFlag : (c : ℕ) → c ≢ b'0' → (isdigit c == 1) ≡ true → NoFlag c
unfolding isdigit
digit-NoFlag c z d = ground arith

abbrev pub sized : Directive → Printer → Printer
sized d p = record p {
  flags = settle p.flags;
  state = p.state + 1 + 1;
  width = number_or p.width d.width;
}

width_read :
    (ws : List ℕ) (p : Printer) (h : ℕ) (t : List ℕ)
    → IsWidth ws
    → NoFlag h
    → NoDigit h
    → case1 (record p { fmt = ws ++ h ∷ t })
      ≡ case3 (record p {
        fmt = h ∷ t;
        flags = settle p.flags;
        state = p.state + 1 + 1;
        width = number_or p.width ws;
      })
width_read [] p h t w f n =
    case1_plain p h t f ∙ case2_lem [] (next_state (record p { flags = settle p.flags })) h t tt n
width_read (c ∷ ws) p h t (z, a) f n =
    case1_plain p c (ws ++ h ∷ t) (digit-NoFlag c z a.0)
    ∙ case2_lem (c ∷ ws) (next_state (record p { flags = settle p.flags })) h t a n

-- From the width on.
pub width_lem :
    {q : Printer} (d : Directive) (p : Printer) (c : ℕ) (rest : List ℕ)
    → IsDirective d
    → IsLetter c
    → p.state ≡ 1
    → Then q (case5 (ready5 d.prec d.len (sized d p) (c ∷ rest)))
    → Then q (case1 (record p { fmt = d.width ++ prec_chars d.prec (len_chars d.len (c ∷ rest)) }))
width_lem {q} d p c rest (w, i) k s go =
    let (h, t, same, f, n) = prec_head d.prec d.len c rest k in
    let three : p.state + 1 + 1 ≡ 3 = omega arith in
    let read : case1 (record p { fmt = d.width ++ prec_chars d.prec (len_chars d.len (c ∷ rest)) })
        ≡ case3 (record (sized d p) { fmt = prec_chars d.prec (len_chars d.len (c ∷ rest)) }) =
      rw same (width_read d.width p h t w f n) in
    let (r, e, run) = case3_lem d.prec d.len (sized d p) c rest i k three go in (r, read ∙ e, run)

flag_read :
    (f : Flag) (p : Printer) (rest : List ℕ)
    → case1 (record p { fmt = flag_char f ∷ rest })
      ≡ some (record p { fmt = rest; flags = add_flag p.flags f })
unfolding case1
flag_read left p rest = refl
flag_read zeros p rest = refl
flag_read plus p rest = refl
flag_read blank p rest = refl
flag_read special p rest = refl

flags_head :
    (fs : List Flag) (rest : List ℕ) (h : ℕ) (t : List ℕ)
    → rest ≡ h ∷ t
    → (h' : ℕ) × (t' : List ℕ) × (flag_chars fs rest ≡ h' ∷ t')
flags_head [] rest h t e = (h, t, e)
flags_head (f ∷ fs) rest h t e = (flag_char f, flag_chars fs rest, refl)

-- The flags are read one by one, each in a round of its own.
flags_lem :
    (q : Printer) (fs : List Flag) (p : Printer) (rest : List ℕ) (h : ℕ) (t : List ℕ)
    → rest ≡ h ∷ t
    → p.state ≡ 1
    → Then q (case1 (record p { fmt = rest; flags = flags_from p.flags fs }))
    → Then q (case1 (record p { fmt = flag_chars fs rest }))
flags_lem q [] p rest h t e' s go = go
flags_lem q (f ∷ fs) p rest h t e' s go =
    let next = record p { fmt = flag_chars fs rest; flags = add_flag p.flags f } in
    let (r, e, run) = flags_lem q fs (record p { flags = add_flag p.flags f }) rest h t e' s go in
    let (h', t', some_left) = flags_head fs rest h t e' in
    (next, flag_read f p (flag_chars fs rest), more r h' t' some_left (step_flags next s ∙ e) run)

width_head :
    (ws rest : List ℕ) (h : ℕ) (t : List ℕ)
    → rest ≡ h ∷ t
    → (h' : ℕ) × (t' : List ℕ) × (ws ++ rest ≡ h' ∷ t')
width_head [] rest h t e = (h, t, e)
width_head (c ∷ ws) rest h t e = (c, ws ++ rest, refl)

-- From the flags on.
pub directive_lem :
    (q : Printer) (d : Directive) (p : Printer) (c : ℕ) (rest : List ℕ)
    → IsDirective d
    → IsLetter c
    → p.state ≡ 1
    → Then q (
        case5 (
          ready5 d.prec d.len
            (sized d (record p { flags = flags_from p.flags d.flags }))
            (c ∷ rest)))
    → Then q (
        case1 (record p {
          fmt = flag_chars d.flags (d.width ++ prec_chars d.prec (len_chars d.len (c ∷ rest)));
        }))
directive_lem q d p c rest i k s go =
    let (h, t, same, f, n) = prec_head d.prec d.len c rest k in
    let (h', t', some_left) =
      width_head d.width (prec_chars d.prec (len_chars d.len (c ∷ rest))) h t same in
    flags_lem q d.flags p (d.width ++ prec_chars d.prec (len_chars d.len (c ∷ rest))) h' t'
      some_left s (width_lem d (record p { flags = flags_from p.flags d.flags }) c rest i k s go)
