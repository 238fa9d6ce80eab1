-- ===== src/Format/Items/Directives.antt =====
-- `vsprintf` prints what its format means.
use razos.Base.{
  int_lt, ℕ, ◌+◌, ◌-◌, ◌*◌, ◌^◌, ◌<◌, ◌⊎◌, ◌≡◌, refl, ap, ◌∙◌, sym, arith, true, false, ◌==◌, ◌!=◌,
  if◌then◌else◌, List, [], ◌∷◌, ◌++◌, some, length, take, neg_one, is_neg, inl, inr, replicate,
  length-append, length-take, take_all, Bool-cases,
}
use mathlib.Core.Option
use mathlib.Core.List.{append_assoc, append-nil}
use razos.Ctype.{isdigit}
use razos.Format.{numstr, fl_left_justify, flagged}
use razos.Format.Layout.{justified}
use razos.Format.Printer.{
  Printer, Arg, word, text, place, start, settle, reset, short, case0, case1, case5, convert,
  conv_number, conv_string, conv_printed, put_string, string_length, finished, vsprintf, pad_to,
  after_to,
}
use razos.Format.Ends.{step_first, step-reset, bytes_cases, vsprintf_ends}
use razos.Format.Items.{
  Directive, IsDirective, Kind, signed, signed_i, unsigned, octal, hex, capital_hex, kind_char,
  kind_flags, base_of, Length, int, long, half, as_length, flags_of, width_of, prec_of, written,
  clipped, Prints, finish, literal, percent, number, string, count, Fits, string_bytes,
}
use razos.Format.Items.Flags.{flags_from, settle-flags_of}
use mathlib.Core.Path.{subst}
use razos.Format.Items.Steps.{Ends, stop, more, Ends-runs}
use razos.Format.Items.Reading.{Then, IsLetter, directive_lem, len_of}

convert_number :
    (k : Kind) (p : Printer) (rest : List ℕ) (arg : List Arg) (w : ℕ) (bytes : List ℕ)
    → numstr
        (if p.len == neg_one then short w else w)
        (base_of k)
        p.width
        p.prec
        (kind_flags k p.flags)
      ≡ some bytes
    → case5 (record p { fmt = kind_char k ∷ rest; arg = word w ∷ arg })
      ≡ some (record p {
        fmt = rest;
        flags = kind_flags k p.flags;
        state = p.state + 1;
        arg = arg;
        str = p.str ++ bytes;
      })
unfolding case5 convert conv_number Option.bind
convert_number signed p rest arg w bytes e = rw e refl
convert_number signed_i p rest arg w bytes e = rw e refl
convert_number unsigned p rest arg w bytes e = rw e refl
convert_number octal p rest arg w bytes e = rw e refl
convert_number hex p rest arg w bytes e = rw e refl
convert_number capital_hex p rest arg w bytes e = rw e refl

kind-IsLetter : (k : Kind) → IsLetter (kind_char k)
unfolding isdigit
kind-IsLetter signed = ((refl, refl, refl, refl, refl, refl), (refl, refl), refl, refl, refl)
kind-IsLetter signed_i = ((refl, refl, refl, refl, refl, refl), (refl, refl), refl, refl, refl)
kind-IsLetter unsigned = ((refl, refl, refl, refl, refl, refl), (refl, refl), refl, refl, refl)
kind-IsLetter octal = ((refl, refl, refl, refl, refl, refl), (refl, refl), refl, refl, refl)
kind-IsLetter hex = ((refl, refl, refl, refl, refl, refl), (refl, refl), refl, refl, refl)
kind-IsLetter capital_hex = ((refl, refl, refl, refl, refl, refl), (refl, refl), refl, refl, refl)

abbrev Printable : (fmt : List ℕ) (arg : List Arg) (out stores str printed : List ℕ) → Type 0
Printable fmt arg out stores str printed =
    (q : Printer) × Ends q (record (start fmt arg) { str = str; printed = printed })
    × (q.str ≡ str ++ out)
    × (q.printed ≡ printed ++ stores)

Prints-nil :
    {n : ℕ} {fmt out stores : List ℕ} {arg : List Arg}
    → Prints n fmt arg out stores
    → fmt ≡ []
    → (out ≡ []) × (stores ≡ [])
Prints-nil finish e = (refl, refl)
Prints-nil (literal c n pr) e = absurd (ground arith)
Prints-nil (percent pr) e = absurd (ground arith)
Prints-nil (number d k w bytes i f n pr) e = absurd (ground arith)
Prints-nil (string d s i l n pr) e = absurd (ground arith)
Prints-nil (count d i pr) e = absurd (ground arith)

-- After a directive the state is reset, unless the format ends.
again :
    (r : Printer) (out stores : List ℕ)
    → r.state ≡ 6
    → (r.fmt ≡ [] → (out ≡ []) × (stores ≡ []))
    → Printable r.fmt r.arg out stores r.str r.printed
    → (q : Printer) × Ends q r × (q.str ≡ r.str ++ out) × (q.printed ≡ r.printed ++ stores)
again r out stores s nothing (q, run, a, b) = elim (bytes_cases r.fmt) [
  | inl e ↦ (
    r,
    stop e,
    rw ((nothing e).0) (sym (append-nil r.str)),
    rw ((nothing e).1) (sym (append-nil r.printed)),
  )
  | inr (c, rest, e) ↦ (q, more (reset r) c rest e (step-reset r s) run, a, b)
]

-- What the read directive leaves for the conversion.
abbrev loaded : Directive → (fmt : List ℕ) (arg : List Arg) (str printed : List ℕ) → Printer
loaded d fmt arg str printed = record {
  fmt = fmt;
  flags = flags_of d;
  state = 5;
  width = width_of d;
  prec = prec_of d.prec;
  len = len_of 0 d.len;
  arg = arg;
  str = str;
  printed = printed;
}

directive_run :
    (q : Printer) (d : Directive) (c : ℕ) (fmt : List ℕ) (arg : List Arg) (str printed : List ℕ)
    → IsDirective d
    → IsLetter c
    → Then q (case5 (loaded d (c ∷ fmt) arg str printed))
    → Ends q (record (start (written d (c ∷ fmt)) arg) { str = str; printed = printed })
unfolding case0
directive_run q d c fmt arg str printed i k go =
    let p0 = record (start (written d (c ∷ fmt)) arg) { str = str; printed = printed } in
    let p1 = record (start [] arg) { state = 1; str = str; printed = printed } in
    let read : Then q (
        case5
          (record (loaded d (c ∷ fmt) arg str printed) { flags = settle (flags_from 0 d.flags) })) =
      subst (λ f. Then q (case5 (record (loaded d (c ∷ fmt) arg str printed) { flags = f })))
        (sym (settle-flags_of d)) go in
    let (r, e, run) = directive_lem q d p1 c fmt i k refl read in
    more r b'%' _ refl (step_first p0 refl ∙ e) run

clipped_lem :
    (prec : ℕ) (s : List ℕ)
    → length s < 2 ^ 31
    → (take (string_length prec s) s ≡ clipped prec s)
      × (length (clipped prec s) ≡ string_length prec s)
unfolding string_length
clipped_lem prec s l = elim (Bool-cases (is_neg prec)) [
  | inl e ↦ rw e (take_all s (length s) (omega arith), refl)
  | inr e ↦ elim (Bool-cases (int_lt prec (length s))) [
    | inl f ↦ rw (e, f) (refl, ground (arith, length-take prec s))
    | inr f ↦
        (let whole : take prec s ≡ s = take_all s prec (ground arith) in
          rw (e, f, whole) (take_all s (length s) (omega arith), refl))
  ]
]

string_length-lt : (prec : ℕ) (s : List ℕ) → length s < 2 ^ 31 → string_length prec s < 2 ^ 31
unfolding string_length
string_length-lt prec s l = ground arith

abbrev IsStringWidth : ℕ → Type 0
IsStringWidth w = (w < 2 ^ 31) ⊎ (w ≡ neg_one)

pad_to_lem :
    (slen w : ℕ)
    → slen < 2 ^ 31
    → IsStringWidth w
    → (pad_to slen w ≡ replicate ((if is_neg w then 0 else w) - slen) b' ')
      × (pad_to slen (after_to slen w) ≡ [])
pad_to_lem slen w l (inr e) =
    let f : int_lt slen w ≡ false = ground arith in
    let g : int_lt slen (after_to slen w) ≡ false = ground arith in
    let nothing : 0 - slen ≡ 0 = omega arith in (rw f (rw (e, nothing) refl), rw g refl)
pad_to_lem slen w l (inl h) = elim (Bool-cases (int_lt slen w)) [
  | inl f ↦
      (let g : int_lt slen (after_to slen w) ≡ false = ground arith in
        let pos : is_neg w ≡ false = ground arith in (rw (f, pos) refl, rw g refl))
  | inr f ↦
      (let g : int_lt slen (after_to slen w) ≡ false = ground arith in
        let full : w - slen ≡ 0 = ground arith in
        let pos : is_neg w ≡ false = ground arith in (rw (f, pos, full) refl, rw g refl))
]

put_string_lem :
    (s : List ℕ) (p : Printer)
    → length s < 2 ^ 31
    → IsStringWidth p.width
    → (put_string s p).str
      ≡ p.str
        ++ justified
            (flagged p.flags fl_left_justify)
            false
            (if is_neg p.width then 0 else p.width)
            []
            (clipped p.prec s)
unfolding put_string justified
put_string_lem s p l w =
    let (same, size) = clipped_lem p.prec s l in
    let (pad, nothing) =
      pad_to_lem (string_length p.prec s) p.width (string_length-lt p.prec s l) w in
    ap (λ t. p.str ++ t)
      (elim (Bool-cases (flagged p.flags fl_left_justify)) [
        | inl e ↦ rw (e, size, same, pad) refl
        | inr e ↦ rw (e, size, same, pad, nothing, append-nil (clipped p.prec s)) refl
      ])

as_length_lem :
    (k : Kind) (len : Length) (w : ℕ)
    → Fits k len w
    → (if len_of 0 len == neg_one then short w else w) ≡ as_length k len w
as_length_lem k int w f = refl
as_length_lem k long w f = refl
as_length_lem k half w f = ground arith

string-IsLetter : IsLetter b's'
unfolding isdigit
string-IsLetter = ((refl, refl, refl, refl, refl, refl), (refl, refl), refl, refl, refl)

count-IsLetter : IsLetter b'n'
unfolding isdigit
count-IsLetter = ((refl, refl, refl, refl, refl, refl), (refl, refl), refl, refl, refl)

longer : (str bytes : List ℕ) (n : ℕ) → length str ≡ n → length (str ++ bytes) ≡ n + length bytes
longer str bytes n e = omega (arith, length-append str bytes)

Prints-Printable :
    {n : ℕ} {fmt out stores : List ℕ} {arg : List Arg}
    → Prints n fmt arg out stores
    → (str printed : List ℕ) → length str ≡ n
    → Printable fmt arg out stores str printed
unfolding case0 case1 case5 convert conv_string conv_printed Option.bind put_string
Prints-Printable finish str printed at =
    (_, stop refl, sym (append-nil str), sym (append-nil printed))
Prints-Printable {n} {arg = arg} (literal {fmt = fmt} {out = out} c ne pr) str printed at =
    let (q, run, a, b) = Prints-Printable pr (str ++ c ∷ []) printed (longer str (c ∷ []) n at) in
    let p0 = record (start (c ∷ fmt) arg) { str = str; printed = printed } in
    let test : (c != b'%') ≡ true = ground arith in
    (
      q,
      more _ c fmt refl (step_first p0 refl ∙ rw test refl) run,
      a ∙ append_assoc str (c ∷ []) out,
      b,
    )
Prints-Printable {n} {arg = arg} (percent {fmt = fmt} {out = out} pr) str printed at =
    let (q, run, a, b) =
      Prints-Printable pr (str ++ b'%' ∷ []) printed (longer str (b'%' ∷ []) n at) in
    let p0 = record (start (b'%' ∷ b'%' ∷ fmt) arg) { str = str; printed = printed } in
    (
      q,
      more _ b'%' (b'%' ∷ fmt) refl (step_first p0 refl) run,
      a ∙ append_assoc str (b'%' ∷ []) out,
      b,
    )
Prints-Printable {n}
      (number {fmt = fmt} {out = out} {stores = stores} {arg = arg} d k w bytes i fits e' pr) str
      printed at =
    let p5 = loaded d (kind_char k ∷ fmt) (word w ∷ arg) str printed in
    let test = as_length_lem k d.len w fits in
    let e : numstr (if p5.len == neg_one then short w else w) (base_of k) p5.width p5.prec
          (kind_flags k p5.flags)
        ≡ some bytes =
      rw test e' in
    let (q, run, a, b) =
      again
        (record p5 {
          fmt = fmt;
          flags = kind_flags k p5.flags;
          state = 6;
          arg = arg;
          str = str ++ bytes;
        })
        out stores refl (Prints-nil pr)
        (Prints-Printable pr (str ++ bytes) printed (longer str bytes n at)) in
    (
      q,
      directive_run q d (kind_char k) fmt (word w ∷ arg) str printed i (kind-IsLetter k)
          (_, convert_number k p5 fmt arg w bytes e, run),
      a ∙ append_assoc str bytes out,
      b,
    )
Prints-Printable {n} (string {fmt = fmt} {out = out} {stores = stores} {arg = arg} d s i l width pr)
      str printed at =
    let p5 = loaded d fmt arg str printed in
    let r = record (put_string s p5) { state = 6 } in
    let bytes : r.str ≡ str ++ string_bytes d s = put_string_lem s p5 l width in
    let (q, run, a, b) =
      again r out stores refl (Prints-nil pr) (
        Prints-Printable pr r.str printed (ap length bytes ∙ longer str (string_bytes d s) n at)) in
    (
      q,
      directive_run q d b's' fmt (text (some s) ∷ arg) str printed i string-IsLetter (r, refl, run),
      a ∙ ap (λ t. t ++ out) bytes ∙ append_assoc str _ out,
      b,
    )
Prints-Printable {n} (count {fmt = fmt} {out = out} {stores = stores} {arg = arg} d i pr) str
      printed at =
    let p5 = loaded d fmt arg str printed in
    let r = record p5 { state = 6; printed = printed ++ (length str ∷ []) } in
    let (q, run, a, b) =
      again r out stores refl (Prints-nil pr) (Prints-Printable pr str r.printed at) in
    (
      q,
      directive_run q d b'n' fmt (place ∷ arg) str printed i count-IsLetter (r, refl, run),
      a,
      b ∙ append_assoc printed (length str ∷ []) stores ∙ ap (λ m. printed ++ m ∷ stores) at,
    )

-- `vsprintf` prints what the format asks for and returns the number of its bytes. The format consists of literal
-- bytes, `%%`, and directives for d, i, u, o, x, X, s and n whose width and precision, if any, are digits. A number
-- is printed by `numstr` in the base of its letter, with the width, the precision and the flags that the directive
-- names, of which `-` overrides `0` and `+` the space; `h` takes the low 16 bits, signed for d and i, and for
-- the other letters bit 15 of the argument is not set. A string of less than 2 ^ 31 bytes is cut at the precision and
-- padded with spaces to the width, on the side that the flags say. For `%n` the number of bytes before it is stored.
pub vsprintf-Prints :
    (fmt : List ℕ) (arg : List Arg) (out stores : List ℕ)
    → Prints 0 fmt arg out stores
    → vsprintf fmt arg ≡ some (record { buf = out; count = length out; stores = stores })
unfolding vsprintf
vsprintf-Prints fmt arg out stores pr =
    let (q, run, a, b) = Prints-Printable pr [] [] refl in
    ap finished (Ends-runs run (3 * length fmt + 2) (vsprintf_ends fmt arg)) ∙ rw (a, b) refl
