-- ===== src/Format/Tests.antt =====
-- Runs of kernel/lib/vsprintf.c, and its theorems at concrete inputs.
use razos.Base.{
  ◌++◌, ◌+◌, ◌-◌, ◌*◌, ℕ, ◌^◌, ◌≤◌, ◌≡◌, ◌≢◌, refl, arith, List, [], ◌∷◌, none, some, inl, inr,
  length, neg_one, false,
}
use razos.Ctype.{isdigit}
use razos.Format.{
  numstr, digits_of, atoi_ptr, atoi_loop, digit_loop, lay_out, spread, backwards, digs, fl_sign,
  fl_zeropad,
}
use razos.Format.Digits.{Digits, digits_of_lem}
use razos.Format.Layout.{numstr_lem, DigitText, justified, head_text, digits_text}
use razos.Format.RoundTrip.{numstr-atoi_ptr}
use razos.Format.Printer.{
  word, place, vsprintf, print_loop, start, out_of_fuel, step, case0, case1, case2, case3, case4,
  case5, convert, conv_number, conv_char,
}
use razos.Format.Ends.{vsprintf_ends}
use razos.Format.Items.{
  Directive, Prints, finish, literal, percent, number, count, signed, left, zeros, int, half,
  written,
}
use razos.Format.Items.Directives.{vsprintf-Prints}
use mathlib.Core.Option

digits_of_example :
    (tmp : List ℕ) × (digits_of false 2 4_294_967_295 ≡ some tmp)
    × Digits false 2 4_294_967_295 32 tmp
    × (1 ≤ length tmp)
digits_of_example = digits_of_lem false 2 4_294_967_295 (omega arith) (omega arith) (omega arith)

numstr_example :
    (tmp : List ℕ) × DigitText (2 ^ 32 - 42) 10 fl_sign tmp
    × (numstr (2 ^ 32 - 42) 10 6 neg_one fl_sign
        ≡ some (justified false false 6 (head_text 10 b'-' fl_sign) (digits_text neg_one tmp)))
numstr_example =
    numstr_lem (2 ^ 32 - 42) 10 6 neg_one fl_sign (omega arith) (omega arith) (omega arith)
      (omega arith) (inr (omega arith, omega arith)) (omega arith)

-- "   -42"
numstr_runs :
    numstr (2 ^ 32 - 42) 10 6 neg_one fl_sign ≡ some (b' ' ∷ b' ' ∷ b' ' ∷ b'-' ∷ b'4' ∷ b'2' ∷ [])
unfolding numstr digits_of digit_loop lay_out spread backwards digs
numstr_runs = refl

numstr-atoi_ptr_example :
    (text : List ℕ) × (numstr 1_977 10 8 6 fl_zeropad ≡ some text)
    × (atoi_ptr (text ++ b'x' ∷ []) ≡ (1_977, b'x' ∷ []))
unfolding isdigit
numstr-atoi_ptr_example =
    numstr-atoi_ptr 1_977 8 6 (b'x' ∷ []) (omega arith) (omega arith) (inl (omega arith)) refl

abbrev dash_four : Directive
dash_four = record { flags = left ∷ zeros ∷ []; width = b'4' ∷ []; prec = none; len = half }

abbrev plain : Directive
plain = record { flags = []; width = []; prec = none; len = int }

-- "%-04hd|%n%%"
abbrev sample : List ℕ
sample = written dash_four (b'd' ∷ b'|' ∷ written plain (b'n' ∷ b'%' ∷ b'%' ∷ []))

sample_output : List ℕ
sample_output = b'-' ∷ b'1' ∷ b' ' ∷ b' ' ∷ b'|' ∷ b'%' ∷ []

vsprintf_ends_example :
    print_loop (3 * length sample + 2) (start sample (word 65_535 ∷ place ∷ [])) ≢ out_of_fuel
vsprintf_ends_example = vsprintf_ends sample (word 65_535 ∷ place ∷ [])

not_bar : (b : ℕ) → b ≡ b'|' → b ≢ b'%'
not_bar b e f = omega arith

not_zero : (b : ℕ) → b ≡ b'4' → b ≢ b'0'
not_zero b e f = omega arith

sample-Prints : Prints 0 sample (word 65_535 ∷ place ∷ []) sample_output (5 ∷ [])
unfolding sample_output isdigit numstr digits_of digit_loop lay_out spread backwards digs atoi_ptr
    atoi_loop
sample-Prints =
    number dash_four signed 65_535 (b'-' ∷ b'1' ∷ b' ' ∷ b' ' ∷ [])
      ((not_zero b'4' refl, (refl, tt)), tt) (inl refl) refl
      (literal b'|' (not_bar b'|' refl) (count plain (tt, tt) (percent finish)))

vsprintf-Prints_example :
    vsprintf sample (word 65_535 ∷ place ∷ [])
    ≡ some (record { buf = sample_output; count = length sample_output; stores = 5 ∷ [] })
vsprintf-Prints_example =
    vsprintf-Prints sample (word 65_535 ∷ place ∷ []) sample_output (5 ∷ []) sample-Prints

-- "%l": the conversion steps over the terminator.
past_the_end : vsprintf (b'%' ∷ b'l' ∷ []) [] ≡ none
unfolding vsprintf print_loop step case0 case1 case2 case3 case4 case5 convert isdigit Option.bind
past_the_end = refl

-- "%hu" of 65535
half_unsigned :
    vsprintf (b'%' ∷ b'h' ∷ b'u' ∷ []) (word 65_535 ∷ [])
    ≡ some (record {
      buf = b'4' ∷ b'2' ∷ b'9' ∷ b'4' ∷ b'9' ∷ b'6' ∷ b'7' ∷ b'2' ∷ b'9' ∷ b'5' ∷ [];
      count = 10;
      stores = [];
    })
unfolding vsprintf print_loop step case0 case1 case2 case3 case4 case5 convert conv_number isdigit
    Option.bind numstr digits_of digit_loop lay_out spread backwards digs
half_unsigned = refl

-- "%-%%2c": the flag of the directive that ends in `%` still holds for the next one.
flag_left_over :
    vsprintf (b'%' ∷ b'-' ∷ b'%' ∷ b'%' ∷ b'2' ∷ b'c' ∷ []) (word b'a' ∷ [])
    ≡ some (record { buf = b'%' ∷ b'a' ∷ b' ' ∷ []; count = 3; stores = [] })
unfolding vsprintf print_loop step case0 case1 case2 case3 case4 case5 convert conv_char isdigit
    Option.bind atoi_ptr atoi_loop
flag_left_over = refl
