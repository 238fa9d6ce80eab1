-- ===== src/Keyboard/Letters.antt =====
-- The characters of the letter keys.
use razos.Base.{
  ℕ, ◌-◌, ◌<◌, ◌≡◌, refl, ap, ◌∙◌, arith, Bool, true, false, not, ◌&&◌, ◌||◌, ltb, leb, ◌==◌, ◌!=◌,
  if◌then◌else◌, some, get_or, every_below, every_below-holds, ==_iff,
}
use razos.Ctype.{islower, isupper, toupper, tolower}
use razos.Keyboard.Codes.{
  enter_press, enter_release, ctrl_press, ctrl_release, lshift_press, lshift_release, slash,
  rshift_press, rshift_release, aster, alt_press, alt_release, caps_press, num_press, pause_end,
  scroll_press, delete, pad, pad_only, Case, other, case_of, sc_to_ascii,
}
use razos.Keyboard.{
  Flags, no_tempfl, Kb, switch, go_on, match_flags, shifted, capped, finish, kb_handler,
}
use razos.Keyboard.Modifiers.{IsSynced, IsIdle, set_rest_id}

-- The character of a scan code without shift.
abbrev pub plain : ℕ → ℕ
plain scancode = get_or sc_to_ascii scancode 0

-- The letter in the case that shift and caps lock give together.
abbrev pub in_case : Bool → Bool → ℕ → ℕ
in_case shift caps c = if (shift && not caps) || (caps && not shift) then c - 32 else c

abbrev is_other : Case → Bool
is_other c = elim c [ other ↦ true | _ ↦ false ]

is_other_lem : (c : Case) → is_other c ≡ true → c ≡ other
is_other_lem other h = refl
is_other_lem enter_press h = cc
is_other_lem enter_release h = cc
is_other_lem ctrl_press h = cc
is_other_lem ctrl_release h = cc
is_other_lem lshift_press h = cc
is_other_lem lshift_release h = cc
is_other_lem slash h = cc
is_other_lem rshift_press h = cc
is_other_lem rshift_release h = cc
is_other_lem aster h = cc
is_other_lem alt_press h = cc
is_other_lem alt_release h = cc
is_other_lem caps_press h = cc
is_other_lem num_press h = cc
is_other_lem pause_end h = cc
is_other_lem scroll_press h = cc
is_other_lem delete h = cc
is_other_lem (pad x) h = cc
is_other_lem (pad_only x) h = cc

-- What holds of every scan code, by evaluation.
abbrev key_test : Bool → Bool → ℕ → Bool
key_test shift caps sc =
    let c = plain sc in
    islower c != 1
    || (is_other (case_of sc)
        && ((capped (shifted c shift) caps == in_case shift caps c)
            && (ltb 0 c && (ltb c 0x7F && not (in_case shift caps c == 0)))))

key_tests : (shift caps : Bool) (sc : ℕ) → sc < 58 → key_test shift caps sc ≡ true
unfolding every_below case_of capped shifted islower isupper toupper tolower
key_tests false false sc h = every_below-holds 58 (key_test false false) sc refl h
key_tests false true sc h = every_below-holds 58 (key_test false true) sc refl h
key_tests true false sc h = every_below-holds 58 (key_test true false) sc refl h
key_tests true true sc h = every_below-holds 58 (key_test true true) sc refl h

-- What the tests say of a letter's scan code.
record IsLetter (sc : ℕ) (shift caps : Bool) : Type 0 where
  default_case : case_of sc ≡ other
  in_table : leb sc 0x39 ≡ true
  is_press : leb 0x80 sc ≡ false
  no_e0 : (sc == 0xE0) ≡ false
  no_e1 : (sc == 0xE1) ≡ false
  positive : ltb 0 (plain sc) ≡ true
  ascii : ltb (plain sc) 0x7F ≡ true
  result : capped (shifted (plain sc) shift) caps ≡ in_case shift caps (plain sc)
  nonzero : (in_case shift caps (plain sc) == 0) ≡ false

and_split : (a b : Bool) → a && b ≡ true → (a ≡ true) × (b ≡ true)
and_split true true h = (refl, refl)
and_split true false h = cc
and_split false b h = cc

or_right : (a b : Bool) → a ≡ false → a || b ≡ true → b ≡ true
or_right false b e h = h
or_right true b e h = cc

not-false : (a : Bool) → not a ≡ true → a ≡ false
not-false false h = refl
not-false true h = cc

below_58 :
    (sc : ℕ)
    → sc < 58
    → (leb sc 0x39 ≡ true) × (leb 0x80 sc ≡ false) × ((sc == 0xE0) ≡ false) × ((sc == 0xE1) ≡ false)
below_58 sc h = (ground arith, ground arith, ground arith, ground arith)

key_test-IsLetter :
    (sc : ℕ) (shift caps : Bool) → sc < 58 → islower (plain sc) ≡ 1 → IsLetter sc shift caps
key_test-IsLetter sc shift caps h l =
    let letter : (islower (plain sc) != 1) ≡ false = rw l refl in
    let b = below_58 sc h in
    let (a, t) = and_split _ _ (or_right _ _ letter (key_tests shift caps sc h)) in
    let (r, u) = and_split _ _ t in
    let (p, v) = and_split _ _ u in
    let (q, n) = and_split _ _ v in
    record {
      default_case = is_other_lem (case_of sc) a;
      in_table = b.0;
      is_press = b.1;
      no_e0 = b.2;
      no_e1 = b.3;
      positive = p;
      ascii = q;
      result = (==_iff _ _).0 r;
      nonzero = not-false _ n;
    }

match_letter :
    (sc : ℕ) (f : Flags)
    → IsLetter sc f.shift f.caps_lock
    → f.numpad ≡ false
    → match_flags (plain sc) f ≡ in_case f.shift f.caps_lock (plain sc)
unfolding match_flags
match_letter sc f t n =
    let e : f.shift && not f.numpad ≡ f.shift = ground (arith, n) in
    rw (t.positive, t.ascii) (ap (λ s. capped (shifted (plain sc) s) f.caps_lock) e ∙ t.result)

other_outcome :
    (sc : ℕ) (f : Flags) → leb sc 0x39 ≡ true → switch other sc f no_tempfl ≡ go_on (plain sc) f
unfolding switch
other_outcome sc f h = rw h refl

finish_letter :
    (sc : ℕ) (f : Flags)
    → IsLetter sc f.shift f.caps_lock
    → IsSynced f
    → f.numpad ≡ false
    → (finish (go_on (plain sc) f) f).1 ≡ some (in_case f.shift f.caps_lock (plain sc))
finish_letter sc f t s n = rw (set_rest_id f s, match_letter sc f t n, t.nonzero) refl

-- Where no sequence is under way, the key of a letter writes the letter: a capital one if either shift or caps
-- lock is on, a small one if both or none are.
pub letter_key :
    (scancode : ℕ) (kb : Kb)
    → scancode < 58
    → islower (plain scancode) ≡ 1
    → IsIdle kb
    → IsSynced kb.flags
    → (kb_handler scancode kb).1 ≡ some (in_case kb.flags.shift kb.flags.caps_lock (plain scancode))
unfolding kb_handler
letter_key sc kb h l i s =
    let t = key_test-IsLetter sc kb.flags.shift kb.flags.caps_lock h l in
    rw
      (
        t.no_e0,
        t.no_e1,
        t.is_press,
        t.default_case,
        i.no_sequence,
        other_outcome sc kb.flags t.in_table,
      )
      (finish_letter sc kb.flags t s i.no_numpad)
