-- ===== src/Keyboard/Modifiers.antt =====
-- The flags of the modifier keys across the events of the keyboard.
use razos.Base.{
  ℕ, ◌≡◌, ◌≢◌, arith, refl, ap, ◌∙◌, sym, Bool, true, false, ◌||◌, leb, ◌==◌, if◌then◌else◌, none,
  some, Bool-cases, inl, inr, List, [], ◌∷◌,
}
use razos.Keyboard.Codes.{
  enter_press, enter_release, ctrl_press, ctrl_release, lshift_press, lshift_release, slash,
  rshift_press, rshift_release, aster, alt_press, alt_release, caps_press, num_press, pause_end,
  scroll_press, delete, pad, pad_only, other, Case, case_of,
}
use razos.Keyboard.{
  Flags, TempFlags, no_tempfl, Kb, Outcome, return_with, go_on, switch, set_rest, match_flags,
  finish, kb_handler,
}

-- SHIFT, ALT and CONTROL say whether a key of theirs is down.
pub record IsSynced (f : Flags) : Type 0 where
  pub shift_down : f.shift ≡ f.lshift || f.rshift
  pub alt_down : f.alt ≡ f.lalt || f.ralt
  pub control_down : f.control ≡ f.lcontrol || f.rcontrol

-- Before `set_rest`: a flag may stand only while a key of its is down.
record AtMost (f : Flags) : Type 0 where
  shift_most : (f.lshift || f.rshift) ≡ false → f.shift ≡ false
  alt_most : (f.lalt || f.ralt) ≡ false → f.alt ≡ false
  control_most : (f.lcontrol || f.rcontrol) ≡ false → f.control ≡ false

or_most : (a l r : Bool) → ((l || r) ≡ false → a ≡ false) → (a || (r || l)) ≡ (l || r)
or_most false false false h = refl
or_most false false true h = refl
or_most false true false h = refl
or_most false true true h = refl
or_most true false false h = h refl
or_most true false true h = refl
or_most true true false h = refl
or_most true true true h = refl

set_rest-IsSynced : (f : Flags) → AtMost f → IsSynced (set_rest f)
unfolding set_rest
set_rest-IsSynced f m = record {
  shift_down = or_most f.shift f.lshift f.rshift m.shift_most;
  alt_down = or_most f.alt f.lalt f.ralt m.alt_most;
  control_down = or_most f.control f.lcontrol f.rcontrol m.control_most;
}

-- An outcome that keeps the flags in step.
abbrev KeepsMost : Outcome → Type 0
KeepsMost (return_with t) = Unit
KeepsMost (go_on ascii f) = AtMost f

most_sub : (a l r : Bool) → a ≡ (l || r) → (l || r) ≡ false → a ≡ false
most_sub a l r e h = e ∙ h

IsSynced-AtMost : (f : Flags) → IsSynced f → AtMost f
IsSynced-AtMost f s = record {
  shift_most = λ h. s.shift_down ∙ h;
  alt_most = λ h. s.alt_down ∙ h;
  control_most = λ h. s.control_down ∙ h;
}

switch-AtMost :
    (c : Case) (scancode : ℕ) (f : Flags) (t : TempFlags)
    → IsSynced f
    → KeepsMost (switch c scancode f t)
unfolding switch
switch-AtMost enter_press scancode f t s = ground (arith, IsSynced-AtMost f s, s)
switch-AtMost enter_release scancode f t s = ground (arith, IsSynced-AtMost f s, s)
switch-AtMost ctrl_press scancode f t s = ground (arith, IsSynced-AtMost f s, s)
switch-AtMost ctrl_release scancode f t s = ground (arith, IsSynced-AtMost f s, s)
switch-AtMost lshift_press scancode f t s = ground (arith, IsSynced-AtMost f s, s)
switch-AtMost lshift_release scancode f t s = ground (arith, IsSynced-AtMost f s, s)
switch-AtMost slash scancode f t s = ground (arith, IsSynced-AtMost f s, s)
switch-AtMost rshift_press scancode f t s = ground (arith, IsSynced-AtMost f s, s)
switch-AtMost rshift_release scancode f t s = ground (arith, IsSynced-AtMost f s, s)
switch-AtMost aster scancode f t s = ground (arith, IsSynced-AtMost f s, s)
switch-AtMost alt_press scancode f t s = ground (arith, IsSynced-AtMost f s, s)
switch-AtMost alt_release scancode f t s = ground (arith, IsSynced-AtMost f s, s)
switch-AtMost caps_press scancode f t s = ground (arith, IsSynced-AtMost f s, s)
switch-AtMost num_press scancode f t s = ground (arith, IsSynced-AtMost f s, s)
switch-AtMost pause_end scancode f t s = ground (arith, IsSynced-AtMost f s, s)
switch-AtMost scroll_press scancode f t s = ground (arith, IsSynced-AtMost f s, s)
switch-AtMost delete scancode f t s = ground (arith, IsSynced-AtMost f s, s)
switch-AtMost (pad x) scancode f t s = ground (arith, IsSynced-AtMost f s, s)
switch-AtMost (pad_only x) scancode f t s = ground (arith, IsSynced-AtMost f s, s)
switch-AtMost other scancode f t s = ground (arith, IsSynced-AtMost f s, s)

finish-IsSynced :
    (o : Outcome) (f : Flags) → IsSynced f → KeepsMost o → IsSynced (finish o f).0.flags
finish-IsSynced (return_with t) f s m = s
finish-IsSynced (go_on ascii f') f s m =
    let r = set_rest-IsSynced f' m in
    record { shift_down = r.shift_down; alt_down = r.alt_down; control_down = r.control_down }

-- The flags with RELEASE set for a byte with the top bit.
abbrev pub with_release : ℕ → Flags → Flags
with_release scancode f = if leb 0x80 scancode then record f { release = true } else f

with_release-IsSynced : (scancode : ℕ) (f : Flags) → IsSynced f → IsSynced (with_release scancode f)
with_release-IsSynced scancode f s = elim (Bool-cases (leb 0x80 scancode)) [
  | inl e ↦
      rw e
        (record { shift_down = s.shift_down; alt_down = s.alt_down; control_down = s.control_down })
  | inr e ↦ rw e s
]

-- Whatever byte comes from the keyboard, also inside a sequence, SHIFT, ALT and CONTROL stand after the handler
-- exactly if the left or the right key of theirs counts as down, when they did before.
pub kb_handler-IsSynced :
    (scancode : ℕ) (kb : Kb) → IsSynced kb.flags → IsSynced (kb_handler scancode kb).0.flags
unfolding kb_handler
kb_handler-IsSynced scancode kb s =
    let f = with_release scancode kb.flags in
    let r = with_release-IsSynced scancode kb.flags s in
    elim (Bool-cases (scancode == 0xE0)) [
      | inl e ↦ rw e s
      | inr a ↦ elim (Bool-cases (scancode == 0xE1)) [
        | inl e ↦ rw (a, e) s
        | inr b ↦
            rw (a, b)
              (finish-IsSynced (switch (case_of scancode) scancode f kb.tempfl) f r
                (switch-AtMost (case_of scancode) scancode f kb.tempfl r))
      ]
    ]

-- No sequence is under way.
pub record IsIdle (kb : Kb) : Type 0 where
  pub no_sequence : kb.tempfl ≡ no_tempfl
  pub no_numpad : kb.flags.numpad ≡ false
  pub no_release : kb.flags.release ≡ false

-- Without a byte of a sequence before it, a byte goes on to the end of the handler.
switch-go :
    (c : Case) (scancode : ℕ) (f : Flags)
    → (ascii : ℕ) × (f' : Flags) × (switch c scancode f no_tempfl ≡ go_on ascii f')
unfolding switch
switch-go enter_press scancode f = (_, _, refl)
switch-go enter_release scancode f = (_, _, refl)
switch-go ctrl_press scancode f = (_, _, refl)
switch-go ctrl_release scancode f = (_, _, refl)
switch-go lshift_press scancode f = (_, _, refl)
switch-go lshift_release scancode f = (_, _, refl)
switch-go slash scancode f = (_, _, refl)
switch-go rshift_press scancode f = (_, _, refl)
switch-go rshift_release scancode f = (_, _, refl)
switch-go aster scancode f = (_, _, refl)
switch-go alt_press scancode f = (_, _, refl)
switch-go alt_release scancode f = (_, _, refl)
switch-go caps_press scancode f = (_, _, refl)
switch-go num_press scancode f = (_, _, refl)
switch-go pause_end scancode f = (_, _, refl)
switch-go scroll_press scancode f = (_, _, refl)
switch-go other scancode f = (_, _, refl)
switch-go (pad_only x) scancode f = (_, _, refl)
switch-go delete scancode f = elim (Bool-cases f.num_lock) [
  | inl e ↦ (46, record f { numpad = true }, rw e refl)
  | inr e ↦ (0x7F, f, rw e refl)
]
switch-go (pad x) scancode f = elim (Bool-cases f.num_lock) [
  | inl e ↦ (x, record f { numpad = true }, rw e refl)
  | inr e ↦ (0, f, rw e refl)
]

finish-IsIdle :
    (o : Outcome) (ascii : ℕ) (f f' : Flags) → o ≡ go_on ascii f' → IsIdle (finish o f).0
finish-IsIdle o ascii f f' e =
    rw e (record { no_sequence = refl; no_numpad = refl; no_release = refl })

-- Where no sequence is under way, every byte but E0 and E1 ends with none under way: the flags of the single
-- event, NUMPAD and RELEASE, are clear again.
pub kb_handler-IsIdle :
    (scancode : ℕ) (kb : Kb)
    → IsIdle kb
    → scancode ≢ 0xE0
    → scancode ≢ 0xE1
    → IsIdle (kb_handler scancode kb).0
unfolding kb_handler
kb_handler-IsIdle scancode kb i n0 n1 =
    let f = with_release scancode kb.flags in
    let a : (scancode == 0xE0) ≡ false = ground (arith, n0) in
    let b : (scancode == 0xE1) ≡ false = ground (arith, n1) in
    let (ascii, f', e) = switch-go (case_of scancode) scancode f in
    rw (a, b, i.no_sequence)
      (finish-IsIdle (switch (case_of scancode) scancode f no_tempfl) ascii f f' e)

pub set_rest_id : (f : Flags) → IsSynced f → set_rest f ≡ f
unfolding set_rest
set_rest_id f s =
    let a = IsSynced-AtMost f s in
    rw
      (
        or_most f.shift f.lshift f.rshift a.shift_most,
        or_most f.alt f.lalt f.ralt a.alt_most,
        or_most f.control f.lcontrol f.rcontrol a.control_most,
        ← s.shift_down,
        ← s.alt_down,
        ← s.control_down,
      )
      refl

-- The statics between two keys have no other parts than the flags.
idle_eta :
    (kb : Kb)
    → IsIdle kb
    → record { flags = record (kb.flags) { release = false; numpad = false }; tempfl = no_tempfl }
      ≡ kb
idle_eta kb i =
    ap
      (λ r. record {
        flags = record (kb.flags) { release = r; numpad = false };
        tempfl = no_tempfl;
      })
      (sym i.no_release)
    ∙ ap (λ n. record { flags = record (kb.flags) { numpad = n }; tempfl = no_tempfl })
        (sym i.no_numpad)
    ∙ ap (λ t. record kb { tempfl = t }) (sym i.no_sequence)

-- The handler over several bytes: the characters that it writes.
unfoldable pub type_keys : List ℕ → Kb → Kb × List ℕ
type_keys [] kb = (kb, [])
type_keys (sc ∷ scs) kb =
    let (kb', out) = kb_handler sc kb in
    let (kb'', rest) = type_keys scs kb' in (kb'', elim out [ none ↦ rest | some c ↦ c ∷ rest ])

-- The six bytes of the pause key leave all flags as they were, also those of the control keys and num lock whose
-- codes they contain, and write nothing.
pub pause_key :
    (kb : Kb)
    → IsIdle kb
    → IsSynced kb.flags
    → type_keys (0xE1 ∷ 0x1D ∷ 0x45 ∷ 0xE1 ∷ 0x9D ∷ 0xC5 ∷ []) kb ≡ (kb, [])
unfolding type_keys kb_handler case_of switch match_flags
pause_key kb i s =
    let f = with_release 0x9D kb.flags in
    ap
      (λ g.
        (record { flags = record g { release = false; numpad = false }; tempfl = no_tempfl }, []))
      (set_rest_id f (with_release-IsSynced 0x9D kb.flags s))
    ∙ ap (λ k. (k, [])) (idle_eta kb i)
