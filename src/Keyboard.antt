-- ===== src/Keyboard.antt =====
-- The keyboard driver, kernel/src/drivers/kb.c. The words of flags are taken as their bits. The key codes go
-- only into a packet that nothing reads, and are left out.
pub mod Codes
pub mod Modifiers
pub mod Letters
mod Tests
use razos.Base.{
  ℕ, zero, suc, ◌+◌, ◌-◌, Bool, true, false, not, ◌&&◌, ◌||◌, ltb, leb, ◌==◌, ◌!=◌, if◌then◌else◌,
  List, [], ◌∷◌, ◌++◌, Option, none, some, get_or, replicate,
}
use razos.Keyboard.Codes.{
  Case, enter_press, enter_release, ctrl_press, ctrl_release, lshift_press, lshift_release, slash,
  rshift_press, rshift_release, aster, alt_press, alt_release, caps_press, num_press, pause_end,
  scroll_press, delete, pad, pad_only, other, case_of, sc_to_ascii, shift_lookup,
}
use razos.Ctype.{islower, isupper, toupper, tolower}
use razos.Fs.Kernel.{Kernel, Run, done}
use razos.Fs.Vfs.{write_vfs}

-- The bits of `flags`.
pub record Flags : Type 0 where
  pub scroll_lock : Bool
  pub num_lock : Bool
  pub caps_lock : Bool
  pub shift : Bool
  pub alt : Bool
  pub control : Bool
  pub lshift : Bool
  pub rshift : Bool
  pub lalt : Bool
  pub ralt : Bool
  pub lcontrol : Bool
  pub rcontrol : Bool
  pub release : Bool
  pub numpad : Bool

-- The bits of `tempfl`: the bytes seen of a sequence.
pub record TempFlags : Type 0 where
  pub seen_e0 : Bool
  pub seen_e1 : Bool
  pub seen_1d : Bool
  pub seen_2a : Bool
  pub seen_45 : Bool
  pub seen_9d : Bool

abbrev pub no_tempfl : TempFlags
no_tempfl = record {
  seen_e0 = false;
  seen_e1 = false;
  seen_1d = false;
  seen_2a = false;
  seen_45 = false;
  seen_9d = false;
}

-- The statics of `kb_handler`.
pub record Kb : Type 0 where
  pub flags : Flags
  pub tempfl : TempFlags

-- The `switch` returns from the handler with `tempfl` changed, or goes on with `ascii` and `flags`.
pub data Outcome : Type 0 where
  return_with : TempFlags → Outcome
  go_on : ℕ → Flags → Outcome

-- A key of the number pad: the character with num lock, and without it or after E0 `plain`.
abbrev pad_key : ℕ → ℕ → Flags → TempFlags → Outcome
pad_key plain c f t =
    if t.seen_e0 || not f.num_lock then go_on plain f else go_on c (record f { numpad = true })

abbrev ctrl_up : Flags → TempFlags → Flags
ctrl_up f t =
    if t.seen_e0
    then record f { rcontrol = false; control = false }
    else record f { lcontrol = false; control = false }

abbrev alt_up : Flags → TempFlags → Flags
alt_up f t =
    if t.seen_e0
    then record f { ralt = false; alt = false }
    else record f { lalt = false; alt = false }

unfoldable pub switch : Case → ℕ → Flags → TempFlags → Outcome
switch enter_press scancode f t = go_on 0x0A (if t.seen_e0 then record f { numpad = true } else f)
switch enter_release scancode f t = go_on 0 (if t.seen_e0 then record f { numpad = true } else f)
switch ctrl_press scancode f t =
    if t.seen_e1
    then return_with (record t { seen_1d = true })
    else if t.seen_e0
    then go_on 0 (record f { rcontrol = true })
    else go_on 0 (record f { lcontrol = true })
switch ctrl_release scancode f t =
    if t.seen_e1 && t.seen_1d && t.seen_45
    then return_with (record t { seen_9d = true })
    else go_on 0 (ctrl_up f t)
switch lshift_press scancode f t =
    if t.seen_e0
    then return_with (record t { seen_2a = true })
    else go_on 0 (record f { lshift = true })
switch lshift_release scancode f t = go_on 0 (record f { lshift = false; shift = false })
switch slash scancode f t = go_on 47 (if t.seen_e0 then record f { numpad = true } else f)
switch rshift_press scancode f t = go_on 0 (record f { rshift = true })
switch rshift_release scancode f t = go_on 0 (record f { rshift = false; shift = false })
switch aster scancode f t =
    if t.seen_e0 && t.seen_2a then go_on 0 f else go_on 42 (record f { numpad = true })
switch alt_press scancode f t =
    go_on 0 (if t.seen_e0 then record f { ralt = true } else record f { lalt = true })
switch alt_release scancode f t = go_on 0 (alt_up f t)
switch caps_press scancode f t = go_on 0 (record f { caps_lock = not f.caps_lock })
switch num_press scancode f t =
    if t.seen_e1 && t.seen_1d
    then return_with (record t { seen_45 = true })
    else go_on 0 (record f { num_lock = not f.num_lock })
switch pause_end scancode f t = go_on 0 f
switch scroll_press scancode f t = go_on 0 (record f { scroll_lock = not f.scroll_lock })
switch delete scancode f t = pad_key 0x7F 46 f t
switch (pad c) scancode f t = pad_key 0 c f t
switch (pad_only c) scancode f t = go_on c (record f { numpad = true })
switch other scancode f t = go_on (if leb scancode 0x39 then get_or sc_to_ascii scancode 0 else 0) f

-- The flags that follow from the others.
unfoldable pub set_rest : Flags → Flags
set_rest f = record f {
  shift = f.shift || (f.rshift || f.lshift);
  alt = f.alt || (f.ralt || f.lalt);
  control = f.control || (f.rcontrol || f.lcontrol);
}

-- The character as shift and caps lock change it.
unfoldable pub shifted : ℕ → Bool → ℕ
shifted ascii on = if on && leb 0x27 ascii then get_or shift_lookup (ascii - 0x27) 0 else ascii

unfoldable pub capped : ℕ → Bool → ℕ
capped ascii on =
    if on
    then (if islower ascii != 0
        then toupper ascii
        else if isupper ascii != 0
        then tolower ascii
        else ascii)
    else ascii

unfoldable pub match_flags : ℕ → Flags → ℕ
match_flags ascii f =
    if ltb 0 ascii && ltb ascii 0x7F
    then capped (shifted ascii (f.shift && not f.numpad)) f.caps_lock
    else ascii

abbrev pub finish : Outcome → Flags → Kb × Option ℕ
finish (return_with t) f = (record { flags = f; tempfl = t }, none)
finish (go_on ascii f) f0 =
    let g = set_rest f in
    let c = match_flags ascii g in
    (
      record { flags = record g { numpad = false; release = false }; tempfl = no_tempfl },
      if c == 0 then none else some c,
    )

-- `kb_handler()` on the byte of the controller: the statics, and the character that goes to `write`.
unfoldable pub kb_handler : ℕ → Kb → Kb × Option ℕ
kb_handler scancode kb =
    let f = if leb 0x80 scancode then record (kb.flags) { release = true } else kb.flags in
    if scancode == 0xE0
    then (record kb { tempfl = record (kb.tempfl) { seen_e0 = true } }, none)
    else if scancode == 0xE1
    then (record kb { tempfl = record (kb.tempfl) { seen_e1 = true } }, none)
    else finish (switch (case_of scancode) scancode f kb.tempfl) f

-- The handler with its `write(stdin_fd, &ascii, 1)`.
unfoldable pub kb_interrupt : ℕ → ℕ → Kb → Kernel → Kb × Run ℕ
kb_interrupt stdin_fd scancode kb k =
    let (kb', out) = kb_handler scancode kb in
    (kb', elim out [ none ↦ done 0 k | some c ↦ write_vfs stdin_fd (some (c ∷ [])) k ])
