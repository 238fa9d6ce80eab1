-- ===== src/Keyboard/Tests.antt =====
-- Keys pressed on a keyboard with shift down.
use razos.Base.{◌≡◌, refl, arith, true, false, some}
use razos.Ctype.{islower}
use razos.Keyboard.{no_tempfl, Kb, kb_handler}
use razos.Keyboard.Modifiers.{IsSynced, IsIdle, kb_handler-IsSynced, kb_handler-IsIdle}
use razos.Keyboard.Letters.{letter_key, plain}

-- The left shift key is down.
abbrev with_shift : Kb
with_shift = record {
  flags = record {
    scroll_lock = false;
    num_lock = true;
    caps_lock = false;
    shift = true;
    alt = false;
    control = false;
    lshift = true;
    rshift = false;
    lalt = false;
    ralt = false;
    lcontrol = false;
    rcontrol = false;
    release = false;
    numpad = false;
  };
  tempfl = no_tempfl;
}

with_shift-IsSynced : IsSynced with_shift.flags
with_shift-IsSynced = record { shift_down = refl; alt_down = refl; control_down = refl }

with_shift-IsIdle : IsIdle with_shift
with_shift-IsIdle = record { no_sequence = refl; no_numpad = refl; no_release = refl }

-- The other shift key is let go.
kb_handler-IsSynced_example : IsSynced (kb_handler 0xB6 with_shift).0.flags
kb_handler-IsSynced_example = kb_handler-IsSynced 0xB6 with_shift with_shift-IsSynced

kb_handler-IsIdle_example : IsIdle (kb_handler 0x47 with_shift).0
kb_handler-IsIdle_example =
    kb_handler-IsIdle 0x47 with_shift with_shift-IsIdle (omega arith) (omega arith)

q_is_lower : islower (plain 0x10) ≡ 1
unfolding islower
q_is_lower = refl

letter_key_example : (kb_handler 0x10 with_shift).1 ≡ some b'Q'
letter_key_example =
    letter_key 0x10 with_shift (omega arith) q_is_lower with_shift-IsIdle with_shift-IsSynced
