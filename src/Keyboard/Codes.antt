-- ===== src/Keyboard/Codes.antt =====
-- The tables and the case labels of kernel/src/drivers/kb.c.
use razos.Base.{ℕ, ◌==◌, if◌then◌else◌, List, [], ◌∷◌, ◌++◌, replicate}

-- The characters of the scan codes up to 0x39.
abbrev pub sc_to_ascii : List ℕ
sc_to_ascii =
    0 ∷ 0 ∷ 49 ∷ 50 ∷ 51 ∷ 52 ∷ 53 ∷ 54 ∷ 55 ∷ 56 ∷ 57 ∷ 48 ∷ 45 ∷ 61 ∷ 8 ∷ 9 ∷ 113 ∷ 119 ∷ 101
    ∷ 114 ∷ 116 ∷ 121 ∷ 117 ∷ 105 ∷ 111 ∷ 112 ∷ 91 ∷ 93 ∷ 10 ∷ 0 ∷ 97 ∷ 115 ∷ 100 ∷ 102 ∷ 103 ∷ 104
    ∷ 106 ∷ 107 ∷ 108 ∷ 59 ∷ 39 ∷ 96 ∷ 0 ∷ 92 ∷ 122 ∷ 120 ∷ 99 ∷ 118 ∷ 98 ∷ 110 ∷ 109 ∷ 44 ∷ 46 ∷ 47
    ∷ 0 ∷ 42 ∷ 0 ∷ 32 ∷ []

-- The characters from 0x27 on with shift.
abbrev pub shift_lookup : List ℕ
shift_lookup =
    34
      ∷ 0
      ∷ 0
      ∷ 0
      ∷ 0
      ∷ 60
      ∷ 95
      ∷ 62
      ∷ 63
      ∷ 41
      ∷ 33
      ∷ 64
      ∷ 35
      ∷ 36
      ∷ 37
      ∷ 94
      ∷ 38
      ∷ 42
      ∷ 40
      ∷ 0
      ∷ 58
      ∷ 0
      ∷ 43
      ∷ 0
      ∷ 0
      ∷ replicate 24 0
    ++ (0 ∷ 0 ∷ 0 ∷ 123 ∷ 124 ∷ 125 ∷ 0 ∷ 0 ∷ 126 ∷ 65 ∷ 66 ∷ 67 ∷ 68 ∷ 69 ∷ 70 ∷ 71 ∷ 72 ∷ 73 ∷ 74
        ∷ 75 ∷ 76 ∷ 77 ∷ 78 ∷ 79 ∷ 80 ∷ 81 ∷ 82 ∷ 83 ∷ 84 ∷ 85 ∷ 86 ∷ 87 ∷ 88 ∷ 89 ∷ 90 ∷ [])

-- The cases of the `switch`, those of the number pad under their character.
pub data Case : Type 0 where
  enter_press enter_release ctrl_press ctrl_release lshift_press lshift_release slash rshift_press
        rshift_release aster alt_press alt_release caps_press num_press pause_end scroll_press
        delete :
      Case
  pad : ℕ → Case
  pad_only : ℕ → Case
  other : Case

-- The cases from 0x46 on.
abbrev pad_case : ℕ → Case
pad_case scancode =
    if scancode == 0x46
    then scroll_press
    else if scancode == 0x47
    then pad 55
    else if scancode == 0x48
    then pad 56
    else if scancode == 0x49
    then pad 57
    else if scancode == 0x4A
    then pad_only 45
    else if scancode == 0x4B
    then pad 52
    else if scancode == 0x4C
    then pad_only 53
    else if scancode == 0x4D
    then pad 54
    else if scancode == 0x4E
    then pad_only 43
    else if scancode == 0x4F
    then pad 49
    else if scancode == 0x50
    then pad 50
    else if scancode == 0x51
    then pad 51
    else if scancode == 0x52
    then pad 48
    else if scancode == 0x53
    then delete
    else other

unfoldable pub case_of : ℕ → Case
case_of scancode =
    if scancode == 0x1C
    then enter_press
    else if scancode == 0x9C
    then enter_release
    else if scancode == 0x1D
    then ctrl_press
    else if scancode == 0x9D
    then ctrl_release
    else if scancode == 0x2A
    then lshift_press
    else if scancode == 0xAA
    then lshift_release
    else if scancode == 0x35
    then slash
    else if scancode == 0x36
    then rshift_press
    else if scancode == 0xB6
    then rshift_release
    else if scancode == 0x37
    then aster
    else if scancode == 0x38
    then alt_press
    else if scancode == 0xB8
    then alt_release
    else if scancode == 0x3A
    then caps_press
    else if scancode == 0x45
    then num_press
    else if scancode == 0xC5
    then pause_end
    else pad_case scancode
