-- ===== src/Ctype.antt =====
-- The character classes of kernel/lib/ctype.c (rlibc/ctype/ctype.c is the same but for its comments).
-- A `char` is a signed byte, given by its pattern below 256; a result is C's 0 or 1.
pub mod Table
mod Tests
use razos.Base.{ℕ, ◌+◌, ◌-◌, ◌%◌, Bool, true, false, ◌&&◌, ◌||◌, leb, ◌==◌, ◌!=◌, if◌then◌else◌}

-- `a <= b` on signed bytes: adding 128 turns the signed order into the unsigned one.
abbrev pub char_le : ℕ → ℕ → Bool
char_le a b = leb ((a + 128) % 256) ((b + 128) % 256)

-- `lo <= c && c <= hi`
abbrev pub within : ℕ → ℕ → ℕ → Bool
within lo hi c = char_le lo c && char_le c hi

abbrev flag : Bool → ℕ
flag b = if b then 1 else 0

unfoldable pub isalpha : ℕ → ℕ
isalpha c = flag (within b'A' b'Z' c || within b'a' b'z' c)

unfoldable pub isdigit : ℕ → ℕ
isdigit c = flag (within b'0' b'9' c)

unfoldable pub isalnum : ℕ → ℕ
unfolding isalpha isdigit
isalnum c = flag (isalpha c != 0 || isdigit c != 0)

unfoldable pub iscntrl : ℕ → ℕ
iscntrl c = flag (char_le c 0x1F || c == 0x7F)

unfoldable pub isgrapf : ℕ → ℕ
isgrapf c = flag (within 0x21 0x7E c)

unfoldable pub islower : ℕ → ℕ
islower c = flag (within b'a' b'z' c)

unfoldable pub isprint : ℕ → ℕ
isprint c = flag (within 0x20 0x7E c)

unfoldable pub ispunct : ℕ → ℕ
ispunct c =
    flag (within 0x21 0x2F c || within 0x3A 0x40 c || within 0x5B 0x60 c || within 0x7B 0x7E c)

unfoldable pub isspace : ℕ → ℕ
isspace c = flag (within 0x09 0x0D c || c == 0x20)

unfoldable pub isupper : ℕ → ℕ
isupper c = flag (within b'A' b'Z' c)

unfoldable pub isxdigit : ℕ → ℕ
unfolding isdigit
isxdigit c = flag (isdigit c != 0 || within b'A' b'F' c || within b'a' b'f' c)

-- The sum is taken in a `char`.
unfoldable pub tolower : ℕ → ℕ
unfolding isupper
tolower c = if isupper c != 0 then (c + 0x20) % 256 else c

unfoldable pub toupper : ℕ → ℕ
unfolding islower
toupper c = if islower c != 0 then (c + 256 - 0x20) % 256 else c
