-- ===== src/Ctype/Table.antt =====
-- How the classes of kernel/lib/ctype.c relate, on every byte.
use razos.Base.{
  ℕ, ◌+◌, ◌<◌, ◌≡◌, refl, arith, Bool, true, ◌==◌, ◌&&◌, if◌then◌else◌, every_below,
  every_below-holds,
}
use razos.Ctype.{
  isalnum, isalpha, isdigit, iscntrl, isgrapf, islower, isprint, ispunct, isspace, isupper, tolower,
  toupper,
}

abbrev classes : ℕ → Bool
classes c =
    (isalpha c + isdigit c == isalnum c)
    && (islower c + isupper c == isalpha c)
    && (isalnum c + ispunct c == isgrapf c)
    && (isprint c + iscntrl c == 1)
    && (isprint c == isgrapf c + (if c == 0x20 then 1 else 0))

abbrev case_maps : ℕ → Bool
case_maps c =
    (isupper (tolower c) == 0)
    && (islower (toupper c) == 0)
    && (toupper (tolower c) == toupper c)
    && (tolower (toupper c) == tolower c)
    && (isalnum (tolower c) == isalnum c)

classes_table : every_below 256 classes ≡ true
unfolding every_below isalpha isdigit isalnum iscntrl isgrapf islower isprint ispunct isspace
    isupper
classes_table = refl

case_table : every_below 256 case_maps ≡ true
unfolding every_below isalpha isdigit isalnum islower isupper tolower toupper
case_table = refl

-- On every byte: letters and digits make up the alphanumerics, and no byte is both; so do the two
-- cases the letters, and punctuation and alphanumerics the graphic characters; a byte is either
-- printable or a control character; and the printable ones are the graphic ones and the space.
pub classes_lem :
    (c : ℕ)
    → c < 256
    → (isalpha c + isdigit c ≡ isalnum c)
      × (islower c + isupper c ≡ isalpha c)
      × (isalnum c + ispunct c ≡ isgrapf c)
      × (isprint c + iscntrl c ≡ 1)
      × (isprint c ≡ isgrapf c + (if c == 0x20 then 1 else 0))
classes_lem c h = ground (arith, every_below-holds 256 classes c classes_table h)

-- On every byte `tolower` leaves no capital and `toupper` no small letter, each undoes the other
-- up to itself, and neither changes whether a byte is alphanumeric.
pub case_lem :
    (c : ℕ)
    → c < 256
    → (isupper (tolower c) ≡ 0)
      × (islower (toupper c) ≡ 0)
      × (toupper (tolower c) ≡ toupper c)
      × (tolower (toupper c) ≡ tolower c)
      × (isalnum (tolower c) ≡ isalnum c)
case_lem c h = ground (arith, every_below-holds 256 case_maps c case_table h)
