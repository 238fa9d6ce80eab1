-- ===== src/Ctype/Tests.antt =====
-- The character classes of `A`.
use razos.Base.{◌+◌, ◌≡◌, arith}
use razos.Ctype.{isalpha, isdigit, isalnum, iscntrl, isgrapf, islower, isprint, ispunct, isupper}
use razos.Ctype.Table.{classes_lem}

classes_example :
    (isalpha b'A' + isdigit b'A' ≡ isalnum b'A')
    × (islower b'A' + isupper b'A' ≡ isalpha b'A')
    × (isalnum b'A' + ispunct b'A' ≡ isgrapf b'A')
    × (isprint b'A' + iscntrl b'A' ≡ 1)
    × (isprint b'A' ≡ isgrapf b'A' + 0)
classes_example = classes_lem b'A' (omega arith)
