-- ===== src/Console/Tests.antt =====
-- Characters put on a blank screen.
use razos.Base.{◌≡◌, ◌++◌, refl, arith, [], replicate, length-replicate, set, drop}
use razos.Console.{Vga, blank, vga_putchar}
use razos.Console.Screen.{IsScreen, position, vga_putchar-IsScreen, vga_putchar-print}

-- The cursor on the last cell.
abbrev last_cell : Vga
last_cell = record { video_memory = replicate 2000 blank; cursor_x = 79; cursor_y = 24; ports = [] }

last_cell-IsScreen : IsScreen last_cell
last_cell-IsScreen = record {
  cells = length-replicate 2000 blank;
  in_line = omega arith;
  in_lines = omega arith;
}

-- A tab from the last cell moves the text up.
vga_putchar-IsScreen_example : IsScreen (vga_putchar 9 last_cell)
vga_putchar-IsScreen_example = (vga_putchar-IsScreen 9 last_cell last_cell-IsScreen).0

vga_putchar-print_example :
    ((vga_putchar 0x0F41 last_cell).video_memory
      ≡ drop 80 (set (replicate 2000 blank) 1999 0x0F41) ++ replicate 80 blank)
    × (position (vga_putchar 0x0F41 last_cell) ≡ 1920)
vga_putchar-print_example =
    (vga_putchar-print 0x0F41 last_cell last_cell-IsScreen (omega arith) (omega arith)).1 refl
