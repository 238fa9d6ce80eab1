-- ===== src/Console.antt =====
-- The text screen of kernel/src/vga.c.
pub mod Scroll
pub mod Screen
mod Tests
use razos.Base.{
  ℕ, zero, suc, ◌+◌, ◌-◌, ◌*◌, ◌/◌, ◌%◌, ◌<◌, ◌^◌, Bool, true, false, ◌&&◌, ltb, leb, ◌==◌,
  if◌then◌else◌, List, [], ◌∷◌, ◌++◌, get_or, set, bit_and, bit_or,
}

-- The statics of vga.c, the 25 lines of 80 cells at `video_memory`, and the calls of `outb`, last first.
pub record Vga : Type 0 where
  pub video_memory : List ℕ
  pub cursor_x : ℕ
  pub cursor_y : ℕ
  pub ports : List (ℕ × ℕ)

abbrev pub blank : ℕ
blank = 0x20 + 0x0F * 256

-- The two bytes of the position go to the registers 14 and 15 of the controller.
abbrev pub move_cursor : Vga → Vga
move_cursor v =
    let cursor_loc = (v.cursor_y * 80 + v.cursor_x) % 2 ^ 16 in
    record v {
      ports =
          (0x3D5, cursor_loc % 256)
          ∷ (0x3D4, 15)
          ∷ (0x3D5, cursor_loc / 256)
          ∷ (0x3D4, 14)
          ∷ v.ports;
    }

-- `for (i ...) video_memory[i] = video_memory[i+80]`, `left` times from `i` on.
unfoldable pub move_up : ℕ → ℕ → List ℕ → List ℕ
move_up zero i cells = cells
move_up (suc left) i cells = move_up left (i + 1) (set cells i (get_or cells (i + 80) 0))

-- `for (i ...) video_memory[i] = c`
unfoldable pub blank_out : ℕ → ℕ → ℕ → List ℕ → List ℕ
blank_out c zero i cells = cells
blank_out c (suc left) i cells = blank_out c left (i + 1) (set cells i c)

unfoldable pub scroll : Vga → Vga
scroll v =
    if leb 25 v.cursor_y
    then record v {
      video_memory = blank_out blank 80 1920 (move_up 1920 0 v.video_memory);
      cursor_y = 24;
    }
    else v

-- `vga_mkchar(c, bg, fg)` on bytes: a `char` from 0x80 on is negative, and sets the bits above it.
unfoldable pub vga_mkchar : ℕ → ℕ → ℕ → ℕ
vga_mkchar c bg fg =
    let wide = if leb 128 c then c + 0xFF00 else c in
    bit_or (bit_or (bg * 2 ^ 12) (bit_and fg 0x0F * 2 ^ 8)) wide % 2 ^ 16

-- Where a character takes the cursor, and what it leaves in the memory. A `char` is printed from the
-- space on, and is negative from 0x80 on.
unfoldable pub put_cell : ℕ → Vga → Vga
put_cell chr v =
    let c = chr % 256 in
    if c == 0x08 && ltb 0 v.cursor_x
    then record v { cursor_x = v.cursor_x - 1 }
    else if c == 0x09
    then record v { cursor_x = bit_and (v.cursor_x + 8) (2 ^ 32 - 8) % 256 }
    else if c == 0x0D
    then record v { cursor_x = 0 }
    else if c == 0x0A
    then record v { cursor_x = 0; cursor_y = (v.cursor_y + 1) % 256 }
    else if leb 0x20 c && ltb c 0x80
    then record v {
      video_memory = set v.video_memory (v.cursor_y * 80 + v.cursor_x) chr;
      cursor_x = (v.cursor_x + 1) % 256;
    }
    else v

abbrev pub wrap_line : Vga → Vga
wrap_line v =
    if leb 80 v.cursor_x then record v { cursor_x = 0; cursor_y = (v.cursor_y + 1) % 256 } else v

unfoldable pub vga_putchar : ℕ → Vga → Vga
vga_putchar chr v = move_cursor (scroll (wrap_line (put_cell chr v)))

unfoldable pub vga_clear_scr : Vga → Vga
vga_clear_scr v = move_cursor (record v {
  video_memory = blank_out (vga_mkchar 0x20 0 15) 2000 0 v.video_memory;
  cursor_x = 0;
  cursor_y = 0;
})

-- The statics of kernel/src/console.c with those of vga.c.
pub record Console : Type 0 where
  pub vga : Vga
  pub cur_bg : ℕ
  pub cur_fg : ℕ

unfoldable pub set_color : ℕ → ℕ → Console → ℕ × Console
set_color bg fg con = (
  bit_or (con.cur_bg * 2 ^ 4) (bit_and con.cur_fg 0x0F),
  record con { cur_bg = bit_and bg 0x0F; cur_fg = bit_and fg 0x0F },
)

unfoldable pub kputchar : ℕ → Console → Console
kputchar c con = record con { vga = vga_putchar (vga_mkchar c con.cur_bg con.cur_fg) con.vga }

-- `kputs(c)`: the number of characters and the console.
unfoldable pub put_loop : List ℕ → Console → ℕ × Console
put_loop [] con = (0, con)
put_loop (c ∷ cs) con =
    let (n, con') = put_loop cs (kputchar c con) in if c == 0 then (0, con) else (n + 1, con')

unfoldable pub kputs : List ℕ → Console → ℕ × Console
unfolding put_loop
kputs cs con = let (n, con') = put_loop cs con in (n, kputchar 0x0A con')
