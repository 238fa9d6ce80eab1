-- ===== src/Console/Screen.antt =====
-- The cursor stays on the screen, and what printing leaves there.
use razos.Base.{
  ℕ, suc, ◌+◌, ◌-◌, ◌*◌, ◌/◌, ◌%◌, ◌<◌, ◌≤◌, ◌^◌, ◌≡◌, refl, ap, ◌∙◌, arith, true, false, leb, ◌==◌,
  ◌∷◌, ◌++◌, length, set, drop, replicate, bit_and, length-set, length-append, length-drop,
  every_below, every_below-holds, Bool-cases, inl, inr, drop_all, length-replicate,
}
use razos.Console.{
  Vga, blank, move_cursor, scroll, put_cell, wrap_line, vga_putchar, vga_clear_scr, vga_mkchar,
}
use razos.Console.Scroll.{blank_out_lem, scrolled, append-nil_right, scroll_cells}

-- 2000 cells, and the cursor on one of them.
pub record IsScreen (v : Vga) : Type 0 where
  pub cells : length v.video_memory ≡ 2000
  pub in_line : v.cursor_x < 80
  pub in_lines : v.cursor_y < 25

-- The cell of the cursor.
abbrev pub position : Vga → ℕ
position v = v.cursor_y * 80 + v.cursor_x

-- After the last step of a character the cursor is at most one line too low.
pub record NearScreen (v : Vga) : Type 0 where
  pub cells : length v.video_memory ≡ 2000
  pub in_line : v.cursor_x < 80
  pub in_lines : v.cursor_y ≤ 25

scroll-IsScreen : (v : Vga) → NearScreen v → IsScreen (move_cursor (scroll v))
unfolding scroll
scroll-IsScreen v n = elim (Bool-cases (leb 25 v.cursor_y)) [
  | inl e ↦ rw e (record {
    cells =
        ap length (scroll_cells v.video_memory n.cells)
        ∙ omega (
          arith,
          length-append (drop 80 v.video_memory) (replicate 80 blank),
          length-drop 80 v.video_memory,
          length-replicate 80 blank,
          n.cells,
        );
    in_line = n.in_line;
    in_lines = omega arith;
  })
  | inr e ↦ rw e (record { cells = n.cells; in_line = n.in_line; in_lines = ground arith })
]

-- A tab goes to the next multiple of 8.
tab_stop : (x : ℕ) → x < 80 → bit_and (x + 8) (2 ^ 32 - 8) % 256 ≡ x + 8 - x % 8
unfolding every_below
tab_stop x h = ground (
  arith,
  every_below-holds 80 (λ x. bit_and (x + 8) (2 ^ 32 - 8) % 256 == x + 8 - x % 8) x refl h,
)

abbrev CellNear : Vga → Type 0
CellNear v = (v.cursor_x ≤ 80) × (v.cursor_y ≤ 25) × (80 ≤ v.cursor_x → v.cursor_y < 25)

put_cell_near : (chr : ℕ) (v : Vga) → IsScreen v → CellNear (put_cell chr v)
unfolding put_cell
put_cell_near chr v s = ground (arith, tab_stop v.cursor_x s.in_line, s.in_line, s.in_lines)

put_cell_size : (chr : ℕ) (v : Vga) → IsScreen v → length (put_cell chr v).video_memory ≡ 2000
unfolding put_cell
put_cell_size chr v s =
    ground (arith, s.cells, length-set v.video_memory (v.cursor_y * 80 + v.cursor_x) chr)

wrap_line-near : (v : Vga) → length v.video_memory ≡ 2000 → CellNear v → NearScreen (wrap_line v)
wrap_line-near v h (x, y, xy) = elim (Bool-cases (leb 80 v.cursor_x)) [
  | inl e ↦ rw e (record { cells = h; in_line = omega arith; in_lines = ground (arith, xy) })
  | inr e ↦ rw e (record { cells = h; in_line = ground arith; in_lines = y })
]

put_cell-ports : (chr : ℕ) (v : Vga) → (put_cell chr v).ports ≡ v.ports
unfolding put_cell
put_cell-ports chr v = ground arith

scroll-ports : (v : Vga) → (scroll v).ports ≡ v.ports
unfolding scroll
scroll-ports v = ground arith

wrap_line-ports : (v : Vga) → (wrap_line v).ports ≡ v.ports
wrap_line-ports v = ground arith

-- From a screen whose cursor is on one of its cells, every character leaves such a screen, also where it
-- moves the text up; and the last four writes to the controller give it the cell of the cursor.
pub vga_putchar-IsScreen :
    (chr : ℕ) (v : Vga)
    → IsScreen v
    → IsScreen (vga_putchar chr v)
      × (high : ℕ) × (low : ℕ) × ((vga_putchar chr v).ports
          ≡ (0x3D5, low) ∷ (0x3D4, 15) ∷ (0x3D5, high) ∷ (0x3D4, 14) ∷ v.ports)
      × (high * 256 + low ≡ position (vga_putchar chr v))
      × (low < 256)
unfolding vga_putchar
vga_putchar-IsScreen chr v s =
    let near = wrap_line-near (put_cell chr v) (put_cell_size chr v s) (put_cell_near chr v s) in
    let w = scroll (wrap_line (put_cell chr v)) in
    let t : IsScreen (move_cursor w) = scroll-IsScreen (wrap_line (put_cell chr v)) near in
    let loc = (w.cursor_y * 80 + w.cursor_x) % 2 ^ 16 in
    (
      t,
      loc / 256,
      loc % 256,
      ap (λ ps. (0x3D5, loc % 256) ∷ (0x3D4, 15) ∷ (0x3D5, loc / 256) ∷ (0x3D4, 14) ∷ ps)
          (scroll-ports (wrap_line (put_cell chr v))
            ∙ wrap_line-ports (put_cell chr v)
            ∙ put_cell-ports chr v),
      omega (arith, t.in_line, t.in_lines),
      omega arith,
    )

-- The state after a printable character and before the text moves up.
after_cell :
    (chr : ℕ) (v : Vga)
    → IsScreen v
    → 0x20 ≤ chr % 256
    → chr % 256 < 0x80
    → (wrap_line (put_cell chr v)).video_memory ≡ set v.video_memory (position v) chr
unfolding put_cell
after_cell chr v s a b = ground arith

after_cell-position :
    (chr : ℕ) (v : Vga)
    → IsScreen v
    → 0x20 ≤ chr % 256
    → chr % 256 < 0x80
    → position (wrap_line (put_cell chr v)) ≡ suc (position v)
unfolding put_cell
after_cell-position chr v s a b = ground (arith, s.in_line, s.in_lines)

scroll_none : (v : Vga) → v.cursor_x < 80 → position v < 2000 → scroll v ≡ v
unfolding scroll
scroll_none v x h = let e : leb 25 v.cursor_y ≡ false = ground arith in rw e refl

scroll_line :
    (v : Vga)
    → NearScreen v
    → position v ≡ 2000
    → ((scroll v).video_memory ≡ scrolled v.video_memory) × (position (scroll v) ≡ 1920)
unfolding scroll
scroll_line v n h =
    let e : leb 25 v.cursor_y ≡ true = ground (arith, n.in_line) in
    rw e (scroll_cells v.video_memory n.cells, omega (arith, n.in_line, n.in_lines))

-- A printable character goes to the cell of the cursor and changes no other, and the cursor goes to the next
-- cell. From the last cell the text then moves up by a line, and the cursor goes to the start of the last line.
pub vga_putchar-print :
    (chr : ℕ) (v : Vga)
    → IsScreen v
    → 0x20 ≤ chr % 256
    → chr % 256 < 0x80
    → (position v < 1999
        → ((vga_putchar chr v).video_memory ≡ set v.video_memory (position v) chr)
          × (position (vga_putchar chr v) ≡ suc (position v)))
      × (position v ≡ 1999
          → ((vga_putchar chr v).video_memory
              ≡ drop 80 (set v.video_memory 1999 chr) ++ replicate 80 blank)
            × (position (vga_putchar chr v) ≡ 1920))
unfolding vga_putchar
vga_putchar-print chr v s a b =
    let near = wrap_line-near (put_cell chr v) (put_cell_size chr v s) (put_cell_near chr v s) in
    let w = wrap_line (put_cell chr v) in
    let cells = after_cell chr v s a b in
    let at = after_cell-position chr v s a b in
    (
      λ h.
          let e = scroll_none w near.in_line (omega (arith, at)) in
          (ap (λ u. u.video_memory) e ∙ cells, ap position e ∙ at),
      λ h.
          let (p, q) = scroll_line w near (at ∙ ap suc h) in
          (p ∙ ap scrolled (cells ∙ ap (λ i. set v.video_memory i chr) h), q),
    )

-- Clearing the screen leaves 2000 blank cells and the cursor on the first.
pub vga_clear_scr_lem :
    (v : Vga)
    → length v.video_memory ≡ 2000
    → ((vga_clear_scr v).video_memory ≡ replicate 2000 blank) × (position (vga_clear_scr v) ≡ 0)
unfolding vga_clear_scr vga_mkchar
vga_clear_scr_lem v h = (
  blank_out_lem blank 2000 0 v.video_memory (omega arith)
      ∙ append-nil_right (replicate 2000 blank) (drop 2000 v.video_memory)
          (drop_all v.video_memory 2000 (omega arith)),
  refl,
)
