-- ===== src/Terminal.antt =====
-- The terminal of kernel.c: the video memory as 16-bit cells, and the cursor in two 16-bit words.
pub mod Cursor
pub mod Print
mod Tests
use custom_os.Base.{
  ℕ, zero, suc, ◌+◌, ◌-◌, ◌*◌, ◌%◌, ◌^◌, Bool, true, false, ◌&&◌, List, [], ◌∷◌, Memory, store, ltb,
  leb, ◌==◌, if◌then◌else◌, bit_or, Option, none, some,
}
use mathlib.Core.Option
use custom_os.Text.{strlen}

pub record Terminal : Type 0 where
  pub video_mem : Memory
  pub row : ℕ
  pub col : ℕ

abbrev pub vga_width : ℕ
vga_width = 80

abbrev pub vga_height : ℕ
vga_height = 20

abbrev pub u16 : ℕ → ℕ
u16 n = n % 2 ^ 16

-- `(colour << 8) | c`: a `char` from 128 on is widened with ones.
pub terminal_make_char : ℕ → ℕ → ℕ
terminal_make_char c colour =
    u16 (bit_or (colour * 2 ^ 8) (if ltb c 128 then c else c + 0xFFFFFF00))

pub terminal_putchar : Terminal → ℕ → ℕ → ℕ → ℕ → Terminal
terminal_putchar t x y c colour = record t {
  video_mem = store t.video_mem (y * vga_width + x) (terminal_make_char c colour);
}

-- The end of `terminal_writechar`, for a character that is neither a newline nor a backspace.
pub write_cell : Terminal → ℕ → ℕ → Terminal
write_cell t c colour =
    let put = terminal_putchar t t.col t.row c colour in
    let col = u16 (t.col + 1) in
    if leb vga_width col
    then record put { col = 0; row = u16 (t.row + 1) }
    else record put { col = col }

-- It writes a space by `terminal_writechar`, which takes the way of `write_cell`.
pub terminal_backspace : Terminal → Terminal
terminal_backspace t =
    let up =
      if t.col == 0 then record t { row = u16 (t.row + 2 ^ 16 - 1); col = vga_width } else t in
    let back = record up { col = u16 (up.col + 2 ^ 16 - 1) } in
    let blanked = write_cell back b' ' 15 in
    if (t.row == 0) && (t.col == 0)
    then t
    else record blanked { col = u16 (blanked.col + 2 ^ 16 - 1) }

pub terminal_writechar : Terminal → ℕ → ℕ → Terminal
terminal_writechar t c colour =
    if c == 10
    then record t { col = 0; row = u16 (t.row + 1) }
    else if c == 0x08
    then terminal_backspace t
    else write_cell t c colour

-- The inner loop of `terminal_initialize` over `x`, with the rounds that are left.
pub blank_row : Terminal → ℕ → ℕ → ℕ → Terminal
blank_row t zero x y = t
blank_row t (suc rounds) x y = blank_row (terminal_putchar t x y b' ' 0) rounds (x + 1) y

-- The outer loop, over `y`.
pub blank_rows : Terminal → ℕ → ℕ → Terminal
blank_rows t zero y = t
blank_rows t (suc rounds) y = blank_rows (blank_row t vga_width 0 y) rounds (y + 1)

pub terminal_initialize : Terminal → Terminal
terminal_initialize t = blank_rows (record t { row = 0; col = 0 }) vga_height 0

-- The loop of `print`, over the `len` bytes in front of the terminator.
pub print_bytes : Terminal → ℕ → List ℕ → Terminal
print_bytes t zero str = t
print_bytes t (suc len) [] = t
print_bytes t (suc len) (c ∷ str) = print_bytes (terminal_writechar t c 15) len str

-- `none` is a string with no terminator in its buffer.
pub print : Terminal → List ℕ → Option Terminal
print t str = Option.map (λ len. print_bytes t len str) (strlen str)
