-- ===== src/Terminal/Cursor.antt =====
-- The cursor of the terminal of kernel.c: what one character does.
use custom_os.Base.{ℕ, ◌+◌, ◌-◌, ◌*◌, ◌^◌, ◌<◌, ◌≡◌, ◌≢◌, store, arith}
use custom_os.Base.Bits.{bit_or_fields}
use custom_os.Terminal.{
  Terminal, terminal_make_char, terminal_putchar, write_cell, terminal_backspace,
  terminal_writechar,
}

-- The cell at which the next character goes.
abbrev pub place : Terminal → ℕ
place t = t.row * 80 + t.col

-- A cell for an ASCII character holds the colour in its upper byte and the character in its lower.
pub terminal_make_char_lem :
    (c colour : ℕ) → c < 128 → colour < 256 → terminal_make_char c colour ≡ colour * 256 + c
unfolding terminal_make_char
terminal_make_char_lem c colour hc hcol = ground (arith, bit_or_fields 8 colour c (omega arith))

-- A character that is neither a newline nor a backspace is written at the cursor and nowhere else,
-- and the cursor goes to the next cell, where a row ends to the first of the next row.
pub terminal_writechar_lem :
    (t : Terminal) (c colour : ℕ)
    → c ≢ 10
    → c ≢ 8
    → t.col < 80
    → t.row < 2 ^ 16 - 1
    → ((terminal_writechar t c colour).video_mem
        ≡ store t.video_mem (place t) (terminal_make_char c colour))
      × (place (terminal_writechar t c colour) ≡ place t + 1)
      × ((terminal_writechar t c colour).col < 80)
unfolding terminal_writechar write_cell terminal_putchar
terminal_writechar_lem t c colour n8 n10 hc hr = ground arith

-- A backspace behind a character of the same row, before the last column, blanks the cell of that
-- character and goes back to it.
pub terminal_backspace_lem :
    (t : Terminal)
    → 0 < t.col
    → t.col < 80
    → (place (terminal_backspace t) + 1 ≡ place t)
      × ((terminal_backspace t).col < 80)
      × ((terminal_backspace t).video_mem
          ≡ store t.video_mem (place t - 1) (terminal_make_char b' ' 15))
unfolding terminal_backspace write_cell terminal_putchar
terminal_backspace_lem t hp hc = ground arith

-- A backspace at the first column of a row other than the first leaves the column 65535.
pub terminal_backspace-wraps :
    (t : Terminal)
    → t.col ≡ 0
    → 0 < t.row
    → t.row < 2 ^ 16
    → ((terminal_backspace t).col ≡ 65535) × ((terminal_backspace t).row ≡ t.row)
unfolding terminal_backspace write_cell terminal_putchar
terminal_backspace-wraps t hc hr hw = ground arith
