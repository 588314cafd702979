-- ===== src/Terminal/Print.antt =====
-- What print and terminal_initialize of kernel.c leave on the screen.
use custom_os.Base.{
  Bool, true, ◌&&◌, Bool-cases, inl, inr, ℕ, zero, suc, ◌+◌, ◌-◌, ◌*◌, ◌^◌, ◌<◌, ◌≡◌, ◌≢◌, refl,
  Memory, store, ltb, ◌==◌, if◌then◌else◌, arith, List, [], ◌∷◌, ◌++◌, length, All, get_or, some,
}
use custom_os.Text.Length.{NoZero, strlen_lem}
use custom_os.Memory.Laws.{inside}
use custom_os.Terminal.{
  Terminal, terminal_make_char, terminal_putchar, terminal_writechar, blank_row, blank_rows,
  terminal_initialize, print_bytes, print,
}
use custom_os.Terminal.Cursor.{place, terminal_writechar_lem}

-- Bytes that move the cursor by one cell.
abbrev pub Printable : List ℕ → Type 0
Printable s = All (λ c. (c ≢ 0) × (c ≢ 10) × (c ≢ 8) × (c < 256)) s

Printable-NoZero : (s : List ℕ) → Printable s → NoZero s
Printable-NoZero [] h = tt
Printable-NoZero (c ∷ s) h = (h.0.0, Printable-NoZero s h.1)

-- The cell of a white character on black: the character in the low byte, the colour 15 in the high
-- one. A byte from 128 on is negative as a `char`, and its ones cover the colour.
abbrev pub white : ℕ → ℕ
white c = if ltb c 128 then 0x0F00 + c else 0xFF00 + c

-- The test holds for all numbers below `n`.
abbrev all_below : (ℕ → Bool) → ℕ → Bool
all_below test zero = true
all_below test (suc n) = test n && all_below test n

all_below-true : (test : ℕ → Bool) (n c : ℕ) → all_below test n ≡ true → c < n → test c ≡ true
all_below-true test zero c all lt = absurd (omega arith)
all_below-true test (suc n) c all lt = elim (Bool-cases (c == n)) [
  | inl here ↦ let e : c ≡ n = ground arith in rw e (ground (arith, all))
  | inr before ↦ all_below-true test n c (ground (arith, all)) (ground arith)
]

white_cells : all_below (λ c. terminal_make_char c 15 == white c) 256 ≡ true
unfolding terminal_make_char
white_cells = refl

terminal_make_char-white : (c : ℕ) → c < 256 → terminal_make_char c 15 ≡ white c
terminal_make_char-white c lt =
    let same = all_below-true (λ c. terminal_make_char c 15 == white c) 256 c white_cells lt in
    ground (arith, same)

-- The screen `v` with the bytes of `s` in white from cell `p` on.
abbrev pub written : Memory → ℕ → List ℕ → Memory
written v p s j = if inside p (length s) j then white (get_or s (j - p) 0) else v j

get_or-cons :
    (c n : ℕ) (s : List ℕ) → get_or (c ∷ s) n 0 ≡ (if n == 0 then c else get_or s (n - 1) 0)
get_or-cons c zero s = ground arith
get_or-cons c (suc n) s = let e : suc n - 1 ≡ n = omega arith in rw e (ground arith)

written-cons :
    (v : Memory) (p c : ℕ) (s : List ℕ) (j : ℕ)
    → written (store v p (white c)) (p + 1) s j ≡ written v p (c ∷ s) j
written-cons v p c s j =
    let e : j - (p + 1) ≡ j - p - 1 = omega arith in rw e (ground (arith, get_or-cons c (j - p) s))

print_bytes_lem :
    (t : Terminal) (s rest : List ℕ) (j : ℕ)
    → Printable s
    → t.col < 80
    → place t + length s < 80 * (2 ^ 16 - 1)
    → ((print_bytes t (length s) (s ++ rest)).video_mem j ≡ written t.video_mem (place t) s j)
      × (place (print_bytes t (length s) (s ++ rest)) ≡ place t + length s)
unfolding print_bytes
print_bytes_lem t [] rest j h hc room = (ground arith, omega arith)
print_bytes_lem t (c ∷ s) rest j h hc room =
    let now = terminal_writechar_lem t c 15 h.0.1 h.0.2 hc (omega arith) in
    let cell = terminal_make_char-white c h.0.3 in
    let later =
      print_bytes_lem (terminal_writechar t c 15) s rest j h.1 now.2 (omega (arith, now.1)) in
    ground (arith, now.0, now.1, later, cell, written-cons t.video_mem (place t) c s j)

-- print of a terminated string of bytes with no newline and no backspace, which the rows below 65535
-- can hold, writes its bytes in the cells from the cursor on and in no other, each in white on black, or
-- with all ones for its colour where it is 128 or more, and moves the cursor by its length.
pub print_lem :
    (t : Terminal) (s rest : List ℕ) (j : ℕ)
    → Printable s
    → t.col < 80
    → place t + length s < 80 * (2 ^ 16 - 1)
    → (t' : Terminal) × (print t (s ++ 0 ∷ rest) ≡ some t')
      × (t'.video_mem j ≡ written t.video_mem (place t) s j)
      × (place t' ≡ place t + length s)
unfolding print
print_lem t s rest j h hc room =
    let is = print_bytes_lem t s (0 ∷ rest) j h hc room in
    (
      print_bytes t (length s) (s ++ 0 ∷ rest),
      rw (strlen_lem s rest (Printable-NoZero s h)) refl,
      is.0,
      is.1,
    )

blank_row_lem :
    (t : Terminal) (rounds x y j : ℕ)
    → (blank_row t rounds x y).video_mem j
      ≡ (if inside (y * 80 + x) rounds j then terminal_make_char b' ' 0 else t.video_mem j)
unfolding blank_row terminal_putchar
blank_row_lem t zero x y j = ground arith
blank_row_lem t (suc rounds) x y j =
    ground (arith, blank_row_lem (terminal_putchar t x y b' ' 0) rounds (x + 1) y j)

blank_rows_lem :
    (t : Terminal) (rounds y j : ℕ)
    → (blank_rows t rounds y).video_mem j
      ≡ (if inside (y * 80) (rounds * 80) j then terminal_make_char b' ' 0 else t.video_mem j)
unfolding blank_rows
blank_rows_lem t zero y j = ground arith
blank_rows_lem t (suc rounds) y j =
    ground (arith, blank_rows_lem (blank_row t 80 0 y) rounds (y + 1) j, blank_row_lem t 80 0 y j)

-- terminal_initialize blanks the cells of the first 20 rows and no other.
pub terminal_initialize_lem :
    (t : Terminal) (j : ℕ)
    → (terminal_initialize t).video_mem j
      ≡ (if ltb j 1600 then terminal_make_char b' ' 0 else t.video_mem j)
unfolding terminal_initialize
terminal_initialize_lem t j = ground (arith, blank_rows_lem (record t { row = 0; col = 0 }) 20 0 j)
