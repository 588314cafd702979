-- ===== src/Terminal/Tests.antt =====
-- Each theorem on the terminal of kernel.c at one input.
use custom_os.Base.{◌+◌, ◌*◌, ◌<◌, ◌≡◌, [], ◌∷◌, ◌++◌, store, some, arith}
use custom_os.Terminal.{Terminal, terminal_make_char, terminal_writechar, print}
use custom_os.Terminal.Cursor.{place, terminal_make_char_lem, terminal_writechar_lem}
use custom_os.Terminal.Print.{written, print_lem}

-- The cursor at the end of the second row.
abbrev screen : Terminal
screen = record { video_mem = λ j. 0; row = 1; col = 79 }

abbrev below : Terminal
below = record { video_mem = λ j. 0; row = 2; col = 0 }

terminal_make_char_lem_example : terminal_make_char b'A' 15 ≡ 15 * 256 + b'A'
terminal_make_char_lem_example = terminal_make_char_lem b'A' 15 (omega arith) (omega arith)

terminal_writechar_lem_example :
    ((terminal_writechar screen b'A' 15).video_mem
      ≡ store screen.video_mem (place screen) (terminal_make_char b'A' 15))
    × (place (terminal_writechar screen b'A' 15) ≡ place screen + 1)
    × ((terminal_writechar screen b'A' 15).col < 80)
terminal_writechar_lem_example =
    terminal_writechar_lem screen b'A' 15 (omega arith) (omega arith) (omega arith) (omega arith)

print_lem_example :
    (t' : Terminal) × (print screen ((b'o' ∷ b'k' ∷ []) ++ 0 ∷ []) ≡ some t')
    × (t'.video_mem 160 ≡ written screen.video_mem (place screen) (b'o' ∷ b'k' ∷ []) 160)
    × (place t' ≡ place screen + 2)
print_lem_example =
    print_lem screen (b'o' ∷ b'k' ∷ []) [] 160
      (
        (omega arith, omega arith, omega arith, omega arith),
        ((omega arith, omega arith, omega arith, omega arith), tt),
      )
      (omega arith) (omega arith)
