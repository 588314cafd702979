-- ===== src/Text/Tests.antt =====
-- Each theorem on the string routines of string/string.c at one input.
use custom_os.Base.{ℕ, ◌≡◌, List, [], ◌∷◌, ◌++◌, some, min, arith}
use custom_os.Text.{strlen, strnlen, strnlen_terminator}
use custom_os.Text.Length.{NoZero, strlen_lem, strnlen_lem, strnlen_terminator-zero}

abbrev hi : List ℕ
hi = b'h' ∷ b'i' ∷ []

abbrev upper : List ℕ
upper = b'H' ∷ b'I' ∷ b'!' ∷ []

hi-NoZero : NoZero hi
hi-NoZero = (omega arith, (omega arith, tt))

upper-NoZero : NoZero upper
upper-NoZero = (omega arith, (omega arith, (omega arith, tt)))

strlen_lem_example : strlen (hi ++ 0 ∷ b'x' ∷ []) ≡ some 2
strlen_lem_example = strlen_lem hi (b'x' ∷ []) hi-NoZero

strnlen_lem_example : strnlen (upper ++ 0 ∷ []) 2 ≡ some (min 3 2)
strnlen_lem_example = strnlen_lem upper [] 2 upper-NoZero

strnlen_terminator-zero_example : strnlen_terminator (upper ++ 0 ∷ []) 9 b'!' ≡ some 0
strnlen_terminator-zero_example = strnlen_terminator-zero upper [] 9 b'!' upper-NoZero
