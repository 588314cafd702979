-- ===== src/Text.antt =====
-- The string routines of string/string.c (programs/stdlib/src/string.c repeats them). A pointer into
-- a buffer is the list of the bytes from there to the buffer's end, and `none` is an access behind
-- that end. An `int` bound is a number, since the loops run no round for a negative one.
pub mod Length
pub mod Compare
pub mod Copy
mod Tests
use custom_os.Base.{
  ℕ, zero, suc, ◌+◌, ◌-◌, Bool, true, false, not, ◌&&◌, ◌||◌, Option, none, some, List, [], ◌∷◌,
  ltb, leb, ◌==◌, if◌then◌else◌,
}
use custom_os.Base.Int.{ℤ, pos, negsuc, sub_ℕ}
use mathlib.Core.Option

-- The loop of `strlen`, with `i` bytes behind it.
pub strlen_from : ℕ → List ℕ → Option ℕ
strlen_from i [] = none
strlen_from i (c ∷ cs) = if c == 0 then some i else strlen_from (i + 1) cs

pub strlen : List ℕ → Option ℕ
unfolding strlen_from
strlen ptr = strlen_from 0 ptr

unfoldable pub strncmp : List ℕ → List ℕ → ℕ → Option ℤ
strncmp str1 str2 zero = some (pos 0)
strncmp [] str2 (suc n) = none
strncmp (u1 ∷ str1) [] (suc n) = none
strncmp (u1 ∷ str1) (u2 ∷ str2) (suc n) =
    if not (u1 == u2)
    then some (sub_ℕ u1 u2)
    else if u1 == 0
    then some (pos 0)
    else strncmp str1 str2 n

-- The loop of `strnlen_terminator`, over its inner `i`.
pub terminator_from : ℕ → ℕ → List ℕ → ℕ → Option ℕ
terminator_from zero i str terminator = some i
terminator_from (suc rounds) i [] terminator = none
terminator_from (suc rounds) i (c ∷ cs) terminator =
    if c == 0 || c == terminator then some i else terminator_from rounds (i + 1) cs terminator

-- The loop counts in an `i` of its own, and the function returns the outer one.
pub strnlen_terminator : List ℕ → ℕ → ℕ → Option ℕ
unfolding terminator_from
strnlen_terminator str max terminator =
    let i : ℕ = 0 in Option.map (λ inner. i) (terminator_from max 0 str terminator)

unfoldable pub tolower : ℕ → ℕ
tolower s1 = if leb 65 s1 && leb s1 90 then s1 + 32 else s1

pub istrncmp : List ℕ → List ℕ → ℕ → Option ℤ
unfolding tolower
istrncmp s1 s2 zero = some (pos 0)
istrncmp [] s2 (suc n) = none
istrncmp (u1 ∷ s1) [] (suc n) = none
istrncmp (u1 ∷ s1) (u2 ∷ s2) (suc n) =
    if not (u1 == u2) && not (tolower u1 == tolower u2)
    then some (sub_ℕ u1 u2)
    else if u1 == 0
    then some (pos 0)
    else istrncmp s1 s2 n

-- The bytes of `dest` after the call.
pub strcpy : List ℕ → List ℕ → Option (List ℕ)
strcpy dest [] = none
strcpy [] (c ∷ src) = none
strcpy (d ∷ dest) (c ∷ src) =
    if c == 0 then some (0 ∷ dest) else Option.map (λ l. c ∷ l) (strcpy dest src)

-- The loop of `strncpy`: its body compares `dest[i]` with `src[i]` and stores nothing.
pub strncpy_from : ℕ → ℕ → List ℕ → Option ℕ
strncpy_from zero i src = some i
strncpy_from (suc rounds) i [] = none
strncpy_from (suc rounds) i (c ∷ src) = if c == 0 then some i else strncpy_from rounds (i + 1) src

-- The bytes of `dest` after the call. The last statement compares `dest[i]` with 0 too.
pub strncpy : List ℕ → List ℕ → ℕ → Option (List ℕ)
unfolding strncpy_from
strncpy dest src count = Option.map (λ i. dest) (strncpy_from (count - 1) 0 src)

unfoldable pub isdigit : ℕ → Bool
isdigit c = leb 48 c && leb c 57

-- `char` is signed: a byte from 128 on stands for a negative number.
unfoldable pub tonumericdigit : ℕ → ℤ
tonumericdigit c = if ltb c 128 then sub_ℕ c 48 else sub_ℕ c 304

-- The loop of `strnlen`, with `i` bytes behind it.
pub strnlen_from : ℕ → ℕ → List ℕ → Option ℕ
strnlen_from zero i ptr = some i
strnlen_from (suc rounds) i [] = none
strnlen_from (suc rounds) i (c ∷ ptr) = if c == 0 then some i else strnlen_from rounds (i + 1) ptr

pub strnlen : List ℕ → ℕ → Option ℕ
unfolding strnlen_from
strnlen ptr max = strnlen_from max 0 ptr
