-- ===== src/Text/Copy.antt =====
-- What strcpy and strncpy of string/string.c leave in the destination.
use custom_os.Base.{
  ℕ, zero, suc, ◌+◌, ◌-◌, ◌<◌, ◌≤◌, ◌≡◌, refl, none, some, List, [], ◌∷◌, ◌++◌, length, drop, arith,
}
use custom_os.Text.{strcpy, strncpy, strncpy_from}
use custom_os.Text.Length.{NoZero}

-- strcpy into a buffer that is longer than the string copies the string and its terminator, and
-- leaves the rest of the buffer.
pub strcpy_lem :
    (dest s rest : List ℕ)
    → NoZero s
    → length s < length dest
    → strcpy dest (s ++ 0 ∷ rest) ≡ some (s ++ 0 ∷ drop (length s + 1) dest)
unfolding strcpy
strcpy_lem [] s rest h fits = absurd (omega arith)
strcpy_lem (d ∷ dest) [] rest h fits = refl
strcpy_lem (d ∷ dest) (c ∷ s) rest h fits = ground (arith, strcpy_lem dest s rest h.1)

-- strcpy into a buffer that is not longer than the string writes behind the buffer.
pub strcpy-none :
    (dest s rest : List ℕ) → NoZero s → length dest ≤ length s → strcpy dest (s ++ 0 ∷ rest) ≡ none
unfolding strcpy
strcpy-none [] [] rest h short = refl
strcpy-none [] (c ∷ s) rest h short = refl
strcpy-none (d ∷ dest) [] rest h short = absurd (omega arith)
strcpy-none (d ∷ dest) (c ∷ s) rest h short = ground (arith, strcpy-none dest s rest h.1)

strncpy_from-some :
    (rounds i : ℕ) (s rest : List ℕ)
    → NoZero s
    → (r : ℕ) × (strncpy_from rounds i (s ++ 0 ∷ rest) ≡ some r)
unfolding strncpy_from
strncpy_from-some zero i s rest h = (i, refl)
strncpy_from-some (suc rounds) i [] rest h = (i, refl)
strncpy_from-some (suc rounds) i (c ∷ s) rest h =
    let (r, e) = strncpy_from-some rounds (i + 1) s rest h.1 in (r, ground arith)

-- strncpy of a terminated string leaves the destination as it was.
pub strncpy-unchanged :
    (dest s rest : List ℕ) (count : ℕ) → NoZero s → strncpy dest (s ++ 0 ∷ rest) count ≡ some dest
unfolding strncpy
strncpy-unchanged dest s rest count h =
    let (r, e) = strncpy_from-some (count - 1) 0 s rest h in rw e
