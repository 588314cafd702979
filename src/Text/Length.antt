-- ===== src/Text/Length.antt =====
-- What strlen, strnlen and strnlen_terminator of string/string.c return.
use custom_os.Base.{
  ℕ, zero, suc, ◌+◌, ◌≡◌, ◌≢◌, refl, some, List, [], ◌∷◌, ◌++◌, length, All, arith, min, ◌==◌,
  if◌then◌else◌,
}
use custom_os.Text.{strlen_from, strlen, strnlen_from, strnlen, terminator_from, strnlen_terminator}

-- No byte of the list is the terminator.
abbrev pub NoZero : List ℕ → Type 0
NoZero s = All (λ c. c ≢ 0) s

strlen_from-eq :
    (i : ℕ) (s rest : List ℕ) → NoZero s → strlen_from i (s ++ 0 ∷ rest) ≡ some (i + length s)
unfolding strlen_from
strlen_from-eq i [] rest h = ground arith
strlen_from-eq i (c ∷ s) rest h = ground (arith, strlen_from-eq (i + 1) s rest h.1)

-- strlen of a terminated string is the number of bytes in front of the terminator.
pub strlen_lem : (s rest : List ℕ) → NoZero s → strlen (s ++ 0 ∷ rest) ≡ some (length s)
unfolding strlen
strlen_lem s rest h = ground (arith, strlen_from-eq 0 s rest h)

strnlen_from-eq :
    (rounds i : ℕ) (s rest : List ℕ)
    → NoZero s
    → strnlen_from rounds i (s ++ 0 ∷ rest) ≡ some (i + min (length s) rounds)
unfolding strnlen_from
strnlen_from-eq zero i [] rest h = ground arith
strnlen_from-eq zero i (c ∷ s) rest h = ground arith
strnlen_from-eq (suc rounds) i [] rest h = ground arith
strnlen_from-eq (suc rounds) i (c ∷ s) rest h =
    ground (arith, strnlen_from-eq rounds (i + 1) s rest h.1)

-- strnlen of a terminated string is its length, or the bound where that is smaller.
pub strnlen_lem :
    (s rest : List ℕ) (max : ℕ) → NoZero s → strnlen (s ++ 0 ∷ rest) max ≡ some (min (length s) max)
unfolding strnlen
strnlen_lem s rest max h = ground (arith, strnlen_from-eq max 0 s rest h)

terminator_from-some :
    (rounds i t : ℕ) (s rest : List ℕ)
    → NoZero s
    → (r : ℕ) × (terminator_from rounds i (s ++ 0 ∷ rest) t ≡ some r)
unfolding terminator_from
terminator_from-some zero i t s rest h = (i, refl)
terminator_from-some (suc rounds) i t [] rest h = (i, refl)
terminator_from-some (suc rounds) i t (c ∷ s) rest h =
    let (r, e) = terminator_from-some rounds (i + 1) t s rest h.1 in
    (if c == 0 then i else if c == t then i else r, ground arith)

-- strnlen_terminator of a terminated string is 0, whatever the string, the bound and the terminator.
pub strnlen_terminator-zero :
    (s rest : List ℕ) (max t : ℕ) → NoZero s → strnlen_terminator (s ++ 0 ∷ rest) max t ≡ some 0
unfolding strnlen_terminator
strnlen_terminator-zero s rest max t h = let (r, e) = terminator_from-some max 0 t s rest h in rw e
