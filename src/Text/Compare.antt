-- ===== src/Text/Compare.antt =====
-- When strncmp and istrncmp of string/string.c return 0.
use custom_os.Base.{ℕ, zero, suc, ◌≡◌, ◌≢◌, refl, ◌↔◌, none, some, List, [], ◌∷◌, ◌++◌, take, arith}
use mathlib.Core.List.{map}
use custom_os.Base.Int.{pos}
use custom_os.Text.{strncmp, istrncmp, tolower}
use custom_os.Text.Length.{NoZero}

-- strncmp of two terminated strings is 0 exactly where their first `n` bytes agree.
pub strncmp-zero_iff :
    (n : ℕ) (s t rest rest' : List ℕ)
    → NoZero s
    → NoZero t
    → (strncmp (s ++ 0 ∷ rest) (t ++ 0 ∷ rest') n ≡ some (pos 0)) ↔ (take n s ≡ take n t)
unfolding strncmp
strncmp-zero_iff zero s t rest rest' hs ht = (λ e. refl, λ e. refl)
strncmp-zero_iff (suc n) [] [] rest rest' hs ht = (λ e. refl, λ e. refl)
strncmp-zero_iff (suc n) [] (b ∷ t) rest rest' hs ht = ground arith
strncmp-zero_iff (suc n) (a ∷ s) [] rest rest' hs ht = ground arith
strncmp-zero_iff (suc n) (a ∷ s) (b ∷ t) rest rest' hs ht =
    ground (arith, strncmp-zero_iff n s t rest rest' hs.1 ht.1)

tolower-zero : (c : ℕ) → c ≢ 0 → tolower c ≢ 0
unfolding tolower
tolower-zero c h = ground arith

-- istrncmp of two terminated strings is 0 exactly where their first `n` bytes agree when both are
-- put in lower case.
pub istrncmp-zero_iff :
    (n : ℕ) (s t rest rest' : List ℕ)
    → NoZero s
    → NoZero t
    → (istrncmp (s ++ 0 ∷ rest) (t ++ 0 ∷ rest') n ≡ some (pos 0))
      ↔ (take n (map tolower s) ≡ take n (map tolower t))
unfolding istrncmp
istrncmp-zero_iff zero s t rest rest' hs ht = (λ e. refl, λ e. refl)
istrncmp-zero_iff (suc n) [] [] rest rest' hs ht = (λ e. refl, λ e. refl)
istrncmp-zero_iff (suc n) [] (b ∷ t) rest rest' hs ht = ground arith
istrncmp-zero_iff (suc n) (a ∷ s) [] rest rest' hs ht = ground arith
istrncmp-zero_iff (suc n) (a ∷ s) (b ∷ t) rest rest' hs ht =
    ground (arith, istrncmp-zero_iff n s t rest rest' hs.1 ht.1)

-- Two terminated strings can be compared.
pub istrncmp-some :
    (n : ℕ) (s t rest rest' : List ℕ)
    → NoZero s
    → NoZero t
    → istrncmp (s ++ 0 ∷ rest) (t ++ 0 ∷ rest') n ≢ none
unfolding istrncmp
istrncmp-some zero s t rest rest' hs ht = ground arith
istrncmp-some (suc n) [] [] rest rest' hs ht = ground arith
istrncmp-some (suc n) [] (b ∷ t) rest rest' hs ht = ground arith
istrncmp-some (suc n) (a ∷ s) [] rest rest' hs ht = ground arith
istrncmp-some (suc n) (a ∷ s) (b ∷ t) rest rest' hs ht =
    ground (arith, istrncmp-some n s t rest rest' hs.1 ht.1)
