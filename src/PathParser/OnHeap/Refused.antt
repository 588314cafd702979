-- ===== src/PathParser/OnHeap/Refused.antt =====
-- Names for which the path parser of fs/pparser.c allocates nothing.
use custom_os.Base.{
  ℕ, ◌<◌, ◌≡◌, refl, ◌⊎◌, inl, inr, none, some, List, ◌∷◌, ◌++◌, length, some, arith, ltb, true,
  Bool-cases,
}
use custom_os.Heap.{Kernel}
use custom_os.PathParser.{Parts}
use custom_os.PathParser.OnHeap.{parse_on_heap}
use custom_os.PathParser.Parse.{HasDrive, drive-refused}
use custom_os.Text.Length.{NoZero, strlen_lem}

-- A name that is too long, or that starts with no number of a drive.
abbrev pub IsRefused : List ℕ → Type 0
IsRefused name = (108 < length name) ⊎ (HasDrive name → ⊥)

pub parse-refused :
    (k : Kernel) (parts : Parts) (name rest : List ℕ)
    → NoZero name
    → IsRefused name
    → parse_on_heap k parts (name ++ 0 ∷ rest) ≡ some (none, k)
unfolding parse_on_heap
parse-refused k parts name rest h (inl long) =
    let more : ltb 108 (length name) ≡ true = ground arith in
    rw (parse_on_heap, strlen_lem name rest h, more) refl
parse-refused k parts name rest h (inr no_drive) = elim (Bool-cases (ltb 108 (length name))) [
  | inl long ↦ rw (parse_on_heap, strlen_lem name rest h, long) refl
  | inr short ↦
      rw (parse_on_heap, strlen_lem name rest h, short, drive-refused name rest h no_drive) refl
]
