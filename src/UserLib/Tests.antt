-- ===== src/UserLib/Tests.antt =====
-- Runs of the user programs' library.
use custom_os.Base.{
  ℕ, ◌<◌, ◌≡◌, refl, true, ◌==◌, ◌||◌, ◌⊎◌, inl, inr, Bool-cases, if◌then◌else◌, Memory, some,
  arith, List, [], ◌∷◌, ◌++◌,
}
use custom_os.Base.Int.{negsuc}
use custom_os.UserLib.{Tokenizer, is_delimiter, itoa, strtok, peachos_terminal_readline}
use custom_os.UserLib.Decimal.{Shows, itoa_lem}
use custom_os.UserLib.Format.{Piece, plain, integer, string, escaped}
use custom_os.UserLib.Tokens.{HasToken, behind_token, strtok_lem}
use custom_os.UserLib.Editing.{ReadsLine, pressed, peachos_terminal_readline-ReadsLine}

abbrev blank : Memory
blank a = 0

-- The least `int`.
itoa_lem_example : Shows (negsuc 2147483647) (itoa blank (negsuc 2147483647))
itoa_lem_example = itoa_lem blank (negsuc 2147483647) (omega arith)

abbrev pieces : List Piece
pieces =
    plain b'n' ∷ plain b'=' ∷ integer (negsuc 41) ∷ escaped b'%' ∷ string (b'o' ∷ b'k' ∷ []) ∷ []

-- The length of the token.
abbrev two : ℕ
two = 2

-- The string ` ls a` at the address 100.
abbrev command : Memory
command a =
    if (a == 100) || (a == 103)
    then b' '
    else if a == 101
    then b'l'
    else if a == 102
    then b's'
    else if a == 104
    then b'a'
    else 0

abbrev fresh : Tokenizer
fresh = record { memory = command; sp = 0 }

command-HasToken : HasToken command (b' ' ∷ []) 100 1 2
unfolding is_delimiter
command-HasToken = record {
  skipped = λ j lo hi. let e : j ≡ 100 = omega arith in rw e refl;
  token = λ j lo hi. elim (Bool-cases (j == 101)) [
    | inl first ↦ let e : j ≡ 101 = ground arith in rw e (ground arith, refl)
    | inr second ↦ let e : j ≡ 102 = ground arith in rw e (ground arith, refl)
  ];
  end = inr (omega arith, refl);
  terminator = refl;
}

strtok_lem_example :
    ((two ≡ 0)
      × (command 101 ≡ 0)
      × (strtok 9 fresh 100 (b' ' ∷ []) ≡ some (0, record { memory = command; sp = 0 })))
    ⊎ ((0 < 2) × (strtok 9 fresh 100 (b' ' ∷ []) ≡ some (101, behind_token command 103)))
strtok_lem_example =
    strtok_lem 9 fresh 100 (b' ' ∷ []) 100 1 2 refl (ground arith) command-HasToken (omega arith)
      (omega arith)

-- The keys `a`, `b` and a backspace, then the return and one more key.
abbrev keys : List ℕ
keys = b'a' ∷ b'b' ∷ 8 ∷ []

peachos_terminal_readline-ReadsLine_example : ReadsLine 500 (pressed [] keys) (b'z' ∷ []) (
    peachos_terminal_readline 9
      (record { memory = blank; keys = keys ++ 13 ∷ b'z' ∷ []; printed = [] })
      500
      20
      true)
peachos_terminal_readline-ReadsLine_example =
    peachos_terminal_readline-ReadsLine 9 500 20 true blank keys (b'z' ∷ []) []
      (
        omega arith,
        ground arith,
        ground arith,
        (
          omega arith,
          ground arith,
          ground arith,
          (omega arith, ground arith, ground arith, omega arith),
        ),
      )
      (omega arith)

edited : pressed [] keys ≡ b'a' ∷ []
edited = refl
