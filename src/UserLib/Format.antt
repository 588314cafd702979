-- ===== src/UserLib/Format.antt =====
-- What printf of programs/stdlib/src/stdio.c prints, piece by piece of its format.
use custom_os.Base.{
  Option, none, leb, ltb, ◌&&◌, ℕ, zero, suc, ◌+◌, ◌-◌, ◌*◌, ◌≡◌, ◌≢◌, ◌==◌, if◌then◌else◌, Memory,
  some, List, [], ◌∷◌, ◌++◌,
}
use mathlib.Core.Option
use custom_os.Base.Int.{ℤ, pos}
use custom_os.UserLib.{Argument, int, chars, string_at}
use custom_os.UserLib.Decimal.{negated, IsInt}

-- The number that digits stand for, behind those of `acc`: `none` where a byte is no digit.
abbrev pub value_of : List ℕ → ℕ → Option ℕ
value_of [] acc = some acc
value_of (c ∷ l) acc = if leb 48 c && ltb c 58 then value_of l (acc * 10 + (c - 48)) else none

-- A number has at least one digit.
abbrev pub unsigned : List ℕ → Option ℕ
unsigned [] = none
unsigned (c ∷ l) = value_of (c ∷ l) 0

-- The number that a text stands for: digits, or a minus sign and digits.
abbrev pub number_of : List ℕ → Option ℤ
number_of [] = none
number_of (c ∷ l) =
    if c == b'-' then Option.map negated (unsigned l) else Option.map pos (unsigned (c ∷ l))

abbrev bytes : Memory → ℕ → ℕ → List ℕ
bytes m p zero = []
bytes m p (suc n) = m p ∷ bytes m (p + 1) n

-- What `%i` prints for the number.
abbrev pub Prints : ℤ → Memory → ℕ → Type 0
Prints i text loc =
    (shown : List ℕ) × (string_at 12 text loc ≡ some shown) × (number_of shown ≡ some i)

-- A piece of a format: a character, `%i` with a number, `%s` with a string, or `%` with another
-- character.
pub data Piece : Type 0 where
  plain : ℕ → Piece
  integer : ℤ → Piece
  string : List ℕ → Piece
  escaped : ℕ → Piece

abbrev pub format_of : List Piece → List ℕ
format_of [] = 0 ∷ []
format_of (plain c ∷ ps) = c ∷ format_of ps
format_of (integer i ∷ ps) = b'%' ∷ b'i' ∷ format_of ps
format_of (string s ∷ ps) = b'%' ∷ b's' ∷ format_of ps
format_of (escaped c ∷ ps) = b'%' ∷ c ∷ format_of ps

abbrev pub arguments_of : List Piece → List Argument
arguments_of [] = []
arguments_of (plain c ∷ ps) = arguments_of ps
arguments_of (integer i ∷ ps) = int i ∷ arguments_of ps
arguments_of (string s ∷ ps) = chars s ∷ arguments_of ps
arguments_of (escaped c ∷ ps) = arguments_of ps

abbrev pub IsPiece : Piece → Type 0
IsPiece (plain c) = (c ≢ 0) × (c ≢ b'%')
IsPiece (integer i) = IsInt i
IsPiece (string s) = Unit
IsPiece (escaped c) = (c ≢ b'i') × (c ≢ b's')

-- What the pieces print: for a number, a text that stands for it.
abbrev pub Output : List Piece → List ℕ → Type 0
Output [] out = out ≡ []
Output (plain c ∷ ps) out = (rest : List ℕ) × (out ≡ c ∷ rest) × Output ps rest
Output (integer i ∷ ps) out =
    (shown : List ℕ) × (rest : List ℕ) × (out ≡ shown ++ rest)
    × (number_of shown ≡ some i)
    × Output ps rest
Output (string s ∷ ps) out = (rest : List ℕ) × (out ≡ s ++ rest) × Output ps rest
Output (escaped c ∷ ps) out = (rest : List ℕ) × (out ≡ c ∷ rest) × Output ps rest
