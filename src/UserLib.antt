-- ===== src/UserLib.antt =====
-- The library of the user programs: itoa of programs/stdlib/src/stdlib.c, printf of stdio.c, strtok of
-- string.c and the reading of a line of peachos.c. The system calls are outside: what the keyboard
-- gives is a list of keys, and what is printed is a list of characters. `none` is an access outside a
-- buffer, a list that is too short, or too little fuel.
pub mod Decimal
pub mod Format
pub mod Tokens
pub mod Editing
mod Tests
use custom_os.Base.{
  ℕ, zero, suc, ◌+◌, ◌-◌, ◌/◌, ◌%◌, Bool, true, false, not, ◌&&◌, ◌||◌, ltb, leb, ◌==◌,
  if◌then◌else◌, Memory, store, Option, none, some, List, [], ◌∷◌, ◌++◌,
}
use custom_os.Base.Int.{ℤ, pos, negsuc}
use mathlib.Core.Option

-- The digits of the number -n, which the loop divides, in front of `loc`: `'0' - (i % 10)` counts up,
-- since the remainder of a negative number is negative or 0.
pub digits_from : Memory → ℕ → ℕ → Option (Memory × ℕ)
digits_from text zero zero = some (text, zero)
digits_from text zero (suc n) = none
digits_from text (suc loc) zero = some (text, suc loc)
digits_from text (suc loc) (suc n) =
    digits_from (store text loc (b'0' + suc n % 10)) loc (suc n / 10)

-- One more character in front of `loc`.
abbrev pub put_before : Memory → ℕ → ℕ → Option (Memory × ℕ)
put_before text zero c = none
put_before text (suc loc) c = some (store text loc c, loc)

-- The part of `itoa` behind its loop.
pub sign : Bool → Memory × ℕ → Option (Memory × ℕ)
sign neg (text, loc) = elim (if loc == 11 then put_before text loc b'0' else some (text, loc)) [
  | none ↦ none
  | some (text', loc') ↦ if neg then put_before text' loc' b'-' else some (text', loc')
]

-- The static array and the index in it that `itoa` returns the address of. The argument is made
-- negative or 0 first.
pub itoa : Memory → ℤ → Option (Memory × ℕ)
unfolding digits_from sign
itoa text (pos n) = elim (digits_from (store text 11 0) 11 n) [
  | none ↦ none
  | some r ↦ sign false r
]
itoa text (negsuc n) = elim (digits_from (store text 11 0) 11 (n + 1)) [
  | none ↦ none
  | some r ↦ sign true r
]

-- The characters up to the terminator, of which there are at most as many as the fuel.
pub string_at : ℕ → Memory → ℕ → Option (List ℕ)
string_at zero m p = none
string_at (suc fuel) m p =
    let rest = string_at fuel m (p + 1) in
    if m p == 0 then some [] else Option.map (λ l. m p ∷ l) rest

-- The arguments of printf: an `int`, or a string in front of its terminator.
pub data Argument : Type 0 where
  int : ℤ → Argument
  chars : List ℕ → Argument

-- What printf prints, with the array of itoa. The format is the list of its bytes, the terminator
-- among them.
pub printf : Memory → List ℕ → List Argument → Option (List ℕ)
unfolding itoa string_at
printf text [] arguments = none
printf text (c ∷ []) arguments = if c == 0 then some [] else none
printf text (c ∷ (d ∷ fmt)) arguments =
    let plain = printf text (d ∷ fmt) arguments in
    let other = printf text fmt arguments in
    if c == 0
    then some []
    else if not (c == b'%')
    then Option.map (λ l. c ∷ l) plain
    else if d == b'i'
    then elim arguments [
      | [] ↦ none
      | int i ∷ more ↦ elim (itoa text i) [
        | none ↦ none
        | some (text', loc) ↦ elim (string_at 12 text' loc) [
          | none ↦ none
          | some shown ↦ Option.map (λ l. shown ++ l) (printf text' fmt more)
        ]
      ]
      | chars s ∷ more ↦ none
    ]
    else if d == b's'
    then elim arguments [
      | [] ↦ none
      | int i ∷ more ↦ none
      | chars s ∷ more ↦ Option.map (λ l. s ++ l) (printf text fmt more)
    ]
    else Option.map (λ l. d ∷ l) other

-- The memory of the program, and the variable `sp` of strtok; 0 is NULL.
pub record Tokenizer : Type 0 where
  pub memory : Memory
  pub sp : ℕ

-- The search of a character among the delimiters.
pub is_delimiter : List ℕ → ℕ → Bool
is_delimiter [] c = false
is_delimiter (d ∷ delimiters) c =
    let rest = is_delimiter delimiters c in if c == d then true else rest

-- The first loop of strtok, over the delimiters in front of the token.
pub skip_delimiters : ℕ → Memory → List ℕ → ℕ → Option ℕ
unfolding is_delimiter
skip_delimiters zero m delimiters p_start = none
skip_delimiters (suc fuel) m delimiters p_start =
    let rest = skip_delimiters fuel m delimiters (p_start + 1) in
    if is_delimiter delimiters (m p_start) then rest else some p_start

-- The second loop, to the end of the token.
pub end_token : ℕ → Tokenizer → List ℕ → Option Tokenizer
unfolding is_delimiter
end_token zero s delimiters = none
end_token (suc fuel) s delimiters =
    let rest = end_token fuel (record s { sp = s.sp + 1 }) delimiters in
    if s.memory s.sp == 0
    then some s
    else if is_delimiter delimiters (s.memory s.sp)
    then some (record { memory = store s.memory s.sp 0; sp = s.sp + 1 })
    else rest

-- The part of strtok behind the choice of the string.
pub next_token : ℕ → Tokenizer → List ℕ → Option (ℕ × Tokenizer)
unfolding skip_delimiters end_token
next_token fuel s delimiters = elim (skip_delimiters fuel s.memory delimiters s.sp) [
  | none ↦ none
  | some p_start ↦
      if s.memory p_start == 0
      then some (0, record s { sp = 0 })
      else Option.map (λ s'. (p_start, s')) (end_token fuel (record s { sp = p_start }) delimiters)
]

-- A string is taken only when none is being broken up. The fuel bounds the rounds of each loop.
pub strtok : ℕ → Tokenizer → ℕ → List ℕ → Option (ℕ × Tokenizer)
unfolding next_token
strtok fuel s str delimiters =
    if str == 0 && s.sp == 0
    then some (0, s)
    else next_token fuel (if s.sp == 0 then record s { sp = str } else s) delimiters

-- The key that peachos_getkeyblock waits for, with the keys behind it; 0 is no key yet.
pub peachos_getkeyblock : List ℕ → Option (ℕ × List ℕ)
peachos_getkeyblock [] = none
peachos_getkeyblock (k ∷ keys) =
    let rest = peachos_getkeyblock keys in if k == 0 then rest else some (k, keys)

-- A line that was read: the memory, the keys that are left and what was printed meanwhile.
pub record Line : Type 0 where
  pub memory : Memory
  pub keys : List ℕ
  pub printed : List ℕ

-- The loop of peachos_terminal_readline from `i` on, with `limit` for `max - 1`. The fuel bounds the
-- keys that are read. A backspace moves `i` back by two before the loop adds one.
pub readline_from : ℕ → Line → ℕ → ℕ → ℕ → Bool → Option Line
unfolding peachos_getkeyblock
readline_from zero s out limit i output_while_typing = none
readline_from (suc fuel) s out limit i output_while_typing = elim (ltb i limit) [
  | false ↦ some (record s { memory = store s.memory (out + i) 0 })
  | true ↦ elim (peachos_getkeyblock s.keys) [
    | none ↦ none
    | some (key, keys) ↦
        let shown = if output_while_typing then s.printed ++ key ∷ [] else s.printed in
        elim (key == 13) [
          | true ↦ some (record s { memory = store s.memory (out + i) 0; keys = keys })
          | false ↦ elim (key == 0x08 && leb 1 i) [
            | true ↦
                readline_from fuel
                  (record { memory = store s.memory (out + i - 1) 0; keys = keys; printed = shown })
                  out limit (i - 1) output_while_typing
            | false ↦
                readline_from fuel
                  (record { memory = store s.memory (out + i) key; keys = keys; printed = shown })
                  out limit (i + 1) output_while_typing
          ]
        ]
  ]
]

pub peachos_terminal_readline : ℕ → Line → ℕ → ℕ → Bool → Option Line
unfolding readline_from
peachos_terminal_readline fuel s out max output_while_typing =
    readline_from fuel s out (max - 1) 0 output_while_typing
