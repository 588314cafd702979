-- ===== src/PathParser.antt =====
-- The path parser of fs/pparser.c. A path is the list of the bytes from its pointer on, and `none` is
-- a read behind its buffer. `alloc n` is what the n-th call of kzalloc returns, 0 for no memory.
pub mod OnHeap
pub mod Parse
mod Tests
use custom_os.Base.{
  ℕ, zero, suc, ◌+◌, Bool, true, false, not, ◌&&◌, ◌||◌, Option, none, some, List, [], ◌∷◌, Memory,
  store, ltb, leb, ◌==◌, if◌then◌else◌, get_or, drop, length, Result, ok, err, ebadpath,
}
use custom_os.Base.Int.{ℤ}
use custom_os.Text.{strlen, strnlen, isdigit, tonumericdigit}
use mathlib.Core.Option

abbrev pub max_path : ℕ
max_path = 108

pub pathparser_path_valid_format : List ℕ → Option Bool
pathparser_path_valid_format filename =
    let colon_slash = get_or filename 1 0 == b':' && get_or filename 2 0 == b'/' in
    Option.map (λ len. leb 3 len && isdigit (get_or filename 0 0) && colon_slash)
      (strnlen filename max_path)

-- The drive, and the path behind `0:/`.
pub pathparser_get_drive_by_path : List ℕ → Option (Result (ℤ × List ℕ))
unfolding pathparser_path_valid_format
pathparser_get_drive_by_path path =
    Option.map
      (λ valid. if valid then ok (tonumericdigit (get_or path 0 0), drop 3 path) else err ebadpath)
      (pathparser_path_valid_format path)

-- The loop of `pathparser_get_path_part`: the bytes that it stores, and the path that is left.
pub part_loop : List ℕ → Option (List ℕ × List ℕ)
part_loop [] = none
part_loop (c ∷ path) =
    if c == b'/' || c == 0
    then some ([], c ∷ path)
    else Option.map (λ r. (c ∷ r.0, r.1)) (part_loop path)

-- Behind the loop a slash is skipped.
pub skip_slash : List ℕ → List ℕ
skip_slash [] = []
skip_slash (c ∷ path) = if c == b'/' then path else c ∷ path

-- What a call leaves: its result, the path, and the bytes that it stored from address 0 on.
pub record Taken : Type 0 where
  pub result : ℕ
  pub path : List ℕ
  pub stored_at_null : List ℕ

-- The end of the function, behind the loop.
pub part_taken : ℕ → List ℕ → List ℕ → Taken
part_taken allocated stored path =
    let result = if length stored == 0 then 0 else allocated in
    record { result = result; path = skip_slash path; stored_at_null = stored }

-- The test of what kzalloc returns is the wrong way round: with memory the function returns NULL, and
-- without it the loop stores through the null pointer.
pub pathparser_get_path_part : ℕ → List ℕ → Option Taken
unfolding part_taken
pathparser_get_path_part allocated path =
    if not (allocated == 0)
    then some (record { result = 0; path = path; stored_at_null = [] })
    else elim (part_loop path) [
      | none ↦ none
      | some (stored, rest) ↦ some (part_taken allocated stored rest)
    ]

-- The `part` and `next` fields of the path parts, by their addresses.
pub record Parts : Type 0 where
  pub part : Memory
  pub next : Memory

-- A new part, linked behind the last one.
pub link_part : Parts → ℕ → ℕ → ℕ → Parts
link_part parts part name last_part =
    let made = record parts { part = store parts.part part name; next = store parts.next part 0 } in
    if last_part == 0 then made else record made { next = store made.next last_part part }

-- The address of the new part, 0 for none, with the parts and the path that is left. The two
-- allocations are those of the name and of the part.
pub pathparser_parse_path_part : ℕ → ℕ → Parts → ℕ → List ℕ → Option (ℕ × Parts × List ℕ)
unfolding link_part
pathparser_parse_path_part name_mem part_mem parts last_part path =
    elim (pathparser_get_path_part name_mem path) [
      | none ↦ none
      | some t ↦
          if t.result == 0
          then some (0, parts, t.path)
          else if part_mem == 0
          then some (0, parts, t.path)
          else some (part_mem, link_part parts part_mem t.result last_part, t.path)
    ]

-- `while(part)`; the fuel is one round for each byte of the path.
pub parse_rest : ℕ → (ℕ → ℕ) → ℕ → Parts → ℕ → List ℕ → Option Parts
parse_rest zero alloc n parts last path = none
parse_rest (suc fuel) alloc n parts last path =
    elim (pathparser_parse_path_part (alloc n) (alloc (n + 1)) parts last path) [
      | none ↦ none
      | some (part, parts', path') ↦
          let rest = parse_rest fuel alloc (n + 2) parts' part path' in
          if part == 0 then some parts' else rest
    ]

-- `struct path_root`, with the parts.
pub record PathRoot : Type 0 where
  pub driver_no : ℤ
  pub first : ℕ
  pub parts : Parts

-- The part of `pathparser_parse` behind the checks of the path: `some none` is a NULL result.
pub parse_parts : (ℕ → ℕ) → Parts → ℤ → List ℕ → Option (Option PathRoot)
parse_parts alloc parts drive path =
    if alloc 0 == 0
    then some none
    else elim (pathparser_parse_path_part (alloc 1) (alloc 2) parts 0 path) [
      | none ↦ none
      | some (first, parts', path') ↦
          if first == 0
          then some none
          else Option.map (λ ps. some (record { driver_no = drive; first = first; parts = ps }))
              (parse_rest (length path + 1) alloc 3 parts' first path')
    ]

pub pathparser_parse : (ℕ → ℕ) → Parts → List ℕ → Option (Option PathRoot)
pathparser_parse alloc parts path = elim (strlen path) [
  | none ↦ none
  | some len ↦ if ltb max_path len then some none else elim (pathparser_get_drive_by_path path) [
    | none ↦ none
    | some r ↦ elim r [ err e ↦ some none | ok (drive, rest) ↦ parse_parts alloc parts drive rest ]
  ]
]
