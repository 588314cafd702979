-- ===== src/PathParser/OnHeap.antt =====
-- The path parser of fs/pparser.c on the kernel's heap: what its calls of kzalloc and kfree leave
-- behind. `none` is a fault.
pub mod Refused
use custom_os.Base.{
  ℕ, zero, suc, ◌+◌, not, ◌==◌, ltb, if◌then◌else◌, List, length, Option, none, some, ok, err,
}
use custom_os.Base.Int.{ℤ}
use custom_os.Heap.{Kernel, kzalloc, kfree}
use custom_os.Memory.{write_bytes}
use custom_os.PathParser.{
  Parts, PathRoot, Taken, max_path, link_part, pathparser_get_path_part,
  pathparser_get_drive_by_path,
}
use custom_os.Text.{strlen}

-- `sizeof(struct path_root)` and `sizeof(struct path_part)`
abbrev pub struct_size : ℕ
struct_size = 8

-- Without memory the part is stored through the null pointer, and an empty one is freed there.
pub get_path_part_on_heap : Kernel → List ℕ → Option (Taken × Kernel)
get_path_part_on_heap k path =
    let (result_path_part, k1) = kzalloc k max_path in
    elim (pathparser_get_path_part result_path_part path) [
      | none ↦ none
      | some t ↦
          let k2 : Kernel = record k1 { memory = write_bytes k1.memory 0 t.stored_at_null } in
          if not (result_path_part == 0)
          then some (t, k1)
          else if length t.stored_at_null == 0
          then elim (kfree k2 0) [ none ↦ none | some k3 ↦ some (t, k3) ]
          else some (t, k2)
    ]

-- The address of the new part, 0 for none, with the parts and the path that is left.
pub parse_path_part_on_heap : Kernel → Parts → ℕ → List ℕ → Option ((ℕ × Parts × List ℕ) × Kernel)
unfolding get_path_part_on_heap
parse_path_part_on_heap k parts last_part path = elim (get_path_part_on_heap k path) [
  | none ↦ none
  | some (t, k1) ↦
      let (part, k2) = kzalloc k1 struct_size in
      if t.result == 0
      then some ((0, parts, t.path), k1)
      else if part == 0
      then elim (kfree k2 t.result) [ none ↦ none | some k3 ↦ some ((0, parts, t.path), k3) ]
      else some ((part, link_part parts part t.result last_part, t.path), k2)
]

-- `while(part)`; the fuel is one round for each byte of the path.
pub parse_rest_on_heap : ℕ → Kernel → Parts → ℕ → List ℕ → Option (Parts × Kernel)
parse_rest_on_heap zero k parts last path = none
parse_rest_on_heap (suc fuel) k parts last path = elim (parse_path_part_on_heap k parts last path) [
  | none ↦ none
  | some ((part, parts', path'), k1) ↦
      let rest = parse_rest_on_heap fuel k1 parts' part path' in
      if part == 0 then some (parts', k1) else rest
]

-- What a call of pathparser_parse leaves: the address of the root with its fields, or NULL.
abbrev pub Parsed : Type 0
Parsed = Option (Option (ℕ × PathRoot) × Kernel)

-- The part of `pathparser_parse` behind the checks of the path.
pub parse_parts_on_heap : Kernel → Parts → ℤ → List ℕ → Parsed
unfolding parse_path_part_on_heap parse_rest_on_heap
parse_parts_on_heap k parts drive path =
    let (path_root, k1) = kzalloc k struct_size in
    if path_root == 0 then some (none, k1) else elim (parse_path_part_on_heap k1 parts 0 path) [
      | none ↦ none
      | some ((first_part, parts', path'), k2) ↦
          if first_part == 0
          then elim (kfree k2 path_root) [ none ↦ none | some k3 ↦ some (none, k3) ]
          else elim (parse_rest_on_heap (length path + 1) k2 parts' first_part path') [
            | none ↦ none
            | some (ps, k3) ↦
                some (
                  some (path_root, record { driver_no = drive; first = first_part; parts = ps }),
                  k3,
                )
          ]
    ]

pub parse_on_heap : Kernel → Parts → List ℕ → Parsed
unfolding parse_parts_on_heap
parse_on_heap k parts path = elim (strlen path) [
  | none ↦ none
  | some len ↦
      if ltb max_path len then some (none, k) else elim (pathparser_get_drive_by_path path) [
        | none ↦ none
        | some r ↦ elim r [
          | err e ↦ some (none, k)
          | ok (drive, rest) ↦ parse_parts_on_heap k parts drive rest
        ]
      ]
]

-- The loop of `pathparser_free` over the parts, with a round for each of them, and the freeing of the
-- root.
pub pathparser_free : ℕ → Kernel → Parts → ℕ → ℕ → Option Kernel
pathparser_free zero k parts root part = none
pathparser_free (suc fuel) k parts root part =
    if part == 0 then kfree k root else elim (kfree k (parts.part part)) [
      | none ↦ none
      | some k1 ↦ elim (kfree k1 part) [
        | none ↦ none
        | some k2 ↦ pathparser_free fuel k2 parts root (parts.next part)
      ]
    ]
