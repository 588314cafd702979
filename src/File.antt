-- ===== src/File.antt =====
-- Files by their descriptors: fs/file.c. The driver of the file system is an argument, with what its
-- functions return; a negative result is of the type ℤ. `none` is an access through a null pointer,
-- an endless loop, or a value that the source does not return.
pub mod Calls
pub mod Descriptors
pub mod OnHeap
mod Tests
use custom_os.Base.{
  ℕ, zero, suc, ◌+◌, ◌-◌, Bool, true, false, not, ◌||◌, Memory, store, ltb, leb, ◌==◌,
  if◌then◌else◌, Option, none, some, Result, ok, err, einvarg, eio, enomem, List, [], ◌∷◌,
}
use custom_os.Base.Int.{ℤ, pos, negsuc}
use custom_os.Text.{strncmp}
use custom_os.PathParser.{Parts, PathRoot, pathparser_parse}

abbrev pub max_filesystem : ℕ
max_filesystem = 12

abbrev pub max_file_descriptor : ℕ
max_file_descriptor = 512

-- `FILE_MODE`
pub data FileMode : Type 0 where
  read write append invalid : FileMode

-- The first free entry from `i` on, the loop of `fs_get_free_filesystem`.
pub free_from : Memory → ℕ → ℕ → Option ℕ
free_from m zero i = none
free_from m (suc rounds) i =
    let rest = free_from m rounds (i + 1) in if m i == 0 then some i else rest

pub fs_get_free_filesystem : Memory → Option ℕ
unfolding free_from
fs_get_free_filesystem filesystems = free_from filesystems max_filesystem 0

-- `none` is the endless loop.
pub fs_insert_filesystem : Memory → ℕ → Option Memory
unfolding fs_get_free_filesystem
fs_insert_filesystem filesystems filesystem = elim (fs_get_free_filesystem filesystems) [
  | none ↦ none
  | some i ↦ some (store filesystems i filesystem)
]

-- The loop of `fs_resolve` from entry `i`; `resolve` tells which file systems know the disk.
pub resolve_from : (ℕ → Bool) → Memory → ℕ → ℕ → ℕ
resolve_from resolve m zero i = 0
resolve_from resolve m (suc rounds) i =
    let rest = resolve_from resolve m rounds (i + 1) in
    if not (m i == 0) then (if resolve (m i) then m i else rest) else rest

pub fs_resolve : (ℕ → Bool) → Memory → ℕ
unfolding resolve_from
fs_resolve resolve filesystems = resolve_from resolve filesystems max_filesystem 0

-- The array of descriptors, the field `index` of each by its address, and the private data.
pub record Files : Type 0 where
  pub file_descriptors : Memory
  pub index : Memory
  pub private : Memory

-- `kfree` of the descriptor is left out.
pub file_free_descriptor : Files → ℕ → Files
file_free_descriptor s desc = record s {
  file_descriptors = store s.file_descriptors (s.index desc - 1) 0;
}

-- The `return` stands inside the loop, behind the test of the first entry, and there is none behind
-- the loop. `desc` is what kzalloc returns.
pub file_new_descriptor : Files → ℕ → Option (Result ℕ) × Files
file_new_descriptor s desc =
    if s.file_descriptors 0 == 0
    then (
      none,
      record s { index = store s.index desc 1; file_descriptors = store s.file_descriptors 0 desc },
    )
    else (some (err enomem), s)

-- 0 is NULL.
pub file_get_descriptor : Files → ℤ → ℕ
file_get_descriptor s (negsuc n) = 0
file_get_descriptor s (pos fd) =
    if fd == 0 || leb max_file_descriptor fd then 0 else s.file_descriptors (fd - 1)

-- The tests of `file_get_mode_by_string`: a string compares equal where strncmp returns 0.
abbrev pub is_zero : Option ℤ → Option Bool
is_zero none = none
is_zero (some (pos zero)) = some true
is_zero (some (pos (suc n))) = some false
is_zero (some (negsuc n)) = some false

pub file_get_mode_by_string : List ℕ → Option FileMode
file_get_mode_by_string str = elim (is_zero (strncmp str (b'r' ∷ 0 ∷ []) 1)) [
  | none ↦ none
  | some r ↦ elim (is_zero (strncmp str (b'w' ∷ 0 ∷ []) 1)) [
    | none ↦ none
    | some w ↦ elim (is_zero (strncmp str (b'a' ∷ 0 ∷ []) 1)) [
      | none ↦ none
      | some a ↦ some (if a then append else if r then read else if w then write else invalid)
    ]
  ]
]

-- A driver: what `open` returns for the mode, and the results of the others on the private data.
pub record Driver : Type 0 where
  pub open_file : PathRoot → FileMode → Result ℕ
  pub read_file : ℕ → ℕ → ℕ → ℤ
  pub stat : ℕ → ℤ
  pub seek : ℕ → ℤ → ℕ → ℤ
  pub close : ℕ → ℤ

-- The part of `fopen` behind the opening by the driver: `file_new_descriptor` is handed the address
-- of `disk` instead of `desc`, which stays NULL, so that a descriptor is never filled in.
pub fopen_opened : Files → ℕ → Option (ℕ × Files)
unfolding file_new_descriptor
fopen_opened s desc = elim (file_new_descriptor s desc).0 [
  | none ↦ none
  | some r ↦ elim r [ err e ↦ some (0, (file_new_descriptor s desc).1) | ok n ↦ none ]
]

-- `disk_get` knows the disk 0 only; `filesystem` is that of the disk, 0 for none. Errors return 0.
-- The parts, the memory of the parser and the descriptor are what the allocations return.
pub fopen : Driver → (ℕ → ℕ) → Parts → ℕ → ℕ → Files → List ℕ → List ℕ → Option (ℕ × Files)
unfolding fopen_opened file_get_mode_by_string
fopen driver alloc parts filesystem desc s filename mode_str =
    elim (pathparser_parse alloc parts filename) [
      | none ↦ none
      | some parsed ↦ elim parsed [
        | none ↦ some (0, s)
        | some root_path ↦
            if root_path.first == 0
            then some (0, s)
            else elim (is_zero (some root_path.driver_no)) [
              | none ↦ none
              | some disk ↦
                  if not disk || filesystem == 0
                  then some (0, s)
                  else elim (file_get_mode_by_string mode_str) [
                    | none ↦ none
                    | some mode ↦ elim mode [
                      | invalid ↦ some (0, s)
                      | read ↦ elim (driver.open_file root_path read) [
                        | err e ↦ some (0, s)
                        | ok p ↦ fopen_opened s desc
                      ]
                      | write ↦ elim (driver.open_file root_path write) [
                        | err e ↦ some (0, s)
                        | ok p ↦ fopen_opened s desc
                      ]
                      | append ↦ elim (driver.open_file root_path append) [
                        | err e ↦ some (0, s)
                        | ok p ↦ fopen_opened s desc
                      ]
                    ]
                  ]
            ]
      ]
    ]

pub fread : Driver → Files → ℕ → ℕ → ℤ → Result ℤ
unfolding file_get_descriptor
fread driver s size nmemb fd =
    let desc = file_get_descriptor s fd in
    if size == 0 || nmemb == 0 || desc == 0
    then err einvarg
    else ok (driver.read_file (s.private desc) size nmemb)

-- The test is on the number and not on the descriptor.
pub fstat : Driver → Files → ℤ → Option (Result ℤ)
unfolding file_get_descriptor
fstat driver s (pos zero) = some (err eio)
fstat driver s fd =
    let desc = file_get_descriptor s fd in
    if desc == 0 then none else some (ok (driver.stat (s.private desc)))

-- The descriptor stays in the array.
pub fclose : Driver → Files → ℤ → Result ℤ × Files
unfolding file_get_descriptor
fclose driver s fd =
    let desc = file_get_descriptor s fd in
    if desc == 0 then (err eio, s) else (ok (driver.close (s.private desc)), s)

-- A seek that succeeds frees the descriptor.
pub fseek : Driver → Files → ℤ → ℤ → ℕ → Result ℤ × Files
unfolding file_get_descriptor file_free_descriptor
fseek driver s fd offset whence =
    let desc = file_get_descriptor s fd in
    if desc == 0
    then (err eio, s)
    else let res = driver.seek (s.private desc) offset whence in
      elim (is_zero (some res)) [
        | none ↦ (ok res, s)
        | some all_ok ↦ (ok res, if all_ok then file_free_descriptor s desc else s)
      ]
