-- ===== src/File/OnHeap.antt =====
-- The calls of fs/file.c on the kernel, with its heap and its memory, as the loaders of programs use
-- them. The file system of disk 0 is the table of functions that it has been mounted with.
pub mod Refused
use custom_os.Base.{
  ℕ, ◌+◌, not, ◌||◌, ◌==◌, if◌then◌else◌, List, length, Option, none, some, Result, ok, err,
  einvarg, eio,
}
use custom_os.Base.Int.{pos}
use custom_os.File.{
  Files, FileMode, invalid, is_zero, file_get_descriptor, file_new_descriptor,
  file_get_mode_by_string,
}
use custom_os.File.Calls.{FileCalls}
use custom_os.Heap.{Kernel, kzalloc}
use custom_os.PathParser.{Parts, PathRoot}
use custom_os.PathParser.OnHeap.{Parsed, parse_on_heap, pathparser_free}

-- `struct filesystem`: its functions, on the kernel. Private data is a pointer or an error in its place,
-- and `none` is a fault.
pub record Filesystem : Type 0 where
  pub open_file : Kernel → PathRoot → FileMode → Option (Result ℕ × Kernel)
  pub read_file : Kernel → ℕ → ℕ → ℕ → ℕ → Result ℕ × Kernel
  pub stat_file : Kernel → ℕ → Result ℕ
  pub close_file : Kernel → Result ℕ → Option Kernel

-- `sizeof(struct file_descriptor)`
abbrev pub descriptor_size : ℕ
descriptor_size = 16

-- What fopen leaves: the number of the descriptor, 0 for none.
abbrev pub Opened : Type 0
Opened = Option (ℕ × Kernel × Files)

-- `out` of fopen behind an error before the opening by the file system: 0 is returned.
pub open_fails : ℕ → Kernel → Files → ℕ → PathRoot → Opened
open_fails fuel k s root root_path =
    elim (pathparser_free fuel k root_path.parts root root_path.first) [
      | none ↦ none
      | some k1 ↦ some (0, k1, s)
    ]

-- The closing at `out`: what is not NULL is closed, an error of the opening too.
pub close_opened : Filesystem → Kernel → Result ℕ → Option Kernel
close_opened filesystem k (err e) = filesystem.close_file k (err e)
close_opened filesystem k (ok private) =
    if private == 0 then some k else filesystem.close_file k (ok private)

-- `out` behind the opening by the file system.
pub opened_fails : Filesystem → ℕ → Kernel → Files → ℕ → PathRoot → Result ℕ → Opened
unfolding close_opened
opened_fails filesystem fuel k s root root_path opened =
    elim (pathparser_free fuel k root_path.parts root root_path.first) [
      | none ↦ none
      | some k1 ↦ elim (close_opened filesystem k1 opened) [
        | none ↦ none
        | some k2 ↦ some (0, k2, s)
      ]
    ]

-- The part of fopen behind the opening by the file system. A new descriptor is stored in `disk`, so that
-- its making ends in an access through `desc`, which is NULL; without a free entry none is allocated.
pub descriptor_on_heap : Filesystem → ℕ → Kernel → Files → ℕ → PathRoot → Result ℕ → Opened
unfolding opened_fails file_new_descriptor
descriptor_on_heap filesystem fuel k s root root_path (err e) =
    opened_fails filesystem fuel k s root root_path (err e)
descriptor_on_heap filesystem fuel k s root root_path (ok private) =
    elim (file_new_descriptor s (kzalloc k descriptor_size).0).0 [
      | none ↦ none
      | some res ↦ opened_fails filesystem fuel k s root root_path (ok private)
    ]

-- The opening in a mode that has been read.
pub open_in_mode : Filesystem → ℕ → Kernel → Files → ℕ → PathRoot → FileMode → Opened
unfolding descriptor_on_heap open_fails
open_in_mode filesystem fuel k s root root_path invalid = open_fails fuel k s root root_path
open_in_mode filesystem fuel k s root root_path mode =
    elim (filesystem.open_file k root_path mode) [
      | none ↦ none
      | some (opened, k1) ↦ descriptor_on_heap filesystem fuel k1 s root root_path opened
    ]

-- The part of fopen behind the parsing. Only disk 0 is known; `none` is a disk without a file system.
pub open_parsed : Option Filesystem → ℕ → Kernel → Files → ℕ → PathRoot → List ℕ → Opened
unfolding open_in_mode open_fails file_get_mode_by_string
open_parsed none fuel k s root root_path mode_str = open_fails fuel k s root root_path
open_parsed (some filesystem) fuel k s root root_path mode_str =
    elim (is_zero (some root_path.driver_no)) [
      | none ↦ none
      | some disk ↦
          if not disk || root_path.first == 0
          then open_fails fuel k s root root_path
          else elim (file_get_mode_by_string mode_str) [
            | none ↦ none
            | some mode ↦ open_in_mode filesystem fuel k s root root_path mode
          ]
    ]

-- What fopen makes of the parsed path.
pub open_from : Option Filesystem → ℕ → Files → List ℕ → Parsed → Opened
unfolding open_parsed
open_from filesystem fuel s mode_str parsed = elim parsed [
  | none ↦ none
  | some (root_path, k) ↦ elim root_path [
    | none ↦ some (0, k, s)
    | some (root, fields) ↦ open_parsed filesystem fuel k s root fields mode_str
  ]
]

-- `parts` are the fields of the parts of a path before the call.
pub fopen_on_heap : Option Filesystem → Parts → Files → Kernel → List ℕ → List ℕ → Opened
unfolding open_from
fopen_on_heap filesystem parts s k filename mode_str =
    open_from filesystem (length filename + 1) s mode_str (parse_on_heap k parts filename)

pub fread_on_heap : Option Filesystem → Files → Kernel → ℕ → ℕ → ℕ → ℕ → Option (Result ℕ × Kernel)
unfolding file_get_descriptor
fread_on_heap filesystem s k ptr size nmemb fd =
    let desc = file_get_descriptor s (pos fd) in
    if size == 0 || nmemb == 0 || desc == 0 then some (err einvarg, k) else elim filesystem [
      | none ↦ none
      | some f ↦ some (f.read_file k (s.private desc) ptr size nmemb)
    ]

-- The test is on the number and not on the descriptor.
pub fstat_on_heap : Option Filesystem → Files → Kernel → ℕ → Option (Result ℕ)
unfolding file_get_descriptor
fstat_on_heap filesystem s k fd =
    let desc = file_get_descriptor s (pos fd) in
    if fd == 0
    then some (err eio)
    else if desc == 0
    then none
    else elim filesystem [ none ↦ none | some f ↦ some (f.stat_file k (s.private desc)) ]

pub fclose_on_heap : Option Filesystem → Files → Kernel → ℕ → Option Kernel
unfolding file_get_descriptor
fclose_on_heap filesystem s k fd =
    let desc = file_get_descriptor s (pos fd) in
    if desc == 0
    then some k
    else elim filesystem [ none ↦ none | some f ↦ f.close_file k (ok (s.private desc)) ]

-- The calls of the program itself.
abbrev pub file_calls : Option Filesystem → Parts → FileCalls Files
file_calls filesystem parts = record {
  fopen = λ s k filename mode. fopen_on_heap filesystem parts s k filename mode;
  fstat = λ s k fd. fstat_on_heap filesystem s k fd;
  fread = λ s k ptr size nmemb fd. elim (fread_on_heap filesystem s k ptr size nmemb fd) [
    | none ↦ none
    | some (res, k1) ↦ some (res, k1, s)
  ];
  fclose =
      λ s k fd. elim (fclose_on_heap filesystem s k fd) [ none ↦ none | some k1 ↦ some (k1, s) ];
}
