-- ===== src/Elf/Loading.antt =====
-- The loading of a whole ELF file, of loader/formats/elfloader.c: elf_load with the allocation and the
-- freeing of its structures. `struct elf_file` is given by its address and, where it is filled in, by
-- the record of its fields.
pub mod Refusals
use custom_os.Base.{
  ℕ, ◌==◌, if◌then◌else◌, List, Memory, Option, none, some, Result, ok, err, eio, Errno,
}
use custom_os.Elf.{ElfFile, elf_process_loaded}
use custom_os.File.Calls.{FileCalls, mode_r}
use custom_os.Heap.{Kernel, kzalloc, kfree}

-- `sizeof(struct elf_file)`
abbrev pub elf_file_size : ℕ
elf_file_size = 132

pub elf_file_new : Kernel → ℕ × Kernel
elf_file_new k = kzalloc k elf_file_size

-- A pointer is freed where it is not NULL.
unfoldable pub free_some : Kernel → ℕ → Option Kernel
free_some k ptr = if ptr == 0 then some k else kfree k ptr

-- `elf_memory` is the field of the file at `elf_file`.
unfoldable pub elf_file_free : Kernel → ℕ → ℕ → Option Kernel
unfolding free_some
elf_file_free k elf_file elf_memory = elim (free_some k elf_memory) [
  | none ↦ none
  | some k' ↦ kfree k' elf_file
]

unfoldable pub elf_close : Kernel → ℕ → ℕ → Option Kernel
elf_close k elf_file elf_memory =
    if elf_file == 0
    then some k
    else elim (kfree k elf_memory) [ none ↦ none | some k' ↦ kfree k' elf_file ]

-- The fields behind the allocation, with the file's memory.
abbrev pub fresh_file : ℕ → ElfFile
fresh_file elf_memory = record {
  elf_memory = elf_memory;
  virtual_base_address = 0;
  virtual_end_address = 0;
  physical_base_address = 0;
  physical_end_address = 0;
}

-- What elf_load leaves: the address of the file with its fields, or the error.
abbrev pub Loads : Type 0 → Type 0
Loads F = Option (Result (ℕ × ElfFile) × Kernel × F)

module _ {F : Type 0} (calls : FileCalls F) where
  -- `out`: the descriptor is closed with the result.
  pub close_with : Result (ℕ × ElfFile) → Kernel → F → ℕ → Loads F
  close_with res k files fd = elim (calls.fclose files k fd) [
    | none ↦ none
    | some (k', files') ↦ some (res, k', files')
  ]

  -- `out` behind an error.
  pub fail : Errno → Kernel → F → ℕ → ℕ → ℕ → Loads F
  unfolding elf_file_free close_with
  fail e k files elf_file elf_memory fd = elim (elf_file_free k elf_file elf_memory) [
    | none ↦ none
    | some k' ↦ close_with (err e) k' files fd
  ]

  -- elf_process_loaded on the file that has been read to `elf_memory`, and `out`.
  pub process_read : Kernel → F → ℕ → ℕ → ℕ → Loads F
  unfolding fail close_with
  process_read k files elf_file elf_memory fd =
      let (res, loaded) = elf_process_loaded k.memory (fresh_file elf_memory) in
      elim res [
        | err e ↦ fail e k files elf_file elf_memory fd
        | ok _ ↦ close_with (ok (elf_file, loaded)) k files fd
      ]

  -- The part behind fread, with what fread returns.
  pub read_done : ℕ → ℕ → ℕ → Option (Result ℕ × Kernel × F) → Loads F
  unfolding process_read fail
  read_done elf_file elf_memory fd none = none
  read_done elf_file elf_memory fd (some (err e, k, files)) = fail e k files elf_file elf_memory fd
  read_done elf_file elf_memory fd (some (ok n, k, files)) =
      process_read k files elf_file elf_memory fd

  -- The part behind fstat: kzalloc is not tested.
  pub read_file : Kernel → F → ℕ → ℕ → ℕ → Loads F
  unfolding read_done
  read_file k files elf_file filesize fd =
      let (elf_memory, k1) = kzalloc k filesize in
      read_done elf_file elf_memory fd (calls.fread files k1 elf_memory filesize 1 fd)

  -- The part behind fopen. `none` is a fault: also every use of an `elf_file` that is NULL.
  pub elf_opened : ℕ → Option (ℕ × Kernel × F) → Loads F
  unfolding fail read_file
  elf_opened elf_file none = none
  elf_opened elf_file (some (fd, k, files)) =
      if elf_file == 0
      then none
      else if fd == 0
      then fail eio k files elf_file 0 0
      else elim (calls.fstat files k fd) [
        | none ↦ none
        | some stat ↦ elim stat [
          | err e ↦ fail e k files elf_file 0 fd
          | ok filesize ↦ read_file k files elf_file filesize fd
        ]
      ]

  pub elf_load : Kernel → F → List ℕ → Loads F
  unfolding elf_opened elf_file_new
  elf_load k files filename =
      let (elf_file, k1) = elf_file_new k in
      elf_opened elf_file (calls.fopen files k1 filename mode_r)
