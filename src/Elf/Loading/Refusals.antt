-- ===== src/Elf/Loading/Refusals.antt =====
-- What elf_load of loader/formats/elfloader.c leaves where the file cannot be opened.

use custom_os.Base.{Errno, ℕ, ◌+◌, ◌≤◌, ◌≡◌, refl, arith, false, ◌==◌, List, some, err, eio}
use custom_os.Elf.Loading.{
  elf_file_new, elf_file_free, free_some, close_with, fail, elf_opened, elf_load,
}
use custom_os.File.Calls.{FileCalls, mode_r}
use custom_os.Heap.{Kernel, kzalloc, heap_align_value_to_upper}
use custom_os.Heap.Filling.{Room, Grows, kzalloc-Grows}
use custom_os.Heap.Laws.{blocks_for}

blocks_132 : blocks_for 132 ≡ 1
unfolding heap_align_value_to_upper
blocks_132 = refl

new_file-Grows :
    (k : Kernel) (c : ℕ) → Room k c → c + 1 ≤ k.heap.table.total → Grows k c 132 (kzalloc k 132)
new_file-Grows k c room fits =
    kzalloc-Grows k c 132 room (omega arith) (omega arith) (omega (arith, blocks_132))

pub Grows-some :
    (k : Kernel) (c size : ℕ)
    → Room k c
    → Grows k c size (kzalloc k size)
    → ((kzalloc k size).0 == 0) ≡ false
Grows-some k c size room g = ground (arith, g.address, room.somewhere)

module _ {F : Type 0} (calls : FileCalls F) where
  -- A file that cannot be opened, where the failing call and the closing of nothing leave the kernel.
  pub record CannotOpen (files : F) (filename : List ℕ) : Type 0 where
    pub opens : (k : Kernel) → calls.fopen files k filename mode_r ≡ some (0, k, files)
    pub closes : (k : Kernel) → calls.fclose files k 0 ≡ some (k, files)

  fail_lem :
      (e : Errno) (k k1 : Kernel) (files : F) (elf_file : ℕ)
      → elf_file_free k1 elf_file 0 ≡ some k
      → calls.fclose files k 0 ≡ some (k, files)
      → fail calls e k1 files elf_file 0 0 ≡ some (err e, k, files)
  unfolding fail close_with
  fail_lem e k k1 files elf_file frees closes = rw (fail, frees, close_with, closes) refl

  -- The error is -EIO, and the heap is as it was.
  pub elf_load-missing :
      (k : Kernel) (files : F) (filename : List ℕ) (c : ℕ)
      → Room k c
      → c + 1 ≤ k.heap.table.total
      → CannotOpen files filename
      → elf_load calls k files filename
        ≡ some (err eio, record k { memory = (kzalloc k 132).1.memory }, files)
  unfolding elf_load elf_opened elf_file_new elf_file_free free_some
  elf_load-missing k files filename c room fits missing =
      let g = new_file-Grows k c room fits in
      let k1 = (kzalloc k 132).1 in
      let k' : Kernel = record k { memory = k1.memory } in
      rw (elf_load, missing.opens k1, elf_opened, Grows-some k c 132 room g)
        (fail_lem eio k' k1 files (kzalloc k 132).0 (g.back k1.memory) (missing.closes k'))
