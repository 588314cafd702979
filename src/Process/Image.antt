-- ===== src/Process/Image.antt =====
-- The mapping of a loaded program in the address space of its task, of task/process.c. The bytes of the
-- heap, in which an ELF file stands, and the words of the page tables are two memories.
pub mod Mapped
use custom_os.Base.{
  ℕ, zero, suc, ◌+◌, ◌-◌, ◌*◌, ◌/◌, ◌%◌, ◌^◌, ◌==◌, if◌then◌else◌, Memory, Result, ok, err,
}
use custom_os.Elf.{
  ElfFile, Elf32Phdr, phdr_at, elf_header, elf_pheader, elf_phdr_phys_address, e_phnum,
  program_virtual_address, word,
}
use custom_os.Paging.{paging_map_to, paging_is_alligned_address, paging_align_to_lower_page}
use custom_os.Process.{flags_all}

abbrev pub user_program_stack_size : ℕ
user_program_stack_size = 1024 * 16

-- `PEACHOS_PROGRAM_VIRTUAL_STACK_ADDRESS_END`
abbrev pub stack_address_end : ℕ
stack_address_end = 0x3FF000 - user_program_stack_size

-- The `filetype` of a process with the union that goes with it: the data of a binary program and their
-- size, or the ELF file.
pub data Filetype : Type 0 where
  binary : ℕ → ℕ → Filetype
  elf : ElfFile → Filetype

-- The result of paging_map_to is not looked at.
pub process_map_binary : Memory → ℕ → ℕ → ℕ → Result (Unit {0}) × Memory
process_map_binary pages page_directory ptr size = (
  ok tt,
  (paging_map_to pages page_directory program_virtual_address ptr
      (paging_is_alligned_address ((ptr + size) % word)) flags_all).1,
)

-- `PAGING_IS_PRESENT | PAGING_ACCESS_FROM_ALL`, with `PAGING_IS_WRITEABLE` where `p_flags & PF_W`.
abbrev pub segment_flags : Elf32Phdr → ℕ
segment_flags phdr = if phdr.p_flags / 2 % 2 == 0 then 5 else 7

-- The loop of `process_map_elf`, from header `i`; it ends at the first error.
pub map_segments : Memory → Memory → ℕ → ElfFile → ℕ → ℕ → Result (Unit {0}) × Memory
map_segments m pages page_directory elf_file zero i = (ok tt, pages)
map_segments m pages page_directory elf_file (suc rounds) i =
    let phdr = phdr_at m ((elf_pheader m (elf_header elf_file) + 32 * i) % word) in
    let phys = elf_phdr_phys_address elf_file phdr in
    let (res, pages') =
      paging_map_to pages page_directory (paging_align_to_lower_page phdr.p_vaddr)
        (paging_align_to_lower_page phys)
        (paging_is_alligned_address ((phys + phdr.p_memsz) % word)) (segment_flags phdr) in
    elim res [
      | err e ↦ (err e, pages')
      | ok _ ↦ map_segments m pages' page_directory elf_file rounds (i + 1)
    ]

pub process_map_elf : Memory → Memory → ℕ → ElfFile → Result (Unit {0}) × Memory
unfolding map_segments
process_map_elf m pages page_directory elf_file =
    map_segments m pages page_directory elf_file (e_phnum m (elf_header elf_file)) 0

-- The `switch`.
pub map_program : Memory → Memory → ℕ → Filetype → Result (Unit {0}) × Memory
unfolding process_map_binary process_map_elf
map_program m pages page_directory (binary ptr size) =
    process_map_binary pages page_directory ptr size
map_program m pages page_directory (elf elf_file) = process_map_elf m pages page_directory elf_file

pub process_map_memory : Memory → Memory → ℕ → Filetype → ℕ → Result (Unit {0}) × Memory
unfolding map_program
process_map_memory m pages page_directory filetype stack =
    let (res, pages') = map_program m pages page_directory filetype in
    elim res [
      | err e ↦ (err e, pages')
      | ok _ ↦ (
        ok tt,
        (paging_map_to pages' page_directory stack_address_end stack
            (paging_is_alligned_address ((stack + user_program_stack_size) % word)) flags_all).1,
      )
    ]
