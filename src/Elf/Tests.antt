-- ===== src/Elf/Tests.antt =====
-- Each theorem on the loader of loader/formats/elfloader.c at one file.
use custom_os.Base.{ℕ, zero, suc, ◌<◌, ◌≡◌, refl, inr, List, [], ◌∷◌, Memory, get_or, arith}
use custom_os.Elf.{
  ElfFile, e_phnum, elf_validate_loaded, elf_process_pheaders, elf_process_loaded, pheaders_from,
  elf_process_pheader, phdr_at, elf_program_header, elf_pheader, elf_process_phdr_pt_load,
}
use custom_os.Elf.Bounds.{Covers, IsPlain, IsSegment, nth_phdr, elf_process_pheaders-Covers}

-- A header, and one program header behind it: 512 bytes to load at 0x400000.
abbrev bytes : List ℕ
bytes =
    0x7f ∷ 0x45 ∷ 0x4c ∷ 0x46 ∷ 1 ∷ 1 ∷ 1 ∷ 0 ∷ 0 ∷ 0 ∷ 0 ∷ 0 ∷ 0 ∷ 0 ∷ 0 ∷ 0 ∷ 2 ∷ 0 ∷ 3 ∷ 0 ∷ 1
    ∷ 0 ∷ 0 ∷ 0 ∷ 0 ∷ 0 ∷ 0x40 ∷ 0 ∷ 52 ∷ 0 ∷ 0 ∷ 0 ∷ 0 ∷ 0 ∷ 0 ∷ 0 ∷ 0 ∷ 0 ∷ 0 ∷ 0 ∷ 52 ∷ 0 ∷ 32
    ∷ 0 ∷ 1 ∷ 0 ∷ 0 ∷ 0 ∷ 0 ∷ 0 ∷ 0 ∷ 0 ∷ 1 ∷ 0 ∷ 0 ∷ 0 ∷ 0 ∷ 0x10 ∷ 0 ∷ 0 ∷ 0 ∷ 0 ∷ 0x40 ∷ 0 ∷ 0
    ∷ 0 ∷ 0x40 ∷ 0 ∷ 0 ∷ 2 ∷ 0 ∷ 0 ∷ 0 ∷ 2 ∷ 0 ∷ 0 ∷ 7 ∷ 0 ∷ 0 ∷ 0 ∷ 0 ∷ 0x10 ∷ 0 ∷ 0 ∷ []

abbrev loaded : Memory
loaded a = get_or bytes a 0

abbrev file : ElfFile
file = record {
  elf_memory = 0;
  virtual_base_address = 0;
  virtual_end_address = 0;
  physical_base_address = 0;
  physical_end_address = 0;
}

first-IsSegment : IsSegment (nth_phdr loaded 0 0)
unfolding elf_program_header elf_pheader phdr_at
first-IsSegment = record { type = refl; vaddr = omega arith; end = omega arith }

all-IsPlain : (i : ℕ) → i < e_phnum loaded 0 → IsPlain (nth_phdr loaded 0 i)
all-IsPlain zero lt = inr first-IsSegment
all-IsPlain (suc i) lt = absurd (omega arith)

elf_process_pheaders-Covers_example :
    Covers (elf_process_pheaders loaded file) (nth_phdr loaded 0 0)
elf_process_pheaders-Covers_example =
    elf_process_pheaders-Covers loaded file 0 all-IsPlain (omega arith) first-IsSegment

loads : (elf_process_loaded loaded file).1.virtual_end_address ≡ 0x400200
unfolding elf_process_loaded elf_validate_loaded elf_process_pheaders pheaders_from
    elf_process_pheader phdr_at elf_program_header elf_pheader elf_process_phdr_pt_load
loads = refl
