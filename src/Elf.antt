-- ===== src/Elf.antt =====
-- Loading ELF files: loader/formats/elf.c and loader/formats/elfloader.c, over a memory of bytes in
-- which the file stands. A header is given by its address; its fields are read from there.
pub mod Bounds
pub mod Loading
mod Tests
use custom_os.Base.{
  ℕ, zero, suc, ◌+◌, ◌*◌, ◌%◌, ◌^◌, Bool, true, false, not, ◌&&◌, ◌||◌, leb, ◌==◌, if◌then◌else◌,
  Memory, Result, ok, err, einformat,
}

abbrev pub word : ℕ
word = 2 ^ 32

-- Little-endian fields of two and of four bytes.
abbrev pub u16_at : Memory → ℕ → ℕ
u16_at m p = m p + m (p + 1) * 2 ^ 8

abbrev pub u32_at : Memory → ℕ → ℕ
u32_at m p = m p + m (p + 1) * 2 ^ 8 + m (p + 2) * 2 ^ 16 + m (p + 3) * 2 ^ 24

-- The fields of `struct elf_header`, by its layout.
module _ (m : Memory) (header : ℕ) where
  abbrev pub e_ident : ℕ → ℕ
  e_ident i = m (header + i)

  abbrev pub e_type : ℕ
  e_type = u16_at m (header + 16)

  abbrev pub e_entry : ℕ
  e_entry = u32_at m (header + 24)

  abbrev pub e_phoff : ℕ
  e_phoff = u32_at m (header + 28)

  abbrev pub e_shoff : ℕ
  e_shoff = u32_at m (header + 32)

  abbrev pub e_phnum : ℕ
  e_phnum = u16_at m (header + 44)

-- `struct elf32_phdr`, without the two fields that the loader does not read.
pub record Elf32Phdr : Type 0 where
  pub p_type : ℕ
  pub p_offset : ℕ
  pub p_vaddr : ℕ
  pub p_filesz : ℕ
  pub p_memsz : ℕ
  pub p_flags : ℕ

pub phdr_at : Memory → ℕ → Elf32Phdr
phdr_at m p = record {
  p_type = u32_at m p;
  p_offset = u32_at m (p + 4);
  p_vaddr = u32_at m (p + 8);
  p_filesz = u32_at m (p + 16);
  p_memsz = u32_at m (p + 20);
  p_flags = u32_at m (p + 24);
}

-- `struct elf_file`; 0 is an address that is not set.
pub record ElfFile : Type 0 where
  pub elf_memory : ℕ
  pub virtual_base_address : ℕ
  pub virtual_end_address : ℕ
  pub physical_base_address : ℕ
  pub physical_end_address : ℕ

pub elf_get_entry : Memory → ℕ → ℕ
elf_get_entry m header = e_entry m header

-- `memcmp(buffer, elf_signature, 4) == 0`
unfoldable pub elf_valid_signature : Memory → ℕ → Bool
elf_valid_signature m h =
    (e_ident m h 0 == 0x7f)
    && (e_ident m h 1 == b'E')
    && (e_ident m h 2 == b'L')
    && (e_ident m h 3 == b'F')

pub elf_valid_class : Memory → ℕ → Bool
elf_valid_class m h = (e_ident m h 4 == 0) || (e_ident m h 4 == 1)

pub elf_valid_encoding : Memory → ℕ → Bool
elf_valid_encoding m h = (e_ident m h 5 == 0) || (e_ident m h 5 == 1)

abbrev pub program_virtual_address : ℕ
program_virtual_address = 0x400000

pub elf_is_executable : Memory → ℕ → Bool
elf_is_executable m h = (e_type m h == 2) && leb program_virtual_address (e_entry m h)

pub elf_has_program_header : Memory → ℕ → Bool
elf_has_program_header m h = not (e_phoff m h == 0)

-- The header stands at the start of the file.
abbrev pub elf_header : ElfFile → ℕ
elf_header file = file.elf_memory

abbrev pub elf_sheader : Memory → ℕ → ℕ
elf_sheader m header = (header + e_shoff m header) % word

pub elf_pheader : Memory → ℕ → ℕ
elf_pheader m header = if e_phoff m header == 0 then 0 else (header + e_phoff m header) % word

-- The address of the program header with the index; each has 32 bytes.
pub elf_program_header : Memory → ℕ → ℕ → ℕ
elf_program_header m header index = (elf_pheader m header + 32 * index) % word

pub elf_phdr_phys_address : ElfFile → Elf32Phdr → ℕ
elf_phdr_phys_address file phdr = (file.elf_memory + phdr.p_offset) % word

pub elf_validate_loaded : Memory → ℕ → Result (Unit {0})
unfolding elf_valid_signature elf_valid_class elf_valid_encoding elf_has_program_header
    elf_is_executable
elf_validate_loaded m header =
    if elf_valid_signature m header
      && elf_valid_class m header
      && elf_valid_encoding m header
      && elf_has_program_header m header
      && elf_is_executable m header
    then ok tt
    else err einformat

-- The first `if`: the base.
pub set_base : ElfFile → Elf32Phdr → ElfFile
set_base f phdr =
    if leb phdr.p_vaddr f.virtual_base_address || f.virtual_base_address == 0
    then record f {
      virtual_base_address = phdr.p_vaddr;
      physical_base_address = (f.elf_memory + phdr.p_offset) % word;
    }
    else f

-- The second `if`: the end.
pub set_end : ElfFile → Elf32Phdr → ElfFile
set_end f phdr =
    let end_virtual_address = (phdr.p_vaddr + phdr.p_filesz) % word in
    if leb end_virtual_address f.virtual_end_address || f.virtual_end_address == 0
    then record f {
      virtual_end_address = end_virtual_address;
      physical_end_address = (f.elf_memory + phdr.p_offset + phdr.p_filesz) % word;
    }
    else f

pub elf_process_phdr_pt_load : ElfFile → Elf32Phdr → ElfFile
unfolding set_base set_end
elf_process_phdr_pt_load f phdr = set_end (set_base f phdr) phdr

abbrev pub pt_load : ℕ
pt_load = 1

-- Its result is 0 for every type of header.
pub elf_process_pheader : ElfFile → Elf32Phdr → ElfFile
elf_process_pheader f phdr = if phdr.p_type == pt_load then elf_process_phdr_pt_load f phdr else f

-- The loop of `elf_process_pheaders` from header `i`.
pub pheaders_from : Memory → ElfFile → ℕ → ℕ → ElfFile
pheaders_from m f zero i = f
pheaders_from m f (suc rounds) i =
    pheaders_from m (elf_process_pheader f (phdr_at m (elf_program_header m (elf_header f) i)))
      rounds (i + 1)

pub elf_process_pheaders : Memory → ElfFile → ElfFile
elf_process_pheaders m f = pheaders_from m f (e_phnum m (elf_header f)) 0

pub elf_process_loaded : Memory → ElfFile → Result (Unit {0}) × ElfFile
elf_process_loaded m f = elim (elf_validate_loaded m (elf_header f)) [
  | err e ↦ (err e, f)
  | ok _ ↦ (ok tt, elf_process_pheaders m f)
]
