-- ===== src/Elf/Bounds.antt =====
-- Which files loader/formats/elfloader.c accepts, and the addresses that it takes from them.
use custom_os.Base.{
  ℕ, zero, suc, ◌+◌, ◌%◌, ◌^◌, ◌<◌, ◌≤◌, ◌≡◌, ◌≢◌, refl, ◌↔◌, ◌⊎◌, inl, inr, ◌==◌, Memory, ok, err,
  einformat, arith, Bool-cases, ==_iff, ◌∙◌,
}
use custom_os.Elf.{
  ElfFile, Elf32Phdr, e_ident, e_type, e_entry, e_phoff, e_phnum, phdr_at, elf_program_header,
  elf_validate_loaded, elf_process_pheader, elf_process_phdr_pt_load, pheaders_from,
  elf_process_pheaders, elf_header,
}

-- elf_validate_loaded accepts exactly the headers with the ELF signature, of no or the 32-bit class,
-- of no or the little-endian encoding, with program headers, of an executable whose entry is at
-- 0x400000 or above; it returns -EINFORMAT for every other.
pub elf_validate_loaded_iff :
    (m : Memory) (h : ℕ)
    → ((elf_validate_loaded m h ≡ ok tt) ↔ (
        (e_ident m h 0 ≡ 0x7f)
        × (e_ident m h 1 ≡ b'E')
        × (e_ident m h 2 ≡ b'L')
        × (e_ident m h 3 ≡ b'F')
        × (e_ident m h 4 ≤ 1)
        × (e_ident m h 5 ≤ 1)
        × (e_phoff m h ≢ 0)
        × (e_type m h ≡ 2)
        × (0x400000 ≤ e_entry m h)))
      × ((elf_validate_loaded m h ≡ ok tt) ⊎ (elf_validate_loaded m h ≡ err einformat))
unfolding elf_validate_loaded
elf_validate_loaded_iff m h = ((λ e. ground arith, λ e. ground arith), ground arith)

-- What is known of the file's addresses once a load segment has been seen.
pub record Covers (f : ElfFile) (phdr : Elf32Phdr) : Type 0 where
  pub base : f.virtual_base_address ≤ phdr.p_vaddr
  pub end : f.virtual_end_address ≤ (phdr.p_vaddr + phdr.p_filesz) % 2 ^ 32
  pub base_set : f.virtual_base_address ≢ 0
  pub end_set : f.virtual_end_address ≢ 0

-- A load segment with an address and an end other than 0.
pub record IsSegment (phdr : Elf32Phdr) : Type 0 where
  pub type : phdr.p_type ≡ 1
  pub vaddr : phdr.p_vaddr ≢ 0
  pub end : (phdr.p_vaddr + phdr.p_filesz) % 2 ^ 32 ≢ 0

-- A header that is no load segment, or one with an address and an end other than 0.
abbrev pub IsPlain : Elf32Phdr → Type 0
IsPlain phdr = (phdr.p_type ≢ 1) ⊎ IsSegment phdr

Covers-new :
    (f : ElfFile) (phdr : Elf32Phdr) → IsSegment phdr → Covers (elf_process_pheader f phdr) phdr
unfolding elf_process_pheader elf_process_phdr_pt_load
Covers-new f phdr s = ground arith

Covers-step :
    (f : ElfFile) (phdr next : Elf32Phdr)
    → IsPlain next
    → Covers f phdr
    → Covers (elf_process_pheader f next) phdr
unfolding elf_process_pheader elf_process_phdr_pt_load
Covers-step f phdr next plain c = ground arith

elf_memory-process :
    (f : ElfFile) (phdr : Elf32Phdr) → (elf_process_pheader f phdr).elf_memory ≡ f.elf_memory
unfolding elf_process_pheader elf_process_phdr_pt_load
elf_memory-process f phdr = ground arith

module _ (m : Memory) (base : ℕ) where
  -- The program header with the index, of the file at `base`.
  abbrev pub nth_phdr : ℕ → Elf32Phdr
  nth_phdr k = phdr_at m (elf_program_header m base k)

  pheaders_from-Covers :
      (rounds i : ℕ) (f : ElfFile) (phdr : Elf32Phdr)
      → f.elf_memory ≡ base
      → ((k : ℕ) → i ≤ k → k < i + rounds → IsPlain (nth_phdr k))
      → Covers f phdr
      → Covers (pheaders_from m f rounds i) phdr
  unfolding pheaders_from
  pheaders_from-Covers zero i f phdr same plain c = c
  pheaders_from-Covers (suc rounds) i f phdr same plain c = simp same (
      pheaders_from-Covers rounds (i + 1) (elf_process_pheader f (nth_phdr i)) phdr
        (elf_memory-process f (nth_phdr i) ∙ same) (λ k lo hi. plain k (omega arith) (omega arith))
        (Covers-step f phdr (nth_phdr i) (plain i (omega arith) (omega arith)) c))

  pheaders_from-nth :
      (rounds i k : ℕ) (f : ElfFile)
      → f.elf_memory ≡ base
      → ((k : ℕ) → i ≤ k → k < i + rounds → IsPlain (nth_phdr k))
      → i ≤ k
      → k < i + rounds
      → IsSegment (nth_phdr k)
      → Covers (pheaders_from m f rounds i) (nth_phdr k)
  unfolding pheaders_from
  pheaders_from-nth zero i k f same plain lo hi s = absurd (omega arith)
  pheaders_from-nth (suc rounds) i k f same plain lo hi s =
      let f1 = elf_process_pheader f (nth_phdr i) in
      let at1 : f1.elf_memory ≡ base = elf_memory-process f (nth_phdr i) ∙ same in
      let plain1 =
        λ (k : ℕ) (lo : i + 1 ≤ k) (hi : k < i + 1 + rounds). plain k (omega arith) (omega arith) in
      simp same (elim (Bool-cases (i == k)) [
        | inl here ↦
            let e : i ≡ k = (==_iff i k).0 here in
            pheaders_from-Covers rounds (i + 1) f1 (nth_phdr k) at1 plain1
              (rw e (Covers-new f (nth_phdr k) s))
        | inr later ↦
            pheaders_from-nth rounds (i + 1) k f1 at1 plain1 (ground arith) (omega arith) s
      ])

-- After elf_process_pheaders of a file whose load segments have addresses and ends other than 0,
-- the base is set and lies at or below the address of each load segment, and the end is set and lies
-- at or below the end of each load segment: it is no upper bound of them.
pub elf_process_pheaders-Covers :
    (m : Memory) (f : ElfFile) (k : ℕ)
    → ((i : ℕ) → i < e_phnum m (elf_header f) → IsPlain (nth_phdr m (elf_header f) i))
    → k < e_phnum m (elf_header f)
    → IsSegment (nth_phdr m (elf_header f) k)
    → Covers (elf_process_pheaders m f) (nth_phdr m (elf_header f) k)
unfolding elf_process_pheaders
elf_process_pheaders-Covers m f k plain lt s =
    pheaders_from-nth m f.elf_memory (e_phnum m f.elf_memory) 0 k f refl
      (λ i lo hi. plain i (omega arith)) (omega arith) (omega arith) s
