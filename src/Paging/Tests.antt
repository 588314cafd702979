-- ===== src/Paging/Tests.antt =====
-- Each theorem on the page tables of memory/paging/paging.c at one input.
use custom_os.Base.{
  ◌+◌, ◌-◌, ◌*◌, ◌/◌, ◌%◌, ◌<◌, ◌≤◌, ◌≡◌, refl, ◌&&◌, Memory, ltb, leb, ◌==◌, if◌then◌else◌, arith,
  ok,
}
use custom_os.Heap.{Kernel}
use custom_os.Paging.Chunk.{paging_new_4gb}
use custom_os.Paging.Chunk.Identity.{IsIdentity, paging_new_4gb-IsIdentity}
use custom_os.Paging.{
  paging_set, paging_get, paging_map_range, paging_map_to, paging_get_physical_address,
  paging_is_alligned_address, paging_align_to_lower_page,
}
use custom_os.Paging.Slots.{IsDirectory, align_bounds, paging_get-paging_set}
use custom_os.Paging.Mapping.{Maps, paging_map_range-Maps, paging_map_to-Maps}
use custom_os.Paging.Translate.{physical_address-paging_map_to}

-- A directory at 0x100000, with its tables in the pages from 0x200000 on.
abbrev tables : Memory
tables =
    λ a. if leb 0x100000 a && ltb a 0x101000 then 0x200000 + (a - 0x100000) / 4 * 4096 + 7 else 0

tables-IsDirectory : IsDirectory tables 0x100000
tables-IsDirectory = record {
  aligned = refl;
  apart = λ i j hi hj ne. ground arith;
  separate = λ i hi. ground arith;
}

align_bounds_example :
    (paging_is_alligned_address 4097 % 4096 ≡ 0)
    × (4097 ≤ paging_is_alligned_address 4097)
    × (paging_is_alligned_address 4097 < 4097 + 4096)
    × (paging_align_to_lower_page 4097 % 4096 ≡ 0)
    × (paging_align_to_lower_page 4097 ≤ 4097)
    × (4097 < paging_align_to_lower_page 4097 + 4096)
align_bounds_example = align_bounds 4097 (omega arith)

paging_get-paging_set_example :
    ((paging_set tables 0x100000 0x400000 0x5007).0 ≡ ok tt)
    × (paging_get (paging_set tables 0x100000 0x400000 0x5007).1 0x100000 0x401000
        ≡ (if 0x400000 == 0x401000 then 0x5007 else paging_get tables 0x100000 0x401000))
    × IsDirectory (paging_set tables 0x100000 0x400000 0x5007).1 0x100000
paging_get-paging_set_example =
    paging_get-paging_set tables 0x100000 0x400000 0x401000 0x5007 tables-IsDirectory refl refl
      (omega arith) (omega arith)

paging_map_range-Maps_example :
    Maps tables 0x100000 0x3FF000 0x8000 2 7 0x400000
      (paging_map_range tables 0x100000 0x3FF000 0x8000 2 7)
paging_map_range-Maps_example =
    paging_map_range-Maps 2 tables 0x100000 0x3FF000 0x8000 7 0x400000 tables-IsDirectory
      (refl, omega arith) (refl, omega arith) refl (omega arith)

paging_map_to-Maps_example :
    Maps tables 0x100000 0x3FF000 0x8000
      ((0xA000 - 0x8000) / 4096)
      7
      0x400000
      (paging_map_to tables 0x100000 0x3FF000 0x8000 0xA000 7)
paging_map_to-Maps_example =
    paging_map_to-Maps tables 0x100000 0x3FF000 0x8000 0xA000 7 0x400000 tables-IsDirectory
      (refl, omega arith) refl refl (omega arith) (omega arith) refl (omega arith)

physical_address-paging_map_to_example :
    paging_get_physical_address
      (paging_map_to tables 0x100000 0x3FF000 0x8000 0xA000 7).1
      0x100000
      0x400123
    ≡ 0x8000 + (0x400123 - 0x3FF000)
physical_address-paging_map_to_example =
    physical_address-paging_map_to tables 0x100000 0x3FF000 0x8000 0xA000 7 0x400123
      tables-IsDirectory (refl, omega arith) refl refl (omega arith) (omega arith) (omega arith)
      (omega arith) (omega arith)

-- A heap of 2000 free blocks.
abbrev fresh : Kernel
fresh = record {
  heap = record { table = record { entries = λ i. 0; total = 2000 }; saddr = 0x1000000 };
  memory = λ a. 0;
}

paging_new_4gb-IsIdentity_example : IsIdentity fresh 0xB8123 7 0 (paging_new_4gb fresh (λ a. 0) 7)
paging_new_4gb-IsIdentity_example =
    paging_new_4gb-IsIdentity fresh (λ a. 0) 7 0 0xB8123 (omega arith) refl (omega arith)
      (record { low = omega arith; taken = λ j lt. absurd (omega arith); free = λ j lo hi. refl })
      (omega arith) (omega arith)
