-- ===== src/Paging.antt =====
-- The page tables of memory/paging/paging.c, over a memory of 32-bit words by their addresses. A
-- directory and its tables stand in that memory, so that a write to one may change another. A chunk
-- is given by the address of its directory.
pub mod Slots
pub mod Mapping
pub mod Translate
pub mod Chunk
mod Tests
use custom_os.Base.{
  ℕ, zero, suc, ◌+◌, ◌-◌, ◌*◌, ◌/◌, ◌%◌, ◌^◌, Bool, true, false, not, ◌||◌, Memory, store, ltb,
  ◌==◌, if◌then◌else◌, bit_or, Result, ok, err, einvarg,
}

abbrev pub page_size : ℕ
page_size = 4096

abbrev pub total_entries_per_table : ℕ
total_entries_per_table = 1024

abbrev pub word : ℕ
word = 2 ^ 32

pub pagin_is_aligned : ℕ → Bool
pagin_is_aligned addr = addr % page_size == 0

-- The two indexes that go out through the pointers.
pub paging_get_indexes : ℕ → Result (ℕ × ℕ)
unfolding pagin_is_aligned
paging_get_indexes virtual_address =
    if not (pagin_is_aligned virtual_address)
    then err einvarg
    else ok (
      virtual_address / (total_entries_per_table * page_size),
      virtual_address % (total_entries_per_table * page_size) / page_size,
    )

pub paging_is_alligned_address : ℕ → ℕ
paging_is_alligned_address ptr =
    if ptr % page_size == 0 then ptr else (ptr + page_size - ptr % page_size) % word

pub paging_align_to_lower_page : ℕ → ℕ
paging_align_to_lower_page addr = addr - addr % page_size

-- `entry & 0xfffff000`
abbrev pub table_of : ℕ → ℕ
table_of entry = entry / page_size * page_size

-- The address of `table[table_index]`, by way of `directory[directory_index]`.
pub entry_address : Memory → ℕ → ℕ × ℕ → ℕ
entry_address m directory (directory_index, table_index) =
    table_of (m (directory + 4 * directory_index)) + 4 * table_index

pub paging_set : Memory → ℕ → ℕ → ℕ → Result (Unit {0}) × Memory
unfolding pagin_is_aligned paging_get_indexes
paging_set m directory virt val =
    if not (pagin_is_aligned virt) then (err einvarg, m) else elim (paging_get_indexes virt) [
      | err e ↦ (err e, m)
      | ok indexes ↦ (ok tt, store m (entry_address m directory indexes) val)
    ]

-- Where the indexes are refused they stay 0.
pub paging_get : Memory → ℕ → ℕ → ℕ
unfolding paging_get_indexes
paging_get m directory virt = elim (paging_get_indexes virt) [
  | err e ↦ m (entry_address m directory (0, 0))
  | ok indexes ↦ m (entry_address m directory indexes)
]

pub paging_map : Memory → ℕ → ℕ → ℕ → ℕ → Result (Unit {0}) × Memory
paging_map m directory virt phys flags =
    if not (virt % page_size == 0) || not (phys % page_size == 0)
    then (err einvarg, m)
    else paging_set m directory virt (bit_or phys flags)

-- The loop over `count` pages; it stops at the first error.
pub paging_map_range : Memory → ℕ → ℕ → ℕ → ℕ → ℕ → Result (Unit {0}) × Memory
paging_map_range m directory virt phys zero flags = (ok tt, m)
paging_map_range m directory virt phys (suc count) flags =
    let (res, m') = paging_map m directory virt phys flags in
    elim res [
      | err e ↦ (err e, m')
      | ok _ ↦
          paging_map_range m' directory ((virt + page_size) % word) ((phys + page_size) % word)
            count flags
    ]

pub paging_map_to : Memory → ℕ → ℕ → ℕ → ℕ → ℕ → Result (Unit {0}) × Memory
paging_map_to m directory virt phys phys_end flags =
    if not (virt % page_size == 0)
    then (err einvarg, m)
    else if not (phys % page_size == 0)
    then (err einvarg, m)
    else if not (phys_end % page_size == 0)
    then (err einvarg, m)
    else if ltb phys_end phys
    then (err einvarg, m)
    else let total_bytes = phys_end - phys in
      paging_map_range m directory virt phys (total_bytes / page_size) flags

pub paging_get_physical_address : Memory → ℕ → ℕ → ℕ
unfolding paging_align_to_lower_page
paging_get_physical_address m directory virt =
    let virt_addr_new = paging_align_to_lower_page virt in
    let difference = virt - virt_addr_new in
    (table_of (paging_get m directory virt_addr_new) + difference) % word
