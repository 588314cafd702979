-- ===== src/Heap.antt =====
-- The block allocator of memory/heap/heap.c and the kernel's instance of it, memory/heap/kheap.c.
-- The table's entries are a memory that is indexed by the block, so that a write behind the end of
-- the table is visible. Addresses and sizes are 32-bit words.
pub mod Search
pub mod Mark
pub mod Laws
pub mod Faults
pub mod Sequence
pub mod Filling
pub mod Invariant
pub mod KernelHeap
mod Tests
use custom_os.Base.{
  ℕ, zero, suc, ◌+◌, ◌-◌, ◌*◌, ◌/◌, ◌%◌, ◌^◌, Bool, true, false, not, ◌||◌, Option, none, some,
  Memory, store, ltb, leb, ◌==◌, if◌then◌else◌, bit_or, Result, ok, err, einvarg, enomem,
}
use custom_os.Base.Int.{ℤ, pos, negsuc}
use custom_os.Memory.{memset}

-- `struct heap_table`
pub record Table : Type 0 where
  pub entries : Memory
  pub total : ℕ

-- `struct heap`
pub record Heap : Type 0 where
  pub table : Table
  pub saddr : ℕ

abbrev pub block_size : ℕ
block_size = 4096

abbrev pub entry_taken : ℕ
entry_taken = 0x01

abbrev pub entry_free : ℕ
entry_free = 0x00

abbrev pub has_next : ℕ
has_next = 0x80

abbrev pub is_first : ℕ
is_first = 0x40

-- 2 ^ 32, the range of a `size_t` and of a pointer
abbrev pub word : ℕ
word = 2 ^ 32

pub heap_validate_table : ℕ → ℕ → Table → Bool
heap_validate_table ptr end table = table.total == (end + word - ptr) % word / block_size

pub heap_validate_alignment : ℕ → Bool
heap_validate_alignment ptr = ptr % block_size == 0

-- The heap is written before the table is validated.
pub heap_create : Heap → ℕ → ℕ → Table → Result (Unit {0}) × Heap
unfolding heap_validate_table heap_validate_alignment
heap_create heap ptr end table =
    if not (heap_validate_alignment ptr) || not (heap_validate_alignment end)
    then (err einvarg, heap)
    else if heap_validate_table ptr end table
    then (
      ok tt,
      record {
        table = record table { entries = memset table.entries 0 entry_free table.total };
        saddr = ptr;
      },
    )
    else (err einvarg, record { table = table; saddr = ptr })

unfoldable pub heap_align_value_to_upper : ℕ → ℕ
heap_align_value_to_upper val =
    if val % block_size == 0 then val else (val - val % block_size + block_size) % word

-- `entry & 0x0f`
abbrev pub heap_get_entry_type : ℕ → ℕ
heap_get_entry_type entry = entry % 16

-- The loop of `heap_get_start_block` from block `i`, with `bc` and `bs` (`none` is -1).
pub search : Memory → ℕ → ℕ → ℕ → ℕ → Option ℕ → Option ℕ
search entries want zero i bc bs = bs
search entries want (suc rounds) i bc bs =
    let reset = search entries want rounds (i + 1) 0 none in
    let start : Option ℕ = elim bs [ none ↦ some i | some s ↦ some s ] in
    let longer = search entries want rounds (i + 1) (bc + 1) start in
    if heap_get_entry_type (entries i) == entry_free
    then (if bc + 1 == want then start else longer)
    else reset

pub heap_get_start_block : Heap → ℕ → Result ℕ
unfolding search
heap_get_start_block heap total_blocks =
    elim (search heap.table.entries total_blocks heap.table.total 0 0 none) [
      | none ↦ err enomem
      | some bs ↦ ok bs
    ]

abbrev pub heap_block_to_address : Heap → ℕ → ℕ
heap_block_to_address heap block = (heap.saddr + block * block_size) % word

-- The entry for block `i + 1`, as the loop leaves it after block `i`.
abbrev pub entry_after : ℕ → ℕ → ℕ
entry_after i end_block = if i + 1 == end_block then entry_taken else bit_or entry_taken has_next

-- The loop of `heap_mark_blocks_taken`.
pub mark_taken : Memory → ℕ → ℕ → ℕ → ℕ → Memory
mark_taken entries zero i end_block entry = entries
mark_taken entries (suc rounds) i end_block entry =
    mark_taken (store entries i entry) rounds (i + 1) end_block (entry_after i end_block)

pub heap_mark_blocks_taken : Heap → ℕ → ℕ → Heap
unfolding mark_taken
heap_mark_blocks_taken heap start_block total_blocks =
    let end_block = start_block + total_blocks - 1 in
    let first = bit_or entry_taken is_first in
    let entry =
      if ltb 1 total_blocks then bit_or (bit_or entry_taken is_first) has_next else first in
    record heap {
      table = record (heap.table) {
        entries = mark_taken heap.table.entries total_blocks start_block end_block entry;
      };
    }

-- The result is the address, 0 where the search fails.
pub heap_malloc_blocks : Heap → ℕ → ℕ × Heap
unfolding heap_get_start_block heap_mark_blocks_taken
heap_malloc_blocks heap total_blocks = elim (heap_get_start_block heap total_blocks) [
  | err e ↦ (0, heap)
  | ok start_block ↦
      (heap_block_to_address heap start_block, heap_mark_blocks_taken heap start_block total_blocks)
]

-- The loop of `heap_mark_blocks_free`, with the rounds that `i < total` leaves.
pub mark_free : Memory → ℕ → ℕ → Memory
mark_free entries zero i = entries
mark_free entries (suc rounds) i =
    let cleared = store entries i entry_free in
    let rest = mark_free cleared rounds (i + 1) in
    if entries i / has_next % 2 == 0 then cleared else rest

pub heap_mark_blocks_free : Heap → ℕ → Heap
unfolding mark_free
heap_mark_blocks_free heap starting_block = record heap {
  table = record (heap.table) {
    entries = mark_free heap.table.entries (heap.table.total - starting_block) starting_block;
  };
}

-- `((int)(address - saddr)) / 4096`, which C rounds towards 0.
pub heap_address_to_block : Heap → ℕ → ℤ
heap_address_to_block heap address =
    let d = (address + word - heap.saddr) % word in
    let below = (word - d) / block_size in
    if ltb d (2 ^ 31)
    then pos (d / block_size)
    else if below == 0
    then pos 0
    else negsuc (below - 1)

pub heap_malloc : Heap → ℕ → ℕ × Heap
unfolding heap_align_value_to_upper heap_malloc_blocks
heap_malloc heap size = heap_malloc_blocks heap (heap_align_value_to_upper size / block_size)

-- `none` is a negative block: the loop then writes below the table.
pub heap_free : Heap → ℕ → Option Heap
unfolding heap_address_to_block heap_mark_blocks_free
heap_free heap ptr = elim (heap_address_to_block heap ptr) [
  | pos block ↦ some (heap_mark_blocks_free heap block)
  | negsuc n ↦ none
]

abbrev pub heap_size_bytes : ℕ
heap_size_bytes = 104857600

abbrev pub heap_address : ℕ
heap_address = 0x01000000

-- `kheap_init`, on a machine whose table area holds `entries`. What it prints is left out.
pub kheap_init : Heap → Memory → Result (Unit {0}) × Heap
kheap_init kernel_heap entries =
    heap_create kernel_heap heap_address (heap_address + heap_size_bytes)
      (record { entries = entries; total = heap_size_bytes / block_size })

-- The kernel's heap with the memory that it hands out.
pub record Kernel : Type 0 where
  pub heap : Heap
  pub memory : Memory

pub kmalloc : Kernel → ℕ → ℕ × Kernel
unfolding heap_malloc
kmalloc k size = let (ptr, heap) = heap_malloc k.heap size in (ptr, record k { heap = heap })

pub kzalloc : Kernel → ℕ → ℕ × Kernel
unfolding kmalloc memset
kzalloc k size =
    let (ptr, k') = kmalloc k size in
    if ptr == 0 then (0, k') else (ptr, record k' { memory = memset k'.memory ptr 0 size })

pub kfree : Kernel → ℕ → Option Kernel
unfolding heap_free
kfree k ptr = elim (heap_free k.heap ptr) [
  | none ↦ none
  | some heap ↦ some (record k { heap = heap })
]
