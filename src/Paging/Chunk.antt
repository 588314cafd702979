-- ===== src/Paging/Chunk.antt =====
-- The making and the freeing of the page tables of a whole address space, of memory/paging/paging.c.
-- The tables are allocated on the kernel's heap; their words are a memory of its own, beside the bytes
-- of the heap.
pub mod Words
pub mod Tables
pub mod Identity
use custom_os.Base.{ℕ, zero, suc, ◌+◌, ◌*◌, ◌%◌, Memory, store, bit_or, Option, none, some}
use custom_os.Heap.{Kernel, kzalloc, kfree}
use custom_os.Paging.{page_size, total_entries_per_table, word, table_of}

-- `PAGING_IS_WRITEABLE`
abbrev pub is_writeable : ℕ
is_writeable = 2

-- The inner loop: the words of one table, from word `b` on.
pub fill_table : Memory → ℕ → ℕ → ℕ → ℕ → ℕ → Memory
fill_table m entry offset flags zero b = m
fill_table m entry offset flags (suc rounds) b =
    fill_table (store m (entry + 4 * b) (bit_or ((offset + b * page_size) % word) flags)) entry
      offset flags rounds (b + 1)

-- The outer loop, from table `i` on. What kzalloc returns is not tested.
pub new_tables : Kernel → Memory → ℕ → ℕ → ℕ → ℕ → ℕ → Kernel × Memory
new_tables k m directory flags offset zero i = (k, m)
new_tables k m directory flags offset (suc rounds) i =
    let (entry, k') = kzalloc k (4 * total_entries_per_table) in
    let filled = fill_table m entry offset flags total_entries_per_table 0 in
    new_tables k' (store filled (directory + 4 * i) (bit_or (bit_or entry flags) is_writeable))
      directory flags ((offset + total_entries_per_table * page_size) % word) rounds (i + 1)

-- `struct paging_4gb_chunk` by its address, with the kernel and the words behind the call.
pub record Paging4gbChunk : Type 0 where
  pub chunk : ℕ
  pub directory_entry : ℕ
  pub kernel : Kernel
  pub pages : Memory

-- `sizeof(sizeof(...))` asks for four bytes for the directory, which the heap rounds up to a block.
pub paging_new_4gb : Kernel → Memory → ℕ → Paging4gbChunk
paging_new_4gb k m flags =
    let (directory, k1) = kzalloc k 4 in
    let (k2, m2) = new_tables k1 m directory flags 0 total_entries_per_table 0 in
    let (chunk, k3) = kzalloc k2 4 in
    record {
      chunk = chunk;
      directory_entry = directory;
      kernel = k3;
      pages = store m2 chunk directory;
    }

-- The loop of `paging_free_4gb`, from entry `i`.
pub free_tables : Kernel → Memory → ℕ → ℕ → ℕ → Option Kernel
free_tables k m directory zero i = some k
free_tables k m directory (suc rounds) i = elim (kfree k (table_of (m (directory + 4 * i)))) [
  | none ↦ none
  | some k' ↦ free_tables k' m directory rounds (i + 1)
]

pub paging_free_4gb : Kernel → Memory → ℕ → Option Kernel
unfolding free_tables
paging_free_4gb k m chunk = elim (free_tables k m (m chunk) total_entries_per_table 0) [
  | none ↦ none
  | some k1 ↦ elim (kfree k1 (m chunk)) [ none ↦ none | some k2 ↦ kfree k2 chunk ]
]
