-- ===== src/Process.antt =====
-- The processes of task/process.c: the table of processes, and the memory that a process allocates,
-- which is taken from the kernel's heap and mapped in the page directory of its task. The bytes of
-- the heap and the words of the page tables are two memories.
pub mod Allocations
pub mod Arguments
pub mod Lifetime
pub mod Image
pub mod Loading
pub mod System
mod Tests
use custom_os.Base.{
  ℕ, zero, suc, ◌+◌, ◌-◌, ◌%◌, ◌^◌, Bool, true, false, Memory, store, leb, ◌==◌, if◌then◌else◌,
  Option, none, some, Result, ok, err, enomem, eistkn, List, [], ◌∷◌,
}
use custom_os.Base.Int.{ℤ, pos, negsuc}
use custom_os.Heap.{Kernel, kzalloc, kfree}
use custom_os.Paging.{paging_map_to, paging_is_alligned_address}

abbrev pub max_program_allocations : ℕ
max_program_allocations = 1024

abbrev pub max_processes : ℕ
max_processes = 12

-- `PAGING_IS_WRITEABLE | PAGING_IS_PRESENT | PAGING_ACCESS_FROM_ALL`
abbrev pub flags_all : ℕ
flags_all = 7

-- The variables of the file, with the field `id` of the processes by their addresses.
pub record Processes : Type 0 where
  pub current_process : ℕ
  pub processes : Memory
  pub id : Memory

pub process_get : Processes → ℤ → ℕ
process_get s (negsuc n) = 0
process_get s (pos process_id) = if leb max_processes process_id then 0 else s.processes process_id

pub process_switch : Processes → ℕ → Processes
process_switch s process = record s { current_process = process }

-- The first element from `i` on that is other than 0: the loop of `process_switch_to_any`.
pub find_any : Memory → ℕ → ℕ → Option ℕ
find_any m zero i = none
find_any m (suc rounds) i =
    let rest = find_any m rounds (i + 1) in if m i == 0 then rest else some i

-- `none` is the panic.
pub process_switch_to_any : Processes → Option Processes
unfolding find_any process_switch
process_switch_to_any s = elim (find_any s.processes max_processes 0) [
  | none ↦ none
  | some i ↦ some (process_switch s (s.processes i))
]

pub process_unlink : Processes → ℕ → Option Processes
unfolding process_switch_to_any
process_unlink s process =
    let removed = record s { processes = store s.processes (s.id process) 0 } in
    if s.current_process == process then process_switch_to_any removed else some removed

-- The first element from `i` on that is `x`: the loops that compare with one value.
pub find : Memory → ℕ → ℕ → ℕ → Option ℕ
find m x zero i = none
find m x (suc rounds) i = let rest = find m x rounds (i + 1) in if m i == x then some i else rest

pub process_get_free_slot : Processes → Result ℕ
process_get_free_slot s = elim (find s.processes 0 max_processes 0) [
  | none ↦ err eistkn
  | some i ↦ ok i
]

-- The arguments, by the list's nodes.
pub process_count_command_arguments {ℓ} : {A : Type ℓ} → List A → ℕ
process_count_command_arguments [] = 0
process_count_command_arguments (argument ∷ next) = suc (process_count_command_arguments next)

-- The array `allocations` of a process, and the page directory of its task.
pub record Process : Type 0 where
  pub ptr : Memory
  pub size : Memory
  pub page_directory : ℕ

-- A process with the kernel's heap and the page tables.
pub record World : Type 0 where
  pub kernel : Kernel
  pub pages : Memory
  pub process : Process

pub process_find_free_allocation_index : Process → Result ℕ
process_find_free_allocation_index process = elim (find process.ptr 0 max_program_allocations 0) [
  | none ↦ err enomem
  | some i ↦ ok i
]

pub process_is_process_pointer : Process → ℕ → Bool
process_is_process_pointer process ptr = elim (find process.ptr ptr max_program_allocations 0) [
  | none ↦ false
  | some i ↦ true
]

-- The index of the allocation.
pub process_get_allocation_by_addr : Process → ℕ → Option ℕ
process_get_allocation_by_addr process addr = find process.ptr addr max_program_allocations 0

-- The loop of `process_allocation_unjoin`.
pub unjoin_from : Process → ℕ → ℕ → ℕ → Process
unjoin_from process ptr zero i = process
unjoin_from process ptr (suc rounds) i =
    let cleared = record process { ptr = store process.ptr i 0; size = store process.size i 0 } in
    unjoin_from (if process.ptr i == ptr then cleared else process) ptr rounds (i + 1)

pub process_allocation_unjoin : Process → ℕ → Process
process_allocation_unjoin process ptr = unjoin_from process ptr max_program_allocations 0

-- The end of the mapping of `size` bytes at `ptr`.
abbrev pub end_of : ℕ → ℕ → ℕ
end_of ptr size = paging_is_alligned_address ((ptr + size) % 2 ^ 32)

-- The part of `process_malloc` behind the search for a free entry; the result of paging_map_to is not
-- looked at.
pub join : World → ℕ → ℕ → ℕ → World
join w index ptr size = record w {
  pages = (paging_map_to w.pages w.process.page_directory ptr ptr (end_of ptr size) flags_all).1;
  process = record (w.process) {
    ptr = store w.process.ptr index ptr;
    size = store w.process.size index size;
  };
}

-- The address, 0 for none. `none` is a kfree of an address below the pool.
pub process_malloc : World → ℕ → Option (ℕ × World)
unfolding process_find_free_allocation_index join
process_malloc w size =
    let (ptr, kernel) = kzalloc w.kernel size in
    if ptr == 0
    then some (0, record w { kernel = kernel })
    else elim (process_find_free_allocation_index w.process) [
      | err e ↦ elim (kfree kernel ptr) [ none ↦ none | some k ↦ some (0, record w { kernel = k }) ]
      | ok index ↦ some (ptr, join (record w { kernel = kernel }) index ptr size)
    ]

-- The part of `process_free` behind the search for the allocation `index`.
pub release : World → ℕ → ℕ → Option World
unfolding process_allocation_unjoin
release w ptr index =
    let at = w.process.ptr index in
    let (res, pages) =
      paging_map_to w.pages w.process.page_directory at at (end_of at (w.process.size index)) 0 in
    elim res [
      | err e ↦ some (record w { pages = pages })
      | ok _ ↦ elim (kfree w.kernel ptr) [
        | none ↦ none
        | some k ↦ some (record {
          kernel = k;
          pages = pages;
          process = process_allocation_unjoin w.process ptr;
        })
      ]
    ]

pub process_free : World → ℕ → Option World
unfolding process_get_allocation_by_addr release
process_free w ptr = elim (process_get_allocation_by_addr w.process ptr) [
  | none ↦ some w
  | some index ↦ release w ptr index
]

-- The loop of `process_terminate_allocations`, from entry `i`.
pub terminate_from : World → ℕ → ℕ → Option World
terminate_from w zero i = some w
terminate_from w (suc rounds) i =
    elim (if w.process.ptr i == 0 then some w else process_free w (w.process.ptr i)) [
      | none ↦ none
      | some w' ↦ terminate_from w' rounds (i + 1)
    ]

pub process_terminate_allocations : World → Option World
process_terminate_allocations w = terminate_from w max_program_allocations 0
