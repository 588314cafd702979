-- ===== src/Process/Tests.antt =====
-- Runs of task/process.c, and each theorem on it at one input.
use custom_os.Base.{
  ℕ, ◌+◌, ◌-◌, ◌*◌, ◌/◌, ◌<◌, ◌≡◌, ◌≢◌, refl, true, ◌&&◌, ltb, leb, ◌==◌, if◌then◌else◌, Memory,
  store, Option, none, some, ok, [], ◌∷◌, arith,
}
use custom_os.Base.Int.{pos}
use custom_os.Heap.{heap_malloc, heap_align_value_to_upper}
use custom_os.Heap.Search.{IsRun}
use custom_os.Heap.Laws.{blocks_for, heap_malloc-Reserves}
use custom_os.Paging.Slots.{IsDirectory}
use custom_os.Process.Lifetime.{HasRoom, Freed, process_free-process_malloc}
use custom_os.Process.{
  Process, Processes, World, process_get, process_unlink, process_count_command_arguments,
  process_is_process_pointer, process_allocation_unjoin, process_malloc, process_free,
  process_terminate_allocations, terminate_from, find,
}
use custom_os.Paging.{paging_get_physical_address}
use custom_os.Process.Image.{binary, process_map_memory}
use custom_os.Process.Image.Mapped.{process_map_memory-binary}
use custom_os.Process.Allocations.{process_allocation_unjoin_lem}

-- Two processes in the slots 0 and 2, the second of them current.
abbrev two : Processes
two = record {
  current_process = 200;
  processes = λ i. if i == 0 then 100 else if i == 2 then 200 else 0;
  id = λ p. if p == 200 then 2 else 0;
}

abbrev running : Option Processes → ℕ
running none = 0
running (some s) = s.current_process

unlinked : running (process_unlink two 200) ≡ 100
unfolding process_unlink
unlinked = refl

got : (process_get two (pos 2) ≡ 200) × (process_get two (pos 12) ≡ 0)
unfolding process_get
got = (refl, refl)

counted : process_count_command_arguments {A = ℕ} (7 ∷ 8 ∷ []) ≡ 2
unfolding process_count_command_arguments
counted = refl

abbrev program : Process
program = record {
  ptr = λ i. if i == 1 then 0x1005000 else 0x1009000;
  size = λ i. 9;
  page_directory = 0x100000;
}

process_allocation_unjoin_lem_example :
    ((process_allocation_unjoin program 0x1005000).ptr 1
      ≡ (if program.ptr 1 == 0x1005000 then 0 else program.ptr 1))
    × ((process_allocation_unjoin program 0x1005000).size 1
        ≡ (if program.ptr 1 == 0x1005000 then 0 else 9))
process_allocation_unjoin_lem_example =
    process_allocation_unjoin_lem program 0x1005000 1 (omega arith)

owned : process_is_process_pointer program 0x1005000 ≡ true
unfolding process_is_process_pointer find
owned = refl

-- A directory at 0x100000, with its tables in the pages from 0x200000 on.
abbrev tables : Memory
tables =
    λ a. if leb 0x100000 a && ltb a 0x101000 then 0x200000 + (a - 0x100000) / 4 * 4096 + 7 else 0

tables-IsDirectory : IsDirectory tables 0x100000
tables-IsDirectory = record {
  aligned = refl;
  apart = λ i j hi hj ne. ground arith;
  separate = λ i hi. ground arith;
}

-- A pool of eight blocks whose first one is taken, and a process with one other allocation.
abbrev world : World
world = record {
  kernel = record {
    heap = record {
      table = record { entries = store (λ j. 0) 0 0x41; total = 8 };
      saddr = 0x1000000;
    };
    memory = λ a. 7;
  };
  pages = tables;
  process = record { ptr = store (λ i. 0) 0 0x5000; size = λ i. 0; page_directory = 0x100000 };
}

world-run : IsRun world.kernel.heap.table.entries 8 2 (blocks_for 5000)
unfolding heap_align_value_to_upper
world-run = record { fits = omega arith; free = λ j lo hi. ground arith }

world-HasRoom : HasRoom world.kernel 5000 2
world-HasRoom = record {
  low = omega arith;
  clean = λ j lt e. ground arith;
  aligned = refl;
  somewhere = omega arith;
  asked = omega arith;
  fits = omega arith;
  run = world-run;
}

world-apart : (j : ℕ) → j < 1024 → world.process.ptr j ≢ (heap_malloc world.kernel.heap 5000).0
world-apart j lt =
    let (b, is) =
      (heap_malloc-Reserves world.kernel.heap 5000 2 world-HasRoom.low (omega arith) (omega arith)
        world-run).1 in
    ground (arith, is.address)

process_free-process_malloc_example :
    (w' : World) × (process_malloc world 5000 ≡ some ((heap_malloc world.kernel.heap 5000).0, w'))
    × Freed world.kernel.heap.table.entries world.process.ptr
        (process_free w' (heap_malloc world.kernel.heap 5000).0)
process_free-process_malloc_example =
    process_free-process_malloc world 5000 2 1 world-HasRoom tables-IsDirectory (omega arith) refl
      world-apart

-- A process with no allocation.
abbrev idle : World
idle = record world { process = record { ptr = λ i. 0; size = λ i. 0; page_directory = 0x100000 } }

terminated : process_terminate_allocations idle ≡ some idle
unfolding process_terminate_allocations terminate_from
terminated = refl

process_map_memory-binary_example :
    ((process_map_memory (λ a. 0) tables 0x100000 (binary 0x900000 5000) 0xA00000).0 ≡ ok tt)
    × (paging_get_physical_address
          (process_map_memory (λ a. 0) tables 0x100000 (binary 0x900000 5000) 0xA00000).1
          0x100000
          0x401001
        ≡ 0x901001)
    × (paging_get_physical_address
          (process_map_memory (λ a. 0) tables 0x100000 (binary 0x900000 5000) 0xA00000).1
          0x100000
          0x3FEFFC
        ≡ 0xA03FFC)
process_map_memory-binary_example =
    process_map_memory-binary (λ a. 0) tables 0x100000 0x900000 5000 0xA00000 0x401001 0x3FEFFC
      tables-IsDirectory refl (omega arith) refl (omega arith) (omega arith) (omega arith)
      (omega arith) (omega arith)
