-- ===== src/SystemCalls/Tests.antt =====
-- The commands, each at one machine, and the theorem on memory at one program.
use custom_os.Base.{
  ℕ, ◌+◌, ◌*◌, ◌/◌, ◌-◌, ◌<◌, ◌≡◌, ◌≢◌, refl, arith, Memory, store, ltb, leb, ◌&&◌, ◌==◌,
  if◌then◌else◌, Option, none, some,
}
use custom_os.Base.Int.{pos}
use custom_os.Heap.{heap_malloc, heap_align_value_to_upper}
use custom_os.Heap.Laws.{blocks_for, heap_malloc-Reserves}
use custom_os.Heap.Search.{IsRun}
use custom_os.Idt.{Idt, no_desc}
use custom_os.Paging.Slots.{IsDirectory}
use custom_os.Process.{World}
use custom_os.Process.Lifetime.{HasRoom}
use custom_os.SystemCalls.{
  Machine, Command, isr80h_command0_sum, isr80h_command4_malloc, isr80h_command5_free, invoke,
  task_get_stack_item,
}
use custom_os.SystemCalls.Allocation.{MachineFreed, invoke-free_malloc}

-- A directory at 0x100000, with its tables in the pages from 0x200000 on.
abbrev tables : Memory
tables =
    λ a. if leb 0x100000 a && ltb a 0x101000 then 0x200000 + (a - 0x100000) / 4 * 4096 + 7 else 0

tables-IsDirectory : IsDirectory tables 0x100000
tables-IsDirectory = record {
  aligned = refl;
  apart = λ i j hi hj ne. ground arith;
  separate = λ i hi. ground arith;
}

-- A pool of four blocks whose first one is taken, and a process with no allocation.
abbrev world : World
world = record {
  kernel = record {
    heap = record {
      table = record { entries = store (λ j. 0) 0 0x41; total = 4 };
      saddr = 0x1000000;
    };
    memory = λ a. 7;
  };
  pages = tables;
  process = record { ptr = λ i. 0; size = λ i. 0; page_directory = 0x100000 };
}

-- The program asks for 100 bytes; the second item of its stack is 0xFFFFFFFF. Its keyboard holds a
-- byte from 128 on.
abbrev program : Machine
program = record {
  esp = 0x3FEFF0;
  user = store (λ a. 0xFFFFFFFF) 0x3FEFF0 100;
  world = world;
  input = record {
    buffers = λ p. record { buffer = λ i. 0x80; tail = 1; head = 0 };
    current_process = 0x5000;
    task_process = 0x5000;
  };
  terminal = record { video_mem = λ i. 0; row = 0; col = 0 };
}

abbrev value : Option (ℕ × Machine) → ℕ
value none = 0
value (some (result, m)) = result

-- 100 + (-1)
summed : value (isr80h_command0_sum program) ≡ 99
unfolding isr80h_command0_sum task_get_stack_item
summed = refl

-- The code of the commands 4 and 5 stands at 0x140000 and 0x150000.
abbrev code : ℕ → Command
code = λ a. if a == 0x140000 then isr80h_command4_malloc else isr80h_command5_free

abbrev idt : Idt
idt = record {
  idt_descriptors = λ i. no_desc;
  interrupt_callbacks = λ i. 0;
  isr80h_commands = λ i. 0x100000 + i * 0x10000;
}

world-run : IsRun world.kernel.heap.table.entries 4 1 (blocks_for 100)
unfolding heap_align_value_to_upper
world-run = record { fits = omega arith; free = λ j lo hi. ground arith }

world-HasRoom : HasRoom world.kernel 100 1
world-HasRoom = record {
  low = omega arith;
  clean = λ j lt e. ground arith;
  aligned = refl;
  somewhere = omega arith;
  asked = omega arith;
  fits = omega arith;
  run = world-run;
}

world-apart : (j : ℕ) → j < 1024 → world.process.ptr j ≢ (heap_malloc world.kernel.heap 100).0
world-apart j lt =
    let (b, is) =
      (heap_malloc-Reserves world.kernel.heap 100 1 world-HasRoom.low (omega arith) (omega arith)
        world-run).1 in
    ground (arith, is.address)

asked : task_get_stack_item program 0 ≡ 100
unfolding task_get_stack_item
asked = refl

invoke-free_malloc_example :
    (w : World) × (invoke code idt (pos 4) program
      ≡ ((heap_malloc world.kernel.heap 100).0, some (record program { world = w })))
    × MachineFreed world.kernel.heap.table.entries world.process.ptr
        (invoke code idt (pos 5) (record program {
          world = w;
          esp = 0x3FEFE0;
          user = λ a. (heap_malloc world.kernel.heap 100).0;
        })).1
invoke-free_malloc_example =
    invoke-free_malloc code idt program 100 1 0 0x3FEFE0
      (λ a. (heap_malloc world.kernel.heap 100).0)
      (record { registered = omega arith; stands = refl })
      (record { registered = omega arith; stands = refl }) asked world-HasRoom tables-IsDirectory
      (omega arith) refl world-apart refl
