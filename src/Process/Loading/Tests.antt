-- ===== src/Process/Loading/Tests.antt =====
-- The theorems on the loading of a process at one system.
use custom_os.Base.{ltb, ◌%◌, ℕ, refl, arith, if◌then◌else◌, List, [], ◌∷◌, ◌++◌, none, inr, eio}
use custom_os.File.{Files}
use custom_os.File.OnHeap.{file_calls}
use custom_os.Heap.Filling.{Room}
use custom_os.PathParser.{Parts}
use custom_os.Process.Loading.{process_load}
use custom_os.Process.Loading.Missing.{FailsWith, process_load-FailsWith}
use custom_os.Process.System.{System, process_init}
use custom_os.Task.Save.{initial}

-- An empty pool of 2000 blocks, and no process. No file is open.
abbrev empty : System Files
empty = record {
  kernel = record {
    heap = record { table = record { entries = λ j. 0; total = 2000 }; saddr = 0x1000000 };
    memory = λ a. 7;
  };
  pages = λ a. 0;
  files = record { file_descriptors = λ i. 0; index = λ d. 0; private = λ d. 0 };
  processes = record { current_process = 0; processes = λ i. 0; id = λ p. 0 };
  tasks = record { next = λ t. 0; prev = λ t. 0; task_head = 0; task_tail = 0; current_task = 0 };
  registers = λ t. initial 0;
  page_directory = λ t. 0;
  data_of = λ p. process_init;
}

empty-Room : Room empty.kernel 0
empty-Room = record {
  filled = record {
    low = omega arith;
    taken = λ j lt. absurd (omega arith);
    free = λ j lo hi. refl;
  };
  aligned = refl;
  somewhere = omega arith;
}

-- "a.bin"
abbrev name : List ℕ
name = b'a' ∷ b'.' ∷ b'b' ∷ b'i' ∷ b'n' ∷ []

abbrev no_parts : Parts
no_parts = record { part = λ a. 0; next = λ a. 0 }

process_load-FailsWith_example :
    FailsWith eio empty (process_load (file_calls none no_parts) empty (name ++ 0 ∷ []))
process_load-FailsWith_example =
    process_load-FailsWith none no_parts empty name [] 0 3
      (omega arith, (omega arith, (omega arith, (omega arith, (omega arith, tt)))))
      (inr (λ (d, s, lt, e). ground (arith, lt, e))) empty-Room (omega arith) (omega arith) refl

-- A pool whose first four blocks are taken by a process and its program of 6 bytes in the fourth.
abbrev loaded : System Files
loaded = record empty {
  kernel = record {
    heap = record {
      table = record { entries = λ j. if ltb j 4 then 1 else 0; total = 2000 };
      saddr = 0x1000000;
    };
    memory = λ a. a % 256;
  };
}
