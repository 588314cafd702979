-- ===== src/Process/Loading/Stack.antt =====
-- load_stack and load_mapped, the part of process_load_for_slot of task/process.c from the stack to
-- the task, for a flat binary that is in memory.
use custom_os.Base.{ℕ, ◌+◌, ◌<◌, ◌≡◌, ◌==◌, if◌then◌else◌, List, some, ok, store}
use custom_os.Heap.{Kernel}
use custom_os.Paging.{paging_get_physical_address}
use custom_os.Paging.Chunk.{Paging4gbChunk}
use custom_os.Process.Image.{Filetype}
use custom_os.Process.Loading.{Answer}
use custom_os.Process.Loading.Mapped.{directory_of}
use custom_os.Process.System.{System, set_data}
use custom_os.Task.{task_new}
use custom_os.Task.Save.{initial}

module _ {F : Type 0} where
  -- The process behind the stack and the name, in the system that task_new is given.
  abbrev named : System F → Kernel → ℕ → ℕ → ℕ × Filetype → ℕ → List ℕ → System F
  named s k1 process stack program slot name =
      let d = s.data_of process in
      let s1 =
        set_data (record s { kernel = k1 }) process
          (record d { program = some program; stack = stack }) in
      let s2 = set_data s1 process (record (s1.data_of process) { filename = name }) in
      record s2 { processes = record (s.processes) { id = store s.processes.id process slot } }

  -- The system behind new_task.
  abbrev joined : System F → ℕ → Paging4gbChunk → System F
  joined s task made = record s {
    kernel = made.kernel;
    pages = made.pages;
    page_directory = store s.page_directory task made.chunk;
    tasks = task_new s.tasks task;
    registers = λ t. if t == task then initial 0x400000 else s.registers t;
  }

  -- The end of the loading of a program of `size` bytes that stands at `a`, in front of the free blocks.
  pub record Ends (s : System F) (process slot a size : ℕ) (out : Answer F ℕ) : Type 0 where
    pub after : System F
    pub loaded : out ≡ some (ok process, after)
    pub found : after.processes.processes slot ≡ process
    pub numbered : after.processes.id process ≡ slot
    pub queued : after.tasks ≡ task_new s.tasks (after.data_of process).task
    pub starts : after.registers (after.data_of process).task ≡ initial 0x400000
    pub program :
        (i : ℕ)
        → i < size
        → (after.kernel).memory (
            paging_get_physical_address after.pages
              (directory_of after (after.data_of process).task)
              (0x400000 + i))
          ≡ s.kernel.memory (a + i)
