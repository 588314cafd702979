-- ===== src/Process/System.antt =====
-- The processes with all that belongs to them, of task/process.c and task/task.c: the kernel's heap, the
-- page tables, the list of tasks and the table of processes, with the making and the freeing of a task
-- and the end of a process.
pub mod Fresh
pub mod Start
use custom_os.Base.{
  ℕ, ◌==◌, if◌then◌else◌, List, replicate, Memory, store, Option, none, some, Result, ok, err,
  Errno, enomem, eio, einvarg,
}
use custom_os.Elf.{ElfFile, elf_header, elf_get_entry}
use custom_os.Elf.Loading.{free_some, elf_close}
use custom_os.Heap.{Kernel, kzalloc, kfree}
use custom_os.Paging.Chunk.{paging_new_4gb, paging_free_4gb}
use custom_os.Process.{Process, Processes, World, process_terminate_allocations, process_unlink}
use custom_os.Process.Image.{Filetype, binary, elf}
use custom_os.Task.{Tasks, task_new, task_list_remove}
use custom_os.Task.Save.{Registers, task_init}

-- `struct process` without its id, its keyboard and the union of its program, which is given with the
-- pointer in it; `none` is a NULL in the union, with the file type 0 of an ELF file.
pub record ProcessData : Type 0 where
  pub filename : List ℕ
  pub task : ℕ
  pub ptr : Memory
  pub size : Memory
  pub program : Option (ℕ × Filetype)
  pub stack : ℕ
  pub argc : ℕ
  pub argv : ℕ

-- Behind process_init.
abbrev pub process_init : ProcessData
process_init = record {
  filename = replicate 108 0;
  task = 0;
  ptr = λ i. 0;
  size = λ i. 0;
  program = none;
  stack = 0;
  argc = 0;
  argv = 0;
}

-- The processes and the tasks by their addresses, `F` the state of the files.
pub record System (F : Type 0) : Type 0 where
  pub kernel : Kernel
  pub pages : Memory
  pub files : F
  pub processes : Processes
  pub tasks : Tasks
  pub registers : ℕ → Registers
  pub page_directory : Memory
  pub data_of : ℕ → ProcessData

-- `sizeof(struct task)` and `sizeof(struct process)`
abbrev pub task_size : ℕ
task_size = 64

abbrev pub process_size : ℕ
process_size = 9364

-- The entry of the ELF file of a process, for one that has one; the header is read from the bytes.
abbrev pub entry_of : Memory → ℕ × Filetype → Option ℕ
entry_of m (p, binary ptr size) = none
entry_of m (p, elf file) = some (elf_get_entry m (elf_header file))

-- Both return 0.
pub process_free_binary_data : Kernel → ℕ → Option Kernel
unfolding free_some
process_free_binary_data k ptr = free_some k ptr

pub process_free_elf_data : Kernel → ℕ → ElfFile → Option Kernel
unfolding elf_close
process_free_elf_data k elf_file file =
    if elf_file == 0 then some k else elf_close k elf_file file.elf_memory

module _ {F : Type 0} where
  abbrev pub with_kernel : System F → Option Kernel → Option (System F)
  with_kernel s none = none
  with_kernel s (some k) = some (record s { kernel = k })

  abbrev pub set_data : System F → ℕ → ProcessData → System F
  set_data s p d = record s { data_of = λ q. if p == q then d else s.data_of q }

  -- What process_malloc and process_free see of a process: its directory is that of its task.
  abbrev pub world_of : System F → ℕ → World
  world_of s p = record {
    kernel = s.kernel;
    pages = s.pages;
    process = record {
      ptr = (s.data_of p).ptr;
      size = (s.data_of p).size;
      page_directory = s.pages (s.page_directory (s.data_of p).task);
    };
  }

  abbrev pub in_world : System F → ℕ → World → System F
  in_world s p w =
      set_data (record s { kernel = w.kernel; pages = w.pages }) p
        (record (s.data_of p) { ptr = w.process.ptr; size = w.process.size })

  pub task_free : System F → ℕ → Option (System F)
  task_free s task = elim (paging_free_4gb s.kernel s.pages (s.page_directory task)) [
    | none ↦ none
    | some k ↦ elim (task_list_remove s.tasks task) [
      | none ↦ none
      | some t ↦ with_kernel (record s { tasks = t }) (kfree k task)
    ]
  ]

  -- The end of `task_new` behind task_init.
  pub task_joined : System F → ℕ → Result Registers → Option (Result ℕ × System F)
  unfolding task_free
  task_joined s task (err e) = elim (task_free s task) [ none ↦ none | some s' ↦ some (err e, s') ]
  task_joined s task (ok r) = some (
    ok task,
    record s {
      tasks = task_new s.tasks task;
      registers = λ t. if t == task then r else s.registers t;
    },
  )

  -- `task_new` of a process; `none` is the freeing of the task at NULL where there
  -- is no memory for it, and the entry of an ELF file that is NULL.
  pub new_task : System F → ℕ → Option (Result ℕ × System F)
  unfolding task_joined
  new_task s process =
      let (task, k1) = kzalloc s.kernel task_size in
      let c = paging_new_4gb k1 s.pages 5 in
      let made : System F = record s {
        kernel = c.kernel;
        pages = c.pages;
        page_directory = store s.page_directory task c.chunk;
      } in
      if task == 0 then none else elim (s.data_of process).program [
        | none ↦ none
        | some program ↦
            task_joined made task (task_init c.chunk (entry_of c.kernel.memory program))
      ]

  -- The union is freed by its type; the result is not looked at.
  pub process_free_program_data : System F → Option (ℕ × Filetype) → Option (System F)
  unfolding process_free_binary_data process_free_elf_data
  process_free_program_data s none = some s
  process_free_program_data s (some (p, binary ptr size)) =
      with_kernel s (process_free_binary_data s.kernel p)
  process_free_program_data s (some (p, elf file)) =
      with_kernel s (process_free_elf_data s.kernel p file)

  -- The part of `process_free_process` behind the program: the stack, the task, the process.
  pub free_rest : System F → ℕ → ℕ → ℕ → Option (System F)
  unfolding free_some task_free
  free_rest s process stack task = elim (free_some s.kernel stack) [
    | none ↦ none
    | some k ↦
        elim (if task == 0
          then some (record s { kernel = k })
          else task_free (record s { kernel = k }) task) [
            | none ↦ none
            | some s' ↦ with_kernel s' (kfree s'.kernel process)
          ]
  ]

  pub process_free_process : System F → ℕ → Option (System F)
  unfolding process_free_program_data free_rest
  process_free_process s process =
      let d = s.data_of process in
      elim (process_terminate_allocations (world_of s process)) [
        | none ↦ none
        | some w ↦ elim (process_free_program_data (in_world s process w) d.program) [
          | none ↦ none
          | some s' ↦ free_rest s' process d.stack d.task
        ]
      ]

  -- `none` is also the panic where no process is left.
  pub process_terminate : System F → ℕ → Option (System F)
  unfolding process_free_process
  process_terminate s process = elim (process_unlink s.processes process) [
    | none ↦ none
    | some p ↦ process_free_process (record s { processes = p }) process
  ]
